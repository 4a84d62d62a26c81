-- ===== src/Model/Exec.antt =====
-- Calls that read and write a state and may fail. What was written before a failure stays written,
-- so the state comes back beside the error too.
use task274_replaydivergence.Model.Errors.{Error, Result, ok, err, Result-cases}
use mathlib.Core.Path.{fun_ext}
use task274_replaydivergence.Prelude.{◌≡◌, ap, refl, ◌⊎◌, inl, inr}

abbrev pub Exec {ℓ} : Type ℓ → Type ℓ → Type ℓ
Exec S A = S → Result A × S

module _ {ℓ} {S A : Type ℓ} where
  abbrev pub pure : A → Exec S A
  pure a s = (ok a, s)

  abbrev pub raise : Error → Exec S A
  raise e s = (err e, s)

  abbrev pub lift : Result A → Exec S A
  lift r s = (r, s)

  abbrev pub gets : (S → A) → Exec S A
  gets f s = (ok (f s), s)

module _ {ℓ} {S A B : Type ℓ} where
  infixl 10 ◌>>=◌ ◌>>◌
  unfoldable pub ◌>>=◌ : Exec S A → (A → Exec S B) → Exec S B
  ◌>>=◌ m f s = let (r, s') = m s in elim r [ ok a ↦ f a s' | err e ↦ (err e, s') ]

  abbrev pub ◌>>◌ : Exec S A → Exec S B → Exec S B
  m >> n = m >>= λ _. n

  -- A call whose first part returned goes on with the second; otherwise it ends there.
  pub >>=-of_ok :
      (m : Exec S A) (f : A → Exec S B) (s s' : S) (a : A) → m s ≡ (ok a, s') → (m >>= f) s ≡ f a s'
  unfolding ◌>>=◌
  >>=-of_ok m f s s' a h = ap (λ p. elim p.0 [ ok x ↦ f x p.1 | err e ↦ (err e, p.1) ]) h

  pub >>=-of_err :
      (m : Exec S A) (f : A → Exec S B) (s s' : S) (e : Error)
      → m s ≡ (err e, s')
      → (m >>= f) s ≡ (err e, s')
  unfolding ◌>>=◌
  >>=-of_err m f s s' e h = ap (λ p. elim p.0 [ ok x ↦ f x p.1 | err x ↦ (err x, p.1) ]) h

  -- Calls that go on alike end alike.
  pub >>=-ext :
      (m : Exec S A) (f g : A → Exec S B) (s : S)
      → ((a : A) (s' : S) → f a s' ≡ g a s')
      → (m >>= f) s ≡ (m >>= g) s
  >>=-ext m f g s h = ap (λ k. (m >>= k) s) (fun_ext λ a. fun_ext λ s'. h a s')

  -- What a call leaves, by how its first part ends.
  pub >>=-cases :
      (m : Exec S A) (f : A → Exec S B) (s : S)
      → ((a : A) × ((m >>= f) s ≡ f a (m s).1))
        ⊎ ((e : Error) × ((m s).0 ≡ err e) × ((m >>= f) s ≡ (err e, (m s).1)))
  >>=-cases m f s = elim (Result-cases (m s).0) [
    | inl (e, h) ↦ inr (e, h, >>=-of_err m f s (m s).1 e (ap (λ r. (r, (m s).1)) h))
    | inr (a, h) ↦ inl (a, >>=-of_ok m f s (m s).1 a (ap (λ r. (r, (m s).1)) h))
  ]

  -- Inversion of a call that succeeded.
  pub >>=-eq-ok :
      (m : Exec S A) (f : A → Exec S B) (s s'' : S) (b : B)
      → (m >>= f) s ≡ (ok b, s'')
      → (a : A) × (s' : S) × (m s ≡ (ok a, s')) × (f a s' ≡ (ok b, s''))
  unfolding ◌>>=◌
  >>=-eq-ok m f s s'' b h = after (m s) refl h
    where
      after :
          (p : Result A × S)
          → m s ≡ p
          → elim p.0 [ ok a ↦ f a p.1 | err e ↦ (err e, p.1) ] ≡ (ok b, s'')
          → (a : A) × (s' : S) × (m s ≡ (ok a, s')) × (f a s' ≡ (ok b, s''))
      after (ok a, s') e k = (a, s', e, k)
      after (err x, s') e k = cc (ap (λ q. q.0) k)
