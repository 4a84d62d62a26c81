-- ===== src/Prelude/Rows.antt =====
-- Tables as lists of rows: membership after an INSERT and an UPDATE, rows that are numbered by ids
-- below the next one, and rows of which at most one has something.
use Prim.Native.Nat.{ℕ, ◌+◌, ◌<◌}
use mathlib.Core.Path.{◌≡◌, refl, sym, ap, ◌∙◌, subst}
use mathlib.Core.Logic.{◌⊎◌, ◌≢◌, inl, inr}
use mathlib.Core.List.{List, [], ◌∷◌, ◌++◌, map}
use native.Mathlib.Omega.{arith}
use task274_replaydivergence.Prelude.Lists.{All, All-mem, Memᴰ}
use task274_replaydivergence.Prelude.{Bool, keep, Bool-cases}

module _ {ℓ κ} {A : Type ℓ} {B : Type κ} where
  pub Memᴰ-map :
      (f : A → B) (y : B) (xs : List A) → Memᴰ y (map f xs) → (x : A) × Memᴰ x xs × (y ≡ f x)
  Memᴰ-map f y [] m = absurd (elim m [ ])
  Memᴰ-map f y (x ∷ xs) (Memᴰ.head e) = (x, Memᴰ.head refl, e)
  Memᴰ-map f y (x ∷ xs) (Memᴰ.tail m) = let (z, k, e) = Memᴰ-map f y xs m in (z, Memᴰ.tail k, e)

  pub map-Memᴰ : (f : A → B) (x : A) (xs : List A) → Memᴰ x xs → Memᴰ (f x) (map f xs)
  map-Memᴰ f x [] m = absurd (elim m [ ])
  map-Memᴰ f x (y ∷ ys) (Memᴰ.head e) = Memᴰ.head (ap f e)
  map-Memᴰ f x (y ∷ ys) (Memᴰ.tail m) = Memᴰ.tail (map-Memᴰ f x ys m)

module _ {ℓ} {A : Type ℓ} where
  pub Memᴰ-snoc : (a x : A) (xs : List A) → (Memᴰ a xs ⊎ (a ≡ x)) → Memᴰ a (xs ++ x ∷ [])
  Memᴰ-snoc a x [] (inl m) = absurd (elim m [ ])
  Memᴰ-snoc a x [] (inr e) = Memᴰ.head e
  Memᴰ-snoc a x (y ∷ ys) (inl (Memᴰ.head e)) = Memᴰ.head e
  Memᴰ-snoc a x (y ∷ ys) (inl (Memᴰ.tail m)) = Memᴰ.tail (Memᴰ-snoc a x ys (inl m))
  Memᴰ-snoc a x (y ∷ ys) (inr e) = Memᴰ.tail (Memᴰ-snoc a x ys (inr e))

  pub snoc-Memᴰ : (a x : A) (xs : List A) → Memᴰ a (xs ++ x ∷ []) → Memᴰ a xs ⊎ (a ≡ x)
  snoc-Memᴰ a x [] (Memᴰ.head e) = inr e
  snoc-Memᴰ a x [] (Memᴰ.tail m) = absurd (elim m [ ])
  snoc-Memᴰ a x (y ∷ ys) (Memᴰ.head e) = inl (Memᴰ.head e)
  snoc-Memᴰ a x (y ∷ ys) (Memᴰ.tail m) = elim (snoc-Memᴰ a x ys m) [
    | inl k ↦ inl (Memᴰ.tail k)
    | inr e ↦ inr e
  ]

module _ {ℓ κ} {A : Type ℓ} where
  -- Of the rows that `R` puts together there is one only.
  abbrev pub IsAlone : (A → A → Type κ) → List A → Type (ℓ ⊔ κ)
  IsAlone R xs = (x y : A) → Memᴰ x xs → Memᴰ y xs → R x y → x ≡ y

  pub IsAlone-snoc :
      (R : A → A → Type κ) (xs : List A) (a : A)
      → ((x : A) → Memᴰ x xs → R x a → ⊥)
      → ((x : A) → Memᴰ x xs → R a x → ⊥)
      → IsAlone R xs
      → IsAlone R (xs ++ a ∷ [])
  IsAlone-snoc R xs a no_later no_sooner h x y mx my r = elim (snoc-Memᴰ x a xs mx) [
    | inl kx ↦ elim (snoc-Memᴰ y a xs my) [
      | inl ky ↦ h x y kx ky r
      | inr ey ↦ absurd (no_later x kx (subst (λ z. R x z) ey r))
    ]
    | inr ex ↦ elim (snoc-Memᴰ y a xs my) [
      | inl ky ↦ absurd (no_sooner y ky (subst (λ z. R z y) ex r))
      | inr ey ↦ ex ∙ sym ey
    ]
  ]

  pub IsAlone-map :
      (R : A → A → Type κ) (f : A → A) (xs : List A)
      → ((x y : A) → Memᴰ x xs → Memᴰ y xs → R (f x) (f y) → R x y)
      → IsAlone R xs
      → IsAlone R (map f xs)
  IsAlone-map R f xs back h x y mx my r =
      let (u, ku, eu) = Memᴰ-map f x xs mx in
      let (v, kv, ev) = Memᴰ-map f y xs my in
      eu
      ∙ ap f (h u v ku kv (back u v ku kv (subst (λ z. R z (f v)) eu (subst (λ z. R x z) ev r))))
      ∙ sym ev

module _ {ℓ} {A : Type ℓ} (id : A → ℕ) where
  -- The ids are distinct and below the one that comes next.
  abbrev pub IsNumbered : ℕ → List A → Type 0
  IsNumbered next [] = Unit
  IsNumbered next (x ∷ xs) = (id x < next) × All (λ y. id x ≢ id y) xs × IsNumbered next xs

  pub IsNumbered-lt :
      (next : ℕ) (xs : List A) (x : A) → IsNumbered next xs → Memᴰ x xs → id x < next
  IsNumbered-lt next [] x h m = absurd (elim m [ ])
  IsNumbered-lt next (y ∷ ys) x h (Memᴰ.head e) = subst (λ z. id z < next) (sym e) h.0
  IsNumbered-lt next (y ∷ ys) x h (Memᴰ.tail m) = IsNumbered-lt next ys x h.2 m

  -- An id names one row.
  pub IsNumbered-eq :
      (next : ℕ) (xs : List A) (x y : A)
      → IsNumbered next xs
      → Memᴰ x xs
      → Memᴰ y xs
      → id x ≡ id y
      → x ≡ y
  IsNumbered-eq next [] x y h mx my e = absurd (elim mx [ ])
  IsNumbered-eq next (z ∷ zs) x y h (Memᴰ.head ex) (Memᴰ.head ey) e = ex ∙ sym ey
  IsNumbered-eq next (z ∷ zs) x y h (Memᴰ.head ex) (Memᴰ.tail my) e =
      absurd (All-mem (λ y. id z ≢ id y) zs y h.1 my (sym (ap id ex) ∙ e))
  IsNumbered-eq next (z ∷ zs) x y h (Memᴰ.tail mx) (Memᴰ.head ey) e =
      absurd (All-mem (λ y. id z ≢ id y) zs x h.1 mx (sym (ap id ey) ∙ sym e))
  IsNumbered-eq next (z ∷ zs) x y h (Memᴰ.tail mx) (Memᴰ.tail my) e =
      IsNumbered-eq next zs x y h.2 mx my e

  pub IsNumbered-snoc :
      (next : ℕ) (xs : List A) (a : A)
      → id a ≡ next
      → IsNumbered next xs
      → IsNumbered (next + 1) (xs ++ a ∷ [])
  IsNumbered-snoc next [] a e h = (omega (arith, e), tt, tt)
  IsNumbered-snoc next (x ∷ xs) a e h =
      (omega (arith, h.0), apart xs h.1, IsNumbered-snoc next xs a e h.2)
    where
      apart : (ys : List A) → All (λ y. id x ≢ id y) ys → All (λ y. id x ≢ id y) (ys ++ a ∷ [])
      apart [] k = (λ same. omega (arith, h.0, same, e), tt)
      apart (y ∷ ys) k = (k.0, apart ys k.1)

  -- An UPDATE keeps the ids.
  pub IsNumbered-map :
      (next : ℕ) (f : A → A) (xs : List A)
      → ((x : A) → id (f x) ≡ id x)
      → IsNumbered next xs
      → IsNumbered next (map f xs)
  IsNumbered-map next f [] same h = tt
  IsNumbered-map next f (x ∷ xs) same h =
      (subst (λ n. n < next) (sym (same x)) h.0, apart xs h.1, IsNumbered-map next f xs same h.2)
    where
      apart : (ys : List A) → All (λ y. id x ≢ id y) ys → All (λ y. id (f x) ≢ id y) (map f ys)
      apart [] k = tt
      apart (y ∷ ys) k = (λ e. k.0 (sym (same x) ∙ e ∙ same y), apart ys k.1)

  -- An id may be passed over.
  pub IsNumbered-weaken : (next : ℕ) (xs : List A) → IsNumbered next xs → IsNumbered (next + 1) xs
  IsNumbered-weaken next [] h = tt
  IsNumbered-weaken next (x ∷ xs) h = (omega (arith, h.0), h.1, IsNumbered-weaken next xs h.2)

  All-keep : (P : A → Type 0) (p : A → Bool) (xs : List A) → All P xs → All P (keep p xs)
  All-keep P p [] h = tt
  All-keep P p (x ∷ xs) h = elim (Bool-cases (p x)) [
    | inl b ↦ rw b (h.0, All-keep P p xs h.1)
    | inr b ↦ rw b (All-keep P p xs h.1)
  ]

  -- A DELETE keeps the ids apart.
  pub IsNumbered-keep :
      (next : ℕ) (p : A → Bool) (xs : List A) → IsNumbered next xs → IsNumbered next (keep p xs)
  IsNumbered-keep next p [] h = tt
  IsNumbered-keep next p (x ∷ xs) h = elim (Bool-cases (p x)) [
    | inl b ↦ rw b (h.0, All-keep (λ y. id x ≢ id y) p xs h.1, IsNumbered-keep next p xs h.2)
    | inr b ↦ rw b (IsNumbered-keep next p xs h.2)
  ]
