-- ===== src/Store/World/Quiet.antt =====
-- Calls that change no table, and calls that change none when they fail.
use task274_replaydivergence.Prelude.{
  ◌≡◌, refl, ap, ◌∙◌, Bool, ◌≢◌, if◌then◌else◌, true, inl, sym, inr, false,
}
use task274_replaydivergence.Model.Exec.{Exec, raise, >>=-cases, ◌>>=◌, pure}
use task274_replaydivergence.Model.Errors.{Error, err, Result}
use task274_replaydivergence.Store.World.{World, statement, with_tx}
use task274_replaydivergence.Store.World.Atomic.{
  SameTables, tables, statement-SameTables, with_tx-SameTables,
}

-- The call changes no table.
pub record IsQuiet {A : Type 0} (m : Exec World A) : Type 0 where
  pub same : (w : World) → SameTables (m w).1 w

-- If the call returns an error, it has changed no table.
pub record IsAtomic {A : Type 0} (m : Exec World A) : Type 0 where
  pub same : (w : World) (e : Error) → (m w).0 ≡ err e → SameTables (m w).1 w

-- What the database is asked first changes nothing.
pub statement-IsQuiet : IsQuiet statement
statement-IsQuiet = record { same = statement-SameTables }

pub with_tx-IsAtomic : {A : Type 0} (fn : Exec World A) → IsAtomic (with_tx fn)
with_tx-IsAtomic fn = record { same = with_tx-SameTables fn }

pub pure-IsQuiet : {A : Type 0} (a : A) → IsQuiet (pure a)
pure-IsQuiet a = record { same = λ w. refl }

-- A call that reads: its result is computed from the world.
pub read-IsQuiet : {A : Type 0} (f : World → Result A) → IsQuiet (λ (w : World). (f w, w))
read-IsQuiet f = record { same = λ w. refl }

pub IsAtomic-of_IsQuiet : {A : Type 0} (m : Exec World A) → IsQuiet m → IsAtomic m
IsAtomic-of_IsQuiet m q = record { same = λ w e h. q.same w }

module _ {A B : Type 0} (m : Exec World A) (f : A → Exec World B) where
  pub >>=-IsQuiet : IsQuiet m → ((a : A) → IsQuiet (f a)) → IsQuiet (m >>= f)
  >>=-IsQuiet first next = record {
    same = λ w. elim (>>=-cases m f w) [
      | inl (a, h) ↦ ap (λ p. tables p.1) h ∙ (next a).same (m w).1 ∙ first.same w
      | inr (e, _, h) ↦ ap (λ p. tables p.1) h ∙ first.same w
    ];
  }

  pub >>=-IsAtomic : IsQuiet m → ((a : A) → IsAtomic (f a)) → IsAtomic (m >>= f)
  >>=-IsAtomic first next = record {
    same = λ w e failed. elim (>>=-cases m f w) [
      | inl (a, h) ↦
          ap (λ p. tables p.1) h
          ∙ (next a).same (m w).1 e (sym (ap (λ p. p.0) h) ∙ failed)
          ∙ first.same w
      | inr (_, _, h) ↦ ap (λ p. tables p.1) h ∙ first.same w
    ];
  }

  -- The last call of a chain may change tables, if what follows it cannot fail.
  pub >>=-IsAtomic_pure :
      IsAtomic m → ((a : A) (w : World) (e : Error) → (f a w).0 ≢ err e) → IsAtomic (m >>= f)
  >>=-IsAtomic_pure first never = record {
    same = λ w e failed. elim (>>=-cases m f w) [
      | inl (a, h) ↦ absurd (never a (m w).1 e (sym (ap (λ p. p.0) h) ∙ failed))
      | inr (x, bad, h) ↦ ap (λ p. tables p.1) h ∙ first.same w x bad
    ];
  }

pub if-IsAtomic :
    {A : Type 0} (b : Bool) (m n : Exec World A)
    → IsAtomic m
    → IsAtomic n
    → IsAtomic (if b then m else n)
if-IsAtomic true m n hm hn = hm
if-IsAtomic false m n hm hn = hn

pub if-IsQuiet :
    {A : Type 0} (b : Bool) (m n : Exec World A)
    → IsQuiet m
    → IsQuiet n
    → IsQuiet (if b then m else n)
if-IsQuiet true m n hm hn = hm
if-IsQuiet false m n hm hn = hn

pub raise-IsAtomic : {A : Type 0} (x : Error) → IsAtomic {A = A} (raise x)
raise-IsAtomic x = record { same = λ w e h. refl }
