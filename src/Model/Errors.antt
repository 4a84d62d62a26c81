-- ===== src/Model/Errors.antt =====
-- internal/model/errors.go, the domain errors, with the errors that the other packages build by
-- `fmt.Errorf` (as data in place of text) and the two that come from outside: a failed database
-- statement and a cancelled request.
use Prim.Native.String.{String}
use mathlib.Core.Path.{◌≡◌, refl}
use mathlib.Core.Logic.{◌⊎◌, inl, inr}
use task274_replaydivergence.Prelude.Int.{ℤ}

-- Why `parseResource` refuses a text.
pub data ResourceError : Type 0 where
  empty_name bad_form : ResourceError

pub data Error : Type 0 where
  not_found conflict invalid_state sealed_batch : Error
  fingerprint_missing dependency_cycle range_locked : Error
  missing_opcode : ℤ → Error
  bad_read bad_write : ℤ → String → ResourceError → Error
  negative_seq : ℤ → Error
  out_of_order : ℤ → ℤ → Error
  missing_value : ℤ → String → Error
  fingerprint_mismatch : ℤ → Error
  empty_trails invalid_side names_required bad_checkpoint : Error
  database cancelled : Error

pub data Result {ℓ} (A : Type ℓ) : Type ℓ where
  ok : A → Result A
  err : Error → Result A

infixl 10 ◌>>=◌
abbrev pub ◌>>=◌ {ℓ κ} : {A : Type ℓ} {B : Type κ} → Result A → (A → Result B) → Result B
ok a >>= f = f a
err e >>= f = err e

pub Result-cases {ℓ} :
    {A : Type ℓ} (r : Result A) → ((e : Error) × (r ≡ err e)) ⊎ ((a : A) × (r ≡ ok a))
Result-cases (ok a) = inr (a, refl)
Result-cases (err e) = inl (e, refl)

pub ok-injective {ℓ} : {A : Type ℓ} {a b : A} → ok a ≡ ok b → a ≡ b
ok-injective h = cc h
