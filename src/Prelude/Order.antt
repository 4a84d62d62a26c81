-- ===== src/Prelude/Order.antt =====
-- What `sort.Slice` needs of a `less`: a strict order in which unrelated keys are equal.
use Prim.Native.String.{String}
use mathlib.Core.Path.{◌≡◌}
use mathlib.Core.Bool.{Bool, true, false}
use native.Mathlib.Omega.{arith}
use mathlib.Core.Logic.{inl, inr}
use task274_replaydivergence.Prelude.Tests.{Bool-cases}
use task274_replaydivergence.Prelude.Int.{ℤ, ltb_ℤ, eq_of_parts, eqb_ℤ}
use task274_replaydivergence.Prelude.Text.{text_lt, text_lt_trans, text_lt_asymm, text_lt_connex}
use task274_replaydivergence.Prelude.{if◌then◌else◌}

pub record Order {ℓ} (K : Type ℓ) : Type ℓ where
  pub lt : K → K → Bool
  pub trans : (a b c : K) → lt a b ≡ true → lt b c ≡ true → lt a c ≡ true
  pub asymm : (a b : K) → lt a b ≡ true → lt b a ≡ false
  pub connex : (a b : K) → lt a b ≡ false → lt b a ≡ false → a ≡ b

pub ltb_ℤ_trans : (a b c : ℤ) → ltb_ℤ a b ≡ true → ltb_ℤ b c ≡ true → ltb_ℤ a c ≡ true
ltb_ℤ_trans a b c h k = ground arith

pub ltb_ℤ_asymm : (a b : ℤ) → ltb_ℤ a b ≡ true → ltb_ℤ b a ≡ false
ltb_ℤ_asymm a b h = ground arith

pub ltb_ℤ_connex : (a b : ℤ) → ltb_ℤ a b ≡ false → ltb_ℤ b a ≡ false → a ≡ b
ltb_ℤ_connex a b h k = ground (arith, eq_of_parts a b)

instance abbrev pub int_order : Order ℤ
int_order = record { lt = ltb_ℤ; trans = ltb_ℤ_trans; asymm = ltb_ℤ_asymm; connex = ltb_ℤ_connex }

instance abbrev pub text_order : Order String
text_order = record {
  lt = text_lt;
  trans = text_lt_trans;
  asymm = text_lt_asymm;
  connex = text_lt_connex;
}

-- By an integer, then by a text.
abbrev pub lt_pair : ℤ × String → ℤ × String → Bool
lt_pair (a, s) (b, t) = if eqb_ℤ a b then text_lt s t else ltb_ℤ a b

pub lt_pair_trans :
    (x y z : ℤ × String) → lt_pair x y ≡ true → lt_pair y z ≡ true → lt_pair x z ≡ true
lt_pair_trans (a, s) (b, t) (c, u) h k = ground (arith, text_lt_trans s t u)

pub lt_pair_asymm : (x y : ℤ × String) → lt_pair x y ≡ true → lt_pair y x ≡ false
lt_pair_asymm (a, s) (b, t) h = ground (arith, text_lt_asymm s t)

pub lt_pair_connex : (x y : ℤ × String) → lt_pair x y ≡ false → lt_pair y x ≡ false → x ≡ y
lt_pair_connex (a, s) (b, t) h k = ground (arith, text_lt_connex s t, eq_of_parts a b)

instance abbrev pub pair_order : Order (ℤ × String)
pair_order = record {
  lt = lt_pair;
  trans = lt_pair_trans;
  asymm = lt_pair_asymm;
  connex = lt_pair_connex;
}

module _ {ℓ} {K : Type ℓ} ⦃o : Order K⦄ where
  -- "not after" is transitive.
  pub le_lt_trans : (a b c : K) → o.lt b a ≡ false → o.lt c b ≡ false → o.lt c a ≡ false
  le_lt_trans a b c h k = elim (Bool-cases (o.lt b c)) [
    | inl p ↦ elim (Bool-cases (o.lt c a)) [ inl q ↦ cc (o.trans b c a p q) | inr q ↦ q ]
    | inr p ↦ cc (o.connex b c p k)
  ]

  pub lt_irrefl : (a : K) → o.lt a a ≡ false
  lt_irrefl a = elim (Bool-cases (o.lt a a)) [ inl p ↦ o.asymm a a p | inr p ↦ p ]
