-- ===== src/Compare/Hash/Bounds.antt =====
-- The 64-bit sum, and the sixteen digits that print it.
use mathlib.Core.Path.{◌≡◌, refl, ap}
use task274_replaydivergence.Prelude.{
  ℕ, zero, suc, ◌^◌, ◌<◌, Bool, true, ◌&&◌, ◌==◌, List, [], ◌∷◌, arith, ltb, if◌then◌else◌, ◌↔◌,
  ◌/◌, ◌%◌,
}
use task274_replaydivergence.Prelude.Order.{text_order}
use task274_replaydivergence.Prelude.Sort.{sort_on}
use task274_replaydivergence.Prelude.Unique.{itself}
use task274_replaydivergence.Prelude.StrMap.{keys}
use Prim.Native.Char.{Char, code}
use Prim.Native.Nat.{◌-◌}
use task274_replaydivergence.Compare.Hash.{
  write, hex_digit, String, hex_digits, write_state, sum64, hash_state, StrMap, hex16, bytes,
  fnv_offset, index,
}
use native.Mathlib.Nat.{pow-suc}

write-lt : (cs : List ℕ) (h : ℕ) → h < 2 ^ 64 → write h cs < 2 ^ 64
unfolding write
write-lt [] h lt = lt
write-lt (c ∷ cs) h lt = write-lt cs _ (omega arith)

-- A test that all numbers under a bound pass.
passes_under : (ℕ → Bool) → ℕ → Bool
passes_under test zero = true
passes_under test (suc bound) = test bound && passes_under test bound

passes_under_lem :
    (test : ℕ → Bool) (bound d : ℕ) → d < bound → passes_under test bound ≡ true → test d ≡ true
unfolding passes_under
passes_under_lem test zero d below all = absurd (omega arith)
passes_under_lem test (suc bound) d below all = ground (arith, passes_under_lem test bound d)

-- The value of a hexadecimal digit.
digit_value : Char → ℕ
digit_value c = if ltb (code c) 58 then code c - 48 else code c - 87

digit_table : passes_under (λ d. digit_value (hex_digit d) == d) 16 ≡ true
unfolding passes_under digit_value hex_digit
digit_table = refl

digit_value-hex_digit : (d : ℕ) → d < 16 → digit_value (hex_digit d) ≡ d
digit_value-hex_digit d lt =
    ground (arith, passes_under_lem (λ x. digit_value (hex_digit x) == x) 16 d lt digit_table)

hex_digit-injective : (a b : ℕ) → a < 16 → b < 16 → hex_digit a ≡ hex_digit b → a ≡ b
hex_digit-injective a b la lb e =
    cc (ap digit_value e, digit_value-hex_digit a la, digit_value-hex_digit b lb)

cons-injective :
    (c d : Char) (s t : String)
    → ◌≡◌ {A = String} (String.◌∷◌ c s) (String.◌∷◌ d t)
    → (c ≡ d) × (s ≡ t)
cons-injective c d s t e = (cc e, cc e)

-- Digits that read alike, in front of texts that read alike, are those of one number.
hex_digits-injective :
    (k n m : ℕ) (s t : String)
    → n < 16 ^ k
    → m < 16 ^ k
    → hex_digits k n s ≡ hex_digits k m t
    → (n ≡ m) × (s ≡ t)
unfolding hex_digits
hex_digits-injective zero n m s t ln lm e = (omega arith, e)
hex_digits-injective (suc k) n m s t ln lm e =
    let (high, low) =
      hex_digits-injective k (n / 16) (m / 16) (String.◌∷◌ (hex_digit (n % 16)) s)
        (String.◌∷◌ (hex_digit (m % 16)) t) (omega (arith, pow-suc 16 k))
        (omega (arith, pow-suc 16 k)) e in
    let (digit, rest) = cons-injective _ _ _ _ low in
    let last = hex_digit-injective (n % 16) (m % 16) (omega arith) (omega arith) digit in
    (omega arith, rest)

write_state-lt :
    (m : StrMap String) (ks : List String) (h : ℕ) → h < 2 ^ 64 → write_state m h ks < 2 ^ 64
unfolding write_state
write_state-lt m [] h lt = lt
write_state-lt m (k ∷ ks) h lt =
    let after_key = write-lt (0 ∷ []) _ (write-lt (bytes k) h lt) in
    let after_value = write-lt (0 ∷ []) _ (write-lt (bytes (index m k)) _ after_key) in
    write_state-lt m ks _ after_value

sum64-lt : (m : StrMap String) → sum64 m < 2 ^ 64
unfolding sum64
sum64-lt m = write_state-lt m (sort_on itself (keys m)) fnv_offset (omega arith)

-- The printed fingerprints of two states are equal exactly if the 64-bit sums are.
hash_state_eq_iff_sum64 :
    (m n : StrMap String) → (hash_state m ≡ hash_state n) ↔ (sum64 m ≡ sum64 n)
unfolding hash_state hex16
hash_state_eq_iff_sum64 m n = (
  λ e. (hex_digits-injective 16 (sum64 m) (sum64 n) "" "" (sum64-lt m) (sum64-lt n) e).0,
  λ e. ap hex16 e,
)
