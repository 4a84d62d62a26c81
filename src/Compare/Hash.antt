-- ===== src/Compare/Hash.antt =====
-- internal/compare/hash.go, `Fingerprinter`, with what it uses of hash/fnv and fmt.
pub mod OrderFree
pub mod Bounds
pub mod Encoding
use Prim.Native.Nat.{bit_xor}
use Prim.Native.Char.{Char}
use task274_replaydivergence.Prelude.{
  ℕ, zero, suc, ◌*◌, ◌/◌, ◌%◌, ◌^◌, String, List, [], ◌∷◌, ◌==◌, str_eq, if◌then◌else◌,
}
use task274_replaydivergence.Prelude.Text.{bytes}
use task274_replaydivergence.Prelude.Order.{text_order}
use task274_replaydivergence.Prelude.Sort.{sort_on}
use task274_replaydivergence.Prelude.StrMap.{StrMap, keys, index}
use task274_replaydivergence.Prelude.Unique.{itself}
use task274_replaydivergence.Model.Batch.{default_algo}

pub record Fingerprinter : Type 0 where
  pub algo : String

unfoldable pub new_fingerprinter : String → Fingerprinter
new_fingerprinter algo = record { algo = if str_eq algo "" then default_algo else algo }

-- fnv.New64a and the loop of its Write: xor with the byte, then multiply, modulo 2^64.
abbrev pub fnv_offset : ℕ
fnv_offset = 14695981039346656037

abbrev pub fnv_prime : ℕ
fnv_prime = 1099511628211

unfoldable pub write : ℕ → List ℕ → ℕ
write h [] = h
write h (c ∷ cs) = write (bit_xor h c * fnv_prime % 2 ^ 64) cs

-- The character at a place of a text, "0" past its end.
abbrev char_at : String → ℕ → Char
char_at String.[] n = "0"
char_at (String.◌∷◌ c s) zero = c
char_at (String.◌∷◌ c s) (suc n) = char_at s n

unfoldable pub hex_digit : ℕ → Char
hex_digit d = char_at "0123456789abcdef" d

-- The last `k` hexadecimal digits of `n`, in front of `acc`.
hex_digits : ℕ → ℕ → String → String
unfolding hex_digit
hex_digits zero n acc = acc
hex_digits (suc k) n acc = hex_digits k (n / 16) (String.◌∷◌ (hex_digit (n % 16)) acc)

-- fmt.Sprintf("%016x", n) for a 64-bit n
unfoldable pub hex16 : ℕ → String
unfolding hex_digits
hex16 n = hex_digits 16 n ""

-- The loop over the sorted keys: key, NUL, value, NUL.
unfoldable pub write_state : StrMap String → ℕ → List String → ℕ
unfolding write
write_state state h [] = h
write_state state h (k ∷ ks) =
    write_state state
      (write (write (write (write h (bytes k)) (0 ∷ [])) (bytes (index state k))) (0 ∷ [])) ks

unfoldable pub sum64 : StrMap String → ℕ
unfolding write_state
sum64 state = write_state state fnv_offset (sort_on itself (keys state))

unfoldable pub hash_state : StrMap String → String
unfolding sum64 hex16
hash_state state = hex16 (sum64 state)
