-- ===== src/Compare/Hash/Encoding.antt =====
-- The bytes that a fingerprint hashes determine the state: keys and values are closed by a NUL,
-- and a text without NUL can be read back from its UTF-8 bytes.
use mathlib.Core.Path.{◌≡◌, ap₂}
use Prim.Native.Char.{code}
use task274_replaydivergence.Prelude.{
  ℕ, ◌≢◌, String, List, ◌++◌, arith, ◌∷◌, sym, [], All, ◌∙◌, ◌*◌, some, none, Option-cases, ◌%◌,
  ◌^◌, refl, inl, inr, All-of_mem, Memᴰ, All-mem,
}
use task274_replaydivergence.Prelude.Text.{utf8, bytes}
use task274_replaydivergence.Prelude.StrMap.{StrMap, index, lookup, SameMap, keys, mem-keys}
use task274_replaydivergence.Compare.Hash.{write, write_state, fnv_prime, sum64, fnv_offset}
use mathlib.Core.List.{append_assoc}
use Prim.Native.Nat.{bit_xor}
use text.Mathlib.TextEquality.{Char-path}
use task274_replaydivergence.Prelude.Sort.{sort_on, mem-sort_on}
use task274_replaydivergence.Prelude.Unique.{itself}
use task274_replaydivergence.Prelude.Order.{text_order}

-- UTF-8 is a prefix code.
utf8-prefix : (n m : ℕ) (x y : List ℕ) → (utf8 n ++ x) ≡ (utf8 m ++ y) → (n ≡ m) × (x ≡ y)
utf8-prefix n m x y e = ground arith

abbrev pub IsNulFree : String → Type 0
IsNulFree String.[] = Unit
IsNulFree (String.◌∷◌ c s) = (code c ≢ 0) × IsNulFree s

-- The bytes of a character that is not NUL do not begin with 0.
no_nul_first : (n : ℕ) (x y : List ℕ) → n ≢ 0 → (utf8 n ++ x) ≢ (0 ∷ y)
no_nul_first n x y h e = ground arith

-- A text without NUL ends at the first NUL that follows its bytes.
bytes_end :
    (s t : String) (x y : List ℕ)
    → IsNulFree s
    → IsNulFree t
    → (bytes s ++ 0 ∷ x) ≡ (bytes t ++ 0 ∷ y)
    → (s ≡ t) × (x ≡ y)
bytes_end String.[] String.[] x y hs ht e = (refl, cc e)
bytes_end String.[] (String.◌∷◌ d t) x y hs ht e = absurd (
    no_nul_first (code d) (bytes t ++ 0 ∷ y) x ht.0
      (sym (append_assoc (utf8 (code d)) (bytes t) (0 ∷ y)) ∙ sym e))
bytes_end (String.◌∷◌ c s) String.[] x y hs ht e = absurd (
    no_nul_first (code c) (bytes s ++ 0 ∷ x) y hs.0
      (sym (append_assoc (utf8 (code c)) (bytes s) (0 ∷ x)) ∙ e))
bytes_end (String.◌∷◌ c s) (String.◌∷◌ d t) x y hs ht e =
    let (same, rest) = utf8-prefix (code c) (code d) (bytes s ++ 0 ∷ x) (bytes t ++ 0 ∷ y) (
      sym (append_assoc (utf8 (code c)) (bytes s) (0 ∷ x))
      ∙ e
      ∙ append_assoc (utf8 (code d)) (bytes t) (0 ∷ y)) in
    let (tail, after) = bytes_end s t x y hs.1 ht.1 rest in
    (ap₂ String.◌∷◌ (Char-path c d same) tail, after)

-- The bytes of the entries for the keys `ks`.
pub encode : StrMap String → List String → List ℕ
encode m [] = []
encode m (k ∷ ks) = bytes k ++ 0 ∷ (bytes (index m k) ++ 0 ∷ encode m ks)

write-append : (xs ys : List ℕ) (h : ℕ) → write h (xs ++ ys) ≡ write (write h xs) ys
unfolding write
write-append [] ys h = refl
write-append (x ∷ xs) ys h = write-append xs ys (bit_xor h x * fnv_prime % 2 ^ 64)

write_state-eq-write :
    (m : StrMap String) (ks : List String) (h : ℕ) → write_state m h ks ≡ write h (encode m ks)
unfolding write_state encode
write_state-eq-write m [] h = refl
write_state-eq-write m (k ∷ ks) h =
    write_state-eq-write m ks
      (write (write (write (write h (bytes k)) (0 ∷ [])) (bytes (index m k))) (0 ∷ []))
    ∙ sym (
        write-append (bytes k) (0 ∷ (bytes (index m k) ++ 0 ∷ encode m ks)) h
        ∙ write-append (bytes (index m k)) (0 ∷ encode m ks) (write (write h (bytes k)) (0 ∷ [])))

-- No key and no value has a NUL.
abbrev pub HasNoNul : StrMap String → Type 0
HasNoNul m = (k v : String) → lookup k m ≡ some v → IsNulFree k × IsNulFree v

IsNulFree-entry :
    (m : StrMap String) (k : String)
    → HasNoNul m
    → lookup k m ≢ none
    → IsNulFree k × IsNulFree (index m k)
unfolding index
IsNulFree-entry m k h found = elim (Option-cases (lookup k m)) [
  | inl e ↦ absurd (found e)
  | inr (v, e) ↦ rw (e, index) (h k v e)
]

nil_ne_append : (xs : List ℕ) (y : ℕ) (ys : List ℕ) → [] ≢ (xs ++ y ∷ ys)
nil_ne_append [] y ys e = cc
nil_ne_append (x ∷ xs) y ys e = cc

encode-injective :
    (m n : StrMap String) (ks ls : List String)
    → All (λ k. IsNulFree k × IsNulFree (index m k)) ks
    → All (λ k. IsNulFree k × IsNulFree (index n k)) ls
    → encode m ks ≡ encode n ls
    → (ks ≡ ls) × All (λ k. index m k ≡ index n k) ks
unfolding encode
encode-injective m n [] [] hk hl e = (refl, tt)
encode-injective m n [] (l ∷ ls) hk hl e = absurd (nil_ne_append (bytes l) _ _ e)
encode-injective m n (k ∷ ks) [] hk hl e = absurd (nil_ne_append (bytes k) _ _ (sym e))
encode-injective m n (k ∷ ks) (l ∷ ls) hk hl e =
    let (same_key, rest) = bytes_end k l _ _ hk.0.0 hl.0.0 e in
    let (same_value, more) = bytes_end (index m k) (index n l) _ _ hk.0.1 hl.0.1 rest in
    let (same_keys, same_values) = encode-injective m n ks ls hk.1 hl.1 more in
    (
      ap₂ (λ x xs. x ∷ xs) same_key same_keys,
      (rw same_key (rw same_key at same_value), same_values),
    )

-- What is hashed for a state: the entries in the order of their sorted keys.
pub hashed_bytes : StrMap String → List ℕ
hashed_bytes m = encode m (sort_on itself (keys m))

All-IsNulFree :
    (m : StrMap String)
    → HasNoNul m
    → All (λ k. IsNulFree k × IsNulFree (index m k)) (sort_on itself (keys m))
All-IsNulFree m h =
    All-of_mem (λ k. IsNulFree k × IsNulFree (index m k)) (sort_on itself (keys m))
      λ k listed.
        IsNulFree-entry m k h ((mem-keys k m).0 ((mem-sort_on itself k (keys m)).0 listed))

lookup_of_index :
    (m n : StrMap String) (k : String)
    → lookup k m ≢ none
    → lookup k n ≢ none
    → index m k ≡ index n k
    → lookup k m ≡ lookup k n
unfolding index
lookup_of_index m n k hm hn e = ground arith

hashed_bytes-injective :
    (m n : StrMap String) → HasNoNul m → HasNoNul n → hashed_bytes m ≡ hashed_bytes n → SameMap m n
unfolding hashed_bytes
hashed_bytes-injective m n hm hn e k =
    let (same_keys, same_values) =
      encode-injective m n _ _ (All-IsNulFree m hm) (All-IsNulFree n hn) e in
    let listed = λ (o : StrMap String).
      (λ (f : lookup k o ≢ none). (mem-sort_on itself k (keys o)).1 ((mem-keys k o).1 f)) in
    let found = λ (o : StrMap String). (λ (f : Memᴰ k (sort_on itself (keys o))).
      (mem-keys k o).0 ((mem-sort_on itself k (keys o)).0 f)) in
    elim (Option-cases (lookup k m)) [
      | inl missing ↦ elim (Option-cases (lookup k n)) [
        | inl missing' ↦ missing ∙ sym missing'
        | inr (v, there) ↦ absurd (found m (rw same_keys (listed n (λ p. cc (p, there)))) missing)
      ]
      | inr (v, there) ↦
          let here : Memᴰ k (sort_on itself (keys m)) = listed m (λ p. cc (p, there)) in
          lookup_of_index m n k (found m here) (found n (rw same_keys at here))
            (All-mem (λ j. index m j ≡ index n j) _ k same_values here)
    ]

-- The 64-bit sum of a state is FNV-1a of a byte string which, among states whose texts have no
-- NUL, determines the value at every key: two different such states share a sum only by a
-- collision of FNV-1a.
pub sum64_of_state :
    (m n : StrMap String)
    → HasNoNul m
    → HasNoNul n
    → (sum64 m ≡ write fnv_offset (hashed_bytes m))
      × (hashed_bytes m ≡ hashed_bytes n → SameMap m n)
unfolding sum64 hashed_bytes
sum64_of_state m n hm hn =
    (write_state-eq-write m (sort_on itself (keys m)) fnv_offset, hashed_bytes-injective m n hm hn)
