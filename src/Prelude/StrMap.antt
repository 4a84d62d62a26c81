-- ===== src/Prelude/StrMap.antt =====
-- Go's `map[string]V` as an association list. Go leaves the order of iteration open; here it is
-- that of the list.
use Prim.Native.String.{String}
use mathlib.Core.Path.{◌≡◌, refl, sym}
use mathlib.Core.Logic.{◌≢◌, ◌↔◌, ◌⊎◌, inl, inr}
use mathlib.Core.Option.{Option, none, some}
use mathlib.Core.List.{List, [], ◌∷◌}
use native.Mathlib.Omega.{arith}
use task274_replaydivergence.Prelude.Tests.{Bool-cases, if◌then◌else◌, str_eq, eq_iff}
use task274_replaydivergence.Prelude.Lists.{All, Memᴰ, Memᴰ-cons}
use task274_replaydivergence.Prelude.Order.{text_order}
use task274_replaydivergence.Prelude.Unique.{IsDistinct, itself}

abbrev pub StrMap {ℓ} : Type ℓ → Type ℓ
StrMap V = List (String × V)

module _ {ℓ} {V : Type ℓ} where
  -- v, ok := m[k]
  unfoldable pub lookup : String → StrMap V → Option V
  lookup key [] = none
  lookup key (entry ∷ rest) = if str_eq entry.0 key then some entry.1 else lookup key rest

  -- m[k] = v
  unfoldable pub insert : String → V → StrMap V → StrMap V
  insert key v [] = (key, v) ∷ []
  insert key v (entry ∷ rest) =
      if str_eq entry.0 key then (key, v) ∷ rest else entry ∷ insert key v rest

  abbrev pub keys : StrMap V → List String
  keys [] = []
  keys ((k, v) ∷ m) = k ∷ keys m

  -- What a Go map is by construction: a key occurs once.
  abbrev pub IsMap : StrMap V → Type 0
  IsMap m = IsDistinct itself (keys m)

  pub lookup-insert :
      (k j : String) (v : V) (m : StrMap V)
      → lookup j (insert k v m) ≡ (if str_eq k j then some v else lookup j m)
  unfolding lookup insert
  lookup-insert k j v [] = refl
  lookup-insert k j v (entry ∷ rest) =
      let later = lookup-insert k j v rest in
      ground (arith, later, eq_iff entry.0 k, eq_iff entry.0 j, eq_iff k j)

  -- The first value that is there.
  abbrev pub or_else : Option V → Option V → Option V
  or_else none o = o
  or_else (some v) o = some v

  pub or_else-none : (o : Option V) → or_else o none ≡ o
  or_else-none none = refl
  or_else-none (some v) = refl

  -- A key is listed exactly if it is found.
  pub mem-keys : (k : String) (m : StrMap V) → Memᴰ k (keys m) ↔ (lookup k m ≢ none)
  unfolding lookup
  mem-keys k [] = (λ m. elim m [ ], λ n. absurd (n refl))
  mem-keys k ((j, v) ∷ m) = ground (arith, Memᴰ-cons k j (keys m), mem-keys k m, eq_iff j k)

  pub lookup_of_fresh : (k : String) (m : StrMap V) → All (λ j. k ≢ j) (keys m) → lookup k m ≡ none
  unfolding lookup
  lookup_of_fresh k [] h = refl
  lookup_of_fresh k ((j, v) ∷ m) h = elim (Bool-cases (str_eq j k)) [
    | inl b ↦ absurd (h.0 (sym ((eq_iff j k).0 b)))
    | inr b ↦ rw b (lookup_of_fresh k m h.1)
  ]

  pub mem-keys-insert :
      (j k : String) (v : V) (m : StrMap V)
      → Memᴰ j (keys (insert k v m)) ↔ ((j ≡ k) ⊎ Memᴰ j (keys m))
  unfolding insert
  mem-keys-insert j k v [] = Memᴰ-cons j k []
  mem-keys-insert j k v ((i, w) ∷ m) = elim (Bool-cases (str_eq i k)) [
    | inl b ↦ rw b (ground (arith, Memᴰ-cons j k (keys m), Memᴰ-cons j i (keys m), eq_iff i k, b))
    | inr b ↦ rw b (
        ground (
          arith,
          Memᴰ-cons j i (keys (insert k v m)),
          Memᴰ-cons j i (keys m),
          mem-keys-insert j k v m,
        ))
  ]

  All-keys-insert :
      (i k : String) (v : V) (m : StrMap V)
      → i ≢ k
      → All (λ j. i ≢ j) (keys m)
      → All (λ j. i ≢ j) (keys (insert k v m))
  unfolding insert
  All-keys-insert i k v [] n h = (n, tt)
  All-keys-insert i k v ((j, w) ∷ m) n h = elim (Bool-cases (str_eq j k)) [
    | inl b ↦ rw b (n, h.1)
    | inr b ↦ rw b (h.0, All-keys-insert i k v m n h.1)
  ]

  pub insert-IsMap : (k : String) (v : V) (m : StrMap V) → IsMap m → IsMap (insert k v m)
  unfolding insert
  insert-IsMap k v [] h = (tt, tt)
  insert-IsMap k v ((j, w) ∷ m) h = elim (Bool-cases (str_eq j k)) [
    | inl b ↦ rw (b, ← (eq_iff j k).0 b) h
    | inr b ↦
        rw b (All-keys-insert j k v m (λ e. cc ((eq_iff j k).1 e, b)) h.0, insert-IsMap k v m h.1)
  ]

-- m[k] as a value: the zero value "" where the key is missing.
unfoldable pub index : StrMap String → String → String
index m k = elim (lookup k m) [ none ↦ "" | some v ↦ v ]

-- Two maps that Go's program cannot tell apart.
abbrev pub SameMap {ℓ} : {V : Type ℓ} → StrMap V → StrMap V → Type ℓ
SameMap m n = (k : String) → lookup k m ≡ lookup k n
