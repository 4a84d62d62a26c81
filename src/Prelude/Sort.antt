-- ===== src/Prelude/Sort.antt =====
-- `sort.Slice` and `sort.Strings`, by insertion on a key. Go's sort promises a sorted permutation;
-- on distinct keys there is one: `IsStrict-unique` in Unique.antt.
use mathlib.Core.Path.{◌≡◌, refl}
use mathlib.Core.Bool.{true, false}
use mathlib.Core.Logic.{◌↔◌, ◌⊎◌, inl, inr}
use mathlib.Core.List.{List, [], ◌∷◌, Perm}
use mathlib.Core.List.Perm
use Prim.Native.Nat.{suc}
use native.Mathlib.Omega.{arith}
use task274_replaydivergence.Prelude.Tests.{Bool-cases, if◌then◌else◌}
use task274_replaydivergence.Prelude.Lists.{length, All, Memᴰ, Memᴰ-cons}
use task274_replaydivergence.Prelude.Order.{Order, le_lt_trans}

module _ {ℓ κ} {A : Type ℓ} {K : Type κ} ⦃o : Order K⦄ (key : A → K) where
  -- Before the first element whose key is not smaller.
  unfoldable pub insert_on : A → List A → List A
  insert_on x [] = x ∷ []
  insert_on x (y ∷ ys) =
      let rest = insert_on x ys in if o.lt (key y) (key x) then y ∷ rest else x ∷ y ∷ ys

  unfoldable pub sort_on : List A → List A
  unfolding insert_on
  sort_on [] = []
  sort_on (x ∷ xs) = insert_on x (sort_on xs)

  -- No later element has a smaller key.
  abbrev pub IsSorted : List A → Type κ
  IsSorted [] = Unit
  IsSorted (x ∷ xs) = All (λ y. o.lt (key y) (key x) ≡ false) xs × IsSorted xs

  -- Every later element has a greater key.
  abbrev pub IsStrict : List A → Type κ
  IsStrict [] = Unit
  IsStrict (x ∷ xs) = All (λ y. o.lt (key x) (key y) ≡ true) xs × IsStrict xs

  pub All-insert_on {μ} :
      (P : A → Type μ) (x : A) (xs : List A) → P x → All P xs → All P (insert_on x xs)
  unfolding insert_on
  All-insert_on P x [] p h = (p, tt)
  All-insert_on P x (y ∷ ys) p h = elim (Bool-cases (o.lt (key y) (key x))) [
    | inl b ↦ rw b (h.0, All-insert_on P x ys p h.1)
    | inr b ↦ rw b (p, h)
  ]

  pub All-sort_on {μ} : (P : A → Type μ) (xs : List A) → All P xs → All P (sort_on xs)
  unfolding sort_on
  All-sort_on P [] h = tt
  All-sort_on P (x ∷ xs) h = All-insert_on P x (sort_on xs) h.0 (All-sort_on P xs h.1)

  weaken :
      (x y : A) (ys : List A)
      → o.lt (key y) (key x) ≡ false
      → All (λ z. o.lt (key z) (key y) ≡ false) ys
      → All (λ z. o.lt (key z) (key x) ≡ false) ys
  weaken x y [] p h = tt
  weaken x y (z ∷ zs) p h = (le_lt_trans (key x) (key y) (key z) p h.0, weaken x y zs p h.1)

  insert_on-IsSorted : (x : A) (xs : List A) → IsSorted xs → IsSorted (insert_on x xs)
  unfolding insert_on
  insert_on-IsSorted x [] h = (tt, tt)
  insert_on-IsSorted x (y ∷ ys) h = elim (Bool-cases (o.lt (key y) (key x))) [
    | inl b ↦ rw b (
      All-insert_on (λ z. o.lt (key z) (key y) ≡ false) x ys (o.asymm _ _ b) h.0,
      insert_on-IsSorted x ys h.1,
    )
    | inr b ↦ rw b ((b, weaken x y ys b h.0), h)
  ]

  pub sort_on-IsSorted : (xs : List A) → IsSorted (sort_on xs)
  unfolding sort_on
  sort_on-IsSorted [] = tt
  sort_on-IsSorted (x ∷ xs) = insert_on-IsSorted x (sort_on xs) (sort_on-IsSorted xs)

  insert_on-perm : (x : A) (xs : List A) → Perm (insert_on x xs) (x ∷ xs)
  unfolding insert_on
  insert_on-perm x [] = Perm.refl _
  insert_on-perm x (y ∷ ys) = elim (Bool-cases (o.lt (key y) (key x))) [
    | inl b ↦ rw b (Perm.trans (Perm.cons y (insert_on-perm x ys)) (Perm.swap x y ys))
    | inr b ↦ rw b (Perm.refl _)
  ]

  pub sort_on-perm : (xs : List A) → Perm (sort_on xs) xs
  unfolding sort_on
  sort_on-perm [] = Perm.refl _
  sort_on-perm (x ∷ xs) = Perm.trans (insert_on-perm x (sort_on xs)) (Perm.cons x (sort_on-perm xs))

  mem-insert_on : (a x : A) (xs : List A) → Memᴰ a (insert_on x xs) ↔ ((a ≡ x) ⊎ Memᴰ a xs)
  unfolding insert_on
  mem-insert_on a x [] = Memᴰ-cons a x []
  mem-insert_on a x (y ∷ ys) = elim (Bool-cases (o.lt (key y) (key x))) [
    | inl b ↦
        rw b
          (ground (arith, Memᴰ-cons a y (insert_on x ys), Memᴰ-cons a y ys, mem-insert_on a x ys))
    | inr b ↦ rw b (Memᴰ-cons a x (y ∷ ys))
  ]

  pub mem-sort_on : (a : A) (xs : List A) → Memᴰ a (sort_on xs) ↔ Memᴰ a xs
  unfolding sort_on
  mem-sort_on a [] = (λ m. m, λ m. m)
  mem-sort_on a (x ∷ xs) =
      ground (arith, mem-insert_on a x (sort_on xs), Memᴰ-cons a x xs, mem-sort_on a xs)

  -- A list that is in order already stays as it is.
  insert_on-head :
      (x : A) (xs : List A) → All (λ y. o.lt (key y) (key x) ≡ false) xs → insert_on x xs ≡ x ∷ xs
  unfolding insert_on
  insert_on-head x [] h = refl
  insert_on-head x (y ∷ ys) h = rw h.0 refl

  pub sort_on_of_IsSorted : (xs : List A) → IsSorted xs → sort_on xs ≡ xs
  unfolding sort_on
  sort_on_of_IsSorted [] h = refl
  sort_on_of_IsSorted (x ∷ xs) h = rw (sort_on_of_IsSorted xs h.1) (insert_on-head x xs h.0)

  strict-weak :
      (x : A) (xs : List A)
      → All (λ y. o.lt (key x) (key y) ≡ true) xs
      → All (λ y. o.lt (key y) (key x) ≡ false) xs
  strict-weak x [] h = tt
  strict-weak x (y ∷ ys) h = (o.asymm _ _ h.0, strict-weak x ys h.1)

  pub IsStrict-IsSorted : (xs : List A) → IsStrict xs → IsSorted xs
  IsStrict-IsSorted [] h = tt
  IsStrict-IsSorted (x ∷ xs) h = (strict-weak x xs h.0, IsStrict-IsSorted xs h.1)

  length-insert_on : (x : A) (xs : List A) → length (insert_on x xs) ≡ suc (length xs)
  unfolding insert_on
  length-insert_on x [] = refl
  length-insert_on x (y ∷ ys) = elim (Bool-cases (o.lt (key y) (key x))) [
    | inl b ↦ rw b (omega (arith, length-insert_on x ys))
    | inr b ↦ rw b refl
  ]

  pub length-sort_on : (xs : List A) → length (sort_on xs) ≡ length xs
  unfolding sort_on
  length-sort_on [] = refl
  length-sort_on (x ∷ xs) = omega (arith, length-insert_on x (sort_on xs), length-sort_on xs)
