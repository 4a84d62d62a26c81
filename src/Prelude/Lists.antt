-- ===== src/Prelude/Lists.antt =====
-- Lengths by native numbers, predicates on lists by recursion, membership.
use Prim.Native.Nat.{ℕ, suc, ◌+◌}
use mathlib.Core.Path.{◌≡◌, refl, sym, subst}
use mathlib.Core.Logic.{◌↔◌, ◌⊎◌, inl, inr}
use mathlib.Core.Bool.{Bool, true}
use mathlib.Core.List.{List, [], ◌∷◌, ◌++◌}
use native.Mathlib.Omega.{arith}
use task274_replaydivergence.Prelude.Tests.{if◌then◌else◌, Bool-cases}
pub use mathlib.Core.List.{Memᴰ}

module _ {ℓ} {A : Type ℓ} where
  abbrev pub length : List A → ℕ
  length [] = 0
  length (x ∷ xs) = suc (length xs)

  pub List-cases : (xs : List A) → (xs ≡ []) ⊎ ((x : A) × (ys : List A) × (xs ≡ x ∷ ys))
  List-cases [] = inl refl
  List-cases (x ∷ xs) = inr (x, xs, refl)

  -- The elements that pass a test, in their order.
  abbrev pub keep : (A → Bool) → List A → List A
  keep p [] = []
  keep p (x ∷ xs) = let rest = keep p xs in if p x then x ∷ rest else rest

  pub length-append : (xs ys : List A) → length (xs ++ ys) ≡ length xs + length ys
  length-append [] ys = omega arith
  length-append (x ∷ xs) ys = omega (arith, length-append xs ys)

  pub Memᴰ-cons : (a x : A) (xs : List A) → Memᴰ a (x ∷ xs) ↔ ((a ≡ x) ⊎ Memᴰ a xs)
  Memᴰ-cons a x xs = (split, join)
    where
      split : Memᴰ a (x ∷ xs) → (a ≡ x) ⊎ Memᴰ a xs
      split (Memᴰ.head e) = inl e
      split (Memᴰ.tail m) = inr m

      join : (a ≡ x) ⊎ Memᴰ a xs → Memᴰ a (x ∷ xs)
      join (inl e) = Memᴰ.head e
      join (inr m) = Memᴰ.tail m

  abbrev pub All {κ} : (A → Type κ) → List A → Type κ
  All P [] = Unit
  All P (x ∷ xs) = P x × All P xs

  pub All-mem {κ} : (P : A → Type κ) (xs : List A) (a : A) → All P xs → Memᴰ a xs → P a
  All-mem P [] a h m = elim m [ ]
  All-mem P (x ∷ xs) a h (Memᴰ.head e) = subst P (sym e) h.0
  All-mem P (x ∷ xs) a h (Memᴰ.tail m) = All-mem P xs a h.1 m

  pub All-map {κ μ} :
      (P : A → Type κ) (Q : A → Type μ) (xs : List A) → ((a : A) → P a → Q a) → All P xs → All Q xs
  All-map P Q [] f h = tt
  All-map P Q (x ∷ xs) f h = (f x h.0, All-map P Q xs f h.1)

  pub All-keep {κ} : (P : A → Type κ) (p : A → Bool) (xs : List A) → All P xs → All P (keep p xs)
  All-keep P p [] h = tt
  All-keep P p (x ∷ xs) h = elim (Bool-cases (p x)) [
    | inl b ↦ rw b (h.0, All-keep P p xs h.1)
    | inr b ↦ rw b (All-keep P p xs h.1)
  ]

  pub mem-keep :
      (a : A) (p : A → Bool) (xs : List A) → Memᴰ a (keep p xs) ↔ (Memᴰ a xs × (p a ≡ true))
  mem-keep a p [] = (λ m. elim m [ ], λ m. elim m.0 [ ])
  mem-keep a p (x ∷ xs) = elim (Bool-cases (p x)) [
    | inl b ↦ rw b (ground (arith, Memᴰ-cons a x (keep p xs), Memᴰ-cons a x xs, mem-keep a p xs, b))
    | inr b ↦ rw b (ground (arith, Memᴰ-cons a x xs, mem-keep a p xs, b))
  ]

  pub All-of_mem {κ} : (P : A → Type κ) (xs : List A) → ((a : A) → Memᴰ a xs → P a) → All P xs
  All-of_mem P [] h = tt
  All-of_mem P (x ∷ xs) h = (h x (Memᴰ.head refl), All-of_mem P xs (λ a m. h a (Memᴰ.tail m)))
