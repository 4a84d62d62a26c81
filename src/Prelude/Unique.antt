-- ===== src/Prelude/Unique.antt =====
-- Distinct keys: sorting makes them strictly ascending, and a strictly ascending list of keys is
-- determined by its members.
use mathlib.Core.Path.{◌≡◌, refl, sym, ap₂, subst, ◌∙◌}
use mathlib.Core.Bool.{true, false, false≢true, Bool}
use mathlib.Core.Logic.{◌≢◌, ◌↔◌, inl, inr}
use mathlib.Core.List.{List, [], ◌∷◌}
use task274_replaydivergence.Prelude.Tests.{Bool-cases}
use task274_replaydivergence.Prelude.Lists.{All, keep, All-keep, All-mem, Memᴰ, Memᴰ-cons}
use task274_replaydivergence.Prelude.Order.{Order, lt_irrefl}
use task274_replaydivergence.Prelude.Sort.{
  insert_on, sort_on, IsSorted, IsStrict, All-insert_on, All-sort_on, sort_on-IsSorted, mem-sort_on,
}

module _ {ℓ κ} {A : Type ℓ} {K : Type κ} ⦃o : Order K⦄ (key : A → K) where
  -- No two elements have the same key.
  abbrev pub IsDistinct : List A → Type κ
  IsDistinct [] = Unit
  IsDistinct (x ∷ xs) = All (λ y. key x ≢ key y) xs × IsDistinct xs

  insert_on-IsDistinct :
      (x : A) (xs : List A)
      → All (λ y. key x ≢ key y) xs
      → IsDistinct xs
      → IsDistinct (insert_on key x xs)
  unfolding insert_on
  insert_on-IsDistinct x [] n h = (tt, tt)
  insert_on-IsDistinct x (y ∷ ys) n h = elim (Bool-cases (o.lt (key y) (key x))) [
    | inl b ↦ rw b (
      All-insert_on key (λ z. key y ≢ key z) x ys (λ e. n.0 (sym e)) h.0,
      insert_on-IsDistinct x ys n.1 h.1,
    )
    | inr b ↦ rw b (n, h)
  ]

  pub sort_on-IsDistinct : (xs : List A) → IsDistinct xs → IsDistinct (sort_on key xs)
  unfolding sort_on
  sort_on-IsDistinct [] h = tt
  sort_on-IsDistinct (x ∷ xs) h =
      insert_on-IsDistinct x (sort_on key xs) (All-sort_on key (λ y. key x ≢ key y) xs h.0)
        (sort_on-IsDistinct xs h.1)

  pub keep-IsDistinct : (p : A → Bool) (xs : List A) → IsDistinct xs → IsDistinct (keep p xs)
  keep-IsDistinct p [] h = tt
  keep-IsDistinct p (x ∷ xs) h = elim (Bool-cases (p x)) [
    | inl b ↦ rw b (All-keep (λ y. key x ≢ key y) p xs h.0, keep-IsDistinct p xs h.1)
    | inr b ↦ rw b (keep-IsDistinct p xs h.1)
  ]

  tighten :
      (x : A) (xs : List A)
      → All (λ y. o.lt (key y) (key x) ≡ false) xs
      → All (λ y. key x ≢ key y) xs
      → All (λ y. o.lt (key x) (key y) ≡ true) xs
  tighten x [] h n = tt
  tighten x (y ∷ ys) h n = elim (Bool-cases (o.lt (key x) (key y))) [
    | inl b ↦ (b, tighten x ys h.1 n.1)
    | inr b ↦ absurd (n.0 (o.connex _ _ b h.0))
  ]

  pub IsStrict-of_IsSorted : (xs : List A) → IsSorted key xs → IsDistinct xs → IsStrict key xs
  IsStrict-of_IsSorted [] h n = tt
  IsStrict-of_IsSorted (x ∷ xs) h n = (tighten x xs h.0 n.0, IsStrict-of_IsSorted xs h.1 n.1)

  pub sort_on-IsStrict : (xs : List A) → IsDistinct xs → IsStrict key (sort_on key xs)
  sort_on-IsStrict xs n =
      IsStrict-of_IsSorted (sort_on key xs) (sort_on-IsSorted key xs) (sort_on-IsDistinct xs n)

module _ {κ} {K : Type κ} ⦃o : Order K⦄ where
  abbrev pub itself : K → K
  itself k = k

  same_head :
      (x y : K) (xs ys : List K)
      → IsStrict itself (x ∷ xs)
      → IsStrict itself (y ∷ ys)
      → Memᴰ x (y ∷ ys)
      → Memᴰ y (x ∷ xs)
      → x ≡ y
  same_head x y xs ys hx hy (Memᴰ.head e) n = e
  same_head x y xs ys hx hy (Memᴰ.tail m) (Memᴰ.head e) = sym e
  same_head x y xs ys hx hy (Memᴰ.tail m) (Memᴰ.tail n) =
      let x_y = All-mem (λ z. o.lt x z ≡ true) xs y hx.0 n in
      let y_x = All-mem (λ z. o.lt y z ≡ true) ys x hy.0 m in
      absurd (false≢true (sym (o.asymm x y x_y) ∙ y_x))

  not_below_itself : (x : K) (xs : List K) → IsStrict itself (x ∷ xs) → ¬ Memᴰ x xs
  not_below_itself x xs h m =
      false≢true (sym (lt_irrefl x) ∙ All-mem (λ z. o.lt x z ≡ true) xs x h.0 m)

  tail_members :
      (x : K) (xs ys : List K) (a : K)
      → IsStrict itself (x ∷ xs)
      → (Memᴰ a (x ∷ xs) → Memᴰ a (x ∷ ys))
      → Memᴰ a xs
      → Memᴰ a ys
  tail_members x xs ys a h sub m = elim ((Memᴰ-cons a x ys).0 (sub (Memᴰ.tail m))) [
    | inl e ↦ absurd (not_below_itself x xs h (subst (λ b. Memᴰ b xs) e m))
    | inr n ↦ n
  ]

  -- Two strictly ascending lists with the same members are one list.
  pub IsStrict-unique :
      (xs ys : List K)
      → IsStrict itself xs
      → IsStrict itself ys
      → ((a : K) → Memᴰ a xs ↔ Memᴰ a ys)
      → xs ≡ ys
  IsStrict-unique [] [] hx hy same = refl
  IsStrict-unique [] (y ∷ ys) hx hy same = absurd (elim ((same y).1 (Memᴰ.head refl)) [ ])
  IsStrict-unique (x ∷ xs) [] hx hy same = absurd (elim ((same x).0 (Memᴰ.head refl)) [ ])
  IsStrict-unique (x ∷ xs) (y ∷ ys) hx hy same =
      let e =
        same_head x y xs ys hx hy ((same x).0 (Memᴰ.head refl)) ((same y).1 (Memᴰ.head refl)) in
      ap₂ (λ b bs. b ∷ bs) e
        (IsStrict-unique xs ys hx.1 hy.1 λ a. (
          tail_members x xs ys a hx (λ m. subst (λ b. Memᴰ a (b ∷ ys)) (sym e) ((same a).0 m)),
          λ m. tail_members y ys xs a hy (λ n. subst (λ b. Memᴰ a (b ∷ xs)) e ((same a).1 n)) m,
        ))

  -- Sorting forgets the order of the input: distinct keys with the same members sort alike.
  pub sort_on_unique :
      (xs ys : List K)
      → IsDistinct itself xs
      → IsDistinct itself ys
      → ((a : K) → Memᴰ a xs ↔ Memᴰ a ys)
      → sort_on itself xs ≡ sort_on itself ys
  sort_on_unique xs ys hx hy same =
      IsStrict-unique _ _ (sort_on-IsStrict itself xs hx) (sort_on-IsStrict itself ys hy) λ a. (
        λ m. (mem-sort_on itself a ys).1 ((same a).0 ((mem-sort_on itself a xs).0 m)),
        λ m. (mem-sort_on itself a xs).1 ((same a).1 ((mem-sort_on itself a ys).0 m)),
      )
