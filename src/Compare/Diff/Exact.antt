-- ===== src/Compare/Diff/Exact.antt =====
-- `DiffState` lists exactly the keys at which the two states read differently.
use mathlib.Core.List.{append_assoc, append-nil}
use task274_replaydivergence.Prelude.{
  String, Bool, true, not, ◌≡◌, sym, ◌∙◌, ◌≢◌, ◌↔◌, ◌⊎◌, inl, inr, List, [], ◌∷◌, ◌++◌, arith,
  str_eq, eq_iff, Bool-cases, Option-cases, keep, Memᴰ, mem-keep, Memᴰ-cons,
}
use task274_replaydivergence.Prelude.Order.{text_order}
use task274_replaydivergence.Prelude.Sort.{IsStrict, mem-sort_on}
use task274_replaydivergence.Prelude.Unique.{itself, keep-IsDistinct, sort_on-IsStrict}
use task274_replaydivergence.Prelude.StrMap.{
  StrMap, insert, keys, index, lookup, mem-keys, mem-keys-insert, insert-IsMap, IsMap,
}
use task274_replaydivergence.Compare.Diff.{add_keys, collect, diff_state}

module _ (ref test : StrMap String) where
  abbrev differs : String → Bool
  differs k = not (str_eq (index ref k) (index test k))

  collect-eq-keep :
      (set : StrMap Bool) (diff : List String)
      → collect ref test diff set ≡ diff ++ keep differs (keys set)
  unfolding collect
  collect-eq-keep [] diff = sym (append-nil diff)
  collect-eq-keep ((k, b) ∷ set) diff = elim (Bool-cases (str_eq (index ref k) (index test k))) [
    | inl e ↦ rw e (collect-eq-keep set diff)
    | inr e ↦ rw e (collect-eq-keep set (diff ++ k ∷ []) ∙ append_assoc diff (k ∷ []) _)
  ]

add_keys-IsMap : (m : StrMap String) (set : StrMap Bool) → IsMap set → IsMap (add_keys set m)
unfolding add_keys
add_keys-IsMap [] set h = h
add_keys-IsMap ((k, v) ∷ m) set h = add_keys-IsMap m (insert k true set) (insert-IsMap k true set h)

mem-add_keys :
    (j : String) (m : StrMap String) (set : StrMap Bool)
    → Memᴰ j (keys (add_keys set m)) ↔ (Memᴰ j (keys set) ⊎ Memᴰ j (keys m))
unfolding add_keys
mem-add_keys j [] set = (inl, λ h. elim h [ inl m ↦ m | inr m ↦ elim m [ ] ])
mem-add_keys j ((k, v) ∷ m) set = ground (
  arith,
  mem-add_keys j m (insert k true set),
  mem-keys-insert j k true set,
  Memᴰ-cons j k (keys m),
)

absent : (k : String) (m : StrMap String) → (Memᴰ k (keys m)) ⊎ (index m k ≡ "")
unfolding index
absent k m = elim (Option-cases (lookup k m)) [
  | inl e ↦ inr (rw (e, index))
  | inr (v, e) ↦ inl ((mem-keys k m).1 (λ n. cc (e, n)))
]

listed :
    (ref test : StrMap String) (k : String)
    → index ref k ≢ index test k
    → Memᴰ k (keys ref) ⊎ Memᴰ k (keys test)
listed ref test k n = elim (absent k ref) [
  | inl m ↦ inl m
  | inr e ↦ elim (absent k test) [ inl m ↦ inr m | inr f ↦ absurd (n (e ∙ sym f)) ]
]

-- A key is in the difference exactly if the two states read differently at it, a missing key
-- reading as the empty text; and the keys come in strictly ascending order.
pub diff_state_exact :
    (ref test : StrMap String)
    → ((k : String) → Memᴰ k (diff_state ref test) ↔ (index ref k ≢ index test k))
      × IsStrict itself (diff_state ref test)
unfolding diff_state
diff_state_exact ref test =
    let set = add_keys (add_keys [] ref) test in
    let set_IsMap : IsMap set = add_keys-IsMap test (add_keys [] ref) (add_keys-IsMap ref [] tt) in
    rw (collect-eq-keep ref test set []) (
      λ k. ground (
        arith,
        mem-sort_on itself k (keep (differs ref test) (keys set)),
        mem-keep k (differs ref test) (keys set),
        mem-add_keys k test (add_keys [] ref),
        mem-add_keys k ref [],
        listed ref test k,
        eq_iff (index ref k) (index test k),
      ),
      sort_on-IsStrict itself (keep (differs ref test) (keys set))
          (keep-IsDistinct itself (differs ref test) (keys set) set_IsMap),
    )
