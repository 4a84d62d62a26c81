-- ===== src/Compare/Hash/OrderFree.antt =====
-- A fingerprint is a function of the state alone, whatever order Go's `range` takes.
use task274_replaydivergence.Prelude.{ℕ, String, ◌≡◌, refl, ap, sym, ◌∙◌, List, [], ◌∷◌}
use task274_replaydivergence.Prelude.Lists.{Memᴰ}
use task274_replaydivergence.Prelude.Order.{text_order}
use task274_replaydivergence.Prelude.Sort.{sort_on}
use task274_replaydivergence.Prelude.Unique.{itself, sort_on_unique}
use task274_replaydivergence.Prelude.StrMap.{StrMap, keys, index, mem-keys, IsMap, SameMap}
use task274_replaydivergence.Compare.Hash.{
  write_state, sum64, hash_state, hex16, fnv_offset, write, bytes,
}

index_of_SameMap : (m n : StrMap String) (k : String) → SameMap m n → index m k ≡ index n k
unfolding index
index_of_SameMap m n k same = rw (same k, index)

write_state_of_SameMap :
    (m n : StrMap String) (ks : List String) (h : ℕ)
    → SameMap m n
    → write_state m h ks ≡ write_state n h ks
unfolding write_state
write_state_of_SameMap m n [] h same = refl
write_state_of_SameMap m n (k ∷ ks) h same = rw (index_of_SameMap m n k same) (
    write_state_of_SameMap m n ks
      (write (write (write (write h (bytes k)) (0 ∷ [])) (bytes (index n k))) (0 ∷ [])) same)

mem-keys_of_SameMap :
    (m n : StrMap String) → SameMap m n → (k : String) → Memᴰ k (keys m) → Memᴰ k (keys n)
mem-keys_of_SameMap m n same k h = (mem-keys k n).1 (λ e. (mem-keys k m).0 h (same k ∙ e))

-- Two maps with the same value at every key have the same fingerprint, in whatever order their
-- entries are listed.
pub hash_state_of_SameMap :
    (m n : StrMap String) → IsMap m → IsMap n → SameMap m n → hash_state m ≡ hash_state n
unfolding hash_state sum64
hash_state_of_SameMap m n hm hn same =
    let sorted =
      sort_on_unique (keys m) (keys n) hm hn
        (λ k. (mem-keys_of_SameMap m n same k, mem-keys_of_SameMap n m (λ j. sym (same j)) k)) in
    ap hex16 (
      write_state_of_SameMap m n (sort_on itself (keys m)) fnv_offset same
      ∙ ap (write_state n fnv_offset) sorted)
