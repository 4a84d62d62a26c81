-- ===== src/Sync/Aligner/Counts.antt =====
-- What the loop over the sequence numbers counts.
use task274_replaydivergence.Prelude.{
  ℕ, ◌≡◌, ◌&&◌, not, List, [], ◌∷◌, some, arith, length, keep, suc, ◌+◌, zero, ◌∙◌, ◌<◌,
}
use task274_replaydivergence.Prelude.Int.{ℤ, pos, ◌≤ℤ◌, ◌<ℤ◌, ◌+ℤ◌, +ℤ_parts, pos_part, neg_part}
use task274_replaydivergence.Sync.Aligner.{
  SeqSet, Missing, count_seq, count_missing, next_seq, max_int64, has_seq,
}

-- The `n` numbers from `lo` on.
abbrev pub range_from : ℤ → ℕ → List ℤ
range_from lo zero = []
range_from lo (suc n) = lo ∷ range_from (lo +ℤ pos 1) n

-- The numbers of the range that stand in the first set and not in the second.
abbrev pub only_in : SeqSet → SeqSet → List ℤ → List ℤ
only_in here there = keep (λ q. has_seq here q && not (has_seq there q))

next_seq_inside : (lo hi : ℤ) → lo ≤ℤ hi → hi <ℤ max_int64 → next_seq lo ≡ lo +ℤ pos 1
unfolding next_seq
next_seq_inside lo hi h top = ground arith

-- `hi` is the last of the `n` numbers from `lo` on.
abbrev pub Spans : ℤ → ℕ → ℤ → Type 0
Spans lo n hi = pos_part lo + n + neg_part hi ≡ pos_part hi + neg_part lo + 1

Spans-next : (lo hi : ℤ) (n : ℕ) → Spans lo (suc n) hi → Spans (lo +ℤ pos 1) n hi
Spans-next lo hi n h = omega (arith, +ℤ_parts lo (pos 1))

count_step :
    (n : ℕ) (ref_seqs test_seqs : SeqSet) (lo hi : ℤ) (m : Missing)
    → lo ≤ℤ hi
    → hi <ℤ max_int64
    → count_missing (suc n) ref_seqs test_seqs lo hi m
      ≡ count_missing n ref_seqs test_seqs (lo +ℤ pos 1) hi (count_seq ref_seqs test_seqs lo m)
unfolding count_missing
count_step n ref_seqs test_seqs lo hi m h top = rw (← next_seq_inside lo hi h top) (ground arith)

-- If the range holds `n` numbers and ends below 2^63 - 1, the loop ends with any fuel above `n`,
-- and it counts the numbers of the range that only the test trail has, and those that only the
-- reference trail has.
pub count_missing_exact :
    (n fuel : ℕ) (ref_seqs test_seqs : SeqSet) (lo hi : ℤ) (m : Missing)
    → n < fuel
    → hi <ℤ max_int64
    → Spans lo n hi
    → count_missing fuel ref_seqs test_seqs lo hi m
      ≡ some (record {
        missing_ref = m.missing_ref + length (only_in test_seqs ref_seqs (range_from lo n));
        missing_test = m.missing_test + length (only_in ref_seqs test_seqs (range_from lo n));
      })
unfolding count_missing count_seq
count_missing_exact n zero ref_seqs test_seqs lo hi m enough top span = absurd (omega arith)
count_missing_exact zero (suc fuel) ref_seqs test_seqs lo hi m enough top span = ground arith
count_missing_exact (suc n) (suc fuel) ref_seqs test_seqs lo hi m enough top span =
    count_step fuel ref_seqs test_seqs lo hi m (omega arith) top
    ∙ count_missing_exact n fuel ref_seqs test_seqs (lo +ℤ pos 1) hi
        (count_seq ref_seqs test_seqs lo m) (omega arith) top (Spans-next lo hi n span)
    ∙ ground arith
