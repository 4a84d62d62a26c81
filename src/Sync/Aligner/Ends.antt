-- ===== src/Sync/Aligner/Ends.antt =====
-- When the loop over the sequence numbers ends.
use task274_replaydivergence.Prelude.{ℕ, ◌≡◌, refl, none, arith, suc, zero}
use task274_replaydivergence.Prelude.Int.{ℤ, pos, ◌≤ℤ◌, +ℤ_parts}
use task274_replaydivergence.Sync.Aligner.{
  SeqSet, Missing, count_seq, count_missing, next_seq, max_int64,
}

next_seq_below : (seq : ℤ) → seq ≤ℤ max_int64 → next_seq seq ≤ℤ max_int64
unfolding next_seq
next_seq_below seq h = ground (arith, +ℤ_parts seq (pos 1))

-- If the greatest sequence number is 2^63 - 1, the loop never ends, since every int64 is at most
-- that: no fuel is enough.
pub count_never_ends :
    (fuel : ℕ) (ref_seqs test_seqs : SeqSet) (seq : ℤ) (m : Missing)
    → seq ≤ℤ max_int64
    → count_missing fuel ref_seqs test_seqs seq max_int64 m ≡ none
unfolding count_missing
count_never_ends zero ref_seqs test_seqs seq m h = refl
count_never_ends (suc n) ref_seqs test_seqs seq m h = ground (
  arith,
  count_never_ends n ref_seqs test_seqs (next_seq seq) (count_seq ref_seqs test_seqs seq m)
      (next_seq_below seq h),
)
