-- ===== src/Sync/Aligner.antt =====
-- internal/sync/aligner.go. The loop over the sequence numbers takes fuel, one unit for each round.
pub mod Ends
pub mod Counts
use task274_replaydivergence.Prelude.{
  ℕ, String, Bool, true, false, ◌&&◌, not, List, [], ◌∷◌, Option, none, some, if◌then◌else◌, length,
  ◌^◌, ◌+◌, ◌-◌, suc, zero,
}
use task274_replaydivergence.Prelude.Int.{ℤ, pos, negsuc, ◌+ℤ◌, ltb_ℤ, leb_ℤ, eqb_ℤ, sub_ℕ}
use task274_replaydivergence.Model.Errors.{empty_trails}
use task274_replaydivergence.Model.Status.{
  TrailSide, reference, under_test, EventStatus, aligned, excluded,
}
use task274_replaydivergence.Model.Event.{ExecEvent}
use task274_replaydivergence.Model.Exec.{Exec, pure, raise, ◌>>=◌}

-- `ref_count`, `test_count` and the two counters count events of a store, so they are numbers; the
-- difference `aligned` is signed.
pub record AlignResult : Type 0 where
  pub ref_count : ℕ
  pub test_count : ℕ
  pub aligned_count : ℤ
  pub missing_ref : ℕ
  pub missing_test : ℕ
  pub seq_min : ℤ
  pub seq_max : ℤ

-- What the aligner needs of a store of events.
pub record EventGetter (S : Type 0) : Type 1 where
  pub seq_range : ℕ → TrailSide → Exec S (ℤ × ℤ)
  pub list_by_side : ℕ → TrailSide → Option EventStatus → Exec S (List ExecEvent)
  pub batch_update_status : ℕ → TrailSide → EventStatus → Exec S Unit
  pub update_status : ℕ → ℕ → EventStatus → String → Exec S Unit

unfoldable pub min64 : ℤ → ℤ → ℤ
min64 a b = if ltb_ℤ a b then a else b

unfoldable pub max64 : ℤ → ℤ → ℤ
max64 a b = if ltb_ℤ b a then a else b

-- map[int64]bool, all of whose values are true.
abbrev pub SeqSet : Type 0
SeqSet = List ℤ

unfoldable pub has_seq : SeqSet → ℤ → Bool
has_seq [] q = false
has_seq (s ∷ rest) q = if eqb_ℤ s q then true else has_seq rest q

abbrev pub max_int64 : ℤ
max_int64 = pos (2 ^ 63 - 1)

abbrev pub min_int64 : ℤ
min_int64 = negsuc (2 ^ 63 - 1)

-- seq++ on int64
unfoldable pub next_seq : ℤ → ℤ
next_seq seq = if eqb_ℤ seq max_int64 then min_int64 else seq +ℤ pos 1

unfoldable pub is_excluded : ExecEvent → Bool
is_excluded e = elim e.status [ excluded ↦ true | _ ↦ false ]

-- One of the two loops over the events: every event that is not excluded becomes aligned.
unfoldable pub mark_aligned :
    {S : Type 0} → EventGetter S → ℕ → List ExecEvent → SeqSet → Exec S SeqSet
unfolding ◌>>=◌ is_excluded
mark_aligned events batch_id [] seqs = pure seqs
mark_aligned events batch_id (e ∷ es) seqs =
    let rest = mark_aligned events batch_id es (e.seq ∷ seqs) in
    if is_excluded e then rest else events.update_status batch_id e.id aligned "" >>= λ _. rest

-- The counters `MissingRef` and `MissingTest`.
pub record Missing : Type 0 where
  pub missing_ref : ℕ
  pub missing_test : ℕ

unfoldable pub count_seq : SeqSet → SeqSet → ℤ → Missing → Missing
count_seq ref_seqs test_seqs seq m = record {
  missing_ref =
      if not (has_seq ref_seqs seq) && has_seq test_seqs seq
      then m.missing_ref + 1
      else m.missing_ref;
  missing_test =
      if has_seq ref_seqs seq && not (has_seq test_seqs seq)
      then m.missing_test + 1
      else m.missing_test;
}

-- The loop from `seq` to `seq_max`; `none` where the fuel ends first.
unfoldable pub count_missing : ℕ → SeqSet → SeqSet → ℤ → ℤ → Missing → Option Missing
count_missing zero ref_seqs test_seqs seq seq_max m = none
count_missing (suc n) ref_seqs test_seqs seq seq_max m =
    let rest =
      count_missing n ref_seqs test_seqs (next_seq seq) seq_max
        (count_seq ref_seqs test_seqs seq m) in
    if leb_ℤ seq seq_max then rest else some m

unfoldable pub align_result : List ExecEvent → List ExecEvent → ℤ → ℤ → Missing → AlignResult
align_result ref_events test_events seq_min seq_max m =
    let r = length ref_events in
    let t = length test_events in
    record {
      ref_count = r;
      test_count = t;
      aligned_count = pos (r + t) +ℤ sub_ℕ 0 (m.missing_ref + m.missing_test);
      missing_ref = m.missing_ref;
      missing_test = m.missing_test;
      seq_min = seq_min;
      seq_max = seq_max;
    }

-- The result, where the loop ended.
unfoldable pub finish : (Missing → AlignResult) → Option Missing → Option AlignResult
finish f none = none
finish f (some m) = some (f m)

-- From the listing of the events on.
unfoldable pub align_range :
    {S : Type 0} → ℕ → EventGetter S → ℕ → ℤ → ℤ → Exec S (Option AlignResult)
unfolding ◌>>=◌ finish
align_range fuel events batch_id seq_min seq_max =
    events.list_by_side batch_id reference none >>= λ ref_events.
    events.list_by_side batch_id under_test none >>= λ test_events.
    mark_aligned events batch_id ref_events [] >>= λ ref_seqs.
    mark_aligned events batch_id test_events [] >>= λ test_seqs. pure (
      finish (align_result ref_events test_events seq_min seq_max) (
        count_missing fuel ref_seqs test_seqs seq_min seq_max
          (record { missing_ref = 0; missing_test = 0 })))

unfoldable pub align : {S : Type 0} → ℕ → EventGetter S → ℕ → Exec S (Option AlignResult)
unfolding ◌>>=◌ align_range mark_aligned
align fuel events batch_id = events.seq_range batch_id reference >>= λ ref_range.
    events.seq_range batch_id under_test >>= λ test_range.
    if eqb_ℤ ref_range.1 (pos 0) && eqb_ℤ test_range.1 (pos 0)
    then raise empty_trails
    else align_range fuel events batch_id (min64 ref_range.0 test_range.0)
        (max64 ref_range.1 test_range.1)
