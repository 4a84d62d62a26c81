-- ===== src/Compare/Comparator.antt =====
-- internal/compare/compare.go, `CompareAtCheckpoint`.
pub mod Verdict
use task274_replaydivergence.Prelude.{
  ℕ, String, List, [], Option, none, some, str_eq, length, if◌then◌else◌,
}
use task274_replaydivergence.Prelude.Int.{ℤ}
use task274_replaydivergence.Model.Errors.{Error, Result, ok, fingerprint_mismatch, ◌>>=◌}
use task274_replaydivergence.Model.Event.{ExecEvent}
use task274_replaydivergence.Model.Checkpoint.{Checkpoint, CheckpointKind, scope}
use task274_replaydivergence.Compare.Hash.{hash_state}
use task274_replaydivergence.Compare.Replay.{replay}
use task274_replaydivergence.Compare.Scope.{select_scope}
use task274_replaydivergence.Compare.Diff.{diff_state}

pub record DivergentCheckpoint : Type 0 where
  pub seq : ℤ
  pub kind : CheckpointKind
  pub ref_hash : String
  pub test_hash : String
  pub diff_count : ℕ

-- A mismatch is returned beside the checkpoint's hashes, as an error; an error of the replay
-- comes alone.
unfoldable pub compare_at_checkpoint :
    Checkpoint → List ExecEvent → List ExecEvent → Result (DivergentCheckpoint × Option Error)
compare_at_checkpoint cp ref_events test_events = do
  ref_state ← replay [] ref_events
  test_state ← replay [] test_events
  let ref_sub = select_scope ref_state (scope cp)
  let test_sub = select_scope test_state (scope cp)
  let dc : DivergentCheckpoint = record {
    seq = cp.seq;
    kind = cp.kind;
    ref_hash = hash_state ref_sub;
    test_hash = hash_state test_sub;
    diff_count = 0;
  }
  ok (
      if str_eq (hash_state ref_sub) (hash_state test_sub) then (dc, none) else (
        record dc { diff_count = length (diff_state ref_sub test_sub) },
        some (fingerprint_mismatch cp.seq),
      ))
