-- ===== src/Model/Batch.antt =====
-- internal/model/batch.go: a replay batch and its guarded updates. A method that changes `*b`
-- returns the new record; `now` is what `time.Now` returned.
pub mod Lifecycle
use task274_replaydivergence.Prelude.{ℕ, String, Bool, ◌||◌, str_eq, if◌then◌else◌}
use task274_replaydivergence.Prelude.Int.{ℤ, pos, ltb_ℤ}
use task274_replaydivergence.Model.Errors.{Result, ok, err, invalid_state, sealed_batch, conflict}
use task274_replaydivergence.Model.Status.{
  BatchStatus, receiving, sealed, same_status, can_transition_batch,
}

abbrev pub Time : Type 0
Time = ℕ

pub record ReplayBatch : Type 0 where
  pub id : ℕ
  pub name : String
  pub ref_trail_name : String
  pub test_trail_name : String
  pub status : BatchStatus
  pub seq_min : ℤ
  pub seq_max : ℤ
  pub hash_algo : String
  pub created_at : Time
  pub updated_at : Time

abbrev pub default_algo : String
default_algo = "fnv1a-sorted"

unfoldable pub new_replay_batch : Time → String → String → String → String → ReplayBatch
new_replay_batch now name ref test hash_algo = record {
  id = 0;
  name = name;
  ref_trail_name = ref;
  test_trail_name = test;
  status = receiving;
  seq_min = pos 0;
  seq_max = pos 0;
  hash_algo = if str_eq hash_algo "" then default_algo else hash_algo;
  created_at = now;
  updated_at = now;
}

unfoldable pub transition : Time → ReplayBatch → BatchStatus → Result ReplayBatch
transition now b to =
    if can_transition_batch b.status to
    then ok (record b { status = to; updated_at = now })
    else err invalid_state

unfoldable pub is_sealed : ReplayBatch → Bool
is_sealed b = same_status b.status sealed

unfoldable pub lock_range : Time → ReplayBatch → ℤ → ℤ → Result ReplayBatch
lock_range now b seq_min seq_max =
    if same_status b.status sealed
    then err sealed_batch
    else if ltb_ℤ seq_min (pos 0) || ltb_ℤ seq_max seq_min
    then err conflict
    else ok (record b { seq_min = seq_min; seq_max = seq_max; updated_at = now })
