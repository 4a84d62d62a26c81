-- ===== src/Model/Snapshot.antt =====
-- internal/model/snapshot.go: the locating snapshot and its life. The JSON texts of the
-- configuration and of the summary are kept as the records that they encode; a snapshot without a
-- summary has the empty text in the source and `none` here; a root cause is as in
-- `Model.Divergence`.
pub mod Life
use task274_replaydivergence.Prelude.{ℕ, String, List, Option, none, some}
use task274_replaydivergence.Prelude.Int.{ℤ}
use task274_replaydivergence.Model.Batch.{Time}
use task274_replaydivergence.Model.Divergence.{RootCause}
use task274_replaydivergence.Model.Errors.{Result, ok, err, invalid_state}
use task274_replaydivergence.Model.Status.{SnapshotStatus, draft, published, superseded}

pub record SnapshotConfig : Type 0 where
  pub seq_min : ℤ
  pub seq_max : ℤ
  pub hash_algo : String
  pub checkpoint_seqs : List ℤ
  pub unreliable_seqs : List ℤ
  pub excluded_seqs : List ℤ

pub record SnapshotSummary : Type 0 where
  pub first_divergent_seq : ℤ
  pub first_divergent_pc : String
  pub first_divergent_op : String
  pub divergence_count : ℕ
  pub chain_depth : ℕ
  pub root_cause : RootCause

pub record LocSnapshot : Type 0 where
  pub id : ℕ
  pub batch_id : ℕ
  pub name : String
  pub status : SnapshotStatus
  pub config : SnapshotConfig
  pub summary : Option SnapshotSummary
  pub created_at : Time
  pub published_at : Option Time
  pub superseded_by : ℕ

unfoldable pub new_loc_snapshot : Time → ℕ → String → SnapshotConfig → LocSnapshot
new_loc_snapshot now batch_id name cfg = record {
  id = 0;
  batch_id = batch_id;
  name = name;
  status = draft;
  config = cfg;
  summary = none;
  created_at = now;
  published_at = none;
  superseded_by = 0;
}

unfoldable pub set_summary : LocSnapshot → SnapshotSummary → Result LocSnapshot
set_summary s sum = elim s.status [
  | draft ↦ ok (record s { summary = some sum })
  | _ ↦ err invalid_state
]

unfoldable pub publish : Time → LocSnapshot → Result LocSnapshot
publish now s = elim s.status [
  | draft ↦ ok (record s { status = published; published_at = some now })
  | _ ↦ err invalid_state
]

unfoldable pub supersede : LocSnapshot → ℕ → Result LocSnapshot
supersede s by_id = elim s.status [
  | published ↦ ok (record s { status = superseded; superseded_by = by_id })
  | _ ↦ err invalid_state
]
