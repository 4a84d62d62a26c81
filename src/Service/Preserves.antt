-- ===== src/Service/Preserves.antt =====
-- What a fact about the tables needs so that every call of the service keeps it: the writes of the
-- stores keep it one by one, and the two calls whose writes depend on what they have read.
pub mod Queries
pub mod Parts
pub mod Batches
pub mod Loops
pub mod Compares
pub mod Consistent
use task274_replaydivergence.Prelude.{ℕ, String, Bool, ◌≡◌, ◌≢◌}
use task274_replaydivergence.Prelude.Int.{ℤ}
use task274_replaydivergence.Store.World.{World}
use task274_replaydivergence.Store.World.Holds.{IsTableFact}
use task274_replaydivergence.Store.World.Keeps.{Keeps}
use task274_replaydivergence.Model.Batch.{ReplayBatch, Time}
use task274_replaydivergence.Model.Checkpoint.{Checkpoint, StateFingerprint}
use task274_replaydivergence.Model.Event.{ExecEvent}
use task274_replaydivergence.Model.Status.{EventStatus, TrailSide, SnapshotStatus, candidate}
use task274_replaydivergence.Model.Divergence.{RwEdge, Divergence, ChainEdge}
use task274_replaydivergence.Model.Snapshot.{LocSnapshot}
use task274_replaydivergence.Store.Rows.{
  create_batch_row, update_batch, create_checkpoint, update_checkpoint,
}
use task274_replaydivergence.Store.Events.{insert_row, update_status, batch_update_status}
use task274_replaydivergence.Store.Fingerprints.{upsert}
use task274_replaydivergence.Store.Dependencies.{insert_edge, delete_edges}
use task274_replaydivergence.Store.Divergences.{update_divergence, insert_node, delete_chain}
use task274_replaydivergence.Store.Snapshots.{create_snapshot_row}
use task274_replaydivergence.Service.Comparison.{propose}
use task274_replaydivergence.Service.Snapshots.{publish_snapshot}

pub record Preserves (P : World → Type 0) : Type 0 where
  pub fact : IsTableFact P
  pub create_batch_row : (b : ReplayBatch) → Keeps P (create_batch_row b)
  pub update_batch : (b : ReplayBatch) → Keeps P (update_batch b)
  pub create_checkpoint : (c : Checkpoint) → Keeps P (create_checkpoint c)
  pub update_checkpoint : (c : Checkpoint) → Keeps P (update_checkpoint c)
  pub insert_row : (e : ExecEvent) → Keeps P (insert_row e)
  pub update_status :
      (batch_id id : ℕ) (status : EventStatus) (note : String)
      → Keeps P (update_status batch_id id status note)
  pub batch_update_status :
      (batch_id : ℕ) (side : TrailSide) (status : EventStatus)
      → Keeps P (batch_update_status batch_id side status)
  pub upsert : (f : StateFingerprint) → Keeps P (upsert f)
  pub insert_edge : (e : RwEdge) → Keeps P (insert_edge e)
  pub delete_edges : (batch_id : ℕ) → Keeps P (delete_edges batch_id)
  pub propose : (now : Time) (batch_id : ℕ) (seq : ℤ) → Keeps P (propose now batch_id seq)
  pub update_divergence : (d : Divergence) → d.status ≢ candidate → Keeps P (update_divergence d)
  pub insert_node : (n : ChainEdge) → Keeps P (insert_node n)
  pub delete_chain : (div_id : ℕ) → Keeps P (delete_chain div_id)
  pub create_draft :
      (s : LocSnapshot) → s.status ≡ SnapshotStatus.draft → Keeps P (create_snapshot_row s)
  pub publish_snapshot :
      (stopped : Bool) (now : Time) (batch_id snap_id : ℕ)
      → Keeps P (publish_snapshot stopped now batch_id snap_id)
