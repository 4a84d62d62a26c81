-- ===== src/Service/Atomic.antt =====
-- The calls of one statement that write: where they fail, they have changed no table.
use task274_replaydivergence.Prelude.{ℕ, String, refl, inl, inr, Bool-cases}
use task274_replaydivergence.Store.World.{World, statement}
use task274_replaydivergence.Store.World.Quiet.{
  IsQuiet, IsAtomic, >>=-IsAtomic, >>=-IsQuiet, >>=-IsAtomic_pure, if-IsAtomic, raise-IsAtomic,
  read-IsQuiet, statement-IsQuiet,
}
use task274_replaydivergence.Model.Errors.{
  Result, ok, names_required, invalid_state, sealed_batch, bad_checkpoint,
}
use task274_replaydivergence.Model.Exec.{◌>>=◌, Exec, pure}
use task274_replaydivergence.Store.Rows.{
  update_batch, create_checkpoint, create_batch_row, get_checkpoint, list_checkpoints,
  update_checkpoint, get_batch, has_checkpoint,
}
use task274_replaydivergence.Service.Batches.{
  create_batch, service_add_checkpoint, mark_checkpoint_unreliable, move_batch, confirm_batch,
  seal_batch,
}
use task274_replaydivergence.Service.Tracing.{exclude_event}
use task274_replaydivergence.Service.Snapshots.{create_snapshot}
use task274_replaydivergence.Model.Batch.{ReplayBatch, Time}
use task274_replaydivergence.Model.Checkpoint.{Checkpoint, CheckpointKind}
use task274_replaydivergence.Store.Events.{get, update_status, list_by_side}
use task274_replaydivergence.Prelude.Int.{ℤ}
use task274_replaydivergence.Model.Status.{BatchStatus, pending_loc, sealed}
use task274_replaydivergence.Service.Batches.Import.{get_batch-IsQuiet}
use task274_replaydivergence.Store.Snapshots.{create_snapshot_row}
use task274_replaydivergence.Prelude.StrMap.{StrMap}

query-IsQuiet :
    {A : Type 0} (f : World → Result A) → IsQuiet (statement >>= λ _. λ (w : World). (f w, w))
query-IsQuiet f = >>=-IsQuiet statement _ statement-IsQuiet λ _. read-IsQuiet f

-- A statement that the database runs does not fail any more.
write-IsAtomic :
    {A : Type 0} (r : World → A) (f : World → World)
    → IsAtomic (statement >>= λ _. λ (w : World). (ok (r w), f w))
write-IsAtomic r f =
    >>=-IsAtomic statement _ statement-IsQuiet λ _. record { same = λ w e h. absurd (cc h) }

-- What is left to do after a write is to return.
returned-IsAtomic :
    {A B : Type 0} (m : Exec World A) (b : B) → IsAtomic m → IsAtomic (m >>= λ _. pure b)
returned-IsAtomic m b atomic = >>=-IsAtomic_pure m _ atomic λ _ w e h. absurd (cc h)

update_batch-IsAtomic : (b : ReplayBatch) → IsAtomic (update_batch b)
unfolding update_batch
update_batch-IsAtomic b = write-IsAtomic _ _

pub create_batch-IsAtomic :
    (now : Time) (name ref test algo : String) → IsAtomic (create_batch now name ref test algo)
unfolding create_batch create_batch_row
create_batch-IsAtomic now name ref test algo =
    if-IsAtomic _ _ _ (raise-IsAtomic names_required) (write-IsAtomic _ _)

create_checkpoint-IsAtomic : (c : Checkpoint) → IsAtomic (create_checkpoint c)
unfolding create_checkpoint
create_checkpoint-IsAtomic c = >>=-IsAtomic statement _ statement-IsQuiet λ _. record {
  same = λ w e h. elim (Bool-cases (has_checkpoint c.batch_id c.seq w.checkpoints)) [
    | inl taken ↦ rw taken refl
    | inr fresh ↦ absurd (cc (rw fresh at h))
  ];
}

pub service_add_checkpoint-IsAtomic :
    (now : Time) (batch_id : ℕ) (seq : ℤ) (kind : CheckpointKind) (values : StrMap String)
    → IsAtomic (service_add_checkpoint now batch_id seq kind values)
unfolding service_add_checkpoint
service_add_checkpoint-IsAtomic now batch_id seq kind values =
    >>=-IsAtomic (get_batch batch_id) _ (get_batch-IsQuiet batch_id) λ b.
      if-IsAtomic _ _ _ (raise-IsAtomic sealed_batch)
        (if-IsAtomic _ _ _ (raise-IsAtomic bad_checkpoint) (create_checkpoint-IsAtomic _))

pub mark_checkpoint_unreliable-IsAtomic :
    (batch_id cp_id : ℕ) (reason : String)
    → IsAtomic (mark_checkpoint_unreliable batch_id cp_id reason)
unfolding mark_checkpoint_unreliable get_checkpoint update_checkpoint
mark_checkpoint_unreliable-IsAtomic batch_id cp_id reason =
    >>=-IsAtomic (get_batch batch_id) _ (get_batch-IsQuiet batch_id) λ b.
      if-IsAtomic _ _ _ (raise-IsAtomic sealed_batch)
        (>>=-IsAtomic _ _ (query-IsQuiet _) λ c. returned-IsAtomic _ _ (write-IsAtomic _ _))

move_batch-IsAtomic :
    (now : Time) (from to : BatchStatus) (b : ReplayBatch) → IsAtomic (move_batch now from to b)
unfolding move_batch
move_batch-IsAtomic now from to b =
    if-IsAtomic _ _ _ (raise-IsAtomic invalid_state)
      (>>=-IsAtomic _ _ (read-IsQuiet _) λ m. returned-IsAtomic _ _ (update_batch-IsAtomic m))

pub confirm_batch-IsAtomic : (now : Time) (id : ℕ) → IsAtomic (confirm_batch now id)
unfolding confirm_batch
confirm_batch-IsAtomic now id =
    >>=-IsAtomic (get_batch id) _ (get_batch-IsQuiet id)
      (move_batch-IsAtomic now pending_loc BatchStatus.confirmed)

pub seal_batch-IsAtomic : (now : Time) (id : ℕ) → IsAtomic (seal_batch now id)
unfolding seal_batch
seal_batch-IsAtomic now id =
    >>=-IsAtomic (get_batch id) _ (get_batch-IsQuiet id)
      (move_batch-IsAtomic now BatchStatus.confirmed sealed)

pub exclude_event-IsAtomic :
    (batch_id event_id : ℕ) (note : String) → IsAtomic (exclude_event batch_id event_id note)
unfolding exclude_event get update_status
exclude_event-IsAtomic batch_id event_id note =
    >>=-IsAtomic (get_batch batch_id) _ (get_batch-IsQuiet batch_id) λ b.
      if-IsAtomic _ _ _ (raise-IsAtomic sealed_batch)
        (>>=-IsAtomic _ _ (query-IsQuiet _) λ c. returned-IsAtomic _ _ (write-IsAtomic _ _))

pub create_snapshot-IsAtomic :
    (now : Time) (stamp : String) (batch_id : ℕ) (name : String)
    → IsAtomic (create_snapshot now stamp batch_id name)
unfolding create_snapshot list_checkpoints list_by_side create_snapshot_row
create_snapshot-IsAtomic now stamp batch_id name =
    >>=-IsAtomic (get_batch batch_id) _ (get_batch-IsQuiet batch_id) λ b.
      if-IsAtomic _ _ _ (raise-IsAtomic sealed_batch) (
        if-IsAtomic _ _ _ (raise-IsAtomic invalid_state) (
          >>=-IsAtomic _ _ (query-IsQuiet _)
            λ cps. >>=-IsAtomic _ _ (query-IsQuiet _) λ excluded. write-IsAtomic _ _))
