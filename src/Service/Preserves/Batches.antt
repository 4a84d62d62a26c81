-- ===== src/Service/Preserves/Batches.antt =====
-- The calls of batch_service.go but the two loops.
use task274_replaydivergence.Prelude.{ℕ, String, List, [], ◌∷◌, Bool}
use task274_replaydivergence.Prelude.Int.{ℤ}
use task274_replaydivergence.Service.Preserves.{Preserves}
use task274_replaydivergence.Service.Preserves.Parts.{insert_batch-Keeps, transaction}
use task274_replaydivergence.Store.World.{World}
use task274_replaydivergence.Store.World.Keeps.{
  Keeps, if-Keeps, >>=-Keeps, pure-Keeps, raise-Keeps, read-Keeps,
}
use task274_replaydivergence.Service.Batches.{
  create_batch, import_events, service_add_checkpoint, mark_checkpoint_unreliable, confirm_batch,
  seal_batch, store_events, move_batch,
}
use task274_replaydivergence.Model.Batch.{Time, ReplayBatch}
use task274_replaydivergence.Store.Rows.{get_batch, update_batch}
use task274_replaydivergence.Model.Event.{ExecEvent}
use task274_replaydivergence.Model.Status.{TrailSide, BatchStatus, sealed, raw, pending_loc}
use task274_replaydivergence.Model.Checkpoint.{CheckpointKind}
use task274_replaydivergence.Service.Batches.Import.{validate-IsQuiet}
use task274_replaydivergence.Trace.Importer.{EventInput}
use task274_replaydivergence.Prelude.StrMap.{StrMap}
use task274_replaydivergence.Model.Errors.{
  names_required, sealed_batch, invalid_state, bad_checkpoint, cancelled, invalid_side,
}
use task274_replaydivergence.Trace.Validator.{ValidationResult}
use task274_replaydivergence.Service.Preserves.Queries.{
  quiet, get_batch-Keeps, get_checkpoint-Keeps,
}

module _ (P : World → Type 0) (p : Preserves P) where
  -- The move of a batch and its UPDATE.
  move_batch-Keeps :
      (now : Time) (from to : BatchStatus) (b : ReplayBatch) → Keeps P (move_batch now from to b)
  unfolding move_batch
  move_batch-Keeps now from to b = if-Keeps _ _ _ (raise-Keeps P invalid_state) (
      >>=-Keeps _ _ (read-Keeps P _)
        λ m. >>=-Keeps (update_batch m) _ (p.update_batch m) λ _. pure-Keeps P m)

  pub create_batch-Keeps :
      (now : Time) (name ref test algo : String) → Keeps P (create_batch now name ref test algo)
  unfolding create_batch
  create_batch-Keeps now name ref test algo =
      if-Keeps _ _ _ (raise-Keeps P names_required) (p.create_batch_row _)

  pub import_events-Keeps :
      (stopped_first stopped_later : Bool) (now : Time) (batch_id : ℕ) (side : TrailSide)
      (inputs : List EventInput)
      → Keeps P (import_events stopped_first stopped_later now batch_id side inputs)
  unfolding import_events
  import_events-Keeps stopped_first stopped_later now batch_id side inputs =
      if-Keeps stopped_first _ _ (raise-Keeps P cancelled) (
        >>=-Keeps (get_batch batch_id) _ (get_batch-Keeps P p.fact batch_id) λ b.
          if-Keeps _ _ _ (raise-Keeps P sealed_batch) (
            if-Keeps _ _ _ (raise-Keeps P invalid_side) (
              if-Keeps _ _ _ (raise-Keeps P invalid_state) (
                >>=-Keeps _ _ (quiet P p.fact _ (validate-IsQuiet batch_id side raw inputs))
                  λ out. store out.0 out.1))))
    where
      store :
          (res : ValidationResult) (es : List ExecEvent)
          → Keeps P (store_events stopped_later now res es)
      store res [] = pure-Keeps P res
      store res (e ∷ es) =
          if-Keeps stopped_later _ _ (raise-Keeps P cancelled)
            (>>=-Keeps _ _ (transaction P p _ (insert_batch-Keeps P p _)) λ _. pure-Keeps P res)

  pub service_add_checkpoint-Keeps :
      (now : Time) (batch_id : ℕ) (seq : ℤ) (kind : CheckpointKind) (values : StrMap String)
      → Keeps P (service_add_checkpoint now batch_id seq kind values)
  unfolding service_add_checkpoint
  service_add_checkpoint-Keeps now batch_id seq kind values =
      >>=-Keeps (get_batch batch_id) _ (get_batch-Keeps P p.fact batch_id) λ b.
        if-Keeps _ _ _ (raise-Keeps P sealed_batch)
          (if-Keeps _ _ _ (raise-Keeps P bad_checkpoint) (p.create_checkpoint _))

  pub mark_checkpoint_unreliable-Keeps :
      (batch_id cp_id : ℕ) (reason : String)
      → Keeps P (mark_checkpoint_unreliable batch_id cp_id reason)
  unfolding mark_checkpoint_unreliable
  mark_checkpoint_unreliable-Keeps batch_id cp_id reason =
      >>=-Keeps (get_batch batch_id) _ (get_batch-Keeps P p.fact batch_id) λ b.
        if-Keeps _ _ _ (raise-Keeps P sealed_batch) (
          >>=-Keeps _ _ (get_checkpoint-Keeps P p.fact batch_id cp_id)
            λ c. >>=-Keeps _ _ (p.update_checkpoint _) λ _. pure-Keeps P _)

  pub confirm_batch-Keeps : (now : Time) (id : ℕ) → Keeps P (confirm_batch now id)
  unfolding confirm_batch
  confirm_batch-Keeps now id =
      >>=-Keeps (get_batch id) _ (get_batch-Keeps P p.fact id)
        (move_batch-Keeps now pending_loc BatchStatus.confirmed)

  pub seal_batch-Keeps : (now : Time) (id : ℕ) → Keeps P (seal_batch now id)
  unfolding seal_batch
  seal_batch-Keeps now id =
      >>=-Keeps (get_batch id) _ (get_batch-Keeps P p.fact id)
        (move_batch-Keeps now BatchStatus.confirmed sealed)
