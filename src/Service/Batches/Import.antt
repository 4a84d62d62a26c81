-- ===== src/Service/Batches/Import.antt =====
-- What `ImportEvents` leaves behind when it fails.
use task274_replaydivergence.Prelude.{ℕ, Bool, [], if◌then◌else◌, List, ◌∷◌, not, ◌&&◌}
use task274_replaydivergence.Model.Errors.{sealed_batch, invalid_side, invalid_state, cancelled}
use task274_replaydivergence.Store.World.{statement}
use task274_replaydivergence.Trace.Validator.{examine, validate_loop, validate, ValidationResult}
use task274_replaydivergence.Store.Events.{seq_exists}
use task274_replaydivergence.Store.Rows.{get_batch}
use task274_replaydivergence.Model.Status.{
  TrailSide, EventStatus, is_valid_trail_side, same_status, receiving, syncing, raw,
}
use task274_replaydivergence.Service.Batches.{import_events, store_events}
use task274_replaydivergence.Prelude.Int.{ℤ, negsuc, leb_ℤ}
use task274_replaydivergence.Model.Batch.{Time, is_sealed}
use task274_replaydivergence.Trace.Importer.{EventInput, dedupe_inputs}
use task274_replaydivergence.Model.Event.{ExecEvent}
use task274_replaydivergence.Store.World.Quiet.{
  IsQuiet, IsAtomic, >>=-IsQuiet, if-IsAtomic, if-IsQuiet, raise-IsAtomic, >>=-IsAtomic_pure,
  >>=-IsAtomic, statement-IsQuiet, read-IsQuiet, IsAtomic-of_IsQuiet, pure-IsQuiet,
  with_tx-IsAtomic,
}

seq_exists-IsQuiet :
    (batch_id : ℕ) (side : TrailSide) (seq : ℤ) → IsQuiet (seq_exists batch_id side seq)
unfolding seq_exists
seq_exists-IsQuiet batch_id side seq = >>=-IsQuiet statement _ statement-IsQuiet λ _. read-IsQuiet _

pub get_batch-IsQuiet : (id : ℕ) → IsQuiet (get_batch id)
unfolding get_batch
get_batch-IsQuiet id = >>=-IsQuiet statement _ statement-IsQuiet λ _. read-IsQuiet _

module _ (batch_id : ℕ) (side : TrailSide) (status : EventStatus) where
  examine-IsQuiet : (i : EventInput) → IsQuiet (examine seq_exists batch_id side status i)
  unfolding examine
  examine-IsQuiet i =
      >>=-IsQuiet (seq_exists batch_id side i.seq) _ (seq_exists-IsQuiet batch_id side i.seq)
        λ _. read-IsQuiet _

  validate_loop-IsQuiet :
      (last : ℤ) (inputs : List EventInput)
      → IsQuiet (validate_loop seq_exists batch_id side status last inputs)
  unfolding validate_loop
  validate_loop-IsQuiet last [] = read-IsQuiet _
  validate_loop-IsQuiet last (i ∷ rest) =
      >>=-IsQuiet _ _ (if-IsQuiet (leb_ℤ i.seq last) _ _ (read-IsQuiet _) (examine-IsQuiet i)) λ v.
        >>=-IsQuiet _ _ (validate_loop-IsQuiet (if leb_ℤ i.seq last then last else i.seq) rest)
          λ _. read-IsQuiet _

  pub validate-IsQuiet :
      (inputs : List EventInput) → IsQuiet (validate seq_exists batch_id side status inputs)
  unfolding validate
  validate-IsQuiet inputs =
      >>=-IsQuiet _ _ (validate_loop-IsQuiet (negsuc 0) (dedupe_inputs inputs)) λ _. read-IsQuiet _

store_events-IsAtomic :
    (stopped : Bool) (now : Time) (res : ValidationResult) (es : List ExecEvent)
    → IsAtomic (store_events stopped now res es)
unfolding store_events
store_events-IsAtomic stopped now res [] = IsAtomic-of_IsQuiet _ (pure-IsQuiet res)
store_events-IsAtomic stopped now res (x ∷ es) =
    if-IsAtomic stopped _ _ (raise-IsAtomic cancelled)
      (>>=-IsAtomic_pure _ _ (with_tx-IsAtomic _) λ _ w e h. cc h)

-- If `ImportEvents` returns an error, whether the request was cancelled, the batch or the side
-- was refused, or the database refused any statement, then no table has changed: no part of a
-- fragment is stored.
pub import_events-IsAtomic :
    (stopped_first stopped_later : Bool) (now : Time) (batch_id : ℕ) (side : TrailSide)
    (inputs : List EventInput)
    → IsAtomic (import_events stopped_first stopped_later now batch_id side inputs)
unfolding import_events
import_events-IsAtomic stopped_first stopped_later now batch_id side inputs =
    if-IsAtomic stopped_first _ _ (raise-IsAtomic cancelled) (
      >>=-IsAtomic (get_batch batch_id) _ (get_batch-IsQuiet batch_id) λ b.
        if-IsAtomic (is_sealed b) _ _ (raise-IsAtomic sealed_batch) (
          if-IsAtomic (not (is_valid_trail_side side)) _ _ (raise-IsAtomic invalid_side) (
            if-IsAtomic (not (same_status b.status receiving) && not (same_status b.status syncing))
              _ _ (raise-IsAtomic invalid_state)
              (>>=-IsAtomic _ _ (validate-IsQuiet batch_id side raw inputs)
                λ out. store_events-IsAtomic stopped_later now out.0 out.1))))
