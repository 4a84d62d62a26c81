-- ===== src/Service/Batches.antt =====
-- internal/service/batch_service.go, without `ScanFingerprints`. `now` is what `time.Now` returns,
-- one value for all reads of the clock in a call; of a request's context only what its `Err`
-- answers when it is asked is a parameter.
pub mod Sealed
pub mod Synced
pub mod Import
use task274_replaydivergence.Prelude.{
  ℕ, String, Bool, ◌&&◌, ◌||◌, List, [], ◌∷◌, Option, none, some, str_eq, if◌then◌else◌, map, not,
  false, true,
}
use task274_replaydivergence.Prelude.Int.{ℤ, pos, ltb_ℤ}
use task274_replaydivergence.Prelude.StrMap.{StrMap}
use task274_replaydivergence.Model.Errors.{
  cancelled, sealed_batch, invalid_side, invalid_state, names_required, bad_checkpoint,
}
use task274_replaydivergence.Model.Status.{
  BatchStatus, TrailSide, receiving, syncing, pending_loc, sealed, raw, same_status,
  is_valid_trail_side,
}
use task274_replaydivergence.Model.Batch.{
  Time, ReplayBatch, new_replay_batch, is_sealed, transition, lock_range,
}
use task274_replaydivergence.Model.Event.{ExecEvent}
use task274_replaydivergence.Model.Checkpoint.{
  Checkpoint, CheckpointKind, other_kind, mark_unreliable,
}
use task274_replaydivergence.Model.Exec.{Exec, pure, raise, lift, ◌>>=◌}
use task274_replaydivergence.Trace.Importer.{EventInput}
use task274_replaydivergence.Trace.Validator.{ValidationResult, validate}
use task274_replaydivergence.Sync.Aligner.{AlignResult, align}
use task274_replaydivergence.Store.World.{World, with_tx}
use task274_replaydivergence.Store.Events.{seq_exists, insert_batch, event_getter}
use task274_replaydivergence.Store.Rows.{
  create_batch_row, get_batch, update_batch, create_checkpoint, get_checkpoint, update_checkpoint,
}

unfoldable pub create_batch : Time → String → String → String → String → Exec World ReplayBatch
create_batch now name ref test algo =
    if str_eq name "" || str_eq ref "" || str_eq test ""
    then raise names_required
    else create_batch_row (new_replay_batch now name ref test algo)

-- From the events that validation accepts on.
unfoldable pub store_events :
    Bool → Time → ValidationResult → List ExecEvent → Exec World ValidationResult
store_events stopped now res [] = pure res
store_events stopped now res (e ∷ es) =
    if stopped
    then raise cancelled
    else with_tx (insert_batch (map (λ (f : ExecEvent). record f { created_at = now }) (e ∷ es)))
      >>= λ _. pure res

-- `stopped_first` and `stopped_later`: whether the context is cancelled at the two tests.
unfoldable pub import_events :
    Bool → Bool → Time → ℕ → TrailSide → List EventInput → Exec World ValidationResult
unfolding store_events
import_events stopped_first stopped_later now batch_id side inputs =
    if stopped_first
    then raise cancelled
    else get_batch batch_id >>= λ b.
        if is_sealed b
        then raise sealed_batch
        else if not (is_valid_trail_side side)
        then raise invalid_side
        else if not (same_status b.status receiving) && not (same_status b.status syncing)
        then raise invalid_state
        else validate seq_exists batch_id side raw inputs >>= λ out.
            store_events stopped_later now out.0 out.1

-- kind == ""
is_blank : CheckpointKind → Bool
is_blank (other_kind s) = str_eq s ""
is_blank _ = false

-- len(values) == 0
has_no_values : StrMap String → Bool
has_no_values [] = true
has_no_values (_ ∷ _) = false

unfoldable pub service_add_checkpoint :
    Time → ℕ → ℤ → CheckpointKind → StrMap String → Exec World Checkpoint
unfolding is_blank has_no_values
service_add_checkpoint now batch_id seq kind values = get_batch batch_id >>= λ b.
    if is_sealed b
    then raise sealed_batch
    else if ltb_ℤ seq (pos 0) || is_blank kind || has_no_values values
    then raise bad_checkpoint
    else create_checkpoint (record {
      id = 0;
      batch_id = batch_id;
      seq = seq;
      kind = kind;
      values = values;
      status = "trusted";
      reason = "";
      created_at = now;
    })

unfoldable pub mark_checkpoint_unreliable : ℕ → ℕ → String → Exec World Checkpoint
mark_checkpoint_unreliable batch_id cp_id reason = get_batch batch_id >>= λ b.
    if is_sealed b
    then raise sealed_batch
    else get_checkpoint batch_id cp_id >>= λ c.
        update_checkpoint (mark_unreliable c reason) >>= λ _. pure (mark_unreliable c reason)

pub record SyncResult : Type 0 where
  pub align : AlignResult
  pub batch : ReplayBatch

-- From the result of the alignment on; `none` where its loop ran out of fuel.
unfoldable pub lock_synced :
    Time → ReplayBatch → Option AlignResult → Exec World (Option SyncResult)
lock_synced now b none = pure none
lock_synced now b (some res) = lift (lock_range now b res.seq_min res.seq_max) >>= λ locked.
    lift (transition now locked syncing) >>= λ moved.
    update_batch moved >>= λ _. pure (some (record { align = res; batch = moved }))

unfoldable pub sync : ℕ → Time → ℕ → Exec World (Option SyncResult)
unfolding lock_synced
sync fuel now batch_id = get_batch batch_id >>= λ b.
    if not (same_status b.status receiving)
    then raise invalid_state
    else align fuel event_getter batch_id >>= lock_synced now b

-- The move of a batch in status `from` to `to`, and its UPDATE.
unfoldable pub move_batch : Time → BatchStatus → BatchStatus → ReplayBatch → Exec World ReplayBatch
move_batch now from to b =
    if not (same_status b.status from)
    then raise invalid_state
    else lift (transition now b to) >>= λ moved. update_batch moved >>= λ _. pure moved

unfoldable pub confirm_batch : Time → ℕ → Exec World ReplayBatch
unfolding move_batch
confirm_batch now batch_id = get_batch batch_id >>= move_batch now pending_loc BatchStatus.confirmed

unfoldable pub seal_batch : Time → ℕ → Exec World ReplayBatch
unfolding move_batch
seal_batch now batch_id = get_batch batch_id >>= move_batch now BatchStatus.confirmed sealed
