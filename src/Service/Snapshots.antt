-- ===== src/Service/Snapshots.antt =====
-- internal/service/snapshot_service.go. `stopped` is what the context's `Err` says, `now` what
-- `time.Now` returns, one value for all reads of the clock in a call, and `stamp` its formatted
-- text. `settle` drops the error of a call.
pub mod Rows
pub mod Lookups
pub mod Transaction
pub mod Published
pub mod Elsewhere
pub mod Single
use task274_replaydivergence.Prelude.{
  ℕ, String, Bool, not, ◌&&◌, ◌||◌, ◌==◌, ltb, List, [], ◌∷◌, Option, none, some, str_eq,
  if◌then◌else◌, length, true, false,
}
use Prim.Native.String.{◌++◌ as ◌+++◌}
use task274_replaydivergence.Prelude.Int.{pos}
use task274_replaydivergence.Model.Errors.{
  cancelled, sealed_batch, invalid_state, not_found, Result, ok, err,
}
use task274_replaydivergence.Model.Status.{
  SnapshotStatus, DivergenceStatus, draft, published, sealed, pending_loc, same_status, under_test,
  EventStatus, BatchStatus, first_divergence,
}
use task274_replaydivergence.Model.Batch.{Time, ReplayBatch, is_sealed, transition}
use task274_replaydivergence.Model.Event.{ExecEvent}
use task274_replaydivergence.Model.Divergence.{Divergence, blank}
use task274_replaydivergence.Model.Checkpoint.{Checkpoint, is_unreliable}
use task274_replaydivergence.Model.Snapshot.{
  LocSnapshot, SnapshotSummary, new_loc_snapshot, set_summary, publish,
}
use task274_replaydivergence.Snapshot.Publisher.{
  ConfigAssembler, new_config_assembler, add_checkpoint, add_unreliable, add_excluded, build,
  replace,
}
use task274_replaydivergence.Model.Exec.{Exec, pure, raise, lift, ◌>>=◌}
use task274_replaydivergence.Store.World.{World, with_tx}
use task274_replaydivergence.Store.Rows.{get_batch, list_checkpoints, update_batch}
use task274_replaydivergence.Store.Events.{list_by_side}
use task274_replaydivergence.Store.Divergences.{list_divergences, max_depth}
use task274_replaydivergence.Store.Snapshots.{
  create_snapshot_row, get_snapshot, list_snapshots, update_snapshot,
}

-- The loop over the checkpoints.
add_checkpoints : ConfigAssembler → List Checkpoint → ConfigAssembler
add_checkpoints a [] = a
add_checkpoints a (cp ∷ cps) =
    add_checkpoints (if is_unreliable cp then add_unreliable a cp.seq else add_checkpoint a cp.seq)
      cps

-- The loop over the excluded events.
add_excluded_events : ConfigAssembler → List ExecEvent → ConfigAssembler
add_excluded_events a [] = a
add_excluded_events a (e ∷ es) = add_excluded_events (add_excluded a e.seq) es

unfoldable pub create_snapshot : Time → String → ℕ → String → Exec World LocSnapshot
unfolding add_checkpoints add_excluded_events
create_snapshot now stamp batch_id name = get_batch batch_id >>= λ b.
    if is_sealed b
    then raise sealed_batch
    else if not (same_status b.status BatchStatus.confirmed)
        && not (same_status b.status pending_loc)
    then raise invalid_state
    else list_checkpoints batch_id >>= λ cps.
        list_by_side batch_id under_test (some EventStatus.excluded) >>= λ excluded.
        create_snapshot_row (
          new_loc_snapshot now batch_id (if str_eq name "" then "snapshot-" +++ stamp else name)
            (build (add_excluded_events (add_checkpoints (new_config_assembler b) cps) excluded)))

is_located : Divergence → Bool
is_located d = elim d.status [
  | DivergenceStatus.confirmed ↦ true
  | first_divergence ↦ true
  | _ ↦ false
]

-- The loop that keeps the located divergence of the greatest id.
unfoldable pub latest_located : Option Divergence → List Divergence → Option Divergence
unfolding is_located
latest_located best [] = best
latest_located none (d ∷ ds) = latest_located (if is_located d then some d else none) ds
latest_located (some c) (d ∷ ds) =
    latest_located (some (if is_located d && ltb c.id d.id then d else c)) ds

-- `if depth, err := ...; err == nil`: a failure leaves the depth 0.
or_zero : Result ℕ × World → Result ℕ × World
or_zero (ok depth, w) = (ok depth, w)
or_zero (err e, w) = (ok 0, w)

located_depth : ℕ → Exec World ℕ
unfolding or_zero
located_depth div_id w = or_zero (max_depth div_id w)

unfoldable pub summary_of : ℕ → Option Divergence → Exec World SnapshotSummary
unfolding located_depth
summary_of count none = pure (record {
  first_divergent_seq = pos 0;
  first_divergent_pc = "";
  first_divergent_op = "";
  divergence_count = count;
  chain_depth = 0;
  root_cause = blank;
})
summary_of count (some d) = located_depth d.id >>= λ depth. pure (record {
  first_divergent_seq = d.first_divergent_seq;
  first_divergent_pc = d.first_divergent_pc;
  first_divergent_op = d.first_divergent_op;
  divergence_count = count;
  chain_depth = depth;
  root_cause = d.root_cause;
})

unfoldable pub is_published : LocSnapshot → Bool
is_published s = elim s.status [ published ↦ true | _ ↦ false ]

is_draft : LocSnapshot → Bool
is_draft s = elim s.status [ draft ↦ true | _ ↦ false ]

-- The loop over the snapshots of the batch.
unfoldable pub supersede_rows : ℕ → List LocSnapshot → Exec World (Unit {0})
unfolding is_published
supersede_rows snap_id [] = pure tt
supersede_rows snap_id (old ∷ rest) = elim (is_published old && not (old.id == snap_id)) [
  | true ↦ update_snapshot (replace snap_id old) >>= λ _. supersede_rows snap_id rest
  | false ↦ supersede_rows snap_id rest
]

unfoldable pub seal_if_open : Time → ReplayBatch → Exec World (Unit {0})
seal_if_open now b =
    if not (same_status b.status sealed)
    then (lift (transition now b sealed) >>= λ moved. update_batch moved)
    else pure tt

-- The body of the transaction.
unfoldable pub replace_published : Time → ℕ → ReplayBatch → ℕ → LocSnapshot → Exec World (Unit {0})
unfolding supersede_rows seal_if_open
replace_published now batch_id b snap_id snap = list_snapshots batch_id >>= λ existing.
    supersede_rows snap_id existing >>= λ _. update_snapshot snap >>= λ _. seal_if_open now b

-- From the reading of the divergences on.
unfoldable pub publish_draft : Time → ℕ → ReplayBatch → ℕ → LocSnapshot → Exec World LocSnapshot
unfolding replace_published summary_of latest_located
publish_draft now batch_id b snap_id snap = list_divergences batch_id >>= λ divs.
    summary_of (length divs) (latest_located none divs) >>= λ sum.
    lift (set_summary snap sum) >>= λ summed. lift (publish now summed) >>= λ done.
    with_tx (replace_published now batch_id b snap_id done) >>= λ _. pure done

unfoldable pub publish_snapshot : Bool → Time → ℕ → ℕ → Exec World LocSnapshot
unfolding publish_draft is_draft
publish_snapshot stopped now batch_id snap_id =
    if stopped
    then raise cancelled
    else get_batch batch_id >>= λ b. get_snapshot snap_id >>= λ snap.
        if not (snap.batch_id == batch_id)
        then raise not_found
        else if not (is_draft snap)
        then raise invalid_state
        else publish_draft now batch_id b snap_id snap
