-- ===== src/Service/Scan.antt =====
-- `ScanFingerprints` of internal/service/batch_service.go. `ctx n` is what the context's `Err` says
-- when it is asked for the time `n`, and `clock n` what `time.Now` says in round `n`. On an error
-- the source returns the count so far beside it, which its one caller drops.
pub mod Carried
pub mod Fresh
pub mod Rounds
pub mod Stored
use task274_replaydivergence.Prelude.{
  ℕ, String, Bool, true, false, not, ◌&&◌, List, [], ◌∷◌, ◌+◌, if◌then◌else◌, none,
}
use task274_replaydivergence.Prelude.Int.{ℤ}
use task274_replaydivergence.Prelude.StrMap.{StrMap}
use task274_replaydivergence.Model.Errors.{cancelled, invalid_state}
use task274_replaydivergence.Model.Status.{
  TrailSide, reference, under_test, syncing, pending_loc, same_status,
}
use task274_replaydivergence.Model.Batch.{Time, ReplayBatch}
use task274_replaydivergence.Model.Event.{ExecEvent}
use task274_replaydivergence.Model.Checkpoint.{Checkpoint, StateFingerprint, scope, is_unreliable}
use task274_replaydivergence.Model.Exec.{Exec, pure, raise, lift, ◌>>=◌}
use task274_replaydivergence.Compare.Hash.{hash_state}
use task274_replaydivergence.Compare.Replay.{replay, events_up_to}
use task274_replaydivergence.Compare.Scope.{select_scope}
use task274_replaydivergence.Store.World.{World}
use task274_replaydivergence.Store.Events.{list_by_side}
use task274_replaydivergence.Store.Rows.{get_batch, list_checkpoints}
use task274_replaydivergence.Store.Fingerprints.{upsert}
use task274_replaydivergence.Prelude.Sort.{sort_on}
use task274_replaydivergence.Prelude.Order.{int_order}

-- The two states that the loop carries from one checkpoint to the next.
pub record States : Type 0 where
  pub ref_state : StrMap String
  pub test_state : StrMap String

-- The fingerprint of one side at a checkpoint.
unfoldable pub fingerprint_of :
    Time → ℕ → ReplayBatch → Checkpoint → TrailSide → StrMap String → StateFingerprint
fingerprint_of now batch_id b cp side state = record {
  id = 0;
  batch_id = batch_id;
  side = side;
  seq = cp.seq;
  scope = scope cp;
  hash = hash_state (select_scope state (scope cp));
  algo = b.hash_algo;
  created_at = now;
}

-- The two writes of one round.
unfoldable pub save_pair : Time → ℕ → ReplayBatch → Checkpoint → States → Exec World (Unit {0})
unfolding fingerprint_of
save_pair now batch_id b cp s =
    upsert (fingerprint_of now batch_id b cp reference s.ref_state) >>= λ _.
    upsert (fingerprint_of now batch_id b cp under_test s.test_state)

-- The replays of one round, over the states that the last one left.
unfoldable pub replay_both : List ExecEvent → List ExecEvent → ℤ → States → Exec World States
replay_both ref_events test_events limit s =
    lift (replay s.ref_state (events_up_to ref_events limit)) >>= λ r.
    lift (replay s.test_state (events_up_to test_events limit)) >>= λ t.
    pure (record { ref_state = r; test_state = t })

module _ (ctx : ℕ → Bool) (clock : ℕ → Time) (batch_id : ℕ) (b : ReplayBatch)
    (ref_events test_events : List ExecEvent) where
  -- The loop, in round `n`, with the count so far.
  unfoldable pub scan_loop : ℕ → List Checkpoint → States → ℕ → Exec World ℕ
  scan_loop n [] s count = pure count
  scan_loop n (cp ∷ cps) s count = elim (ctx n) [
    | true ↦ raise cancelled
    | false ↦ elim (is_unreliable cp) [
      | true ↦ scan_loop (n + 1) cps s count
      | false ↦ replay_both ref_events test_events cp.seq s >>= λ next.
          save_pair (clock n) batch_id b cp next >>= λ _. scan_loop (n + 1) cps next (count + 1)
    ]
  ]

-- `sort.Slice` of the two listings, which are in order already.
unfoldable pub by_seq : List ExecEvent → List ExecEvent
by_seq = sort_on (λ (e : ExecEvent). e.seq)

unfoldable pub scan_fingerprints : (ℕ → Bool) → (ℕ → Time) → ℕ → Exec World ℕ
unfolding by_seq
scan_fingerprints ctx clock batch_id =
    if ctx 0
    then raise cancelled
    else get_batch batch_id >>= λ b.
        if not (same_status b.status syncing) && not (same_status b.status pending_loc)
        then raise invalid_state
        else list_checkpoints batch_id >>= λ cps.
            list_by_side batch_id reference none >>= λ ref_events.
            list_by_side batch_id under_test none >>= λ test_events.
            scan_loop ctx clock batch_id b (by_seq ref_events) (by_seq test_events) 1 cps
              (record { ref_state = []; test_state = [] }) 0
