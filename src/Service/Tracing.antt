-- ===== src/Service/Tracing.antt =====
-- `TraceDivergence` and `ExcludeEvent` of internal/service/compare_service.go. `stopped_first` and
-- `stopped_later` are what the context's `Err` says at its two tests, and `now` what `time.Now`
-- returns, one value for all reads of the clock in a call. `none` is the outcome of a trace whose
-- queue ran out of fuel.
pub mod Kept
pub mod Ready
pub mod Confirmed
pub mod Traced
use task274_replaydivergence.Prelude.{
  ℕ, String, Bool, not, ◌==◌, List, [], ◌∷◌, Option, none, some, if◌then◌else◌, length, map, true,
  false,
}
use task274_replaydivergence.Model.Errors.{cancelled, sealed_batch, invalid_state}
use task274_replaydivergence.Model.Divergence.{
  Divergence, RwEdge, no_difference, diff_resources, ChainEdge,
}
use task274_replaydivergence.Model.Batch.{ReplayBatch, Time, transition, is_sealed}
use task274_replaydivergence.Service.Scan.{by_seq}
use task274_replaydivergence.Model.Exec.{Exec, lift, pure, raise, ◌>>=◌}
use task274_replaydivergence.Model.Status.{
  DivergenceStatus, insufficient_evidence, same_status, BatchStatus, pending_loc, EventStatus,
  reference, under_test,
}
use task274_replaydivergence.Model.Event.{ExecEvent}
use task274_replaydivergence.Store.World.{World, with_tx}
use task274_replaydivergence.Backtrace.Tracer.{TraceResult, trace, new_tracer}
use task274_replaydivergence.Store.Rows.{get_batch, update_batch}
use task274_replaydivergence.Compare.Replay.{replay, events_up_to}
use task274_replaydivergence.Store.Divergences.{update_divergence, save_chain, get_divergence}
use task274_replaydivergence.Compare.Diff.{diff_state}
use task274_replaydivergence.Store.Events.{get, update_status, list_by_side}
use task274_replaydivergence.Backtrace.Graph.{sort_edges, new_graph_builder}
use task274_replaydivergence.Backtrace.Graph.{build}
use task274_replaydivergence.Store.Dependencies.{replace_all}

pub record TraceOutcome : Type 0 where
  pub divergence : Divergence
  pub edges : ℕ
  pub batch : ReplayBatch

-- What `TraceDivergence` has read and computed before the two states are compared.
pub record Inputs : Type 0 where
  pub batch : ReplayBatch
  pub found : Divergence
  pub ref_events : List ExecEvent
  pub test_events : List ExecEvent
  pub edges : List RwEdge

-- From the reading of the batch to the edges of the dependency graph, which are stored.
unfoldable pub build_graph : ℕ → ℕ → Exec World Inputs
unfolding by_seq
build_graph batch_id div_id = get_batch batch_id >>= λ b.
    if not (same_status b.status pending_loc)
    then raise invalid_state
    else get_divergence batch_id div_id >>= λ d. list_by_side batch_id reference none >>= λ refs.
        list_by_side batch_id under_test none >>= λ tests.
        let ref_events = by_seq refs in
        let test_events = by_seq tests in
        let edges = sort_edges (build (new_graph_builder batch_id) ref_events test_events).edges in
        with_tx (replace_all batch_id edges) >>= λ _. pure (record {
          batch = b;
          found = d;
          ref_events = ref_events;
          test_events = test_events;
          edges = edges;
        })

-- The difference of the two states at the checkpoint.
unfoldable pub difference : Inputs → Exec World (List String)
difference i = lift (replay [] (events_up_to i.ref_events i.found.checkpoint_seq)) >>= λ r.
    lift (replay [] (events_up_to i.test_events i.found.checkpoint_seq)) >>= λ t.
    pure (diff_state r t)

-- Where the states do not differ.
unfoldable pub give_up : Time → Inputs → Exec World (Option TraceOutcome)
give_up now i =
    let d : Divergence = record i.found {
      status = insufficient_evidence;
      evidence = no_difference;
      updated_at = now;
    } in
    update_divergence d >>= λ _.
    pure (some (record { divergence = d; edges = length i.edges; batch = i.batch }))

unfoldable pub describe : Time → Divergence → ℕ → TraceResult → Divergence
describe now d differences tr = record d {
  first_divergent_seq = tr.first_seq;
  first_divergent_pc = tr.first_pc;
  first_divergent_op = tr.first_op;
  root_cause = tr.root_cause;
  status = tr.status;
  updated_at = now;
  evidence = diff_resources differences tr.first_seq tr.first_pc tr.first_op;
}

is_insufficient : DivergenceStatus → Bool
is_insufficient s = elim s [ insufficient_evidence ↦ true | _ ↦ false ]

-- The move of the batch, which the outcome shows.
unfoldable pub confirm : Time → ReplayBatch → DivergenceStatus → Exec World ReplayBatch
unfolding is_insufficient
confirm now b status =
    if not (is_insufficient status)
    then (lift (transition now b BatchStatus.confirmed) >>= λ moved.
        update_batch moved >>= λ _. pure moved)
    else pure b

-- From the result of the tracer on.
unfoldable pub record_trace :
    Time → ℕ → Inputs → ℕ → Option TraceResult → Exec World (Option TraceOutcome)
unfolding describe confirm
record_trace now div_id i differences none = pure none
record_trace now div_id i differences (some tr) =
    let d = describe now i.found differences tr in
    with_tx (
      save_chain div_id
        (map (λ (n : ChainEdge). record n { divergence_id = div_id }) tr.chain_nodes))
    >>= λ _. update_divergence d >>= λ _. confirm now i.batch d.status >>= λ b.
        pure (some (record { divergence = d; edges = length i.edges; batch = b }))

-- The two ways on from the difference.
unfoldable pub trace_difference :
    Bool → Time → ℕ → ℕ → Inputs → List String → Exec World (Option TraceOutcome)
unfolding give_up record_trace
trace_difference stopped_later now batch_id div_id i [] = give_up now i
trace_difference stopped_later now batch_id div_id i (r ∷ rs) =
    if stopped_later
    then raise cancelled
    else record_trace now div_id i (length (r ∷ rs)) (
        trace (new_tracer batch_id i.edges i.test_events i.ref_events) (r ∷ rs)
          i.found.checkpoint_seq div_id)

unfoldable pub trace_divergence : Bool → Bool → Time → ℕ → ℕ → Exec World (Option TraceOutcome)
unfolding build_graph difference trace_difference
trace_divergence stopped_first stopped_later now batch_id div_id =
    if stopped_first
    then raise cancelled
    else build_graph batch_id div_id >>= λ i.
        difference i >>= λ diff. trace_difference stopped_later now batch_id div_id i diff

unfoldable pub exclude_event : ℕ → ℕ → String → Exec World ExecEvent
exclude_event batch_id event_id note = get_batch batch_id >>= λ b.
    if is_sealed b
    then raise sealed_batch
    else get batch_id event_id >>= λ e.
        update_status batch_id event_id EventStatus.excluded note >>= λ _.
        pure (record e { status = EventStatus.excluded; note = note })
