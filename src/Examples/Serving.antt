-- ===== src/Examples/Serving.antt =====
-- Publications, statistics, a trace and the table of fingerprints of one batch.
use task274_replaydivergence.Prelude.StrMap.{index}
use task274_replaydivergence.Prelude.{◌≡◌, refl, [], ◌∷◌, false, some, none, ap, Option}
use task274_replaydivergence.Prelude.Int.{pos}
use task274_replaydivergence.Model.Status.{
  BatchStatus, syncing, published, pending_loc, reference, raw, under_test, same_status,
  can_transition_batch, DivergenceStatus, sealed,
}
use task274_replaydivergence.Service.Scan.{by_seq}
use task274_replaydivergence.Service.Comparison.{new_candidate}
use task274_replaydivergence.Model.Snapshot.{LocSnapshot, set_summary, publish}
use task274_replaydivergence.Service.Snapshots.{publish_snapshot}
use task274_replaydivergence.Service.Snapshots.Published.{
  publish_snapshot-IsPublished, publish_snapshot-IsAtomic,
}
use task274_replaydivergence.Service.Snapshots.Transaction.{IsPublished}
use task274_replaydivergence.Store.World.Atomic.{SameTables}
use task274_replaydivergence.Service.Statistics.{BatchStats, stats}
use task274_replaydivergence.Service.Statistics.Totals.{IsTallied, stats-IsTallied}
use task274_replaydivergence.Store.World.{World, statement, with_tx}
use task274_replaydivergence.Store.Rows.{
  get_batch, list_checkpoints, update_batch, count_events_by_status,
}
use task274_replaydivergence.Examples.{batch_at}
use task274_replaydivergence.Model.Divergence.{blank, first_instruction, diff_resources}
use task274_replaydivergence.Store.Snapshots.{
  get_snapshot, list_snapshots, update_snapshot, snapshots_of, update_snapshot_rows,
}
use task274_replaydivergence.Store.Fingerprints.{
  get_pair, count_fingerprints, upsert_rows, same_scope,
}
use task274_replaydivergence.Store.Divergences.{
  list_divergences, divergences_of, get_divergence, save_chain, update_divergence,
}
use task274_replaydivergence.Model.Errors.{invalid_state, ok, err, Result}
use task274_replaydivergence.Store.Dependencies.{count_dependencies, replace_all}
use task274_replaydivergence.Model.Exec.{◌>>=◌}
use task274_replaydivergence.Prelude.Sort.{sort_on}
use task274_replaydivergence.Model.Batch.{transition}
use task274_replaydivergence.Store.Events.{on_side, same_event_status, list_by_side, same_side}
use task274_replaydivergence.Snapshot.Publisher.{replace}
use task274_replaydivergence.Service.Tracing.{TraceOutcome, trace_divergence, Inputs}
use task274_replaydivergence.Service.Tracing.Ready.{IsTraceOutcome, IsRead}
use task274_replaydivergence.Service.Tracing.Traced.{trace_divergence-IsTraceOutcome}
use task274_replaydivergence.Compare.Replay.{replay, events_up_to}
use task274_replaydivergence.Compare.Diff.{diff_state}
use task274_replaydivergence.Backtrace.Tracer.{
  trace, new_tracer, first_divergent_event, expand_chain, writes_differ, latest_ref_writer,
}
use task274_replaydivergence.Backtrace.Graph.{sort_edges, new_graph_builder, build}
use task274_replaydivergence.Prelude.StrMap.{insert, lookup}
use task274_replaydivergence.Model.Event.{key}
use task274_replaydivergence.Store.Fingerprints.Table.{
  HashMap, put, IsTableOf, upsert_rows-IsTableOf,
}
use task274_replaydivergence.Store.Fingerprints.Keyed.{hash_at}
use task274_replaydivergence.Store.Fingerprints.Refined.{IsSimulation, fingerprints-IsSimulation}
use task274_replaydivergence.Examples.Served.{snapshot, served, fingerprint}

abbrev second_published : LocSnapshot
second_published = record (snapshot 2 published) {
  summary = some (record {
    first_divergent_seq = pos 0;
    first_divergent_pc = "";
    first_divergent_op = "";
    divergence_count = 1;
    chain_depth = 0;
    root_cause = blank;
  });
  published_at = some 5;
}

publish_runs :
    (publish_snapshot false 5 1 2 (served BatchStatus.confirmed [])).0 ≡ ok second_published
unfolding publish_snapshot get_batch get_snapshot list_divergences list_snapshots update_snapshot
    update_batch divergences_of snapshots_of ◌>>=◌ same_status sort_on transition
    can_transition_batch new_candidate statement set_summary publish with_tx replace
    update_snapshot_rows
publish_runs = refl

publish_snapshot-IsPublished_example :
    IsPublished 1 2 (publish_snapshot false 5 1 2 (served BatchStatus.confirmed [])).1
publish_snapshot-IsPublished_example =
    publish_snapshot-IsPublished false 5 1 2 (served BatchStatus.confirmed [])
      (publish_snapshot false 5 1 2 (served BatchStatus.confirmed [])).1 second_published
      (ap (λ r. (r, (publish_snapshot false 5 1 2 (served BatchStatus.confirmed [])).1))
        publish_runs)

-- The batch still waits, so it cannot be sealed, and the transaction is rolled back.
publish_fails : (publish_snapshot false 5 1 2 (served pending_loc [])).0 ≡ err invalid_state
unfolding publish_snapshot get_batch get_snapshot list_divergences list_snapshots update_snapshot
    update_batch divergences_of snapshots_of ◌>>=◌ same_status sort_on transition
    can_transition_batch new_candidate statement set_summary publish with_tx replace
    update_snapshot_rows
publish_fails = refl

publish_snapshot-IsAtomic_example :
    SameTables (publish_snapshot false 5 1 2 (served pending_loc [])).1 (served pending_loc [])
publish_snapshot-IsAtomic_example =
    (publish_snapshot-IsAtomic false 5 1 2).same (served pending_loc []) invalid_state publish_fails

-- A draft of a sealed batch is published all the same, and replaces the published snapshot.
sealed_publishes : (publish_snapshot false 5 1 2 (served sealed [])).0 ≡ ok second_published
unfolding publish_snapshot get_batch get_snapshot list_divergences list_snapshots update_snapshot
    update_batch divergences_of snapshots_of ◌>>=◌ same_status sort_on transition
    can_transition_batch new_candidate statement set_summary publish with_tx replace
    update_snapshot_rows
sealed_publishes = refl

abbrev tallied : BatchStats
tallied = record {
  batch_id = 1;
  batch_status = syncing;
  ref_events = 2;
  test_events = 2;
  checkpoints = 1;
  fingerprints = 2;
  dependencies = 0;
  divergences = 1;
  snapshots = 2;
  event_status = ((reference, raw), 2) ∷ ((under_test, raw), 2) ∷ [];
}

stats_run : stats 1 (served syncing []) ≡ (ok tallied, served syncing [])
unfolding stats get_batch list_checkpoints count_fingerprints count_dependencies list_divergences
    list_snapshots divergences_of snapshots_of ◌>>=◌ sort_on statement count_events_by_status
    new_candidate on_side same_event_status
stats_run = refl

stats_example : IsTallied 1 tallied (served syncing [])
stats_example = stats-IsTallied 1 (served syncing []) (served syncing []) tallied stats_run

abbrev second_differs : TraceOutcome
second_differs = record {
  divergence = record {
    id = 1;
    batch_id = 1;
    checkpoint_seq = pos 2;
    status = DivergenceStatus.confirmed;
    first_divergent_seq = pos 2;
    first_divergent_pc = "0x0";
    first_divergent_op = "ADD";
    root_cause = first_instruction (pos 2) "ADD" "0x0";
    evidence = diff_resources 1 (pos 2) "0x0" "ADD";
    created_at = 3;
    updated_at = 5;
  };
  edges = 1;
  batch = record (batch_at BatchStatus.confirmed) { updated_at = 5 };
}

abbrev traced : Result (Option TraceOutcome) × World
traced = trace_divergence false false 5 1 1 (served pending_loc [])

trace_runs : traced.0 ≡ ok (some second_differs)
unfolding trace_divergence get_batch get_divergence list_by_side get_pair list_divergences
    update_batch divergences_of ◌>>=◌ same_status sort_on transition can_transition_batch
    new_candidate statement with_tx replace_all replay events_up_to diff_state trace new_tracer
    sort_edges build save_chain update_divergence first_divergent_event expand_chain insert lookup
    key on_side new_graph_builder by_seq writes_differ latest_ref_writer index
trace_runs = refl

trace_divergence_example :
    (i : Inputs) × IsRead 1 1 i (served pending_loc [])
    × IsTraceOutcome 1 1 i (some second_differs) traced.1
trace_divergence_example =
    trace_divergence-IsTraceOutcome false false 5 1 1 (served pending_loc []) traced.1
      (some second_differs) (ap (λ r. (r, traced.1)) trace_runs)

-- The empty map and the two entries that the table has.
abbrev no_hashes : HashMap
no_hashes k = none

abbrev two_hashes : HashMap
two_hashes = put (fingerprint 2 under_test "b") (put (fingerprint 1 reference "a") no_hashes)

two_rows : IsTableOf two_hashes (served syncing []).fingerprints
unfolding hash_at upsert_rows same_scope same_side
two_rows =
    upsert_rows-IsTableOf (put (fingerprint 1 reference "a") no_hashes) 2
      (fingerprint 2 under_test "b") _
      (upsert_rows-IsTableOf no_hashes 1 (fingerprint 1 reference "a") []
        (record { keyed = tt; agrees = λ k. refl }))

fingerprints-IsSimulation_example : IsSimulation two_hashes (served syncing [])
fingerprints-IsSimulation_example =
    fingerprints-IsSimulation two_hashes (served syncing []) two_rows
