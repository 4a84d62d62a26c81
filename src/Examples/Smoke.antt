-- ===== src/Examples/Smoke.antt =====
-- The smoke test on a new database.
use task274_replaydivergence.Service.Statistics.{stats}
use task274_replaydivergence.Snapshot.Publisher.{
  build as build_config, add_checkpoint, new_config_assembler,
}
use task274_replaydivergence.Model.Snapshot.{new_loc_snapshot, set_summary, publish}
use task274_replaydivergence.Store.Snapshots.{
  create_snapshot_row, get_snapshot, list_snapshots, update_snapshot,
}
use task274_replaydivergence.Service.Snapshots.{create_snapshot, publish_snapshot}
use task274_replaydivergence.Backtrace.Tracer.{trace, new_tracer, writes_differ, latest_ref_writer}
use task274_replaydivergence.Compare.Diff.{diff_state}
use task274_replaydivergence.Backtrace.Graph.{sort_edges, build, new_graph_builder}
use task274_replaydivergence.Store.Dependencies.{replace_all, count_dependencies}
use task274_replaydivergence.Service.Tracing.{trace_divergence}
use task274_replaydivergence.Store.Divergences.{
  list_divergences, create_divergence, get_divergence, save_chain, update_divergence, list_chain,
  max_depth,
}
use task274_replaydivergence.Compare.Scope.{select_scope}
use task274_replaydivergence.Compare.Hash.{hash_state}
use task274_replaydivergence.Service.Comparison.{compare}
use task274_replaydivergence.Store.Fingerprints.{upsert, get_pair, count_fingerprints}
use task274_replaydivergence.Model.Event.{key}
use task274_replaydivergence.Prelude.StrMap.{lookup, insert, index}
use task274_replaydivergence.Compare.Replay.{replay, events_up_to}
use task274_replaydivergence.Model.Checkpoint.{is_unreliable, scope, is_match}
use task274_replaydivergence.Service.Scan.{scan_fingerprints, scan_loop, replay_both, save_pair}
use task274_replaydivergence.Prelude.Int.{◌+ℤ◌}
use task274_replaydivergence.Sync.Aligner.{
  align, count_missing, min64, max64, next_seq, align_result, count_seq, has_seq,
}
use task274_replaydivergence.Store.Events.{
  seq_exists, insert_batch, event_getter, seq_range, list_by_side, update_status,
}
use task274_replaydivergence.Prelude.Sort.{sort_on}
use task274_replaydivergence.Trace.Importer.{dedupe_inputs, to_model}
use task274_replaydivergence.Trace.Validator.{validate}
use task274_replaydivergence.Model.Status.{same_status, is_valid_trail_side, can_transition_batch}
use task274_replaydivergence.Model.Batch.{is_sealed, new_replay_batch, lock_range, transition}
use task274_replaydivergence.Model.Exec.{◌>>=◌}
use task274_replaydivergence.Store.Rows.{
  create_batch_row, get_batch, create_checkpoint, update_batch, list_checkpoints,
  count_events_by_status,
}
use task274_replaydivergence.Service.Batches.{
  create_batch, import_events, service_add_checkpoint, sync,
}
use task274_replaydivergence.Prelude.{ℕ, String, ◌≡◌, refl}
use task274_replaydivergence.Model.Errors.{ok}
use task274_replaydivergence.Store.World.{new_database, statement, with_tx}
use task274_replaydivergence.Cmd.Smoke.{run_smoke_test, must, some_or_fail, with_one}

-- The smoke test exits with 0, whatever the clock says.
smoke_passes : (now : ℕ) (stamp : String) → (run_smoke_test 8 now stamp new_database).0 ≡ ok 0
unfolding build_config run_smoke_test new_database must create_batch create_batch_row ◌>>=◌
    statement import_events get_batch is_sealed same_status new_replay_batch is_valid_trail_side
    validate dedupe_inputs sort_on seq_exists to_model with_tx insert_batch service_add_checkpoint
    create_checkpoint sync align event_getter seq_range list_by_side update_status count_missing
    min64 max64 next_seq ◌+ℤ◌ lock_range align_result transition can_transition_batch update_batch
    some_or_fail count_seq has_seq scan_fingerprints list_checkpoints scan_loop is_unreliable
    replay_both replay events_up_to lookup key save_pair upsert compare get_pair scope is_match
    hash_state select_scope insert index list_divergences create_divergence with_one
    trace_divergence get_divergence replace_all sort_edges build new_graph_builder diff_state trace
    new_tracer writes_differ latest_ref_writer save_chain update_divergence list_chain
    create_snapshot create_snapshot_row publish_snapshot get_snapshot new_loc_snapshot max_depth
    set_summary publish list_snapshots update_snapshot add_checkpoint new_config_assembler stats
    count_events_by_status count_fingerprints count_dependencies
smoke_passes now stamp = refl
