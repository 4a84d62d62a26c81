-- ===== src/Httpapi/Keeping/Serving.antt =====
-- Every request keeps what the writes keep.
use task274_replaydivergence.Httpapi.Router.{
  post_batches, get_batches, get_health, get_self_check, get_one_batch, post_sync, post_confirm,
  post_seal, get_stats, post_events, get_events, patch_exclude, post_checkpoints,
  post_mark_unreliable, get_checkpoints, post_scan, get_fingerprints, post_compare, get_divergences,
  post_trace, get_chain, post_publish, post_snapshots, get_snapshots, get_one_snapshot, write_json,
  Setting, Request, one_batch, synced, validated, one_event, one_checkpoint, scanned, compared,
  traced, one_snapshot,
}
use task274_replaydivergence.Prelude.{refl}
use task274_replaydivergence.Service.Preserves.{Preserves}
use task274_replaydivergence.Store.World.{World}
use task274_replaydivergence.Httpapi.System.{handle_health}
use task274_replaydivergence.Httpapi.Trails.{handle_exclude_event, handle_import_events}
use task274_replaydivergence.Httpapi.Routes.{serve}
use task274_replaydivergence.Httpapi.Comparisons.{
  handle_add_checkpoint, handle_compare, handle_divergence_chain, handle_list_checkpoints,
  handle_list_divergences, handle_list_fingerprints, handle_mark_unreliable,
  handle_scan_fingerprints, handle_trace_divergence, checkpoint_kind,
}
use task274_replaydivergence.Httpapi.Batches.{
  handle_batch_stats, handle_confirm_batch, handle_create_batch, handle_get_batch,
  handle_list_batches, handle_seal_batch, handle_sync_batch,
}
use task274_replaydivergence.Httpapi.Snapshots.{
  handle_create_snapshot, handle_get_snapshot, handle_list_snapshots, handle_publish_snapshot,
}
use task274_replaydivergence.Service.Preserves.Batches.{
  create_batch-Keeps, confirm_batch-Keeps, seal_batch-Keeps, import_events-Keeps,
  service_add_checkpoint-Keeps, mark_checkpoint_unreliable-Keeps,
}
use task274_replaydivergence.Service.Preserves.Loops.{sync-Keeps, scan_fingerprints-Keeps}
use task274_replaydivergence.Service.Preserves.Compares.{
  exclude_event-Keeps, compare-Keeps, trace_divergence-Keeps, create_snapshot-Keeps,
}
use task274_replaydivergence.Httpapi.Keeping.{
  HandlerKeeps, responded_keeps, responded_some_keeps, parsed_keeps, call,
}
use task274_replaydivergence.Httpapi.Keeping.Reading.{read-HandlerKeeps}
use task274_replaydivergence.Httpapi.Routes.{is_get}

module _ (P : World → Type 0) (p : Preserves P) where
  -- Whatever a request asks for and meets, the server keeps the fact.
  pub serve-HandlerKeeps : (s : Setting) (req : Request) → HandlerKeeps P (serve s req)
  unfolding serve is_get handle_add_checkpoint handle_batch_stats handle_compare
      handle_confirm_batch handle_create_batch handle_create_snapshot handle_divergence_chain
      handle_exclude_event handle_get_batch handle_get_snapshot handle_health handle_import_events
      handle_list_batches handle_list_checkpoints handle_list_divergences handle_list_fingerprints
      handle_list_snapshots handle_mark_unreliable handle_publish_snapshot handle_scan_fingerprints
      handle_seal_batch handle_sync_batch handle_trace_divergence write_json
  serve-HandlerKeeps s (post_batches body) = parsed_keeps P body _ λ req.
      responded_keeps P 201 one_batch _
        (create_batch-Keeps P p (s.clock 0) req.name req.ref req.test req.hash_algo)
  serve-HandlerKeeps s (post_sync id) =
      parsed_keeps P id _
        λ i. responded_some_keeps P 200 synced _ (sync-Keeps P p s.fuel (s.clock 0) i)
  serve-HandlerKeeps s (post_confirm id) =
      call P 200 one_batch _ id (confirm_batch-Keeps P p (s.clock 0))
  serve-HandlerKeeps s (post_seal id) = call P 200 one_batch _ id (seal_batch-Keeps P p (s.clock 0))
  serve-HandlerKeeps s (post_events id body) = parsed_keeps P id _ λ i. parsed_keeps P body _ λ req.
      responded_keeps P 201 validated _
        (import_events-Keeps P p (s.ctx 0) (s.ctx 1) (s.clock 0) i req.side req.events)
  serve-HandlerKeeps s (patch_exclude id eid note) =
      parsed_keeps P id _ λ i. call P 200 one_event _ eid λ e. exclude_event-Keeps P p i e note
  serve-HandlerKeeps s (post_checkpoints id body) = parsed_keeps P id _ λ i.
      parsed_keeps P body _ λ req. responded_keeps P 201 one_checkpoint _ (
        service_add_checkpoint-Keeps P p (s.clock 0) i req.seq (checkpoint_kind req.kind)
          req.values)
  serve-HandlerKeeps s (post_mark_unreliable id cid reason) =
      parsed_keeps P id _
        λ i. call P 200 one_checkpoint _ cid λ c. mark_checkpoint_unreliable-Keeps P p i c reason
  serve-HandlerKeeps s (post_scan id) =
      call P 200 scanned _ id (scan_fingerprints-Keeps P p s.ctx s.clock)
  serve-HandlerKeeps s (post_compare id) =
      call P 200 compared _ id (compare-Keeps P p (s.ctx 0) (s.clock 0))
  serve-HandlerKeeps s (post_trace id did) = parsed_keeps P id _ λ i. parsed_keeps P did _ λ d.
      responded_some_keeps P 200 traced _
        (trace_divergence-Keeps P p (s.ctx 0) (s.ctx 1) (s.clock 0) i d)
  serve-HandlerKeeps s (post_snapshots id name) =
      call P 201 one_snapshot _ id λ i. create_snapshot-Keeps P p (s.clock 0) s.stamp i name
  serve-HandlerKeeps s (post_publish id sid) =
      parsed_keeps P id _
        λ i. call P 200 one_snapshot _ sid λ n. p.publish_snapshot (s.ctx 0) (s.clock 0) i n
  serve-HandlerKeeps s get_batches = read-HandlerKeeps P p.fact s get_batches refl
  serve-HandlerKeeps s (get_one_batch id) = read-HandlerKeeps P p.fact s (get_one_batch id) refl
  serve-HandlerKeeps s (get_stats id) = read-HandlerKeeps P p.fact s (get_stats id) refl
  serve-HandlerKeeps s (get_events id side status) =
      read-HandlerKeeps P p.fact s (get_events id side status) refl
  serve-HandlerKeeps s (get_checkpoints id) = read-HandlerKeeps P p.fact s (get_checkpoints id) refl
  serve-HandlerKeeps s (get_fingerprints id) =
      read-HandlerKeeps P p.fact s (get_fingerprints id) refl
  serve-HandlerKeeps s (get_divergences id) = read-HandlerKeeps P p.fact s (get_divergences id) refl
  serve-HandlerKeeps s (get_chain id did) = read-HandlerKeeps P p.fact s (get_chain id did) refl
  serve-HandlerKeeps s (get_snapshots id) = read-HandlerKeeps P p.fact s (get_snapshots id) refl
  serve-HandlerKeeps s (get_one_snapshot sid) =
      read-HandlerKeeps P p.fact s (get_one_snapshot sid) refl
  serve-HandlerKeeps s get_health = read-HandlerKeeps P p.fact s get_health refl
  serve-HandlerKeeps s get_self_check = read-HandlerKeeps P p.fact s get_self_check refl
