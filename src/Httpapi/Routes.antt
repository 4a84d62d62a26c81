-- ===== src/Httpapi/Routes.antt =====
-- `routes` of internal/httpapi/router.go: which handler a request goes to. That the multiplexer of
-- the library picks the route whose method and path match is behind the constructors.
use task274_replaydivergence.Httpapi.Router.{
  Handler, Request, Setting, post_batches, get_batches, get_one_batch, post_sync, post_confirm,
  post_seal, get_stats, post_events, get_events, patch_exclude, post_checkpoints, get_checkpoints,
  post_mark_unreliable, post_scan, get_fingerprints, post_compare, get_divergences, post_trace,
  get_chain, post_snapshots, get_snapshots, post_publish, get_one_snapshot, get_health,
  get_self_check,
}
use task274_replaydivergence.Httpapi.Batches.{
  handle_create_batch, handle_list_batches, handle_get_batch, handle_sync_batch,
  handle_confirm_batch, handle_seal_batch, handle_batch_stats,
}
use task274_replaydivergence.Httpapi.Trails.{
  handle_import_events, handle_list_events, handle_exclude_event,
}
use task274_replaydivergence.Httpapi.Comparisons.{
  handle_add_checkpoint, handle_list_checkpoints, handle_mark_unreliable, handle_scan_fingerprints,
  handle_list_fingerprints, handle_compare, handle_list_divergences, handle_trace_divergence,
  handle_divergence_chain,
}
use task274_replaydivergence.Httpapi.Snapshots.{
  handle_create_snapshot, handle_list_snapshots, handle_publish_snapshot, handle_get_snapshot,
}
use task274_replaydivergence.Httpapi.System.{handle_health, handle_self_check}
use task274_replaydivergence.Prelude.{Bool, true, false}

unfoldable pub serve : Setting → Request → Handler
serve s (post_batches body) = handle_create_batch s body
serve s get_batches = handle_list_batches
serve s (get_one_batch id) = handle_get_batch id
serve s (post_sync id) = handle_sync_batch s id
serve s (post_confirm id) = handle_confirm_batch s id
serve s (post_seal id) = handle_seal_batch s id
serve s (get_stats id) = handle_batch_stats id
serve s (post_events id body) = handle_import_events s id body
serve s (get_events id side status) = handle_list_events id side status
serve s (patch_exclude id eid note) = handle_exclude_event id eid note
serve s (post_checkpoints id body) = handle_add_checkpoint s id body
serve s (get_checkpoints id) = handle_list_checkpoints id
serve s (post_mark_unreliable id cid reason) = handle_mark_unreliable id cid reason
serve s (post_scan id) = handle_scan_fingerprints s id
serve s (get_fingerprints id) = handle_list_fingerprints id
serve s (post_compare id) = handle_compare s id
serve s (get_divergences id) = handle_list_divergences id
serve s (post_trace id did) = handle_trace_divergence s id did
serve s (get_chain id did) = handle_divergence_chain id did
serve s (post_snapshots id name) = handle_create_snapshot s id name
serve s (get_snapshots id) = handle_list_snapshots id
serve s (post_publish id sid) = handle_publish_snapshot s id sid
serve s (get_one_snapshot sid) = handle_get_snapshot sid
serve s get_health = handle_health
serve s get_self_check = handle_self_check

-- The routes of the method GET.
unfoldable pub is_get : Request → Bool
is_get get_batches = true
is_get (get_one_batch _) = true
is_get (get_stats _) = true
is_get (get_events _ _e _) = true
is_get (get_checkpoints _) = true
is_get (get_fingerprints _) = true
is_get (get_divergences _) = true
is_get (get_chain _ _) = true
is_get (get_snapshots _) = true
is_get (get_one_snapshot _) = true
is_get get_health = true
is_get get_self_check = true
is_get _ = false
