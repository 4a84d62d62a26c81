-- ===== src/Httpapi/Comparisons.antt =====
-- internal/httpapi/compare_handlers.go: a handler for each route.
use task274_replaydivergence.Prelude.{ℕ, String, Option, str_eq, if◌then◌else◌}
use task274_replaydivergence.Httpapi.Router.{
  Handler, respond, respond_some, parsed, Setting, all_checkpoints, one_checkpoint,
  all_fingerprints, all_divergences, Body, AddCheckpointReq, scanned, compared, traced,
}
use task274_replaydivergence.Model.Checkpoint.{
  CheckpointKind, register_kind, memory_kind, full_kind, other_kind,
}
use task274_replaydivergence.Store.Rows.{list_checkpoints}
use task274_replaydivergence.Service.Batches.{mark_checkpoint_unreliable, service_add_checkpoint}
use task274_replaydivergence.Store.Fingerprints.{list_fingerprints}
use task274_replaydivergence.Store.Divergences.{list_divergences, get_divergence, list_chain}
use task274_replaydivergence.Service.Scan.{scan_fingerprints}
use task274_replaydivergence.Service.Comparison.{compare}
use task274_replaydivergence.Service.Tracing.{trace_divergence}
use task274_replaydivergence.Model.Exec.{◌>>=◌}

-- model.CheckpointKind(text)
unfoldable pub checkpoint_kind : String → CheckpointKind
checkpoint_kind text =
    if str_eq text "register"
    then register_kind
    else if str_eq text "memory"
    then memory_kind
    else if str_eq text "full"
    then full_kind
    else other_kind text

unfoldable pub handle_add_checkpoint : Setting → Option ℕ → Option AddCheckpointReq → Handler
unfolding checkpoint_kind
handle_add_checkpoint s id body = parsed id λ i. parsed body λ req.
    respond 201 one_checkpoint
      (service_add_checkpoint (s.clock 0) i req.seq (checkpoint_kind req.kind) req.values)

unfoldable pub handle_list_checkpoints : Option ℕ → Handler
handle_list_checkpoints id = parsed id λ i. respond 200 all_checkpoints (list_checkpoints i)

unfoldable pub handle_mark_unreliable : Option ℕ → Option ℕ → String → Handler
handle_mark_unreliable id cid reason =
    parsed id
      λ i. parsed cid λ c. respond 200 one_checkpoint (mark_checkpoint_unreliable i c reason)

unfoldable pub handle_scan_fingerprints : Setting → Option ℕ → Handler
handle_scan_fingerprints s id =
    parsed id λ i. respond 200 scanned (scan_fingerprints s.ctx s.clock i)

unfoldable pub handle_list_fingerprints : Option ℕ → Handler
handle_list_fingerprints id = parsed id λ i. respond 200 all_fingerprints (list_fingerprints i)

unfoldable pub handle_compare : Setting → Option ℕ → Handler
handle_compare s id = parsed id λ i. respond 200 compared (compare (s.ctx 0) (s.clock 0) i)

unfoldable pub handle_list_divergences : Option ℕ → Handler
handle_list_divergences id = parsed id λ i. respond 200 all_divergences (list_divergences i)

unfoldable pub handle_trace_divergence : Setting → Option ℕ → Option ℕ → Handler
handle_trace_divergence s id did = parsed id λ i.
    parsed did λ d. respond_some 200 traced (trace_divergence (s.ctx 0) (s.ctx 1) (s.clock 0) i d)

unfoldable pub handle_divergence_chain : Option ℕ → Option ℕ → Handler
handle_divergence_chain id did =
    parsed id
      λ i. parsed did λ d. respond 200 Body.chain_nodes (get_divergence i d >>= λ _. list_chain d)
