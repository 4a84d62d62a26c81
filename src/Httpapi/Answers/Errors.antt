-- ===== src/Httpapi/Answers/Errors.antt =====
-- What an answer with an error leaves.
use task274_replaydivergence.Prelude.{Bool, true, false, ◌≡◌, refl, some, ◌≤◌}
use task274_replaydivergence.Httpapi.Reached.{serve-SameTables}
use task274_replaydivergence.Httpapi.Router.{
  post_batches, get_batches, get_health, get_self_check, get_one_batch, post_sync, post_confirm,
  post_seal, get_stats, post_events, get_events, patch_exclude, post_checkpoints,
  post_mark_unreliable, get_checkpoints, post_scan, get_fingerprints, post_compare, get_divergences,
  post_trace, get_chain, post_publish, post_snapshots, get_snapshots, get_one_snapshot, Request,
  Setting, Answer, one_batch, validated, one_event, one_checkpoint, one_snapshot,
}
use task274_replaydivergence.Httpapi.Answers.{respond-IsAtomic, parsed_same, created, done}
use task274_replaydivergence.Httpapi.Routes.{serve, is_get}
use task274_replaydivergence.Httpapi.Comparisons.{
  handle_add_checkpoint, handle_mark_unreliable, checkpoint_kind,
}
use task274_replaydivergence.Httpapi.Batches.{
  handle_confirm_batch, handle_create_batch, handle_seal_batch,
}
use task274_replaydivergence.Httpapi.Snapshots.{handle_create_snapshot, handle_publish_snapshot}
use task274_replaydivergence.Httpapi.Trails.{handle_exclude_event, handle_import_events}
use task274_replaydivergence.Store.World.{World}
use task274_replaydivergence.Store.World.Atomic.{SameTables}
use task274_replaydivergence.Service.Atomic.{
  create_batch-IsAtomic, confirm_batch-IsAtomic, seal_batch-IsAtomic, exclude_event-IsAtomic,
  service_add_checkpoint-IsAtomic, mark_checkpoint_unreliable-IsAtomic, create_snapshot-IsAtomic,
}
use task274_replaydivergence.Service.Batches.Import.{import_events-IsAtomic}
use task274_replaydivergence.Service.Snapshots.Published.{publish_snapshot-IsAtomic}

-- The requests whose calls write by several statements outside of one transaction.
unfoldable pub writes_in_steps : Request → Bool
writes_in_steps (post_sync _) = true
writes_in_steps (post_scan _) = true
writes_in_steps (post_compare _) = true
writes_in_steps (post_trace _ _) = true
writes_in_steps _ = false

-- A request that is answered with an error, whether the request, a check or the database is to
-- blame, leaves every table as it was, unless it asks for a synchronisation, a scan, a comparison
-- or a trace.
pub serve-SameTables_on_error :
    (s : Setting) (req : Request) (w : World) (a : Answer)
    → writes_in_steps req ≡ false
    → (serve s req w).0 ≡ some a
    → 400 ≤ a.status
    → SameTables (serve s req w).1 w
unfolding serve writes_in_steps is_get handle_add_checkpoint handle_confirm_batch
    handle_create_batch handle_create_snapshot handle_exclude_event handle_import_events
    handle_mark_unreliable handle_publish_snapshot handle_seal_batch
serve-SameTables_on_error s (post_batches body) w a slow given bad =
    parsed_same body _ w a
      (λ req given_req.
        respond-IsAtomic 201 one_batch _ w a created
          (create_batch-IsAtomic (s.clock 0) req.name req.ref req.test req.hash_algo) given_req bad)
      given
serve-SameTables_on_error s (post_confirm id) w a slow given bad =
    parsed_same id _ w a
      (λ i given_i.
        respond-IsAtomic 200 one_batch _ w a done (confirm_batch-IsAtomic (s.clock 0) i) given_i
          bad)
      given
serve-SameTables_on_error s (post_seal id) w a slow given bad =
    parsed_same id _ w a
      (λ i given_i.
        respond-IsAtomic 200 one_batch _ w a done (seal_batch-IsAtomic (s.clock 0) i) given_i bad)
      given
serve-SameTables_on_error s (post_events id body) w a slow given bad =
    parsed_same id _ w a
      (λ i given_i.
        parsed_same body _ w a
          (λ req given_req.
            respond-IsAtomic 201 validated _ w a created
              (import_events-IsAtomic (s.ctx 0) (s.ctx 1) (s.clock 0) i req.side req.events)
              given_req bad)
          given_i)
      given
serve-SameTables_on_error s (patch_exclude id eid note) w a slow given bad =
    parsed_same id _ w a
      (λ i given_i.
        parsed_same eid _ w a
          (λ e given_e.
            respond-IsAtomic 200 one_event _ w a done (exclude_event-IsAtomic i e note) given_e bad)
          given_i)
      given
serve-SameTables_on_error s (post_checkpoints id body) w a slow given bad =
    parsed_same id _ w a
      (λ i given_i.
        parsed_same body _ w a
          (λ req given_req.
            respond-IsAtomic 201 one_checkpoint _ w a created
              (service_add_checkpoint-IsAtomic (s.clock 0) i req.seq (checkpoint_kind req.kind)
                req.values)
              given_req bad)
          given_i)
      given
serve-SameTables_on_error s (post_mark_unreliable id cid reason) w a slow given bad =
    parsed_same id _ w a
      (λ i given_i.
        parsed_same cid _ w a
          (λ c given_c.
            respond-IsAtomic 200 one_checkpoint _ w a done
              (mark_checkpoint_unreliable-IsAtomic i c reason) given_c bad)
          given_i)
      given
serve-SameTables_on_error s (post_snapshots id name) w a slow given bad =
    parsed_same id _ w a
      (λ i given_i.
        respond-IsAtomic 201 one_snapshot _ w a created
          (create_snapshot-IsAtomic (s.clock 0) s.stamp i name) given_i bad)
      given
serve-SameTables_on_error s (post_publish id sid) w a slow given bad =
    parsed_same id _ w a
      (λ i given_i.
        parsed_same sid _ w a
          (λ n given_n.
            respond-IsAtomic 200 one_snapshot _ w a done
              (publish_snapshot-IsAtomic (s.ctx 0) (s.clock 0) i n) given_n bad)
          given_i)
      given
serve-SameTables_on_error s get_batches w a slow given bad = serve-SameTables s get_batches w refl
serve-SameTables_on_error s get_health w a slow given bad = serve-SameTables s get_health w refl
serve-SameTables_on_error s get_self_check w a slow given bad =
    serve-SameTables s get_self_check w refl
serve-SameTables_on_error s (get_one_batch id) w a slow given bad =
    serve-SameTables s (get_one_batch id) w refl
serve-SameTables_on_error s (get_stats id) w a slow given bad =
    serve-SameTables s (get_stats id) w refl
serve-SameTables_on_error s (get_events id side status) w a slow given bad =
    serve-SameTables s (get_events id side status) w refl
serve-SameTables_on_error s (get_checkpoints id) w a slow given bad =
    serve-SameTables s (get_checkpoints id) w refl
serve-SameTables_on_error s (get_fingerprints id) w a slow given bad =
    serve-SameTables s (get_fingerprints id) w refl
serve-SameTables_on_error s (get_divergences id) w a slow given bad =
    serve-SameTables s (get_divergences id) w refl
serve-SameTables_on_error s (get_chain id did) w a slow given bad =
    serve-SameTables s (get_chain id did) w refl
serve-SameTables_on_error s (get_snapshots id) w a slow given bad =
    serve-SameTables s (get_snapshots id) w refl
serve-SameTables_on_error s (get_one_snapshot sid) w a slow given bad =
    serve-SameTables s (get_one_snapshot sid) w refl
serve-SameTables_on_error s (post_sync id) w a slow given bad = absurd (cc slow)
serve-SameTables_on_error s (post_scan id) w a slow given bad = absurd (cc slow)
serve-SameTables_on_error s (post_compare id) w a slow given bad = absurd (cc slow)
serve-SameTables_on_error s (post_trace id did) w a slow given bad = absurd (cc slow)
