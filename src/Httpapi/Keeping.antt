-- ===== src/Httpapi/Keeping.antt =====
-- Handlers that keep a fact about the tables.
pub mod Reading
pub mod Serving
use task274_replaydivergence.Httpapi.Router.{
  post_batches, get_batches, get_health, get_self_check, get_one_batch, post_sync, post_confirm,
  post_seal, get_stats, post_events, get_events, patch_exclude, post_checkpoints,
  post_mark_unreliable, get_checkpoints, post_scan, get_fingerprints, post_compare, get_divergences,
  post_trace, get_chain, post_publish, post_snapshots, get_snapshots, get_one_snapshot, Handler,
  written, respond, written_some, respond_some, parsed, Body, write_json, write_err,
  write_malformed, SelfCheckReport, bad_side, Setting, all_events, Request, one_batch, all_batches,
  synced, statistics, validated, one_event, one_checkpoint, all_checkpoints, scanned,
  all_fingerprints, compared, all_divergences, traced, one_snapshot, all_snapshots,
}
use task274_replaydivergence.Prelude.{
  ℕ, String, Bool, List, [], ◌∷◌, Option, none, some, if◌then◌else◌, not, str_eq, true, false,
}
use task274_replaydivergence.Store.World.Keeps.{Keeps, >>=-Keeps, pure-Keeps, if-Keeps}
use task274_replaydivergence.Service.Preserves.{Preserves}
use task274_replaydivergence.Store.World.{World}
use task274_replaydivergence.Httpapi.System.{
  count_side, count_batches, report_batches, handle_self_check, check_all, or_skip, handle_health,
}
use task274_replaydivergence.Httpapi.Trails.{
  list_with_status, handle_list_events, side_of_query, event_status, handle_exclude_event,
  handle_import_events, list_named,
}
use task274_replaydivergence.Httpapi.Routes.{serve}
use task274_replaydivergence.Model.Exec.{Exec}
use task274_replaydivergence.Store.Rows.{count_events_by_status, list_batches}
use task274_replaydivergence.Model.Batch.{ReplayBatch}
use task274_replaydivergence.Model.Status.{
  TrailSide, reference, EventStatus, under_test, is_valid_trail_side,
}
use task274_replaydivergence.Httpapi.Comparisons.{
  handle_add_checkpoint, handle_compare, handle_divergence_chain, handle_list_checkpoints,
  handle_list_divergences, handle_list_fingerprints, handle_mark_unreliable,
  handle_scan_fingerprints, handle_trace_divergence, checkpoint_kind,
}
use task274_replaydivergence.Model.Errors.{Result, ok, err}
use task274_replaydivergence.Httpapi.Batches.{
  handle_batch_stats, handle_confirm_batch, handle_create_batch, handle_get_batch,
  handle_list_batches, handle_seal_batch, handle_sync_batch,
}
use task274_replaydivergence.Httpapi.Snapshots.{
  handle_create_snapshot, handle_get_snapshot, handle_list_snapshots, handle_publish_snapshot,
}
use task274_replaydivergence.Store.Fingerprints.{list_fingerprints}
use task274_replaydivergence.Store.Divergences.{list_divergences, list_chain}
use task274_replaydivergence.Store.Snapshots.{list_snapshots, get_snapshot}
use task274_replaydivergence.Service.Preserves.Batches.{
  create_batch-Keeps, confirm_batch-Keeps, seal_batch-Keeps, import_events-Keeps,
  service_add_checkpoint-Keeps, mark_checkpoint_unreliable-Keeps,
}
use task274_replaydivergence.Service.Preserves.Loops.{sync-Keeps, scan_fingerprints-Keeps}
use task274_replaydivergence.Service.Preserves.Compares.{
  exclude_event-Keeps, compare-Keeps, trace_divergence-Keeps, create_snapshot-Keeps,
}

-- A handler leaves a world with `P` with `P`, whatever it answers.
pub record HandlerKeeps (P : World → Type 0) (h : Handler) : Type 0 where
  pub kept : (w : World) → P w → P (h w).1

module _ {A : Type 0} (P : World → Type 0) where
  written_keeps :
      (status : ℕ) (encode : A → Body) (r : Result A × World)
      → P r.1
      → P (written status encode r).1
  unfolding written write_json write_err
  written_keeps status encode (ok a, v) h = h
  written_keeps status encode (err e, v) h = h

  pub responded_keeps :
      (status : ℕ) (encode : A → Body) (m : Exec World A)
      → Keeps P m
      → HandlerKeeps P (respond status encode m)
  unfolding respond
  responded_keeps status encode m keeps = record {
    kept = λ w h. written_keeps status encode (m w) (keeps.kept w h);
  }

  written_some_keeps :
      (status : ℕ) (encode : A → Body) (r : Result (Option A) × World)
      → P r.1
      → P (written_some status encode r).1
  unfolding written_some write_json write_err
  written_some_keeps status encode (ok (some a), v) h = h
  written_some_keeps status encode (ok none, v) h = h
  written_some_keeps status encode (err e, v) h = h

  pub responded_some_keeps :
      (status : ℕ) (encode : A → Body) (m : Exec World (Option A))
      → Keeps P m
      → HandlerKeeps P (respond_some status encode m)
  unfolding respond_some
  responded_some_keeps status encode m keeps = record {
    kept = λ w h. written_some_keeps status encode (m w) (keeps.kept w h);
  }

  pub parsed_keeps :
      (x : Option A) (k : A → Handler)
      → ((a : A) → HandlerKeeps P (k a))
      → HandlerKeeps P (parsed x k)
  unfolding parsed write_malformed write_json
  parsed_keeps none k keeps = record { kept = λ w h. h }
  parsed_keeps (some a) k keeps = keeps a

-- A handler that answers with the result of a call.
pub call :
    {A : Type 0} (P : World → Type 0) (status : ℕ) (encode : A → Body) (m : ℕ → Exec World A)
    (id : Option ℕ)
    → ((i : ℕ) → Keeps P (m i))
    → HandlerKeeps P (parsed id λ i. respond status encode (m i))
call P status encode m id keeps =
    parsed_keeps P id _ λ i. responded_keeps P status encode (m i) (keeps i)
