-- ===== src/Httpapi/Keeping/Reading.antt =====
-- The requests that read.
use task274_replaydivergence.Httpapi.Router.{
  post_batches, get_batches, get_health, get_self_check, get_one_batch, post_sync, post_confirm,
  post_seal, get_stats, post_events, get_events, patch_exclude, post_checkpoints,
  post_mark_unreliable, get_checkpoints, post_scan, get_fingerprints, post_compare, get_divergences,
  post_trace, get_chain, post_publish, post_snapshots, get_snapshots, get_one_snapshot, Handler,
  Body, write_json, SelfCheckReport, bad_side, Setting, all_events, Request, one_batch, all_batches,
  statistics, all_checkpoints, all_fingerprints, all_divergences, all_snapshots,
}
use task274_replaydivergence.Prelude.{
  ℕ, String, Bool, List, [], ◌∷◌, Option, none, some, if◌then◌else◌, not, str_eq, true, false, ◌≡◌,
}
use task274_replaydivergence.Store.World.Keeps.{Keeps, >>=-Keeps, pure-Keeps, if-Keeps}
use task274_replaydivergence.Store.World.{World}
use task274_replaydivergence.Httpapi.System.{
  count_side, count_batches, report_batches, handle_self_check, check_all, or_skip, handle_health,
}
use task274_replaydivergence.Httpapi.Trails.{
  list_with_status, handle_list_events, side_of_query, event_status, handle_exclude_event,
  handle_import_events, list_named,
}
use task274_replaydivergence.Httpapi.Routes.{serve}
use task274_replaydivergence.Store.Rows.{count_events_by_status, list_batches}
use task274_replaydivergence.Model.Batch.{ReplayBatch}
use task274_replaydivergence.Model.Status.{
  TrailSide, reference, EventStatus, under_test, is_valid_trail_side,
}
use task274_replaydivergence.Httpapi.Comparisons.{
  handle_add_checkpoint, handle_compare, handle_divergence_chain, handle_list_checkpoints,
  handle_list_divergences, handle_list_fingerprints, handle_mark_unreliable,
  handle_scan_fingerprints, handle_trace_divergence,
}
use task274_replaydivergence.Model.Errors.{Result, ok, err}
use task274_replaydivergence.Httpapi.Batches.{
  handle_batch_stats, handle_confirm_batch, handle_create_batch, handle_get_batch,
  handle_list_batches, handle_seal_batch, handle_sync_batch,
}
use task274_replaydivergence.Httpapi.Snapshots.{
  handle_create_snapshot, handle_get_snapshot, handle_list_snapshots, handle_publish_snapshot,
}
use task274_replaydivergence.Store.Fingerprints.{list_fingerprints}
use task274_replaydivergence.Store.Divergences.{list_divergences, list_chain}
use task274_replaydivergence.Store.Snapshots.{list_snapshots, get_snapshot}
use task274_replaydivergence.Service.Preserves.Queries.{
  queried, selected, get_batch-Keeps, list_checkpoints-Keeps, list_by_side-Keeps,
  get_divergence-Keeps, stats-Keeps,
}
use task274_replaydivergence.Httpapi.Keeping.{HandlerKeeps, responded_keeps, parsed_keeps, call}
use task274_replaydivergence.Store.World.Holds.{IsTableFact}
use task274_replaydivergence.Httpapi.Routes.{is_get}

module _ (P : World → Type 0) (fact : IsTableFact P) where
  count_side-Keeps : (id : ℕ) (side : TrailSide) (n : ℕ) → Keeps P (count_side id side n)
  unfolding count_side count_events_by_status or_skip
  count_side-Keeps id side n = record { kept = λ w h. skipped _ ((queried P fact _).kept w h) }
    where
      skipped : (r : Result (List (EventStatus × ℕ)) × World) → P r.1 → P (or_skip n r).1
      skipped (ok counts, w) h = h
      skipped (err e, w) h = h

  count_batches-Keeps : (bs : List ReplayBatch) (n : ℕ) → Keeps P (count_batches bs n)
  unfolding count_batches
  count_batches-Keeps [] n = pure-Keeps P n
  count_batches-Keeps (b ∷ bs) n =
      >>=-Keeps _ _ (count_side-Keeps b.id reference n)
        λ k. >>=-Keeps _ _ (count_side-Keeps b.id under_test k) (count_batches-Keeps bs)

  report_batches-Keeps : Keeps P report_batches
  unfolding report_batches list_batches
  report_batches-Keeps =
      >>=-Keeps _ _ (selected P fact _)
        λ bs. >>=-Keeps _ _ (count_batches-Keeps bs 0) λ _. pure-Keeps P _

  self_check_keeps : HandlerKeeps P handle_self_check
  unfolding handle_self_check check_all write_json
  self_check_keeps = record {
    kept = λ w h. checked (report_batches w) (report_batches-Keeps.kept w h);
  }
    where
      checked : (r : Result SelfCheckReport × World) → P r.1 → P (check_all r).1
      checked (ok report, w) h = h
      checked (err e, w) h = h

  list_named-Keeps :
      (id : ℕ) (side : TrailSide) (status : Option EventStatus)
      → Keeps P (list_named id side status)
  unfolding list_named
  list_named-Keeps id side (some status) = list_by_side-Keeps P fact id side (some status)
  list_named-Keeps id side none =
      >>=-Keeps _ _ (list_by_side-Keeps P fact id side none) λ _. pure-Keeps P []

  list_with_status-Keeps :
      (id : ℕ) (side : TrailSide) (text : String) → Keeps P (list_with_status id side text)
  unfolding list_with_status
  list_with_status-Keeps id side text =
      if-Keeps (str_eq text "") _ _ (list_by_side-Keeps P fact id side none)
        (list_named-Keeps id side (event_status text))

  list_events_keeps :
      (id : Option ℕ) (side status : String) → HandlerKeeps P (handle_list_events id side status)
  unfolding handle_list_events write_json
  list_events_keeps id side status = parsed_keeps P id _ λ i.
      either (not (is_valid_trail_side (side_of_query side))) _
        (responded_keeps P 200 all_events _ (list_with_status-Keeps i (side_of_query side) status))
    where
      either :
          (b : Bool) (h : Handler)
          → HandlerKeeps P h
          → HandlerKeeps P (if b then write_json 400 bad_side else h)
      either true h keeps = record { kept = λ w x. x }
      either false h keeps = keeps

  -- A request that reads keeps every fact about the tables.
  pub read-HandlerKeeps :
      (s : Setting) (req : Request) → is_get req ≡ true → HandlerKeeps P (serve s req)
  unfolding serve is_get handle_add_checkpoint handle_batch_stats handle_compare
      handle_confirm_batch handle_create_batch handle_create_snapshot handle_divergence_chain
      handle_exclude_event handle_get_batch handle_get_snapshot handle_health handle_import_events
      handle_list_batches handle_list_checkpoints handle_list_divergences handle_list_fingerprints
      handle_list_snapshots handle_mark_unreliable handle_publish_snapshot handle_scan_fingerprints
      handle_seal_batch handle_sync_batch handle_trace_divergence list_batches list_fingerprints
      list_divergences list_chain list_snapshots get_snapshot write_json
  read-HandlerKeeps s get_batches is_read = responded_keeps P 200 all_batches _ (selected P fact _)
  read-HandlerKeeps s (get_one_batch id) is_read =
      call P 200 one_batch _ id (get_batch-Keeps P fact)
  read-HandlerKeeps s (get_stats id) is_read = call P 200 statistics _ id (stats-Keeps P fact)
  read-HandlerKeeps s (get_events id side status) is_read = list_events_keeps id side status
  read-HandlerKeeps s (get_checkpoints id) is_read =
      call P 200 all_checkpoints _ id (list_checkpoints-Keeps P fact)
  read-HandlerKeeps s (get_fingerprints id) is_read =
      call P 200 all_fingerprints _ id λ i. queried P fact _
  read-HandlerKeeps s (get_divergences id) is_read =
      call P 200 all_divergences _ id λ i. queried P fact _
  read-HandlerKeeps s (get_chain id did) is_read = parsed_keeps P id _ λ i.
      call P 200 Body.chain_nodes _ did
        λ d. >>=-Keeps _ _ (get_divergence-Keeps P fact i d) λ _. queried P fact _
  read-HandlerKeeps s (get_snapshots id) is_read =
      call P 200 all_snapshots _ id λ i. queried P fact _
  read-HandlerKeeps s (get_one_snapshot sid) is_read = call P 200 _ _ sid λ n. queried P fact _
  read-HandlerKeeps s get_health is_read = record { kept = λ w h. h }
  read-HandlerKeeps s get_self_check is_read = self_check_keeps
  read-HandlerKeeps s (post_batches body) is_read = absurd (cc is_read)
  read-HandlerKeeps s (post_sync id) is_read = absurd (cc is_read)
  read-HandlerKeeps s (post_confirm id) is_read = absurd (cc is_read)
  read-HandlerKeeps s (post_seal id) is_read = absurd (cc is_read)
  read-HandlerKeeps s (post_events id body) is_read = absurd (cc is_read)
  read-HandlerKeeps s (patch_exclude id eid note) is_read = absurd (cc is_read)
  read-HandlerKeeps s (post_checkpoints id body) is_read = absurd (cc is_read)
  read-HandlerKeeps s (post_mark_unreliable id cid reason) is_read = absurd (cc is_read)
  read-HandlerKeeps s (post_scan id) is_read = absurd (cc is_read)
  read-HandlerKeeps s (post_compare id) is_read = absurd (cc is_read)
  read-HandlerKeeps s (post_trace id did) is_read = absurd (cc is_read)
  read-HandlerKeeps s (post_snapshots id name) is_read = absurd (cc is_read)
  read-HandlerKeeps s (post_publish id sid) is_read = absurd (cc is_read)
