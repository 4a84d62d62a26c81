-- ===== src/Httpapi/Answers/Sealed.antt =====
-- What requests for a sealed batch are answered.
use task274_replaydivergence.Prelude.{ℕ, Option, some, none, ◌≡◌, refl, sym, ap, ◌∙◌, ◌≤◌}
use task274_replaydivergence.Service.Batches.Sealed.{IsRefused, IsReadOnly, sealed-IsReadOnly}
use task274_replaydivergence.Httpapi.Router.{
  post_batches, get_batches, get_health, get_self_check, get_one_batch, post_sync, post_confirm,
  post_seal, get_stats, post_events, get_events, patch_exclude, post_checkpoints,
  post_mark_unreliable, get_checkpoints, post_scan, get_fingerprints, post_compare, get_divergences,
  post_trace, get_chain, post_publish, post_snapshots, get_snapshots, get_one_snapshot, Request,
  Setting, Answer, write_err, respond, respond_some, parsed, write_json, written, written_some,
  write_malformed, Handler, Body, status_of, error_of, synced, one_batch, validated, one_event,
  one_checkpoint, scanned, compared, traced, one_snapshot,
}
use task274_replaydivergence.Httpapi.Answers.{failed, status_of-IsFailure}
use task274_replaydivergence.Store.World.{World}
use task274_replaydivergence.Httpapi.Routes.{serve}
use task274_replaydivergence.Model.Batch.{ReplayBatch}
use task274_replaydivergence.Httpapi.Batches.{
  handle_sync_batch, handle_confirm_batch, handle_seal_batch,
}
use task274_replaydivergence.Store.Rows.{find_batch}
use task274_replaydivergence.Store.World.Atomic.{SameTables, tables}
use task274_replaydivergence.Model.Errors.{Error, ok}
use mathlib.Core.Path.{subst}
use task274_replaydivergence.Model.Exec.{Exec}
use task274_replaydivergence.Model.Status.{sealed}
use task274_replaydivergence.Httpapi.Trails.{handle_import_events, handle_exclude_event}
use task274_replaydivergence.Httpapi.Comparisons.{
  handle_add_checkpoint, handle_mark_unreliable, handle_scan_fingerprints, handle_compare,
  handle_trace_divergence, checkpoint_kind,
}
use task274_replaydivergence.Httpapi.Snapshots.{handle_create_snapshot}

-- The batch that a request writes to, for all of them but the publication of a snapshot.
unfoldable pub target : Request → Option ℕ
target (post_sync id) = id
target (post_confirm id) = id
target (post_seal id) = id
target (post_events id _) = id
target (patch_exclude id _ _) = id
target (post_checkpoints id _) = id
target (post_mark_unreliable id _ _) = id
target (post_scan id) = id
target (post_compare id) = id
target (post_trace id _) = id
target (post_snapshots id _) = id
target _ = none

-- The request is answered with an error, and no table has changed.
pub record IsDenied (w : World) (r : Option Answer × World) : Type 0 where
  pub answer : Answer
  pub given : r.0 ≡ some answer
  pub bad : 400 ≤ answer.status
  pub same : SameTables r.1 w

IsDenied-of_eq :
    (w : World) (e : Error) (r : Option Answer × World) (v : World)
    → SameTables v w
    → r ≡ write_err e v
    → IsDenied w r
unfolding write_err write_json
IsDenied-of_eq w e r v same eq = record {
  answer = record { status = status_of e; body = error_of e };
  given = ap (λ p. p.0) eq;
  bad = (status_of-IsFailure e).1;
  same = ap (λ p. tables p.1) eq ∙ same;
}

module _ {A : Type 0} (w : World) where
  respond-IsDenied :
      (status : ℕ) (encode : A → Body) (m : Exec World A)
      → IsRefused w (m w)
      → IsDenied w (respond status encode m w)
  unfolding respond written
  respond-IsDenied status encode m h =
      IsDenied-of_eq w h.error _ (m w).1 h.same
        (ap (λ r. written status encode (r, (m w).1)) h.failed)

  respond_some-IsDenied :
      (status : ℕ) (encode : A → Body) (m : Exec World (Option A))
      → IsRefused w (m w)
      → IsDenied w (respond_some status encode m w)
  unfolding respond_some written_some
  respond_some-IsDenied status encode m h =
      IsDenied-of_eq w h.error _ (m w).1 h.same
        (ap (λ r. written_some status encode (r, (m w).1)) h.failed)

  parsed-IsDenied :
      (x : Option A) (k : A → Handler) → ((a : A) → IsDenied w (k a w)) → IsDenied w (parsed x k w)
  unfolding parsed write_malformed write_json
  parsed-IsDenied none k denied = record { answer = _; given = refl; bad = failed.1; same = refl }
  parsed-IsDenied (some a) k denied = denied a

  at_target :
      (x : Option A) (a : A) (k : A → Handler)
      → x ≡ some a
      → IsDenied w (k a w)
      → IsDenied w (parsed x k w)
  unfolding parsed
  at_target x a k e denied = subst (λ y. IsDenied w (parsed y k w)) (sym e) denied

module _ (s : Setting) (w : World) (id : ℕ) (closed : IsReadOnly id w) where
  serve_read_only : (req : Request) → target req ≡ some id → IsDenied w (serve s req w)
  unfolding serve target handle_sync_batch handle_confirm_batch handle_seal_batch
      handle_import_events handle_exclude_event handle_add_checkpoint handle_mark_unreliable
      handle_scan_fingerprints handle_compare handle_trace_divergence handle_create_snapshot
  serve_read_only (post_sync x) e =
      at_target w x id _ e (respond_some-IsDenied w 200 synced _ (closed.syncs s.fuel (s.clock 0)))
  serve_read_only (post_confirm x) e =
      at_target w x id _ e (respond-IsDenied w 200 one_batch _ (closed.confirms (s.clock 0)))
  serve_read_only (post_seal x) e =
      at_target w x id _ e (respond-IsDenied w 200 one_batch _ (closed.seals (s.clock 0)))
  serve_read_only (post_events x body) e = at_target w x id _ e (
      parsed-IsDenied w body _ λ req.
        respond-IsDenied w 201 validated _
          (closed.imports (s.ctx 0) (s.ctx 1) (s.clock 0) req.side req.events))
  serve_read_only (patch_exclude x eid note) e =
      at_target w x id _ e
        (parsed-IsDenied w eid _ λ i. respond-IsDenied w 200 one_event _ (closed.excludes i note))
  serve_read_only (post_checkpoints x body) e = at_target w x id _ e (
      parsed-IsDenied w body _ λ req.
        respond-IsDenied w 201 one_checkpoint _
          (closed.checkpoints (s.clock 0) req.seq (checkpoint_kind req.kind) req.values))
  serve_read_only (post_mark_unreliable x cid reason) e =
      at_target w x id _ e (
        parsed-IsDenied w cid _
          λ c. respond-IsDenied w 200 one_checkpoint _ (closed.marks c reason))
  serve_read_only (post_scan x) e =
      at_target w x id _ e (respond-IsDenied w 200 scanned _ (closed.scans s.ctx s.clock))
  serve_read_only (post_compare x) e =
      at_target w x id _ e
        (respond-IsDenied w 200 compared _ (closed.compares (s.ctx 0) (s.clock 0)))
  serve_read_only (post_trace x did) e = at_target w x id _ e (
      parsed-IsDenied w did _
        λ d. respond_some-IsDenied w 200 traced _ (closed.traces (s.ctx 0) (s.ctx 1) (s.clock 0) d))
  serve_read_only (post_snapshots x name) e =
      at_target w x id _ e
        (respond-IsDenied w 201 one_snapshot _ (closed.creates (s.clock 0) s.stamp name))
  serve_read_only (post_batches _) e = absurd (cc e)
  serve_read_only (post_publish _ _) e = absurd (cc e)
  serve_read_only get_batches e = absurd (cc e)
  serve_read_only get_health e = absurd (cc e)
  serve_read_only get_self_check e = absurd (cc e)
  serve_read_only (get_one_batch _) e = absurd (cc e)
  serve_read_only (get_stats _) e = absurd (cc e)
  serve_read_only (get_events _ _ _) e = absurd (cc e)
  serve_read_only (get_checkpoints _) e = absurd (cc e)
  serve_read_only (get_fingerprints _) e = absurd (cc e)
  serve_read_only (get_divergences _) e = absurd (cc e)
  serve_read_only (get_chain _ _) e = absurd (cc e)
  serve_read_only (get_snapshots _) e = absurd (cc e)
  serve_read_only (get_one_snapshot _) e = absurd (cc e)

-- Once the stored batch is sealed, every request that writes to it, except the publication of one
-- of its snapshots, is answered with an error and changes no table, whatever its body, its context
-- and the clock are and whichever statements the database refuses.
pub serve-IsDenied :
    (s : Setting) (req : Request) (id : ℕ) (w : World) (b : ReplayBatch)
    → target req ≡ some id
    → find_batch id w.batches ≡ ok b
    → b.status ≡ sealed
    → IsDenied w (serve s req w)
serve-IsDenied s req id w b e found closed =
    serve_read_only s w id (sealed-IsReadOnly id w b found closed) req e
