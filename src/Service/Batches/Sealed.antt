-- ===== src/Service/Batches/Sealed.antt =====
-- The calls on a sealed batch.
use task274_replaydivergence.Prelude.{
  ℕ, ◌≡◌, refl, ap, ◌∙◌, Bool, List, inl, inr, false, String, if◌then◌else◌, true,
}
use task274_replaydivergence.Model.Errors.{
  Error, Result, ok, err, database, sealed_batch, invalid_state, cancelled,
}
use task274_replaydivergence.Model.Exec.{Exec, ◌>>=◌, >>=-of_ok, >>=-of_err, raise}
use task274_replaydivergence.Store.World.{World, statement}
use task274_replaydivergence.Store.World.Atomic.{SameTables, statement-cases, tables}
use task274_replaydivergence.Store.Rows.{get_batch, find_batch}
use task274_replaydivergence.Service.Batches.{
  import_events, service_add_checkpoint, mark_checkpoint_unreliable, sync, confirm_batch,
  seal_batch,
}
use task274_replaydivergence.Model.Batch.{ReplayBatch, Time, is_sealed}
use task274_replaydivergence.Model.Status.{TrailSide, same_status, sealed}
use task274_replaydivergence.Trace.Importer.{EventInput}
use task274_replaydivergence.Prelude.Int.{ℤ}
use task274_replaydivergence.Model.Checkpoint.{CheckpointKind}
use task274_replaydivergence.Prelude.StrMap.{StrMap}
use task274_replaydivergence.Service.Scan.{scan_fingerprints}
use task274_replaydivergence.Service.Comparison.{compare}
use task274_replaydivergence.Service.Tracing.{trace_divergence, exclude_event, build_graph}
use task274_replaydivergence.Service.Snapshots.{create_snapshot}

-- A call that returned an error and changed no table.
pub record IsRefused {A : Type 0} (w : World) (r : Result A × World) : Type 0 where
  pub error : Error
  pub failed : r.0 ≡ err error
  pub same : SameTables r.1 w

IsRefused-of_eq :
    {A : Type 0} (w v : World) (r : Result A × World) (x : Error)
    → r ≡ (err x, v)
    → SameTables v w
    → IsRefused w r
IsRefused-of_eq w v r x h same = record {
  error = x;
  failed = ap (λ p. p.0) h;
  same = ap (λ p. tables p.1) h ∙ same;
}

-- After the batch is read, a refusal that changes nothing is a refusal of the whole call.
IsRefused-get_batch :
    {A : Type 0} (f : ReplayBatch → Exec World A) (id : ℕ) (w : World) (b : ReplayBatch)
    → find_batch id w.batches ≡ ok b
    → ((v : World) → (x : Error) × (f b v ≡ (err x, v)))
    → IsRefused w ((get_batch id >>= f) w)
unfolding get_batch tables
IsRefused-get_batch f id w b found refuses = elim (statement-cases w) [
  | inl (v, e, same) ↦
      let row : find_batch id v.batches ≡ ok b =
        ap (λ (u : World). find_batch id u.batches) same ∙ found in
      let read : get_batch id w ≡ (ok b, v) =
        >>=-of_ok statement _ w v tt e ∙ ap (λ r. (r, v)) row in
      let (x, failed) = refuses v in
      IsRefused-of_eq w v _ x (>>=-of_ok (get_batch id) f w v b read ∙ failed) same
  | inr (v, e, same) ↦
      IsRefused-of_eq w v _ database
        (>>=-of_err (get_batch id) f w v database (>>=-of_err statement _ w v database e)) same
]

-- A request that is cancelled at its start is refused too.
IsRefused-if_stopped :
    {A : Type 0} (stopped : Bool) (m : Exec World A) (w : World)
    → IsRefused w (m w)
    → IsRefused w ((if stopped then raise cancelled else m) w)
IsRefused-if_stopped true m w h = record { error = cancelled; failed = refl; same = refl }
IsRefused-if_stopped false m w h = h

-- Nothing follows a refused call.
IsRefused->>= :
    {A B : Type 0} (m : Exec World A) (f : A → Exec World B) (w : World)
    → IsRefused w (m w)
    → IsRefused w ((m >>= f) w)
IsRefused->>= m f w h =
    IsRefused-of_eq w (m w).1 _ h.error
      (>>=-of_err m f w (m w).1 h.error (ap (λ r. (r, (m w).1)) h.failed)) h.same

-- Every call on the batch `id` that writes, apart from `PublishSnapshot`, is refused.
pub record IsReadOnly (id : ℕ) (w : World) : Type 0 where
  pub imports :
      (first later : Bool) (now : Time) (side : TrailSide) (inputs : List EventInput)
      → IsRefused w (import_events first later now id side inputs w)
  pub checkpoints :
      (now : Time) (seq : ℤ) (kind : CheckpointKind) (values : StrMap String)
      → IsRefused w (service_add_checkpoint now id seq kind values w)
  pub marks :
      (cp_id : ℕ) (reason : String) → IsRefused w (mark_checkpoint_unreliable id cp_id reason w)
  pub syncs : (fuel : ℕ) (now : Time) → IsRefused w (sync fuel now id w)
  pub scans : (ctx : ℕ → Bool) (clock : ℕ → Time) → IsRefused w (scan_fingerprints ctx clock id w)
  pub compares : (stopped : Bool) (now : Time) → IsRefused w (compare stopped now id w)
  pub traces :
      (first later : Bool) (now : Time) (div_id : ℕ)
      → IsRefused w (trace_divergence first later now id div_id w)
  pub excludes : (event_id : ℕ) (note : String) → IsRefused w (exclude_event id event_id note w)
  pub creates :
      (now : Time) (stamp name : String) → IsRefused w (create_snapshot now stamp id name w)
  pub confirms : (now : Time) → IsRefused w (confirm_batch now id w)
  pub seals : (now : Time) → IsRefused w (seal_batch now id w)

-- If the stored batch is sealed, importing events, adding a checkpoint, marking one,
-- synchronising, scanning, comparing, tracing, excluding an event, creating a snapshot,
-- confirming and sealing all return an error and change no table, whichever statements the
-- database refuses and whether or not the request is cancelled.
pub sealed-IsReadOnly :
    (id : ℕ) (w : World) (b : ReplayBatch)
    → find_batch id w.batches ≡ ok b
    → b.status ≡ sealed
    → IsReadOnly id w
unfolding import_events service_add_checkpoint mark_checkpoint_unreliable sync confirm_batch
    seal_batch is_sealed same_status scan_fingerprints compare trace_divergence build_graph
    exclude_event create_snapshot
sealed-IsReadOnly id w b found status = record {
  imports = λ first later now side inputs.
      IsRefused-if_stopped first _ w
        (IsRefused-get_batch _ id w b found λ v. (sealed_batch, rw status refl));
  checkpoints =
      λ now seq kind values. IsRefused-get_batch _ id w b found λ v. (sealed_batch, rw status refl);
  marks = λ cp_id reason. IsRefused-get_batch _ id w b found λ v. (sealed_batch, rw status refl);
  syncs = λ fuel now. IsRefused-get_batch _ id w b found λ v. (invalid_state, rw status refl);
  scans = λ ctx clock.
      IsRefused-if_stopped (ctx 0) _ w
        (IsRefused-get_batch _ id w b found λ v. (invalid_state, rw status refl));
  compares = λ stopped now.
      IsRefused-if_stopped stopped _ w
        (IsRefused-get_batch _ id w b found λ v. (invalid_state, rw status refl));
  traces = λ first later now div_id. IsRefused-if_stopped first _ w (
      IsRefused->>= (build_graph id div_id) _ w
        (IsRefused-get_batch _ id w b found λ v. (invalid_state, rw status refl)));
  excludes =
      λ event_id note. IsRefused-get_batch _ id w b found λ v. (sealed_batch, rw status refl);
  creates =
      λ now stamp name. IsRefused-get_batch _ id w b found λ v. (sealed_batch, rw status refl);
  confirms = λ now. IsRefused-get_batch _ id w b found λ v. (invalid_state, rw status refl);
  seals = λ now. IsRefused-get_batch _ id w b found λ v. (invalid_state, rw status refl);
}
