-- ===== src/Service/Tracing/Confirmed.antt =====
-- The row of the divergence, and the move of the batch.
use mathlib.Core.Path.{subst}
use task274_replaydivergence.Prelude.{ℕ, List, ◌≡◌, ◌∙◌, sym, refl, ◌⊎◌, inl, inr, not, arith, ◌≢◌}
use task274_replaydivergence.Service.Tracing.{Inputs, confirm, is_insufficient}
use task274_replaydivergence.Model.Batch.{ReplayBatch, Time, transition}
use task274_replaydivergence.Store.World.{World, statement}
use task274_replaydivergence.Store.Rows.{update_batch, find_batch}
use task274_replaydivergence.Model.Status.{insufficient_evidence, BatchStatus, pending_loc}
use task274_replaydivergence.Model.Errors.{ok}
use task274_replaydivergence.Store.World.Holds.{
  Holds, >>=-Holds, if-Holds, lift-Holds, pure-Holds, Holds-pre, both-Holds, statement-Holds,
  Holds-post, step-Holds,
}
use task274_replaydivergence.Service.Tracing.Kept.{update_divergence-Holds}
use task274_replaydivergence.Store.Rows.Written.{IsStoredAs, find_batch-id, update_batch-Holds}
use task274_replaydivergence.Model.Exec.{lift}
use task274_replaydivergence.Model.Batch.Lifecycle.{transition-status}
use task274_replaydivergence.Service.Tracing.Ready.{Waits}
use task274_replaydivergence.Model.Divergence.{Divergence}
use task274_replaydivergence.Store.Divergences.{set_divergence, update_divergence, find_divergence}
use task274_replaydivergence.Store.World.Atomic.{tables}

module _ (now : Time) (batch_id div_id : ℕ) (i : Inputs) where
  -- The batch still waits, and the divergence is the one given.
  abbrev pub IsReady : Divergence → World → Type 0
  IsReady d w = Waits batch_id div_id i.batch d w

  -- The divergence is stored with what the trace writes to it.
  pub decide-Holds :
      (d : Divergence)
      → set_divergence d i.found ≡ d
      → d.id ≡ i.found.id
      → Holds (IsReady i.found) (update_divergence d) (λ _. IsReady d)
  decide-Holds d same own =
      let G : List ReplayBatch → Type 0 =
        λ bs. (find_batch batch_id bs ≡ ok i.batch) × (i.batch.status ≡ pending_loc) in
      Holds-pre _ (λ w h. ((h.stored, h.status), h.divergence))
        (Holds-post _ (λ _ w h. record { stored = h.0.0; status = h.0.1; divergence = h.1 })
          (update_divergence-Holds G batch_id div_id i.found d same own))

  -- How the batch of the outcome ends, by the status of the divergence.
  abbrev pub Follows : Divergence → ReplayBatch → World → Type 0
  Follows d b w =
      (((d.status ≡ insufficient_evidence) × (b ≡ i.batch) × IsReady d w)
        ⊎ ((d.status ≢ insufficient_evidence)
            × (b.status ≡ BatchStatus.confirmed)
            × IsStoredAs batch_id BatchStatus.confirmed w))
      × (find_divergence batch_id div_id w.divergences ≡ ok d)

  -- The UPDATE of a batch leaves the divergences.
  update_batch-keeps :
      (d : Divergence) (moved : ReplayBatch)
      → Holds
          (λ w. find_divergence batch_id div_id w.divergences ≡ ok d)
          (update_batch moved)
          (λ _ w. find_divergence batch_id div_id w.divergences ≡ ok d)
  unfolding update_batch tables
  update_batch-keeps d moved =
      let P : World → Type 0 = λ w. find_divergence batch_id div_id w.divergences ≡ ok d in
      >>=-Holds statement _ (statement-Holds P λ v w same h. subst P (sym same) h)
        λ _. step-Holds P (λ _. P) _ _ λ w h. h

  pub confirm-Holds :
      (d : Divergence) → Holds (IsReady d) (confirm now i.batch d.status) (Follows d)
  unfolding confirm is_insufficient
  confirm-Holds d =
      if-Holds (not (is_insufficient d.status)) _ _
        (λ strong.
          >>=-Holds
            {Q = λ moved w.
              IsReady d w × (moved.id ≡ i.batch.id) × (moved.status ≡ BatchStatus.confirmed)}
            (lift (transition now i.batch BatchStatus.confirmed)) _
            (lift-Holds _ _ (transition now i.batch BatchStatus.confirmed) λ moved w e h.
              let done = transition-status now i.batch moved BatchStatus.confirmed e in
              (h, done.1, done.0))
            λ moved. record {
              after = λ w b v h e.
                  let own = h.1 ∙ find_batch-id batch_id w.batches i.batch h.0.stored in
                  (>>=-Holds
                      {Q = λ _ u.
                        IsStoredAs batch_id moved.status u
                        × (find_divergence batch_id div_id u.divergences ≡ ok d)}
                      (update_batch moved) _
                      (both-Holds (update_batch-Holds batch_id i.batch moved own)
                        (update_batch-keeps d moved))
                      λ _.
                        Holds-pre _
                          (λ u s. (
                            inr (
                              λ e. ground (arith, e, strong),
                              h.2,
                              subst (λ st. IsStoredAs batch_id st u) h.2 s.0,
                            ),
                            s.1,
                          ))
                          (pure-Holds (Follows d) moved)).after
                    w b v (h.0.stored, h.0.divergence) e;
            })
        (λ weak.
          Holds-pre _ (λ w h. (inl (ground (arith, weak), refl, h), h.divergence))
            (pure-Holds (Follows d) i.batch))
