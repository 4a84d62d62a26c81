-- ===== src/Service/Snapshots/Transaction.antt =====
-- The body of the transaction: superseding, the new row and the sealing of the batch.
use mathlib.Core.Path.{subst}
use task274_replaydivergence.Prelude.{
  ◌≡◌, refl, ap, sym, ◌∙◌, inl, inr, ℕ, List, ◌==◌, ◌&&◌, not, [], ◌∷◌, Bool-cases, arith,
}
use task274_replaydivergence.Store.Snapshots.{update_snapshot, snapshots_of, list_snapshots}
use task274_replaydivergence.Store.Rows.{find_batch, update_batch}
use task274_replaydivergence.Model.Snapshot.{LocSnapshot}
use task274_replaydivergence.Service.Snapshots.{
  supersede_rows, seal_if_open, is_published, replace_published,
}
use task274_replaydivergence.Store.World.Atomic.{tables}
use task274_replaydivergence.Model.Batch.{Time, ReplayBatch, transition}
use task274_replaydivergence.Store.World.{World, statement}
use task274_replaydivergence.Model.Errors.{ok}
use task274_replaydivergence.Store.World.Holds.{
  IsTableFact, Holds, pure-Holds, if-Holds, >>=-Holds, statement-Holds, step-Holds, lift-Holds,
  Holds-pre, rows-IsTableFact,
}
use task274_replaydivergence.Service.Snapshots.Rows.{
  IsReplaced, HasRow, IsClearing, IsClearing-replace, HasRow-update, IsClearing-skip,
  IsClearing-listed, IsReplaced-update,
}
use task274_replaydivergence.Model.Status.{published, sealed, same_status}
use task274_replaydivergence.Snapshot.Publisher.{replace}
use task274_replaydivergence.Model.Exec.{lift}
use task274_replaydivergence.Model.Batch.Lifecycle.{transition-status}
use task274_replaydivergence.Store.Rows.Written.{find_batch-set}

module _ (batch_id snap_id : ℕ) where
  -- The tables after a publication: of the batch's snapshots the new one and no other is
  -- published, and the batch is sealed.
  pub record IsPublished (w : World) : Type 0 where
    pub replaced : IsReplaced batch_id snap_id w.snapshots
    pub batch : ReplayBatch
    pub found : find_batch batch_id w.batches ≡ ok batch
    pub closed : batch.status ≡ sealed

  pub IsPublished-IsTableFact : IsTableFact IsPublished
  unfolding tables
  IsPublished-IsTableFact v w same h = record {
    replaced = subst (λ (u : World). IsReplaced batch_id snap_id u.snapshots) (sym same) h.replaced;
    batch = h.batch;
    found = ap (λ (u : World). find_batch batch_id u.batches) same ∙ h.found;
    closed = h.closed;
  }

module _ (now : Time) (batch_id snap_id : ℕ) where
  -- The batch and the snapshot are stored.
  abbrev pub IsOpen : ReplayBatch → List LocSnapshot → List ReplayBatch → Type 0
  IsOpen b ss bs = HasRow batch_id snap_id ss × (find_batch batch_id bs ≡ ok b)

  abbrev IsSuperseding :
      ReplayBatch → List LocSnapshot → List LocSnapshot → List ReplayBatch → Type 0
  IsSuperseding b pending ss bs = IsClearing batch_id snap_id pending ss × IsOpen b ss bs

  supersede_rows-Holds :
      (b : ReplayBatch) (pending : List LocSnapshot)
      → Holds
          (λ w. IsSuperseding b pending w.snapshots w.batches)
          (supersede_rows snap_id pending)
          (λ _ w. IsSuperseding b [] w.snapshots w.batches)
  unfolding supersede_rows update_snapshot
  supersede_rows-Holds b [] = pure-Holds (λ _ w. IsSuperseding b [] w.snapshots w.batches) tt
  supersede_rows-Holds b (old ∷ rest) =
      elim (Bool-cases (is_published old && not (old.id == snap_id))) [
        | inl hit ↦
            rw (hit, supersede_rows)
              (>>=-Holds {Q = λ _ w. IsSuperseding b rest w.snapshots w.batches}
                (update_snapshot (replace snap_id old)) _
                (>>=-Holds statement _
                  (statement-Holds _ (rows-IsTableFact (IsSuperseding b (old ∷ rest))))
                  λ _.
                    step-Holds _ (λ _ w. IsSuperseding b rest w.snapshots w.batches) _ _
                      λ w h. (
                        IsClearing-replace batch_id snap_id old rest w.snapshots hit h.0,
                        (
                          HasRow-update batch_id snap_id (replace snap_id old) w.snapshots h.1.0,
                          h.1.1,
                        ),
                      ))
                λ _. supersede_rows-Holds b rest)
        | inr miss ↦
            rw (miss, supersede_rows)
              (Holds-pre _
                (λ w h. (IsClearing-skip batch_id snap_id old rest w.snapshots miss h.0, h.1))
                (supersede_rows-Holds b rest))
      ]

  abbrev IsReady : ReplayBatch → List LocSnapshot → List ReplayBatch → Type 0
  IsReady b ss bs = IsReplaced batch_id snap_id ss × (find_batch batch_id bs ≡ ok b)

  seal-Holds :
      (b : ReplayBatch)
      → b.id ≡ batch_id
      → Holds
          (λ w. IsReady b w.snapshots w.batches)
          (seal_if_open now b)
          (λ _. IsPublished batch_id snap_id)
  unfolding seal_if_open update_batch same_status
  seal-Holds b own =
      if-Holds (not (same_status b.status sealed)) _ _
        (λ open_still.
          >>=-Holds
            {Q = λ moved w.
              IsReady b w.snapshots w.batches × (moved.id ≡ batch_id) × (moved.status ≡ sealed)}
            (lift (transition now b sealed)) _
            (lift-Holds _ _ (transition now b sealed) λ moved w e h. (
              h,
              (transition-status now b moved sealed e).1 ∙ own,
              (transition-status now b moved sealed e).0,
            ))
            λ moved.
              let ready : World → Type 0 = λ w.
                IsReady b w.snapshots w.batches × (moved.id ≡ batch_id) × (moved.status ≡ sealed) in
              >>=-Holds statement _
                (statement-Holds ready (
                  rows-IsTableFact
                    λ ss bs. IsReady b ss bs × (moved.id ≡ batch_id) × (moved.status ≡ sealed)))
                λ _.
                  step-Holds ready (λ _. IsPublished batch_id snap_id) _ _
                    λ w h.
                      let set = find_batch-set moved w.batches b (rw h.1 h.0.1) in
                      record {
                        replaced = h.0.0;
                        batch = set.0;
                        found = rw⁻¹ h.1 set.1;
                        closed = set.2 ∙ h.2;
                      })
        (λ closed.
          Holds-pre _
            (λ w h. record {
              replaced = h.0;
              batch = b;
              found = h.1;
              closed = ground (arith, closed);
            })
            (pure-Holds (λ _. IsPublished batch_id snap_id) tt))

  abbrev IsListed : ReplayBatch → List LocSnapshot → List LocSnapshot → List ReplayBatch → Type 0
  IsListed b existing ss bs = (existing ≡ snapshots_of batch_id ss) × IsOpen b ss bs

  pub replace_published-Holds :
      (b : ReplayBatch) (snap : LocSnapshot)
      → b.id ≡ batch_id
      → snap.id ≡ snap_id
      → snap.status ≡ published
      → Holds
          (λ w. IsOpen b w.snapshots w.batches)
          (replace_published now batch_id b snap_id snap)
          (λ _. IsPublished batch_id snap_id)
  unfolding replace_published list_snapshots update_snapshot
  replace_published-Holds b snap own of_id public =
      >>=-Holds {Q = λ existing w. IsListed b existing w.snapshots w.batches}
        (list_snapshots batch_id) _
        (>>=-Holds statement _ (statement-Holds _ (rows-IsTableFact (IsOpen b))) λ _.
          step-Holds _ (λ existing w. IsListed b existing w.snapshots w.batches) _ _
            λ w h. (refl, h))
        λ existing.
          >>=-Holds _ _
            (Holds-pre _
              (λ w h. (
                subst (λ l. IsClearing batch_id snap_id l w.snapshots) (sym h.0)
                    (IsClearing-listed batch_id snap_id w.snapshots),
                h.1,
              ))
              (supersede_rows-Holds b existing))
            λ _.
              >>=-Holds {Q = λ _ w. IsReady b w.snapshots w.batches} (update_snapshot snap) _
                (>>=-Holds statement _ (statement-Holds _ (rows-IsTableFact (IsSuperseding b [])))
                  λ _.
                    step-Holds _ (λ _ w. IsReady b w.snapshots w.batches) _ _
                      λ w h. (
                        IsReplaced-update batch_id snap_id snap w.snapshots of_id public h.0 h.1.0,
                        h.1.1,
                      ))
                λ _. seal-Holds b own
