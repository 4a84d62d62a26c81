-- ===== src/Service/Snapshots/Published.antt =====
-- What publishing a snapshot leaves in the tables, and what a failed publication leaves.
use task274_replaydivergence.Prelude.{◌≡◌, ◌∙◌, ℕ, ◌==◌, not, arith, Bool}
use task274_replaydivergence.Store.Snapshots.{find_snapshot, get_snapshot}
use task274_replaydivergence.Store.Rows.{find_batch, get_batch}
use task274_replaydivergence.Model.Snapshot.{set_summary, publish, LocSnapshot}
use task274_replaydivergence.Service.Snapshots.{publish_draft, publish_snapshot, is_draft}
use task274_replaydivergence.Model.Batch.{Time, ReplayBatch}
use task274_replaydivergence.Store.World.Quiet.{
  read-IsQuiet, IsAtomic, if-IsAtomic, raise-IsAtomic, >>=-IsAtomic, >>=-IsAtomic_pure,
  with_tx-IsAtomic,
}
use task274_replaydivergence.Store.World.{World, statement}
use task274_replaydivergence.Model.Errors.{ok, cancelled, not_found, invalid_state}
use task274_replaydivergence.Store.World.Holds.{
  IsTableFact, Holds, pure-Holds, if-Holds, >>=-Holds, statement-Holds, lift-Holds, IsQuiet-Holds,
  with_tx-Holds, raise-Holds, any-Holds, rows-IsTableFact, read-Holds,
}
use task274_replaydivergence.Model.Status.{published}
use task274_replaydivergence.Model.Exec.{lift}
use task274_replaydivergence.Service.Batches.Import.{get_batch-IsQuiet}
use task274_replaydivergence.Service.Snapshots.Lookups.{
  publish-status, get_snapshot-IsQuiet, list_divergences-IsQuiet, find_snapshot-Memᴰ,
  summary_of-IsQuiet, set_summary-id,
}
use task274_replaydivergence.Store.Rows.Written.{find_batch-id}
use task274_replaydivergence.Service.Snapshots.Transaction.{
  IsOpen, IsPublished, IsPublished-IsTableFact, replace_published-Holds,
}

module _ (now : Time) (batch_id snap_id : ℕ) where
  publish_draft-Holds :
      (b : ReplayBatch) (snap : LocSnapshot)
      → b.id ≡ batch_id
      → snap.id ≡ snap_id
      → Holds
          (λ w. IsOpen now batch_id snap_id b w.snapshots w.batches)
          (publish_draft now batch_id b snap_id snap)
          (λ _. IsPublished batch_id snap_id)
  unfolding publish_draft
  publish_draft-Holds b snap own of_id =
      let P : World → Type 0 = λ w. IsOpen now batch_id snap_id b w.snapshots w.batches in
      let fact : IsTableFact P = rows-IsTableFact (IsOpen now batch_id snap_id b) in
      >>=-Holds _ _ (IsQuiet-Holds P _ fact (list_divergences-IsQuiet batch_id)) λ divs.
        >>=-Holds _ _ (IsQuiet-Holds P _ fact (summary_of-IsQuiet _ _)) λ sum.
          >>=-Holds {Q = λ summed w. P w × (summed.id ≡ snap_id)} (lift (set_summary snap sum)) _
            (lift-Holds _ _ (set_summary snap sum)
              λ summed w e h. (h, set_summary-id snap summed sum e ∙ of_id))
            λ summed.
              >>=-Holds {Q = λ done w. P w × (done.id ≡ snap_id) × (done.status ≡ published)}
                (lift (publish now summed)) _
                (lift-Holds _ _ (publish now summed) λ done w e h.
                  let made = publish-status now summed done e in (h.0, made.0 ∙ h.1, made.1))
                λ done. record {
                  after = λ w a v h e.
                      (>>=-Holds {Q = λ _. IsPublished batch_id snap_id} _ _
                          (with_tx-Holds P (λ _. IsPublished batch_id snap_id)
                            (λ _. (IsPublished-IsTableFact batch_id snap_id)) _ fact
                            (replace_published-Holds now batch_id snap_id b done own h.1 h.2))
                          λ _. pure-Holds (λ _. IsPublished batch_id snap_id) done).after
                        w a v h.0 e;
                }

  publish_snapshot-Holds :
      (stopped : Bool)
      → Holds
          (λ _. Unit {0})
          (publish_snapshot stopped now batch_id snap_id)
          (λ _. IsPublished batch_id snap_id)
  unfolding publish_snapshot get_batch get_snapshot
  publish_snapshot-Holds stopped =
      if-Holds stopped _ _ (λ _. raise-Holds _ _ cancelled)
        λ _.
          let known : ReplayBatch → World → Type 0 = λ b w. find_batch batch_id w.batches ≡ ok b in
          let both : ReplayBatch → LocSnapshot → World → Type 0 =
            λ b snap w. (find_snapshot snap_id w.snapshots ≡ ok snap) × known b w in
          >>=-Holds {Q = known} (get_batch batch_id) _
            (>>=-Holds statement _ (any-Holds _ statement)
              λ _. read-Holds known (λ w. find_batch batch_id w.batches) λ b w _ e. e)
            λ b.
              >>=-Holds {Q = both b} (get_snapshot snap_id) _
                (>>=-Holds statement _
                  (statement-Holds (known b)
                    (rows-IsTableFact λ _ bs. find_batch batch_id bs ≡ ok b))
                  λ _.
                    read-Holds (both b) (λ w. find_snapshot snap_id w.snapshots)
                      λ snap w h e. (e, h))
                λ snap.
                  if-Holds (not (snap.batch_id == batch_id)) _ _ (λ _. raise-Holds _ _ not_found)
                    λ at_batch.
                      if-Holds (not (is_draft snap)) _ _ (λ _. raise-Holds _ _ invalid_state)
                        λ _. record {
                          after = λ w a v h e.
                              let row = find_snapshot-Memᴰ snap_id w.snapshots snap h.0 in
                              (publish_draft-Holds b snap (find_batch-id batch_id w.batches b h.1)
                                  row.1).after
                                w a v
                                (
                                  record {
                                    row = snap;
                                    stored = row.0;
                                    id = row.1;
                                    batch = ground (arith, at_batch);
                                  },
                                  h.1,
                                )
                                e;
                        }

-- If publishing a snapshot succeeds, the batch has the snapshot as a published row, no other row
-- of the batch is published any more, and the stored batch is sealed.
pub publish_snapshot-IsPublished :
    (stopped : Bool) (now : Time) (batch_id snap_id : ℕ) (w v : World) (snap : LocSnapshot)
    → publish_snapshot stopped now batch_id snap_id w ≡ (ok snap, v)
    → IsPublished batch_id snap_id v
publish_snapshot-IsPublished stopped now batch_id snap_id w v snap e =
    (publish_snapshot-Holds now batch_id snap_id stopped).after w snap v tt e

-- If publishing a snapshot returns an error, whether a check or the database refused it or the
-- batch could not be sealed, then no table has changed.
pub publish_snapshot-IsAtomic :
    (stopped : Bool) (now : Time) (batch_id snap_id : ℕ)
    → IsAtomic (publish_snapshot stopped now batch_id snap_id)
unfolding publish_snapshot publish_draft
publish_snapshot-IsAtomic stopped now batch_id snap_id =
    if-IsAtomic stopped _ _ (raise-IsAtomic cancelled) (
      >>=-IsAtomic (get_batch batch_id) _ (get_batch-IsQuiet batch_id) λ b.
        >>=-IsAtomic (get_snapshot snap_id) _ (get_snapshot-IsQuiet snap_id) λ snap.
          if-IsAtomic (not (snap.batch_id == batch_id)) _ _ (raise-IsAtomic not_found) (
            if-IsAtomic (not (is_draft snap)) _ _ (raise-IsAtomic invalid_state) (
              >>=-IsAtomic _ _ (list_divergences-IsQuiet batch_id) λ divs.
                >>=-IsAtomic _ _ (summary_of-IsQuiet _ _) λ sum.
                  >>=-IsAtomic _ _ (read-IsQuiet _) λ summed.
                    >>=-IsAtomic _ _ (read-IsQuiet _)
                      λ done. >>=-IsAtomic_pure _ _ (with_tx-IsAtomic _) λ _ w e h. cc h)))
