-- ===== src/Service/Snapshots/Single.antt =====
-- Publishing leaves every batch with at most one published snapshot.
use task274_replaydivergence.Prelude.{
  ℕ, List, [], ◌∷◌, ◌≡◌, sym, ap, ◌∙◌, inl, inr, Bool, not, ◌==◌, arith, Bool-cases, ◌&&◌,
}
use task274_replaydivergence.Store.Consistent.{
  IsSound, IsSingle, IsConsistent, IsSound-IsTableFact, IsSingle-IsTableFact,
}
use task274_replaydivergence.Service.Snapshots.Elsewhere.{IsApart, replace_published-IsApart}
use task274_replaydivergence.Model.Batch.{Time, ReplayBatch}
use task274_replaydivergence.Model.Snapshot.{LocSnapshot, set_summary, publish}
use task274_replaydivergence.Service.Snapshots.{
  publish_draft, is_draft, supersede_rows, replace_published, is_published, seal_if_open,
}
use task274_replaydivergence.Service.Snapshots.{publish_snapshot}
use task274_replaydivergence.Service.Snapshots.Rows.{HasRow}
use task274_replaydivergence.Store.Snapshots.{get_snapshot, find_snapshot, list_snapshots}
use task274_replaydivergence.Store.World.Holds.{
  Holds, rows-IsTableFact, >>=-Holds, IsTableFact, IsQuiet-Holds, if-Holds, raise-Holds, lift-Holds,
  statement-Holds, read-Holds, with_tx-Holds, pure-Holds,
}
use task274_replaydivergence.Store.World.{World, statement}
use task274_replaydivergence.Service.Snapshots.Lookups.{
  list_divergences-IsQuiet, summary_of-IsQuiet, set_summary-id, publish-status, find_snapshot-Memᴰ,
  get_snapshot-IsQuiet,
}
use task274_replaydivergence.Model.Errors.{ok, cancelled, not_found, invalid_state, Result-cases}
use task274_replaydivergence.Model.Exec.{lift, Exec}
use task274_replaydivergence.Service.Batches.Import.{get_batch-IsQuiet}
use task274_replaydivergence.Store.World.Keeps.{
  Keeps, pure-Keeps, if-Keeps, IsQuiet-Keeps, raise-Keeps, >>=-Keeps, read-Keeps, with_tx-Keeps,
  Holds-of_Keeps,
}
use task274_replaydivergence.Prelude.Rows.{IsNumbered-eq}
use task274_replaydivergence.Service.Snapshots.Transaction.{IsPublished}
use task274_replaydivergence.Store.World.Quiet.{IsQuiet, statement-IsQuiet}
use task274_replaydivergence.Service.Snapshots.Published.{
  publish_snapshot-IsAtomic, publish_snapshot-IsPublished,
}
use task274_replaydivergence.Store.Consistent.Updates.{update_snapshot-Keeps, update_batch-Keeps}
use task274_replaydivergence.Snapshot.Publisher.{replace}

quiet : {A : Type 0} (m : Exec World A) → IsQuiet m → Keeps IsSound m
quiet m q = IsQuiet-Keeps m IsSound-IsTableFact q

module _ (now : Time) (batch_id snap_id : ℕ) where
  abbrev IsReady : List LocSnapshot → Type 0
  IsReady ss = IsApart batch_id ss × HasRow batch_id snap_id ss

  publish_draft-IsApart :
      (b : ReplayBatch) (snap : LocSnapshot)
      → snap.id ≡ snap_id
      → Holds
          (λ w. IsReady w.snapshots)
          (publish_draft now batch_id b snap_id snap)
          (λ _ w. IsApart batch_id w.snapshots)
  unfolding publish_draft
  publish_draft-IsApart b snap of_id =
      let fact = rows-IsTableFact λ ss _. IsReady ss in
      >>=-Holds _ _ (IsQuiet-Holds _ _ fact (list_divergences-IsQuiet batch_id)) λ divs.
        >>=-Holds _ _ (IsQuiet-Holds _ _ fact (summary_of-IsQuiet _ _)) λ sum.
          >>=-Holds {Q = λ summed w. IsReady w.snapshots × (summed.id ≡ snap_id)}
            (lift (set_summary snap sum)) _
            (lift-Holds _ _ (set_summary snap sum)
              λ summed w e h. (h, set_summary-id snap summed sum e ∙ of_id))
            λ summed.
              >>=-Holds {Q = λ done w. IsReady w.snapshots × (done.id ≡ snap_id)}
                (lift (publish now summed)) _
                (lift-Holds _ _ (publish now summed)
                  λ done w e h. (h.0, (publish-status now summed done e).0 ∙ h.1))
                λ done. record {
                  after = λ w a v h e.
                      (>>=-Holds {Q = λ _ u. IsApart batch_id u.snapshots} _ _
                          (with_tx-Holds _ (λ _ u. IsApart batch_id u.snapshots)
                            (λ _. rows-IsTableFact λ ss _. IsApart batch_id ss) _ fact
                            (replace_published-IsApart now batch_id snap_id b done h.1))
                          λ _. pure-Holds (λ _ u. IsApart batch_id u.snapshots) done).after
                        w a v h.0 e;
                }

  publish_snapshot-IsApart :
      (stopped : Bool)
      → Holds
          (λ w. IsApart batch_id w.snapshots)
          (publish_snapshot stopped now batch_id snap_id)
          (λ _ w. IsApart batch_id w.snapshots)
  unfolding publish_snapshot get_snapshot
  publish_snapshot-IsApart stopped =
      let apart : World → Type 0 = λ w. IsApart batch_id w.snapshots in
      let fact : IsTableFact apart = rows-IsTableFact λ ss _. IsApart batch_id ss in
      let found : LocSnapshot → World → Type 0 =
        λ snap w. apart w × (find_snapshot snap_id w.snapshots ≡ ok snap) in
      if-Holds stopped _ _ (λ _. raise-Holds _ _ cancelled)
        λ _. >>=-Holds _ _ (IsQuiet-Holds apart _ fact (get_batch-IsQuiet batch_id)) λ b.
          >>=-Holds {Q = found} (get_snapshot snap_id) _
            (>>=-Holds statement _ (statement-Holds apart fact)
              λ _. read-Holds found (λ w. find_snapshot snap_id w.snapshots) λ snap w h e. (h, e))
            λ snap.
              if-Holds (not (snap.batch_id == batch_id)) _ _ (λ _. raise-Holds _ _ not_found)
                λ at_batch.
                  if-Holds (not (is_draft snap)) _ _ (λ _. raise-Holds _ _ invalid_state)
                    λ _. record {
                      after = λ w a v (h, e) run.
                          let row = find_snapshot-Memᴰ snap_id w.snapshots snap e in
                          (publish_draft-IsApart b snap row.1).after w a v
                            (
                              h,
                              record {
                                row = snap;
                                stored = row.0;
                                id = row.1;
                                batch = ground (arith, at_batch);
                              },
                            )
                            run;
                    }

  supersede_rows-Keeps :
      (pending : List LocSnapshot) → Keeps IsSound (supersede_rows snap_id pending)
  unfolding supersede_rows
  supersede_rows-Keeps [] = pure-Keeps IsSound tt
  supersede_rows-Keeps (old ∷ rest) =
      elim (Bool-cases (is_published old && not (old.id == snap_id))) [
        | inl hit ↦
            rw (hit, supersede_rows)
              (>>=-Keeps _ _ (update_snapshot-Keeps (replace snap_id old))
                λ _. supersede_rows-Keeps rest)
        | inr miss ↦ rw (miss, supersede_rows) (supersede_rows-Keeps rest)
      ]

  replace_published-Keeps :
      (b : ReplayBatch) (snap : LocSnapshot)
      → Keeps IsSound (replace_published now batch_id b snap_id snap)
  unfolding replace_published list_snapshots seal_if_open
  replace_published-Keeps b snap =
      >>=-Keeps _ _
        (>>=-Keeps statement _ (IsQuiet-Keeps _ IsSound-IsTableFact statement-IsQuiet)
          λ _. read-Keeps IsSound _)
        λ existing. >>=-Keeps _ _ (supersede_rows-Keeps existing) λ _.
          >>=-Keeps _ _ (update_snapshot-Keeps snap) λ _.
            if-Keeps _ _ _ (>>=-Keeps _ _ (read-Keeps IsSound _) update_batch-Keeps)
              (pure-Keeps IsSound tt)

  publish_snapshot-IsSound :
      (stopped : Bool) → Keeps IsSound (publish_snapshot stopped now batch_id snap_id)
  unfolding publish_snapshot publish_draft
  publish_snapshot-IsSound stopped = if-Keeps stopped _ _ (raise-Keeps IsSound cancelled) (
      >>=-Keeps _ _ (quiet _ (get_batch-IsQuiet batch_id)) λ b.
        >>=-Keeps _ _ (quiet _ (get_snapshot-IsQuiet snap_id)) λ snap.
          if-Keeps _ _ _ (raise-Keeps IsSound not_found) (
            if-Keeps _ _ _ (raise-Keeps IsSound invalid_state) (
              >>=-Keeps _ _ (quiet _ (list_divergences-IsQuiet batch_id)) λ divs.
                >>=-Keeps _ _ (quiet _ (summary_of-IsQuiet _ _)) λ sum.
                  >>=-Keeps _ _ (read-Keeps IsSound _) λ summed.
                    >>=-Keeps _ _ (read-Keeps IsSound _) λ done.
                      >>=-Keeps _ _
                        (with_tx-Keeps IsSound IsSound-IsTableFact _
                          (Holds-of_Keeps _ (replace_published-Keeps b done)))
                        λ _. pure-Keeps IsSound done)))

  IsApart-of_sound : (w : World) → IsConsistent w → IsApart batch_id w.snapshots
  IsApart-of_sound w c = record {
    distinct = λ x y mx my e.
        IsNumbered-eq (λ (s : LocSnapshot). s.id) w.next_snapshot w.snapshots x y c.sound.5 mx my e;
    elsewhere = λ x y mx my (r, _). c.single x y mx my r;
  }

  -- The one published row of the batch, and what the other batches have.
  IsSingle-of_published :
      (w : World)
      → IsSound w
      → IsPublished batch_id snap_id w
      → IsApart batch_id w.snapshots
      → IsSingle w
  IsSingle-of_published w sound p apart x y mx my (same, pub_x, pub_y) =
      elim (Bool-cases (x.batch_id == batch_id)) [
        | inl here ↦
            let at : x.batch_id ≡ batch_id = ground (arith, here) in
            apart.distinct x y mx my
              (p.replaced.only x mx at pub_x ∙ sym (p.replaced.only y my (sym same ∙ at) pub_y))
        | inr away ↦ apart.elsewhere x y mx my ((same, pub_x, pub_y), λ e. ground (arith, e, away))
      ]

  -- However it ends, publishing a snapshot keeps the tables consistent.
  pub publish_snapshot-Keeps :
      (stopped : Bool) → Keeps IsConsistent (publish_snapshot stopped now batch_id snap_id)
  publish_snapshot-Keeps stopped = record {
    kept = λ w c.
        let call = publish_snapshot stopped now batch_id snap_id in
        let sound = (publish_snapshot-IsSound stopped).kept w c.sound in
        elim (Result-cases (call w).0) [
          | inl (e, bad) ↦ record {
            sound = sound;
            single =
                IsSingle-IsTableFact (call w).1 w
                  ((publish_snapshot-IsAtomic stopped now batch_id snap_id).same w e bad) c.single;
          }
          | inr (snap, good) ↦
              let run = ap (λ r. (r, (call w).1)) good in
              record {
                sound = sound;
                single =
                    IsSingle-of_published (call w).1 sound
                      (publish_snapshot-IsPublished stopped now batch_id snap_id w (call w).1 snap
                        run)
                      ((publish_snapshot-IsApart stopped).after w snap (call w).1
                        (IsApart-of_sound w c) run);
              }
        ];
  }
