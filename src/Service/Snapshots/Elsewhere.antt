-- ===== src/Service/Snapshots/Elsewhere.antt =====
-- The rows of the other batches while a snapshot of a batch replaces the published ones.
use task274_replaydivergence.Prelude.{
  ℕ, List, [], ◌∷◌, ◌≡◌, ◌≢◌, sym, refl, ap, ◌∙◌, Memᴰ, inl, inr, true, mem-keep, ◌==◌, Bool-cases,
  ◌&&◌, arith, not,
}
use task274_replaydivergence.Prelude.Rows.{IsAlone, IsAlone-map}
use task274_replaydivergence.Store.Consistent.{SamePublished}
use task274_replaydivergence.Service.Snapshots.Rows.{
  HasRow, HasRow-update, updated, updated-keys, updated-status, replace_lem, is_published_lem,
}
use task274_replaydivergence.Model.Snapshot.{LocSnapshot}
use task274_replaydivergence.Store.Snapshots.{
  update_snapshot_rows, snapshots_of, update_snapshot, list_snapshots,
}
use task274_replaydivergence.Model.Batch.{Time, ReplayBatch}
use mathlib.Core.Path.{subst}
use task274_replaydivergence.Service.Snapshots.{
  is_published, supersede_rows, seal_if_open, replace_published,
}
use task274_replaydivergence.Model.Status.{published}
use task274_replaydivergence.Store.Rows.{update_batch}
use task274_replaydivergence.Snapshot.Publisher.{replace}
use task274_replaydivergence.Store.World.Holds.{
  Holds, pure-Holds, >>=-Holds, statement-Holds, rows-IsTableFact, step-Holds, Holds-pre,
}
use task274_replaydivergence.Store.World.Keeps.{
  Keeps, if-Keeps, >>=-Keeps, read-Keeps, write-Keeps, pure-Keeps, Holds-of_Keeps,
}
use task274_replaydivergence.Prelude.Sort.{mem-sort_on}
use task274_replaydivergence.Prelude.Int.{pos}
use task274_replaydivergence.Store.World.{statement}
use task274_replaydivergence.Prelude.Order.{int_order}

-- The ids are distinct, and any other batch has at most one published row.
pub record IsApart (batch_id : ℕ) (ss : List LocSnapshot) : Type 0 where
  pub distinct : IsAlone (λ (s t : LocSnapshot). s.id ≡ t.id) ss
  pub elsewhere : IsAlone (λ (s t : LocSnapshot). SamePublished s t × (s.batch_id ≢ batch_id)) ss

module _ (batch_id : ℕ) where
  -- An UPDATE of a row of the batch leaves the rows of the other batches.
  untouched :
      (s : LocSnapshot) (ss : List LocSnapshot)
      → IsApart batch_id ss
      → HasRow batch_id s.id ss
      → (x : LocSnapshot) → Memᴰ x ss
      → x.batch_id ≢ batch_id
      → updated s x ≡ x
  untouched s ss h own x m other = elim (updated-status s x) [
    | inl (hit, _) ↦
        let same = h.distinct x own.row m own.stored (hit ∙ sym own.id) in
        absurd (other (ap (λ (t : LocSnapshot). t.batch_id) same ∙ own.batch))
    | inr (_, kept) ↦ kept
  ]

  pub IsApart-update :
      (s : LocSnapshot) (ss : List LocSnapshot)
      → HasRow batch_id s.id ss
      → IsApart batch_id ss
      → IsApart batch_id (update_snapshot_rows s ss)
  unfolding update_snapshot_rows
  IsApart-update s ss own h = record {
    distinct =
        IsAlone-map _ (updated s) ss
          (λ x y mx my e. sym (updated-keys s x).0 ∙ e ∙ (updated-keys s y).0) h.distinct;
    elsewhere =
        IsAlone-map _ (updated s) ss
          (λ x y mx my ((same, pub_x, pub_y), other).
            let batch = sym (updated-keys s x).1 ∙ same ∙ (updated-keys s y).1 in
            let other_x = λ (e : x.batch_id ≡ batch_id). other ((updated-keys s x).1 ∙ e) in
            let at_x = untouched s ss h own x mx other_x in
            let at_y = untouched s ss h own y my (λ e. other_x (batch ∙ e)) in
            (
              (
                batch,
                subst (λ (t : LocSnapshot). t.status ≡ published) at_x pub_x,
                subst (λ (t : LocSnapshot). t.status ≡ published) at_y pub_y,
              ),
              other_x,
            ))
          h.elsewhere;
  }

module _ (now : Time) (batch_id snap_id : ℕ) where
  -- The snapshot and the listed ones are rows of the batch.
  abbrev IsReplacing : List LocSnapshot → List LocSnapshot → Type 0
  IsReplacing pending ss =
      IsApart batch_id ss
      × HasRow batch_id snap_id ss
      × ((o : LocSnapshot) → Memᴰ o pending → HasRow batch_id o.id ss)

  replaced_one :
      (old : LocSnapshot) (rest ss : List LocSnapshot)
      → is_published old ≡ true
      → IsReplacing (old ∷ rest) ss
      → IsReplacing rest (update_snapshot_rows (replace snap_id old) ss)
  replaced_one old rest ss was (apart, row, own) =
      let same_id = (replace_lem snap_id old (is_published_lem old was)).0 in
      (
        IsApart-update batch_id (replace snap_id old) ss
            (subst (λ i. HasRow batch_id i ss) (sym same_id) (own old (Memᴰ.head refl))) apart,
        HasRow-update batch_id snap_id (replace snap_id old) ss row,
        λ o m. HasRow-update batch_id o.id (replace snap_id old) ss (own o (Memᴰ.tail m)),
      )

  supersede_rows-IsApart :
      (pending : List LocSnapshot)
      → Holds
          (λ w. IsReplacing pending w.snapshots)
          (supersede_rows snap_id pending)
          (λ _ w. IsReplacing [] w.snapshots)
  unfolding supersede_rows update_snapshot
  supersede_rows-IsApart [] = pure-Holds (λ _ w. IsReplacing [] w.snapshots) tt
  supersede_rows-IsApart (old ∷ rest) =
      elim (Bool-cases (is_published old && not (old.id == snap_id))) [
        | inl hit ↦
            rw (hit, supersede_rows)
              (>>=-Holds {Q = λ _ w. IsReplacing rest w.snapshots}
                (update_snapshot (replace snap_id old)) _
                (>>=-Holds statement _
                  (statement-Holds _ (rows-IsTableFact λ ss _. IsReplacing (old ∷ rest) ss))
                  λ _.
                    step-Holds _ (λ _ w. IsReplacing rest w.snapshots) _ _
                      λ w h. replaced_one old rest w.snapshots (ground (arith, hit)) h)
                λ _. supersede_rows-IsApart rest)
        | inr miss ↦
            rw (miss, supersede_rows)
              (Holds-pre _ (λ w (apart, row, own). (apart, row, λ o m. own o (Memᴰ.tail m)))
                (supersede_rows-IsApart rest))
      ]

  seal-Keeps :
      (F : List LocSnapshot → Type 0) (b : ReplayBatch)
      → Keeps (λ w. F w.snapshots) (seal_if_open now b)
  unfolding seal_if_open update_batch
  seal-Keeps F b =
      if-Keeps _ _ _
        (>>=-Keeps _ _ (read-Keeps _ _)
          λ moved. write-Keeps _ (rows-IsTableFact λ ss _. F ss) λ w h. h)
        (pure-Keeps _ tt)

  listed_rows :
      (ss : List LocSnapshot) (o : LocSnapshot)
      → Memᴰ o (snapshots_of batch_id ss)
      → HasRow batch_id o.id ss
  unfolding snapshots_of
  listed_rows ss o m =
      let kept =
        (mem-keep o (λ (s : LocSnapshot). s.batch_id == batch_id) ss).0
          ((mem-sort_on (λ (s : LocSnapshot). pos s.id) o _).0 m) in
      let here = kept.1 in
      record { row = o; stored = kept.0; id = refl; batch = ground (arith, here) }

  pub replace_published-IsApart :
      (b : ReplayBatch) (snap : LocSnapshot)
      → snap.id ≡ snap_id
      → Holds
          (λ w. IsApart batch_id w.snapshots × HasRow batch_id snap_id w.snapshots)
          (replace_published now batch_id b snap_id snap)
          (λ _ w. IsApart batch_id w.snapshots)
  unfolding replace_published list_snapshots update_snapshot
  replace_published-IsApart b snap of_id =
      >>=-Holds {Q = λ existing w. IsReplacing existing w.snapshots} (list_snapshots batch_id) _
        (>>=-Holds statement _
          (statement-Holds _
            (rows-IsTableFact λ ss _. IsApart batch_id ss × HasRow batch_id snap_id ss))
          λ _.
            step-Holds _ (λ existing w. IsReplacing existing w.snapshots) _ _
              λ w (apart, row). (apart, row, listed_rows w.snapshots))
        λ existing. >>=-Holds _ _ (supersede_rows-IsApart existing) λ _.
          >>=-Holds {Q = λ _ w. IsApart batch_id w.snapshots} (update_snapshot snap) _
            (>>=-Holds statement _ (statement-Holds _ (rows-IsTableFact λ ss _. IsReplacing [] ss))
              λ _.
                step-Holds _ (λ _ w. IsApart batch_id w.snapshots) _ _
                  λ w (apart, row, _).
                    IsApart-update batch_id snap w.snapshots
                      (subst (λ i. HasRow batch_id i w.snapshots) (sym of_id) row) apart)
            λ _. Holds-of_Keeps _ (seal-Keeps (IsApart batch_id) b)
