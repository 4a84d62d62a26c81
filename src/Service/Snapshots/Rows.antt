-- ===== src/Service/Snapshots/Rows.antt =====
-- The rows of the table of snapshots while a snapshot of a batch replaces the published ones.
use task274_replaydivergence.Prelude.Rows.{Memᴰ-map, map-Memᴰ}
use task274_replaydivergence.Prelude.{
  ◌≡◌, refl, ap, sym, ◌∙◌, inl, inr, ◌⊎◌, ℕ, List, Memᴰ, ◌==◌, ◌&&◌, not, true, false, [], ◌∷◌,
  Bool-cases, arith, if◌then◌else◌, ◌≢◌, mem-keep,
}
use task274_replaydivergence.Prelude.Int.{pos}
use task274_replaydivergence.Model.Snapshot.{LocSnapshot, supersede}
use task274_replaydivergence.Store.Snapshots.{set_snapshot, update_snapshot_rows, snapshots_of}
use task274_replaydivergence.Snapshot.Publisher.{replace, settle}
use task274_replaydivergence.Service.Snapshots.{is_published}
use task274_replaydivergence.Model.Status.{published, superseded}
use task274_replaydivergence.Prelude.Sort.{mem-sort_on}
use task274_replaydivergence.Prelude.Order.{int_order}

-- Of the batch's rows, only `snap_id` may be published, apart from those that `pending` still
-- lists.
pub record IsClearing (batch_id snap_id : ℕ) (pending ss : List LocSnapshot) : Type 0 where
  pub left :
      (r : LocSnapshot)
      → Memᴰ r ss
      → r.batch_id ≡ batch_id
      → r.status ≡ published
      → (r.id ≡ snap_id)
        ⊎ ((old : LocSnapshot) × Memᴰ old pending × (old.id ≡ r.id) × (old.status ≡ published))

-- The batch has the row.
pub record HasRow (batch_id snap_id : ℕ) (ss : List LocSnapshot) : Type 0 where
  pub row : LocSnapshot
  pub stored : Memᴰ row ss
  pub id : row.id ≡ snap_id
  pub batch : row.batch_id ≡ batch_id

-- The row after the UPDATE.
abbrev pub updated : LocSnapshot → LocSnapshot → LocSnapshot
updated s old = if old.id == s.id then set_snapshot s old else old

pub updated-keys :
    (s old : LocSnapshot)
    → ((updated s old).id ≡ old.id) × ((updated s old).batch_id ≡ old.batch_id)
unfolding set_snapshot
updated-keys s old = ground arith

pub updated-status :
    (s old : LocSnapshot)
    → ((old.id ≡ s.id) × ((updated s old).status ≡ s.status))
      ⊎ ((old.id ≢ s.id) × (updated s old ≡ old))
unfolding set_snapshot
updated-status s old = elim (Bool-cases (old.id == s.id)) [
  | inl b ↦ inl (ground (arith, b), rw b refl)
  | inr b ↦ inr (λ e. ground (arith, e, b), rw b refl)
]

pub replace_lem :
    (snap_id : ℕ) (old : LocSnapshot)
    → old.status ≡ published
    → ((replace snap_id old).id ≡ old.id) × ((replace snap_id old).status ≡ superseded)
unfolding replace settle supersede
replace_lem snap_id old h = rw h (refl, refl)

pub is_published_lem : (s : LocSnapshot) → is_published s ≡ true → s.status ≡ published
unfolding is_published
is_published_lem s h = ground arith

is_published-of : (s : LocSnapshot) → s.status ≡ published → is_published s ≡ true
unfolding is_published
is_published-of s h = rw h refl

module _ (batch_id snap_id : ℕ) where
  pub HasRow-update :
      (s : LocSnapshot) (ss : List LocSnapshot)
      → HasRow batch_id snap_id ss
      → HasRow batch_id snap_id (update_snapshot_rows s ss)
  unfolding update_snapshot_rows
  HasRow-update s ss h = record {
    row = updated s h.row;
    stored = map-Memᴰ (updated s) h.row ss h.stored;
    id = (updated-keys s h.row).0 ∙ h.id;
    batch = (updated-keys s h.row).1 ∙ h.batch;
  }

  -- A snapshot that the listing shows as published is replaced.
  pub IsClearing-replace :
      (old : LocSnapshot) (rest ss : List LocSnapshot)
      → is_published old && not (old.id == snap_id) ≡ true
      → IsClearing batch_id snap_id (old ∷ rest) ss
      → IsClearing batch_id snap_id rest (update_snapshot_rows (replace snap_id old) ss)
  unfolding update_snapshot_rows
  IsClearing-replace old rest ss guard c =
      let was = is_published_lem old (ground (arith, guard)) in
      let gone = replace_lem snap_id old was in
      record {
        left = λ r m at_batch public.
            let (x, k, e) = Memᴰ-map (updated (replace snap_id old)) r ss m in
            elim (updated-status (replace snap_id old) x) [
              | inl hit ↦ absurd (cc (ap (λ (s : LocSnapshot). s.status) e, hit.1, gone.1, public))
              | inr kept ↦
                  let same = e ∙ kept.1 in
                  elim (c.left x k (sym (ap (λ (s : LocSnapshot). s.batch_id) same) ∙ at_batch)
                    (sym (ap (λ (s : LocSnapshot). s.status) same) ∙ public)) [
                      | inl here ↦ inl (ap (λ (s : LocSnapshot). s.id) same ∙ here)
                      | inr (o, Memᴰ.head at_old, of_id, o_public) ↦
                          absurd (
                            kept.0 (sym of_id ∙ ap (λ (s : LocSnapshot). s.id) at_old ∙ sym gone.0))
                      | inr (o, Memᴰ.tail later, of_id, o_public) ↦
                          inr
                            (o, later, of_id ∙ sym (ap (λ (s : LocSnapshot). s.id) same), o_public)
                    ]
            ];
      }

  -- Any other snapshot of the listing is passed over.
  pub IsClearing-skip :
      (old : LocSnapshot) (rest ss : List LocSnapshot)
      → is_published old && not (old.id == snap_id) ≡ false
      → IsClearing batch_id snap_id (old ∷ rest) ss
      → IsClearing batch_id snap_id rest ss
  IsClearing-skip old rest ss guard c = record {
    left = λ r m at_batch public. elim (c.left r m at_batch public) [
      | inl here ↦ inl here
      | inr (o, Memᴰ.head at_old, of_id, o_public) ↦
          let was =
            is_published-of old (sym (ap (λ (s : LocSnapshot). s.status) at_old) ∙ o_public) in
          let id_of = ap (λ (s : LocSnapshot). s.id) at_old in
          inl (ground (arith, guard, was, id_of, of_id))
      | inr (o, Memᴰ.tail later, of_id, o_public) ↦ inr (o, later, of_id, o_public)
    ];
  }

  -- Every row of the batch is in its listing.
  pub IsClearing-listed :
      (ss : List LocSnapshot) → IsClearing batch_id snap_id (snapshots_of batch_id ss) ss
  unfolding snapshots_of
  IsClearing-listed ss = record {
    left = λ r m at_batch public. inr (
      r,
      (mem-sort_on (λ (s : LocSnapshot). pos s.id) r _).1 (
          (mem-keep r (λ (s : LocSnapshot). s.batch_id == batch_id) ss).1
            (m, ground (arith, at_batch))),
      refl,
      public,
    );
  }

  -- Once the listing is done, the new row is the only published one of the batch, and it is.
  pub record IsReplaced (ss : List LocSnapshot) : Type 0 where
    pub only :
        (r : LocSnapshot)
        → Memᴰ r ss
        → r.batch_id ≡ batch_id
        → r.status ≡ published
        → r.id ≡ snap_id
    pub some_row : HasRow batch_id snap_id ss
    pub public : some_row.row.status ≡ published

  pub IsReplaced-update :
      (snap : LocSnapshot) (ss : List LocSnapshot)
      → snap.id ≡ snap_id
      → snap.status ≡ published
      → IsClearing batch_id snap_id [] ss
      → HasRow batch_id snap_id ss
      → IsReplaced (update_snapshot_rows snap ss)
  unfolding update_snapshot_rows HasRow-update
  IsReplaced-update snap ss of_id is_public c h = record {
    only = λ r m at_batch public.
        let (x, k, e) = Memᴰ-map (updated snap) r ss m in
        elim (updated-status snap x) [
          | inl hit ↦ ap (λ (s : LocSnapshot). s.id) e ∙ (updated-keys snap x).0 ∙ hit.0 ∙ of_id
          | inr kept ↦
              let same = e ∙ kept.1 in
              elim (c.left x k (sym (ap (λ (s : LocSnapshot). s.batch_id) same) ∙ at_batch)
                (sym (ap (λ (s : LocSnapshot). s.status) same) ∙ public)) [
                  | inl here ↦ ap (λ (s : LocSnapshot). s.id) same ∙ here
                  | inr (o, m', _, _) ↦ absurd (elim m' [ ])
                ]
        ];
    some_row = HasRow-update snap ss h;
    public = elim (updated-status snap h.row) [
      | inl hit ↦ hit.1 ∙ is_public
      | inr kept ↦ absurd (kept.0 (h.id ∙ sym of_id))
    ];
  }
