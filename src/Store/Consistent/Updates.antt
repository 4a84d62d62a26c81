-- ===== src/Store/Consistent/Updates.antt =====
-- The UPDATEs and the DELETEs that keep the tables sound.
use task274_replaydivergence.Prelude.{
  ℕ, Bool, ◌≡◌, ◌≢◌, sym, refl, if◌then◌else◌, String, arith, ◌==◌, Bool-cases, ◌∙◌, inl, inr,
}
use task274_replaydivergence.Prelude.Rows.{IsAlone-map, IsNumbered-map, IsNumbered-keep}
use task274_replaydivergence.Store.Consistent.{
  IsSound, SamePoint, SameCandidate, IsSound-IsTableFact,
}
use task274_replaydivergence.Store.World.Keeps.{Keeps, write-Keeps}
use task274_replaydivergence.Store.Rows.{update_batch, update_checkpoint, set_batch}
use task274_replaydivergence.Store.Events.{update_rows, update_status, batch_update_status}
use task274_replaydivergence.Store.Dependencies.{delete_edges}
use task274_replaydivergence.Store.Divergences.{delete_chain, update_divergence, set_divergence}
use task274_replaydivergence.Store.Snapshots.{update_snapshot, update_snapshot_rows, set_snapshot}
use task274_replaydivergence.Model.Checkpoint.{Checkpoint}
use task274_replaydivergence.Model.Event.{ExecEvent}
use task274_replaydivergence.Model.Status.{EventStatus, TrailSide, candidate}
use task274_replaydivergence.Model.Batch.{ReplayBatch}
use task274_replaydivergence.Store.World.{World}
use task274_replaydivergence.Model.Divergence.{Divergence, RwEdge, ChainEdge}
use task274_replaydivergence.Model.Snapshot.{LocSnapshot}
use task274_replaydivergence.Store.Events.UniqueRows.{IsUnique-map}

pub update_batch-Keeps : (b : ReplayBatch) → Keeps IsSound (update_batch b)
unfolding update_batch set_batch
update_batch-Keeps b = write-Keeps _ IsSound-IsTableFact λ w h. (
  h.0,
  IsNumbered-map (λ (x : ReplayBatch). x.id) w.next_batch _ w.batches (λ x. ground arith) h.1,
  h.2,
  h.3,
  h.4,
  h.5,
  h.6,
  h.7,
)

pub update_checkpoint-Keeps : (c : Checkpoint) → Keeps IsSound (update_checkpoint c)
unfolding update_checkpoint
update_checkpoint-Keeps c = write-Keeps _ IsSound-IsTableFact λ w h. (
  h.0,
  h.1,
  record {
    numbered =
        IsNumbered-map (λ (x : Checkpoint). x.id) w.next_checkpoint (set c) w.checkpoints
          (λ x. (set_keys x).0) h.2.numbered;
    keys =
        IsAlone-map SamePoint (set c) w.checkpoints
          (λ x y mx my r.
            (sym (set_keys x).1 ∙ r.0 ∙ (set_keys y).1, sym (set_keys x).2 ∙ r.1 ∙ (set_keys y).2))
          h.2.keys;
  },
  h.3,
  h.4,
  h.5,
  h.6,
  h.7,
)
  where
    set : Checkpoint → Checkpoint → Checkpoint
    set c old = if old.id == c.id then record old { status = c.status; reason = c.reason } else old

    set_keys :
        (x : Checkpoint)
        → ((set c x).id ≡ x.id) × ((set c x).batch_id ≡ x.batch_id) × ((set c x).seq ≡ x.seq)
    set_keys x = ground arith

-- An UPDATE of the events that leaves their ids and keys.
update_rows_keeps :
    (p : ExecEvent → Bool) (f : ExecEvent → ExecEvent)
    → ((e : ExecEvent)
        → ((f e).id ≡ e.id)
          × ((f e).batch_id ≡ e.batch_id)
          × ((f e).side ≡ e.side)
          × ((f e).seq ≡ e.seq))
    → (w : World) → IsSound w
    → IsSound (update_rows p f w)
unfolding update_rows
update_rows_keeps p f same w h = (
  record {
    numbered =
        IsNumbered-map (λ (x : ExecEvent). x.id) w.next_event set w.events (λ x. (set_keys x).0)
          h.0.numbered;
    keys = IsUnique-map set w.events (λ x. (set_keys x).1) h.0.keys;
  },
  h.1,
  h.2,
  h.3,
  h.4,
  h.5,
  h.6,
  h.7,
)
  where
    set : ExecEvent → ExecEvent
    set e = if p e then f e else e

    set_keys :
        (e : ExecEvent)
        → ((set e).id ≡ e.id)
          × (((set e).batch_id ≡ e.batch_id) × ((set e).side ≡ e.side) × ((set e).seq ≡ e.seq))
    set_keys e = elim (Bool-cases (p e)) [
      | inl hit ↦ let (i, b, s, q) = same e in rw hit (i, (b, s, q))
      | inr miss ↦ rw miss (refl, (refl, refl, refl))
    ]

pub update_status-Keeps :
    (batch_id id : ℕ) (status : EventStatus) (note : String)
    → Keeps IsSound (update_status batch_id id status note)
unfolding update_status
update_status-Keeps batch_id id status note =
    write-Keeps _ IsSound-IsTableFact (update_rows_keeps _ _ λ e. (refl, refl, refl, refl))

pub batch_update_status-Keeps :
    (batch_id : ℕ) (side : TrailSide) (status : EventStatus)
    → Keeps IsSound (batch_update_status batch_id side status)
unfolding batch_update_status
batch_update_status-Keeps batch_id side status =
    write-Keeps _ IsSound-IsTableFact (update_rows_keeps _ _ λ e. (refl, refl, refl, refl))

pub delete_edges-Keeps : (batch_id : ℕ) → Keeps IsSound (delete_edges batch_id)
unfolding delete_edges
delete_edges-Keeps batch_id = write-Keeps _ IsSound-IsTableFact λ w h. (
  h.0,
  h.1,
  h.2,
  h.3,
  h.4,
  h.5,
  IsNumbered-keep (λ (x : RwEdge). x.id) w.next_dependency _ w.dependencies h.6,
  h.7,
)

pub delete_chain-Keeps : (div_id : ℕ) → Keeps IsSound (delete_chain div_id)
unfolding delete_chain
delete_chain-Keeps div_id = write-Keeps _ IsSound-IsTableFact λ w h. (
  h.0,
  h.1,
  h.2,
  h.3,
  h.4,
  h.5,
  h.6,
  IsNumbered-keep (λ (x : ChainEdge). x.id) w.next_chain_edge _ w.chain_edges h.7,
)

-- A divergence that is no candidate makes none.
pub update_divergence-Keeps :
    (d : Divergence) → d.status ≢ candidate → Keeps IsSound (update_divergence d)
unfolding update_divergence set_divergence
update_divergence-Keeps d decided = write-Keeps _ IsSound-IsTableFact λ w h. (
  h.0,
  h.1,
  h.2,
  h.3,
  record {
    numbered =
        IsNumbered-map (λ (x : Divergence). x.id) w.next_divergence set w.divergences
          (λ x. (set_keys x).0) h.4.numbered;
    open_ones =
        IsAlone-map SameCandidate set w.divergences
          (λ x y mx my r. (
            sym (set_keys x).1 ∙ r.0 ∙ (set_keys y).1,
            sym (set_keys x).2 ∙ r.1 ∙ (set_keys y).2,
            was x r.2,
            was y r.3,
          ))
          h.4.open_ones;
  },
  h.5,
  h.6,
  h.7,
)
  where
    set : Divergence → Divergence
    set old = if old.id == d.id then set_divergence d old else old

    set_keys :
        (x : Divergence)
        → ((set x).id ≡ x.id)
          × ((set x).batch_id ≡ x.batch_id)
          × ((set x).checkpoint_seq ≡ x.checkpoint_seq)
    set_keys x = ground arith

    was : (x : Divergence) → (set x).status ≡ candidate → x.status ≡ candidate
    was x e = elim (Bool-cases (x.id == d.id)) [
      | inl hit ↦ absurd (decided (rw hit at e))
      | inr miss ↦ rw miss at e
    ]

pub update_snapshot-Keeps : (s : LocSnapshot) → Keeps IsSound (update_snapshot s)
unfolding update_snapshot update_snapshot_rows set_snapshot
update_snapshot-Keeps s = write-Keeps _ IsSound-IsTableFact λ w h. (
  h.0,
  h.1,
  h.2,
  h.3,
  h.4,
  IsNumbered-map (λ (x : LocSnapshot). x.id) w.next_snapshot _ w.snapshots (λ x. ground arith) h.5,
  h.6,
  h.7,
)
