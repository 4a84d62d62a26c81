-- ===== src/Store/Consistent/Inserts.antt =====
-- The INSERTs that keep the tables sound, whatever row they are given.
use task274_replaydivergence.Prelude.{
  ℕ, List, [], ◌∷◌, ◌≡◌, sym, refl, ap, Memᴰ, Bool-cases, true, inl, ◌∙◌, inr, arith, ◌+◌, All, ◌≢◌,
}
use task274_replaydivergence.Prelude.Rows.{
  IsAlone-snoc, IsNumbered-snoc, IsNumbered, IsNumbered-weaken,
}
use task274_replaydivergence.Store.Consistent.{IsSound, SamePoint, IsSound-IsTableFact}
use task274_replaydivergence.Store.World.Keeps.{Keeps, write-Keeps}
use task274_replaydivergence.Store.Rows.{create_batch_row, has_checkpoint, create_checkpoint}
use task274_replaydivergence.Store.Events.{insert_row, any_row, at_seq}
use task274_replaydivergence.Store.Fingerprints.{upsert, upsert_rows, same_key}
use task274_replaydivergence.Store.Dependencies.{insert_edge}
use task274_replaydivergence.Store.Divergences.{insert_node}
use task274_replaydivergence.Store.Snapshots.{create_snapshot_row}
use task274_replaydivergence.Model.Batch.{ReplayBatch}
use task274_replaydivergence.Prelude.Int.{ℤ}
use task274_replaydivergence.Model.Checkpoint.{Checkpoint, StateFingerprint}
use task274_replaydivergence.Model.Event.{ExecEvent}
use task274_replaydivergence.Model.Divergence.{RwEdge, ChainEdge}
use task274_replaydivergence.Model.Snapshot.{LocSnapshot}
use task274_replaydivergence.Store.Events.UniqueRows.{insert_row-IsUnique}
use task274_replaydivergence.Store.Fingerprints.Table.{upsert_rows-IsKeyed}

pub create_batch_row-Keeps : (b : ReplayBatch) → Keeps IsSound (create_batch_row b)
unfolding create_batch_row
create_batch_row-Keeps b = write-Keeps _ IsSound-IsTableFact λ w h. (
  h.0,
  IsNumbered-snoc (λ (x : ReplayBatch). x.id) w.next_batch w.batches _ refl h.1,
  h.2,
  h.3,
  h.4,
  h.5,
  h.6,
  h.7,
)

-- A row of the point is found.
has_checkpoint-found :
    (batch_id : ℕ) (seq : ℤ) (cs : List Checkpoint) (c : Checkpoint)
    → Memᴰ c cs
    → c.batch_id ≡ batch_id
    → c.seq ≡ seq
    → has_checkpoint batch_id seq cs ≡ true
unfolding has_checkpoint
has_checkpoint-found batch_id seq [] c m own at = absurd (elim m [ ])
has_checkpoint-found batch_id seq (d ∷ ds) c (Memᴰ.head e) own at =
    let b = ap (λ (x : Checkpoint). x.batch_id) e in
    let s = ap (λ (x : Checkpoint). x.seq) e in rw (sym b ∙ own, sym s ∙ at) (ground arith)
has_checkpoint-found batch_id seq (d ∷ ds) c (Memᴰ.tail m) own at =
    ground (arith, has_checkpoint-found batch_id seq ds c m own at)

pub create_checkpoint-Keeps : (c : Checkpoint) → Keeps IsSound (create_checkpoint c)
unfolding create_checkpoint
create_checkpoint-Keeps c = write-Keeps _ IsSound-IsTableFact λ w h.
    elim (Bool-cases (has_checkpoint c.batch_id c.seq w.checkpoints)) [
      | inl taken ↦ rw taken h
      | inr fresh ↦
          let free =
            λ (x : Checkpoint) (m : Memᴰ x w.checkpoints) (own : x.batch_id ≡ c.batch_id)
                (at : x.seq ≡ c.seq).
              absurd (cc (has_checkpoint-found c.batch_id c.seq w.checkpoints x m own at, fresh)) in
          rw fresh (
            h.0,
            h.1,
            record {
              numbered =
                  IsNumbered-snoc (λ (x : Checkpoint). x.id) w.next_checkpoint w.checkpoints _ refl
                    h.2.numbered;
              keys =
                  IsAlone-snoc SamePoint w.checkpoints _ (λ x m r. free x m r.0 r.1)
                    (λ x m r. free x m (sym r.0) (sym r.1)) h.2.keys;
            },
            h.3,
            h.4,
            h.5,
            h.6,
            h.7,
          )
    ]

pub insert_row-Keeps : (e : ExecEvent) → Keeps IsSound (insert_row e)
unfolding insert_row
insert_row-Keeps e = record {
  kept = λ w h.
      let unique = insert_row-IsUnique e w h.0.keys in
      elim (Bool-cases (any_row (at_seq e.batch_id e.side e.seq) w.events)) [
        | inl taken ↦ rw taken h
        | inr fresh ↦ rw fresh (
          record {
            numbered =
                IsNumbered-snoc (λ (x : ExecEvent). x.id) w.next_event w.events _ refl h.0.numbered;
            keys = rw fresh at unique;
          },
          h.1,
          h.2,
          h.3,
          h.4,
          h.5,
          h.6,
          h.7,
        )
      ];
}

-- The row that is added has the next id, and one that is replaced keeps its own.
upsert_rows-IsNumbered :
    (next : ℕ) (f : StateFingerprint) (fs : List StateFingerprint)
    → IsNumbered (λ (x : StateFingerprint). x.id) next fs
    → IsNumbered (λ (x : StateFingerprint). x.id) (next + 1) (upsert_rows next f fs)
unfolding upsert_rows
upsert_rows-IsNumbered next f [] h = (ground arith, tt, tt)
upsert_rows-IsNumbered next f (old ∷ rest) h = elim (Bool-cases (same_key f old)) [
  | inl hit ↦
      rw hit (
        (omega (arith, h.0)),
        h.1,
        IsNumbered-weaken (λ (x : StateFingerprint). x.id) next rest h.2,
      )
  | inr miss ↦ rw miss (omega (arith, h.0), apart rest h.1, upsert_rows-IsNumbered next f rest h.2)
]
  where
    apart :
        (gs : List StateFingerprint)
        → All (λ (y : StateFingerprint). old.id ≢ y.id) gs
        → All (λ (y : StateFingerprint). old.id ≢ y.id) (upsert_rows next f gs)
    apart [] k = (λ e. omega (arith, h.0, e), tt)
    apart (g ∷ gs) k = elim (Bool-cases (same_key f g)) [
      | inl hit ↦ rw hit k
      | inr miss ↦ rw miss (k.0, apart gs k.1)
    ]

pub upsert-Keeps : (f : StateFingerprint) → Keeps IsSound (upsert f)
unfolding upsert
upsert-Keeps f = write-Keeps _ IsSound-IsTableFact λ w h. (
  h.0,
  h.1,
  h.2,
  record {
    numbered = upsert_rows-IsNumbered w.next_fingerprint f w.fingerprints h.3.numbered;
    keys = upsert_rows-IsKeyed w.next_fingerprint f w.fingerprints h.3.keys;
  },
  h.4,
  h.5,
  h.6,
  h.7,
)

pub insert_edge-Keeps : (e : RwEdge) → Keeps IsSound (insert_edge e)
unfolding insert_edge
insert_edge-Keeps e = write-Keeps _ IsSound-IsTableFact λ w h. (
  h.0,
  h.1,
  h.2,
  h.3,
  h.4,
  h.5,
  IsNumbered-snoc (λ (x : RwEdge). x.id) w.next_dependency w.dependencies _ refl h.6,
  h.7,
)

pub insert_node-Keeps : (n : ChainEdge) → Keeps IsSound (insert_node n)
unfolding insert_node
insert_node-Keeps n = write-Keeps _ IsSound-IsTableFact λ w h. (
  h.0,
  h.1,
  h.2,
  h.3,
  h.4,
  h.5,
  h.6,
  IsNumbered-snoc (λ (x : ChainEdge). x.id) w.next_chain_edge w.chain_edges _ refl h.7,
)

pub create_snapshot_row-Keeps : (s : LocSnapshot) → Keeps IsSound (create_snapshot_row s)
unfolding create_snapshot_row
create_snapshot_row-Keeps s = write-Keeps _ IsSound-IsTableFact λ w h. (
  h.0,
  h.1,
  h.2,
  h.3,
  h.4,
  IsNumbered-snoc (λ (x : LocSnapshot). x.id) w.next_snapshot w.snapshots _ refl h.5,
  h.6,
  h.7,
)
