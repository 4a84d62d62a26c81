-- ===== src/Store/Consistent.antt =====
-- The constraints of the tables that the schema of store.go declares, and those that the code keeps
-- up itself.
pub mod Inserts
pub mod Updates
use task274_replaydivergence.Prelude.{ℕ, List, ◌≡◌, Bool, sym, []}
use task274_replaydivergence.Prelude.Rows.{IsAlone, IsNumbered}
use task274_replaydivergence.Store.World.{World}
use task274_replaydivergence.Store.World.Holds.{IsTableFact}
use task274_replaydivergence.Store.World.Atomic.{tables}
use task274_replaydivergence.Store.Events.UniqueRows.{IsUnique}
use task274_replaydivergence.Store.Fingerprints.Keyed.{IsKeyed}
use task274_replaydivergence.Model.Event.{ExecEvent}
use task274_replaydivergence.Model.Batch.{ReplayBatch}
use task274_replaydivergence.Model.Checkpoint.{Checkpoint, StateFingerprint}
use task274_replaydivergence.Model.Divergence.{Divergence, RwEdge, ChainEdge}
use task274_replaydivergence.Model.Snapshot.{LocSnapshot}
use task274_replaydivergence.Model.Status.{candidate, published}
use mathlib.Core.Path.{subst}

-- UNIQUE(batch_id, seq) of the checkpoints
abbrev pub SamePoint : Checkpoint → Checkpoint → Type 0
SamePoint c d = (c.batch_id ≡ d.batch_id) × (c.seq ≡ d.seq)

-- Two open candidates for one checkpoint.
abbrev pub SameCandidate : Divergence → Divergence → Type 0
SameCandidate c d =
    (c.batch_id ≡ d.batch_id)
    × (c.checkpoint_seq ≡ d.checkpoint_seq)
    × (c.status ≡ candidate)
    × (d.status ≡ candidate)

-- Two published snapshots of one batch.
abbrev pub SamePublished : LocSnapshot → LocSnapshot → Type 0
SamePublished s t = (s.batch_id ≡ t.batch_id) × (s.status ≡ published) × (t.status ≡ published)

-- The events have their ids and their keys once.
pub record HasEvents (next : ℕ) (es : List ExecEvent) : Type 0 where
  pub numbered : IsNumbered (λ (e : ExecEvent). e.id) next es
  pub keys : IsUnique es

pub record HasCheckpoints (next : ℕ) (cs : List Checkpoint) : Type 0 where
  pub numbered : IsNumbered (λ (c : Checkpoint). c.id) next cs
  pub keys : IsAlone SamePoint cs

pub record HasFingerprints (next : ℕ) (fs : List StateFingerprint) : Type 0 where
  pub numbered : IsNumbered (λ (f : StateFingerprint). f.id) next fs
  pub keys : IsKeyed fs

-- A checkpoint has at most one open candidate.
pub record HasDivergences (next : ℕ) (ds : List Divergence) : Type 0 where
  pub numbered : IsNumbered (λ (d : Divergence). d.id) next ds
  pub open_ones : IsAlone SameCandidate ds

-- Of the snapshots of a batch at most one is published.
abbrev pub IsSingle : World → Type 0
IsSingle w = IsAlone SamePublished w.snapshots

-- All of it but the publications: the events, the batches, the checkpoints, the fingerprints, the
-- divergences, the snapshots, the dependencies and the nodes of the chains.
abbrev pub IsSound : World → Type 0
IsSound w =
    HasEvents w.next_event w.events
    × IsNumbered (λ (b : ReplayBatch). b.id) w.next_batch w.batches
    × HasCheckpoints w.next_checkpoint w.checkpoints
    × HasFingerprints w.next_fingerprint w.fingerprints
    × HasDivergences w.next_divergence w.divergences
    × IsNumbered (λ (s : LocSnapshot). s.id) w.next_snapshot w.snapshots
    × IsNumbered (λ (e : RwEdge). e.id) w.next_dependency w.dependencies
    × IsNumbered (λ (n : ChainEdge). n.id) w.next_chain_edge w.chain_edges

pub record IsConsistent (w : World) : Type 0 where
  pub sound : IsSound w
  pub single : IsSingle w

pub IsSound-IsTableFact : IsTableFact IsSound
unfolding tables
IsSound-IsTableFact v w same h = subst IsSound (sym same) h

pub IsSingle-IsTableFact : IsTableFact IsSingle
unfolding tables
IsSingle-IsTableFact v w same h = subst IsSingle (sym same) h
