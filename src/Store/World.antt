-- ===== src/Store/World.antt =====
-- internal/store/store.go: the database and its transaction. A table is the list of its rows, with
-- the id that AUTOINCREMENT gives next. `faults` says of each statement to come whether the
-- database refuses it; past its end none is refused.
pub mod Atomic
pub mod Quiet
pub mod Holds
pub mod Reading
pub mod Keeps
use task274_replaydivergence.Prelude.{ℕ, Bool, true, false, List, [], ◌∷◌}
use task274_replaydivergence.Model.Errors.{Result, ok, err, database}
use task274_replaydivergence.Model.Event.{ExecEvent}
use task274_replaydivergence.Model.Batch.{ReplayBatch}
use task274_replaydivergence.Model.Checkpoint.{Checkpoint, StateFingerprint}
use task274_replaydivergence.Model.Divergence.{RwEdge, Divergence, ChainEdge}
use task274_replaydivergence.Model.Snapshot.{LocSnapshot}
use task274_replaydivergence.Model.Exec.{Exec}

pub record World : Type 0 where
  pub events : List ExecEvent
  pub next_event : ℕ
  pub batches : List ReplayBatch
  pub next_batch : ℕ
  pub checkpoints : List Checkpoint
  pub next_checkpoint : ℕ
  pub fingerprints : List StateFingerprint
  pub next_fingerprint : ℕ
  pub dependencies : List RwEdge
  pub next_dependency : ℕ
  pub divergences : List Divergence
  pub next_divergence : ℕ
  pub chain_edges : List ChainEdge
  pub next_chain_edge : ℕ
  pub snapshots : List LocSnapshot
  pub next_snapshot : ℕ
  pub faults : List Bool

-- The tables of a new file, whose ids begin at 1.
unfoldable pub new_database : World
new_database = record {
  events = [];
  next_event = 1;
  batches = [];
  next_batch = 1;
  checkpoints = [];
  next_checkpoint = 1;
  fingerprints = [];
  next_fingerprint = 1;
  dependencies = [];
  next_dependency = 1;
  divergences = [];
  next_divergence = 1;
  chain_edges = [];
  next_chain_edge = 1;
  snapshots = [];
  next_snapshot = 1;
  faults = [];
}

-- What the database answers to one statement, by the head of the faults.
answer : List Bool → World → Result (Unit {0}) × World
answer [] w = (ok tt, w)
answer (true ∷ rest) w = (err database, record w { faults = rest })
answer (false ∷ rest) w = (ok tt, record w { faults = rest })

unfoldable pub statement : Exec World (Unit {0})
unfolding answer
statement w = answer w.faults w

-- Rollback: the tables are those of `before`.
unfoldable pub roll_back : World → World → World
roll_back before after = record before { faults = after.faults }

module _ {A : Type 0} where
  commit : World → A → Result (Unit {0}) × World → Result A × World
  unfolding roll_back
  commit before a (ok _, after) = (ok a, after)
  commit before a (err e, after) = (err e, roll_back before after)

  -- After `fn`: the commit, or the rollback.
  end_tx : World → Result A × World → Result A × World
  unfolding commit statement
  end_tx before (ok a, after) = commit before a (statement after)
  end_tx before (err e, after) = (err e, roll_back before after)

  begin_tx : Exec World A → Result (Unit {0}) × World → Result A × World
  unfolding end_tx
  begin_tx fn (ok _, w) = end_tx w (fn w)
  begin_tx fn (err e, w) = (err e, w)

  unfoldable pub with_tx : Exec World A → Exec World A
  unfolding begin_tx statement
  with_tx fn w = begin_tx fn (statement w)
