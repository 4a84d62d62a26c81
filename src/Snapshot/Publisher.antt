-- ===== src/Snapshot/Publisher.antt =====
-- internal/snapshot/publisher.go. The assembler and the snapshots are changed in place there; here
-- a method returns what it leaves behind.
pub mod Frozen
pub mod Replaced
use task274_replaydivergence.Prelude.{ℕ, List, [], ◌∷◌, ◌++◌}
use task274_replaydivergence.Prelude.Int.{ℤ}
use task274_replaydivergence.Prelude.Order.{int_order}
use task274_replaydivergence.Prelude.Sort.{sort_on}
use task274_replaydivergence.Prelude.Unique.{itself}
use task274_replaydivergence.Model.Errors.{Result, ok, err}
use task274_replaydivergence.Model.Status.{SnapshotStatus, published}
use task274_replaydivergence.Model.Batch.{ReplayBatch}
use task274_replaydivergence.Model.Snapshot.{SnapshotConfig, LocSnapshot, supersede}

pub record ConfigAssembler : Type 0 where
  pub batch : ReplayBatch
  pub checkpoint_seqs : List ℤ
  pub unreliable : List ℤ
  pub excluded : List ℤ

unfoldable pub new_config_assembler : ReplayBatch → ConfigAssembler
new_config_assembler batch = record {
  batch = batch;
  checkpoint_seqs = [];
  unreliable = [];
  excluded = [];
}

unfoldable pub add_checkpoint : ConfigAssembler → ℤ → ConfigAssembler
add_checkpoint a seq = record a { checkpoint_seqs = a.checkpoint_seqs ++ seq ∷ [] }

unfoldable pub add_unreliable : ConfigAssembler → ℤ → ConfigAssembler
add_unreliable a seq = record a { unreliable = a.unreliable ++ seq ∷ [] }

unfoldable pub add_excluded : ConfigAssembler → ℤ → ConfigAssembler
add_excluded a seq = record a { excluded = a.excluded ++ seq ∷ [] }

unfoldable pub build : ConfigAssembler → SnapshotConfig
build a = record {
  seq_min = a.batch.seq_min;
  seq_max = a.batch.seq_max;
  hash_algo = a.batch.hash_algo;
  checkpoint_seqs = sort_on itself a.checkpoint_seqs;
  unreliable_seqs = sort_on itself a.unreliable;
  excluded_seqs = sort_on itself a.excluded;
}

-- `_ = s.Supersede(newID)`: the error is dropped.
unfoldable pub settle : LocSnapshot → Result LocSnapshot → LocSnapshot
settle s (ok s') = s'
settle s (err e) = s

unfoldable pub replace : ℕ → LocSnapshot → LocSnapshot
unfolding settle
replace new_id s = settle s (supersede s new_id)

-- The snapshots after the loop, and the list `updated`.
pub record Replacement : Type 0 where
  pub existing : List LocSnapshot
  pub updated : List LocSnapshot

-- The step of the loop, on what the rest of the list gives.
replace_one : ℕ → LocSnapshot → SnapshotStatus → Replacement → Replacement
unfolding replace
replace_one new_id s published rest = record {
  existing = replace new_id s ∷ rest.existing;
  updated = replace new_id s ∷ rest.updated;
}
replace_one new_id s _ rest = record { existing = s ∷ rest.existing; updated = rest.updated }

unfoldable pub supersede_previous : List LocSnapshot → ℕ → Replacement
unfolding replace_one
supersede_previous [] new_id = record { existing = []; updated = [] }
supersede_previous (s ∷ rest) new_id =
    replace_one new_id s s.status (supersede_previous rest new_id)
