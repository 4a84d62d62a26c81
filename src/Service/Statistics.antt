-- ===== src/Service/Statistics.antt =====
-- `Stats` of internal/service/compare_service.go. An entry of `EventStatus` is keyed by the side
-- and the status, whose texts the source joins by a colon; its two sides are different.
pub mod Totals
use task274_replaydivergence.Prelude.{ℕ, List, [], ◌∷◌, ◌++◌, ◌+◌, length, map, if◌then◌else◌}
use task274_replaydivergence.Model.Status.{
  BatchStatus, TrailSide, EventStatus, reference, under_test,
}
use task274_replaydivergence.Model.Exec.{Exec, pure, ◌>>=◌}
use task274_replaydivergence.Store.World.{World}
use task274_replaydivergence.Store.Rows.{get_batch, count_events_by_status, list_checkpoints}
use task274_replaydivergence.Store.Events.{same_side}
use task274_replaydivergence.Store.Fingerprints.{count_fingerprints}
use task274_replaydivergence.Store.Dependencies.{count_dependencies}
use task274_replaydivergence.Store.Divergences.{list_divergences}
use task274_replaydivergence.Store.Snapshots.{list_snapshots}

pub record BatchStats : Type 0 where
  pub batch_id : ℕ
  pub batch_status : BatchStatus
  pub ref_events : ℕ
  pub test_events : ℕ
  pub checkpoints : ℕ
  pub fingerprints : ℕ
  pub dependencies : ℕ
  pub divergences : ℕ
  pub snapshots : ℕ
  pub event_status : List ((TrailSide × EventStatus) × ℕ)

unfoldable pub blank_stats : ℕ → BatchStatus → BatchStats
blank_stats batch_id status = record {
  batch_id = batch_id;
  batch_status = status;
  ref_events = 0;
  test_events = 0;
  checkpoints = 0;
  fingerprints = 0;
  dependencies = 0;
  divergences = 0;
  snapshots = 0;
  event_status = [];
}

-- The inner loop over the counts of one side.
unfoldable pub add_counts : TrailSide → List (EventStatus × ℕ) → BatchStats → BatchStats
add_counts side [] st = st
add_counts side ((status, n) ∷ counts) st = add_counts side counts (record st {
  event_status = st.event_status ++ ((side, status), n) ∷ [];
  ref_events = if same_side side reference then st.ref_events + n else st.ref_events;
  test_events = if same_side side reference then st.test_events else st.test_events + n;
})

-- The loop over the sides.
unfoldable pub count_sides : ℕ → List TrailSide → BatchStats → Exec World BatchStats
unfolding add_counts
count_sides batch_id [] st = pure st
count_sides batch_id (side ∷ sides) st = count_events_by_status batch_id side >>= λ counts.
    count_sides batch_id sides (add_counts side counts st)

unfoldable pub stats : ℕ → Exec World BatchStats
unfolding blank_stats count_sides
stats batch_id = get_batch batch_id >>= λ b.
    count_sides batch_id (reference ∷ under_test ∷ []) (blank_stats batch_id b.status) >>= λ st.
    list_checkpoints batch_id >>= λ cps. count_fingerprints batch_id >>= λ fp_n.
    count_dependencies batch_id >>= λ dep_n. list_divergences batch_id >>= λ divs.
    list_snapshots batch_id >>= λ snaps. pure (record st {
      checkpoints = length cps;
      fingerprints = fp_n;
      dependencies = dep_n;
      divergences = length divs;
      snapshots = length snaps;
    })
