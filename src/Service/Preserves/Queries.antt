-- ===== src/Service/Preserves/Queries.antt =====
-- The calls that read keep every fact about the tables.
use task274_replaydivergence.Prelude.{ℕ, List, [], ◌∷◌, Option}
use task274_replaydivergence.Store.World.Holds.{IsTableFact}
use task274_replaydivergence.Store.World.{World, statement}
use task274_replaydivergence.Model.Exec.{Exec, ◌>>=◌, gets}
use task274_replaydivergence.Store.World.Keeps.{Keeps, >>=-Keeps, IsQuiet-Keeps, pure-Keeps}
use task274_replaydivergence.Store.Events.{list_by_side, get}
use task274_replaydivergence.Store.Dependencies.{count_dependencies}
use task274_replaydivergence.Store.Divergences.{list_divergences, get_divergence}
use task274_replaydivergence.Store.World.Quiet.{
  IsQuiet, statement-IsQuiet, >>=-IsQuiet, read-IsQuiet,
}
use task274_replaydivergence.Store.Rows.{
  get_batch, list_checkpoints, get_checkpoint, count_events_by_status,
}
use task274_replaydivergence.Model.Status.{TrailSide, EventStatus, reference, under_test}
use task274_replaydivergence.Model.Errors.{Result, ok}
use task274_replaydivergence.Service.Statistics.{count_sides, stats, BatchStats, blank_stats}
use task274_replaydivergence.Store.Fingerprints.{count_fingerprints}
use task274_replaydivergence.Store.Snapshots.{list_snapshots}

module _ (P : World → Type 0) (fact : IsTableFact P) where
  pub quiet : {A : Type 0} (m : Exec World A) → IsQuiet m → Keeps P m
  quiet m q = IsQuiet-Keeps m fact q

  -- A query.
  pub queried :
      {A : Type 0} (f : World → Result A) → Keeps P (statement >>= λ _. λ (w : World). (f w, w))
  queried f = quiet _ (>>=-IsQuiet statement _ statement-IsQuiet λ _. read-IsQuiet f)

  pub selected : {A : Type 0} (f : World → A) → Keeps P (statement >>= λ _. gets f)
  selected f = queried (λ w. ok (f w))

  pub get_batch-Keeps : (id : ℕ) → Keeps P (get_batch id)
  unfolding get_batch
  get_batch-Keeps id = queried _

  pub list_checkpoints-Keeps : (batch_id : ℕ) → Keeps P (list_checkpoints batch_id)
  unfolding list_checkpoints
  list_checkpoints-Keeps batch_id = selected _

  pub list_by_side-Keeps :
      (batch_id : ℕ) (side : TrailSide) (status : Option EventStatus)
      → Keeps P (list_by_side batch_id side status)
  unfolding list_by_side
  list_by_side-Keeps batch_id side status = selected _

  pub list_divergences-Keeps : (batch_id : ℕ) → Keeps P (list_divergences batch_id)
  unfolding list_divergences
  list_divergences-Keeps batch_id = selected _

  pub get_divergence-Keeps : (batch_id id : ℕ) → Keeps P (get_divergence batch_id id)
  unfolding get_divergence
  get_divergence-Keeps batch_id id = queried _

  pub get-Keeps : (batch_id id : ℕ) → Keeps P (get batch_id id)
  unfolding get
  get-Keeps batch_id id = queried _

  count_sides-Keeps :
      (batch_id : ℕ) (sides : List TrailSide) (st : BatchStats)
      → Keeps P (count_sides batch_id sides st)
  unfolding count_sides count_events_by_status
  count_sides-Keeps batch_id [] st = pure-Keeps P st
  count_sides-Keeps batch_id (side ∷ sides) st =
      >>=-Keeps _ _ (queried _) λ _. count_sides-Keeps batch_id sides _

  pub stats-Keeps : (batch_id : ℕ) → Keeps P (stats batch_id)
  unfolding stats count_fingerprints count_dependencies list_divergences list_snapshots
  stats-Keeps batch_id = >>=-Keeps _ _ (get_batch-Keeps batch_id) λ b.
      >>=-Keeps _ _
        (count_sides-Keeps batch_id (reference ∷ under_test ∷ []) (blank_stats batch_id b.status))
        λ st. >>=-Keeps _ _ (list_checkpoints-Keeps batch_id) λ _. >>=-Keeps _ _ (queried _) λ _.
          >>=-Keeps _ _ (queried _)
            λ _. >>=-Keeps _ _ (queried _) λ _. >>=-Keeps _ _ (queried _) λ _. pure-Keeps P _

  pub get_checkpoint-Keeps : (batch_id id : ℕ) → Keeps P (get_checkpoint batch_id id)
  unfolding get_checkpoint
  get_checkpoint-Keeps batch_id id = queried _
