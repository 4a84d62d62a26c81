-- ===== src/Store/Rows.antt =====
-- internal/store/batch_store.go and checkpoint_store.go, over the tables of batches, and of
-- checkpoints with their UNIQUE(batch_id, seq).
pub mod Written
use task274_replaydivergence.Prelude.{
  ℕ, Bool, true, false, ◌&&◌, ◌==◌, List, [], ◌∷◌, ◌++◌, if◌then◌else◌, keep, map, ◌+◌,
}
use task274_replaydivergence.Prelude.Int.{ℤ, eqb_ℤ, negsuc}
use task274_replaydivergence.Prelude.Order.{int_order}
use task274_replaydivergence.Prelude.Sort.{sort_on}
use task274_replaydivergence.Model.Errors.{database, not_found, Result, ok, err}
use task274_replaydivergence.Model.Batch.{ReplayBatch}
use task274_replaydivergence.Model.Checkpoint.{Checkpoint}
use task274_replaydivergence.Model.Exec.{Exec, gets, ◌>>=◌}
use task274_replaydivergence.Store.World.{World, statement}
use task274_replaydivergence.Model.Status.{EventStatus, TrailSide}
use task274_replaydivergence.Model.Event.{ExecEvent}
use task274_replaydivergence.Store.Events.{same_event_status, on_side}

unfoldable pub create_batch_row : ReplayBatch → Exec World ReplayBatch
create_batch_row b = statement >>= λ _. λ (w : World).
    let row : ReplayBatch = record b { id = w.next_batch } in
    (ok row, record w { batches = w.batches ++ row ∷ []; next_batch = w.next_batch + 1 })

unfoldable pub find_batch : ℕ → List ReplayBatch → Result ReplayBatch
find_batch id [] = err not_found
find_batch id (b ∷ bs) = let rest = find_batch id bs in if b.id == id then ok b else rest

unfoldable pub get_batch : ℕ → Exec World ReplayBatch
unfolding find_batch
get_batch id = statement >>= λ _. λ (w : World). (find_batch id w.batches, w)

-- ORDER BY id DESC
unfoldable pub list_batches : Exec World (List ReplayBatch)
list_batches =
    statement >>= λ _. gets (λ (w : World). sort_on (λ (b : ReplayBatch). negsuc b.id) w.batches)

-- The columns that the UPDATE sets.
unfoldable pub set_batch : ReplayBatch → ReplayBatch → ReplayBatch
set_batch b old = record old {
  name = b.name;
  status = b.status;
  seq_min = b.seq_min;
  seq_max = b.seq_max;
  updated_at = b.updated_at;
}

unfoldable pub update_batch : ReplayBatch → Exec World (Unit {0})
unfolding set_batch
update_batch b = statement >>= λ _. λ (w : World). (
  ok tt,
  record w {
    batches =
        map (λ (old : ReplayBatch). if old.id == b.id then set_batch b old else old) w.batches;
  },
)

unfoldable pub has_checkpoint : ℕ → ℤ → List Checkpoint → Bool
has_checkpoint batch_id seq [] = false
has_checkpoint batch_id seq (c ∷ cs) =
    let rest = has_checkpoint batch_id seq cs in
    if (c.batch_id == batch_id) && eqb_ℤ c.seq seq then true else rest

unfoldable pub create_checkpoint : Checkpoint → Exec World Checkpoint
unfolding has_checkpoint
create_checkpoint c = statement >>= λ _. λ (w : World).
    let row : Checkpoint = record c { id = w.next_checkpoint } in
    if has_checkpoint c.batch_id c.seq w.checkpoints then (err database, w) else (
      ok row,
      record w { checkpoints = w.checkpoints ++ row ∷ []; next_checkpoint = w.next_checkpoint + 1 },
    )

unfoldable pub list_checkpoints : ℕ → Exec World (List Checkpoint)
list_checkpoints batch_id = statement >>= λ _. gets (λ (w : World).
    sort_on (λ (c : Checkpoint). c.seq)
      (keep (λ (c : Checkpoint). c.batch_id == batch_id) w.checkpoints))

find_checkpoint : ℕ → ℕ → List Checkpoint → Result Checkpoint
find_checkpoint batch_id id [] = err not_found
find_checkpoint batch_id id (c ∷ cs) =
    let rest = find_checkpoint batch_id id cs in
    if (c.batch_id == batch_id) && (c.id == id) then ok c else rest

unfoldable pub get_checkpoint : ℕ → ℕ → Exec World Checkpoint
unfolding find_checkpoint
get_checkpoint batch_id id =
    statement >>= λ _. λ (w : World). (find_checkpoint batch_id id w.checkpoints, w)

unfoldable pub update_checkpoint : Checkpoint → Exec World (Unit {0})
update_checkpoint c = statement >>= λ _. λ (w : World). (
  ok tt,
  record w {
    checkpoints =
        map
          (λ (old : Checkpoint).
            if old.id == c.id then record old { status = c.status; reason = c.reason } else old)
          w.checkpoints;
  },
)

-- The count of one status goes up by one.
unfoldable pub count_one : EventStatus → List (EventStatus × ℕ) → List (EventStatus × ℕ)
count_one s [] = (s, 1) ∷ []
count_one s ((t, n) ∷ counts) =
    if same_event_status s t then (t, n + 1) ∷ counts else (t, n) ∷ count_one s counts

-- SELECT status, COUNT(*) ... GROUP BY status
unfoldable pub count_by_status : List ExecEvent → List (EventStatus × ℕ)
unfolding count_one
count_by_status [] = []
count_by_status (e ∷ es) = count_one e.status (count_by_status es)

unfoldable pub count_events_by_status : ℕ → TrailSide → Exec World (List (EventStatus × ℕ))
unfolding count_by_status
count_events_by_status batch_id side = statement >>= λ _.
    λ (w : World). (ok (count_by_status (keep (on_side batch_id side) w.events)), w)
