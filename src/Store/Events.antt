-- ===== src/Store/Events.antt =====
-- internal/store/event_store.go, over the table of events with its UNIQUE(batch_id, side, seq).
pub mod UniqueRows
use task274_replaydivergence.Prelude.{
  ℕ, String, Bool, true, false, ◌&&◌, ◌==◌, not, List, [], ◌∷◌, ◌++◌, Option, none, some, str_eq,
  if◌then◌else◌, keep, map, ◌+◌,
}
use task274_replaydivergence.Prelude.Int.{ℤ, pos, eqb_ℤ, ltb_ℤ}
use task274_replaydivergence.Prelude.Order.{int_order}
use task274_replaydivergence.Prelude.Sort.{sort_on}
use task274_replaydivergence.Model.Errors.{database, not_found, Result, ok, err}
use task274_replaydivergence.Model.Status.{
  TrailSide, reference, under_test, unknown_side, EventStatus, raw, aligned, divergent, missing,
  excluded,
}
use task274_replaydivergence.Model.Event.{ExecEvent}
use task274_replaydivergence.Model.Exec.{Exec, pure, raise, gets, ◌>>=◌}
use task274_replaydivergence.Sync.Aligner.{EventGetter}
use task274_replaydivergence.Store.World.{World, statement}

unfoldable pub same_side : TrailSide → TrailSide → Bool
same_side reference reference = true
same_side under_test under_test = true
same_side (unknown_side s) (unknown_side t) = str_eq s t
same_side _ _ = false

unfoldable pub same_event_status : EventStatus → EventStatus → Bool
same_event_status raw raw = true
same_event_status aligned aligned = true
same_event_status divergent divergent = true
same_event_status missing missing = true
same_event_status excluded excluded = true
same_event_status _ _ = false

-- WHERE batch_id=? AND side=?
unfoldable pub on_side : ℕ → TrailSide → ExecEvent → Bool
unfolding same_side
on_side batch_id side e = (e.batch_id == batch_id) && same_side e.side side

-- WHERE batch_id=? AND side=? AND seq=?
unfoldable pub at_seq : ℕ → TrailSide → ℤ → ExecEvent → Bool
unfolding on_side
at_seq batch_id side seq e = on_side batch_id side e && eqb_ℤ e.seq seq

unfoldable pub any_row : (ExecEvent → Bool) → List ExecEvent → Bool
any_row p [] = false
any_row p (e ∷ es) = let rest = any_row p es in if p e then true else rest

-- INSERT, once the database runs it.
unfoldable pub insert_row : ExecEvent → Exec World (Unit {0})
insert_row e w = if any_row (at_seq e.batch_id e.side e.seq) w.events then (err database, w) else (
  ok tt,
  record w {
    events = w.events ++ record e { id = w.next_event } ∷ [];
    next_event = w.next_event + 1;
  },
)

unfoldable pub insert_batch : List ExecEvent → Exec World (Unit {0})
unfolding insert_row
insert_batch [] = pure tt
insert_batch (e ∷ es) = statement >>= λ _. insert_row e >>= λ _. insert_batch es

unfoldable pub seq_exists : ℕ → TrailSide → ℤ → Exec World Bool
unfolding any_row at_seq
seq_exists batch_id side seq =
    statement >>= λ _. gets (λ (w : World). any_row (at_seq batch_id side seq) w.events)

-- AND status=?, unless the text is empty
unfoldable pub has_status : Option EventStatus → ExecEvent → Bool
unfolding same_event_status
has_status none e = true
has_status (some status) e = same_event_status e.status status

unfoldable pub list_by_side : ℕ → TrailSide → Option EventStatus → Exec World (List ExecEvent)
unfolding on_side has_status
list_by_side batch_id side status = statement >>= λ _. gets (λ (w : World).
    sort_on (λ e. e.seq)
      (keep (λ (e : ExecEvent). on_side batch_id side e && has_status status e) w.events))

find_row : ℕ → ℕ → List ExecEvent → Result ExecEvent
find_row batch_id event_id [] = err not_found
find_row batch_id event_id (e ∷ es) =
    let rest = find_row batch_id event_id es in
    if (e.batch_id == batch_id) && (e.id == event_id) then ok e else rest

unfoldable pub get : ℕ → ℕ → Exec World ExecEvent
unfolding find_row
get batch_id event_id = statement >>= λ _. λ (w : World). (find_row batch_id event_id w.events, w)

-- UPDATE exec_events SET ... WHERE ...
unfoldable pub update_rows : (ExecEvent → Bool) → (ExecEvent → ExecEvent) → World → World
update_rows p f w = record w { events = map (λ e. if p e then f e else e) w.events }

unfoldable pub update_status : ℕ → ℕ → EventStatus → String → Exec World (Unit {0})
unfolding update_rows
update_status batch_id event_id status note = statement >>= λ _. λ (w : World). (
  ok tt,
  update_rows (λ e. (e.batch_id == batch_id) && (e.id == event_id))
      (λ e. record e { status = status; note = note }) w,
)

unfoldable pub batch_update_status : ℕ → TrailSide → EventStatus → Exec World (Unit {0})
unfolding update_rows on_side
batch_update_status batch_id side status = statement >>= λ _. λ (w : World).
    (ok tt, update_rows (on_side batch_id side) (λ e. record e { status = status }) w)

-- COALESCE(MIN(seq),0) and COALESCE(MAX(seq),0), given the bounds of the rows so far.
unfoldable pub range_of : Option (ℤ × ℤ) → List ExecEvent → ℤ × ℤ
range_of none [] = (pos 0, pos 0)
range_of (some r) [] = r
range_of none (e ∷ es) = range_of (some (e.seq, e.seq)) es
range_of (some (lo, hi)) (e ∷ es) =
    range_of (some (if ltb_ℤ e.seq lo then e.seq else lo, if ltb_ℤ hi e.seq then e.seq else hi)) es

unfoldable pub seq_range : ℕ → TrailSide → Exec World (ℤ × ℤ)
unfolding range_of on_side
seq_range batch_id side =
    statement >>= λ _. gets (λ (w : World). range_of none (keep (on_side batch_id side) w.events))

-- The event store is what the aligner reads and writes.
unfoldable pub event_getter : EventGetter World
event_getter = record {
  seq_range = seq_range;
  list_by_side = list_by_side;
  batch_update_status = batch_update_status;
  update_status = update_status;
}
