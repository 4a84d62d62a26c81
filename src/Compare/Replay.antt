-- ===== src/Compare/Replay.antt =====
-- internal/compare/hash.go, `Replayer`, and `eventsUpTo` of internal/service/batch_service.go,
-- which every replay of the service goes through. The source writes into the caller's map and
-- every caller drops that map on an error, so the model returns the map on success only.
pub mod LastWrite
pub mod Resume
pub mod Alike
use task274_replaydivergence.Prelude.{String, List, [], ◌∷◌, Option, none, some, if◌then◌else◌}
use task274_replaydivergence.Prelude.Int.{ℤ, ltb_ℤ}
use task274_replaydivergence.Prelude.StrMap.{StrMap, lookup, insert}
use task274_replaydivergence.Model.Errors.{Result, ok, err, missing_value, ◌>>=◌}
use task274_replaydivergence.Model.Event.{ResourceAccess, ExecEvent, key}

-- The inner loop, over the writes of the event `e`.
unfoldable pub replay_writes :
    ExecEvent → StrMap String → List ResourceAccess → Result (StrMap String)
replay_writes e state [] = ok state
replay_writes e state (w ∷ ws) = elim (lookup (key w) e.values) [
  | none ↦ err (missing_value e.seq (key w))
  | some v ↦ replay_writes e (insert (key w) v state) ws
]

unfoldable pub replay : StrMap String → List ExecEvent → Result (StrMap String)
unfolding replay_writes
replay state [] = ok state
replay state (e ∷ es) = do s ← replay_writes e state e.writes; replay s es

-- The events before the first whose seq is above the limit.
unfoldable pub events_up_to : List ExecEvent → ℤ → List ExecEvent
events_up_to [] limit = []
events_up_to (e ∷ es) limit = if ltb_ℤ limit e.seq then [] else e ∷ events_up_to es limit
