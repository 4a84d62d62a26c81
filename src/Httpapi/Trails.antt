-- ===== src/Httpapi/Trails.antt =====
-- internal/httpapi/trail_handlers.go: a handler for each route.
use task274_replaydivergence.Prelude.{
  ℕ, String, List, [], Option, none, some, not, str_eq, if◌then◌else◌,
}
use task274_replaydivergence.Httpapi.Router.{
  Handler, respond, parsed, Setting, one_event, ImportEventsReq, write_json, validated, bad_side,
  all_events,
}
use task274_replaydivergence.Model.Status.{
  EventStatus, raw, aligned, divergent, missing, reference, under_test, unknown_side, TrailSide,
  is_valid_trail_side,
}
use task274_replaydivergence.Model.Exec.{Exec, ◌>>=◌, pure}
use task274_replaydivergence.Service.Tracing.{exclude_event}
use task274_replaydivergence.Store.World.{World}
use task274_replaydivergence.Service.Batches.{import_events}
use task274_replaydivergence.Model.Event.{ExecEvent}
use task274_replaydivergence.Store.Events.{list_by_side}

unfoldable pub handle_import_events : Setting → Option ℕ → Option ImportEventsReq → Handler
handle_import_events s id body = parsed id λ i. parsed body λ req.
    respond 201 validated (import_events (s.ctx 0) (s.ctx 1) (s.clock 0) i req.side req.events)

-- model.TrailSide(text), with the reference where the query names no side
unfoldable pub side_of_query : String → TrailSide
side_of_query text =
    if str_eq text ""
    then reference
    else if str_eq text "reference"
    then reference
    else if str_eq text "under_test"
    then under_test
    else unknown_side text

-- model.EventStatus(text); no row has a status of any other text.
unfoldable pub event_status : String → Option EventStatus
event_status text =
    if str_eq text "raw"
    then some raw
    else if str_eq text "aligned"
    then some aligned
    else if str_eq text "divergent"
    then some divergent
    else if str_eq text "missing"
    then some missing
    else if str_eq text "excluded"
    then some EventStatus.excluded
    else none

-- The listing by a status that the text names, if it names one.
unfoldable pub list_named : ℕ → TrailSide → Option EventStatus → Exec World (List ExecEvent)
list_named id side (some status) = list_by_side id side (some status)
list_named id side none = list_by_side id side none >>= λ _. pure []

-- The listing by the text of a status: the empty text asks for all events.
unfoldable pub list_with_status : ℕ → TrailSide → String → Exec World (List ExecEvent)
unfolding event_status list_named
list_with_status id side text =
    if str_eq text "" then list_by_side id side none else list_named id side (event_status text)

unfoldable pub handle_list_events : Option ℕ → String → String → Handler
unfolding side_of_query list_with_status
handle_list_events id side status = parsed id λ i.
    if not (is_valid_trail_side (side_of_query side))
    then write_json 400 bad_side
    else respond 200 all_events (list_with_status i (side_of_query side) status)

unfoldable pub handle_exclude_event : Option ℕ → Option ℕ → String → Handler
handle_exclude_event id eid note =
    parsed id λ i. parsed eid λ e. respond 200 one_event (exclude_event i e note)
