-- ===== src/Server/Recording.antt =====
-- internal/server/activity_middleware.go, with the sink of internal/activity/sink.go. The handler
-- behind the middleware, and the JSON encoding of a payload, are arguments.
pub mod Flushing
use aftercredits_backend.Base.{
  ℕ, Bool, false, not, ◌||◌, Option, none, some, List, [], ◌∷◌, map, Str, str_eq, codes, leb,
  if◌then◌else◌,
}
use aftercredits_backend.Models.{User}
use aftercredits_backend.Database.Exec.{World, Exec}
use aftercredits_backend.Activity.Event.{ActivityEvent}
use aftercredits_backend.Activity.Recorder.{Event, Payload, Recorder, with_recorder, recorded}
use aftercredits_backend.Postgres.Activity.{insert_activity_events}

-- A handler, given the recorder of its context, answers with a status, what the recorder then
-- holds, and the world.
abbrev pub Handler : Type 0
Handler = Option Recorder → World → (ℕ × Option Recorder) × World

unfoldable pub is_mutating : Str → Bool
is_mutating method =
    str_eq method (codes "POST")
    || str_eq method (codes "PUT")
    || str_eq method (codes "PATCH")
    || str_eq method (codes "DELETE")

unfoldable pub actor_display_name : User → Str
actor_display_name u = if not (str_eq u.name []) then u.name else u.username

abbrev pub encoded : (Payload → Str) → Option Payload → Option Str
encoded marshal none = none
encoded marshal (some p) = some (marshal p)

-- The fields that a write ignores have their zero values.
unfoldable pub to_model : (Payload → Str) → User → Event → ActivityEvent
unfolding actor_display_name
to_model marshal actor e = record {
  id = [];
  seq = 0;
  group_id = e.group_id;
  group_name = [];
  actor_id = actor.id;
  actor_name = actor_display_name actor;
  kind = e.kind;
  title_id = e.title_id;
  title_name = e.title_name;
  payload = encoded marshal e.payload;
  created_at = 0;
  read = false;
}

-- StoreSink.Append
unfoldable pub append : List ActivityEvent → Exec (Unit {0})
append events = insert_activity_events events

-- A failing sink is logged, and no more.
unfoldable pub flush : (Payload → Str) → Option User → List Event → World → World
unfolding to_model append
flush marshal actor [] w = w
flush marshal none (e ∷ events) w = w
flush marshal (some actor) (e ∷ events) w = (append (map (to_model marshal actor) (e ∷ events)) w).1

abbrev pub after_handler : (Payload → Str) → Option User → (ℕ × Option Recorder) × World → ℕ × World
after_handler marshal actor ((status, recorder), w) =
    if leb 400 status then (status, w) else (status, flush marshal actor (recorded recorder) w)

unfoldable pub activity_middleware :
    (Payload → Str) → Option User → Str → Handler → World → ℕ × World
unfolding flush recorded
activity_middleware marshal actor method handler w =
    if not (is_mutating method)
    then (let ((status, recorder), w') = handler none w in (status, w'))
    else after_handler marshal actor (handler with_recorder w)
