-- ===== src/Postgres/Activity.antt =====
-- internal/postgres/activity.go, its mapper, and the loop of listen.go over the notifications of
-- one connection.
pub mod Publishing
pub mod Backoff
use aftercredits_backend.Base.{
  ℕ, zero, suc, Bool, Option, none, some, List, [], ◌∷◌, map, ◌*◌, ltb, Str, str_eq, codes,
  if◌then◌else◌, ℤ, pos, negsuc,
}
use aftercredits_backend.Models.{Time}
use aftercredits_backend.Database.Exec.{
  Result, ok, err, Exec, pure, in_tx, attempt, map_err, now, new_string, ◌>>=◌, ◌>>◌,
}
use aftercredits_backend.Database.Activity as Q
use aftercredits_backend.Database.Activity.{FeedRow}
use aftercredits_backend.Activity.Event.{ActivityEvent}
use aftercredits_backend.Activity.Hub.{Hub, publish}
use aftercredits_backend.Postgres.Titles.{not_found}

unfoldable pub first_non_empty : Str → Str → Str
first_non_empty a b = if str_eq a [] then b else a

abbrev pub marshalled : Option Str → Str
marshalled none = codes "{}"
marshalled (some payload) = payload

-- `seq` is the database's.
unfoldable pub insert_each : Time → List ActivityEvent → Exec (Unit {0})
unfolding first_non_empty
insert_each at [] = pure tt
insert_each at (e ∷ events) = do
  fresh ← new_string
  row ← Q.insert_activity_event_row (record {
    id = first_non_empty e.id fresh;
    seq = 0;
    group_id = e.group_id;
    actor_id = e.actor_id;
    actor_name = e.actor_name;
    kind = e.kind;
    title_id = e.title_id;
    title_name = e.title_name;
    payload = marshalled e.payload;
    created_at = at;
  })
  Q.notify_activity_event row.id
  insert_each at events

unfoldable pub insert_events_tx : List ActivityEvent → Exec (Unit {0})
unfolding insert_each
insert_events_tx events = do at ← now; insert_each at events

unfoldable pub insert_activity_events : List ActivityEvent → Exec (Unit {0})
unfolding insert_events_tx
insert_activity_events [] = pure tt
insert_activity_events (e ∷ events) = in_tx (insert_events_tx (e ∷ events))

abbrev pub unmarshalled : Str → Option Str
unmarshalled [] = none
unmarshalled (c ∷ payload) = some (c ∷ payload)

unfoldable pub activity_event_row_to_model : FeedRow → ActivityEvent
activity_event_row_to_model row = record {
  id = row.event.id;
  seq = row.event.seq;
  group_id = row.event.group_id;
  group_name = row.group_name;
  actor_id = row.event.actor_id;
  actor_name = row.event.actor_name;
  kind = row.event.kind;
  title_id = row.event.title_id;
  title_name = row.event.title_name;
  payload = unmarshalled row.event.payload;
  created_at = row.event.created_at;
  read = row.read_by_me;
}

unfoldable pub get_activity_feed : Str → Option ℤ → ℤ → Exec (List ActivityEvent)
unfolding activity_event_row_to_model
get_activity_feed user_id before (pos zero) = pure []
get_activity_feed user_id before (negsuc n) = pure []
get_activity_feed user_id before (pos (suc n)) = do
  rows ← Q.get_activity_feed_rows user_id before (suc n)
  pure (map activity_event_row_to_model rows)

unfoldable pub get_activity_event_by_id : Str → Exec ActivityEvent
unfolding activity_event_row_to_model
get_activity_event_by_id id = do
  row ← map_err not_found (Q.get_activity_event_by_id id)
  pure (activity_event_row_to_model row)

unfoldable pub get_activity_unread_count : Str → Exec ℕ
get_activity_unread_count user_id = Q.count_activity_unread user_id

unfoldable pub mark_activity_event_read : Str → Str → Exec (Unit {0})
mark_activity_event_read user_id event_id = do
  at ← now
  map_err not_found (Q.mark_activity_event_read user_id event_id at)
  pure tt

unfoldable pub mark_all_activity_events_read : Str → Exec (Unit {0})
mark_all_activity_events_read user_id = do at ← now; Q.mark_all_activity_events_read user_id at

abbrev pub publish_read : Hub → Result ActivityEvent → Hub
publish_read hub (ok event) = publish event hub
publish_read hub (err e) = hub

-- listenOnce on the notifications that one connection delivers: an event that cannot be read is
-- skipped.
unfoldable pub listen_once : Hub → List Str → Exec Hub
unfolding get_activity_event_by_id
listen_once hub [] = pure hub
listen_once hub (payload ∷ notifications) = do
  event ← attempt (get_activity_event_by_id payload)
  listen_once (publish_read hub event) notifications

-- In microseconds.
abbrev pub listen_min_backoff : ℕ
listen_min_backoff = 1_000_000

abbrev pub listen_max_backoff : ℕ
listen_max_backoff = 30_000_000

unfoldable pub next_backoff : ℕ → ℕ
next_backoff backoff =
    if ltb listen_max_backoff (2 * backoff) then listen_max_backoff else 2 * backoff

-- The waits of ListenActivity, given for each of its rounds whether it connected before it failed.
unfoldable pub reconnect_delays : ℕ → List Bool → List ℕ
unfolding next_backoff
reconnect_delays backoff [] = []
reconnect_delays backoff (connected ∷ rounds) =
    let wait = if connected then listen_min_backoff else backoff in
    wait ∷ reconnect_delays (next_backoff wait) rounds
