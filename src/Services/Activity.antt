-- ===== src/Services/Activity.antt =====
-- internal/services/activity: activity.go, mapper.go, types.go and the stream of stream.go.
pub mod Pages
pub mod Marks
pub mod Badge
pub mod Mailbox
pub mod Stream
use aftercredits_backend.Base.{
  ℕ, ◌/◌, Bool, true, false, not, Option, none, some, List, [], ◌∷◌, map, Str, str_eq, codes,
  length, ltb, if◌then◌else◌, ℤ, pos, pos_part, ◌+ℤ◌,
}
use aftercredits_backend.Base.Sorting.{take}
use aftercredits_backend.Models.{
  Error, Time, User, is_record_not_found, record_not_found, event_not_found, invalid_ticket,
}
use aftercredits_backend.Database.Exec.{Result, ok, err, Exec, pure, raise, attempt, map_err, ◌>>=◌}
use aftercredits_backend.Activity.Event.{ActivityEvent}
use aftercredits_backend.Activity.Hub.{Hub, subscribe, unsubscribe}
use aftercredits_backend.Activity.Tickets.{TicketStore, ticket_ttl, issue, redeem}
use aftercredits_backend.Config.{normalize_page_params}
use aftercredits_backend.Postgres.Activity
use aftercredits_backend.Postgres.Paging.{to_int64}
use aftercredits_backend.Postgres.Users

pub record Event : Type 0 where
  pub id : Str
  pub seq : ℕ
  pub group_id : Str
  pub group_name : Str
  pub actor_id : Str
  pub actor_name : Str
  pub kind : Str
  pub title_id : Option Str
  pub title_name : Option Str
  pub payload : Str
  pub created_at : Time
  pub read : Bool

pub record Feed : Type 0 where
  pub events : List Event
  pub next_before : Option ℤ
  pub has_more : Bool

abbrev pub or_empty_object : Option Str → Str
or_empty_object none = codes "{}"
or_empty_object (some payload) = payload

unfoldable pub map_db_event_to_api_event : ActivityEvent → Event
map_db_event_to_api_event e = record {
  id = e.id;
  seq = e.seq;
  group_id = e.group_id;
  group_name = e.group_name;
  actor_id = e.actor_id;
  actor_name = e.actor_name;
  kind = e.kind;
  title_id = e.title_id;
  title_name = e.title_name;
  payload = or_empty_object e.payload;
  created_at = e.created_at;
  read = e.read;
}

-- events[len(events)-1].Seq
unfoldable pub last_seq : List Event → Option ℤ
last_seq [] = none
last_seq (e ∷ []) = some (pos e.seq)
last_seq (e ∷ f ∷ events) = last_seq (f ∷ events)

unfoldable pub page_of : ℕ → List ActivityEvent → Feed
unfolding map_db_event_to_api_event last_seq
page_of limit rows =
    if ltb limit (length rows)
    then (let events : List Event = map map_db_event_to_api_event (take limit rows) in
        record { events = events; next_before = last_seq events; has_more = true })
    else record {
      events = map map_db_event_to_api_event rows;
      next_before = none;
      has_more = false;
    }

-- The environment of config.NormalizePageParams is an argument; the limit that it gives is positive.
-- An int wraps around.
unfoldable pub get_feed : (Str → Str) → Str → Option ℤ → ℤ → Exec Feed
unfolding page_of
get_feed getenv user_id before limit = do
  let normalized : ℤ = (normalize_page_params getenv limit (pos 1)).0
  rows ← Activity.get_activity_feed user_id before (to_int64 (normalized +ℤ pos 1))
  pure (page_of (pos_part normalized) rows)

unfoldable pub get_unread_count : Str → Exec ℕ
get_unread_count user_id = Activity.get_activity_unread_count user_id

unfoldable pub missing_event : Error → Error
missing_event record_not_found = event_not_found
missing_event e = e

unfoldable pub mark_event_read : Str → Str → Exec (Unit {0})
unfolding missing_event
mark_event_read user_id event_id =
    if str_eq event_id []
    then raise event_not_found
    else map_err missing_event (Activity.mark_activity_event_read user_id event_id)

unfoldable pub mark_all_read : Str → Exec (Unit {0})
mark_all_read user_id = Activity.mark_all_activity_events_read user_id

pub record StreamTicket : Type 0 where
  pub ticket : Str
  pub expires_in : ℕ

-- The random ticket and the clock's reading are arguments; expires_in is in seconds.
unfoldable pub issue_ticket : Str → Str → Time → TicketStore → StreamTicket × TicketStore
issue_ticket random user_id at tickets = (
  record { ticket = random; expires_in = ticket_ttl / 1_000_000 },
  issue random user_id at tickets,
)

-- s.hub.Subscribe(user.Id, user.Groups), for a user who may have a stream
unfoldable pub subscribe_user : Hub → Result User → Exec (Hub × ℕ)
subscribe_user hub (err e) = if is_record_not_found e then raise invalid_ticket else raise e
subscribe_user hub (ok user) =
    if not user.is_active then raise invalid_ticket else pure (subscribe user.id user.groups hub)

abbrev pub open_for : Hub → Option Str → Exec (Hub × ℕ)
open_for hub none = raise invalid_ticket
open_for hub (some user_id) = do
  user ← attempt (Users.get_user_by_id user_id)
  subscribe_user hub user

-- The ticket is redeemed, whatever follows.
unfoldable pub open_stream : Str → ℕ → TicketStore → Hub → TicketStore × Exec (Hub × ℕ)
unfolding subscribe_user
open_stream ticket at tickets hub =
    let (user_id, tickets') = redeem ticket at tickets in (tickets', open_for hub user_id)

unfoldable pub close_stream : ℕ → Hub → Hub
close_stream subscriber hub = unsubscribe subscriber hub
