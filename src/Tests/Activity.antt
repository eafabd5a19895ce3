-- ===== src/Tests/Activity.antt =====
-- The feed, its marks and its stream, and the access to a group.
use aftercredits_backend.Base.{
  ℕ, ◌≤ℤ◌, ◌+◌, ◌<◌, ◌≡◌, refl, inl, inr, length, true, false, none, some, List, [], ◌∷◌, Str,
  codes, pos, any, find, filter, str_eq, ◌||◌, arith, All,
}
use aftercredits_backend.Models.{Error, Time, User}
use aftercredits_backend.Database.Exec.{
  EventRow, UserRow, Tables, World, Env, ok, err, in_tx, select, statement, ◌>>=◌, pure, nextval,
  now, new_string, map_err, attempt,
}
use aftercredits_backend.Database.Users as U
use aftercredits_backend.Postgres.Users as P
use aftercredits_backend.Base.Assoc.{lookup, insert}
use aftercredits_backend.Database.Activity as D
use aftercredits_backend.Database.Activity.{
  visible_events, is_read, count_activity_unread, insert_activity_event_row, notify_activity_event,
}
use aftercredits_backend.Database.Activity.Keys.{HasEventKeys}
use aftercredits_backend.Activity.Hub.{new_hub, subscribe}
use aftercredits_backend.Activity.Tickets.{issue, redeem, new_ticket_store}
use aftercredits_backend.Postgres.Activity.{
  insert_activity_events, reconnect_delays, get_activity_unread_count,
  mark_all_activity_events_read,
}
use aftercredits_backend.Postgres.Activity.Publishing.{
  IsPublished, insert_activity_events-atomic, insert_activity_events-IsPublished,
}
use aftercredits_backend.Postgres.Activity.Backoff.{InRange, reconnect_delays-InRange}
use aftercredits_backend.Services.Activity.{get_unread_count, mark_all_read, open_stream}
use aftercredits_backend.Services.Activity.Pages.{read_pages, whole_feed, read_pages-whole_feed}
use aftercredits_backend.Services.Activity.Marks.{
  Mark, one, all, serve_marks, marked_by, serve_marks-read,
}
use aftercredits_backend.Services.Activity.Badge.{
  unread, get_unread_count-whole_feed, mark_all_read-cleared,
}
use aftercredits_backend.Services.Activity.Stream.{IsOpened, open_stream-IsOpened}
use aftercredits_backend.Services.Groups.Access.{serve_group, rename, serve_group-denied, IsOwner}
use aftercredits_backend.Config.{normalize_page_params, max_page_size, env_int}
use aftercredits_backend.Base.Text.{trim_space}
use aftercredits_backend.Activity.Recorder.{record_event, title_added}
use aftercredits_backend.Server.Recording.{Handler, activity_middleware}
use aftercredits_backend.Server.Recording.Flushing.{IsServed, seeded, activity_middleware-IsServed}
use aftercredits_backend.Postgres.Users.{user_row_to_model}
use aftercredits_backend.Tests.Fixtures.{ann, bob, friends, tables, world}
use aftercredits_backend.Tests.Feed.{rated_event}

abbrev event : ℕ → EventRow
event n = record {
  id = n ∷ [];
  seq = n;
  group_id = friends;
  actor_id = bob;
  actor_name = codes "Bob";
  kind = codes "rating.added";
  title_id = none;
  title_name = none;
  payload = codes "{}";
  created_at = 0;
}

abbrev ann_row : UserRow
ann_row = record {
  id = ann;
  name = codes "Ann";
  email = [];
  username = ann;
  password_hash = [];
  avatar_url = none;
  role = codes "user";
  is_active = true;
  last_login_at = none;
  created_at = 0;
  updated_at = 0;
}

-- Ann and Bob are in a group; Bob has done two things.
abbrev feed_tables : Tables
feed_tables = record tables {
  group_members =
      record { group_id = friends; user_id = ann }
      ∷ record { group_id = friends; user_id = bob }
      ∷ [];
  users = ann_row ∷ [];
  activity_events = event 1 ∷ event 2 ∷ [];
}

abbrev calm_env : Env
calm_env = record {
  now = λ n. n;
  new_string = λ n. n ∷ [];
  nextval = λ n. n + 9;
  text_lt = λ a b. false;
  range_order = λ n. n;
  fails = λ n. false;
}

abbrev feed_world : World
feed_world = record { db = feed_tables; env = calm_env; tick = 0 }

feed-HasEventKeys : HasEventKeys feed_tables
unfolding any str_eq
feed-HasEventKeys = record { ids = (refl, (refl, tt)); seqs = (refl, (refl, tt)) }

visible_two : length (visible_events ann feed_tables) < 3
unfolding visible_events any str_eq filter
visible_two = omega arith

page_fits : (normalize_page_params (λ _. []) (pos 1) (pos 1)).0 ≤ℤ pos 9_223_372_036_854_775_806
unfolding normalize_page_params max_page_size env_int str_eq trim_space
page_fits = omega arith

read_pages-whole_feed_example :
    (read_pages 3 (λ _. []) ann none (pos 1) feed_world).0 ≡ ok (some (whole_feed ann feed_tables))
read_pages-whole_feed_example =
    read_pages-whole_feed calm_env (λ n. refl) feed_tables 0 3 (λ _. []) ann (pos 1)
      feed-HasEventKeys page_fits visible_two

get_unread_count-whole_feed_example : 2 ≡ unread (whole_feed ann feed_tables)
unfolding get_unread_count str_eq any get_activity_unread_count count_activity_unread select filter
    find
get_unread_count-whole_feed_example = get_unread_count-whole_feed ann feed_world refl

abbrev first_marked : List (Str × Mark)
first_marked = (ann, one (1 ∷ [])) ∷ (ann, one (9 ∷ [])) ∷ (ann, all) ∷ []

serve_marks-read_example : is_read ann (serve_marks first_marked feed_world).1.db (event 2) ≡ (
    is_read ann feed_tables (event 2)
    || any (marked_by feed_tables ann (event 2)) (serve_marks first_marked feed_world).0)
serve_marks-read_example =
    serve_marks-read first_marked feed_world ann (event 2) feed-HasEventKeys (inr (inl refl))

mark_all_read-cleared_example : unread (whole_feed ann (mark_all_read ann feed_world).1.db) ≡ 0
unfolding mark_all_read mark_all_activity_events_read D.mark_all_activity_events_read now ◌>>=◌
    statement str_eq any
mark_all_read-cleared_example = mark_all_read-cleared ann feed_world feed-HasEventKeys refl

open_stream-IsOpened_example :
    (user_id : Str) × ((redeem (codes "t") 5 (issue (codes "t") ann 0 new_ticket_store)).0
      ≡ some user_id)
    × IsOpened user_id feed_tables new_hub (subscribe ann (friends ∷ []) new_hub).0 0
unfolding open_stream redeem issue subscribe str_eq any lookup insert ◌>>=◌ attempt P.get_user_by_id
    map_err U.get_user_by_id select find U.get_user_group_ids pure filter
open_stream-IsOpened_example =
    open_stream-IsOpened (codes "t") 5 (issue (codes "t") ann 0 new_ticket_store) new_hub feed_world
      refl

insert_activity_events-atomic_example :
    (insert_activity_events (rated_event ∷ []) (world 5)).1.db ≡ tables
unfolding insert_activity_events in_tx statement str_eq any ◌>>=◌ now new_string
    insert_activity_event_row nextval notify_activity_event pure
insert_activity_events-atomic_example =
    insert_activity_events-atomic (rated_event ∷ []) (world 5) refl

insert_activity_events-IsPublished_example :
    (at : Time) × IsPublished at
      (rated_event ∷ [])
      feed_tables
      (insert_activity_events (rated_event ∷ []) feed_world).1.db
unfolding insert_activity_events in_tx statement str_eq any ◌>>=◌ now new_string
    insert_activity_event_row nextval notify_activity_event pure
insert_activity_events-IsPublished_example =
    insert_activity_events-IsPublished (rated_event ∷ []) feed_world refl

reconnect_delays-InRange_example :
    All InRange (reconnect_delays 1_000_000 (false ∷ false ∷ true ∷ []))
reconnect_delays-InRange_example =
    reconnect_delays-InRange 1_000_000 (false ∷ false ∷ true ∷ []) (omega arith, omega arith)

-- Bob is a member, and not the owner.
bob_no-IsOwner : ¬ IsOwner friends bob feed_tables
unfolding find any str_eq
bob_no-IsOwner o = ground (arith, o.stored, o.owner)

serve_group-denied_example :
    ((serve_group friends bob (rename (codes "mine") []) feed_world).1.db ≡ feed_tables)
    × ((e : Error) × ((serve_group friends bob (rename (codes "mine") []) feed_world).0 ≡ err e))
serve_group-denied_example =
    serve_group-denied friends bob (rename (codes "mine") []) feed_world bob_no-IsOwner

-- A handler that records a title and answers 200.
abbrev adds_title : Handler
adds_title recorder w =
    ((200, record_event (title_added friends (codes "m") (codes "Alien")) recorder), w)

abbrev ann_user : User
ann_user = user_row_to_model ann_row (friends ∷ [])

activity_middleware-IsServed_example :
    IsServed
      (λ p. codes "{}")
      (some ann_user)
      (codes "POST")
      (adds_title (seeded (codes "POST")) feed_world)
      (activity_middleware (λ p. codes "{}") (some ann_user) (codes "POST") adds_title feed_world)
activity_middleware-IsServed_example =
    activity_middleware-IsServed (λ p. codes "{}") (some ann_user) (codes "POST") adds_title
      feed_world
