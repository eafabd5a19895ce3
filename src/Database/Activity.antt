-- ===== src/Database/Activity.antt =====
-- internal/database/activity.sql.go, with the view activity_visible_events of
-- sql/schema/007_activity_event_reads.sql.
pub mod Keys
pub mod Reading
pub mod Marking
use aftercredits_backend.Base.{
  ℕ, Bool, true, false, not, ◌&&◌, ◌||◌, Option, none, some, List, [], ◌∷◌, ◌++◌, map, Str, str_eq,
  any, find, filter, update_where, length, leb, ltb, ◌==◌, if◌then◌else◌, ℤ, pos, ltb_ℤ,
}
use aftercredits_backend.Base.Sorting.{sort, descending, take}
use aftercredits_backend.Models.{Time, no_rows, unique_violation, foreign_key_violation}
use aftercredits_backend.Database.Exec.{
  EventRow, EventReadRow, ReadFloorRow, Tables, Result, ok, err, Exec, select, statement, nextval,
  ◌>>=◌,
}
use aftercredits_backend.Database.Ratings.{has_group}
use aftercredits_backend.Database.Users.{member}

-- The row of GetActivityFeedRows and of GetActivityEventById: the columns of the event, and two.
pub record FeedRow : Type 0 where
  pub event : EventRow
  pub group_name : Str
  pub read_by_me : Bool

-- activity_visible_events has a row for the reader and the event. Its joins are on the keys of
-- group_members and groups, so it has at most one.
unfoldable pub visible_to : Str → Tables → EventRow → Bool
unfolding member
visible_to reader t e =
    any (member e.group_id reader) t.group_members
    && any (λ g. str_eq g.id e.group_id && not g.deleted) t.groups
    && not (str_eq e.actor_id reader)

unfoldable pub visible_events : Str → Tables → List EventRow
unfolding visible_to
visible_events reader t = filter (visible_to reader t) t.activity_events

abbrev pub floor_or : ℕ → Option ReadFloorRow → ℕ
floor_or def none = def
floor_or def (some f) = f.floor_seq

-- COALESCE(f.floor_seq, 0) of the reader's floor
unfoldable pub floor_of : Str → List ReadFloorRow → ℕ
floor_of reader floors = floor_or 0 (find (λ f. str_eq f.user_id reader) floors)

unfoldable pub reads : Str → Str → EventReadRow → Bool
reads reader event_id r = str_eq r.event_id event_id && str_eq r.user_id reader

-- read_by_me
unfoldable pub is_read : Str → Tables → EventRow → Bool
unfolding floor_of reads
is_read reader t e =
    leb e.seq (floor_of reader t.activity_read_floors)
    || any (reads reader e.id) t.activity_event_reads

unfoldable pub count_activity_unread : Str → Exec ℕ
unfolding visible_events floor_of reads
count_activity_unread user_id = select λ t. ok (
    length (
      filter
        (λ e.
          ltb (floor_of user_id t.activity_read_floors) e.seq
          && not (any (reads user_id e.id) t.activity_event_reads))
        (visible_events user_id t)))

abbrev pub name_or : Str → Option Str → Str
name_or def none = def
name_or def (some n) = n

abbrev pub found_name : {A : Type 0} → (A → Str) → Option A → Str
found_name name none = []
found_name name (some a) = name a

-- g.name, of the group that the foreign key of the event names
unfoldable pub group_name_of : Str → Tables → Str
group_name_of group_id t = found_name (λ g. g.name) (find (λ g. str_eq g.id group_id) t.groups)

unfoldable pub feed_row : Str → Tables → EventRow → FeedRow
unfolding is_read group_name_of
feed_row reader t e = record {
  event = e;
  group_name = group_name_of e.group_id t;
  read_by_me = is_read reader t e;
}

-- $2 IS NULL OR v.seq < $2
abbrev pub before_cursor : Option ℤ → EventRow → Bool
before_cursor none e = true
before_cursor (some before) e = ltb_ℤ (pos e.seq) before

unfoldable pub newest_first : List EventRow → List EventRow
newest_first es = sort (descending (λ e. e.seq)) es

unfoldable pub get_activity_feed_rows : Str → Option ℤ → ℕ → Exec (List FeedRow)
unfolding feed_row visible_events newest_first
get_activity_feed_rows user_id before limit = select λ t. ok (
    map (feed_row user_id t)
      (take limit (newest_first (filter (before_cursor before) (visible_events user_id t)))))

abbrev pub pushed_row : Tables → EventRow → FeedRow
pushed_row t e = record { event = e; group_name = group_name_of e.group_id t; read_by_me = false }

abbrev pub pushed : Tables → Option EventRow → Result FeedRow
pushed t none = err no_rows
pushed t (some e) = if has_group e.group_id t then ok (pushed_row t e) else err no_rows

unfoldable pub get_activity_event_by_id : Str → Exec FeedRow
unfolding group_name_of
get_activity_event_by_id id = select λ t. pushed t (find (λ e. str_eq e.id id) t.activity_events)

unfoldable pub event_checked : EventRow → Tables → Result (EventRow × Tables)
event_checked row t =
    if any (λ e. str_eq e.id row.id || e.seq == row.seq) t.activity_events
    then err unique_violation
    else if has_group row.group_id t
    then ok (row, record t { activity_events = t.activity_events ++ row ∷ [] })
    else err foreign_key_violation

-- `seq` is the column's default.
unfoldable pub insert_activity_event_row : EventRow → Exec EventRow
unfolding event_checked
insert_activity_event_row row = do
  seq ← nextval
  statement λ t. event_checked (record row { seq = seq }) t

-- The CTE `inserted`: only above the floor, and ON CONFLICT keeps read_at.
unfoldable pub read_inserted : Str → Time → Tables → EventRow → Result (Str × Tables)
unfolding floor_of reads
read_inserted user_id at t e =
    if not (ltb (floor_of user_id t.activity_read_floors) e.seq)
    then ok (e.id, t)
    else if any (reads user_id e.id) t.activity_event_reads
    then ok (e.id, t)
    else if any (λ u. str_eq u.id user_id) t.users
    then ok (
      e.id,
      record t {
        activity_event_reads =
            t.activity_event_reads
            ++ record { user_id = user_id; event_id = e.id; read_at = at } ∷ [];
      },
    )
    else err foreign_key_violation

abbrev pub read_marked : Str → Time → Tables → Option EventRow → Result (Str × Tables)
read_marked user_id at t none = err no_rows
read_marked user_id at t (some e) = read_inserted user_id at t e

unfoldable pub mark_activity_event_read : Str → Str → Time → Exec Str
unfolding read_inserted visible_events
mark_activity_event_read user_id event_id at =
    statement
      λ t. read_marked user_id at t (find (λ e. str_eq e.id event_id) (visible_events user_id t))

abbrev pub greatest : ℕ → ℕ → ℕ
greatest a b = if ltb a b then b else a

-- COALESCE(max(v.seq), 0)
unfoldable pub max_seq : List EventRow → ℕ
max_seq [] = 0
max_seq (e ∷ es) = greatest (max_seq es) e.seq

-- The CTE `raised`: the floors with the reader's raised.
unfoldable pub raised_floors : Str → ℕ → Time → List ReadFloorRow → List ReadFloorRow
raised_floors user_id seq at floors =
    if any (λ f. str_eq f.user_id user_id) floors
    then update_where (λ f. str_eq f.user_id user_id)
        (λ f. record f { floor_seq = greatest f.floor_seq seq; read_at = at }) floors
    else floors ++ record { user_id = user_id; floor_seq = seq; read_at = at } ∷ []

-- An exception row of the user that the floor covers.
unfoldable pub covered : Str → ℕ → List EventRow → EventReadRow → Bool
covered user_id floor events r =
    str_eq r.user_id user_id && any (λ e. str_eq e.id r.event_id && leb e.seq floor) events

abbrev pub all_marked : Str → List ReadFloorRow → Tables → Tables
all_marked user_id floors t = record t {
  activity_read_floors = floors;
  activity_event_reads =
      filter (λ r. not (covered user_id (floor_of user_id floors) t.activity_events r))
        t.activity_event_reads;
}

unfoldable pub all_read : Str → Time → Tables → Result (Unit {0} × Tables)
unfolding raised_floors covered max_seq visible_events floor_of
all_read user_id at t =
    if any (λ f. str_eq f.user_id user_id) t.activity_read_floors
      || any (λ u. str_eq u.id user_id) t.users
    then ok (
      tt,
      all_marked user_id
          (raised_floors user_id (max_seq (visible_events user_id t)) at t.activity_read_floors) t,
    )
    else err foreign_key_violation

unfoldable pub mark_all_activity_events_read : Str → Time → Exec (Unit {0})
unfolding all_read
mark_all_activity_events_read user_id at = statement λ t. all_read user_id at t

-- pg_notify
unfoldable pub notify_activity_event : Str → Exec (Unit {0})
notify_activity_event event_id =
    statement λ t. ok (tt, record t { notified = t.notified ++ event_id ∷ [] })
