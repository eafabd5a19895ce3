-- ===== src/Activity/Recorder.antt =====
-- internal/activity/activity.go. A context is known by its recorder, if it has one; the lock makes
-- each method one step.
use aftercredits_backend.Base.{Bool, Option, none, some, List, [], ◌∷◌, ◌++◌, Str, codes, ℤ}
use aftercredits_backend.Base.Assoc.{Map, insert}
use aftercredits_backend.Models.{Time, Note}

-- The values that a payload holds.
pub data Value : Type 0 where
  flag : Bool → Value
  date : Time → Value
  note : Note → Value
  number : ℤ → Value

abbrev pub Payload : Type 0
Payload = Map Value

pub record Event : Type 0 where
  pub group_id : Str
  pub kind : Str
  pub title_id : Option Str
  pub title_name : Option Str
  pub payload : Option Payload

abbrev pub Recorder : Type 0
Recorder = List Event

-- WithRecorder
abbrev pub with_recorder : Option Recorder
with_recorder = some []

-- Record
unfoldable pub record_event : Event → Option Recorder → Option Recorder
record_event e none = none
record_event e (some events) = some (events ++ e ∷ [])

unfoldable pub recorded : Option Recorder → List Event
recorded none = []
recorded (some events) = events

abbrev pub about_title : Str → Str → Str → Str → Option Payload → Event
about_title kind group_id title_id title_name payload = record {
  group_id = group_id;
  kind = kind;
  title_id = some title_id;
  title_name = some title_name;
  payload = payload;
}

unfoldable pub title_added : Str → Str → Str → Event
title_added group_id title_id title_name =
    about_title (codes "title_added") group_id title_id title_name none

unfoldable pub title_removed : Str → Str → Str → Event
title_removed group_id title_id title_name =
    about_title (codes "title_removed") group_id title_id title_name none

pub record WatchedState : Type 0 where
  pub watched : Bool
  pub watched_at : Option Time

abbrev pub put_date : Str → Option Time → Payload → Payload
put_date key none p = p
put_date key (some t) p = insert key (date t) p

abbrev pub put_season : Option ℤ → Payload → Payload
put_season none p = p
put_season (some season) p = insert (codes "season") (number season) p

abbrev pub watched_payload : WatchedState → WatchedState → Payload
watched_payload current previous =
    (codes "watched", flag current.watched) ∷ (codes "previousWatched", flag previous.watched) ∷ []

unfoldable pub title_watched_changed :
    Str → Str → Str → WatchedState → WatchedState → Option ℤ → Event
title_watched_changed group_id title_id title_name current previous season =
    about_title (codes "title_watched_changed") group_id title_id title_name (
      some (
        put_season season (
          put_date (codes "previousWatchedAt") previous.watched_at
            (put_date (codes "watchedAt") current.watched_at (watched_payload current previous)))))

unfoldable pub rating_added : Str → Str → Str → Note → Option ℤ → Event
rating_added group_id title_id title_name n season =
    about_title (codes "rating_added") group_id title_id title_name
      (some (put_season season ((codes "note", note n) ∷ [])))

unfoldable pub rating_updated : Str → Str → Str → Note → Note → Option ℤ → Event
rating_updated group_id title_id title_name n previous season =
    about_title (codes "rating_updated") group_id title_id title_name (
      some
        (put_season season ((codes "note", note n) ∷ (codes "previousNote", note previous) ∷ [])))

unfoldable pub rating_deleted : Str → Str → Str → Note → Event
rating_deleted group_id title_id title_name previous =
    about_title (codes "rating_deleted") group_id title_id title_name
      (some ((codes "previousNote", note previous) ∷ []))

unfoldable pub rating_season_deleted : Str → Str → Str → ℤ → Note → Event
rating_season_deleted group_id title_id title_name season previous =
    about_title (codes "rating_season_deleted") group_id title_id title_name
      (some ((codes "season", number season) ∷ (codes "previousNote", note previous) ∷ []))

abbrev pub season_payload : Option ℤ → Option Payload
season_payload none = none
season_payload (some season) = some ((codes "season", number season) ∷ [])

unfoldable pub comment_event : Str → Str → Str → Str → Option ℤ → Event
comment_event kind group_id title_id title_name season =
    about_title kind group_id title_id title_name (season_payload season)

unfoldable pub comment_added : Str → Str → Str → Option ℤ → Event
unfolding comment_event
comment_added group_id title_id title_name season =
    comment_event (codes "comment_added") group_id title_id title_name season

unfoldable pub comment_updated : Str → Str → Str → Option ℤ → Event
unfolding comment_event
comment_updated group_id title_id title_name season =
    comment_event (codes "comment_updated") group_id title_id title_name season

unfoldable pub comment_deleted : Str → Str → Str → Event
unfolding comment_event
comment_deleted group_id title_id title_name =
    comment_event (codes "comment_deleted") group_id title_id title_name none

unfoldable pub comment_season_deleted : Str → Str → Str → ℤ → Event
unfolding comment_event
comment_season_deleted group_id title_id title_name season =
    comment_event (codes "comment_season_deleted") group_id title_id title_name (some season)
