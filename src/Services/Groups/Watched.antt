-- ===== src/Services/Groups/Watched.antt =====
-- internal/services/groups/groups.go: the updates of the watched state. A generics.FlexibleDate is
-- an optional time.
use aftercredits_backend.Base.{
  Bool, true, false, not, ◌&&◌, Option, none, some, Str, ℤ, pos, ltb_ℤ, if◌then◌else◌,
}
use aftercredits_backend.Base.Text.{itoa}
use aftercredits_backend.Base.Assoc.{lookup}
use aftercredits_backend.Models.{
  Time, Title, GroupTitleItem, SeasonWatchedItem, SeasonsWatched, title_not_in_group,
  updating_watched_at_when_watched_is_false, group_invalid_season, group_season_does_not_exist,
}
use aftercredits_backend.Database.Exec.{Exec, pure, raise, map_err, ◌>>=◌}
use aftercredits_backend.Postgres.Groups as Store
use aftercredits_backend.Services.Ratings.{is_series, has_season}
use aftercredits_backend.Services.Groups.{
  GroupTitle, WatchedState, WatchedChange, load_group, missing_title,
  map_db_group_title_to_api_group_title,
}

abbrev pub sets_date : Option (Option Time) → Bool
sets_date none = false
sets_date (some none) = false
sets_date (some (some t)) = true

abbrev pub is_unwatched : Option Bool → Bool
is_unwatched none = true
is_unwatched (some watched) = not watched

-- watchedAtUpdateNotAllowedFalse || watchedAtUpdateNotAllowedNil
unfoldable pub dates_unwatched : Option Bool → Option (Option Time) → Bool
dates_unwatched watched watched_at = sets_date watched_at && is_unwatched watched

-- An update to unwatched clears the date.
unfoldable pub cleared_date : Option Bool → Option (Option Time) → Option (Option Time)
cleared_date none watched_at = watched_at
cleared_date (some true) watched_at = watched_at
cleared_date (some false) watched_at = some none

unfoldable pub season_state : Option SeasonWatchedItem → WatchedState
season_state none = record { watched = false; watched_at = none }
season_state (some item) = record { watched = item.watched; watched_at = item.watched_at }

unfoldable pub season_watched_state : Option SeasonsWatched → Str → WatchedState
unfolding season_state
season_watched_state none season = season_state none
season_watched_state (some seasons) season = season_state (lookup season seasons)

unfoldable pub store_movie :
    Str
    → Str
    → GroupTitleItem
    → Option Bool
    → Option (Option Time)
    → Exec (GroupTitle × WatchedChange)
unfolding cleared_date missing_title map_db_group_title_to_api_group_title
store_movie group_id title_id title_db watched watched_at = do
  item ← map_err missing_title (
      Store.update_group_title_watched_for_movie group_id title_id watched
        (cleared_date watched watched_at))
  pure (
    map_db_group_title_to_api_group_title item,
    record {
      current = record { watched = item.watched; watched_at = item.watched_at };
      previous = record { watched = title_db.watched; watched_at = title_db.watched_at };
    },
  )

abbrev pub movie_in_group :
    Str
    → Str
    → Option Bool
    → Option (Option Time)
    → Option GroupTitleItem
    → Exec (GroupTitle × WatchedChange)
movie_in_group group_id title_id watched watched_at none = raise title_not_in_group
movie_in_group group_id title_id watched watched_at (some title_db) =
    if not title_db.watched && dates_unwatched watched watched_at
    then raise updating_watched_at_when_watched_is_false
    else store_movie group_id title_id title_db watched watched_at

unfoldable pub update_group_title_watched_for_movie :
    Str → Title → Str → Option Bool → Option (Option Time) → Exec (GroupTitle × WatchedChange)
unfolding load_group dates_unwatched store_movie
update_group_title_watched_for_movie group_id title user_id watched watched_at = do
  group_db ← load_group group_id user_id
  movie_in_group group_id title.id watched watched_at (lookup title.id group_db.titles)

unfoldable pub store_season :
    Str
    → Str
    → WatchedState
    → Option Bool
    → Option (Option Time)
    → ℤ
    → Str
    → Exec (GroupTitle × WatchedChange)
unfolding cleared_date missing_title map_db_group_title_to_api_group_title season_watched_state
store_season group_id title_id previous watched watched_at season user_id = do
  item ← map_err missing_title (
      Store.update_group_title_watched_for_tv_series group_id title_id watched
        (cleared_date watched watched_at) season user_id)
  pure (
    map_db_group_title_to_api_group_title item,
    record {
      current = season_watched_state item.seasons_watched (itoa season);
      previous = previous;
    },
  )

-- The season's item, where it has one.
unfoldable pub season_item : Str → Option SeasonsWatched → Option SeasonWatchedItem
season_item season none = none
season_item season (some seasons) = lookup season seasons

-- A season that has no item is not refused.
unfoldable pub refuses_date : Option Bool → Option (Option Time) → Option SeasonWatchedItem → Bool
unfolding dates_unwatched
refuses_date watched watched_at none = false
refuses_date watched watched_at (some existing) =
    not existing.watched && dates_unwatched watched watched_at

abbrev pub season_in_group :
    Str
    → Str
    → Option Bool
    → Option (Option Time)
    → ℤ
    → Str
    → Option GroupTitleItem
    → Exec (GroupTitle × WatchedChange)
season_in_group group_id title_id watched watched_at season user_id none = raise title_not_in_group
season_in_group group_id title_id watched watched_at season user_id (some title_db) =
    if refuses_date watched watched_at (season_item (itoa season) title_db.seasons_watched)
    then raise updating_watched_at_when_watched_is_false
    else store_season group_id title_id
        (season_watched_state title_db.seasons_watched (itoa season)) watched watched_at season
        user_id

unfoldable pub update_group_title_watched_for_tv_series :
    Str → Title → Str → Option Bool → Option (Option Time) → ℤ → Exec (GroupTitle × WatchedChange)
unfolding load_group refuses_date season_item season_watched_state store_season
update_group_title_watched_for_tv_series group_id title user_id watched watched_at season =
    if ltb_ℤ season (pos 1)
    then raise group_invalid_season
    else if not (is_series title)
    then raise group_season_does_not_exist
    else if not (has_season (itoa season) title)
    then raise group_season_does_not_exist
    else (do
      group_db ← load_group group_id user_id
      season_in_group group_id title.id watched watched_at season user_id
          (lookup title.id group_db.titles))

unfoldable pub update_group_title_watched :
    Str
    → Title
    → Str
    → Option Bool
    → Option (Option Time)
    → Option ℤ
    → Exec (GroupTitle × WatchedChange)
unfolding update_group_title_watched_for_movie update_group_title_watched_for_tv_series
update_group_title_watched group_id title user_id watched watched_at none =
    update_group_title_watched_for_movie group_id title user_id watched watched_at
update_group_title_watched group_id title user_id watched watched_at (some season) =
    update_group_title_watched_for_tv_series group_id title user_id watched watched_at season
