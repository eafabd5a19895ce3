-- ===== src/Postgres/Groups.antt =====
-- internal/postgres/groups.go: the two updates of a title's watched state, and their mappers.
pub mod Recompute
pub mod Members
use aftercredits_backend.Base.{
  ℕ, Bool, true, false, Option, none, some, List, [], ◌∷◌, Str, ltb, if◌then◌else◌, ℤ,
}
use aftercredits_backend.Base.Text.{itoa}
use aftercredits_backend.Base.Assoc.{insert}
use aftercredits_backend.Models.{
  is_record_not_found, Error, Time, GroupTitleItem, SeasonWatchedItem, SeasonsWatched,
  no_fields_to_update,
}
use aftercredits_backend.Database.Exec.{
  GroupTitleRow, GroupTitleSeasonRow, Result, ok, err, Exec, pure, raise, in_tx, attempt, map_err,
  now, ◌>>=◌, ◌>>◌,
}
use aftercredits_backend.Database.Groups
use aftercredits_backend.Postgres.Titles.{not_found}

unfoldable pub group_title_season_row_to_item : GroupTitleSeasonRow → SeasonWatchedItem
group_title_season_row_to_item s = record {
  watched = s.watched;
  watched_at = s.watched_at;
  added_at = s.added_at;
  updated_at = s.updated_at;
}

unfoldable pub collect_watched : SeasonsWatched → List GroupTitleSeasonRow → SeasonsWatched
unfolding group_title_season_row_to_item
collect_watched out [] = out
collect_watched out (s ∷ rows) =
    collect_watched (insert s.season (group_title_season_row_to_item s) out) rows

unfoldable pub assemble_seasons_watched : List GroupTitleSeasonRow → Option SeasonsWatched
unfolding collect_watched
assemble_seasons_watched [] = none
assemble_seasons_watched (s ∷ rows) = some (collect_watched [] (s ∷ rows))

unfoldable pub group_title_row_to_model : GroupTitleRow → Option SeasonsWatched → GroupTitleItem
group_title_row_to_model r seasons = record {
  title_id = r.title_id;
  seasons_watched = seasons;
  watched = r.watched;
  added_at = r.added_at;
  updated_at = r.updated_at;
  watched_at = r.watched_at;
}

-- `if p != nil { x = *p }`
abbrev pub or_keep : {A : Type 0} → A → Option A → A
or_keep old none = old
or_keep old (some new) = new

-- A generics.FlexibleDate is an optional time.
unfoldable pub update_movie_tx :
    Str → Str → Option Bool → Option (Option Time) → Exec GroupTitleItem
update_movie_tx group_id title_id watched watched_at = do
  current ← map_err not_found (Groups.get_group_title_row group_id title_id)
  at ← now
  row ← map_err not_found (
      Groups.update_group_title_watched_row group_id title_id (or_keep current.watched watched)
        (or_keep current.watched_at watched_at) at)
  db_now ← now
  Groups.touch_group group_id db_now
  season_rows ← Groups.get_group_title_season_rows_for_title group_id title_id
  pure (group_title_row_to_model row (assemble_seasons_watched season_rows))

abbrev pub update_movie : Str → Str → Option Bool → Option (Option Time) → Exec GroupTitleItem
update_movie group_id title_id none none = raise no_fields_to_update
update_movie group_id title_id watched watched_at =
    in_tx (update_movie_tx group_id title_id watched watched_at)

unfoldable pub update_group_title_watched_for_movie :
    Str → Str → Option Bool → Option (Option Time) → Exec GroupTitleItem
unfolding update_movie_tx
update_group_title_watched_for_movie group_id title_id watched watched_at =
    update_movie group_id title_id watched watched_at

abbrev pub later : Option Time → Option Time → Option Time
later top none = top
later none (some w) = some w
later (some top) (some w) = if ltb top w then some w else some top

-- The loop over the seasons, with topWatched and topWatchedAt.
unfoldable pub recompute : Bool → Option Time → List GroupTitleSeasonRow → Bool × Option Time
recompute top top_at [] = (top, top_at)
recompute top top_at (s ∷ rows) =
    if s.watched then recompute true (later top_at s.watched_at) rows else recompute top top_at rows

-- The season's row before the update, or its first one.
unfoldable pub stored_season :
    Str → Str → Str → Time → Result GroupTitleSeasonRow → Exec GroupTitleSeasonRow
stored_season group_id title_id season at (ok existing) = pure existing
stored_season group_id title_id season at (err e) =
    if is_record_not_found (not_found e)
    then pure (record {
      group_id = group_id;
      title_id = title_id;
      season = season;
      watched = false;
      watched_at = none;
      added_at = at;
      updated_at = at;
    })
    else raise e

unfoldable pub recompute_title : Str → Str → Time → Exec GroupTitleItem
unfolding recompute
recompute_title group_id title_id at = do
  season_rows ← Groups.get_group_title_season_rows_for_title group_id title_id
  row ← map_err not_found (
      Groups.update_group_title_watched_row group_id title_id (recompute false none season_rows).0
        (recompute false none season_rows).1 at)
  db_now ← now
  Groups.touch_group group_id db_now
  pure (group_title_row_to_model row (assemble_seasons_watched season_rows))

unfoldable pub update_season_tx :
    Str → Str → Option Bool → Option (Option Time) → Str → Str → Exec GroupTitleItem
unfolding stored_season recompute_title
update_season_tx group_id title_id watched watched_at season user_id = do
  map_err not_found (Groups.get_group_row group_id user_id)
  map_err not_found (Groups.get_group_title_row group_id title_id)
  at ← now
  found ← attempt (Groups.get_group_title_season_row group_id title_id season)
  stored ← stored_season group_id title_id season at found
  Groups.upsert_group_title_season (record {
    group_id = group_id;
    title_id = title_id;
    season = season;
    watched = or_keep stored.watched watched;
    watched_at = or_keep stored.watched_at watched_at;
    added_at = stored.added_at;
    updated_at = at;
  })
  recompute_title group_id title_id at

unfoldable pub update_group_title_watched_for_tv_series :
    Str → Str → Option Bool → Option (Option Time) → ℤ → Str → Exec GroupTitleItem
unfolding update_season_tx
update_group_title_watched_for_tv_series group_id title_id watched watched_at season user_id =
    in_tx (update_season_tx group_id title_id watched watched_at (itoa season) user_id)
