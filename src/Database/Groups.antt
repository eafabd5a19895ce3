-- ===== src/Database/Groups.antt =====
-- internal/database/groups.sql.go: the queries that the watched state of a group's titles needs.
pub mod Members
pub mod Entries
pub mod Owners
pub mod Spared
pub mod Turnover
use aftercredits_backend.Base.{
  Bool, not, ◌&&◌, Option, none, some, List, [], ◌∷◌, ◌++◌, Str, str_eq, any, find, filter,
  update_where, if◌then◌else◌,
}
use aftercredits_backend.Models.{Time, no_rows, foreign_key_violation}
use aftercredits_backend.Database.Exec.{
  GroupRow, GroupTitleRow, GroupTitleSeasonRow, Tables, Result, ok, err, Exec, select, statement,
  or_raise,
}

-- A group that is not deleted and has the user as a member.
unfoldable pub get_group_row : Str → Str → Exec GroupRow
get_group_row id user_id = select λ t. or_raise no_rows (
    find
      (λ g.
        str_eq g.id id
        && not g.deleted
        && any (λ m. str_eq m.group_id id && str_eq m.user_id user_id) t.group_members)
      t.groups)

unfoldable pub title_of : Str → Str → GroupTitleRow → Bool
title_of group_id title_id r = str_eq r.group_id group_id && str_eq r.title_id title_id

unfoldable pub get_group_title_row : Str → Str → Exec GroupTitleRow
get_group_title_row group_id title_id =
    select λ t. or_raise no_rows (find (title_of group_id title_id) t.group_titles)

unfoldable pub season_of_title : Str → Str → GroupTitleSeasonRow → Bool
season_of_title group_id title_id s = str_eq s.group_id group_id && str_eq s.title_id title_id

unfoldable pub this_season : Str → Str → Str → GroupTitleSeasonRow → Bool
this_season group_id title_id season s =
    str_eq s.group_id group_id && str_eq s.title_id title_id && str_eq s.season season

unfoldable pub get_group_title_season_row : Str → Str → Str → Exec GroupTitleSeasonRow
get_group_title_season_row group_id title_id season =
    select λ t. or_raise no_rows (find (this_season group_id title_id season) t.group_title_seasons)

-- The rows go into a map, so ORDER BY season is left out.
unfoldable pub get_group_title_season_rows_for_title : Str → Str → Exec (List GroupTitleSeasonRow)
get_group_title_season_rows_for_title group_id title_id =
    select λ t. ok (filter (season_of_title group_id title_id) t.group_title_seasons)

-- ON CONFLICT keeps added_at. A new row needs the title in the group.
unfoldable pub upserted : GroupTitleSeasonRow → Tables → Result (Unit {0} × Tables)
upserted row t =
    if any (this_season row.group_id row.title_id row.season) t.group_title_seasons
    then ok (
      tt,
      record t {
        group_title_seasons =
            update_where (this_season row.group_id row.title_id row.season)
              (λ s. record s {
                watched = row.watched;
                watched_at = row.watched_at;
                updated_at = row.updated_at;
              })
              t.group_title_seasons;
      },
    )
    else if any (title_of row.group_id row.title_id) t.group_titles
    then ok (tt, record t { group_title_seasons = t.group_title_seasons ++ row ∷ [] })
    else err foreign_key_violation

unfoldable pub upsert_group_title_season : GroupTitleSeasonRow → Exec (Unit {0})
unfolding upserted
upsert_group_title_season row = statement λ t. upserted row t

abbrev pub mark : Bool → Option Time → Time → GroupTitleRow → GroupTitleRow
mark watched watched_at at r = record r {
  watched = watched;
  watched_at = watched_at;
  updated_at = at;
}

abbrev pub marked :
    Str
    → Str
    → Bool
    → Option Time
    → Time
    → Tables
    → Option GroupTitleRow
    → Result (GroupTitleRow × Tables)
marked group_id title_id watched watched_at at t none = err no_rows
marked group_id title_id watched watched_at at t (some r) = ok (
  mark watched watched_at at r,
  record t {
    group_titles =
        update_where (title_of group_id title_id) (mark watched watched_at at) t.group_titles;
  },
)

-- Returns the row that the primary key names.
unfoldable pub update_group_title_watched_row :
    Str → Str → Bool → Option Time → Time → Exec GroupTitleRow
update_group_title_watched_row group_id title_id watched watched_at at = statement λ t.
    marked group_id title_id watched watched_at at t
      (find (title_of group_id title_id) t.group_titles)

-- The database's now() is the argument.
unfoldable pub touch_group : Str → Time → Exec (Unit {0})
touch_group id at = statement λ t. ok (
  tt,
  record t {
    groups = update_where (λ g. str_eq g.id id) (λ g. record g { updated_at = at }) t.groups;
  },
)
