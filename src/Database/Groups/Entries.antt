-- ===== src/Database/Groups/Entries.antt =====
-- internal/database/groups.sql.go: the queries on the titles that a group holds.
use aftercredits_backend.Base.{
  Bool, not, ◌&&◌, List, [], ◌∷◌, ◌++◌, Str, str_eq, any, filter, update_where, if◌then◌else◌,
}
use aftercredits_backend.Models.{foreign_key_violation}
use aftercredits_backend.Database.Exec.{
  GroupTitleRow, GroupTitleSeasonRow, Tables, Result, ok, err, Exec, select, statement,
}
use aftercredits_backend.Database.Ratings.{has_group}
use aftercredits_backend.Database.Users.{member}
use aftercredits_backend.Database.Groups.{title_of, season_of_title}
use aftercredits_backend.Database.Groups.Members.{open_group}

unfoldable pub group_contains_title : Str → Str → Str → Exec Bool
unfolding member title_of
group_contains_title id title_id user_id = select λ t. ok (
    any (open_group id) t.groups
    && any (member id user_id) t.group_members
    && any (title_of id title_id) t.group_titles)

-- The rows go into a map, so ORDER BY title_id is left out.
unfoldable pub get_group_title_rows : Str → Exec (List GroupTitleRow)
get_group_title_rows id = select λ t. ok (filter (λ r. str_eq r.group_id id) t.group_titles)

unfoldable pub get_group_title_season_rows : Str → Exec (List GroupTitleSeasonRow)
get_group_title_season_rows id =
    select λ t. ok (filter (λ s. str_eq s.group_id id) t.group_title_seasons)

-- ON CONFLICT overwrites all but the key.
unfoldable pub title_upserted : GroupTitleRow → Tables → Result (Unit {0} × Tables)
unfolding title_of
title_upserted row t =
    if any (title_of row.group_id row.title_id) t.group_titles
    then ok (
      tt,
      record t {
        group_titles =
            update_where (title_of row.group_id row.title_id)
              (λ r. record r {
                watched = row.watched;
                watched_at = row.watched_at;
                added_at = row.added_at;
                updated_at = row.updated_at;
              })
              t.group_titles;
      },
    )
    else if has_group row.group_id t
    then ok (tt, record t { group_titles = t.group_titles ++ row ∷ [] })
    else err foreign_key_violation

unfoldable pub upsert_group_title : GroupTitleRow → Exec (Unit {0})
unfolding title_upserted
upsert_group_title row = statement λ t. title_upserted row t

-- The seasons of the title go with it. The count of rows is not used.
unfoldable pub delete_group_title : Str → Str → Exec (Unit {0})
unfolding title_of season_of_title
delete_group_title id title_id = statement λ t. ok (
  tt,
  record t {
    group_titles = filter (λ r. not (title_of id title_id r)) t.group_titles;
    group_title_seasons = filter (λ s. not (season_of_title id title_id s)) t.group_title_seasons;
  },
)
