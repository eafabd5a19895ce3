-- ===== src/Postgres/Groups/Members.antt =====
-- internal/postgres/groups.go: groups, their members, and the titles that they hold.
use aftercredits_backend.Base.{
  ℕ, Bool, false, not, none, List, [], ◌∷◌, Str, str_eq, filter, ◌==◌, if◌then◌else◌,
}
use aftercredits_backend.Base.Assoc.{insert}
use aftercredits_backend.Models.{Group, GroupTitles, User, record_not_found}
use aftercredits_backend.Database.Exec.{
  GroupRow, GroupTitleRow, GroupTitleSeasonRow, Exec, pure, raise, in_tx, map_err, now, new_string,
  ◌>>=◌, ◌>>◌,
}
use aftercredits_backend.Database.Users.{add_group_member, remove_group_member}
use aftercredits_backend.Database.Groups
use aftercredits_backend.Database.Groups.Members
use aftercredits_backend.Database.Groups.Entries
use aftercredits_backend.Postgres.Titles.{not_found, duplicated}
use aftercredits_backend.Postgres.Users.{load_each}
use aftercredits_backend.Postgres.Groups.{group_title_row_to_model, assemble_seasons_watched}

unfoldable pub group_row_to_model : GroupRow → List Str → GroupTitles → Group
group_row_to_model g users titles = record {
  id = g.id;
  name = g.name;
  description = g.description;
  owner_id = g.owner_id;
  users = users;
  titles = titles;
  created_at = g.created_at;
  updated_at = g.updated_at;
  deleted = g.deleted;
  deleted_at = g.deleted_at;
}

-- seasonsByTitle[id] is the rows of that title, in order.
unfoldable pub collect_titles :
    List GroupTitleSeasonRow → GroupTitles → List GroupTitleRow → GroupTitles
collect_titles seasons titles [] = titles
collect_titles seasons titles (r ∷ rows) =
    collect_titles seasons
      (insert r.title_id
        (group_title_row_to_model r
          (assemble_seasons_watched (filter (λ s. str_eq s.title_id r.title_id) seasons)))
        titles)
      rows

unfoldable pub assemble_group_titles : Str → Exec GroupTitles
unfolding collect_titles
assemble_group_titles group_id = do
  title_rows ← Entries.get_group_title_rows group_id
  season_rows ← Entries.get_group_title_season_rows group_id
  pure (collect_titles season_rows [] title_rows)

unfoldable pub add_members : Str → List Str → Exec (Unit {0})
add_members id [] = pure tt
add_members id (user_id ∷ users) = do add_group_member id user_id; add_members id users

unfoldable pub create_group_tx : Group → Exec Group
unfolding add_members group_row_to_model
create_group_tx group = do
  id ← new_string
  at ← now
  row ←
      map_err duplicated (Members.insert_group id group.name group.description group.owner_id at at)
  add_members id group.users
  pure (group_row_to_model row group.users group.titles)

unfoldable pub create_group : Group → Exec Group
unfolding create_group_tx
create_group group = in_tx (create_group_tx group)

unfoldable pub group_exists : Str → Str → Exec Bool
group_exists group_id user_id = Members.group_exists group_id user_id

unfoldable pub group_contains_title : Str → Str → Str → Exec Bool
group_contains_title group_id title_id user_id =
    Entries.group_contains_title group_id title_id user_id

unfoldable pub get_group_by_id : Str → Str → Exec Group
unfolding assemble_group_titles group_row_to_model
get_group_by_id group_id user_id = do
  row ← map_err not_found (Groups.get_group_row group_id user_id)
  users ← Members.get_group_member_ids group_id
  titles ← assemble_group_titles group_id
  pure (group_row_to_model row users titles)

abbrev pub touch : Str → Exec (Unit {0})
touch group_id = do db_now ← now; Groups.touch_group group_id db_now

unfoldable pub add_user_tx : Str → Str → Str → Exec (Unit {0})
add_user_tx group_id owner_id user_to_add_id = do
  has_member ← Members.group_has_member group_id owner_id
  if not has_member
      then raise record_not_found
      else do add_group_member group_id user_to_add_id; touch group_id

unfoldable pub add_user_to_group : Str → Str → Str → Exec (Unit {0})
unfolding add_user_tx
add_user_to_group group_id owner_id user_to_add_id =
    in_tx (add_user_tx group_id owner_id user_to_add_id)

unfoldable pub get_users_from_group : Str → Str → Exec (List User)
get_users_from_group group_id user_id = do
  map_err not_found (Groups.get_group_row group_id user_id)
  rows ← Members.get_group_member_users group_id
  load_each rows

unfoldable pub add_title_tx : Str → Str → Exec (Unit {0})
add_title_tx group_id title_id = do
  at ← now
  Entries.upsert_group_title (record {
    group_id = group_id;
    title_id = title_id;
    watched = false;
    watched_at = none;
    added_at = at;
    updated_at = at;
  })
  touch group_id

unfoldable pub add_new_group_title : Str → Str → Exec (Unit {0})
unfolding add_title_tx
add_new_group_title group_id title_id = in_tx (add_title_tx group_id title_id)

-- `if n == 0 { return store.ErrRecordNotFound }`
abbrev pub found_rows : ℕ → Exec (Unit {0})
found_rows n = if n == 0 then raise record_not_found else pure tt

unfoldable pub update_group_info : Str → Str → Str → Exec (Unit {0})
update_group_info group_id name description = do
  db_now ← now
  n ← map_err duplicated (Members.update_group_info_row group_id name description db_now)
  found_rows n

unfoldable pub soft_delete_group : Str → Exec (Unit {0})
soft_delete_group group_id = do
  db_now ← now
  n ← Members.soft_delete_group_row group_id db_now
  found_rows n

unfoldable pub remove_user_tx : Str → Str → Exec (Unit {0})
remove_user_tx group_id user_id = do
  exists ← Members.group_exists_not_deleted group_id
  if not exists
      then raise record_not_found
      else do remove_group_member group_id user_id; touch group_id

unfoldable pub remove_user_from_group : Str → Str → Exec (Unit {0})
unfolding remove_user_tx
remove_user_from_group group_id user_id = in_tx (remove_user_tx group_id user_id)

unfoldable pub remove_title_tx : Str → Str → Str → Exec (Unit {0})
remove_title_tx group_id title_id user_id = do
  has_member ← Members.group_has_member group_id user_id
  if not has_member
      then raise record_not_found
      else do Entries.delete_group_title group_id title_id; touch group_id

unfoldable pub remove_title_from_group : Str → Str → Str → Exec (Unit {0})
unfolding remove_title_tx
remove_title_from_group group_id title_id user_id =
    in_tx (remove_title_tx group_id title_id user_id)
