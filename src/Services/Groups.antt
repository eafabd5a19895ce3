-- ===== src/Services/Groups.antt =====
-- internal/services/groups: groups.go, mapper.go and types.go, but for the pages of titles.
pub mod Watched
pub mod Access
pub mod Owners
pub mod Turnover
pub mod Requests
use aftercredits_backend.Base.{
  ℕ, Bool, true, false, not, ◌&&◌, ◌||◌, Option, none, some, List, [], ◌∷◌, map, Str, str_eq, ℤ,
  pos, ltb_ℤ, is_some, if◌then◌else◌,
}
use aftercredits_backend.Base.Text.{itoa, trim_space}
use aftercredits_backend.Base.Assoc.{Map, lookup}
use aftercredits_backend.Models as M
use aftercredits_backend.Models.{
  Error, Time, Title, GroupTitleItem, GroupTitles, SeasonWatchedItem, SeasonsWatched,
  record_not_found, duplicated_record, group_not_found, group_duplicated_name, group_name_invalid,
  group_not_owned_by_user, owner_cannot_leave_group, title_not_in_group, title_already_in_group,
  updating_watched_at_when_watched_is_false, group_invalid_season, group_season_does_not_exist,
}
use aftercredits_backend.Database.Exec.{Result, ok, err, Exec, pure, raise, map_err, ◌>>=◌, ◌>>◌}
use aftercredits_backend.Postgres.Groups.Members as Store
use aftercredits_backend.Postgres.Users.{remove_group_from_user}
use aftercredits_backend.Services.Ratings.{is_series, has_season}
use aftercredits_backend.Services.Users.{
  UserResponse, map_db_user_to_api_user_response, update_user_group,
}

pub record SeasonWatched : Type 0 where
  pub watched : Bool
  pub watched_at : Option Time
  pub added_at : Time
  pub updated_at : Time

pub record GroupTitle : Type 0 where
  pub id : Str
  pub watched : Bool
  pub seasons_watched : Option (Map SeasonWatched)
  pub added_at : Time
  pub updated_at : Time
  pub watched_at : Option Time

pub record CreateGroupRequest : Type 0 where
  pub name : Str
  pub description : Str

pub record GroupResponse : Type 0 where
  pub id : Str
  pub name : Str
  pub description : Str
  pub owner_id : Str
  pub users : List Str
  pub titles : List GroupTitle
  pub created_at : Time
  pub updated_at : Time

pub record WatchedState : Type 0 where
  pub watched : Bool
  pub watched_at : Option Time

pub record WatchedChange : Type 0 where
  pub current : WatchedState
  pub previous : WatchedState

unfoldable pub convert_watched : SeasonsWatched → Map SeasonWatched
convert_watched [] = []
convert_watched ((k, s) ∷ m) =
    (
      k,
      record {
        watched = s.watched;
        watched_at = s.watched_at;
        added_at = s.added_at;
        updated_at = s.updated_at;
      },
    )
    ∷ convert_watched m

abbrev pub convert_seasons_watched : Option SeasonsWatched → Option (Map SeasonWatched)
convert_seasons_watched none = none
convert_seasons_watched (some m) = some (convert_watched m)

unfoldable pub map_db_group_title_to_api_group_title : GroupTitleItem → GroupTitle
unfolding convert_watched
map_db_group_title_to_api_group_title item = record {
  id = item.title_id;
  watched = item.watched;
  seasons_watched = convert_seasons_watched item.seasons_watched;
  added_at = item.added_at;
  updated_at = item.updated_at;
  watched_at = item.watched_at;
}

unfoldable pub convert_titles : GroupTitles → List GroupTitle
unfolding map_db_group_title_to_api_group_title
convert_titles [] = []
convert_titles ((k, item) ∷ m) = map_db_group_title_to_api_group_title item ∷ convert_titles m

unfoldable pub map_db_group_to_api_group_response : M.Group → GroupResponse
unfolding convert_titles
map_db_group_to_api_group_response g = record {
  id = g.id;
  name = g.name;
  description = g.description;
  owner_id = g.owner_id;
  users = g.users;
  titles = convert_titles g.titles;
  created_at = g.created_at;
  updated_at = g.updated_at;
}

unfoldable pub missing_group : Error → Error
missing_group record_not_found = group_not_found
missing_group e = e

unfoldable pub missing_title : Error → Error
missing_title record_not_found = title_not_in_group
missing_title e = e

unfoldable pub duplicated_name : Error → Error
duplicated_name duplicated_record = group_duplicated_name
duplicated_name e = e

-- The caller's group, before the store stamps it. Its times are the store's.
abbrev pub requested_group : CreateGroupRequest → Str → M.Group
requested_group req user_id = record {
  id = [];
  name = req.name;
  description = trim_space req.description;
  owner_id = user_id;
  users = user_id ∷ [];
  titles = [];
  created_at = 0;
  updated_at = 0;
  deleted = false;
  deleted_at = none;
}

unfoldable pub create_group : CreateGroupRequest → Str → Exec GroupResponse
unfolding duplicated_name map_db_group_to_api_group_response
create_group req user_id = if str_eq (trim_space req.name) [] then raise group_name_invalid else do
  new_group ← map_err duplicated_name (Store.create_group (requested_group req user_id))
  update_user_group user_id new_group.id
  pure (map_db_group_to_api_group_response new_group)

-- db.GetGroupById, with the error that every operation makes of a missing group
unfoldable pub load_group : Str → Str → Exec M.Group
unfolding missing_group
load_group group_id user_id = map_err missing_group (Store.get_group_by_id group_id user_id)

unfoldable pub get_group_by_id : Str → Str → Exec GroupResponse
unfolding load_group map_db_group_to_api_group_response
get_group_by_id group_id user_id = do
  group_db ← load_group group_id user_id
  pure (map_db_group_to_api_group_response group_db)

-- Only the owner goes on.
abbrev pub owned : {A : Type 0} → M.Group → Str → Exec A → Exec A
owned group owner_id m =
    if not (str_eq group.owner_id owner_id) then raise group_not_owned_by_user else m

abbrev pub with_info : Str → Str → M.Group → M.Group
with_info name description group = record group { name = name; description = description }

unfoldable pub update_group_info : Str → Str → Str → Str → Exec GroupResponse
unfolding load_group duplicated_name map_db_group_to_api_group_response
update_group_info group_id owner_id name description =
    if str_eq (trim_space name) [] then raise group_name_invalid else do
      group ← load_group group_id owner_id
      owned group owner_id (do
        map_err duplicated_name
            (Store.update_group_info group_id (trim_space name) (trim_space description))
        pure (
            map_db_group_to_api_group_response
              (with_info (trim_space name) (trim_space description) group)))

unfoldable pub add_user_to_group : Str → Str → Str → Exec (Unit {0})
unfolding load_group
add_user_to_group group_id owner_id user_id = do
  group ← load_group group_id owner_id
  owned group owner_id (do
    Store.add_user_to_group group_id owner_id user_id
    update_user_group user_id group_id
    pure tt)

unfoldable pub get_users_from_group : Str → Str → Exec (List UserResponse)
unfolding missing_group
get_users_from_group group_id user_id = do
  users ← map_err missing_group (Store.get_users_from_group group_id user_id)
  pure (map map_db_user_to_api_user_response users)

unfoldable pub add_title_to_group : Str → Str → Str → Exec (Unit {0})
unfolding load_group
add_title_to_group group_id title_id user_id = do
  group ← load_group group_id user_id
  if is_some (lookup title_id group.titles)
      then raise title_already_in_group
      else (Store.add_new_group_title group_id title_id)

unfoldable pub remove_title_from_group : Str → Str → Str → Exec (Unit {0})
unfolding load_group missing_title
remove_title_from_group group_id title_id user_id = do
  group ← load_group group_id user_id
  if not (is_some (lookup title_id group.titles))
      then raise title_not_in_group
      else (map_err missing_title (Store.remove_title_from_group group_id title_id user_id))

unfoldable pub remove_group_from_users : Str → List Str → Exec (Unit {0})
remove_group_from_users group_id [] = pure tt
remove_group_from_users group_id (member_id ∷ users) = do
  remove_group_from_user member_id group_id
  remove_group_from_users group_id users

unfoldable pub soft_delete_group : Str → Str → Exec (Unit {0})
unfolding load_group missing_group remove_group_from_users
soft_delete_group group_id owner_id = do
  group ← load_group group_id owner_id
  owned group owner_id (do
    map_err missing_group (Store.soft_delete_group group_id)
    remove_group_from_users group_id group.users)

unfoldable pub leave_group : Str → Str → Exec (Unit {0})
unfolding load_group
leave_group group_id user_id = do
  group ← load_group group_id user_id
  if str_eq group.owner_id user_id
      then raise owner_cannot_leave_group
      else do Store.remove_user_from_group group_id user_id; remove_group_from_user user_id group_id

unfoldable pub group_exists : Str → Str → Exec Bool
group_exists group_id user_id = Store.group_exists group_id user_id

unfoldable pub group_contains_title : Str → Str → Str → Exec Bool
group_contains_title group_id title_id user_id =
    Store.group_contains_title group_id title_id user_id
