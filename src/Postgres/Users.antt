-- ===== src/Postgres/Users.antt =====
-- internal/postgres/users.go and its mapper.
use aftercredits_backend.Base.{Bool, List, [], ◌∷◌, Str}
use aftercredits_backend.Models.{User, Error, unique_violation, duplicated_record}
use aftercredits_backend.Database.Exec.{UserRow, Exec, pure, map_err, now, ◌>>=◌, ◌>>◌}
use aftercredits_backend.Database.Users
use aftercredits_backend.Postgres.Titles.{not_found, duplicated}

unfoldable pub user_row_to_model : UserRow → List Str → User
user_row_to_model u groups = record {
  id = u.id;
  name = u.name;
  email = u.email;
  username = u.username;
  password_hash = u.password_hash;
  avatar_url = u.avatar_url;
  groups = groups;
  role = u.role;
  is_active = u.is_active;
  last_login_at = u.last_login_at;
  created_at = u.created_at;
  updated_at = u.updated_at;
}

unfoldable pub load_user : UserRow → Exec User
unfolding user_row_to_model
load_user row = do groups ← Users.get_user_group_ids row.id; pure (user_row_to_model row groups)

unfoldable pub get_user_by_id : Str → Exec User
unfolding load_user
get_user_by_id id = do row ← map_err not_found (Users.get_user_by_id id); load_user row

unfoldable pub get_user_by_username_or_email : Str → Str → Exec User
unfolding load_user
get_user_by_username_or_email username email = do
  row ← map_err not_found (Users.get_user_by_username_or_email username email)
  load_user row

unfoldable pub load_each : List UserRow → Exec (List User)
unfolding load_user
load_each [] = pure []
load_each (row ∷ rows) = do user ← load_user row; users ← load_each rows; pure (user ∷ users)

unfoldable pub get_all_users : Exec (List User)
unfolding load_each
get_all_users = do rows ← Users.get_all_users; load_each rows

unfoldable pub user_exists : Str → Exec Bool
user_exists id = Users.user_exists id

unfoldable pub add_user : User → Exec (Unit {0})
add_user user = map_err duplicated (
    Users.create_user (record {
      id = user.id;
      name = user.name;
      email = user.email;
      username = user.username;
      password_hash = user.password_hash;
      avatar_url = user.avatar_url;
      role = user.role;
      is_active = user.is_active;
      last_login_at = user.last_login_at;
      created_at = user.created_at;
      updated_at = user.updated_at;
    }))

unfoldable pub delete_user_by_id : Str → Exec (Unit {0})
delete_user_by_id id = Users.delete_user_by_id id

unfoldable pub info_failed : Error → Error
info_failed unique_violation = duplicated_record
info_failed e = not_found e

unfoldable pub update_user_info : Str → User → Exec User
unfolding info_failed load_user
update_user_info id user = do
  db_now ← now
  row ← map_err info_failed (Users.update_user_info id user.name user.email user.username db_now)
  load_user row

unfoldable pub update_user_last_login_at : Str → Exec User
unfolding load_user
update_user_last_login_at user_id = do
  db_now ← now
  row ← map_err not_found (Users.update_user_last_login_at user_id db_now)
  load_user row

unfoldable pub update_user_group : Str → Str → Exec User
unfolding get_user_by_id
update_user_group user_id group_id = do
  Users.add_group_member group_id user_id
  get_user_by_id user_id

unfoldable pub remove_group_from_user : Str → Str → Exec (Unit {0})
remove_group_from_user user_id group_id = Users.remove_group_member group_id user_id
