-- ===== src/Services/Users.antt =====
-- internal/services/users: users.go, mapper.go, type.go, and the patterns of utils.go.
use aftercredits_backend.Base.{
  ℕ, Bool, true, false, not, ◌&&◌, ◌||◌, Option, none, some, List, [], ◌∷◌, map, Str, str_eq, codes,
  length, ltb, leb, ◌==◌, ◌≡◌, refl, if◌then◌else◌,
}
use aftercredits_backend.Base.Text.{trim_space}
use aftercredits_backend.Models.{
  Error, Time, User, record_not_found, duplicated_record, credentials_already_exists, invalid_email,
  invalid_username_size, invalid_username, invalid_password, user_not_found,
}
use aftercredits_backend.Database.Exec.{
  Result, Exec, pure, raise, map_err, now, new_string, ◌>>=◌, ◌>>◌,
}
use aftercredits_backend.Postgres.Users

pub record UserResponse : Type 0 where
  pub id : Str
  pub username : Str
  pub email : Str
  pub name : Str
  pub avatar_url : Option Str
  pub groups : List Str
  pub last_login_at : Option Time
  pub created_at : Time
  pub updated_at : Time

pub record NewUserRequest : Type 0 where
  pub username : Str
  pub name : Str
  pub email : Str
  pub password : Str

pub record UpdateUserRequest : Type 0 where
  pub username : Str
  pub name : Str
  pub email : Str

unfoldable pub map_db_user_to_api_user_response : User → UserResponse
map_db_user_to_api_user_response u = record {
  id = u.id;
  username = u.username;
  email = u.email;
  name = u.name;
  avatar_url = u.avatar_url;
  groups = u.groups;
  last_login_at = u.last_login_at;
  created_at = u.created_at;
  updated_at = u.updated_at;
}

abbrev pub is_letter : ℕ → Bool
is_letter c = leb b'a' c && leb c b'z' || leb b'A' c && leb c b'Z'

abbrev pub is_alphanumeric : ℕ → Bool
is_alphanumeric c = is_letter c || leb b'0' c && leb c b'9'

-- [a-zA-Z]{2,}
unfoldable pub is_top_level : Str → Bool
is_top_level s = leb 2 (length s) && all_letters s
  where
    all_letters : Str → Bool
    all_letters [] = true
    all_letters (c ∷ s) = is_letter c && all_letters s

-- [a-zA-Z0-9.\-]+\.[a-zA-Z]{2,}, where `seen` says that the first part is not empty
unfoldable pub is_domain : Bool → Str → Bool
unfolding is_top_level
is_domain seen [] = false
is_domain seen (c ∷ s) =
    seen && c == b'.' && is_top_level s
    || (is_alphanumeric c || c == b'.' || c == b'-') && is_domain true s

-- [a-zA-Z0-9._%+\-]+@ and a domain
unfoldable pub is_address : Bool → Str → Bool
unfolding is_domain
is_address seen [] = false
is_address seen (c ∷ s) =
    seen && c == b'@' && is_domain false s
    || (is_alphanumeric c || c == b'.' || c == b'_' || c == b'%' || c == b'+' || c == b'-')
      && is_address true s

unfoldable pub is_valid_email : Str → Bool
unfolding is_address
is_valid_email email = is_address false email

-- [a-zA-Z0-9_-]*
unfoldable pub is_name : Str → Bool
is_name [] = true
is_name (c ∷ s) = (is_alphanumeric c || c == b'_' || c == b'-') && is_name s

unfoldable pub is_valid_username : Str → Bool
unfolding is_name
is_valid_username username = not (str_eq username []) && is_name username

unfoldable pub missing_user : Error → Error
missing_user record_not_found = user_not_found
missing_user e = e

unfoldable pub taken_credentials : Error → Error
taken_credentials duplicated_record = credentials_already_exists
taken_credentials e = e

unfoldable pub get_all_users : Exec (List UserResponse)
unfolding map_db_user_to_api_user_response
get_all_users = do
  users_db ← Users.get_all_users
  pure (map map_db_user_to_api_user_response users_db)

unfoldable pub get_user_db_by_username_or_email : Str → Str → Exec User
unfolding missing_user
get_user_db_by_username_or_email username email =
    map_err missing_user (Users.get_user_by_username_or_email username email)

unfoldable pub get_user_by_id : Str → Exec UserResponse
unfolding map_db_user_to_api_user_response
get_user_by_id id = do
  user_db ← Users.get_user_by_id id
  pure (map_db_user_to_api_user_response user_db)

-- auth.HashPassword calls bcrypt, which is the argument.
abbrev pub HashPassword : Type 0
HashPassword = Str → Result Str

abbrev pub hashed : HashPassword → Str → Exec Str
hashed hash_password password w = (hash_password password, w)

unfoldable pub store_user : HashPassword → NewUserRequest → Exec UserResponse
unfolding map_db_user_to_api_user_response taken_credentials
store_user hash_password new_user = do
  password_hash ← hashed hash_password new_user.password
  at ← now
  id ← new_string
  let user_db : User = record {
    id = id;
    name = new_user.name;
    email = new_user.email;
    username = new_user.username;
    password_hash = password_hash;
    avatar_url = none;
    groups = [];
    role = codes "user";
    is_active = true;
    last_login_at = none;
    created_at = at;
    updated_at = at;
  }
  map_err taken_credentials (Users.add_user user_db)
  pure (map_db_user_to_api_user_response user_db)

-- The check of a user name that is not empty.
abbrev pub username_error : Str → Option Error
username_error username =
    if str_eq username []
    then none
    else if ltb (length username) 3
    then some invalid_username_size
    else if not (is_valid_username username)
    then some invalid_username
    else none

abbrev pub checked : {A : Type 0} → Option Error → Exec A → Exec A
checked none m = m
checked (some e) m = raise e

abbrev pub email_error : Str → Option Error
email_error email =
    if not (str_eq email []) && not (is_valid_email email) then some invalid_email else none

unfoldable pub add_user : HashPassword → NewUserRequest → Exec UserResponse
unfolding is_valid_email is_valid_username store_user
add_user hash_password new_user = checked (email_error new_user.email) (
    checked (username_error new_user.username) (
      if ltb (length new_user.password) 4
      then raise invalid_password
      else store_user hash_password new_user))

abbrev pub or_old : Str → Str → Str
or_old new old = if str_eq new [] then old else new

unfoldable pub store_info : Str → Str → Str → Str → User → Exec UserResponse
unfolding map_db_user_to_api_user_response taken_credentials
store_info user_id new_email new_username new_name user = do
  updated ← map_err taken_credentials (
      Users.update_user_info user_id (record user {
        email = or_old new_email user.email;
        username = or_old new_username user.username;
        name = or_old new_name user.name;
      }))
  pure (map_db_user_to_api_user_response updated)

unfoldable pub update_user_info : Str → UpdateUserRequest → Exec UserResponse
unfolding is_valid_email is_valid_username store_info
update_user_info user_id update = do
  let new_email : Str = trim_space update.email
  let new_username : Str = trim_space update.username
  let new_name : Str = trim_space update.name
  user ← Users.get_user_by_id user_id
  checked (email_error new_email) (
      checked (username_error new_username)
        (store_info user_id new_email new_username new_name user))

unfoldable pub delete_user_by_id : Str → Exec (Unit {0})
delete_user_by_id id = Users.delete_user_by_id id

unfoldable pub update_user_last_login_at : Str → Exec UserResponse
unfolding missing_user map_db_user_to_api_user_response
update_user_last_login_at user_id = do
  user_db ← map_err missing_user (Users.update_user_last_login_at user_id)
  pure (map_db_user_to_api_user_response user_db)

unfoldable pub update_user_group : Str → Str → Exec UserResponse
unfolding missing_user map_db_user_to_api_user_response
update_user_group user_id group_id = do
  user_db ← map_err missing_user (Users.update_user_group user_id group_id)
  pure (map_db_user_to_api_user_response user_db)

unfoldable pub user_exists : Str → Exec Bool
user_exists id = Users.user_exists id

valid_runs :
    (is_valid_email (codes "a.b@mail.co.uk") ≡ true)
    × (is_valid_email (codes "a@b@mail.com") ≡ false)
    × (is_valid_email (codes "a@.c") ≡ false)
    × (is_valid_username (codes "ann_1") ≡ true)
unfolding is_valid_email is_valid_username str_eq
valid_runs = (refl, refl, refl, refl)
