-- ===== src/Database/Users.antt =====
-- internal/database/users.sql.go
use aftercredits_backend.Base.{
  Bool, not, ◌&&◌, ◌||◌, Option, none, some, List, [], ◌∷◌, ◌++◌, map, Str, str_eq, any, find,
  filter, update_where, if◌then◌else◌,
}
use aftercredits_backend.Base.Sorting.{sort}
use aftercredits_backend.Models.{Time, no_rows, unique_violation, foreign_key_violation}
use aftercredits_backend.Database.Exec.{
  MemberRow, UserRow, Tables, Result, ok, err, Exec, select, statement, or_raise, collation, ◌>>=◌,
}
use aftercredits_backend.Database.Ratings.{has_group}

unfoldable pub member : Str → Str → MemberRow → Bool
member group_id user_id m = str_eq m.group_id group_id && str_eq m.user_id user_id

-- ON CONFLICT DO NOTHING
unfoldable pub with_member : Str → Str → List MemberRow → List MemberRow
unfolding member
with_member group_id user_id ms =
    if any (member group_id user_id) ms
    then ms
    else ms ++ record { group_id = group_id; user_id = user_id } ∷ []

-- group_members.group_id references groups; user_id references nothing.
unfoldable pub joined : Str → Str → Tables → Result (Unit {0} × Tables)
unfolding with_member
joined group_id user_id t =
    if any (member group_id user_id) t.group_members || has_group group_id t
    then ok (tt, record t { group_members = with_member group_id user_id t.group_members })
    else err foreign_key_violation

unfoldable pub add_group_member : Str → Str → Exec (Unit {0})
unfolding joined
add_group_member group_id user_id = statement λ t. joined group_id user_id t

unfoldable pub remove_group_member : Str → Str → Exec (Unit {0})
unfolding member
remove_group_member group_id user_id = statement λ t.
    ok (
      tt,
      record t { group_members = filter (λ m. not (member group_id user_id m)) t.group_members },
    )

-- users_username_unique and users_email_unique, which leave out the empty text
abbrev pub clashes : Str → Str → UserRow → Bool
clashes username email u =
    not (str_eq username []) && str_eq u.username username
    || not (str_eq email []) && str_eq u.email email

unfoldable pub created : UserRow → Tables → Result (Unit {0} × Tables)
created row t =
    if any (λ u. str_eq u.id row.id || clashes row.username row.email u) t.users
    then err unique_violation
    else ok (tt, record t { users = t.users ++ row ∷ [] })

unfoldable pub create_user : UserRow → Exec (Unit {0})
unfolding created
create_user row = statement λ t. created row t

-- The read rows and the floor of the user go with it.
unfoldable pub delete_user_by_id : Str → Exec (Unit {0})
delete_user_by_id id = statement λ t. ok (
  tt,
  record t {
    users = filter (λ u. not (str_eq u.id id)) t.users;
    activity_event_reads = filter (λ r. not (str_eq r.user_id id)) t.activity_event_reads;
    activity_read_floors = filter (λ f. not (str_eq f.user_id id)) t.activity_read_floors;
  },
)

unfoldable pub get_all_users : Exec (List UserRow)
get_all_users = do lt ← collation; select λ t. ok (sort (λ u v. lt u.id v.id) t.users)

unfoldable pub get_user_by_id : Str → Exec UserRow
get_user_by_id id = select λ t. or_raise no_rows (find (λ u. str_eq u.id id) t.users)

unfoldable pub get_user_by_username_or_email : Str → Str → Exec UserRow
get_user_by_username_or_email username email = select λ t. or_raise no_rows (
    find
      (λ u.
        (str_eq u.username username || str_eq username [])
        && (str_eq u.email email || str_eq email []))
      t.users)

-- The groups that are not deleted and have the user as a member. The join is on the key of
-- groups, so a membership gives at most one.
unfoldable pub group_ids_of : Str → Tables → List Str
group_ids_of user_id t =
    map (λ m. m.group_id)
      (filter
        (λ m.
          str_eq m.user_id user_id && any (λ g. str_eq g.id m.group_id && not g.deleted) t.groups)
        t.group_members)

unfoldable pub get_user_group_ids : Str → Exec (List Str)
unfolding group_ids_of
get_user_group_ids user_id = select λ t. ok (group_ids_of user_id t)

abbrev pub with_info : Str → Str → Str → Time → UserRow → UserRow
with_info name email username at u = record u {
  name = name;
  email = email;
  username = username;
  updated_at = at;
}

abbrev pub updated_info :
    Str → Str → Str → Str → Time → Tables → Option UserRow → Result (UserRow × Tables)
updated_info id name email username at t none = err no_rows
updated_info id name email username at t (some u) =
    if any (λ v. not (str_eq v.id id) && clashes username email v) t.users
    then err unique_violation
    else ok (
      with_info name email username at u,
      record t {
        users = update_where (λ v. str_eq v.id id) (with_info name email username at) t.users;
      },
    )

-- The database's now() is the argument.
unfoldable pub update_user_info : Str → Str → Str → Str → Time → Exec UserRow
update_user_info id name email username at =
    statement λ t. updated_info id name email username at t (find (λ u. str_eq u.id id) t.users)

abbrev pub with_login : Time → UserRow → UserRow
with_login at u = record u { last_login_at = some at }

abbrev pub logged_in : Str → Time → Tables → Option UserRow → Result (UserRow × Tables)
logged_in id at t none = err no_rows
logged_in id at t (some u) = ok (
  with_login at u,
  record t { users = update_where (λ v. str_eq v.id id) (with_login at) t.users },
)

unfoldable pub update_user_last_login_at : Str → Time → Exec UserRow
update_user_last_login_at id at =
    statement λ t. logged_in id at t (find (λ u. str_eq u.id id) t.users)

unfoldable pub user_exists : Str → Exec Bool
user_exists id = select λ t. ok (any (λ u. str_eq u.id id) t.users)
