-- ===== src/Database/Groups/Members.antt =====
-- internal/database/groups.sql.go: the queries on groups and their members.
use aftercredits_backend.Base.{
  ℕ, Bool, true, false, not, ◌&&◌, ◌||◌, Option, none, some, List, [], ◌∷◌, ◌++◌, map, Str, str_eq,
  any, find, filter, update_where, length, if◌then◌else◌,
}
use aftercredits_backend.Base.Sorting.{sort}
use aftercredits_backend.Models.{Time, unique_violation}
use aftercredits_backend.Database.Exec.{
  GroupRow, UserRow, Tables, Result, ok, err, Exec, select, statement, collation, ◌>>=◌,
}
use aftercredits_backend.Database.Users.{member}

-- groups_owner_name_unique, which leaves out deleted groups
unfoldable pub same_name : Str → Str → GroupRow → Bool
same_name owner_id name g = not g.deleted && str_eq g.owner_id owner_id && str_eq g.name name

unfoldable pub group_checked : GroupRow → Tables → Result (GroupRow × Tables)
unfolding same_name
group_checked row t =
    if any (λ g. str_eq g.id row.id || same_name row.owner_id row.name g) t.groups
    then err unique_violation
    else ok (row, record t { groups = t.groups ++ row ∷ [] })

unfoldable pub insert_group : Str → Str → Str → Str → Time → Time → Exec GroupRow
unfolding group_checked
insert_group id name description owner_id created_at updated_at = statement λ t.
    group_checked
      (record {
        id = id;
        name = name;
        description = description;
        owner_id = owner_id;
        deleted = false;
        deleted_at = none;
        created_at = created_at;
        updated_at = updated_at;
      })
      t

abbrev pub open_group : Str → GroupRow → Bool
open_group id g = str_eq g.id id && not g.deleted

unfoldable pub group_exists : Str → Str → Exec Bool
unfolding member
group_exists id user_id =
    select λ t. ok (any (open_group id) t.groups && any (member id user_id) t.group_members)

unfoldable pub group_exists_not_deleted : Str → Exec Bool
group_exists_not_deleted id = select λ t. ok (any (open_group id) t.groups)

unfoldable pub group_has_member : Str → Str → Exec Bool
unfolding member
group_has_member id user_id = select λ t. ok (any (member id user_id) t.group_members)

unfoldable pub member_ids : (Str → Str → Bool) → Str → Tables → List Str
member_ids lt id t =
    sort lt (map (λ m. m.user_id) (filter (λ m. str_eq m.group_id id) t.group_members))

unfoldable pub get_group_member_ids : Str → Exec (List Str)
unfolding member_ids
get_group_member_ids id = do lt ← collation; select λ t. ok (member_ids lt id t)

-- The join is on the key of users: a member who is stored gives one row.
unfoldable pub get_group_member_users : Str → Exec (List UserRow)
unfolding member
get_group_member_users id = do
  lt ← collation
  select λ t.
      ok (sort (λ u v. lt u.id v.id) (filter (λ u. any (member id u.id) t.group_members) t.users))

abbrev pub renamed : Str → Str → Time → GroupRow → GroupRow
renamed name description at g = record g { name = name; description = description; updated_at = at }

abbrev pub info_updated : Str → Str → Str → Time → Tables → Option GroupRow → Result (ℕ × Tables)
info_updated id name description at t none = ok (0, t)
info_updated id name description at t (some g) =
    if any (λ h. not (str_eq h.id id) && same_name g.owner_id name h) t.groups
    then err unique_violation
    else ok (
      1,
      record t { groups = update_where (open_group id) (renamed name description at) t.groups },
    )

-- The number of rows; the key of groups makes it at most one. The database's now() is the
-- argument.
unfoldable pub update_group_info_row : Str → Str → Str → Time → Exec ℕ
unfolding same_name
update_group_info_row id name description at =
    statement λ t. info_updated id name description at t (find (open_group id) t.groups)

abbrev pub deleted_row : Time → GroupRow → GroupRow
deleted_row at g = record g { deleted = true; deleted_at = some at; updated_at = at }

unfoldable pub soft_delete_group_row : Str → Time → Exec ℕ
soft_delete_group_row id at = statement λ t. ok (
  length (filter (open_group id) t.groups),
  record t { groups = update_where (open_group id) (deleted_row at) t.groups },
)
