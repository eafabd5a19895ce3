-- ===== src/Services/Groups/Requests.antt =====
-- The groups service over any run of requests.
use aftercredits_backend.Base.{List, [], ◌∷◌, Str}
use aftercredits_backend.Database.Exec.{World}
use aftercredits_backend.Database.Shapes.{Keeps, kept, Keeps-bind, keeps_rules}
use aftercredits_backend.Database.Groups.Owners.{HasOwners}
use aftercredits_backend.Services.Users.{update_user_group}
use aftercredits_backend.Services.Groups.{CreateGroupRequest, create_group}
use aftercredits_backend.Services.Groups.Access.{
  GroupRequest, rename, invite, remove, leave, add_title, drop_title, watch, serve_group,
}
use aftercredits_backend.Services.Groups.Owners.{
  Spares-rename, Spares-invite, Spares-add_title, Spares-drop_title, Spares-watch,
  Spares-joined_user,
}
use aftercredits_backend.Services.Groups.Turnover.{
  owned_by_all, Owners-create, Owners-remove, Owners-leave,
}

Owners-serve :
    (group_id user_id : Str) (r : GroupRequest) → Keeps HasOwners (serve_group group_id user_id r)
unfolding serve_group
Owners-serve group_id user_id (rename name description) =
    Keeps-bind _ _ (owned_by_all _ (λ test. Spares-rename test group_id user_id name description))
      λ _. search keeps_rules
Owners-serve group_id user_id (invite other) =
    owned_by_all _ (λ test. Spares-invite test group_id user_id other)
Owners-serve group_id user_id remove = Owners-remove group_id user_id
Owners-serve group_id user_id leave = Owners-leave group_id user_id
Owners-serve group_id user_id (add_title title_id) =
    owned_by_all _ (λ test. Spares-add_title test group_id title_id user_id)
Owners-serve group_id user_id (drop_title title_id) =
    owned_by_all _ (λ test. Spares-drop_title test group_id title_id user_id)
Owners-serve group_id user_id (watch title watched watched_at season) =
    Keeps-bind _ _
      (owned_by_all _ (λ test. Spares-watch test group_id user_id title watched watched_at season))
      λ _. search keeps_rules

Owners-joined_user : (user_id group_id : Str) → Keeps HasOwners (update_user_group user_id group_id)
Owners-joined_user user_id group_id =
    owned_by_all _ (λ test. Spares-joined_user test user_id group_id)

Owners-found :
    (req : CreateGroupRequest) (user_id : Str) → Keeps HasOwners (create_group req user_id)
unfolding create_group
Owners-found req user_id = search (keeps_rules, Owners-create, Owners-joined_user) depth 9

-- A user's request: a new group, or a request on a group.
pub data GroupCall : Type 0 where
  create : CreateGroupRequest → GroupCall
  on : Str → GroupRequest → GroupCall

-- The world after a user's request, whatever its result.
unfoldable pub serve_call : World → Str × GroupCall → World
serve_call w (user_id, create req) = (create_group req user_id w).1
serve_call w (user_id, on group_id r) = (serve_group group_id user_id r w).1

unfoldable pub serve_calls : World → List (Str × GroupCall) → World
unfolding serve_call
serve_calls w [] = w
serve_calls w (c ∷ cs) = serve_calls (serve_call w c) cs

serve_call-HasOwners :
    (w : World) (c : Str × GroupCall) → HasOwners w.db → HasOwners (serve_call w c).db
unfolding serve_call
serve_call-HasOwners w (user_id, create req) h = kept HasOwners _ w (Owners-found req user_id) h
serve_call-HasOwners w (user_id, on group_id r) h =
    kept HasOwners _ w (Owners-serve group_id user_id r) h

-- If no two groups share an id and the owner of every undeleted group is a member of it, that
-- holds after any run of requests that create, rename or delete groups, add members, leave, add
-- or remove titles or change a title's watched state, by any users and with any calls to the
-- database failing.
pub serve_calls-HasOwners :
    (w : World) (cs : List (Str × GroupCall)) → HasOwners w.db → HasOwners (serve_calls w cs).db
unfolding serve_calls
serve_calls-HasOwners w [] h = h
serve_calls-HasOwners w (c ∷ cs) h =
    serve_calls-HasOwners (serve_call w c) cs (serve_call-HasOwners w c h)
