-- ===== src/Services/Groups/Access.antt =====
-- Who may change a group.
use aftercredits_backend.Base.{
  ◌≡◌, refl, sym, ◌∙◌, subst, Bool, true, false, not, ◌&&◌, ◌⊎◌, inl, inr, Option, none, some, Str,
  str_eq, str_eq_iff, any, find, ℤ, if◌then◌else◌, arith,
}
use aftercredits_backend.Models as M
use aftercredits_backend.Models.{Error, Time, Title, no_rows, group_not_owned_by_user}
use aftercredits_backend.Database.Exec.{
  GroupRow, Tables, World, Result, ok, err, Exec, pure, raise, or_raise, ◌>>=◌, ◌>>◌,
}
use aftercredits_backend.Database.Rules.{
  Hoare, Selected, Outcome, Hoare-select, Hoare-bind, Hoare-map_err, Hoare-pure, Hoare-raise,
  Hoare-weaken,
}
use aftercredits_backend.Database.Shapes.{Keeps, keeps_rules}
use aftercredits_backend.Database.Groups as Q
use aftercredits_backend.Database.Groups.Members
use aftercredits_backend.Database.Groups.Entries
use aftercredits_backend.Postgres.Groups.Members as Store
use aftercredits_backend.Services.Groups.{
  load_group, owned, update_group_info, add_user_to_group, soft_delete_group, leave_group,
  add_title_to_group, remove_title_from_group,
}
use aftercredits_backend.Services.Groups.Watched.{
  update_group_title_watched, update_group_title_watched_for_movie,
  update_group_title_watched_for_tv_series,
}

-- The user is a member of the group, which is not deleted: GetGroupRow finds its row.
abbrev pub row_for : Str → Str → Tables → Option GroupRow
row_for group_id user_id t =
    find
      (λ g.
        str_eq g.id group_id
        && not g.deleted
        && any (λ m. str_eq m.group_id group_id && str_eq m.user_id user_id) t.group_members)
      t.groups

pub record IsMember (group_id : Str) (user_id : Str) (t : Tables) : Type 0 where
  pub row : GroupRow
  pub stored : row_for group_id user_id t ≡ some row

pub record IsOwner (group_id : Str) (user_id : Str) (t : Tables) : Type 0 where
  pub row : GroupRow
  pub stored : row_for group_id user_id t ≡ some row
  pub owner : row.owner_id ≡ user_id

-- A request on a group that exists.
pub data GroupRequest : Type 0 where
  rename : Str → Str → GroupRequest
  invite : Str → GroupRequest
  remove : GroupRequest
  leave : GroupRequest
  add_title : Str → GroupRequest
  drop_title : Str → GroupRequest
  watch : Title → Option Bool → Option (Option Time) → Option ℤ → GroupRequest

-- Without its answer.
abbrev pub quiet : {A : Type 0} → Exec A → Exec (Unit {0})
quiet m = m >> pure tt

unfoldable pub serve_group : Str → Str → GroupRequest → Exec (Unit {0})
serve_group group_id user_id (rename name description) =
    quiet (update_group_info group_id user_id name description)
serve_group group_id user_id (invite other) = add_user_to_group group_id user_id other
serve_group group_id user_id remove = soft_delete_group group_id user_id
serve_group group_id user_id leave = leave_group group_id user_id
serve_group group_id user_id (add_title title_id) = add_title_to_group group_id title_id user_id
serve_group group_id user_id (drop_title title_id) =
    remove_title_from_group group_id title_id user_id
serve_group group_id user_id (watch title watched watched_at season) =
    quiet (update_group_title_watched group_id title user_id watched watched_at season)

-- What the request needs of its user.
abbrev pub Allowed : GroupRequest → Str → Str → Tables → Type 0
Allowed (rename name description) = IsOwner
Allowed (invite other) = IsOwner
Allowed remove = IsOwner
Allowed leave = IsMember
Allowed (add_title title_id) = IsMember
Allowed (drop_title title_id) = IsMember
Allowed (watch title watched watched_at season) = IsMember

-- Whatever is done, is done only where C holds.
record Gated (C : Type 0) (t : Tables) {A : Type 0} (m : Exec A) : Type 0 where
  hoare : Hoare (λ s. s ≡ t) m (λ _ _. C) (λ _ s. (s ≡ t) ⊎ C)

always :
    {A : Type 0} {C : Type 0} {P : Tables → Type 0} (c : C) (t : Tables) (m : Exec A)
    → Hoare P m (λ _ _. C) (λ _ s. (s ≡ t) ⊎ C)
always {A} {C} c t m = record { at = λ w p. go (m w) }
  where
    go : (x : Result A × World) → Outcome (λ _ _. C) (λ _ s. (s ≡ t) ⊎ C) x
    go (ok a, w) = c
    go (err e, w) = inr c

module _ (C : Type 0) (t : Tables) {A : Type 0} where
  Gated-raise : (e : Error) → Gated C t (raise {A = A} e)
  Gated-raise e = record { hoare = Hoare-raise e (λ s q. inl q) }

  Gated-if :
      (b : Bool) (m n : Exec A)
      → (b ≡ true → Gated C t m)
      → (b ≡ false → Gated C t n)
      → Gated C t (if b then m else n)
  Gated-if true m n hm hn = hm refl
  Gated-if false m n hm hn = hn refl

module _ (group_id user_id : Str) (t : Tables) where
  -- The row that the group was loaded from.
  abbrev pub Loaded : M.Group → Type 0
  Loaded g =
      (row : GroupRow) × (row_for group_id user_id t ≡ some row) × (g.owner_id ≡ row.owner_id)

  row_hoare :
      Hoare
        (λ s. s ≡ t)
        (Q.get_group_row group_id user_id)
        (λ r s. (s ≡ t) × (row_for group_id user_id t ≡ some r))
        (λ _ s. s ≡ t)
  unfolding Q.get_group_row
  row_hoare =
      Hoare-select _ (λ s q. q)
        λ s q.
          subst
            (λ z.
              Selected (λ r s'. (s' ≡ t) × (row_for group_id user_id t ≡ some r)) (λ _ s'. s' ≡ t) z
                (or_raise no_rows (row_for group_id user_id z)))
            (sym q) (found (row_for group_id user_id t) refl)
    where
      found :
          (o : Option GroupRow)
          → row_for group_id user_id t ≡ o
          → Selected
              (λ r s'. (s' ≡ t) × (row_for group_id user_id t ≡ some r))
              (λ _ s'. s' ≡ t)
              t
              (or_raise no_rows o)
      found none e = refl
      found (some r) e = (refl, e)

  ids_kept : Keeps (λ s. s ≡ t) (Members.get_group_member_ids group_id)
  unfolding Members.get_group_member_ids
  ids_kept = search keeps_rules depth 9

  titles_kept : Keeps (λ s. s ≡ t) (Store.assemble_group_titles group_id)
  unfolding Store.assemble_group_titles Entries.get_group_title_rows
      Entries.get_group_title_season_rows
  titles_kept = search keeps_rules depth 9

  pub load_hoare :
      Hoare (λ s. s ≡ t) (load_group group_id user_id) (λ g s. (s ≡ t) × Loaded g) (λ _ s. s ≡ t)
  unfolding load_group Store.get_group_by_id Store.group_row_to_model
  load_hoare = Hoare-map_err _ _ (
      Hoare-bind {R = λ r s. (s ≡ t) × (row_for group_id user_id t ≡ some r)} _ _
        (Hoare-map_err _ _ row_hoare)
        λ row. record {
          at = λ w p.
              (Hoare-bind {R = λ _ s. s ≡ t} {Q = λ g s. (s ≡ t) × Loaded g} _ _ ids_kept.hoare
                  λ users.
                    Hoare-bind {R = λ _ s. s ≡ t} _ _ titles_kept.hoare
                      λ titles. Hoare-pure _ (λ s q. (q, (row, p.1, refl)))).at
                w p.0;
        })

  -- What follows the load runs for a member.
  Gated-load :
      {A : Type 0} (f : M.Group → Exec A)
      → Gated (IsMember group_id user_id t) t (load_group group_id user_id >>= f)
  Gated-load f = record {
    hoare =
        Hoare-bind {R = λ g s. (s ≡ t) × Loaded g} _ _
          (Hoare-weaken _ (λ s q. q) (λ g s p. p) (λ e s q. inl q) load_hoare)
          λ g. record {
            at = λ w p.
                (always {P = λ s. s ≡ t} (record { row = p.1.0; stored = p.1.1 }) t (f g)).at w p.0;
          };
  }

  -- And behind the test of the owner, for the owner.
  Gated-owned :
      {A : Type 0} (f : M.Group → Exec A)
      → Gated
          (IsOwner group_id user_id t)
          t
          (load_group group_id user_id >>= λ g. owned g user_id (f g))
  Gated-owned {A} f = record {
    hoare =
        Hoare-bind {R = λ g s. (s ≡ t) × Loaded g} _ _
          (Hoare-weaken _ (λ s q. q) (λ g s p. p) (λ e s q. inl q) load_hoare)
          λ g. record { at = λ w p. (by_owner g p.1).at w p.0 };
  }
    where
      owner :
          (g : M.Group)
          → Loaded g
          → not (str_eq g.owner_id user_id) ≡ false
          → IsOwner group_id user_id t
      owner g l e = record {
        row = l.0;
        stored = l.1;
        owner = sym l.2 ∙ (str_eq_iff g.owner_id user_id).0 (ground arith);
      }

      by_owner :
          (g : M.Group)
          → Loaded g
          → Hoare
              (λ s. s ≡ t)
              (owned g user_id (f g))
              (λ _ _. IsOwner group_id user_id t)
              (λ _ s. (s ≡ t) ⊎ IsOwner group_id user_id t)
      by_owner g l =
          (Gated-if (IsOwner group_id user_id t) t (not (str_eq g.owner_id user_id)) _ _
            (λ _. Gated-raise _ t group_not_owned_by_user)
            (λ e. record { hoare = always (owner g l e) t (f g) })).hoare

  Gated-quiet : {A : Type 0} (C : Type 0) (m : Exec A) → Gated C t m → Gated C t (quiet m)
  Gated-quiet C m h = record {
    hoare =
        Hoare-bind {R = λ _ _. C} _ _ h.hoare
          λ a. record { at = λ w c. (always {P = λ _. Unit {0}} c t (pure tt)).at w tt };
  }

  Gated-watch :
      (title : Title) (watched : Option Bool) (watched_at : Option (Option Time))
      (season : Option ℤ)
      → Gated
          (IsMember group_id user_id t)
          t
          (update_group_title_watched group_id title user_id watched watched_at season)
  unfolding update_group_title_watched update_group_title_watched_for_movie
      update_group_title_watched_for_tv_series
  Gated-watch title watched watched_at none = Gated-load _
  Gated-watch title watched watched_at (some season) =
      search (Gated-if, Gated-raise, Gated-load) depth 12

  Gated-serve :
      (r : GroupRequest) → Gated (Allowed r group_id user_id t) t (serve_group group_id user_id r)
  unfolding serve_group update_group_info add_user_to_group soft_delete_group leave_group
      add_title_to_group remove_title_from_group
  Gated-serve (rename name description) =
      search (Gated-quiet, Gated-if, Gated-raise, Gated-owned) depth 12
  Gated-serve (invite other) = Gated-owned _
  Gated-serve remove = Gated-owned _
  Gated-serve leave = Gated-load _
  Gated-serve (add_title title_id) = Gated-load _
  Gated-serve (drop_title title_id) = Gated-load _
  Gated-serve (watch title watched watched_at season) =
      Gated-quiet _ _ (Gated-watch title watched watched_at season)

denied :
    {C : Type 0} (t : Tables) (x : Result (Unit {0}) × World)
    → Outcome (λ _ _. C) (λ _ s. (s ≡ t) ⊎ C) x
    → ¬ C
    → (x.1.db ≡ t) × ((e : Error) × (x.0 ≡ err e))
denied t (ok u, w) o n = absurd (n o)
denied t (err e, w) (inl q) n = (q, (e, refl))
denied t (err e, w) (inr c) n = absurd (n c)

-- A request to rename a group, add a member to it or delete it by a user who is not the owner
-- and a member of an undeleted group of that id, and a request to leave it, to add or remove a
-- title or to change a title's watched state by a user who is not a member of an undeleted group
-- of that id, is refused with an error and changes no table, whatever calls to the database
-- fail.
pub serve_group-denied :
    (group_id user_id : Str) (r : GroupRequest) (w : World)
    → ¬ Allowed r group_id user_id w.db
    → ((serve_group group_id user_id r w).1.db ≡ w.db)
      × ((e : Error) × ((serve_group group_id user_id r w).0 ≡ err e))
serve_group-denied group_id user_id r w n =
    denied w.db (serve_group group_id user_id r w)
      ((Gated-serve group_id user_id w.db r).hoare.at w refl) n
