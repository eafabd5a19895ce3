-- ===== src/Services/Groups/Turnover.antt =====
-- The owners of the groups when the service creates a group, deletes one, or lets a member leave.
use aftercredits_backend.Base.{
  ◌≡◌, refl, sym, subst, true, false, not, List, [], ◌∷◌, Str, str_eq, All, ◌==◌, if◌then◌else◌,
  arith,
}
use aftercredits_backend.Models as M
use aftercredits_backend.Models.{Error, Time, record_not_found}
use aftercredits_backend.Database.Exec.{GroupRow, Tables, Exec, raise, ◌>>◌}
use aftercredits_backend.Database.Rules.{
  Hoare, Hoare-bind, Hoare-in_tx, Hoare-map_err, Hoare-pure, Hoare-raise, Hoare-if, Hoare-weaken,
}
use aftercredits_backend.Database.Shapes.{Keeps, Keeps-bind, Keeps-new_string, Keeps-now}
use aftercredits_backend.Database.Groups.Members
use aftercredits_backend.Database.Groups.Owners.{
  Test, passes, HasOwners, Spares, Spares-remove_group_member,
}
use aftercredits_backend.Database.Groups.Spared.{spares}
use aftercredits_backend.Database.Groups.Turnover.{
  gone, unowned, found-unowned, soft_delete_hoare, insert_group_hoare, add_founder_hoare,
}
use aftercredits_backend.Postgres.Users as PU
use aftercredits_backend.Postgres.Groups.Members as Store
use aftercredits_backend.Services.Groups.{
  CreateGroupRequest, requested_group, soft_delete_group, leave_group,
}
use aftercredits_backend.Services.Groups.Access.{Loaded, load_hoare}
use aftercredits_backend.Services.Groups.Owners.{Spares-load, Spares-remove_members}

abbrev any_group : Test
any_group id deleted owner_id = true

all_groups : (gs : List GroupRow) → All (λ g. passes any_group g ≡ true) gs
all_groups [] = tt
all_groups (g ∷ gs) = (refl, all_groups gs)

-- What spares the groups of any test keeps the owners.
pub owned_by_all :
    {A : Type 0} (m : Exec A) → ((test : Test) → Keeps (Spares test) m) → Keeps HasOwners m
owned_by_all m k = record {
  hoare =
      Hoare-weaken m (λ t h. record { kept = h; all = all_groups t.groups }) (λ a t s. s.kept)
        (λ e t s. s.kept) (k any_group).hoare;
}

pub Owners-create :
    (req : CreateGroupRequest) (user_id : Str)
    → Keeps HasOwners (Store.create_group (requested_group req user_id))
unfolding Store.create_group Store.create_group_tx Store.add_members
Owners-create req user_id = record {
  hoare =
      Hoare-in_tx _ (λ t h e. h)
        (Hoare-bind {R = λ _. HasOwners} _ _ (loose _ Keeps-new_string) λ id.
          Hoare-bind {R = λ _. HasOwners} _ _ (loose _ Keeps-now) λ at.
            Hoare-bind _ _ (Hoare-map_err _ _ (insert_group_hoare id _ _ _ at at)) λ row.
              Hoare-bind {R = λ _. HasOwners} _ _
                (Hoare-bind {R = λ _. HasOwners} _ _ (add_founder_hoare id user_id)
                  λ _. Hoare-pure _ (λ t h. h))
                λ _. Hoare-pure _ (λ t h. h));
}
  where
    loose :
        {A : Type 0} (m : Exec A)
        → Keeps HasOwners m
        → Hoare HasOwners m (λ _. HasOwners) (λ _ _. Unit {0})
    loose m k = Hoare-weaken m (λ t h. h) (λ a t h. h) (λ e t h. tt) k.hoare

Owners-store_delete :
    (group_id : Str)
    → Hoare HasOwners
        (Store.soft_delete_group group_id)
        (λ _. Spares (gone group_id))
        (λ _. HasOwners)
unfolding Store.soft_delete_group
Owners-store_delete group_id = Hoare-bind {R = λ _. HasOwners} _ _ Keeps-now.hoare λ at.
    Hoare-bind _ _ (soft_delete_hoare group_id at)
      λ n. Hoare-if (n == 0) _ _ (λ _. Hoare-raise _ (λ t h. h.kept)) (λ _. Hoare-pure _ (λ t h. h))

pub Owners-remove : (group_id user_id : Str) → Keeps HasOwners (soft_delete_group group_id user_id)
unfolding soft_delete_group
Owners-remove group_id user_id =
    Keeps-bind _ _ (owned_by_all _ (λ test. Spares-load test group_id user_id)) λ group. record {
      hoare =
          Hoare-if (not (str_eq group.owner_id user_id)) _ _ (λ _. Hoare-raise _ (λ t h. h))
            λ _.
              Hoare-bind {R = λ _. Spares (gone group_id)} _ _
                (Hoare-map_err _ _ (Owners-store_delete group_id))
                λ _.
                  Hoare-weaken _ (λ t h. h) (λ a t h. h.kept) (λ e t h. h.kept)
                    (Spares-remove_members (gone group_id) group_id group.users
                      (λ g p. ground arith)).hoare;
    }

module _ (group_id user_id : Str) where
  Spares-left :
      Keeps (Spares (unowned group_id user_id)) (PU.remove_group_from_user user_id group_id)
  unfolding PU.remove_group_from_user
  Spares-left =
      Spares-remove_group_member (unowned group_id user_id) group_id user_id (λ g p. ground arith)

  Spares-store_left :
      Keeps (Spares (unowned group_id user_id)) (Store.remove_user_from_group group_id user_id)
  unfolding Store.remove_user_from_group Store.remove_user_tx Members.group_exists_not_deleted
      PU.remove_group_from_user
  Spares-store_left = search (spares, Spares-left) depth 14

pub Owners-leave : (group_id user_id : Str) → Keeps HasOwners (leave_group group_id user_id)
unfolding leave_group
Owners-leave group_id user_id = record {
  hoare = record {
    at = λ w h.
        (Hoare-bind {R = λ g s. (s ≡ w.db) × Loaded group_id user_id w.db g} _ _
            (Hoare-weaken _ (λ s q. q) (λ g s p. p) (λ e s q. subst HasOwners (sym q) h)
              (load_hoare group_id user_id w.db))
            λ g. record { at = λ v p. (left w.db h g p.1).at v p.0 }).at
          w refl;
  };
}
  where
    left :
        (t : Tables)
        → HasOwners t
        → (g : M.Group) → Loaded group_id user_id t g
        → Hoare
            (λ s. s ≡ t)
            (if str_eq g.owner_id user_id then raise M.owner_cannot_leave_group else (do
              Store.remove_user_from_group group_id user_id
              PU.remove_group_from_user user_id group_id))
            (λ _. HasOwners)
            (λ _. HasOwners)
    left t h g l =
        Hoare-if (str_eq g.owner_id user_id) _ _
          (λ _. Hoare-raise _ (λ s q. subst HasOwners (sym q) h))
          λ e.
            Hoare-weaken _ (λ s q. subst (Spares (unowned group_id user_id)) (sym q) (spared e))
              (λ a s k. k.kept) (λ x s k. k.kept)
              (Keeps-bind _ _ (Spares-store_left group_id user_id)
                (λ _. Spares-left group_id user_id)).hoare
      where
        spared : str_eq g.owner_id user_id ≡ false → Spares (unowned group_id user_id) t
        spared e = record {
          kept = h;
          all =
              found-unowned group_id user_id _ t.groups l.0 h.ids (λ x q. ground arith) l.1
                (rw (sym l.2) e);
        }
