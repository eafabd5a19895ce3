-- ===== src/Database/Groups/Turnover.antt =====
-- The owners when a group is founded, when it is deleted, and when a member leaves it.
use aftercredits_backend.Base.{
  ◌≡◌, refl, ap, ◌∙◌, Bool, true, false, not, ◌&&◌, ◌||◌, inl, inr, Option, none, some, List, [],
  ◌∷◌, ◌++◌, Str, str_eq, str_eq_iff, str_eq_refl, any, find, update_where, All, All-append,
  All-update_where, if◌then◌else◌, arith, Bool-cases,
}
use aftercredits_backend.Base.Distinct.{
  Distinct, Distinct-append, Distinct-update_where, any-append, any-first_part, All-map,
}
use aftercredits_backend.Models.{Time, unique_violation, foreign_key_violation}
use aftercredits_backend.Database.Exec.{GroupRow, MemberRow, Tables, ok, err}
use aftercredits_backend.Database.Rules.{Applied, Hoare, Hoare-statement}
use aftercredits_backend.Database.Users.{member, with_member, joined, add_group_member}
use aftercredits_backend.Database.Groups.Members.{
  same_name, open_group, deleted_row, soft_delete_group_row, group_checked, insert_group,
}
use aftercredits_backend.Database.Groups.Owners.{
  same_id, is_manned, HasOwners, Test, passes, Spares, member-weaken,
}

-- No undeleted group has this id.
abbrev pub gone : Str → Test
gone group_id id deleted owner_id = not (str_eq id group_id) || deleted

-- The user does not own the group of this id.
abbrev pub unowned : Str → Str → Test
unowned group_id user_id id deleted owner_id = not (str_eq id group_id && str_eq owner_id user_id)

deleted_rows-gone :
    (id : Str) (at : Time) (gs : List GroupRow)
    → All (λ g. passes (gone id) g ≡ true) (update_where (open_group id) (deleted_row at) gs)
unfolding update_where
deleted_rows-gone id at [] = tt
deleted_rows-gone id at (g ∷ gs) = kept (open_group id g) refl (deleted_rows-gone id at gs)
  where
    kept :
        (b : Bool)
        → open_group id g ≡ b
        → All (λ h. passes (gone id) h ≡ true) (update_where (open_group id) (deleted_row at) gs)
        → All
            (λ h. passes (gone id) h ≡ true)
            (if b
              then deleted_row at g ∷ update_where (open_group id) (deleted_row at) gs
              else g ∷ update_where (open_group id) (deleted_row at) gs)
    kept true e rest = (ground arith, rest)
    kept false e rest = (ground arith, rest)

pub soft_delete_hoare :
    (id : Str) (at : Time)
    → Hoare HasOwners (soft_delete_group_row id at) (λ _. Spares (gone id)) (λ _. HasOwners)
unfolding soft_delete_group_row
soft_delete_hoare id at =
    Hoare-statement _ (λ t h. h)
      λ t h. record {
        kept = record {
          ids = Distinct-update_where same_id _ _ t.groups (λ x y. refl) (λ x y. refl) h.ids;
          owners = All-update_where _ _ _ t.groups (λ g e. refl) h.owners;
        };
        all = deleted_rows-gone id at t.groups;
      }

not_any-All :
    {A : Type 0} (p : A → Bool) (xs : List A) → any p xs ≡ false → All (λ x. p x ≡ false) xs
unfolding any
not_any-All p [] h = tt
not_any-All p (x ∷ xs) h = (ground arith, not_any-All p xs (ground arith))

found-any :
    {A : Type 0} (p q : A → Bool) (xs : List A) (r : A)
    → find q xs ≡ some r
    → ((x : A) → q x ≡ true → p x ≡ true)
    → any p xs ≡ true
unfolding find any
found-any p q [] r h k = ground arith
found-any p q (x ∷ xs) r h k = ground (arith, found-any p q xs r, k x)

-- A row that is found by its id is the only one of that id.
pub found-unowned :
    (group_id user_id : Str) (q : GroupRow → Bool) (gs : List GroupRow) (r : GroupRow)
    → Distinct same_id gs
    → ((g : GroupRow) → q g ≡ true → str_eq g.id group_id ≡ true)
    → find q gs ≡ some r
    → str_eq r.owner_id user_id ≡ false
    → All (λ g. passes (unowned group_id user_id) g ≡ true) gs
unfolding find
found-unowned group_id user_id q [] r d k h o = tt
found-unowned group_id user_id q (x ∷ xs) r d k h o = elim (Bool-cases (q x)) [
  | inl e ↦ (
    ground (arith, k x, same_owner (ground arith)),
    All-map _ _ xs
        (λ g n.
          ground
            (arith, k x, str_eq_iff x.id group_id, str_eq_iff g.id group_id, str_eq_iff x.id g.id))
        (not_any-All (λ g. str_eq x.id g.id) xs d.0),
  )
  | inr e ↦ (
    elim (Bool-cases (str_eq x.id group_id)) [
      | inl i ↦ ground (
        arith,
        found-any (λ g. str_eq x.id g.id) q xs r (ground arith)
            (λ g p. ground (
              arith,
              k g,
              str_eq_iff x.id group_id,
              str_eq_iff g.id group_id,
              str_eq_iff x.id g.id,
            )),
      )
      | inr i ↦ ground arith
    ],
    found-unowned group_id user_id q xs r d.1 k (ground arith) o,
  )
]
  where
    owned_by : Option GroupRow → Bool
    owned_by none = false
    owned_by (some g) = str_eq g.owner_id user_id

    same_owner : some x ≡ some r → str_eq x.owner_id user_id ≡ false
    same_owner e = ap owned_by e ∙ o

-- Every undeleted group but this user's of this id has its owner as a member.
pub record Founding (id : Str) (user_id : Str) (t : Tables) : Type 0 where
  pub ids : Distinct same_id t.groups
  pub owners :
      All
        (λ g. (is_manned t.group_members g || str_eq g.id id && str_eq g.owner_id user_id) ≡ true)
        t.groups

-- The two keys of groups.
insert_checked :
    (row : GroupRow) (t : Tables) (b : Bool)
    → (any (λ g. str_eq g.id row.id || same_name row.owner_id row.name g) t.groups ≡ b)
    → HasOwners t
    → Applied
        (λ _. Founding row.id row.owner_id)
        (λ _ _. Unit {0})
        t
        (if b then err unique_violation else ok (row, record t { groups = t.groups ++ row ∷ [] }))
insert_checked row t true e h = tt
insert_checked row t false e h = record {
  ids = Distinct-append same_id t.groups row h.ids (any-first_part _ _ t.groups e);
  owners =
      All-append _ t.groups (row ∷ []) (All-map _ _ t.groups (λ g m. ground arith) h.owners)
        (ground (arith, str_eq_refl row.id, str_eq_refl row.owner_id), tt);
}

member-with_member :
    (id user_id : Str) (ms : List MemberRow)
    → any (member id user_id) (with_member id user_id ms) ≡ true
unfolding with_member any
member-with_member id user_id ms = elim (Bool-cases (any (member id user_id) ms)) [
  | inl e ↦ rw (e, e) refl
  | inr e ↦
      rw (e, any-append (member id user_id) ms (record { group_id = id; user_id = user_id } ∷ []))
        (ground (arith, str_eq_refl id, str_eq_refl user_id))
]

pub insert_group_hoare :
    (id name description owner_id : Str) (created_at updated_at : Time)
    → Hoare HasOwners
        (insert_group id name description owner_id created_at updated_at)
        (λ _. Founding id owner_id)
        (λ _ _. Unit {0})
unfolding insert_group group_checked
insert_group_hoare id name description owner_id created_at updated_at =
    Hoare-statement _ (λ t h. tt) λ t h. insert_checked _ t _ refl h

founded :
    (id user_id : Str) (ms : List MemberRow) (g : GroupRow)
    → (is_manned ms g || str_eq g.id id && str_eq g.owner_id user_id) ≡ true
    → is_manned (with_member id user_id ms) g ≡ true
founded id user_id ms g h = elim (Bool-cases (is_manned ms g)) [
  | inl e ↦ member-weaken id user_id ms g e
  | inr e ↦
      rw
        (
          (str_eq_iff g.id id).0 (ground arith),
          (str_eq_iff g.owner_id user_id).0 (ground arith),
          member-with_member id user_id ms,
        )
        (ground arith)
]

-- The founder's membership completes it.
pub add_founder_hoare :
    (id user_id : Str)
    → Hoare (Founding id user_id) (add_group_member id user_id) (λ _. HasOwners) (λ _ _. Unit {0})
unfolding add_group_member joined
add_founder_hoare id user_id =
    Hoare-statement _ (λ t h. tt) λ t h. go t h (any (member id user_id) t.group_members || _)
  where
    go :
        (t : Tables) (h : Founding id user_id t) (b : Bool)
        → Applied {A = Unit {0}}
            (λ _. HasOwners)
            (λ _ _. Unit {0})
            t
            (if b
              then ok (tt, record t { group_members = with_member id user_id t.group_members })
              else err foreign_key_violation)
    go t h true = record {
      ids = h.ids;
      owners = All-map _ _ t.groups (λ g e. founded id user_id t.group_members g e) h.owners;
    }
    go t h false = tt
