-- ===== src/Database/Groups/Owners.antt =====
-- The owners of the groups, and what the queries on groups do to their memberships.
use aftercredits_backend.Base.{
  ℕ, ◌≡◌, refl, Bool, true, false, not, ◌&&◌, ◌||◌, inl, inr, Option, none, some, List, [], ◌∷◌,
  Str, str_eq, str_eq_iff, any, find, filter, update_where, All, All-update_where, if◌then◌else◌,
  arith, Bool-cases,
}
use aftercredits_backend.Base.Distinct.{
  Distinct, Distinct-update_where, any-append, any-filter-true, All-map,
}
use aftercredits_backend.Models.{Time, foreign_key_violation, unique_violation}
use aftercredits_backend.Database.Exec.{GroupRow, MemberRow, Tables, ok, err}
use aftercredits_backend.Database.Rules.{Applied}
use aftercredits_backend.Database.Shapes.{Keeps, Keeps-statement}
use aftercredits_backend.Database.Users.{
  member, with_member, joined, add_group_member, remove_group_member,
}
use aftercredits_backend.Database.Groups.{touch_group}
use aftercredits_backend.Database.Groups.Members.{
  open_group, renamed, info_updated, update_group_info_row,
}

abbrev pub same_id : GroupRow → GroupRow → Bool
same_id row g = str_eq g.id row.id

abbrev pub is_manned : List MemberRow → GroupRow → Bool
is_manned ms g = g.deleted || any (member g.id g.owner_id) ms

-- No two groups share an id, and the owner of a group that is not deleted is a member of it.
pub record HasOwners (t : Tables) : Type 0 where
  pub ids : Distinct same_id t.groups
  pub owners : All (λ g. is_manned t.group_members g ≡ true) t.groups

-- A test of a group's id, of whether it is deleted, and of its owner: what no update but a
-- deletion changes.
abbrev pub Test : Type 0
Test = Str → Bool → Str → Bool

abbrev pub passes : Test → GroupRow → Bool
passes test g = test g.id g.deleted g.owner_id

-- Every group passes the test, besides.
pub record Spares (test : Test) (t : Tables) : Type 0 where
  pub kept : HasOwners t
  pub all : All (λ g. passes test g ≡ true) t.groups

All-both :
    {A : Type 0} (P Q : A → Type 0) (xs : List A) → All P xs → All Q xs → All (λ x. P x × Q x) xs
All-both P Q [] p q = tt
All-both P Q (x ∷ xs) p q = ((p.0, q.0), All-both P Q xs p.1 q.1)

pub member-weaken :
    (group_id user_id : Str) (ms : List MemberRow) (g : GroupRow)
    → is_manned ms g ≡ true
    → is_manned (with_member group_id user_id ms) g ≡ true
unfolding with_member
member-weaken group_id user_id ms g h = elim (Bool-cases (any (member group_id user_id) ms)) [
  | inl e ↦ rw e h
  | inr e ↦
      rw
        (
          e,
          any-append (member g.id g.owner_id) ms
              (record { group_id = group_id; user_id = user_id } ∷ []),
        )
        (ground arith)
]

module _ (test : Test) where
  -- A write of other tables.
  pub Spares-same :
      (t u : Tables)
      → u.groups ≡ t.groups
      → u.group_members ≡ t.group_members
      → Spares test t
      → Spares test u
  Spares-same t u eg em h = record {
    kept = record { ids = rw eg h.kept.ids; owners = rw (eg, em) h.kept.owners };
    all = rw eg h.all;
  }

  -- An update of columns that no test reads.
  Spares-update :
      (q : GroupRow → Bool) (f : GroupRow → GroupRow) (t : Tables)
      → ((g : GroupRow) → (f g).id ≡ g.id)
      → ((g : GroupRow) → (f g).deleted ≡ g.deleted)
      → ((g : GroupRow) → (f g).owner_id ≡ g.owner_id)
      → Spares test t
      → Spares test (record t { groups = update_where q f t.groups })
  Spares-update q f t i d o h = record {
    kept = record {
      ids =
          Distinct-update_where same_id q f t.groups (λ x y. rw (i y) refl) (λ x y. rw (i x) refl)
            h.kept.ids;
      owners = All-update_where _ q f t.groups (λ g e. rw (i g, d g, o g) e) h.kept.owners;
    };
    all = All-update_where _ q f t.groups (λ g e. rw (i g, d g, o g) e) h.all;
  }

  pub Spares-touch_group : (id : Str) (at : Time) → Keeps (Spares test) (touch_group id at)
  unfolding touch_group
  Spares-touch_group id at =
      Keeps-statement _ λ t h. Spares-update _ _ t (λ g. refl) (λ g. refl) (λ g. refl) h

  Spares-joined :
      (group_id user_id : Str) (t : Tables)
      → Spares test t
      → Applied (λ _. Spares test) (λ _. Spares test) t (joined group_id user_id t)
  unfolding joined
  Spares-joined group_id user_id t h = go (any (member group_id user_id) t.group_members || _)
    where
      go :
          (b : Bool)
          → Applied
              (λ _. Spares test)
              (λ _. Spares test)
              t
              (if b
                then ok
                    (tt, record t { group_members = with_member group_id user_id t.group_members })
                else err foreign_key_violation)
      go true = record {
        kept = record {
          ids = h.kept.ids;
          owners =
              All-map _ _ t.groups (λ g e. member-weaken group_id user_id t.group_members g e)
                h.kept.owners;
        };
        all = h.all;
      }
      go false = h

  pub Spares-add_group_member :
      (group_id user_id : Str) → Keeps (Spares test) (add_group_member group_id user_id)
  unfolding add_group_member
  Spares-add_group_member group_id user_id =
      Keeps-statement _ λ t h. Spares-joined group_id user_id t h

  -- A member who owns no undeleted group of that id may go.
  pub Spares-remove_group_member :
      (group_id user_id : Str)
      → ((g : GroupRow)
          → passes test g ≡ true
          → (g.deleted || not (str_eq g.id group_id && str_eq g.owner_id user_id)) ≡ true)
      → Keeps (Spares test) (remove_group_member group_id user_id)
  unfolding remove_group_member
  Spares-remove_group_member group_id user_id free = Keeps-statement _ λ t h. record {
    kept = record {
      ids = h.kept.ids;
      owners =
          All-map _ _ t.groups (λ g e. stays g t.group_members e.0 (free g e.1))
            (All-both _ _ t.groups h.kept.owners h.all);
    };
    all = h.all;
  }
    where
      stays :
          (g : GroupRow) (ms : List MemberRow)
          → is_manned ms g ≡ true
          → (g.deleted || not (str_eq g.id group_id && str_eq g.owner_id user_id)) ≡ true
          → is_manned (filter (λ m. not (member group_id user_id m)) ms) g ≡ true
      stays g ms e f = elim (Bool-cases g.deleted) [
        | inl d ↦ ground arith
        | inr d ↦ rw d (
            any-filter-true (member g.id g.owner_id) _ ms
              (λ m h. ground (
                arith,
                str_eq_iff m.group_id g.id,
                str_eq_iff m.user_id g.owner_id,
                str_eq_iff g.id group_id,
                str_eq_iff g.owner_id user_id,
                str_eq_iff m.group_id group_id,
                str_eq_iff m.user_id user_id,
              ))
              (ground arith))
      ]

  pub Spares-update_group_info_row :
      (id name description : Str) (at : Time)
      → Keeps (Spares test) (update_group_info_row id name description at)
  unfolding update_group_info_row
  Spares-update_group_info_row id name description at =
      Keeps-statement _ λ t h. go t h (find (open_group id) t.groups)
    where
      named :
          (t : Tables) (b : Bool)
          → Spares test t
          → Applied {A = ℕ}
              (λ _. Spares test)
              (λ _. Spares test)
              t
              (if b
                then err unique_violation
                else ok (
                  1,
                  record t {
                    groups = update_where (open_group id) (renamed name description at) t.groups;
                  },
                ))
      named t true h = h
      named t false h = Spares-update _ _ t (λ g. refl) (λ g. refl) (λ g. refl) h

      go :
          (t : Tables) (h : Spares test t) (o : Option GroupRow)
          → Applied
              (λ _. Spares test)
              (λ _. Spares test)
              t
              (info_updated id name description at t o)
      go t h none = h
      go t h (some g) = named t _ h
