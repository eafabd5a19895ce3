-- ===== src/Database/Comments/Scope.antt =====
-- What the queries of comments.sql.go leave alone: the comments of other users and of other groups.
use aftercredits_backend.Base.{
  ◌≡◌, refl, subst, ◌∙◌, Bool, true, false, not, ◌&&◌, List, [], ◌∷◌, ◌++◌, Str, str_eq, str_eq_iff,
  any, find, filter, update_where, All, All-filter, All-update_where, Option, none, some,
  if◌then◌else◌, arith,
}
use aftercredits_backend.Base.Distinct.{Distinct, All-map}
use aftercredits_backend.Models.{Time, unique_violation, foreign_key_violation}
use aftercredits_backend.Database.Exec.{CommentRow, CommentSeasonRow, Tables, ok, err}
use aftercredits_backend.Database.Rules.{Applied}
use aftercredits_backend.Database.Shapes.{Keeps, Keeps-statement}
use aftercredits_backend.Database.Comments.{
  same_key, owned_row, updated_comment, in_group, insert_comment_checked,
  insert_comment_season_checked, insert_comment, update_comment_row, delete_comment_row,
  delete_comment_seasons, insert_comment_season,
}
use aftercredits_backend.Database.Comments.Keys.{comment_clash}

abbrev pub foreign : Str → Str → CommentRow → Bool
foreign group_id user_id c = not (str_eq c.group_id group_id && str_eq c.user_id user_id)

-- The comments that are not the user's in the group.
abbrev pub others : Str → Str → List CommentRow → List CommentRow
others group_id user_id cs = filter (foreign group_id user_id) cs

-- The id names no comment of another group.
abbrev pub Named : Str → Str → List CommentRow → Type 0
Named group_id id cs = All (λ c. str_eq c.id id ≡ true → str_eq c.group_id group_id ≡ true) cs

pub record Iso (group_id user_id id : Str) (before : List CommentRow) (cs : List CommentRow)
    : Type 0 where
  pub same : others group_id user_id cs ≡ before
  pub named : Named group_id id cs

filter-append_dropped :
    (p : CommentRow → Bool) (xs : List CommentRow) (y : CommentRow)
    → p y ≡ false
    → filter p (xs ++ y ∷ []) ≡ filter p xs
unfolding filter
filter-append_dropped p [] y h = rw h refl
filter-append_dropped p (x ∷ xs) y h = rw (filter-append_dropped p xs y h) refl

filter-filter_dropped :
    (p q : CommentRow → Bool) (xs : List CommentRow)
    → ((x : CommentRow) → q x ≡ true → p x ≡ false)
    → filter p (filter (λ x. not (q x)) xs) ≡ filter p xs
unfolding filter
filter-filter_dropped p q [] k = refl
filter-filter_dropped p q (x ∷ xs) k = let e = k x in ground (arith, filter-filter_dropped p q xs k)

filter-update_dropped :
    (p q : CommentRow → Bool) (f : CommentRow → CommentRow) (xs : List CommentRow)
    → All (λ x. q x ≡ true → (p x ≡ false) × (p (f x) ≡ false)) xs
    → filter p (update_where q f xs) ≡ filter p xs
unfolding filter update_where
filter-update_dropped p q f [] h = refl
filter-update_dropped p q f (x ∷ xs) h =
    let e = h.0 in ground (arith, filter-update_dropped p q f xs h.1)

-- A row that clashes with none of a list has another id than the row found in it.
any-other :
    (p : CommentRow → Bool) (a r : CommentRow) (cs : List CommentRow)
    → find p cs ≡ some r
    → any (λ y. comment_clash y a) cs ≡ false
    → str_eq a.id r.id ≡ false
unfolding find any
any-other p a r [] f h = ground arith
any-other p a r (c ∷ cs) f h = ground (arith, any-other p a r cs)

alone :
    (group_id : Str) (a : CommentRow) (cs : List CommentRow)
    → any (λ y. comment_clash y a) cs ≡ false
    → Named group_id a.id cs
unfolding any
alone group_id a [] h = tt
alone group_id a (c ∷ cs) h = (
  λ e. ground (arith, str_eq_iff a.id c.id, str_eq_iff c.id a.id),
  alone group_id a cs (ground arith),
)

same_key-group :
    (user_id title_id group_id : Str) (c : CommentRow)
    → same_key user_id title_id group_id c ≡ true
    → str_eq c.group_id group_id ≡ true
unfolding same_key
same_key-group user_id title_id group_id c e = ground arith

row_of : (c r : CommentRow) → some c ≡ some r → c ≡ r
row_of c r e = ground arith

-- The row that a key finds has an id that names nothing in another group.
pub found-Named :
    (user_id title_id group_id : Str) (r : CommentRow) (cs : List CommentRow)
    → Distinct comment_clash cs
    → find (same_key user_id title_id group_id) cs ≡ some r
    → Named group_id r.id cs
unfolding find
found-Named user_id title_id group_id r [] d f = tt
found-Named user_id title_id group_id r (c ∷ cs) d f =
    by_head (same_key user_id title_id group_id c) (same_key-group user_id title_id group_id c)
      (found-Named user_id title_id group_id r cs d.1) f
  where
    by_head :
        (b : Bool)
        → (b ≡ true → str_eq c.group_id group_id ≡ true)
        → (find (same_key user_id title_id group_id) cs ≡ some r → Named group_id r.id cs)
        → (if b then some c else find (same_key user_id title_id group_id) cs) ≡ some r
        → Named group_id r.id (c ∷ cs)
    by_head true g rest e =
        subst (λ x. Named group_id x.id (c ∷ cs)) (row_of c r e)
          ((λ _. g refl), alone group_id c cs d.0)
    by_head false g rest e =
        let other = any-other (same_key user_id title_id group_id) c r cs e d.0 in
        ((λ x. ground arith), rest e)

module _ (R : List CommentRow → Type 0) where
  -- A query of the seasons keeps what holds of the comments.
  season_scope :
      (row : CommentSeasonRow) (t : Tables)
      → R t.comments
      → Applied (λ _ s. R s.comments) (λ _ s. R s.comments) t (insert_comment_season_checked row t)
  unfolding insert_comment_season_checked
  season_scope row t h = by_tests _ _
    where
      by_tests :
          (taken known : Bool)
          → Applied {A = Unit {0}}
              (λ _ s. R s.comments)
              (λ _ s. R s.comments)
              t
              (if taken
                then err unique_violation
                else if known
                then ok (tt, record t { comment_seasons = t.comment_seasons ++ row ∷ [] })
                else err foreign_key_violation)
      by_tests true known = h
      by_tests false true = h
      by_tests false false = h

  pub Scoped-insert_comment_season :
      (row : CommentSeasonRow) → Keeps (λ t. R t.comments) (insert_comment_season row)
  unfolding insert_comment_season
  Scoped-insert_comment_season row = Keeps-statement _ (λ t h. season_scope row t h)

  pub Scoped-delete_comment_seasons :
      (id : Str) → Keeps (λ t. R t.comments) (delete_comment_seasons id)
  unfolding delete_comment_seasons
  Scoped-delete_comment_seasons id = Keeps-statement _ (λ t h. h)

module _ (group_id user_id : Str) (before : List CommentRow) where
  inserted :
      (row : CommentRow) (t : Tables)
      → foreign group_id user_id row ≡ false
      → others group_id user_id t.comments ≡ before
      → Applied
          (λ _ s. others group_id user_id s.comments ≡ before)
          (λ _ s. others group_id user_id s.comments ≡ before)
          t
          (insert_comment_checked row t)
  unfolding insert_comment_checked
  inserted row t own h = by_tests _ _
    where
      by_tests :
          (taken known : Bool)
          → Applied {A = CommentRow}
              (λ _ s. others group_id user_id s.comments ≡ before)
              (λ _ s. others group_id user_id s.comments ≡ before)
              t
              (if taken
                then err unique_violation
                else if known
                then ok (row, record t { comments = t.comments ++ row ∷ [] })
                else err foreign_key_violation)
      by_tests true known = h
      by_tests false true = filter-append_dropped _ t.comments row own ∙ h
      by_tests false false = h

  pub Scoped-insert_comment :
      (row : CommentRow)
      → foreign group_id user_id row ≡ false
      → Keeps (λ t. others group_id user_id t.comments ≡ before) (insert_comment row)
  unfolding insert_comment
  Scoped-insert_comment row own = Keeps-statement _ (λ t h. inserted row t own h)

  owned-foreign :
      (id : Str) (c : CommentRow)
      → (str_eq c.id id ≡ true → str_eq c.group_id group_id ≡ true)
      → owned_row id user_id c ≡ true
      → foreign group_id user_id c ≡ false
  unfolding owned_row
  owned-foreign id c n e = ground arith

  updated-Iso :
      (id : Str) (text : Option Str) (at : Time) (t : Tables) (o : Option CommentRow)
      → Iso group_id user_id id before t.comments
      → Applied
          (λ _ s. Iso group_id user_id id before s.comments)
          (λ _ s. Iso group_id user_id id before s.comments)
          t
          (updated_comment id user_id text at t o)
  updated-Iso id text at t none h = h
  updated-Iso id text at t (some c) h = record {
    same =
        filter-update_dropped _ _ _ t.comments (
          All-map _ _ t.comments (λ x n e. (owned-foreign id x n e, owned-foreign id x n e))
            h.named)
        ∙ h.same;
    named = All-update_where _ _ _ t.comments (λ x n. n) h.named;
  }

  pub Scoped-update_comment_row :
      (id : Str) (text : Option Str) (at : Time)
      → Keeps
          (λ t. Iso group_id user_id id before t.comments)
          (update_comment_row id user_id text at)
  unfolding update_comment_row
  Scoped-update_comment_row id text at = Keeps-statement _ (λ t h. updated-Iso id text at t _ h)

  in_group-foreign :
      (id : Str) (c : CommentRow)
      → in_group id user_id group_id c ≡ true
      → foreign group_id user_id c ≡ false
  unfolding in_group
  in_group-foreign id c e = ground arith

  pub Scoped-delete_comment_row :
      (id : Str)
      → Keeps
          (λ t. others group_id user_id t.comments ≡ before)
          (delete_comment_row id user_id group_id)
  unfolding delete_comment_row
  Scoped-delete_comment_row id =
      Keeps-statement _
        λ t h. filter-filter_dropped _ _ t.comments (λ c e. in_group-foreign id c e) ∙ h

  pub Scoped-delete_named :
      (id other : Str)
      → Keeps
          (λ t. Iso group_id user_id other before t.comments)
          (delete_comment_row id user_id group_id)
  unfolding delete_comment_row
  Scoped-delete_named id other = Keeps-statement _ λ t h. record {
    same = filter-filter_dropped _ _ t.comments (λ c e. in_group-foreign id c e) ∙ h.same;
    named = All-filter _ _ t.comments h.named;
  }
