-- ===== src/Database/Comments/Keys.antt =====
-- The keys of the tables of comments, and that every query keeps them.
use aftercredits_backend.Base.{
  ◌≡◌, refl, Bool, true, false, not, ◌&&◌, ◌||◌, List, [], ◌∷◌, ◌++◌, Str, str_eq, str_eq_iff, any,
  filter, All, All-append, All-filter, Option, none, some, if◌then◌else◌, arith, Bool-cases, inl,
  inr,
}
use aftercredits_backend.Base.Distinct.{
  Distinct, Distinct-append, Distinct-filter, Distinct-update_where, any-append, any-filter-true,
  filter-not-any, All-map, All-filter_map, any-update_where,
}
use aftercredits_backend.Models.{Time, unique_violation, foreign_key_violation}
use aftercredits_backend.Database.Exec.{CommentRow, CommentSeasonRow, Tables, Result, ok, err}
use aftercredits_backend.Database.Rules.{Applied}
use aftercredits_backend.Database.Shapes.{Keeps, Keeps-statement, keeps_rules}
use aftercredits_backend.Database.Comments.{
  same_key, owned_row, season_of, updated_comment, in_group, delete_in_group,
  insert_comment_checked, insert_comment_season_checked, insert_comment, update_comment_row,
  delete_comment_row, delete_comment_seasons, insert_comment_season,
}

-- The primary key, or the unique (user_id, title_id, group_id).
abbrev pub comment_clash : CommentRow → CommentRow → Bool
comment_clash row c = str_eq c.id row.id || same_key row.user_id row.title_id row.group_id c

abbrev pub comment_season_clash : CommentSeasonRow → CommentSeasonRow → Bool
comment_season_clash row s = season_of row.comment_id s && str_eq s.season row.season

abbrev pub has_comment : List CommentRow → CommentSeasonRow → Bool
has_comment cs s = any (λ c. str_eq c.id s.comment_id) cs

-- The keys are unique, and every season belongs to a comment.
pub record HasCommentKeys (t : Tables) : Type 0 where
  pub comments : Distinct comment_clash t.comments
  pub seasons : Distinct comment_season_clash t.comment_seasons
  pub owned : All (λ s. has_comment t.comments s ≡ true) t.comment_seasons

abbrev StaysKeyed : {A : Type 0} → Tables → Result (A × Tables) → Type 0
StaysKeyed t r = Applied (λ _. HasCommentKeys) (λ _. HasCommentKeys) t r

module _ {A : Type 0} (t : Tables) (x : A) (u : Tables) where
  checked_insert :
      (taken known : Bool)
      → (taken ≡ false → known ≡ true → HasCommentKeys u)
      → HasCommentKeys t
      → StaysKeyed t (
          if taken
          then err unique_violation
          else if known
          then ok (x, u)
          else err foreign_key_violation)
  checked_insert true known k h = h
  checked_insert false true k h = k refl refl
  checked_insert false false k h = h

has_comment-append :
    (row : CommentRow) (cs : List CommentRow) (s : CommentSeasonRow)
    → has_comment cs s ≡ true
    → has_comment (cs ++ row ∷ []) s ≡ true
has_comment-append row cs s e =
    rw (any-append (λ c. str_eq c.id s.comment_id) cs (row ∷ [])) (ground arith)

insert_checked-HasCommentKeys :
    (row : CommentRow) (t : Tables) → HasCommentKeys t → StaysKeyed t (insert_comment_checked row t)
unfolding insert_comment_checked
insert_checked-HasCommentKeys row t h =
    checked_insert t row _ (any (comment_clash row) t.comments) _
      (λ free known. record {
        comments = Distinct-append comment_clash t.comments row h.comments free;
        seasons = h.seasons;
        owned =
            All-map _ _ t.comment_seasons (λ s e. has_comment-append row t.comments s e) h.owned;
      })
      h

insert_season_checked-HasCommentKeys :
    (row : CommentSeasonRow) (t : Tables)
    → HasCommentKeys t
    → StaysKeyed t (insert_comment_season_checked row t)
unfolding insert_comment_season_checked
insert_season_checked-HasCommentKeys row t h =
    checked_insert t tt _ (any (comment_season_clash row) t.comment_seasons) _
      (λ free known. record {
        comments = h.comments;
        seasons = Distinct-append comment_season_clash t.comment_seasons row h.seasons free;
        owned = All-append _ t.comment_seasons (row ∷ []) h.owned (known, tt);
      })
      h

updated-HasCommentKeys :
    (id user_id : Str) (text : Option Str) (at : Time) (t : Tables) (o : Option CommentRow)
    → HasCommentKeys t
    → StaysKeyed t (updated_comment id user_id text at t o)
unfolding same_key
updated-HasCommentKeys id user_id text at t none h = h
updated-HasCommentKeys id user_id text at t (some c) h = record {
  comments =
      Distinct-update_where comment_clash _ _ t.comments (λ x y. refl) (λ x y. refl) h.comments;
  seasons = h.seasons;
  owned =
      All-map _ _ t.comment_seasons
        (λ s e.
          rw
            (any-update_where (λ r. str_eq r.id s.comment_id) (owned_row id user_id)
              (λ x. record x { comment = text; updated_at = at }) t.comments (λ x. refl))
            e)
        h.owned;
}

-- A season of another comment does not lose its comment.
other_kept :
    (id user_id group_id : Str) (t : Tables) (s : CommentSeasonRow)
    → not (str_eq s.comment_id id) ≡ true
    → has_comment t.comments s ≡ true
    → has_comment (filter (λ c. not (in_group id user_id group_id c)) t.comments) s ≡ true
unfolding in_group
other_kept id user_id group_id t s n h =
    any-filter-true (λ c. str_eq c.id s.comment_id) _ t.comments
      (λ c e.
        ground
          (arith, str_eq_iff c.id s.comment_id, str_eq_iff c.id id, str_eq_iff s.comment_id id))
      h

delete_in_group-HasCommentKeys :
    (id user_id group_id : Str) (t : Tables)
    → HasCommentKeys t
    → HasCommentKeys (delete_in_group id user_id group_id t)
delete_in_group-HasCommentKeys id user_id group_id t h =
    elim (Bool-cases (any (in_group id user_id group_id) t.comments)) [
      | inl e ↦ rw e (record {
        comments = Distinct-filter comment_clash _ t.comments h.comments;
        seasons = Distinct-filter comment_season_clash _ t.comment_seasons h.seasons;
        owned =
            All-filter_map _ _ (λ s. not (str_eq s.comment_id id)) t.comment_seasons
              (other_kept id user_id group_id t) h.owned;
      })
      | inr e ↦ rw (e, filter-not-any (in_group id user_id group_id) t.comments e) h
    ]

pub Keyed-insert_comment : (row : CommentRow) → Keeps HasCommentKeys (insert_comment row)
unfolding insert_comment
Keyed-insert_comment row = Keeps-statement _ (λ t h. insert_checked-HasCommentKeys row t h)

pub Keyed-update_comment_row :
    (id user_id : Str) (text : Option Str) (at : Time)
    → Keeps HasCommentKeys (update_comment_row id user_id text at)
unfolding update_comment_row
Keyed-update_comment_row id user_id text at =
    Keeps-statement _ (λ t h. updated-HasCommentKeys id user_id text at t _ h)

pub Keyed-insert_comment_season :
    (row : CommentSeasonRow) → Keeps HasCommentKeys (insert_comment_season row)
unfolding insert_comment_season
Keyed-insert_comment_season row =
    Keeps-statement _ (λ t h. insert_season_checked-HasCommentKeys row t h)

pub Keyed-delete_comment_seasons : (id : Str) → Keeps HasCommentKeys (delete_comment_seasons id)
unfolding delete_comment_seasons
Keyed-delete_comment_seasons id = Keeps-statement _ λ t h. record {
  comments = h.comments;
  seasons = Distinct-filter comment_season_clash _ t.comment_seasons h.seasons;
  owned = All-filter _ _ t.comment_seasons h.owned;
}

pub Keyed-delete_comment_row :
    (id user_id group_id : Str) → Keeps HasCommentKeys (delete_comment_row id user_id group_id)
unfolding delete_comment_row
Keyed-delete_comment_row id user_id group_id =
    Keeps-statement _ (λ t h. delete_in_group-HasCommentKeys id user_id group_id t h)

pub ruleset keyed_comments = (
  keeps_rules, Keyed-insert_comment, Keyed-update_comment_row, Keyed-insert_comment_season,
  Keyed-delete_comment_seasons, Keyed-delete_comment_row,
)
