-- ===== src/Database/Comments.antt =====
-- internal/database/comments.sql.go: each query as an action on the tables, with the keys that
-- sql/schema declares.
pub mod Keys
pub mod Scope
use aftercredits_backend.Base.{
  ℕ, Bool, not, ◌&&◌, ◌||◌, Option, none, some, List, [], ◌∷◌, ◌++◌, Str, str_eq, length, any, find,
  filter, update_where, if◌then◌else◌,
}
use aftercredits_backend.Models.{Time, no_rows, unique_violation, foreign_key_violation}
use aftercredits_backend.Database.Exec.{
  CommentRow, CommentSeasonRow, Tables, Result, ok, err, Exec, select, statement, or_raise,
}
use aftercredits_backend.Database.Ratings.{has_group}

-- comments_user_id_title_id_group_id_unique
unfoldable pub same_key : Str → Str → Str → CommentRow → Bool
same_key user_id title_id group_id c =
    str_eq c.user_id user_id && str_eq c.title_id title_id && str_eq c.group_id group_id

unfoldable pub owned_row : Str → Str → CommentRow → Bool
owned_row id user_id c = str_eq c.id id && str_eq c.user_id user_id

unfoldable pub insert_comment_checked : CommentRow → Tables → Result (CommentRow × Tables)
insert_comment_checked row t =
    if any (λ c. str_eq c.id row.id || same_key row.user_id row.title_id row.group_id c) t.comments
    then err unique_violation
    else if has_group row.group_id t
    then ok (row, record t { comments = t.comments ++ row ∷ [] })
    else err foreign_key_violation

unfoldable pub insert_comment : CommentRow → Exec CommentRow
unfolding insert_comment_checked
insert_comment row = statement λ t. insert_comment_checked row t

abbrev pub updated_comment :
    Str → Str → Option Str → Time → Tables → Option CommentRow → Result (CommentRow × Tables)
updated_comment id user_id text at t none = err no_rows
updated_comment id user_id text at t (some c) = ok (
  record c { comment = text; updated_at = at },
  record t {
    comments =
        update_where (owned_row id user_id) (λ x. record x { comment = text; updated_at = at })
          t.comments;
  },
)

-- Returns the row that the primary key names.
unfoldable pub update_comment_row : Str → Str → Option Str → Time → Exec CommentRow
update_comment_row id user_id text at =
    statement λ t. updated_comment id user_id text at t (find (owned_row id user_id) t.comments)

unfoldable pub get_comment_row_by_id : Str → Str → Exec CommentRow
get_comment_row_by_id id user_id =
    select λ t. or_raise no_rows (find (owned_row id user_id) t.comments)

unfoldable pub get_user_comment_row_by_title : Str → Str → Str → Exec CommentRow
get_user_comment_row_by_title title_id user_id group_id =
    select λ t. or_raise no_rows (find (same_key user_id title_id group_id) t.comments)

unfoldable pub get_comment_rows_by_title_id : Str → Str → Exec (List CommentRow)
get_comment_rows_by_title_id title_id group_id =
    select
      λ t. ok (filter (λ c. str_eq c.title_id title_id && str_eq c.group_id group_id) t.comments)

unfoldable pub in_group : Str → Str → Str → CommentRow → Bool
in_group id user_id group_id c =
    str_eq c.id id && str_eq c.user_id user_id && str_eq c.group_id group_id

-- The seasons go with their comment, ON DELETE CASCADE.
abbrev pub delete_in_group : Str → Str → Str → Tables → Tables
delete_in_group id user_id group_id t = record t {
  comments = filter (λ c. not (in_group id user_id group_id c)) t.comments;
  comment_seasons =
      if any (in_group id user_id group_id) t.comments
      then filter (λ s. not (str_eq s.comment_id id)) t.comment_seasons
      else t.comment_seasons;
}

-- The result is the number of rows deleted.
unfoldable pub delete_comment_row : Str → Str → Str → Exec ℕ
delete_comment_row id user_id group_id = statement λ t. ok (
  length (filter (in_group id user_id group_id) t.comments),
  delete_in_group id user_id group_id t,
)

unfoldable pub season_of : Str → CommentSeasonRow → Bool
season_of id s = str_eq s.comment_id id

unfoldable pub get_comment_seasons : Str → Exec (List CommentSeasonRow)
get_comment_seasons id = select λ t. ok (filter (season_of id) t.comment_seasons)

unfoldable pub get_comment_seasons_by_comment_ids : List Str → Exec (List CommentSeasonRow)
get_comment_seasons_by_comment_ids ids =
    select λ t. ok (filter (λ s. any (str_eq s.comment_id) ids) t.comment_seasons)

unfoldable pub delete_comment_seasons : Str → Exec (Unit {0})
delete_comment_seasons id = statement λ t.
    ok (tt, record t { comment_seasons = filter (λ s. not (season_of id s)) t.comment_seasons })

unfoldable pub insert_comment_season_checked :
    CommentSeasonRow → Tables → Result (Unit {0} × Tables)
insert_comment_season_checked row t =
    if any (λ s. season_of row.comment_id s && str_eq s.season row.season) t.comment_seasons
    then err unique_violation
    else if any (λ c. str_eq c.id row.comment_id) t.comments
    then ok (tt, record t { comment_seasons = t.comment_seasons ++ row ∷ [] })
    else err foreign_key_violation

unfoldable pub insert_comment_season : CommentSeasonRow → Exec (Unit {0})
unfolding insert_comment_season_checked
insert_comment_season row = statement λ t. insert_comment_season_checked row t
