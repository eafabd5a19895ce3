-- ===== src/Postgres/Comments.antt =====
-- internal/postgres/comments.go, and the comment mappers of mappers.go
pub mod Reads
pub mod RoundTrip
use aftercredits_backend.Base.{ℕ, Option, none, some, List, [], ◌∷◌, ◌++◌, map, Str}
use aftercredits_backend.Base.Assoc.{Map, lookup, insert}
use aftercredits_backend.Models.{Comment, SeasonCommentItem, SeasonsComments}
use aftercredits_backend.Database.Exec.{
  CommentRow, CommentSeasonRow, Exec, pure, in_tx, map_err, now, new_string, ◌>>=◌, ◌>>◌,
}
use aftercredits_backend.Database.Comments
use aftercredits_backend.Postgres.Titles.{not_found, duplicated}

unfoldable pub comment_row_to_model : CommentRow → Option SeasonsComments → Comment
comment_row_to_model c seasons = record {
  id = c.id;
  title_id = c.title_id;
  user_id = c.user_id;
  group_id = c.group_id;
  comment = c.comment;
  seasons_comments = seasons;
  created_at = c.created_at;
  updated_at = c.updated_at;
}

unfoldable pub comment_season_row_to_item : CommentSeasonRow → SeasonCommentItem
comment_season_row_to_item s = record {
  comment = s.comment;
  added_at = s.added_at;
  updated_at = s.updated_at;
}

unfoldable pub collect_comment_seasons : SeasonsComments → List CommentSeasonRow → SeasonsComments
unfolding comment_season_row_to_item
collect_comment_seasons out [] = out
collect_comment_seasons out (r ∷ rows) =
    collect_comment_seasons (insert r.season (comment_season_row_to_item r) out) rows

unfoldable pub assemble_seasons_comments : List CommentSeasonRow → Option SeasonsComments
unfolding collect_comment_seasons
assemble_seasons_comments [] = none
assemble_seasons_comments (r ∷ rows) = some (collect_comment_seasons [] (r ∷ rows))

unfoldable pub insert_each_season : Str → SeasonsComments → Exec (Unit {0})
insert_each_season id [] = pure tt
insert_each_season id ((season, item) ∷ seasons) = do
  Comments.insert_comment_season (record {
    comment_id = id;
    season = season;
    comment = item.comment;
    added_at = item.added_at;
    updated_at = item.updated_at;
  })
  insert_each_season id seasons

unfoldable pub insert_comment_seasons : Str → Option SeasonsComments → Exec (Unit {0})
unfolding insert_each_season
insert_comment_seasons id none = pure tt
insert_comment_seasons id (some seasons) = insert_each_season id seasons

-- The body of the transaction of AddComment.
unfoldable pub add_comment_tx : Comment → Exec Comment
add_comment_tx comment = do
  id ← new_string
  at ← now
  row ← map_err duplicated (
      Comments.insert_comment (record {
        id = id;
        title_id = comment.title_id;
        user_id = comment.user_id;
        comment = comment.comment;
        created_at = at;
        updated_at = at;
        group_id = comment.group_id;
      }))
  insert_comment_seasons id comment.seasons_comments
  pure (comment_row_to_model row comment.seasons_comments)

unfoldable pub add_comment : Comment → Exec Comment
unfolding add_comment_tx
add_comment comment = in_tx (add_comment_tx comment)

unfoldable pub with_comment_seasons : CommentRow → Exec Comment
with_comment_seasons row = do
  season_rows ← Comments.get_comment_seasons row.id
  pure (comment_row_to_model row (assemble_seasons_comments season_rows))

unfoldable pub get_comment_by_id : Str → Str → Exec Comment
unfolding with_comment_seasons
get_comment_by_id comment_id user_id = do
  row ← map_err not_found (Comments.get_comment_row_by_id comment_id user_id)
  with_comment_seasons row

unfoldable pub get_user_comment_by_title_id : Str → Str → Str → Exec Comment
unfolding with_comment_seasons
get_user_comment_by_title_id title_id user_id group_id = do
  row ← map_err not_found (Comments.get_user_comment_row_by_title title_id user_id group_id)
  with_comment_seasons row

-- seasonsByComment[sr.CommentID] = append(seasonsByComment[sr.CommentID], sr)
abbrev rows_or_empty : Option (List CommentSeasonRow) → List CommentSeasonRow
rows_or_empty none = []
rows_or_empty (some rows) = rows

unfoldable pub group_comment_seasons :
    Map (List CommentSeasonRow) → List CommentSeasonRow → Map (List CommentSeasonRow)
group_comment_seasons m [] = m
group_comment_seasons m (sr ∷ rows) =
    group_comment_seasons
      (insert sr.comment_id (rows_or_empty (lookup sr.comment_id m) ++ sr ∷ []) m) rows

unfoldable pub assemble_each : Map (List CommentSeasonRow) → List CommentRow → List Comment
assemble_each m [] = []
assemble_each m (r ∷ rows) =
    comment_row_to_model r (assemble_seasons_comments (rows_or_empty (lookup r.id m)))
    ∷ assemble_each m rows

unfoldable pub assemble_comment_rows : List CommentRow → Exec (List Comment)
assemble_comment_rows [] = pure []
assemble_comment_rows (r ∷ rows) = do
  season_rows ← Comments.get_comment_seasons_by_comment_ids (map (λ x. x.id) (r ∷ rows))
  pure (assemble_each (group_comment_seasons [] season_rows) (r ∷ rows))

unfoldable pub get_comments_by_title_id : Str → Str → Exec (List Comment)
unfolding assemble_comment_rows
get_comments_by_title_id title_id group_id = do
  rows ← Comments.get_comment_rows_by_title_id title_id group_id
  assemble_comment_rows rows

-- The body of the transaction of UpdateComment.
unfoldable pub update_comment_tx : Comment → Str → Exec Comment
update_comment_tx comment user_id = do
  at ← now
  row ← map_err not_found (Comments.update_comment_row comment.id user_id comment.comment at)
  Comments.delete_comment_seasons row.id
  insert_comment_seasons row.id comment.seasons_comments
  pure (comment_row_to_model row comment.seasons_comments)

unfoldable pub update_comment : Comment → Str → Exec Comment
unfolding update_comment_tx
update_comment comment user_id = in_tx (update_comment_tx comment user_id)

unfoldable pub delete_comment : Str → Str → Str → Exec ℕ
delete_comment comment_id user_id group_id = Comments.delete_comment_row comment_id user_id group_id
