-- ===== src/Postgres/Comments/Reads.antt =====
-- The read of internal/postgres/comments.go that the writes start with writes nothing.
use aftercredits_backend.Base.{Str}
use aftercredits_backend.Database.Exec.{Tables}
use aftercredits_backend.Database.Shapes.{Keeps, keeps_rules}
use aftercredits_backend.Database.Comments
use aftercredits_backend.Postgres.Comments.{get_user_comment_by_title_id}

module _ (P : Tables → Type 0) where
  pub Keeps-get_user_comment_by_title_id :
      (title_id user_id group_id : Str)
      → Keeps P (get_user_comment_by_title_id title_id user_id group_id)
  unfolding get_user_comment_by_title_id Comments.get_user_comment_row_by_title
      Comments.get_comment_seasons
  Keeps-get_user_comment_by_title_id title_id user_id group_id = search keeps_rules
