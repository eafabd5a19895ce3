-- ===== src/Services/Comments/Keyed.antt =====
-- The writes of the comments service keep the keys of the tables.
use aftercredits_backend.Base.{Option, none, some, [], ◌∷◌, Str, ℤ}
use aftercredits_backend.Models as M
use aftercredits_backend.Models.{SeasonsComments, SeasonCommentItem, Title}
use aftercredits_backend.Database.Exec.{World, Result, ok, err}
use aftercredits_backend.Database.Shapes.{kept, Keeps, Keeps-bind, keeps_rules}
use aftercredits_backend.Database.Comments.Keys.{
  HasCommentKeys, Keyed-insert_comment_season, keyed_comments,
}
use aftercredits_backend.Postgres.Comments
use aftercredits_backend.Postgres.Comments.{insert_each_season, insert_comment_seasons}
use aftercredits_backend.Postgres.Comments.Reads.{Keeps-get_user_comment_by_title_id}
use aftercredits_backend.Services.Comments.{
  NewComment, UpdateCommentRequest, add_season, add_comment_for_season, add_comment, rewrite_season,
  update_comment_season, update_comment, store_remaining, delete_comment, delete_comment_season,
}

Keyed-insert_each :
    (id : Str) (m : SeasonsComments) → Keeps HasCommentKeys (insert_each_season id m)
unfolding insert_each_season
Keyed-insert_each id [] = search keyed_comments
Keyed-insert_each id ((k, item) ∷ m) =
    let rest = Keyed-insert_each id m in Keeps-bind _ _ (Keyed-insert_comment_season _) (λ _. rest)

Keyed-insert_seasons :
    (id : Str) (m : Option SeasonsComments) → Keeps HasCommentKeys (insert_comment_seasons id m)
unfolding insert_comment_seasons
Keyed-insert_seasons id none = search keyed_comments
Keyed-insert_seasons id (some m) = Keyed-insert_each id m

Keyed-add : (c : M.Comment) → Keeps HasCommentKeys (Comments.add_comment c)
unfolding Comments.add_comment
Keyed-add c = search (keyed_comments, Keyed-insert_seasons) depth 12

Keyed-update :
    (c : M.Comment) (user_id : Str) → Keeps HasCommentKeys (Comments.update_comment c user_id)
unfolding Comments.update_comment
Keyed-update c user_id = search (keyed_comments, Keyed-insert_seasons) depth 12

Keyed-delete :
    (id user_id group_id : Str) → Keeps HasCommentKeys (Comments.delete_comment id user_id group_id)
unfolding Comments.delete_comment
Keyed-delete id user_id group_id = search keyed_comments

ruleset keyed_writes =
    (keeps_rules, Keyed-add, Keyed-update, Keyed-delete, Keeps-get_user_comment_by_title_id)

Keyed-add_season :
    (new : NewComment) (user_id : Str) (title : Title) (key : Str) (r : Result M.Comment)
    → Keeps HasCommentKeys (add_season new user_id title key r)
unfolding add_season
Keyed-add_season new user_id title key (ok r) = search keyed_writes depth 9
Keyed-add_season new user_id title key (err e) = search keyed_writes depth 9

Keyed-add_comment_for_season :
    (new : NewComment) (user_id : Str) (title : Title) (n : Option ℤ)
    → Keeps HasCommentKeys (add_comment_for_season new user_id title n)
unfolding add_comment_for_season
Keyed-add_comment_for_season new user_id title none = search keyed_writes
Keyed-add_comment_for_season new user_id title (some n) = search (keyed_writes, Keyed-add_season)

Keyed-add_comment :
    (new : NewComment) (user_id : Str) (title : Title)
    → Keeps HasCommentKeys (add_comment new user_id title)
unfolding add_comment
Keyed-add_comment new user_id title = search (keyed_writes, Keyed-add_comment_for_season) depth 9

Keyed-rewrite_season :
    (user_id text key : Str) (c : M.Comment) (item : Option SeasonCommentItem)
    → Keeps HasCommentKeys (rewrite_season user_id text key c item)
unfolding rewrite_season
Keyed-rewrite_season user_id text key c none = search keyed_writes
Keyed-rewrite_season user_id text key c (some item) = search keyed_writes

Keyed-update_season :
    (group_id id user_id : Str) (req : UpdateCommentRequest) (title : Title) (n : Option ℤ)
    → Keeps HasCommentKeys (update_comment_season group_id id user_id req title n)
unfolding update_comment_season
Keyed-update_season group_id id user_id req title none = search keyed_writes
Keyed-update_season group_id id user_id req title (some n) =
    search (keyed_writes, Keyed-rewrite_season) depth 9

Keyed-update_comment :
    (group_id id user_id : Str) (req : UpdateCommentRequest) (title : Title)
    → Keeps HasCommentKeys (update_comment group_id id user_id req title)
unfolding update_comment
Keyed-update_comment group_id id user_id req title =
    search (keyed_writes, Keyed-update_season) depth 12

Keyed-store_remaining :
    (user_id group_id : Str) (c : M.Comment) (m : SeasonsComments)
    → Keeps HasCommentKeys (store_remaining user_id group_id c m)
unfolding store_remaining
Keyed-store_remaining user_id group_id c [] = search keyed_writes
Keyed-store_remaining user_id group_id c (x ∷ m) = search keyed_writes

Keyed-delete_comment :
    (id user_id group_id : Str) → Keeps HasCommentKeys (delete_comment id user_id group_id)
unfolding delete_comment
Keyed-delete_comment id user_id group_id = search keyed_writes

Keyed-delete_comment_season :
    (group_id id user_id : Str) (season : ℤ) (title : Title)
    → Keeps HasCommentKeys (delete_comment_season group_id id user_id season title)
unfolding delete_comment_season
Keyed-delete_comment_season group_id id user_id season title =
    search (keyed_writes, Keyed-store_remaining) depth 12

-- A request that writes comments, with the title that the handler loaded.
pub data CommentCall : Type 0 where
  add : NewComment → Title → CommentCall
  update : Str → Str → UpdateCommentRequest → Title → CommentCall
  remove : Str → Str → CommentCall
  remove_season : Str → Str → ℤ → Title → CommentCall

unfoldable pub serve_comment : World → Str × CommentCall → World
serve_comment w (user_id, add new title) = (add_comment new user_id title w).1
serve_comment w (user_id, update group_id id req title) =
    (update_comment group_id id user_id req title w).1
serve_comment w (user_id, remove group_id id) = (delete_comment id user_id group_id w).1
serve_comment w (user_id, remove_season group_id id season title) =
    (delete_comment_season group_id id user_id season title w).1

pub serve_comment-HasCommentKeys :
    (w : World) (c : Str × CommentCall)
    → HasCommentKeys w.db
    → HasCommentKeys (serve_comment w c).db
unfolding serve_comment
serve_comment-HasCommentKeys w (user_id, add new title) h =
    kept HasCommentKeys _ w (Keyed-add_comment new user_id title) h
serve_comment-HasCommentKeys w (user_id, update group_id id req title) h =
    kept HasCommentKeys _ w (Keyed-update_comment group_id id user_id req title) h
serve_comment-HasCommentKeys w (user_id, remove group_id id) h =
    kept HasCommentKeys _ w (Keyed-delete_comment id user_id group_id) h
serve_comment-HasCommentKeys w (user_id, remove_season group_id id season title) h =
    kept HasCommentKeys _ w (Keyed-delete_comment_season group_id id user_id season title) h
