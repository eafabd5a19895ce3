-- ===== src/Services/Comments/Atomicity.antt =====
-- A write of the comments service that returns an error has changed nothing, whatever call failed.
use aftercredits_backend.Base.{
  ◌≡◌, ◌==◌, ==_iff, Option, none, some, [], ◌∷◌, Str, ℤ, length, filter, filter_none, ◌∙◌,
}
use aftercredits_backend.Models as M
use aftercredits_backend.Models.{Error, SeasonsComments, SeasonCommentItem, Title}
use aftercredits_backend.Database.Exec.{Tables, World, Result, ok, err}
use aftercredits_backend.Database.Rules.{
  Hoare-statement, Hoare-bind, Hoare-if, Hoare-raise, Hoare-pure, Hoare,
}
use aftercredits_backend.Database.Shapes.{Atomic, unchanged_on_error, atomic_rules}
use aftercredits_backend.Database.Comments as Queries
use aftercredits_backend.Database.Comments.{in_group, delete_in_group}
use aftercredits_backend.Postgres.Comments
use aftercredits_backend.Postgres.Comments.Reads.{Keeps-get_user_comment_by_title_id}
use aftercredits_backend.Services.Comments.{
  NewComment, UpdateCommentRequest, add_comment_for_movie, add_season, add_comment_for_season,
  add_comment, update_comment_for_movie, rewrite_season, update_comment_season, update_comment,
  store_remaining, delete_comment_season,
}

delete_nothing :
    (t : Tables) (id user_id group_id : Str)
    → length (filter (in_group id user_id group_id) t.comments) ≡ 0
    → delete_in_group id user_id group_id t ≡ t
delete_nothing t id user_id group_id h =
    let (kept, none_owned) = filter_none (in_group id user_id group_id) t.comments h in
    rw (kept, none_owned)

-- An error leaves the tables as they were, and so does a count of 0.
delete_comment_hoare :
    (t : Tables) (id user_id group_id : Str)
    → Hoare
        (λ s. s ≡ t)
        (Comments.delete_comment id user_id group_id)
        (λ n s. n ≡ 0 → s ≡ t)
        (λ _ s. s ≡ t)
unfolding Comments.delete_comment Queries.delete_comment_row
delete_comment_hoare t id user_id group_id =
    Hoare-statement {Q = λ n s. n ≡ 0 → s ≡ t} _ (λ s e. e)
      (λ s e z. delete_nothing s id user_id group_id z ∙ e)

module _ (t : Tables) where
  Atomic-add : (c : M.Comment) → Atomic t (Comments.add_comment c)
  unfolding Comments.add_comment
  Atomic-add c = search atomic_rules

  Atomic-update : (c : M.Comment) (user_id : Str) → Atomic t (Comments.update_comment c user_id)
  unfolding Comments.update_comment
  Atomic-update c user_id = search atomic_rules

  ruleset writes = (atomic_rules, Atomic-add, Atomic-update, Keeps-get_user_comment_by_title_id)

  Atomic-movie : (new : NewComment) (user_id : Str) → Atomic t (add_comment_for_movie new user_id)
  unfolding add_comment_for_movie
  Atomic-movie new user_id = search writes

  Atomic-add_season :
      (new : NewComment) (user_id : Str) (title : Title) (key : Str) (r : Result M.Comment)
      → Atomic t (add_season new user_id title key r)
  unfolding add_season
  Atomic-add_season new user_id title key (ok r) = search writes depth 9
  Atomic-add_season new user_id title key (err e) = search writes depth 9

  Atomic-add_comment_for_season :
      (new : NewComment) (user_id : Str) (title : Title) (n : Option ℤ)
      → Atomic t (add_comment_for_season new user_id title n)
  unfolding add_comment_for_season
  Atomic-add_comment_for_season new user_id title none = search writes
  Atomic-add_comment_for_season new user_id title (some n) = search (writes, Atomic-add_season)

  Atomic-add_comment :
      (new : NewComment) (user_id : Str) (title : Title) → Atomic t (add_comment new user_id title)
  unfolding add_comment
  Atomic-add_comment new user_id title =
      search (writes, Atomic-add_comment_for_season, Atomic-movie) depth 9

  Atomic-update_movie :
      (group_id id user_id : Str) (req : UpdateCommentRequest) (title : Title)
      → Atomic t (update_comment_for_movie group_id id user_id req title)
  unfolding update_comment_for_movie
  Atomic-update_movie group_id id user_id req title = search writes depth 9

  Atomic-rewrite_season :
      (user_id text key : Str) (c : M.Comment) (item : Option SeasonCommentItem)
      → Atomic t (rewrite_season user_id text key c item)
  unfolding rewrite_season
  Atomic-rewrite_season user_id text key c none = search writes
  Atomic-rewrite_season user_id text key c (some item) = search writes

  Atomic-update_comment_season :
      (group_id id user_id : Str) (req : UpdateCommentRequest) (title : Title) (n : Option ℤ)
      → Atomic t (update_comment_season group_id id user_id req title n)
  unfolding update_comment_season
  Atomic-update_comment_season group_id id user_id req title none = search writes
  Atomic-update_comment_season group_id id user_id req title (some n) =
      search (writes, Atomic-rewrite_season) depth 9

  Atomic-update_comment :
      (group_id id user_id : Str) (req : UpdateCommentRequest) (title : Title)
      → Atomic t (update_comment group_id id user_id req title)
  unfolding update_comment
  Atomic-update_comment group_id id user_id req title =
      search (writes, Atomic-update_comment_season, Atomic-update_movie) depth 9

  Atomic-store_remaining :
      (user_id group_id : Str) (c : M.Comment) (m : SeasonsComments)
      → Atomic t (store_remaining user_id group_id c m)
  unfolding store_remaining
  Atomic-store_remaining user_id group_id c [] = record {
    hoare = Hoare-bind _ _ (delete_comment_hoare t c.id user_id group_id) λ n.
        Hoare-if (n == 0) _ _ (λ z. Hoare-raise _ (λ s q. q ((==_iff n 0).0 z)))
          (λ z. Hoare-pure tt (λ s q. tt));
  }
  Atomic-store_remaining user_id group_id c (x ∷ m) = search writes

  Atomic-delete_comment_season :
      (group_id id user_id : Str) (season : ℤ) (title : Title)
      → Atomic t (delete_comment_season group_id id user_id season title)
  unfolding delete_comment_season
  Atomic-delete_comment_season group_id id user_id season title =
      search (writes, Atomic-store_remaining) depth 12

-- A request to add a comment that returns an error leaves the tables as they were, whatever call
-- to the database failed and whichever check refused it.
pub add_comment_atomic :
    (new : NewComment) (user_id : Str) (title : Title) (w : World) {e : Error}
    → (add_comment new user_id title w).0 ≡ err e
    → (add_comment new user_id title w).1.db ≡ w.db
add_comment_atomic new user_id title w =
    unchanged_on_error (add_comment new user_id title) w (Atomic-add_comment w.db new user_id title)

-- A request to update a comment that returns an error leaves the tables as they were, whatever
-- call to the database failed and whichever check refused it.
pub update_comment_atomic :
    (group_id id user_id : Str) (req : UpdateCommentRequest) (title : Title) (w : World) {e : Error}
    → (update_comment group_id id user_id req title w).0 ≡ err e
    → (update_comment group_id id user_id req title w).1.db ≡ w.db
update_comment_atomic group_id id user_id req title w =
    unchanged_on_error (update_comment group_id id user_id req title) w
      (Atomic-update_comment w.db group_id id user_id req title)

-- A request to delete the comment on a season that returns an error leaves the tables as they
-- were, also when the delete of the whole comment with its last season finds no row.
pub delete_comment_season_atomic :
    (group_id id user_id : Str) (season : ℤ) (title : Title) (w : World) {e : Error}
    → (delete_comment_season group_id id user_id season title w).0 ≡ err e
    → (delete_comment_season group_id id user_id season title w).1.db ≡ w.db
delete_comment_season_atomic group_id id user_id season title w =
    unchanged_on_error (delete_comment_season group_id id user_id season title) w
      (Atomic-delete_comment_season w.db group_id id user_id season title)
