-- ===== src/Services/Comments/Isolation.antt =====
-- A request for comments changes only the comments of its user in its group.
use aftercredits_backend.Base.{
  ◌≡◌, refl, false, not, Option, none, some, List, [], ◌∷◌, Str, str_eq, str_eq_refl, ℤ, find, ◌&&◌,
}
use aftercredits_backend.Base.Text.{itoa}
use aftercredits_backend.Models as M
use aftercredits_backend.Models.{no_rows, SeasonsComments, SeasonCommentItem, Title}
use aftercredits_backend.Database.Exec.{
  CommentRow, Tables, World, Result, ok, err, Exec, or_raise, raise, map_err, ◌>>=◌,
}
use aftercredits_backend.Database.Rules.{
  Hoare, Outcome, Selected, Hoare-select, Hoare-bind, Hoare-map_err, Hoare-attempt, Hoare-pure,
  Hoare-weaken, Hoare-raise, Hoare-if,
}
use aftercredits_backend.Database.Shapes.{Keeps, Keeps-bind, keeps_rules}
use aftercredits_backend.Database.Comments as Queries
use aftercredits_backend.Database.Comments.{same_key}
use aftercredits_backend.Database.Comments.Keys.{HasCommentKeys}
use aftercredits_backend.Database.Comments.Scope.{
  foreign, others, Iso, found-Named, Scoped-insert_comment_season, Scoped-delete_comment_seasons,
  Scoped-insert_comment, Scoped-update_comment_row, Scoped-delete_comment_row, Scoped-delete_named,
}
use aftercredits_backend.Postgres.Comments
use aftercredits_backend.Postgres.Comments.{insert_each_season, insert_comment_seasons}
use aftercredits_backend.Services.Comments.{
  Comment, NewComment, UpdateCommentRequest, missing_comment, add_comment_for_movie,
  create_with_season, extend_with_season, add_season, add_comment_for_season, add_comment,
  update_comment_for_movie, rewrite_season, update_comment_season, update_comment, store_remaining,
  delete_comment, delete_comment_season,
}
use aftercredits_backend.Services.Comments.Keyed.{
  CommentCall, add, update, remove, remove_season, serve_comment,
}

module _ (R : List CommentRow → Type 0) where
  Scoped-insert_each :
      (id : Str) (m : SeasonsComments) → Keeps (λ t. R t.comments) (insert_each_season id m)
  unfolding insert_each_season
  Scoped-insert_each id [] = search keeps_rules
  Scoped-insert_each id ((k, item) ∷ m) =
      let rest = Scoped-insert_each id m in
      Keeps-bind _ _ (Scoped-insert_comment_season R _) (λ _. rest)

  Scoped-insert_seasons :
      (id : Str) (m : Option SeasonsComments)
      → Keeps (λ t. R t.comments) (insert_comment_seasons id m)
  unfolding insert_comment_seasons
  Scoped-insert_seasons id none = search keeps_rules
  Scoped-insert_seasons id (some m) = Scoped-insert_each id m

own-foreign : (g u : Str) → not (str_eq g g && str_eq u u) ≡ false
own-foreign g u = rw (str_eq_refl g, str_eq_refl u) refl

module _ (g u : Str) (before : List CommentRow) where
  abbrev Same : List CommentRow → Type 0
  Same cs = others g u cs ≡ before

  Scoped-add :
      (c : M.Comment)
      → foreign g u (record {
        id = [];
        title_id = [];
        user_id = c.user_id;
        comment = none;
        created_at = 0;
        updated_at = 0;
        group_id = c.group_id;
      })
        ≡ false
      → Keeps (λ t. Same t.comments) (Comments.add_comment c)
  unfolding Comments.add_comment
  Scoped-add c own =
      let ins = λ (row : CommentRow) (e : foreign g u row ≡ false).
        Scoped-insert_comment g u before row e in
      let seasons = Scoped-insert_seasons Same in search (keeps_rules, ins, seasons, own) depth 12

  Scoped-update :
      (c : M.Comment) → Keeps (λ t. Iso g u c.id before t.comments) (Comments.update_comment c u)
  unfolding Comments.update_comment
  Scoped-update c =
      let row = Scoped-update_comment_row g u before c.id in
      let del = Scoped-delete_comment_seasons (Iso g u c.id before) in
      let seasons = Scoped-insert_seasons (Iso g u c.id before) in
      search (keeps_rules, row, del, seasons) depth 12

  Scoped-delete :
      (id other : Str)
      → Keeps (λ t. Iso g u other before t.comments) (Comments.delete_comment id u g)
  unfolding Comments.delete_comment
  Scoped-delete id other = Scoped-delete_named g u before id other

  found-Iso :
      (title_id : Str) (t : Tables) (r : Option CommentRow)
      → find (same_key u title_id g) t.comments ≡ r
      → HasCommentKeys t
      → Same t.comments
      → Selected
          (λ c s. Iso g u c.id before s.comments)
          (λ _ s. Same s.comments)
          t
          (or_raise no_rows r)
  found-Iso title_id t none e k h = h
  found-Iso title_id t (some r) e k h = record {
    same = h;
    named = found-Named u title_id g r t.comments k.comments e;
  }

  -- The comment that is looked up is the user's in the group.
  lookup_hoare :
      (title_id : Str)
      → Hoare
          (λ t. HasCommentKeys t × Same t.comments)
          (Comments.get_user_comment_by_title_id title_id u g)
          (λ c s. Iso g u c.id before s.comments)
          (λ _ s. Same s.comments)
  unfolding Comments.get_user_comment_by_title_id Queries.get_user_comment_row_by_title
      Queries.get_comment_seasons Comments.comment_row_to_model
  lookup_hoare title_id =
      Hoare-bind {R = λ r s. Iso g u r.id before s.comments} _ _
        (Hoare-map_err _ _
          (Hoare-select _ (λ t p. p.1) (λ t p. found-Iso title_id t _ refl p.0 p.1)))
        λ row.
          Hoare-bind {R = λ _ s. Iso g u row.id before s.comments} _ _
            (Hoare-select _ (λ t p. p.same) (λ t p. p)) λ rows. Hoare-pure _ (λ t p. p)

  module _ {B : Type 0} where
    named_to_same :
        (id : Str) (m : Exec B)
        → Keeps (λ t. Iso g u id before t.comments) m
        → Hoare
            (λ t. Iso g u id before t.comments)
            m
            (λ _ s. Same s.comments)
            (λ _ s. Same s.comments)
    named_to_same id m k = Hoare-weaken m (λ t p. p) (λ a t p. p.same) (λ e t p. p.same) k.hoare

    -- What follows the lookup may write by the id that it found.
    after_lookup :
        (title_id : Str) (f : M.Comment → Exec B)
        → ((c : M.Comment) → Keeps (λ t. Iso g u c.id before t.comments) (f c))
        → Hoare
            (λ t. HasCommentKeys t × Same t.comments)
            (map_err missing_comment (Comments.get_user_comment_by_title_id title_id u g) >>= f)
            (λ _ s. Same s.comments)
            (λ _ s. Same s.comments)
    after_lookup title_id f k =
        Hoare-bind _ _ (Hoare-map_err _ _ (lookup_hoare title_id))
          λ c. named_to_same c.id (f c) (k c)

  Scoped-create :
      (new : NewComment) (key : Str)
      → foreign g u (record {
        id = [];
        title_id = [];
        user_id = u;
        comment = none;
        created_at = 0;
        updated_at = 0;
        group_id = new.group_id;
      })
        ≡ false
      → Keeps (λ t. Same t.comments) (create_with_season new u key)
  unfolding create_with_season
  Scoped-create new key own = search (keeps_rules, Scoped-add, own) depth 9

  Scoped-movie :
      (new : NewComment)
      → foreign g u (record {
        id = [];
        title_id = [];
        user_id = u;
        comment = none;
        created_at = 0;
        updated_at = 0;
        group_id = new.group_id;
      })
        ≡ false
      → Keeps (λ t. Same t.comments) (add_comment_for_movie new u)
  unfolding add_comment_for_movie
  Scoped-movie new own = search (keeps_rules, Scoped-add, own) depth 9

  Scoped-extend :
      (new : NewComment) (key : Str) (c : M.Comment)
      → Keeps (λ t. Iso g u c.id before t.comments) (extend_with_season new u key c)
  unfolding extend_with_season
  Scoped-extend new key c =
      let write =
        λ (d : Option SeasonsComments). Scoped-update (record c { seasons_comments = d }) in
      search (keeps_rules, write) depth 9

  Scoped-rewrite :
      (text key : Str) (c : M.Comment) (item : Option SeasonCommentItem)
      → Keeps (λ t. Iso g u c.id before t.comments) (rewrite_season u text key c item)
  unfolding rewrite_season
  Scoped-rewrite text key c none = search keeps_rules
  Scoped-rewrite text key c (some item) = search (keeps_rules, Scoped-update) depth 9

  Scoped-remaining :
      (c : M.Comment) (m : SeasonsComments)
      → Keeps (λ t. Iso g u c.id before t.comments) (store_remaining u g c m)
  unfolding store_remaining
  Scoped-remaining c [] = search (keeps_rules, Scoped-delete) depth 9
  Scoped-remaining c (x ∷ m) = search (keeps_rules, Scoped-update) depth 9

  -- A request that keeps the other comments, from tables with keys.
  abbrev Isolated : {B : Type 0} → Exec B → Type 0
  Isolated m =
      Hoare (λ t. HasCommentKeys t × Same t.comments) m (λ _ s. Same s.comments)
        (λ _ s. Same s.comments)

  refused : {B : Type 0} (e : M.Error) → Isolated (raise {A = B} e)
  refused e = Hoare-raise e (λ t p. p.1)

  Isolated-update_movie :
      (id : Str) (req : UpdateCommentRequest) (title : Title)
      → Isolated (update_comment_for_movie g id u req title)
  unfolding update_comment_for_movie
  Isolated-update_movie id req title =
      after_lookup title.id _ λ c. search (keeps_rules, Scoped-update) depth 9

  Isolated-update_season :
      (id : Str) (req : UpdateCommentRequest) (title : Title) (n : Option ℤ)
      → Isolated (update_comment_season g id u req title n)
  unfolding update_comment_season
  Isolated-update_season id req title none = refused _
  Isolated-update_season id req title (some n) =
      after_lookup title.id _ λ c. search (keeps_rules, Scoped-rewrite) depth 9

  Isolated-update :
      (id : Str) (req : UpdateCommentRequest) (title : Title)
      → Isolated (update_comment g id u req title)
  unfolding update_comment
  Isolated-update id req title =
      search (Hoare-if, refused, Isolated-update_season, Isolated-update_movie) depth 9

  Isolated-delete_season :
      (id : Str) (season : ℤ) (title : Title) → Isolated (delete_comment_season g id u season title)
  unfolding delete_comment_season
  Isolated-delete_season id season title =
      search (Hoare-if, refused, after_lookup, Scoped-remaining, keeps_rules) depth 12

  Isolated-delete : (id : Str) → Isolated (delete_comment id u g)
  unfolding delete_comment Comments.delete_comment
  Isolated-delete id =
      Hoare-weaken _ (λ t p. p.1) (λ a t p. p) (λ e t p. p)
        (Scoped-delete_comment_row g u before id).hoare

module _ (u : Str) (before : List CommentRow) where
  Isolated-add_season :
      (new : NewComment) (title : Title) (key : Str) (r : Result M.Comment)
      → Hoare
          (λ t.
            Selected
              (λ c s. Iso new.group_id u c.id before s.comments)
              (λ _ s. others new.group_id u s.comments ≡ before)
              t
              r)
          (add_season new u title key r)
          (λ _ s. others new.group_id u s.comments ≡ before)
          (λ _ s. others new.group_id u s.comments ≡ before)
  unfolding add_season
  Isolated-add_season new title key (ok c) =
      let extend =
        named_to_same new.group_id u before c.id _
          (Scoped-extend new.group_id u before new key c) in
      let no = λ (e : M.Error).
        Hoare-raise {A = Comment} {P = λ t. Iso new.group_id u c.id before t.comments}
          {Q = λ _ s. others new.group_id u s.comments ≡ before}
          {E = λ _ s. others new.group_id u s.comments ≡ before} e (λ t p. p.same) in
      search (Hoare-if, extend, no)
  Isolated-add_season new title key (err e) =
      let create =
        (Scoped-create new.group_id u before new key (own-foreign new.group_id u)).hoare in
      let no = λ (e : M.Error).
        Hoare-raise {A = Comment} {P = λ t. others new.group_id u t.comments ≡ before}
          {Q = λ _ s. others new.group_id u s.comments ≡ before}
          {E = λ _ s. others new.group_id u s.comments ≡ before} e (λ t p. p) in
      search (Hoare-if, create, no)

  Isolated-add_for_season :
      (new : NewComment) (title : Title) (n : Option ℤ)
      → Isolated new.group_id u before (add_comment_for_season new u title n)
  unfolding add_comment_for_season
  Isolated-add_for_season new title none = refused new.group_id u before _
  Isolated-add_for_season new title (some n) =
      Hoare-bind _ _ (Hoare-attempt _ (lookup_hoare new.group_id u before new.title_id))
        λ r. Isolated-add_season new title (itoa n) r

  Isolated-add :
      (new : NewComment) (title : Title) → Isolated new.group_id u before (add_comment new u title)
  unfolding add_comment
  Isolated-add new title =
      let season = Isolated-add_for_season new title new.season in
      let movie : Isolated new.group_id u before (add_comment_for_movie new u) =
        Hoare-weaken _ (λ t p. p.1) (λ a t p. p) (λ e t p. p)
          (Scoped-movie new.group_id u before new (own-foreign new.group_id u)).hoare in
      search (Hoare-if, refused, season, movie) depth 9

-- The group that a request is for.
abbrev pub group_of : CommentCall → Str
group_of (add new title) = new.group_id
group_of (update group_id id req title) = group_id
group_of (remove group_id id) = group_id
group_of (remove_season group_id id season title) = group_id

after_call :
    {B : Type 0} (g u : Str) (m : Exec B) (w : World)
    → Isolated g u (others g u w.db.comments) m
    → HasCommentKeys w.db
    → others g u (m w).1.db.comments ≡ others g u w.db.comments
after_call {B} g u m w i k = go (m w) (i.at w (k, refl))
  where
    go :
        (x : Result B × World)
        → Outcome
            (λ _ s. others g u s.comments ≡ others g u w.db.comments)
            (λ _ s. others g u s.comments ≡ others g u w.db.comments)
            x
        → others g u x.1.db.comments ≡ others g u w.db.comments
    go (ok a, w') o = o
    go (err e, w') o = o

-- If the tables hold the keys of the comments, a request by a user for a group (adding, updating
-- or deleting a comment, or deleting one of its seasons) leaves every comment row of another
-- user or another group as it was, whatever id it names, whatever call fails and whatever its
-- outcome.
pub serve_comment_isolated :
    (w : World) (user_id : Str) (c : CommentCall)
    → HasCommentKeys w.db
    → others (group_of c) user_id (serve_comment w (user_id, c)).db.comments
      ≡ others (group_of c) user_id w.db.comments
unfolding serve_comment
serve_comment_isolated w u (add new title) k =
    after_call new.group_id u _ w (Isolated-add u _ new title) k
serve_comment_isolated w u (update g id req title) k =
    after_call g u _ w (Isolated-update g u _ id req title) k
serve_comment_isolated w u (remove g id) k = after_call g u _ w (Isolated-delete g u _ id) k
serve_comment_isolated w u (remove_season g id season title) k =
    after_call g u _ w (Isolated-delete_season g u _ id season title) k
