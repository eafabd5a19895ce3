-- ===== src/Postgres/Comments/RoundTrip.antt =====
-- A comment that is added is the one that is read back.
use aftercredits_backend.Base.{
  ℕ, suc, ◌≡◌, refl, true, false, ◌||◌, none, Str, str_eq, str_eq_refl, any,
}
use aftercredits_backend.Base.Distinct.{find-append, any-part, filter-none_match}
use aftercredits_backend.Models.{Comment, Time}
use aftercredits_backend.Database.Exec.{
  CommentRow, Tables, World, ok, pure, select, statement, in_tx, map_err, now, new_string, ◌>>=◌,
}
use aftercredits_backend.Database.Ratings.{has_group}
use aftercredits_backend.Database.Comments as Q
use aftercredits_backend.Postgres.Comments.{
  add_comment, get_user_comment_by_title_id, comment_row_to_model, assemble_seasons_comments,
  insert_comment_seasons, with_comment_seasons,
}

same_key-own : (r : CommentRow) → Q.same_key r.user_id r.title_id r.group_id r ≡ true
unfolding Q.same_key
same_key-own r = rw (str_eq_refl r.user_id, str_eq_refl r.title_id, str_eq_refl r.group_id) refl

module _ (now_at : ℕ → Time) (new_id : ℕ → Str) (t : Tables) (tick : ℕ) where
  -- The world in which no call to the database fails.
  abbrev pub faultless : World
  faultless = record {
    db = t;
    env = record {
      now = now_at;
      new_string = new_id;
      nextval = λ n. n;
      text_lt = λ a b. false;
      range_order = λ n. n;
      fails = λ _. false;
    };
    tick = tick;
  }

  -- When no call to the database fails, a comment without seasons whose new id is not in use,
  -- whose user has none on the title in the group and whose group is stored is added, and
  -- reading the user's comment on the title in the group then returns it with the new id and the
  -- time of the call.
  pub get_user_comment-add_comment :
      (c : Comment)
      → c.seasons_comments ≡ none
      → any
          (λ x. str_eq x.id (new_id (suc tick)) || Q.same_key c.user_id c.title_id c.group_id x)
          t.comments
        ≡ false
      → any (Q.season_of (new_id (suc tick))) t.comment_seasons ≡ false
      → has_group c.group_id t ≡ true
      → (get_user_comment_by_title_id c.title_id c.user_id c.group_id (add_comment c faultless).1).0
        ≡ ok (record c {
          id = new_id (suc tick);
          created_at = now_at (suc (suc tick));
          updated_at = now_at (suc (suc tick));
        })
  unfolding add_comment get_user_comment_by_title_id comment_row_to_model assemble_seasons_comments
      insert_comment_seasons with_comment_seasons ◌>>=◌ pure select statement in_tx map_err now
      new_string Q.insert_comment Q.get_user_comment_row_by_title Q.get_comment_seasons
  get_user_comment-add_comment c none_given free no_seasons known =
      let row : CommentRow = record {
        id = new_id (suc tick);
        title_id = c.title_id;
        user_id = c.user_id;
        comment = c.comment;
        created_at = now_at (suc (suc tick));
        updated_at = now_at (suc (suc tick));
        group_id = c.group_id;
      } in
      rw none_given (
        rw free (
          rw known (
            rw
              (find-append (Q.same_key c.user_id c.title_id c.group_id) t.comments row
                (any-part (λ x. str_eq x.id (new_id (suc tick)))
                  (Q.same_key c.user_id c.title_id c.group_id) t.comments free)
                (same_key-own row))
              (rw (filter-none_match _ t.comment_seasons no_seasons) refl))))
