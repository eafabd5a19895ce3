-- ===== src/Postgres/Ratings/RoundTrip.antt =====
-- A rating that is added is the one that is read back, with its note as the column keeps it.
use aftercredits_backend.Base.{
  ℕ, suc, ◌≡◌, refl, true, false, ◌||◌, none, Str, str_eq, str_eq_refl, any,
}
use aftercredits_backend.Base.Distinct.{find-append, any-part, filter-none_match}
use aftercredits_backend.Models.{UserRating, Note, Time}
use aftercredits_backend.Database.Exec.{
  RatingRow, Tables, World, ok, pure, select, statement, in_tx, map_err, now, new_string, ◌>>=◌,
}
use aftercredits_backend.Database.Ratings.{has_group, to_numeric}
use aftercredits_backend.Database.Ratings as Q
use aftercredits_backend.Postgres.Ratings.{
  add_rating, get_rating_by_user_id_and_title_id, rating_row_to_model, assemble_seasons_ratings,
  insert_rating_seasons, with_seasons,
}

same_key-own : (r : RatingRow) → Q.same_key r.user_id r.title_id r.group_id r ≡ true
unfolding Q.same_key
same_key-own r = rw (str_eq_refl r.user_id, str_eq_refl r.title_id, str_eq_refl r.group_id) refl

module _ (now_at : ℕ → Time) (new_id : ℕ → Str) (t : Tables) (tick : ℕ) where
  -- The world in which no call to the database fails.
  abbrev pub faultless : World
  faultless = record {
    db = t;
    env = record {
      now = now_at;
      new_string = new_id;
      nextval = λ n. n;
      text_lt = λ a b. false;
      range_order = λ n. n;
      fails = λ _. false;
    };
    tick = tick;
  }

  -- When no call to the database fails, a rating without seasons whose new id is not in use,
  -- whose user has none on the title in the group, whose group is stored and whose note fits its
  -- column is added, and reading the user's rating on the title in the group then returns it
  -- with the new id, the time of the call and the note as the column keeps it.
  pub get_rating-add_rating :
      (c : UserRating) (n : Note)
      → c.seasons_ratings ≡ none
      → any
          (λ x. str_eq x.id (new_id (suc tick)) || Q.same_key c.user_id c.title_id c.group_id x)
          t.ratings
        ≡ false
      → any (Q.season_of (new_id (suc tick))) t.rating_seasons ≡ false
      → has_group c.group_id t ≡ true
      → to_numeric c.note ≡ ok n
      → (get_rating_by_user_id_and_title_id c.user_id c.title_id c.group_id
          (add_rating c faultless).1).0
        ≡ ok (record c {
          id = new_id (suc tick);
          note = n;
          created_at = now_at (suc (suc tick));
          updated_at = now_at (suc (suc tick));
        })
  unfolding add_rating get_rating_by_user_id_and_title_id rating_row_to_model
      assemble_seasons_ratings insert_rating_seasons with_seasons ◌>>=◌ pure select statement in_tx
      map_err now new_string Q.insert_rating Q.get_rating_row_by_user_title Q.get_rating_seasons
  get_rating-add_rating c n none_given free no_seasons known fits =
      let row : RatingRow = record {
        id = new_id (suc tick);
        title_id = c.title_id;
        user_id = c.user_id;
        note = n;
        created_at = now_at (suc (suc tick));
        updated_at = now_at (suc (suc tick));
        group_id = c.group_id;
      } in
      rw (none_given, fits)
        (rw free (
          rw known (
            rw
              (find-append (Q.same_key c.user_id c.title_id c.group_id) t.ratings row
                (any-part (λ x. str_eq x.id (new_id (suc tick)))
                  (Q.same_key c.user_id c.title_id c.group_id) t.ratings free)
                (same_key-own row))
              (rw (filter-none_match _ t.rating_seasons no_seasons) refl))))
