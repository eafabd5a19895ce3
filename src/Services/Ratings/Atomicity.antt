-- ===== src/Services/Ratings/Atomicity.antt =====
-- A write of the ratings service that returns an error has changed nothing, whatever call failed.
use aftercredits_backend.Base.{◌≡◌, ◌==◌, ==_iff, Option, none, some, [], ◌∷◌, Str, ℤ}
use aftercredits_backend.Base.Text.{atoi}
use aftercredits_backend.Models.{Error, UserRating, SeasonsRatings, Title, Note, SeasonRatingItem}
use aftercredits_backend.Database.Exec.{Tables, World, Result, ok, err}
use aftercredits_backend.Database.Rules.{
  Hoare-weaken, Hoare-bind, Hoare-map_err, Hoare-if, Hoare-raise, Hoare-pure,
}
use aftercredits_backend.Database.Shapes.{
  Keeps, Atomic, unchanged_on_error, keeps_rules, atomic_rules,
}
use aftercredits_backend.Postgres.Ratings
use aftercredits_backend.Postgres.Ratings.Deletes.{delete_rating_hoare}
use aftercredits_backend.Postgres.Ratings.Reads.{
  Keeps-get_title_by_id, Keeps-get_rating_by_id, Keeps-get_rating_by_user_id_and_title_id,
}
use aftercredits_backend.Services.Ratings.{
  Rating, NewRating, UpdateRatingRequest, lift, missing_rating, get_rating_by_id,
}
use aftercredits_backend.Services.Ratings.Write.{
  create_with_season, extend_with_season, add_season, add_rating_for_season, add_movie, add_rating,
  rewrite_season, update_season, update_rating_season, update_rating, delete_rating,
  store_remaining, delete_parsed_season, delete_rating_season,
}

pub Keeps-lift : {A : Type 0} {P : Tables → Type 0} (r : Result A) → Keeps P (lift r)
Keeps-lift (ok a) = search keeps_rules
Keeps-lift (err e) = search keeps_rules

pub Keeps-get_rating :
    {P : Tables → Type 0} (id user_id : Str) → Keeps P (get_rating_by_id id user_id)
unfolding get_rating_by_id
Keeps-get_rating id user_id = search (keeps_rules, Keeps-get_rating_by_id _)

module _ (t : Tables) where
  Atomic-add : (r : UserRating) → Atomic t (Ratings.add_rating r)
  unfolding Ratings.add_rating
  Atomic-add r = search atomic_rules

  Atomic-update : (r : UserRating) (user_id : Str) → Atomic t (Ratings.update_rating r user_id)
  unfolding Ratings.update_rating
  Atomic-update r user_id = search atomic_rules

  Atomic-delete : (id user_id : Str) → Atomic t (Ratings.delete_rating id user_id)
  Atomic-delete id user_id = record {
    hoare = Hoare-weaken _ (λ s e. e) (λ n s q. tt) (λ e s q. q) (delete_rating_hoare t id user_id);
  }

  ruleset writes = (
    atomic_rules, Atomic-add, Atomic-update, Atomic-delete, Keeps-get_title_by_id,
    Keeps-get_rating_by_id, Keeps-get_rating_by_user_id_and_title_id, Keeps-lift,
  )

  Atomic-create :
      (new : NewRating) (user_id key : Str) → Atomic t (create_with_season new user_id key)
  unfolding create_with_season
  Atomic-create new user_id key = search writes

  Atomic-extend :
      (new : NewRating) (user_id key : Str) (r : UserRating)
      → Atomic t (extend_with_season new user_id key r)
  unfolding extend_with_season
  Atomic-extend new user_id key r = search writes

  Atomic-add_season :
      (new : NewRating) (user_id key : Str) (r : Result UserRating)
      → Atomic t (add_season new user_id key r)
  unfolding add_season
  Atomic-add_season new user_id key (ok r) = Atomic-extend new user_id key r
  Atomic-add_season new user_id key (err e) = search (writes, Atomic-create)

  Atomic-add_rating_for_season :
      (new : NewRating) (user_id : Str) (title : Title) (n : Option ℤ)
      → Atomic t (add_rating_for_season new user_id title n)
  unfolding add_rating_for_season
  Atomic-add_rating_for_season new user_id title none = search writes
  Atomic-add_rating_for_season new user_id title (some n) = search (writes, Atomic-add_season)

  Atomic-add_movie :
      (new : NewRating) (user_id : Str) (r : Result UserRating) → Atomic t (add_movie new user_id r)
  unfolding add_movie
  Atomic-add_movie new user_id (ok r) = search writes
  Atomic-add_movie new user_id (err e) = search writes

  Atomic-add_rating : (new : NewRating) (user_id : Str) → Atomic t (add_rating new user_id)
  unfolding add_rating
  Atomic-add_rating new user_id =
      search (writes, Atomic-add_rating_for_season, Atomic-add_movie) depth 9

  Atomic-rewrite_season :
      (id user_id : Str) (note : Note) (key : Str) (r : UserRating) (item : Option SeasonRatingItem)
      → Atomic t (rewrite_season id user_id note key r item)
  unfolding rewrite_season
  Atomic-rewrite_season id user_id note key r none = search writes
  Atomic-rewrite_season id user_id note key r (some item) = search writes

  Atomic-update_season :
      (r : Rating) (user_id : Str) (note : Note) (key : Str)
      → Atomic t (update_season r user_id note key)
  unfolding update_season
  Atomic-update_season r user_id note key = search (writes, Atomic-rewrite_season)

  Atomic-update_rating_season :
      (r : Rating) (user_id : Str) (req : UpdateRatingRequest) (n : Option ℤ)
      → Atomic t (update_rating_season r user_id req n)
  unfolding update_rating_season
  Atomic-update_rating_season r user_id req none = search writes
  Atomic-update_rating_season r user_id req (some n) = search (writes, Atomic-update_season)

  Atomic-update_rating :
      (id user_id : Str) (req : UpdateRatingRequest) → Atomic t (update_rating id user_id req)
  unfolding update_rating
  Atomic-update_rating id user_id req =
      search (writes, Keeps-get_rating, Atomic-update_rating_season) depth 9

  Atomic-delete_rating : (id user_id : Str) → Atomic t (delete_rating id user_id)
  unfolding delete_rating
  Atomic-delete_rating id user_id = record {
    hoare = Hoare-bind _ _ (Hoare-map_err missing_rating _ (delete_rating_hoare t id user_id)) λ n.
        Hoare-if (n == 0) _ _ (λ z. Hoare-raise _ (λ s q. absurd (q ((==_iff n 0).0 z))))
          (λ z. Hoare-pure n (λ s q. tt));
  }

  Atomic-store_remaining :
      (id user_id : Str) (m : SeasonsRatings) → Atomic t (store_remaining id user_id m)
  unfolding store_remaining
  Atomic-store_remaining id user_id [] = search writes
  Atomic-store_remaining id user_id (x ∷ m) = search writes

  Atomic-delete_parsed_season :
      (id user_id : Str) (title : Title) (n : Option ℤ)
      → Atomic t (delete_parsed_season id user_id title n)
  unfolding delete_parsed_season
  Atomic-delete_parsed_season id user_id title none = search writes
  Atomic-delete_parsed_season id user_id title (some n) =
      search (writes, Atomic-store_remaining) depth 9

-- A request to add a rating that returns an error leaves the tables as they were, whatever call
-- to the database failed and whichever check refused it.
pub add_rating_atomic :
    (new : NewRating) (user_id : Str) (w : World) {e : Error}
    → (add_rating new user_id w).0 ≡ err e
    → (add_rating new user_id w).1.db ≡ w.db
add_rating_atomic new user_id w =
    unchanged_on_error (add_rating new user_id) w (Atomic-add_rating w.db new user_id)

-- A request to update a rating that returns an error leaves the tables as they were, whatever
-- call to the database failed and whichever check refused it.
pub update_rating_atomic :
    (id user_id : Str) (req : UpdateRatingRequest) (w : World) {e : Error}
    → (update_rating id user_id req w).0 ≡ err e
    → (update_rating id user_id req w).1.db ≡ w.db
update_rating_atomic id user_id req w =
    unchanged_on_error (update_rating id user_id req) w (Atomic-update_rating w.db id user_id req)

-- A request to delete a rating that returns an error leaves the tables as they were, whether the
-- call to the database failed or the user owns no such rating.
pub delete_rating_atomic :
    (id user_id : Str) (w : World) {e : Error}
    → (delete_rating id user_id w).0 ≡ err e
    → (delete_rating id user_id w).1.db ≡ w.db
delete_rating_atomic id user_id w =
    unchanged_on_error (delete_rating id user_id) w (Atomic-delete_rating w.db id user_id)

-- A request to delete a season of a rating that returns an error leaves the tables as they were,
-- whatever call to the database failed and whichever check refused it.
pub delete_rating_season_atomic :
    (id user_id season_str : Str) (title : Title) (w : World) {e : Error}
    → (delete_rating_season id user_id season_str title w).0 ≡ err e
    → (delete_rating_season id user_id season_str title w).1.db ≡ w.db
unfolding delete_rating_season
delete_rating_season_atomic id user_id season_str title w =
    unchanged_on_error (delete_parsed_season id user_id title (atoi season_str)) w
      (Atomic-delete_parsed_season w.db id user_id title (atoi season_str))
