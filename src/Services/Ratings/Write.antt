-- ===== src/Services/Ratings/Write.antt =====
-- internal/services/ratings/ratings.go: adding, updating and deleting ratings.
use aftercredits_backend.Base.{
  ℕ, Bool, false, not, Option, none, some, [], ◌∷◌, Str, if◌then◌else◌, is_some, ◌==◌, ℤ, pos,
  ltb_ℤ,
}
use aftercredits_backend.Base.Text.{itoa, atoi}
use aftercredits_backend.Base.Assoc.{Map, lookup, insert, delete}
use aftercredits_backend.Models.{
  is_record_not_found, rating_already_exists, rating_not_found, season_required,
  invalid_season_value, season_does_not_exist, season_rating_already_exists, Note, Time, UserRating,
  SeasonRatingItem, SeasonsRatings, Title,
}
use aftercredits_backend.Database.Exec.{
  range_order, Result, ok, err, Exec, pure, raise, attempt, map_err, now, ◌>>=◌, ◌>>◌,
}
use aftercredits_backend.Postgres.Titles
use aftercredits_backend.Postgres.Ratings
use aftercredits_backend.Services.Ratings.{
  SeasonRating, Rating, NewRating, UpdateRatingRequest, map_db_rating_db_to_api_rating,
  validate_note, overall_note, lift, missing_rating, existing_rating, is_series, has_season,
  season_not_positive, get_rating_by_id,
}

abbrev pub empty_rating : UserRating
empty_rating = record {
  id = [];
  title_id = [];
  seasons_ratings = none;
  user_id = [];
  group_id = [];
  note = pos 0;
  created_at = 0;
  updated_at = 0;
}

abbrev pub new_item : Note → Time → SeasonRatingItem
new_item note at = record { rating = note; added_at = at; updated_at = at }

abbrev pub rated : Str → Option SeasonsRatings → Bool
rated key none = false
rated key (some m) = is_some (lookup key m)

-- The seasons with one more: a new map, or the one that was read.
abbrev pub with_season : Str → SeasonRatingItem → Option SeasonsRatings → SeasonsRatings
with_season key item none = (key, item) ∷ []
with_season key item (some m) = insert key item m

unfoldable pub create_with_season : NewRating → Str → Str → Exec Rating
create_with_season new user_id key = do
  at ← now
  order ← range_order
  let seasons = some (with_season key (new_item new.note at) none)
  rating_db ← Ratings.add_rating (record empty_rating {
    title_id = new.title_id;
    user_id = user_id;
    group_id = new.group_id;
    note = overall_note order seasons;
    seasons_ratings = seasons;
  })
  pure (map_db_rating_db_to_api_rating rating_db)

unfoldable pub extend_with_season : NewRating → Str → Str → UserRating → Exec Rating
extend_with_season new user_id key existing = do
  at ← now
  let seasons = some (with_season key (new_item new.note at) existing.seasons_ratings)
  if rated key existing.seasons_ratings then raise season_rating_already_exists else do
    order ← range_order
    updated_rating_db ←
        Ratings.update_rating
          (record empty_rating {
            id = existing.id;
            created_at = existing.created_at;
            title_id = new.title_id;
            user_id = user_id;
            group_id = new.group_id;
            note = overall_note order seasons;
            seasons_ratings = seasons;
          })
          user_id
    pure (map_db_rating_db_to_api_rating updated_rating_db)

unfoldable pub add_season : NewRating → Str → Str → Result UserRating → Exec Rating
unfolding create_with_season extend_with_season
add_season new user_id key (ok existing) = extend_with_season new user_id key existing
add_season new user_id key (err e) =
    if is_record_not_found e then create_with_season new user_id key else raise e

unfoldable pub add_rating_for_season : NewRating → Str → Title → Option ℤ → Exec Rating
unfolding add_season
add_rating_for_season new user_id title none = raise season_required
add_rating_for_season new user_id title (some n) =
    if not (has_season (itoa n) title) then raise season_does_not_exist else do
      existing ←
          attempt (Ratings.get_rating_by_user_id_and_title_id user_id new.title_id new.group_id)
      add_season new user_id (itoa n) existing

unfoldable pub add_rating_for_tv_series : NewRating → Str → Title → Exec Rating
unfolding add_rating_for_season
add_rating_for_tv_series new user_id title = add_rating_for_season new user_id title new.season

unfoldable pub add_movie : NewRating → Str → Result UserRating → Exec Rating
add_movie new user_id (ok existing) = raise rating_already_exists
add_movie new user_id (err e) = if not (is_record_not_found e) then raise e else do
  rating_db ← map_err existing_rating (
      Ratings.add_rating (record empty_rating {
        title_id = new.title_id;
        user_id = user_id;
        group_id = new.group_id;
        note = new.note;
      }))
  pure (map_db_rating_db_to_api_rating rating_db)

unfoldable pub add_rating_for_movie : NewRating → Str → Exec Rating
unfolding add_movie
add_rating_for_movie new user_id = do
  existing ← attempt (Ratings.get_rating_by_user_id_and_title_id user_id new.title_id new.group_id)
  add_movie new user_id existing

-- The created rating, and the title that it is for.
unfoldable pub add_rating : NewRating → Str → Exec (Rating × Title)
unfolding add_rating_for_tv_series add_rating_for_movie
add_rating new user_id = do
  lift (validate_note new.note)
  if season_not_positive new.season then raise invalid_season_value else do
    title ← Titles.get_title_by_id new.title_id
    created ←
        if is_series title
        then add_rating_for_tv_series new user_id title
        else add_rating_for_movie new user_id
    pure (created, title)

unfoldable pub update_rating_for_movie : Str → Str → UpdateRatingRequest → Exec Rating
update_rating_for_movie rating_id user_id req = do
  updated_rating_db ←
      map_err missing_rating
        (Ratings.update_rating (record empty_rating { id = rating_id; note = req.note }) user_id)
  pure (map_db_rating_db_to_api_rating updated_rating_db)

abbrev pub season_item : Str → Option SeasonsRatings → Option SeasonRatingItem
season_item key none = none
season_item key (some m) = lookup key m

abbrev pub seasons_or_empty : Option SeasonsRatings → SeasonsRatings
seasons_or_empty none = []
seasons_or_empty (some m) = m

-- Steps 6 to 12, from the season's item in the rating that was read again.
unfoldable pub rewrite_season :
    Str → Str → Note → Str → UserRating → Option SeasonRatingItem → Exec Rating
rewrite_season rating_id user_id note key existing none = raise rating_not_found
rewrite_season rating_id user_id note key existing (some item) = do
  at ← now
  let seasons = some (
      insert key (record { rating = note; added_at = item.added_at; updated_at = at })
        (seasons_or_empty existing.seasons_ratings))
  order ← range_order
  updated_rating_db ←
      Ratings.update_rating
        (record empty_rating {
          id = rating_id;
          note = overall_note order seasons;
          seasons_ratings = seasons;
        })
        user_id
  pure (map_db_rating_db_to_api_rating updated_rating_db)

abbrev pub rated_in : Str → Option (Map SeasonRating) → Bool
rated_in key none = false
rated_in key (some m) = is_some (lookup key m)

abbrev pub rated_in_api : Str → Rating → Bool
rated_in_api key rating = rated_in key rating.seasons_ratings

-- Steps 3 and 4, on the rating as the API shows it, and 5.
unfoldable pub update_season : Rating → Str → Note → Str → Exec Rating
unfolding rewrite_season
update_season rating user_id note key =
    if not (rated_in_api key rating) then raise rating_not_found else do
      existing ← Ratings.get_rating_by_id rating.id user_id
      rewrite_season rating.id user_id note key existing (season_item key existing.seasons_ratings)

unfoldable pub update_rating_season : Rating → Str → UpdateRatingRequest → Option ℤ → Exec Rating
unfolding update_season
update_rating_season rating user_id req none = raise season_required
update_rating_season rating user_id req (some n) =
    if ltb_ℤ n (pos 1)
    then raise invalid_season_value
    else update_season rating user_id req.note (itoa n)

unfoldable pub update_rating_for_tv_series : Rating → Str → UpdateRatingRequest → Exec Rating
unfolding update_rating_season
update_rating_for_tv_series rating user_id req = update_rating_season rating user_id req req.season

-- The rating after the update and before it.
unfoldable pub update_rating : Str → Str → UpdateRatingRequest → Exec (Rating × Rating)
unfolding update_rating_for_tv_series update_rating_for_movie
update_rating rating_id user_id req = do
  lift (validate_note req.note)
  previous ← map_err missing_rating (get_rating_by_id rating_id user_id)
  title ← Titles.get_title_by_id previous.title_id
  updated ←
      if is_series title
      then update_rating_for_tv_series previous user_id req
      else update_rating_for_movie rating_id user_id req
  pure (updated, previous)

unfoldable pub delete_rating : Str → Str → Exec ℕ
delete_rating rating_id user_id = do
  deleted_count ← map_err missing_rating (Ratings.delete_rating rating_id user_id)
  if deleted_count == 0 then raise rating_not_found else pure deleted_count

-- Steps 8 to 10, on the seasons that are left.
unfoldable pub store_remaining : Str → Str → SeasonsRatings → Exec (Unit {0})
store_remaining rating_id user_id [] = do
  map_err missing_rating (Ratings.delete_rating rating_id user_id)
  pure tt
store_remaining rating_id user_id (x ∷ m) = do
  order ← range_order
  map_err missing_rating (
      Ratings.update_rating
        (record empty_rating {
          id = rating_id;
          note = overall_note order (some (x ∷ m));
          seasons_ratings = some (x ∷ m);
        })
        user_id)
  pure tt

unfoldable pub remove_season : Str → Str → Str → Exec (Unit {0})
unfolding store_remaining
remove_season rating_id user_id key = do
  existing ← map_err missing_rating (Ratings.get_rating_by_id rating_id user_id)
  if not (rated key existing.seasons_ratings)
      then raise rating_not_found
      else store_remaining rating_id user_id
          (delete key (seasons_or_empty existing.seasons_ratings))

unfoldable pub delete_parsed_season : Str → Str → Title → Option ℤ → Exec (Unit {0})
unfolding remove_season
delete_parsed_season rating_id user_id title none = raise invalid_season_value
delete_parsed_season rating_id user_id title (some n) =
    if ltb_ℤ n (pos 1)
    then raise invalid_season_value
    else if not (is_series title)
    then raise season_does_not_exist
    else if not (has_season (itoa n) title)
    then raise season_does_not_exist
    else remove_season rating_id user_id (itoa n)

unfoldable pub delete_rating_season : Str → Str → Str → Title → Exec (Unit {0})
unfolding delete_parsed_season
delete_rating_season rating_id user_id season_str title =
    delete_parsed_season rating_id user_id title (atoi season_str)
