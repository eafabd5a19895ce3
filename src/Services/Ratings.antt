-- ===== src/Services/Ratings.antt =====
-- internal/services/ratings/ratings.go, types.go and mapper.go
pub mod Write
pub mod Stored
pub mod Requests
pub mod Notes
pub mod Precision
pub mod Atomicity
use aftercredits_backend.Base.{
  ℕ, suc, ◌++◌, ◌+◌, ◌-◌, ◌*◌, Bool, true, false, not, ◌||◌, Option, none, some, List, [], ◌∷◌, Str,
  codes, str_eq, any, length, leb, ltb, if◌then◌else◌, is_some, ◌==◌, ℤ, pos, pos_part, neg_part,
  ltb_ℤ, ◌+ℤ◌, round_div, scale_ℤ,
}
use aftercredits_backend.Base.Text.{itoa, atoi}
use aftercredits_backend.Base.Assoc.{Map, lookup, insert, delete}
use aftercredits_backend.Base.Float.{float_one, nearest_float, float_of, add_float, times_float}
use aftercredits_backend.Base.Shuffling.{shuffled}
use aftercredits_backend.Models.{
  Error, record_not_found, duplicated_record, rating_already_exists, rating_not_found,
  invalid_note_value, note_too_precise, season_required, invalid_season_value,
  season_does_not_exist, season_rating_already_exists, Note, tenth, Time, UserRating,
  SeasonRatingItem, SeasonsRatings, Title, Season,
}
use aftercredits_backend.Database.Exec.{
  Result, ok, err, Exec, pure, raise, attempt, map_err, now, ◌>>=◌, ◌>>◌,
}
use aftercredits_backend.Postgres.Titles
use aftercredits_backend.Postgres.Ratings

pub record SeasonRating : Type 0 where
  pub rating : Note
  pub added_at : Time
  pub updated_at : Time

pub record Rating : Type 0 where
  pub id : Str
  pub title_id : Str
  pub seasons_ratings : Option (Map SeasonRating)
  pub user_id : Str
  pub group_id : Str
  pub note : Note
  pub created_at : Time
  pub updated_at : Time

pub record NewRating : Type 0 where
  pub group_id : Str
  pub title_id : Str
  pub note : Note
  pub season : Option ℤ

pub record UpdateRatingRequest : Type 0 where
  pub note : Note
  pub season : Option ℤ

abbrev pub convert_seasons : SeasonsRatings → Map SeasonRating
convert_seasons [] = []
convert_seasons ((k, item) ∷ m) =
    (k, record { rating = item.rating; added_at = item.added_at; updated_at = item.updated_at })
    ∷ convert_seasons m

abbrev pub convert_optional : Option SeasonsRatings → Option (Map SeasonRating)
convert_optional none = none
convert_optional (some m) = some (convert_seasons m)

unfoldable pub map_db_rating_db_to_api_rating : UserRating → Rating
map_db_rating_db_to_api_rating r = record {
  id = r.id;
  title_id = r.title_id;
  seasons_ratings = convert_optional r.seasons_ratings;
  user_id = r.user_id;
  group_id = r.group_id;
  note = r.note;
  created_at = r.created_at;
  updated_at = r.updated_at;
}

-- 1.0 as a note
abbrev pub one : ℕ
one = 1_000_000

-- The float64 that a note stands for.
unfoldable pub to_float : Note → ℤ
to_float note = float_of (scale_ℤ float_one note) one

-- notePrecisionTolerance, 1e-3
unfoldable pub note_precision_tolerance : ℕ
note_precision_tolerance = nearest_float float_one 1000

-- math.Abs(a - b)
abbrev pub distance : ℤ → ℤ → ℕ
distance a b =
    let x = pos_part a + neg_part b in
    let y = pos_part b + neg_part a in nearest_float (if leb x y then y - x else x - y) 1

-- math.Round
unfoldable pub round_float : ℤ → ℤ
round_float a = scale_ℤ float_one (round_div a float_one)

unfoldable pub is_precise : ℤ → Bool
unfolding round_float note_precision_tolerance
is_precise scaled = not (ltb note_precision_tolerance (distance scaled (round_float scaled)))

-- A note of six decimal places is below 0 or above 10 exactly if its float64 is.
unfoldable pub validate_note : Note → Result (Unit {0})
unfolding to_float is_precise
validate_note note =
    if ltb_ℤ note (pos 0) || ltb_ℤ (pos (10 * one)) note
    then err invalid_note_value
    else if not (is_precise (times_float 10 (to_float note)))
    then err note_too_precise
    else ok tt

-- The note of the float64 nearest to a whole number of tenths: math.Round(note*10) / 10.
unfoldable pub round_to_one_decimal : ℤ → Note
round_to_one_decimal note = scale_ℤ tenth (round_div (times_float 10 note) float_one)

-- The loop of overallNote, from the sum so far.
unfoldable pub sum_ratings : ℤ → SeasonsRatings → ℤ
unfolding to_float
sum_ratings sum [] = sum
sum_ratings sum ((k, item) ∷ m) = sum_ratings (add_float sum (to_float item.rating)) m

-- The number tells in which order the code ranges over the map.
unfoldable pub overall_note : ℕ → Option SeasonsRatings → Note
unfolding round_to_one_decimal sum_ratings
overall_note order none = pos 0
overall_note order (some []) = pos 0
overall_note order (some (x ∷ m)) =
    round_to_one_decimal (float_of (sum_ratings (pos 0) (shuffled order (x ∷ m))) (length (x ∷ m)))

abbrev pub lift : {A : Type 0} → Result A → Exec A
lift (ok a) = pure a
lift (err e) = raise e

unfoldable pub missing_rating : Error → Error
missing_rating record_not_found = rating_not_found
missing_rating e = e

unfoldable pub existing_rating : Error → Error
existing_rating duplicated_record = rating_already_exists
existing_rating e = e

abbrev pub is_series : Title → Bool
is_series title = str_eq title.type (codes "tvSeries") || str_eq title.type (codes "tvMiniSeries")

abbrev pub has_season : Str → Title → Bool
has_season key title = any (λ s. str_eq s.season key) title.seasons

-- `season != nil && *season <= 0`
abbrev pub season_not_positive : Option ℤ → Bool
season_not_positive none = false
season_not_positive (some n) = ltb_ℤ n (pos 1)

abbrev pub map_ratings : List UserRating → List Rating
map_ratings [] = []
map_ratings (r ∷ rs) = map_db_rating_db_to_api_rating r ∷ map_ratings rs

unfoldable pub get_ratings_by_title_id : Str → Str → Exec (List Rating)
get_ratings_by_title_id title_id group_id = do
  ratings_db ← Ratings.get_ratings_by_title_id title_id group_id
  pure (map_ratings ratings_db)

unfoldable pub get_rating_by_id : Str → Str → Exec Rating
get_rating_by_id rating_id user_id = do
  rating_db ← map_err missing_rating (Ratings.get_rating_by_id rating_id user_id)
  pure (map_db_rating_db_to_api_rating rating_db)

abbrev pub push : {A : Type 0} → A → Option (List A) → List A
push a none = a ∷ []
push a (some l) = l ++ a ∷ []

unfoldable pub by_title : Map (List Rating) → List Rating → Map (List Rating)
by_title m [] = m
by_title m (r ∷ rs) = by_title (insert r.title_id (push r (lookup r.title_id m)) m) rs

unfoldable pub get_ratings_batch : List Str → Str → Exec (Map (List Rating))
unfolding by_title
get_ratings_batch title_ids group_id = do
  all_ratings_db ← Ratings.get_ratings_by_title_ids title_ids group_id
  pure (by_title [] (map_ratings all_ratings_db))
