-- ===== src/Postgres/Ratings.antt =====
-- internal/postgres/ratings.go, and the rating mappers of mappers.go
use aftercredits_backend.Base.{
  ℕ, Bool, Option, none, some, List, [], ◌∷◌, ◌++◌, map, Str, str_eq, ◌==◌, if◌then◌else◌,
}
pub mod Reads
pub mod RoundTrip
pub mod Notes
pub mod Deletes
use aftercredits_backend.Base.Assoc.{Map, lookup, insert}
use aftercredits_backend.Models.{UserRating, SeasonRatingItem, SeasonsRatings, record_not_found}
use aftercredits_backend.Database.Exec.{
  RatingRow, RatingSeasonRow, Exec, pure, raise, in_tx, map_err, now, new_string, ◌>>=◌, ◌>>◌,
}
use aftercredits_backend.Database.Ratings
use aftercredits_backend.Postgres.Titles.{not_found, duplicated}

unfoldable pub rating_row_to_model : RatingRow → Option SeasonsRatings → UserRating
rating_row_to_model r seasons = record {
  id = r.id;
  title_id = r.title_id;
  seasons_ratings = seasons;
  user_id = r.user_id;
  group_id = r.group_id;
  note = r.note;
  created_at = r.created_at;
  updated_at = r.updated_at;
}

unfoldable pub rating_season_row_to_item : RatingSeasonRow → SeasonRatingItem
rating_season_row_to_item s = record {
  rating = s.rating;
  added_at = s.added_at;
  updated_at = s.updated_at;
}

unfoldable pub collect_seasons : SeasonsRatings → List RatingSeasonRow → SeasonsRatings
unfolding rating_season_row_to_item
collect_seasons out [] = out
collect_seasons out (r ∷ rows) =
    collect_seasons (insert r.season (rating_season_row_to_item r) out) rows

unfoldable pub assemble_seasons_ratings : List RatingSeasonRow → Option SeasonsRatings
unfolding collect_seasons
assemble_seasons_ratings [] = none
assemble_seasons_ratings (r ∷ rows) = some (collect_seasons [] (r ∷ rows))

unfoldable pub insert_seasons : Str → SeasonsRatings → Exec (Unit {0})
insert_seasons id [] = pure tt
insert_seasons id ((season, item) ∷ seasons) = do
  Ratings.insert_rating_season (record {
    rating_id = id;
    season = season;
    rating = item.rating;
    added_at = item.added_at;
    updated_at = item.updated_at;
  })
  insert_seasons id seasons

unfoldable pub insert_rating_seasons : Str → Option SeasonsRatings → Exec (Unit {0})
unfolding insert_seasons
insert_rating_seasons id none = pure tt
insert_rating_seasons id (some seasons) = insert_seasons id seasons

-- The body of the transaction of AddRating.
unfoldable pub add_rating_tx : UserRating → Exec UserRating
add_rating_tx rating = do
  id ← new_string
  at ← now
  row ← map_err duplicated (
      Ratings.insert_rating (record {
        id = id;
        title_id = rating.title_id;
        user_id = rating.user_id;
        note = rating.note;
        created_at = at;
        updated_at = at;
        group_id = rating.group_id;
      }))
  insert_rating_seasons id rating.seasons_ratings
  pure (rating_row_to_model row rating.seasons_ratings)

unfoldable pub add_rating : UserRating → Exec UserRating
unfolding add_rating_tx
add_rating rating = in_tx (add_rating_tx rating)

unfoldable pub with_seasons : RatingRow → Exec UserRating
with_seasons row = do
  season_rows ← Ratings.get_rating_seasons row.id
  pure (rating_row_to_model row (assemble_seasons_ratings season_rows))

unfoldable pub get_rating_by_id : Str → Str → Exec UserRating
unfolding with_seasons
get_rating_by_id rating_id user_id = do
  row ← map_err not_found (Ratings.get_rating_row_by_id rating_id user_id)
  with_seasons row

unfoldable pub get_rating_by_user_id_and_title_id : Str → Str → Str → Exec UserRating
unfolding with_seasons
get_rating_by_user_id_and_title_id user_id title_id group_id = do
  row ← map_err not_found (Ratings.get_rating_row_by_user_title user_id title_id group_id)
  with_seasons row

-- seasonsByRating[sr.RatingID] = append(seasonsByRating[sr.RatingID], sr)
abbrev or_empty : Option (List RatingSeasonRow) → List RatingSeasonRow
or_empty none = []
or_empty (some rows) = rows

unfoldable pub group_seasons :
    Map (List RatingSeasonRow) → List RatingSeasonRow → Map (List RatingSeasonRow)
group_seasons m [] = m
group_seasons m (sr ∷ rows) =
    group_seasons (insert sr.rating_id (or_empty (lookup sr.rating_id m) ++ sr ∷ []) m) rows

unfoldable pub assemble_with : Map (List RatingSeasonRow) → List RatingRow → List UserRating
assemble_with m [] = []
assemble_with m (r ∷ rows) =
    rating_row_to_model r (assemble_seasons_ratings (or_empty (lookup r.id m)))
    ∷ assemble_with m rows

unfoldable pub assemble_rating_rows : List RatingRow → Exec (List UserRating)
assemble_rating_rows [] = pure []
assemble_rating_rows (r ∷ rows) = do
  season_rows ← Ratings.get_rating_seasons_by_rating_ids (map (λ x. x.id) (r ∷ rows))
  pure (assemble_with (group_seasons [] season_rows) (r ∷ rows))

unfoldable pub get_ratings_by_title_id : Str → Str → Exec (List UserRating)
unfolding assemble_rating_rows
get_ratings_by_title_id title_id group_id = do
  rows ← Ratings.get_rating_rows_by_title_id title_id group_id
  assemble_rating_rows rows

unfoldable pub get_ratings_by_title_ids : List Str → Str → Exec (List UserRating)
unfolding assemble_rating_rows
get_ratings_by_title_ids title_ids group_id = do
  rows ← Ratings.get_rating_rows_by_title_ids title_ids group_id
  assemble_rating_rows rows

-- The body of the transaction of UpdateRating.
unfoldable pub update_rating_tx : UserRating → Str → Exec UserRating
update_rating_tx rating user_id = do
  at ← now
  row ← map_err not_found (Ratings.update_rating_row rating.id user_id rating.note at)
  Ratings.delete_rating_seasons row.id
  insert_rating_seasons row.id rating.seasons_ratings
  pure (rating_row_to_model row rating.seasons_ratings)

unfoldable pub update_rating : UserRating → Str → Exec UserRating
unfolding update_rating_tx
update_rating rating user_id = in_tx (update_rating_tx rating user_id)

unfoldable pub delete_rating : Str → Str → Exec ℕ
delete_rating rating_id user_id = do
  n ← Ratings.delete_rating_row rating_id user_id
  if n == 0 then raise record_not_found else pure n
