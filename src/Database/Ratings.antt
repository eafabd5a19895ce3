-- ===== src/Database/Ratings.antt =====
-- ratings.sql.go: each query as an action on the tables, with the keys that sql/schema declares.
pub mod Notes
use aftercredits_backend.Base.{
  ℕ, ◌+◌, ◌*◌, ◌/◌, Bool, true, false, not, ◌&&◌, ◌||◌, Option, none, some, List, [], ◌∷◌, ◌++◌,
  Str, str_eq, length, any, find, filter, update_where, if◌then◌else◌, ltb,
}
use aftercredits_backend.Base.Int.{round_div, scale_ℤ, magnitude_below}
use aftercredits_backend.Models.{
  Note, tenth, Time, no_rows, unique_violation, foreign_key_violation, numeric_overflow,
}
use aftercredits_backend.Database.Exec.{
  RatingRow, RatingSeasonRow, GroupRow, Tables, Result, ok, err, Exec, select, statement, or_raise,
}

-- A value as a NUMERIC(3,1) column keeps it: one decimal, below 100.
unfoldable pub to_numeric : Note → Result Note
unfolding round_div
to_numeric x =
    let tenths = round_div x tenth in
    if magnitude_below 1000 tenths then ok (scale_ℤ tenth tenths) else err numeric_overflow

-- ratings_user_id_title_id_group_id_unique
unfoldable pub same_key : Str → Str → Str → RatingRow → Bool
same_key user_id title_id group_id r =
    str_eq r.user_id user_id && str_eq r.title_id title_id && str_eq r.group_id group_id

unfoldable pub owned_row : Str → Str → RatingRow → Bool
owned_row id user_id r = str_eq r.id id && str_eq r.user_id user_id

abbrev pub has_group : Str → Tables → Bool
has_group id t = any (λ g. str_eq g.id id) t.groups

unfoldable pub insert_checked : RatingRow → Tables → Result (RatingRow × Tables)
insert_checked row t =
    if any (λ r. str_eq r.id row.id || same_key row.user_id row.title_id row.group_id r) t.ratings
    then err unique_violation
    else if has_group row.group_id t
    then ok (row, record t { ratings = t.ratings ++ row ∷ [] })
    else err foreign_key_violation

abbrev pub with_note :
    (Note → Result (RatingRow × Tables)) → Result Note → Result (RatingRow × Tables)
with_note f (ok n) = f n
with_note f (err e) = err e

unfoldable pub insert_rating : RatingRow → Exec RatingRow
unfolding insert_checked
insert_rating row =
    statement λ t. with_note (λ n. insert_checked (record row { note = n }) t) (to_numeric row.note)

abbrev pub updated :
    Str → Str → Note → Time → Tables → Option RatingRow → Result (RatingRow × Tables)
updated id user_id n at t none = err no_rows
updated id user_id n at t (some r) = ok (
  record r { note = n; updated_at = at },
  record t {
    ratings =
        update_where (owned_row id user_id) (λ x. record x { note = n; updated_at = at }) t.ratings;
  },
)

-- Returns the row that the primary key names.
unfoldable pub update_rating_row : Str → Str → Note → Time → Exec RatingRow
update_rating_row id user_id note at = statement λ t.
    with_note (λ n. updated id user_id n at t (find (owned_row id user_id) t.ratings))
      (to_numeric note)

unfoldable pub get_rating_row_by_id : Str → Str → Exec RatingRow
get_rating_row_by_id id user_id =
    select λ t. or_raise no_rows (find (owned_row id user_id) t.ratings)

unfoldable pub get_rating_row_by_user_title : Str → Str → Str → Exec RatingRow
get_rating_row_by_user_title user_id title_id group_id =
    select λ t. or_raise no_rows (find (same_key user_id title_id group_id) t.ratings)

unfoldable pub get_rating_rows_by_title_id : Str → Str → Exec (List RatingRow)
get_rating_rows_by_title_id title_id group_id =
    select
      λ t. ok (filter (λ r. str_eq r.title_id title_id && str_eq r.group_id group_id) t.ratings)

-- title_id = ANY($1)
unfoldable pub get_rating_rows_by_title_ids : List Str → Str → Exec (List RatingRow)
get_rating_rows_by_title_ids title_ids group_id = select λ t.
    ok (filter (λ r. any (str_eq r.title_id) title_ids && str_eq r.group_id group_id) t.ratings)

-- The seasons go with their rating, ON DELETE CASCADE.
abbrev pub delete_owned : Str → Str → Tables → Tables
delete_owned id user_id t = record t {
  ratings = filter (λ r. not (owned_row id user_id r)) t.ratings;
  rating_seasons =
      if any (owned_row id user_id) t.ratings
      then filter (λ s. not (str_eq s.rating_id id)) t.rating_seasons
      else t.rating_seasons;
}

-- The result is the number of rows deleted.
unfoldable pub delete_rating_row : Str → Str → Exec ℕ
delete_rating_row id user_id =
    statement λ t. ok (length (filter (owned_row id user_id) t.ratings), delete_owned id user_id t)

unfoldable pub season_of : Str → RatingSeasonRow → Bool
season_of id s = str_eq s.rating_id id

unfoldable pub get_rating_seasons : Str → Exec (List RatingSeasonRow)
get_rating_seasons id = select λ t. ok (filter (season_of id) t.rating_seasons)

unfoldable pub get_rating_seasons_by_rating_ids : List Str → Exec (List RatingSeasonRow)
get_rating_seasons_by_rating_ids ids =
    select λ t. ok (filter (λ s. any (str_eq s.rating_id) ids) t.rating_seasons)

unfoldable pub delete_rating_seasons : Str → Exec (Unit {0})
delete_rating_seasons id =
    statement λ t.
      ok (tt, record t { rating_seasons = filter (λ s. not (season_of id s)) t.rating_seasons })

abbrev pub with_rating :
    (Note → Result (Unit {0} × Tables)) → Result Note → Result (Unit {0} × Tables)
with_rating f (ok n) = f n
with_rating f (err e) = err e

unfoldable pub insert_season_checked : RatingSeasonRow → Tables → Result (Unit {0} × Tables)
insert_season_checked row t =
    if any (λ s. season_of row.rating_id s && str_eq s.season row.season) t.rating_seasons
    then err unique_violation
    else if any (λ r. str_eq r.id row.rating_id) t.ratings
    then ok (tt, record t { rating_seasons = t.rating_seasons ++ row ∷ [] })
    else err foreign_key_violation

unfoldable pub insert_rating_season : RatingSeasonRow → Exec (Unit {0})
unfolding insert_season_checked
insert_rating_season row = statement λ t.
    with_rating (λ n. insert_season_checked (record row { rating = n }) t) (to_numeric row.rating)
