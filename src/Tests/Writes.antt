-- ===== src/Tests/Writes.antt =====
-- Writes of ratings and comments that fail on the way, and runs of requests.
use aftercredits_backend.Base.{
  ◌≡◌, refl, none, some, [], ◌∷◌, codes, pos, any, find, filter, str_eq,
}
use aftercredits_backend.Models.{is_record_not_found, query_failed, rating_not_found}
use aftercredits_backend.Database.Exec.{
  range_order, err, pure, raise, select, statement, in_tx, attempt, map_err, now, new_string, ◌>>=◌,
}
use aftercredits_backend.Database.Ratings.Notes.{HasNotes}
use aftercredits_backend.Database.Comments.Scope.{others}
use aftercredits_backend.Base.{round_div, update_where}
use aftercredits_backend.Base.Int.{◌+ℤ◌}
use aftercredits_backend.Base.Assoc.{insert, delete, lookup}
use aftercredits_backend.Base.Float.{nearest_float, float_one, times_float, add_float}
use aftercredits_backend.Base.Shuffling.{shuffled}
use aftercredits_backend.Base.Text.{itoa, atoi, trim_space}
use aftercredits_backend.Database.Titles as QTitles
use aftercredits_backend.Database.Ratings as Q
use aftercredits_backend.Database.Comments as QC
use aftercredits_backend.Postgres.Titles as PTitles
use aftercredits_backend.Postgres.Titles.{not_found, duplicated}
use aftercredits_backend.Postgres.Ratings as P
use aftercredits_backend.Postgres.Comments as PC
use aftercredits_backend.Services.Ratings.{
  NewRating, UpdateRatingRequest, validate_note, overall_note, missing_rating, existing_rating,
  get_rating_by_id, map_db_rating_db_to_api_rating,
}
use aftercredits_backend.Services.Ratings.Write.{
  add_rating, add_movie, update_rating, delete_rating, delete_rating_season,
}
use aftercredits_backend.Services.Ratings.Atomicity.{
  add_rating_atomic, update_rating_atomic, delete_rating_atomic, delete_rating_season_atomic,
}
use aftercredits_backend.Services.Ratings.Requests as RatingRequests
use aftercredits_backend.Services.Ratings.Requests.{serve_all, serve_all-HasNotes}
use aftercredits_backend.Services.Comments.{
  NewComment, UpdateCommentRequest, add_comment, update_comment, delete_comment_season, is_blank,
  missing_comment, existing_comment, existing_season,
}
use aftercredits_backend.Services.Comments.Atomicity.{
  add_comment_atomic, update_comment_atomic, delete_comment_season_atomic,
}
use aftercredits_backend.Services.Comments.Keyed as CommentRequests
use aftercredits_backend.Services.Comments.Keyed.{serve_comment}
use aftercredits_backend.Services.Comments.Isolation.{serve_comment_isolated}
use aftercredits_backend.Tests.Fixtures.{
  ann, bob, friends, movie, series, world, tables-HasNotes, tables-HasCommentKeys,
}

abbrev movie_rating : NewRating
movie_rating = record {
  group_id = friends;
  title_id = codes "m";
  note = pos 8_000_000;
  season = none;
}

abbrev new_note : UpdateRatingRequest
new_note = record { note = pos 9_000_000; season = some (pos 1) }

abbrev movie_comment : NewComment
movie_comment = record {
  group_id = friends;
  title_id = codes "m";
  comment = codes "fine";
  season = none;
}

abbrev new_text : UpdateCommentRequest
new_text = record { comment = codes "better"; season = some (pos 1) }

serve_all-HasNotes_example :
    HasNotes
      (serve_all (world 9) (
        (bob, RatingRequests.add movie_rating)
        ∷ (ann, RatingRequests.update (codes "r1") new_note)
        ∷ [])).db
serve_all-HasNotes_example = serve_all-HasNotes (world 9) _ tables-HasNotes

serve_comment_isolated_example :
    others friends bob
      (serve_comment
        (world 99)
        (bob, CommentRequests.update friends (codes "c1") new_text series)).db.comments
    ≡ others friends bob (world 99).db.comments
serve_comment_isolated_example =
    serve_comment_isolated (world 99) bob
      (CommentRequests.update friends (codes "c1") new_text series) tables-HasCommentKeys

-- The commit fails.
add_rating_fails : (add_rating movie_rating bob (world 6)).0 ≡ err query_failed
unfolding add_rating add_movie ◌>>=◌ pure raise select statement in_tx attempt map_err now
    new_string any find filter str_eq validate_note round_div overall_note is_record_not_found
    missing_rating existing_rating PTitles.get_title_by_id QTitles.get_title_by_id not_found
    duplicated Q.same_key Q.owned_row Q.season_of Q.to_numeric Q.insert_checked
    Q.get_rating_row_by_user_title Q.get_rating_row_by_id Q.get_rating_seasons Q.insert_rating
    Q.update_rating_row Q.delete_rating_row Q.delete_rating_seasons Q.insert_rating_season
    P.rating_row_to_model P.assemble_seasons_ratings P.insert_rating_seasons P.add_rating
    P.get_rating_by_id P.get_rating_by_user_id_and_title_id P.update_rating P.delete_rating insert
    delete lookup update_where nearest_float float_one times_float add_float shuffled range_order
    ◌+ℤ◌
add_rating_fails = refl

add_rating_atomic_example : (add_rating movie_rating bob (world 6)).1.db ≡ (world 6).db
add_rating_atomic_example = add_rating_atomic movie_rating bob (world 6) add_rating_fails

-- Storing the season fails.
update_rating_fails : (update_rating (codes "r1") ann new_note (world 10)).0 ≡ err query_failed
unfolding update_rating get_rating_by_id map_db_rating_db_to_api_rating itoa ◌>>=◌ pure raise select
    statement in_tx attempt map_err now new_string any find filter str_eq validate_note round_div
    overall_note is_record_not_found missing_rating existing_rating PTitles.get_title_by_id
    QTitles.get_title_by_id not_found duplicated Q.same_key Q.owned_row Q.season_of Q.to_numeric
    Q.insert_checked Q.get_rating_row_by_user_title Q.get_rating_row_by_id Q.get_rating_seasons
    Q.insert_rating Q.update_rating_row Q.delete_rating_row Q.delete_rating_seasons
    Q.insert_rating_season P.rating_row_to_model P.assemble_seasons_ratings P.insert_rating_seasons
    P.add_rating P.get_rating_by_id P.get_rating_by_user_id_and_title_id P.update_rating
    P.delete_rating insert delete lookup update_where ◌+ℤ◌ nearest_float float_one times_float
    add_float shuffled range_order
update_rating_fails = refl

update_rating_atomic_example :
    (update_rating (codes "r1") ann new_note (world 10)).1.db ≡ (world 10).db
update_rating_atomic_example =
    update_rating_atomic (codes "r1") ann new_note (world 10) update_rating_fails

-- The rating is another user's.
delete_rating_fails : (delete_rating (codes "r1") bob (world 99)).0 ≡ err rating_not_found
unfolding delete_rating ◌>>=◌ pure raise select statement in_tx attempt map_err now new_string any
    find filter str_eq validate_note round_div overall_note is_record_not_found missing_rating
    existing_rating PTitles.get_title_by_id QTitles.get_title_by_id not_found duplicated Q.same_key
    Q.owned_row Q.season_of Q.to_numeric Q.insert_checked Q.get_rating_row_by_user_title
    Q.get_rating_row_by_id Q.get_rating_seasons Q.insert_rating Q.update_rating_row
    Q.delete_rating_row Q.delete_rating_seasons Q.insert_rating_season P.rating_row_to_model
    P.assemble_seasons_ratings P.insert_rating_seasons P.add_rating P.get_rating_by_id
    P.get_rating_by_user_id_and_title_id P.update_rating P.delete_rating insert delete lookup
    update_where nearest_float float_one times_float add_float shuffled range_order ◌+ℤ◌
delete_rating_fails = refl

delete_rating_atomic_example : (delete_rating (codes "r1") bob (world 99)).1.db ≡ (world 99).db
delete_rating_atomic_example = delete_rating_atomic (codes "r1") bob (world 99) delete_rating_fails

-- Deleting the rating with its last season fails.
delete_rating_season_fails :
    (delete_rating_season (codes "r1") ann (codes "1") series (world 2)).0 ≡ err query_failed
unfolding delete_rating_season atoi itoa ◌>>=◌ pure raise select statement in_tx attempt map_err now
    new_string any find filter str_eq validate_note round_div overall_note is_record_not_found
    missing_rating existing_rating PTitles.get_title_by_id QTitles.get_title_by_id not_found
    duplicated Q.same_key Q.owned_row Q.season_of Q.to_numeric Q.insert_checked
    Q.get_rating_row_by_user_title Q.get_rating_row_by_id Q.get_rating_seasons Q.insert_rating
    Q.update_rating_row Q.delete_rating_row Q.delete_rating_seasons Q.insert_rating_season
    P.rating_row_to_model P.assemble_seasons_ratings P.insert_rating_seasons P.add_rating
    P.get_rating_by_id P.get_rating_by_user_id_and_title_id P.update_rating P.delete_rating insert
    delete lookup update_where nearest_float float_one times_float add_float shuffled range_order
    ◌+ℤ◌
delete_rating_season_fails = refl

delete_rating_season_atomic_example :
    (delete_rating_season (codes "r1") ann (codes "1") series (world 2)).1.db ≡ (world 2).db
delete_rating_season_atomic_example =
    delete_rating_season_atomic (codes "r1") ann (codes "1") series (world 2)
      delete_rating_season_fails

-- The commit fails.
add_comment_fails : (add_comment movie_comment bob movie (world 4)).0 ≡ err query_failed
unfolding add_comment ◌>>=◌ pure raise select statement in_tx attempt map_err now new_string any
    find filter str_eq is_blank trim_space missing_comment existing_comment existing_season
    is_record_not_found not_found duplicated QC.same_key QC.owned_row QC.season_of QC.in_group
    QC.get_user_comment_row_by_title QC.get_comment_seasons QC.insert_comment QC.update_comment_row
    QC.delete_comment_row QC.delete_comment_seasons QC.insert_comment_season PC.comment_row_to_model
    PC.assemble_seasons_comments PC.insert_comment_seasons PC.add_comment
    PC.get_user_comment_by_title_id PC.update_comment PC.delete_comment insert delete lookup
    update_where itoa
add_comment_fails = refl

add_comment_atomic_example : (add_comment movie_comment bob movie (world 4)).1.db ≡ (world 4).db
add_comment_atomic_example = add_comment_atomic movie_comment bob movie (world 4) add_comment_fails

-- Storing the season fails.
update_comment_fails :
    (update_comment friends (codes "c1") ann new_text series (world 7)).0 ≡ err query_failed
unfolding update_comment ◌>>=◌ pure raise select statement in_tx attempt map_err now new_string any
    find filter str_eq is_blank trim_space missing_comment existing_comment existing_season
    is_record_not_found not_found duplicated QC.same_key QC.owned_row QC.season_of QC.in_group
    QC.get_user_comment_row_by_title QC.get_comment_seasons QC.insert_comment QC.update_comment_row
    QC.delete_comment_row QC.delete_comment_seasons QC.insert_comment_season PC.comment_row_to_model
    PC.assemble_seasons_comments PC.insert_comment_seasons PC.add_comment
    PC.get_user_comment_by_title_id PC.update_comment PC.delete_comment insert delete lookup
    update_where itoa
update_comment_fails = refl

update_comment_atomic_example :
    (update_comment friends (codes "c1") ann new_text series (world 7)).1.db ≡ (world 7).db
update_comment_atomic_example =
    update_comment_atomic friends (codes "c1") ann new_text series (world 7) update_comment_fails

-- Deleting the comment with its last season fails.
delete_comment_season_fails :
    (delete_comment_season friends (codes "c1") ann (pos 1) series (world 2)).0 ≡ err query_failed
unfolding delete_comment_season ◌>>=◌ pure raise select statement in_tx attempt map_err now
    new_string any find filter str_eq is_blank trim_space missing_comment existing_comment
    existing_season is_record_not_found not_found duplicated QC.same_key QC.owned_row QC.season_of
    QC.in_group QC.get_user_comment_row_by_title QC.get_comment_seasons QC.insert_comment
    QC.update_comment_row QC.delete_comment_row QC.delete_comment_seasons QC.insert_comment_season
    PC.comment_row_to_model PC.assemble_seasons_comments PC.insert_comment_seasons PC.add_comment
    PC.get_user_comment_by_title_id PC.update_comment PC.delete_comment insert delete lookup
    update_where itoa
delete_comment_season_fails = refl

delete_comment_season_atomic_example :
    (delete_comment_season friends (codes "c1") ann (pos 1) series (world 2)).1.db ≡ (world 2).db
delete_comment_season_atomic_example =
    delete_comment_season_atomic friends (codes "c1") ann (pos 1) series (world 2)
      delete_comment_season_fails
