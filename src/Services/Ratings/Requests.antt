-- ===== src/Services/Ratings/Requests.antt =====
-- The ratings service over any run of requests.
use aftercredits_backend.Base.{List, [], ◌∷◌, Str}
use aftercredits_backend.Base.Text.{atoi}
use aftercredits_backend.Models.{Title}
use aftercredits_backend.Database.Exec.{World}
use aftercredits_backend.Database.Shapes.{kept}
use aftercredits_backend.Database.Ratings.Notes.{HasNotes}
use aftercredits_backend.Services.Ratings.{NewRating, UpdateRatingRequest}
use aftercredits_backend.Services.Ratings.Write.{
  add_rating, update_rating, delete_rating, delete_rating_season,
}
use aftercredits_backend.Services.Ratings.Stored.{
  Noted-add, Noted-update, Noted-delete, Noted-delete_parsed_season,
}

-- A request that writes ratings.
pub data Call : Type 0 where
  add : NewRating → Call
  update : Str → UpdateRatingRequest → Call
  remove : Str → Call
  remove_season : Str → Str → Title → Call

-- The world after a user's request, whatever its result.
unfoldable pub serve : World → Str × Call → World
serve w (user_id, add new) = (add_rating new user_id w).1
serve w (user_id, update id req) = (update_rating id user_id req w).1
serve w (user_id, remove id) = (delete_rating id user_id w).1
serve w (user_id, remove_season id season title) =
    (delete_rating_season id user_id season title w).1

unfoldable pub serve_all : World → List (Str × Call) → World
unfolding serve
serve_all w [] = w
serve_all w (c ∷ cs) = serve_all (serve w c) cs

serve-HasNotes : (w : World) (c : Str × Call) → HasNotes w.db → HasNotes (serve w c).db
unfolding serve delete_rating_season
serve-HasNotes w (user_id, add new) h = kept HasNotes _ w (Noted-add new user_id) h
serve-HasNotes w (user_id, update id req) h = kept HasNotes _ w (Noted-update id user_id req) h
serve-HasNotes w (user_id, remove id) h = kept HasNotes _ w (Noted-delete id user_id) h
serve-HasNotes w (user_id, remove_season id season title) h =
    kept HasNotes _ w (Noted-delete_parsed_season id user_id title (atoi season)) h

-- If every stored note and season rating is a whole number of tenths from 0 to 10, that holds
-- after any run of requests that add, update or delete ratings or a season of one, by any users
-- and with any calls to the database failing.
pub serve_all-HasNotes :
    (w : World) (cs : List (Str × Call)) → HasNotes w.db → HasNotes (serve_all w cs).db
unfolding serve_all
serve_all-HasNotes w [] h = h
serve_all-HasNotes w (c ∷ cs) h = serve_all-HasNotes (serve w c) cs (serve-HasNotes w c h)
