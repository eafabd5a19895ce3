-- ===== src/Tests/RoundTrips.antt =====
-- A comment and a rating, added and read back.
use aftercredits_backend.Base.{
  ℕ, ◌≡◌, refl, none, some, [], ◌∷◌, Str, codes, pos, any, str_eq, round_div,
}
use aftercredits_backend.Models.{Comment, UserRating}
use aftercredits_backend.Database.Exec.{ok}
use aftercredits_backend.Database.Ratings as Q
use aftercredits_backend.Database.Comments as QC
use aftercredits_backend.Postgres.Comments as PC
use aftercredits_backend.Postgres.Comments.RoundTrip as C
use aftercredits_backend.Postgres.Ratings as PR
use aftercredits_backend.Postgres.Ratings.RoundTrip as R
use aftercredits_backend.Tests.Fixtures.{bob, friends, tables}

abbrev clock : ℕ → ℕ
clock n = n

abbrev ids : ℕ → Str
ids n = n ∷ []

abbrev bobs_comment : Comment
bobs_comment = record {
  id = [];
  title_id = codes "m";
  user_id = bob;
  group_id = friends;
  comment = some (codes "fine");
  seasons_comments = none;
  created_at = 0;
  updated_at = 0;
}

abbrev bobs_rating : UserRating
bobs_rating = record {
  id = [];
  title_id = codes "m";
  seasons_ratings = none;
  user_id = bob;
  group_id = friends;
  note = pos 7_500_050;
  created_at = 0;
  updated_at = 0;
}

get_user_comment-add_comment_example :
    (PC.get_user_comment_by_title_id
      (codes "m")
      bob
      friends
      (PC.add_comment bobs_comment (C.faultless clock ids tables 0)).1).0
    ≡ ok (record bobs_comment { id = 1 ∷ []; created_at = 2; updated_at = 2 })
unfolding any str_eq QC.same_key QC.season_of
get_user_comment-add_comment_example =
    C.get_user_comment-add_comment clock ids tables 0 bobs_comment refl refl refl refl

get_rating-add_rating_example :
    (PR.get_rating_by_user_id_and_title_id bob
      (codes "m")
      friends
      (PR.add_rating bobs_rating (R.faultless clock ids tables 0)).1).0
    ≡ ok (record bobs_rating { id = 1 ∷ []; note = pos 7_500_000; created_at = 2; updated_at = 2 })
unfolding any str_eq round_div Q.same_key Q.season_of Q.to_numeric
get_rating-add_rating_example =
    R.get_rating-add_rating clock ids tables 0 bobs_rating (pos 7_500_000) refl refl refl refl refl
