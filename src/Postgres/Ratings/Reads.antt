-- ===== src/Postgres/Ratings/Reads.antt =====
-- The reads of internal/postgres/ratings.go write nothing.
use aftercredits_backend.Base.{Str}
use aftercredits_backend.Database.Exec.{Tables}
use aftercredits_backend.Database.Shapes.{Keeps, keeps_rules}
use aftercredits_backend.Database.Titles as TitleQueries
use aftercredits_backend.Database.Ratings
use aftercredits_backend.Postgres.Titles
use aftercredits_backend.Postgres.Ratings.{get_rating_by_id, get_rating_by_user_id_and_title_id}

module _ (P : Tables → Type 0) where
  pub Keeps-get_title_by_id : (id : Str) → Keeps P (Titles.get_title_by_id id)
  unfolding Titles.get_title_by_id TitleQueries.get_title_by_id
  Keeps-get_title_by_id id = search keeps_rules

  pub Keeps-get_rating_by_id : (id user_id : Str) → Keeps P (get_rating_by_id id user_id)
  unfolding get_rating_by_id Ratings.get_rating_row_by_id Ratings.get_rating_seasons
  Keeps-get_rating_by_id id user_id = search keeps_rules

  pub Keeps-get_rating_by_user_id_and_title_id :
      (user_id title_id group_id : Str)
      → Keeps P (get_rating_by_user_id_and_title_id user_id title_id group_id)
  unfolding get_rating_by_user_id_and_title_id Ratings.get_rating_row_by_user_title
      Ratings.get_rating_seasons
  Keeps-get_rating_by_user_id_and_title_id user_id title_id group_id = search keeps_rules
