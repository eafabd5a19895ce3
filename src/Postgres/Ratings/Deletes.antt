-- ===== src/Postgres/Ratings/Deletes.antt =====
-- The delete of internal/postgres/ratings.go.
use aftercredits_backend.Base.{◌≡◌, ◌∙◌, ◌≢◌, Str, length, filter, filter_none, ◌==◌, ==_iff, arith}
use aftercredits_backend.Database.Exec.{Tables}
use aftercredits_backend.Database.Rules.{
  Hoare, Hoare-statement, Hoare-bind, Hoare-if, Hoare-raise, Hoare-pure,
}
use aftercredits_backend.Database.Ratings
use aftercredits_backend.Database.Ratings.{owned_row, delete_owned}
use aftercredits_backend.Postgres.Ratings.{delete_rating}

delete_nothing :
    (t : Tables) (id user_id : Str)
    → length (filter (owned_row id user_id) t.ratings) ≡ 0
    → delete_owned id user_id t ≡ t
delete_nothing t id user_id h =
    let (kept, none_owned) = filter_none (owned_row id user_id) t.ratings h in rw (kept, none_owned)

-- An error leaves the tables as they were, and a success has deleted a row.
pub delete_rating_hoare :
    (t : Tables) (id user_id : Str)
    → Hoare (λ s. s ≡ t) (delete_rating id user_id) (λ n _. n ≢ 0) (λ _ s. s ≡ t)
unfolding delete_rating Ratings.delete_rating_row
delete_rating_hoare t id user_id =
    Hoare-bind _ _
      (Hoare-statement {Q = λ n s. n ≡ 0 → s ≡ t} _ (λ s e. e)
        (λ s e z. delete_nothing s id user_id z ∙ e))
      λ n.
        Hoare-if (n == 0) _ _ (λ z. Hoare-raise _ (λ s q. q ((==_iff n 0).0 z)))
          (λ z. Hoare-pure n (λ s q e. ground arith))
