-- ===== src/Services/Ratings/Stored.antt =====
-- Whatever a client asks of the ratings service, the stored notes stay in range.
use aftercredits_backend.Base.{
  ℕ, if◌then◌else◌, ◌≡◌, refl, not, [], ◌∷◌, Str, Option, none, some, ℤ, arith,
}
use aftercredits_backend.Base.Text.{itoa}
use aftercredits_backend.Base.Assoc.{delete, AllValues-insert, AllValues-delete}
use aftercredits_backend.Models.{
  rating_not_found, Error, Note, Time, UserRating, SeasonsRatings, SeasonRatingItem, Title,
}
use aftercredits_backend.Database.Exec.{World, Result, ok, err, Exec, raise, attempt, ◌>>=◌}
use aftercredits_backend.Database.Rules.{
  Hoare, Outcome, Selected, Hoare-bind, Hoare-attempt, Hoare-map_err, Hoare-raise,
}
use aftercredits_backend.Database.Shapes.{Keeps, Keeps-bind, keeps_rules}
use aftercredits_backend.Database.Ratings.Notes.{InRange, HasNotes}
use aftercredits_backend.Postgres.Ratings.Reads.{Keeps-get_title_by_id}
use aftercredits_backend.Postgres.Ratings.Notes.{
  ItemsInRange, SeasonsInRange, ReadsInRange, get_rating_by_id-InRange,
  get_rating_by_user_id_and_title_id-InRange, Noted-add_rating, Noted-update_rating,
  Noted-delete_rating,
}
use aftercredits_backend.Services.Ratings.{
  Rating, NewRating, UpdateRatingRequest, validate_note, overall_note, lift, missing_rating,
}
use aftercredits_backend.Services.Ratings.Notes.{validate_note-InRange, overall_note-Between}
use aftercredits_backend.Services.Ratings.Atomicity.{Keeps-get_rating}
use aftercredits_backend.Services.Ratings.Write.{
  rated, season_item, update_rating_for_movie, update_rating_for_tv_series, remove_season,
  with_season, new_item, seasons_or_empty, create_with_season, extend_with_season, add_season,
  add_rating_for_season, add_movie, add_rating_for_movie, add_rating_for_tv_series, add_rating,
  rewrite_season, update_season, update_rating_season, update_rating, delete_rating,
  store_remaining, delete_parsed_season,
}

overall_note-InRange :
    (order : ℕ) (m : Option SeasonsRatings) → SeasonsInRange m → InRange (overall_note order m)
unfolding overall_note
overall_note-InRange order none h = omega arith
overall_note-InRange order (some []) h = omega arith
overall_note-InRange order (some (x ∷ m)) h =
    let (k, e, lo, hi) = overall_note-Between 0 10 order x m h in rw e (omega arith)

with_season-InRange :
    (key : Str) (item : SeasonRatingItem) (m : Option SeasonsRatings)
    → InRange item.rating
    → SeasonsInRange m
    → ItemsInRange (with_season key item m)
with_season-InRange key item none h s = (h, tt)
with_season-InRange key item (some m) h s = AllValues-insert (λ i. InRange i.rating) key item m h s

-- What runs after a note was accepted may use that it is in range.
checked :
    {A : Type 0} (note : Note) (m : Exec A)
    → (InRange note → Keeps HasNotes m)
    → Keeps HasNotes (lift (validate_note note) >>= λ _. m)
checked {A} note m k = go (validate_note note) (validate_note-InRange note)
  where
    go : (r : Result (Unit {0})) → (r ≡ ok tt → InRange note) → Keeps HasNotes (lift r >>= λ _. m)
    go (ok u) h = Keeps-bind _ _ (search keeps_rules) (λ _. k (h refl))
    go (err e) h = record {
      hoare =
          Hoare-bind {R = λ _ _. ⊥} _ _ (Hoare-raise e (λ t p. p))
            (λ _. record { at = λ w p. absurd p });
    }

Noted-create :
    (new : NewRating) (user_id key : Str)
    → InRange new.note
    → Keeps HasNotes (create_with_season new user_id key)
unfolding create_with_season
Noted-create new user_id key h = Keeps-bind _ _ (search keeps_rules) λ at.
    let seasons = with_season-InRange key (new_item new.note at) none h tt in
    Keeps-bind _ _ (search keeps_rules) λ order.
      Keeps-bind _ _ (Noted-add_rating _ (overall_note-InRange order (some _) seasons) seasons)
        (λ _. search keeps_rules)

Noted-extend :
    (new : NewRating) (user_id key : Str) (r : UserRating)
    → InRange new.note
    → SeasonsInRange r.seasons_ratings
    → Keeps HasNotes (extend_with_season new user_id key r)
unfolding extend_with_season
Noted-extend new user_id key r h s =
    let seasons =
      λ (at : Time). with_season-InRange key (new_item new.note at) r.seasons_ratings h s in
    search (keeps_rules, Noted-update_rating, overall_note-InRange, seasons) depth 9

-- An action that goes on from a rating that was read, or from the error of the read.
from_read :
    {A : Type 0} (m : Exec UserRating) (f : Result UserRating → Exec A)
    → Hoare HasNotes m ReadsInRange (λ _. HasNotes)
    → ((r : UserRating) → SeasonsInRange r.seasons_ratings → Keeps HasNotes (f (ok r)))
    → ((e : Error) → Keeps HasNotes (f (err e)))
    → Keeps HasNotes (attempt m >>= f)
from_read {A} m f h good bad = record {
  hoare = Hoare-bind (attempt m) f (Hoare-attempt m h) λ r. record { at = go r };
}
  where
    go :
        (r : Result UserRating) (w : World)
        → Selected ReadsInRange (λ _. HasNotes) w.db r
        → Outcome (λ _. HasNotes) (λ _. HasNotes) (f r w)
    go (ok r) w o = (good r o.0).hoare.at w o.1
    go (err e) w o = (bad e).hoare.at w o

from_read_ok :
    {A : Type 0} (m : Exec UserRating) (f : UserRating → Exec A)
    → Hoare HasNotes m ReadsInRange (λ _. HasNotes)
    → ((r : UserRating) → SeasonsInRange r.seasons_ratings → Keeps HasNotes (f r))
    → Keeps HasNotes (m >>= f)
from_read_ok m f h good = record {
  hoare = Hoare-bind m f h λ r. record { at = λ w o. (good r o.0).hoare.at w o.1 };
}

Noted-add_rating_for_season :
    (new : NewRating) (user_id : Str) (title : Title) (n : Option ℤ)
    → InRange new.note
    → Keeps HasNotes (add_rating_for_season new user_id title n)
unfolding add_rating_for_season
Noted-add_rating_for_season new user_id title none h = search keeps_rules
Noted-add_rating_for_season new user_id title (some n) h =
    let added =
      from_read _ (add_season new user_id (itoa n))
        (get_rating_by_user_id_and_title_id-InRange user_id new.title_id new.group_id)
        (λ r s. Noted-extend new user_id (itoa n) r h s)
        (λ e. search (keeps_rules, Noted-create new user_id (itoa n) h)) in
    search (keeps_rules, added)

Noted-add_rating_for_movie :
    (new : NewRating) (user_id : Str)
    → InRange new.note
    → Keeps HasNotes (add_rating_for_movie new user_id)
unfolding add_rating_for_movie
Noted-add_rating_for_movie new user_id h =
    from_read _ (add_movie new user_id)
      (get_rating_by_user_id_and_title_id-InRange user_id new.title_id new.group_id)
      (λ r s. search keeps_rules) (λ e. search (keeps_rules, Noted-add_rating, h, tt {0}))

pub Noted-add : (new : NewRating) (user_id : Str) → Keeps HasNotes (add_rating new user_id)
unfolding add_rating add_rating_for_tv_series
Noted-add new user_id = checked new.note _ λ h.
    search
      (
        keeps_rules, Keeps-get_title_by_id, Noted-add_rating_for_season, Noted-add_rating_for_movie,
        h,
      )
      depth 9

seasons_or_empty-InRange :
    (m : Option SeasonsRatings) → SeasonsInRange m → ItemsInRange (seasons_or_empty m)
seasons_or_empty-InRange none s = tt
seasons_or_empty-InRange (some m) s = s

Noted-rewrite_season :
    (id user_id : Str) (note : Note) (key : Str) (r : UserRating) (item : Option SeasonRatingItem)
    → InRange note
    → SeasonsInRange r.seasons_ratings
    → Keeps HasNotes (rewrite_season id user_id note key r item)
unfolding rewrite_season
Noted-rewrite_season id user_id note key r none h s = search keeps_rules
Noted-rewrite_season id user_id note key r (some item) h s =
    let seasons = λ (at : Time).
      AllValues-insert (λ i. InRange i.rating) key
        (record { rating = note; added_at = item.added_at; updated_at = at })
        (seasons_or_empty r.seasons_ratings) h (seasons_or_empty-InRange r.seasons_ratings s) in
    search (keeps_rules, Noted-update_rating, overall_note-InRange, seasons) depth 9

Noted-update_rating_season :
    (rating : Rating) (user_id : Str) (req : UpdateRatingRequest) (n : Option ℤ)
    → InRange req.note
    → Keeps HasNotes (update_rating_season rating user_id req n)
unfolding update_rating_season update_season
Noted-update_rating_season rating user_id req none h = search keeps_rules
Noted-update_rating_season rating user_id req (some n) h =
    let rewritten =
      from_read_ok _
        (λ r.
          rewrite_season rating.id user_id req.note (itoa n) r
            (season_item (itoa n) r.seasons_ratings))
        (get_rating_by_id-InRange rating.id user_id)
        (λ r s. Noted-rewrite_season rating.id user_id req.note (itoa n) r _ h s) in
    search (keeps_rules, rewritten)

Noted-update_rating_for_movie :
    (id user_id : Str) (req : UpdateRatingRequest)
    → InRange req.note
    → Keeps HasNotes (update_rating_for_movie id user_id req)
unfolding update_rating_for_movie
Noted-update_rating_for_movie id user_id req h =
    search (keeps_rules, Noted-update_rating, h, tt {0})

pub Noted-update :
    (id user_id : Str) (req : UpdateRatingRequest) → Keeps HasNotes (update_rating id user_id req)
unfolding update_rating update_rating_for_tv_series
Noted-update id user_id req = checked req.note _ λ h.
    search
      (
        keeps_rules, Keeps-get_title_by_id, Keeps-get_rating, Noted-update_rating_season,
        Noted-update_rating_for_movie, h,
      )
      depth 9

pub Noted-delete : (id user_id : Str) → Keeps HasNotes (delete_rating id user_id)
unfolding delete_rating
Noted-delete id user_id = search (keeps_rules, Noted-delete_rating)

Noted-store_remaining :
    (id user_id : Str) (m : SeasonsRatings)
    → ItemsInRange m
    → Keeps HasNotes (store_remaining id user_id m)
unfolding store_remaining
Noted-store_remaining id user_id [] h = search (keeps_rules, Noted-delete_rating)
Noted-store_remaining id user_id (x ∷ m) h =
    search (keeps_rules, Noted-update_rating, overall_note-InRange, h)

Noted-remove_season : (id user_id key : Str) → Keeps HasNotes (remove_season id user_id key)
unfolding remove_season
Noted-remove_season id user_id key = record {
  hoare =
      Hoare-bind _ _ (Hoare-map_err missing_rating _ (get_rating_by_id-InRange id user_id))
        λ r. record { at = λ w o. (rest r o.0).hoare.at w o.1 };
}
  where
    rest :
        (r : UserRating)
        → SeasonsInRange r.seasons_ratings
        → Keeps HasNotes (
            if not (rated key r.seasons_ratings)
            then raise rating_not_found
            else store_remaining id user_id (delete key (seasons_or_empty r.seasons_ratings)))
    rest r s =
        let left =
          AllValues-delete (λ i. InRange i.rating) key (seasons_or_empty r.seasons_ratings)
            (seasons_or_empty-InRange r.seasons_ratings s) in
        search (keeps_rules, Noted-store_remaining, left)

pub Noted-delete_parsed_season :
    (id user_id : Str) (title : Title) (n : Option ℤ)
    → Keeps HasNotes (delete_parsed_season id user_id title n)
unfolding delete_parsed_season
Noted-delete_parsed_season id user_id title none = search keeps_rules
Noted-delete_parsed_season id user_id title (some n) = search (keeps_rules, Noted-remove_season)
