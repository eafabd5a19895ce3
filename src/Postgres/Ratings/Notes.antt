-- ===== src/Postgres/Ratings/Notes.antt =====
-- The store's reads give notes in range, and its writes keep the stored notes in range.
use aftercredits_backend.Base.{List, [], ◌∷◌, Str, All, All-filter, Option, none, some}
use aftercredits_backend.Base.Assoc.{insert, AllValues, AllValues-insert}
use aftercredits_backend.Models.{no_rows, UserRating, SeasonsRatings}
use aftercredits_backend.Database.Exec.{RatingRow, RatingSeasonRow, Tables, or_raise}
use aftercredits_backend.Database.Rules.{
  Hoare, Selected, Hoare-select, Hoare-bind, Hoare-map_err, Hoare-pure,
}
use aftercredits_backend.Database.Shapes.{Keeps, Keeps-bind, keeps_rules}
use aftercredits_backend.Database.Ratings
use aftercredits_backend.Database.Ratings.{season_of}
use aftercredits_backend.Database.Ratings.Notes.{
  StoredNote, InRange, StoredNote-InRange, HasNotes, Noted-insert_rating, Noted-update_rating_row,
  Noted-insert_rating_season, Noted-delete_rating_seasons, Noted-delete_rating_row,
}
use aftercredits_backend.Postgres.Titles.{not_found}
use aftercredits_backend.Postgres.Ratings.{
  rating_season_row_to_item, collect_seasons, assemble_seasons_ratings, insert_seasons,
  insert_rating_seasons, add_rating, with_seasons, get_rating_by_id,
  get_rating_by_user_id_and_title_id, update_rating, delete_rating, rating_row_to_model,
}

-- Every season's rating is in range.
abbrev pub ItemsInRange : SeasonsRatings → Type 0
ItemsInRange = AllValues (λ item. InRange item.rating)

abbrev pub SeasonsInRange : Option SeasonsRatings → Type 0
SeasonsInRange none = Unit {0}
SeasonsInRange (some m) = ItemsInRange m

collect-InRange :
    (out : SeasonsRatings) (rows : List RatingSeasonRow)
    → ItemsInRange out
    → All (λ s. StoredNote s.rating) rows
    → ItemsInRange (collect_seasons out rows)
unfolding collect_seasons rating_season_row_to_item
collect-InRange out [] o h = o
collect-InRange out (r ∷ rows) o h =
    collect-InRange (insert r.season (rating_season_row_to_item r) out) rows
      (AllValues-insert (λ item. InRange item.rating) r.season _ out
        (StoredNote-InRange r.rating h.0) o)
      h.1

assemble-InRange :
    (rows : List RatingSeasonRow)
    → All (λ s. StoredNote s.rating) rows
    → SeasonsInRange (assemble_seasons_ratings rows)
unfolding assemble_seasons_ratings
assemble-InRange [] h = tt
assemble-InRange (r ∷ rows) h = collect-InRange [] (r ∷ rows) tt h

Selected-row :
    (t : Tables) (o : Option RatingRow)
    → HasNotes t
    → Selected (λ _. HasNotes) (λ _. HasNotes) t (or_raise no_rows o)
Selected-row t none h = h
Selected-row t (some r) h = h

-- A rating that is read has its seasons in range.
abbrev pub ReadsInRange : UserRating → Tables → Type 0
ReadsInRange r t = SeasonsInRange r.seasons_ratings × HasNotes t

with_seasons-InRange :
    (row : RatingRow) → Hoare HasNotes (with_seasons row) ReadsInRange (λ _. HasNotes)
unfolding with_seasons Ratings.get_rating_seasons rating_row_to_model
with_seasons-InRange row =
    Hoare-bind _ _
      (Hoare-select {Q = λ rows t. All (λ s. StoredNote s.rating) rows × HasNotes t} _ (λ t h. h)
        (λ t h.
          (All-filter (λ s. StoredNote s.rating) (season_of row.id) t.rating_seasons h.seasons, h)))
      (λ rows. Hoare-pure _ (λ t h. (assemble-InRange rows h.0, h.1)))

pub get_rating_by_id-InRange :
    (id user_id : Str) → Hoare HasNotes (get_rating_by_id id user_id) ReadsInRange (λ _. HasNotes)
unfolding get_rating_by_id Ratings.get_rating_row_by_id
get_rating_by_id-InRange id user_id =
    Hoare-bind _ _
      (Hoare-map_err not_found _ (Hoare-select _ (λ t h. h) (λ t h. Selected-row t _ h)))
      with_seasons-InRange

pub get_rating_by_user_id_and_title_id-InRange :
    (user_id title_id group_id : Str)
    → Hoare HasNotes
        (get_rating_by_user_id_and_title_id user_id title_id group_id)
        ReadsInRange
        (λ _. HasNotes)
unfolding get_rating_by_user_id_and_title_id Ratings.get_rating_row_by_user_title
get_rating_by_user_id_and_title_id-InRange user_id title_id group_id =
    Hoare-bind _ _
      (Hoare-map_err not_found _ (Hoare-select _ (λ t h. h) (λ t h. Selected-row t _ h)))
      with_seasons-InRange

ruleset noted = (
  keeps_rules, Noted-insert_rating, Noted-update_rating_row, Noted-insert_rating_season,
  Noted-delete_rating_seasons, Noted-delete_rating_row,
)

Noted-insert_seasons :
    (id : Str) (m : SeasonsRatings) → ItemsInRange m → Keeps HasNotes (insert_seasons id m)
unfolding insert_seasons
Noted-insert_seasons id [] h = search noted
Noted-insert_seasons id ((k, item) ∷ m) h =
    let rest = Noted-insert_seasons id m h.1 in
    Keeps-bind _ _ (Noted-insert_rating_season _ h.0) (λ _. rest)

Noted-insert_rating_seasons :
    (id : Str) (m : Option SeasonsRatings)
    → SeasonsInRange m
    → Keeps HasNotes (insert_rating_seasons id m)
unfolding insert_rating_seasons
Noted-insert_rating_seasons id none h = search noted
Noted-insert_rating_seasons id (some m) h = Noted-insert_seasons id m h

pub Noted-add_rating :
    (r : UserRating)
    → InRange r.note
    → SeasonsInRange r.seasons_ratings
    → Keeps HasNotes (add_rating r)
unfolding add_rating
Noted-add_rating r n s =
    let seasons = λ (id : Str). Noted-insert_rating_seasons id r.seasons_ratings s in
    search (noted, seasons) depth 12

pub Noted-update_rating :
    (r : UserRating) (user_id : Str)
    → InRange r.note
    → SeasonsInRange r.seasons_ratings
    → Keeps HasNotes (update_rating r user_id)
unfolding update_rating
Noted-update_rating r user_id n s =
    let seasons = λ (id : Str). Noted-insert_rating_seasons id r.seasons_ratings s in
    search (noted, seasons) depth 12

pub Noted-delete_rating : (id user_id : Str) → Keeps HasNotes (delete_rating id user_id)
unfolding delete_rating
Noted-delete_rating id user_id = search noted
