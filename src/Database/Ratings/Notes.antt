-- ===== src/Database/Ratings/Notes.antt =====
-- The NUMERIC(3,1) columns: every note that a query stores is a whole number of tenths.
use native.Mathlib.Nat.{mul_comm}
use aftercredits_backend.Base.{
  ℕ, ◌+◌, ◌*◌, ◌/◌, ◌≤◌, ◌≡◌, refl, Bool, true, false, List, [], ◌∷◌, ◌++◌, Str, any, All,
  All-append, All-filter, All-update_where, Option, none, some, if◌then◌else◌, pos, negsuc, ◌≤ℤ◌,
  round_div, arith,
}
use aftercredits_backend.Models.{Note, tenth, Time, unique_violation, foreign_key_violation}
use aftercredits_backend.Database.Exec.{RatingRow, RatingSeasonRow, Tables, Result, ok, err}
use aftercredits_backend.Database.Rules.{Applied}
use aftercredits_backend.Database.Shapes.{Keeps, Keeps-statement}
use aftercredits_backend.Database.Ratings.{
  to_numeric, owned_row, with_note, with_rating, updated, insert_checked, insert_season_checked,
  insert_rating, update_rating_row, delete_rating_row, delete_rating_seasons, insert_rating_season,
}

-- From 0.0 to 10.0, in tenths.
abbrev pub StoredNote : Note → Type 0
StoredNote x = (k : ℕ) × (x ≡ pos (k * tenth)) × (k ≤ 100)

abbrev pub InRange : Note → Type 0
InRange x = (pos 0 ≤ℤ x) × (x ≤ℤ pos (100 * tenth))

pub StoredNote-InRange : (x : Note) → StoredNote x → InRange x
StoredNote-InRange x (k, e, h) = rw e (omega arith)

-- Every stored note and season rating is one.
pub record HasNotes (t : Tables) : Type 0 where
  pub notes : All (λ r. StoredNote r.note) t.ratings
  pub seasons : All (λ s. StoredNote s.rating) t.rating_seasons

pub to_numeric-StoredNote : (x n : Note) → InRange x → to_numeric x ≡ ok n → StoredNote n
unfolding to_numeric round_div
to_numeric-StoredNote (negsuc x) n h e = absurd (omega arith)
to_numeric-StoredNote (pos x) n h e = (
  (2 * x + tenth) / (2 * tenth),
  ground (arith, mul_comm tenth ((2 * x + tenth) / (2 * tenth))),
  omega arith,
)

abbrev StaysNoted : {A : Type 0} → Tables → Result (A × Tables) → Type 0
StaysNoted t r = Applied (λ _. HasNotes) (λ _. HasNotes) t r

insert_checked-HasNotes :
    (row : RatingRow) (t : Tables)
    → StoredNote row.note
    → HasNotes t
    → StaysNoted t (insert_checked row t)
unfolding insert_checked
insert_checked-HasNotes row t n h = split (any _ t.ratings) (any _ t.groups) (record {
  notes = All-append (λ r. StoredNote r.note) t.ratings (row ∷ []) h.notes (n, tt);
  seasons = h.seasons;
})
  where
    split :
        (taken known : Bool)
        → HasNotes (record t { ratings = t.ratings ++ row ∷ [] })
        → StaysNoted t (
            if taken
            then err unique_violation
            else if known
            then ok (row, record t { ratings = t.ratings ++ row ∷ [] })
            else err foreign_key_violation)
    split true known i = h
    split false true i = i
    split false false i = h

insert_season_checked-HasNotes :
    (row : RatingSeasonRow) (t : Tables)
    → StoredNote row.rating
    → HasNotes t
    → StaysNoted t (insert_season_checked row t)
unfolding insert_season_checked
insert_season_checked-HasNotes row t n h =
    split (any _ t.rating_seasons) (any _ t.ratings) (record {
      notes = h.notes;
      seasons = All-append (λ s. StoredNote s.rating) t.rating_seasons (row ∷ []) h.seasons (n, tt);
    })
  where
    split :
        (taken known : Bool)
        → HasNotes (record t { rating_seasons = t.rating_seasons ++ row ∷ [] })
        → StaysNoted t (
            if taken
            then err unique_violation
            else if known
            then ok (tt, record t { rating_seasons = t.rating_seasons ++ row ∷ [] })
            else err foreign_key_violation)
    split true known i = h
    split false true i = i
    split false false i = h

updated-HasNotes :
    (id user_id : Str) (n : Note) (at : Time) (t : Tables) (o : Option RatingRow)
    → StoredNote n
    → HasNotes t
    → StaysNoted t (updated id user_id n at t o)
updated-HasNotes id user_id n at t none s h = h
updated-HasNotes id user_id n at t (some r) s h = record {
  notes = All-update_where (λ r. StoredNote r.note) _ _ t.ratings (λ x _. s) h.notes;
  seasons = h.seasons;
}

numeric_cases :
    (x : Note) (t : Tables) (f : Note → Result (RatingRow × Tables)) (r : Result Note)
    → ((n : Note) → r ≡ ok n → StaysNoted t (f n))
    → HasNotes t
    → StaysNoted t (with_note f r)
numeric_cases x t f (ok n) k h = k n refl
numeric_cases x t f (err e) k h = h

season_cases :
    (t : Tables) (f : Note → Result (Unit {0} × Tables)) (r : Result Note)
    → ((n : Note) → r ≡ ok n → StaysNoted t (f n))
    → HasNotes t
    → StaysNoted t (with_rating f r)
season_cases t f (ok n) k h = k n refl
season_cases t f (err e) k h = h

pub Noted-insert_rating : (row : RatingRow) → InRange row.note → Keeps HasNotes (insert_rating row)
unfolding insert_rating
Noted-insert_rating row i = Keeps-statement _ λ t h.
    numeric_cases row.note t _ (to_numeric row.note)
      (λ n e. insert_checked-HasNotes _ t (to_numeric-StoredNote row.note n i e) h) h

pub Noted-update_rating_row :
    (id user_id : Str) (note : Note) (at : Time)
    → InRange note
    → Keeps HasNotes (update_rating_row id user_id note at)
unfolding update_rating_row
Noted-update_rating_row id user_id note at i = Keeps-statement _ λ t h.
    numeric_cases note t _ (to_numeric note)
      (λ n e. updated-HasNotes id user_id n at t _ (to_numeric-StoredNote note n i e) h) h

pub Noted-insert_rating_season :
    (row : RatingSeasonRow) → InRange row.rating → Keeps HasNotes (insert_rating_season row)
unfolding insert_rating_season
Noted-insert_rating_season row i = Keeps-statement _ λ t h.
    season_cases t _ (to_numeric row.rating)
      (λ n e. insert_season_checked-HasNotes _ t (to_numeric-StoredNote row.rating n i e) h) h

pub Noted-delete_rating_seasons : (id : Str) → Keeps HasNotes (delete_rating_seasons id)
unfolding delete_rating_seasons
Noted-delete_rating_seasons id = Keeps-statement _ λ t h. record {
  notes = h.notes;
  seasons = All-filter (λ s. StoredNote s.rating) _ t.rating_seasons h.seasons;
}

pub Noted-delete_rating_row : (id user_id : Str) → Keeps HasNotes (delete_rating_row id user_id)
unfolding delete_rating_row
Noted-delete_rating_row id user_id = Keeps-statement _ λ t h. record {
  notes = All-filter (λ r. StoredNote r.note) _ t.ratings h.notes;
  seasons =
      split (any (owned_row id user_id) t.ratings) t.rating_seasons _
        (All-filter (λ s. StoredNote s.rating) _ t.rating_seasons h.seasons) h.seasons;
}
  where
    split :
        (b : Bool) (xs ys : List RatingSeasonRow)
        → All (λ s. StoredNote s.rating) ys
        → All (λ s. StoredNote s.rating) xs
        → All (λ s. StoredNote s.rating) (if b then ys else xs)
    split true xs ys hy hx = hy
    split false xs ys hy hx = hx
