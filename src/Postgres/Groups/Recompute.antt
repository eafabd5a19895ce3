-- ===== src/Postgres/Groups/Recompute.antt =====
-- The watched state of a series follows from its seasons.
use native.Mathlib.Nat.{le_refl}
use aftercredits_backend.Base.{
  ◌≤◌, ◌<◌, ◌==◌, ◌⊎◌, inl, inr, Bool-cases, ltb→lt, ◌≡◌, refl, Bool, true, false, ◌||◌, Option,
  none, some, List, [], ◌∷◌, Str, any, find, filter, update_where, All, ltb, if◌then◌else◌, arith,
  ℤ,
}
use aftercredits_backend.Base.Text.{itoa}
use aftercredits_backend.Models.{Time, GroupTitleItem}
use aftercredits_backend.Database.Exec.{
  GroupTitleRow, GroupTitleSeasonRow, Tables, World, Result, ok, err, Exec, ◌>>=◌, in_tx,
}
use aftercredits_backend.Database.Rules.{
  Hoare, Outcome, Applied, Hoare-select, Hoare-statement, Hoare-bind, Hoare-map_err, Hoare-pure,
  Hoare-in_tx, Hoare-now,
}
use aftercredits_backend.Database.Groups
use aftercredits_backend.Database.Groups.{title_of, season_of_title, mark, marked}
use aftercredits_backend.Postgres.Groups.{
  recompute, later, recompute_title, update_season_tx, update_group_title_watched_for_tv_series,
}

abbrev pub add_date : Option Time → List Time → List Time
add_date none ds = ds
add_date (some w) ds = w ∷ ds

-- The dates of the watched seasons.
unfoldable pub dates : List GroupTitleSeasonRow → List Time
dates [] = []
dates (s ∷ rows) = let ds = dates rows in if s.watched then add_date s.watched_at ds else ds

-- The latest of the dates; none when there is none.
abbrev pub IsLatest : Option Time → List Time → Type 0
IsLatest none ds = ds ≡ []
IsLatest (some w) ds = (any (λ d. d == w) ds ≡ true) × All (λ d. d ≤ w) ds

absorb_lt :
    (o : Option Time) (top w : Time) (ds : List Time)
    → top < w
    → IsLatest o (w ∷ ds)
    → IsLatest o (top ∷ w ∷ ds)
unfolding any
absorb_lt none top w ds l h = absurd (ground arith)
absorb_lt (some x) top w ds l (m, (b, bs)) = (ground arith, (omega arith, (b, bs)))

absorb_ge :
    (o : Option Time) (top w : Time) (ds : List Time)
    → w ≤ top
    → IsLatest o (top ∷ ds)
    → IsLatest o (top ∷ w ∷ ds)
unfolding any
absorb_ge none top w ds l h = absurd (ground arith)
absorb_ge (some x) top w ds l (m, (b, bs)) = (ground arith, (b, (omega arith, bs)))

later-IsLatest :
    (o acc date : Option Time) (ds : List Time)
    → IsLatest o (add_date (later acc date) ds)
    → IsLatest o (add_date acc (add_date date ds))
later-IsLatest o acc none ds h = h
later-IsLatest o none (some w) ds h = h
later-IsLatest o (some top) (some w) ds h = by_order (Bool-cases (ltb top w)) h
  where
    by_order :
        (ltb top w ≡ true) ⊎ (ltb top w ≡ false)
        → IsLatest o (add_date (if ltb top w then some w else some top) ds)
        → IsLatest o (top ∷ w ∷ ds)
    by_order (inl e) = rw e (λ k. absorb_lt o top w ds (ltb→lt top w e) k)
    by_order (inr e) = rw e (λ k. absorb_ge o top w ds (ground arith) k)

start-IsLatest : (acc : Option Time) → IsLatest acc (add_date acc [])
unfolding any
start-IsLatest none = refl
start-IsLatest (some w) = (ground arith, (le_refl w, tt))

-- The loop computes whether a season is watched, and the latest date.
recompute-Summary :
    (top : Bool) (acc : Option Time) (rows : List GroupTitleSeasonRow)
    → ((recompute top acc rows).0 ≡ (top || any (λ s. s.watched) rows))
      × IsLatest (recompute top acc rows).1 (add_date acc (dates rows))
unfolding recompute dates any
recompute-Summary top acc [] = (ground arith, start-IsLatest acc)
recompute-Summary top acc (s ∷ rows) =
    by_watched s.watched (recompute-Summary true (later acc s.watched_at) rows)
      (recompute-Summary top acc rows)
  where
    by_watched :
        (b : Bool)
        → ((recompute true (later acc s.watched_at) rows).0 ≡ (true || any (λ x. x.watched) rows))
          × IsLatest
              (recompute true (later acc s.watched_at) rows).1
              (add_date (later acc s.watched_at) (dates rows))
        → ((recompute top acc rows).0 ≡ (top || any (λ x. x.watched) rows))
          × IsLatest (recompute top acc rows).1 (add_date acc (dates rows))
        → ((if b then recompute true (later acc s.watched_at) rows else recompute top acc rows).0
            ≡ (top || (b || any (λ x. x.watched) rows)))
          × IsLatest
              (if b then recompute true (later acc s.watched_at) rows else recompute top acc rows).1
              (add_date acc (if b then add_date s.watched_at (dates rows) else dates rows))
    by_watched true (e, l) r = (ground arith, later-IsLatest _ acc s.watched_at (dates rows) l)
    by_watched false l (e, r) = (ground arith, r)

-- A title's row says of its seasons what they say.
pub record Agrees (r : GroupTitleRow) (rows : List GroupTitleSeasonRow) : Type 0 where
  pub watched : r.watched ≡ any (λ s. s.watched) rows
  pub latest : IsLatest r.watched_at (dates rows)

-- The rows of the title in the group agree with the seasons stored for it.
abbrev pub TitleAgrees : Str → Str → Tables → Type 0
TitleAgrees group_id title_id t =
    All
      (λ r.
        title_of group_id title_id r ≡ true
        → Agrees r (filter (season_of_title group_id title_id) t.group_title_seasons))
      t.group_titles

module _ (group_id title_id : Str) where
  marked-Agrees :
      (rows : List GroupTitleSeasonRow) (at : Time) (rs : List GroupTitleRow)
      → All
          (λ r. title_of group_id title_id r ≡ true → Agrees r rows)
          (update_where
            (title_of group_id title_id)
            (mark (recompute false none rows).0 (recompute false none rows).1 at)
            rs)
  unfolding update_where title_of
  marked-Agrees rows at [] = tt
  marked-Agrees rows at (r ∷ rs) =
      let (e, l) = recompute-Summary false none rows in
      by_title (title_of group_id title_id r) refl e l (marked-Agrees rows at rs)
    where
      by_title :
          (b : Bool)
          → title_of group_id title_id r ≡ b
          → (recompute false none rows).0 ≡ any (λ s. s.watched) rows
          → IsLatest (recompute false none rows).1 (dates rows)
          → All
              (λ x. title_of group_id title_id x ≡ true → Agrees x rows)
              (update_where
                (title_of group_id title_id)
                (mark (recompute false none rows).0 (recompute false none rows).1 at)
                rs)
          → All
              (λ x. title_of group_id title_id x ≡ true → Agrees x rows)
              (if b
                then mark (recompute false none rows).0 (recompute false none rows).1 at r
                  ∷ update_where
                      (title_of group_id title_id)
                      (mark (recompute false none rows).0 (recompute false none rows).1 at)
                      rs
                else r
                  ∷ update_where
                      (title_of group_id title_id)
                      (mark (recompute false none rows).0 (recompute false none rows).1 at)
                      rs)
      by_title true q e l rest = ((λ _. record { watched = e; latest = l }), rest)
      by_title false q e l rest = ((λ y. absurd (ground arith)), rest)

  marked_hoare :
      (rows : List GroupTitleSeasonRow) (at : Time)
      → Hoare
          (λ t. rows ≡ filter (season_of_title group_id title_id) t.group_title_seasons)
          (Groups.update_group_title_watched_row group_id title_id
            (recompute false none rows).0
            (recompute false none rows).1
            at)
          (λ _ t. TitleAgrees group_id title_id t)
          (λ _ _. Unit {0})
  unfolding Groups.update_group_title_watched_row
  marked_hoare rows at =
      Hoare-statement _ (λ t e. tt)
        λ t e. by_row t (find (title_of group_id title_id) t.group_titles) e
    where
      by_row :
          (t : Tables) (o : Option GroupTitleRow)
          → rows ≡ filter (season_of_title group_id title_id) t.group_title_seasons
          → Applied
              (λ _ u. TitleAgrees group_id title_id u)
              (λ _ _. Unit {0})
              t
              (marked group_id title_id
                (recompute false none rows).0
                (recompute false none rows).1
                at
                t
                o)
      by_row t none e = tt
      by_row t (some r) e = rw (← e) (marked-Agrees rows at t.group_titles)

  recompute_hoare :
      (at : Time)
      → Hoare
          (λ _. Unit {0})
          (recompute_title group_id title_id at)
          (λ _ t. TitleAgrees group_id title_id t)
          (λ _ _. Unit {0})
  unfolding recompute_title Groups.get_group_title_season_rows_for_title Groups.touch_group
  recompute_hoare at =
      Hoare-bind
        {R = λ rows t. rows ≡ filter (season_of_title group_id title_id) t.group_title_seasons} _ _
        (Hoare-select _ (λ t u. tt) (λ t u. refl))
        λ rows.
          Hoare-bind {R = λ _ t. TitleAgrees group_id title_id t} _ _
            (Hoare-map_err _ _ (marked_hoare rows at))
            λ row.
              Hoare-bind {R = λ _ t. TitleAgrees group_id title_id t} _ _ (Hoare-now (λ t a n. a))
                λ db_now.
                  Hoare-bind {R = λ _ t. TitleAgrees group_id title_id t} _ _
                    (Hoare-statement _ (λ t a. tt) (λ t a. a)) λ u. Hoare-pure _ (λ t a. a)

  -- Whatever an action leaves.
  any_hoare :
      {A : Type 0} (m : Exec A) → Hoare (λ _. Unit {0}) m (λ _ _. Unit {0}) (λ _ _. Unit {0})
  any_hoare {A} m = record { at = λ w u. always (m w) }
    where
      always : (x : Result A × World) → Outcome (λ _ _. Unit {0}) (λ _ _. Unit {0}) x
      always (ok a, w) = tt
      always (err e, w) = tt

  after_any :
      {A B : Type 0} (m : Exec A) (f : A → Exec B)
      → ((a : A)
          → Hoare (λ _. Unit {0}) (f a) (λ _ t. TitleAgrees group_id title_id t) (λ _ _. Unit {0}))
      → Hoare (λ _. Unit {0}) (m >>= f) (λ _ t. TitleAgrees group_id title_id t) (λ _ _. Unit {0})
  after_any m f k = Hoare-bind _ _ (any_hoare m) k

  season_hoare :
      (watched : Option Bool) (watched_at : Option (Option Time)) (season user_id : Str)
      → Hoare
          (λ _. Unit {0})
          (update_season_tx group_id title_id watched watched_at season user_id)
          (λ _ t. TitleAgrees group_id title_id t)
          (λ _ _. Unit {0})
  unfolding update_season_tx
  season_hoare watched watched_at season user_id = after_any _ _ λ g. after_any _ _ λ r.
      after_any _ _
        λ at. after_any _ _ λ found. after_any _ _ λ stored. after_any _ _ λ u. recompute_hoare at

agrees_after :
    {A : Type 0} (group_id title_id : Str) (x : Result A × World) {a : A}
    → Outcome (λ _ t. TitleAgrees group_id title_id t) (λ _ _. Unit {0}) x
    → x.0 ≡ ok a
    → TitleAgrees group_id title_id x.1.db
agrees_after group_id title_id (ok a, w) o h = o
agrees_after group_id title_id (err e, w) o h = absurd (ground arith)

-- When the update of a season of a series in a group succeeds, every row of that title in the
-- group is watched exactly when a stored season of it is watched, and its date is the latest
-- date of the watched seasons, or none when they have no date.
pub update_group_title_watched_for_tv_series-TitleAgrees :
    (group_id title_id : Str) (watched : Option Bool) (watched_at : Option (Option Time))
    (season : ℤ) (user_id : Str) (w : World) {item : GroupTitleItem}
    → (update_group_title_watched_for_tv_series group_id title_id watched watched_at season user_id
        w).0
      ≡ ok item
    → TitleAgrees group_id title_id
        (update_group_title_watched_for_tv_series group_id title_id watched watched_at season
          user_id w).1.db
unfolding update_group_title_watched_for_tv_series
update_group_title_watched_for_tv_series-TitleAgrees g t watched watched_at season user_id w h =
    agrees_after g t (in_tx (update_season_tx g t watched watched_at (itoa season) user_id) w)
      ((Hoare-in_tx {P = λ _. Unit {0}} _ (λ s u e. tt)
          (season_hoare g t watched watched_at (itoa season) user_id)).at
        w tt)
      h
