-- ===== src/Database/Activity/Reading.antt =====
-- What a mark does to the events that each reader has read.
use aftercredits_backend.Base.{
  ℕ, ◌≤◌, ◌≡◌, refl, sym, ap, subst, Bool, true, false, not, ◌&&◌, ◌||◌, ◌⊎◌, inl, inr, Bool-cases,
  List, [], ◌∷◌, ◌++◌, Str, str_eq, str_eq_iff, str_eq_refl, any, find, filter, update_where, leb,
  if◌then◌else◌, arith,
}
use aftercredits_backend.Base.Distinct.{Distinct}
use aftercredits_backend.Models.{Time}
use aftercredits_backend.Database.Exec.{EventRow, EventReadRow, ReadFloorRow, Tables}
use aftercredits_backend.Database.Activity.{
  floor_of, reads, is_read, greatest, max_seq, raised_floors, covered, all_marked,
}
use aftercredits_backend.Database.Activity.Keys.{same_id, HasEventKeys}

-- The list has the row.
abbrev pub Among : {A : Type 0} → A → List A → Type 0
Among e [] = ⊥
Among e (x ∷ xs) = (x ≡ e) ⊎ Among e xs

pub any-Among :
    {A : Type 0} (p : A → Bool) (e : A) (xs : List A) → Among e xs → p e ≡ true → any p xs ≡ true
unfolding any
any-Among p e [] m h = absurd m
any-Among p e (x ∷ xs) (inl q) h = let y = subst (λ z. p z ≡ true) (sym q) h in ground arith
any-Among p e (x ∷ xs) (inr m) h = let y = any-Among p e xs m h in ground arith

any_both :
    {A : Type 0} (p q : A → Bool) (xs : List A)
    → any p xs ≡ false
    → any (λ x. p x && q x) xs ≡ false
unfolding any
any_both p q [] h = refl
any_both p q (x ∷ xs) h = ground (arith, any_both p q xs)

-- Events of one id are at the same side of a floor.
pub beyond :
    (floor : ℕ) (e : EventRow) (xs : List EventRow)
    → Distinct same_id xs
    → Among e xs
    → leb e.seq floor ≡ false
    → any (λ x. str_eq x.id e.id && leb x.seq floor) xs ≡ false
unfolding any
beyond floor e [] d m h = absurd m
beyond floor e (x ∷ xs) d (inl q) h =
    let others = any_both (λ y. str_eq y.id x.id) (λ y. leb y.seq floor) xs d.0 in
    let below = subst (λ z. leb z.seq floor ≡ false) (sym q) h in
    subst (λ z. any (λ y. str_eq y.id z.id && leb y.seq floor) (x ∷ xs) ≡ false) q (ground arith)
beyond floor e (x ∷ xs) d (inr m) h = ground (
  arith,
  beyond floor e xs d.1 m h,
  any-Among (λ y. str_eq y.id x.id) e xs m,
  str_eq_iff x.id e.id,
  str_eq_iff e.id x.id,
)

-- The rows of the other users, and those of the events beyond the floor, stay.
any-uncovered :
    (user_id reader id : Str) (floor : ℕ) (events : List EventRow) (rs : List EventReadRow)
    → (str_eq reader user_id ≡ true → any (λ x. str_eq x.id id && leb x.seq floor) events ≡ false)
    → any (reads reader id) (filter (λ r. not (covered user_id floor events r)) rs)
      ≡ any (reads reader id) rs
unfolding any filter reads covered
any-uncovered user_id reader id floor events [] h = refl
any-uncovered user_id reader id floor events (r ∷ rs) h =
    ground (arith, any-uncovered user_id reader id floor events rs h, stays)
  where
    by_user :
        (str_eq reader user_id ≡ true) ⊎ (str_eq reader user_id ≡ false)
        → (str_eq reader user_id && any (λ x. str_eq x.id id && leb x.seq floor) events) ≡ false
    by_user (inl u) = let k = h u in ground arith
    by_user (inr u) = ground arith

    stays : reads reader id r ≡ true → covered user_id floor events r ≡ false
    stays k =
        let e : r.event_id ≡ id = ground (arith, str_eq_iff r.event_id id) in
        let e' : r.user_id ≡ reader = ground (arith, str_eq_iff r.user_id reader) in
        rw (e, e') (by_user (Bool-cases (str_eq reader user_id)))

floor_of-append :
    (reader : Str) (floors : List ReadFloorRow) (f : ReadFloorRow)
    → any (λ x. str_eq x.user_id f.user_id) floors ≡ false
    → floor_of reader (floors ++ f ∷ [])
      ≡ (if str_eq reader f.user_id then f.floor_seq else floor_of reader floors)
unfolding floor_of find any
floor_of-append reader [] f h =
    ground (arith, str_eq_iff f.user_id reader, str_eq_iff reader f.user_id)
floor_of-append reader (x ∷ floors) f h = ground (
  arith,
  floor_of-append reader floors f,
  str_eq_iff f.user_id reader,
  str_eq_iff reader f.user_id,
  str_eq_iff x.user_id reader,
  str_eq_iff x.user_id f.user_id,
)

abbrev raise_floor : Str → ℕ → Time → List ReadFloorRow → List ReadFloorRow
raise_floor user_id seq at floors =
    update_where (λ f. str_eq f.user_id user_id)
      (λ f. record f { floor_seq = greatest f.floor_seq seq; read_at = at }) floors

floor_of-raise_other :
    (reader user_id : Str) (seq : ℕ) (at : Time) (floors : List ReadFloorRow)
    → str_eq reader user_id ≡ false
    → floor_of reader (raise_floor user_id seq at floors) ≡ floor_of reader floors
unfolding floor_of find update_where
floor_of-raise_other reader user_id seq at [] h = refl
floor_of-raise_other reader user_id seq at (x ∷ floors) h = ground (
  arith,
  floor_of-raise_other reader user_id seq at floors h,
  str_eq_iff x.user_id user_id,
  str_eq_iff x.user_id reader,
  str_eq_iff reader user_id,
)

floor_of-raise_own :
    (user_id : Str) (seq : ℕ) (at : Time) (floors : List ReadFloorRow)
    → any (λ x. str_eq x.user_id user_id) floors ≡ true
    → floor_of user_id (raise_floor user_id seq at floors) ≡ greatest (floor_of user_id floors) seq
unfolding floor_of find any update_where
floor_of-raise_own user_id seq at [] h = absurd (ground arith)
floor_of-raise_own user_id seq at (x ∷ floors) h =
    ground (arith, floor_of-raise_own user_id seq at floors)

floor_of-absent :
    (user_id : Str) (floors : List ReadFloorRow)
    → any (λ x. str_eq x.user_id user_id) floors ≡ false
    → floor_of user_id floors ≡ 0
unfolding floor_of find any
floor_of-absent user_id [] h = refl
floor_of-absent user_id (x ∷ floors) h = ground (arith, floor_of-absent user_id floors)

-- Only the user's floor is raised.
pub floor_of-raised_floors :
    (reader user_id : Str) (seq : ℕ) (at : Time) (floors : List ReadFloorRow)
    → floor_of reader (raised_floors user_id seq at floors) ≡ (
        if str_eq reader user_id
        then greatest (floor_of reader floors) seq
        else floor_of reader floors)
unfolding raised_floors
floor_of-raised_floors reader user_id seq at floors =
    by_row (Bool-cases (any (λ f. str_eq f.user_id user_id) floors))
      (Bool-cases (str_eq reader user_id))
  where
    by_row :
        (any (λ f. str_eq f.user_id user_id) floors ≡ true)
          ⊎ (any (λ f. str_eq f.user_id user_id) floors ≡ false)
        → (str_eq reader user_id ≡ true) ⊎ (str_eq reader user_id ≡ false)
        → floor_of reader (raised_floors user_id seq at floors) ≡ (
            if str_eq reader user_id
            then greatest (floor_of reader floors) seq
            else floor_of reader floors)
    by_row (inl e) (inl u) =
        rw ((str_eq_iff reader user_id).0 u, e, str_eq_refl user_id)
          (floor_of-raise_own user_id seq at floors e)
    by_row (inl e) (inr u) = rw (e, u) (floor_of-raise_other reader user_id seq at floors u)
    by_row (inr e) (inl u) =
        rw
          (
            (str_eq_iff reader user_id).0 u,
            e,
            floor_of-append,
            str_eq_refl user_id,
            floor_of-absent user_id floors e,
          )
          (ground arith)
    by_row (inr e) (inr u) = rw (e, floor_of-append) (ground arith)

pub max_seq-above : (e : EventRow) (es : List EventRow) → Among e es → e.seq ≤ max_seq es
unfolding max_seq
max_seq-above e [] m = absurd m
max_seq-above e (x ∷ es) (inl q) = subst (λ z. z.seq ≤ greatest (max_seq es) x.seq) q (ground arith)
max_seq-above e (x ∷ es) (inr m) = ground (arith, max_seq-above e es m)

-- Marking everything raises the user's floor to `seq` and drops the rows that it covers: then the
-- user has read what was read before, and what is not beyond `seq`. Nobody else has read more.
pub is_read-all_marked :
    (reader user_id : Str) (seq : ℕ) (at : Time) (t : Tables) (e : EventRow)
    → HasEventKeys t
    → Among e t.activity_events
    → is_read reader (all_marked user_id (raised_floors user_id seq at t.activity_read_floors) t) e
      ≡ (is_read reader t e || (str_eq reader user_id && leb e.seq seq))
unfolding is_read
is_read-all_marked reader user_id seq at t e keys m =
    by_user (Bool-cases (str_eq reader user_id)) (Bool-cases (leb e.seq floor))
  where
    floors : List ReadFloorRow
    floors = raised_floors user_id seq at t.activity_read_floors

    floor : ℕ
    floor = floor_of user_id floors

    kept :
        (str_eq reader user_id ≡ true → leb e.seq floor ≡ false)
        → any
            (reads reader e.id)
            (filter (λ r. not (covered user_id floor t.activity_events r)) t.activity_event_reads)
          ≡ any (reads reader e.id) t.activity_event_reads
    kept h =
        any-uncovered user_id reader e.id floor t.activity_events t.activity_event_reads
          (λ u. beyond floor e t.activity_events keys.ids m (h u))

    raised : floor_of reader floors ≡ (
        if str_eq reader user_id
        then greatest (floor_of reader t.activity_read_floors) seq
        else floor_of reader t.activity_read_floors)
    raised = floor_of-raised_floors reader user_id seq at t.activity_read_floors

    by_user :
        (str_eq reader user_id ≡ true) ⊎ (str_eq reader user_id ≡ false)
        → (leb e.seq floor ≡ true) ⊎ (leb e.seq floor ≡ false)
        → is_read reader (all_marked user_id floors t) e
          ≡ (is_read reader t e || (str_eq reader user_id && leb e.seq seq))
    by_user (inl u) (inl below) =
        let q : floor_of reader floors ≡ floor =
          ap (λ x. floor_of x floors) ((str_eq_iff reader user_id).0 u) in
        ground (arith, raised)
    by_user (inl u) (inr above) =
        let q : floor_of reader floors ≡ floor =
          ap (λ x. floor_of x floors) ((str_eq_iff reader user_id).0 u) in
        let k = kept (λ _. above) in ground (arith, raised)
    by_user (inr u) side = let k = kept (λ v. absurd (ground arith)) in ground (arith, raised)
