-- ===== src/Database/Activity/Marking.antt =====
-- Marking one event.
use aftercredits_backend.Base.{
  ◌≡◌, refl, sym, subst, Bool, true, false, ◌&&◌, ◌||◌, ◌⊎◌, inl, inr, Bool-cases, Option, none,
  some, List, [], ◌∷◌, ◌++◌, Str, str_eq, str_eq_iff, str_eq_refl, any, find, filter, leb, ltb,
  if◌then◌else◌, arith,
}
use aftercredits_backend.Base.Distinct.{any-append}
use aftercredits_backend.Models.{Time, foreign_key_violation}
use aftercredits_backend.Database.Exec.{EventRow, Tables, ok, err}
use aftercredits_backend.Database.Rules.{Applied}
use aftercredits_backend.Database.Activity.{
  visible_events, floor_of, reads, is_read, read_inserted, read_marked, max_seq, all_read,
  all_marked, raised_floors,
}
use aftercredits_backend.Database.Activity.Keys.{HasEventKeys}
use aftercredits_backend.Database.Activity.Reading.{Among, any-Among, beyond, is_read-all_marked}

pub find-Among :
    {A : Type 0} (p : A → Bool) (e : A) (xs : List A)
    → find p xs ≡ some e
    → Among e xs × (p e ≡ true)
unfolding find
find-Among p e [] h = absurd (ground arith)
find-Among p e (x ∷ xs) h = elim (Bool-cases (p x)) [
  | inl y ↦ (let q : x ≡ e = ground arith in (inl q, subst (λ z. p z ≡ true) q y))
  | inr n ↦ (let (m, y) = find-Among p e xs (ground arith) in (inr m, y))
]

pub Among-filter :
    {A : Type 0} (q : A → Bool) (e : A) (xs : List A) → Among e (filter q xs) → Among e xs
unfolding filter
Among-filter q e [] m = m
Among-filter q e (x ∷ xs) m = by_test (q x) (Among-filter q e xs) m
  where
    by_test :
        (b : Bool)
        → (Among e (filter q xs) → Among e xs)
        → Among e (if b then x ∷ filter q xs else filter q xs)
        → Among e (x ∷ xs)
    by_test true k (inl y) = inl y
    by_test true k (inr n) = inr (k n)
    by_test false k n = inr (k n)

-- What a mark adds to what has been read: the events of `marked`, for the user.
pub record Adds (user_id : Str) (marked : EventRow → Bool) (t : Tables) (t' : Tables) : Type 0 where
  pub events : t'.activity_events ≡ t.activity_events
  pub members : t'.group_members ≡ t.group_members
  pub groups : t'.groups ≡ t.groups
  pub read :
      (reader : Str) (e : EventRow)
      → Among e t.activity_events
      → is_read reader t' e ≡ (is_read reader t e || (str_eq reader user_id && marked e))

module _ (user_id : Str) (at : Time) (t : Tables) (keys : HasEventKeys t) where
  -- An event of the same id is read already.
  already :
      (e0 : EventRow)
      → ((e : EventRow) → Among e t.activity_events → e.id ≡ e0.id → is_read user_id t e ≡ true)
      → Adds user_id (λ e. str_eq e.id e0.id) t t
  already e0 h = record {
    events = refl;
    members = refl;
    groups = refl;
    read = λ reader e m.
        by_reader reader e m (Bool-cases (str_eq reader user_id)) (Bool-cases (str_eq e.id e0.id));
  }
    where
      by_reader :
          (reader : Str) (e : EventRow)
          → Among e t.activity_events
          → (str_eq reader user_id ≡ true) ⊎ (str_eq reader user_id ≡ false)
          → (str_eq e.id e0.id ≡ true) ⊎ (str_eq e.id e0.id ≡ false)
          → is_read reader t e
            ≡ (is_read reader t e || (str_eq reader user_id && str_eq e.id e0.id))
      by_reader reader e m (inl u) (inl i) =
          let r =
            subst (λ v. is_read v t e ≡ true) (sym ((str_eq_iff reader user_id).0 u))
              (h e m ((str_eq_iff e.id e0.id).0 i)) in
          ground arith
      by_reader reader e m (inl u) (inr i) = ground arith
      by_reader reader e m (inr u) i = ground arith

  below_floor :
      (e0 : EventRow)
      → Among e0 t.activity_events
      → leb e0.seq (floor_of user_id t.activity_read_floors) ≡ true
      → (e : EventRow) → Among e t.activity_events
      → e.id ≡ e0.id
      → is_read user_id t e ≡ true
  unfolding is_read
  below_floor e0 m0 h e m i =
      by_side (Bool-cases (leb e.seq (floor_of user_id t.activity_read_floors)))
    where
      by_side :
          (leb e.seq (floor_of user_id t.activity_read_floors) ≡ true)
            ⊎ (leb e.seq (floor_of user_id t.activity_read_floors) ≡ false)
          → is_read user_id t e ≡ true
      by_side (inl y) = ground arith
      by_side (inr n) =
          let none_such = beyond _ e t.activity_events keys.ids m n in
          let here =
            any-Among (λ x. str_eq x.id e.id && leb x.seq (floor_of user_id t.activity_read_floors))
              e0 t.activity_events m0 (rw (i, str_eq_refl e0.id) h) in
          absurd (ground arith)

  has_row :
      (e0 : EventRow)
      → any (reads user_id e0.id) t.activity_event_reads ≡ true
      → (e : EventRow) → Among e t.activity_events
      → e.id ≡ e0.id
      → is_read user_id t e ≡ true
  unfolding is_read
  has_row e0 h e m i =
      let k : any (reads user_id e.id) t.activity_event_reads ≡ true = rw i h in ground arith

  appended :
      (e0 : EventRow)
      → Adds user_id
          (λ e. str_eq e.id e0.id)
          t
          (record t {
            activity_event_reads =
                t.activity_event_reads
                ++ record { user_id = user_id; event_id = e0.id; read_at = at } ∷ [];
          })
  unfolding is_read reads any
  appended e0 = record {
    events = refl;
    members = refl;
    groups = refl;
    read = λ reader e m.
        let a =
          any-append (reads reader e.id) t.activity_event_reads
            (record { user_id = user_id; event_id = e0.id; read_at = at } ∷ []) in
        ground (
          arith,
          a,
          str_eq_iff e0.id e.id,
          str_eq_iff e.id e0.id,
          str_eq_iff user_id reader,
          str_eq_iff reader user_id,
        );
  }

  inserted-Adds :
      (e0 : EventRow)
      → Among e0 t.activity_events
      → Applied
          (λ _ s. Adds user_id (λ e. str_eq e.id e0.id) t s)
          (λ _ s. s ≡ t)
          t
          (read_inserted user_id at t e0)
  unfolding read_inserted
  inserted-Adds e0 m0 = elim (Bool-cases (ltb (floor_of user_id t.activity_read_floors) e0.seq)) [
    | inr n ↦ rw n (already e0 (below_floor e0 m0 (ground arith)))
    | inl y ↦ rw y (elim (Bool-cases (any (reads user_id e0.id) t.activity_event_reads)) [
      | inl a ↦ rw a (already e0 (has_row e0 a))
      | inr b ↦ rw b (elim (Bool-cases (any (λ u. str_eq u.id user_id) t.users)) [
        | inl u ↦ rw u (appended e0)
        | inr v ↦ rw v refl
      ])
    ])
  ]

  -- A mark of one event adds that event; one of all adds those up to the newest visible one.
  pub read_marked-Adds :
      (event_id : Str)
      → Applied
          (λ _ s. Adds user_id (λ e. str_eq e.id event_id) t s)
          (λ _ s. s ≡ t)
          t
          (read_marked user_id at t (find (λ e. str_eq e.id event_id) (visible_events user_id t)))
  unfolding visible_events
  read_marked-Adds event_id =
      by_row (find (λ e. str_eq e.id event_id) (visible_events user_id t)) refl
    where
      by_row :
          (o : Option EventRow)
          → find (λ e. str_eq e.id event_id) (visible_events user_id t) ≡ o
          → Applied
              (λ _ s. Adds user_id (λ e. str_eq e.id event_id) t s)
              (λ _ s. s ≡ t)
              t
              (read_marked user_id at t o)
      by_row none q = refl
      by_row (some e0) q =
          let (m, i) = find-Among _ e0 _ q in
          subst
            (λ z.
              Applied (λ _ s. Adds user_id (λ e. str_eq e.id z) t s) (λ _ s. s ≡ t) t
                (read_inserted user_id at t e0))
            ((str_eq_iff e0.id event_id).0 i)
            (inserted-Adds e0 (Among-filter _ e0 t.activity_events m))

  pub all_read-Adds :
      Applied
        (λ _ s. Adds user_id (λ e. leb e.seq (max_seq (visible_events user_id t))) t s)
        (λ _ s. s ≡ t)
        t
        (all_read user_id at t)
  unfolding all_read
  all_read-Adds = by_key (
      any (λ f. str_eq f.user_id user_id) t.activity_read_floors
      || any (λ u. str_eq u.id user_id) t.users)
    where
      raised : Tables
      raised =
          all_marked user_id
            (raised_floors user_id (max_seq (visible_events user_id t)) at t.activity_read_floors) t

      by_key :
          (b : Bool)
          → Applied
              (λ _ s. Adds user_id (λ e. leb e.seq (max_seq (visible_events user_id t))) t s)
              (λ _ s. s ≡ t)
              t
              (if b then ok (tt, raised) else err foreign_key_violation)
      by_key true = record {
        events = refl;
        members = refl;
        groups = refl;
        read = λ reader e m.
            is_read-all_marked reader user_id (max_seq (visible_events user_id t)) at t e keys m;
      }
      by_key false = refl
