-- ===== src/Services/Activity/Marks.antt =====
-- Marking events as read, against a plain set of what each user has read.
use mathlib.Core.Path.{fun_ext}
use aftercredits_backend.Base.{
  ◌≡◌, refl, sym, ap, subst, Bool, ◌&&◌, ◌||◌, List, [], ◌∷◌, Str, str_eq, any, find, leb, arith,
}
use aftercredits_backend.Models.{Time}
use aftercredits_backend.Database.Exec.{EventRow, Tables, World, Result, ok, err, Exec}
use aftercredits_backend.Database.Rules.{
  Hoare, Applied, Outcome, Hoare-statement, Hoare-bind, Hoare-map_err, Hoare-now, Hoare-pure,
  Hoare-raise, Hoare-if,
}
use aftercredits_backend.Database.Activity as Q
use aftercredits_backend.Database.Activity.{
  visible_events, visible_to, is_read, max_seq, newest_first, feed_row, floor_of, reads,
}
use aftercredits_backend.Database.Activity.Keys.{HasEventKeys}
use aftercredits_backend.Database.Activity.Reading.{Among}
use aftercredits_backend.Database.Activity.Marking.{Adds, read_marked-Adds, all_read-Adds}
use aftercredits_backend.Postgres.Activity as Store
use aftercredits_backend.Services.Activity.{mark_event_read, mark_all_read}

-- A user's request to mark one event, or all.
pub data Mark : Type 0 where
  one : Str → Mark
  all : Mark

unfoldable pub serve_mark : Str × Mark → Exec (Unit {0})
serve_mark (user_id, one event_id) = mark_event_read user_id event_id
serve_mark (user_id, all) = mark_all_read user_id

-- What a mark that succeeds says its user has read: the one event, or all up to the newest that
-- the user sees.
abbrev pub marks : Tables → Mark → Str → EventRow → Bool
marks t (one event_id) user_id e = str_eq e.id event_id
marks t all user_id e = leb e.seq (max_seq (visible_events user_id t))

abbrev pub marked_by : Tables → Str → EventRow → Str × Mark → Bool
marked_by t reader e (user_id, m) = str_eq reader user_id && marks t m user_id e

-- The requests that succeeded, in order, and the world after all.
abbrev noted : {A : Type 0} → A → Result (Unit {0}) → List A → List A
noted c (ok _) cs = c ∷ cs
noted c (err e) cs = cs

pub serve_marks : List (Str × Mark) → World → List (Str × Mark) × World
serve_marks [] w = ([], w)
serve_marks (c ∷ cs) w =
    let (r, w') = serve_mark c w in let (done, w'') = serve_marks cs w' in (noted c r done, w'')

module _ (t : Tables) (keys : HasEventKeys t) where
  one_hoare :
      (user_id event_id : Str) (at : Time)
      → Hoare
          (λ s. s ≡ t)
          (Q.mark_activity_event_read user_id event_id at)
          (λ _ s. Adds user_id (λ e. str_eq e.id event_id) t s)
          (λ _ s. s ≡ t)
  unfolding Q.mark_activity_event_read
  one_hoare user_id event_id at =
      Hoare-statement _ (λ s q. q)
        λ s q.
          subst
            (λ z.
              Applied (λ _ s'. Adds user_id (λ e. str_eq e.id event_id) t s') (λ _ s'. s' ≡ t) z
                (Q.read_marked user_id at z
                  (find (λ e. str_eq e.id event_id) (visible_events user_id z))))
            (sym q) (read_marked-Adds user_id at t keys event_id)

  all_hoare :
      (user_id : Str) (at : Time)
      → Hoare
          (λ s. s ≡ t)
          (Q.mark_all_activity_events_read user_id at)
          (λ _ s. Adds user_id (marks t all user_id) t s)
          (λ _ s. s ≡ t)
  unfolding Q.mark_all_activity_events_read
  all_hoare user_id at =
      Hoare-statement _ (λ s q. q)
        λ s q.
          subst
            (λ z.
              Applied (λ _ s'. Adds user_id (marks t all user_id) t s') (λ _ s'. s' ≡ t) z
                (Q.all_read user_id at z))
            (sym q) (all_read-Adds user_id at t keys)

  stored_hoare :
      (user_id event_id : Str)
      → Hoare
          (λ s. s ≡ t)
          (Store.mark_activity_event_read user_id event_id)
          (λ _ s. Adds user_id (λ e. str_eq e.id event_id) t s)
          (λ _ s. s ≡ t)
  unfolding Store.mark_activity_event_read
  stored_hoare user_id event_id = Hoare-bind {R = λ _ s. s ≡ t} _ _ (Hoare-now (λ s q n. q)) λ at.
      Hoare-bind {R = λ _ s. Adds user_id (λ x. str_eq x.id event_id) t s} _ _
        (Hoare-map_err _ _ (one_hoare user_id event_id at)) λ id. Hoare-pure _ (λ s a. a)

  pub mark_hoare :
      (c : Str × Mark)
      → Hoare (λ s. s ≡ t) (serve_mark c) (λ _ s. Adds c.0 (marks t c.1 c.0) t s) (λ _ s. s ≡ t)
  unfolding serve_mark mark_event_read mark_all_read Store.mark_all_activity_events_read
  mark_hoare (user_id, one event_id) =
      let stored = stored_hoare user_id event_id in
      let refused = λ (s : Tables) (q : s ≡ t). q in
      search (Hoare-if, Hoare-raise, Hoare-map_err, stored, refused) depth 9
  mark_hoare (user_id, all) =
      Hoare-bind {R = λ _ s. s ≡ t} _ _ (Hoare-now (λ s q n. q)) λ at. all_hoare user_id at

pub visible_events-Adds :
    (user_id reader : Str) (marked : EventRow → Bool) (t t' : Tables)
    → Adds user_id marked t t'
    → visible_events reader t' ≡ visible_events reader t
unfolding visible_events
visible_events-Adds user_id reader marked t t' a = rw (a.events, a.members, a.groups) refl

marked_by-visible :
    (t t' : Tables) (reader : Str) (e : EventRow) (c : Str × Mark)
    → ((user_id : Str) → visible_events user_id t' ≡ visible_events user_id t)
    → marked_by t' reader e c ≡ marked_by t reader e c
marked_by-visible t t' reader e (user_id, one id) v = refl
marked_by-visible t t' reader e (user_id, all) v = rw (v user_id) refl

-- The events, and what is visible, stay; the marks that succeeded are what is read besides.
record Replays (t : Tables) (done : List (Str × Mark)) (t' : Tables) : Type 0 where
  read :
      (reader : Str) (e : EventRow)
      → Among e t.activity_events
      → is_read reader t' e ≡ (is_read reader t e || any (marked_by t reader e) done)

shift :
    (t t' t'' : Tables) (c : Str × Mark) (done : List (Str × Mark))
    → Adds c.0 (marks t c.1 c.0) t t'
    → Replays t' done t''
    → Replays t (c ∷ done) t''
unfolding any
shift t t' t'' c done a r = record {
  read = λ reader e m.
      let m' = subst (Among e) (sym a.events) m in
      let seen : marked_by t' reader e ≡ marked_by t reader e = fun_ext (λ d.
        marked_by-visible t t' reader e d
          (λ u. visible_events-Adds c.0 u (marks t c.1 c.0) t t' a)) in
      let first = a.read reader e m in
      let others = r.read reader e m' in
      let moved = ap (λ p. any p done) seen in
      let here : marked_by t reader e c ≡ (str_eq reader c.0 && marks t c.1 c.0 e) = refl in
      ground arith;
}

replayed :
    (cs : List (Str × Mark)) (w : World)
    → HasEventKeys w.db
    → Replays w.db (serve_marks cs w).0 (serve_marks cs w).1.db
unfolding serve_marks any
replayed [] w keys = record { read = λ reader e m. ground arith }
replayed (c ∷ cs) w keys =
    by_result (serve_mark c w) ((mark_hoare w.db keys c).at w refl) (λ w'. replayed cs w')
  where
    by_result :
        (x : Result (Unit {0}) × World)
        → Outcome (λ _ s. Adds c.0 (marks w.db c.1 c.0) w.db s) (λ _ s. s ≡ w.db) x
        → ((w' : World)
            → HasEventKeys w'.db
            → Replays w'.db (serve_marks cs w').0 (serve_marks cs w').1.db)
        → Replays w.db (noted c x.0 (serve_marks cs x.1).0) (serve_marks cs x.1).1.db
    by_result (ok u, w') o ih =
        shift w.db w'.db _ c _ o
          (ih w' (record { ids = rw o.events keys.ids; seqs = rw o.events keys.seqs }))
    by_result (err e, w') o ih =
        subst (λ z. Replays z (serve_marks cs w').0 (serve_marks cs w').1.db) o
          (ih w' (subst HasEventKeys (sym o) keys))

-- Over a log whose event ids and sequence numbers are distinct, after any requests of any users
-- to mark one event or all events as read, failed calls to the database included, a reader has
-- read a logged event exactly if it was read before or one of the requests that succeeded was
-- the reader's own and marked that event or, marking all, reached at least that event's sequence
-- number. So the floors with their exception rows keep a plain set of what each user has read.
pub serve_marks-read :
    (cs : List (Str × Mark)) (w : World) (reader : Str) (e : EventRow)
    → HasEventKeys w.db
    → Among e w.db.activity_events
    → is_read reader (serve_marks cs w).1.db e
      ≡ (is_read reader w.db e || any (marked_by w.db reader e) (serve_marks cs w).0)
serve_marks-read cs w reader e keys m = (replayed cs w keys).read reader e m
