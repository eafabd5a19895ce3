-- ===== src/Postgres/Activity/Publishing.antt =====
-- A batch of events is stored and announced, whole or not at all.
use mathlib.Core.List.{append_assoc, append-nil}
use aftercredits_backend.Base.{
  ℕ, ◌≡◌, refl, sym, ap, ◌∙◌, subst, false, ◌||◌, inl, inr, Bool-cases, List, [], ◌∷◌, ◌++◌, map,
  Str, str_eq, any, ◌==◌, arith,
}
use aftercredits_backend.Models.{Error, Time}
use aftercredits_backend.Database.Exec.{
  EventRow, Tables, World, Result, ok, err, Exec, pure, nextval, new_string,
}
use aftercredits_backend.Database.Rules.{
  Hoare, Applied, Outcome, Hoare-statement, Hoare-bind, Hoare-in_tx, Hoare-now, Hoare-pure,
  Hoare-weaken,
}
use aftercredits_backend.Database.Shapes.{Atomic, Atomic-pure, Atomic-in_tx, unchanged_on_error}
use aftercredits_backend.Database.Ratings.{has_group}
use aftercredits_backend.Database.Activity as Q
use aftercredits_backend.Database.Activity.{event_checked}
use aftercredits_backend.Activity.Event.{ActivityEvent}
use aftercredits_backend.Postgres.Activity.{
  insert_each, insert_events_tx, insert_activity_events, first_non_empty, marshalled,
}

insert-Atomic :
    (t : Tables) (events : List ActivityEvent) → Atomic t (insert_activity_events events)
unfolding insert_activity_events
insert-Atomic t [] = Atomic-pure tt
insert-Atomic t (e ∷ events) = Atomic-in_tx _

-- When inserting a batch of events fails at any point, no row is stored and no notification is
-- sent.
pub insert_activity_events-atomic :
    (events : List ActivityEvent) (w : World) {e : Error}
    → (insert_activity_events events w).0 ≡ err e
    → (insert_activity_events events w).1.db ≡ w.db
insert_activity_events-atomic events w h =
    unchanged_on_error (insert_activity_events events) w (insert-Atomic w.db events) h

-- The row that stores an event.
pub record Stores (at : Time) (e : ActivityEvent) (r : EventRow) : Type 0 where
  pub id : str_eq e.id [] ≡ false → r.id ≡ e.id
  pub group_id : r.group_id ≡ e.group_id
  pub actor_id : r.actor_id ≡ e.actor_id
  pub actor_name : r.actor_name ≡ e.actor_name
  pub kind : r.kind ≡ e.kind
  pub title_id : r.title_id ≡ e.title_id
  pub title_name : r.title_name ≡ e.title_name
  pub payload : r.payload ≡ marshalled e.payload
  pub created_at : r.created_at ≡ at

abbrev pub StoresEach : Time → List ActivityEvent → List EventRow → Type 0
StoresEach at [] [] = Unit
StoresEach at [] (r ∷ rows) = ⊥
StoresEach at (e ∷ events) [] = ⊥
StoresEach at (e ∷ events) (r ∷ rows) = Stores at e r × StoresEach at events rows

-- The log and the channel have grown by the same events, in the order of the batch.
pub record IsPublished (at : Time) (events : List ActivityEvent) (t : Tables) (t' : Tables)
    : Type 0 where
  pub rows : List EventRow
  pub log : t'.activity_events ≡ t.activity_events ++ rows
  pub channel : t'.notified ≡ t.notified ++ map (λ r. r.id) rows
  pub stores : StoresEach at events rows

abbrev logged : Tables → EventRow → Tables
logged t r = record t { activity_events = t.activity_events ++ r ∷ [] }

abbrev announced : Tables → EventRow → Tables
announced t r = record (logged t r) { notified = t.notified ++ r.id ∷ [] }

checked_logged :
    (t : Tables) (row : EventRow)
    → Applied (λ r s. (s ≡ logged t r) × (r ≡ row)) (λ _ _. Unit {0}) t (event_checked row t)
unfolding event_checked
checked_logged t row =
    elim (Bool-cases (any (λ e. str_eq e.id row.id || e.seq == row.seq) t.activity_events)) [
      | inl e ↦ rw e tt
      | inr e ↦ rw e (elim (Bool-cases (has_group row.group_id t)) [
        | inl g ↦ rw g (refl, refl)
        | inr g ↦ rw g tt
      ])
    ]

abbrev Unnumbered : EventRow → EventRow → Type 0
Unnumbered row r = (seq : ℕ) × (r ≡ record row { seq = seq })

row_hoare :
    (t : Tables) (row : EventRow)
    → Hoare
        (λ s. s ≡ t)
        (Q.insert_activity_event_row row)
        (λ r s. (s ≡ logged t r) × Unnumbered row r)
        (λ _ _. Unit {0})
unfolding Q.insert_activity_event_row nextval
row_hoare t row =
    Hoare-bind {R = λ seq s. s ≡ t} _ _ (record { at = λ w q. q })
      λ seq.
        let numbered : EventRow = record row { seq = seq } in
        Hoare-weaken _ (λ s q. q) (λ r s a. (a.0, (seq, a.1))) (λ e s u. u)
          (Hoare-statement {Q = λ r s. (s ≡ logged t r) × (r ≡ numbered)} {E = λ _ _. Unit {0}} _
            (λ s q. tt)
            λ s q.
              subst
                (λ z.
                  Applied (λ r s. (s ≡ logged t r) × (r ≡ numbered)) (λ _ _. Unit {0}) z
                    (event_checked numbered z))
                (sym q) (checked_logged t numbered))

notify_hoare :
    (t : Tables) (id : Str)
    → Hoare
        (λ s. s ≡ t)
        (Q.notify_activity_event id)
        (λ _ s. s ≡ record t { notified = t.notified ++ id ∷ [] })
        (λ _ _. Unit {0})
unfolding Q.notify_activity_event
notify_hoare t id = Hoare-statement _ (λ s q. tt) λ s q. rw q refl

IsPublished-first :
    (e : ActivityEvent) (events : List ActivityEvent) (at : Time) (r : EventRow) (t t' : Tables)
    → Stores at e r
    → IsPublished at events (announced t r) t'
    → IsPublished at (e ∷ events) t t'
IsPublished-first e events at r t t' first rest = record {
  rows = r ∷ rest.rows;
  log = rest.log ∙ append_assoc t.activity_events (r ∷ []) rest.rows;
  channel = rest.channel ∙ append_assoc t.notified (r.id ∷ []) (map (λ x. x.id) rest.rows);
  stores = (first, rest.stores);
}

abbrev row_of : Time → ActivityEvent → Str → EventRow
row_of at e fresh = record {
  id = first_non_empty e.id fresh;
  seq = 0;
  group_id = e.group_id;
  actor_id = e.actor_id;
  actor_name = e.actor_name;
  kind = e.kind;
  title_id = e.title_id;
  title_name = e.title_name;
  payload = marshalled e.payload;
  created_at = at;
}

fits :
    (at : Time) (e : ActivityEvent) (fresh : Str) (r : EventRow)
    → Unnumbered (row_of at e fresh) r
    → Stores at e r
unfolding first_non_empty
fits at e fresh r (seq, q) = record {
  id = λ named. ap (λ x. x.id) q ∙ rw named refl;
  group_id = ap (λ x. x.group_id) q;
  actor_id = ap (λ x. x.actor_id) q;
  actor_name = ap (λ x. x.actor_name) q;
  kind = ap (λ x. x.kind) q;
  title_id = ap (λ x. x.title_id) q;
  title_name = ap (λ x. x.title_name) q;
  payload = ap (λ x. x.payload) q;
  created_at = ap (λ x. x.created_at) q;
}

module _ {A : Type 0} {P : Tables → Type 0} {Q : A → Tables → Type 0}
    {E : Error → Tables → Type 0} where
  -- What does not mention the tables stays.
  Hoare-frame :
      (C : Type 0) (m : Exec A) → Hoare P m Q E → Hoare (λ s. P s × C) m (λ a s. Q a s × C) E
  Hoare-frame C m h = record { at = λ w p. go p.1 (m w) (h.at w p.0) }
    where
      go : C → (x : Result A × World) → Outcome Q E x → Outcome (λ a s. Q a s × C) E x
      go c (ok a, w) o = (o, c)
      go c (err e, w) o = o

each_hoare :
    (at : Time) (events : List ActivityEvent) (t : Tables)
    → Hoare
        (λ s. s ≡ t)
        (insert_each at events)
        (λ _ s. IsPublished at events t s)
        (λ _ _. Unit {0})
unfolding insert_each new_string
each_hoare at [] t = Hoare-pure _ λ s q. record {
  rows = [];
  log = ap (λ x. x.activity_events) q ∙ sym (append-nil t.activity_events);
  channel = ap (λ x. x.notified) q ∙ sym (append-nil t.notified);
  stores = tt;
}
each_hoare at (e ∷ events) t =
    Hoare-bind {R = λ fresh s. s ≡ t} _ _ (record { at = λ w q. q })
      λ fresh.
        Hoare-bind {R = λ r s. (s ≡ logged t r) × Stores at e r} _ _
          (Hoare-weaken _ (λ s q. q) (λ r s a. (a.0, fits at e fresh r a.1)) (λ x s u. u)
            (row_hoare t _))
          λ r.
            Hoare-bind {R = λ _ s. (s ≡ announced t r) × Stores at e r} _ _
              (Hoare-frame (Stores at e r) _ (notify_hoare (logged t r) r.id))
              λ u. record {
                at = λ w p.
                    (Hoare-weaken _ (λ s q. q) (λ v s i. IsPublished-first e events at r t s p.1 i)
                        (λ x s v. v) (each_hoare at events (announced t r))).at
                      w p.0;
              }

IsPublished-after :
    (events : List ActivityEvent) (t : Tables) (x : Result (Unit {0}) × World) {u : Unit {0}}
    → Outcome (λ _ s. (at : Time) × IsPublished at events t s) (λ _ _. Unit {0}) x
    → x.0 ≡ ok u
    → (at : Time) × IsPublished at events t x.1.db
IsPublished-after events t (ok _, w) o h = o
IsPublished-after events t (err e, w) o h = absurd (ground arith)

-- When a batch of events is inserted, the log has grown by one row for each event in order, with
-- the event's group, actor, kind, title and payload, its id where it has one, and one time for
-- all, and the notification channel has grown by the ids of exactly those rows in the same
-- order.
pub insert_activity_events-IsPublished :
    (events : List ActivityEvent) (w : World) {u : Unit {0}}
    → (insert_activity_events events w).0 ≡ ok u
    → (at : Time) × IsPublished at events w.db (insert_activity_events events w).1.db
unfolding insert_activity_events insert_events_tx pure
insert_activity_events-IsPublished [] w h = (
  0,
  record {
    rows = [];
    log = sym (append-nil w.db.activity_events);
    channel = sym (append-nil w.db.notified);
    stores = tt;
  },
)
insert_activity_events-IsPublished (e ∷ events) w h =
    IsPublished-after (e ∷ events) w.db (insert_activity_events (e ∷ events) w)
      ((Hoare-in_tx {P = λ s. s ≡ w.db} _ (λ s q x. tt)
          (Hoare-bind {R = λ at s. s ≡ w.db} _ _ (Hoare-now (λ s q n. q)) λ at.
            Hoare-weaken _ (λ s q. q) (λ u s i. (at, i)) (λ x s v. v)
              (each_hoare at (e ∷ events) w.db))).at
        w refl)
      h
