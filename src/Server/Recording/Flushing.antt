-- ===== src/Server/Recording/Flushing.antt =====
-- What the middleware does besides the handler.
use aftercredits_backend.Base.{
  ℕ, ◌≡◌, refl, true, false, ◌⊎◌, inl, inr, Bool-cases, Option, none, some, List, [], ◌∷◌, map, Str,
  leb, ◌<◌, ◌≤◌, if◌then◌else◌, arith,
}
use aftercredits_backend.Models.{Error, Time, User}
use aftercredits_backend.Database.Exec.{Tables, World, Result, ok, err}
use aftercredits_backend.Activity.Event.{ActivityEvent}
use aftercredits_backend.Activity.Recorder.{Event, Payload, Recorder, with_recorder, recorded}
use aftercredits_backend.Postgres.Activity.{insert_activity_events}
use aftercredits_backend.Postgres.Activity.Publishing.{
  IsPublished, insert_activity_events-atomic, insert_activity_events-IsPublished,
}
use aftercredits_backend.Server.Recording.{
  Handler, is_mutating, to_model, append, flush, after_handler, activity_middleware,
}

-- The events of a request, stored and announced as its actor's.
pub record IsFlushed (marshal : Payload → Str) (actor : Option User) (events : List Event)
    (t : Tables) (t' : Tables) : Type 0 where
  pub user : User
  pub known : actor ≡ some user
  pub at : Time
  pub published : IsPublished at (map (to_model marshal user) events) t t'

-- Why nothing is stored besides what the handler stored.
pub data Unflushed (marshal : Payload → Str) (actor : Option User) (events : List Event) (w : World)
    : Type 0 where
  silent : events ≡ [] → Unflushed marshal actor events w
  anonymous : actor ≡ none → Unflushed marshal actor events w
  failing :
      (user : User) (e : Error)
      → actor ≡ some user
      → (insert_activity_events (map (to_model marshal user) events) w).0 ≡ err e
      → Unflushed marshal actor events w

pub data Unrecorded (marshal : Payload → Str) (actor : Option User) (method : Str) (status : ℕ)
    (events : List Event) (w : World) : Type 0 where
  reading : is_mutating method ≡ false → Unrecorded marshal actor method status events w
  refused : 400 ≤ status → Unrecorded marshal actor method status events w
  unflushed : Unflushed marshal actor events w → Unrecorded marshal actor method status events w

flush_cases :
    (marshal : Payload → Str) (actor : Option User) (events : List Event) (w : World)
    → (((flush marshal actor events w).db ≡ w.db) × Unflushed marshal actor events w)
      ⊎ IsFlushed marshal actor events w.db (flush marshal actor events w).db
unfolding flush append
flush_cases marshal actor [] w = inl (refl, silent refl)
flush_cases marshal none (e ∷ events) w = inl (refl, anonymous refl)
flush_cases marshal (some user) (e ∷ events) w = by_result (insert_activity_events stamped w).0 refl
  where
    stamped : List ActivityEvent
    stamped = map (to_model marshal user) (e ∷ events)

    by_result :
        (r : Result (Unit {0}))
        → (insert_activity_events stamped w).0 ≡ r
        → (((insert_activity_events stamped w).1.db ≡ w.db)
            × Unflushed marshal (some user) (e ∷ events) w)
          ⊎ IsFlushed marshal (some user) (e ∷ events) w.db (insert_activity_events stamped w).1.db
    by_result (err x) q = inl (insert_activity_events-atomic stamped w q, failing user x refl q)
    by_result (ok u) q =
        let (at, p) = insert_activity_events-IsPublished stamped w q in
        inr (record { user = user; known = refl; at = at; published = p })

-- The request as the handler left it, or with its events besides.
pub record IsServed (marshal : Payload → Str) (actor : Option User) (method : Str)
    (answer : (ℕ × Option Recorder) × World) (served : ℕ × World) : Type 0 where
  pub status : served.0 ≡ answer.0.0
  pub tables :
      ((served.1.db ≡ answer.1.db)
        × Unrecorded marshal actor method answer.0.0 (recorded answer.0.1) answer.1)
      ⊎ ((is_mutating method ≡ true)
          × (answer.0.0 < 400)
          × IsFlushed marshal actor (recorded answer.0.1) answer.1.db served.1.db)

-- The recorder that the middleware gives the handler: one for a request that may write.
abbrev pub seeded : Str → Option Recorder
seeded method = if is_mutating method then with_recorder else none

-- For any handler, the middleware answers with the handler's status. Either the tables are as
-- the handler left them, and then the request does not write by its method, or the status is 400
-- or more, or nothing was recorded, or nobody is authenticated, or the insertion of the events
-- failed; or the request writes, its status is below 400, and the log and the notification
-- channel have grown by exactly the recorded events in order, as the authenticated user's.
pub activity_middleware-IsServed :
    (marshal : Payload → Str) (actor : Option User) (method : Str) (handler : Handler) (w : World)
    → IsServed marshal actor method
        (handler (seeded method) w)
        (activity_middleware marshal actor method handler w)
unfolding activity_middleware
activity_middleware-IsServed marshal actor method handler w =
    elim (Bool-cases (is_mutating method)) [
      | inr reads ↦ rw reads (record { status = refl; tables = inl (refl, reading reads) })
      | inl writes ↦ rw writes (
          by_status (handler with_recorder w) (Bool-cases (leb 400 (handler with_recorder w).0.0))
            writes)
    ]
  where
    gated : {C D E F G H : Type 0} → (C × G → H) → ((C × G) ⊎ D) → E → F → (C × H) ⊎ (E × F × D)
    gated k (inl c) e f = inl (c.0, k c)
    gated k (inr d) e f = inr (e, f, d)

    by_status :
        (x : (ℕ × Option Recorder) × World)
        → (leb 400 x.0.0 ≡ true) ⊎ (leb 400 x.0.0 ≡ false)
        → is_mutating method ≡ true
        → IsServed marshal actor method x (after_handler marshal actor x)
    by_status ((status, recorder), w') (inl failed) writes =
        rw failed (record { status = refl; tables = inl (refl, refused (ground arith)) })
    by_status ((status, recorder), w') (inr succeeded) writes = rw succeeded (record {
      status = refl;
      tables =
          gated (λ c. unflushed c.1) (flush_cases marshal actor (recorded recorder) w') writes
            (ground arith);
    })
