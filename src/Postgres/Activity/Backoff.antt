-- ===== src/Postgres/Activity/Backoff.antt =====
-- The waits between the attempts to listen.
use aftercredits_backend.Base.{ℕ, ◌≤◌, Bool, true, false, List, [], ◌∷◌, All, arith}
use aftercredits_backend.Postgres.Activity.{
  listen_min_backoff, listen_max_backoff, next_backoff, reconnect_delays,
}

abbrev pub InRange : ℕ → Type 0
InRange wait = (listen_min_backoff ≤ wait) × (wait ≤ listen_max_backoff)

next_backoff-InRange : (wait : ℕ) → InRange wait → InRange (next_backoff wait)
unfolding next_backoff
next_backoff-InRange wait h = ground arith

-- From a backoff between 1 and 30 seconds, every wait before the listener connects again lies
-- between 1 and 30 seconds, however often it connects and fails.
pub reconnect_delays-InRange :
    (backoff : ℕ) (rounds : List Bool)
    → InRange backoff
    → All InRange (reconnect_delays backoff rounds)
unfolding reconnect_delays
reconnect_delays-InRange backoff [] h = tt
reconnect_delays-InRange backoff (true ∷ rounds) h =
    let first : InRange listen_min_backoff = (omega arith, omega arith) in
    (
      first,
      reconnect_delays-InRange (next_backoff listen_min_backoff) rounds
          (next_backoff-InRange listen_min_backoff first),
    )
reconnect_delays-InRange backoff (false ∷ rounds) h =
    (h, reconnect_delays-InRange (next_backoff backoff) rounds (next_backoff-InRange backoff h))
