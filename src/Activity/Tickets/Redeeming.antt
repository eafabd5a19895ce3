-- ===== src/Activity/Tickets/Redeeming.antt =====
-- When a ticket is good.
use native.Mathlib.Nat.{le_refl}
use aftercredits_backend.Base.{
  ◌+◌, ◌<◌, ◌≤◌, ◌≡◌, refl, Bool, true, false, not, Option, none, some, List, [], ◌∷◌, Str, str_eq,
  str_eq_iff, str_eq_refl, ltb, if◌then◌else◌, arith, All,
}
use aftercredits_backend.Base.Assoc.{lookup, insert, delete, lookup-insert, lookup-delete}
use aftercredits_backend.Models.{Time}
use aftercredits_backend.Activity.Tickets.{
  ticket_ttl, TicketEntry, TicketStore, sweep, issue, redeem, redeemed,
}

-- What a client of the store does: it issues the ticket that crypto/rand drew, or redeems one.
pub data Use : Type 0 where
  issues : Str → Str → Use
  redeems : Str → Use

-- The store after a use at a time.
unfoldable pub use_at : TicketStore → Time × Use → TicketStore
use_at m (at, issues ticket user_id) = issue ticket user_id at m
use_at m (at, redeems ticket) = (redeem ticket at m).1

unfoldable pub use_all : TicketStore → List (Time × Use) → TicketStore
unfolding use_at
use_all m [] = m
use_all m (u ∷ us) = use_all (use_at m u) us

-- A use neither issues nor redeems the ticket; a use does not issue it.
abbrev pub Leaves : Str → Use → Type 0
Leaves ticket (issues other user_id) = str_eq other ticket ≡ false
Leaves ticket (redeems other) = str_eq other ticket ≡ false

abbrev pub NotIssued : Str → Use → Type 0
NotIssued ticket (issues other user_id) = str_eq other ticket ≡ false
NotIssued ticket (redeems other) = Unit

lookup-sweep :
    (ticket : Str) (e : TicketEntry) (at : Time) (m : TicketStore)
    → lookup ticket m ≡ some e
    → at < e.expires_at
    → lookup ticket (sweep at m) ≡ some e
unfolding lookup sweep
lookup-sweep ticket e at [] h l = ground arith
lookup-sweep ticket e at ((t, f) ∷ m) h l = ground (arith, lookup-sweep ticket e at m)

-- A redemption of another ticket.
redeem-other :
    (ticket other : Str) (e : TicketEntry) (m : TicketStore) (o : Option TicketEntry)
    → str_eq other ticket ≡ false
    → lookup ticket m ≡ some e
    → lookup ticket (redeemed other m o).1 ≡ some e
redeem-other ticket other e m none n h = h
redeem-other ticket other e m (some f) n h = rw (lookup-delete other ticket m, n) h

use-Leaves :
    (ticket : Str) (e : TicketEntry) (m : TicketStore) (at : Time) (u : Use)
    → at < e.expires_at
    → Leaves ticket u
    → lookup ticket m ≡ some e
    → lookup ticket (use_at m (at, u)) ≡ some e
unfolding use_at issue redeem
use-Leaves ticket e m at (issues other user_id) l n h =
    rw
      (
        lookup-insert other ticket (record { user_id = user_id; expires_at = at + ticket_ttl })
            (sweep at m),
        n,
      )
      (lookup-sweep ticket e at m h l)
use-Leaves ticket e m at (redeems other) l n h =
    redeem-other ticket other e (sweep at m) (lookup other (sweep at m)) n
      (lookup-sweep ticket e at m h l)

use_all-Leaves :
    (ticket : Str) (e : TicketEntry) (m : TicketStore) (us : List (Time × Use))
    → All (λ u. (u.0 < e.expires_at) × Leaves ticket u.1) us
    → lookup ticket m ≡ some e
    → lookup ticket (use_all m us) ≡ some e
unfolding use_all
use_all-Leaves ticket e m [] a h = h
use_all-Leaves ticket e m ((at, u) ∷ us) a h =
    use_all-Leaves ticket e (use_at m (at, u)) us a.1 (use-Leaves ticket e m at u a.0.0 a.0.1 h)

-- A ticket issued to a user redeems to that user before 60 seconds have passed, after any other
-- issues and redemptions in less than that time that name other tickets.
pub redeem-issued :
    (ticket user_id : Str) (at later : Time) (m : TicketStore) (us : List (Time × Use))
    → All (λ u. (u.0 < at + ticket_ttl) × Leaves ticket u.1) us
    → later < at + ticket_ttl
    → (redeem ticket later (use_all (issue ticket user_id at m) us)).0 ≡ some user_id
unfolding redeem issue
redeem-issued ticket user_id at later m us a l =
    let e : TicketEntry = record { user_id = user_id; expires_at = at + ticket_ttl } in
    let put : lookup ticket (insert ticket e (sweep at m)) ≡ some e =
      rw (lookup-insert ticket ticket e (sweep at m), str_eq_refl ticket) refl in
    let stays = use_all-Leaves ticket e (insert ticket e (sweep at m)) us a put in
    let found = lookup-sweep ticket e later (use_all (insert ticket e (sweep at m)) us) stays l in
    rw found refl

-- What holds of each entry of the store.
module _ (R : Str × TicketEntry → Type 0) where
  All-sweep : (at : Time) (m : TicketStore) → All R m → All R (sweep at m)
  unfolding sweep
  All-sweep at [] h = tt
  All-sweep at ((t, e) ∷ m) h = kept (ltb at e.expires_at) (All-sweep at m h.1)
    where
      kept :
          (b : Bool)
          → All R (sweep at m)
          → All R (if not b then sweep at m else (t, e) ∷ sweep at m)
      kept true r = (h.0, r)
      kept false r = r

  All-delete : (k : Str) (m : TicketStore) → All R m → All R (delete k m)
  unfolding delete
  All-delete k [] h = tt
  All-delete k ((t, e) ∷ m) h = kept (str_eq t k) (All-delete k m h.1)
    where
      kept : (b : Bool) → All R (delete k m) → All R (if b then delete k m else (t, e) ∷ delete k m)
      kept true r = r
      kept false r = (h.0, r)

  All-insert :
      (k : Str) (v : TicketEntry) (m : TicketStore)
      → ((j : Str) → str_eq j k ≡ true → R (j, v))
      → All R m
      → All R (insert k v m)
  unfolding insert
  All-insert k v [] r h = (r k (str_eq_refl k), tt)
  All-insert k v ((t, e) ∷ m) r h = put (str_eq t k) (r t) (All-insert k v m r h.1)
    where
      put :
          (b : Bool)
          → (b ≡ true → R (t, v))
          → All R (insert k v m)
          → All R (if b then (t, v) ∷ m else (t, e) ∷ insert k v m)
      put true x y = (x refl, h.1)
      put false x y = (h.0, y)

  All-redeemed :
      (k : Str) (m : TicketStore) (o : Option TicketEntry) → All R m → All R (redeemed k m o).1
  All-redeemed k m none h = h
  All-redeemed k m (some e) h = All-delete k m h

  -- Of what only issuing the ticket could break.
  All-use_all :
      (ticket : Str) (m : TicketStore) (us : List (Time × Use))
      → ((j : Str) (v : TicketEntry) → str_eq j ticket ≡ false → R (j, v))
      → All (λ u. NotIssued ticket u.1) us
      → All R m
      → All R (use_all m us)
  unfolding use_all use_at issue redeem
  All-use_all ticket m [] free a h = h
  All-use_all ticket m ((at, issues other user_id) ∷ us) free a h =
      All-use_all ticket (issue other user_id at m) us free a.1 (
        All-insert other _ (sweep at m)
          (λ j e.
            free j _ (
              ground
                (arith, str_eq_iff j other, str_eq_iff j ticket, str_eq_iff other ticket, a.0)))
          (All-sweep at m h))
  All-use_all ticket m ((at, redeems other) ∷ us) free a h =
      All-use_all ticket (redeem other at m).1 us free a.1
        (All-redeemed other (sweep at m) (lookup other (sweep at m)) (All-sweep at m h))

-- The store has no entry of the ticket; it has none that is good after a time.
abbrev Absent : Str → Str × TicketEntry → Type 0
Absent ticket (t, e) = str_eq t ticket ≡ false

abbrev Over : Str → Time → Str × TicketEntry → Type 0
Over ticket x (t, e) = str_eq t ticket ≡ true → e.expires_at ≤ x

lookup-Absent : (ticket : Str) (m : TicketStore) → lookup ticket m ≡ none → All (Absent ticket) m
unfolding lookup
lookup-Absent ticket [] h = tt
lookup-Absent ticket ((t, e) ∷ m) h = (ground arith, lookup-Absent ticket m (ground arith))

redeem-Over :
    (ticket : Str) (x at : Time) (m : TicketStore)
    → All (Over ticket x) m
    → x ≤ at
    → lookup ticket (sweep at m) ≡ none
unfolding lookup sweep
redeem-Over ticket x at [] h l = refl
redeem-Over ticket x at ((t, e) ∷ m) h l =
    let over = h.0 in ground (arith, redeem-Over ticket x at m h.1 l)

redeemed-Absent :
    (ticket : Str) (m : TicketStore) (o : Option TicketEntry)
    → lookup ticket m ≡ o
    → lookup ticket (redeemed ticket m o).1 ≡ none
redeemed-Absent ticket m none h = h
redeemed-Absent ticket m (some e) h = rw (lookup-delete ticket ticket m, str_eq_refl ticket) refl

Absent-Over :
    (ticket : Str) (x : Time) (m : TicketStore) → All (Absent ticket) m → All (Over ticket x) m
Absent-Over ticket x [] h = tt
Absent-Over ticket x ((t, e) ∷ m) h =
    let n = h.0 in ((λ k. ground arith), Absent-Over ticket x m h.1)

-- A ticket that was presented once, whether it was accepted or refused, is refused at any time
-- afterwards, through any issues and redemptions that do not issue it again.
pub redeem-once :
    (ticket : Str) (at later : Time) (m : TicketStore) (us : List (Time × Use))
    → All (λ u. NotIssued ticket u.1) us
    → (redeem ticket later (use_all (redeem ticket at m).1 us)).0 ≡ none
unfolding redeem
redeem-once ticket at later m us a =
    let m' : TicketStore = (redeemed ticket (sweep at m) (lookup ticket (sweep at m))).1 in
    let gone = redeemed-Absent ticket (sweep at m) (lookup ticket (sweep at m)) refl in
    let absent =
      All-use_all (Absent ticket) ticket m' us (λ j v n. n) a (lookup-Absent ticket m' gone) in
    let found =
      redeem-Over ticket later later (use_all m' us) (Absent-Over ticket later _ absent)
        (le_refl _) in
    rw found refl

-- A ticket that the store did not hold and that is then issued is refused from 60 seconds after
-- it was issued, through any issues and redemptions that do not issue it again.
pub redeem-expired :
    (ticket user_id : Str) (at later : Time) (m : TicketStore) (us : List (Time × Use))
    → lookup ticket m ≡ none
    → All (λ u. NotIssued ticket u.1) us
    → at + ticket_ttl ≤ later
    → (redeem ticket later (use_all (issue ticket user_id at m) us)).0 ≡ none
unfolding redeem issue
redeem-expired ticket user_id at later m us h a l =
    let e : TicketEntry = record { user_id = user_id; expires_at = at + ticket_ttl } in
    let old = Absent-Over ticket (at + ticket_ttl) m (lookup-Absent ticket m h) in
    let start =
      All-insert (Over ticket (at + ticket_ttl)) ticket e (sweep at m) (λ j x y. le_refl _)
        (All-sweep (Over ticket (at + ticket_ttl)) at m old) in
    let over =
      All-use_all (Over ticket (at + ticket_ttl)) ticket (insert ticket e (sweep at m)) us
        (λ j v n k. ground arith) a start in
    let found =
      redeem-Over ticket (at + ticket_ttl) later (use_all (insert ticket e (sweep at m)) us) over
        l in
    rw found refl
