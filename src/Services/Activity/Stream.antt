-- ===== src/Services/Activity/Stream.antt =====
-- The live stream and the feed show a user the same events.
use aftercredits_backend.Base.{
  ℕ, ◌≡◌, refl, sym, ap, ◌∙◌, subst, true, false, not, Option, none, some, List, [], ◌∷◌, ◌++◌, map,
  Str, str_eq, str_eq_iff, find, filter, arith, ◌≤◌, length,
}
use aftercredits_backend.Models.{User, no_rows}
use aftercredits_backend.Database.Exec.{
  EventRow, UserRow, Tables, World, Result, ok, err, raise, or_raise,
}
use aftercredits_backend.Database.Rules.{
  Hoare, Selected, Outcome, Hoare-select, Hoare-bind, Hoare-map_err, Hoare-attempt, Hoare-pure,
  Hoare-raise, Hoare-if,
}
use aftercredits_backend.Database.Users as U
use aftercredits_backend.Database.Users.{group_ids_of, member}
use aftercredits_backend.Database.Activity.{visible_to}
use aftercredits_backend.Database.Activity.Marking.{find-Among}
use aftercredits_backend.Activity.Hub.{Hub, subscriber_buffer_size, subscribe}
use aftercredits_backend.Activity.Tickets.{TicketStore, redeem}
use aftercredits_backend.Postgres.Users.{get_user_by_id, load_user, user_row_to_model}
use aftercredits_backend.Services.Activity.{open_stream, open_for, subscribe_user}
use aftercredits_backend.Services.Activity.Mailbox.{
  subscription, event_of, publish_rows, mailbox, delivered,
}

-- A row of users is stored, with the groups of its user.
record IsUser (user_id : Str) (t : Tables) (u : User) : Type 0 where
  row : UserRow
  stored : find (λ r. str_eq r.id user_id) t.users ≡ some row
  model : u ≡ user_row_to_model row (group_ids_of user_id t)

module _ (user_id : Str) (t : Tables) where
  row-Selected :
      (o : Option UserRow)
      → find (λ r. str_eq r.id user_id) t.users ≡ o
      → Selected
          (λ r s. (s ≡ t) × (find (λ x. str_eq x.id user_id) t.users ≡ some r))
          (λ _ _. Unit {0})
          t
          (or_raise no_rows o)
  row-Selected none e = tt
  row-Selected (some r) e = (refl, e)

  row_hoare :
      Hoare
        (λ s. s ≡ t)
        (U.get_user_by_id user_id)
        (λ r s. (s ≡ t) × (find (λ x. str_eq x.id user_id) t.users ≡ some r))
        (λ _ _. Unit {0})
  unfolding U.get_user_by_id
  row_hoare =
      Hoare-select _ (λ s q. tt)
        λ s q.
          subst
            (λ z.
              Selected (λ r s'. (s' ≡ t) × (find (λ x. str_eq x.id user_id) t.users ≡ some r))
                (λ _ _. Unit {0}) z (or_raise no_rows (find (λ x. str_eq x.id user_id) z.users)))
            (sym q) (row-Selected (find (λ r. str_eq r.id user_id) t.users) refl)

  load_hoare :
      (r : UserRow)
      → find (λ x. str_eq x.id user_id) t.users ≡ some r
      → Hoare (λ s. s ≡ t) (load_user r) (λ u _. IsUser user_id t u) (λ _ _. Unit {0})
  unfolding load_user U.get_user_group_ids
  load_hoare r e =
      let (_, named) = find-Among (λ x. str_eq x.id user_id) r t.users e in
      Hoare-bind {R = λ gs _. gs ≡ group_ids_of user_id t} _ _
        (Hoare-select _ (λ s q. tt) λ s q. rw (q, (str_eq_iff r.id user_id).0 named) refl)
        λ gs. Hoare-pure _ (λ s q. record { row = r; stored = e; model = rw q refl })

  IsUser-hoare :
      Hoare (λ s. s ≡ t) (get_user_by_id user_id) (λ u _. IsUser user_id t u) (λ _ _. Unit {0})
  unfolding get_user_by_id
  IsUser-hoare =
      Hoare-bind {R = λ r s. (s ≡ t) × (find (λ x. str_eq x.id user_id) t.users ≡ some r)} _ _
        (Hoare-map_err _ _ row_hoare) λ r. record { at = λ w p. (load_hoare r p.1).at w p.0 }

-- A stream that was opened: for a stored, active user, whose subscription is the hub's newest, and
-- holds, of logged events that are then published, exactly those of the user's feed, in order, as
-- long as they fit its buffer. The other subscribers have what they would have had without it.
pub record IsOpened (user_id : Str) (t : Tables) (hub : Hub) (hub' : Hub) (address : ℕ)
    : Type 0 where
  pub row : UserRow
  pub stored : find (λ r. str_eq r.id user_id) t.users ≡ some row
  pub active : row.is_active ≡ true
  pub issued : address ≡ hub.next
  pub subscribed : hub'.subscribers ≡ hub.subscribers ++ subscription address user_id t ∷ []
  pub delivers :
      (es : List EventRow)
      → length (filter (visible_to user_id t) es) ≤ subscriber_buffer_size
      → (publish_rows t es hub').subscribers
        ≡ (publish_rows t es hub).subscribers
          ++ mailbox address user_id t (map (event_of t) (filter (visible_to user_id t) es)) ∷ []

subscribed-IsOpened :
    (user_id : Str) (t : Tables) (hub : Hub) (u : User)
    → IsUser user_id t u
    → not u.is_active ≡ false
    → IsOpened user_id t hub (subscribe u.id u.groups hub).0 (subscribe u.id u.groups hub).1
unfolding subscribe user_row_to_model
subscribed-IsOpened user_id t hub u i active =
    let (_, named) = find-Among (λ x. str_eq x.id user_id) i.row t.users i.stored in
    let id = ap (λ x. x.id) i.model ∙ (str_eq_iff i.row.id user_id).0 named in
    let gs = ap (λ x. x.groups) i.model in
    let same_subscribers : (subscribe u.id u.groups hub).0.subscribers
        ≡ hub.subscribers ++ subscription hub.next user_id t ∷ [] =
      rw (id, gs) refl in
    record {
      row = i.row;
      stored = i.stored;
      active = let a = ap (λ x. x.is_active) i.model in ground arith;
      issued = refl;
      subscribed = same_subscribers;
      delivers = λ es l. delivered hub.next user_id t es [] hub _ same_subscribers (omega arith);
    }

open_hoare :
    (user_id : Str) (t : Tables) (hub : Hub)
    → Hoare
        (λ s. s ≡ t)
        (open_for hub (some user_id))
        (λ x _. IsOpened user_id t hub x.0 x.1)
        (λ _ _. Unit {0})
unfolding subscribe_user
open_hoare user_id t hub =
    Hoare-bind {R = λ r s. Selected (λ u _. IsUser user_id t u) (λ _ _. Unit {0}) s r} _ _
      (Hoare-attempt _ (IsUser-hoare user_id t)) λ r. by_user r
  where
    by_user :
        (r : Result User)
        → Hoare
            (λ s. Selected (λ u _. IsUser user_id t u) (λ _ _. Unit {0}) s r)
            (subscribe_user hub r)
            (λ x _. IsOpened user_id t hub x.0 x.1)
            (λ _ _. Unit {0})
    by_user (err e) =
        let nothing = λ (s : Tables) (q : Unit {0}). tt {0} in
        search (Hoare-if, Hoare-raise, nothing) depth 9
    by_user (ok u) =
        let nothing = λ (s : Tables) (q : IsUser user_id t u). tt {0} in
        let opened = λ (active : not u.is_active ≡ false).
          Hoare-pure {P = λ _. IsUser user_id t u} {Q = λ x _. IsOpened user_id t hub x.0 x.1}
            {E = λ _ _. Unit {0}} (subscribe u.id u.groups hub)
            (λ s i. subscribed-IsOpened user_id t hub u i active) in
        search (Hoare-if, Hoare-raise, nothing, opened) depth 9

IsOpened-after :
    (user_id : Str) (t : Tables) (hub : Hub) (x : Result (Hub × ℕ) × World) {hub' : Hub} {a : ℕ}
    → Outcome (λ y _. IsOpened user_id t hub y.0 y.1) (λ _ _. Unit {0}) x
    → x.0 ≡ ok (hub', a)
    → IsOpened user_id t hub hub' a
IsOpened-after user_id t hub (ok y, w) {hub'} {a} o h =
    let e : y ≡ (hub', a) = ground arith in subst (λ z. IsOpened user_id t hub z.0 z.1) e o
IsOpened-after user_id t hub (err e, w) o h = absurd (ground arith)

-- When a stream is opened, its ticket redeems to a stored user who is active, the hub's
-- subscribers are the old ones and a new one for that user, and when any logged events, at most
-- 16 of them visible to the user, are then published in turn, the new subscriber has waiting
-- exactly those that the view of the feed shows to the user, in their order, and the other
-- subscribers have what they would have had without it.
pub open_stream-IsOpened :
    (ticket : Str) (at : ℕ) (tickets : TicketStore) (hub : Hub) (w : World) {hub' : Hub} {a : ℕ}
    → ((open_stream ticket at tickets hub).1 w).0 ≡ ok (hub', a)
    → (user_id : Str) × ((redeem ticket at tickets).0 ≡ some user_id)
      × IsOpened user_id w.db hub hub' a
unfolding open_stream raise
open_stream-IsOpened ticket at tickets hub w {hub'} {a} h =
    by_ticket (redeem ticket at tickets).0 refl h
  where
    by_ticket :
        (o : Option Str)
        → (redeem ticket at tickets).0 ≡ o
        → (open_for hub o w).0 ≡ ok (hub', a)
        → (user_id : Str) × ((redeem ticket at tickets).0 ≡ some user_id)
          × IsOpened user_id w.db hub hub' a
    by_ticket none q k = absurd (ground arith)
    by_ticket (some user_id) q k =
        (user_id, q, IsOpened-after user_id w.db hub _ ((open_hoare user_id w.db hub).at w refl) k)
