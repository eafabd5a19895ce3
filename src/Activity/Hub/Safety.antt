-- ===== src/Activity/Hub/Safety.antt =====
-- The hub over any interleaving of its callers.
use aftercredits_backend.Base.{
  ℕ, ◌≤◌, ◌<◌, ◌≡◌, refl, true, false, not, List, [], ◌∷◌, Str, any, length, length-append, All,
  All-filter, All-append, All-update_where, ltb, ◌==◌, arith, Bool-cases, inl, inr, ltb→lt, subst,
  sym,
}
use aftercredits_backend.Base.Distinct.{All-map, All-filter_map}
use aftercredits_backend.Activity.Event.{ActivityEvent}
use aftercredits_backend.Activity.Hub.{
  Subscriber, Hub, subscriber_buffer_size, subscribe, unsubscribe, visible, send, deliver,
  publish_to, publish, receive, receive_at, new_hub, taken,
}
use aftercredits_backend.Activity.Hub.Delivery.{MaySee, visible-MaySee, address-deliver}

pub data Step (h : Hub) (k : Hub) : Type 0 where
  subscribes :
      (user_id : Str) (group_ids : List Str) → k ≡ (subscribe user_id group_ids h).0 → Step h k
  unsubscribes : (a : ℕ) → a < h.next → k ≡ unsubscribe a h → Step h k
  publishes : (event : ActivityEvent) → k ≡ publish event h → Step h k
  receives : (a : ℕ) → k ≡ receive_at a h → Step h k

pub data Reach : Hub → Type 0 where
  start : Reach new_hub
  and_then : {h k : Hub} → Reach h → Step h k → Reach k

-- The buffer of a subscriber: within its size, and with nothing its user may not see.
pub record IsMailbox (s : Subscriber) : Type 0 where
  pub bounded : length s.events ≤ subscriber_buffer_size
  pub permitted : All (λ e. MaySee e s) s.events

pub record IsSafe (h : Hub) : Type 0 where
  pub mailboxes : All IsMailbox h.subscribers
  -- no registered channel is closed, so no send is on a closed channel
  pub not_closed : All (λ s. any (λ c. c == s.address) h.closed ≡ false) h.subscribers
  pub issued : All (λ c. c < h.next) h.closed

any_fresh : (n : ℕ) (cs : List ℕ) → All (λ c. c < n) cs → any (λ c. c == n) cs ≡ false
unfolding any
any_fresh n [] h = refl
any_fresh n (c ∷ cs) h = ground (arith, any_fresh n cs h.1)

subscribe-IsSafe :
    (user_id : Str) (group_ids : List Str) (h : Hub)
    → IsSafe h
    → IsSafe (subscribe user_id group_ids h).0
unfolding subscribe
subscribe-IsSafe user_id group_ids h s = record {
  mailboxes =
      All-append IsMailbox h.subscribers _ s.mailboxes
        (record { bounded = omega arith; permitted = tt }, tt);
  not_closed = All-append _ h.subscribers _ s.not_closed (any_fresh h.next h.closed s.issued, tt);
  issued = All-map _ _ h.closed (λ c l. omega arith) s.issued;
}

any_other :
    (a b : ℕ) (cs : List ℕ)
    → not (b == a) ≡ true
    → any (λ c. c == b) cs ≡ false
    → any (λ c. c == b) (a ∷ cs) ≡ false
unfolding any
any_other a b cs h k = ground arith

unsubscribe-IsSafe : (a : ℕ) (h : Hub) → a < h.next → IsSafe h → IsSafe (unsubscribe a h)
unfolding unsubscribe
unsubscribe-IsSafe a h l s = elim (Bool-cases (any (λ c. c == a) h.closed)) [
  | inl e ↦ rw e (record {
    mailboxes = All-filter IsMailbox _ h.subscribers s.mailboxes;
    not_closed = All-filter _ _ h.subscribers s.not_closed;
    issued = s.issued;
  })
  | inr e ↦ rw e (record {
    mailboxes = All-filter IsMailbox _ h.subscribers s.mailboxes;
    not_closed =
        All-filter_map _ _ (λ x. not (x.address == a)) h.subscribers
          (λ x n k. any_other a x.address h.closed n k) s.not_closed;
    issued = (l, s.issued);
  })
]

send-IsMailbox :
    (event : ActivityEvent) (s : Subscriber)
    → MaySee event s
    → IsMailbox s
    → IsMailbox (send event s)
unfolding send
send-IsMailbox event s v m = elim (Bool-cases (ltb (length s.events) subscriber_buffer_size)) [
  | inl e ↦ rw e (record {
    bounded = let l = length-append s.events (event ∷ []) in let lt = ltb→lt _ _ e in omega arith;
    permitted =
        All-append _ s.events _
          (All-map (λ x. MaySee x s) _ s.events
            (λ x w. record { other = w.other; member = w.member }) m.permitted)
          (record { other = v.other; member = v.member }, tt);
  })
  | inr e ↦ rw e m
]

deliver-IsMailbox :
    (event : ActivityEvent) (s : Subscriber) → IsMailbox s → IsMailbox (deliver event s)
unfolding deliver
deliver-IsMailbox event s m = elim (Bool-cases (visible event s)) [
  | inl e ↦ rw e (send-IsMailbox event s (visible-MaySee event s e) m)
  | inr e ↦ rw e m
]

publish_to-safe :
    (event : ActivityEvent) (cs : List ℕ) (ss : List Subscriber)
    → All IsMailbox ss
    → All (λ s. any (λ c. c == s.address) cs ≡ false) ss
    → All IsMailbox (publish_to event ss)
      × All (λ s. any (λ c. c == s.address) cs ≡ false) (publish_to event ss)
unfolding publish_to
publish_to-safe event cs [] m n = (tt, tt)
publish_to-safe event cs (s ∷ ss) m n =
    let (rest, rest') = publish_to-safe event cs ss m.1 n.1 in
    ((deliver-IsMailbox event s m.0, rest), (rw (address-deliver event s) n.0, rest'))

publish-IsSafe : (event : ActivityEvent) (h : Hub) → IsSafe h → IsSafe (publish event h)
unfolding publish
publish-IsSafe event h s =
    let (m, n) = publish_to-safe event h.closed h.subscribers s.mailboxes s.not_closed in
    record { mailboxes = m; not_closed = n; issued = s.issued }

abbrev after : Subscriber → Subscriber
after s = taken s (receive s)

abbrev holding : Subscriber → List ActivityEvent → Subscriber
holding s es = record s { events = es }

address-receive :
    (s : Subscriber) (es : List ActivityEvent) → (after (holding s es)).address ≡ s.address
unfolding receive
address-receive s [] = refl
address-receive s (e ∷ es) = refl

receive-IsMailbox :
    (s : Subscriber) (es : List ActivityEvent)
    → IsMailbox (holding s es)
    → IsMailbox (after (holding s es))
unfolding receive
receive-IsMailbox s [] m = m
receive-IsMailbox s (e ∷ es) m =
    let b = m.bounded in
    record {
      bounded = omega arith;
      permitted =
          All-map _ _ es (λ x w. record { other = w.other; member = w.member }) m.permitted.1;
    }

receive_at-IsSafe : (a : ℕ) (h : Hub) → IsSafe h → IsSafe (receive_at a h)
unfolding receive_at
receive_at-IsSafe a h s = record {
  mailboxes =
      All-update_where IsMailbox _ after h.subscribers (λ x m. receive-IsMailbox x x.events m)
        s.mailboxes;
  not_closed =
      All-update_where (λ x. any (λ c. c == x.address) h.closed ≡ false) _ after h.subscribers
        (λ x n. rw (address-receive x x.events) n) s.not_closed;
  issued = s.issued;
}

Step-IsSafe : {h k : Hub} → Step h k → IsSafe h → IsSafe k
Step-IsSafe (subscribes u gs e) s = subst IsSafe (sym e) (subscribe-IsSafe u gs _ s)
Step-IsSafe (unsubscribes a l e) s = subst IsSafe (sym e) (unsubscribe-IsSafe a _ l s)
Step-IsSafe (publishes event e) s = subst IsSafe (sym e) (publish-IsSafe event _ s)
Step-IsSafe (receives a e) s = subst IsSafe (sym e) (receive_at-IsSafe a _ s)

-- In every hub that subscribing, unsubscribing an issued subscriber, publishing and receiving
-- can reach from the empty one, each registered subscriber has at most 16 events waiting, each
-- by another user and in one of its groups, and its channel is not closed.
pub Reach-IsSafe : {h : Hub} → Reach h → IsSafe h
Reach-IsSafe start = record { mailboxes = tt; not_closed = tt; issued = tt }
Reach-IsSafe (and_then r t) = Step-IsSafe t (Reach-IsSafe r)
