-- ===== src/Activity/Hub/Delivery.antt =====
-- Who gets a published event.
use aftercredits_backend.Base.{
  ℕ, ◌≡◌, refl, ◌≢◌, true, Option, none, some, List, [], ◌∷◌, str_eq, str_eq_iff, any,
  if◌then◌else◌, ◌==◌, arith, ◌<◌, ◌≤◌, length, ltb, ◌++◌, Bool-cases, inl, inr, ltb→lt, ◌∙◌, false,
  Bool,
}
use aftercredits_backend.Activity.Event.{ActivityEvent}
use aftercredits_backend.Activity.Hub.{
  Subscriber, Hub, subscriber_buffer_size, visible, send, deliver, publish_to, publish,
}

-- The subscriber at an address.
unfoldable pub at : ℕ → List Subscriber → Option Subscriber
at a [] = none
at a (s ∷ ss) = if s.address == a then some s else at a ss

-- What a client may see: not its own actions, and only those of its groups.
pub record MaySee (event : ActivityEvent) (s : Subscriber) : Type 0 where
  pub other : event.actor_id ≢ s.user_id
  pub member : any (λ g. str_eq g event.group_id) s.group_ids ≡ true

pub visible-MaySee :
    (event : ActivityEvent) (s : Subscriber) → visible event s ≡ true → MaySee event s
unfolding visible
visible-MaySee event s h = ground (arith, str_eq_iff event.actor_id s.user_id)

pub address-deliver :
    (event : ActivityEvent) (s : Subscriber) → (deliver event s).address ≡ s.address
unfolding deliver
address-deliver event s = ground arith

MaySee-visible : (event : ActivityEvent) (s : Subscriber) → MaySee event s → visible event s ≡ true
unfolding visible
MaySee-visible event s m =
    let other = m.other in
    let member = m.member in ground (arith, str_eq_iff event.actor_id s.user_id)

-- What publishing an event makes of a subscriber: it is buffered last where the user may see it
-- and there is room, and else nothing changes.
pub data Published (event : ActivityEvent) (s : Subscriber) : Subscriber → Type 0 where
  buffered :
      MaySee event s
      → length s.events < subscriber_buffer_size
      → Published event s (record s { events = s.events ++ event ∷ [] })
  hidden : ¬ MaySee event s → Published event s s
  full : subscriber_buffer_size ≤ length s.events → Published event s s

deliver-Published : (event : ActivityEvent) (s : Subscriber) → Published event s (deliver event s)
unfolding deliver send
deliver-Published event s = elim (Bool-cases (visible event s)) [
  | inl v ↦
      rw v (room (ltb (length s.events) subscriber_buffer_size) refl (visible-MaySee event s v))
  | inr v ↦ rw v (hidden (λ m. (let w = MaySee-visible event s m in ground arith)))
]
  where
    room :
        (b : Bool)
        → ltb (length s.events) subscriber_buffer_size ≡ b
        → MaySee event s
        → Published event s (if b then record s { events = s.events ++ event ∷ [] } else s)
    room true e m = buffered m (ltb→lt _ _ e)
    room false e m = full (ground arith)

at-publish_to :
    (event : ActivityEvent) (a : ℕ) (ss : List Subscriber)
    → at a (publish_to event ss) ≡ elim (at a ss) [ none ↦ none | some s ↦ some (deliver event s) ]
unfolding at publish_to
at-publish_to event a [] = refl
at-publish_to event a (s ∷ ss) = ground (arith, at-publish_to event a ss, address-deliver event s)

-- After an event is published to the hub, the subscriber at an address has it last in its
-- buffer, with all else as it was, or is unchanged. It has it only if the event is by another
-- user, in one of its groups, and fewer than 16 events were waiting; it is unchanged only if its
-- user may not see the event or 16 or more events were waiting.
pub at-publish :
    (event : ActivityEvent) (a : ℕ) (h : Hub) (s : Subscriber)
    → at a h.subscribers ≡ some s
    → (s' : Subscriber) × (at a (publish event h).subscribers ≡ some s') × Published event s s'
unfolding publish
at-publish event a h s e =
    (deliver event s, at-publish_to event a h.subscribers ∙ rw e refl, deliver-Published event s)
