-- ===== src/Services/Activity/Mailbox.antt =====
-- What a subscription gets of the events that are published.
use mathlib.Core.List.{append_assoc, append-nil}
use aftercredits_backend.Base.{
  suc, ℕ, ◌≡◌, refl, sym, ap, ◌∙◌, Bool, true, not, ◌&&◌, inl, inr, Bool-cases, List, [], ◌∷◌, ◌++◌,
  map, Str, str_eq, str_eq_iff, any, filter, arith, ◌+◌, ◌<◌, ◌≤◌, length, ltb, length-append,
  if◌then◌else◌,
}
use aftercredits_backend.Database.Exec.{EventRow, GroupRow, MemberRow, Tables}
use aftercredits_backend.Database.Users.{group_ids_of, member}
use aftercredits_backend.Database.Activity.{visible_to, pushed_row}
use aftercredits_backend.Activity.Event.{ActivityEvent}
use aftercredits_backend.Activity.Hub.{
  Hub, Subscriber, subscriber_buffer_size, visible, send, deliver, publish_to, publish,
}
use aftercredits_backend.Postgres.Activity.{activity_event_row_to_model}

abbrev live : Str → List GroupRow → Bool
live id groups = any (λ g. str_eq g.id id && not g.deleted) groups

in_groups :
    (user_id group_id : Str) (groups : List GroupRow) (ms : List MemberRow)
    → any
        (λ g. str_eq g group_id)
        (map
          (λ m. m.group_id)
          (filter (λ m. str_eq m.user_id user_id && live m.group_id groups) ms))
      ≡ (any (member group_id user_id) ms && live group_id groups)
unfolding any filter member
in_groups user_id group_id groups [] = refl
in_groups user_id group_id groups (m ∷ ms) = elim (Bool-cases (str_eq m.group_id group_id)) [
  | inl e ↦
      (let q = ap (λ x. live x groups) ((str_eq_iff m.group_id group_id).0 e) in
        ground (arith, in_groups user_id group_id groups ms))
  | inr e ↦ ground (arith, in_groups user_id group_id groups ms)
]

-- The subscription of a user: with an address, and nothing waiting.
abbrev pub subscription : ℕ → Str → Tables → Subscriber
subscription address user_id t = record {
  address = address;
  user_id = user_id;
  group_ids = group_ids_of user_id t;
  events = [];
}

visible-visible_to :
    (address : ℕ) (user_id : Str) (t : Tables) (e : EventRow)
    → visible (activity_event_row_to_model (pushed_row t e)) (subscription address user_id t)
      ≡ visible_to user_id t e
unfolding visible activity_event_row_to_model group_ids_of visible_to
visible-visible_to address user_id t e =
    let same_groups = in_groups user_id e.group_id t.groups t.group_members in ground arith

-- What the listener publishes of a logged event.
abbrev pub event_of : Tables → EventRow → ActivityEvent
event_of t e = activity_event_row_to_model (pushed_row t e)

-- The hub after the logged events were published in turn.
unfoldable pub publish_rows : Tables → List EventRow → Hub → Hub
publish_rows t [] h = h
publish_rows t (e ∷ es) h = publish_rows t es (publish (event_of t e) h)

-- The subscription with these events waiting.
abbrev pub mailbox : ℕ → Str → Tables → List ActivityEvent → Subscriber
mailbox address user_id t events = record (subscription address user_id t) { events = events }

publish_to-append :
    (event : ActivityEvent) (ss : List Subscriber) (s : Subscriber)
    → publish_to event (ss ++ s ∷ []) ≡ publish_to event ss ++ deliver event s ∷ []
unfolding publish_to
publish_to-append event [] s = refl
publish_to-append event (x ∷ ss) s = ap (λ xs. deliver event x ∷ xs) (publish_to-append event ss s)

module _ (address : ℕ) (user_id : Str) (t : Tables) where
  visible-mailbox :
      (e : EventRow) (events : List ActivityEvent)
      → visible (event_of t e) (mailbox address user_id t events) ≡ visible_to user_id t e
  unfolding visible
  visible-mailbox e events = visible-visible_to address user_id t e

  deliver-mailbox :
      (e : EventRow) (events : List ActivityEvent)
      → (visible_to user_id t e ≡ true → length events < subscriber_buffer_size)
      → deliver (event_of t e) (mailbox address user_id t events) ≡ (
          if visible_to user_id t e
          then mailbox address user_id t (events ++ event_of t e ∷ [])
          else mailbox address user_id t events)
  unfolding deliver send
  deliver-mailbox e events room = elim (Bool-cases (visible_to user_id t e)) [
    | inl v ↦
        (let some_room = room v in
          let fits : ltb (length events) subscriber_buffer_size ≡ true = ground arith in
          rw (visible-mailbox e events, v, fits) refl)
    | inr v ↦ rw (visible-mailbox e events, v) refl
  ]

  pub delivered :
      (es : List EventRow) (events : List ActivityEvent) (h h' : Hub)
      → h'.subscribers ≡ h.subscribers ++ mailbox address user_id t events ∷ []
      → length events + length (filter (visible_to user_id t) es) ≤ subscriber_buffer_size
      → (publish_rows t es h').subscribers
        ≡ (publish_rows t es h).subscribers
          ++ mailbox address user_id t
              (events ++ map (event_of t) (filter (visible_to user_id t) es))
            ∷ []
  unfolding publish_rows filter publish
  delivered [] events h h' e l =
      e ∙ ap (λ xs. h.subscribers ++ mailbox address user_id t xs ∷ []) (sym (append-nil events))
  delivered (x ∷ es) events h h' e l =
      let ev = event_of t x in
      let published = ap (publish_to ev) e ∙ publish_to-append ev h.subscribers _ in
      elim (Bool-cases (visible_to user_id t x)) [
        | inl v ↦
            (let n : length (filter (visible_to user_id t) (x ∷ es))
                  ≡ suc (length (filter (visible_to user_id t) es)) =
                rw v refl in
              let len = length-append events (ev ∷ []) in
              let room : length (events ++ ev ∷ []) + length (filter (visible_to user_id t) es)
                  ≤ subscriber_buffer_size =
                omega arith in
              let one_more : deliver ev (mailbox address user_id t events)
                  ≡ mailbox address user_id t (events ++ ev ∷ []) =
                deliver-mailbox x events (λ q. omega arith) ∙ rw v refl in
              rw v (
                delivered es (events ++ ev ∷ []) (publish ev h) (publish ev h')
                  (published ∙ ap (λ s. publish_to ev h.subscribers ++ s ∷ []) one_more) room
                ∙ ap
                    (λ xs.
                      (publish_rows t es (publish ev h)).subscribers
                      ++ mailbox address user_id t xs ∷ [])
                    (append_assoc events (ev ∷ []) _)))
        | inr v ↦
            (let n : length (filter (visible_to user_id t) (x ∷ es))
                  ≡ length (filter (visible_to user_id t) es) =
                rw v refl in
              let room : length events + length (filter (visible_to user_id t) es)
                  ≤ subscriber_buffer_size =
                omega arith in
              let unchanged : deliver ev (mailbox address user_id t events)
                  ≡ mailbox address user_id t events =
                deliver-mailbox x events (λ q. absurd (ground arith)) ∙ rw v refl in
              rw v (
                delivered es events (publish ev h) (publish ev h')
                  (published ∙ ap (λ s. publish_to ev h.subscribers ++ s ∷ []) unchanged) room))
      ]
