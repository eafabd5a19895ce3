-- ===== src/Activity/Hub.antt =====
-- internal/activity/hub.go. A subscriber is known by its address, a number here; its channel is the
-- list of the events in its buffer, oldest first. The lock makes each method one step.
pub mod Delivery
pub mod Safety
use aftercredits_backend.Base.{
  ℕ, suc, ◌+◌, Bool, true, false, not, ◌&&◌, Option, none, some, List, [], ◌∷◌, ◌++◌, Str, str_eq,
  any, filter, update_where, length, ltb, if◌then◌else◌, ◌==◌,
}
use aftercredits_backend.Activity.Event.{ActivityEvent}

-- subscriberBufferSize
abbrev pub subscriber_buffer_size : ℕ
subscriber_buffer_size = 16

pub record Subscriber : Type 0 where
  pub address : ℕ
  pub user_id : Str
  pub group_ids : List Str
  pub events : List ActivityEvent

-- `next` is the address of the next subscriber; `closed` lists those whose channel is closed.
pub record Hub : Type 0 where
  pub subscribers : List Subscriber
  pub next : ℕ
  pub closed : List ℕ

abbrev pub new_hub : Hub
new_hub = record { subscribers = []; next = 0; closed = [] }

unfoldable pub subscribe : Str → List Str → Hub → Hub × ℕ
subscribe user_id group_ids h = (
  record h {
    subscribers =
        h.subscribers
        ++ record { address = h.next; user_id = user_id; group_ids = group_ids; events = [] } ∷ [];
    next = suc h.next;
  },
  h.next,
)

-- closeOnce: a second call does not close again.
unfoldable pub unsubscribe : ℕ → Hub → Hub
unsubscribe a h = record h {
  subscribers = filter (λ s. not (s.address == a)) h.subscribers;
  closed = if any (λ c. c == a) h.closed then h.closed else a ∷ h.closed;
}

unfoldable pub subscriber_count : Hub → ℕ
subscriber_count h = length h.subscribers

unfoldable pub visible : ActivityEvent → Subscriber → Bool
visible event s =
    if str_eq event.actor_id s.user_id
    then false
    else any (λ g. str_eq g event.group_id) s.group_ids

-- A send that never blocks: to a full channel it is dropped.
unfoldable pub send : ActivityEvent → Subscriber → Subscriber
send event s =
    if ltb (length s.events) subscriber_buffer_size
    then record s { events = s.events ++ event ∷ [] }
    else s

unfoldable pub deliver : ActivityEvent → Subscriber → Subscriber
unfolding visible send
deliver event s = if not (visible event s) then s else send event s

unfoldable pub publish_to : ActivityEvent → List Subscriber → List Subscriber
unfolding deliver
publish_to event [] = []
publish_to event (s ∷ subscribers) = deliver event s ∷ publish_to event subscribers

unfoldable pub publish : ActivityEvent → Hub → Hub
unfolding publish_to
publish event h = record h { subscribers = publish_to event h.subscribers }

-- The handler of the stream takes the oldest event off its channel.
unfoldable pub receive : Subscriber → Option (ActivityEvent × Subscriber)
receive s = elim s.events [ [] ↦ none | event ∷ rest ↦ some (event, record s { events = rest }) ]

abbrev pub taken : Subscriber → Option (ActivityEvent × Subscriber) → Subscriber
taken s none = s
taken s (some (event, s')) = s'

-- What the hub's callers do: the handlers subscribe, take events and unsubscribe, with an address
-- that they were given; the listen loop publishes.
unfoldable pub receive_at : ℕ → Hub → Hub
unfolding receive
receive_at a h = record h {
  subscribers = update_where (λ s. s.address == a) (λ s. taken s (receive s)) h.subscribers;
}
