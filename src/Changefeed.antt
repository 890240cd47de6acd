-- ===== src/Changefeed.antt =====
-- internal/changefeed/changefeed.go: the hints that wake an account's connected devices.
pub mod Delivery
use vive_cserver.Base.{
  ℕ, ◌+◌, String, str_eq, Bool, true, false, not, ◌&&◌, ◌||◌, Option, none, some, List, [], ◌∷◌,
  ◌++◌, keep, map, ◌==◌, if◌then◌else◌,
}

-- Event
pub data Event : Type 0 where
  changes revoked disconnected : Event

-- One subscription. `token` is its address; `events` is the channel, whose buffer holds one event.
pub record Subscriber : Type 0 where
  pub token : ℕ
  pub account_id : String
  pub device_id : String
  pub events : Option Event

-- Broker: the subscribers, and the next address; the mutex makes each operation one step.
pub record Broker : Type 0 where
  pub subscribers : List Subscriber
  pub next_token : ℕ

-- NewBroker
abbrev pub new_broker : Broker
new_broker = record { subscribers = []; next_token = 0 }

-- Subscribe: the broker, and the token that the returned channel and cancel stand for
unfoldable pub subscribe : String → String → Broker → Broker × ℕ
subscribe account_id device_id broker = (
  record {
    subscribers =
        broker.subscribers
        ++ record {
          token = broker.next_token;
          account_id = account_id;
          device_id = device_id;
          events = none;
        }
          ∷ [];
    next_token = broker.next_token + 1;
  },
  broker.next_token,
)

-- the cancel that Subscribe returns, at its first call; a later one finds nothing
unfoldable pub cancel : ℕ → Broker → Broker
cancel token broker = record broker {
  subscribers = keep (λ s. not (s.token == token)) broker.subscribers;
}

-- Publish leaves out the author's device and the other accounts.
unfoldable pub is_woken : String → String → Subscriber → Bool
is_woken account_id excluded_device_id s =
    str_eq s.account_id account_id
    && not (not (str_eq excluded_device_id "") && str_eq s.device_id excluded_device_id)

-- A send that does not block: a full buffer keeps what it holds.
unfoldable pub offer : Event → Subscriber → Subscriber
offer event s = elim s.events [ none ↦ record s { events = some event } | some pending ↦ s ]

-- Publish
unfoldable pub publish : String → String → Broker → Broker
unfolding is_woken offer
publish account_id excluded_device_id broker = record broker {
  subscribers =
      map (λ s. if is_woken account_id excluded_device_id s then offer changes s else s)
        broker.subscribers;
}

-- deliverUrgently: drain, then send
unfoldable pub deliver_urgently : Event → Subscriber → Subscriber
deliver_urgently event s = record s { events = some event }

-- the loop of Revoke and of Disconnect
unfoldable pub deliver_to : Event → String → String → Broker → Broker
unfolding deliver_urgently
deliver_to event account_id device_id broker = record broker {
  subscribers =
      map
        (λ s.
          if str_eq s.account_id account_id && str_eq s.device_id device_id
          then deliver_urgently event s
          else s)
        broker.subscribers;
}

-- Revoke
unfoldable pub revoke : String → String → Broker → Broker
unfolding deliver_to
revoke = deliver_to revoked

-- Disconnect
unfoldable pub disconnect : String → String → Broker → Broker
unfolding deliver_to
disconnect = deliver_to disconnected

-- the subscription behind a channel and a cancel
unfoldable pub find : ℕ → List Subscriber → Option Subscriber
find token [] = none
find token (s ∷ ss) = if s.token == token then some s else find token ss

-- what waits in a subscription's channel
unfoldable pub waiting : ℕ → Broker → Option Event
unfolding find
waiting token broker = elim (find token broker.subscribers) [ none ↦ none | some s ↦ s.events ]
