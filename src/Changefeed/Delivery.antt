-- ===== src/Changefeed/Delivery.antt =====
-- Which hints reach which connections.
use vive_cserver.Base.{
  ℕ, String, str_eq, str_eq_refl, eq_iff, ◌≡◌, refl, ap, sym, ◌∙◌, Bool, true, false, not, ◌&&◌,
  ◌||◌, Option, none, some, List, [], ◌∷◌, map, arith, ◌==◌, if◌then◌else◌, Bool-cases, inl, inr,
}
use vive_cserver.Changefeed.{
  Event, changes, revoked, disconnected, Subscriber, Broker, publish, is_woken, offer,
  deliver_urgently, deliver_to, revoke, disconnect, find, waiting,
}

found_here :
    (token : ℕ) (x : Subscriber) (ss : List Subscriber)
    → (x.token == token) ≡ true
    → find token (x ∷ ss) ≡ some x
unfolding find
found_here token x ss e = rw (e, find) refl

found_later :
    (token : ℕ) (x : Subscriber) (ss : List Subscriber)
    → (x.token == token) ≡ false
    → find token (x ∷ ss) ≡ find token ss
unfolding find
found_later token x ss e = rw (e, find) refl

same_some : (x s : Subscriber) (o : Option Subscriber) → o ≡ some x → o ≡ some s → x ≡ s
same_some x s o h k = cc

-- An update that keeps the tokens commutes with the search for one.
find-map :
    (token : ℕ) (f : Subscriber → Subscriber) (ss : List Subscriber) (s : Subscriber)
    → ((x : Subscriber) → (f x).token ≡ x.token)
    → find token ss ≡ some s
    → find token (map f ss) ≡ some (f s)
unfolding find
find-map token f [] s k h = absurd (nobody h)
  where
    nobody : find token [] ≡ some s → ⊥
    nobody h = cc
find-map token f (x ∷ ss) s k h = elim (Bool-cases (x.token == token)) [
  | inl e ↦
      found_here token (f x) (map f ss) (ap (λ t. t == token) (k x) ∙ e)
      ∙ ap (λ (y : Subscriber). some (f y))
          (same_some x s (find token (x ∷ ss)) (found_here token x ss e) h)
  | inr e ↦
      found_later token (f x) (map f ss) (ap (λ t. t == token) (k x) ∙ e)
      ∙ find-map token f ss s k (sym (found_later token x ss e) ∙ h)
]

-- where the search finds a subscription after a publication
find-publish :
    (account_id excluded : String) (broker : Broker) (token : ℕ) (s : Subscriber)
    → find token broker.subscribers ≡ some s
    → find token (publish account_id excluded broker).subscribers
      ≡ some (if is_woken account_id excluded s then offer changes s else s)
unfolding publish
find-publish account_id excluded broker token s h =
    find-map token _ broker.subscribers s (keeps_token account_id excluded) h
  where
    keeps_token :
        (account_id excluded : String) (x : Subscriber)
        → (if is_woken account_id excluded x then offer changes x else x).token ≡ x.token
    keeps_token account_id excluded x = ground arith

-- The subscription of a revoked or a disconnected device holds that event, and no other is touched.
find-deliver_to :
    (event : Event) (account_id device_id : String) (broker : Broker) (token : ℕ) (s : Subscriber)
    → find token broker.subscribers ≡ some s
    → find token (deliver_to event account_id device_id broker).subscribers
      ≡ some (
          if str_eq s.account_id account_id && str_eq s.device_id device_id
          then deliver_urgently event s
          else s)
unfolding deliver_to
find-deliver_to event account_id device_id broker token s h =
    find-map token _ broker.subscribers s keeps_token h
  where
    keeps_token :
        (x : Subscriber)
        → (if str_eq x.account_id account_id && str_eq x.device_id device_id
            then deliver_urgently event x
            else x).token
          ≡ x.token
    keeps_token x = ground (arith, deliver_urgently)

-- publishes, one after the other: of an account, leaving out a device
abbrev pub publish_each : List (String × String) → Broker → Broker
publish_each [] broker = broker
publish_each ((account_id, excluded) ∷ rest) broker =
    publish_each rest (publish account_id excluded broker)

waiting_found :
    (token : ℕ) (broker : Broker) (s : Subscriber)
    → find token broker.subscribers ≡ some s
    → waiting token broker ≡ s.events
unfolding waiting
waiting_found token broker s h = rw (h, waiting) refl

-- The account of the subscription changes, by another device than the subscription's or by none.
abbrev pub concerns : Subscriber → String × String → Bool
concerns s (account_id, author) =
    str_eq account_id s.account_id && (str_eq author "" || not (str_eq author s.device_id))

abbrev pub concerns_any : Subscriber → List (String × String) → Bool
concerns_any s [] = false
concerns_any s (p ∷ published) = concerns s p || concerns_any s published

-- what waits for the subscription that had `held` before the publications
abbrev pub hinted : Option Event → Bool → Option Event
hinted (some event) concerned = some event
hinted none true = some changes
hinted none false = none

hinted_twice : (held : Option Event) (a b : Bool) → hinted (hinted held a) b ≡ hinted held (a || b)
hinted_twice (some event) a b = refl
hinted_twice none true true = refl
hinted_twice none true false = refl
hinted_twice none false b = refl

abbrev with_events : Subscriber → Option Event → Subscriber
with_events s held = record s { events = held }

offered :
    (s : Subscriber) (held : Option Event) (b : Bool)
    → (if b then offer changes (with_events s held) else with_events s held)
      ≡ with_events s (hinted held b)
unfolding offer
offered s none true = refl
offered s none false = refl
offered s (some event) true = refl
offered s (some event) false = refl

is_woken-concerns :
    (account_id author : String) (s : Subscriber)
    → is_woken account_id author s ≡ concerns s (account_id, author)
unfolding is_woken
is_woken-concerns account_id author s = ground (
  arith,
  eq_iff s.account_id account_id,
  eq_iff account_id s.account_id,
  eq_iff s.device_id author,
  eq_iff author s.device_id,
)

publish-hinted :
    (account_id author : String) (s : Subscriber)
    → (if is_woken account_id author s then offer changes s else s)
      ≡ with_events s (hinted s.events (concerns s (account_id, author)))
publish-hinted account_id author s =
    rw (is_woken-concerns account_id author s)
      (offered s s.events (concerns s (account_id, author)))

concerns_any-events :
    (s : Subscriber) (held : Option Event) (published : List (String × String))
    → concerns_any (with_events s held) published ≡ concerns_any s published
concerns_any-events s held [] = refl
concerns_any-events s held (p ∷ published) =
    ap (λ b. concerns s p || b) (concerns_any-events s held published)

-- Publications, however many, leave what waits in a subscription's channel; where nothing waits they
-- leave exactly one hint if one of them is of the subscription's account by another device or by
-- none, and nothing if none of them is.
pub publish_each-waiting :
    (published : List (String × String)) (broker : Broker) (token : ℕ) (s : Subscriber)
    → find token broker.subscribers ≡ some s
    → waiting token (publish_each published broker) ≡ hinted s.events (concerns_any s published)
publish_each-waiting [] broker token s h = waiting_found token broker s h ∙ nothing s.events
  where
    nothing : (held : Option Event) → held ≡ hinted held false
    nothing none = refl
    nothing (some event) = refl
publish_each-waiting ((account_id, author) ∷ rest) broker token s h =
    let held = hinted s.events (concerns s (account_id, author)) in
    publish_each-waiting rest (publish account_id author broker) token (with_events s held) (
      find-publish account_id author broker token s h
      ∙ ap some (publish-hinted account_id author s))
    ∙ ap (hinted held) (concerns_any-events s held rest)
    ∙ hinted_twice s.events (concerns s (account_id, author)) (concerns_any s rest)

-- The search finds a subscription with this event waiting, whatever is published next.
held_through :
    (published : List (String × String)) (broker : Broker) (token : ℕ) (s : Subscriber)
    (event : Event)
    → find token broker.subscribers ≡ some s
    → s.events ≡ some event
    → waiting token (publish_each published broker) ≡ some event
unfolding offer
held_through [] broker token s event h e = waiting_found token broker s h ∙ e
held_through ((account_id, excluded) ∷ rest) broker token s event h e =
    held_through rest (publish account_id excluded broker) token _ event
      (find-publish account_id excluded broker token s h)
      (still_held (is_woken account_id excluded s))
  where
    still_held : (b : Bool) → (if b then offer changes s else s).events ≡ some event
    still_held true = rw (e, offer) e
    still_held false = e

-- A device whose credential is revoked finds `revoked` in its channel, whatever waited there before
-- and however many changes are published before it looks.
pub revoke-waiting :
    (account_id device_id : String) (broker : Broker) (token : ℕ) (s : Subscriber)
    (published : List (String × String))
    → find token broker.subscribers ≡ some s
    → s.account_id ≡ account_id
    → s.device_id ≡ device_id
    → waiting token (publish_each published (revoke account_id device_id broker)) ≡ some revoked
unfolding revoke
revoke-waiting account_id device_id broker token s published h a d =
    held_through published (revoke account_id device_id broker) token _ revoked
      (find-deliver_to revoked account_id device_id broker token s h)
      (ground (arith, a, d, str_eq_refl account_id, str_eq_refl device_id, deliver_urgently))

-- Events of one device reach no subscription of another account or device: what waits there stays.
pub disconnect-isolated :
    (account_id device_id : String) (broker : Broker) (token : ℕ) (s : Subscriber)
    → find token broker.subscribers ≡ some s
    → (str_eq s.account_id account_id && str_eq s.device_id device_id) ≡ false
    → waiting token (disconnect account_id device_id broker) ≡ waiting token broker
unfolding disconnect
disconnect-isolated account_id device_id broker token s h other =
    waiting_found token (disconnect account_id device_id broker) _
      (find-deliver_to disconnected account_id device_id broker token s h)
    ∙ ap (λ b. (if b then deliver_urgently disconnected s else s).events) other
    ∙ sym (waiting_found token broker s h)
