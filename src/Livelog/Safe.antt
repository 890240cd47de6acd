-- ===== src/Livelog/Safe.antt =====
-- What a browser can see of the log: nothing of other accounts, no secret.
use vive_cserver.Base.{
  String, str_eq, eq_iff, ◌≡◌, Bool, true, not, ◌&&◌, ◌||◌, List, [], ◌∷◌, ◌++◌, arith, length, ltb,
  map, if_split, if_cases, All, All-append, string_eq,
}
use vive_cserver.Base.Table.{Table, All-put}
use vive_cserver.Livelog.{
  LogTexts, LogValue, nil_value, resolves_to_nil, shown, group, LogAttrs, no_attrs, attr, LogEvent,
  LogRecord, LogHandler, BoundAttribute, LogSubscriber, LogBroker, is_sensitive_attribute, redacted,
  key_parts, set_attribute, append_attribute, append_attributes, append_bound, attributes_of,
  event_of, offer_event, handle_log, subscriber_buffer_size,
}

module _ (texts : LogTexts) where
  -- The value of a sensitive key is not shown.
  abbrev pub is_hidden : String × String → Bool
  is_hidden a = not (is_sensitive_attribute texts a.0) || str_eq a.1 redacted

  abbrev pub Hidden : Table String String → Type 0
  Hidden = All λ a. is_hidden a ≡ true

  set_attribute-Hidden :
      (key value : String) (target : Table String String)
      → Hidden target
      → Hidden (set_attribute texts key value target)
  set_attribute-Hidden key value target h = if_cases Hidden (str_eq key "") h (
      if_split Hidden (is_sensitive_attribute texts key)
        (λ sensitive.
          All-put (λ a. is_hidden a ≡ true) key redacted target
            (ground (arith, sensitive, eq_iff redacted redacted)) h)
        (λ plain. All-put (λ a. is_hidden a ≡ true) key value target (ground (arith, plain)) h))

  mutual
    unfolding append_attribute

    append_attribute-Hidden :
        (groups : List String) (key : String) (value : LogValue) (target : Table String String)
        → Hidden target
        → Hidden (append_attribute texts groups key value target)
    append_attribute-Hidden groups key nil_value target h =
        if_cases Hidden (str_eq key "") h
          (set_attribute-Hidden (texts.join (key_parts groups key)) "<nil>" target h)
    append_attribute-Hidden groups key resolves_to_nil target h =
        set_attribute-Hidden (texts.join (key_parts groups key)) "<nil>" target h
    append_attribute-Hidden groups key (shown value) target h =
        set_attribute-Hidden (texts.join (key_parts groups key)) value target h
    append_attribute-Hidden groups key (group children) target h =
        append_attributes-Hidden (key_parts groups key) children target h

    append_attributes-Hidden :
        (groups : List String) (attrs : LogAttrs) (target : Table String String)
        → Hidden target
        → Hidden (append_attributes texts groups attrs target)
    append_attributes-Hidden groups no_attrs target h = h
    append_attributes-Hidden groups (attr key value rest) target h =
        append_attributes-Hidden groups rest _ (append_attribute-Hidden groups key value target h)

  append_bound-Hidden :
      (bound : List BoundAttribute) (target : Table String String)
      → Hidden target
      → Hidden (append_bound texts bound target)
  append_bound-Hidden [] target h = h
  append_bound-Hidden (b ∷ bound) target h =
      append_bound-Hidden bound _ (append_attribute-Hidden b.groups b.key b.value target h)

  attributes_of-Hidden :
      (handler : LogHandler) (logged : LogRecord) → Hidden (attributes_of texts handler logged)
  attributes_of-Hidden handler logged =
      append_attributes-Hidden handler.groups logged.attrs _
        (append_bound-Hidden handler.bound_attributes [] tt)

  -- An event that a browser of the account may see
  abbrev pub Visible : String → LogEvent → Type 0
  Visible account_id event =
      Hidden event.attributes
      × ((str_eq event.account_id "" || str_eq event.account_id account_id) ≡ true)

  -- What waits for a browser
  abbrev pub IsSafe : LogSubscriber → Type 0
  IsSafe s = All (Visible s.account_id) s.events

  offer_event-IsSafe :
      (event : LogEvent) (s : LogSubscriber)
      → Hidden event.attributes
      → IsSafe s
      → IsSafe (offer_event event s)
  offer_event-IsSafe event s hidden safe =
      if_split IsSafe
        (not (str_eq event.account_id "") && not (str_eq event.account_id s.account_id))
        (λ foreign. safe)
        (λ own.
          if_cases IsSafe (ltb (length s.events) subscriber_buffer_size)
            {x = record s { events = s.events ++ event ∷ [] }}
            (All-append (Visible s.account_id) s.events (event ∷ []) safe
              ((hidden, ground (arith, own)), tt))
            safe)

  offers-IsSafe :
      (event : LogEvent) (subscribers : List LogSubscriber)
      → Hidden event.attributes
      → All IsSafe subscribers
      → All IsSafe (map (offer_event event) subscribers)
  offers-IsSafe event [] hidden safe = safe
  offers-IsSafe event (s ∷ subscribers) hidden safe =
      (offer_event-IsSafe event s hidden safe.0, offers-IsSafe event subscribers hidden safe.1)

-- Handling a log record, with whatever attributes and groups, keeps what waits for every browser
-- safe: no event is attributed to another account than the browser's, and an attribute whose key is
-- sensitive shows no value.
pub handle_log-IsSafe :
    (texts : LogTexts) (handler : LogHandler) (logged : LogRecord) (broker : LogBroker)
    → All (IsSafe texts) broker.subscribers
    → All (IsSafe texts) (handle_log texts handler logged broker).subscribers
handle_log-IsSafe texts handler logged broker safe =
    offers-IsSafe texts (event_of texts handler logged) broker.subscribers
      (attributes_of-Hidden texts handler logged) safe
