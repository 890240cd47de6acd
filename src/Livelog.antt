-- ===== src/Livelog.antt =====
-- internal/livelog/livelog.go: the mirror of log records to the browsers that watch them.
pub mod Safe
use vive_cserver.Base.{
  ℕ, ◌+◌, String, str_eq, Bool, true, false, not, ◌&&◌, ◌||◌, Option, none, some, List, [], ◌∷◌,
  ◌++◌, length, keep, map, ltb, ◌==◌, if◌then◌else◌, string_eq,
}
use vive_cserver.Base.Table.{Table, lookup, put}

-- slog's values: the zero value, a LogValuer that resolves to it, a value with the text that it is
-- shown as, a group; the last two resolved
mutual
  pub data LogValue : Type 0 where
    nil_value : LogValue
    resolves_to_nil : LogValue
    shown : String → LogValue
    group : LogAttrs → LogValue

  pub data LogAttrs : Type 0 where
    no_attrs : LogAttrs
    attr : String → LogValue → LogAttrs → LogAttrs

-- strings.Join with ".", strings.ToLower and strings.Contains
pub record LogTexts : Type 0 where
  pub join : List String → String
  pub to_lower : String → String
  pub includes : String → String → Bool

abbrev pub sensitive_fragments : List String
sensitive_fragments =
    "password" ∷ "token" ∷ "authorization" ∷ "cookie" ∷ "secret" ∷ "database_url" ∷ []

abbrev pub includes_any : LogTexts → String → List String → Bool
includes_any texts key [] = false
includes_any texts key (fragment ∷ fragments) =
    texts.includes key fragment || includes_any texts key fragments

-- isSensitiveAttribute
abbrev pub is_sensitive_attribute : LogTexts → String → Bool
is_sensitive_attribute texts key = includes_any texts (texts.to_lower key) sensitive_fragments

abbrev pub redacted : String
redacted = "[redacted]"

-- the groups, and the key unless it is empty
abbrev pub key_parts : List String → String → List String
key_parts groups key = if str_eq key "" then groups else groups ++ key ∷ []

-- a value that is no group, under its joined key
abbrev pub set_attribute : LogTexts → String → String → Table String String → Table String String
set_attribute texts key value target =
    if str_eq key ""
    then target
    else if is_sensitive_attribute texts key
    then put key redacted target
    else put key value target

-- appendAttribute, and its loop over a group
mutual
  pub append_attribute :
      LogTexts → List String → String → LogValue → Table String String → Table String String
  append_attribute texts groups key nil_value target =
      if str_eq key ""
      then target
      else set_attribute texts (texts.join (key_parts groups key)) "<nil>" target
  append_attribute texts groups key resolves_to_nil target =
      set_attribute texts (texts.join (key_parts groups key)) "<nil>" target
  append_attribute texts groups key (shown value) target =
      set_attribute texts (texts.join (key_parts groups key)) value target
  append_attribute texts groups key (group children) target =
      append_attributes texts (key_parts groups key) children target

  pub append_attributes :
      LogTexts → List String → LogAttrs → Table String String → Table String String
  append_attributes texts groups no_attrs target = target
  append_attributes texts groups (attr key value rest) target =
      append_attributes texts groups rest (append_attribute texts groups key value target)

pub record LogEvent : Type 0 where
  pub time : ℕ
  pub level : String
  pub message : String
  pub attributes : Table String String
  pub account_id : String

pub record LogRecord : Type 0 where
  pub time : ℕ
  pub level : String
  pub message : String
  pub attrs : LogAttrs

pub record BoundAttribute : Type 0 where
  pub groups : List String
  pub key : String
  pub value : LogValue

-- Handler, without the handler downstream
pub record LogHandler : Type 0 where
  pub groups : List String
  pub bound_attributes : List BoundAttribute

abbrev pub bound_of : List String → LogAttrs → List BoundAttribute
bound_of groups no_attrs = []
bound_of groups (attr key value rest) =
    record { groups = groups; key = key; value = value } ∷ bound_of groups rest

-- Handler.WithAttrs
abbrev pub with_attrs : LogAttrs → LogHandler → LogHandler
with_attrs attrs handler = record handler {
  bound_attributes = handler.bound_attributes ++ bound_of handler.groups attrs;
}

-- Handler.WithGroup
abbrev pub with_group : String → LogHandler → LogHandler
with_group name handler = record handler { groups = key_parts handler.groups name }

abbrev pub append_bound : LogTexts → List BoundAttribute → Table String String → Table String String
append_bound texts [] target = target
append_bound texts (b ∷ bound) target =
    append_bound texts bound (append_attribute texts b.groups b.key b.value target)

abbrev pub text_or_empty : Option String → String
text_or_empty none = ""
text_or_empty (some s) = s

-- the browser-safe copy that Handle makes
abbrev pub attributes_of : LogTexts → LogHandler → LogRecord → Table String String
attributes_of texts handler logged =
    append_attributes texts handler.groups logged.attrs
      (append_bound texts handler.bound_attributes [])

abbrev pub event_of : LogTexts → LogHandler → LogRecord → LogEvent
event_of texts handler logged = record {
  time = logged.time;
  level = logged.level;
  message = logged.message;
  attributes = attributes_of texts handler logged;
  account_id = text_or_empty (lookup "account_id" (attributes_of texts handler logged));
}

abbrev pub subscriber_buffer_size : ℕ
subscriber_buffer_size = 128

-- A subscriber, with what its channel holds
pub record LogSubscriber : Type 0 where
  pub token : ℕ
  pub account_id : String
  pub events : List LogEvent

pub record LogBroker : Type 0 where
  pub subscribers : List LogSubscriber
  pub next_token : ℕ

-- Broker.Subscribe and the function that it returns
abbrev pub subscribe_log : String → LogBroker → LogBroker × ℕ
subscribe_log account_id broker = (
  record {
    subscribers =
        record { token = broker.next_token; account_id = account_id; events = [] }
        ∷ broker.subscribers;
    next_token = broker.next_token + 1;
  },
  broker.next_token,
)

abbrev pub cancel_log : ℕ → LogBroker → LogBroker
cancel_log token broker = record broker {
  subscribers = keep (λ s. not (s.token == token)) broker.subscribers;
}

-- the body of publish's loop: a full channel drops the event
abbrev pub offer_event : LogEvent → LogSubscriber → LogSubscriber
offer_event event s =
    if not (str_eq event.account_id "") && not (str_eq event.account_id s.account_id)
    then s
    else if ltb (length s.events) subscriber_buffer_size
    then record s { events = s.events ++ event ∷ [] }
    else s

-- Broker.publish
abbrev pub publish_log : LogEvent → LogBroker → LogBroker
publish_log event broker = record broker {
  subscribers = map (offer_event event) broker.subscribers;
}

-- Handler.Handle, after the handler downstream
abbrev pub handle_log : LogTexts → LogHandler → LogRecord → LogBroker → LogBroker
handle_log texts handler logged broker = publish_log (event_of texts handler logged) broker
