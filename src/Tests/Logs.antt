-- ===== src/Tests/Logs.antt =====
-- A log record with a password and an account, and two browsers.
use vive_cserver.Base.{String, List, [], ◌∷◌, str_eq, All}
use vive_cserver.Livelog.{
  LogTexts, shown, group, no_attrs, attr, LogRecord, LogHandler, LogBroker, handle_log,
}
use vive_cserver.Livelog.Safe.{IsSafe, handle_log-IsSafe}

abbrev last_part : List String → String
last_part [] = ""
last_part (s ∷ rest) = elim rest [ [] ↦ s | r ∷ rs ↦ last_part rest ]

abbrev log_texts : LogTexts
log_texts = record { join = last_part; to_lower = λ s. s; includes = str_eq }

abbrev signed_in : LogRecord
signed_in = record {
  time = 1;
  level = "INFO";
  message = "signed in";
  attrs =
      attr "account_id" (shown "ada")
        (attr "request" (group (attr "password" (shown "swordfish") no_attrs)) no_attrs);
}

abbrev plain_handler : LogHandler
plain_handler = record { groups = []; bound_attributes = [] }

abbrev browsers : LogBroker
browsers = record {
  subscribers =
      record { token = 0; account_id = "ada"; events = [] }
      ∷ record { token = 1; account_id = "bob"; events = [] }
      ∷ [];
  next_token = 2;
}

watched_example :
    All (IsSafe log_texts) (handle_log log_texts plain_handler signed_in browsers).subscribers
watched_example = handle_log-IsSafe log_texts plain_handler signed_in browsers (tt, (tt, tt))
