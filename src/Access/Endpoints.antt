-- ===== src/Access/Endpoints.antt =====
-- internal/httpapi: the authentication middleware (authmiddleware.go), the bodies of requests
-- (request.go), and the endpoints of accounts.go and devices.go.
pub mod Devices
use vive_cserver.Base.{
  ℕ, String, str_eq, ◌++◌, Bool, true, false, not, Option, none, some, List, [], ◌∷◌, if◌then◌else◌,
}
use vive_cserver.Store.Database.{Database, AccountRow, DeviceRow}
use vive_cserver.Changefeed.{Broker, revoke, disconnect}
use vive_cserver.Blob.Upload.{AuthenticatedDevice}
use vive_cserver.Access.Reply.{
  Reply, denied, granted, device_not_found, email_taken, account_not_found, setup_already_complete,
}
use vive_cserver.Access.Credentials.{
  Texts, Checked, bad, good, normalise_email, validate_password, validate_device_name,
  validate_platform, parse_bearer_token,
}
use vive_cserver.Access.Accounts.{
  create_initial_account, find_account_by_email, update_password_hash,
}
use vive_cserver.Access.Devices.{Authenticated, authenticate_device_token, register_device}
use vive_cserver.Access.Devices.Manage.{list_devices, rename_device, revoke_device}

-- writeError
pub record ApiError : Type 0 where
  pub status : ℕ
  pub code : String
  pub message : String

pub data ApiAnswer : Type 0 where
  rejected : ApiError → ApiAnswer
  account_created : String → ApiAnswer
  -- device id, account id, token
  device_registered : String → String → String → ApiAnswer
  devices_listed : List (String × DeviceRow) → ApiAnswer
  no_content : ApiAnswer

abbrev pub invalid_request : String → ApiError
invalid_request message = record { status = 400; code = "invalid_request"; message = message }

-- writeInternalError
abbrev pub internal_failure : ApiError
internal_failure = record { status = 500; code = "internal"; message = "something went wrong" }

-- writeInvalidCredentials
abbrev pub invalid_credentials : ApiError
invalid_credentials = record {
  status = 401;
  code = "invalid_credentials";
  message = "email or password is incorrect";
}

abbrev pub unauthenticated : String → ApiError
unauthenticated message = record { status = 401; code = "unauthenticated"; message = message }

abbrev pub no_such_device : ApiError
no_such_device = record { status = 404; code = "not_found"; message = "no such device" }

-- what io.ReadAll of a bounded body gives, and what json.Unmarshal makes of a text
pub data Body : Type 0 where
  body_text : String → Body
  body_too_large : Body
  body_unreadable : Body

pub data Unmarshalled (A : Type 0) : Type 0 where
  malformed : String → Unmarshalled A
  unmarshalled : A → Unmarshalled A

pub data Demand (A : Type 0) : Type 0 where
  stop : ApiError → Demand A
  proceed : A → Demand A

abbrev parsed_demand : {A : Type 0} → Unmarshalled A → Demand A
parsed_demand (malformed message) = stop (invalid_request message)
parsed_demand (unmarshalled a) = proceed a

-- decodeJSONRequest; `malformed` carries the whole message
abbrev pub decode_json_request : {A : Type 0} → (String → Unmarshalled A) → Body → Demand A
decode_json_request unmarshal (body_text text) = parsed_demand (unmarshal text)
decode_json_request unmarshal body_too_large =
    stop
      (record { status = 413; code = "payload_too_large"; message = "request body is too large" })
decode_json_request unmarshal body_unreadable =
    stop (invalid_request "request body could not be read")

-- the identity of the caller, or the answer that ends the request
abbrev pub identified : Reply Authenticated × Database → Demand AuthenticatedDevice × Database
identified (granted a, db) =
    (proceed (record { device_id = a.device_id; account_id = a.account_id }), db)
identified (denied device_not_found, db) = (stop (unauthenticated "unknown or revoked token"), db)
identified (denied e, db) = (stop internal_failure, db)

-- requireAuthentication, up to the next handler; `hash_token` is HashDeviceToken
abbrev pub require_authentication :
    Texts
    → (String → List ℕ)
    → Bool
    → Bool
    → ℕ
    → ℕ
    → String
    → Database
    → Demand AuthenticatedDevice × Database
require_authentication texts hash_token fails touch_fails clock now header db =
    elim (parse_bearer_token texts header) [
      | none ↦ (stop (unauthenticated "a bearer token is required"), db)
      | some token ↦
          identified (authenticate_device_token fails touch_fails clock now (hash_token token) db)
    ]

pub record CreateAccountRequest : Type 0 where
  pub email : String
  pub password : String

abbrev pub signup_closed : ℕ → String → ApiError
signup_closed status message = record { status = status; code = "signup_closed"; message = message }

abbrev pub account_answer : Reply String × Database → ApiAnswer × Database
account_answer (granted id, db) = (account_created id, db)
account_answer (denied email_taken, db) =
    (rejected (signup_closed 409 "this server already has its account"), db)
account_answer (denied setup_already_complete, db) =
    (rejected (signup_closed 409 "this server already has its account"), db)
account_answer (denied e, db) = (rejected internal_failure, db)

-- The account of a request that has been read; `hash` is HashPassword, none for its error.
abbrev pub create_checked :
    (String → Option String)
    → Bool
    → String
    → ℕ
    → Checked
    → String
    → Database
    → ApiAnswer × Database
create_checked hash fails fresh_id now (bad message) password db =
    (rejected (invalid_request message), db)
create_checked hash fails fresh_id now (good email) password db =
    elim (validate_password password) [
      | some message ↦ (rejected (invalid_request message), db)
      | none ↦ elim (hash password) [
        | none ↦ (rejected internal_failure, db)
        | some hashed ↦ account_answer (create_initial_account fails fresh_id email hashed now db)
      ]
    ]

abbrev pub create_demanded :
    Texts
    → (String → Option String)
    → Bool
    → String
    → ℕ
    → Demand CreateAccountRequest
    → Database
    → ApiAnswer × Database
create_demanded texts hash fails fresh_id now (stop e) db = (rejected e, db)
create_demanded texts hash fails fresh_id now (proceed request) db =
    create_checked hash fails fresh_id now (normalise_email texts request.email) request.password db

-- handleCreateAccount
abbrev pub handle_create_account :
    Texts
    → (String → Option String)
    → (String → Unmarshalled CreateAccountRequest)
    → Bool
    → Bool
    → String
    → ℕ
    → Body
    → Database
    → ApiAnswer × Database
handle_create_account texts hash unmarshal signup_open fails fresh_id now body db =
    if signup_open
    then create_demanded texts hash fails fresh_id now (decode_json_request unmarshal body) db
    else (
      rejected (
          signup_closed 403
            "this server does not accept registrations; the operator creates accounts with the create-account command"),
      db,
    )
