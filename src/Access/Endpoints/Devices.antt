-- ===== src/Access/Endpoints/Devices.antt =====
-- internal/httpapi/devices.go. The state is the database and the change feed.
use vive_cserver.Base.{ℕ, String, str_eq, Bool, not, ◌&&◌, Option, none, some, List, if◌then◌else◌}
use vive_cserver.Store.Database.{Database, AccountRow, DeviceRow}
use vive_cserver.Store.Context.Lookup.{is_some}
use vive_cserver.Changefeed.{Broker, revoke, disconnect}
use vive_cserver.Blob.Upload.{AuthenticatedDevice}
use vive_cserver.Access.Reply.{Reply, denied, granted, device_not_found, account_not_found}
use vive_cserver.Access.Credentials.{
  Texts, Checked, bad, good, normalise_email, validate_device_name, validate_platform,
}
use vive_cserver.Access.Accounts.{find_account_by_email, update_password_hash}
use vive_cserver.Access.Devices.{register_device}
use vive_cserver.Access.Devices.Manage.{list_devices, rename_device, revoke_device}
use vive_cserver.Access.Endpoints.{
  ApiAnswer, rejected, device_registered, devices_listed, no_content, invalid_request,
  internal_failure, invalid_credentials, no_such_device, Body, Unmarshalled, Demand, stop, proceed,
  decode_json_request,
}

pub record ServerState : Type 0 where
  pub db : Database
  pub feed : Broker

pub record RegisterDeviceRequest : Type 0 where
  pub email : String
  pub password : String
  pub name : String
  pub platform : String
  pub installation_id : String

-- What VerifyPassword says of a stored hash and a password.
pub data PasswordVerdict : Type 0 where
  password_matches password_mismatch hash_unusable : PasswordVerdict

-- the functions of internal/auth that use Argon2id, SHA-256 and crypto/rand; none is an error
pub record Secrets : Type 0 where
  pub verify_password : String → String → PasswordVerdict
  pub needs_rehash : String → Bool
  pub hash_password : String → Option String
  pub mint_device_token : Option (String × List ℕ)

pub record SignInFaults : Type 0 where
  pub find_fails : Bool
  pub rehash_fails : Bool
  pub register_fails : Bool

module _ (texts : Texts) (secrets : Secrets) (faults : SignInFaults) (fresh_id : String)
    (now : ℕ) where
  -- The upgrade of a weak hash; its errors are given up.
  abbrev pub upgrade_hash : String → String → AccountRow → Database → Database
  upgrade_hash account_id password account db =
      if secrets.needs_rehash account.password_hash
      then elim (secrets.hash_password password) [
        | none ↦ db
        | some upgraded ↦ (update_password_hash faults.rehash_fails account_id upgraded db).1
      ]
      else db

  abbrev registered_answer :
      String → String → Reply String × Database → Broker → ApiAnswer × ServerState
  registered_answer account_id token (denied e, db) feed =
      (rejected internal_failure, record { db = db; feed = feed })
  registered_answer account_id token (granted id, db) feed = (
    device_registered id account_id token,
    record { db = db; feed = disconnect account_id id feed },
  )

  -- what follows a right password
  abbrev pub register_verified :
      RegisterDeviceRequest → String → String → String → ServerState → ApiAnswer × ServerState
  register_verified request name platform account_id state = elim secrets.mint_device_token [
    | none ↦ (rejected internal_failure, state)
    | some minted ↦
        registered_answer account_id minted.0
          (register_device texts.parse_uuid faults.register_fails fresh_id now account_id
            (texts.trim_space request.installation_id) name platform minted.1 state.db)
          state.feed
  ]

  abbrev pub verdict_answer :
      RegisterDeviceRequest
      → String
      → String
      → String × AccountRow
      → PasswordVerdict
      → ServerState
      → ApiAnswer × ServerState
  verdict_answer request name platform found password_matches state =
      register_verified request name platform found.0
        (record state { db = upgrade_hash found.0 request.password found.1 state.db })
  verdict_answer request name platform found _ state = (rejected invalid_credentials, state)

  -- what follows the look-up of the account
  abbrev pub sign_in :
      RegisterDeviceRequest
      → String
      → String
      → Reply (String × AccountRow)
      → ServerState
      → ApiAnswer × ServerState
  sign_in request name platform (denied account_not_found) state =
      (rejected invalid_credentials, state)
  sign_in request name platform (denied e) state = (rejected internal_failure, state)
  sign_in request name platform (granted found) state =
      verdict_answer request name platform found
        (secrets.verify_password found.1.password_hash request.password) state

  -- The checks, in their order: address, name, platform, installation.
  abbrev pub register_checked :
      RegisterDeviceRequest → Checked → Checked → Checked → ServerState → ApiAnswer × ServerState
  register_checked request (bad message) name platform state =
      (rejected (invalid_request message), state)
  register_checked request (good email) (bad message) platform state =
      (rejected (invalid_request message), state)
  register_checked request (good email) (good name) (bad message) state =
      (rejected (invalid_request message), state)
  register_checked request (good email) (good name) (good platform) state =
      let installation = texts.trim_space request.installation_id in
      if not (str_eq installation "") && not (is_some (texts.parse_uuid installation))
      then (rejected (invalid_request "installationId must be a UUID"), state)
      else sign_in request name platform (find_account_by_email faults.find_fails email state.db)
          state

  abbrev pub register_demanded :
      Demand RegisterDeviceRequest → ServerState → ApiAnswer × ServerState
  register_demanded (stop e) state = (rejected e, state)
  register_demanded (proceed request) state =
      register_checked request (normalise_email texts request.email)
        (validate_device_name texts request.name) (validate_platform texts request.platform) state

  -- handleRegisterDevice
  abbrev pub handle_register_device :
      (String → Unmarshalled RegisterDeviceRequest) → Body → ServerState → ApiAnswer × ServerState
  handle_register_device unmarshal body state =
      register_demanded (decode_json_request unmarshal body) state

abbrev listed_answer : Reply (List (String × DeviceRow)) → ApiAnswer
listed_answer (granted devices) = devices_listed devices
listed_answer (denied e) = rejected internal_failure

-- handleListDevices
abbrev pub handle_list_devices : Bool → AuthenticatedDevice → ServerState → ApiAnswer
handle_list_devices fails caller state =
    listed_answer (list_devices fails caller.account_id state.db)

abbrev pub changed_answer : Reply {0} Unit × Database → Broker → Broker → ApiAnswer × ServerState
changed_answer (granted u, db) before after = (no_content, record { db = db; feed = after })
changed_answer (denied device_not_found, db) before after =
    (rejected no_such_device, record { db = db; feed = before })
changed_answer (denied e, db) before after =
    (rejected internal_failure, record { db = db; feed = before })

abbrev rename_named :
    Texts → Bool → AuthenticatedDevice → String → Checked → ServerState → ApiAnswer × ServerState
rename_named texts fails caller device_id (bad message) state =
    (rejected (invalid_request message), state)
rename_named texts fails caller device_id (good name) state =
    changed_answer (rename_device texts.parse_uuid fails caller.account_id device_id name state.db)
      state.feed state.feed

abbrev rename_demanded :
    Texts
    → Bool
    → AuthenticatedDevice
    → String
    → Demand String
    → ServerState
    → ApiAnswer × ServerState
rename_demanded texts fails caller device_id (stop e) state = (rejected e, state)
rename_demanded texts fails caller device_id (proceed name) state =
    rename_named texts fails caller device_id (validate_device_name texts name) state

-- handleRenameDevice; the request's only field is the name
abbrev pub handle_rename_device :
    Texts
    → Bool
    → AuthenticatedDevice
    → String
    → (String → Unmarshalled String)
    → Body
    → ServerState
    → ApiAnswer × ServerState
handle_rename_device texts fails caller device_id unmarshal body state =
    rename_demanded texts fails caller device_id (decode_json_request unmarshal body) state

-- handleRevokeDevice
abbrev pub handle_revoke_device :
    Texts → Bool → AuthenticatedDevice → String → ℕ → ServerState → ApiAnswer × ServerState
handle_revoke_device texts fails caller device_id now state =
    changed_answer (revoke_device texts.parse_uuid fails caller.account_id device_id now state.db)
      state.feed (revoke caller.account_id device_id state.feed)
