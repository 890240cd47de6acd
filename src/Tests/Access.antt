-- ===== src/Tests/Access.antt =====
-- Accounts, devices and sessions: a tablet and a phone of one account, its owner's browser.
use vive_cserver.Base.{
  ◌≤◌, ◌≡◌, refl, String, str_eq, true, false, none, some, [], ◌∷◌, arith, length, if◌then◌else◌,
}
use vive_cserver.Base.Table.{lookup, put}
use vive_cserver.Store.Database.{Database, DeviceRow, PurgeKey, PurgeRow, purge_key_equality}
use vive_cserver.Store.Purges.{prune_purges}
use vive_cserver.Changefeed.{Subscriber, revoked, find, waiting}
use vive_cserver.Changefeed.Delivery.{publish_each}
use vive_cserver.Blob.Upload.{AuthenticatedDevice}
use vive_cserver.Access.Reply.{Reply}
use vive_cserver.Access.Credentials.{Texts}
use vive_cserver.Access.Accounts.{authenticate_admin_session, delete_admin_sessions_for_account}
use vive_cserver.Access.Devices.{
  authenticate_device_token, register_device, find_installation, token_elsewhere,
}
use vive_cserver.Access.Devices.Manage.{
  rename_device, revoke_device, delete_revoked_device, delete_revoked_devices,
}
use vive_cserver.Access.Endpoints.{
  body_text, Unmarshalled, unmarshalled, CreateAccountRequest, decode_json_request,
  handle_create_account,
}
use vive_cserver.Access.Endpoints.Devices.{
  ServerState, RegisterDeviceRequest, password_matches, password_mismatch, Secrets, SignInFaults,
  handle_register_device, handle_revoke_device,
}
use vive_cserver.Access.Revoked.Steps.{stay, next, renamed}
use vive_cserver.Access.Revoked.Refused.{NotAs}
use vive_cserver.Access.Registration.{register_device-prune_purges}
use vive_cserver.Access.Installations.{rows_of, register_device-rows_of}
use vive_cserver.Access.SignIn.{GuardedDemand, handle_register_device-GuardedDemand}
use vive_cserver.Access.SignOut.{
  NotOf, handle_create_account-one, delete_admin_sessions_for_account-NotOf,
}
use vive_cserver.Access.Isolation.{others, devices-others}
use vive_cserver.Access.Revocation.{handle_revoke_device-closes}
use vive_cserver.Tests.Data.{no_account, new_account}

abbrev texts : Texts
texts = record {
  trim_space = λ s. s;
  to_lower = λ s. s;
  parse_address = λ s. some s;
  parse_uuid = λ s. some s;
}

abbrev slate : DeviceRow
slate = record {
  account_id = "ada";
  installation_id = some "i1";
  name = "Slate";
  platform = "android";
  token_hash = 1 ∷ [];
  created_at = 1;
  last_seen_at = none;
  last_pulled_seq = 7;
  revoked_at = none;
}

abbrev pocket : DeviceRow
pocket = record slate { installation_id = none; token_hash = 2 ∷ []; name = "Pocket" }

abbrev purge_key : PurgeKey
purge_key = record { account_id = "ada"; kind = "notebook"; entity_id = "n0" }

abbrev purge : PurgeRow
purge = record { change_seq = 2; purged_at = 9 }

abbrev office : Database
office = record new_account {
  devices = ("d1", slate) ∷ ("d2", pocket) ∷ [];
  purges = (purge_key, purge) ∷ [];
  admin_sessions = (9 ∷ [], record { account_id = "ada"; expires_at = 50 }) ∷ [];
}

-- The revocation of the slate, and the pocket renamed after it
abbrev after_revocation : Database
after_revocation = (revoke_device texts.parse_uuid false "ada" "d1" 20 office).1

abbrev after_rename : Database
after_rename = (rename_device texts.parse_uuid false "ada" "d2" "Purse" after_revocation).1

abbrev caller : AuthenticatedDevice
caller = record { device_id = "d2"; account_id = "ada" }

abbrev stream : Subscriber
stream = record { token = 0; account_id = "ada"; device_id = "d1"; events = none }

abbrev office_state : ServerState
office_state = record { db = office; feed = record { subscribers = stream ∷ []; next_token = 1 } }

stream_example :
    (waiting 0 (
        publish_each
          (("ada", "") ∷ [])
          (handle_revoke_device texts false caller "d1" 20 office_state).1.feed)
      ≡ some revoked)
    × NotAs "d1" (authenticate_device_token false false 30 30 (1 ∷ []) after_rename).0
unfolding lookup put find
stream_example =
    handle_revoke_device-closes texts false caller "d1" "d1" 20 office_state after_rename 0 stream
      (("ada", "") ∷ []) false false 30 30 (1 ∷ []) (refl, (refl, tt)) refl refl refl refl refl
      (next stay (renamed false "ada" "d2" "Purse" refl))

-- the slate signs in again, from the installation that it has
abbrev again : Reply String × Database
again = register_device texts.parse_uuid false "d3" 40 "ada" "i1" "Slate" "android" (3 ∷ []) office

purge_kept_example : lookup purge_key (prune_purges "ada" again.1).purges ≡ some purge
unfolding lookup put find_installation token_elsewhere
purge_kept_example =
    register_device-prune_purges texts.parse_uuid false "d3" 40 "ada" "i1" "Slate" "android"
      (3 ∷ []) office "d1" "ada" purge_key purge refl refl refl (omega arith)

rows_example : rows_of "ada" "i1" again.1.devices ≤ 1
unfolding lookup
rows_example =
    register_device-rows_of "ada" "i1" texts.parse_uuid false "d3" 40 "ada" "i1" "Slate" "android"
      (3 ∷ []) office (refl, (refl, tt)) (omega arith)

others_example :
    (others "bob" (rename_device texts.parse_uuid false "bob" "d1" "Mine" office).1.devices
      ≡ others "bob" office.devices)
    × (others "bob" (revoke_device texts.parse_uuid false "bob" "d1" 20 office).1.devices
        ≡ others "bob" office.devices)
    × (others "bob" (delete_revoked_device texts.parse_uuid false "bob" "d1" office).1.devices
        ≡ others "bob" office.devices)
    × (others "bob" (delete_revoked_devices false "bob" office).1.devices
        ≡ others "bob" office.devices)
others_example = devices-others texts.parse_uuid false "bob" "d1" "Mine" 20 office

abbrev sign_in_request : RegisterDeviceRequest
sign_in_request = record {
  email = "ada@example.com";
  password = "swordfish";
  name = "Slate";
  platform = "android";
  installation_id = "";
}

abbrev secrets : Secrets
secrets = record {
  verify_password =
      λ hash password. if str_eq password "swordfish" then password_matches else password_mismatch;
  needs_rehash = λ hash. false;
  hash_password = λ password. some "hashed";
  mint_device_token = some ("vive_1", 4 ∷ []);
}

abbrev no_sign_in_faults : SignInFaults
no_sign_in_faults = record { find_fails = false; rehash_fails = false; register_fails = false }

abbrev read_sign_in : String → Unmarshalled RegisterDeviceRequest
read_sign_in text = unmarshalled sign_in_request

sign_in_example :
    GuardedDemand texts secrets no_sign_in_faults "d3" 40 office_state
      (decode_json_request read_sign_in (body_text "{}"))
      (handle_register_device texts secrets no_sign_in_faults "d3" 40 read_sign_in
        (body_text "{}")
        office_state)
sign_in_example =
    handle_register_device-GuardedDemand texts secrets no_sign_in_faults "d3" 40 read_sign_in
      (body_text "{}") office_state

abbrev read_account : String → Unmarshalled CreateAccountRequest
read_account text = unmarshalled (record { email = "ada@example.com"; password = "swordfish" })

lone_example :
    length
      (handle_create_account texts
        (λ p. some "hashed")
        read_account
        true
        false
        "a1"
        5
        (body_text "{}")
        no_account).1.accounts
    ≤ 1
lone_example =
    handle_create_account-one texts (λ p. some "hashed") read_account true false "a1" 5
      (body_text "{}") no_account (omega arith)

session_example : NotOf "ada" (
    authenticate_admin_session false
      (9 ∷ [])
      10
      (delete_admin_sessions_for_account false "ada" office).1)
session_example = delete_admin_sessions_for_account-NotOf "ada" false (9 ∷ []) 10 office
