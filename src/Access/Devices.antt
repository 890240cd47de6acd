-- ===== src/Access/Devices.antt =====
-- internal/store/devices.go: registration and authentication.
pub mod Manage
use vive_cserver.Base.{
  ℕ, ◌+◌, ◌-◌, ◌*◌, String, str_eq, Bool, true, false, not, ◌&&◌, ◌||◌, Option, none, some, List,
  [], ◌∷◌, keep, map, length, ltb, leb, sort_by, if◌then◌else◌, string_eq,
}
use vive_cserver.Base.Table.{Table, lookup, put, remove}
use vive_cserver.Store.Database.{Database, DeviceRow, bytes_eq}
use vive_cserver.Store.Context.Lookup.{is_some}
use vive_cserver.Access.Reply.{
  Reply, denied, granted, device_not_found, device_still_active, database_error,
}

-- Every operation takes `fails`: whether the database has an error of its own.
abbrev has_installation : String → DeviceRow → Bool
has_installation installation device = elim device.installation_id [
  | none ↦ false
  | some i ↦ str_eq i installation
]

-- the row that ON CONFLICT (account_id, installation_id) finds
abbrev pub on_installation : String → String → String × DeviceRow → Bool
on_installation account_id installation r =
    str_eq r.1.account_id account_id && has_installation installation r.1

unfoldable pub find_installation :
    String → Option String → Table String DeviceRow → Option (String × DeviceRow)
find_installation account_id none devices = none
find_installation account_id (some installation) [] = none
find_installation account_id (some installation) (r ∷ devices) =
    let rest = find_installation account_id (some installation) devices in
    if on_installation account_id installation r then some r else rest

-- the unique index on token_hash: another row has this token
unfoldable pub token_elsewhere : String → List ℕ → Table String DeviceRow → Bool
token_elsewhere id token_hash [] = false
token_elsewhere id token_hash ((other, device) ∷ devices) =
    (not (str_eq other id) && bytes_eq device.token_hash token_hash)
    || token_elsewhere id token_hash devices

-- what a registration writes
pub record Registration : Type 0 where
  pub account_id : String
  pub installation_id : Option String
  pub name : String
  pub platform : String
  pub token_hash : List ℕ
  pub now : ℕ

abbrev pub new_device : Registration → DeviceRow
new_device r = record {
  account_id = r.account_id;
  installation_id = r.installation_id;
  name = r.name;
  platform = r.platform;
  token_hash = r.token_hash;
  created_at = r.now;
  last_seen_at = none;
  last_pulled_seq = 0;
  revoked_at = none;
}

-- DO UPDATE SET
abbrev pub reused_device : Registration → DeviceRow → DeviceRow
reused_device r device = record device {
  name = r.name;
  platform = r.platform;
  token_hash = r.token_hash;
  last_seen_at = some r.now;
  last_pulled_seq = 0;
  revoked_at = none;
}

abbrev pub write_device : Registration → String → DeviceRow → Database → Reply String × Database
write_device r id device db =
    if token_elsewhere id r.token_hash db.devices
    then (denied database_error, db)
    else (granted id, record db { devices = put id device db.devices })

-- `fresh_id` is what gen_random_uuid gives; an id that is taken violates the primary key.
abbrev pub insert_device : Registration → String → Database → Reply String × Database
insert_device r fresh_id db =
    if is_some (lookup fresh_id db.devices)
    then (denied database_error, db)
    else write_device r fresh_id (new_device r) db

abbrev pub place_device : Registration → String → Database → Reply String × Database
place_device r fresh_id db = elim (find_installation r.account_id r.installation_id db.devices) [
  | none ↦ insert_device r fresh_id db
  | some found ↦ write_device r found.0 (reused_device r found.1) db
]

-- NULLIF($2, '')::uuid; none is a text that does not parse. `parse_uuid` is pgtype.UUID's Scan, with
-- the canonical text.
abbrev pub installation_column : (String → Option String) → String → Option (Option String)
installation_column parse_uuid installation =
    if str_eq installation ""
    then some none
    else elim (parse_uuid installation) [ none ↦ none | some i ↦ some (some i) ]

-- RegisterDevice. An account that does not exist violates the foreign key.
abbrev pub register_device :
    (String → Option String)
    → Bool
    → String
    → ℕ
    → String
    → String
    → String
    → String
    → List ℕ
    → Database
    → Reply String × Database
register_device parse_uuid fails fresh_id now account_id installation name platform token_hash db =
    if fails
    then (denied database_error, db)
    else elim (installation_column parse_uuid installation) [
      | none ↦ (denied database_error, db)
      | some column ↦ elim (lookup account_id db.accounts) [
        | none ↦ (denied database_error, db)
        | some account ↦
            place_device
              (record {
                account_id = account_id;
                installation_id = column;
                name = name;
                platform = platform;
                token_hash = token_hash;
                now = now;
              })
              fresh_id db
      ]
    ]

-- SELECT ... WHERE token_hash = $1 AND revoked_at IS NULL
abbrev pub is_live_token : List ℕ → DeviceRow → Bool
is_live_token token_hash device =
    bytes_eq device.token_hash token_hash && not (is_some device.revoked_at)

unfoldable pub find_token : List ℕ → Table String DeviceRow → Option (String × DeviceRow)
find_token token_hash [] = none
find_token token_hash (r ∷ devices) =
    let rest = find_token token_hash devices in
    if is_live_token token_hash r.1 then some r else rest

-- lastSeenRefreshInterval, five minutes in milliseconds, the unit of the times here
abbrev pub last_seen_refresh_interval : ℕ
last_seen_refresh_interval = 5 * 60 * 1000

-- last_seen_at is null or older than the interval; `clock` is the server's own clock
abbrev pub is_stale : ℕ → Option ℕ → Bool
is_stale clock none = true
is_stale clock (some t) = ltb (t + last_seen_refresh_interval) clock

-- A device that has authenticated; `recorded` is false where the error ErrLastSeenNotRecorded comes
-- with it.
pub record Authenticated : Type 0 where
  pub device_id : String
  pub account_id : String
  pub recorded : Bool

-- UPDATE devices SET last_seen_at = now() WHERE id = $1
abbrev pub touch_device : ℕ → String → Database → Database
touch_device now id db = elim (lookup id db.devices) [
  | none ↦ db
  | some device ↦ record db {
    devices = put id (record device { last_seen_at = some now }) db.devices;
  }
]

abbrev pub seen : String × DeviceRow → Bool → Authenticated
seen found recorded = record {
  device_id = found.0;
  account_id = found.1.account_id;
  recorded = recorded;
}

abbrev pub refresh_last_seen :
    Bool → ℕ → ℕ → String × DeviceRow → Database → Reply Authenticated × Database
refresh_last_seen touch_fails clock now found db =
    if is_stale clock found.1.last_seen_at
    then (if touch_fails
        then (granted (seen found false), db)
        else (granted (seen found true), touch_device now found.0 db))
    else (granted (seen found true), db)

-- AuthenticateDeviceToken
abbrev pub authenticate_device_token :
    Bool → Bool → ℕ → ℕ → List ℕ → Database → Reply Authenticated × Database
authenticate_device_token fails touch_fails clock now token_hash db =
    if fails then (denied database_error, db) else elim (find_token token_hash db.devices) [
      | none ↦ (denied device_not_found, db)
      | some found ↦ refresh_last_seen touch_fails clock now found db
    ]
