-- ===== src/Access/Devices/Manage.antt =====
-- internal/store/devices.go: listing, renaming, revoking and removing devices.
use vive_cserver.Base.{
  ℕ, String, str_eq, Bool, false, not, ◌&&◌, Option, none, some, List, keep, length, leb, sort_by,
  if◌then◌else◌, string_eq,
}
use vive_cserver.Base.Table.{Table, lookup, put, remove}
use vive_cserver.Store.Database.{Database, DeviceRow}
use vive_cserver.Store.Context.Lookup.{is_some}
use vive_cserver.Access.Reply.{
  Reply, denied, granted, device_not_found, device_still_active, database_error,
}

-- ListDevices
abbrev newest_first : String × DeviceRow → String × DeviceRow → Bool
newest_first a b = leb b.1.created_at a.1.created_at

abbrev pub of_account : String → String × DeviceRow → Bool
of_account account_id r = str_eq r.1.account_id account_id

abbrev pub list_devices : Bool → String → Database → Reply (List (String × DeviceRow))
list_devices fails account_id db =
    if fails
    then denied database_error
    else granted (sort_by newest_first (keep (of_account account_id) db.devices))

-- An UPDATE of the row of an id that a condition accepts; no such row is ErrDeviceNotFound.
abbrev pub update_device :
    Bool
    → String
    → (DeviceRow → Bool)
    → (DeviceRow → DeviceRow)
    → Database
    → Reply {0} Unit × Database
update_device fails id accepts change db =
    if fails then (denied database_error, db) else elim (lookup id db.devices) [
      | none ↦ (denied device_not_found, db)
      | some device ↦
          if accepts device
          then (granted tt, record db { devices = put id (change device) db.devices })
          else (denied device_not_found, db)
    ]

-- the row goes, and with it, by the foreign key's cascade, its applied_batches
abbrev pub drop_device : String → Database → Database
drop_device id db = record db {
  devices = remove id db.devices;
  applied_batches = keep (λ b. not (str_eq b.0.0 id)) db.applied_batches;
}

abbrev pub coalesce : Option ℕ → ℕ → Option ℕ
coalesce none now = some now
coalesce (some t) now = some t

module _ (parse_uuid : String → Option String) (fails : Bool) (account_id device_id : String) where
  -- RenameDevice
  abbrev pub rename_device : String → Database → Reply {0} Unit × Database
  rename_device name db = elim (parse_uuid device_id) [
    | none ↦ (denied device_not_found, db)
    | some id ↦
        update_device fails id
          (λ device. str_eq device.account_id account_id && not (is_some device.revoked_at))
          (λ device. record device { name = name }) db
  ]

  -- RevokeDevice
  abbrev pub revoke_device : ℕ → Database → Reply {0} Unit × Database
  revoke_device now db = elim (parse_uuid device_id) [
    | none ↦ (denied device_not_found, db)
    | some id ↦
        update_device fails id (λ device. str_eq device.account_id account_id)
          (λ device. record device { revoked_at = coalesce device.revoked_at now }) db
  ]

  -- DeleteRevokedDevice: the DELETE, and the second query where it removed nothing
  abbrev pub delete_revoked_device : Database → Reply {0} Unit × Database
  delete_revoked_device db = elim (parse_uuid device_id) [
    | none ↦ (denied device_not_found, db)
    | some id ↦ if fails then (denied database_error, db) else elim (lookup id db.devices) [
      | none ↦ (denied device_not_found, db)
      | some device ↦
          if str_eq device.account_id account_id
          then (if is_some device.revoked_at
              then (granted tt, drop_device id db)
              else (denied device_still_active, db))
          else (denied device_not_found, db)
    ]
  ]

-- DeleteRevokedDevices
abbrev pub is_revoked_of : String → String × DeviceRow → Bool
is_revoked_of account_id r = str_eq r.1.account_id account_id && is_some r.1.revoked_at

abbrev pub is_revoked_id : String → Table String DeviceRow → String → Bool
is_revoked_id account_id devices id = elim (lookup id devices) [
  | none ↦ false
  | some device ↦ is_revoked_of account_id (id, device)
]

abbrev pub delete_revoked_devices : Bool → String → Database → Reply ℕ × Database
delete_revoked_devices fails account_id db = if fails then (denied database_error, db) else (
  granted (length (keep (is_revoked_of account_id) db.devices)),
  record db {
    devices = keep (λ r. not (is_revoked_of account_id r)) db.devices;
    applied_batches =
        keep (λ b. not (is_revoked_id account_id db.devices b.0.0)) db.applied_batches;
  },
)
