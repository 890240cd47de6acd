-- ===== src/Access/Isolation.antt =====
-- What one account does to devices leaves the devices of the others.
use vive_cserver.Base.{
  ℕ, String, str_eq, eq_iff, ◌≡◌, refl, Bool, true, not, ◌&&◌, Option, some, [], ◌∷◌, arith, keep,
  if_split, if_cases, Option-split, string_eq,
}
use vive_cserver.Base.Table.{Table, lookup, put, remove}
use vive_cserver.Store.Database.{Database, DeviceRow}
use vive_cserver.Store.Context.Lookup.{is_some}
use vive_cserver.Access.Devices.Manage.{
  of_account, update_device, rename_device, revoke_device, delete_revoked_device,
  delete_revoked_devices, is_revoked_of,
}

-- the devices of the other accounts
abbrev pub others : String → Table String DeviceRow → Table String DeviceRow
others account_id = keep λ r. not (of_account account_id r)

others-put :
    (account_id id : String) (old new : DeviceRow) (devices : Table String DeviceRow)
    → lookup id devices ≡ some old
    → str_eq old.account_id account_id ≡ true
    → str_eq new.account_id account_id ≡ true
    → others account_id (put id new devices) ≡ others account_id devices
unfolding lookup put
others-put account_id id old new [] h a b = ground (arith, h)
others-put account_id id old new ((k, d) ∷ devices) h a b =
    ground (arith, h, a, b, eq_iff k id, others-put account_id id old new devices)

others-remove :
    (account_id id : String) (old : DeviceRow) (devices : Table String DeviceRow)
    → lookup id devices ≡ some old
    → str_eq old.account_id account_id ≡ true
    → others account_id (remove id devices) ≡ others account_id devices
unfolding lookup remove
others-remove account_id id old [] h a = ground (arith, h)
others-remove account_id id old ((k, d) ∷ devices) h a =
    ground (arith, h, a, eq_iff k id, others-remove account_id id old devices)

others-clear :
    (account_id : String) (devices : Table String DeviceRow)
    → others account_id (keep (λ r. not (is_revoked_of account_id r)) devices)
      ≡ others account_id devices
others-clear account_id [] = refl
others-clear account_id (r ∷ devices) = ground (arith, others-clear account_id devices)

module _ (account_id : String) (db : Database) where
  abbrev Apart {ℓ} : {A : Type ℓ} → A × Database → Type 0
  Apart r = others account_id r.1.devices ≡ others account_id db.devices

  update_device-Apart :
      (fails : Bool) (id : String) (accepts : DeviceRow → Bool) (change : DeviceRow → DeviceRow)
      → ((device : DeviceRow) → accepts device ≡ true → str_eq device.account_id account_id ≡ true)
      → ((device : DeviceRow) → (change device).account_id ≡ device.account_id)
      → Apart (update_device fails id accepts change db)
  update_device-Apart fails id accepts change own same = if_cases Apart fails refl (
      Option-split Apart (lookup id db.devices) (λ unknown. refl)
        (λ device found.
          if_split Apart (accepts device)
            (λ accepted.
              others-put account_id id device (change device) db.devices found (own device accepted)
                (ground (arith, own device accepted, same device)))
            (λ refused. refl)))

  delete_revoked_device-Apart :
      (parse_uuid : String → Option String) (fails : Bool) (device_id : String)
      → Apart (delete_revoked_device parse_uuid fails account_id device_id db)
  delete_revoked_device-Apart parse_uuid fails device_id =
      Option-split Apart (parse_uuid device_id) (λ malformed. refl)
        (λ id parsed. if_cases Apart fails refl (
          Option-split Apart (lookup id db.devices) (λ unknown. refl)
            (λ device found.
              if_split Apart (str_eq device.account_id account_id)
                (λ own.
                  if_cases Apart (is_some device.revoked_at)
                    (others-remove account_id id device db.devices found own) refl)
                (λ foreign. refl))))

both : (a b : Bool) → (a && b) ≡ true → a ≡ true
both a b h = ground (arith, h)

-- Renaming, revoking and removing devices for an account, of whatever id and whatever comes of it,
-- leave the rows of the devices of all other accounts as they are and in their order.
pub devices-others :
    (parse_uuid : String → Option String) (fails : Bool) (account_id device_id name : String)
    (now : ℕ) (db : Database)
    → (others account_id (rename_device parse_uuid fails account_id device_id name db).1.devices
        ≡ others account_id db.devices)
      × (others account_id (revoke_device parse_uuid fails account_id device_id now db).1.devices
          ≡ others account_id db.devices)
      × (others account_id
            (delete_revoked_device parse_uuid fails account_id device_id db).1.devices
          ≡ others account_id db.devices)
      × (others account_id (delete_revoked_devices fails account_id db).1.devices
          ≡ others account_id db.devices)
devices-others parse_uuid fails account_id device_id name now db = (
  Option-split (Apart account_id db) (parse_uuid device_id) (λ malformed. refl)
      (λ id parsed.
        update_device-Apart account_id db fails id _ _ (λ device. both _ _) (λ device. refl)),
  Option-split (Apart account_id db) (parse_uuid device_id) (λ malformed. refl)
      (λ id parsed.
        update_device-Apart account_id db fails id _ _ (λ device own. own) (λ device. refl)),
  delete_revoked_device-Apart account_id db parse_uuid fails device_id,
  if_cases (Apart account_id db) fails refl (others-clear account_id db.devices),
)
