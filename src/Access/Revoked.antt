-- ===== src/Access/Revoked.antt =====
-- A revoked device stays out until its installation registers again.
pub mod Steps
pub mod Refused
use vive_cserver.Base.{
  ℕ, String, str_eq, eq_iff, ◌≡◌, refl, sym, subst, Bool, true, false, not, ◌||◌, Option, none,
  some, List, [], ◌∷◌, arith, keep, if◌then◌else◌, if_split, if_cases, Option-split, All, All-keep,
  string_eq,
}
use vive_cserver.Base.Table.{Table, lookup, put, remove, All-put, All-remove, All-lookup}
use vive_cserver.Store.Database.{Database, DeviceRow}
use vive_cserver.Store.Context.Lookup.{is_some}
use vive_cserver.Store.Sequence.{record_acknowledged_seq}
use vive_cserver.Access.Reply.{Reply, denied, granted}
use vive_cserver.Access.Devices.{
  Registration, Authenticated, find_token, is_live_token, is_stale, touch_device, refresh_last_seen,
  authenticate_device_token, register_device, place_device, insert_device, write_device, new_device,
  reused_device, find_installation, installation_column, token_elsewhere,
}
use vive_cserver.Access.Devices.Manage.{
  update_device, rename_device, revoke_device, drop_device, delete_revoked_device,
  delete_revoked_devices, is_revoked_of,
}

abbrev pub is_out : String → String × DeviceRow → Bool
is_out id r = not (str_eq r.0 id) || is_some r.1.revoked_at

-- Every row of the id is revoked, if there is one.
abbrev pub Out : String → Table String DeviceRow → Type 0
Out id = All λ r. is_out id r ≡ true

abbrev pub OutAfter {ℓ} : {A : Type ℓ} → String → A × Database → Type 0
OutAfter id r = Out id r.1.devices

-- A registration that answers with another id, or not at all.
abbrev pub Avoids : String → Reply String → Type 0
Avoids id (granted other) = str_eq other id ≡ false
Avoids id (denied e) = Unit

module _ (id : String) where
  put-Out :
      (k : String) (device : DeviceRow) (devices : Table String DeviceRow)
      → is_out id (k, device) ≡ true
      → Out id devices
      → Out id (put k device devices)
  put-Out k device devices p o = All-put (λ r. is_out id r ≡ true) k device devices p o

  lookup-Out :
      (k : String) (device : DeviceRow) (devices : Table String DeviceRow)
      → lookup k devices ≡ some device
      → Out id devices
      → is_out id (k, device) ≡ true
  lookup-Out k device devices h o = All-lookup (λ r. is_out id r ≡ true) k device devices o h

  pub update_device-Out :
      (fails : Bool) (k : String) (accepts : DeviceRow → Bool) (change : DeviceRow → DeviceRow)
      (db : Database)
      → ((device : DeviceRow)
          → is_some device.revoked_at ≡ true
          → is_some (change device).revoked_at ≡ true)
      → Out id db.devices
      → OutAfter id (update_device fails k accepts change db)
  update_device-Out fails k accepts change db keeps o = if_cases (OutAfter id) fails o (
      Option-split (OutAfter id) (lookup k db.devices) (λ unknown. o)
        (λ device found.
          if_cases (OutAfter id) (accepts device)
            (put-Out k (change device) db.devices
              (ground (arith, lookup-Out k device db.devices found o, keeps device)) o)
            o))

  touch_device-Out :
      (now : ℕ) (k : String) (db : Database)
      → Out id db.devices
      → Out id (touch_device now k db).devices
  touch_device-Out now k db o =
      Option-split (λ (after : Database). Out id after.devices) (lookup k db.devices) (λ unknown. o)
        (λ device found. put-Out k _ db.devices (lookup-Out k device db.devices found o) o)

  pub authenticate-Out :
      (fails touch_fails : Bool) (clock now : ℕ) (token_hash : List ℕ) (db : Database)
      → Out id db.devices
      → OutAfter id (authenticate_device_token fails touch_fails clock now token_hash db)
  authenticate-Out fails touch_fails clock now token_hash db o = if_cases (OutAfter id) fails o (
      Option-split (OutAfter id) (find_token token_hash db.devices) (λ unknown. o)
        (λ found h.
          if_cases (OutAfter id) (is_stale clock found.1.last_seen_at)
            (if_cases (OutAfter id) touch_fails o (touch_device-Out now found.0 db o)) o))

  pub acknowledged-Out :
      (k : String) (cursor : ℕ) (db : Database)
      → Out id db.devices
      → Out id (record_acknowledged_seq k cursor db).devices
  unfolding record_acknowledged_seq
  acknowledged-Out k cursor db o =
      Option-split (λ (after : Database). Out id after.devices) (lookup k db.devices) (λ unknown. o)
        (λ device found.
          if_cases (λ (after : Database). Out id after.devices) _
            (put-Out k _ db.devices (lookup-Out k device db.devices found o) o) o)

  -- what a registration leaves, unless it answers with the id
  abbrev pub Leaves : Reply String × Database → Type 0
  Leaves r = Avoids id r.0 → Out id r.1.devices

  write_device-Leaves :
      (r : Registration) (k : String) (device : DeviceRow) (db : Database)
      → Out id db.devices
      → Leaves (write_device r k device db)
  write_device-Leaves r k device db o =
      if_cases Leaves (token_elsewhere k r.token_hash db.devices) (λ avoids. o)
        (λ avoids. put-Out k device db.devices (ground (arith, avoids)) o)

  pub register_device-Leaves :
      (parse_uuid : String → Option String) (fails : Bool) (fresh_id : String) (now : ℕ)
      (account_id installation name platform : String) (token_hash : List ℕ) (db : Database)
      → Out id db.devices
      → Leaves (
          register_device parse_uuid fails fresh_id now account_id installation name platform
            token_hash db)
  register_device-Leaves parse_uuid fails fresh_id now account_id installation name platform
        token_hash db o =
      if_cases Leaves fails (λ avoids. o)
        (Option-split Leaves (installation_column parse_uuid installation) (λ malformed avoids. o)
          (λ column parsed.
            let r : Registration = record {
              account_id = account_id;
              installation_id = column;
              name = name;
              platform = platform;
              token_hash = token_hash;
              now = now;
            } in
            Option-split Leaves (lookup account_id db.accounts) (λ unknown avoids. o)
              (λ account known.
                Option-split Leaves (find_installation account_id column db.devices)
                  (λ fresh.
                    if_cases Leaves (is_some (lookup fresh_id db.devices)) (λ avoids. o)
                      (write_device-Leaves r fresh_id (new_device r) db o))
                  (λ found h. write_device-Leaves r found.0 (reused_device r found.1) db o))))

  -- No token of the id is found.
  pub find_token-Out :
      (token_hash : List ℕ) (devices : Table String DeviceRow) (found : String × DeviceRow)
      → Out id devices
      → find_token token_hash devices ≡ some found
      → str_eq found.0 id ≡ false
  unfolding find_token
  find_token-Out token_hash [] found o h = ground (arith, h)
  find_token-Out token_hash (r ∷ devices) found o h =
      ground (arith, o.0, h, find_token-Out token_hash devices found o.1)
