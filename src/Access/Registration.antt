-- ===== src/Access/Registration.antt =====
-- What a registration leaves: a row of the account, live and with nothing acknowledged, and one row
-- for each installation.
use vive_cserver.Base.{
  ℕ, ◌<◌, String, eq_iff, ◌≡◌, refl, sym, subst, Bool, Option, none, some, List, [], ◌∷◌, arith,
  if_cases, Option-split, string_eq,
}
use vive_cserver.Base.Table.{Table, lookup, lookup-put}
use vive_cserver.Store.Database.{Database, DeviceRow, PurgeKey, PurgeRow, purge_key_equality}
use vive_cserver.Store.Context.Lookup.{is_some}
use vive_cserver.Store.Purges.{prune_purges}
use vive_cserver.Store.Purges.Retention.{prune_purges-keeps}
use vive_cserver.Access.Reply.{Reply, denied, granted}
use vive_cserver.Access.Devices.{
  Registration, register_device, place_device, write_device, new_device, reused_device,
  find_installation, installation_column, token_elsewhere,
}

find_installation-own :
    (account_id : String) (installation : Option String) (devices : Table String DeviceRow)
    (found : String × DeviceRow)
    → find_installation account_id installation devices ≡ some found
    → found.1.account_id ≡ account_id
unfolding find_installation
find_installation-own account_id none devices found h = ground (arith, h)
find_installation-own account_id (some i) [] found h = ground (arith, h)
find_installation-own account_id (some i) (r ∷ devices) found h = ground (
  arith,
  h,
  eq_iff r.1.account_id account_id,
  find_installation-own account_id (some i) devices found,
)

-- the row that a successful registration leaves under the id it answers with
pub record Registered (account_id : String) (token_hash : List ℕ) (id : String)
    (before after : Database) : Type 0 where
  pub device : DeviceRow
  pub found : lookup id after.devices ≡ some device
  pub owner : device.account_id ≡ account_id
  pub token : device.token_hash ≡ token_hash
  pub live : device.revoked_at ≡ none
  pub unread : device.last_pulled_seq ≡ 0
  pub purges : after.purges ≡ before.purges

module _ (account_id : String) (token_hash : List ℕ) (db : Database) where
  abbrev pub Registers : Reply String × Database → Type 0
  Registers (denied e, after) = after ≡ db
  Registers (granted id, after) = Registered account_id token_hash id db after

  write_device-Registers :
      (r : Registration) (id : String) (device : DeviceRow)
      → device.account_id ≡ account_id
      → device.token_hash ≡ token_hash
      → device.revoked_at ≡ none
      → device.last_pulled_seq ≡ 0
      → Registers (write_device r id device db)
  write_device-Registers r id device owner token live unread =
      if_cases Registers (token_elsewhere id r.token_hash db.devices) refl (record {
        device = device;
        found = ground (arith, lookup-put id id device db.devices, eq_iff id id);
        owner = owner;
        token = token;
        live = live;
        unread = unread;
        purges = refl;
      })

  place_device-Registers :
      (r : Registration) (fresh_id : String)
      → r.account_id ≡ account_id
      → r.token_hash ≡ token_hash
      → Registers (place_device r fresh_id db)
  place_device-Registers r fresh_id owner token =
      Option-split Registers (find_installation r.account_id r.installation_id db.devices)
        (λ fresh.
          if_cases Registers (is_some (lookup fresh_id db.devices)) refl
            (write_device-Registers r fresh_id (new_device r) owner token refl refl))
        (λ found h.
          write_device-Registers r found.0 (reused_device r found.1)
            (ground (
              arith,
              owner,
              find_installation-own r.account_id r.installation_id db.devices found h,
            ))
            token refl refl)

  pub register_device-Registers :
      (parse_uuid : String → Option String) (fails : Bool) (fresh_id : String) (now : ℕ)
      (installation name platform : String)
      → Registers (
          register_device parse_uuid fails fresh_id now account_id installation name platform
            token_hash db)
  register_device-Registers parse_uuid fails fresh_id now installation name platform =
      if_cases Registers fails refl (
        Option-split Registers (installation_column parse_uuid installation) (λ malformed. refl)
          (λ column parsed.
            Option-split Registers (lookup account_id db.accounts) (λ unknown. refl)
              (λ account known. place_device-Registers _ fresh_id refl refl)))

answered_row :
    (account_id : String) (token_hash : List ℕ) (db : Database) (id : String)
    (r : Reply String × Database)
    → Registers account_id token_hash db r
    → r.0 ≡ granted id
    → Registered account_id token_hash id db r.1
answered_row account_id token_hash db id (denied e, after) x h = absurd (ground (arith, h))
answered_row account_id token_hash db id (granted j, after) x h =
    subst (λ k. Registered account_id token_hash k db after) (ground (arith, h)) x

-- After a registration that succeeds, new or of a known installation, pruning keeps every purge of
-- the account: the device has acknowledged nothing, so it is still told of every permanent deletion.
pub register_device-prune_purges :
    (parse_uuid : String → Option String) (fails : Bool) (fresh_id : String) (now : ℕ)
    (account_id installation name platform : String) (token_hash : List ℕ) (db : Database)
    (id pruned : String) (key : PurgeKey) (purge : PurgeRow)
    → (register_device parse_uuid fails fresh_id now account_id installation name platform
        token_hash db).0
      ≡ granted id
    → lookup key db.purges ≡ some purge
    → key.account_id ≡ account_id
    → 0 < purge.change_seq
    → lookup key
        (prune_purges pruned
          (register_device parse_uuid fails fresh_id now account_id installation name platform
            token_hash db).1).purges
      ≡ some purge
register_device-prune_purges parse_uuid fails fresh_id now account_id installation name platform
      token_hash db id pruned key purge h found own stamped =
    let row =
      answered_row account_id token_hash db id _
        (register_device-Registers account_id token_hash db parse_uuid fails fresh_id now
          installation name platform)
        h in
    prune_purges-keeps pruned id _ key purge row.device
      (subst (λ purges. lookup key purges ≡ some purge) (sym row.purges) found) row.found
      (ground (arith, row.owner, own)) row.live
      (subst (λ n. n < purge.change_seq) (sym row.unread) stamped)
