-- ===== src/Access/Installations.antt =====
-- Registrations keep at most one row for each installation of an account.
use vive_cserver.Base.{
  ℕ, ◌+◌, ◌≤◌, String, str_eq, eq_iff, ◌≡◌, refl, subst, Bool, true, false, ◌&&◌, Option, none,
  some, List, [], ◌∷◌, arith, keep, length, if◌then◌else◌, if_split, if_cases, Option-split,
  Bool-cases, inl, inr, string_eq,
}
use vive_cserver.Base.Table.{Table, lookup, put}
use vive_cserver.Store.Database.{Database, DeviceRow}
use vive_cserver.Store.Context.Lookup.{is_some}
use vive_cserver.Access.Reply.{denied, database_error}
use vive_cserver.Access.Devices.{
  Registration, register_device, insert_device, write_device, new_device, reused_device,
  find_installation, installation_column, token_elsewhere, on_installation,
}
use vive_cserver.Access.Revoked.Refused.{IsKeyed}

-- how many rows an installation of an account has
abbrev pub rows_of : String → String → Table String DeviceRow → ℕ
rows_of account_id installation devices =
    length (keep (on_installation account_id installation) devices)

module _ (account_id installation : String) where
  abbrev On : String × DeviceRow → Bool
  On = on_installation account_id installation

  -- Replacing a row by one of the same installation
  rows_of-replace :
      (id : String) (old new : DeviceRow) (devices : Table String DeviceRow)
      → lookup id devices ≡ some old
      → On (id, new) ≡ On (id, old)
      → rows_of account_id installation (put id new devices)
        ≡ rows_of account_id installation devices
  unfolding lookup put
  rows_of-replace id old new [] h e = ground (arith, h)
  rows_of-replace id old new ((k, d) ∷ devices) h e =
      ground (arith, h, e, eq_iff k id, rows_of-replace id old new devices)

  -- A row with a new id
  rows_of-insert :
      (id : String) (new : DeviceRow) (devices : Table String DeviceRow)
      → lookup id devices ≡ none
      → rows_of account_id installation (put id new devices)
        ≡ rows_of account_id installation devices + (if On (id, new) then 1 else 0)
  unfolding lookup put
  rows_of-insert id new [] h = ground arith
  rows_of-insert id new ((k, d) ∷ devices) h = ground (arith, h, rows_of-insert id new devices)

  -- Where the search of a registration finds no row there is none.
  rows_of-none :
      (devices : Table String DeviceRow)
      → find_installation account_id (some installation) devices ≡ none
      → rows_of account_id installation devices ≡ 0
  unfolding find_installation
  rows_of-none [] h = refl
  rows_of-none (r ∷ devices) h = ground (arith, h, rows_of-none devices)

found_in :
    (account_id : String) (installation : Option String) (devices : Table String DeviceRow)
    (found : String × DeviceRow)
    → IsKeyed devices
    → find_installation account_id installation devices ≡ some found
    → lookup found.0 devices ≡ some found.1
unfolding find_installation lookup
found_in account_id none devices found keyed h = ground (arith, h)
found_in account_id (some i) [] found keyed h = ground (arith, h)
found_in account_id (some i) (r ∷ devices) found keyed h =
    elim (Bool-cases (on_installation account_id i r)) [
      | inl on ↦
          let same : r ≡ found = ground (arith, h, on) in
          subst (λ (f : String × DeviceRow). lookup f.0 (r ∷ devices) ≡ some f.1) same
            (ground (arith, eq_iff r.0 r.0))
      | inr off ↦
          let rest = found_in account_id (some i) devices found keyed.1 (ground (arith, h, off)) in
          ground (arith, rest, keyed.0, eq_iff r.0 found.0)
    ]

on_parts :
    (a owner : String) (o : Option String) (i : String)
    → (str_eq a owner && elim o [ none ↦ false | some j ↦ str_eq j i ]) ≡ true
    → (a ≡ owner) × (o ≡ some i)
on_parts a owner none i h = absurd (ground (arith, h))
on_parts a owner (some j) i h = ground (arith, h, eq_iff a owner, eq_iff j i)

one_more : (x y : ℕ) (b : Bool) → x ≡ y + (if b then 1 else 0) → (b ≡ true → y ≡ 0) → y ≤ 1 → x ≤ 1
one_more x y true e zero_if h = omega (arith, e, zero_if refl)
one_more x y false e zero_if h = omega (arith, e, h)

-- An installation has at most one row after an operation if it has at most one before.
abbrev Single {ℓ} : {A : Type ℓ} → String → String → A × Database → Type 0
Single account_id installation r = rows_of account_id installation r.1.devices ≤ 1

module _ (account_id installation : String) (r : Registration) (db : Database)
    (single : rows_of account_id installation db.devices ≤ 1) where
  -- The new row is the first of its installation.
  none_before :
      find_installation r.account_id r.installation_id db.devices ≡ none
      → on_installation account_id installation ("", new_device r) ≡ true
      → rows_of account_id installation db.devices ≡ 0
  none_before none_found on =
      let (same_account, named) =
        on_parts r.account_id account_id r.installation_id installation on in
      rows_of-none account_id installation db.devices (
        subst (λ a. find_installation a (some installation) db.devices ≡ none) same_account
          (subst (λ o. find_installation r.account_id o db.devices ≡ none) named none_found))

  insert-Single :
      (fresh_id : String)
      → lookup fresh_id db.devices ≡ none
      → find_installation r.account_id r.installation_id db.devices ≡ none
      → Single account_id installation (write_device r fresh_id (new_device r) db)
  insert-Single fresh_id unused none_found =
      if_cases (Single account_id installation) (token_elsewhere fresh_id r.token_hash db.devices)
        {x = (denied database_error, db)} single
        (one_more _ _ (on_installation account_id installation (fresh_id, new_device r))
          (rows_of-insert account_id installation fresh_id (new_device r) db.devices unused)
          (none_before none_found) single)

  replace-Single :
      (found : String × DeviceRow)
      → lookup found.0 db.devices ≡ some found.1
      → Single account_id installation (write_device r found.0 (reused_device r found.1) db)
  replace-Single found held =
      if_cases (Single account_id installation) (token_elsewhere found.0 r.token_hash db.devices)
        {x = (denied database_error, db)} single
        (ground (
          arith,
          single,
          rows_of-replace account_id installation found.0 found.1 (reused_device r found.1)
              db.devices held refl,
        ))

placed-Single :
    (owner installed : String) (r : Registration) (fresh_id : String) (db : Database)
    → rows_of owner installed db.devices ≤ 1
    → find_installation r.account_id r.installation_id db.devices ≡ none
    → Single owner installed (insert_device r fresh_id db)
placed-Single owner installed r fresh_id db single none_found =
    if_split (Single owner installed) (is_some (lookup fresh_id db.devices))
      {x = (denied database_error, db)} (λ taken. single)
      (λ free. insert-Single owner installed r db single fresh_id (ground (arith, free)) none_found)

-- A registration, whatever becomes of it, keeps at most one row for an installation of an account,
-- where devices have distinct ids.
pub register_device-rows_of :
    (owner installed : String) (parse_uuid : String → Option String) (fails : Bool)
    (fresh_id : String) (now : ℕ) (account_id installation name platform : String)
    (token_hash : List ℕ) (db : Database)
    → IsKeyed db.devices
    → rows_of owner installed db.devices ≤ 1
    → rows_of owner installed
        (register_device parse_uuid fails fresh_id now account_id installation name platform
          token_hash db).1.devices
      ≤ 1
register_device-rows_of owner installed parse_uuid fails fresh_id now account_id installation name
      platform token_hash db keyed single =
    if_cases (Single owner installed) fails {x = (denied database_error, db)} single (
      Option-split (Single owner installed) (installation_column parse_uuid installation)
        (λ malformed. single)
        (λ column parsed.
          let r : Registration = record {
            account_id = account_id;
            installation_id = column;
            name = name;
            platform = platform;
            token_hash = token_hash;
            now = now;
          } in
          Option-split (Single owner installed) (lookup account_id db.accounts) (λ unknown. single)
            (λ account known.
              Option-split (Single owner installed) (find_installation account_id column db.devices)
                (λ none_found. placed-Single owner installed r fresh_id db single none_found)
                (λ found h.
                  replace-Single owner installed r db single found
                    (found_in account_id column db.devices found keyed h)))))
