-- ===== src/Access/Revoked/Refused.antt =====
-- What a revocation promises: none of its tokens is accepted again.
use vive_cserver.Base.{
  ℕ, String, str_eq, eq_iff, ◌≡◌, refl, subst, Bool, true, false, Option, none, some, List, [], ◌∷◌,
  arith, if_split, if_cases, Option-split, string_eq,
}
use vive_cserver.Base.Table.{Table, lookup, put}
use vive_cserver.Store.Database.{Database, DeviceRow}
use vive_cserver.Store.Context.Lookup.{is_some}
use vive_cserver.Access.Reply.{Reply, denied, granted}
use vive_cserver.Access.Devices.{Authenticated, find_token, is_stale, authenticate_device_token}
use vive_cserver.Access.Devices.Manage.{revoke_device, update_device, coalesce}
use vive_cserver.Access.Revoked.{Out, find_token-Out}
use vive_cserver.Access.Revoked.Steps.{DeviceReach, DeviceReach-Out}

-- An authentication that is not one of the device `id`
abbrev pub NotAs : String → Reply Authenticated → Type 0
NotAs id (denied e) = Unit
NotAs id (granted a) = str_eq a.device_id id ≡ false

abbrev EndsNotAs : String → Reply Authenticated × Database → Type 0
EndsNotAs id r = NotAs id r.0

authenticate-NotAs :
    (id : String) (fails touch_fails : Bool) (clock now : ℕ) (token_hash : List ℕ) (w : Database)
    → Out id w.devices
    → EndsNotAs id (authenticate_device_token fails touch_fails clock now token_hash w)
authenticate-NotAs id fails touch_fails clock now token_hash w o =
    if_cases (EndsNotAs id) fails tt (
      Option-split (EndsNotAs id) (find_token token_hash w.devices) (λ unknown. tt)
        (λ found h.
          let other = find_token-Out id token_hash w.devices found o h in
          if_cases (EndsNotAs id) (is_stale clock found.1.last_seen_at)
            (if_cases (EndsNotAs id) touch_fails other other) other))

-- The primary key of devices
abbrev pub IsKeyed : Table String DeviceRow → Type 0
IsKeyed [] = Unit
IsKeyed ((k, device) ∷ devices) = (lookup k devices ≡ none) × IsKeyed devices

absent-Out :
    (id : String) (devices : Table String DeviceRow) → lookup id devices ≡ none → Out id devices
unfolding lookup
absent-Out id [] h = tt
absent-Out id ((k, device) ∷ devices) h =
    (ground (arith, h), absent-Out id devices (ground (arith, h)))

put-own-Out :
    (id : String) (device : DeviceRow) (devices : Table String DeviceRow)
    → IsKeyed devices
    → is_some device.revoked_at ≡ true
    → Out id (put id device devices)
unfolding put
put-own-Out id device [] keyed h = (ground (arith, h), tt)
put-own-Out id device ((k, other) ∷ devices) keyed h =
    if_split (Out id) (str_eq k id)
      (λ own. (
        ground (arith, h),
        absent-Out id devices (subst (λ j. lookup j devices ≡ none) ((eq_iff k id).0 own) keyed.0),
      ))
      (λ apart. (ground (arith, apart), put-own-Out id device devices keyed.1 h))

coalesce-some : (mark : Option ℕ) (now : ℕ) → is_some (coalesce mark now) ≡ true
coalesce-some none now = refl
coalesce-some (some t) now = refl

-- A revocation that succeeds leaves the device out.
abbrev Expels : String → Reply {0} Unit × Database → Type 0
Expels id (denied e, db) = Unit
Expels id (granted u, db) = Out id db.devices

update_device-Expels :
    (fails : Bool) (id k : String) (accepts : DeviceRow → Bool) (change : DeviceRow → DeviceRow)
    (w : Database)
    → IsKeyed w.devices
    → k ≡ id
    → ((device : DeviceRow) → is_some (change device).revoked_at ≡ true)
    → Expels id (update_device fails k accepts change w)
update_device-Expels fails id k accepts change w keyed e marks =
    subst (λ j. Expels j (update_device fails k accepts change w)) e
      (if_cases (Expels k) fails tt (
        Option-split (Expels k) (lookup k w.devices) (λ unknown. tt)
          (λ device held.
            if_cases (Expels k) (accepts device)
              {x = (granted tt, record w { devices = put k (change device) w.devices })}
              (put-own-Out k (change device) w.devices keyed (marks device)) tt)))

revoke_device-Expels :
    (parse_uuid : String → Option String) (fails : Bool) (account_id device_id id : String)
    (now : ℕ) (w : Database)
    → IsKeyed w.devices
    → parse_uuid device_id ≡ some id
    → Expels id (revoke_device parse_uuid fails account_id device_id now w)
revoke_device-Expels parse_uuid fails account_id device_id id now w keyed parsed =
    Option-split (Expels id) (parse_uuid device_id) (λ malformed. tt)
      (λ k found.
        update_device-Expels fails id k _ _ w keyed (ground (arith, found, parsed))
          (λ device. coalesce-some device.revoked_at now))

expelled :
    (id : String) (r : Reply {0} Unit × Database)
    → Expels id r
    → r.0 ≡ granted tt
    → Out id r.1.devices
expelled id (denied e, db) x h = absurd (ground (arith, h))
expelled id (granted u, db) x h = x

-- After a revocation that succeeds, no token is accepted as the device's, whatever operations on
-- devices come between, until a registration answers with the same device. The devices have
-- distinct ids before the revocation.
pub revoke_device-NotAs :
    (parse_uuid : String → Option String) (fails : Bool) (account_id device_id id : String)
    (now : ℕ) (w u : Database) (database_fails touch_fails : Bool) (clock later : ℕ)
    (token_hash : List ℕ)
    → IsKeyed w.devices
    → parse_uuid device_id ≡ some id
    → (revoke_device parse_uuid fails account_id device_id now w).0 ≡ granted tt
    → DeviceReach parse_uuid id (revoke_device parse_uuid fails account_id device_id now w).1 u
    → NotAs id (authenticate_device_token database_fails touch_fails clock later token_hash u).0
revoke_device-NotAs parse_uuid fails account_id device_id id now w u database_fails touch_fails
      clock later token_hash keyed parsed h reach =
    authenticate-NotAs id database_fails touch_fails clock later token_hash u (
      DeviceReach-Out parse_uuid id _ u reach (
        expelled id _
          (revoke_device-Expels parse_uuid fails account_id device_id id now w keyed parsed) h))
