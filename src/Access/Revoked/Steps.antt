-- ===== src/Access/Revoked/Steps.antt =====
-- The operations on devices as steps, and what a revocation means under all of them.
use vive_cserver.Base.{
  ℕ, String, str_eq, ◌≡◌, refl, sym, subst, Bool, true, not, Option, none, some, List, if_cases,
  Option-split, All-keep, string_eq,
}
use vive_cserver.Base.Table.{lookup, All-remove}
use vive_cserver.Store.Database.{Database}
use vive_cserver.Store.Context.Lookup.{is_some}
use vive_cserver.Store.Sequence.{record_acknowledged_seq}
use vive_cserver.Access.Devices.{authenticate_device_token, register_device}
use vive_cserver.Access.Devices.Manage.{
  rename_device, revoke_device, delete_revoked_device, delete_revoked_devices, is_revoked_of,
  coalesce,
}
use vive_cserver.Access.Revoked.{
  Out, OutAfter, Avoids, is_out, update_device-Out, authenticate-Out, acknowledged-Out,
  register_device-Leaves,
}

-- One operation on devices, of any account, that does not register the device `id` again.
pub data DeviceStep (parse_uuid : String → Option String) (id : String) (w u : Database)
    : Type 0 where
  registered :
      (fails : Bool) (fresh_id : String) (now : ℕ) (account_id installation name platform : String)
      (token_hash : List ℕ)
      → Avoids id
          (register_device parse_uuid fails fresh_id now account_id installation name platform
            token_hash w).0
      → u
        ≡ (register_device parse_uuid fails fresh_id now account_id installation name platform
            token_hash w).1
      → DeviceStep parse_uuid id w u
  authenticated :
      (fails touch_fails : Bool) (clock now : ℕ) (token_hash : List ℕ)
      → u ≡ (authenticate_device_token fails touch_fails clock now token_hash w).1
      → DeviceStep parse_uuid id w u
  acknowledged :
      (device_id : String) (cursor : ℕ)
      → u ≡ record_acknowledged_seq device_id cursor w
      → DeviceStep parse_uuid id w u
  renamed :
      (fails : Bool) (account_id device_id name : String)
      → u ≡ (rename_device parse_uuid fails account_id device_id name w).1
      → DeviceStep parse_uuid id w u
  revoked :
      (fails : Bool) (account_id device_id : String) (now : ℕ)
      → u ≡ (revoke_device parse_uuid fails account_id device_id now w).1
      → DeviceStep parse_uuid id w u
  removed :
      (fails : Bool) (account_id device_id : String)
      → u ≡ (delete_revoked_device parse_uuid fails account_id device_id w).1
      → DeviceStep parse_uuid id w u
  cleared :
      (fails : Bool) (account_id : String)
      → u ≡ (delete_revoked_devices fails account_id w).1
      → DeviceStep parse_uuid id w u

pub data DeviceReach (parse_uuid : String → Option String) (id : String) (w : Database)
    : Database → Type 0 where
  stay : DeviceReach parse_uuid id w w
  next :
      {u v : Database}
      → DeviceReach parse_uuid id w u
      → DeviceStep parse_uuid id u v
      → DeviceReach parse_uuid id w v

module _ (parse_uuid : String → Option String) (id : String) where
  rename-Out :
      (fails : Bool) (account_id device_id name : String) (w : Database)
      → Out id w.devices
      → OutAfter id (rename_device parse_uuid fails account_id device_id name w)
  rename-Out fails account_id device_id name w o =
      Option-split (OutAfter id) (parse_uuid device_id) (λ malformed. o)
        (λ k parsed. update_device-Out id fails k _ _ w (λ device out. out) o)

  coalesce-some : (mark : Option ℕ) (now : ℕ) → is_some (coalesce mark now) ≡ true
  coalesce-some none now = refl
  coalesce-some (some t) now = refl

  revoke-Out :
      (fails : Bool) (account_id device_id : String) (now : ℕ) (w : Database)
      → Out id w.devices
      → OutAfter id (revoke_device parse_uuid fails account_id device_id now w)
  revoke-Out fails account_id device_id now w o =
      Option-split (OutAfter id) (parse_uuid device_id) (λ malformed. o)
        (λ k parsed.
          update_device-Out id fails k _ _ w (λ device out. coalesce-some device.revoked_at now) o)

  remove-Out :
      (fails : Bool) (account_id device_id : String) (w : Database)
      → Out id w.devices
      → OutAfter id (delete_revoked_device parse_uuid fails account_id device_id w)
  remove-Out fails account_id device_id w o =
      Option-split (OutAfter id) (parse_uuid device_id) (λ malformed. o)
        (λ k parsed. if_cases (OutAfter id) fails o (
          Option-split (OutAfter id) (lookup k w.devices) (λ unknown. o)
            (λ device found.
              if_cases (OutAfter id) (str_eq device.account_id account_id)
                (if_cases (OutAfter id) (is_some device.revoked_at)
                  (All-remove (λ r. is_out id r ≡ true) k w.devices o) o)
                o)))

  clear-Out :
      (fails : Bool) (account_id : String) (w : Database)
      → Out id w.devices
      → OutAfter id (delete_revoked_devices fails account_id w)
  clear-Out fails account_id w o =
      if_cases (OutAfter id) fails o
        (All-keep (λ r. is_out id r ≡ true) (λ r. not (is_revoked_of account_id r)) w.devices o)

  DeviceStep-Out :
      (w u : Database) → DeviceStep parse_uuid id w u → Out id w.devices → Out id u.devices
  DeviceStep-Out w u (registered f k now a i n p t avoids e) o =
      subst (λ (d : Database). Out id d.devices) (sym e)
        (register_device-Leaves id parse_uuid f k now a i n p t w o avoids)
  DeviceStep-Out w u (authenticated f t clock now token e) o =
      subst (λ (d : Database). Out id d.devices) (sym e)
        (authenticate-Out id f t clock now token w o)
  DeviceStep-Out w u (acknowledged d cursor e) o =
      subst (λ (d : Database). Out id d.devices) (sym e) (acknowledged-Out id d cursor w o)
  DeviceStep-Out w u (renamed f a d n e) o =
      subst (λ (d : Database). Out id d.devices) (sym e) (rename-Out f a d n w o)
  DeviceStep-Out w u (revoked f a d now e) o =
      subst (λ (d : Database). Out id d.devices) (sym e) (revoke-Out f a d now w o)
  DeviceStep-Out w u (removed f a d e) o =
      subst (λ (d : Database). Out id d.devices) (sym e) (remove-Out f a d w o)
  DeviceStep-Out w u (cleared f a e) o =
      subst (λ (d : Database). Out id d.devices) (sym e) (clear-Out f a w o)

  pub DeviceReach-Out :
      (w u : Database) → DeviceReach parse_uuid id w u → Out id w.devices → Out id u.devices
  DeviceReach-Out w u stay o = o
  DeviceReach-Out w u (next r step) o = DeviceStep-Out _ u step (DeviceReach-Out w _ r o)
