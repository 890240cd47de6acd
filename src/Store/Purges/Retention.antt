-- ===== src/Store/Purges/Retention.antt =====
-- How long the purge log keeps an entry.
use vive_cserver.Base.{ℕ, ◌<◌, String, ◌≡◌, Bool, true, none, some, [], ◌∷◌, keep, arith, Eq}
use vive_cserver.Base.Table.{Table, lookup}
use vive_cserver.Store.Database.{Database, PurgeKey, PurgeRow, DeviceRow, purge_key_equality}
use vive_cserver.Store.Purges.{is_awaited, awaits, prune_purges}
use vive_cserver.Base.{string_eq}

lookup-keep {ℓ κ} :
    {K : Type ℓ} {V : Type κ} ⦃e : Eq K⦄ (p : K × V → Bool) (k : K) (v : V) (t : Table K V)
    → lookup k t ≡ some v
    → p (k, v) ≡ true
    → lookup k (keep p t) ≡ some v
unfolding lookup
lookup-keep p k v [] h g = h
lookup-keep ⦃e⦄ p k v ((j, w) ∷ t) h g = ground (arith, h, g, e.beq_iff j k, lookup-keep p k v t)

is_awaited_by :
    (devices : Table String DeviceRow) (id account_id : String) (seq : ℕ) (device : DeviceRow)
    → lookup id devices ≡ some device
    → awaits account_id seq device ≡ true
    → is_awaited devices account_id seq ≡ true
unfolding lookup is_awaited
is_awaited_by [] id account_id seq device h a = cc
is_awaited_by ((j, d) ∷ devices) id account_id seq device h a =
    ground (arith, h, a, is_awaited_by devices id account_id seq device)

-- Pruning keeps a purge while an active device of its account has not acknowledged its sequence
-- value.
pub prune_purges-keeps :
    (account_id device_id : String) (db : Database) (key : PurgeKey) (purge : PurgeRow)
    (device : DeviceRow)
    → lookup key db.purges ≡ some purge
    → lookup device_id db.devices ≡ some device
    → device.account_id ≡ key.account_id
    → device.revoked_at ≡ none
    → device.last_pulled_seq < purge.change_seq
    → lookup key (prune_purges account_id db).purges ≡ some purge
unfolding prune_purges
prune_purges-keeps account_id device_id db key purge device found held same active behind =
    lookup-keep _ key purge db.purges found (
      ground (
        arith,
        is_awaited_by db.devices device_id key.account_id purge.change_seq device held (
            ground
              (arith, same, active, behind, string_eq.beq_iff device.account_id key.account_id)),
      ))
