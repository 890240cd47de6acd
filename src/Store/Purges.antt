-- ===== src/Store/Purges.antt =====
-- internal/store/purges.go: the log of what an account has erased for good.
pub mod Retention
use vive_cserver.Base.{
  ℕ, String, str_eq, Bool, true, false, not, ◌&&◌, ◌||◌, Option, none, some, List, [], ◌∷◌, keep,
  map, ltb, leb, ◌==◌, if◌then◌else◌, sort_by,
}
use vive_cserver.Base.Table.{Table, put}
use vive_cserver.Store.Database.{Database, PurgeKey, PurgeRow, DeviceRow, purge_key_equality}
use vive_cserver.Store.Delta.{Measures}

-- RecordPurge: INSERT ... ON CONFLICT DO UPDATE
unfoldable pub record_purge : String → String → String → ℕ → ℕ → Database → Database
record_purge account_id kind entity_id change_seq now db = record db {
  purges =
      put (record { account_id = account_id; kind = kind; entity_id = entity_id })
        (record { change_seq = change_seq; purged_at = now }) db.purges;
}

-- PurgeRow with what `purgeJSON` renders of it
pub record PurgeChange : Type 0 where
  pub kind : String
  pub id : String
  pub seq : ℕ
  pub purged_at : ℕ

abbrev pub PurgeEntry : Type 0
PurgeEntry = PurgeKey × PurgeRow

-- ORDER BY change_seq, kind, entity_id
abbrev pub purge_le : Measures → PurgeEntry → PurgeEntry → Bool
purge_le m a b =
    ltb a.1.change_seq b.1.change_seq
    || (a.1.change_seq == b.1.change_seq
        && (if str_eq a.0.kind b.0.kind
            then m.text_le a.0.entity_id b.0.entity_id
            else m.text_le a.0.kind b.0.kind))

abbrev pub purge_change : PurgeEntry → PurgeChange
purge_change entry = record {
  kind = entry.0.kind;
  id = entry.0.entity_id;
  seq = entry.1.change_seq;
  purged_at = entry.1.purged_at;
}

unfoldable pub purge_within : String → ℕ → ℕ → PurgeEntry → Bool
purge_within account_id since upper entry =
    str_eq entry.0.account_id account_id
    && (ltb since entry.1.change_seq && leb entry.1.change_seq upper)

-- SelectPurges
unfoldable pub select_purges : Measures → Database → String → ℕ → ℕ → List PurgeChange
unfolding purge_within
select_purges m db account_id since upper =
    map purge_change (sort_by (purge_le m) (keep (purge_within account_id since upper) db.purges))

-- an active device of the account that has not acknowledged the sequence value
abbrev pub awaits : String → ℕ → DeviceRow → Bool
awaits account_id seq device =
    str_eq device.account_id account_id
    && ((elim device.revoked_at [ none ↦ true | some t ↦ false ]) && ltb device.last_pulled_seq seq)

unfoldable pub is_awaited : Table String DeviceRow → String → ℕ → Bool
is_awaited [] account_id seq = false
is_awaited ((id, device) ∷ devices) account_id seq =
    awaits account_id seq device || is_awaited devices account_id seq

-- PrunePurges
unfoldable pub prune_purges : String → Database → Database
unfolding is_awaited
prune_purges account_id db = record db {
  purges =
      keep
        (λ entry. not (
          str_eq entry.0.account_id account_id
          && not (is_awaited db.devices entry.0.account_id entry.1.change_seq)))
        db.purges;
}
