-- ===== src/Blob/Sound/Marks.antt =====
-- Pruning references, marking rows and pushing changes keep the rows sound.
use vive_cserver.Base.{
  ℕ, String, str_eq, eq_iff, ◌≡◌, sym, subst, Bool, true, not, some, arith, if◌then◌else◌, if_split,
  All, All-keep, string_eq, inl, inr,
}
use vive_cserver.Base.Table.{Table, lookup}
use vive_cserver.Sync.Fields.{Bytes}
use vive_cserver.Sync.Change.{Codec}
use vive_cserver.Sync.Engine.Checks.{PushRequest}
use vive_cserver.Push.Outcomes.{after_push, after_push-cases}
use vive_cserver.Push.References.{push-RefsStored}
use vive_cserver.Store.Database.{
  Database, AccountRow, BlobKey, BlobRow, blob_key_equality, row_key_equality,
}
use vive_cserver.Blob.Records.{
  update_blobs, mark_row, unmark_row, mark_unreferenced_blobs, prune_references_of_deleted_pages,
  reachable, page_key, is_dead,
}
use vive_cserver.Blob.Records.Totals.{
  Counted, total, total-update_blobs, update_blobs-Counted, update_blobs-All-keys,
}
use vive_cserver.Blob.Backed.{Backed, is_published}
use vive_cserver.Blob.Sound.{Charges, HasRow, RowsSound, refs-grow, update_blobs-stays}
use vive_cserver.Blob.Sweep.{prune_and_mark}

-- An UPDATE of blobs that leaves byte_count alone keeps the rows sound.
module _ (files : Table String Bytes) (f : BlobKey → BlobRow → BlobRow)
    (same : (key : BlobKey) (blob : BlobRow) → (f key blob).byte_count ≡ blob.byte_count) where
  update_blobs-RowsSound :
      (db : Database)
      → RowsSound files db
      → RowsSound files (record db { blobs = update_blobs f db.blobs })
  update_blobs-RowsSound db s = record {
    backed =
        update_blobs-All-keys (λ key. is_published key.digest files ≡ true) f db.blobs s.backed;
    counted = update_blobs-Counted f same db.blobs s.counted;
    charged = λ account_id.
        subst (λ n. Charges n (lookup account_id db.accounts))
          (sym (total-update_blobs f same account_id db.blobs)) (s.charged account_id);
    refs_stored =
        refs-grow db.blobs (update_blobs f db.blobs) db.page_blob_refs
          (λ key. update_blobs-stays f key db.blobs) s.refs_stored;
  }

mark_row-same :
    (now : ℕ) (wanted : Bool) (blob : BlobRow)
    → (mark_row now wanted blob).byte_count ≡ blob.byte_count
mark_row-same now wanted blob = ground arith

unmark_row-same :
    (wanted : Bool) (blob : BlobRow) → (unmark_row wanted blob).byte_count ≡ blob.byte_count
unmark_row-same wanted blob = ground arith

module _ (files : Table String Bytes) where
  prune-RowsSound :
      (db : Database)
      → RowsSound files db
      → RowsSound files (prune_references_of_deleted_pages db).1
  prune-RowsSound db s = record {
    backed = s.backed;
    counted = s.counted;
    charged = s.charged;
    refs_stored =
        All-keep (HasRow db.blobs) (λ ref. not (is_dead (lookup (page_key ref) db.rows)))
          db.page_blob_refs s.refs_stored;
  }

  mark-RowsSound :
      (now : ℕ) (db : Database)
      → RowsSound files db
      → RowsSound files (mark_unreferenced_blobs now db).1
  mark-RowsSound now db s =
      update_blobs-RowsSound files (λ key blob. unmark_row (reachable db key) blob)
        (λ key. unmark_row-same (reachable db key))
        (record db {
          blobs = update_blobs (λ key blob. mark_row now (reachable db key) blob) db.blobs;
        })
        (update_blobs-RowsSound files (λ key blob. mark_row now (reachable db key) blob)
          (λ key. mark_row-same now (reachable db key)) db s)

  pub prune_and_mark-RowsSound :
      (now : ℕ) (db : Database) → RowsSound files db → RowsSound files (prune_and_mark now db).1
  prune_and_mark-RowsSound now db s =
      mark-RowsSound now (prune_references_of_deleted_pages db).1 (prune-RowsSound db s)

-- A push touches neither the blobs nor what they cost.
module _ (files : Table String Bytes) (codec : Codec) (request : PushRequest) (now : ℕ)
    (prune : Bool) (db : Database) (s : RowsSound files db) where
  storage_kept :
      (account_id : String)
      → (after : Database) → (account : AccountRow) (cursor : ℕ)
      → lookup request.account_id db.accounts ≡ some account
      → lookup account_id after.accounts ≡ (
          if str_eq request.account_id account_id
          then some (record account { change_seq = cursor })
          else lookup account_id db.accounts)
      → Charges (total account_id db.blobs) (lookup account_id after.accounts)
  storage_kept account_id after account cursor found accounts = rw (accounts) (
      if_split (Charges (total account_id db.blobs)) (str_eq request.account_id account_id)
        (λ own.
          subst (Charges (total account_id db.blobs))
            (subst (λ a. lookup a db.accounts ≡ some account)
              ((eq_iff request.account_id account_id).0 own) found)
            (s.charged account_id))
        (λ other. s.charged account_id))

  pub push-RowsSound : RowsSound files (after_push codec request now prune db)
  push-RowsSound = elim (after_push-cases codec request now prune db) [
    | inl same ↦ subst (RowsSound files) (sym same) s
    | inr (answer, e, pushed) ↦
        let refs = push-RefsStored codec request now prune db s.refs_stored in
        let blobs = pushed.effect.blobs in
        subst (RowsSound files) (sym e) (record {
          backed = subst (Backed files) (sym blobs) s.backed;
          counted = subst Counted (sym blobs) s.counted;
          charged = λ account_id.
              subst
                (λ held. Charges (total account_id held) (lookup account_id answer.after.accounts))
                (sym blobs)
                (storage_kept account_id answer.after pushed.effect.account pushed.cursor
                  pushed.effect.account_found (pushed.effect.accounts account_id));
          refs_stored =
              subst (λ (after : Database). All (HasRow after.blobs) after.page_blob_refs) e refs;
        })
  ]
