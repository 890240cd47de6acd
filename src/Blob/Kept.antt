-- ===== src/Blob/Kept.antt =====
-- What a pass of the sweeper leaves alone: rows that something still wants, and rows whose mark is
-- not older than the retention.
pub mod Passes
use vive_cserver.Base.{
  ℕ, ◌+◌, ◌≤◌, String, str_eq, eq_iff, ◌≡◌, refl, sym, subst, ◌∙◌, Bool, true, false, not, Option,
  none, some, List, [], ◌∷◌, arith, ltb, if◌then◌else◌, if_split, if_cases, Bool-split, Bool-cases,
  Option-split, keep, inl, inr, string_eq, All,
}
use vive_cserver.Base.Table.{Table, lookup, remove, lookup-remove-other}
use vive_cserver.Sync.Kind.{RowKey}
use vive_cserver.Sync.Text.{validate_digest}
use vive_cserver.Sync.Fields.{Bytes}
use vive_cserver.Sync.Change.{Codec}
use vive_cserver.Store.Database.{
  Database, StoredRow, BlobKey, BlobRow, BlobRef, blob_key_eq, blob_key_eq_iff, blob_key_equality,
  row_key_equality,
}
use vive_cserver.Store.Context.Lookup.{is_some}
use vive_cserver.Blob.Attempt.{Attempt, fault, got}
use vive_cserver.Blob.Files.{FileStore, FileFaults}
use vive_cserver.Blob.Records.{
  SweepableBlob, blob_key, is_live, is_dead, page_key, shown_on_page, reachable, mark_row,
  unmark_row, update_blobs, mark_unreferenced_blobs, prune_references_of_deleted_pages, is_due,
  has_reference, refund_account, delete_due_blob, delete_swept_blob,
}
use vive_cserver.Blob.Records.Totals.{lookup-update_blobs, update_option}
use vive_cserver.Blob.Sweep.{
  BlobWorld, Conditions, Deletion, SweepCounts, SweepPhase, begin_phase, lock_phase, unlink_unused,
  delete_one, stops, sweep_candidates, prune_and_mark, sweep_once,
}
use vive_cserver.Blob.Sound.Deletions.{refund_account-blobs}

shown_on_page-keep :
    (rows : Table RowKey StoredRow) (key : BlobKey) (refs : List BlobRef)
    → shown_on_page rows key (keep (λ ref. not (is_dead (lookup (page_key ref) rows))) refs)
      ≡ shown_on_page rows key refs
unfolding shown_on_page
shown_on_page-keep rows key [] = refl
shown_on_page-keep rows key (ref ∷ refs) = ground (arith, shown_on_page-keep rows key refs)

-- Pruning the references of deleted pages changes nothing that reachability looks at.
reachable-prune :
    (db : Database) (key : BlobKey)
    → reachable (prune_references_of_deleted_pages db).1 key ≡ reachable db key
unfolding reachable
reachable-prune db key = rw (shown_on_page-keep db.rows key db.page_blob_refs) refl

abbrev pub marked_by : ℕ → Bool → BlobRow → BlobRow
marked_by now wanted blob = unmark_row wanted (mark_row now wanted blob)

update_option-both :
    (now : ℕ) (wanted : Bool) (found : Option BlobRow)
    → update_option (unmark_row wanted) (update_option (mark_row now wanted) found)
      ≡ update_option (marked_by now wanted) found
update_option-both now wanted none = refl
update_option-both now wanted (some blob) = refl

lookup-mark :
    (now : ℕ) (db : Database) (key : BlobKey)
    → lookup key (mark_unreferenced_blobs now db).1.blobs
      ≡ update_option (marked_by now (reachable db key)) (lookup key db.blobs)
lookup-mark now db key =
    rw
      (
        lookup-update_blobs (λ k blob. unmark_row (reachable db k) blob) key
            (update_blobs (λ k blob. mark_row now (reachable db k) blob) db.blobs),
        lookup-update_blobs (λ k blob. mark_row now (reachable db k) blob) key db.blobs,
      )
      (update_option-both now (reachable db key) (lookup key db.blobs))

-- what the first transaction of a pass makes of a row
pub lookup-prune_and_mark :
    (now : ℕ) (db : Database) (key : BlobKey)
    → lookup key (prune_and_mark now db).1.blobs
      ≡ update_option (marked_by now (reachable db key)) (lookup key db.blobs)
lookup-prune_and_mark now db key =
    subst
      (λ wanted.
        lookup key (prune_and_mark now db).1.blobs
        ≡ update_option (marked_by now wanted) (lookup key db.blobs))
      (reachable-prune db key) (lookup-mark now (prune_references_of_deleted_pages db).1 key)

-- the mark that a row should have
abbrev pub expected_mark : ℕ → Bool → Option ℕ → Option ℕ
expected_mark now true mark = none
expected_mark now false none = some now
expected_mark now false (some since) = some since

-- After the first transaction of a pass a row is marked exactly if no live page shows its bytes and
-- no live attachment has them; a row that was marked before keeps its time.
pub prune_and_mark-expected_mark :
    (now : ℕ) (db : Database) (key : BlobKey) (before blob : BlobRow)
    → lookup key db.blobs ≡ some before
    → lookup key (prune_and_mark now db).1.blobs ≡ some blob
    → blob.unreferenced_since ≡ expected_mark now (reachable db key) before.unreferenced_since
prune_and_mark-expected_mark now db key before blob h k =
    let made = sym k ∙ lookup-prune_and_mark now db key in ground (arith, made, h)

-- The row of a key stays as it is.
abbrev Stays {ℓ} : {A : Type ℓ} → BlobKey → BlobRow → A × Database → Type 0
Stays key blob r = lookup key r.1.blobs ≡ some blob

module _ (key : BlobKey) (blob : BlobRow) where
  delete_due_blob-Stays :
      (k : BlobKey) (b : BlobRow) (db : Database)
      → blob_key_eq key k ≡ false
      → lookup key db.blobs ≡ some blob
      → Stays key blob (delete_due_blob k b db)
  delete_due_blob-Stays k b db other h =
      if_cases (Stays key blob) (has_reference k db.page_blob_refs) h (
        rw
          (
            refund_account-blobs k.account_id b.byte_count
                (record db { blobs = remove k db.blobs }),
            lookup-remove-other k key db.blobs other,
          )
          h)

  delete_swept_blob-Stays :
      (fails : Bool) (now grace : ℕ) (candidate : SweepableBlob) (db : Database)
      → is_due now grace blob ≡ false
      → lookup key db.blobs ≡ some blob
      → Stays key blob (delete_swept_blob fails now grace candidate db)
  delete_swept_blob-Stays fails now grace candidate db young h =
      let k = blob_key candidate.account_id candidate.digest in
      Option-split (Stays key blob) (validate_digest candidate.digest)
        (λ valid. if_cases (Stays key blob) fails h (
          Option-split (Stays key blob) (lookup k db.blobs) (λ gone. h)
            (λ b found.
              if_split (Stays key blob) (is_due now grace b)
                (λ due.
                  delete_due_blob-Stays k b db
                    (ground (arith, young, h, found, due, blob_key_eq_iff key k)) h)
                (λ fresh. h))))
        (λ failure invalid. h)

pub unlink_unused-db :
    (faults : FileFaults) (candidate : SweepableBlob) (r : Attempt (Bool × Bool) × Database)
    (files : FileStore)
    → (unlink_unused faults candidate r files).1.db ≡ r.1
unlink_unused-db faults candidate (fault e, db) files = refl
unlink_unused-db faults candidate (got (false, unused), db) files = refl
unlink_unused-db faults candidate (got (true, false), db) files = refl
unlink_unused-db faults candidate (got (true, true), db) files = refl

module _ (key : BlobKey) (blob : BlobRow) (conditions : SweepableBlob → Conditions) (retention : ℕ)
    (young : (c : SweepableBlob) → is_due (conditions c).now retention blob ≡ false) where
  abbrev Keeps : BlobWorld → Type 0
  Keeps w = lookup key w.db.blobs ≡ some blob

  delete_one-Keeps :
      (candidate : SweepableBlob) (w : BlobWorld)
      → Keeps w
      → Keeps (delete_one (conditions candidate) retention candidate w).1
  delete_one-Keeps candidate w h =
      let c = conditions candidate in
      if_cases (λ (r : Deletion × BlobWorld). Keeps r.1) c.lock_fails h
        (rw
          (unlink_unused-db c.file_faults candidate
            (delete_swept_blob c.database_fails c.now retention candidate w.db) w.files)
          (delete_swept_blob-Stays key blob c.database_fails c.now retention candidate w.db
            (young candidate) h))

  pub sweep_candidates-Keeps :
      (candidates : List SweepableBlob) (counts : SweepCounts) (w : BlobWorld)
      → Keeps w
      → Keeps (sweep_candidates conditions retention candidates counts w).1
  unfolding sweep_candidates
  sweep_candidates-Keeps [] counts w h = h
  sweep_candidates-Keeps (candidate ∷ rest) counts w h =
      let after = delete_one-Keeps candidate w h in
      Bool-split (λ (x : SweepCounts × BlobWorld). Keeps x.1)
        (stops (conditions candidate) (delete_one (conditions candidate) retention candidate w).0)
        (λ stop. after) (λ go. sweep_candidates-Keeps rest _ _ after)
