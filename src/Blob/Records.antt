-- ===== src/Blob/Records.antt =====
-- internal/store/blobs.go: who holds which bytes, what they cost, what still points at them.
pub mod Totals
use vive_cserver.Base.{
  ℕ, ◌+◌, ◌-◌, String, str_eq, Bool, true, false, not, ◌&&◌, ◌||◌, Option, none, some, List, [],
  ◌∷◌, keep, map, length, take, ltb, leb, sort_by, if◌then◌else◌, string_eq,
}
use vive_cserver.Base.Int.{ℤ, pos, negsuc, max_int64, ◌+ℤ◌, negate}
use vive_cserver.Base.Table.{Table, lookup, put, remove}
use vive_cserver.Sync.Kind.{RowKey, page, attachment}
use vive_cserver.Sync.Text.{validate_digest}
use vive_cserver.Store.Database.{
  Database, StoredRow, AccountRow, BlobKey, BlobRow, BlobRef, row_key_equality, blob_key_equality,
}
use vive_cserver.Store.Context.{decode_digests, select_blobs}
use vive_cserver.Store.Context.Lookup.{is_some}
use vive_cserver.Blob.Attempt.{Attempt, fault, got, malformed_digest, database_failed}

-- SelectStoredBlobs
abbrev pub select_stored_blobs : String → List String → Database → Table String ℤ
select_stored_blobs account_id [] db = []
select_stored_blobs account_id (d ∷ ds) db =
    select_blobs account_id (decode_digests (d ∷ ds)) db.blobs

abbrev pub blob_key : String → String → BlobKey
blob_key account_id digest = record { account_id = account_id; digest = digest }

-- storage_bytes + n, a bigint; a sum past its range is an error
abbrev pub in_range : ℤ → Option ℤ
in_range (pos n) = if leb n max_int64 then some (pos n) else none
in_range (negsuc n) = if leb n max_int64 then some (negsuc n) else none

abbrev pub charge : ℤ → ℤ → Option ℤ
charge total n = in_range (total +ℤ n)

-- INSERT INTO blobs and the UPDATE of storage_bytes, of an account that exists
abbrev pub insert_blob : BlobKey → ℤ → AccountRow → Database → Attempt Bool × Database
insert_blob key byte_count account db = elim (charge account.storage_bytes byte_count) [
  | none ↦ (fault database_failed, db)
  | some total ↦ (
    got true,
    record db {
      accounts = put key.account_id (record account { storage_bytes = total }) db.accounts;
      blobs = put key (record { byte_count = byte_count; unreferenced_since = none }) db.blobs;
    },
  )
]

-- RecordStoredBlob. An account that does not exist violates the foreign key of blobs; `fails` says
-- whether the database has an error of its own.
abbrev pub record_stored_blob : Bool → String → String → ℤ → Database → Attempt Bool × Database
record_stored_blob fails account_id digest byte_count db = elim (validate_digest digest) [
  | some failure ↦ (fault (malformed_digest failure), db)
  | none ↦
      if fails
      then (fault database_failed, db)
      else elim (lookup (blob_key account_id digest) db.blobs) [
        | some blob ↦ (got false, db)
        | none ↦ elim (lookup account_id db.accounts) [
          | none ↦ (fault database_failed, db)
          | some account ↦ insert_blob (blob_key account_id digest) byte_count account db
        ]
      ]
]

-- SELECT EXISTS (SELECT 1 FROM blobs WHERE sha256 = $1)
unfoldable pub holds : String → Table BlobKey BlobRow → Bool
holds digest [] = false
holds digest ((key, blob) ∷ blobs) = str_eq key.digest digest || holds digest blobs

-- AnyAccountHoldsBlob
abbrev pub any_account_holds_blob : Bool → String → Database → Attempt Bool
any_account_holds_blob fails digest db = elim (validate_digest digest) [
  | some failure ↦ fault (malformed_digest failure)
  | none ↦ if fails then fault database_failed else got (holds digest db.blobs)
]

-- AccountStorageBytes; none is ErrAccountNotFound
abbrev pub account_storage_bytes : String → Database → Option ℤ
account_storage_bytes account_id db = elim (lookup account_id db.accounts) [
  | none ↦ none
  | some account ↦ some account.storage_bytes
]

-- A row whose deleted_at is null
abbrev pub is_live : Option StoredRow → Bool
is_live none = false
is_live (some row) = not (is_some row.deleted_at)

abbrev pub page_key : BlobRef → RowKey
page_key ref = record { account_id = ref.account_id; kind = page; id = ref.page_id }

-- A row of pages whose deleted_at is not null
abbrev pub is_dead : Option StoredRow → Bool
is_dead none = false
is_dead (some row) = is_some row.deleted_at

-- PruneReferencesOfDeletedPages: how many it drops, and the database after it
abbrev pub prune_references_of_deleted_pages : Database → ℕ × Database
prune_references_of_deleted_pages db =
    let kept = keep (λ ref. not (is_dead (lookup (page_key ref) db.rows))) db.page_blob_refs in
    (length db.page_blob_refs - length kept, record db { page_blob_refs = kept })

-- the first half of reachabilityCondition
unfoldable pub shown_on_page : Table RowKey StoredRow → BlobKey → List BlobRef → Bool
shown_on_page rows key [] = false
shown_on_page rows key (ref ∷ refs) =
    ((str_eq ref.account_id key.account_id && str_eq ref.digest key.digest)
      && is_live (lookup (page_key ref) rows))
    || shown_on_page rows key refs

-- the second half: an attachment's id is the digest in hex
abbrev pub attachment_key : BlobKey → RowKey
attachment_key key = record { account_id = key.account_id; kind = attachment; id = key.digest }

-- reachabilityCondition
unfoldable pub reachable : Database → BlobKey → Bool
unfolding shown_on_page
reachable db key =
    shown_on_page db.rows key db.page_blob_refs || is_live (lookup (attachment_key key) db.rows)

-- UPDATE blobs SET unreferenced_since = now() WHERE ... IS NULL AND NOT reachable
abbrev pub mark_row : ℕ → Bool → BlobRow → BlobRow
mark_row now wanted blob =
    if not (is_some blob.unreferenced_since) && not wanted
    then record blob { unreferenced_since = some now }
    else blob

-- UPDATE blobs SET unreferenced_since = NULL WHERE ... IS NOT NULL AND reachable
abbrev pub unmark_row : Bool → BlobRow → BlobRow
unmark_row wanted blob =
    if is_some blob.unreferenced_since && wanted
    then record blob { unreferenced_since = none }
    else blob

abbrev pub is_marked : BlobKey × BlobRow → Bool
is_marked r = is_some r.1.unreferenced_since

-- An UPDATE of all the rows, by a function of the row
unfoldable pub update_blobs :
    (BlobKey → BlobRow → BlobRow) → Table BlobKey BlobRow → Table BlobKey BlobRow
update_blobs f [] = []
update_blobs f ((key, blob) ∷ blobs) = (key, f key blob) ∷ update_blobs f blobs

-- MarkUnreferencedBlobs: the rows that it marked, those that it cleared, and the database after it
abbrev pub mark_unreferenced_blobs : ℕ → Database → (ℕ × ℕ) × Database
mark_unreferenced_blobs now db =
    let marked = update_blobs (λ key blob. mark_row now (reachable db key) blob) db.blobs in
    let cleared = update_blobs (λ key blob. unmark_row (reachable db key) blob) marked in
    (
      (
        length (keep is_marked marked) - length (keep is_marked db.blobs),
        length (keep is_marked marked) - length (keep is_marked cleared),
      ),
      record db { blobs = cleared },
    )

-- unreferenced_since IS NOT NULL AND unreferenced_since < now() - grace
abbrev pub is_due : ℕ → ℕ → BlobRow → Bool
is_due now grace blob = elim blob.unreferenced_since [
  | none ↦ false
  | some since ↦ ltb (since + grace) now
]

pub record SweepableBlob : Type 0 where
  pub account_id : String
  pub digest : String
  pub byte_count : ℤ

-- ascending, the nulls last
abbrev earlier : Option ℕ → Option ℕ → Bool
earlier (some x) (some y) = leb x y
earlier x none = true
earlier none (some y) = false

abbrev pub marked_before : BlobKey × BlobRow → BlobKey × BlobRow → Bool
marked_before a b = earlier a.1.unreferenced_since b.1.unreferenced_since

abbrev pub as_candidate : BlobKey × BlobRow → SweepableBlob
as_candidate r = record {
  account_id = r.0.account_id;
  digest = r.0.digest;
  byte_count = r.1.byte_count;
}

-- SelectSweepableBlobs. Rows marked at the same time come in the order of the table.
abbrev pub select_sweepable_blobs : ℕ → ℕ → ℕ → Database → List SweepableBlob
select_sweepable_blobs now grace limit db =
    map as_candidate
      (take limit (sort_by marked_before (keep (λ r. is_due now grace r.1) db.blobs)))

-- GREATEST(storage_bytes - n, 0)
abbrev pub at_least_zero : ℤ → ℤ
at_least_zero (pos n) = pos n
at_least_zero (negsuc n) = pos 0

abbrev pub refund : ℤ → ℤ → ℤ
refund total n = at_least_zero (total +ℤ negate n)

-- A row of page_blob_refs that names the blob, whose deferred foreign key fails the commit
unfoldable pub has_reference : BlobKey → List BlobRef → Bool
has_reference key [] = false
has_reference key (ref ∷ refs) =
    (str_eq ref.account_id key.account_id && str_eq ref.digest key.digest) || has_reference key refs

-- the refund of a deletion
abbrev pub refund_account : String → ℤ → Database → Database
refund_account account_id byte_count db = elim (lookup account_id db.accounts) [
  | none ↦ db
  | some account ↦ record db {
    accounts =
        put account_id (record account { storage_bytes = refund account.storage_bytes byte_count })
          db.accounts;
  }
]

-- the transaction of DeleteSweptBlob, of a row that is due
abbrev pub delete_due_blob : BlobKey → BlobRow → Database → Attempt (Bool × Bool) × Database
delete_due_blob key blob db =
    let after = remove key db.blobs in
    if has_reference key db.page_blob_refs then (fault database_failed, db) else (
      got (true, not (holds key.digest after)),
      refund_account key.account_id blob.byte_count (record db { blobs = after }),
    )

-- DeleteSweptBlob: whether it deleted the row, and whether no row names the bytes any more
abbrev pub delete_swept_blob :
    Bool → ℕ → ℕ → SweepableBlob → Database → Attempt (Bool × Bool) × Database
delete_swept_blob fails now grace candidate db = elim (validate_digest candidate.digest) [
  | some failure ↦ (fault (malformed_digest failure), db)
  | none ↦
      if fails
      then (fault database_failed, db)
      else elim (lookup (blob_key candidate.account_id candidate.digest) db.blobs) [
        | none ↦ (got (false, false), db)
        | some blob ↦
            if is_due now grace blob
            then delete_due_blob (blob_key candidate.account_id candidate.digest) blob db
            else (got (false, false), db)
      ]
]
