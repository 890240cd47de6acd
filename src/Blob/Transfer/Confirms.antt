-- ===== src/Blob/Transfer/Confirms.antt =====
-- An upload's answer that names the digest is true: the account has the row.
use vive_cserver.Base.{
  ℕ, String, eq_iff, ◌≡◌, refl, sym, subst, ap, Bool, true, false, Option, none, some, [], ◌∷◌,
  arith, if_cases, Option-split, string_eq,
}
use vive_cserver.Base.Int.{ℤ}
use vive_cserver.Base.Table.{lookup, lookup-put}
use vive_cserver.Sync.Text.{validate_digest}
use vive_cserver.Sync.Fields.{Bytes}
use vive_cserver.Store.Database.{Database, AccountRow, blob_key_eq_iff, blob_key_equality}
use vive_cserver.Store.Context.{select_blobs, decode_digests}
use vive_cserver.Store.Context.Lookup.{is_some, lookup-select_blobs, as_size}
use vive_cserver.Blob.Attempt.{BlobError, Attempt, fault, got, digest_mismatch, body_too_large}
use vive_cserver.Blob.Files.{FileStore, StagedContent, Reader, exists_file}
use vive_cserver.Blob.Records.{
  blob_key, select_stored_blobs, record_stored_blob, insert_blob, charge,
}
use vive_cserver.Blob.Sweep.{BlobWorld}
use vive_cserver.Blob.Upload.{
  AuthenticatedDevice, BlobAnswer, RequestFaults, accepted, blob_request, blob_held_by_account,
  settle_claim, claim_published, publish_blob, exceeds, publish_upload, stage_error_answer,
  stored_answer, receive_upload, upload_unless_held, upload_request, handle_upload_blob,
}
use vive_cserver.Blob.Backed.{Staged, stage-Staged}

abbrev pub has_row : String → String → Database → Bool
has_row account_id digest db = is_some (lookup (blob_key account_id digest) db.blobs)

decode_one :
    (digest : String) → validate_digest digest ≡ none → decode_digests (digest ∷ []) ≡ digest ∷ []
decode_one digest valid =
    ap (λ checked. elim checked [ none ↦ digest ∷ [] | some failure ↦ [] ]) valid

-- the row of a digest, as SelectStoredBlobs finds it
pub select_stored_blobs-one :
    (account_id digest : String) (db : Database)
    → validate_digest digest ≡ none
    → lookup digest (select_stored_blobs account_id (digest ∷ []) db)
      ≡ as_size (lookup (blob_key account_id digest) db.blobs)
select_stored_blobs-one account_id digest db valid =
    subst
      (λ ds.
        lookup digest (select_blobs account_id ds db.blobs)
        ≡ as_size (lookup (blob_key account_id digest) db.blobs))
      (sym (decode_one digest valid))
      (lookup-select_blobs account_id (digest ∷ []) digest db.blobs
        (ground (arith, eq_iff digest digest)))

module _ (account_id digest : String) where
  abbrev Recorded : Attempt Bool × Database → Type 0
  Recorded (fault e, db) = Unit
  Recorded (got stored, db) = has_row account_id digest db ≡ true

  insert_blob-Recorded :
      (n : ℤ) (account : AccountRow) (db : Database)
      → Recorded (insert_blob (blob_key account_id digest) n account db)
  insert_blob-Recorded n account db =
      Option-split Recorded (charge account.storage_bytes n) (λ overflow. tt)
        (λ total h. ground (
          arith,
          lookup-put (blob_key account_id digest) (blob_key account_id digest)
              (record { byte_count = n; unreferenced_since = none }) db.blobs,
          blob_key_eq_iff (blob_key account_id digest) (blob_key account_id digest),
        ))

  record_stored_blob-Recorded :
      (fails : Bool) (n : ℤ) (db : Database)
      → Recorded (record_stored_blob fails account_id digest n db)
  record_stored_blob-Recorded fails n db =
      Option-split Recorded (validate_digest digest)
        (λ valid. if_cases Recorded fails tt (
          Option-split Recorded (lookup (blob_key account_id digest) db.blobs)
            (λ fresh.
              Option-split Recorded (lookup account_id db.accounts) (λ unknown. tt)
                (λ account known. insert_blob-Recorded n account db))
            (λ blob held. ground (arith, held))))
        (λ failure invalid. tt)

  abbrev pub ClaimRecorded : Attempt Bool × BlobWorld → Type 0
  ClaimRecorded (fault e, w) = Unit
  ClaimRecorded (got stored, w) = has_row account_id digest w.db ≡ true

  settle_claim-ClaimRecorded :
      (faults : RequestFaults) (r : Attempt Bool × Database) (w : BlobWorld)
      → Recorded r
      → ClaimRecorded (settle_claim faults digest r w)
  settle_claim-ClaimRecorded faults (fault e, db) w h = tt
  settle_claim-ClaimRecorded faults (got stored, db) w h = h

claim_published-ClaimRecorded :
    (account_id : String) (faults : RequestFaults) (staged : StagedContent)
    (r : Attempt {0} Unit × FileStore) (db : Database)
    → ClaimRecorded account_id staged.digest (claim_published faults account_id staged r db)
claim_published-ClaimRecorded account_id faults staged (fault e, files) db = tt
claim_published-ClaimRecorded account_id faults staged (got u, files) db =
    settle_claim-ClaimRecorded account_id staged.digest faults _ _ (
      record_stored_blob-Recorded account_id staged.digest faults.record_fails staged.byte_count db)

publish_blob-ClaimRecorded :
    (account_id : String) (faults : RequestFaults) (staged : StagedContent) (w : BlobWorld)
    → ClaimRecorded account_id staged.digest (publish_blob faults account_id staged w)
publish_blob-ClaimRecorded account_id faults staged w =
    if_cases (ClaimRecorded account_id staged.digest) faults.lock_fails tt
      (claim_published-ClaimRecorded account_id faults staged _ w.db)

-- An answer with an ETag promises the row.
abbrev pub Confirmed : String → String → Option String → Database → Type 0
Confirmed account_id digest none db = Unit
Confirmed account_id digest (some etag) db = has_row account_id digest db ≡ true

abbrev pub Confirms : String → String → BlobAnswer × BlobWorld → Type 0
Confirms account_id digest r = Confirmed account_id digest r.0.etag r.1.db

module _ (digest_of : Bytes → String) (max_bytes : ℕ → Reader → Reader) (limit : ℕ)
    (faults : RequestFaults) (device : AuthenticatedDevice) (digest : String) (w : BlobWorld) where
  abbrev Ends : BlobAnswer × BlobWorld → Type 0
  Ends = Confirms device.account_id digest

  no_etag : (e : BlobError) → (stage_error_answer e).etag ≡ none
  no_etag digest_mismatch = refl
  no_etag body_too_large = refl
  no_etag _ = refl

  stored_answer-Ends :
      (r : Attempt Bool × BlobWorld)
      → ClaimRecorded device.account_id digest r
      → Ends (stored_answer digest r.0, r.1)
  stored_answer-Ends (fault e, after) h = tt
  stored_answer-Ends (got true, after) h = h
  stored_answer-Ends (got false, after) h = h

  publish_upload-Ends :
      (path : ℕ) (r : Attempt StagedContent × FileStore)
      → Staged digest_of faults.disk path digest w.files r
      → Ends (publish_upload digest_of max_bytes limit faults device digest r w)
  publish_upload-Ends path (fault e, files) s =
      subst (λ etag. Confirmed device.account_id digest etag w.db) (sym (no_etag e)) tt
  publish_upload-Ends path (got staged, files) s = stored_answer-Ends _ (
      subst
        (λ d.
          ClaimRecorded device.account_id d
            (publish_blob faults device.account_id staged (record w { files = files })))
        s.1
        (publish_blob-ClaimRecorded device.account_id faults staged (record w { files = files })))

  receive_upload-Ends :
      (length : ℤ) (body : Reader) (path : ℕ)
      → Ends (receive_upload digest_of max_bytes limit faults device digest length body path w)
  receive_upload-Ends length body path = if_cases Ends (exceeds length limit) tt (
      publish_upload-Ends path _
        (stage-Staged digest_of faults.disk path digest (max_bytes limit body) w.files))

  -- what blobHeldByAccount says
  abbrev Found : Attempt (Bool × ℤ) → Type 0
  Found (got (true, n)) = has_row device.account_id digest w.db ≡ true
  Found _ = Unit

  bytes_Found :
      (bytes : Attempt Bool) (n : ℤ)
      → has_row device.account_id digest w.db ≡ true
      → Found (elim bytes [ fault e ↦ fault e | got has_bytes ↦ got (has_bytes, n) ])
  bytes_Found (fault e) n h = tt
  bytes_Found (got true) n h = h
  bytes_Found (got false) n h = tt

  blob_held-Found :
      validate_digest digest ≡ none → Found (blob_held_by_account faults device.account_id digest w)
  blob_held-Found valid = if_cases Found faults.select_fails tt (
      Option-split Found (lookup digest (select_stored_blobs device.account_id (digest ∷ []) w.db))
        (λ absent. tt)
        (λ n found.
          bytes_Found (exists_file faults.disk digest w.files) n
            (ground (arith, found, select_stored_blobs-one device.account_id digest w.db valid))))

  upload_unless_held-Ends :
      (held : Attempt (Bool × ℤ)) (length : ℤ) (body : Reader) (path : ℕ)
      → Found held
      → Ends (
          upload_unless_held digest_of max_bytes limit faults device digest length body path held w)
  upload_unless_held-Ends (fault e) length body path f = tt
  upload_unless_held-Ends (got (true, n)) length body path f = f
  upload_unless_held-Ends (got (false, n)) length body path f = receive_upload-Ends length body path

  upload_request-Ends :
      (length : ℤ) (body : Reader) (path : ℕ)
      → validate_digest digest ≡ none
      → Ends (
          upload_request digest_of max_bytes limit faults
            (accepted device)
            digest
            length
            body
            path
            w)
  upload_request-Ends length body path valid =
      upload_unless_held-Ends (blob_held_by_account faults device.account_id digest w) length body
        path (blob_held-Found valid)

-- blobRequest, of a caller
pub blob_request-valid :
    (device : AuthenticatedDevice) (digest : String)
    → validate_digest digest ≡ none
    → blob_request (some device) digest ≡ accepted device
blob_request-valid device digest valid = rw (valid, blob_request) refl

pub handle_upload_blob-Confirms :
    (digest_of : Bytes → String) (max_bytes : ℕ → Reader → Reader) (limit : ℕ)
    (faults : RequestFaults) (device : AuthenticatedDevice) (digest : String) (w : BlobWorld)
    (length : ℤ) (body : Reader) (path : ℕ)
    → validate_digest digest ≡ none
    → Confirms device.account_id digest (
        handle_upload_blob digest_of max_bytes limit faults (some device) digest length body path w)
handle_upload_blob-Confirms digest_of max_bytes limit faults device digest w length body path
      valid =
    subst
      (λ request.
        Confirms device.account_id digest
          (upload_request digest_of max_bytes limit faults request digest length body path w))
      (sym (blob_request-valid device digest valid))
      (upload_request-Ends digest_of max_bytes limit faults device digest w length body path valid)
