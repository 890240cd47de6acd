-- ===== src/Blob/Upload.antt =====
-- internal/httpapi/blobs.go: the byte endpoints.
use vive_cserver.Base.{
  ℕ, String, Bool, true, false, Option, none, some, [], ◌∷◌, ltb, if◌then◌else◌, string_eq,
}
use vive_cserver.Base.Int.{ℤ, pos, negsuc}
use vive_cserver.Base.Table.{lookup}
use vive_cserver.Sync.Text.{validate_digest}
use vive_cserver.Sync.Fields.{Bytes}
use vive_cserver.Store.Database.{Database}
use vive_cserver.Blob.Attempt.{
  BlobError, Attempt, fault, got, not_found, digest_mismatch, body_too_large, database_failed,
}
use vive_cserver.Blob.Files.{
  FileStore, FileFaults, StagedContent, Reader, stage, publish_staged, discard, exists_file,
  open_file, remove_file,
}
use vive_cserver.Blob.Records.{select_stored_blobs, record_stored_blob, any_account_holds_blob}
use vive_cserver.Blob.Sweep.{BlobWorld}

-- auth.AuthenticatedDevice
pub record AuthenticatedDevice : Type 0 where
  pub device_id : String
  pub account_id : String

-- A status, the error code of a body ("" for none), the ETag's digest, the content served
pub record BlobAnswer : Type 0 where
  pub status : ℕ
  pub code : String
  pub etag : Option String
  pub content : Option Bytes

abbrev pub failure_answer : ℕ → String → BlobAnswer
failure_answer status code = record { status = status; code = code; etag = none; content = none }

abbrev pub internal_error : BlobAnswer
internal_error = failure_answer 500 "internal"

abbrev pub etag_answer : ℕ → String → BlobAnswer
etag_answer status digest = record {
  status = status;
  code = "";
  etag = some digest;
  content = none;
}

-- the database's and the disk's failures in one request
pub record RequestFaults : Type 0 where
  pub select_fails : Bool
  pub lock_fails : Bool
  pub record_fails : Bool
  pub check_fails : Bool
  pub disk : FileFaults

pub data BlobRequest : Type 0 where
  refused : BlobAnswer → BlobRequest
  accepted : AuthenticatedDevice → BlobRequest

-- blobRequest; no caller is a route without the authentication middleware
abbrev pub blob_request : Option AuthenticatedDevice → String → BlobRequest
blob_request none digest = refused internal_error
blob_request (some caller) digest = elim (validate_digest digest) [
  | some failure ↦ refused (failure_answer 400 "invalid_request")
  | none ↦ accepted caller
]

-- blobHeldByAccount: the row and the file
abbrev pub blob_held_by_account : RequestFaults → String → String → BlobWorld → Attempt (Bool × ℤ)
blob_held_by_account faults account_id digest world =
    if faults.select_fails
    then fault database_failed
    else elim (lookup digest (select_stored_blobs account_id (digest ∷ []) world.db)) [
      | none ↦ got (false, pos 0)
      | some byte_count ↦ elim (exists_file faults.disk digest world.files) [
        | fault e ↦ fault e
        | got has_bytes ↦ got (has_bytes, byte_count)
      ]
    ]

abbrev presence_answer : String → Attempt (Bool × ℤ) → BlobAnswer
presence_answer digest (fault e) = internal_error
presence_answer digest (got (true, n)) = etag_answer 204 digest
presence_answer digest (got (false, n)) = failure_answer 404 ""

-- handleBlobPresence
abbrev pub handle_blob_presence :
    RequestFaults → Option AuthenticatedDevice → String → BlobWorld → BlobAnswer
handle_blob_presence faults caller digest world = elim (blob_request caller digest) [
  | refused answer ↦ answer
  | accepted device ↦
      presence_answer digest (blob_held_by_account faults device.account_id digest world)
]

-- The row was not written: the file goes, unless some account's row names it. Both errors are
-- given up.
abbrev pub clean_up : Attempt Bool → RequestFaults → String → BlobWorld → BlobWorld
clean_up (got false) faults digest world = record world {
  files = (remove_file faults.disk digest world.files).1;
}
clean_up (got true) faults digest world = world
clean_up (fault e) faults digest world = world

-- what follows RecordStoredBlob
abbrev pub settle_claim :
    RequestFaults → String → Attempt Bool × Database → BlobWorld → Attempt Bool × BlobWorld
settle_claim faults digest (got stored, db) world = (got stored, record world { db = db })
settle_claim faults digest (fault e, db) world = (
  fault e,
  clean_up (any_account_holds_blob faults.check_fails digest db) faults digest
      (record world { db = db }),
)

-- what follows Publish
abbrev pub claim_published :
    RequestFaults
    → String
    → StagedContent
    → Attempt {0} Unit × FileStore
    → Database
    → Attempt Bool × BlobWorld
claim_published faults account_id staged (fault e, files) db =
    (fault e, record { db = db; files = (discard faults.disk staged files).1 })
claim_published faults account_id staged (got u, files) db =
    settle_claim faults staged.digest
      (record_stored_blob faults.record_fails account_id staged.digest staged.byte_count db)
      (record { db = db; files = files })

-- publishBlob: one step, because the digest's lock is held over its halves
abbrev pub publish_blob :
    RequestFaults → String → StagedContent → BlobWorld → Attempt Bool × BlobWorld
publish_blob faults account_id staged world =
    if faults.lock_fails
    then (
      fault database_failed,
      record world { files = (discard faults.disk staged world.files).1 },
    )
    else claim_published faults account_id staged (publish_staged faults.disk staged world.files)
        world.db

abbrev pub exceeds : ℤ → ℕ → Bool
exceeds (pos n) limit = ltb limit n
exceeds (negsuc n) limit = false

abbrev pub too_large_answer : BlobAnswer
too_large_answer = failure_answer 413 "payload_too_large"

abbrev pub stage_error_answer : BlobError → BlobAnswer
stage_error_answer digest_mismatch = failure_answer 400 "invalid_request"
stage_error_answer body_too_large = too_large_answer
stage_error_answer e = internal_error

abbrev pub stored_answer : String → Attempt Bool → BlobAnswer
stored_answer digest (fault e) = internal_error
stored_answer digest (got true) = etag_answer 201 digest
stored_answer digest (got false) = etag_answer 204 digest

-- `max_bytes` is http.MaxBytesReader, `content_length` the declared length (-1 for none), `path`
-- the name of the staging file.
module _ (digest_of : Bytes → String) (max_bytes : ℕ → Reader → Reader) (limit : ℕ)
    (faults : RequestFaults) where
  -- the rest of an upload, from its staging
  abbrev pub publish_upload :
      AuthenticatedDevice
      → String
      → Attempt StagedContent × FileStore
      → BlobWorld
      → BlobAnswer × BlobWorld
  publish_upload device digest (fault e, files) world =
      (stage_error_answer e, record world { files = files })
  publish_upload device digest (got staged, files) world =
      let (stored, after) =
        publish_blob faults device.account_id staged (record world { files = files }) in
      (stored_answer digest stored, after)

  abbrev pub receive_upload :
      AuthenticatedDevice → String → ℤ → Reader → ℕ → BlobWorld → BlobAnswer × BlobWorld
  receive_upload device digest content_length body path world =
      if exceeds content_length limit
      then (too_large_answer, world)
      else publish_upload device digest
          (stage digest_of faults.disk path digest (max_bytes limit body) world.files) world

  -- the presence check before the body is read
  abbrev pub upload_unless_held :
      AuthenticatedDevice
      → String
      → ℤ
      → Reader
      → ℕ
      → Attempt (Bool × ℤ)
      → BlobWorld
      → BlobAnswer × BlobWorld
  upload_unless_held device digest content_length body path (fault e) world =
      (internal_error, world)
  upload_unless_held device digest content_length body path (got (true, n)) world =
      (etag_answer 204 digest, world)
  upload_unless_held device digest content_length body path (got (false, n)) world =
      receive_upload device digest content_length body path world

  abbrev pub upload_request :
      BlobRequest → String → ℤ → Reader → ℕ → BlobWorld → BlobAnswer × BlobWorld
  upload_request (refused answer) digest content_length body path world = (answer, world)
  upload_request (accepted device) digest content_length body path world =
      upload_unless_held device digest content_length body path
        (blob_held_by_account faults device.account_id digest world) world

  -- handleUploadBlob
  abbrev pub handle_upload_blob :
      Option AuthenticatedDevice → String → ℤ → Reader → ℕ → BlobWorld → BlobAnswer × BlobWorld
  handle_upload_blob caller digest content_length body path world =
      upload_request (blob_request caller digest) digest content_length body path world

abbrev pub serve : String → Attempt Bytes → BlobAnswer
serve digest (got content) = record {
  status = 200;
  code = "";
  etag = some digest;
  content = some content;
}
serve digest (fault not_found) = failure_answer 404 "not_found"
serve digest (fault e) = internal_error

abbrev pub download_request : RequestFaults → BlobRequest → String → BlobWorld → BlobAnswer
download_request faults (refused answer) digest world = answer
download_request faults (accepted device) digest world =
    if faults.select_fails
    then internal_error
    else elim (lookup digest (select_stored_blobs device.account_id (digest ∷ []) world.db)) [
      | none ↦ failure_answer 404 "not_found"
      | some byte_count ↦ serve digest (open_file faults.disk digest world.files)
    ]

-- handleDownloadBlob, up to http.ServeContent, which answers ranges and conditions on the content
abbrev pub handle_download_blob :
    RequestFaults → Option AuthenticatedDevice → String → BlobWorld → BlobAnswer
handle_download_blob faults caller digest world =
    download_request faults (blob_request caller digest) digest world
