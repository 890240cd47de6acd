-- ===== src/Blob/Transfer.antt =====
-- Uploads and downloads together: what an upload confirms can be downloaded, and an account
-- downloads only what it holds.
pub mod Confirms
use vive_cserver.Base.{
  ℕ, String, ◌≡◌, refl, sym, ap, ◌∙◌, subst, Bool, true, false, Option, none, some, List, [], ◌∷◌,
  arith, if◌then◌else◌, if_cases, Option-split, Option-cases, inl, inr, string_eq,
}
use vive_cserver.Base.Int.{ℤ}
use vive_cserver.Base.Table.{Table, lookup, All-lookup}
use vive_cserver.Sync.Failure.{Failure}
use vive_cserver.Sync.Text.{validate_digest}
use vive_cserver.Sync.Fields.{Bytes}
use vive_cserver.Sync.Change.{Codec}
use vive_cserver.Store.Database.{BlobKey, BlobRow, blob_key_equality}
use vive_cserver.Store.Context.Lookup.{is_some, as_size}
use vive_cserver.Blob.Attempt.{Attempt, fault, got}
use vive_cserver.Blob.Files.{FileStore, Reader, open_file, no_faults}
use vive_cserver.Blob.Records.{blob_key, select_stored_blobs}
use vive_cserver.Blob.Sweep.{BlobWorld}
use vive_cserver.Blob.Upload.{
  AuthenticatedDevice, BlobAnswer, RequestFaults, accepted, refused, upload_request, blob_request,
  handle_upload_blob, download_request, handle_download_blob, serve, failure_answer, internal_error,
}
use vive_cserver.Blob.Backed.{is_published}
use vive_cserver.Blob.Sound.{WorldSound}
use vive_cserver.Blob.Invariants.{reach-WorldSound}
use vive_cserver.Blob.Refinement.{handle_upload_blob-BlobReach}
use vive_cserver.Blob.Transfer.Confirms.{
  Confirmed, has_row, select_stored_blobs-one, blob_request-valid, handle_upload_blob-Confirms,
}

abbrev pub no_request_faults : RequestFaults
no_request_faults = record {
  select_fails = false;
  lock_fails = false;
  record_fails = false;
  check_fails = false;
  disk = no_faults;
}

-- A download that serves bytes which hash to the digest
abbrev pub Serves : (Bytes → String) → String → BlobAnswer → Type 0
Serves digest_of digest answer =
    (content : Bytes) × (answer
      ≡ record { status = 200; code = ""; etag = some digest; content = some content })
    × (digest_of content ≡ digest)

module _ (digest_of : Bytes → String) (device : AuthenticatedDevice) (digest : String)
    (w : BlobWorld) (valid : validate_digest digest ≡ none) (s : WorldSound digest_of w) where
  stored_content :
      (blob : BlobRow)
      → lookup (blob_key device.account_id digest) w.db.blobs ≡ some blob
      → (content : Bytes) × (lookup digest w.files.published ≡ some content)
        × (digest_of content ≡ digest)
  stored_content blob h =
      let held =
        All-lookup (λ r. is_published r.0.digest w.files.published ≡ true)
          (blob_key device.account_id digest) blob w.db.blobs s.rows.backed h in
      elim (Option-cases (lookup digest w.files.published)) [
        | inl gone ↦ absurd (ground (arith, held, gone))
        | inr (content, found) ↦ (
          content,
          found,
          All-lookup (λ f. digest_of f.1 ≡ f.0) digest content w.files.published s.addressed found,
        )
      ]

  open_file-found :
      (content : Bytes)
      → lookup digest w.files.published ≡ some content
      → open_file no_faults digest w.files ≡ got content
  open_file-found content found = rw (valid, found, open_file) refl

  abbrev answer_found : Option ℤ → BlobAnswer
  answer_found found = elim found [
    | none ↦ failure_answer 404 "not_found"
    | some n ↦ serve digest (open_file no_faults digest w.files)
  ]

  download_found :
      (blob : BlobRow)
      → lookup (blob_key device.account_id digest) w.db.blobs ≡ some blob
      → Serves digest_of digest (handle_download_blob no_request_faults (some device) digest w)
  download_found blob h =
      let (content, found, hashed) = stored_content blob h in
      (
        content,
        ap (λ request. download_request no_request_faults request digest w)
              (blob_request-valid device digest valid)
            ∙ ap answer_found
                (select_stored_blobs-one device.account_id digest w.db valid ∙ ap as_size h)
            ∙ ap (serve digest) (open_file-found content found),
        hashed,
      )

  pub has_row-Serves :
      has_row device.account_id digest w.db ≡ true
      → Serves digest_of digest (handle_download_blob no_request_faults (some device) digest w)
  has_row-Serves h = elim (Option-cases (lookup (blob_key device.account_id digest) w.db.blobs)) [
    | inl gone ↦ absurd (ground (arith, h, gone))
    | inr (blob, found) ↦ download_found blob found
  ]

blob_request-invalid :
    (device : AuthenticatedDevice) (digest : String) (failure : Failure)
    → validate_digest digest ≡ some failure
    → blob_request (some device) digest ≡ refused (failure_answer 400 "invalid_request")
blob_request-invalid device digest failure invalid = rw (invalid, blob_request) refl

-- An upload is confirmed only under an acceptable digest.
confirmed_valid :
    (digest_of : Bytes → String) (max_bytes : ℕ → Reader → Reader) (limit : ℕ)
    (faults : RequestFaults) (device : AuthenticatedDevice) (digest : String) (w : BlobWorld)
    (length : ℤ) (body : Reader) (path : ℕ)
    → (handle_upload_blob digest_of max_bytes limit faults
        (some device)
        digest
        length
        body
        path
        w).0.etag
      ≡ some digest
    → validate_digest digest ≡ none
confirmed_valid digest_of max_bytes limit faults device digest w length body path h =
    elim (Option-cases (validate_digest digest)) [
      | inl valid ↦ valid
      | inr (failure, invalid) ↦ absurd (
          ground (
            arith,
            sym h
                ∙ ap
                    (λ request.
                      (upload_request digest_of max_bytes limit faults request digest length body
                        path w).0.etag)
                    (blob_request-invalid device digest failure invalid),
          ))
    ]

-- In a sound world: what an upload confirms (with an ETag, whether it stored the bytes or had them)
-- the same device can download right after it, unless the server fails; the bytes that it gets hash
-- to the digest.
pub upload-download :
    (digest_of : Bytes → String) (codec : Codec) (max_bytes : ℕ → Reader → Reader) (limit : ℕ)
    (faults : RequestFaults) (device : AuthenticatedDevice) (digest : String) (w : BlobWorld)
    (length : ℤ) (body : Reader) (path : ℕ)
    → WorldSound digest_of w
    → (handle_upload_blob digest_of max_bytes limit faults
        (some device)
        digest
        length
        body
        path
        w).0.etag
      ≡ some digest
    → Serves digest_of digest (
        handle_download_blob no_request_faults
          (some device)
          digest
          (handle_upload_blob digest_of max_bytes limit faults
            (some device)
            digest
            length
            body
            path
            w).1)
upload-download digest_of codec max_bytes limit faults device digest w length body path s h =
    let valid =
      confirmed_valid digest_of max_bytes limit faults device digest w length body path h in
    has_row-Serves digest_of device digest _ valid
      (reach-WorldSound digest_of codec w _ s (
        handle_upload_blob-BlobReach digest_of codec max_bytes limit faults w (some device) digest
          length body path))
      (subst
        (λ etag.
          Confirmed device.account_id digest etag
            (handle_upload_blob digest_of max_bytes limit faults (some device) digest length body
              path w).1.db)
        h
        (handle_upload_blob-Confirms digest_of max_bytes limit faults device digest w length body
          path valid))

served_row :
    (faults : RequestFaults) (device : AuthenticatedDevice) (digest : String) (w : BlobWorld)
    → validate_digest digest ≡ none
    → (found : Option ℤ)
    → lookup digest (select_stored_blobs device.account_id (digest ∷ []) w.db) ≡ found
    → (if faults.select_fails then internal_error else elim found [
      | none ↦ failure_answer 404 "not_found"
      | some n ↦ serve digest (open_file faults.disk digest w.files)
    ]).status
      ≡ 200
    → has_row device.account_id digest w.db ≡ true
served_row faults device digest w valid none e h = absurd (ground (arith, h))
served_row faults device digest w valid (some n) e h =
    ground (arith, e, select_stored_blobs-one device.account_id digest w.db valid)

-- A device downloads only bytes that its own account has claimed, whoever else has stored them.
pub download-has_row :
    (faults : RequestFaults) (device : AuthenticatedDevice) (digest : String) (w : BlobWorld)
    → (handle_download_blob faults (some device) digest w).status ≡ 200
    → has_row device.account_id digest w.db ≡ true
download-has_row faults device digest w h = elim (Option-cases (validate_digest digest)) [
  | inl valid ↦ served_row faults device digest w valid _ refl (
      subst (λ request. (download_request faults request digest w).status ≡ 200)
        (blob_request-valid device digest valid) h)
  | inr (failure, invalid) ↦ absurd (
      ground (
        arith,
        subst (λ request. (download_request faults request digest w).status ≡ 200)
            (blob_request-invalid device digest failure invalid) h,
      ))
]
