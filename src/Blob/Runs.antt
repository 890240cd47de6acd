-- ===== src/Blob/Runs.antt =====
-- What one run of SweepOnce and one of handleUploadBlob do, step by step and in their order.
use vive_cserver.Base.{
  ℕ, String, ◌≡◌, refl, ap, sym, ◌⊎◌, inl, inr, Bool, true, false, Option, none, some, List, [],
  ◌∷◌, ◌++◌, arith, Option-split, if_cases, string_eq,
}
use vive_cserver.Base.Int.{ℤ}
use vive_cserver.Sync.Fields.{Bytes}
use vive_cserver.Sync.Text.{validate_digest}
use vive_cserver.Blob.Attempt.{Attempt, BlobError, fault, got}
use vive_cserver.Blob.Files.{FileStore, StagedContent, Reader, stage}
use vive_cserver.Blob.Records.{SweepableBlob, select_sweepable_blobs}
use vive_cserver.Blob.Sweep.{
  BlobWorld, Conditions, SweepPhase, delete_one, prune_and_mark, max_deletions_per_pass,
}
use vive_cserver.Blob.Upload.{
  RequestFaults, AuthenticatedDevice, BlobAnswer, blob_held_by_account, exceeds, publish_blob,
  publish_upload, receive_upload, upload_unless_held, stored_answer, handle_upload_blob,
  stage_error_answer, upload_request,
}

module _ (conditions : SweepableBlob → Conditions) (retention : ℕ) where
  -- deleteOne for each candidate in turn
  abbrev pub delete_all : List SweepableBlob → BlobWorld → BlobWorld
  delete_all [] w = w
  delete_all (c ∷ cs) w = delete_all cs (delete_one (conditions c) retention c w).1

  -- What the loop has done: it deletes the candidates in their order, and leaves some only after one
  -- at which the context was cancelled.
  abbrev pub IsLoop : List SweepableBlob → BlobWorld → BlobWorld → Type 0
  IsLoop candidates w after =
      (done : List SweepableBlob) × (rest : List SweepableBlob) × (candidates ≡ done ++ rest)
      × (after ≡ delete_all done w)
      × ((rest ≡ [])
          ⊎ ((before : List SweepableBlob) × (last : SweepableBlob) × (done ≡ before ++ last ∷ [])
              × ((conditions last).cancelled ≡ true)))

  -- What a pass does, by what fails before its deletions.
  abbrev pub IsPass : Option SweepPhase → Bool → ℕ → BlobWorld → BlobWorld → Type 0
  IsPass none true now w after =
      let marked = (prune_and_mark now w.db).1 in
      IsLoop (select_sweepable_blobs now retention max_deletions_per_pass marked)
        (record w { db = marked }) after
  IsPass _ _ now w after = after ≡ w

module _ (digest_of : Bytes → String) (max_bytes : ℕ → Reader → Reader) (limit : ℕ)
    (faults : RequestFaults) (digest : String) (path : ℕ) (body : Reader) (w : BlobWorld) where
  abbrev pub staging : Attempt StagedContent × FileStore
  staging = stage digest_of faults.disk path digest (max_bytes limit body) w.files

  -- Nothing changes; the answer confirms the bytes only if the device's account holds them.
  abbrev pub IsRefused : Option AuthenticatedDevice → BlobAnswer × BlobWorld → Type 0
  IsRefused caller r =
      (r.1 ≡ w)
      × ((r.0.etag ≡ none)
          ⊎ ((device : AuthenticatedDevice) × (n : ℤ) × (caller ≡ some device)
              × (blob_held_by_account faults device.account_id digest w ≡ got (true, n))))

  -- The body is not accepted, and nothing is confirmed.
  abbrev pub IsUnstaged : BlobAnswer × BlobWorld → Type 0
  IsUnstaged r =
      (e : BlobError) × (staging.0 ≡ fault e)
      × (r.1 ≡ record w { files = staging.1 })
      × (r.0.etag ≡ none)

  -- What was staged is published for the caller's account, and the answer is that of the publication.
  abbrev pub IsPublished : Option AuthenticatedDevice → BlobAnswer × BlobWorld → Type 0
  IsPublished caller r =
      (device : AuthenticatedDevice) × (staged : StagedContent) × (caller ≡ some device)
      × (staging.0 ≡ got staged)
      × (r.1 ≡ (publish_blob faults device.account_id staged (record w { files = staging.1 })).1)
      × (r.0
          ≡ stored_answer digest
              (publish_blob faults device.account_id staged (record w { files = staging.1 })).0)

  abbrev pub IsUpload : Option AuthenticatedDevice → BlobAnswer × BlobWorld → Type 0
  IsUpload caller r = IsRefused caller r ⊎ IsUnstaged r ⊎ IsPublished caller r

  no_etag : (e : BlobError) → (stage_error_answer e).etag ≡ none
  no_etag e = ground arith

  publish_upload-IsUpload :
      (device : AuthenticatedDevice) (r : Attempt StagedContent × FileStore)
      → staging ≡ r
      → IsUpload (some device) (publish_upload digest_of max_bytes limit faults device digest r w)
  publish_upload-IsUpload device (fault e, files) h =
      inr (inl (e, ap (λ r. r.0) h, ap (λ r. record w { files = r.1 }) (sym h), no_etag e))
  publish_upload-IsUpload device (got staged, files) h =
      let published = λ (r : Attempt StagedContent × FileStore).
        publish_blob faults device.account_id staged (record w { files = r.1 }) in
      inr (
        inr (
          device,
          staged,
          refl,
          ap (λ r. r.0) h,
          ap (λ r. (published r).1) (sym h),
          ap (λ r. stored_answer digest (published r).0) (sym h),
        ))

  receive_upload-IsUpload :
      (device : AuthenticatedDevice) (length : ℤ)
      → IsUpload
          (some device)
          (receive_upload digest_of max_bytes limit faults device digest length body path w)
  receive_upload-IsUpload device length =
      if_cases (IsUpload (some device)) (exceeds length limit) (inl (refl, inl refl))
        (publish_upload-IsUpload device staging refl)

  upload_unless_held-IsUpload :
      (device : AuthenticatedDevice) (length : ℤ) (held : Attempt (Bool × ℤ))
      → blob_held_by_account faults device.account_id digest w ≡ held
      → IsUpload (some device) (
          upload_unless_held digest_of max_bytes limit faults device digest length body path held w)
  upload_unless_held-IsUpload device length (fault e) h = inl (refl, inl refl)
  upload_unless_held-IsUpload device length (got (true, n)) h = inl (refl, inr (device, n, refl, h))
  upload_unless_held-IsUpload device length (got (false, n)) h =
      receive_upload-IsUpload device length

  request-IsUpload :
      (caller : Option AuthenticatedDevice) (length : ℤ)
      → IsUpload caller
          (handle_upload_blob digest_of max_bytes limit faults caller digest length body path w)
  request-IsUpload none length = inl (refl, inl refl)
  request-IsUpload (some device) length =
      Option-split
        (λ request.
          IsUpload (some device)
            (upload_request digest_of max_bytes limit faults request digest length body path w))
        (validate_digest digest) (λ valid. upload_unless_held-IsUpload device length _ refl)
        (λ failure invalid. inl (refl, inl refl))

-- An upload, whatever fails in it, takes at most two steps, the staging of the body and then the
-- publication, for the caller's account, of what was staged. It changes nothing if it is refused,
-- and confirms the digest then only if the caller's account holds the bytes already; if the staging
-- fails it confirms nothing; otherwise its answer is that of the publication.
pub handle_upload_blob-IsUpload :
    (digest_of : Bytes → String) (max_bytes : ℕ → Reader → Reader) (limit : ℕ)
    (faults : RequestFaults) (w : BlobWorld) (caller : Option AuthenticatedDevice) (digest : String)
    (length : ℤ) (body : Reader) (path : ℕ)
    → IsUpload digest_of max_bytes limit faults digest path body w caller
        (handle_upload_blob digest_of max_bytes limit faults caller digest length body path w)
handle_upload_blob-IsUpload digest_of max_bytes limit faults w caller digest length body path =
    request-IsUpload digest_of max_bytes limit faults digest path body w caller length
