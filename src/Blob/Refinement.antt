-- ===== src/Blob/Refinement.antt =====
-- SweepOnce and handleUploadBlob are sequences of the steps: what holds of all sequences of steps
-- holds of them, whatever runs between their steps.
use vive_cserver.Base.{
  ℕ, String, refl, Bool, true, false, Option, none, some, List, [], ◌∷◌, if_cases, Bool-split,
  string_eq,
}
use vive_cserver.Base.Int.{ℤ}
use vive_cserver.Sync.Fields.{Bytes}
use vive_cserver.Sync.Change.{Codec}
use vive_cserver.Blob.Attempt.{Attempt, fault, got}
use vive_cserver.Blob.Files.{FileStore, StagedContent, Reader}
use vive_cserver.Blob.Records.{SweepableBlob}
use vive_cserver.Blob.Sweep.{
  BlobWorld, Conditions, SweepCounts, SweepPhase, begin_phase, lock_phase, delete_one, stops,
  sweep_candidates, sweep_once,
}
use vive_cserver.Blob.Upload.{
  RequestFaults, AuthenticatedDevice, BlobAnswer, BlobRequest, refused, accepted, blob_request,
  exceeds, publish_upload, receive_upload, upload_unless_held, upload_request, handle_upload_blob,
}
use vive_cserver.Blob.Backed.{Staged, stage-Staged}
use vive_cserver.Blob.Steps.{
  BlobReach, staged_upload, published_upload, marked_blobs, deleted_blob, here, next,
}

module _ (digest_of : Bytes → String) (codec : Codec) (origin : BlobWorld) where
  abbrev Reached : BlobWorld → Type 0
  Reached = BlobReach digest_of codec origin

  module _ (conditions : SweepableBlob → Conditions) (retention : ℕ) where
    sweep_candidates-Reached :
        (candidates : List SweepableBlob) (counts : SweepCounts) (w : BlobWorld)
        → Reached w
        → Reached (sweep_candidates conditions retention candidates counts w).1
    unfolding sweep_candidates
    sweep_candidates-Reached [] counts w r = r
    sweep_candidates-Reached (candidate ∷ rest) counts w r =
        let c = conditions candidate in
        let after = next r (deleted_blob c retention candidate refl) in
        Bool-split (λ (x : SweepCounts × BlobWorld). Reached x.1)
          (stops c (delete_one c retention candidate w).0) (λ stop. after)
          (λ go. sweep_candidates-Reached rest _ _ after)

-- A pass of the sweeper, whatever fails in it, is a sequence of steps.
pub sweep_once-BlobReach :
    (digest_of : Bytes → String) (codec : Codec) (fails : Option SweepPhase) (acquired : Bool)
    (now : ℕ) (conditions : SweepableBlob → Conditions) (retention : ℕ) (w : BlobWorld)
    → BlobReach digest_of codec w (sweep_once fails acquired now conditions retention w).after
sweep_once-BlobReach digest_of codec (some begin_phase) acquired now conditions retention w = here
sweep_once-BlobReach digest_of codec (some lock_phase) acquired now conditions retention w = here
sweep_once-BlobReach digest_of codec (some phase) false now conditions retention w = here
sweep_once-BlobReach digest_of codec (some phase) true now conditions retention w = here
sweep_once-BlobReach digest_of codec none false now conditions retention w = here
sweep_once-BlobReach digest_of codec none true now conditions retention w =
    sweep_candidates-Reached digest_of codec w conditions retention _ _ _
      (next here (marked_blobs now refl))

module _ (digest_of : Bytes → String) (codec : Codec) (max_bytes : ℕ → Reader → Reader) (limit : ℕ)
    (faults : RequestFaults) (w : BlobWorld) where
  abbrev Answered : BlobAnswer × BlobWorld → Type 0
  Answered r = BlobReach digest_of codec w r.1

  publish_upload-Answered :
      (device : AuthenticatedDevice) (digest : String) (path : ℕ) (body : Reader)
      (r : Attempt StagedContent × FileStore)
      → BlobReach digest_of codec w (record w { files = r.1 })
      → Staged digest_of faults.disk path digest w.files r
      → Answered (publish_upload digest_of max_bytes limit faults device digest r w)
  publish_upload-Answered device digest path body (fault e, files) r s = r
  publish_upload-Answered device digest path body (got staged, files) r s =
      next r (published_upload faults device.account_id staged s.3 refl)

  receive_upload-Answered :
      (device : AuthenticatedDevice) (digest : String) (length : ℤ) (body : Reader) (path : ℕ)
      → Answered (receive_upload digest_of max_bytes limit faults device digest length body path w)
  receive_upload-Answered device digest length body path =
      if_cases Answered (exceeds length limit) here (
        publish_upload-Answered device digest path body _
          (next here (staged_upload faults.disk path digest (max_bytes limit body) refl))
          (stage-Staged digest_of faults.disk path digest (max_bytes limit body) w.files))

  upload_unless_held-Answered :
      (device : AuthenticatedDevice) (digest : String) (length : ℤ) (body : Reader) (path : ℕ)
      (held : Attempt (Bool × ℤ))
      → Answered (
          upload_unless_held digest_of max_bytes limit faults device digest length body path held w)
  upload_unless_held-Answered device digest length body path (fault e) = here
  upload_unless_held-Answered device digest length body path (got (true, n)) = here
  upload_unless_held-Answered device digest length body path (got (false, n)) =
      receive_upload-Answered device digest length body path

  upload_request-Answered :
      (request : BlobRequest) (digest : String) (length : ℤ) (body : Reader) (path : ℕ)
      → Answered (upload_request digest_of max_bytes limit faults request digest length body path w)
  upload_request-Answered (refused answer) digest length body path = here
  upload_request-Answered (accepted device) digest length body path =
      upload_unless_held-Answered device digest length body path _

-- An upload, whatever fails in it, is a sequence of steps.
pub handle_upload_blob-BlobReach :
    (digest_of : Bytes → String) (codec : Codec) (max_bytes : ℕ → Reader → Reader) (limit : ℕ)
    (faults : RequestFaults) (w : BlobWorld) (caller : Option AuthenticatedDevice) (digest : String)
    (length : ℤ) (body : Reader) (path : ℕ)
    → BlobReach digest_of codec w
        (handle_upload_blob digest_of max_bytes limit faults caller digest length body path w).1
handle_upload_blob-BlobReach digest_of codec max_bytes limit faults w caller digest length body
      path =
    upload_request-Answered digest_of codec max_bytes limit faults w (blob_request caller digest)
      digest length body path
