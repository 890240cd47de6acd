-- ===== src/Blob/Attempt.antt =====
-- What an operation on attachments answers. Operations also change a state, error or not, and give
-- it beside the answer.
use vive_cserver.Sync.Failure.{Failure}

pub data BlobError : Type 0 where
  -- ValidateDigest
  malformed_digest : Failure → BlobError
  -- ErrNotFound
  not_found : BlobError
  -- ErrDigestMismatch
  digest_mismatch : BlobError
  -- http.MaxBytesError, wrapped
  body_too_large : BlobError
  -- an error of the file system or of the connection that sends a body
  io_failed : BlobError
  -- an error of the database, the transaction rolled back
  database_failed : BlobError

pub data Attempt {ℓ} (A : Type ℓ) : Type ℓ where
  fault : BlobError → Attempt A
  got : A → Attempt A
