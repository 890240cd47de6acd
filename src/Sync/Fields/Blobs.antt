-- ===== src/Sync/Fields/Blobs.antt =====
-- The optional interfaces of a kind that references attachment bytes: BlobReferencingFields,
-- BlobConsistencyChecker and the reference rows of pagecontent.go.
use vive_cserver.Base.{String, Option, none, some, List, [], ◌∷◌, if◌then◌else◌, string_eq}
use vive_cserver.Base.Int.{ℤ, int_eq}
use vive_cserver.Base.Table.{Table, lookup}
use vive_cserver.Sync.Failure.{Failure, invalid, size_mismatch, prefix_failure}
use vive_cserver.Sync.Text.{validate_digest}
use vive_cserver.Sync.Fields.{Fields, page_content_fields, attachment_fields}

pub data Digests : Type 0 where
  digests : List String → Digests
  refused : Failure → Digests

-- RequiredBlobDigests; a kind that does not implement it requires none.
unfoldable pub required_blob_digests : Fields → String → Digests
required_blob_digests (page_content_fields f) entity_id = digests f.blob_refs
required_blob_digests (attachment_fields f) entity_id = elim (validate_digest entity_id) [
  | none ↦ digests (entity_id ∷ [])
  | some failure ↦
      refused (prefix_failure "an attachment id is the hex SHA-256 of its bytes" failure)
]
required_blob_digests _ entity_id = digests []

-- CheckBlobPresence over StoredBlobs, the sizes of the stored digests; nil for the other kinds.
unfoldable pub check_blob_presence : Fields → String → Table String ℤ → Option Failure
check_blob_presence (attachment_fields f) entity_id present = elim (lookup entity_id present) [
  | none ↦ none
  | some byte_count ↦
      if int_eq f.byte_count byte_count
      then none
      else some (invalid (size_mismatch byte_count f.byte_count))
]
check_blob_presence _ entity_id present = none
