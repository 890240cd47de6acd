-- ===== src/Sync/Fields/Validate.antt =====
-- The `Validate` methods of the eight field structs.
use vive_cserver.Base.{
  ℕ, ◌*◌, String, Bool, true, false, not, ◌&&◌, ◌||◌, Option, none, some, List, [], ◌∷◌, length,
  ltb, ◌==◌, str_eq,
}
use vive_cserver.Base.Int.{is_negative}
use vive_cserver.Sync.Failure.{
  Failure, too_large, invalid, must_not_be_empty, must_not_be_negative, larger_than, more_than,
  doc_digest_mismatch, fail_if, first_failure, prefix_with,
}
use vive_cserver.Sync.Text.{
  max_name_chars, max_preview_chars, validate_sync_text, validate_entity_id, validate_digest,
}
use vive_cserver.Sync.Fields.{
  bytes_of, Bytes, Fields, NotebookFields, SectionFields, PageFields, PageContentFields,
  InkStrokeFields, InkEraseFields, InkMoveFields, AttachmentFields, notebook_fields, section_fields,
  page_fields, page_content_fields, ink_stroke_fields, ink_erase_fields, ink_move_fields,
  attachment_fields,
}

abbrev pub max_doc_bytes : ℕ
max_doc_bytes = 2097152

abbrev pub max_blob_refs_per_page : ℕ
max_blob_refs_per_page = 512

abbrev pub max_codec_id_chars : ℕ
max_codec_id_chars = 128

abbrev pub max_ink_points_bytes : ℕ
max_ink_points_bytes = 4 * 1024 * 1024

abbrev pub max_ink_targets_per_operation : ℕ
max_ink_targets_per_operation = 100_000

abbrev pub max_mime_type_chars : ℕ
max_mime_type_chars = 255

-- bytes.Equal
abbrev pub bytes_eq : Bytes → Bytes → Bool
bytes_eq [] [] = true
bytes_eq (x ∷ xs) (y ∷ ys) = x == y && bytes_eq xs ys
bytes_eq _ _ = false

-- the first failure of a check over a list of texts
unfoldable pub first_of_texts : (String → Option Failure) → List String → Option Failure
first_of_texts check [] = none
first_of_texts check (s ∷ rest) = first_failure (check s ∷ first_of_texts check rest ∷ [])

unfoldable pub validate_notebook : NotebookFields → Option Failure
validate_notebook f = validate_sync_text "name" f.name max_name_chars

unfoldable pub validate_section : SectionFields → Option Failure
validate_section f =
    first_failure
      (validate_entity_id f.notebook_id ∷ validate_sync_text "name" f.name max_name_chars ∷ [])

validate_page : PageFields → Option Failure
validate_page f = first_failure (
    validate_entity_id f.section_id
    ∷ validate_sync_text "title" f.title max_name_chars
    ∷ validate_sync_text "preview" f.preview max_preview_chars
    ∷ [])

-- `digest` is sha256.Sum256(fields.Doc).
validate_page_content : (Bytes → Bytes) → PageContentFields → Option Failure
validate_page_content sha256 f = first_failure (
    validate_entity_id f.page_id
    ∷ fail_if (ltb max_doc_bytes (length (bytes_of f.doc)))
        (too_large (larger_than "doc" max_doc_bytes))
    ∷ fail_if (str_eq f.format "") (invalid (must_not_be_empty "format"))
    ∷ validate_sync_text "format" f.format max_codec_id_chars
    ∷ validate_sync_text "enc" f.enc max_codec_id_chars
    ∷ fail_if (ltb 0 (length f.doc_sha256) && not (bytes_eq f.doc_sha256 (sha256 (bytes_of f.doc))))
        (invalid doc_digest_mismatch)
    ∷ fail_if (ltb max_blob_refs_per_page (length f.blob_refs))
        (too_large (more_than "attachments" max_blob_refs_per_page))
    ∷ prefix_with "blobRefs" (first_of_texts validate_digest f.blob_refs)
    ∷ [])

validate_ink_points : Bytes → Option Failure
validate_ink_points points =
    fail_if (ltb max_ink_points_bytes (length points))
      (too_large (larger_than "points" max_ink_points_bytes))

validate_group_id : Option String → Option Failure
validate_group_id none = none
validate_group_id (some id) = prefix_with "groupId" (validate_entity_id id)

validate_ink_stroke : InkStrokeFields → Option Failure
unfolding validate_ink_points validate_group_id
validate_ink_stroke f = first_failure (
    validate_entity_id f.page_id
    ∷ fail_if (is_negative f.draw_order) (invalid (must_not_be_negative "drawOrder"))
    ∷ fail_if (str_eq f.brush_family "") (invalid (must_not_be_empty "brushFamily"))
    ∷ validate_sync_text "brushFamily" f.brush_family max_codec_id_chars
    ∷ validate_ink_points (bytes_of f.points)
    ∷ validate_sync_text "enc" f.enc max_codec_id_chars
    ∷ validate_group_id f.group_id
    ∷ [])

validate_ink_targets : List String → Option Failure
validate_ink_targets target_ids = first_failure (
    fail_if (ltb max_ink_targets_per_operation (length target_ids))
      (too_large (more_than "targets" max_ink_targets_per_operation))
    ∷ prefix_with "targetIds" (first_of_texts validate_entity_id target_ids)
    ∷ [])

validate_ink_erase : InkEraseFields → Option Failure
unfolding validate_ink_points validate_ink_targets
validate_ink_erase f = first_failure (
    validate_entity_id f.page_id
    ∷ fail_if (str_eq f.mode "") (invalid (must_not_be_empty "mode"))
    ∷ validate_sync_text "mode" f.mode max_codec_id_chars
    ∷ validate_ink_points (bytes_of f.points)
    ∷ validate_sync_text "enc" f.enc max_codec_id_chars
    ∷ validate_ink_targets f.target_ids
    ∷ [])

validate_ink_move : InkMoveFields → Option Failure
unfolding validate_ink_points validate_ink_targets
validate_ink_move f = first_failure (
    validate_entity_id f.page_id
    ∷ validate_ink_points (bytes_of f.points)
    ∷ validate_sync_text "enc" f.enc max_codec_id_chars
    ∷ validate_ink_targets f.target_ids
    ∷ [])

validate_attachment : AttachmentFields → Option Failure
validate_attachment f = first_failure (
    fail_if (str_eq f.mime_type "") (invalid (must_not_be_empty "mimeType"))
    ∷ validate_sync_text "mimeType" f.mime_type max_mime_type_chars
    ∷ fail_if (is_negative f.pixel_width || is_negative f.pixel_height)
        (invalid (must_not_be_negative "pixelWidth and pixelHeight"))
    ∷ fail_if (is_negative f.byte_count) (invalid (must_not_be_negative "byteCount"))
    ∷ [])

-- EntityFields.Validate. `sha256` is crypto/sha256.
unfoldable pub validate : (Bytes → Bytes) → Fields → Option Failure
unfolding validate_notebook validate_section validate_page validate_page_content validate_ink_stroke
    validate_ink_erase validate_ink_move validate_attachment
validate sha256 (notebook_fields f) = validate_notebook f
validate sha256 (section_fields f) = validate_section f
validate sha256 (page_fields f) = validate_page f
validate sha256 (page_content_fields f) = validate_page_content sha256 f
validate sha256 (ink_stroke_fields f) = validate_ink_stroke f
validate sha256 (ink_erase_fields f) = validate_ink_erase f
validate sha256 (ink_move_fields f) = validate_ink_move f
validate sha256 (attachment_fields f) = validate_attachment f
