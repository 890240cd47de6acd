-- ===== src/Store/Weight.antt =====
-- The byteWeight formulas of the kinds: changeEnvelopeBytes of synctables.go and the constants of
-- notebooks.go, sections.go, pages.go, pagecontent.go, inkstrokes.go, inkoperations.go and
-- attachments.go. No value is rendered for them.
use vive_cserver.Base.{
  ℕ, ◌+◌, ◌*◌, ◌/◌, String, str_eq, Bool, ◌&&◌, Option, none, some, keep, length,
}
use vive_cserver.Sync.Kind.{RowKey}
use vive_cserver.Sync.Object.{Object}
use vive_cserver.Sync.Fields.{
  Bytes, bytes_of, Fields, NotebookFields, SectionFields, PageFields, PageContentFields,
  InkStrokeFields, InkEraseFields, InkMoveFields, AttachmentFields, notebook_fields, section_fields,
  page_fields, page_content_fields, ink_stroke_fields, ink_erase_fields, ink_move_fields,
  attachment_fields,
}
use vive_cserver.Store.Database.{Database, StoredRow}

-- What the database measures and compares: octet_length of a text, pg_column_size of `extra`, the
-- length of a rendered change, and the collation of `ORDER BY`.
pub record Measures : Type 0 where
  pub octet_length : String → ℕ
  pub column_size : Object → ℕ
  pub rendered_length : Object → ℕ
  pub text_le : String → String → Bool

-- the weight of each row
abbrev pub Weigh : Type 0
Weigh = RowKey → StoredRow → ℕ

module _ (m : Measures) where
  -- changeEnvelopeBytes
  abbrev pub change_envelope_bytes : RowKey → StoredRow → ℕ
  change_envelope_bytes key row = 120 + m.octet_length key.id + m.column_size row.extra

  -- ((octet_length(bytes) + 2) / 3) * 4
  abbrev pub base64_length : Option Bytes → ℕ
  base64_length bytes = (length (bytes_of bytes) + 2) / 3 * 4

  abbrev optional_length : Option String → ℕ
  optional_length none = 0
  optional_length (some s) = m.octet_length s

  abbrev refs_count : Database → String → String → ℕ
  refs_count db account_id page_id = length (
      keep (λ ref. str_eq ref.account_id account_id && str_eq ref.page_id page_id)
        db.page_blob_refs)

  abbrev pub notebook_byte_weight : NotebookFields → ℕ
  notebook_byte_weight f = 110 + m.octet_length f.name

  abbrev pub section_byte_weight : SectionFields → ℕ
  section_byte_weight f = 100 + m.octet_length f.name + m.octet_length f.notebook_id

  abbrev pub page_byte_weight : PageFields → ℕ
  page_byte_weight f =
      100 + m.octet_length f.title + m.octet_length f.preview + m.octet_length f.section_id

  abbrev pub page_content_byte_weight : Database → String → PageContentFields → ℕ
  page_content_byte_weight db account_id f =
      130
      + m.octet_length f.page_id
      + base64_length f.doc
      + 44
      + refs_count db account_id f.page_id * 70

  abbrev pub ink_stroke_byte_weight : InkStrokeFields → ℕ
  ink_stroke_byte_weight f =
      260
      + m.octet_length f.page_id
      + m.octet_length f.brush_family
      + optional_length f.group_id
      + base64_length f.points

  abbrev pub ink_erase_byte_weight : InkEraseFields → ℕ
  ink_erase_byte_weight f =
      150
      + m.octet_length f.page_id
      + m.octet_length f.mode
      + base64_length f.points
      + length f.target_ids * 44

  abbrev pub ink_move_byte_weight : InkMoveFields → ℕ
  ink_move_byte_weight f =
      190 + m.octet_length f.page_id + base64_length f.points + length f.target_ids * 44

  abbrev pub attachment_byte_weight : AttachmentFields → ℕ
  attachment_byte_weight f = 130 + m.octet_length f.mime_type

  -- the kind's own part of its byteWeight
  unfoldable pub fields_byte_weight : Database → String → Fields → ℕ
  fields_byte_weight db account_id (notebook_fields f) = notebook_byte_weight f
  fields_byte_weight db account_id (section_fields f) = section_byte_weight f
  fields_byte_weight db account_id (page_fields f) = page_byte_weight f
  fields_byte_weight db account_id (page_content_fields f) =
      page_content_byte_weight db account_id f
  fields_byte_weight db account_id (ink_stroke_fields f) = ink_stroke_byte_weight f
  fields_byte_weight db account_id (ink_erase_fields f) = ink_erase_byte_weight f
  fields_byte_weight db account_id (ink_move_fields f) = ink_move_byte_weight f
  fields_byte_weight db account_id (attachment_fields f) = attachment_byte_weight f

  -- byteWeight
  unfoldable pub byte_weight : Database → RowKey → StoredRow → ℕ
  unfolding fields_byte_weight
  byte_weight db key row =
      change_envelope_bytes key row + fields_byte_weight db key.account_id row.fields
