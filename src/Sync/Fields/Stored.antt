-- ===== src/Sync/Fields/Stored.antt =====
-- What the `upsertStatement` methods put into the columns, and `inkEncodingOr`,
-- `inkTargetsOrEmpty`. A nil slice of bytes is a null column; of texts, nil and empty are one list.
use vive_cserver.Base.{String, ◌≡◌, refl, [], if◌then◌else◌, str_eq}
use vive_cserver.Sync.Fields.{
  Bytes, bytes_of, NotebookFields, SectionFields, PageFields, PageContentFields, InkStrokeFields,
  InkEraseFields, InkMoveFields, AttachmentFields, section_fields, page_fields, attachment_fields,
  Fields, kind_of, parent_id, notebook_fields, page_content_fields, ink_stroke_fields,
  ink_erase_fields, ink_move_fields,
}

abbrev pub default_encoding : String
default_encoding = "none/1"

abbrev pub default_ink_encoding : String
default_ink_encoding = "ink/v1"

pub ink_encoding_or : String → String
ink_encoding_or encoding = if str_eq encoding "" then default_ink_encoding else encoding

-- The columns of the kinds that are written as they come.
abbrev pub stored_notebook : NotebookFields → NotebookFields
stored_notebook f = f

abbrev pub stored_section : SectionFields → SectionFields
stored_section f = f

abbrev pub stored_page : PageFields → PageFields
stored_page f = f

abbrev pub stored_attachment : AttachmentFields → AttachmentFields
stored_attachment f = f

-- A document's digest is computed from its bytes; its references have a table of their own
-- (`page_blob_refs`) and no column.
abbrev pub stored_page_content : (Bytes → Bytes) → PageContentFields → PageContentFields
stored_page_content sha256 f = record f {
  doc_sha256 = sha256 (bytes_of f.doc);
  enc = if str_eq f.enc "" then default_encoding else f.enc;
  blob_refs = [];
}

abbrev pub stored_ink_stroke : InkStrokeFields → InkStrokeFields
stored_ink_stroke f = record f { enc = ink_encoding_or f.enc }

abbrev pub stored_ink_erase : InkEraseFields → InkEraseFields
stored_ink_erase f = record f { enc = ink_encoding_or f.enc }

abbrev pub stored_ink_move : InkMoveFields → InkMoveFields
stored_ink_move f = record f { enc = ink_encoding_or f.enc }

-- The columns of a row of any kind.
unfoldable pub stored_fields : (Bytes → Bytes) → Fields → Fields
stored_fields sha256 (notebook_fields f) = notebook_fields (stored_notebook f)
stored_fields sha256 (section_fields f) = section_fields (stored_section f)
stored_fields sha256 (page_fields f) = page_fields (stored_page f)
stored_fields sha256 (page_content_fields f) = page_content_fields (stored_page_content sha256 f)
stored_fields sha256 (ink_stroke_fields f) = ink_stroke_fields (stored_ink_stroke f)
stored_fields sha256 (ink_erase_fields f) = ink_erase_fields (stored_ink_erase f)
stored_fields sha256 (ink_move_fields f) = ink_move_fields (stored_ink_move f)
stored_fields sha256 (attachment_fields f) = attachment_fields (stored_attachment f)

-- The columns are of the same kind and name the same parent.
pub kind_of-stored_fields :
    (sha256 : Bytes → Bytes) (f : Fields) → kind_of (stored_fields sha256 f) ≡ kind_of f
unfolding kind_of stored_fields
kind_of-stored_fields sha256 (notebook_fields f) = refl
kind_of-stored_fields sha256 _ = refl

pub parent_id-stored_fields :
    (sha256 : Bytes → Bytes) (f : Fields) → parent_id (stored_fields sha256 f) ≡ parent_id f
unfolding parent_id stored_fields
parent_id-stored_fields sha256 (notebook_fields f) = refl
parent_id-stored_fields sha256 _ = refl
