-- ===== src/Sync/Fields.antt =====
-- The field structs of the eight kinds: notebooks.go, sections.go, pages.go, pagecontent.go,
-- inkstrokes.go, inkoperations.go and attachments.go of internal/store.
-- A float32 is its IEEE bit pattern: the server stores and returns it and never computes with it.
pub mod Validate
pub mod Blobs
pub mod Retain
pub mod Stored
pub mod Render
pub mod Shelf
use vive_cserver.Base.{ℕ, String, Bool, true, false, Option, none, some, List, []}
use vive_cserver.Base.Int.{ℤ}
use vive_cserver.Sync.Kind.{
  Kind, notebook, section, page, page_content, ink_stroke, ink_erase, ink_move, attachment,
}

abbrev pub Bytes : Type 0
Bytes = List ℕ

-- A nil []byte, which JSON's null or an absent key leaves, has no bytes.
abbrev pub bytes_of : Option Bytes → Bytes
bytes_of none = []
bytes_of (some bytes) = bytes

abbrev pub Float32 : Type 0
Float32 = ℕ

pub record NotebookFields : Type 0 where
  pub name : String
  pub color_argb : ℤ
  pub sort_index : ℤ
  pub expanded : Bool
  pub closed_at : Option ℤ
  pub cloud_only_at : Option ℤ
  pub created_at : ℤ

pub record SectionFields : Type 0 where
  pub notebook_id : String
  pub name : String
  pub color_argb : ℤ
  pub sort_index : ℤ
  pub created_at : ℤ

pub record PageFields : Type 0 where
  pub section_id : String
  pub title : String
  pub sort_index : ℤ
  pub preview : String
  pub created_at : ℤ

pub record PageContentFields : Type 0 where
  pub page_id : String
  pub doc : Option Bytes
  pub doc_sha256 : Bytes
  pub format : String
  pub enc : String
  pub blob_refs : List String

pub record InkStrokeFields : Type 0 where
  pub page_id : String
  pub draw_order : ℤ
  pub brush_family : String
  pub brush_version : ℤ
  pub size_dp : Float32
  pub color_argb : ℤ
  pub color_follows_theme : Option Bool
  pub epsilon : Float32
  pub stabilization : ℤ
  pub min_x : Float32
  pub min_y : Float32
  pub max_x : Float32
  pub max_y : Float32
  pub points : Option Bytes
  pub enc : String
  pub created_at : ℤ
  pub group_id : Option String

pub record InkEraseFields : Type 0 where
  pub page_id : String
  pub mode : String
  pub size_dp : Float32
  pub points : Option Bytes
  pub enc : String
  pub created_at : ℤ
  pub target_ids : List String

pub record InkMoveFields : Type 0 where
  pub page_id : String
  pub dx_dp : Float32
  pub dy_dp : Float32
  pub scale_x : Float32
  pub scale_y : Float32
  pub anchor_x : Float32
  pub anchor_y : Float32
  pub points : Option Bytes
  pub enc : String
  pub created_at : ℤ
  pub target_ids : List String

pub record AttachmentFields : Type 0 where
  pub mime_type : String
  pub pixel_width : ℤ
  pub pixel_height : ℤ
  pub byte_count : ℤ
  pub created_at : ℤ

-- EntityFields: one implementation for each kind.
pub data Fields : Type 0 where
  notebook_fields : NotebookFields → Fields
  section_fields : SectionFields → Fields
  page_fields : PageFields → Fields
  page_content_fields : PageContentFields → Fields
  ink_stroke_fields : InkStrokeFields → Fields
  ink_erase_fields : InkEraseFields → Fields
  ink_move_fields : InkMoveFields → Fields
  attachment_fields : AttachmentFields → Fields

-- The kind whose `newFields` makes these.
unfoldable pub kind_of : Fields → Kind
kind_of (notebook_fields f) = notebook
kind_of (section_fields f) = section
kind_of (page_fields f) = page
kind_of (page_content_fields f) = page_content
kind_of (ink_stroke_fields f) = ink_stroke
kind_of (ink_erase_fields f) = ink_erase
kind_of (ink_move_fields f) = ink_move
kind_of (attachment_fields f) = attachment

-- ParentID, "" for a kind with no parent
unfoldable pub parent_id : Fields → String
parent_id (notebook_fields f) = ""
parent_id (section_fields f) = f.notebook_id
parent_id (page_fields f) = f.section_id
parent_id (page_content_fields f) = f.page_id
parent_id (ink_stroke_fields f) = f.page_id
parent_id (ink_erase_fields f) = f.page_id
parent_id (ink_move_fields f) = f.page_id
parent_id (attachment_fields f) = ""
