-- ===== src/Sync/Fields/Render.antt =====
-- The `...ChangeJSON` expressions: a stored row as the object that a client receives.
use Prim.Native.Nat.{Ordering}
use Prim.Native.String.{compare}
use vive_cserver.Base.{String, str_eq, ◌&&◌, List, [], ◌∷◌, ◌++◌, if◌then◌else◌}
use vive_cserver.Base.Int.{pos}
use vive_cserver.Sync.Kind
use vive_cserver.Sync.Kind.{Kind, RowKey}
use vive_cserver.Sync.Object.{
  Object, num, bool, text, float, base64, texts, merge, num_or_null, text_or_null, bool_or_null,
}
use vive_cserver.Sync.Fields.{
  bytes_of, NotebookFields, SectionFields, PageFields, PageContentFields, InkStrokeFields,
  InkEraseFields, InkMoveFields, AttachmentFields, Fields, notebook_fields, section_fields,
  page_fields, page_content_fields, ink_stroke_fields, ink_erase_fields, ink_move_fields,
  attachment_fields,
}
use vive_cserver.Store.Database.{Database, StoredRow, BlobRef}

-- Digests in the order of their bytes, which is that of their hex forms.
unfoldable pub insert_digest : String → List String → List String
insert_digest digest [] = digest ∷ []
insert_digest digest (d ∷ ds) =
    let rest = insert_digest digest ds in
    elim (compare digest d) [ Ordering.gt ↦ d ∷ rest | _ ↦ digest ∷ d ∷ ds ]

-- SELECT encode(sha256, 'hex') FROM page_blob_refs WHERE account_id = $1 AND page_id = $2
-- ORDER BY sha256
unfoldable pub refs_of_page : String → String → List BlobRef → List String
unfolding insert_digest
refs_of_page account_id page_id [] = []
refs_of_page account_id page_id (ref ∷ refs) =
    let rest = refs_of_page account_id page_id refs in
    if str_eq ref.account_id account_id && str_eq ref.page_id page_id
    then insert_digest ref.digest rest
    else rest

-- notebookChangeJSON
abbrev pub render_notebook : NotebookFields → Object
render_notebook f =
    ("name", text f.name)
    ∷ ("colorArgb", num f.color_argb)
    ∷ ("sortIndex", num f.sort_index)
    ∷ ("expanded", bool f.expanded)
    ∷ ("closedAt", num_or_null f.closed_at)
    ∷ ("cloudOnlyAt", num_or_null f.cloud_only_at)
    ∷ ("createdAt", num f.created_at)
    ∷ []

-- sectionChangeJSON
abbrev pub render_section : SectionFields → Object
render_section f =
    ("notebookId", text f.notebook_id)
    ∷ ("name", text f.name)
    ∷ ("colorArgb", num f.color_argb)
    ∷ ("sortIndex", num f.sort_index)
    ∷ ("createdAt", num f.created_at)
    ∷ []

-- pageChangeJSON
abbrev pub render_page : PageFields → Object
render_page f =
    ("sectionId", text f.section_id)
    ∷ ("title", text f.title)
    ∷ ("sortIndex", num f.sort_index)
    ∷ ("preview", text f.preview)
    ∷ ("createdAt", num f.created_at)
    ∷ []

-- pageContentChangeJSON
abbrev pub render_page_content : PageContentFields → List String → Object
render_page_content f refs =
    ("pageId", text f.page_id)
    ∷ ("doc", base64 (bytes_of f.doc))
    ∷ ("docSha256", base64 f.doc_sha256)
    ∷ ("format", text f.format)
    ∷ ("enc", text f.enc)
    ∷ ("blobRefs", texts refs)
    ∷ []

-- inkStrokeChangeJSON
abbrev pub render_ink_stroke : InkStrokeFields → Object
render_ink_stroke f =
    ("pageId", text f.page_id)
    ∷ ("drawOrder", num f.draw_order)
    ∷ ("brushFamily", text f.brush_family)
    ∷ ("brushVersion", num f.brush_version)
    ∷ ("sizeDp", float f.size_dp)
    ∷ ("colorArgb", num f.color_argb)
    ∷ ("colorFollowsTheme", bool_or_null f.color_follows_theme)
    ∷ ("epsilon", float f.epsilon)
    ∷ ("stabilization", num f.stabilization)
    ∷ ("minX", float f.min_x)
    ∷ ("minY", float f.min_y)
    ∷ ("maxX", float f.max_x)
    ∷ ("maxY", float f.max_y)
    ∷ ("points", base64 (bytes_of f.points))
    ∷ ("enc", text f.enc)
    ∷ ("createdAt", num f.created_at)
    ∷ ("groupId", text_or_null f.group_id)
    ∷ []

-- inkEraseChangeJSON
abbrev pub render_ink_erase : InkEraseFields → Object
render_ink_erase f =
    ("pageId", text f.page_id)
    ∷ ("mode", text f.mode)
    ∷ ("sizeDp", float f.size_dp)
    ∷ ("points", base64 (bytes_of f.points))
    ∷ ("enc", text f.enc)
    ∷ ("createdAt", num f.created_at)
    ∷ ("targetIds", texts f.target_ids)
    ∷ []

-- inkMoveChangeJSON
abbrev pub render_ink_move : InkMoveFields → Object
render_ink_move f =
    ("pageId", text f.page_id)
    ∷ ("dxDp", float f.dx_dp)
    ∷ ("dyDp", float f.dy_dp)
    ∷ ("scaleX", float f.scale_x)
    ∷ ("scaleY", float f.scale_y)
    ∷ ("anchorX", float f.anchor_x)
    ∷ ("anchorY", float f.anchor_y)
    ∷ ("points", base64 (bytes_of f.points))
    ∷ ("enc", text f.enc)
    ∷ ("createdAt", num f.created_at)
    ∷ ("targetIds", texts f.target_ids)
    ∷ []

-- attachmentChangeJSON
abbrev pub render_attachment : AttachmentFields → Object
render_attachment f =
    ("mimeType", text f.mime_type)
    ∷ ("pixelWidth", num f.pixel_width)
    ∷ ("pixelHeight", num f.pixel_height)
    ∷ ("byteCount", num f.byte_count)
    ∷ ("createdAt", num f.created_at)
    ∷ []

-- the kind's own half of jsonb_build_object
unfoldable pub render_fields : Fields → List String → Object
render_fields (notebook_fields f) refs = render_notebook f
render_fields (section_fields f) refs = render_section f
render_fields (page_fields f) refs = render_page f
render_fields (page_content_fields f) refs = render_page_content f refs
render_fields (ink_stroke_fields f) refs = render_ink_stroke f
render_fields (ink_erase_fields f) refs = render_ink_erase f
render_fields (ink_move_fields f) refs = render_ink_move f
render_fields (attachment_fields f) refs = render_attachment f

-- the envelope half of jsonb_build_object
unfoldable pub render_envelope : RowKey → StoredRow → Object
render_envelope key row =
    ("kind", text (Kind.name key.kind))
    ∷ ("id", text key.id)
    ∷ ("version", num row.version)
    ∷ ("seq", num (pos row.change_seq))
    ∷ ("deletedAt", num_or_null row.deleted_at)
    ∷ ("updatedAt", num row.updated_at)
    ∷ []

page_of : Fields → String
page_of (page_content_fields f) = f.page_id
page_of _ = ""

-- extra || jsonb_build_object(...)
unfoldable pub change_json : Database → RowKey → StoredRow → Object
unfolding page_of refs_of_page
change_json db key row = merge row.extra (
    render_envelope key row
    ++ render_fields row.fields
        (refs_of_page key.account_id (page_of row.fields) db.page_blob_refs))
