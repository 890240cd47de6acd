-- ===== src/Sync/Decode.antt =====
-- internal/syncengine/changes.go: decodeChanges, decodeChange, collectExtraFields, refuse, reasonFor.
pub mod Read
pub mod Unique
use Prim.Native.String.{◌++◌ as text_append}
use vive_cserver.Base.{
  ℕ, ◌*◌, String, len, contains, Bool, ◌||◌, Option, none, some, List, [], ◌∷◌, length, ltb, leb,
  if◌then◌else◌,
}
use vive_cserver.Base.Int.{pos, is_negative}
use vive_cserver.Sync.Kind
use vive_cserver.Sync.Kind.{
  Kind, notebook, section, page, page_content, ink_stroke, ink_erase, ink_move, attachment, rank,
  sync_kinds, sync_kind_by_name,
}
use vive_cserver.Sync.Failure
use vive_cserver.Sync.Failure.{Failure, larger_than}
use vive_cserver.Sync.Text.{validate_entity_id}
use vive_cserver.Sync.Fields.Validate.{validate}
use vive_cserver.Sync.Fields.Blobs.{Digests, digests, required_blob_digests}
use vive_cserver.Sync.Change.{
  Reason, malformed, RejectionMessage, not_a_readable_object, unknown_entity_kind,
  base_version_negative, appears_more_than_once, does_not_fit_its_kind, reported, WireEnvelope,
  DecodedChange, refused, readable, Codec, change_kind,
}

abbrev pub max_extra_bytes : ℕ
max_extra_bytes = 16 * 1024

-- reservedChangeKeys
abbrev pub reserved_change_keys : List String
reserved_change_keys =
    "kind" ∷ "id" ∷ "baseVersion" ∷ "version" ∷ "seq" ∷ "deletedAt" ∷ "updatedAt" ∷ []

-- jsonFieldKeysOf(kind.newFields()): the JSON tags of the kind's struct
unfoldable pub field_keys : Kind → List String
field_keys notebook =
    "name" ∷ "colorArgb" ∷ "sortIndex" ∷ "expanded" ∷ "closedAt" ∷ "cloudOnlyAt" ∷ "createdAt" ∷ []
field_keys section = "notebookId" ∷ "name" ∷ "colorArgb" ∷ "sortIndex" ∷ "createdAt" ∷ []
field_keys page = "sectionId" ∷ "title" ∷ "sortIndex" ∷ "preview" ∷ "createdAt" ∷ []
field_keys page_content = "pageId" ∷ "doc" ∷ "docSha256" ∷ "format" ∷ "enc" ∷ "blobRefs" ∷ []
field_keys ink_stroke =
    "pageId" ∷ "drawOrder" ∷ "brushFamily" ∷ "brushVersion" ∷ "sizeDp" ∷ "colorArgb"
    ∷ "colorFollowsTheme" ∷ "epsilon" ∷ "stabilization" ∷ "minX" ∷ "minY" ∷ "maxX" ∷ "maxY"
    ∷ "points" ∷ "enc" ∷ "createdAt" ∷ "groupId" ∷ []
field_keys ink_erase =
    "pageId" ∷ "mode" ∷ "sizeDp" ∷ "points" ∷ "enc" ∷ "createdAt" ∷ "targetIds" ∷ []
field_keys ink_move =
    "pageId" ∷ "dxDp" ∷ "dyDp" ∷ "scaleX" ∷ "scaleY" ∷ "anchorX" ∷ "anchorY" ∷ "points" ∷ "enc"
    ∷ "createdAt" ∷ "targetIds" ∷ []
field_keys attachment = "mimeType" ∷ "pixelWidth" ∷ "pixelHeight" ∷ "byteCount" ∷ "createdAt" ∷ []

-- IsReservedChangeKey(key) || kind.ClaimsField(key)
unfoldable pub recognised : Kind → String → Bool
unfolding field_keys
recognised kind key = contains reserved_change_keys key || contains (field_keys kind) key

-- the keys that are left after the loop of deletions
unfoldable pub unrecognised : Kind → List (String × String) → List (String × String)
unfolding recognised
unrecognised kind [] = []
unrecognised kind ((key, value) ∷ rest) =
    let kept = unrecognised kind rest in if recognised kind key then kept else (key, value) ∷ kept

pub data Extra : Type 0 where
  extra : String → Extra
  extra_refused : Failure → Extra

unfoldable pub encode_extra : Codec → List (String × String) → Extra
encode_extra codec [] = extra "{}"
encode_extra codec (kv ∷ rest) = elim (codec.marshal_object (kv ∷ rest)) [
  | none ↦ extra_refused (Failure.invalid Failure.extra_not_storable)
  | some encoded ↦
      if ltb max_extra_bytes (len encoded)
      then extra_refused (Failure.too_large (larger_than "unrecognised fields" max_extra_bytes))
      else extra encoded
]

unfoldable pub collect_extra_fields : Codec → String → Kind → Extra
unfolding encode_extra
collect_extra_fields codec raw kind = elim (codec.unmarshal_object raw) [
  | none ↦ extra_refused (Failure.invalid Failure.not_a_readable_object)
  | some by_key ↦ encode_extra codec (unrecognised kind by_key)
]

unfoldable pub reason_for : Failure → Reason
reason_for (Failure.too_large m) = Reason.too_large
reason_for (Failure.invalid m) = Reason.malformed

abbrev message_of : Failure → RejectionMessage
message_of (Failure.too_large m) = reported m
message_of (Failure.invalid m) = reported m

abbrev refuse : Option Kind → String → String → Reason → RejectionMessage → DecodedChange
refuse kind kind_name entity_id reason message = refused kind (record {
  kind = kind_name;
  id = entity_id;
  reason = reason;
  message = message;
  current = none;
})

abbrev refuse_failure : Kind → String → Failure → DecodedChange
unfolding reason_for
refuse_failure kind entity_id failure =
    refuse (some kind) (Kind.name kind) entity_id (reason_for failure) (message_of failure)

-- decodeChange from `kind.NewFields()` on: what is read once the entity is known to be new
unfoldable pub decode_fields : Codec → String → WireEnvelope → Kind → DecodedChange
unfolding collect_extra_fields refuse_failure
decode_fields codec raw envelope kind = elim (codec.unmarshal_fields kind raw) [
  | none ↦ refuse (some kind) (Kind.name kind) envelope.id malformed does_not_fit_its_kind
  | some fields ↦ elim (validate codec.encoders.sha256 fields) [
    | some failure ↦ refuse_failure kind envelope.id failure
    | none ↦ elim (collect_extra_fields codec raw kind) [
      | extra_refused failure ↦ refuse_failure kind envelope.id failure
      | extra encoded ↦ elim (required_blob_digests fields envelope.id) [
        | Digests.refused failure ↦ refuse_failure kind envelope.id failure
        | digests required ↦ readable (record {
          kind = kind;
          envelope = record {
            account_id = "";
            id = envelope.id;
            version = pos 0;
            change_seq = 0;
            deleted_at = envelope.deleted_at;
            updated_at = envelope.updated_at;
            last_writer = "";
            extra = encoded;
          };
          fields = fields;
          base_version = envelope.base_version;
          required_blobs = required;
        })
      ]
    ]
  ]
]

-- kind.Name + "\x00" + envelope.ID
unfoldable pub entity_key : Kind → String → String
entity_key kind id = text_append (Kind.name kind) (text_append "\0" id)

-- decodeChange, with `seenEntities` before and after
unfoldable pub decode_change : Codec → List String → String → DecodedChange × List String
unfolding refuse_failure
decode_change codec seen raw = elim (codec.unmarshal_envelope raw) [
  | none ↦ (refuse none "" "" malformed not_a_readable_object, seen)
  | some envelope ↦ elim (sync_kind_by_name envelope.kind) [
    | none ↦ (refuse none envelope.kind envelope.id malformed unknown_entity_kind, seen)
    | some kind ↦ elim (validate_entity_id envelope.id) [
      | some failure ↦ (refuse_failure kind envelope.id failure, seen)
      | none ↦
          if is_negative envelope.base_version
          then (
            refuse (some kind) (Kind.name kind) envelope.id malformed base_version_negative,
            seen,
          )
          else if contains seen (entity_key kind envelope.id)
          then (
            refuse (some kind) (Kind.name kind) envelope.id malformed appears_more_than_once,
            seen,
          )
          else (decode_fields codec raw envelope kind, entity_key kind envelope.id ∷ seen)
    ]
  ]
]

-- the loop of decodeChanges
unfoldable pub decode_each : Codec → List String → List String → List DecodedChange
decode_each codec seen [] = []
decode_each codec seen (raw ∷ raws) =
    let (decoded, seen') = decode_change codec seen raw in decoded ∷ decode_each codec seen' raws

unfoldable pub apply_rank_of : DecodedChange → ℕ
unfolding change_kind sync_kinds
apply_rank_of change = elim (change_kind change) [
  | none ↦ length sync_kinds
  | some kind ↦ rank kind
]

-- sort.SliceStable by applyRankOf: a change goes before the first one of a higher rank
unfoldable pub insert_change : DecodedChange → List DecodedChange → List DecodedChange
unfolding apply_rank_of
insert_change c [] = c ∷ []
insert_change c (d ∷ ds) =
    let rest = insert_change c ds in
    if leb (apply_rank_of c) (apply_rank_of d) then c ∷ d ∷ ds else d ∷ rest

unfoldable pub sort_changes : List DecodedChange → List DecodedChange
unfolding insert_change
sort_changes [] = []
sort_changes (c ∷ cs) = insert_change c (sort_changes cs)

unfoldable pub decode_changes : Codec → List String → List DecodedChange
unfolding decode_each sort_changes
decode_changes codec raws = sort_changes (decode_each codec [] raws)
