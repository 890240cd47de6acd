-- ===== src/Store/Write.antt =====
-- WriteChanges of synctables.go with the `upsertStatement` and `auxiliaryStatements` of the kinds.
use vive_cserver.Base.{
  ℕ, String, str_eq, Bool, false, not, ◌&&◌, ◌||◌, Option, none, some, List, [], ◌∷◌, ◌++◌, keep,
  if◌then◌else◌, ltb, string_eq,
}
use vive_cserver.Base.Int.{ℤ, pos, negsuc, int_eq}
use vive_cserver.Base.Table.{Table, lookup, put}
use vive_cserver.Sync.Kind.{Kind, RowKey, page_content, kind_eq}
use vive_cserver.Sync.Object.{Object}
use vive_cserver.Sync.Text.{validate_digest}
use vive_cserver.Sync.Fields.{
  Bytes, Fields, page_content_fields, ink_stroke_fields, ink_erase_fields, ink_move_fields,
  parent_id,
}
use vive_cserver.Sync.Fields.Stored.{stored_fields}
use vive_cserver.Store.Context.Lookup.{is_some}
use vive_cserver.Store.Database.{Database, StoredRow, BlobRef, blob_ref_eq, row_key_equality}
use vive_cserver.Store.Outcome.{
  Outcome, ok, failed, concurrent_write, page_body_exists, row_refused, ◌>>=◌,
}

pub record ChangeEnvelope : Type 0 where
  pub account_id : String
  pub id : String
  pub version : ℤ
  pub change_seq : ℕ
  pub deleted_at : Option ℤ
  pub updated_at : ℤ
  pub last_writer : String
  pub extra : String

pub record PendingWrite : Type 0 where
  pub kind : Kind
  pub envelope : ChangeEnvelope
  pub fields : Fields
  pub base_version : ℤ

-- crypto/sha256, and the reading of JSON text by the database's `::jsonb`
pub record Encoders : Type 0 where
  pub sha256 : Bytes → Bytes
  -- The cast fails on text that is no JSON and on what jsonb has no place for, as \u0000.
  pub accepts_jsonb : String → Bool
  -- the object of a text that it accepts
  pub parse_jsonb : String → Object

abbrev pub key_of : PendingWrite → RowKey
key_of w = record { account_id = w.envelope.account_id; kind = w.kind; id = w.envelope.id }

-- the VALUES of an upsert
abbrev pub row_of : Encoders → PendingWrite → StoredRow
row_of enc w = record {
  version = w.envelope.version;
  change_seq = w.envelope.change_seq;
  deleted_at = w.envelope.deleted_at;
  updated_at = w.envelope.updated_at;
  last_writer = w.envelope.last_writer;
  extra = enc.parse_jsonb w.envelope.extra;
  fields = stored_fields enc.sha256 w.fields;
}

-- INSERT ... ON CONFLICT (account_id, id) DO UPDATE SET ... WHERE stored.version = base:
-- the table after it, or `none` where it affected no row.
unfoldable pub upsert :
    RowKey → StoredRow → ℤ → Table RowKey StoredRow → Option (Table RowKey StoredRow)
upsert key row base rows = elim (lookup key rows) [
  | none ↦ some (put key row rows)
  | some stored ↦ if int_eq stored.version base then some (put key row rows) else none
]

-- Another row of page_content holds the body of this page.
unfoldable pub body_elsewhere : RowKey → String → Table RowKey StoredRow → Bool
body_elsewhere key page_id [] = false
body_elsewhere key page_id ((other, row) ∷ rows) =
    (str_eq other.account_id key.account_id
      && (kind_eq other.kind page_content
          && (not (str_eq other.id key.id) && str_eq (parent_id row.fields) page_id)))
    || body_elsewhere key page_id rows

-- DELETE FROM page_blob_refs WHERE account_id = $1 AND page_id = $2
abbrev pub delete_refs : String → String → List BlobRef → List BlobRef
delete_refs account_id page_id =
    keep λ ref. not (str_eq ref.account_id account_id && str_eq ref.page_id page_id)

abbrev pub has_ref : BlobRef → List BlobRef → Bool
has_ref ref [] = false
has_ref ref (x ∷ xs) = blob_ref_eq x ref || has_ref ref xs

-- INSERT INTO page_blob_refs SELECT ... FROM unnest(digests) ON CONFLICT DO NOTHING, for the digests
-- that blob.DecodeDigest accepts
unfoldable pub insert_refs : String → String → List String → List BlobRef → List BlobRef
insert_refs account_id page_id [] refs = refs
insert_refs account_id page_id (digest ∷ rest) refs =
    let ref : BlobRef = record { account_id = account_id; page_id = page_id; digest = digest } in
    insert_refs account_id page_id rest (elim (validate_digest digest) [
      | some failure ↦ refs
      | none ↦ if has_ref ref refs then refs else refs ++ ref ∷ []
    ])

-- PageContentFields.auxiliaryStatements; the other kinds have none.
unfoldable pub auxiliary : PendingWrite → List BlobRef → List BlobRef
unfolding insert_refs
auxiliary w refs = elim w.fields [
  | page_content_fields f ↦
      let account_id = w.envelope.account_id in
      let cleared = delete_refs account_id f.page_id refs in
      elim w.envelope.deleted_at [
        | some t ↦ cleared
        | none ↦ insert_refs account_id f.page_id f.blob_refs cleared
      ]
  | _ ↦ refs
]

-- The unique constraint that only page_content has.
unfoldable pub violates_unique : PendingWrite → Table RowKey StoredRow → Bool
unfolding body_elsewhere
violates_unique w rows =
    kind_eq w.kind page_content && body_elsewhere (key_of w) (parent_id w.fields) rows

-- A null `doc` or `points`, in a column that is NOT NULL.
unfoldable pub has_null_bytes : Fields → Bool
has_null_bytes (page_content_fields f) = not (is_some f.doc)
has_null_bytes (ink_stroke_fields f) = not (is_some f.points)
has_null_bytes (ink_erase_fields f) = not (is_some f.points)
has_null_bytes (ink_move_fields f) = not (is_some f.points)
has_null_bytes _ = false

-- CHECK (version > 0)
abbrev pub is_positive : ℤ → Bool
is_positive (pos n) = ltb 0 n
is_positive (negsuc n) = false

-- What the columns refuse: the cast of `extra`, a null, a version that is not positive, a
-- `last_writer` that is no device.
unfoldable pub refuses_row : Encoders → PendingWrite → Database → Bool
unfolding has_null_bytes
refuses_row enc w db =
    not (enc.accepts_jsonb w.envelope.extra)
    || (has_null_bytes w.fields
        || (not (is_positive w.envelope.version)
            || not (is_some (lookup w.envelope.last_writer db.devices))))

-- one upsert of the pipeline, with its auxiliary statements
unfoldable pub write_change : Encoders → PendingWrite → Database → Outcome Database
unfolding refuses_row
write_change enc w db =
    if refuses_row enc w db
    then failed (row_refused w.kind w.envelope.id)
    else if violates_unique w db.rows
    then failed (page_body_exists (parent_id w.fields))
    else elim (upsert (key_of w) (row_of enc w) w.base_version db.rows) [
      | none ↦ failed (concurrent_write w.kind w.envelope.id)
      | some rows ↦ ok (record db { rows = rows; page_blob_refs = auxiliary w db.page_blob_refs })
    ]

-- WriteChanges. The first failure is the answer, and the caller rolls the transaction back.
unfoldable pub write_changes : Encoders → List PendingWrite → Database → Outcome Database
write_changes enc [] db = ok db
write_changes enc (w ∷ ws) db = write_change enc w db >>= write_changes enc ws
