-- ===== src/Store/Context.antt =====
-- ReadChangeContext of changecontext.go: what one kind's run of a push needs to know.
pub mod Lookup
use vive_cserver.Base.{
  String, str_eq, contains, ◌&&◌, Option, none, some, List, [], ◌∷◌, if◌then◌else◌, string_eq,
}
use vive_cserver.Base.Int.{ℤ}
use vive_cserver.Base.Table.{Table}
use vive_cserver.Sync.Kind.{Kind, RowKey, kind_eq, rank}
use vive_cserver.Sync.Kind
use vive_cserver.Sync.Text.{validate_digest}
use vive_cserver.Sync.Object.{Object}
use vive_cserver.Store.Database.{Database, StoredRow, BlobKey, BlobRow, PurgeKey, PurgeRow}

pub record CurrentChange : Type 0 where
  pub version : ℤ
  pub change : Object

-- A map of the source is an association list, a set a list of its elements.
pub record ChangeContext : Type 0 where
  pub current_by_id : Table String CurrentChange
  pub existing_parent_ids : List String
  pub stored_blobs : Table String ℤ
  pub purged_ids : List String

abbrev pub empty_context : ChangeContext
empty_context = record {
  current_by_id = [];
  existing_parent_ids = [];
  stored_blobs = [];
  purged_ids = [];
}

-- decodeDigests: those that cannot be a digest are dropped
abbrev pub decode_digests : List String → List String
decode_digests [] = []
decode_digests (d ∷ ds) =
    let rest = decode_digests ds in
    elim (validate_digest d) [ none ↦ d ∷ rest | some failure ↦ rest ]

-- SELECT id, version, <changeJSON> FROM <table> WHERE account_id = $1 AND id = ANY($2)
unfoldable pub select_current :
    (RowKey → StoredRow → Object)
    → String
    → Kind
    → List String
    → Table RowKey StoredRow
    → Table String CurrentChange
select_current change_json account_id kind ids [] = []
select_current change_json account_id kind ids ((key, row) ∷ rows) =
    let rest = select_current change_json account_id kind ids rows in
    if str_eq key.account_id account_id && (kind_eq key.kind kind && contains ids key.id)
    then (key.id, record { version = row.version; change = change_json key row }) ∷ rest
    else rest

-- SELECT id FROM <parent table> WHERE account_id = $1 AND id = ANY($2)
unfoldable pub select_ids : String → Kind → List String → Table RowKey StoredRow → List String
select_ids account_id kind ids [] = []
select_ids account_id kind ids ((key, row) ∷ rows) =
    let rest = select_ids account_id kind ids rows in
    if str_eq key.account_id account_id && (kind_eq key.kind kind && contains ids key.id)
    then key.id ∷ rest
    else rest

-- SELECT encode(sha256, 'hex'), byte_count FROM blobs WHERE account_id = $1 AND sha256 = ANY($2)
unfoldable pub select_blobs : String → List String → Table BlobKey BlobRow → Table String ℤ
select_blobs account_id digests [] = []
select_blobs account_id digests ((key, blob) ∷ blobs) =
    let rest = select_blobs account_id digests blobs in
    if str_eq key.account_id account_id && contains digests key.digest
    then (key.digest, blob.byte_count) ∷ rest
    else rest

-- SELECT entity_id FROM purges WHERE account_id = $1 AND kind = $2 AND entity_id = ANY($3)
unfoldable pub select_purged : String → String → List String → Table PurgeKey PurgeRow → List String
select_purged account_id kind ids [] = []
select_purged account_id kind ids ((key, purge) ∷ purges) =
    let rest = select_purged account_id kind ids purges in
    if str_eq key.account_id account_id && (str_eq key.kind kind && contains ids key.entity_id)
    then key.entity_id ∷ rest
    else rest

-- The parents are asked for where the kind has a parent kind. `change_json` renders a row.
unfoldable pub read_change_context :
    (Database → RowKey → StoredRow → Object)
    → Database
    → Kind
    → Option Kind
    → String
    → List String
    → List String
    → List String
    → ChangeContext
unfolding select_current select_ids select_blobs select_purged
read_change_context change_json db kind parent account_id [] parent_ids digests = empty_context
read_change_context change_json db kind parent account_id (i ∷ is) parent_ids digests = record {
  current_by_id = select_current (change_json db) account_id kind (i ∷ is) db.rows;
  existing_parent_ids = elim parent [
    | none ↦ []
    | some p ↦ select_ids account_id p parent_ids db.rows
  ];
  stored_blobs = select_blobs account_id (decode_digests digests) db.blobs;
  purged_ids = select_purged account_id (Kind.name kind) (i ∷ is) db.purges;
}
