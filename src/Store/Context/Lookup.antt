-- ===== src/Store/Context/Lookup.antt =====
-- A context that was read for many ids answers about each of them as the table does.
use vive_cserver.Base.{
  String, eq_iff, contains, ◌≡◌, refl, Bool, true, false, ◌&&◌, Option, none, some, List, [], ◌∷◌,
  arith, ap, string_eq,
}
use vive_cserver.Base.Int.{ℤ}
use vive_cserver.Base.Table.{Table, lookup}
use vive_cserver.Sync.Kind.{Kind, RowKey}
use vive_cserver.Sync.Object.{Object}
use vive_cserver.Sync.Text.{validate_digest}
use vive_cserver.Store.Database.{
  StoredRow, BlobKey, BlobRow, PurgeKey, PurgeRow, row_key_eq_iff, row_key_equality,
  blob_key_equality, purge_key_equality,
}
use vive_cserver.Store.Context.{
  CurrentChange, select_current, select_ids, select_blobs, select_purged, decode_digests,
}

abbrev pub is_some {ℓ} : {A : Type ℓ} → Option A → Bool
is_some none = false
is_some (some a) = true

-- the current change of a row
abbrev pub as_current :
    (RowKey → StoredRow → Object) → RowKey → Option StoredRow → Option CurrentChange
as_current change_json key none = none
as_current change_json key (some row) =
    some (record { version = row.version; change = change_json key row })

abbrev pub as_size : Option BlobRow → Option ℤ
as_size none = none
as_size (some blob) = some blob.byte_count

module _ (account_id : String) (kind : Kind) (ids : List String) (id : String) where
  abbrev key : RowKey
  key = record { account_id = account_id; kind = kind; id = id }

  pub lookup-select_current :
      (change_json : RowKey → StoredRow → Object) (rows : Table RowKey StoredRow)
      → contains ids id ≡ true
      → lookup id (select_current change_json account_id kind ids rows)
        ≡ as_current change_json key (lookup key rows)
  unfolding select_current lookup
  lookup-select_current change_json [] h = refl
  lookup-select_current change_json ((k, row) ∷ rows) h = ground (
    arith,
    lookup-select_current change_json rows h,
    eq_iff k.account_id account_id,
    eq_iff k.id id,
    row_key_eq_iff k key,
  )

  pub contains-select_ids :
      (rows : Table RowKey StoredRow)
      → contains ids id ≡ true
      → contains (select_ids account_id kind ids rows) id ≡ is_some (lookup key rows)
  unfolding select_ids lookup
  contains-select_ids [] h = refl
  contains-select_ids ((k, row) ∷ rows) h =
      ground (arith, contains-select_ids rows h, eq_iff k.account_id account_id, eq_iff k.id id)

pub lookup-select_blobs :
    (account_id : String) (digests : List String) (digest : String) (blobs : Table BlobKey BlobRow)
    → contains digests digest ≡ true
    → lookup digest (select_blobs account_id digests blobs)
      ≡ as_size (lookup (record { account_id = account_id; digest = digest }) blobs)
unfolding select_blobs lookup
lookup-select_blobs account_id digests digest [] h = refl
lookup-select_blobs account_id digests digest ((k, blob) ∷ blobs) h = ground (
  arith,
  lookup-select_blobs account_id digests digest blobs h,
  eq_iff k.account_id account_id,
  eq_iff k.digest digest,
)

pub lookup-select_blobs-none :
    (account_id : String) (digests : List String) (digest : String) (blobs : Table BlobKey BlobRow)
    → contains digests digest ≡ false
    → lookup digest (select_blobs account_id digests blobs) ≡ none
unfolding select_blobs lookup
lookup-select_blobs-none account_id digests digest [] h = refl
lookup-select_blobs-none account_id digests digest ((k, blob) ∷ blobs) h = ground (
  arith,
  lookup-select_blobs-none account_id digests digest blobs h,
  eq_iff k.account_id account_id,
  eq_iff k.digest digest,
)

pub contains-select_purged :
    (account_id kind : String) (ids : List String) (id : String) (purges : Table PurgeKey PurgeRow)
    → contains ids id ≡ true
    → contains (select_purged account_id kind ids purges) id
      ≡ is_some (lookup (record { account_id = account_id; kind = kind; entity_id = id }) purges)
unfolding select_purged lookup
contains-select_purged account_id kind ids id [] h = refl
contains-select_purged account_id kind ids id ((k, purge) ∷ purges) h = ground (
  arith,
  contains-select_purged account_id kind ids id purges h,
  eq_iff k.account_id account_id,
  eq_iff k.kind kind,
  eq_iff k.entity_id id,
)

abbrev pub is_digest : String → Bool
is_digest digest = elim (validate_digest digest) [ none ↦ true | some failure ↦ false ]

pub contains-decode_digests :
    (digests : List String) (digest : String)
    → contains (decode_digests digests) digest ≡ (contains digests digest && is_digest digest)
contains-decode_digests [] digest = refl
contains-decode_digests (d ∷ ds) digest = ground (
  arith,
  contains-decode_digests ds digest,
  eq_iff d digest,
  λ (p : d ≡ digest). ap validate_digest p,
)
