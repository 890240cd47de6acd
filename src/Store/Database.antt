-- ===== src/Store/Database.antt =====
-- The tables that the synchronisation reads and writes, with their primary keys. Times are numbers
-- (of one unit and one epoch); `now()` is an argument of the statements that read it.
use vive_cserver.Base.{
  ℕ, String, str_eq, eq_iff, ◌≡◌, ◌↔◌, Bool, true, false, ◌&&◌, ◌==◌, ==_iff, Option, List, [], ◌∷◌,
  arith, Eq,
}
use vive_cserver.Base.Int.{ℤ}
use vive_cserver.Base.Table.{Table}
use vive_cserver.Sync.Kind.{RowKey, kind_eq, rank, rank_injective}
use vive_cserver.Sync.Object.{Object}
use vive_cserver.Sync.Fields.{Fields}

-- notebooks, sections, pages, page_content, ink_strokes, ink_erases, ink_moves, attachments: the
-- envelope columns and the kind's own.
pub record StoredRow : Type 0 where
  pub version : ℤ
  pub change_seq : ℕ
  pub deleted_at : Option ℤ
  pub updated_at : ℤ
  pub last_writer : String
  pub extra : Object
  pub fields : Fields

pub record AccountRow : Type 0 where
  pub email : String
  pub password_hash : String
  pub created_at : ℕ
  pub change_seq : ℕ
  pub storage_bytes : ℤ

-- applied_batches, by (device_id, batch_id); `response` is the jsonb column's text
pub record BatchRow : Type 0 where
  pub response : String
  pub created_at : ℕ

-- purges, by (account_id, kind, entity_id)
pub record PurgeKey : Type 0 where
  pub account_id : String
  pub kind : String
  pub entity_id : String

pub record PurgeRow : Type 0 where
  pub change_seq : ℕ
  pub purged_at : ℕ

-- blobs, by (account_id, sha256); a digest is written in its hex form
pub record BlobKey : Type 0 where
  pub account_id : String
  pub digest : String

pub record BlobRow : Type 0 where
  pub byte_count : ℤ
  pub unreferenced_since : Option ℕ

-- page_blob_refs, whose columns are its key
pub record BlobRef : Type 0 where
  pub account_id : String
  pub page_id : String
  pub digest : String

pub record DeviceRow : Type 0 where
  pub account_id : String
  pub installation_id : Option String
  pub name : String
  pub platform : String
  pub token_hash : List ℕ
  pub created_at : ℕ
  pub last_seen_at : Option ℕ
  pub last_pulled_seq : ℕ
  pub revoked_at : Option ℕ

-- admin_sessions, by token_hash
pub record SessionRow : Type 0 where
  pub account_id : String
  pub expires_at : ℕ

pub record Database : Type 0 where
  pub accounts : Table String AccountRow
  pub rows : Table RowKey StoredRow
  pub page_blob_refs : List BlobRef
  pub blobs : Table BlobKey BlobRow
  pub purges : Table PurgeKey PurgeRow
  pub applied_batches : Table (String × String) BatchRow
  pub devices : Table String DeviceRow
  pub admin_sessions : Table (List ℕ) SessionRow

abbrev pub row_key_eq : RowKey → RowKey → Bool
row_key_eq a b = str_eq a.account_id b.account_id && (kind_eq a.kind b.kind && str_eq a.id b.id)

pub row_key_eq_iff : (a b : RowKey) → (row_key_eq a b ≡ true) ↔ (a ≡ b)
unfolding rank
row_key_eq_iff a b =
    ground (arith, eq_iff a.account_id b.account_id, eq_iff a.id b.id, rank_injective a.kind b.kind)

instance abbrev pub row_key_equality : Eq RowKey
row_key_equality = record { beq = row_key_eq; beq_iff = row_key_eq_iff }

abbrev pub purge_key_eq : PurgeKey → PurgeKey → Bool
purge_key_eq a b =
    str_eq a.account_id b.account_id && (str_eq a.kind b.kind && str_eq a.entity_id b.entity_id)

pub purge_key_eq_iff : (a b : PurgeKey) → (purge_key_eq a b ≡ true) ↔ (a ≡ b)
purge_key_eq_iff a b =
    ground (
      arith,
      eq_iff a.account_id b.account_id,
      eq_iff a.kind b.kind,
      eq_iff a.entity_id b.entity_id,
    )

instance abbrev pub purge_key_equality : Eq PurgeKey
purge_key_equality = record { beq = purge_key_eq; beq_iff = purge_key_eq_iff }

abbrev pub blob_key_eq : BlobKey → BlobKey → Bool
blob_key_eq a b = str_eq a.account_id b.account_id && str_eq a.digest b.digest

pub blob_key_eq_iff : (a b : BlobKey) → (blob_key_eq a b ≡ true) ↔ (a ≡ b)
blob_key_eq_iff a b = ground (arith, eq_iff a.account_id b.account_id, eq_iff a.digest b.digest)

instance abbrev pub blob_key_equality : Eq BlobKey
blob_key_equality = record { beq = blob_key_eq; beq_iff = blob_key_eq_iff }

abbrev pub pair_eq : String × String → String × String → Bool
pair_eq a b = str_eq a.0 b.0 && str_eq a.1 b.1

pub pair_eq_iff : (a b : String × String) → (pair_eq a b ≡ true) ↔ (a ≡ b)
pair_eq_iff a b = ground (arith, eq_iff a.0 b.0, eq_iff a.1 b.1)

instance abbrev pub pair_equality : Eq (String × String)
pair_equality = record { beq = pair_eq; beq_iff = pair_eq_iff }

-- BlobRef rows are compared column by column.
abbrev pub blob_ref_eq : BlobRef → BlobRef → Bool
blob_ref_eq a b =
    str_eq a.account_id b.account_id && (str_eq a.page_id b.page_id && str_eq a.digest b.digest)

-- bytea columns
abbrev pub bytes_eq : List ℕ → List ℕ → Bool
bytes_eq [] [] = true
bytes_eq (x ∷ xs) (y ∷ ys) = x == y && bytes_eq xs ys
bytes_eq xs ys = false

pub bytes_eq_iff : (a b : List ℕ) → (bytes_eq a b ≡ true) ↔ (a ≡ b)
bytes_eq_iff [] [] = ground arith
bytes_eq_iff [] (y ∷ ys) = ground arith
bytes_eq_iff (x ∷ xs) [] = ground arith
bytes_eq_iff (x ∷ xs) (y ∷ ys) = ground (arith, bytes_eq_iff xs ys, ==_iff x y)

instance abbrev pub bytes_equality : Eq (List ℕ)
bytes_equality = record { beq = bytes_eq; beq_iff = bytes_eq_iff }
