-- ===== src/Blob/Sound/Statements.antt =====
-- Every statement of internal/store/blobs.go keeps the rows sound.
use vive_cserver.Base.{
  ℕ, ◌+◌, ◌-◌, ◌≤◌, String, str_eq, eq_iff, ◌≡◌, refl, subst, Bool, true, false, Option, none, some,
  arith, if_split, if_cases, Option-split, string_eq,
}
use vive_cserver.Base.Int.{ℤ, pos, is_negative, +ℤ_sub}
use vive_cserver.Base.Table.{Table, lookup, put, lookup-put, All-put}
use vive_cserver.Sync.Text.{validate_digest}
use vive_cserver.Sync.Fields.{Bytes}
use vive_cserver.Store.Database.{Database, AccountRow, BlobKey, BlobRow, blob_key_equality}
use vive_cserver.Blob.Records.{blob_key, charge, refund, insert_blob, record_stored_blob}
use vive_cserver.Blob.Records.Totals.{total, share, total-put}
use vive_cserver.Blob.Backed.{is_published}
use vive_cserver.Blob.Sound.{Charges, RowsSound, refs-grow, put-stays}

-- The database that an operation leaves has sound rows.
abbrev pub Keeps {ℓ} : {A : Type ℓ} → Table String Bytes → A × Database → Type 0
Keeps files r = RowsSound files r.1

charge-pos : (k n : ℕ) (t : ℤ) → charge (pos k) (pos n) ≡ some t → t ≡ pos (k + n)
charge-pos k n t h = ground (arith, h)

pub refund-pos : (k n : ℕ) → n ≤ k → refund (pos k) (pos n) ≡ pos (k - n)
refund-pos k n h = rw (+ℤ_sub k n h) refl

pub add_nothing : (m : ℕ) (found : Option AccountRow) → Charges m found → Charges (0 + m) found
add_nothing m none h = tt
add_nothing m (some account) h = ground (arith, h)

module _ (files : Table String Bytes) (key : BlobKey) (n : ℕ) (account : AccountRow) (db : Database)
    (fresh : lookup key db.blobs ≡ none) (known : lookup key.account_id db.accounts ≡ some account)
    (stored : is_published key.digest files ≡ true) (s : RowsSound files db) where
  abbrev row : BlobRow
  row = record { byte_count = pos n; unreferenced_since = none }

  known_total : account.storage_bytes ≡ pos (total key.account_id db.blobs)
  known_total = subst (Charges (total key.account_id db.blobs)) known (s.charged key.account_id)

  charged_total :
      (t : ℤ)
      → charge account.storage_bytes (pos n) ≡ some t
      → t ≡ pos (total key.account_id db.blobs + n)
  charged_total t h =
      charge-pos (total key.account_id db.blobs) n t
        (subst (λ b. charge b (pos n) ≡ some t) known_total h)

  insert_charged :
      (t : ℤ)
      → charge account.storage_bytes (pos n) ≡ some t
      → (account_id : String)
      → Charges (total account_id (put key row db.blobs)) (
          lookup account_id (put key.account_id (record account { storage_bytes = t }) db.accounts))
  insert_charged t h account_id =
      rw
        (
          lookup-put key.account_id account_id (record account { storage_bytes = t }) db.accounts,
          total-put account_id key row db.blobs fresh,
        )
        (if_split (Charges (share account_id key row + total account_id db.blobs))
          (str_eq key.account_id account_id)
          (λ own. ground (arith, own, eq_iff key.account_id account_id, charged_total t h))
          (λ other. rw (other) (add_nothing _ _ (s.charged account_id))))

  insert_blob-RowsSound : Keeps files (insert_blob key (pos n) account db)
  insert_blob-RowsSound =
      Option-split (Keeps files) (charge account.storage_bytes (pos n)) (λ overflow. s)
        (λ t h. record {
          backed =
              All-put (λ r. is_published r.0.digest files ≡ true) key row db.blobs stored s.backed;
          counted =
              All-put (λ r. is_negative r.1.byte_count ≡ false) key row db.blobs refl s.counted;
          charged = insert_charged t h;
          refs_stored =
              refs-grow db.blobs (put key row db.blobs) db.page_blob_refs
                (λ k. put-stays key k row db.blobs) s.refs_stored;
        })

-- RecordStoredBlob, of bytes that are published
module _ (files : Table String Bytes) (account_id digest : String) (n : ℕ) (db : Database)
    (stored : is_published digest files ≡ true) (s : RowsSound files db) where
  pub record_stored_blob-RowsSound :
      (fails : Bool) → Keeps files (record_stored_blob fails account_id digest (pos n) db)
  record_stored_blob-RowsSound fails =
      Option-split (Keeps files) (validate_digest digest)
        (λ valid. if_cases (Keeps files) fails s (
          Option-split (Keeps files) (lookup (blob_key account_id digest) db.blobs)
            (λ fresh.
              Option-split (Keeps files) (lookup account_id db.accounts) (λ unknown. s)
                (λ account known.
                  insert_blob-RowsSound files (blob_key account_id digest) n account db fresh known
                    stored s))
            (λ blob held. s)))
        (λ failure invalid. s)
