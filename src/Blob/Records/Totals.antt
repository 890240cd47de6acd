-- ===== src/Blob/Records/Totals.antt =====
-- The bytes that an account's blobs occupy, and how the statements on blobs change them.
use vive_cserver.Base.{
  ℕ, ◌+◌, String, str_eq, ◌≡◌, refl, false, Option, none, some, [], ◌∷◌, arith, if◌then◌else◌, All,
}
use vive_cserver.Base.Int.{ℤ, pos, negsuc, is_negative}
use vive_cserver.Base.Table.{Table, lookup, put, remove}
use vive_cserver.Store.Database.{BlobKey, BlobRow, blob_key_eq_iff, blob_key_equality}
use vive_cserver.Blob.Records.{update_blobs}

abbrev pub size_of : ℤ → ℕ
size_of (pos n) = n
size_of (negsuc n) = 0

abbrev pub share : String → BlobKey → BlobRow → ℕ
share account_id key blob = if str_eq key.account_id account_id then size_of blob.byte_count else 0

-- SELECT sum(byte_count) FROM blobs WHERE account_id = $1
unfoldable pub total : String → Table BlobKey BlobRow → ℕ
total account_id [] = 0
total account_id ((key, blob) ∷ blobs) = share account_id key blob + total account_id blobs

-- The CHECK constraint of blobs.byte_count
abbrev pub Counted : Table BlobKey BlobRow → Type 0
Counted = All λ r. is_negative r.1.byte_count ≡ false

module _ (account_id : String) (key : BlobKey) (blob : BlobRow) where
  pub total-put :
      (blobs : Table BlobKey BlobRow)
      → lookup key blobs ≡ none
      → total account_id (put key blob blobs) ≡ share account_id key blob + total account_id blobs
  unfolding total put lookup
  total-put [] h = refl
  total-put ((j, other) ∷ blobs) h = ground (arith, h, total-put blobs, blob_key_eq_iff j key)

  pub total-remove :
      (blobs : Table BlobKey BlobRow)
      → lookup key blobs ≡ some blob
      → share account_id key blob + total account_id (remove key blobs) ≡ total account_id blobs
  unfolding total remove lookup
  total-remove [] h = ground (arith, h)
  total-remove ((j, other) ∷ blobs) h = ground (arith, h, total-remove blobs, blob_key_eq_iff j key)

pub lookup-Counted :
    (key : BlobKey) (blob : BlobRow) (blobs : Table BlobKey BlobRow)
    → Counted blobs
    → lookup key blobs ≡ some blob
    → is_negative blob.byte_count ≡ false
unfolding lookup
lookup-Counted key blob [] c h = ground (arith, h)
lookup-Counted key blob ((j, other) ∷ blobs) c h =
    ground (arith, c, h, lookup-Counted key blob blobs c.1)

-- An UPDATE that leaves byte_count alone
module _ (f : BlobKey → BlobRow → BlobRow)
    (same : (key : BlobKey) (blob : BlobRow) → (f key blob).byte_count ≡ blob.byte_count) where
  pub total-update_blobs :
      (account_id : String) (blobs : Table BlobKey BlobRow)
      → total account_id (update_blobs f blobs) ≡ total account_id blobs
  unfolding total update_blobs
  total-update_blobs account_id [] = refl
  total-update_blobs account_id ((key, blob) ∷ blobs) =
      ground (arith, same key blob, total-update_blobs account_id blobs)

  pub update_blobs-Counted :
      (blobs : Table BlobKey BlobRow) → Counted blobs → Counted (update_blobs f blobs)
  unfolding update_blobs
  update_blobs-Counted [] c = c
  update_blobs-Counted ((key, blob) ∷ blobs) c =
      (ground (arith, same key blob, c), update_blobs-Counted blobs c.1)

-- What holds of the keys holds after any UPDATE.
pub update_blobs-All-keys {ℓ} :
    (P : BlobKey → Type ℓ) (f : BlobKey → BlobRow → BlobRow) (blobs : Table BlobKey BlobRow)
    → All (λ r. P r.0) blobs
    → All (λ r. P r.0) (update_blobs f blobs)
unfolding update_blobs
update_blobs-All-keys P f [] h = h
update_blobs-All-keys P f ((key, blob) ∷ blobs) h = (h.0, update_blobs-All-keys P f blobs h.1)

abbrev pub update_option : (BlobRow → BlobRow) → Option BlobRow → Option BlobRow
update_option f none = none
update_option f (some blob) = some (f blob)

pub lookup-update_blobs :
    (f : BlobKey → BlobRow → BlobRow) (key : BlobKey) (blobs : Table BlobKey BlobRow)
    → lookup key (update_blobs f blobs) ≡ update_option (f key) (lookup key blobs)
unfolding lookup update_blobs
lookup-update_blobs f key [] = refl
lookup-update_blobs f key ((j, blob) ∷ blobs) =
    ground (arith, lookup-update_blobs f key blobs, blob_key_eq_iff j key)
