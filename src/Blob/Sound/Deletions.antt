-- ===== src/Blob/Sound/Deletions.antt =====
-- DeleteSweptBlob keeps the rows sound, and says truly whether the bytes are still held.
use vive_cserver.Base.{
  ℕ, ◌+◌, String, str_eq, eq_iff, ◌≡◌, refl, sym, subst, Bool, true, false, not, none, some, arith,
  if_split, if_cases, Option-split, Bool-cases, inl, inr, string_eq,
}
use vive_cserver.Base.Int.{ℤ, pos, negsuc, is_negative}
use vive_cserver.Base.Table.{Table, lookup, remove, lookup-put, All-remove}
use vive_cserver.Sync.Text.{validate_digest}
use vive_cserver.Sync.Fields.{Bytes}
use vive_cserver.Store.Database.{Database, AccountRow, BlobKey, BlobRow, blob_key_equality}
use vive_cserver.Blob.Attempt.{Attempt, got}
use vive_cserver.Blob.Records.{
  has_reference, blob_key, refund, refund_account, delete_due_blob, delete_swept_blob, holds,
  SweepableBlob, is_due,
}
use vive_cserver.Blob.Records.Totals.{Counted, total, size_of, total-remove, lookup-Counted}
use vive_cserver.Blob.Backed.{Backed, is_published}
use vive_cserver.Blob.Sound.{Charges, IsCharged, RowsSound, remove-refs}
use vive_cserver.Blob.Sound.Statements.{Keeps, refund-pos}

pub refund_account-blobs :
    (account_id : String) (n : ℤ) (db : Database)
    → (refund_account account_id n db).blobs ≡ db.blobs
refund_account-blobs account_id n db =
    Option-split (λ (after : Database). after.blobs ≡ db.blobs) (lookup account_id db.accounts)
      (λ unknown. refl) (λ account known. refl)

-- An answer that the bytes are unused is true.
abbrev pub Frees : String → Attempt (Bool × Bool) × Database → Type 0
Frees digest (got (true, true), db) = holds digest db.blobs ≡ false
Frees digest _ = Unit

unheld_answer :
    (digest : String) (held : Bool) (db : Database)
    → holds digest db.blobs ≡ held
    → Frees digest (got (true, not held), db)
unheld_answer digest true db h = tt
unheld_answer digest false db h = h

-- a size that is not negative
size_of-pos : (n : ℤ) → is_negative n ≡ false → n ≡ pos (size_of n)
size_of-pos (pos n) h = refl
size_of-pos (negsuc n) h = ground (arith, h)

module _ (files : Table String Bytes) (key : BlobKey) (blob : BlobRow) (db : Database)
    (found : lookup key db.blobs ≡ some blob) (s : RowsSound files db) where
  abbrev rest : Table BlobKey BlobRow
  rest = remove key db.blobs

  abbrev without_row : Database
  without_row = record db { blobs = rest }

  size : blob.byte_count ≡ pos (size_of blob.byte_count)
  size = size_of-pos blob.byte_count (lookup-Counted key blob db.blobs s.counted found)

  own_total : size_of blob.byte_count + total key.account_id rest ≡ total key.account_id db.blobs
  own_total = ground (
    arith,
    total-remove key.account_id key blob db.blobs found,
    eq_iff key.account_id key.account_id,
  )

  other_total :
      (account_id : String)
      → str_eq key.account_id account_id ≡ false
      → total account_id rest ≡ total account_id db.blobs
  other_total account_id other =
      ground (arith, other, total-remove account_id key blob db.blobs found)

  refunded :
      (account : AccountRow)
      → lookup key.account_id db.accounts ≡ some account
      → refund account.storage_bytes blob.byte_count ≡ pos (total key.account_id rest)
  refunded account known =
      rw
        (
          size,
          subst (Charges (total key.account_id db.blobs)) known (s.charged key.account_id),
          refund-pos (total key.account_id db.blobs) (size_of blob.byte_count)
              (ground (arith, own_total)),
        )
        (ground (arith, own_total))

  -- an account other than the one refunded, or one that is not there
  charged_other :
      (account_id : String)
      → str_eq key.account_id account_id ≡ false
      → Charges (total account_id rest) (lookup account_id db.accounts)
  charged_other account_id other =
      subst (λ n. Charges n (lookup account_id db.accounts)) (sym (other_total account_id other))
        (s.charged account_id)

  charged_unknown :
      (account_id : String)
      → lookup key.account_id db.accounts ≡ none
      → Charges (total account_id rest) (lookup account_id db.accounts)
  charged_unknown account_id unknown = elim (Bool-cases (str_eq key.account_id account_id)) [
    | inl own ↦
        subst (Charges (total account_id rest))
          (sym (
            subst (λ a. lookup a db.accounts ≡ none) ((eq_iff key.account_id account_id).0 own)
              unknown))
          tt
    | inr other ↦ charged_other account_id other
  ]

  refund-IsCharged :
      (account_id : String)
      → IsCharged (refund_account key.account_id blob.byte_count without_row) account_id
  refund-IsCharged account_id =
      Option-split (λ (after : Database). IsCharged after account_id)
        (lookup key.account_id db.accounts) (charged_unknown account_id)
        (λ account known.
          rw
            (lookup-put key.account_id account_id
              (record account { storage_bytes = refund account.storage_bytes blob.byte_count })
              db.accounts)
            (if_split (Charges (total account_id rest)) (str_eq key.account_id account_id)
              (λ own.
                subst (λ a. refund account.storage_bytes blob.byte_count ≡ pos (total a rest))
                  ((eq_iff key.account_id account_id).0 own) (refunded account known))
              (charged_other account_id)))

  abbrev Deletes : Attempt (Bool × Bool) × Database → Type 0
  Deletes r = Keeps files r × Frees key.digest r

  refund-page_blob_refs :
      (refund_account key.account_id blob.byte_count without_row).page_blob_refs ≡ db.page_blob_refs
  refund-page_blob_refs =
      Option-split (λ (after : Database). after.page_blob_refs ≡ db.page_blob_refs)
        (lookup key.account_id db.accounts) (λ unknown. refl) (λ account known. refl)

  delete_due_blob-Deletes : Deletes (delete_due_blob key blob db)
  delete_due_blob-Deletes =
      if_split Deletes (has_reference key db.page_blob_refs) (λ used. (s, tt))
        (λ unused.
          let same = refund_account-blobs key.account_id blob.byte_count without_row in
          (
            record {
              backed =
                  subst (Backed files) (sym same)
                    (All-remove (λ r. is_published r.0.digest files ≡ true) key db.blobs s.backed);
              counted =
                  subst Counted (sym same)
                    (All-remove (λ r. is_negative r.1.byte_count ≡ false) key db.blobs s.counted);
              charged = refund-IsCharged;
              refs_stored =
                  rw (same, refund-page_blob_refs)
                    (remove-refs key db.blobs db.page_blob_refs unused s.refs_stored);
            },
            unheld_answer key.digest (holds key.digest rest) _ (rw (same) refl),
          ))

-- DeleteSweptBlob
module _ (files : Table String Bytes) (fails : Bool) (now grace : ℕ) (candidate : SweepableBlob)
    (db : Database) (s : RowsSound files db) where
  abbrev pub Sweeps : Attempt (Bool × Bool) × Database → Type 0
  Sweeps r = Keeps files r × Frees candidate.digest r

  pub delete_swept_blob-Sweeps : Sweeps (delete_swept_blob fails now grace candidate db)
  delete_swept_blob-Sweeps =
      Option-split Sweeps (validate_digest candidate.digest)
        (λ valid.
          if_cases Sweeps fails (s, tt)
            (Option-split Sweeps (lookup (blob_key candidate.account_id candidate.digest) db.blobs)
              (λ gone. (s, tt))
              (λ blob found.
                if_cases Sweeps (is_due now grace blob)
                  (delete_due_blob-Deletes files (blob_key candidate.account_id candidate.digest)
                    blob db found s)
                  (s, tt))))
        (λ failure invalid. (s, tt))
