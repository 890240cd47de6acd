-- ===== src/Blob/Offered.antt =====
-- What a pass of the sweeper offers for deletion: the rows that SelectSweepableBlobs returns, and
-- the references that PruneReferencesOfDeletedPages leaves.
pub mod Deletes
pub mod Rows
use vive_cserver.Base.{
  ℕ, ◌+◌, ◌≤◌, suc, zero, ◌≡◌, refl, sym, ◌∙◌, ap, Bool, true, false, not, ◌||◌, Option, none, some,
  List, [], ◌∷◌, arith, if◌then◌else◌, keep, map, length, take, sort_by, insert_by, All, string_eq,
}
use vive_cserver.Base.Table.{Table, lookup, remove}
use vive_cserver.Sync.Kind.{RowKey}
use vive_cserver.Store.Database.{
  Database, StoredRow, BlobKey, BlobRow, BlobRef, blob_key_eq, blob_key_eq_iff, blob_key_equality,
  row_key_equality,
}
use vive_cserver.Store.Context.Lookup.{is_some}
use vive_cserver.Blob.Records.Totals.{lookup-update_blobs}
use vive_cserver.Blob.Records.{
  SweepableBlob, blob_key, is_live, is_dead, page_key, shown_on_page, update_blobs, has_reference,
  as_candidate, marked_before, is_due, select_sweepable_blobs,
}

abbrev pub candidate_key : SweepableBlob → BlobKey
candidate_key c = blob_key c.account_id c.digest

-- a candidate for the row of the key
abbrev pub offers : BlobKey → List SweepableBlob → Bool
offers key [] = false
offers key (c ∷ cs) = blob_key_eq (candidate_key c) key || offers key cs

abbrev pub has_key : BlobKey → Table BlobKey BlobRow → Bool
has_key key blobs = is_some (lookup key blobs)

module _ (key : BlobKey) where
  offers-map : (t : Table BlobKey BlobRow) → offers key (map as_candidate t) ≡ has_key key t
  unfolding lookup
  offers-map [] = refl
  offers-map (r ∷ t) = ground (arith, offers-map t)

  has_key-insert_by :
      (le : BlobKey × BlobRow → BlobKey × BlobRow → Bool) (r : BlobKey × BlobRow)
      (t : Table BlobKey BlobRow)
      → has_key key (insert_by le r t) ≡ has_key key (r ∷ t)
  unfolding lookup
  has_key-insert_by le r [] = refl
  has_key-insert_by le r (s ∷ t) = ground (arith, has_key-insert_by le r t)

  has_key-sort_by :
      (le : BlobKey × BlobRow → BlobKey × BlobRow → Bool) (t : Table BlobKey BlobRow)
      → has_key key (sort_by le t) ≡ has_key key t
  unfolding lookup
  has_key-sort_by le [] = refl
  has_key-sort_by le (r ∷ t) =
      ground (arith, has_key-insert_by le r (sort_by le t), has_key-sort_by le t)

  has_key-keep :
      (p : BlobRow → Bool) (blob : BlobRow) (t : Table BlobKey BlobRow)
      → lookup key t ≡ some blob
      → p blob ≡ true
      → has_key key (keep (λ r. p r.1) t) ≡ true
  unfolding lookup
  has_key-keep p blob [] h due = ground (arith, h)
  has_key-keep p blob (r ∷ t) h due = ground (arith, h, due, has_key-keep p blob t)

length-insert_by :
    {A : Type 0} (le : A → A → Bool) (x : A) (ys : List A)
    → length (insert_by le x ys) ≡ suc (length ys)
length-insert_by le x [] = refl
length-insert_by le x (y ∷ ys) = ground (arith, length-insert_by le x ys)

length-sort_by : {A : Type 0} (le : A → A → Bool) (xs : List A) → length (sort_by le xs) ≡ length xs
length-sort_by le [] = refl
length-sort_by le (x ∷ xs) = length-insert_by le x (sort_by le xs) ∙ ap suc (length-sort_by le xs)

take-all : {A : Type 0} (n : ℕ) (xs : List A) → length xs ≤ n → take n xs ≡ xs
take-all zero [] h = refl
take-all zero (x ∷ xs) h = ground (arith, h)
take-all (suc n) [] h = refl
take-all (suc n) (x ∷ xs) h = ap (x ∷◌) (take-all n xs (omega (arith, h)))

-- A row that is due is offered when no more rows are due than a pass deletes.
pub offers-select :
    (key : BlobKey) (now grace limit : ℕ) (blob : BlobRow) (db : Database)
    → lookup key db.blobs ≡ some blob
    → is_due now grace blob ≡ true
    → length (keep (λ r. is_due now grace r.1) db.blobs) ≤ limit
    → offers key (select_sweepable_blobs now grace limit db) ≡ true
offers-select key now grace limit blob db h due few =
    let due_rows = keep (λ r. is_due now grace r.1) db.blobs in
    rw
      (take-all limit (sort_by marked_before due_rows)
        (rw (length-sort_by marked_before due_rows) few))
      (offers-map key (sort_by marked_before due_rows)
        ∙ has_key-sort_by key marked_before due_rows
        ∙ has_key-keep key (is_due now grace) blob db.blobs h due)

-- The foreign key of page_blob_refs.page_id: the row of the page is there, deleted or not.
abbrev pub PagesExist : Database → Type 0
PagesExist db = All (λ ref. is_some (lookup (page_key ref) db.rows) ≡ true) db.page_blob_refs

abbrev pub kept_refs : Table RowKey StoredRow → List BlobRef → List BlobRef
kept_refs rows refs = keep (λ ref. not (is_dead (lookup (page_key ref) rows))) refs

-- Bytes that no live page shows have no reference left once those of deleted pages are dropped.
pub has_reference-kept :
    (rows : Table RowKey StoredRow) (key : BlobKey) (refs : List BlobRef)
    → All (λ ref. is_some (lookup (page_key ref) rows) ≡ true) refs
    → shown_on_page rows key refs ≡ false
    → has_reference key (kept_refs rows refs) ≡ false
unfolding shown_on_page has_reference
has_reference-kept rows key [] exist unseen = refl
has_reference-kept rows key (ref ∷ refs) exist unseen =
    ground (arith, exist.0, unseen, has_reference-kept rows key refs exist.1)

module _ (f : BlobKey → BlobRow → BlobRow) (key : BlobKey) where
  pub lookup-remove-update_blobs :
      (t : Table BlobKey BlobRow)
      → lookup key (remove key t) ≡ none
      → lookup key (remove key (update_blobs f t)) ≡ none
  unfolding lookup remove update_blobs
  lookup-remove-update_blobs [] h = refl
  lookup-remove-update_blobs ((j, blob) ∷ t) h =
      ground (arith, h, lookup-update_blobs f key t, lookup-remove-update_blobs t)
