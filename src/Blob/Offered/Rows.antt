-- ===== src/Blob/Offered/Rows.antt =====
-- A whole pass of the sweeper deletes what has been unwanted for long.
use vive_cserver.Base.{ℕ, ◌≤◌, ◌≡◌, true, false, none, some, arith, keep, length, string_eq}
use vive_cserver.Base.Table.{lookup, remove}
use vive_cserver.Sync.Text.{validate_digest}
use vive_cserver.Store.Database.{Database, BlobKey, BlobRow, blob_key_equality}
use vive_cserver.Blob.Records.{SweepableBlob, is_due, has_reference, reachable}
use vive_cserver.Blob.Sweep.{
  BlobWorld, Conditions, sweep_once, prune_and_mark, max_deletions_per_pass,
}
use vive_cserver.Blob.Kept.{lookup-prune_and_mark}
use vive_cserver.Blob.Offered.{
  candidate_key, offers-select, PagesExist, has_reference-kept, lookup-remove-update_blobs,
}
use vive_cserver.Blob.Offered.Deletes.{IsGone, Runs, sweep_candidates-deletes}

-- The primary key of blobs: the table has no other row of the key.
abbrev pub IsOnly : BlobKey → Database → Type 0
IsOnly key db = lookup key (remove key db.blobs) ≡ none

module _ (now retention : ℕ) (db : Database) (key : BlobKey) (blob : BlobRow)
    (found : lookup key db.blobs ≡ some blob) (due : is_due now retention blob ≡ true)
    (unwanted : reachable db key ≡ false) where
  -- the first transaction of the pass leaves the row as it is
  marked_row : lookup key (prune_and_mark now db).1.blobs ≡ some blob
  marked_row =
      let made = lookup-prune_and_mark now db key in ground (arith, made, found, due, unwanted)

  single_row : IsOnly key db → IsOnly key (prune_and_mark now db).1
  single_row only =
      lookup-remove-update_blobs _ key _ (lookup-remove-update_blobs _ key db.blobs only)

  no_reference : PagesExist db → has_reference key (prune_and_mark now db).1.page_blob_refs ≡ false
  unfolding reachable
  no_reference exist =
      has_reference-kept db.rows key db.page_blob_refs exist (ground (arith, unwanted))

-- A pass of the sweeper in which no phase fails deletes an account's claim on bytes whose mark is
-- older than the retention and that neither a live page of the account shows nor a live attachment
-- of the account has. Conditions: the digest is well formed, blobs has one row of the key, every
-- reference has the row of its page, no more rows are due than a pass deletes, the context is not
-- cancelled, and for the row itself the lock is obtained, the database does not fail and the clock
-- does not go back before the end of the grace period.
pub sweep_once-IsGone :
    (now : ℕ) (conditions : SweepableBlob → Conditions) (retention : ℕ) (w : BlobWorld)
    (key : BlobKey) (blob : BlobRow)
    → lookup key w.db.blobs ≡ some blob
    → is_due now retention blob ≡ true
    → reachable w.db key ≡ false
    → validate_digest key.digest ≡ none
    → IsOnly key w.db
    → PagesExist w.db
    → length (keep (λ r. is_due now retention r.1) (prune_and_mark now w.db).1.blobs)
      ≤ max_deletions_per_pass
    → ((c : SweepableBlob) → candidate_key c ≡ key → Runs key blob retention (conditions c))
    → ((c : SweepableBlob) → (conditions c).cancelled ≡ false)
    → IsGone key (sweep_once none true now conditions retention w).after.db
sweep_once-IsGone now conditions retention w key blob found due unwanted valid only exist few runs
      goes_on =
    let here = marked_row now retention w.db key blob found due unwanted in
    sweep_candidates-deletes key blob conditions retention valid runs goes_on _ _ _
      (offers-select key now retention max_deletions_per_pass blob (prune_and_mark now w.db).1 here
        due few)
      (
        here,
        single_row now retention w.db key blob found due unwanted only,
        no_reference now retention w.db key blob found due unwanted exist,
      )
