-- ===== src/Blob/Invariants.antt =====
-- Whatever uploads, sweeps, pushes and restarts do, rows keep their bytes.
use vive_cserver.Base.{
  ℕ, String, ◌≡◌, refl, sym, subst, Bool, true, false, if_cases, Option-split, length, string_eq,
}
use vive_cserver.Sync.Text.{validate_digest}
use vive_cserver.Sync.Fields.{Bytes}
use vive_cserver.Sync.Change.{Codec}
use vive_cserver.Store.Database.{Database}
use vive_cserver.Blob.Attempt.{Attempt, fault, got}
use vive_cserver.Blob.Files.{FileStore, FileFaults, StagedContent, discard}
use vive_cserver.Blob.Records.{holds, any_account_holds_blob, record_stored_blob}
use vive_cserver.Blob.Sweep.{BlobWorld}
use vive_cserver.Blob.Upload.{RequestFaults, clean_up, settle_claim, claim_published, publish_blob}
use vive_cserver.Blob.Backed.{
  Addressed, IsStaged, Staged, Published, Publishes, Backed-grows, stage-Staged,
  publish_staged-Published, Publishes-Addressed, Publishes-keeps, discard-published,
}
use vive_cserver.Blob.Sound.{RowsSound, WorldSound}
use vive_cserver.Blob.Sound.Statements.{Keeps, record_stored_blob-RowsSound}
use vive_cserver.Blob.Sound.Marks.{prune_and_mark-RowsSound, push-RowsSound}
use vive_cserver.Blob.Steps.{
  BlobStep, BlobReach, staged_upload, published_upload, marked_blobs, deleted_blob, pushed_changes,
  restarted, here, next, same_files, remove_unheld, delete_one-WorldSound,
}

-- An answer that no account holds the bytes is true.
abbrev Tells : String → Database → Attempt Bool → Type 0
Tells digest db (got false) = holds digest db.blobs ≡ false
Tells digest db _ = Unit

unheld_answer :
    (digest : String) (db : Database) (held : Bool)
    → holds digest db.blobs ≡ held
    → Tells digest db (got held)
unheld_answer digest db true h = tt
unheld_answer digest db false h = h

any_account_holds_blob-Tells :
    (fails : Bool) (digest : String) (db : Database)
    → Tells digest db (any_account_holds_blob fails digest db)
any_account_holds_blob-Tells fails digest db =
    Option-split (Tells digest db) (validate_digest digest)
      (λ valid.
        if_cases (Tells digest db) fails tt (unheld_answer digest db (holds digest db.blobs) refl))
      (λ failure invalid. tt)

module _ (digest_of : Bytes → String) (faults : RequestFaults) where
  clean_up-WorldSound :
      (digest : String) (w : BlobWorld) (answer : Attempt Bool)
      → Tells digest w.db answer
      → WorldSound digest_of w
      → WorldSound digest_of (clean_up answer faults digest w)
  clean_up-WorldSound digest w (got false) t s = remove_unheld digest_of faults.disk digest w t s
  clean_up-WorldSound digest w (got true) t s = s
  clean_up-WorldSound digest w (fault e) t s = s

  settle_claim-WorldSound :
      (digest : String) (r : Attempt Bool × Database) (w : BlobWorld)
      → Addressed digest_of w.files.published
      → Keeps w.files.published r
      → WorldSound digest_of (settle_claim faults digest r w).1
  settle_claim-WorldSound digest (got stored, db) w a k = record { addressed = a; rows = k }
  settle_claim-WorldSound digest (fault e, db) w a k =
      clean_up-WorldSound digest (record w { db = db }) _
        (any_account_holds_blob-Tells faults.check_fails digest db)
        (record { addressed = a; rows = k })

  -- The files have grown by what a staged upload publishes.
  grown_rows :
      (staged : StagedContent) (store after : FileStore) (db : Database)
      → Publishes staged store after
      → RowsSound store.published db
      → RowsSound after.published db
  grown_rows staged store after db p s = record {
    backed =
        Backed-grows store.published after.published db.blobs
          (λ digest. Publishes-keeps staged store after digest p) s.backed;
    counted = s.counted;
    charged = s.charged;
    refs_stored = s.refs_stored;
  }

  claim_published-WorldSound :
      (account_id : String) (staged : StagedContent) (w : BlobWorld)
      (r : Attempt {0} Unit × FileStore)
      → IsStaged digest_of staged w.files
      → Published staged w.files r
      → WorldSound digest_of w
      → WorldSound digest_of (claim_published faults account_id staged r w.db).1
  claim_published-WorldSound account_id staged w (fault e, files) i p s =
      same_files digest_of (record { db = w.db; files = files })
        (discard faults.disk staged files).1 (discard-published faults.disk staged files)
        (record {
          addressed = Publishes-Addressed digest_of staged w.files files i p.0 s.addressed;
          rows = grown_rows staged w.files files w.db p.0 s.rows;
        })
  claim_published-WorldSound account_id staged w (got u, files) i p s =
      settle_claim-WorldSound staged.digest _ (record { db = w.db; files = files })
        (Publishes-Addressed digest_of staged w.files files i p.0 s.addressed)
        (subst
          (λ n.
            Keeps files.published
              (record_stored_blob faults.record_fails account_id staged.digest n w.db))
          (sym i.byte_count)
          (record_stored_blob-RowsSound files.published account_id staged.digest (length i.content)
            w.db p.1 (grown_rows staged w.files files w.db p.0 s.rows) faults.record_fails))

  pub publish_blob-WorldSound :
      (account_id : String) (staged : StagedContent) (w : BlobWorld)
      → IsStaged digest_of staged w.files
      → WorldSound digest_of w
      → WorldSound digest_of (publish_blob faults account_id staged w).1
  publish_blob-WorldSound account_id staged w i s =
      if_cases (λ (r : Attempt Bool × BlobWorld). WorldSound digest_of r.1) faults.lock_fails
        (same_files digest_of w _ (discard-published faults.disk staged w.files) s)
        (claim_published-WorldSound account_id staged w _ i
          (publish_staged-Published faults.disk staged w.files) s)

upload_files :
    (digest_of : Bytes → String) (faults : FileFaults) (path : ℕ) (expected : String)
    (store : FileStore) (r : Attempt StagedContent × FileStore)
    → Staged digest_of faults path expected store r
    → r.1.published ≡ store.published
upload_files digest_of faults path expected store (fault e, after) s = s
upload_files digest_of faults path expected store (got staged, after) s = s.0

module _ (digest_of : Bytes → String) (codec : Codec) where
  BlobStep-WorldSound :
      (w u : BlobWorld)
      → BlobStep digest_of codec w u
      → WorldSound digest_of w
      → WorldSound digest_of u
  BlobStep-WorldSound w u (staged_upload faults path digest body e) s =
      subst (WorldSound digest_of) (sym e) (
        same_files digest_of w _
          (upload_files digest_of faults path digest w.files _
            (stage-Staged digest_of faults path digest body w.files))
          s)
  BlobStep-WorldSound w u (published_upload faults account_id staged i e) s =
      subst (WorldSound digest_of) (sym e)
        (publish_blob-WorldSound digest_of faults account_id staged w i s)
  BlobStep-WorldSound w u (marked_blobs now e) s = subst (WorldSound digest_of) (sym e) (record {
    addressed = s.addressed;
    rows = prune_and_mark-RowsSound w.files.published now w.db s.rows;
  })
  BlobStep-WorldSound w u (deleted_blob c retention candidate e) s =
      subst (WorldSound digest_of) (sym e)
        (delete_one-WorldSound digest_of c retention candidate w s)
  BlobStep-WorldSound w u (pushed_changes request now prune e) s =
      subst (WorldSound digest_of) (sym e) (record {
        addressed = s.addressed;
        rows = push-RowsSound w.files.published codec request now prune w.db s.rows;
      })
  BlobStep-WorldSound w u (restarted e) s =
      subst (WorldSound digest_of) (sym e) (same_files digest_of w _ refl s)

  -- Uploads, sweeps, pushes and restarts, in whatever order their steps come and whatever fails in
  -- them, keep a sound world sound: every row of blobs has its file, every file holds bytes that
  -- hash to its name, storage_bytes of an account is the sum of its rows, and every reference of a
  -- page has its row.
  pub reach-WorldSound :
      (w u : BlobWorld)
      → WorldSound digest_of w
      → BlobReach digest_of codec w u
      → WorldSound digest_of u
  reach-WorldSound w u s here = s
  reach-WorldSound w u s (next r step) = BlobStep-WorldSound _ u step (reach-WorldSound w _ s r)
