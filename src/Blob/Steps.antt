-- ===== src/Blob/Steps.antt =====
-- The steps that uploads, sweeps, pushes and restarts take, in any order and at any time: an upload
-- is staged without a lock and published under its digest's, a sweep marks in one transaction and
-- deletes candidates one at a time under theirs.
use vive_cserver.Base.{ℕ, String, ◌≡◌, sym, subst, Bool, true, false, if_cases, inl, inr, string_eq}
use vive_cserver.Base.Table.{All-forget}
use vive_cserver.Sync.Fields.{Bytes}
use vive_cserver.Sync.Change.{Codec}
use vive_cserver.Sync.Engine.Checks.{PushRequest}
use vive_cserver.Push.Outcomes.{after_push}
use vive_cserver.Store.Database.{Database}
use vive_cserver.Blob.Attempt.{Attempt, fault, got}
use vive_cserver.Blob.Files.{
  FileStore, FileFaults, StagedContent, Reader, stage, remove_file, open_file_store,
}
use vive_cserver.Blob.Records.{SweepableBlob, holds, delete_swept_blob}
use vive_cserver.Blob.Sweep.{
  BlobWorld, Conditions, Deletion, unlink_unused, delete_one, prune_and_mark,
}
use vive_cserver.Blob.Upload.{RequestFaults, publish_blob}
use vive_cserver.Blob.Backed.{Addressed, IsStaged, forget-Backed, remove_file-Removes}
use vive_cserver.Blob.Sound.{RowsSound, WorldSound}
use vive_cserver.Blob.Sound.Statements.{Keeps}
use vive_cserver.Blob.Sound.Deletions.{Frees, delete_swept_blob-Sweeps}

pub data BlobStep (digest_of : Bytes → String) (codec : Codec) (w u : BlobWorld) : Type 0 where
  staged_upload :
      (faults : FileFaults) (path : ℕ) (digest : String) (body : Reader)
      → u ≡ record w { files = (stage digest_of faults path digest body w.files).1 }
      → BlobStep digest_of codec w u
  published_upload :
      (faults : RequestFaults) (account_id : String) (staged : StagedContent)
      → IsStaged digest_of staged w.files
      → u ≡ (publish_blob faults account_id staged w).1
      → BlobStep digest_of codec w u
  marked_blobs :
      (now : ℕ) → u ≡ record w { db = (prune_and_mark now w.db).1 } → BlobStep digest_of codec w u
  deleted_blob :
      (c : Conditions) (retention : ℕ) (candidate : SweepableBlob)
      → u ≡ (delete_one c retention candidate w).1
      → BlobStep digest_of codec w u
  pushed_changes :
      (request : PushRequest) (now : ℕ) (prune : Bool)
      → u ≡ record w { db = after_push codec request now prune w.db }
      → BlobStep digest_of codec w u
  restarted : u ≡ record w { files = open_file_store w.files } → BlobStep digest_of codec w u

pub data BlobReach (digest_of : Bytes → String) (codec : Codec) (w : BlobWorld)
    : BlobWorld → Type 0 where
  here : BlobReach digest_of codec w w
  next :
      {u v : BlobWorld}
      → BlobReach digest_of codec w u
      → BlobStep digest_of codec u v
      → BlobReach digest_of codec w v

module _ (digest_of : Bytes → String) where
  -- The published files of a store are those of another.
  pub same_files :
      (w : BlobWorld) (files : FileStore)
      → files.published ≡ w.files.published
      → WorldSound digest_of w
      → WorldSound digest_of (record w { files = files })
  same_files w files e s = record {
    addressed = subst (Addressed digest_of) (sym e) s.addressed;
    rows = subst (λ p. RowsSound p w.db) (sym e) s.rows;
  }

  pub remove_unheld :
      (faults : FileFaults) (digest : String) (w : BlobWorld)
      → holds digest w.db.blobs ≡ false
      → WorldSound digest_of w
      → WorldSound digest_of (record w { files = (remove_file faults digest w.files).1 })
  remove_unheld faults digest w unheld s = elim (remove_file-Removes faults digest w.files) [
    | inl e ↦ same_files w _ e s
    | inr e ↦ record {
      addressed =
          subst (Addressed digest_of) (sym e)
            (All-forget (λ f. digest_of f.1 ≡ f.0) digest w.files.published s.addressed);
      rows =
          subst (λ p. RowsSound p w.db) (sym e)
            (record {
              backed = forget-Backed digest w.files.published w.db.blobs unheld s.rows.backed;
              counted = s.rows.counted;
              charged = s.rows.charged;
              refs_stored = s.rows.refs_stored;
            });
    }
  ]

  unlink_unused-WorldSound :
      (faults : FileFaults) (candidate : SweepableBlob) (r : Attempt (Bool × Bool) × Database)
      (files : FileStore)
      → Addressed digest_of files.published
      → Keeps files.published r
      → Frees candidate.digest r
      → WorldSound digest_of (unlink_unused faults candidate r files).1
  unlink_unused-WorldSound faults candidate (fault e, db) files a k f = record {
    addressed = a;
    rows = k;
  }
  unlink_unused-WorldSound faults candidate (got (false, unused), db) files a k f = record {
    addressed = a;
    rows = k;
  }
  unlink_unused-WorldSound faults candidate (got (true, false), db) files a k f = record {
    addressed = a;
    rows = k;
  }
  unlink_unused-WorldSound faults candidate (got (true, true), db) files a k f =
      remove_unheld faults candidate.digest (record { db = db; files = files }) f
        (record { addressed = a; rows = k })

  pub delete_one-WorldSound :
      (c : Conditions) (retention : ℕ) (candidate : SweepableBlob) (w : BlobWorld)
      → WorldSound digest_of w
      → WorldSound digest_of (delete_one c retention candidate w).1
  delete_one-WorldSound c retention candidate w s =
      if_cases (λ (r : Deletion × BlobWorld). WorldSound digest_of r.1) c.lock_fails s
        (let swept =
            delete_swept_blob-Sweeps w.files.published c.database_fails c.now retention candidate
              w.db s.rows in
          unlink_unused-WorldSound c.file_faults candidate
            (delete_swept_blob c.database_fails c.now retention candidate w.db) w.files s.addressed
            swept.0 swept.1)
