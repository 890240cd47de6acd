-- ===== src/Blob/Sweep.antt =====
-- internal/blobsweep/sweeper.go: SweepOnce and deleteOne.
use vive_cserver.Base.{ℕ, ◌+◌, Bool, true, false, Option, none, some, List, [], ◌∷◌, if◌then◌else◌}
use vive_cserver.Base.Int.{ℤ, pos, ◌+ℤ◌}
use vive_cserver.Store.Database.{Database}
use vive_cserver.Blob.Attempt.{BlobError, Attempt, fault, got, database_failed}
use vive_cserver.Blob.Files.{FileStore, FileFaults, remove_file}
use vive_cserver.Blob.Records.{
  SweepableBlob, prune_references_of_deleted_pages, mark_unreferenced_blobs, select_sweepable_blobs,
  delete_swept_blob,
}

pub record BlobWorld : Type 0 where
  pub db : Database
  pub files : FileStore

pub record SweepCounts : Type 0 where
  pub references_pruned : ℕ
  pub marked : ℕ
  pub unmarked : ℕ
  pub rows_deleted : ℕ
  pub files_deleted : ℕ
  pub bytes_freed : ℤ

abbrev pub no_counts : SweepCounts
no_counts = record {
  references_pruned = 0;
  marked = 0;
  unmarked = 0;
  rows_deleted = 0;
  files_deleted = 0;
  bytes_freed = pos 0;
}

abbrev pub max_deletions_per_pass : ℕ
max_deletions_per_pass = 2000

-- What happens while one candidate is deleted: the clock of its transaction, what fails, and whether
-- the context has been cancelled when an error is looked at.
pub record Conditions : Type 0 where
  pub now : ℕ
  pub lock_fails : Bool
  pub database_fails : Bool
  pub file_faults : FileFaults
  pub cancelled : Bool

-- the four results of deleteOne
pub record Deletion : Type 0 where
  pub deleted : Bool
  pub bytes_freed : ℤ
  pub file_deleted : Bool
  pub error : Option BlobError

abbrev pub not_deleted : Option BlobError → Deletion
not_deleted e = record { deleted = false; bytes_freed = pos 0; file_deleted = false; error = e }

-- a row deleted, its file or the error of its removal
abbrev pub row_deleted : SweepableBlob → Bool → Option BlobError → Deletion
row_deleted candidate file_deleted e = record {
  deleted = true;
  bytes_freed = candidate.byte_count;
  file_deleted = file_deleted;
  error = e;
}

abbrev after_unlink : SweepableBlob → Attempt {0} Unit → Deletion
after_unlink candidate (fault e) = row_deleted candidate false (some e)
after_unlink candidate (got u) = row_deleted candidate true none

-- the end of deleteOne, from the row's deletion
abbrev pub unlink_unused :
    FileFaults → SweepableBlob → Attempt (Bool × Bool) × Database → FileStore → Deletion × BlobWorld
unlink_unused faults candidate (fault e, db) files =
    (not_deleted (some e), record { db = db; files = files })
unlink_unused faults candidate (got (false, unused), db) files =
    (not_deleted none, record { db = db; files = files })
unlink_unused faults candidate (got (true, false), db) files =
    (row_deleted candidate false none, record { db = db; files = files })
unlink_unused faults candidate (got (true, true), db) files = (
  after_unlink candidate (remove_file faults candidate.digest files).0,
  record { db = db; files = (remove_file faults candidate.digest files).1 },
)

-- Sweeper.deleteOne: one step, because the digest's lock is held over both of its halves
abbrev pub delete_one : Conditions → ℕ → SweepableBlob → BlobWorld → Deletion × BlobWorld
delete_one c retention candidate world =
    if c.lock_fails
    then (not_deleted (some database_failed), world)
    else unlink_unused c.file_faults candidate
        (delete_swept_blob c.database_fails c.now retention candidate world.db) world.files

-- The loop returns where an error finds the context cancelled.
abbrev pub stops : Conditions → Deletion → Bool
stops c d = elim d.error [ none ↦ false | some e ↦ c.cancelled ]

abbrev pub count_deletion : Deletion → SweepCounts → SweepCounts
count_deletion d counts = elim d.error [
  | some e ↦ counts
  | none ↦
      if d.deleted
      then record counts {
        rows_deleted = counts.rows_deleted + 1;
        bytes_freed = counts.bytes_freed +ℤ d.bytes_freed;
        files_deleted = counts.files_deleted + (if d.file_deleted then 1 else 0);
      }
      else counts
]

-- the loop over the candidates
unfoldable pub sweep_candidates :
    (SweepableBlob → Conditions)
    → ℕ
    → List SweepableBlob
    → SweepCounts
    → BlobWorld
    → SweepCounts × BlobWorld
sweep_candidates conditions retention [] counts world = (counts, world)
sweep_candidates conditions retention (candidate ∷ rest) counts world =
    let c = conditions candidate in
    let (deletion, after) = delete_one c retention candidate world in
    elim (stops c deletion) [
      | true ↦ (counts, after)
      | false ↦ sweep_candidates conditions retention rest (count_deletion deletion counts) after
    ]

-- the phases that can fail before anything is deleted
pub data SweepPhase : Type 0 where
  begin_phase lock_phase prune_phase mark_phase select_phase commit_phase : SweepPhase

pub record SweepAnswer : Type 0 where
  pub error : Option BlobError
  pub counts : SweepCounts
  pub after : BlobWorld

-- what the counts hold when a phase fails
abbrev counts_before : SweepPhase → SweepCounts → SweepCounts
counts_before mark_phase counts = record no_counts { references_pruned = counts.references_pruned }
counts_before select_phase counts = counts
counts_before commit_phase counts = counts
counts_before _ counts = no_counts

-- the transaction of the first two phases
abbrev pub prune_and_mark : ℕ → Database → SweepCounts × Database
prune_and_mark now db =
    let (pruned, after_prune) = prune_references_of_deleted_pages db in
    let (marks, after_mark) = mark_unreferenced_blobs now after_prune in
    (
      record no_counts { references_pruned = pruned; marked = marks.0; unmarked = marks.1 },
      after_mark,
    )

-- Sweeper.SweepOnce; `fails` is the phase that fails, `acquired` the answer of TryLockSweep
abbrev pub sweep_once :
    Option SweepPhase → Bool → ℕ → (SweepableBlob → Conditions) → ℕ → BlobWorld → SweepAnswer
sweep_once (some begin_phase) acquired now conditions retention world = record {
  error = some database_failed;
  counts = no_counts;
  after = world;
}
sweep_once (some lock_phase) acquired now conditions retention world = record {
  error = some database_failed;
  counts = no_counts;
  after = world;
}
sweep_once _ false now conditions retention world = record {
  error = none;
  counts = no_counts;
  after = world;
}
sweep_once (some phase) true now conditions retention world = record {
  error = some database_failed;
  counts = counts_before phase (prune_and_mark now world.db).0;
  after = world;
}
sweep_once none true now conditions retention world =
    let (counts, marked) = prune_and_mark now world.db in
    let (total, after) =
      sweep_candidates conditions retention
        (select_sweepable_blobs now retention max_deletions_per_pass marked) counts
        (record { db = marked; files = world.files }) in
    record { error = none; counts = total; after = after }
