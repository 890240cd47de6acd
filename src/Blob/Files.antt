-- ===== src/Blob/Files.antt =====
-- internal/blob/store.go: FileStore. A directory is a map from names to contents; `FileFaults` says
-- which system calls fail.
use vive_cserver.Base.{
  ℕ, String, str_eq, Bool, true, false, Option, none, some, [], length, if◌then◌else◌, string_eq,
  nat_eq,
}
use vive_cserver.Base.Int.{ℤ, pos}
use vive_cserver.Base.Table.{Table, lookup, put, forget}
use vive_cserver.Sync.Text.{validate_digest}
use vive_cserver.Sync.Fields.{Bytes}
use vive_cserver.Blob.Attempt.{
  BlobError, Attempt, fault, got, malformed_digest, not_found, digest_mismatch, io_failed,
}

-- The staging directory by temporary name, and the published files by digest: `pathFor` is
-- injective on the digests that ValidateDigest accepts, and gives no path outside the store.
pub record FileStore : Type 0 where
  pub staging : Table ℕ Bytes
  pub published : Table String Bytes

pub record StagedContent : Type 0 where
  pub path : ℕ
  pub digest : String
  pub byte_count : ℤ

-- io.Reader: what it gives, and the error with which it ends unless it ends with io.EOF
pub record Reader : Type 0 where
  pub content : Bytes
  pub ending : Option BlobError

pub record FileFaults : Type 0 where
  pub create : Bool
  pub flush : Bool
  pub close : Bool
  pub make_directory : Bool
  pub stat : Bool
  pub rename : Bool
  pub sync_directory : Bool
  pub unlink : Bool
  pub open_file : Bool

abbrev pub no_faults : FileFaults
no_faults = record {
  create = false;
  flush = false;
  close = false;
  make_directory = false;
  stat = false;
  rename = false;
  sync_directory = false;
  unlink = false;
  open_file = false;
}

-- os.Remove of a staged file, its error given up
abbrev pub drop_staged : FileFaults → ℕ → FileStore → FileStore
drop_staged faults path store =
    if faults.unlink then store else record store { staging = forget path store.staging }

-- StagedContent.Discard
abbrev pub discard : FileFaults → StagedContent → FileStore → Attempt {0} Unit × FileStore
discard faults staged store =
    if faults.unlink
    then (fault io_failed, store)
    else (got tt, record store { staging = forget staged.path store.staging })

-- clearDirectory of the staging directory, as OpenFileStore does it
abbrev pub open_file_store : FileStore → FileStore
open_file_store store = record store { staging = [] }

module _ (digest_of : Bytes → String) (faults : FileFaults) where
  -- the end of Stage: the content is written to the file `path`
  abbrev pub finish_staging :
      ℕ → String → Bytes → Option BlobError → FileStore → Attempt StagedContent × FileStore
  finish_staging path expected content (some e) store = (fault e, drop_staged faults path store)
  finish_staging path expected content none store =
      if str_eq (digest_of content) expected
      then (if faults.flush
          then (fault io_failed, drop_staged faults path store)
          else if faults.close
          then (fault io_failed, drop_staged faults path store)
          else (
            got (record { path = path; digest = expected; byte_count = pos (length content) }),
            store,
          ))
      else (fault digest_mismatch, drop_staged faults path store)

  -- FileStore.Stage; `path` is the name that os.CreateTemp gives. `digest_of` is SHA-256 in hex.
  abbrev pub stage : ℕ → String → Reader → FileStore → Attempt StagedContent × FileStore
  stage path expected source store = elim (validate_digest expected) [
    | some failure ↦ (fault (malformed_digest failure), store)
    | none ↦
        if faults.create
        then (fault io_failed, store)
        else finish_staging path expected source.content source.ending
            (record store { staging = put path source.content store.staging })
  ]

module _ (faults : FileFaults) where
  -- os.Rename into the store, then syncDirectory
  abbrev pub rename_into : String → ℕ → Option Bytes → FileStore → Attempt {0} Unit × FileStore
  rename_into digest path none store = (fault io_failed, store)
  rename_into digest path (some content) store =
      let moved : FileStore = record {
        staging = forget path store.staging;
        published = put digest content store.published;
      } in
      if faults.rename
      then (fault io_failed, store)
      else if faults.sync_directory
      then (fault io_failed, moved)
      else (got tt, moved)

  -- StagedContent.Publish
  abbrev pub publish_staged : StagedContent → FileStore → Attempt {0} Unit × FileStore
  publish_staged staged store =
      if faults.make_directory
      then (fault io_failed, store)
      else if faults.stat
      then (fault io_failed, store)
      else elim (lookup staged.digest store.published) [
        | some content ↦ discard faults staged store
        | none ↦ rename_into staged.digest staged.path (lookup staged.path store.staging) store
      ]

  -- FileStore.Exists
  abbrev pub exists_file : String → FileStore → Attempt Bool
  exists_file digest store = elim (validate_digest digest) [
    | some failure ↦ fault (malformed_digest failure)
    | none ↦
        if faults.stat
        then fault io_failed
        else elim (lookup digest store.published) [ none ↦ got false | some content ↦ got true ]
  ]

  -- FileStore.Open; the handle reads the content
  abbrev pub open_file : String → FileStore → Attempt Bytes
  open_file digest store = elim (validate_digest digest) [
    | some failure ↦ fault (malformed_digest failure)
    | none ↦ elim (lookup digest store.published) [
      | none ↦ fault not_found
      | some content ↦ if faults.open_file then fault io_failed else got content
    ]
  ]

  -- FileStore.Remove
  abbrev pub remove_file : String → FileStore → Attempt {0} Unit × FileStore
  remove_file digest store = elim (validate_digest digest) [
    | some failure ↦ (fault (malformed_digest failure), store)
    | none ↦
        if faults.unlink
        then (fault io_failed, store)
        else (got tt, record store { published = forget digest store.published })
  ]
