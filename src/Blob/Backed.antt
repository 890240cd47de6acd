-- ===== src/Blob/Backed.antt =====
-- Rows and their bytes: every row's digest has a file, and a file's content hashes to its name.
use vive_cserver.Base.{
  ℕ, String, str_eq, str_eq_refl, eq_iff, ◌≡◌, refl, sym, ap, subst, Bool, true, false, Option,
  none, some, ◌⊎◌, inl, inr, ==_iff, [], ◌∷◌, arith, if◌then◌else◌, if_cases, if_split, length, All,
  string_eq, nat_eq,
}
use vive_cserver.Base.Int.{pos}
use vive_cserver.Base.Table.{Table, lookup, put, forget, lookup-put, lookup-forget, All-put}
use vive_cserver.Sync.Failure.{Failure}
use vive_cserver.Sync.Text.{validate_digest}
use vive_cserver.Sync.Fields.{Bytes}
use vive_cserver.Store.Context.Lookup.{is_some}
use vive_cserver.Store.Database.{BlobKey, BlobRow}
use vive_cserver.Blob.Attempt.{BlobError, Attempt, fault, got, malformed_digest, io_failed}
use vive_cserver.Blob.Files.{
  FileStore, FileFaults, StagedContent, Reader, discard, drop_staged, finish_staging, stage,
  rename_into, publish_staged, remove_file,
}
use vive_cserver.Blob.Records.{holds}

abbrev pub is_published : String → Table String Bytes → Bool
is_published digest files = is_some (lookup digest files)

abbrev pub Backed : Table String Bytes → Table BlobKey BlobRow → Type 0
Backed files = All λ r. is_published r.0.digest files ≡ true

abbrev pub Addressed : (Bytes → String) → Table String Bytes → Type 0
Addressed digest_of = All λ f. digest_of f.1 ≡ f.0

-- What Stage promises of what it returns
pub record IsStaged (digest_of : Bytes → String) (staged : StagedContent) (store : FileStore)
    : Type 0 where
  pub content : Bytes
  pub found : lookup staged.path store.staging ≡ some content
  pub digest : digest_of content ≡ staged.digest
  pub byte_count : staged.byte_count ≡ pos (length content)

pub Backed-grows :
    (files more : Table String Bytes) (blobs : Table BlobKey BlobRow)
    → ((digest : String) → is_published digest files ≡ true → is_published digest more ≡ true)
    → Backed files blobs
    → Backed more blobs
Backed-grows files more [] grows b = b
Backed-grows files more ((key, blob) ∷ blobs) grows b =
    (grows key.digest b.0, Backed-grows files more blobs grows b.1)

-- A file that no row names can go.
pub forget-Backed :
    (digest : String) (files : Table String Bytes) (blobs : Table BlobKey BlobRow)
    → holds digest blobs ≡ false
    → Backed files blobs
    → Backed (forget digest files) blobs
unfolding holds
forget-Backed digest files [] h b = b
forget-Backed digest files ((key, blob) ∷ blobs) h b = (
  ground (arith, h, b.0, lookup-forget digest key.digest files),
  forget-Backed digest files blobs (ground (arith, h)) b.1,
)

put-published :
    (digest d : String) (content : Bytes) (files : Table String Bytes)
    → is_published d files ≡ true
    → is_published d (put digest content files) ≡ true
put-published digest d content files h = ground (arith, h, lookup-put digest d content files)

-- What Publish leaves: the same files, or one more whose content is that of the staged file.
pub data Publishes (staged : StagedContent) (store after : FileStore) : Type 0 where
  same : after.published ≡ store.published → Publishes staged store after
  more :
      (content : Bytes)
      → lookup staged.path store.staging ≡ some content
      → after.published ≡ put staged.digest content store.published
      → Publishes staged store after

-- An answer without an error promises the file.
abbrev pub Promises : Attempt {0} Unit × FileStore → String → Type 0
Promises (fault e, store) digest = Unit
Promises (got u, store) digest = is_published digest store.published ≡ true

abbrev pub Published : StagedContent → FileStore → Attempt {0} Unit × FileStore → Type 0
Published staged store r = Publishes staged store r.1 × Promises r staged.digest

module _ (faults : FileFaults) (staged : StagedContent) (store : FileStore) where
  pub discard-published : (discard faults staged store).1.published ≡ store.published
  discard-published =
      if_cases (λ (r : Attempt {0} Unit × FileStore). r.1.published ≡ store.published) faults.unlink
        refl refl

  discard-Published :
      is_published staged.digest store.published ≡ true
      → Published staged store (discard faults staged store)
  discard-Published h =
      if_cases (Published staged store) faults.unlink (same refl, tt) (same refl, h)

  rename_into-Published :
      (found : Option Bytes)
      → lookup staged.path store.staging ≡ found
      → Published staged store (rename_into faults staged.digest staged.path found store)
  rename_into-Published none h = (same refl, tt)
  rename_into-Published (some content) h =
      if_cases (Published staged store) faults.rename (same refl, tt)
        (if_cases (Published staged store) faults.sync_directory (more content h refl, tt)
          (
            more content h refl,
            ground (
              arith,
              lookup-put staged.digest staged.digest content store.published,
              str_eq_refl staged.digest,
            ),
          ))

  publish_found :
      (stored : Option Bytes)
      → lookup staged.digest store.published ≡ stored
      → Published staged store (elim stored [
        | some content ↦ discard faults staged store
        | none ↦
            rename_into faults staged.digest staged.path (lookup staged.path store.staging) store
      ])
  publish_found (some content) h = discard-Published (ap is_some h)
  publish_found none h = rename_into-Published (lookup staged.path store.staging) refl

  pub publish_staged-Published : Published staged store (publish_staged faults staged store)
  publish_staged-Published =
      if_cases (Published staged store) faults.make_directory (same refl, tt)
        (if_cases (Published staged store) faults.stat (same refl, tt)
          (publish_found (lookup staged.digest store.published) refl))

-- A published file hashes to its name if the staged one does.
pub Publishes-Addressed :
    (digest_of : Bytes → String) (staged : StagedContent) (store after : FileStore)
    → IsStaged digest_of staged store
    → Publishes staged store after
    → Addressed digest_of store.published
    → Addressed digest_of after.published
Publishes-Addressed digest_of staged store after s (same e) a =
    subst (Addressed digest_of) (sym e) a
Publishes-Addressed digest_of staged store after s (more content found e) a =
    subst (Addressed digest_of) (sym e) (
      All-put (λ f. digest_of f.1 ≡ f.0) staged.digest content store.published
        (ground (arith, s.found, found, s.digest)) a)

pub Publishes-keeps :
    (staged : StagedContent) (store after : FileStore) (digest : String)
    → Publishes staged store after
    → is_published digest store.published ≡ true
    → is_published digest after.published ≡ true
Publishes-keeps staged store after digest (same e) h =
    subst (λ files. is_published digest files ≡ true) (sym e) h
Publishes-keeps staged store after digest (more content found e) h =
    subst (λ files. is_published digest files ≡ true) (sym e)
      (put-published staged.digest digest content store.published h)

module _ (digest_of : Bytes → String) (faults : FileFaults) (path : ℕ) (expected : String) where
  drop_staged-published :
      (store : FileStore) → (drop_staged faults path store).published ≡ store.published
  drop_staged-published store =
      if_cases (λ (s : FileStore). s.published ≡ store.published) faults.unlink refl refl

  -- What Stage returns is staged under the digest that its bytes hash to, and the published files
  -- stay.
  abbrev pub Staged : FileStore → Attempt StagedContent × FileStore → Type 0
  Staged store (fault e, after) = after.published ≡ store.published
  Staged store (got staged, after) =
      (after.published ≡ store.published)
      × (staged.digest ≡ expected)
      × (validate_digest expected ≡ none)
      × IsStaged digest_of staged after

  finish_staging-Staged :
      (content : Bytes) (ending : Option BlobError) (store : FileStore)
      → validate_digest expected ≡ none
      → lookup path store.staging ≡ some content
      → Staged store (finish_staging digest_of faults path expected content ending store)
  finish_staging-Staged content (some e) store v h = drop_staged-published store
  finish_staging-Staged content none store v h =
      if_split (Staged store) (str_eq (digest_of content) expected)
        (λ hashed. if_cases (Staged store) faults.flush (drop_staged-published store) (
          if_cases (Staged store) faults.close (drop_staged-published store) (
            refl,
            refl,
            v,
            record {
              content = content;
              found = h;
              digest = (eq_iff (digest_of content) expected).0 hashed;
              byte_count = refl;
            },
          )))
        (λ other. drop_staged-published store)

  stage_checked :
      (source : Reader) (store : FileStore) (checked : Option Failure)
      → validate_digest expected ≡ checked
      → Staged store (elim checked [
        | some failure ↦ (fault (malformed_digest failure), store)
        | none ↦
            if faults.create
            then (fault io_failed, store)
            else finish_staging digest_of faults path expected source.content source.ending
                (record store { staging = put path source.content store.staging })
      ])
  stage_checked source store (some failure) v = refl
  stage_checked source store none v = if_cases (Staged store) faults.create refl (
      finish_staging-Staged source.content source.ending
        (record store { staging = put path source.content store.staging }) v
        (ground (arith, lookup-put path path source.content store.staging, ==_iff path path)))

  pub stage-Staged :
      (source : Reader) (store : FileStore)
      → Staged store (stage digest_of faults path expected source store)
  stage-Staged source store = stage_checked source store (validate_digest expected) refl

-- Removing a file that no row names leaves every row its file.
module _ (faults : FileFaults) (digest : String) (store : FileStore) where
  abbrev pub Removes : Attempt {0} Unit × FileStore → Type 0
  Removes r = (r.1.published ≡ store.published) ⊎ (r.1.published ≡ forget digest store.published)

  remove_checked :
      (checked : Option Failure)
      → Removes (elim checked [
        | some failure ↦ (fault (malformed_digest failure), store)
        | none ↦
            if faults.unlink
            then (fault io_failed, store)
            else (got tt, record store { published = forget digest store.published })
      ])
  remove_checked (some failure) = inl refl
  remove_checked none = if_cases Removes faults.unlink (inl refl) (inr refl)

  pub remove_file-Removes : Removes (remove_file faults digest store)
  remove_file-Removes = remove_checked (validate_digest digest)
