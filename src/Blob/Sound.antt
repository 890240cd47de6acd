-- ===== src/Blob/Sound.antt =====
-- The rows of blobs, accounts and page_blob_refs agree with each other and with the files.
pub mod Statements
pub mod Deletions
pub mod Marks
use vive_cserver.Base.{
  ℕ, ◌+◌, String, ◌≡◌, refl, Bool, true, false, Option, none, some, List, [], ◌∷◌, arith,
  if◌then◌else◌, All, string_eq,
}
use vive_cserver.Base.Int.{ℤ, pos}
use vive_cserver.Base.Table.{Table, lookup, put, remove, lookup-put, lookup-remove-other}
use vive_cserver.Sync.Fields.{Bytes}
use vive_cserver.Store.Database.{
  Database, AccountRow, BlobKey, BlobRow, BlobRef, blob_key_eq_iff, blob_key_equality,
}
use vive_cserver.Store.Context.Lookup.{is_some}
use vive_cserver.Blob.Records.{update_blobs, has_reference, blob_key}
use vive_cserver.Blob.Records.Totals.{Counted, total, lookup-update_blobs}
use vive_cserver.Blob.Backed.{Backed, Addressed}
use vive_cserver.Blob.Sweep.{BlobWorld}

abbrev pub Charges : ℕ → Option AccountRow → Type 0
Charges n none = Unit
Charges n (some account) = account.storage_bytes ≡ pos n

-- storage_bytes of the account is the sum of its blobs' byte_count.
abbrev pub IsCharged : Database → String → Type 0
IsCharged db account_id = Charges (total account_id db.blobs) (lookup account_id db.accounts)

abbrev pub HasRow : Table BlobKey BlobRow → BlobRef → Type 0
HasRow blobs ref = is_some (lookup (blob_key ref.account_id ref.digest) blobs) ≡ true

pub record RowsSound (files : Table String Bytes) (db : Database) : Type 0 where
  pub backed : Backed files db.blobs
  pub counted : Counted db.blobs
  pub charged : (account_id : String) → IsCharged db account_id
  pub refs_stored : All (HasRow db.blobs) db.page_blob_refs

pub record WorldSound (digest_of : Bytes → String) (world : BlobWorld) : Type 0 where
  pub addressed : Addressed digest_of world.files.published
  pub rows : RowsSound world.files.published world.db

pub refs-grow :
    (blobs more : Table BlobKey BlobRow) (refs : List BlobRef)
    → ((key : BlobKey) → is_some (lookup key blobs) ≡ true → is_some (lookup key more) ≡ true)
    → All (HasRow blobs) refs
    → All (HasRow more) refs
refs-grow blobs more [] grows a = a
refs-grow blobs more (ref ∷ refs) grows a =
    (grows (blob_key ref.account_id ref.digest) a.0, refs-grow blobs more refs grows a.1)

pub put-stays :
    (key k : BlobKey) (blob : BlobRow) (blobs : Table BlobKey BlobRow)
    → is_some (lookup k blobs) ≡ true
    → is_some (lookup k (put key blob blobs)) ≡ true
put-stays key k blob blobs h = ground (arith, h, lookup-put key k blob blobs)

pub update_blobs-stays :
    (f : BlobKey → BlobRow → BlobRow) (k : BlobKey) (blobs : Table BlobKey BlobRow)
    → is_some (lookup k blobs) ≡ true
    → is_some (lookup k (update_blobs f blobs)) ≡ true
update_blobs-stays f k blobs h = ground (arith, h, lookup-update_blobs f k blobs)

-- A row that nothing refers to can go.
pub remove-refs :
    (key : BlobKey) (blobs : Table BlobKey BlobRow) (refs : List BlobRef)
    → has_reference key refs ≡ false
    → All (HasRow blobs) refs
    → All (HasRow (remove key blobs)) refs
unfolding has_reference
remove-refs key blobs [] h a = a
remove-refs key blobs (ref ∷ refs) h a = (
  ground (arith, h, a.0, lookup-remove-other key (blob_key ref.account_id ref.digest) blobs),
  remove-refs key blobs refs (ground (arith, h)) a.1,
)
