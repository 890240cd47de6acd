-- ===== src/Tests/Blobs.antt =====
-- Attachments: an account with two blobs, one shown by a live attachment and one that nothing
-- refers to, uploads, a sweep.
pub mod Sweeps
use vive_cserver.Base.{
  ℕ, ◌≡◌, refl, String, str_eq, true, false, none, some, [], ◌∷◌, arith, ◌==◌, if◌then◌else◌,
  if_split,
}
use vive_cserver.Base.Int.{pos}
use vive_cserver.Base.Table.{lookup, remove}
use vive_cserver.Sync.Kind.{attachment, rank}
use vive_cserver.Sync.Text.{validate_digest}
use vive_cserver.Sync.Fields.{Bytes, AttachmentFields, attachment_fields}
use vive_cserver.Store.Database.{Database, BlobKey, BlobRow, blob_key_equality, row_key_equality}
use vive_cserver.Store.Context.{select_blobs}
use vive_cserver.Blob.Attempt.{got}
use vive_cserver.Blob.Files.{Reader, no_faults}
use vive_cserver.Blob.Records.{
  SweepableBlob, blob_key, reachable, shown_on_page, holds, has_reference, update_blobs,
  delete_swept_blob,
}
use vive_cserver.Blob.Records.Totals.{total}
use vive_cserver.Blob.Sweep.{BlobWorld, Conditions, delete_one, prune_and_mark, sweep_once}
use vive_cserver.Blob.Upload.{AuthenticatedDevice, handle_upload_blob, handle_download_blob}
use vive_cserver.Blob.Sound.{IsCharged, Charges, WorldSound}
use vive_cserver.Blob.Steps.{here, next, deleted_blob}
use vive_cserver.Blob.Invariants.{reach-WorldSound}
use vive_cserver.Blob.Runs.{IsUpload, handle_upload_blob-IsUpload}
use vive_cserver.Blob.Kept.{expected_mark, prune_and_mark-expected_mark}
use vive_cserver.Blob.Kept.Passes.{Claims, sweep_once-keeps-reachable, sweep_once-keeps-recent}
use vive_cserver.Blob.Transfer.{Serves, no_request_faults, upload-download, download-has_row}
use vive_cserver.Blob.Transfer.Confirms.{has_row}
use vive_cserver.Tests.Data.{codec, no_account, new_owner, stored_at}

-- sixty-four a's, and sixty-four b's
abbrev cat : String
cat = "aaaaaaaaaaaaaaaaaaaaaaaaaaaaaaaaaaaaaaaaaaaaaaaaaaaaaaaaaaaaaaaa"

abbrev dog : String
dog = "bbbbbbbbbbbbbbbbbbbbbbbbbbbbbbbbbbbbbbbbbbbbbbbbbbbbbbbbbbbbbbbb"

-- a hash that tells pictures that begin with 1 from the others
abbrev hash : Bytes → String
hash [] = dog
hash (b ∷ bs) = if b == 1 then cat else dog

abbrev cat_key : BlobKey
cat_key = blob_key "ada" cat

abbrev dog_key : BlobKey
dog_key = blob_key "ada" dog

abbrev cat_row : BlobRow
cat_row = record { byte_count = pos 2; unreferenced_since = none }

-- marked at 5, and wanted by nothing
abbrev dog_row : BlobRow
dog_row = record { byte_count = pos 1; unreferenced_since = some 5 }

abbrev picture : AttachmentFields
picture = record {
  mime_type = "image/png";
  pixel_width = pos 1;
  pixel_height = pos 1;
  byte_count = pos 2;
  created_at = pos 1;
}

abbrev pictures : Database
pictures = record no_account {
  accounts = ("ada", record new_owner { change_seq = 1; storage_bytes = pos 3 }) ∷ [];
  rows =
      (
        record { account_id = "ada"; kind = attachment; id = cat },
        stored_at 1 (attachment_fields picture),
      )
      ∷ [];
  blobs = (cat_key, cat_row) ∷ (dog_key, dog_row) ∷ [];
}

abbrev world : BlobWorld
world = record {
  db = pictures;
  files = record { staging = []; published = (cat, 1 ∷ 2 ∷ []) ∷ (dog, 3 ∷ []) ∷ [] };
}

pictures-IsCharged : (account_id : String) → IsCharged pictures account_id
unfolding total lookup
pictures-IsCharged account_id =
    if_split (λ found. Charges (total account_id pictures.blobs) found) (str_eq "ada" account_id)
      (λ own. ground (arith, own)) (λ other. tt)

world_sound : WorldSound hash world
unfolding lookup
world_sound = record {
  addressed = (refl, (refl, tt));
  rows = record {
    backed = (refl, (refl, tt));
    counted = (refl, (refl, tt));
    charged = pictures-IsCharged;
    refs_stored = tt;
  };
}

abbrev calm : SweepableBlob → Conditions
calm c = record {
  now = 20;
  lock_fails = false;
  database_fails = false;
  file_faults = no_faults;
  cancelled = false;
}

abbrev dog_candidate : SweepableBlob
dog_candidate = record { account_id = "ada"; digest = dog; byte_count = pos 1 }

reach_example : WorldSound hash (delete_one (calm dog_candidate) 10 dog_candidate world).1
reach_example =
    reach-WorldSound hash codec world _ world_sound
      (next here (deleted_blob (calm dog_candidate) 10 dog_candidate refl))

abbrev tablet : AuthenticatedDevice
tablet = record { device_id = "tablet"; account_id = "ada" }

abbrev whole : ℕ → Reader → Reader
whole limit body = body

abbrev cat_body : Reader
cat_body = record { content = 1 ∷ 2 ∷ []; ending = none }

-- no attachment is stored yet
abbrev bare : BlobWorld
bare = record {
  db = record pictures { blobs = [] };
  files = record { staging = []; published = [] };
}

stages_example :
    IsUpload hash whole 9 no_request_faults cat 7 cat_body bare
      (some tablet)
      (handle_upload_blob hash whole 9 no_request_faults (some tablet) cat (pos 2) cat_body 7 bare)
stages_example =
    handle_upload_blob-IsUpload hash whole 9 no_request_faults bare (some tablet) cat (pos 2)
      cat_body 7

found_cat : lookup cat_key world.db.blobs ≡ some cat_row
unfolding lookup
found_cat = refl

wanted_cat : reachable world.db cat_key ≡ true
unfolding reachable lookup shown_on_page rank
wanted_cat = refl

wanted_example : Claims cat_key (pos 2) (sweep_once none true 20 calm 10 world).after
wanted_example =
    sweep_once-keeps-reachable 20 calm 10 world cat_key cat_row none true found_cat wanted_cat

found_dog : lookup dog_key world.db.blobs ≡ some dog_row
unfolding lookup
found_dog = refl

recent_example : Claims dog_key (pos 1) (sweep_once none true 20 calm 15 world).after
recent_example =
    sweep_once-keeps-recent 20 calm 15 world dog_key dog_row none true found_dog (λ c. omega arith)

marked_dog : lookup dog_key (prune_and_mark 20 world.db).1.blobs ≡ some dog_row
unfolding reachable lookup update_blobs shown_on_page rank
marked_dog = refl

mark_example : dog_row.unreferenced_since ≡ expected_mark 20 (reachable world.db dog_key) (some 5)
mark_example = prune_and_mark-expected_mark 20 world.db dog_key dog_row dog_row found_dog marked_dog

confirmed_cat :
    (handle_upload_blob hash whole 9 no_request_faults
      (some tablet)
      cat
      (pos 2)
      cat_body
      7
      world).0.etag
    ≡ some cat
unfolding lookup validate_digest select_blobs
confirmed_cat = refl

transfer_example : Serves hash cat (
    handle_download_blob no_request_faults
      (some tablet)
      cat
      (handle_upload_blob hash whole 9 no_request_faults
        (some tablet)
        cat
        (pos 2)
        cat_body
        7
        world).1)
transfer_example =
    upload-download hash codec whole 9 no_request_faults tablet cat world (pos 2) cat_body 7
      world_sound confirmed_cat

served_cat : (handle_download_blob no_request_faults (some tablet) cat world).status ≡ 200
unfolding lookup validate_digest select_blobs
served_cat = refl

download_example : has_row "ada" cat world.db ≡ true
download_example = download-has_row no_request_faults tablet cat world served_cat

-- A row that was marked long ago is deleted although a live attachment has its bytes again: only a
-- reference of a page would stop it.
abbrev wanted_again : Database
wanted_again = record pictures {
  blobs = (cat_key, record cat_row { unreferenced_since = some 5 }) ∷ [];
}

deleted_while_wanted :
    (delete_swept_blob false 20 10
      (record { account_id = "ada"; digest = cat; byte_count = pos 2 })
      wanted_again).0
    ≡ got (true, true)
unfolding lookup validate_digest has_reference remove holds
deleted_while_wanted = refl
