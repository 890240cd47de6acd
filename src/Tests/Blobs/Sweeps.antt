-- ===== src/Tests/Blobs/Sweeps.antt =====
-- The sweep of the blob that nothing refers to.
use vive_cserver.Base.{◌≤◌, ◌≡◌, refl, true, false, none, arith, keep, length, ◌∷◌, [], string_eq}
use vive_cserver.Base.Table.{lookup, remove}
use vive_cserver.Sync.Kind.{rank}
use vive_cserver.Sync.Text.{validate_digest}
use vive_cserver.Store.Database.{blob_key_equality}
use vive_cserver.Blob.Records.{is_due, reachable, shown_on_page, update_blobs}
use vive_cserver.Blob.Sweep.{prune_and_mark, sweep_once, max_deletions_per_pass}
use vive_cserver.Blob.Offered.Deletes.{IsGone}
use vive_cserver.Blob.Offered.Rows.{IsOnly, sweep_once-IsGone}
use vive_cserver.Tests.Blobs.{calm, cat_row, dog_key, dog_row, found_dog, world, cat_key}

unwanted_dog : reachable world.db dog_key ≡ false
unfolding reachable lookup shown_on_page rank
unwanted_dog = refl

valid_dog : validate_digest dog_key.digest ≡ none
unfolding validate_digest
valid_dog = refl

single_dog : IsOnly dog_key world.db
unfolding lookup remove
single_dog = refl

marked_rows : (prune_and_mark 20 world.db).1.blobs ≡ (cat_key, cat_row) ∷ (dog_key, dog_row) ∷ []
unfolding reachable lookup update_blobs shown_on_page rank
marked_rows = refl

few_due :
    length (keep (λ r. is_due 20 10 r.1) (prune_and_mark 20 world.db).1.blobs)
    ≤ max_deletions_per_pass
few_due = rw (marked_rows) (omega arith)

gone_example : IsGone dog_key (sweep_once none true 20 calm 10 world).after.db
gone_example =
    sweep_once-IsGone 20 calm 10 world dog_key dog_row found_dog refl unwanted_dog valid_dog
      single_dog tt few_due (λ c own. record { unlocked = refl; database_runs = refl; due = refl })
      (λ c. refl)
