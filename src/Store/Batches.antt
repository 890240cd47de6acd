-- ===== src/Store/Batches.antt =====
-- FindAppliedBatchResponse and RecordAppliedBatchResponse of synctables.go.
use vive_cserver.Base.{
  ℕ, ◌+◌, String, str_eq, Bool, not, ◌&&◌, Option, none, some, keep, ltb, if◌then◌else◌, string_eq,
}
use vive_cserver.Base.Table.{lookup, put}
use vive_cserver.Store.Write.{Encoders}
use vive_cserver.Store.Context.Lookup.{is_some}
use vive_cserver.Store.Database.{Database, pair_equality}

-- SELECT response ... WHERE device_id = $1 AND batch_id = $2 AND created_at > now() - window
unfoldable pub find_applied_batch_response : String → String → ℕ → ℕ → Database → Option String
find_applied_batch_response device_id batch_id window now db =
    elim (lookup (device_id, batch_id) db.applied_batches) [
      | none ↦ none
      | some batch ↦ if ltb now (batch.created_at + window) then some batch.response else none
    ]

-- DELETE FROM applied_batches WHERE device_id = $1 AND created_at < now() - window
abbrev pub prune_batches : String → ℕ → ℕ → Database → Database
prune_batches device_id window now db = record db {
  applied_batches =
      keep (λ entry. not (str_eq entry.0.0 device_id && ltb (entry.1.created_at + window) now))
        db.applied_batches;
}

-- What applied_batches refuses: a device that is not there, a response that is no jsonb.
abbrev pub accepts_response : Encoders → String → String → Database → Bool
accepts_response enc device_id response db =
    is_some (lookup device_id db.devices) && enc.accepts_jsonb response

-- `response` is what the jsonb column gives back for the text that is stored; `prune` is the draw of
-- shouldPruneBatchResponses.
unfoldable pub record_applied_batch_response :
    String → String → String → ℕ → ℕ → Bool → Database → Database
record_applied_batch_response device_id batch_id response window now prune db =
    let recorded : Database = record db {
      applied_batches =
          put (device_id, batch_id) (record { response = response; created_at = now })
            db.applied_batches;
    } in
    if prune then prune_batches device_id window now recorded else recorded
