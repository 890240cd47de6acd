-- ===== src/Sync/Engine.antt =====
-- internal/syncengine/engine.go: ApplyChangeBatch and what it calls.
pub mod Checks
pub mod Run
pub mod Reference
pub mod Answers
pub mod Gather
pub mod Batching
pub mod Accept
pub mod References
pub mod Pending
pub mod Loop
use vive_cserver.Base.{
  ℕ, String, Bool, true, false, Option, none, some, List, [], ◌∷◌, map, if◌then◌else◌,
}
use vive_cserver.Store.Database.{Database}
use vive_cserver.Store.Outcome.{Outcome, ok, failed, not_encodable, response_refused, ◌>>=◌}
use vive_cserver.Store.Sequence.{allocate_change_seq, read_change_seq}
use vive_cserver.Store.Write.{ChangeEnvelope, PendingWrite, write_changes}
use vive_cserver.Store.Batches.{
  find_applied_batch_response, record_applied_batch_response, accepts_response,
}
use vive_cserver.Sync.Change.{PushResult, Codec}
use vive_cserver.Sync.Decode.{decode_changes}
use Checks.{PushRequest}
use Run.{Progress, decide_changes}

pub record PushAnswer : Type 0 where
  pub response : String
  pub committed : Bool
  pub after : Database

-- pendingWrites[index].Envelope.ChangeSeq = allocatedSeq
abbrev pub stamp : ℕ → PendingWrite → PendingWrite
stamp seq w = record w { envelope = record w.envelope { change_seq = seq } }

pub record Stored : Type 0 where
  pub cursor : ℕ
  pub after : Database

-- A batch that was refused in full allocates no sequence value.
unfoldable pub store_writes : Codec → String → List PendingWrite → Database → Outcome Stored
store_writes codec account_id [] db = do
  cursor ← read_change_seq account_id db
  ok (record { cursor = cursor; after = db })
store_writes codec account_id (w ∷ ws) db = do
  (seq, allocated) ← allocate_change_seq account_id db
  written ← write_changes codec.encoders (map (stamp seq) (w ∷ ws)) allocated
  ok (record { cursor = seq; after = written })

abbrev pub has_writes : List PendingWrite → Bool
has_writes [] = false
has_writes (w ∷ ws) = true

abbrev pub encoded : Codec → PushResult → Outcome String
encoded codec result = elim (codec.marshal_result result) [
  | none ↦ failed not_encodable
  | some response ↦ ok response
]

-- RecordAppliedBatchResponse of the encoded response
unfoldable pub recorded : Codec → PushRequest → String → ℕ → Bool → Database → Outcome Database
recorded codec request response now prune db =
    if accepts_response codec.encoders request.device_id response db
    then ok (
        record_applied_batch_response request.device_id request.batch_id (codec.jsonb_text response)
          request.replay_window now prune db)
    else failed response_refused

-- the transaction after the look-up of an earlier answer
unfoldable pub apply_new_batch : Codec → PushRequest → ℕ → Bool → Database → Outcome PushAnswer
unfolding store_writes recorded
apply_new_batch codec request now prune db = do
  progress ← decide_changes request db (decode_changes codec request.changes)
  stored ← store_writes codec request.account_id progress.pending db
  response ←
      encoded codec (record {
        applied = progress.applied;
        rejected = progress.rejected;
        cursor = stored.cursor;
      })
  after ← recorded codec request response now prune stored.after
  ok (record { response = response; committed = has_writes progress.pending; after = after })

-- ApplyChangeBatch, under the account's lock: the whole transaction is one step.
unfoldable pub apply_change_batch : Codec → PushRequest → ℕ → Bool → Database → Outcome PushAnswer
unfolding apply_new_batch
apply_change_batch codec request now prune db =
    elim (find_applied_batch_response request.device_id request.batch_id request.replay_window now
      db) [
        | some stored_response ↦
            ok (record { response = stored_response; committed = false; after = db })
        | none ↦ apply_new_batch codec request now prune db
      ]

-- The database that a push leaves: `defer transaction.Rollback` undoes a failed one.
unfoldable pub database_after : Database → Outcome PushAnswer → Database
database_after db (ok answer) = answer.after
database_after db (failed e) = db
