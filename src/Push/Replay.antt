-- ===== src/Push/Replay.antt =====
-- A batch that is sent again is answered from the record of its first answer.
use vive_cserver.Base.{
  ℕ, ◌<◌, ◌+◌, String, ◌≡◌, ap, ◌∙◌, Bool, true, false, some, List, [], ◌∷◌, arith, keep, Eq,
}
use vive_cserver.Base.Table.{Table, lookup, put}
use vive_cserver.Store.Database.{Database, BatchRow, pair_equality}
use vive_cserver.Store.Outcome.{ok}
use vive_cserver.Store.Batches.{find_applied_batch_response, record_applied_batch_response}
use vive_cserver.Sync.Change.{Codec}
use vive_cserver.Sync.Engine.{PushAnswer, apply_new_batch, apply_change_batch}
use vive_cserver.Sync.Engine.Checks.{PushRequest}
use vive_cserver.Push.Effect.{apply_new_batch-Pushed}
use vive_cserver.Push.Outcomes.{apply_change_batch-replayed}

lookup-keep-put {ℓ κ} :
    {K : Type ℓ} {V : Type κ} ⦃e : Eq K⦄ (p : K × V → Bool) (k : K) (v : V) (t : Table K V)
    → p (k, v) ≡ true
    → lookup k (keep p (put k v t)) ≡ some v
unfolding lookup put
lookup-keep-put ⦃e⦄ p k v [] h = ground (arith, h, e.beq_iff k k)
lookup-keep-put ⦃e⦄ p k v ((j, w) ∷ t) h =
    ground (arith, h, e.beq_iff k k, e.beq_iff j k, lookup-keep-put p k v t h)

lookup-put-same {ℓ κ} :
    {K : Type ℓ} {V : Type κ} ⦃e : Eq K⦄ (k : K) (v : V) (t : Table K V)
    → lookup k (put k v t) ≡ some v
unfolding lookup put
lookup-put-same ⦃e⦄ k v [] = ground (arith, e.beq_iff k k)
lookup-put-same ⦃e⦄ k v ((j, w) ∷ t) =
    ground (arith, e.beq_iff k k, e.beq_iff j k, lookup-put-same k v t)

-- The record that a push leaves survives its own pruning.
recorded_batch :
    (device batch response : String) (window now : ℕ) (prune : Bool) (db : Database)
    → lookup
        (device, batch)
        (record_applied_batch_response device batch response window now prune db).applied_batches
      ≡ some (record { response = response; created_at = now })
unfolding record_applied_batch_response
recorded_batch device batch response window now true db =
    lookup-keep-put _ (device, batch) _ db.applied_batches (ground arith)
recorded_batch device batch response window now false db =
    lookup-put-same (device, batch) _ db.applied_batches

found_batch :
    (device batch : String) (window now : ℕ) (db : Database) (row : BatchRow)
    → lookup (device, batch) db.applied_batches ≡ some row
    → now < row.created_at + window
    → find_applied_batch_response device batch window now db ≡ some row.response
unfolding find_applied_batch_response
found_batch device batch window now db row h fresh = ground (arith, h, fresh)

-- After a push has gone through, a push of the same device and batch id inside the replay window
-- changes nothing, whatever its changes are: its answer is the recorded one (the first answer's
-- text as the jsonb column gives it back), and nothing is committed.
pub push-replay :
    (codec : Codec) (request : PushRequest) (now later : ℕ) (prune again : Bool) (db : Database)
    (answer : PushAnswer) (changes : List String)
    → apply_new_batch codec request now prune db ≡ ok answer
    → later < now + request.replay_window
    → apply_change_batch codec (record request { changes = changes }) later again answer.after
      ≡ ok (record {
        response = codec.jsonb_text answer.response;
        committed = false;
        after = answer.after;
      })
push-replay codec request now later prune again db answer changes first fresh =
    let pushed = apply_new_batch-Pushed codec request now prune db answer first in
    apply_change_batch-replayed codec (record request { changes = changes }) later again
      answer.after _
      (found_batch request.device_id request.batch_id request.replay_window later answer.after _
        (ap (lookup (request.device_id, request.batch_id)) pushed.batches
          ∙ recorded_batch request.device_id request.batch_id (codec.jsonb_text answer.response)
              request.replay_window now prune db)
        fresh)
