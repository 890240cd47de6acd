-- ===== src/Push/Effect.antt =====
-- The effect of a whole push on the tables, and the errors that can end one.
use vive_cserver.Base.{
  ℕ, String, ◌≡◌, refl, subst, ◌⊎◌, inl, inr, Bool, true, false, none, some, List, [], ◌∷◌, arith,
  Option-cases, Bool-cases, All, string_eq,
}
use vive_cserver.Store.Database.{Database, row_key_equality}
use vive_cserver.Store.Outcome.{StoreError, Outcome, ok, failed, not_encodable, response_refused}
use vive_cserver.Store.Batches.{record_applied_batch_response, accepts_response}
use vive_cserver.Store.Write.{PendingWrite}
use vive_cserver.Sync.Change.{DecodedChange, refused, readable, PushResult, Codec}
use vive_cserver.Sync.Decode.{decode_changes}
use vive_cserver.Sync.Decode.Read.{IsSound, IfRead}
use vive_cserver.Sync.Decode.Unique.{decode_changes-IsSound}
use vive_cserver.Sync.Engine.{PushAnswer, has_writes, encoded, recorded, apply_new_batch}
use vive_cserver.Sync.Engine.Checks.{PushRequest}
use vive_cserver.Sync.Engine.Run.{Progress, start, decide_changes}
use vive_cserver.Sync.Engine.Reference.{decide_each}
use vive_cserver.Sync.Engine.Answers.{IsRead, AllRead}
use vive_cserver.Sync.Engine.Batching.{decide_changes-decide_each}
use vive_cserver.Sync.Engine.Pending.{IsReady, IsGood}
use vive_cserver.Sync.Engine.Loop.{decide_all-IsGood}
use vive_cserver.Push.Writes.{GuardedWrite, is_foreseen}
use vive_cserver.Push.Commit.{StoreEffect, store_writes_guarded}

-- What the loop over the changes of a push comes to.
abbrev pub progress_of : Codec → PushRequest → Database → Progress
progress_of codec request db = decide_each request db (decode_changes codec request.changes) start

AllRead-IsRead :
    (codec : Codec) (cs : List DecodedChange) → All (IfRead (IsSound codec)) cs → AllRead IsRead cs
AllRead-IsRead codec [] h = tt
AllRead-IsRead codec (refused k r ∷ cs) h = AllRead-IsRead codec cs h.1
AllRead-IsRead codec (readable c ∷ cs) h = (h.0.read, AllRead-IsRead codec cs h.1)

-- For every push and every database, the engine's decision by runs and batches of queries succeeds
-- and is that of the change-by-change specification.
pub decide_changes-decide_each_decoded :
    (codec : Codec) (request : PushRequest) (db : Database)
    → decide_changes request db (decode_changes codec request.changes)
      ≡ ok (decide_each request db (decode_changes codec request.changes) start)
decide_changes-decide_each_decoded codec request db =
    decide_changes-decide_each request db (decode_changes codec request.changes)
      (AllRead-IsRead codec _ (decode_changes-IsSound codec request.changes).0)

pub progress-IsGood :
    (codec : Codec) (request : PushRequest) (db : Database)
    → IsGood request db (progress_of codec request db)
progress-IsGood = decide_all-IsGood

ready-guarded :
    (request : PushRequest) (db : Database) (ws : List PendingWrite)
    → All (IsReady request db) ws
    → All (GuardedWrite db.rows) ws
ready-guarded request db [] h = tt
ready-guarded request db (w ∷ ws) h = (h.0.guarded, ready-guarded request db ws h.1)

-- A push that went through: what it answers, records and leaves.
pub record Pushed (codec : Codec) (request : PushRequest) (now : ℕ) (prune : Bool) (db : Database)
    (answer : PushAnswer) : Type 0 where
  pub cursor : ℕ
  pub effect :
      StoreEffect codec request.account_id
        (progress_of codec request db).pending
        db
        cursor
        answer.after
  pub response :
      codec.marshal_result (record {
        applied = (progress_of codec request db).applied;
        rejected = (progress_of codec request db).rejected;
        cursor = cursor;
      })
      ≡ some answer.response
  pub committed : answer.committed ≡ has_writes (progress_of codec request db).pending
  pub batches :
      answer.after.applied_batches
      ≡ (record_applied_batch_response request.device_id request.batch_id
          (codec.jsonb_text answer.response)
          request.replay_window
          now
          prune
          db).applied_batches

module _ (codec : Codec) (account_id : String) (pending : List PendingWrite) (db : Database)
    (cursor : ℕ) where
  recorded-StoreEffect :
      (device batch response : String) (window now : ℕ) (prune : Bool) (after : Database)
      → StoreEffect codec account_id pending db cursor after
      → StoreEffect codec account_id pending db cursor
          (record_applied_batch_response device batch response window now prune after)
  unfolding record_applied_batch_response
  recorded-StoreEffect device batch response window now true after h = record {
    rows = h.rows;
    refs = h.refs;
    account = h.account;
    account_found = h.account_found;
    cursor_next = h.cursor_next;
    accounts = h.accounts;
    blobs = h.blobs;
    purges = h.purges;
    devices = h.devices;
  }
  recorded-StoreEffect device batch response window now false after h = record {
    rows = h.rows;
    refs = h.refs;
    account = h.account;
    account_found = h.account_found;
    cursor_next = h.cursor_next;
    accounts = h.accounts;
    blobs = h.blobs;
    purges = h.purges;
    devices = h.devices;
  }

recorded-batches :
    (device batch response : String) (window now : ℕ) (prune : Bool) (after db : Database)
    → after.applied_batches ≡ db.applied_batches
    → (record_applied_batch_response device batch response window now prune after).applied_batches
      ≡ (record_applied_batch_response device batch response window now prune db).applied_batches
unfolding record_applied_batch_response
recorded-batches device batch response window now true after db e = rw e refl
recorded-batches device batch response window now false after db e = rw e refl

encoded-none :
    (codec : Codec) (result : PushResult)
    → codec.marshal_result result ≡ none
    → encoded codec result ≡ failed not_encodable
encoded-none codec result m = ground (arith, m)

encoded-some :
    (codec : Codec) (result : PushResult) (response : String)
    → codec.marshal_result result ≡ some response
    → encoded codec result ≡ ok response
encoded-some codec result response m = ground (arith, m)

-- A push without an earlier answer goes through, or ends with one of the foreseen errors.
pub apply_new_batch-cases :
    (codec : Codec) (request : PushRequest) (now : ℕ) (prune : Bool) (db : Database)
    → ((answer : PushAnswer) × (apply_new_batch codec request now prune db ≡ ok answer)
        × Pushed codec request now prune db answer)
      ⊎ ((e : StoreError) × (apply_new_batch codec request now prune db ≡ failed e)
          × (is_foreseen e ≡ true))
unfolding apply_new_batch recorded
apply_new_batch-cases codec request now prune db =
    let p = progress_of codec request db in
    let good = progress-IsGood codec request db in
    let decided = decide_changes-decide_each_decoded codec request db in
    elim (store_writes_guarded codec request.account_id p.pending db
      (ready-guarded request db _ good.ready) good.distinct) [
        | inr (e, r, f) ↦ inr (e, rw (decided, r) refl, f)
        | inl (s, r, effect, kept) ↦
            elim (Option-cases (
              codec.marshal_result
                (record { applied = p.applied; rejected = p.rejected; cursor = s.cursor }))) [
                  | inl m ↦ inr (not_encodable, rw (decided, r, encoded-none codec _ m) refl, refl)
                  | inr (response, m) ↦
                      elim (Bool-cases
                        (accepts_response codec.encoders request.device_id response s.after)) [
                          | inr denied ↦ inr (
                            response_refused,
                            rw (decided, r, encoded-some codec _ response m, denied) refl,
                            refl,
                          )
                          | inl accepted ↦ inl (
                            _,
                            rw (decided, r, encoded-some codec _ response m, accepted) refl,
                            record {
                              cursor = s.cursor;
                              effect =
                                  recorded-StoreEffect codec request.account_id p.pending db
                                    s.cursor request.device_id request.batch_id
                                    (codec.jsonb_text response) request.replay_window now prune
                                    s.after effect;
                              response = m;
                              committed = refl;
                              batches =
                                  recorded-batches request.device_id request.batch_id
                                    (codec.jsonb_text response) request.replay_window now prune
                                    s.after db kept;
                            },
                          )
                        ]
                ]
      ]

-- A push without an earlier answer that answers has gone through.
pub apply_new_batch-Pushed :
    (codec : Codec) (request : PushRequest) (now : ℕ) (prune : Bool) (db : Database)
    (answer : PushAnswer)
    → apply_new_batch codec request now prune db ≡ ok answer
    → Pushed codec request now prune db answer
apply_new_batch-Pushed codec request now prune db answer h =
    elim (apply_new_batch-cases codec request now prune db) [
      | inl (other, e, pushed) ↦
          subst (Pushed codec request now prune db) (same_answer _ e h) pushed
      | inr (error, e, foreseen) ↦ absurd (no_answer _ e h)
    ]
  where
    same_answer : {a b : PushAnswer} (o : Outcome PushAnswer) → o ≡ ok a → o ≡ ok b → a ≡ b
    same_answer o h k = cc

    no_answer :
        {a : PushAnswer} {e : StoreError} (o : Outcome PushAnswer) → o ≡ failed e → o ≡ ok a → ⊥
    no_answer o h k = cc
