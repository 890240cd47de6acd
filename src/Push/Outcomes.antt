-- ===== src/Push/Outcomes.antt =====
-- The three ways in which ApplyChangeBatch ends: the answer of an earlier push, a push that goes
-- through, an error.
use vive_cserver.Base.{
  ℕ, String, ◌≡◌, ap, sym, ◌∙◌, ◌⊎◌, inl, inr, Bool, true, false, Option, none, some, arith,
  Option-cases,
}
use vive_cserver.Store.Database.{Database, pair_equality}
use vive_cserver.Store.Outcome.{StoreError, Outcome, ok, failed}
use vive_cserver.Store.Batches.{find_applied_batch_response}
use vive_cserver.Sync.Change.{Codec}
use vive_cserver.Sync.Engine.{PushAnswer, apply_new_batch, apply_change_batch, database_after}
use vive_cserver.Sync.Engine.Checks.{PushRequest}
use vive_cserver.Push.Writes.{is_foreseen}
use vive_cserver.Push.Effect.{Pushed, apply_new_batch-cases}

module _ (codec : Codec) (request : PushRequest) (now : ℕ) (prune : Bool) (db : Database) where
  -- the answer that an earlier push of the same batch has left
  abbrev pub earlier : Option String
  earlier =
      find_applied_batch_response request.device_id request.batch_id request.replay_window now db

  abbrev pub replayed : String → PushAnswer
  replayed response = record { response = response; committed = false; after = db }

  abbrev pub answer_of : Outcome PushAnswer
  answer_of = apply_change_batch codec request now prune db

  abbrev pub Replayed : Type 0
  Replayed = (response : String) × (earlier ≡ some response) × (answer_of ≡ ok (replayed response))

  abbrev pub Succeeded : Type 0
  Succeeded =
      (answer : PushAnswer) × (answer_of ≡ ok answer) × Pushed codec request now prune db answer

  abbrev pub Failed : Type 0
  Failed = (e : StoreError) × (answer_of ≡ failed e) × (is_foreseen e ≡ true)

  abbrev answered : Option String → Outcome PushAnswer
  answered earlier = elim earlier [
    | some response ↦ ok (replayed response)
    | none ↦ apply_new_batch codec request now prune db
  ]

  new_batch : earlier ≡ none → answer_of ≡ apply_new_batch codec request now prune db
  unfolding apply_change_batch
  new_batch h = ap answered h

  pub apply_change_batch-replayed :
      (response : String) → earlier ≡ some response → answer_of ≡ ok (replayed response)
  unfolding apply_change_batch
  apply_change_batch-replayed response h = ap answered h

  pub apply_change_batch-cases : Replayed ⊎ Succeeded ⊎ Failed
  unfolding apply_change_batch
  apply_change_batch-cases = elim (Option-cases earlier) [
    | inr (response, h) ↦ inl (response, h, apply_change_batch-replayed response h)
    | inl h ↦ elim (apply_new_batch-cases codec request now prune db) [
      | inl (answer, e, pushed) ↦ inr (inl (answer, new_batch h ∙ e, pushed))
      | inr (error, e, foreseen) ↦ inr (inr (error, new_batch h ∙ e, foreseen))
    ]
  ]

  abbrev pub after_push : Database
  after_push = database_after db answer_of

  -- A push leaves the database as it is, or it goes through and leaves its answer's.
  pub after_push-cases :
      (after_push ≡ db)
      ⊎ ((answer : PushAnswer) × (after_push ≡ answer.after)
          × Pushed codec request now prune db answer)
  unfolding database_after
  after_push-cases = elim apply_change_batch-cases [
    | inl (response, h, e) ↦ inl (ap (database_after db) e)
    | inr (inl (answer, e, pushed)) ↦ inr (answer, ap (database_after db) e, pushed)
    | inr (inr (error, e, foreseen)) ↦ inl (ap (database_after db) e)
  ]

  -- A push that does not succeed, the connection to the database apart, ends with one of six errors:
  -- the account is unknown, its sequence is used up, a page would have a second body, the columns
  -- refuse a row or the answer, or the answer cannot be encoded. The engine never meets a row that changed under it, nor a kind whose parent kind is not registered.
  pub apply_change_batch-foreseen : (e : StoreError) → answer_of ≡ failed e → is_foreseen e ≡ true
  apply_change_batch-foreseen e h = elim apply_change_batch-cases [
    | inl (response, f, r) ↦ absurd (clash (sym r ∙ h))
    | inr (inl (answer, r, pushed)) ↦ absurd (clash (sym r ∙ h))
    | inr (inr (error, r, foreseen)) ↦ same answer_of r h foreseen
  ]
    where
      clash : {a : PushAnswer} {e : StoreError} → ok a ≡ failed e → ⊥
      clash h = cc

      same :
          {x y : StoreError} (o : Outcome PushAnswer)
          → o ≡ failed x
          → o ≡ failed y
          → is_foreseen x ≡ true
          → is_foreseen y ≡ true
      same o h k f = ground (arith, h, k, f)
