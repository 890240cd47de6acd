-- ===== src/Push/Stored.antt =====
-- What a push does to each row, and that what it reports as applied is stored.
use vive_cserver.Base.{
  ℕ, ◌+◌, ◌≡◌, refl, ap, sym, ◌∙◌, subst, ◌⊎◌, inl, inr, Bool, true, false, Option, some, List, [],
  ◌∷◌, arith, Bool-cases, All, map, string_eq,
}
use vive_cserver.Base.Int.{ℤ, inc_int64}
use vive_cserver.Base.Table.{lookup}
use vive_cserver.Sync.Kind
use vive_cserver.Sync.Kind.{Kind, RowKey}
use vive_cserver.Store.Database.{Database, StoredRow, AccountRow, row_key_equality}
use vive_cserver.Store.Outcome.{ok}
use vive_cserver.Store.Context.Lookup.{is_some}
use vive_cserver.Store.Write.{PendingWrite, key_of}
use vive_cserver.Sync.Change.{Codec, AppliedChange}
use vive_cserver.Sync.Engine.{PushAnswer, has_writes, stamp, apply_new_batch}
use vive_cserver.Sync.Engine.Checks.{PushRequest}
use vive_cserver.Sync.Engine.Accept.{Guarded}
use vive_cserver.Sync.Engine.Pending.{IsReady, ParentKnown, applied_of, All-map}
use vive_cserver.Push.Writes.{written}
use vive_cserver.Push.Effect.{Pushed, progress_of, progress-IsGood, apply_new_batch-Pushed}
use vive_cserver.Push.Rows.{row_at, written_cases, written_each}
use vive_cserver.Push.Outcomes.{after_push, after_push-cases}

-- The facts about a pending write that the loop has established.
abbrev pub WriteFacts : Codec → PushRequest → Database → PendingWrite → Type 0
WriteFacts codec request db w =
    IsReady request db w × ParentKnown request db (progress_of codec request db).pending w

pub pending-WriteFacts :
    (codec : Codec) (request : PushRequest) (db : Database)
    → All (WriteFacts codec request db) (progress_of codec request db).pending
pending-WriteFacts codec request db =
    let g = progress-IsGood codec request db in zip _ _ _ g.ready g.parents
  where
    zip :
        (P Q : PendingWrite → Type 0) (ws : List PendingWrite)
        → All P ws
        → All Q ws
        → All (λ w. P w × Q w) ws
    zip P Q [] p q = tt
    zip P Q (w ∷ ws) p q = ((p.0, q.0), zip P Q ws p.1 q.1)

-- A row that a push has written, against the database before it.
pub record NewRow (request : PushRequest) (db after : Database) (key : RowKey) : Type 0 where
  pub account : key.account_id ≡ request.account_id
  pub row : StoredRow
  pub found : lookup key after.rows ≡ some row
  pub base : ℤ
  pub guarded : Guarded db.rows key base
  pub version : row.version ≡ inc_int64 base
  pub previous : AccountRow
  pub previous_found : lookup request.account_id db.accounts ≡ some previous
  pub sequence : row.change_seq ≡ previous.change_seq + 1
  pub allocated :
      lookup request.account_id after.accounts
      ≡ some (record previous { change_seq = previous.change_seq + 1 })

module _ (codec : Codec) (request : PushRequest) (now : ℕ) (prune : Bool) (db : Database) where
  -- A row after a push that goes through is as before, or one of the pending writes.
  pub row-cases :
      (answer : PushAnswer) (pushed : Pushed codec request now prune db answer) (key : RowKey)
      → (lookup key answer.after.rows ≡ lookup key db.rows)
        ⊎ ((w : PendingWrite) × WriteFacts codec request db w
            × (key ≡ key_of w)
            × (lookup key answer.after.rows ≡ some (row_at codec.encoders pushed.cursor w)))
  row-cases answer pushed key =
      elim (written_cases codec.encoders pushed.cursor (WriteFacts codec request db)
        (progress_of codec request db).pending key (lookup key db.rows)
        (pending-WriteFacts codec request db)) [
          | inl h ↦ inl (pushed.effect.rows key ∙ h)
          | inr (w, facts, k, h) ↦ inr (w, facts, k, pushed.effect.rows key ∙ h)
        ]

  cursor-has_writes :
      (answer : PushAnswer) (pushed : Pushed codec request now prune db answer)
      → has_writes (progress_of codec request db).pending ≡ true
      → pushed.cursor ≡ pushed.effect.account.change_seq + 1
  cursor-has_writes answer pushed h = ground (arith, pushed.effect.cursor_next, h)

  unchanged-no_writes :
      (cursor : ℕ) (ws : List PendingWrite) (key : RowKey) (old : Option StoredRow)
      → has_writes ws ≡ false
      → written codec.encoders (map (stamp cursor) ws) key old ≡ old
  unchanged-no_writes cursor [] key old h = refl
  unchanged-no_writes cursor (w ∷ ws) key old h = cc

  NewRow-written :
      (answer : PushAnswer) (pushed : Pushed codec request now prune db answer) (w : PendingWrite)
      → IsReady request db w
      → has_writes (progress_of codec request db).pending ≡ true
      → lookup (key_of w) answer.after.rows ≡ some (row_at codec.encoders pushed.cursor w)
      → NewRow request db answer.after (key_of w)
  NewRow-written answer pushed w ready some_writes h = record {
    account = ready.account;
    row = row_at codec.encoders pushed.cursor w;
    found = h;
    base = w.base_version;
    guarded = ready.guarded;
    version = ready.version;
    previous = pushed.effect.account;
    previous_found = pushed.effect.account_found;
    sequence = cursor-has_writes answer pushed some_writes;
    allocated =
        pushed.effect.accounts request.account_id
        ∙ ground (
          arith,
          string_eq.beq_iff request.account_id request.account_id,
          cursor-has_writes answer pushed some_writes,
        );
  }

  -- After a push, each stored row is the one before it, or a row of the caller's account whose
  -- version is the successor of the version that it replaces (of 0 for a new entity), and whose
  -- change_seq is the value that the push has allocated: one more than the account's before it.
  pub push-NewRow :
      (key : RowKey)
      → (lookup key (after_push codec request now prune db).rows ≡ lookup key db.rows)
        ⊎ NewRow request db (after_push codec request now prune db) key
  push-NewRow key = elim (after_push-cases codec request now prune db) [
    | inl same ↦ inl (ap (λ (d : Database). lookup key d.rows) same)
    | inr (answer, e, pushed) ↦
        elim (Bool-cases (has_writes (progress_of codec request db).pending)) [
          | inr none_pending ↦ inl (
              ap (λ (d : Database). lookup key d.rows) e
              ∙ pushed.effect.rows key
              ∙ unchanged-no_writes pushed.cursor _ key _ none_pending)
          | inl some_pending ↦ elim (row-cases answer pushed key) [
            | inl h ↦ inl (ap (λ (d : Database). lookup key d.rows) e ∙ h)
            | inr (w, facts, k, h) ↦ inr (
                subst (λ d. NewRow request db d key) (sym e)
                  (subst (NewRow request db answer.after) (sym k) (
                    NewRow-written answer pushed w facts.0 some_pending
                      (ap (λ q. lookup q answer.after.rows) (sym k) ∙ h))))
          ]
        ]
  ]

  -- A push removes no row.
  pub push-stays :
      (key : RowKey)
      → is_some (lookup key db.rows) ≡ true
      → is_some (lookup key (after_push codec request now prune db).rows) ≡ true
  push-stays key h = elim (push-NewRow key) [
    | inl same ↦ ap is_some same ∙ h
    | inr new ↦ ap is_some new.found
  ]

  -- An applied change is stored, at the version that the answer gives and at the answer's cursor.
  abbrev pub IsStored : PushAnswer → ℕ → AppliedChange → Type 0
  IsStored answer cursor change =
      (kind : Kind) × (Kind.name kind ≡ change.kind)
      × (row : StoredRow) × (lookup
            (record { account_id = request.account_id; kind = kind; id = change.id })
            answer.after.rows
          ≡ some row)
      × (row.version ≡ change.version)
      × (row.change_seq ≡ cursor)

  IsStored-each :
      (answer : PushAnswer) (cursor : ℕ) (ws : List PendingWrite)
      → All (IsReady request db) ws
      → All (λ w. lookup (key_of w) answer.after.rows ≡ some (row_at codec.encoders cursor w)) ws
      → All (IsStored answer cursor) (map applied_of ws)
  IsStored-each answer cursor [] r h = tt
  IsStored-each answer cursor (w ∷ ws) r h = (
    (
      w.kind,
      refl,
      row_at codec.encoders cursor w,
      subst
          (λ a.
            lookup (record { account_id = a; kind = w.kind; id = w.envelope.id }) answer.after.rows
            ≡ some (row_at codec.encoders cursor w))
          r.0.account h.0,
      refl,
      refl,
    ),
    IsStored-each answer cursor ws r.1 h.1,
  )

  -- When a push goes through, its answer encodes a list of applied changes, a list of rejections and
  -- a cursor, and every applied change is stored under the caller's account, at the version and the
  -- sequence value that the answer gives for it.
  pub push-IsStored :
      (answer : PushAnswer)
      → apply_new_batch codec request now prune db ≡ ok answer
      → (cursor : ℕ) × (codec.marshal_result (record {
        applied = (progress_of codec request db).applied;
        rejected = (progress_of codec request db).rejected;
        cursor = cursor;
      })
          ≡ some answer.response)
        × All (IsStored answer cursor) (progress_of codec request db).applied
  push-IsStored answer h =
      let pushed = apply_new_batch-Pushed codec request now prune db answer h in
      let g = progress-IsGood codec request db in
      (
        pushed.cursor,
        pushed.response,
        subst (All (IsStored answer pushed.cursor)) (sym g.applied) (
            IsStored-each answer pushed.cursor _ g.ready (
              All-map _ (λ w h. pushed.effect.rows (key_of w) ∙ h _)
                (written_each codec.encoders pushed.cursor _ g.distinct))),
      )
