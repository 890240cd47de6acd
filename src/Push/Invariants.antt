-- ===== src/Push/Invariants.antt =====
-- The invariants of the stored rows that every push preserves.
use vive_cserver.Base.{
  ℕ, ◌+◌, ◌≤◌, String, str_eq, eq_iff, ◌≡◌, refl, ap, sym, ◌∙◌, subst, ◌⊎◌, inl, inr, Bool, true,
  false, Option, some, List, arith, Bool-cases, All, string_eq,
}
use vive_cserver.Base.Table.{lookup}
use vive_cserver.Sync.Kind
use vive_cserver.Sync.Kind.{Kind, RowKey, parent_kind}
use vive_cserver.Sync.Kind.Registry.{parent_resolves, name-sync_kind_by_name}
use vive_cserver.Sync.Fields.{parent_id}
use vive_cserver.Sync.Fields.Stored.{parent_id-stored_fields}
use vive_cserver.Store.Database.{
  Database, StoredRow, AccountRow, row_key_equality, purge_key_equality,
}
use vive_cserver.Store.Context.Lookup.{is_some}
use vive_cserver.Store.Write.{PendingWrite, key_of}
use vive_cserver.Sync.Change.{Codec}
use vive_cserver.Sync.Engine.{PushAnswer}
use vive_cserver.Sync.Engine.Checks.{PushRequest}
use vive_cserver.Sync.Engine.Pending.{IsReady, ParentKnown, writes_entity, All-map}
use vive_cserver.Push.Effect.{Pushed, progress_of, progress-IsGood}
use vive_cserver.Push.Rows.{written-named}
use vive_cserver.Push.Outcomes.{after_push, after_push-cases}
use vive_cserver.Push.Stored.{row-cases, push-NewRow, push-stays}

-- A sequence value was allocated: it is at most its account's.
abbrev pub IsAllocated : Database → RowKey → StoredRow → Type 0
IsAllocated db key row =
    (account : AccountRow) × (lookup key.account_id db.accounts ≡ some account)
    × (row.change_seq ≤ account.change_seq)

-- Every row's sequence value was allocated.
abbrev pub SequencesAllocated : Database → Type 0
SequencesAllocated db =
    (key : RowKey) (row : StoredRow) → lookup key db.rows ≡ some row → IsAllocated db key row

-- An entity of this kind has no parent, or this parent of its account is stored.
abbrev pub ParentIn : Database → String → Kind → String → Type 0
ParentIn db account_id kind parent =
    (str_eq (parent_kind kind) "" ≡ true)
    ⊎ ((p : Kind) × (Kind.sync_kind_by_name (parent_kind kind) ≡ some p)
        × (is_some (lookup (record { account_id = account_id; kind = p; id = parent }) db.rows)
            ≡ true))

-- Every row of a kind with parents has its parent stored, in the same account.
abbrev pub ParentsStored : Database → Type 0
ParentsStored db =
    (key : RowKey) (row : StoredRow)
    → lookup key db.rows ≡ some row
    → ParentIn db key.account_id key.kind (parent_id row.fields)

-- The account has purged the entity.
abbrev pub purge_recorded : Database → RowKey → Bool
purge_recorded db key = is_some (
    lookup (record { account_id = key.account_id; kind = Kind.name key.kind; entity_id = key.id })
      db.purges)

-- No entity that was purged is stored.
abbrev pub PurgedAbsent : Database → Type 0
PurgedAbsent db =
    (key : RowKey) → is_some (lookup key db.rows) ≡ true → purge_recorded db key ≡ false

some_unique : {r s : StoredRow} (o : Option StoredRow) → o ≡ some r → o ≡ some s → r ≡ s
some_unique o h k = cc

module _ (codec : Codec) (request : PushRequest) (now : ℕ) (prune : Bool) (db : Database) where
  abbrev after : Database
  after = after_push codec request now prune db

  allocated_after :
      (answer_account : String) (account : AccountRow)
      → lookup answer_account db.accounts ≡ some account
      → (later : AccountRow) × (lookup answer_account after.accounts ≡ some later)
        × (account.change_seq ≤ later.change_seq)
  allocated_after id account h = elim (after_push-cases codec request now prune db) [
    | inl same ↦ (account, ap (λ (d : Database). lookup id d.accounts) same ∙ h, omega arith)
    | inr (answer, e, pushed) ↦ elim (Bool-cases (str_eq request.account_id id)) [
      | inr other ↦ (
        account,
        ap (λ (d : Database). lookup id d.accounts) e ∙ pushed.effect.accounts id ∙ rw other h,
        omega arith,
      )
      | inl here ↦ (
        record pushed.effect.account { change_seq = pushed.cursor },
        ap (λ (d : Database). lookup id d.accounts) e ∙ pushed.effect.accounts id ∙ rw here refl,
        grows pushed.effect.account pushed.cursor _ pushed.effect.cursor_next (
            ap (λ i. lookup i db.accounts) (sym ((eq_iff request.account_id id).0 here))
            ∙ pushed.effect.account_found),
      )
    ]
  ]
    where
      grows :
          (found : AccountRow) (cursor step : ℕ)
          → cursor ≡ found.change_seq + step
          → lookup id db.accounts ≡ some found
          → account.change_seq ≤ cursor
      grows found cursor step c k = ground (arith, c, h, k)

  -- A push, however it ends, keeps every row's sequence value at most its account's.
  pub push-SequencesAllocated :
      SequencesAllocated db
      → (key : RowKey) (row : StoredRow) → lookup key after.rows ≡ some row
      → IsAllocated after key row
  push-SequencesAllocated inv key row h = elim (push-NewRow codec request now prune db key) [
    | inl same ↦
        let (account, found, le) = inv key row (sym same ∙ h) in
        let (later, found_later, grown) = allocated_after key.account_id account found in
        (later, found_later, omega (arith, le, grown))
    | inr new ↦ (
      record new.previous { change_seq = new.previous.change_seq + 1 },
      ap (λ i. lookup i after.accounts) new.account ∙ new.allocated,
      ground (arith, new.sequence, some_unique _ h new.found),
    )
  ]

  -- A push, however it ends, stores no entity that was purged.
  pub push-PurgedAbsent :
      PurgedAbsent db
      → (key : RowKey) → is_some (lookup key after.rows) ≡ true
      → purge_recorded after key ≡ false
  push-PurgedAbsent inv key h = elim (after_push-cases codec request now prune db) [
    | inl same ↦ subst PurgedAbsent (sym same) inv key h
    | inr (answer, e, pushed) ↦
        ap
          (λ (d : Database). is_some (
            lookup
              (record {
                account_id = key.account_id;
                kind = Kind.name key.kind;
                entity_id = key.id;
              })
              d.purges))
          e
        ∙ ap
            (λ purges. is_some (
              lookup
                (record {
                  account_id = key.account_id;
                  kind = Kind.name key.kind;
                  entity_id = key.id;
                })
                purges))
            pushed.effect.purges
        ∙ elim (row-cases codec request now prune db answer pushed key) [
          | inl unchanged ↦
              inv key
                (ap is_some (sym unchanged ∙ sym (ap (λ (d : Database). lookup key d.rows) e)) ∙ h)
          | inr (w, facts, k, found) ↦ gone w facts.0 k
        ]
  ]
    where
      gone :
          (w : PendingWrite)
          → IsReady request db w
          → key ≡ key_of w
          → is_some (
              lookup
                (record {
                  account_id = key.account_id;
                  kind = Kind.name key.kind;
                  entity_id = key.id;
                })
                db.purges)
            ≡ false
      gone w ready k =
          subst
            (λ (q : RowKey).
              is_some (
                lookup
                  (record { account_id = q.account_id; kind = Kind.name q.kind; entity_id = q.id })
                  db.purges)
              ≡ false)
            (sym k) (rw (ready.account) ready.not_purged)

  parent-stays :
      (account_id : String) (kind : Kind) (parent : String)
      → ParentIn db account_id kind parent
      → ParentIn after account_id kind parent
  parent-stays account_id kind parent (inl root) = inl root
  parent-stays account_id kind parent (inr (p, name, stored)) =
      inr (p, name, push-stays codec request now prune db _ stored)

  accounts_of :
      (ws : List PendingWrite)
      → All (IsReady request db) ws
      → All (λ w. w.envelope.account_id ≡ request.account_id) ws
  accounts_of ws h = All-map ws (λ w (r : IsReady request db w). r.account) h

  parent-written :
      (answer : PushAnswer) (pushed : Pushed codec request now prune db answer) (w : PendingWrite)
      → after ≡ answer.after
      → ParentKnown request db (progress_of codec request db).pending w
      → ParentIn after request.account_id w.kind (parent_id w.fields)
  parent-written answer pushed w e (inl root) = inl root
  parent-written answer pushed w e (inr (inl (p, name, stored))) =
      inr (p, name, push-stays codec request now prune db _ stored)
  parent-written answer pushed w e (inr (inr named)) = elim (parent_resolves w.kind) [
    | inl root ↦ inl root
    | inr (p, other, name, before) ↦
        let key : RowKey = record {
          account_id = request.account_id;
          kind = p;
          id = parent_id w.fields;
        } in
        inr (
          p,
          name,
          ap is_some (ap (λ (d : Database). lookup key d.rows) e ∙ pushed.effect.rows key)
              ∙ written-named codec.encoders pushed.cursor request.account_id
                  (progress_of codec request db).pending p (parent_id w.fields) _
                  (accounts_of _ (progress-IsGood codec request db).ready)
                  (ap
                      (λ s.
                        writes_entity (progress_of codec request db).pending s (parent_id w.fields))
                      (name-sync_kind_by_name _ p name)
                    ∙ named),
        )
  ]

  -- A push, however it ends, keeps the parent of every row stored in the row's account.
  pub push-ParentsStored :
      ParentsStored db
      → (key : RowKey) (row : StoredRow) → lookup key after.rows ≡ some row
      → ParentIn after key.account_id key.kind (parent_id row.fields)
  push-ParentsStored inv key row h = elim (after_push-cases codec request now prune db) [
    | inl same ↦ subst ParentsStored (sym same) inv key row h
    | inr (answer, e, pushed) ↦ elim (row-cases codec request now prune db answer pushed key) [
      | inl unchanged ↦
          parent-stays key.account_id key.kind (parent_id row.fields)
            (inv key row (sym unchanged ∙ sym (ap (λ (d : Database). lookup key d.rows) e) ∙ h))
      | inr (w, facts, k, found) ↦
          let stored = some_unique _ h (ap (λ (d : Database). lookup key d.rows) e ∙ found) in
          let parent =
            ap (λ (r : StoredRow). parent_id r.fields) stored
            ∙ parent_id-stored_fields codec.encoders.sha256 w.fields in
          subst (λ id. ParentIn after key.account_id key.kind id) (sym parent)
            (subst (λ (q : RowKey). ParentIn after q.account_id q.kind (parent_id w.fields)) (sym k)
              (subst (λ a. ParentIn after a w.kind (parent_id w.fields)) (sym facts.0.account)
                (parent-written answer pushed w e facts.1)))
    ]
  ]
