-- ===== src/Push/Writes.antt =====
-- What WriteChanges leaves, for writes of different entities that pass their version guards.
use vive_cserver.Base.{
  ◌≡◌, refl, sym, ap, ◌∙◌, ◌⊎◌, inl, inr, Bool, true, false, Option, some, List, [], ◌∷◌, arith,
  if◌then◌else◌, Bool-cases, All,
}
use vive_cserver.Base.Int.{ℤ, int_eq_iff}
use vive_cserver.Base.Table.{Table, lookup, put, lookup-put}
use vive_cserver.Sync.Kind.{RowKey}
use vive_cserver.Sync.Fields.{parent_id}
use vive_cserver.Store.Database.{
  Database, StoredRow, BlobRef, row_key_eq, row_key_eq_iff, row_key_equality,
}
use vive_cserver.Store.Outcome.{
  StoreError, ok, failed, account_not_found, sequence_out_of_range, page_body_exists, row_refused,
  response_refused, not_encodable,
}
use vive_cserver.Store.Write.{
  PendingWrite, Encoders, key_of, row_of, upsert, auxiliary, violates_unique, refuses_row,
  write_change, write_changes,
}
use vive_cserver.Sync.Engine.Accept.{Guarded}
use vive_cserver.Sync.Engine.Pending.{DistinctWrites}

-- The row of a key after the writes, from the row before them.
abbrev pub written : Encoders → List PendingWrite → RowKey → Option StoredRow → Option StoredRow
written enc [] key old = old
written enc (w ∷ ws) key old =
    written enc ws key (if row_key_eq (key_of w) key then some (row_of enc w) else old)

abbrev pub auxiliaries : List PendingWrite → List BlobRef → List BlobRef
auxiliaries [] refs = refs
auxiliaries (w ∷ ws) refs = auxiliaries ws (auxiliary w refs)

-- A database that the writes have led to: the rows as `written` says, the other tables as before.
pub record WrittenBy (enc : Encoders) (ws : List PendingWrite) (db after : Database) : Type 0 where
  pub rows : (key : RowKey) → lookup key after.rows ≡ written enc ws key (lookup key db.rows)
  pub refs : after.page_blob_refs ≡ auxiliaries ws db.page_blob_refs
  pub accounts : after.accounts ≡ db.accounts
  pub blobs : after.blobs ≡ db.blobs
  pub purges : after.purges ≡ db.purges
  pub applied_batches : after.applied_batches ≡ db.applied_batches
  pub devices : after.devices ≡ db.devices

abbrev pub GuardedWrite : Table RowKey StoredRow → PendingWrite → Type 0
GuardedWrite rows w = Guarded rows (key_of w) w.base_version

-- The errors that the request, the database's state and the encoder can cause; every other one is a
-- fault of the engine.
abbrev pub is_foreseen : StoreError → Bool
is_foreseen account_not_found = true
is_foreseen sequence_out_of_range = true
is_foreseen (page_body_exists page) = true
is_foreseen (row_refused kind id) = true
is_foreseen response_refused = true
is_foreseen not_encodable = true
is_foreseen _ = false

-- Every write goes through, or one meets a constraint of its table.
abbrev pub WritesOrRefusal : Encoders → List PendingWrite → Database → Type 0
WritesOrRefusal enc ws db =
    ((after : Database) × (write_changes enc ws db ≡ ok after) × WrittenBy enc ws db after)
    ⊎ ((e : StoreError) × (write_changes enc ws db ≡ failed e) × (is_foreseen e ≡ true))

abbrev stored_write : Encoders → PendingWrite → Database → Database
stored_write enc w db = record db {
  rows = put (key_of w) (row_of enc w) db.rows;
  page_blob_refs = auxiliary w db.page_blob_refs;
}

upsert-Guarded :
    (key : RowKey) (row : StoredRow) (base : ℤ) (rows : Table RowKey StoredRow)
    → Guarded rows key base
    → upsert key row base rows ≡ some (put key row rows)
unfolding upsert
upsert-Guarded key row base rows (inl (stored, e, v)) =
    ground (arith, e, v, int_eq_iff stored.version base)
upsert-Guarded key row base rows (inr (e, z)) = rw (e, upsert) refl

write_change_guarded :
    (enc : Encoders) (w : PendingWrite) (db : Database)
    → GuardedWrite db.rows w
    → ((e : StoreError) × (write_change enc w db ≡ failed e) × (is_foreseen e ≡ true))
      ⊎ (write_change enc w db ≡ ok (stored_write enc w db))
unfolding write_change
write_change_guarded enc w db g = elim (Bool-cases (refuses_row enc w db)) [
  | inl r ↦ inl (row_refused w.kind w.envelope.id, rw r refl, refl)
  | inr r ↦ elim (Bool-cases (violates_unique w db.rows)) [
    | inl e ↦ inl (page_body_exists (parent_id w.fields), rw (r, e) refl, refl)
    | inr e ↦
        inr (rw (r, e, upsert-Guarded (key_of w) (row_of enc w) w.base_version db.rows g) refl)
  ]
]

Guarded-put :
    (w v : PendingWrite) (row : StoredRow) (rows : Table RowKey StoredRow)
    → row_key_eq (key_of w) (key_of v) ≡ false
    → GuardedWrite rows v
    → GuardedWrite (put (key_of w) row rows) v
Guarded-put w v row rows d (inl (stored, e, b)) =
    inl (stored, lookup-put (key_of w) (key_of v) row rows ∙ rw d e, b)
Guarded-put w v row rows d (inr (e, b)) =
    inr (lookup-put (key_of w) (key_of v) row rows ∙ rw d e, b)

Guarded-put-All :
    (w : PendingWrite) (row : StoredRow) (rows : Table RowKey StoredRow) (ws : List PendingWrite)
    → All (λ v. row_key_eq (key_of w) (key_of v) ≡ false) ws
    → All (GuardedWrite rows) ws
    → All (GuardedWrite (put (key_of w) row rows)) ws
Guarded-put-All w row rows [] d g = tt
Guarded-put-All w row rows (v ∷ ws) d g =
    (Guarded-put w v row rows d.0 g.0, Guarded-put-All w row rows ws d.1 g.1)

WrittenBy-cons :
    (enc : Encoders) (w : PendingWrite) (ws : List PendingWrite) (db after : Database)
    → WrittenBy enc ws (stored_write enc w db) after
    → WrittenBy enc (w ∷ ws) db after
WrittenBy-cons enc w ws db after h = record {
  rows = λ key.
      h.rows key ∙ ap (written enc ws key) (lookup-put (key_of w) key (row_of enc w) db.rows);
  refs = h.refs;
  accounts = h.accounts;
  blobs = h.blobs;
  purges = h.purges;
  applied_batches = h.applied_batches;
  devices = h.devices;
}

pub write_changes_guarded :
    (enc : Encoders) (ws : List PendingWrite) (db : Database)
    → All (GuardedWrite db.rows) ws
    → DistinctWrites ws
    → WritesOrRefusal enc ws db
unfolding write_changes
write_changes_guarded enc [] db g d = inl (
  db,
  refl,
  record {
    rows = λ key. refl;
    refs = refl;
    accounts = refl;
    blobs = refl;
    purges = refl;
    applied_batches = refl;
    devices = refl;
  },
)
write_changes_guarded enc (w ∷ ws) db g d = elim (write_change_guarded enc w db g.0) [
  | inl (error, e, f) ↦ inr (error, rw e refl, f)
  | inr e ↦
      elim (write_changes_guarded enc ws (stored_write enc w db)
        (Guarded-put-All w (row_of enc w) db.rows ws d.0 g.1) d.1) [
          | inl (after, r, h) ↦ inl (after, rw e r, WrittenBy-cons enc w ws db after h)
          | inr (error, r, f) ↦ inr (error, rw e r, f)
        ]
]

-- The row of a written entity is the write's.
pub written_member :
    (enc : Encoders) (ws : List PendingWrite) (key : RowKey) (old : Option StoredRow)
    → (written enc ws key old ≡ old)
      ⊎ ((w : PendingWrite) × (key ≡ key_of w) × (written enc ws key old ≡ some (row_of enc w)))
written_member enc [] key old = inl refl
written_member enc (w ∷ ws) key old = elim (Bool-cases (row_key_eq (key_of w) key)) [
  | inl same ↦ elim (written_member enc ws key (some (row_of enc w))) [
    | inl h ↦ inr (w, sym ((row_key_eq_iff (key_of w) key).0 same), rw same h)
    | inr (v, k, h) ↦ inr (v, k, rw same h)
  ]
  | inr other ↦ rw other (written_member enc ws key old)
]
