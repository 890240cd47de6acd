-- ===== src/Sync/Engine/Accept.antt =====
-- What an accepted change has passed, and the write that it becomes.
use vive_cserver.Base.{
  String, str_eq, ◌≡◌, refl, ◌⊎◌, inl, inr, true, false, Option, none, some, List, arith,
  Option-cases,
}
use vive_cserver.Base.Int.{ℤ, pos, int_eq_iff, inc_int64}
use vive_cserver.Base.Table.{Table, lookup}
use vive_cserver.Sync.Kind.{RowKey, parent_kind}
use vive_cserver.Sync.Object.{Object}
use vive_cserver.Sync.Fields.{Fields, notebook_fields, kind_of, parent_id}
use vive_cserver.Sync.Fields.Retain.{retain_on_delete}
use vive_cserver.Store.Database.{Database, StoredRow, row_key_equality}
use vive_cserver.Store.Write.{PendingWrite, key_of}
use vive_cserver.Sync.Change.{ReadChange}
use vive_cserver.Sync.Engine.Checks.{PushRequest, has_accepted, write_of, accept}
use vive_cserver.Sync.Engine.Reference.{
  entity_key_of, parent_stored, is_purged, current_now, parent_now, blobs_now, purged_now,
  version_now, change_of, decide_now,
}

-- The version check: the stored row has the base version, or nothing is stored and it is 0.
abbrev pub Guarded : Table RowKey StoredRow → RowKey → ℤ → Type 0
Guarded rows key base =
    ((row : StoredRow) × (lookup key rows ≡ some row) × (row.version ≡ base))
    ⊎ ((lookup key rows ≡ none) × (base ≡ pos 0))

-- The parent check: no parent, a stored one, or one that this push has accepted.
abbrev pub HasParent : Database → String → List (String × String) → ReadChange → Type 0
HasParent db account_id accepted c =
    (str_eq (parent_kind c.kind) "" ≡ true)
    ⊎ (parent_stored db account_id c ≡ true)
    ⊎ (has_accepted accepted (parent_kind c.kind) (parent_id c.fields) ≡ true)

module _ (request : PushRequest) (db : Database) (accepted : List (String × String))
    (c : ReadChange) where
  pub record IsAccepted (w : PendingWrite) : Type 0 where
    pub parent : parent_now db request.account_id accepted c ≡ none
    pub blobs : blobs_now db request.account_id c ≡ none
    pub live : purged_now db request.account_id c ≡ none
    pub version : version_now db request.account_id c ≡ none
    pub write : w ≡ write_of request (change_of (current_now db request.account_id c)) c

  pub decide_now-IsAccepted :
      (w : PendingWrite) → decide_now request db accepted c ≡ accept w → IsAccepted w
  unfolding decide_now
  decide_now-IsAccepted w h = record {
    parent = ground (arith, h);
    blobs = ground (arith, h);
    live = ground (arith, h);
    version = ground (arith, h);
    write = ground (arith, h);
  }

  pub accepted-not-purged :
      purged_now db request.account_id c ≡ none → is_purged db request.account_id c ≡ false
  unfolding purged_now
  accepted-not-purged h = ground (arith, h)

  pub accepted-HasParent :
      parent_now db request.account_id accepted c ≡ none
      → HasParent db request.account_id accepted c
  unfolding parent_now
  accepted-HasParent h = ground (arith, h)

pub accepted-Guarded :
    (db : Database) (account_id : String) (c : ReadChange)
    → version_now db account_id c ≡ none
    → Guarded db.rows (entity_key_of account_id c) c.base_version
unfolding version_now current_now
accepted-Guarded db account_id c h =
    elim (Option-cases (lookup (entity_key_of account_id c) db.rows)) [
      | inl e ↦ inr (e, ground (arith, h, e, int_eq_iff c.base_version (pos 0)))
      | inr (row, e) ↦ inl (row, e, ground (arith, h, e, int_eq_iff row.version c.base_version))
    ]

retain_on_delete-keeps :
    (f : Fields) (stored : Option Object) (t : ℤ)
    → (kind_of (retain_on_delete f stored t).0 ≡ kind_of f)
      × (parent_id (retain_on_delete f stored t).0 ≡ parent_id f)
unfolding retain_on_delete kind_of parent_id
retain_on_delete-keeps (notebook_fields f) stored t = (refl, refl)
retain_on_delete-keeps _ stored t = (refl, refl)

-- The write of a change has its key under the caller's account, its base, and the next version.
pub record IsWriteOf (request : PushRequest) (c : ReadChange) (w : PendingWrite) : Type 0 where
  pub key : key_of w ≡ entity_key_of request.account_id c
  pub base : w.base_version ≡ c.base_version
  pub version : w.envelope.version ≡ inc_int64 c.base_version
  pub fields_kind : kind_of w.fields ≡ kind_of c.fields
  pub parent : parent_id w.fields ≡ parent_id c.fields

pub write_of-IsWriteOf :
    (request : PushRequest) (current : Option Object) (c : ReadChange)
    → IsWriteOf request c (write_of request current c)
unfolding write_of
write_of-IsWriteOf request current c = elim (Option-cases c.envelope.deleted_at) [
  | inl e ↦
      rw (e, write_of)
        (record { key = refl; base = refl; version = refl; fields_kind = refl; parent = refl })
  | inr (t, e) ↦
      rw (e, write_of)
        (record {
          key = refl;
          base = refl;
          version = refl;
          fields_kind = (retain_on_delete-keeps c.fields current t).0;
          parent = (retain_on_delete-keeps c.fields current t).1;
        })
]
