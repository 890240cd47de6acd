-- ===== src/Sync/Engine/Reference.antt =====
-- A specification of the engine's decision: one change at a time, each fact looked up in its table
-- when it is needed, with no run and no batch of queries.
use vive_cserver.Base.{
  String, str_eq, Bool, false, ◌||◌, Option, none, some, List, [], ◌∷◌, if◌then◌else◌,
}
use vive_cserver.Base.Int.{ℤ, int_eq, is_zero}
use vive_cserver.Base.Table.{lookup}
use vive_cserver.Sync.Kind
use vive_cserver.Sync.Kind.{Kind, RowKey, parent_kind, sync_kind_by_name}
use vive_cserver.Sync.Failure.{Failure, invalid, size_mismatch}
use vive_cserver.Sync.Object.{Object}
use vive_cserver.Sync.Fields.{Fields, attachment_fields, parent_id}
use vive_cserver.Sync.Fields.Render.{change_json}
use vive_cserver.Store.Database.{Database, row_key_equality, blob_key_equality, purge_key_equality}
use vive_cserver.Store.Context.{CurrentChange}
use vive_cserver.Store.Context.Lookup.{is_some, is_digest, as_current, as_size}
use vive_cserver.Sync.Change.{
  missing_parent, missing_blob, malformed, purged, version_conflict, parent_not_uploaded,
  permanently_deleted, stored_version_is, no_such_entity, RejectedChange, ReadChange, DecodedChange,
  refused, readable,
}
use vive_cserver.Sync.Engine.Checks.{
  PushRequest, has_accepted, rejection_of, describe_missing_blobs, blob_failure, write_of, Verdict,
  reject, accept,
}
use vive_cserver.Sync.Engine.Run.{Progress, settle}

abbrev pub entity_key_of : String → ReadChange → RowKey
entity_key_of account_id c = record { account_id = account_id; kind = c.kind; id = c.envelope.id }

unfoldable pub parent_stored : Database → String → ReadChange → Bool
parent_stored db account_id c = elim (sync_kind_by_name (parent_kind c.kind)) [
  | none ↦ false
  | some p ↦
      is_some
        (lookup (record { account_id = account_id; kind = p; id = parent_id c.fields }) db.rows)
]

unfoldable pub is_purged : Database → String → ReadChange → Bool
is_purged db account_id c = is_some (
    lookup (record { account_id = account_id; kind = Kind.name c.kind; entity_id = c.envelope.id })
      db.purges)

-- the size of the blob that the account holds under a digest
unfoldable pub held : Database → String → String → Option ℤ
held db account_id digest =
    if is_digest digest
    then as_size (lookup (record { account_id = account_id; digest = digest }) db.blobs)
    else none

unfoldable pub not_held : Database → String → List String → List String
not_held db account_id [] = []
not_held db account_id (digest ∷ rest) =
    let missing = not_held db account_id rest in
    elim (held db account_id digest) [ none ↦ digest ∷ missing | some size ↦ missing ]

unfoldable pub size_failure : Fields → Option ℤ → Option Failure
size_failure (attachment_fields f) (some size) =
    if int_eq f.byte_count size then none else some (invalid (size_mismatch size f.byte_count))
size_failure _ _ = none

unfoldable pub current_now : Database → String → ReadChange → Option CurrentChange
current_now db account_id c =
    as_current (change_json db) (entity_key_of account_id c)
      (lookup (entity_key_of account_id c) db.rows)

unfoldable pub parent_now :
    Database → String → List (String × String) → ReadChange → Option RejectedChange
parent_now db account_id accepted c =
    if str_eq (parent_kind c.kind) ""
    then none
    else if parent_stored db account_id c
        || has_accepted accepted (parent_kind c.kind) (parent_id c.fields)
    then none
    else some (
        rejection_of c missing_parent
          (parent_not_uploaded (parent_kind c.kind) (parent_id c.fields)) none)

unfoldable pub blobs_now : Database → String → ReadChange → Option RejectedChange
unfolding not_held size_failure
blobs_now db account_id c = elim c.envelope.deleted_at [
  | some t ↦ none
  | none ↦ elim c.required_blobs [
    | [] ↦ none
    | d ∷ ds ↦ elim (not_held db account_id (d ∷ ds)) [
      | m ∷ ms ↦ some (rejection_of c missing_blob (describe_missing_blobs (m ∷ ms)) none)
      | [] ↦ elim (size_failure c.fields (held db account_id c.envelope.id)) [
        | none ↦ none
        | some failure ↦ some (rejection_of c malformed (blob_failure failure) none)
      ]
    ]
  ]
]

unfoldable pub purged_now : Database → String → ReadChange → Option RejectedChange
purged_now db account_id c =
    if is_purged db account_id c
    then some (rejection_of c purged permanently_deleted none)
    else none

unfoldable pub version_now : Database → String → ReadChange → Option RejectedChange
version_now db account_id c = elim (current_now db account_id c) [
  | some current ↦
      if int_eq current.version c.base_version
      then none
      else some (
          rejection_of c version_conflict (stored_version_is current.version c.base_version)
            (some current.change))
  | none ↦
      if is_zero c.base_version
      then none
      else some (rejection_of c version_conflict no_such_entity none)
]

abbrev pub change_of : Option CurrentChange → Option Object
change_of none = none
change_of (some current) = some current.change

-- the checks in order: the first that fails refuses the change
unfoldable pub decide_now : PushRequest → Database → List (String × String) → ReadChange → Verdict
decide_now request db accepted c = elim (parent_now db request.account_id accepted c) [
  | some r ↦ reject r
  | none ↦ elim (blobs_now db request.account_id c) [
    | some r ↦ reject r
    | none ↦ elim (purged_now db request.account_id c) [
      | some r ↦ reject r
      | none ↦ elim (version_now db request.account_id c) [
        | some r ↦ reject r
        | none ↦ accept (write_of request (change_of (current_now db request.account_id c)) c)
      ]
    ]
  ]
]

unfoldable pub decide_each : PushRequest → Database → List DecodedChange → Progress → Progress
decide_each request db [] p = p
decide_each request db (refused kind r ∷ cs) p = decide_each request db cs (settle p (reject r))
decide_each request db (readable c ∷ cs) p =
    decide_each request db cs (settle p (decide_now request db p.accepted c))
