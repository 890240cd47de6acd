-- ===== src/Sync/Engine/Checks.antt =====
-- engine.go: the checks that guard one change of a push, and the write it becomes.
use vive_cserver.Base.{
  ℕ, ◌-◌, String, str_eq, contains, Bool, false, ◌&&◌, ◌||◌, Option, none, some, List, [], ◌∷◌,
  length, take, ltb, if◌then◌else◌, string_eq,
}
use vive_cserver.Base.Int.{ℤ, int_eq, is_zero, inc_int64}
use vive_cserver.Base.Table.{Table, lookup}
use vive_cserver.Sync.Kind
use vive_cserver.Sync.Kind.{Kind, parent_kind}
use vive_cserver.Sync.Object.{Object}
use vive_cserver.Sync.Failure.{Failure}
use vive_cserver.Sync.Fields.{parent_id}
use vive_cserver.Sync.Fields.Blobs.{check_blob_presence}
use vive_cserver.Sync.Fields.Retain.{retain_on_delete}
use vive_cserver.Store.Write.{ChangeEnvelope, PendingWrite}
use vive_cserver.Store.Context.{ChangeContext}
use vive_cserver.Sync.Change.{
  Reason, version_conflict, missing_parent, missing_blob, malformed, purged, RejectionMessage,
  reported, parent_not_uploaded, upload_first, permanently_deleted, stored_version_is,
  no_such_entity, RejectedChange, ReadChange,
}

-- PushRequest; the caller's ids come from the authentication.
pub record PushRequest : Type 0 where
  pub account_id : String
  pub device_id : String
  pub batch_id : String
  pub changes : List String
  pub replay_window : ℕ

-- acceptedIDsByKind, as the pairs of a kind's name and an accepted id
abbrev pub has_accepted : List (String × String) → String → String → Bool
has_accepted [] kind id = false
has_accepted ((k, i) ∷ rest) kind id = (str_eq k kind && str_eq i id) || has_accepted rest kind id

abbrev pub rejection_of : ReadChange → Reason → RejectionMessage → Option Object → RejectedChange
rejection_of c reason message current = record {
  kind = Kind.name c.kind;
  id = c.envelope.id;
  reason = reason;
  message = message;
  current = current;
}

unfoldable pub check_parent :
    ChangeContext → List (String × String) → ReadChange → Option RejectedChange
check_parent context accepted c =
    if str_eq (parent_kind c.kind) ""
    then none
    else if contains context.existing_parent_ids (parent_id c.fields)
        || has_accepted accepted (parent_kind c.kind) (parent_id c.fields)
    then none
    else some (
        rejection_of c missing_parent
          (parent_not_uploaded (parent_kind c.kind) (parent_id c.fields)) none)

-- missingDigests
unfoldable pub missing_digests : List String → Table String ℤ → List String
missing_digests [] stored = []
missing_digests (digest ∷ rest) stored =
    let missing = missing_digests rest stored in
    elim (lookup digest stored) [ none ↦ digest ∷ missing | some byte_count ↦ missing ]

-- describeMissingBlobs
unfoldable pub describe_missing_blobs : List String → RejectionMessage
describe_missing_blobs missing =
    if ltb 8 (length missing)
    then upload_first (take 8 missing) (length missing - 8)
    else upload_first missing 0

abbrev pub blob_failure : Failure → RejectionMessage
blob_failure (Failure.too_large m) = reported m
blob_failure (Failure.invalid m) = reported m

-- The blobs of a live change: all of them are stored, and of the size that is claimed.
unfoldable pub check_blobs : ChangeContext → ReadChange → Option RejectedChange
unfolding missing_digests describe_missing_blobs
check_blobs context c = elim c.envelope.deleted_at [
  | some t ↦ none
  | none ↦ elim c.required_blobs [
    | [] ↦ none
    | d ∷ ds ↦ elim (missing_digests (d ∷ ds) context.stored_blobs) [
      | m ∷ ms ↦ some (rejection_of c missing_blob (describe_missing_blobs (m ∷ ms)) none)
      | [] ↦ elim (check_blob_presence c.fields c.envelope.id context.stored_blobs) [
        | none ↦ none
        | some failure ↦ some (rejection_of c malformed (blob_failure failure) none)
      ]
    ]
  ]
]

unfoldable pub check_purged : ChangeContext → ReadChange → Option RejectedChange
check_purged context c =
    if contains context.purged_ids c.envelope.id
    then some (rejection_of c purged permanently_deleted none)
    else none

unfoldable pub check_version : ChangeContext → ReadChange → Option RejectedChange
check_version context c = elim (lookup c.envelope.id context.current_by_id) [
  | some current ↦
      if int_eq current.version c.base_version
      then none
      else some (
          rejection_of c version_conflict (stored_version_is current.version c.base_version)
            (some current.change))
  | none ↦
      if is_zero c.base_version
      then none
      else some (rejection_of c version_conflict no_such_entity none)
]

-- current.Change, nil where nothing is stored
abbrev pub current_change : ChangeContext → String → Option Object
current_change context id = elim (lookup id context.current_by_id) [
  | none ↦ none
  | some current ↦ some current.change
]

-- the write of an accepted change, its tombstone retained where its kind says so
unfoldable pub write_of : PushRequest → Option Object → ReadChange → PendingWrite
write_of request current c =
    let envelope : ChangeEnvelope = record c.envelope {
      account_id = request.account_id;
      last_writer = request.device_id;
      version = inc_int64 c.base_version;
    } in
    elim c.envelope.deleted_at [
      | none ↦ record {
        kind = c.kind;
        envelope = envelope;
        fields = c.fields;
        base_version = c.base_version;
      }
      | some deleted_at ↦
          let (fields, retained) = retain_on_delete c.fields current deleted_at in
          record {
            kind = c.kind;
            envelope = record envelope { deleted_at = if retained then none else some deleted_at };
            fields = fields;
            base_version = c.base_version;
          }
    ]

pub data Verdict : Type 0 where
  reject : RejectedChange → Verdict
  accept : PendingWrite → Verdict

-- The first check that fails refuses the change.
unfoldable pub decide : PushRequest → ChangeContext → List (String × String) → ReadChange → Verdict
decide request context accepted c = elim (check_parent context accepted c) [
  | some r ↦ reject r
  | none ↦ elim (check_blobs context c) [
    | some r ↦ reject r
    | none ↦ elim (check_purged context c) [
      | some r ↦ reject r
      | none ↦ elim (check_version context c) [
        | some r ↦ reject r
        | none ↦ accept (write_of request (current_change context c.envelope.id) c)
      ]
    ]
  ]
]
