-- ===== src/Sync/Change.antt =====
-- internal/syncengine/changes.go: the data of a push, read and answered.
-- encoding/json, crypto/sha256 and the database's jsonb are the fields of `Codec`.
use vive_cserver.Base.{ℕ, String, ◌≡◌, Option, some, List}
use vive_cserver.Base.Int.{ℤ}
use vive_cserver.Sync.Kind.{Kind}
use vive_cserver.Sync.Object.{Object}
use vive_cserver.Sync.Failure.{Message}
use vive_cserver.Sync.Fields.{Fields, kind_of}
use vive_cserver.Store.Write.{ChangeEnvelope, Encoders}

-- the closed set of rejection reasons
pub data Reason : Type 0 where
  version_conflict missing_parent too_large malformed missing_blob purged : Reason

pub data RejectionMessage : Type 0 where
  not_a_readable_object : RejectionMessage
  unknown_entity_kind : RejectionMessage
  base_version_negative : RejectionMessage
  appears_more_than_once : RejectionMessage
  does_not_fit_its_kind : RejectionMessage
  reported : Message → RejectionMessage
  parent_not_uploaded : String → String → RejectionMessage
  -- describeMissingBlobs: the digests that are named, and how many more there are
  upload_first : List String → ℕ → RejectionMessage
  permanently_deleted : RejectionMessage
  stored_version_is : ℤ → ℤ → RejectionMessage
  no_such_entity : RejectionMessage

pub record AppliedChange : Type 0 where
  pub kind : String
  pub id : String
  pub version : ℤ

pub record RejectedChange : Type 0 where
  pub kind : String
  pub id : String
  pub reason : Reason
  pub message : RejectionMessage
  pub current : Option Object

pub record PushResult : Type 0 where
  pub applied : List AppliedChange
  pub rejected : List RejectedChange
  pub cursor : ℕ

-- the envelope struct that decodeChange reads first
pub record WireEnvelope : Type 0 where
  pub kind : String
  pub id : String
  pub base_version : ℤ
  pub deleted_at : Option ℤ
  pub updated_at : ℤ

-- A change that survived the reading.
pub record ReadChange : Type 0 where
  pub kind : Kind
  pub envelope : ChangeEnvelope
  pub fields : Fields
  pub base_version : ℤ
  pub required_blobs : List String

-- decodedChange: its `rejection` is set, or its fields are.
pub data DecodedChange : Type 0 where
  refused : Option Kind → RejectedChange → DecodedChange
  readable : ReadChange → DecodedChange

pub record Codec : Type 0 where
  -- json.Unmarshal of one raw change, into the envelope, into a kind's fields, into a map
  pub unmarshal_envelope : String → Option WireEnvelope
  pub unmarshal_fields : Kind → String → Option Fields
  pub unmarshal_object : String → Option (List (String × String))
  -- json.Marshal
  pub marshal_object : List (String × String) → Option String
  pub marshal_result : PushResult → Option String
  -- the text that a jsonb column gives back for the text that was stored in it
  pub jsonb_text : String → String
  pub encoders : Encoders
  -- decoding into a kind's struct gives a struct of that kind
  pub unmarshal_fields_kind :
      (kind : Kind) (raw : String) (fields : Fields)
      → unmarshal_fields kind raw ≡ some fields
      → kind_of fields ≡ kind

-- `change.kind`, nil where it could not be resolved
unfoldable pub change_kind : DecodedChange → Option Kind
change_kind (refused kind rejection) = kind
change_kind (readable c) = some c.kind
