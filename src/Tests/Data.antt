-- ===== src/Tests/Data.antt =====
-- A codec that reads three raw changes, and databases to push to and pull from.
use vive_cserver.Base.{
  ℕ, String, str_eq, ◌≡◌, true, false, Option, none, some, [], ◌∷◌, arith, if◌then◌else◌,
}
use vive_cserver.Base.Int.{pos}
use vive_cserver.Sync.Kind.{Kind, notebook, section}
use vive_cserver.Sync.Fields.{
  Fields, NotebookFields, SectionFields, notebook_fields, section_fields, kind_of,
}
use vive_cserver.Sync.Change.{Codec, WireEnvelope}
use vive_cserver.Sync.Engine.{PushAnswer, apply_new_batch}
use vive_cserver.Sync.Engine.Checks.{PushRequest}
use vive_cserver.Store.Outcome.{Outcome, ok, failed}
use vive_cserver.Store.Database.{Database, StoredRow, AccountRow, DeviceRow}

abbrev pub work : NotebookFields
work = record {
  name = "Work";
  color_argb = pos 255;
  sort_index = pos 0;
  expanded = true;
  closed_at = none;
  cloud_only_at = none;
  created_at = pos 1;
}

abbrev pub meetings : SectionFields
meetings = record {
  notebook_id = "n1";
  name = "Meetings";
  color_argb = pos 255;
  sort_index = pos 0;
  created_at = pos 1;
}

abbrev pub wire : String → String → WireEnvelope
wire kind id = record {
  kind = kind;
  id = id;
  base_version = pos 0;
  deleted_at = none;
  updated_at = pos 5;
}

abbrev pub read_envelope : String → Option WireEnvelope
read_envelope raw =
    if str_eq raw "notebook n1"
    then some (wire "notebook" "n1")
    else if str_eq raw "section s1"
    then some (wire "section" "s1")
    else none

abbrev pub read_fields : Kind → String → Option Fields
read_fields notebook raw = some (notebook_fields work)
read_fields section raw = some (section_fields meetings)
read_fields _ raw = none

pub read_fields_kind :
    (kind : Kind) (raw : String) (fields : Fields)
    → read_fields kind raw ≡ some fields
    → kind_of fields ≡ kind
unfolding kind_of
read_fields_kind notebook raw fields h = ground (arith, h)
read_fields_kind section raw fields h = ground (arith, h)
read_fields_kind _ raw fields h = cc

abbrev pub codec : Codec
codec = record {
  unmarshal_envelope = read_envelope;
  unmarshal_fields = read_fields;
  unmarshal_object = λ raw. some [];
  marshal_object = λ o. some "{}";
  marshal_result = λ r. some "{\"applied\":[]}";
  jsonb_text = λ s. s;
  encoders = record { sha256 = λ b. b; accepts_jsonb = λ s. true; parse_jsonb = λ s. [] };
  unmarshal_fields_kind = read_fields_kind;
}

abbrev pub no_account : Database
no_account = record {
  accounts = [];
  rows = [];
  page_blob_refs = [];
  blobs = [];
  purges = [];
  applied_batches = [];
  devices = [];
  admin_sessions = [];
}

abbrev pub new_owner : AccountRow
new_owner = record {
  email = "ada@example.com";
  password_hash = "hashed";
  created_at = 1;
  change_seq = 0;
  storage_bytes = pos 0;
}

abbrev pub tablet : DeviceRow
tablet = record {
  account_id = "ada";
  installation_id = none;
  name = "Tablet";
  platform = "android";
  token_hash = [];
  created_at = 1;
  last_seen_at = none;
  last_pulled_seq = 1;
  revoked_at = none;
}

abbrev pub new_account : Database
new_account = record no_account {
  accounts = ("ada", record new_owner { change_seq = 0; storage_bytes = pos 0 }) ∷ [];
  devices = ("tablet", tablet) ∷ [];
}

-- The section comes first in the batch: the notebook is applied before it all the same.
abbrev pub request : PushRequest
request = record {
  account_id = "ada";
  device_id = "tablet";
  batch_id = "b1";
  changes = "section s1" ∷ "notebook n1" ∷ "nonsense" ∷ [];
  replay_window = 100;
}

abbrev pub answer_or_none : Outcome PushAnswer → PushAnswer
answer_or_none (ok answer) = answer
answer_or_none (failed e) = record { response = ""; committed = false; after = no_account }

abbrev pub first_answer : PushAnswer
first_answer = answer_or_none (apply_new_batch codec request 10 true new_account)

abbrev pub stored_at : ℕ → Fields → StoredRow
stored_at seq fields = record {
  version = pos 1;
  change_seq = seq;
  deleted_at = none;
  updated_at = pos 5;
  last_writer = "tablet";
  extra = [];
  fields = fields;
}

-- an account with a notebook and its section, of two pushes
abbrev pub two_rows : Database
two_rows = record no_account {
  accounts = ("ada", record new_owner { change_seq = 2; storage_bytes = pos 0 }) ∷ [];
  rows =
      (
        record { account_id = "ada"; kind = section; id = "s1" },
        stored_at 2 (section_fields meetings),
      )
      ∷ (
        record { account_id = "ada"; kind = notebook; id = "n1" },
        stored_at 1 (notebook_fields work),
      )
      ∷ [];
}

abbrev pub row_or : StoredRow → Option StoredRow → StoredRow
row_or default none = default
row_or default (some row) = row
