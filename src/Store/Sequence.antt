-- ===== src/Store/Sequence.antt =====
-- AllocateChangeSeq, ReadChangeSeq and RecordAcknowledgedSeq of synctables.go.
use vive_cserver.Base.{ℕ, ◌+◌, String, none, some, ltb, if◌then◌else◌, string_eq}
use vive_cserver.Base.Int.{max_int64}
use vive_cserver.Base.Table.{lookup, put}
use vive_cserver.Store.Database.{Database}
use vive_cserver.Store.Outcome.{Outcome, ok, failed, account_not_found, sequence_out_of_range}

-- UPDATE accounts SET change_seq = change_seq + 1 WHERE id = $1 RETURNING change_seq
unfoldable pub allocate_change_seq : String → Database → Outcome (ℕ × Database)
allocate_change_seq account_id db = elim (lookup account_id db.accounts) [
  | none ↦ failed account_not_found
  | some account ↦
      if ltb account.change_seq max_int64
      then ok (
        account.change_seq + 1,
        record db {
          accounts =
              put account_id (record account { change_seq = account.change_seq + 1 }) db.accounts;
        },
      )
      else failed sequence_out_of_range
]

-- SELECT change_seq FROM accounts WHERE id = $1
unfoldable pub read_change_seq : String → Database → Outcome ℕ
read_change_seq account_id db = elim (lookup account_id db.accounts) [
  | none ↦ failed account_not_found
  | some account ↦ ok account.change_seq
]

-- UPDATE devices SET last_pulled_seq = $2 WHERE id = $1 AND last_pulled_seq < $2
unfoldable pub record_acknowledged_seq : String → ℕ → Database → Database
record_acknowledged_seq device_id cursor db = elim (lookup device_id db.devices) [
  | none ↦ db
  | some device ↦
      if ltb device.last_pulled_seq cursor
      then record db {
        devices = put device_id (record device { last_pulled_seq = cursor }) db.devices;
      }
      else db
]
