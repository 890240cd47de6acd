-- ===== src/Store/Outcome.antt =====
-- What a statement or a transaction of internal/store answers: a value or an error. Errors of the
-- connection are not among them; they end a transaction as any other error does.
use vive_cserver.Base.{String}
use vive_cserver.Sync.Kind.{Kind}

pub data StoreError : Type 0 where
  -- ErrAccountNotFound, and an UPDATE of a missing account that returns no row
  account_not_found : StoreError
  -- a bigint counter past its range
  sequence_out_of_range : StoreError
  -- ErrConcurrentWrite
  concurrent_write : Kind → String → StoreError
  -- the constraint UNIQUE (account_id, page_id) of page_content
  page_body_exists : String → StoreError
  -- a row that a column's type or constraint refuses
  row_refused : Kind → String → StoreError
  -- an answer that applied_batches refuses
  response_refused : StoreError
  -- a kind that names an unregistered parent kind
  unregistered_parent : String → StoreError
  -- json.Marshal failed
  not_encodable : StoreError
  -- a delta page far past its byte budget
  page_over_budget : StoreError

pub data Outcome {ℓ} (A : Type ℓ) : Type ℓ where
  failed : StoreError → Outcome A
  ok : A → Outcome A

infixl 5 ◌>>=◌
abbrev pub ◌>>=◌ {ℓ κ} : {A : Type ℓ} {B : Type κ} → Outcome A → (A → Outcome B) → Outcome B
failed e >>= rest = failed e
ok a >>= rest = rest a
