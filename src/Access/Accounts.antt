-- ===== src/Access/Accounts.antt =====
-- internal/store/accounts.go and internal/store/adminsessions.go.
use vive_cserver.Base.{
  ℕ, String, str_eq, Bool, true, false, not, ◌||◌, Option, none, some, List, [], ◌∷◌, keep, length,
  ltb, leb, if◌then◌else◌, string_eq,
}
use vive_cserver.Base.Int.{pos}
use vive_cserver.Base.Table.{Table, lookup, put}
use vive_cserver.Store.Database.{Database, AccountRow, bytes_eq, bytes_equality}
use vive_cserver.Store.Context.Lookup.{is_some}
use vive_cserver.Access.Reply.{
  Reply, denied, granted, email_taken, account_not_found, setup_already_complete, session_not_found,
  database_error,
}

-- SELECT ... FROM accounts WHERE email = $1
unfoldable pub find_email : String → Table String AccountRow → Option (String × AccountRow)
find_email email [] = none
find_email email (r ∷ accounts) =
    let rest = find_email email accounts in if str_eq r.1.email email then some r else rest

abbrev pub new_account_row : String → String → ℕ → AccountRow
new_account_row email password_hash now = record {
  email = email;
  password_hash = password_hash;
  created_at = now;
  change_seq = 0;
  storage_bytes = pos 0;
}

-- INSERT INTO accounts; `taken` is the error of the unique index on the address, `fresh_id` what
-- gen_random_uuid gives
abbrev pub insert_account :
    Reply String → String → String → String → ℕ → Database → Reply String × Database
insert_account taken fresh_id email password_hash now db =
    if is_some (find_email email db.accounts)
    then (taken, db)
    else if is_some (lookup fresh_id db.accounts)
    then (taken, db)
    else (
      granted fresh_id,
      record db { accounts = put fresh_id (new_account_row email password_hash now) db.accounts },
    )

-- CreateAccount
abbrev pub create_account : Bool → String → String → String → ℕ → Database → Reply String × Database
create_account fails fresh_id email password_hash now db =
    if fails
    then (denied database_error, db)
    else insert_account (denied email_taken) fresh_id email password_hash now db

abbrev pub is_empty : Table String AccountRow → Bool
is_empty [] = true
is_empty (r ∷ accounts) = false

-- CreateInitialAccount: one step, because the advisory lock admits one caller at a time
abbrev pub create_initial_account :
    Bool → String → String → String → ℕ → Database → Reply String × Database
create_initial_account fails fresh_id email password_hash now db =
    if fails
    then (denied database_error, db)
    else if is_empty db.accounts
    then insert_account (denied setup_already_complete) fresh_id email password_hash now db
    else (denied setup_already_complete, db)

-- FindAccountByEmail
abbrev pub find_account_by_email : Bool → String → Database → Reply (String × AccountRow)
find_account_by_email fails email db =
    if fails then denied database_error else elim (find_email email db.accounts) [
      | none ↦ denied account_not_found
      | some found ↦ granted found
    ]

-- UpdateAdminEmail: an UPDATE of every row, which two rows cannot pass
abbrev pub update_admin_email : Bool → String → Database → Reply {0} Unit × Database
update_admin_email fails email db =
    if fails then (denied database_error, db) else elim db.accounts [
      | [] ↦ (denied account_not_found, db)
      | r ∷ rest ↦ elim rest [
        | [] ↦ (granted tt, record db { accounts = (r.0, record (r.1) { email = email }) ∷ [] })
        | _ ∷ _ ↦ (denied email_taken, db)
      ]
    ]

-- UpdatePasswordHash; a missing row is no error
abbrev pub update_password_hash : Bool → String → String → Database → Reply {0} Unit × Database
update_password_hash fails account_id password_hash db =
    if fails then (denied database_error, db) else elim (lookup account_id db.accounts) [
      | none ↦ (granted tt, db)
      | some account ↦ (
        granted tt,
        record db {
          accounts = put account_id (record account { password_hash = password_hash }) db.accounts;
        },
      )
    ]

-- CountAccounts
abbrev pub count_accounts : Bool → Database → Reply ℕ
count_accounts fails db = if fails then denied database_error else granted (length db.accounts)

-- CreateAdminSession: a token that is taken violates the primary key, an account that does not exist
-- the foreign key
abbrev pub create_admin_session : Bool → String → List ℕ → ℕ → Database → Reply {0} Unit × Database
create_admin_session fails account_id token_hash expires_at db =
    if fails || is_some (lookup token_hash db.admin_sessions)
    then (denied database_error, db)
    else if is_some (lookup account_id db.accounts)
    then (
      granted tt,
      record db {
        admin_sessions =
            put token_hash (record { account_id = account_id; expires_at = expires_at })
              db.admin_sessions;
      },
    )
    else (denied database_error, db)

-- AuthenticateAdminSession
abbrev pub authenticate_admin_session : Bool → List ℕ → ℕ → Database → Reply (String × AccountRow)
authenticate_admin_session fails token_hash now db =
    if fails then denied database_error else elim (lookup token_hash db.admin_sessions) [
      | none ↦ denied session_not_found
      | some session ↦
          if ltb now session.expires_at
          then elim (lookup session.account_id db.accounts) [
            | none ↦ denied session_not_found
            | some account ↦ granted (session.account_id, account)
          ]
          else denied session_not_found
    ]

-- DeleteAdminSession
abbrev pub delete_admin_session : Bool → List ℕ → ℕ → Database → Reply {0} Unit × Database
delete_admin_session fails token_hash now db = if fails then (denied database_error, db) else (
  granted tt,
  record db {
    admin_sessions =
        keep (λ s. not (bytes_eq s.0 token_hash || leb s.1.expires_at now)) db.admin_sessions;
  },
)

-- DeleteAdminSessionsForAccount
abbrev pub delete_admin_sessions_for_account : Bool → String → Database → Reply ℕ × Database
delete_admin_sessions_for_account fails account_id db =
    if fails then (denied database_error, db) else (
      granted (length (keep (λ s. str_eq s.1.account_id account_id) db.admin_sessions)),
      record db {
        admin_sessions = keep (λ s. not (str_eq s.1.account_id account_id)) db.admin_sessions;
      },
    )
