-- ===== src/Access/SignOut.antt =====
-- Accounts and browser sessions: one account at most, and no session after a sign-out of all.
use vive_cserver.Base.{
  ℕ, ◌≤◌, String, str_eq, ◌≡◌, Bool, true, false, not, Option, List, [], ◌∷◌, arith, keep, length,
  ltb, if_split, if_cases, Option-split, All, string_eq,
}
use vive_cserver.Base.Table.{Table, lookup, put, All-lookup}
use vive_cserver.Store.Database.{Database, AccountRow, SessionRow, bytes_equality}
use vive_cserver.Store.Context.Lookup.{is_some}
use vive_cserver.Access.Reply.{Reply, denied, granted, email_taken, setup_already_complete}
use vive_cserver.Access.Credentials.{Texts, Checked, bad, good, validate_password}
use vive_cserver.Access.Accounts.{
  find_email, is_empty, create_initial_account, delete_admin_sessions_for_account,
  authenticate_admin_session,
}
use vive_cserver.Access.Endpoints.{
  ApiAnswer, Body, Unmarshalled, Demand, stop, proceed, CreateAccountRequest, decode_json_request,
  create_demanded, create_checked, account_answer, handle_create_account,
}

-- What a request for an account leaves
abbrev Lone : ApiAnswer × Database → Type 0
Lone r = length r.1.accounts ≤ 1

abbrev LoneReply : Reply String × Database → Type 0
LoneReply r = length r.1.accounts ≤ 1

put-first :
    (id : String) (account : AccountRow) (accounts : Table String AccountRow)
    → is_empty accounts ≡ true
    → length (put id account accounts) ≤ 1
unfolding put
put-first id account [] h = omega arith
put-first id account (r ∷ accounts) h = absurd (ground (arith, h))

create_initial_account-LoneReply :
    (fails : Bool) (fresh_id email password_hash : String) (now : ℕ) (db : Database)
    → length db.accounts ≤ 1
    → LoneReply (create_initial_account fails fresh_id email password_hash now db)
create_initial_account-LoneReply fails fresh_id email password_hash now db h =
    if_cases LoneReply fails h (
      if_split LoneReply (is_empty db.accounts)
        (λ empty. if_cases LoneReply (is_some (find_email email db.accounts)) h (
          if_cases LoneReply (is_some (lookup fresh_id db.accounts)) h
            (put-first fresh_id _ db.accounts empty)))
        (λ claimed. h))

account_answer-Lone : (r : Reply String × Database) → LoneReply r → Lone (account_answer r)
account_answer-Lone (granted id, db) h = h
account_answer-Lone (denied email_taken, db) h = h
account_answer-Lone (denied setup_already_complete, db) h = h
account_answer-Lone (denied _, db) h = h

module _ (texts : Texts) (hash : String → Option String) (fails : Bool) (fresh_id : String)
    (now : ℕ) (db : Database) (h : length db.accounts ≤ 1) where
  create_checked-Lone :
      (email : Checked) (password : String)
      → Lone (create_checked hash fails fresh_id now email password db)
  create_checked-Lone (bad message) password = h
  create_checked-Lone (good email) password =
      Option-split Lone (validate_password password)
        (λ acceptable.
          Option-split Lone (hash password) (λ failed. h)
            (λ hashed made.
              account_answer-Lone _
                (create_initial_account-LoneReply fails fresh_id email hashed now db h)))
        (λ message unacceptable. h)

  create_demanded-Lone :
      (demand : Demand CreateAccountRequest)
      → Lone (create_demanded texts hash fails fresh_id now demand db)
  create_demanded-Lone (stop e) = h
  create_demanded-Lone (proceed request) = create_checked-Lone _ request.password

-- A request to create an account leaves at most one account, where there was at most one.
pub handle_create_account-one :
    (texts : Texts) (hash : String → Option String)
    (unmarshal : String → Unmarshalled CreateAccountRequest) (signup_open fails : Bool)
    (fresh_id : String) (now : ℕ) (body : Body) (db : Database)
    → length db.accounts ≤ 1
    → length
        (handle_create_account texts hash unmarshal signup_open fails fresh_id now body
          db).1.accounts
      ≤ 1
handle_create_account-one texts hash unmarshal signup_open fails fresh_id now body db h =
    if_cases Lone signup_open
      (create_demanded-Lone texts hash fails fresh_id now db h (decode_json_request unmarshal body))
      h

All-keep-passed {ℓ} : {A : Type ℓ} (p : A → Bool) (xs : List A) → All (λ x. p x ≡ true) (keep p xs)
All-keep-passed p [] = tt
All-keep-passed p (x ∷ xs) =
    if_split (All (λ y. p y ≡ true)) (p x) (λ passes. (passes, All-keep-passed p xs))
      (λ fails. All-keep-passed p xs)

-- A session that is not one of the account
abbrev pub NotOf : String → Reply (String × AccountRow) → Type 0
NotOf account_id (denied e) = Unit
NotOf account_id (granted found) = str_eq found.0 account_id ≡ false

signed_out :
    (account_id : String) (database_fails : Bool) (token_hash : List ℕ) (now : ℕ) (after : Database)
    → All
        (λ (s : List ℕ × SessionRow). not (str_eq s.1.account_id account_id) ≡ true)
        after.admin_sessions
    → NotOf account_id (authenticate_admin_session database_fails token_hash now after)
signed_out account_id database_fails token_hash now after others =
    if_cases (NotOf account_id) database_fails tt (
      Option-split (NotOf account_id) (lookup token_hash after.admin_sessions) (λ unknown. tt)
        (λ session found.
          if_cases (NotOf account_id) (ltb now session.expires_at)
            (Option-split (NotOf account_id) (lookup session.account_id after.accounts) (λ gone. tt)
              (λ account known. ground (
                arith,
                All-lookup
                    (λ (s : List ℕ × SessionRow). not (str_eq s.1.account_id account_id) ≡ true)
                    token_hash session after.admin_sessions others found,
              )))
            tt))

-- After all the sessions of an account are deleted, no token signs in to it.
pub delete_admin_sessions_for_account-NotOf :
    (account_id : String) (database_fails : Bool) (token_hash : List ℕ) (now : ℕ) (db : Database)
    → NotOf account_id (
        authenticate_admin_session database_fails token_hash now
          (delete_admin_sessions_for_account false account_id db).1)
delete_admin_sessions_for_account-NotOf account_id database_fails token_hash now db =
    signed_out account_id database_fails token_hash now
      (delete_admin_sessions_for_account false account_id db).1
      (All-keep-passed (λ s. not (str_eq s.1.account_id account_id)) db.admin_sessions)
