-- ===== src/Access/SignIn.antt =====
-- A sign-in changes nothing unless the password is that of the account with the address.
use vive_cserver.Base.{
  ℕ, String, str_eq, ◌≡◌, refl, ◌⊎◌, inl, inr, Bool, true, false, not, ◌&&◌, some, arith, if_cases,
  string_eq,
}
use vive_cserver.Store.Database.{Database, AccountRow}
use vive_cserver.Store.Context.Lookup.{is_some}
use vive_cserver.Access.Reply.{Reply, denied, granted, account_not_found}
use vive_cserver.Access.Credentials.{Texts, Checked, bad, good, normalise_email}
use vive_cserver.Access.Accounts.{find_email, find_account_by_email}
use vive_cserver.Access.Endpoints.{
  ApiAnswer, rejected, Body, Unmarshalled, Demand, stop, proceed, decode_json_request,
}
use vive_cserver.Access.Endpoints.Devices.{
  ServerState, RegisterDeviceRequest, PasswordVerdict, password_matches, password_mismatch,
  hash_unusable, Secrets, SignInFaults, verdict_answer, sign_in, register_checked,
  register_demanded, handle_register_device,
}

abbrev pub is_rejected : ApiAnswer → Bool
is_rejected (rejected e) = true
is_rejected _ = false

found_account :
    (fails : Bool) (email : String) (db : Database) (found : String × AccountRow)
    → find_account_by_email fails email db ≡ granted found
    → find_email email db.accounts ≡ some found
found_account fails email db found h = ground (arith, h)

module _ (texts : Texts) (secrets : Secrets) (faults : SignInFaults) (fresh_id : String) (now : ℕ)
    (state : ServerState) where
  -- The request's password is that of the account of its address.
  pub record Verified (request : RegisterDeviceRequest) : Type 0 where
    pub email : String
    pub normalised : normalise_email texts request.email ≡ good email
    pub found : String × AccountRow
    pub account : find_email email state.db.accounts ≡ some found
    pub verified : secrets.verify_password found.1.password_hash request.password ≡ password_matches

  -- Rejected with nothing changed, or verified
  abbrev pub Guarded : RegisterDeviceRequest → ApiAnswer × ServerState → Type 0
  Guarded request r = ((is_rejected r.0 ≡ true) × (r.1 ≡ state)) ⊎ Verified request

  module _ (request : RegisterDeviceRequest) (name platform email : String)
      (normalised : normalise_email texts request.email ≡ good email) where
    verdict_answer-Guarded :
        (found : String × AccountRow) (verdict : PasswordVerdict)
        → find_email email state.db.accounts ≡ some found
        → secrets.verify_password found.1.password_hash request.password ≡ verdict
        → Guarded request (
            verdict_answer texts secrets faults fresh_id now request name platform found verdict
              state)
    verdict_answer-Guarded found password_matches account h = inr (record {
      email = email;
      normalised = normalised;
      found = found;
      account = account;
      verified = h;
    })
    verdict_answer-Guarded found password_mismatch account h = inl (refl, refl)
    verdict_answer-Guarded found hash_unusable account h = inl (refl, refl)

    sign_in-Guarded :
        (reply : Reply (String × AccountRow))
        → find_account_by_email faults.find_fails email state.db ≡ reply
        → Guarded request
            (sign_in texts secrets faults fresh_id now request name platform reply state)
    sign_in-Guarded (denied account_not_found) h = inl (refl, refl)
    sign_in-Guarded (denied _) h = inl (refl, refl)
    sign_in-Guarded (granted found) h =
        verdict_answer-Guarded found _ (found_account faults.find_fails email state.db found h) refl

  register_checked-Guarded :
      (request : RegisterDeviceRequest) (email name platform : Checked)
      → normalise_email texts request.email ≡ email
      → Guarded request
          (register_checked texts secrets faults fresh_id now request email name platform state)
  register_checked-Guarded request (bad message) name platform h = inl (refl, refl)
  register_checked-Guarded request (good email) (bad message) platform h = inl (refl, refl)
  register_checked-Guarded request (good email) (good name) (bad message) h = inl (refl, refl)
  register_checked-Guarded request (good email) (good name) (good platform) h =
      if_cases (Guarded request)
        (not (str_eq (texts.trim_space request.installation_id) "")
          && not (is_some (texts.parse_uuid (texts.trim_space request.installation_id))))
        (inl (refl, refl)) (sign_in-Guarded request name platform email h _ refl)

  -- of the request that a body holds, if it holds one
  abbrev pub GuardedDemand : Demand RegisterDeviceRequest → ApiAnswer × ServerState → Type 0
  GuardedDemand (stop e) r = (is_rejected r.0 ≡ true) × (r.1 ≡ state)
  GuardedDemand (proceed request) r = Guarded request r

  register_demanded-GuardedDemand :
      (demand : Demand RegisterDeviceRequest)
      → GuardedDemand demand (register_demanded texts secrets faults fresh_id now demand state)
  register_demanded-GuardedDemand (stop e) = (refl, refl)
  register_demanded-GuardedDemand (proceed request) = register_checked-Guarded request _ _ _ refl

-- A request to register a device is rejected and changes neither the database nor the change feed,
-- or its password is that of the account that has its address.
pub handle_register_device-GuardedDemand :
    (texts : Texts) (secrets : Secrets) (faults : SignInFaults) (fresh_id : String) (now : ℕ)
    (unmarshal : String → Unmarshalled RegisterDeviceRequest) (body : Body) (state : ServerState)
    → GuardedDemand texts secrets faults fresh_id now state
        (decode_json_request unmarshal body)
        (handle_register_device texts secrets faults fresh_id now unmarshal body state)
handle_register_device-GuardedDemand texts secrets faults fresh_id now unmarshal body state =
    register_demanded-GuardedDemand texts secrets faults fresh_id now state
      (decode_json_request unmarshal body)
