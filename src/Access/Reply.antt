-- ===== src/Access/Reply.antt =====
-- What an operation on accounts, devices and sessions answers.
pub data AccessError : Type 0 where
  -- ErrDeviceNotFound
  device_not_found : AccessError
  -- ErrDeviceStillActive
  device_still_active : AccessError
  -- ErrEmailTaken
  email_taken : AccessError
  -- ErrAccountNotFound
  account_not_found : AccessError
  -- ErrSetupAlreadyComplete
  setup_already_complete : AccessError
  -- ErrAdminSessionNotFound
  session_not_found : AccessError
  -- any other error of the database; the statement had no effect
  database_error : AccessError

pub data Reply {ℓ} (A : Type ℓ) : Type ℓ where
  denied : AccessError → Reply A
  granted : A → Reply A
