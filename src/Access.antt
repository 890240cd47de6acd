-- ===== src/Access.antt =====
-- Who may do what: devices and their tokens (internal/store/devices.go), accounts
-- (internal/store/accounts.go), browser sessions (internal/store/adminsessions.go).
pub mod Reply
pub mod Devices
pub mod Revoked
pub mod Registration
pub mod Installations
pub mod Credentials
pub mod Accounts
pub mod Endpoints
pub mod SignIn
pub mod SignOut
pub mod Isolation
pub mod Revocation
