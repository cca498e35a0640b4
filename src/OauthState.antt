-- ===== src/OauthState.antt =====
-- identity/auth/oauthstate: the OAuth state protocol and its in-memory store.
pub mod Store
pub mod Memory
pub mod Manager
