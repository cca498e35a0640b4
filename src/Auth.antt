-- ===== src/Auth.antt =====
-- identity/auth: scope checks and the token manager.
pub mod Claims
pub mod Scopes
pub mod Tokens
pub mod ApiKeys
