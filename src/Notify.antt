-- ===== src/Notify.antt =====
-- identity/notify: the messages of notifier.go and the warnings of api_key_expiry.go.
mod Fault
pub mod Message
pub mod Channels
pub mod Dedup
pub mod Notifier
pub mod Keys
pub mod Expiry
