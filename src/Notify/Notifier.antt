-- ===== src/Notify/Notifier.antt =====
-- identity/notify/notifier.go: the target of a channel and the transports. What goes out is a list of
-- requests and mails; JSON, the HTTP client and the relay are given.
pub mod Delivery
pub mod Target
pub mod Tenant
pub mod Reach
mod Tests
use terraform_suite_identity.Common.{
  ℕ, zero, suc, ltb, leb, ℤ, pos, negsuc, Str, lit, ◌==◌, is_empty, List, [], ◌∷◌, ◌++◌, map, Bool,
  true, false, not, ◌&&◌, ◌||◌, Option, none, some, if◌then◌else◌, Result, ok, err,
}
use terraform_suite_identity.Crypto.{Library, CipherError, TokenCipher, open_with_context_or_legacy}
use terraform_suite_identity.Notify.Message.{RecipientError, join, parse_recipients, build_message}
use terraform_suite_identity.Notify.Channels.{
  ChannelRow, NotificationChannel, ChannelError, ChannelQueryOption,
}
use terraform_suite_identity.Notify.Channels.Statements.{
  get_by_id, list_enabled_for_event, record_delivery,
}

-- TargetContext (models.go)
unfoldable pub target_context : Str → Str
target_context channel_id =
    lit "identity/notify:notification_channel:" ++ (channel_id ++ lit ":encrypted_target")

-- The payload of a webhook, by the type of the channel.
pub data Payload : Type 0 where
  slack : Str → Payload
  teams : Str → Str → Payload
  webhook : Str → Str → Str → Payload

pub data Outgoing : Type 0 where
  post : Str → Payload → Outgoing
  mail : Str → List Str → Str → Outgoing

-- What a transport answers: the status of a response, or no response; for a mail, acceptance.
pub data Answer : Type 0 where
  status : ℕ → Answer
  refused : ℕ → Answer

pub data NotifyError : Type 0 where
  unavailable no_target no_key smtp_not_configured : NotifyError
  decrypt : CipherError → NotifyError
  recipients : RecipientError → NotifyError
  bad_status transport : ℕ → NotifyError
  channel : ChannelError → NotifyError

-- The notifier, with the SMTP settings that it reads, `mail.ParseAddress`, and the errors' texts.
pub record Notifier : Type 0 where
  pub has_repo : Bool
  pub token_cipher : Option TokenCipher
  pub smtp_host : Str
  pub smtp_from : Str
  pub source : Str
  pub test_message : Str
  pub is_address : Str → Bool
  pub transmit : Outgoing → Answer
  pub error_text : NotifyError → Str

unfoldable pub decrypt_target : Library → Notifier → NotificationChannel → Result NotifyError Str
unfolding target_context
decrypt_target lib n ch =
    if is_empty ch.encrypted_target then err no_target else elim n.token_cipher [
      | none ↦ err no_key
      | some tc ↦
          elim (open_with_context_or_legacy lib tc ch.encrypted_target (target_context ch.id)) [
            | err e ↦ err (decrypt e)
            | ok (plaintext, bound) ↦ ok plaintext
          ]
    ]

unfoldable pub payload_for : Notifier → Str → Str → Str → Payload
payload_for n typ title message =
    if typ == lit "slack"
    then slack (title ++ (lit "\n" ++ message))
    else if typ == lit "teams"
    then teams title message
    else webhook title message n.source

-- `resp.StatusCode < 200 || resp.StatusCode >= 300`, or no response.
unfoldable pub post_error : Answer → Option NotifyError
post_error (refused e) = some (transport e)
post_error (status code) = if ltb code 200 || leb 300 code then some (bad_status code) else none

unfoldable pub mail_error : Answer → Option NotifyError
mail_error (refused e) = some (transport e)
mail_error (status code) = none

-- What a send put out, and its error.
abbrev pub Sent : Type 0
Sent = List Outgoing × Option NotifyError

unfoldable pub send : Notifier → Str → Str → Str → Str → Sent
unfolding payload_for post_error
send n typ url title message =
    let request = post url (payload_for n typ title message) in
    (request ∷ [], post_error (n.transmit request))

unfoldable pub send_email : Notifier → Str → Str → Str → Sent
unfolding mail_error
send_email n list subject body = elim (parse_recipients n.is_address list) [
  | err e ↦ ([], some (recipients e))
  | ok to ↦
      let m = mail n.smtp_from to (build_message n.smtp_from to subject body) in
      if is_empty n.smtp_host
      then ([], some smtp_not_configured)
      else (m ∷ [], mail_error (n.transmit m))
]

unfoldable pub send_to_target : Notifier → NotificationChannel → Str → Str → Str → Sent
unfolding send send_email
send_to_target n ch target title message =
    if ch.typ == lit "email"
    then send_email n target title message
    else send n ch.typ target title message
