-- ===== src/Notify/Message/Tests.antt =====
-- The messages (identity/notify/notifier.go) on concrete inputs.
use terraform_suite_identity.Common.{
  Str, lit, List, [], ◌∷◌, ◌++◌, filter, true, ok, trim_space, ◌≡◌, refl,
}
use terraform_suite_identity.Notify.Message.{
  line_end, sanitize_header, join, build_message, parse_recipients,
}
use terraform_suite_identity.Notify.Message.Headers.{read_headers, read_headers-build_message}

-- A subject that tries to add a header.
abbrev attack : Str
attack = lit "hi" ++ (line_end ++ lit "Bcc: x")

abbrev recipients : List Str
recipients = lit "a" ∷ (lit "b" ++ line_end) ∷ []

read_headers-build_message_example :
    read_headers [] (build_message (lit "ops") recipients attack (lit "body")) ≡ (
      lit "From: ops"
          ∷ lit "To: a, b"
          ∷ lit "Subject: hiBcc: x"
          ∷ lit "Content-Type: text/plain; charset=utf-8"
          ∷ [],
      lit "body" ++ line_end,
    )
unfolding sanitize_header join filter
read_headers-build_message_example =
    read_headers-build_message (lit "ops") recipients attack (lit "body")

splits_and_trims : parse_recipients (λ a. true) (lit "a ,b") ≡ ok (lit "a" ∷ lit "b" ∷ [])
unfolding parse_recipients trim_space
splits_and_trims = refl
