-- ===== src/Notify/Expiry/Tests.antt =====
-- The warnings of identity/notify/api_key_expiry.go on concrete keys.
use terraform_suite_identity.Common.{
  ◌*◌, ◌≤◌, sym, ap, ◌∙◌, ne_of_test, if◌then◌else◌, pos, lit, ◌==◌, [], ◌∷◌, In, true, false, none,
  some, ◌≡◌, inl, inr, refl, arith,
}
use terraform_suite_identity.Notify.Expiry.{
  warning_window, answers, ExpiryConfig, ApiKeyExpiryNotifier, found, Answers, expiry_email,
  Surroundings, taken, run_check, days_left,
}
use terraform_suite_identity.Notify.Keys.{KeyRow, day}
use terraform_suite_identity.Notify.Expiry.Once.{
  checks, rounds, inserts, deletes, renews, history, warned_once,
}
use terraform_suite_identity.Notify.Expiry.Spends.{warnings}
use terraform_suite_identity.Notify.Expiry.Warned.{due-warned}

abbrev key1 : KeyRow
key1 = record {
  id = lit "k1";
  user_id = some (lit "u1");
  name = lit "ci";
  key_prefix = lit "tfr_a";
  expires_at = some (3 * day);
  sent_at = none;
}

abbrev key2 : KeyRow
key2 = record key1 { id = lit "k2"; expires_at = some (2 * day) }

abbrev job : ApiKeyExpiryNotifier
job = record { has_key_repo = true; has_user_repo = true; product_name = lit "Registry" }

abbrev settings : ExpiryConfig
settings = record {
  enabled = true;
  api_key_expiring = true;
  smtp_host = lit "relay";
  smtp_from = lit "ops";
  warning_days = pos 0;
  check_interval_hours = pos 0;
}

abbrev replies : Answers
replies = record {
  claimed_at = day;
  now = day;
  user = λ u. found (lit "a@b") (lit "Ann");
  claim = answers;
  send = none;
  date = λ t. lit "soon";
}

-- The mailer refuses the mail of the second key.
abbrev around : Surroundings
around = record {
  now = day;
  db_now = day;
  query_fails = false;
  reply = λ k. if k.id == lit "k2" then record replies { send = some 1 } else replies;
}

due-warned_example :
    In
      (
        key1,
        expiry_email (lit "Registry") (lit "ops") replies (lit "a@b") (lit "Ann") key1 (3 * day),
      )
      (taken (run_check job settings around (key1 ∷ key2 ∷ [])).1)
unfolding ◌==◌ warning_window
due-warned_example =
    due-warned job settings around (key1 ∷ key2 ∷ []) key1 (lit "u1") (3 * day) (lit "a@b")
      (lit "Ann") refl refl refl refl (inl refl) only_row refl refl refl (omega arith) (omega arith)
      (omega arith) refl (λ e. cc e) refl refl
  where
    only_row : (j : KeyRow) → In j (key1 ∷ key2 ∷ []) → j.id ≡ lit "k1" → j ≡ key1
    only_row j (inl e) h = sym e
    only_row j (inr (inl e)) h =
        absurd (ne_of_test (lit "k2") (lit "k1") refl (ap (λ (x : KeyRow). x.id) e ∙ h))
    only_row j (inr (inr e)) h = elim e [ ]

warned_once_example :
    warnings (lit "k1") (
      history
        (checks job settings around
          ∷ rounds job settings replies (some key1)
          ∷ inserts key2
          ∷ renews (lit "k1") none
          ∷ deletes (lit "k2")
          ∷ [])
        (key1 ∷ []))
    ≤ 1
unfolding ◌==◌
warned_once_example =
    warned_once (lit "k1")
      (checks job settings around
        ∷ rounds job settings replies (some key1)
        ∷ inserts key2
        ∷ renews (lit "k1") none
        ∷ deletes (lit "k2")
        ∷ [])
      (key1 ∷ []) (ne_of_test (lit "k2") (lit "k1") refl, tt)

two_days : days_left day (3 * day) ≡ 3
unfolding days_left
two_days = refl

past_by_a_day : days_left (3 * day) day ≡ 0
unfolding days_left
past_by_a_day = refl
