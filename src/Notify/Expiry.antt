-- ===== src/Notify/Expiry.antt =====
-- identity/notify/api_key_expiry.go: the job that warns the owners of keys that expire soon. Times
-- are nanoseconds.
mod Spends
pub mod Once
pub mod Warned
mod Tests
pub use terraform_suite_identity.Notify.Fault.{ClaimFault, answers, fails, reply_lost}
use terraform_suite_identity.Common.{
  ℕ, zero, suc, ◌+◌, ◌-◌, ◌*◌, ◌/◌, ◌%◌, ◌^◌, ℤ, pos, negsuc, Str, lit, ◌==◌, decimal, leb, ltb,
  is_empty, List, [], ◌∷◌, ◌++◌, map, filter, sort_by, Bool, true, false, not, ◌&&◌, ◌||◌, Option,
  none, some, if◌then◌else◌,
}
use terraform_suite_identity.Notify.Message.{line_end, join, build_message}
use terraform_suite_identity.Notify.Keys.{
  KeyRow, int64, day, by_cutoff, is_expiring, expiry, find_expiring_keys, is_unsent, claim_rows,
  claim_expiry_notification,
}

-- ExpiryConfig, with the parts of the SMTP settings that the job reads.
pub record ExpiryConfig : Type 0 where
  pub enabled : Bool
  pub api_key_expiring : Bool
  pub smtp_host : Str
  pub smtp_from : Str
  pub warning_days : ℤ
  pub check_interval_hours : ℤ

-- `warningDays <= 0`
unfoldable pub warning_window : ℤ → ℕ
warning_window (pos zero) = 7
warning_window (pos (suc n)) = suc n
warning_window (negsuc n) = 7

-- The hours between two checks, of NewAPIKeyExpiryNotifier.
unfoldable pub check_interval : ℤ → ℕ
check_interval (pos zero) = 24
check_interval (pos (suc n)) = suc n
check_interval (negsuc n) = 24

pub record ApiKeyExpiryNotifier : Type 0 where
  pub has_key_repo : Bool
  pub has_user_repo : Bool
  pub product_name : Str

-- What GetUserByID answers: the address and the name, no such user, a failure, or no user.
pub data UserAnswer : Type 0 where
  found : Str → Str → UserAnswer
  not_found failed no_user : UserAnswer

-- What a check meets at a key: the times of the claim and of the mail, the owner, the claim's fault, the
-- error that `mailer.Send` returns, and the text of a date.
pub record Answers : Type 0 where
  pub claimed_at : ℕ
  pub now : ℕ
  pub user : Str → UserAnswer
  pub claim : ClaimFault
  pub send : Option ℕ
  pub date : ℕ → Str

-- `int(time.Until(expiresAt).Hours()/24) + 1`, not below 0; the division is taken as exact.
unfoldable pub days_left : ℕ → ℕ → ℕ
days_left now e = if leb now e then (e - now) / day + 1 else if ltb (now - e) day then 1 else 0

-- An address, the message that is handed to `mailer.Send` for it, and the error that it returns, which
-- the job only logs.
pub record Mail : Type 0 where
  pub to : Str
  pub message : Str
  pub error : Option ℕ

unfoldable pub expiry_email : Str → Str → Answers → Str → Str → KeyRow → ℕ → Mail
unfolding days_left
expiry_email product from around to_email user_name k e =
    let days = decimal (days_left around.now e) in
    let subject =
      lit "Action Required: API key '" ++ k.name ++ lit "' expires in " ++ days ++ lit " day(s)" in
    let lines =
      (lit "Hello " ++ user_name ++ lit ",")
      ∷ []
      ∷ (lit "Your "
          ++ product
          ++ lit " API key '"
          ++ k.name
          ++ lit "' ("
          ++ k.key_prefix
          ++ lit "...) will expire on "
          ++ around.date e
          ++ lit " ("
          ++ days
          ++ lit " day(s) from now).")
      ∷ []
      ∷ lit "To avoid service disruption, please create a replacement key before the expiry date:"
      ∷ (lit "  1. Log in to the " ++ product ++ lit " admin UI.")
      ∷ lit "  2. Navigate to Admin → API Keys."
      ∷ lit "  3. Create a new key with the same scopes and update your CI/CD pipelines."
      ∷ lit "  4. Delete or let the old key expire."
      ∷ []
      ∷ lit "If you no longer need this key, no action is required."
      ∷ []
      ∷ (lit "— " ++ product)
      ∷ [] in
    record {
      to = to_email;
      message = build_message from (to_email ∷ []) subject (join line_end lines);
      error = around.send;
    }

abbrev pub Sends : Type 0
Sends = List (KeyRow × Mail)

-- The mails that the mailer took.
abbrev pub is_taken : KeyRow × Mail → Bool
is_taken (k, mail) = elim mail.error [ none ↦ true | some e ↦ false ]

pub taken : Sends → Sends
unfolding filter
taken sends = filter is_taken sends

-- The claim, and the mail where it is won.
unfoldable pub claim_and_send :
    ApiKeyExpiryNotifier
    → ExpiryConfig
    → Answers
    → KeyRow
    → ℕ
    → Str
    → Str
    → List KeyRow
    → List KeyRow × Sends
unfolding claim_expiry_notification expiry_email
claim_and_send n cfg around k e email user_name rows =
    let (rows', claimed) = claim_expiry_notification around.claim around.claimed_at k.id rows in
    elim claimed [
      | none ↦ (rows', [])
      | some won ↦
          if won
          then (
            rows',
            (k, expiry_email n.product_name cfg.smtp_from around email user_name k e) ∷ [],
          )
          else (rows', [])
    ]

-- One round of the loop, for a key with an owner and an expiry.
unfoldable pub check_owned :
    ApiKeyExpiryNotifier
    → ExpiryConfig
    → Answers
    → KeyRow
    → ℕ
    → UserAnswer
    → List KeyRow
    → List KeyRow × Sends
unfolding claim_and_send
check_owned n cfg around k e (found email user_name) rows =
    if is_empty email then (rows, []) else claim_and_send n cfg around k e email user_name rows
check_owned n cfg around k e not_found rows = (rows, [])
check_owned n cfg around k e failed rows = (rows, [])
check_owned n cfg around k e no_user rows = (rows, [])

-- One round of the loop, up to the lookup of the owner; a nil key is `none`.
unfoldable pub check_key :
    ApiKeyExpiryNotifier
    → ExpiryConfig
    → Answers
    → Option KeyRow
    → List KeyRow
    → List KeyRow × Sends
unfolding check_owned
check_key n cfg around none rows = (rows, [])
check_key n cfg around (some k) rows = elim k.user_id [
  | none ↦ (rows, [])
  | some u ↦ elim k.expires_at [
    | none ↦ (rows, [])
    | some e ↦
        if n.has_user_repo then check_owned n cfg around k e (around.user u) rows else (rows, [])
  ]
]

-- The loop. A round without a user repository returns; the later rounds would change nothing.
unfoldable pub check_keys :
    ApiKeyExpiryNotifier
    → ExpiryConfig
    → (KeyRow → Answers)
    → List KeyRow
    → List KeyRow
    → List KeyRow × Sends
unfolding check_key
check_keys n cfg reply [] rows = (rows, [])
check_keys n cfg reply (k ∷ ks) rows =
    let (rows', sent) = check_key n cfg (reply k) (some k) rows in
    let (rows'', later) = check_keys n cfg reply ks rows' in (rows'', sent ++ later)

-- What a check meets: the clocks, the query's failure, and each key's answers.
pub record Surroundings : Type 0 where
  pub now : ℕ
  pub db_now : ℕ
  pub query_fails : Bool
  pub reply : KeyRow → Answers

abbrev pub is_on : ExpiryConfig → Bool
is_on cfg = cfg.enabled && not (is_empty cfg.smtp_host) && cfg.api_key_expiring

unfoldable pub run_check :
    ApiKeyExpiryNotifier → ExpiryConfig → Surroundings → List KeyRow → List KeyRow × Sends
unfolding find_expiring_keys warning_window check_keys
run_check n cfg around rows =
    if not (is_on cfg) || not n.has_key_repo || around.query_fails
    then (rows, [])
    else check_keys n cfg around.reply
        (find_expiring_keys around.now around.db_now (warning_window cfg.warning_days) rows) rows

-- What ends the wait of the loop of Start.
pub data LoopEvent : Type 0 where
  tick : ExpiryConfig → Surroundings → LoopEvent
  stopped cancelled : LoopEvent

unfoldable pub run_loop : ApiKeyExpiryNotifier → List LoopEvent → List KeyRow → List KeyRow × Sends
unfolding run_check
run_loop n [] rows = (rows, [])
run_loop n (tick cfg around ∷ events) rows =
    let (rows', sent) = run_check n cfg around rows in
    let (rows'', later) = run_loop n events rows' in (rows'', sent ++ later)
run_loop n (stopped ∷ events) rows = (rows, [])
run_loop n (cancelled ∷ events) rows = (rows, [])

-- `Start`, with what stopped it before, its configuration, and the first check.
unfoldable pub start :
    ApiKeyExpiryNotifier
    → Bool
    → ExpiryConfig
    → ExpiryConfig
    → Surroundings
    → List LoopEvent
    → List KeyRow
    → List KeyRow × Sends
unfolding run_loop
start n already_stopped cfg first around events rows =
    if already_stopped || not (is_on cfg)
    then (rows, [])
    else run_loop n (tick first around ∷ events) rows
