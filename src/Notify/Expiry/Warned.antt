-- ===== src/Notify/Expiry/Warned.antt =====
-- When a key's owner is warned (identity/notify/api_key_expiry.go).
use terraform_suite_identity.Common.{
  ℕ, ◌+◌, ◌*◌, ◌^◌, ◌≤◌, ◌<◌, pos, Str, ◌==◌, eq_iff, eq_refl, ne_of_test, ltb, is_empty, List, [],
  ◌∷◌, filter, In, In-append_left, In-append_right, filter-In, In-sort_by, In-filter, Bool, true,
  false, not, ◌&&◌, ◌||◌, Bool-cases, branch, branch-if, none, some, if◌then◌else◌, ◌≡◌, ◌≢◌, inl,
  inr, refl, sym, ap, subst, ◌∙◌, arith,
}
use terraform_suite_identity.Notify.Expiry.{
  ClaimFault, answers, fails, reply_lost, ExpiryConfig, warning_window, ApiKeyExpiryNotifier,
  UserAnswer, found, not_found, failed, no_user, Answers, Mail, expiry_email, Sends, claim_and_send,
  is_taken, taken, check_owned, check_key, check_keys, Surroundings, is_on, run_check,
}
use terraform_suite_identity.Notify.Keys.{
  KeyRow, int64, day, by_cutoff, is_expiring, expiry, find_expiring_keys, is_unsent,
  claim_expiry_notification,
}
use terraform_suite_identity.Notify.Expiry.Spends.{has_open, claim_rows-won, claim_rows-open}

-- An unsent row is open.
In-has_open :
    (k : KeyRow) (rows : List KeyRow) → In k rows → k.sent_at ≡ none → has_open k.id rows ≡ true
unfolding has_open
In-has_open k [] h s = elim h [ ]
In-has_open k (j ∷ js) (inl same) s =
    subst (λ i. ((i.id == k.id && is_unsent i) || has_open k.id js) ≡ true) (sym same)
      (let e = eq_refl k.id in ground (arith, e, s))
In-has_open k (j ∷ js) (inr later) s = let ih = In-has_open k js later s in ground (arith, ih)

-- A positive number of days that an `int64` holds in nanoseconds.
int64-small : (n : ℕ) → n < 2 ^ 63 → int64 n ≡ pos n
unfolding int64
int64-small n h = ground arith

is_empty-false : (s : Str) → s ≢ [] → is_empty s ≡ false
is_empty-false [] h = absurd (h refl)
is_empty-false (c ∷ s) h = refl

module _ (n : ApiKeyExpiryNotifier) (cfg : ExpiryConfig) where
  -- A round leaves the other keys open.
  abbrev Leaves : Str → List KeyRow → List KeyRow × Sends → Type 0
  Leaves id rows r = has_open id r.0 ≡ has_open id rows

  claim-Leaves :
      (f : ClaimFault) (now : ℕ) (j id : Str) (rows : List KeyRow)
      → j ≢ id
      → has_open id (claim_expiry_notification f now j rows).0 ≡ has_open id rows
  unfolding claim_expiry_notification
  claim-Leaves answers now j id rows d =
      let o = claim_rows-open now j id rows in ground (arith, o, d, eq_iff j id)
  claim-Leaves fails now j id rows d = refl
  claim-Leaves reply_lost now j id rows d =
      let o = claim_rows-open now j id rows in ground (arith, o, d, eq_iff j id)

  claim_and_send-Leaves :
      (around : Answers) (k : KeyRow) (e : ℕ) (email user_name id : Str) (rows : List KeyRow)
      → k.id ≢ id
      → Leaves id rows (claim_and_send n cfg around k e email user_name rows)
  unfolding claim_and_send
  claim_and_send-Leaves around k e email user_name id rows d =
      let l = claim-Leaves around.claim around.claimed_at k.id id rows d in
      branch (λ r. Leaves id rows r)
        (claim_expiry_notification around.claim around.claimed_at k.id rows).1 _ _
        (λ won. branch-if (λ r. Leaves id rows r) won _ _ l l) l

  check_owned-Leaves :
      (around : Answers) (k : KeyRow) (e : ℕ) (u : UserAnswer) (id : Str) (rows : List KeyRow)
      → k.id ≢ id
      → Leaves id rows (check_owned n cfg around k e u rows)
  unfolding check_owned
  check_owned-Leaves around k e (found email user_name) id rows d =
      branch-if (λ r. Leaves id rows r) (is_empty email) _ _ refl
        (claim_and_send-Leaves around k e email user_name id rows d)
  check_owned-Leaves around k e not_found id rows d = refl
  check_owned-Leaves around k e failed id rows d = refl
  check_owned-Leaves around k e no_user id rows d = refl

  check_key-Leaves :
      (around : Answers) (k : KeyRow) (id : Str) (rows : List KeyRow)
      → k.id ≢ id
      → Leaves id rows (check_key n cfg around (some k) rows)
  unfolding check_key
  check_key-Leaves around k id rows d =
      branch (λ r. Leaves id rows r) k.user_id _ _
        (λ u.
          branch (λ r. Leaves id rows r) k.expires_at _ _
            (λ e.
              branch-if (λ r. Leaves id rows r) n.has_user_repo _ _
                (check_owned-Leaves around k e (around.user u) id rows d) refl)
            refl)
        refl

  module _ (around : Answers) (k : KeyRow) (u : Str) (e : ℕ) (email user_name : Str)
      (repo : n.has_user_repo ≡ true) (owned : k.user_id ≡ some u) (expires : k.expires_at ≡ some e)
      (owner : around.user u ≡ found email user_name) (reachable : email ≢ [])
      (answered : around.claim ≡ answers) where
    abbrev warning : KeyRow × Mail
    warning = (k, expiry_email n.product_name cfg.smtp_from around email user_name k e)

    sends_now :
        (rows : List KeyRow)
        → has_open k.id rows ≡ true
        → (check_key n cfg around (some k) rows).1 ≡ warning ∷ []
    unfolding check_key check_owned claim_and_send claim_expiry_notification
    sends_now rows open_row =
        let w = claim_rows-won around.claimed_at k.id rows ∙ open_row in
        let full = is_empty-false email reachable in
        rw (owned, expires) (rw (repo, owner) (rw (full) (rw (answered) (rw (w) refl))))

  -- A key of the list is warned about, if its row is still open.
  check_keys-In :
      (reply : KeyRow → Answers) (k : KeyRow) (w : KeyRow × Mail) (ks rows : List KeyRow)
      → ((rs : List KeyRow)
          → has_open k.id rs ≡ true
          → (check_key n cfg (reply k) (some k) rs).1 ≡ w ∷ [])
      → In k ks
      → ((j : KeyRow) → In j ks → j.id ≡ k.id → j ≡ k)
      → has_open k.id rows ≡ true
      → In w (check_keys n cfg reply ks rows).1
  unfolding check_keys
  check_keys-In reply k w [] rows sends h distinct open_row = elim h [ ]
  check_keys-In reply k w (j ∷ ks) rows sends h distinct open_row =
      let (rows', sent) = check_key n cfg (reply j) (some j) rows in
      elim (Bool-cases (j.id == k.id)) [
        | inl e ↦
            let same = distinct j (inl refl) ((eq_iff j.id k.id).0 e) in
            let now =
              subst (λ i. (check_key n cfg (reply i) (some i) rows).1 ≡ w ∷ []) (sym same)
                (sends rows open_row) in
            In-append_left w sent (check_keys n cfg reply ks rows').1
              (subst (λ l. In w l) (sym now) (inl refl))
        | inr e ↦
            let other = ne_of_test j.id k.id e in
            In-append_right w sent (check_keys n cfg reply ks rows').1 (
              check_keys-In reply k w ks rows' sends (later other h) (λ i hi. distinct i (inr hi))
                (check_key-Leaves (reply j) j k.id rows other ∙ open_row))
      ]
    where
      later : j.id ≢ k.id → In k (j ∷ ks) → In k ks
      later d (inl same) = absurd (d (ap (λ i. i.id) same))
      later d (inr l) = l

-- A key that is due is found: it has an owner, is not marked, and expires after now and within the
-- window, which an `int64` holds in nanoseconds.
found_expiring :
    (now db_now days : ℕ) (k : KeyRow) (u : Str) (e : ℕ) (rows : List KeyRow)
    → In k rows
    → k.user_id ≡ some u
    → k.expires_at ≡ some e
    → k.sent_at ≡ none
    → db_now < e
    → e ≤ now + days * day
    → days * day < 2 ^ 63
    → In k (find_expiring_keys now db_now days rows)
unfolding find_expiring_keys is_expiring by_cutoff
found_expiring now db_now days k u e rows h owned expires unsent later within fits =
    (In-sort_by (λ i j. ltb (expiry i) (expiry j)) k (filter (is_expiring now db_now days) rows)).1
      (In-filter (is_expiring now db_now days) k rows h
        (rw (owned, expires) (rw (unsent) (rw (int64-small (days * day) fits) (ground arith)))))

-- The warning is handed to the mailer.
due-sent :
    (n : ApiKeyExpiryNotifier) (cfg : ExpiryConfig) (around : Surroundings) (rows : List KeyRow)
    (k : KeyRow) (u : Str) (e : ℕ) (email user_name : Str)
    → is_on cfg ≡ true
    → n.has_key_repo ≡ true
    → n.has_user_repo ≡ true
    → around.query_fails ≡ false
    → In k rows
    → ((j : KeyRow) → In j rows → j.id ≡ k.id → j ≡ k)
    → k.user_id ≡ some u
    → k.expires_at ≡ some e
    → k.sent_at ≡ none
    → around.db_now < e
    → e ≤ around.now + warning_window cfg.warning_days * day
    → warning_window cfg.warning_days * day < 2 ^ 63
    → (around.reply k).user u ≡ found email user_name
    → email ≢ []
    → (around.reply k).claim ≡ answers
    → In
        (k, expiry_email n.product_name cfg.smtp_from (around.reply k) email user_name k e)
        (run_check n cfg around rows).1
unfolding run_check
due-sent n cfg around rows k u e email user_name on keys users asks h distinct owned expires unsent
      later within fits owner reachable answered =
    let due = find_expiring_keys around.now around.db_now (warning_window cfg.warning_days) rows in
    let w =
      warning n cfg (around.reply k) k u e email user_name users owned expires owner reachable
        answered in
    let runs : (not (is_on cfg) || not n.has_key_repo || around.query_fails) ≡ false =
      all_pass (is_on cfg) n.has_key_repo around.query_fails on keys asks in
    subst (λ b. In w (if b then (rows, []) else check_keys n cfg around.reply due rows).1)
      (sym runs)
      (check_keys-In n cfg around.reply k w due rows
        (λ rs o.
          sends_now n cfg (around.reply k) k u e email user_name users owned expires owner reachable
            answered rs o)
        (found_expiring around.now around.db_now (warning_window cfg.warning_days) k u e rows h
          owned expires unsent later within fits)
        (λ j hj. distinct j (found_rows j hj)) (In-has_open k rows h unsent))
  where
    all_pass : (a b c : Bool) → a ≡ true → b ≡ true → c ≡ false → (not a || not b || c) ≡ false
    all_pass a b c p q r = rw (p, q, r) refl

    found_rows :
        (j : KeyRow)
        → In j (find_expiring_keys around.now around.db_now (warning_window cfg.warning_days) rows)
        → In j rows
    found_rows j hj =
        (filter-In (is_expiring around.now around.db_now (warning_window cfg.warning_days)) j rows (
          (In-sort_by (λ i k. ltb (expiry i) (expiry k)) j
              (filter (is_expiring around.now around.db_now (warning_window cfg.warning_days))
                rows)).0
            hj)).0

-- In a check of a job that is switched on, with its repositories and a query that answers, the mailer
-- takes the warning to the owner of each key that is not marked and expires after now and within the
-- window, if the lookup gives the owner's address, which is not empty, the claim answers, and the
-- mailer returns no error for this mail: whatever happens at the other keys, failed mails included. The key is the only row with its identifier, and the window fits an `int64`.
pub due-warned :
    (n : ApiKeyExpiryNotifier) (cfg : ExpiryConfig) (around : Surroundings) (rows : List KeyRow)
    (k : KeyRow) (u : Str) (e : ℕ) (email user_name : Str)
    → is_on cfg ≡ true
    → n.has_key_repo ≡ true
    → n.has_user_repo ≡ true
    → around.query_fails ≡ false
    → In k rows
    → ((j : KeyRow) → In j rows → j.id ≡ k.id → j ≡ k)
    → k.user_id ≡ some u
    → k.expires_at ≡ some e
    → k.sent_at ≡ none
    → around.db_now < e
    → e ≤ around.now + warning_window cfg.warning_days * day
    → warning_window cfg.warning_days * day < 2 ^ 63
    → (around.reply k).user u ≡ found email user_name
    → email ≢ []
    → (around.reply k).claim ≡ answers
    → (around.reply k).send ≡ none
    → In
        (k, expiry_email n.product_name cfg.smtp_from (around.reply k) email user_name k e)
        (taken (run_check n cfg around rows).1)
unfolding taken expiry_email
due-warned n cfg around rows k u e email user_name on keys users asks h distinct owned expires
      unsent later within fits owner reachable answered sent =
    let w =
      warning n cfg (around.reply k) k u e email user_name users owned expires owner reachable
        answered in
    In-filter is_taken w (run_check n cfg around rows).1
      (due-sent n cfg around rows k u e email user_name on keys users asks h distinct owned expires
        unsent later within fits owner reachable answered)
      (rw sent refl)
