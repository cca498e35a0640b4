-- ===== src/Notify/Expiry/Spends.antt =====
-- How many warnings a check sends, against the open rows (identity/notify/api_key_expiry.go).
use terraform_suite_identity.Common.{
  ℕ, ◌+◌, ◌≤◌, Str, ◌==◌, eq_iff, is_empty, List, [], ◌∷◌, ◌++◌, count_if, Bool, true, false, not,
  ◌&&◌, ◌||◌, Option, none, some, if◌then◌else◌, ◌≡◌, refl, sym, ap, subst, branch, branch-if, ◌∙◌,
  arith,
}
use terraform_suite_identity.Notify.Expiry.{
  ClaimFault, answers, fails, reply_lost, ExpiryConfig, ApiKeyExpiryNotifier, UserAnswer, found,
  not_found, failed, no_user, Answers, Mail, expiry_email, Sends, claim_and_send, check_owned,
  check_key, check_keys, Surroundings, warning_window, is_on, run_check,
}
use terraform_suite_identity.Notify.Keys.{
  KeyRow, is_unsent, claim_rows, claim_expiry_notification, find_expiring_keys,
}

-- Whether a row of this key is still to be claimed, and the number of warnings that this allows.
unfoldable pub has_open : Str → List KeyRow → Bool
has_open id [] = false
has_open id (k ∷ ks) = (k.id == id && is_unsent k) || has_open id ks

abbrev pub as_count : Bool → ℕ
as_count true = 1
as_count false = 0

abbrev pub allowed : Str → List KeyRow → ℕ
allowed id rows = as_count (has_open id rows)

unfoldable pub warnings : Str → Sends → ℕ
warnings id sent = count_if (λ (p : KeyRow × Mail). p.0.id == id) sent

pub warnings-append :
    (id : Str) (s t : Sends) → warnings id (s ++ t) ≡ warnings id s + warnings id t
unfolding warnings count_if
warnings-append id [] t = omega arith
warnings-append id ((k, m) ∷ s) t = ground (arith, warnings-append id s t)

-- A claim is won exactly if there was a row to claim, and it leaves none.
pub claim_rows-won :
    (now : ℕ) (id : Str) (rows : List KeyRow) → (claim_rows now id rows).1 ≡ has_open id rows
unfolding claim_rows has_open
claim_rows-won now id [] = refl
claim_rows-won now id (k ∷ ks) = ground (arith, claim_rows-won now id ks)

pub claim_rows-open :
    (now : ℕ) (id j : Str) (rows : List KeyRow)
    → has_open j (claim_rows now id rows).0 ≡ (if id == j then false else has_open j rows)
unfolding claim_rows has_open
claim_rows-open now id j [] = ground arith
claim_rows-open now id j (k ∷ ks) =
    ground (arith, claim_rows-open now id j ks, eq_iff k.id id, eq_iff k.id j, eq_iff id j)

-- What a step does: the warnings it sends come out of those that were allowed.
abbrev pub Spends : Str → List KeyRow → List KeyRow × Sends → Type 0
Spends id rows (rows', sent) = warnings id sent + allowed id rows' ≤ allowed id rows

pub rows_kept-Spends : (id : Str) (rows : List KeyRow) → Spends id rows (rows, [])
unfolding warnings count_if
rows_kept-Spends id rows = omega arith

as_count-le : (a b : Bool) → as_count (if a then false else b) ≤ as_count b
as_count-le true b = ground arith
as_count-le false b = omega arith

claim-allowed :
    (now : ℕ) (id j : Str) (rows : List KeyRow)
    → allowed j (claim_rows now id rows).0 ≤ allowed j rows
claim-allowed now id j rows =
    let e = claim_rows-open now id j rows in
    let l = as_count-le (id == j) (has_open j rows) in rw e l

unsent-Spends :
    (now : ℕ) (j id : Str) (rows : List KeyRow) → Spends id rows ((claim_rows now j rows).0, [])
unfolding warnings count_if
unsent-Spends now j id rows = let l = claim-allowed now j id rows in omega (arith, l)

module _ (n : ApiKeyExpiryNotifier) (cfg : ExpiryConfig) (id : Str) where
  won-Spends :
      (around : Answers) (k : KeyRow) (m : Mail) (rows : List KeyRow) (won : Bool)
      → (claim_rows around.claimed_at k.id rows).1 ≡ won
      → Spends id rows (
          if won
          then ((claim_rows around.claimed_at k.id rows).0, (k, m) ∷ [])
          else ((claim_rows around.claimed_at k.id rows).0, []))
  unfolding warnings count_if
  won-Spends around k m rows false e = unsent-Spends around.claimed_at k.id id rows
  won-Spends around k m rows true e =
      let l = claim-allowed around.claimed_at k.id id rows in
      let o = claim_rows-open around.claimed_at k.id id rows in
      let w = sym (claim_rows-won around.claimed_at k.id rows) ∙ e in by_id (k.id == id) refl l o w
    where
      by_id :
          (b : Bool)
          → (k.id == id) ≡ b
          → allowed id (claim_rows around.claimed_at k.id rows).0 ≤ allowed id rows
          → has_open id (claim_rows around.claimed_at k.id rows).0
            ≡ (if k.id == id then false else has_open id rows)
          → has_open k.id rows ≡ true
          → (if b then 1 else 0) + allowed id (claim_rows around.claimed_at k.id rows).0
            ≤ allowed id rows
      by_id false e l o w = omega arith
      by_id true e l o w =
          let none_left : has_open id (claim_rows around.claimed_at k.id rows).0 ≡ false =
            o ∙ ap (λ b. if b then false else has_open id rows) e in
          let was_open = subst (λ x. has_open x rows ≡ true) ((eq_iff k.id id).0 e) w in
          rw (none_left, was_open) (omega arith)

  claim_and_send-Spends :
      (around : Answers) (k : KeyRow) (e : ℕ) (email user_name : Str) (rows : List KeyRow)
      → Spends id rows (claim_and_send n cfg around k e email user_name rows)
  unfolding claim_and_send claim_expiry_notification
  claim_and_send-Spends around k e email user_name rows = by_fault around.claim
    where
      by_fault :
          (f : ClaimFault)
          → Spends id rows (elim (claim_expiry_notification f around.claimed_at k.id rows).1 [
            | none ↦ ((claim_expiry_notification f around.claimed_at k.id rows).0, [])
            | some won ↦
                if won
                then (
                  (claim_expiry_notification f around.claimed_at k.id rows).0,
                  (k, expiry_email n.product_name cfg.smtp_from around email user_name k e) ∷ [],
                )
                else ((claim_expiry_notification f around.claimed_at k.id rows).0, [])
          ])
      by_fault answers = won-Spends around k _ rows _ refl
      by_fault fails = rows_kept-Spends id rows
      by_fault reply_lost = unsent-Spends around.claimed_at k.id id rows

  check_owned-Spends :
      (around : Answers) (k : KeyRow) (e : ℕ) (u : UserAnswer) (rows : List KeyRow)
      → Spends id rows (check_owned n cfg around k e u rows)
  unfolding check_owned
  check_owned-Spends around k e (found email user_name) rows =
      branch-if (λ r. Spends id rows r) (is_empty email) _ _ (rows_kept-Spends id rows)
        (claim_and_send-Spends around k e email user_name rows)
  check_owned-Spends around k e not_found rows = rows_kept-Spends id rows
  check_owned-Spends around k e failed rows = rows_kept-Spends id rows
  check_owned-Spends around k e no_user rows = rows_kept-Spends id rows

  pub check_key-Spends :
      (around : Answers) (k : Option KeyRow) (rows : List KeyRow)
      → Spends id rows (check_key n cfg around k rows)
  unfolding check_key
  check_key-Spends around none rows = rows_kept-Spends id rows
  check_key-Spends around (some k) rows =
      branch (λ r. Spends id rows r) k.user_id _ _
        (λ u.
          branch (λ r. Spends id rows r) k.expires_at _ _
            (λ e.
              branch-if (λ r. Spends id rows r) n.has_user_repo _ _
                (check_owned-Spends around k e (around.user u) rows) (rows_kept-Spends id rows))
            (rows_kept-Spends id rows))
        (rows_kept-Spends id rows)

  check_keys-Spends :
      (reply : KeyRow → Answers) (keys rows : List KeyRow)
      → Spends id rows (check_keys n cfg reply keys rows)
  unfolding check_keys
  check_keys-Spends reply [] rows = rows_kept-Spends id rows
  check_keys-Spends reply (k ∷ ks) rows =
      let (rows', sent) = check_key n cfg (reply k) (some k) rows in
      let (rows'', later) = check_keys n cfg reply ks rows' in
      let a = warnings-append id sent later in
      let now = check_key-Spends (reply k) (some k) rows in
      let then_ = check_keys-Spends reply ks rows' in omega (arith, a, now, then_)

  pub run_check-Spends :
      (around : Surroundings) (rows : List KeyRow) → Spends id rows (run_check n cfg around rows)
  unfolding run_check
  run_check-Spends around rows =
      branch-if (λ r. Spends id rows r)
        (not (is_on cfg) || not n.has_key_repo || around.query_fails) _ _ (rows_kept-Spends id rows)
        (check_keys-Spends around.reply
          (find_expiring_keys around.now around.db_now (warning_window cfg.warning_days) rows) rows)
