-- ===== src/Notify/Dedup/Marked.antt =====
-- What a claim and a prune leave of the rows of a key (identity/store/notify_dedup_repository.go).
use terraform_suite_identity.Common.{
  ℕ, ◌+◌, ◌≤◌, ◌<◌, ltb, Str, ◌==◌, eq_iff, eq_refl, contains, List, [], ◌∷◌, ◌++◌, Bool, true,
  false, not, ◌&&◌, ◌||◌, branch-if, Option, none, some, if◌then◌else◌, ◌≡◌, ◌⊎◌, inl, inr, refl,
  sym, subst, ◌∙◌, arith,
}
use terraform_suite_identity.Notify.Dedup.{
  Claim, has_key, any_stale, upsert_claim, NotifyDedupRepository, setting, dedup_prune_grace,
  dedup_prune_batch, claim_prune_slot, prune_claims, maybe_prune_expired_claims, ClaimFault,
  answers, fails, reply_lost, run_claim, Call,
}
use terraform_suite_identity.Notify.Dedup.Marks.{
  Only, refreshed, refreshed-has_key, absent-Only, append-Only, stale-Only, fresh-Only,
  any_stale-lt, filter-Only, prune-has_key,
}

-- The rows after a key was marked at time m, as far as time t.
abbrev pub Marked : Str → ℕ → ℕ → ℕ → List Claim → Type 0
Marked k ttl m t rows = Only k m rows × ((has_key k rows ≡ true) ⊎ (m + ttl < t))

module _ (k : Str) (ttl : ℕ) where
  -- What the calls rely on: they give the key the same lifetime, which with the skew of the process's
  -- clock fits the grace, and the database's clock does not go back.
  abbrev pub Fits : ℕ → NotifyDedupRepository → Call → Type 0
  Fits t r call =
      (t ≤ call.db_now)
      × (call.key ≡ k → call.ttl ≡ ttl)
      × (call.now + ttl ≤ call.db_now + setting r.prune_grace dedup_prune_grace)

  pub pruned-Marked :
      (m t : ℕ) (r : NotifyDedupRepository) (call : Call) (rows : List Claim)
      → Fits t r call
      → Marked k ttl m call.db_now rows
      → Marked k ttl m call.db_now (maybe_prune_expired_claims call.now call.prune_fails r rows).1
  unfolding maybe_prune_expired_claims
  pruned-Marked m t r call rows fits (only, there) =
      branch-if (λ (x : NotifyDedupRepository × List Claim). Marked k ttl m call.db_now x.1)
        (not (claim_prune_slot r call.now).1 || call.prune_fails) _ _ (only, there)
        (
          filter-Only k m (λ c. not (contains _ c.key)) rows only,
          kept
              (prune-has_key k m call.now (setting r.prune_grace dedup_prune_grace)
                (setting r.prune_batch dedup_prune_batch) rows only)
              there,
        )
    where
      kept :
          (has_key k (
                prune_claims call.now
                  (setting r.prune_grace dedup_prune_grace)
                  (setting r.prune_batch dedup_prune_batch)
                  rows)
              ≡ has_key k rows)
            ⊎ (m + setting r.prune_grace dedup_prune_grace < call.now)
          → (has_key k rows ≡ true) ⊎ (m + ttl < call.db_now)
          → (has_key k (
                prune_claims call.now
                  (setting r.prune_grace dedup_prune_grace)
                  (setting r.prune_batch dedup_prune_batch)
                  rows)
              ≡ true)
            ⊎ (m + ttl < call.db_now)
      kept (inl same) (inl h) = inl (same ∙ h)
      kept (inl same) (inr late) = inr late
      kept (inr late) h = let f = fits.2 in inr (omega (arith, late, f))

  append-has_key :
      (key j : Str) (at : ℕ) (rows : List Claim)
      → has_key key (rows ++ record { key = j; at = at } ∷ []) ≡ (has_key key rows || j == key)
  unfolding has_key
  append-has_key key j at [] = ground arith
  append-has_key key j at (c ∷ cs) = ground (arith, append-has_key key j at cs)

  -- A claim on the key: it is marked anew, after its lifetime, or the claim is lost.
  abbrev Outcome : ℕ → ℕ → List Claim × Bool → Type 0
  Outcome m now (rows, won) =
      (Marked k ttl now now rows × (m + ttl < now)) ⊎ (Marked k ttl m now rows × (won ≡ false))

  upsert-Outcome :
      (m t now : ℕ) (rows : List Claim)
      → t ≤ now
      → Marked k ttl m t rows
      → Outcome m now (upsert_claim k ttl now rows)
  unfolding upsert_claim
  upsert-Outcome m t now rows le (only, there) = by_key (has_key k rows) refl
    where
      by_time :
          (b : Bool)
          → ltb (m + ttl) now ≡ b
          → has_key k rows ≡ true
          → Outcome m now (refreshed k ttl now rows, any_stale k ttl now rows)
      by_time true late e = inl (
        (
          stale-Only k m ttl now rows only (ground (arith, late)),
          inl (refreshed-has_key k k ttl now rows ∙ e),
        ),
        ground (arith, late),
      )
      by_time false early e = inr (
        (
          fresh-Only k k m ttl now rows only (λ s. ground (arith, early)),
          inl (refreshed-has_key k k ttl now rows ∙ e),
        ),
        lost (any_stale k ttl now rows) refl,
      )
        where
          lost : (w : Bool) → any_stale k ttl now rows ≡ w → any_stale k ttl now rows ≡ false
          lost false s = s
          lost true s =
              let l = any_stale-lt k m ttl now rows only s in absurd (ground (arith, l, early))

      late_if_absent : has_key k rows ≡ false → m + ttl < now
      late_if_absent e = elim there [
        | inl h ↦ absurd (ground (arith, h, e))
        | inr l ↦ omega (arith, l, le)
      ]

      by_key :
          (b : Bool)
          → has_key k rows ≡ b
          → Outcome m now (
              if b
              then (refreshed k ttl now rows, any_stale k ttl now rows)
              else (rows ++ record { key = k; at = now } ∷ [], true))
      by_key true e = by_time (ltb (m + ttl) now) refl e
      by_key false e = inl (
        (
          append-Only k k now now rows (absent-Only k now rows e) (λ s. refl),
          inl (append-has_key k k now rows ∙ ground (arith, eq_refl k)),
        ),
        late_if_absent e,
      )

  -- A claim on another key leaves the rows of this one.
  other-Marked :
      (m t ttl' now : ℕ) (key : Str) (rows : List Claim)
      → (key == k) ≡ false
      → t ≤ now
      → Marked k ttl m t rows
      → Marked k ttl m now (upsert_claim key ttl' now rows).0
  unfolding upsert_claim
  other-Marked m t ttl' now key rows other le (only, there) =
      branch-if (λ (x : List Claim × Bool). Marked k ttl m now x.0) (has_key key rows) _ _
        (
          fresh-Only k key m ttl' now rows only (λ s. absurd (ground (arith, s, other))),
          still _ (refreshed-has_key k key ttl' now rows) there,
        )
        (
          append-Only k key m now rows only (λ s. absurd (ground (arith, s, other))),
          still _ (append-has_key k key now rows ∙ ground (arith, other)) there,
        )
    where
      still :
          (rows' : List Claim)
          → has_key k rows' ≡ has_key k rows
          → (has_key k rows ≡ true) ⊎ (m + ttl < t)
          → (has_key k rows' ≡ true) ⊎ (m + ttl < now)
      still rows' e (inl h) = inl (e ∙ h)
      still rows' e (inr l) = inr (omega (arith, l, le))

  -- Whether a call won the key.
  abbrev pub wins_key : Call → Option Bool → Bool
  wins_key call none = false
  wins_key call (some won) = call.key == k && won

  -- After a call the key is marked at its time, which came after the lifetime, or it is marked as
  -- before and the call has not won it.
  abbrev pub After : ℕ → Call → List Claim → Option Bool → Type 0
  After m call rows answer =
      (Marked k ttl call.db_now call.db_now rows × (m + ttl < call.db_now))
      ⊎ (Marked k ttl m call.db_now rows × (wins_key call answer ≡ false))

  later-Marked :
      (m t t' : ℕ) (rows : List Claim) → t ≤ t' → Marked k ttl m t rows → Marked k ttl m t' rows
  later-Marked m t t' rows le (only, inl h) = (only, inl h)
  later-Marked m t t' rows le (only, inr l) = (only, inr (omega (arith, l, le)))

  pub run_claim-After :
      (m t : ℕ) (f : ClaimFault) (call : Call) (rows : List Claim)
      → t ≤ call.db_now
      → (call.key ≡ k → call.ttl ≡ ttl)
      → Marked k ttl m t rows
      → let (rows', answer) = run_claim f call.key call.ttl call.db_now rows in
        After m call rows' answer
  unfolding run_claim
  run_claim-After m t f call rows le lifetime marked = by_key (call.key == k) refl f
    where
      on_key :
          (e : call.key ≡ k)
          → Outcome m call.db_now (upsert_claim call.key call.ttl call.db_now rows)
      on_key e =
          subst (λ x. Outcome m call.db_now (upsert_claim x call.ttl call.db_now rows)) (sym e)
            (subst (λ x. Outcome m call.db_now (upsert_claim k x call.db_now rows))
              (sym (lifetime e)) (upsert-Outcome m t call.db_now rows le marked))

      by_key :
          (b : Bool)
          → (call.key == k) ≡ b
          → (f : ClaimFault)
          → let (rows', answer) = run_claim f call.key call.ttl call.db_now rows in
            After m call rows' answer
      by_key b e fails = inr (later-Marked m t call.db_now rows le marked, refl)
      by_key true e answers = elim (on_key ((eq_iff call.key k).0 e)) [
        | inl (anew, late) ↦ inl (anew, late)
        | inr (same, lost) ↦ inr (same, ground (arith, lost))
      ]
      by_key true e reply_lost = elim (on_key ((eq_iff call.key k).0 e)) [
        | inl (anew, late) ↦ inl (anew, late)
        | inr (same, lost) ↦ inr (same, refl)
      ]
      by_key false e answers =
          inr (other-Marked m t call.ttl call.db_now call.key rows e le marked, ground (arith, e))
      by_key false e reply_lost =
          inr (other-Marked m t call.ttl call.db_now call.key rows e le marked, refl)
