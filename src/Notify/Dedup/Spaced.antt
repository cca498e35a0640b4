-- ===== src/Notify/Dedup/Spaced.antt =====
-- How far apart the claims on a key are won (identity/store/notify_dedup_repository.go).
use terraform_suite_identity.Common.{
  ℕ, ◌+◌, ◌≤◌, ◌<◌, Str, List, [], ◌∷◌, false, branch-if, if◌then◌else◌, ◌≡◌, inl, inr, sym, subst,
  arith,
}
use terraform_suite_identity.Notify.Dedup.{
  Claim, has_key, NotifyDedupRepository, run_claim, Call, claim_dedup,
}
use terraform_suite_identity.Notify.Dedup.Marks.{absent-Only}
use terraform_suite_identity.Notify.Dedup.Marked.{
  Marked, Fits, pruned-Marked, wins_key, After, run_claim-After,
}

module _ (k : Str) (ttl : ℕ) where
  -- The times at which the key was won, in the order of the calls, each by any repository.
  unfoldable pub wins : List (NotifyDedupRepository × Call) → List Claim → List ℕ
  wins [] rows = []
  wins ((r, call) ∷ calls) rows =
      let (r', rows', answer) = claim_dedup call r rows in
      let later = wins calls rows' in
      if wins_key k ttl call answer then call.db_now ∷ later else later

  abbrev pub AllFit : ℕ → List (NotifyDedupRepository × Call) → Type 0
  AllFit t [] = Unit {0}
  AllFit t ((r, call) ∷ calls) = Fits k ttl t r call × AllFit call.db_now calls

  abbrev pub SpacedFrom : ℕ → List ℕ → Type 0
  SpacedFrom w [] = Unit {0}
  SpacedFrom w (x ∷ xs) = (w + ttl < x) × SpacedFrom x xs

  abbrev pub Spaced : List ℕ → Type 0
  Spaced [] = Unit {0}
  Spaced (x ∷ xs) = SpacedFrom x xs

  claim_dedup-After :
      (m t : ℕ) (r : NotifyDedupRepository) (call : Call) (rows : List Claim)
      → Fits k ttl t r call
      → Marked k ttl m t rows
      → let (r', rows', answer) = claim_dedup call r rows in After k ttl m call rows' answer
  unfolding claim_dedup
  claim_dedup-After m t r call rows fits marked =
      let (rows', answer) = run_claim call.fault call.key call.ttl call.db_now rows in
      elim (run_claim-After k ttl m t call.fault call rows fits.0 fits.1 marked) [
        | inl (anew, late) ↦ inl (pruned-Marked k ttl call.db_now t r call rows' fits anew, late)
        | inr (same, lost) ↦ inr (pruned-Marked k ttl m t r call rows' fits same, lost)
      ]

  wins-SpacedFrom :
      (w m t : ℕ) (calls : List (NotifyDedupRepository × Call)) (rows : List Claim)
      → w ≤ m
      → AllFit t calls
      → Marked k ttl m t rows
      → SpacedFrom w (wins calls rows)
  unfolding wins
  wins-SpacedFrom w m t [] rows le fits marked = tt
  wins-SpacedFrom w m t ((r, call) ∷ calls) rows le (fit, fits) marked =
      let (r', rows', answer) = claim_dedup call r rows in
      elim (claim_dedup-After m t r call rows fit marked) [
        | inl (anew, late) ↦
            branch-if (λ l. SpacedFrom w l) (wins_key k ttl call answer) _ _
              (
                omega (arith, late, le),
                wins-SpacedFrom call.db_now call.db_now call.db_now calls rows' (omega arith) fits
                    anew,
              )
              (wins-SpacedFrom w call.db_now call.db_now calls rows' (omega (arith, late, le)) fits
                anew)
        | inr (same, lost) ↦
            subst
              (λ b. SpacedFrom w (if b then call.db_now ∷ wins calls rows' else wins calls rows'))
              (sym lost) (wins-SpacedFrom w m call.db_now calls rows' le fits same)
      ]

  -- Any two claims on a key that are won one after the other, by any replicas and whatever fails, lie
  -- further apart than the lifetime that the calls give it, if no claim on it is there at the start,
  -- the lifetime with the skew of a process's clock fits the grace of the prunes, the database's
  -- clock does not go back, and it starts later than the lifetime after the epoch.
  pub wins-Spaced :
      (t : ℕ) (calls : List (NotifyDedupRepository × Call)) (rows : List Claim)
      → ttl < t
      → has_key k rows ≡ false
      → AllFit t calls
      → Spaced (wins calls rows)
  wins-Spaced t calls rows after_epoch absent fits = all_spaced (wins calls rows) (
      wins-SpacedFrom 0 0 t calls rows (omega arith) fits
        (absent-Only k 0 rows absent, inr (omega (arith, after_epoch))))
    where
      all_spaced : (l : List ℕ) → SpacedFrom 0 l → Spaced l
      all_spaced [] h = tt
      all_spaced (x ∷ xs) h = h.1
