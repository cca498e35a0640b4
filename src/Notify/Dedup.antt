-- ===== src/Notify/Dedup.antt =====
-- identity/store/notify_dedup_repository.go: the claims on the keys of notifications, and their pruning.
-- Times are nanoseconds.
mod Marks
mod Marked
pub mod Spaced
mod Tests
pub use terraform_suite_identity.Notify.Fault.{ClaimFault, answers, fails, reply_lost}
use terraform_suite_identity.Common.{
  ℕ, zero, suc, ◌+◌, ltb, leb, ℤ, pos, negsuc, Str, ◌==◌, nat_eq, contains, List, [], ◌∷◌, ◌++◌,
  map, filter, sort_by, take, Bool, true, false, not, ◌&&◌, ◌||◌, Option, none, some, if◌then◌else◌,
}

-- A row of notify_dedup_claims.
pub record Claim : Type 0 where
  pub key : Str
  pub at : ℕ

unfoldable pub has_key : Str → List Claim → Bool
has_key key [] = false
has_key key (c ∷ cs) = c.key == key || has_key key cs

-- `claimed_at < NOW() - make_interval(secs => $2)`, for the row of the key.
abbrev pub is_stale : Str → ℕ → ℕ → Claim → Bool
is_stale key ttl now c = c.key == key && ltb (c.at + ttl) now

unfoldable pub any_stale : Str → ℕ → ℕ → List Claim → Bool
any_stale key ttl now [] = false
any_stale key ttl now (c ∷ cs) = is_stale key ttl now c || any_stale key ttl now cs

-- The INSERT … ON CONFLICT DO UPDATE of ClaimDedup, and whether it returned a row.
unfoldable pub upsert_claim : Str → ℕ → ℕ → List Claim → List Claim × Bool
unfolding has_key any_stale
upsert_claim key ttl now rows =
    if has_key key rows
    then (
      map (λ c. if is_stale key ttl now c then record c { at = now } else c) rows,
      any_stale key ttl now rows,
    )
    else (rows ++ record { key = key; at = now } ∷ [], true)

pub record NotifyDedupRepository : Type 0 where
  pub next_prune_at : ℕ
  pub prune_interval : ℤ
  pub prune_grace : ℤ
  pub prune_batch : ℤ

-- `NewNotifyDedupRepository`
abbrev pub new_notify_dedup_repository : NotifyDedupRepository
new_notify_dedup_repository = record {
  next_prune_at = 0;
  prune_interval = pos 0;
  prune_grace = pos 0;
  prune_batch = pos 0;
}

-- A setting that is not positive stands for its default.
abbrev pub setting : ℤ → ℕ → ℕ
setting (pos zero) default = default
setting (pos (suc n)) default = suc n
setting (negsuc n) default = default

abbrev pub dedup_prune_grace : ℕ
dedup_prune_grace = 604800000000000

abbrev pub dedup_prune_interval : ℕ
dedup_prune_interval = 3600000000000

abbrev pub dedup_prune_batch : ℕ
dedup_prune_batch = 10000

-- claimPruneSlot: the load and the compare-and-swap are one step.
unfoldable pub claim_prune_slot : NotifyDedupRepository → ℕ → NotifyDedupRepository × Bool
claim_prune_slot r now =
    if ltb now r.next_prune_at
    then (r, false)
    else (record r { next_prune_at = now + setting r.prune_interval dedup_prune_interval }, true)

-- `ORDER BY claimed_at`
abbrev pub is_older : Claim → Claim → Bool
is_older c d = ltb c.at d.at

-- `claimed_at < $1`, with the cutoff `now.Add(-grace)`.
abbrev pub is_expired : ℕ → ℕ → Claim → Bool
is_expired now grace c = ltb (c.at + grace) now

unfoldable pub prune_claims : ℕ → ℕ → ℕ → List Claim → List Claim
unfolding sort_by
prune_claims now grace batch rows =
    let selected =
      map (λ c. c.key) (take batch (sort_by is_older (filter (is_expired now grace) rows))) in
    filter (λ c. not (contains selected c.key)) rows

-- maybePruneExpiredClaims, with the failure of its statement.
unfoldable pub maybe_prune_expired_claims :
    ℕ → Bool → NotifyDedupRepository → List Claim → NotifyDedupRepository × List Claim
unfolding claim_prune_slot prune_claims
maybe_prune_expired_claims now prune_fails r rows =
    let (r', won) = claim_prune_slot r now in
    if not won || prune_fails then (r', rows) else (
      r',
      prune_claims now (setting r.prune_grace dedup_prune_grace)
          (setting r.prune_batch dedup_prune_batch) rows,
    )

unfoldable pub run_claim : ClaimFault → Str → ℕ → ℕ → List Claim → List Claim × Option Bool
unfolding upsert_claim
run_claim answers key ttl now rows =
    let (rows', won) = upsert_claim key ttl now rows in (rows', some won)
run_claim fails key ttl now rows = (rows, none)
run_claim reply_lost key ttl now rows = ((upsert_claim key ttl now rows).0, none)

-- A call of ClaimDedup: the key and its lifetime, the times of the database and of the process, and
-- what fails.
pub record Call : Type 0 where
  pub key : Str
  pub ttl : ℕ
  pub db_now : ℕ
  pub now : ℕ
  pub fault : ClaimFault
  pub prune_fails : Bool

-- The answer, `none` for an error.
unfoldable pub claim_dedup :
    Call → NotifyDedupRepository → List Claim → NotifyDedupRepository × List Claim × Option Bool
unfolding run_claim maybe_prune_expired_claims
claim_dedup call r rows =
    let (rows', claimed) = run_claim call.fault call.key call.ttl call.db_now rows in
    let (r', rows'') = maybe_prune_expired_claims call.now call.prune_fails r rows' in
    (r', rows'', claimed)
