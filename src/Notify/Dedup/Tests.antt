-- ===== src/Notify/Dedup/Tests.antt =====
-- Claims on keys (identity/store/notify_dedup_repository.go) by two replicas.
use terraform_suite_identity.Common.{
  ℕ, ◌+◌, ◌*◌, ◌==◌, Str, lit, List, [], ◌∷◌, contains, filter, take, false, ◌≡◌, refl, arith,
}
use terraform_suite_identity.Notify.Dedup.{
  has_key, any_stale, upsert_claim, NotifyDedupRepository, new_notify_dedup_repository,
  claim_prune_slot, prune_claims, answers, Call, claim_dedup,
}
use terraform_suite_identity.Notify.Dedup.Spaced.{wins, Spaced, wins-Spaced}

abbrev alert : Str
alert = lit "scan"

abbrev hour : ℕ
hour = 3600000000000

abbrev at_time : ℕ → Call
at_time t = record {
  key = alert;
  ttl = hour;
  db_now = t;
  now = t;
  fault = answers;
  prune_fails = false;
}

-- The second call is another replica's, within the hour; the third comes after it.
abbrev calls : List (NotifyDedupRepository × Call)
calls =
    (new_notify_dedup_repository, at_time (2 * hour))
    ∷ (new_notify_dedup_repository, at_time (2 * hour + 1))
    ∷ (new_notify_dedup_repository, at_time (3 * hour + 1))
    ∷ []

won_twice : wins alert hour calls [] ≡ 2 * hour ∷ (3 * hour + 1) ∷ []
unfolding wins claim_dedup upsert_claim ◌==◌ has_key any_stale claim_prune_slot prune_claims filter
    contains take
won_twice = refl

wins-Spaced_example : Spaced alert hour (wins alert hour calls [])
unfolding has_key
wins-Spaced_example = wins-Spaced alert hour (2 * hour) calls [] (omega arith) refl (
  (omega arith, (λ e. refl), omega arith),
  ((omega arith, (λ e. refl), omega arith), ((omega arith, (λ e. refl), omega arith), tt)),
)
