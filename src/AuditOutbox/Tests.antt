-- ===== src/AuditOutbox/Tests.antt =====
-- The audit outbox: tests, and the theorems at concrete inputs.
use terraform_suite_identity.Common.{
  count_if, ne_of_test, eq_iff, arith, filter, sort_by, insert_by, take, ℕ, pos, Str, lit, ◌==◌,
  contains, List, [], ◌∷◌, length, ◌≡◌, inl, inr, refl, true, false, none, some, if◌then◌else◌,
}
use terraform_suite_identity.AuditOutbox.{
  Intent, Row, World, claim, mark_delivered, record_failure, mark_row, fail_row, older, is_pending,
}
use terraform_suite_identity.AuditOutbox.Relay.{
  commits, rolls_back, delivers, fails_after, Faults, deliver_batch, deliver, deliver_named,
  deliver_intents, after_sink, settle, deliver_claimed, ship, insert_dest, RelayConfig, Event,
  enqueues, cycles, history,
}
use terraform_suite_identity.AuditOutbox.Records.{IsLedger, Recorded}
use terraform_suite_identity.AuditOutbox.Ledger.{no_event_lost}
use terraform_suite_identity.AuditOutbox.Batch.{taken, IsSound}
use terraform_suite_identity.AuditOutbox.Turns.{rows_after, dest_after}
use terraform_suite_identity.AuditOutbox.Isolation.{failure_isolated}
use terraform_suite_identity.AuditOutbox.Replicas.Keys.{IsKeyed}

abbrev pub granted : Str → ℕ → Intent
granted id t = record {
  event_id = id;
  occurred_at = t;
  action = lit "platform_admin.granted";
  actor_user_id = some (lit "u1");
  actor_email = none;
  organization_id = none;
  resource_type = some (lit "user");
  resource_id = some (lit "u2");
  ip_address = none;
  metadata = none;
}

abbrev pub waiting : Str → ℕ → Row
waiting id t = record {
  intent = granted id t;
  delivered_at = none;
  attempts = 0;
  last_error = none;
}

abbrev pub two_waiting : World
two_waiting = record {
  rows = waiting (lit "e2") 20 ∷ waiting (lit "e1") 10 ∷ [];
  dest = [];
  shipped = [];
}

-- The sink writes the first event and reports an error for it; nothing else fails.
abbrev pub one_poisoned : Faults
one_poisoned = record {
  begin_fails = none;
  claim_fails = none;
  locked = λ id. false;
  sink = λ id. if id == lit "e1" then fails_after 7 else delivers;
  ships = λ id. true;
  mark_fails = λ id. none;
  record_fails = λ id. none;
  commit = commits;
}

abbrev crashes : Faults
crashes = record one_poisoned { commit = rolls_back 9 }

poisoned_retained :
    (deliver_batch one_poisoned 30 100 two_waiting).0.rows
    ≡ record {
      intent = granted (lit "e2") 20;
      delivered_at = some 30;
      attempts = 1;
      last_error = none;
    }
      ∷ record {
        intent = granted (lit "e1") 10;
        delivered_at = none;
        attempts = 1;
        last_error = some 7;
      }
      ∷ []
unfolding deliver_batch deliver_claimed settle deliver_intents after_sink ship deliver deliver_named
    insert_dest mark_delivered mark_row record_failure fail_row claim filter sort_by insert_by take
    older is_pending contains ◌==◌
poisoned_retained = refl

abbrev relay : RelayConfig
relay = record { batch_size = pos 0; retain_delivered = pos 5 }

abbrev events : List Event
events =
    enqueues (lit "e3") 25 (some (granted [] 0)) true
    ∷ cycles relay (λ n. crashes) 30 none
    ∷ cycles relay (λ n. one_poisoned) 40 none
    ∷ []

no_event_lost_example :
    IsLedger (history two_waiting events) × Recorded (lit "e1") (history two_waiting events)
no_event_lost_example =
    no_event_lost two_waiting events (lit "e1") (inl refl, (inl refl, tt)) (inl (inr (inl refl)))

one_poisoned-IsSound : IsSound one_poisoned
one_poisoned-IsSound = record {
  begins = refl;
  claims = refl;
  marks = λ id. refl;
  records = λ id. refl;
  commits_it = refl;
}

two_waiting-IsKeyed : IsKeyed two_waiting.rows
unfolding count_if ◌==◌
two_waiting-IsKeyed id =
    let apart = ne_of_test (lit "e2") (lit "e1") refl in
    ground (arith, apart, eq_iff (lit "e2") id, eq_iff (lit "e1") id)

failure_isolated_example :
    let claimed = claim one_poisoned.locked 100 two_waiting.rows in
    let (w', outcome) = deliver_batch one_poisoned 30 100 two_waiting in
    (outcome ≡ record {
      claimed = length claimed;
      delivered = taken one_poisoned.sink claimed;
      error = none;
    })
    × (w'.rows ≡ rows_after one_poisoned.sink 30 claimed two_waiting.rows)
    × (w'.dest ≡ dest_after one_poisoned.sink claimed two_waiting.dest)
unfolding ◌==◌
failure_isolated_example =
    failure_isolated one_poisoned 30 100 two_waiting one_poisoned-IsSound two_waiting-IsKeyed
