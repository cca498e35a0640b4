-- ===== src/AuditOutbox/Replicas/Tests.antt =====
-- The relays of two replicas at a concrete outbox.
use terraform_suite_identity.Common.{
  ◌≤◌, lit, ◌==◌, contains, count_if, filter, sort_by, insert_by, take, [], ◌∷◌, ◌≡◌, inl, refl,
  some, arith,
}
use terraform_suite_identity.AuditOutbox.{
  enqueue, fill, insert_row, claim, older, is_pending, mark_delivered,
}
use terraform_suite_identity.AuditOutbox.Relay.{
  Faults, delivers, deliver, deliver_named, insert_dest, after_sink, ship, deliver_batch,
}
use terraform_suite_identity.AuditOutbox.Records.{IsLedger, Recorded}
use terraform_suite_identity.AuditOutbox.Redelivery.{Once}
use terraform_suite_identity.AuditOutbox.Tests.{granted, waiting, two_waiting, one_poisoned}
use terraform_suite_identity.AuditOutbox.Replicas.{
  Batch, System, held_count, begin, put_back, turn, merge, claims, delivers_next, commits_batch,
  Reach, here, next,
}
use terraform_suite_identity.AuditOutbox.Replicas.Keys.{IsKeyed, enqueue-IsKeyed}
use terraform_suite_identity.AuditOutbox.Replicas.Safety.{idle, LocksPending, replicas_safe}
use terraform_suite_identity.AuditOutbox.Replicas.Alone.{BatchRun, deliver_batch-BatchRun}

abbrev sound : Faults
sound = record one_poisoned { sink = λ id. delivers }

two_waiting-IsKeyed : IsKeyed two_waiting.rows
unfolding enqueue fill insert_row contains ◌==◌ count_if
two_waiting-IsKeyed =
    enqueue-IsKeyed (waiting (lit "e2") 20 ∷ []) [] 0 (some (granted (lit "e1") 10))
      (enqueue-IsKeyed [] [] 0 (some (granted (lit "e2") 20)) (λ id. omega arith))

-- Each of two replicas claims one row: the second passes over the row of the first.
abbrev first : Batch
first = begin (idle two_waiting) 1

abbrev one_open : System
one_open = record { world = two_waiting; batches = first ∷ [] }

abbrev second : Batch
second = begin one_open 1

abbrev two_open : System
two_open = record { world = two_waiting; batches = second ∷ first ∷ [] }

first_claims : first.todo ≡ waiting (lit "e1") 10 ∷ []
unfolding begin claim filter sort_by insert_by take older is_pending held_count ◌==◌
first_claims = refl

second_claims : second.todo ≡ waiting (lit "e2") 20 ∷ []
unfolding begin claim filter sort_by insert_by take older is_pending held_count count_if ◌==◌
second_claims = refl

-- The first delivers and commits while the second is open.
abbrev delivered : System
delivered = record {
  world = (turn sound 30 (waiting (lit "e1") 10) [] two_waiting first).0;
  batches = second ∷ put_back (turn sound 30 (waiting (lit "e1") 10) [] two_waiting first).1 [];
}

abbrev marked : Batch
marked = record first { todo = []; rows = mark_delivered 30 (lit "e1") two_waiting.rows }

marked_left : delivered.batches ≡ second ∷ marked ∷ []
unfolding turn after_sink ship deliver deliver_named insert_dest contains ◌==◌ begin
marked_left = refl

abbrev committed : System
committed = record {
  world = record delivered.world { rows = merge first.held marked.rows delivered.world.rows };
  batches = second ∷ [];
}

overtaken : Reach (idle two_waiting) committed
overtaken =
    next
      (next (next (next here (claims (idle two_waiting) 1)) (claims one_open 1)) (
        delivers_next two_open sound 30 (second ∷ []) [] first (waiting (lit "e1") 10) [] refl
          first_claims))
      (commits_batch delivered (second ∷ []) [] marked marked_left refl)

replicas_safe_example :
    IsLedger committed.world
    × Recorded (lit "e2") committed.world
    × Once committed.world
    × (held_count (lit "e2") committed.batches ≤ 1)
    × LocksPending committed
replicas_safe_example =
    replicas_safe two_waiting (lit "e2") (inl refl, (inl refl, tt)) two_waiting-IsKeyed tt here
      overtaken (inl refl)

deliver_batch-BatchRun_example :
    let w' = (deliver_batch one_poisoned 30 100 two_waiting).0 in
    BatchRun one_poisoned 30 100 (idle two_waiting) (idle w') × Reach (idle two_waiting) (idle w')
deliver_batch-BatchRun_example =
    deliver_batch-BatchRun one_poisoned 30 100 two_waiting two_waiting-IsKeyed refl
