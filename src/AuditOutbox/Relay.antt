-- ===== src/AuditOutbox/Relay.antt =====
-- identity/auditoutbox: the relay (relay.go), and the destination's idempotent insert (sink.go).
use terraform_suite_identity.Common.{
  ℕ, zero, suc, ◌+◌, ◌-◌, ◌*◌, ℤ, pos, negsuc, Str, ◌==◌, contains, List, [], ◌∷◌, ◌++◌, length,
  Bool, true, false, Option, none, some, ltb, if◌then◌else◌,
}
use terraform_suite_identity.AuditOutbox.{
  Intent, Row, World, row_id, dest_ids, enqueue, claim, mark_delivered, record_failure,
  prune_delivered,
}
pub use terraform_suite_identity.Common.{CommitOutcome, commits, rolls_back, reply_lost}

-- What a delivery comes to: an error may also come after the row was written.
pub data SinkOutcome : Type 0 where
  delivers : SinkOutcome
  fails_before fails_after : ℕ → SinkOutcome

-- What the surroundings do in one batch.
pub record Faults : Type 0 where
  pub begin_fails : Option ℕ
  pub claim_fails : Option ℕ
  pub locked : Str → Bool
  pub sink : Str → SinkOutcome
  pub ships : Str → Bool
  pub mark_fails : Str → Option ℕ
  pub record_fails : Str → Option ℕ
  pub commit : CommitOutcome

-- ON CONFLICT (id) DO NOTHING
unfoldable pub insert_dest : List Intent → Intent → List Intent
insert_dest dest i = if contains (dest_ids dest) i.event_id then dest else dest ++ i ∷ []

-- The rest of `Deliver` once the event has an id.
unfoldable pub deliver_named : List Intent → Intent → SinkOutcome → List Intent × Option ℕ
deliver_named dest i delivers = (insert_dest dest i, none)
deliver_named dest i (fails_before e) = (dest, some e)
deliver_named dest i (fails_after e) = (insert_dest dest i, some e)

-- `Deliver` of the table sink: the destination, and the error; 0 is that of an incomplete intent.
unfoldable pub deliver : List Intent → Intent → SinkOutcome → List Intent × Option ℕ
unfolding deliver_named
deliver dest i o = if i.event_id == [] then (dest, some 0) else deliver_named dest i o

-- `ship`, for a shipper that accepts the entry or not.
unfoldable pub ship : World → Intent → Bool → World
ship w i accepts = if accepts then record w { shipped = w.shipped ++ i ∷ [] } else w

-- The end of one turn of the loop, from the sink's answer: the world, whether the intent counts as
-- delivered, and the error that ends the loop.
unfoldable pub after_sink :
    Faults → ℕ → Row → World → List Intent × Option ℕ → World × Bool × Option ℕ
unfolding ship
after_sink f now r w (dest, some cause) = elim (f.record_fails (row_id r)) [
  | some e ↦ (record w { dest = dest }, false, some e)
  | none ↦ (record w { dest = dest; rows = record_failure (row_id r) cause w.rows }, false, none)
]
after_sink f now r w (dest, none) =
    let sent = ship (record w { dest = dest }) r.intent (f.ships (row_id r)) in
    elim (f.mark_fails (row_id r)) [
      | some e ↦ (sent, false, some e)
      | none ↦ (record sent { rows = mark_delivered now (row_id r) sent.rows }, true, none)
    ]

-- The loop of `DeliverBatch`, with the number delivered so far.
unfoldable pub deliver_intents : Faults → ℕ → List Row → World → ℕ → World × ℕ × Option ℕ
unfolding after_sink
deliver_intents f now [] w delivered = (w, delivered, none)
deliver_intents f now (r ∷ claimed) w delivered =
    let (w', counts, error) = after_sink f now r w (deliver w.dest r.intent (f.sink (row_id r))) in
    elim error [
      | some e ↦ (w', delivered, some e)
      | none ↦ deliver_intents f now claimed w' (if counts then delivered + 1 else delivered)
    ]

pub record Outcome : Type 0 where
  pub claimed : ℕ
  pub delivered : ℕ
  pub error : Option ℕ

-- The commit, or the rollback to these rows; a commit whose reply is lost has happened.
unfoldable pub settle : List Row → ℕ → CommitOutcome → World × ℕ × Option ℕ → World × Outcome
settle rows claimed _ (w, delivered, some e) =
    (record w { rows = rows }, record { claimed = claimed; delivered = 0; error = some e })
settle rows claimed commits (w, delivered, none) =
    (w, record { claimed = claimed; delivered = delivered; error = none })
settle rows claimed (rolls_back e) (w, delivered, none) =
    (record w { rows = rows }, record { claimed = claimed; delivered = 0; error = some e })
settle rows claimed (reply_lost e) (w, delivered, none) =
    (w, record { claimed = claimed; delivered = 0; error = some e })

unfoldable pub commit_error : CommitOutcome → Option ℕ
commit_error commits = none
commit_error (rolls_back e) = some e
commit_error (reply_lost e) = some e

-- `DeliverBatch` once it has claimed these rows.
unfoldable pub deliver_claimed : Faults → ℕ → List Row → World → World × Outcome
unfolding settle commit_error
deliver_claimed f now [] w =
    (w, record { claimed = 0; delivered = 0; error = commit_error f.commit })
deliver_claimed f now (r ∷ claimed) w =
    settle w.rows (length (r ∷ claimed)) f.commit (deliver_intents f now (r ∷ claimed) w 0)

-- `DeliverBatch`, for an outbox and a sink that are there.
unfoldable pub deliver_batch : Faults → ℕ → ℕ → World → World × Outcome
unfolding deliver_claimed
deliver_batch f now batch w = elim f.begin_fails [
  | some e ↦ (w, record { claimed = 0; delivered = 0; error = some e })
  | none ↦ elim f.claim_fails [
    | some e ↦ (w, record { claimed = 0; delivered = 0; error = some e })
    | none ↦ deliver_claimed f now (claim f.locked batch w.rows) w
  ]
]

-- The loop of `RunCycle`, on the number of batches that are left.
unfoldable pub run_batches : ℕ → (ℕ → Faults) → ℕ → ℕ → World → World
run_batches zero fs now batch w = w
run_batches (suc n) fs now batch w =
    let (w', outcome) = deliver_batch (fs n) now batch w in
    let rest = run_batches n fs now batch w' in
    elim outcome.error [ some e ↦ w' | none ↦ if ltb outcome.claimed batch then w' else rest ]

abbrev pub default_relay_batch_size : ℕ
default_relay_batch_size = 100

abbrev pub default_relay_max_batches : ℕ
default_relay_max_batches = 10

abbrev pub default_relay_delivered_retain : ℕ
default_relay_delivered_retain = 604800000000000

pub record RelayConfig : Type 0 where
  pub batch_size : ℤ
  pub retain_delivered : ℤ

-- `batchSize()`
unfoldable pub effective_batch : ℤ → ℕ
effective_batch (pos zero) = default_relay_batch_size
effective_batch (pos (suc n)) = suc n
effective_batch (negsuc n) = default_relay_batch_size

-- `retainDelivered()`; `none` is a negative one, which disables pruning.
unfoldable pub effective_retain : ℤ → Option ℕ
effective_retain (pos zero) = some default_relay_delivered_retain
effective_retain (pos (suc n)) = some (suc n)
effective_retain (negsuc n) = none

-- `prune`; the last argument is the error of the statement.
unfoldable pub prune : RelayConfig → ℕ → Option ℕ → World → World
unfolding effective_retain effective_batch
prune cfg now (some e) w = w
prune cfg now none w = elim (effective_retain cfg.retain_delivered) [
  | none ↦ w
  | some retain ↦ record w {
    rows =
        prune_delivered (now - retain) (effective_batch cfg.batch_size * default_relay_max_batches)
          w.rows;
  }
]

-- `RunCycle`; reporting the backlog changes nothing.
unfoldable pub run_cycle : RelayConfig → (ℕ → Faults) → ℕ → Option ℕ → World → World
run_cycle cfg fs now prune_fails w =
    prune cfg now prune_fails
      (run_batches default_relay_max_batches fs now (effective_batch cfg.batch_size) w)

-- What happens to the outbox: a mutation's transaction commits with its intent or rolls back with
-- it, and a relay runs a cycle.
pub data Event : Type 0 where
  enqueues : Str → ℕ → Option Intent → Bool → Event
  cycles : RelayConfig → (ℕ → Faults) → ℕ → Option ℕ → Event

unfoldable pub happen : World → Event → World
happen w (enqueues uuid now i committed) =
    if committed then record w { rows = (enqueue w.rows uuid now i).0 } else w
happen w (cycles cfg fs now prune_fails) = run_cycle cfg fs now prune_fails w

unfoldable pub history : World → List Event → World
history w [] = w
history w (e ∷ events) = history (happen w e) events
