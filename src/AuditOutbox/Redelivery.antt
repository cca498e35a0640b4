-- ===== src/AuditOutbox/Redelivery.antt =====
-- How often an event stands in the destination (identity/auditoutbox/relay.go and sink.go).
use terraform_suite_identity.Common.{
  branch, branch-if, ℕ, zero, suc, ◌+◌, Str, ◌==◌, contains, contains_iff, In, List, [], ◌∷◌, ◌++◌,
  length, ◌≢◌, inl, inr, sym, subst, Bool, Option, none, some, ltb, Bool-cases, if◌then◌else◌,
}
use terraform_suite_identity.AuditOutbox.{Intent, Row, World, row_id, dest_ids, claim}
use terraform_suite_identity.AuditOutbox.Relay.{
  CommitOutcome, commits, rolls_back, reply_lost, SinkOutcome, delivers, fails_before, fails_after,
  Faults, insert_dest, deliver, deliver_named, after_sink, deliver_intents, Outcome, settle,
  deliver_claimed, deliver_batch, run_batches, default_relay_max_batches, RelayConfig,
  effective_batch, effective_retain, prune, run_cycle, Event, enqueues, cycles, happen, history,
}
use terraform_suite_identity.AuditOutbox.Records.{dest_ids-append}
use terraform_suite_identity.AuditOutbox.Delivery.{ship-rows}

-- Each string stands once.
abbrev pub IsUnique : List Str → Type 0
IsUnique [] = Unit
IsUnique (x ∷ xs) = (In x xs → ⊥) × IsUnique xs

-- The destination of a world holds each event once.
abbrev pub Once : World → Type 0
Once w = IsUnique (dest_ids w.dest)

In-append : (x y : Str) (xs : List Str) → In x (xs ++ y ∷ []) → x ≢ y → In x xs
In-append x y [] (inl h) ne = absurd (ne (sym h))
In-append x y [] (inr h) ne = elim h [ ]
In-append x y (z ∷ xs) (inl h) ne = inl h
In-append x y (z ∷ xs) (inr h) ne = inr (In-append x y xs h ne)

append-IsUnique : (xs : List Str) (y : Str) → IsUnique xs → (In y xs → ⊥) → IsUnique (xs ++ y ∷ [])
append-IsUnique [] y u ne = (λ h. h, tt)
append-IsUnique (x ∷ xs) y (fresh, u) ne =
    (λ h. fresh (In-append x y xs h (λ e. ne (inl e))), append-IsUnique xs y u (λ h. ne (inr h)))

insert_dest-IsUnique :
    (d : List Intent) (i : Intent) → IsUnique (dest_ids d) → IsUnique (dest_ids (insert_dest d i))
unfolding insert_dest
insert_dest-IsUnique d i u = elim (Bool-cases (contains (dest_ids d) i.event_id)) [
  | inl there ↦ rw there u
  | inr absent ↦ rw absent (
      subst IsUnique (sym (dest_ids-append d i)) (
        append-IsUnique (dest_ids d) i.event_id u
          (λ h. let there = (contains_iff (dest_ids d) i.event_id).1 h in cc (there, absent))))
]

deliver_named-IsUnique :
    (d : List Intent) (i : Intent) (o : SinkOutcome)
    → IsUnique (dest_ids d)
    → IsUnique (dest_ids (deliver_named d i o).0)
unfolding deliver_named
deliver_named-IsUnique d i delivers u = insert_dest-IsUnique d i u
deliver_named-IsUnique d i (fails_before e) u = u
deliver_named-IsUnique d i (fails_after e) u = insert_dest-IsUnique d i u

pub deliver-IsUnique :
    (d : List Intent) (i : Intent) (o : SinkOutcome)
    → IsUnique (dest_ids d)
    → IsUnique (dest_ids (deliver d i o).0)
unfolding deliver
deliver-IsUnique d i o u =
    branch-if (λ (x : List Intent × Option ℕ). IsUnique (dest_ids x.0)) (i.event_id == []) _ _ u
      (deliver_named-IsUnique d i o u)

pub after_sink-Once :
    (f : Faults) (now : ℕ) (r : Row) (w : World) (d : List Intent × Option ℕ)
    → IsUnique (dest_ids d.0)
    → Once (after_sink f now r w d).0
unfolding after_sink
after_sink-Once f now r w (dest, some cause) u =
    branch (λ (x : World × Bool × Option ℕ). Once x.0) (f.record_fails (row_id r)) _ _ (λ e. u) u
after_sink-Once f now r w (dest, none) u =
    let same = (ship-rows (record w { dest = dest }) r.intent (f.ships (row_id r))).1 in
    let kept = subst (λ (x : List Intent). IsUnique (dest_ids x)) (sym same) u in
    branch (λ (x : World × Bool × Option ℕ). Once x.0) (f.mark_fails (row_id r)) _ _ (λ e. kept)
      kept

deliver_intents-Once :
    (f : Faults) (now : ℕ) (claimed : List Row) (w : World) (n : ℕ)
    → Once w
    → Once (deliver_intents f now claimed w n).0
unfolding deliver_intents
deliver_intents-Once f now [] w n u = u
deliver_intents-Once f now (r ∷ claimed) w n u =
    let d = deliver w.dest r.intent (f.sink (row_id r)) in
    let turn = after_sink f now r w d in
    let step =
      after_sink-Once f now r w d (deliver-IsUnique w.dest r.intent (f.sink (row_id r)) u) in
    branch (λ (x : World × ℕ × Option ℕ). Once x.0) turn.2 _ _ (λ e. step)
      (deliver_intents-Once f now claimed turn.0 (if turn.1 then n + 1 else n) step)

settle-Once :
    (rows : List Row) (n : ℕ) (c : CommitOutcome) (r : World × ℕ × Option ℕ)
    → Once r.0
    → Once (settle rows n c r).0
unfolding settle
settle-Once rows n c (v, d, some e) u = u
settle-Once rows n commits (v, d, none) u = u
settle-Once rows n (rolls_back e) (v, d, none) u = u
settle-Once rows n (reply_lost e) (v, d, none) u = u

claimed-Once :
    (f : Faults) (now : ℕ) (c : List Row) (w : World) → Once w → Once (deliver_claimed f now c w).0
unfolding deliver_claimed
claimed-Once f now [] w u = u
claimed-Once f now (r ∷ c) w u =
    settle-Once w.rows (length (r ∷ c)) f.commit (deliver_intents f now (r ∷ c) w 0)
      (deliver_intents-Once f now (r ∷ c) w 0 u)

deliver_batch-Once :
    (f : Faults) (now batch : ℕ) (w : World) → Once w → Once (deliver_batch f now batch w).0
unfolding deliver_batch
deliver_batch-Once f now batch w u =
    let P = λ (x : World × Outcome). Once x.0 in
    branch P f.begin_fails _ _ (λ e. u)
      (branch P f.claim_fails _ _ (λ e. u) (claimed-Once f now (claim f.locked batch w.rows) w u))

run_batches-Once :
    (n : ℕ) (fs : ℕ → Faults) (now batch : ℕ) (w : World)
    → Once w
    → Once (run_batches n fs now batch w)
unfolding run_batches
run_batches-Once zero fs now batch w u = u
run_batches-Once (suc n) fs now batch w u =
    let turn = deliver_batch (fs n) now batch w in
    let step = deliver_batch-Once (fs n) now batch w u in
    branch Once turn.1.error _ _ (λ e. step)
      (branch-if Once (ltb turn.1.claimed batch) _ _ step
        (run_batches-Once n fs now batch turn.0 step))

prune-Once :
    (cfg : RelayConfig) (now : ℕ) (fails : Option ℕ) (w : World)
    → Once w
    → Once (prune cfg now fails w)
unfolding prune
prune-Once cfg now (some e) w u = u
prune-Once cfg now none w u =
    branch Once (effective_retain cfg.retain_delivered) _ _ (λ retain. u) u

happen-Once : (w : World) (e : Event) → Once w → Once (happen w e)
unfolding happen run_cycle
happen-Once w (enqueues uuid now i committed) u = branch-if Once committed _ _ u u
happen-Once w (cycles cfg fs now fails) u =
    prune-Once cfg now fails _
      (run_batches-Once default_relay_max_batches fs now (effective_batch cfg.batch_size) w u)

-- Exactly once in effect: whatever follows, mutations and relay cycles with any failures and any
-- redeliveries, the destination holds each event once if it did before.
delivered-Once : (w : World) (events : List Event) → Once w → Once (history w events)
unfolding history
delivered-Once w [] u = u
delivered-Once w (e ∷ events) u = delivered-Once (happen w e) events (happen-Once w e u)
