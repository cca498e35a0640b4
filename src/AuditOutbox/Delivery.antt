-- ===== src/AuditOutbox/Delivery.antt =====
-- `DeliverBatch` and the loop of `RunCycle` (identity/auditoutbox/relay.go), against the ledger.
use terraform_suite_identity.Common.{
  branch, branch-if, ℕ, zero, suc, ◌+◌, Str, In, List, [], ◌∷◌, length, ◌≡◌, inl, refl, sym, subst,
  Bool, true, false, Option, none, some, ltb, if◌then◌else◌,
}
use terraform_suite_identity.AuditOutbox.{Intent, Row, World, row_id, dest_ids, claim}
use terraform_suite_identity.AuditOutbox.Relay.{
  CommitOutcome, commits, rolls_back, reply_lost, Faults, deliver, ship, after_sink,
  deliver_intents, Outcome, settle, deliver_claimed, deliver_batch, run_batches,
}
use terraform_suite_identity.AuditOutbox.Records.{
  IsLedger, Keeps, Keeps-refl, Keeps-trans, deliver-In, deliver-there, row_ids-mark, row_ids-fail,
  Covered-mono, mark-Covered, fail-Covered,
}

pub ship-rows :
    (w : World) (i : Intent) (b : Bool)
    → ((ship w i b).rows ≡ w.rows) × ((ship w i b).dest ≡ w.dest)
unfolding ship
ship-rows w i true = (refl, refl)
ship-rows w i false = (refl, refl)

pub ship-Keeps : (w v : World) (i : Intent) (b : Bool) → Keeps w v → Keeps w (ship v i b)
unfolding ship
ship-Keeps w v i false k = k
ship-Keeps w v i true k = record { ledger = k.ledger; dest = k.dest; rows = k.rows }

pub after_sink-Keeps :
    (f : Faults) (now : ℕ) (r : Row) (w : World) (d : List Intent × Option ℕ)
    → IsLedger w
    → ((id : Str) → In id (dest_ids w.dest) → In id (dest_ids d.0))
    → (d.1 ≡ none → In (row_id r) (dest_ids d.0))
    → Keeps w (after_sink f now r w d).0
unfolding after_sink
after_sink-Keeps f now r w (dest, some cause) l grows there =
    let l' = Covered-mono (dest_ids w.dest) (dest_ids dest) w.rows grows l in
    branch (λ (x : World × Bool × Option ℕ). Keeps w x.0) (f.record_fails (row_id r)) _ _
      (λ e. record { ledger = l'; dest = grows; rows = λ id h. inl h })
      (record {
        ledger = fail-Covered (dest_ids dest) (row_id r) cause w.rows l';
        dest = grows;
        rows = λ id h. inl (subst (In id) (sym (row_ids-fail (row_id r) cause w.rows)) h);
      })
after_sink-Keeps f now r w (dest, none) l grows there =
    let sent = ship (record w { dest = dest }) r.intent (f.ships (row_id r)) in
    let l' = Covered-mono (dest_ids w.dest) (dest_ids dest) w.rows grows l in
    let same = ship-rows (record w { dest = dest }) r.intent (f.ships (row_id r)) in
    let sent-Keeps : Keeps w sent =
      ship-Keeps w (record w { dest = dest }) r.intent (f.ships (row_id r))
        (record { ledger = l'; dest = grows; rows = λ id h. inl h }) in
    branch (λ (x : World × Bool × Option ℕ). Keeps w x.0) (f.mark_fails (row_id r)) _ _
      (λ e. sent-Keeps)
      (Keeps-trans w sent _ sent-Keeps (record {
        ledger =
            mark-Covered (dest_ids sent.dest) now (row_id r) sent.rows
              (subst (λ (x : List Intent). In (row_id r) (dest_ids x)) (sym same.1) (there refl))
              sent-Keeps.ledger;
        dest = λ id h. h;
        rows = λ id h. inl (subst (In id) (sym (row_ids-mark now (row_id r) sent.rows)) h);
      }))

pub deliver_intents-Keeps :
    (f : Faults) (now : ℕ) (claimed : List Row) (w : World) (n : ℕ)
    → IsLedger w
    → Keeps w (deliver_intents f now claimed w n).0
unfolding deliver_intents
deliver_intents-Keeps f now [] w n l = Keeps-refl w l
deliver_intents-Keeps f now (r ∷ claimed) w n l =
    let d = deliver w.dest r.intent (f.sink (row_id r)) in
    let step =
      after_sink-Keeps f now r w d l (deliver-In w.dest r.intent (f.sink (row_id r)))
        (deliver-there w.dest r.intent (f.sink (row_id r))) in
    let turn = after_sink f now r w d in
    branch (λ (x : World × ℕ × Option ℕ). Keeps w x.0) turn.2 _ _ (λ e. step)
      (Keeps-trans w turn.0 _ step
        (deliver_intents-Keeps f now claimed turn.0 (if turn.1 then n + 1 else n) step.ledger))

-- A rollback takes the rows back, and leaves what the destination has.
pub back : (w v : World) → IsLedger w → Keeps w v → Keeps w (record v { rows = w.rows })
back w v l k = record {
  ledger = Covered-mono (dest_ids w.dest) (dest_ids v.dest) w.rows k.dest l;
  dest = k.dest;
  rows = λ id h. inl h;
}

pub settle-Keeps :
    (w : World) (n : ℕ) (c : CommitOutcome) (r : World × ℕ × Option ℕ)
    → IsLedger w
    → Keeps w r.0
    → Keeps w (settle w.rows n c r).0
unfolding settle
settle-Keeps w n c (v, d, some e) l k = back w v l k
settle-Keeps w n commits (v, d, none) l k = k
settle-Keeps w n (rolls_back e) (v, d, none) l k = back w v l k
settle-Keeps w n (reply_lost e) (v, d, none) l k = k

pub claimed-Keeps :
    (f : Faults) (now : ℕ) (c : List Row) (w : World)
    → IsLedger w
    → Keeps w (deliver_claimed f now c w).0
unfolding deliver_claimed
claimed-Keeps f now [] w l = Keeps-refl w l
claimed-Keeps f now (r ∷ c) w l =
    settle-Keeps w (length (r ∷ c)) f.commit (deliver_intents f now (r ∷ c) w 0) l
      (deliver_intents-Keeps f now (r ∷ c) w 0 l)

pub deliver_batch-Keeps :
    (f : Faults) (now batch : ℕ) (w : World) → IsLedger w → Keeps w (deliver_batch f now batch w).0
unfolding deliver_batch
deliver_batch-Keeps f now batch w l =
    let P = λ (x : World × Outcome). Keeps w x.0 in
    branch P f.begin_fails _ _ (λ e. Keeps-refl w l)
      (branch P f.claim_fails _ _ (λ e. Keeps-refl w l)
        (claimed-Keeps f now (claim f.locked batch w.rows) w l))

pub run_batches-Keeps :
    (n : ℕ) (fs : ℕ → Faults) (now batch : ℕ) (w : World)
    → IsLedger w
    → Keeps w (run_batches n fs now batch w)
unfolding run_batches
run_batches-Keeps zero fs now batch w l = Keeps-refl w l
run_batches-Keeps (suc n) fs now batch w l =
    let turn = deliver_batch (fs n) now batch w in
    let step = deliver_batch-Keeps (fs n) now batch w l in
    branch (Keeps w) turn.1.error _ _ (λ e. step)
      (branch-if (Keeps w) (ltb turn.1.claimed batch) _ _ step
        (Keeps-trans w turn.0 _ step (run_batches-Keeps n fs now batch turn.0 step.ledger)))
