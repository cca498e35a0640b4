-- ===== src/AuditOutbox/Turns.antt =====
-- What one turn of the loop of `DeliverBatch` leaves in the tables (identity/auditoutbox/relay.go and sink.go).
use terraform_suite_identity.Common.{
  ℕ, ◌+◌, Str, ◌==◌, eq_iff, contains, List, [], ◌∷◌, ◌++◌, map, filter, ◌≡◌, inl, inr, refl, sym,
  ap, subst, ◌∙◌, Bool, false, not, ◌&&◌, Bool-cases, Option, none, some, arith, if◌then◌else◌,
}
use terraform_suite_identity.AuditOutbox.{
  Intent, Row, World, row_id, row_ids, dest_ids, mark_row, mark_delivered, fail_row, record_failure,
}
use terraform_suite_identity.AuditOutbox.Relay.{
  SinkOutcome, delivers, fails_before, fails_after, Faults, insert_dest, deliver_named, deliver,
  after_sink,
}
use terraform_suite_identity.AuditOutbox.Delivery.{ship-rows}
use terraform_suite_identity.AuditOutbox.Batch.{IsSound, branch-none}

-- The error of a delivery: 0 is that of an incomplete intent.
abbrev pub refusal : Str → SinkOutcome → Option ℕ
refusal id delivers = if id == [] then some 0 else none
refusal id (fails_before e) = if id == [] then some 0 else some e
refusal id (fails_after e) = if id == [] then some 0 else some e

-- A delivery that writes to the destination, whether it then fails or not.
abbrev pub reaches : Str → SinkOutcome → Bool
reaches id delivers = not (id == [])
reaches id (fails_before e) = false
reaches id (fails_after e) = not (id == [])

abbrev pub resolved : ℕ → Row → Option ℕ → Row
resolved now r none = record r {
  delivered_at = some now;
  attempts = r.attempts + 1;
  last_error = none;
}
resolved now r (some e) = record r { attempts = r.attempts + 1; last_error = some e }

-- A row after one attempt at its delivery.
abbrev pub attempted : (Str → SinkOutcome) → ℕ → Row → Row
attempted sink now r = resolved now r (refusal (row_id r) (sink (row_id r)))

-- The table after one attempt at each of these rows.
abbrev pub rows_after : (Str → SinkOutcome) → ℕ → List Row → List Row → List Row
rows_after sink now claimed rows =
    map (λ r. if contains (row_ids claimed) (row_id r) then attempted sink now r else r) rows

-- The destination after them: the intents that reach it and that it did not have, in their order.
abbrev pub dest_after : (Str → SinkOutcome) → List Row → List Intent → List Intent
dest_after sink claimed dest =
    dest
    ++ map (λ (r : Row). r.intent)
        (filter
          (λ r. reaches (row_id r) (sink (row_id r)) && not (contains (dest_ids dest) (row_id r)))
          claimed)

abbrev pub touched : (Str → SinkOutcome) → ℕ → Str → Row → Row
touched sink now id r = if row_id r == id then attempted sink now r else r

pub resolved-id : (now : ℕ) (r : Row) (o : Option ℕ) → row_id (resolved now r o) ≡ row_id r
resolved-id now r none = refl
resolved-id now r (some e) = refl

mark_row-touched :
    (sink : Str → SinkOutcome) (now : ℕ) (id : Str) (r : Row)
    → refusal id (sink id) ≡ none
    → mark_row now id r ≡ touched sink now id r
unfolding mark_row
mark_row-touched sink now id r h = elim (Bool-cases (row_id r == id)) [
  | inl same ↦
      let own : refusal (row_id r) (sink (row_id r)) ≡ none =
        subst (λ i. refusal i (sink i) ≡ none) (sym ((eq_iff (row_id r) id).0 same)) h in
      rw (same, own) refl
  | inr other ↦ rw other refl
]

fail_row-touched :
    (sink : Str → SinkOutcome) (now : ℕ) (id : Str) (cause : ℕ) (r : Row)
    → refusal id (sink id) ≡ some cause
    → fail_row id cause r ≡ touched sink now id r
unfolding fail_row
fail_row-touched sink now id cause r h = elim (Bool-cases (row_id r == id)) [
  | inl same ↦
      let own : refusal (row_id r) (sink (row_id r)) ≡ some cause =
        subst (λ i. refusal i (sink i) ≡ some cause) (sym ((eq_iff (row_id r) id).0 same)) h in
      rw (same, own) refl
  | inr other ↦ rw other refl
]

mark-touched :
    (sink : Str → SinkOutcome) (now : ℕ) (id : Str) (rows : List Row)
    → refusal id (sink id) ≡ none
    → mark_delivered now id rows ≡ map (touched sink now id) rows
unfolding mark_delivered
mark-touched sink now id [] h = refl
mark-touched sink now id (r ∷ rows) h =
    cc (mark_row-touched sink now id r h, mark-touched sink now id rows h)

fail-touched :
    (sink : Str → SinkOutcome) (now : ℕ) (id : Str) (cause : ℕ) (rows : List Row)
    → refusal id (sink id) ≡ some cause
    → record_failure id cause rows ≡ map (touched sink now id) rows
unfolding record_failure
fail-touched sink now id cause [] h = refl
fail-touched sink now id cause (r ∷ rows) h =
    cc (fail_row-touched sink now id cause r h, fail-touched sink now id cause rows h)

pub deliver-refusal :
    (dest : List Intent) (i : Intent) (o : SinkOutcome)
    → (deliver dest i o).1 ≡ refusal i.event_id o
unfolding deliver deliver_named
deliver-refusal dest i delivers = ground arith
deliver-refusal dest i (fails_before e) = ground arith
deliver-refusal dest i (fails_after e) = ground arith

-- The destination after one delivery.
abbrev pub dest_next : List Intent → Intent → SinkOutcome → List Intent
dest_next dest i o =
    if reaches i.event_id o && not (contains (dest_ids dest) i.event_id)
    then dest ++ i ∷ []
    else dest

pub deliver-dest :
    (dest : List Intent) (i : Intent) (o : SinkOutcome) → (deliver dest i o).0 ≡ dest_next dest i o
unfolding deliver deliver_named insert_dest
deliver-dest dest i delivers = ground arith
deliver-dest dest i (fails_before e) = ground arith
deliver-dest dest i (fails_after e) = ground arith

pub after_sink-tables :
    (f : Faults) (now : ℕ) (r : Row) (w : World) (d : List Intent × Option ℕ)
    → IsSound f
    → d.1 ≡ refusal (row_id r) (f.sink (row_id r))
    → ((after_sink f now r w d).0.rows ≡ map (touched f.sink now (row_id r)) w.rows)
      × ((after_sink f now r w d).0.dest ≡ d.0)
unfolding after_sink
after_sink-tables f now r w (dest, some cause) s h =
    branch-none
      (λ (x : World × Bool × Option ℕ).
        (x.0.rows ≡ map (touched f.sink now (row_id r)) w.rows) × (x.0.dest ≡ dest))
      (f.record_fails (row_id r)) _ _ (s.records (row_id r))
      (fail-touched f.sink now (row_id r) cause w.rows (sym h), refl)
after_sink-tables f now r w (dest, none) s h =
    let (rows, dests) = ship-rows (record w { dest = dest }) r.intent (f.ships (row_id r)) in
    branch-none
      (λ (x : World × Bool × Option ℕ).
        (x.0.rows ≡ map (touched f.sink now (row_id r)) w.rows) × (x.0.dest ≡ dest))
      (f.mark_fails (row_id r)) _ _ (s.marks (row_id r))
      (
        ap (mark_delivered now (row_id r)) rows ∙ mark-touched f.sink now (row_id r) w.rows (sym h),
        dests,
      )
