-- ===== src/AuditOutbox/Ledger.antt =====
-- Where an event is recorded, through any history of the outbox (identity/auditoutbox).
use terraform_suite_identity.Common.{
  In-append_left, branch-if, ℕ, Str, ◌==◌, contains, In, List, [], ◌∷◌, ◌++◌, ◌≡◌, ◌⊎◌, inl, inr,
  refl, sym, subst, Option, none, some, All,
}
use terraform_suite_identity.AuditOutbox.{
  Intent, Row, World, row_id, row_ids, dest_ids, OutboxError, fill, insert_row, enqueue,
}
use terraform_suite_identity.AuditOutbox.Relay.{
  Faults, RelayConfig, effective_batch, run_cycle, default_relay_max_batches, Event, enqueues,
  cycles, happen, history,
}
use terraform_suite_identity.AuditOutbox.Records.{
  Covered, IsLedger, Recorded, Keeps, Keeps-refl, Keeps-trans, row_ids-append,
}
use terraform_suite_identity.AuditOutbox.Delivery.{run_batches-Keeps}
use terraform_suite_identity.AuditOutbox.Pruning.{prune-Keeps}

run_cycle-Keeps :
    (cfg : RelayConfig) (fs : ℕ → Faults) (now : ℕ) (fails : Option ℕ) (w : World)
    → IsLedger w
    → Keeps w (run_cycle cfg fs now fails w)
unfolding run_cycle
run_cycle-Keeps cfg fs now fails w l =
    let first =
      run_batches-Keeps default_relay_max_batches fs now (effective_batch cfg.batch_size) w l in
    Keeps-trans w _ _ first (prune-Keeps cfg now fails _ first.ledger)

append-Covered :
    (ids : List Str) (rows : List Row) (r : Row)
    → Covered ids r
    → All (Covered ids) rows
    → All (Covered ids) (rows ++ r ∷ [])
append-Covered ids [] r c h = (c, tt)
append-Covered ids (x ∷ rows) r c (d, h) = (d, append-Covered ids rows r c h)

insert_row-Keeps :
    (w : World) (i : Intent) → IsLedger w → Keeps w (record w { rows = (insert_row w.rows i).0 })
unfolding insert_row
insert_row-Keeps w i l =
    branch-if (λ (x : List Row × Option OutboxError). Keeps w (record w { rows = x.0 }))
      (contains (row_ids w.rows) i.event_id) _ _ (Keeps-refl w l)
      (record {
        ledger = append-Covered (dest_ids w.dest) w.rows _ (inl refl) l;
        dest = λ id h. h;
        rows = λ id h. inl (
            subst (In id) (sym (row_ids-append w.rows _))
              (In-append_left id (row_ids w.rows) (i.event_id ∷ []) h));
      })

pub enqueue-Keeps :
    (w : World) (uuid : Str) (now : ℕ) (i : Option Intent)
    → IsLedger w
    → Keeps w (record w { rows = (enqueue w.rows uuid now i).0 })
unfolding enqueue
enqueue-Keeps w uuid now none l = Keeps-refl w l
enqueue-Keeps w uuid now (some i) l =
    branch-if (λ (x : List Row × Option OutboxError). Keeps w (record w { rows = x.0 }))
      (i.action == []) _ _ (Keeps-refl w l) (insert_row-Keeps w (fill uuid now i) l)

happen-Keeps : (w : World) (e : Event) → IsLedger w → Keeps w (happen w e)
unfolding happen
happen-Keeps w (enqueues uuid now i committed) l =
    branch-if (Keeps w) committed _ _ (enqueue-Keeps w uuid now i l) (Keeps-refl w l)
happen-Keeps w (cycles cfg fs now fails) l = run_cycle-Keeps cfg fs now fails w l

history-Keeps : (w : World) (events : List Event) → IsLedger w → Keeps w (history w events)
unfolding history
history-Keeps w [] l = Keeps-refl w l
history-Keeps w (e ∷ events) l =
    let step = happen-Keeps w e l in
    Keeps-trans w (happen w e) _ step (history-Keeps (happen w e) events step.ledger)

pub Recorded-row :
    (ids : List Str) (rows : List Row) (id : Str)
    → All (Covered ids) rows
    → In id (row_ids rows)
    → ((r : Row) × In r rows × (row_id r ≡ id) × (r.delivered_at ≡ none)) ⊎ In id ids
Recorded-row ids [] id c h = elim h [ ]
Recorded-row ids (r ∷ rows) id (inl pending, c) (inl e) = inl (r, inl refl, e, pending)
Recorded-row ids (r ∷ rows) id (inr there, c) (inl e) = inr (subst (λ x. In x ids) e there)
Recorded-row ids (r ∷ rows) id (d, c) (inr h) = elim (Recorded-row ids rows id c h) [
  | inl (x, here, same, pending) ↦ inl (x, inr here, same, pending)
  | inr there ↦ inr there
]

-- No event is lost. Take a ledger, where every delivered row's event is in the destination, and
-- whatever follows: mutations that commit or roll back, and relay cycles in which any statement,
-- delivery, shipment, commit or its reply fails, with pruning in between. It ends in a ledger again,
-- and an event that had a row, or was in the destination, is in a row that is still undelivered or
-- in the destination.
pub no_event_lost :
    (w : World) (events : List Event) (id : Str)
    → IsLedger w
    → In id (row_ids w.rows) ⊎ In id (dest_ids w.dest)
    → IsLedger (history w events) × Recorded id (history w events)
no_event_lost w events id l h =
    let k = history-Keeps w events l in
    (
      k.ledger,
      elim h [
        | inl row ↦ elim (k.rows id row) [
          | inl there ↦
              Recorded-row (dest_ids (history w events).dest) (history w events).rows id k.ledger
                there
          | inr there ↦ inr there
        ]
        | inr there ↦ inr (k.dest id there)
      ],
    )
