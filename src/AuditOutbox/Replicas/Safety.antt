-- ===== src/AuditOutbox/Replicas/Safety.antt =====
-- Relays of several replicas in any interleaving (identity/auditoutbox).
use terraform_suite_identity.Common.{
  ℕ, suc, zero, ◌<◌, ◌≤◌, Str, In, List, [], ◌∷◌, none, All, ◌≡◌, ◌⊎◌, inl, inr, refl, arith,
}
use terraform_suite_identity.AuditOutbox.{Row, World, row_id, row_ids, dest_ids}
use terraform_suite_identity.AuditOutbox.Relay.{deliver}
use terraform_suite_identity.AuditOutbox.Records.{IsLedger, Recorded}
use terraform_suite_identity.AuditOutbox.Ledger.{Recorded-row}
use terraform_suite_identity.AuditOutbox.Redelivery.{Once, deliver-IsUnique, after_sink-Once}
use terraform_suite_identity.AuditOutbox.Replicas.{
  Batch, System, held_count, turn, Step, mutates, claims, delivers_next, commits_batch, stops,
  prunes, Reach, here, next,
}
use terraform_suite_identity.AuditOutbox.Replicas.Keys.{IsKeyed}
use terraform_suite_identity.AuditOutbox.Replicas.Interleaving.{Reach-Follows}
use terraform_suite_identity.AuditOutbox.Replicas.Coherence.{IsCoherent}

-- No transaction is open.
abbrev pub idle : World → System
idle w = record { world = w; batches = [] }

idle-IsCoherent : (w : World) → IsLedger w → IsKeyed w.rows → IsCoherent (idle w)
unfolding held_count
idle-IsCoherent w l k = record {
  ledger = l;
  views = λ b h. elim h [ ];
  keyed = k;
  apart = λ id. omega arith;
  pending = λ r h held. elim held [ ];
}

Step-Once : {s t : System} → Step s t → Once s.world → Once t.world
unfolding turn
Step-Once (mutates s uuid now i) u = u
Step-Once (claims s n) u = u
Step-Once (delivers_next s f now pre post b r rest e todo) u =
    let own : World = record s.world { rows = b.rows } in
    let d = deliver s.world.dest r.intent (f.sink (row_id r)) in
    after_sink-Once f now r own d (deliver-IsUnique s.world.dest r.intent (f.sink (row_id r)) u)
Step-Once (commits_batch s pre post b e done) u = u
Step-Once (stops s pre post b e) u = u
Step-Once (prunes s before n) u = u

Reach-Once : {s t : System} → Reach s t → Once s.world → Once t.world
Reach-Once here u = u
Reach-Once (next r st) u = Step-Once st (Reach-Once r u)

-- What is locked is not delivered.
abbrev pub LocksPending : System → Type 0
LocksPending s =
    All (λ r. (held_count (row_id r) s.batches ≡ 0) ⊎ (r.delivered_at ≡ none)) s.world.rows

locks_pending :
    (bs : List Batch) (rows : List Row)
    → ((r : Row) → In r rows → 0 < held_count (row_id r) bs → r.delivered_at ≡ none)
    → All (λ r. (held_count (row_id r) bs ≡ 0) ⊎ (r.delivered_at ≡ none)) rows
locks_pending bs [] p = tt
locks_pending bs (r ∷ rows) p = (
  by_count (held_count (row_id r) bs) (p r (inl refl)),
  locks_pending bs rows (λ x h. p x (inr h)),
)
  where
    by_count :
        (n : ℕ) → (0 < n → r.delivered_at ≡ none) → (◌≡◌ {A = ℕ} n 0) ⊎ (r.delivered_at ≡ none)
    by_count zero q = inl refl
    by_count (suc n) q = inr (q (omega arith))

-- The relays of any number of replicas may run at once. Take a ledger with its key and each event once
-- in the destination, and then any interleaving of mutations, claims, deliveries of one intent each with
-- any failures, commits, rollbacks or crashes, and prunes. The table is a ledger again; an event whose
-- row was there at any time is in a row that is still undelivered, or in the destination, and one
-- transaction at most holds it; the destination holds each event once; and a locked row is not
-- delivered.
pub replicas_safe :
    (w : World) {s t : System} (id : Str)
    → IsLedger w
    → IsKeyed w.rows
    → Once w
    → Reach (idle w) s
    → Reach s t
    → In id (row_ids s.world.rows)
    → IsLedger t.world
      × Recorded id t.world
      × Once t.world
      × (held_count id t.batches ≤ 1)
      × LocksPending t
replicas_safe w {s} {t} id l k u before after h =
    let (cs, _) = Reach-Follows (idle-IsCoherent w l k) before in
    let (c, kept) = Reach-Follows cs after in
    (
      c.ledger,
      elim (kept.rows id h) [
        | inl there ↦ Recorded-row (dest_ids t.world.dest) t.world.rows id c.ledger there
        | inr there ↦ inr there
      ],
      Reach-Once after (Reach-Once before u),
      c.apart id,
      locks_pending t.batches t.world.rows c.pending,
    )
