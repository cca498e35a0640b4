-- ===== src/AuditOutbox/Replicas/Coherence.antt =====
-- What holds of the system between two steps; a mutation and a claim keep it.
use terraform_suite_identity.Common.{
  ℕ, ◌+◌, ◌<◌, ◌≤◌, Str, In, In-append, In-append_left, In-append_right, All, List, ◌∷◌, ◌++◌,
  Bool-cases, Option, none, ltb, ◌≡◌, inl, inr, subst, arith,
}
use terraform_suite_identity.AuditOutbox.{Intent, Row, row_id, row_ids, dest_ids, enqueue, claim}
use terraform_suite_identity.AuditOutbox.Records.{Covered, IsLedger, Keeps, Keeps-refl}
use terraform_suite_identity.AuditOutbox.Ledger.{enqueue-Keeps}
use terraform_suite_identity.AuditOutbox.Replicas.{Batch, System, held_count, is_held, begin}
use terraform_suite_identity.AuditOutbox.Replicas.Keys.{
  occurs, IsKeyed, one_row, enqueue-IsKeyed, enqueue-In, claim-In, claim-occurs, occurs-row,
}

-- The table is a ledger with a key, and so is what each transaction sees; no row is locked twice; and
-- a locked row is not delivered.
pub record IsCoherent (s : System) : Type 0 where
  pub ledger : IsLedger s.world
  pub views : (b : Batch) → In b s.batches → All (Covered (dest_ids s.world.dest)) b.rows
  pub keyed : IsKeyed s.world.rows
  pub apart : (id : Str) → held_count id s.batches ≤ 1
  pub pending :
      (r : Row) → In r s.world.rows → 0 < held_count (row_id r) s.batches → r.delivered_at ≡ none

-- What a step keeps.
abbrev pub Follows : System → System → Type 0
Follows s t = IsCoherent t × Keeps s.world t.world

pub In-without : (pre post : List Batch) (b c : Batch) → In c (pre ++ post) → In c (pre ++ b ∷ post)
In-without pre post b c h = elim (In-append c pre post h) [
  | inl early ↦ In-append_left c pre (b ∷ post) early
  | inr late ↦ In-append_right c pre (b ∷ post) (inr late)
]

pub mutates-Follows :
    (s : System) (uuid : Str) (now : ℕ) (i : Option Intent)
    → IsCoherent s
    → Follows s (record s { world = record s.world { rows = (enqueue s.world.rows uuid now i).0 } })
mutates-Follows s uuid now i c =
    let k = enqueue-Keeps s.world uuid now i c.ledger in
    (
      record {
        ledger = k.ledger;
        views = c.views;
        keyed = enqueue-IsKeyed s.world.rows uuid now i c.keyed;
        apart = c.apart;
        pending = λ r h held. elim (enqueue-In s.world.rows uuid now i r h) [
          | inl old ↦ c.pending r old held
          | inr new ↦ new
        ];
      },
      k,
    )

begin-holds :
    (s : System) (n : ℕ) (id : Str)
    → IsCoherent s
    → 0 < occurs id (begin s n).held
    → (r : Row) × In r s.world.rows
      × (row_id r ≡ id)
      × (r.delivered_at ≡ none)
      × (held_count id s.batches ≡ 0)
unfolding begin
begin-holds s n id c h =
    let (r, claimed, same) = occurs-row id (claim (is_held s.batches) n s.world.rows) h in
    let (there, undelivered, free) = claim-In (is_held s.batches) n s.world.rows r claimed in
    (
      r,
      there,
      same,
      undelivered,
      subst (λ x. held_count x s.batches ≡ 0) same (ground (arith, free)),
    )

begin-apart :
    (s : System) (n : ℕ) (id : Str)
    → IsCoherent s
    → occurs id (begin s n).held + held_count id s.batches ≤ 1
begin-apart s n id c = elim (Bool-cases (ltb 0 (occurs id (begin s n).held))) [
  | inl taken ↦
      let (r, there, same, undelivered, free) = begin-holds s n id c (ground (arith, taken)) in
      omega (arith, free, claimed, c.keyed id)
  | inr untaken ↦ let once = c.apart id in ground (arith, untaken, once)
]
  where
    claimed : occurs id (begin s n).held ≤ occurs id (row_ids s.world.rows)
    claimed = unfold begin in claim-occurs (is_held s.batches) n s.world.rows id

begin-pending :
    (s : System) (n : ℕ) (r : Row)
    → IsCoherent s
    → In r s.world.rows
    → 0 < occurs (row_id r) (begin s n).held + held_count (row_id r) s.batches
    → r.delivered_at ≡ none
begin-pending s n r c h held = elim (Bool-cases (ltb 0 (occurs (row_id r) (begin s n).held))) [
  | inl taken ↦
      let (x, there, same, undelivered, free) =
        begin-holds s n (row_id r) c (ground (arith, taken)) in
      subst (λ (y : Row). y.delivered_at ≡ none) (one_row s.world.rows r x c.keyed h there same)
        undelivered
  | inr untaken ↦ c.pending r h (ground (arith, untaken))
]

pub claims-Follows :
    (s : System) (n : ℕ) → IsCoherent s → Follows s (record s { batches = begin s n ∷ s.batches })
unfolding held_count
claims-Follows s n c = (
  record {
    ledger = c.ledger;
    views = λ b h. elim h [
      | inl same ↦
          subst (λ (b : Batch). All (Covered (dest_ids s.world.dest)) b.rows) same
            (unfold begin in c.ledger)
      | inr old ↦ c.views b old
    ];
    keyed = c.keyed;
    apart = λ id. begin-apart s n id c;
    pending = λ r h held. begin-pending s n r c h held;
  },
  Keeps-refl s.world c.ledger,
)
