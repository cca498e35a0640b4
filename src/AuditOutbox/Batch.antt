-- ===== src/AuditOutbox/Batch.antt =====
-- What one call of `DeliverBatch` reports (identity/auditoutbox/relay.go).
use terraform_suite_identity.Common.{
  not, Bool-cases, inl, inr, Bool, ◌==◌, if◌then◌else◌, ℕ, suc, ◌+◌, Str, List, [], ◌∷◌, length,
  ◌≡◌, refl, ap, ◌∙◌, Bool, true, false, Option, none, some, arith, if◌then◌else◌,
}
use terraform_suite_identity.AuditOutbox.{Intent, Row, World, row_id, claim}
use terraform_suite_identity.AuditOutbox.Relay.{
  CommitOutcome, commits, rolls_back, reply_lost, SinkOutcome, delivers, fails_before, fails_after,
  Faults, deliver, deliver_named, after_sink, deliver_intents, Outcome, settle, commit_error,
  deliver_claimed, deliver_batch,
}

-- The sink takes the row without an error.
abbrev pub takes : Row → SinkOutcome → Bool
takes r delivers = not (row_id r == [])
takes r (fails_before e) = false
takes r (fails_after e) = false

abbrev pub taken : (Str → SinkOutcome) → List Row → ℕ
taken sink [] = 0
taken sink (r ∷ rows) = if takes r (sink (row_id r)) then suc (taken sink rows) else taken sink rows

-- No statement of the batch's own transaction fails.
pub record IsSound (f : Faults) : Type 0 where
  pub begins : f.begin_fails ≡ none
  pub claims : f.claim_fails ≡ none
  pub marks : (id : Str) → f.mark_fails id ≡ none
  pub records : (id : Str) → f.record_fails id ≡ none
  pub commits_it : f.commit ≡ commits

pub branch-none :
    {A : Type 0} (P : A → Type 0) (o : Option ℕ) (x : ℕ → A) (y : A)
    → o ≡ none
    → P y
    → P (elim o [ some e ↦ x e | none ↦ y ])
branch-none P none x y h g = g
branch-none P (some e) x y h g = cc h

pub after_sink_lem :
    (f : Faults) (now : ℕ) (r : Row) (w : World) (d : List Intent × Option ℕ)
    → IsSound f
    → ((after_sink f now r w d).1 ≡ elim d.1 [ none ↦ true | some e ↦ false ])
      × ((after_sink f now r w d).2 ≡ none)
unfolding after_sink
after_sink_lem f now r w (dest, some cause) s =
    branch-none (λ (x : World × Bool × Option ℕ). (x.1 ≡ false) × (x.2 ≡ none))
      (f.record_fails (row_id r)) _ _ (s.records (row_id r)) (refl, refl)
after_sink_lem f now r w (dest, none) s =
    branch-none (λ (x : World × Bool × Option ℕ). (x.1 ≡ true) × (x.2 ≡ none))
      (f.mark_fails (row_id r)) _ _ (s.marks (row_id r)) (refl, refl)

takes_lem :
    (dest : List Intent) (r : Row) (o : SinkOutcome)
    → elim (deliver dest r.intent o).1 [ none ↦ true | some e ↦ false ] ≡ takes r o
unfolding deliver deliver_named
takes_lem dest r delivers = elim (Bool-cases (row_id r == [])) [
  | inl missing ↦ rw missing refl
  | inr named ↦ rw named refl
]
takes_lem dest r (fails_before e) = elim (Bool-cases (row_id r == [])) [
  | inl missing ↦ rw missing refl
  | inr named ↦ rw named refl
]
takes_lem dest r (fails_after e) = elim (Bool-cases (row_id r == [])) [
  | inl missing ↦ rw missing refl
  | inr named ↦ rw named refl
]

counted :
    (b c : Bool) (n m : ℕ) → b ≡ c → (if b then n + 1 else n) + m ≡ n + (if c then suc m else m)
counted true true n m h = omega arith
counted false false n m h = refl
counted true false n m h = cc h
counted false true n m h = cc h

deliver_intents-taken :
    (f : Faults) (now : ℕ) (claimed : List Row) (w : World) (n : ℕ)
    → IsSound f
    → ((deliver_intents f now claimed w n).1 ≡ n + taken f.sink claimed)
      × ((deliver_intents f now claimed w n).2 ≡ none)
unfolding deliver_intents
deliver_intents-taken f now [] w n s = (omega arith, refl)
deliver_intents-taken f now (r ∷ claimed) w n s =
    let o = f.sink (row_id r) in
    let d = deliver w.dest r.intent o in
    let turn = after_sink f now r w d in
    let one = after_sink_lem f now r w d s in
    let rest = deliver_intents-taken f now claimed turn.0 (if turn.1 then n + 1 else n) s in
    let more = counted turn.1 (takes r o) n (taken f.sink claimed) (one.0 ∙ takes_lem w.dest r o) in
    branch-none
      (λ (x : World × ℕ × Option ℕ). (x.1 ≡ n + taken f.sink (r ∷ claimed)) × (x.2 ≡ none)) turn.2 _
      _ one.1 (rest.0 ∙ more, rest.1)

settle_lem :
    (rows : List Row) (n m : ℕ) (c : CommitOutcome) (r : World × ℕ × Option ℕ)
    → c ≡ commits
    → r.1 ≡ m
    → r.2 ≡ none
    → (settle rows n c r).1 ≡ record { claimed = n; delivered = m; error = none }
unfolding settle
settle_lem rows n m c (v, d, some e) h k none_failed = cc none_failed
settle_lem rows n m commits (v, d, none) h k none_failed =
    ap (λ x. record { claimed = n; delivered = x; error = none }) k
settle_lem rows n m (rolls_back e) (v, d, none) h k none_failed = cc h
settle_lem rows n m (reply_lost e) (v, d, none) h k none_failed = cc h

claimed_lem :
    (f : Faults) (now : ℕ) (c : List Row) (w : World)
    → IsSound f
    → (deliver_claimed f now c w).1
      ≡ record { claimed = length c; delivered = taken f.sink c; error = none }
unfolding deliver_claimed commit_error
claimed_lem f now [] w s =
    ap (λ x. record { claimed = 0; delivered = 0; error = commit_error x }) s.commits_it
claimed_lem f now (r ∷ c) w s =
    let all = deliver_intents-taken f now (r ∷ c) w 0 s in
    settle_lem w.rows (length (r ∷ c)) (taken f.sink (r ∷ c)) f.commit
      (deliver_intents f now (r ∷ c) w 0) s.commits_it (all.0 ∙ omega arith) (all.1)

-- The counts that a batch reports.
pub batch-counts :
    (f : Faults) (now batch : ℕ) (w : World)
    → IsSound f
    → (deliver_batch f now batch w).1 ≡ record {
      claimed = length (claim f.locked batch w.rows);
      delivered = taken f.sink (claim f.locked batch w.rows);
      error = none;
    }
unfolding deliver_batch
batch-counts f now batch w s =
    let P = λ (x : World × Outcome). x.1 ≡ record {
      claimed = length (claim f.locked batch w.rows);
      delivered = taken f.sink (claim f.locked batch w.rows);
      error = none;
    } in
    branch-none P f.begin_fails _ _ s.begins (
      branch-none P f.claim_fails _ _ s.claims
        (claimed_lem f now (claim f.locked batch w.rows) w s))
