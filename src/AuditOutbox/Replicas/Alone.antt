-- ===== src/AuditOutbox/Replicas/Alone.antt =====
-- A call of DeliverBatch as a path of the interleaving (identity/auditoutbox/relay.go).
use terraform_suite_identity.Common.{
  ℕ, ◌+◌, ◌≤◌, Str, contains, contains_iff, In, In-map, All, List, [], ◌∷◌, length, true, false,
  Option, none, some, if◌then◌else◌, ◌≡◌, ap, ◌⊎◌, inl, inr, refl, sym, subst,
}
use terraform_suite_identity.AuditOutbox.{Row, World, row_id, row_ids, claim}
use terraform_suite_identity.AuditOutbox.Relay.{
  CommitOutcome, commits, rolls_back, reply_lost, Faults, deliver, after_sink, deliver_intents,
  Outcome, settle, deliver_claimed, deliver_batch,
}
use terraform_suite_identity.AuditOutbox.Replicas.{
  Batch, System, held_count, begin, put_back, turn, claims, delivers_next, commits_batch, stops,
  Reach, here, next, merge,
}
use terraform_suite_identity.AuditOutbox.Replicas.Keys.{occurs, IsKeyed}
use terraform_suite_identity.AuditOutbox.Replicas.Safety.{idle}
use terraform_suite_identity.AuditOutbox.Replicas.Versions.{
  Versions, Versions-refl, after_sink-Versions, Versions-ids, merge-Versions,
}

-- The system while one transaction is open, which has these versions and these intents to deliver.
abbrev open_batch : List Row → List Str → World → List Row → System
open_batch rows held v todo = record {
  world = record v { rows = rows };
  batches = record { held = held; todo = todo; rows = v.rows } ∷ [];
}

-- The turns of the loop of one transaction, with nothing in between.
pub data Turns (f : Faults) (now : ℕ) (s : System) : System → Type 0 where
  no_turn : Turns f now s s
  then_turn :
      {t : System} (b : Batch) (r : Row) (rest : List Row)
      → Turns f now s t
      → t.batches ≡ b ∷ []
      → b.todo ≡ r ∷ rest
      → Turns f now s (record {
        world = (turn f now r rest t.world b).0;
        batches = put_back (turn f now r rest t.world b).1 [];
      })

-- The end of the transaction, after its turns: an error of a turn has rolled it back; or nothing is
-- left to deliver, and it commits or is rolled back.
pub data Ended (f : Faults) (s : System) : System → Type 0 where
  aborted : s.batches ≡ [] → Ended f s s
  committed :
      (b : Batch)
      → s.batches ≡ b ∷ []
      → b.todo ≡ []
      → (f.commit ≡ commits) ⊎ ((e : ℕ) × (f.commit ≡ reply_lost e))
      → Ended f s (record {
        world = record s.world { rows = merge b.held b.rows s.world.rows };
        batches = [];
      })
  rolled_back :
      (b : Batch) (e : ℕ)
      → s.batches ≡ b ∷ []
      → b.todo ≡ []
      → f.commit ≡ rolls_back e
      → Ended f s (record s { batches = [] })

-- The transaction of one batch: it does not begin, its claim fails, it claims nothing, or it claims up
-- to `n` rows, takes its turns and ends.
pub data BatchRun (f : Faults) (now n : ℕ) (s : System) : System → Type 0 where
  unbegun : (e : ℕ) → f.begin_fails ≡ some e → BatchRun f now n s s
  unclaimed : (e : ℕ) → f.claim_fails ≡ some e → BatchRun f now n s s
  nothing_claimed : (begin s n).todo ≡ [] → BatchRun f now n s s
  ran :
      (t u : System)
      → f.begin_fails ≡ none
      → f.claim_fails ≡ none
      → Turns f now (record s { batches = begin s n ∷ [] }) t
      → Ended f t u
      → BatchRun f now n s u

Turns-Reach : (f : Faults) (now : ℕ) (x s t : System) → Reach x s → Turns f now s t → Reach x t
Turns-Reach f now x s t path no_turn = path
Turns-Reach f now x s t path (then_turn {t = u} b r rest turns e h) =
    next (Turns-Reach f now x s u path turns) (delivers_next u f now [] [] b r rest e h)

Ended-Reach : (f : Faults) (x s t : System) → Reach x s → Ended f s t → Reach x t
Ended-Reach f x s t path (aborted e) = path
Ended-Reach f x s t path (committed b e h c) = next path (commits_batch s [] [] b e h)
Ended-Reach f x s t path (rolled_back b e h g c) = next path (stops s [] [] b h)

BatchRun-Reach :
    (f : Faults) (now n : ℕ) (s t : System) → s.batches ≡ [] → BatchRun f now n s t → Reach s t
BatchRun-Reach f now n s t alone (unbegun e h) = here
BatchRun-Reach f now n s t alone (unclaimed e h) = here
BatchRun-Reach f now n s t alone (nothing_claimed h) = here
BatchRun-Reach f now n s t alone (ran u v b c turns ended) =
    let begun : Reach s (record s { batches = begin s n ∷ [] }) =
      subst (λ l. Reach s (record s { batches = begin s n ∷ l })) alone (next here (claims s n)) in
    Ended-Reach f s u t (Turns-Reach f now s _ u begun turns) ended

-- What the loop of the transaction has come to.
abbrev Ends : Faults → ℕ → System → List Row → List Str → World × ℕ × Option ℕ → Type 0
Ends f now s rows held (v, delivered, error) = elim error [
  | some e ↦ Turns f now s (idle (record v { rows = rows }))
  | none ↦ Turns f now s (open_batch rows held v []) × Versions held rows v.rows
]

after_turn :
    (f : Faults) (now : ℕ) (s : System) (rows : List Row) (held : List Str) (claimed : List Row)
    (u : World) (n : ℕ) (ended : World × ℕ × Option ℕ) (error : Option ℕ)
    → Turns f now s (record {
      world = record u { rows = rows };
      batches =
          put_back
            (elim error [
              | some e ↦ none
              | none ↦ some (record { held = held; todo = claimed; rows = u.rows })
            ])
            [];
    })
    → (Turns f now s (open_batch rows held u claimed) → Ends f now s rows held ended)
    → Ends f now s rows held (elim error [ some e ↦ (u, n, some e) | none ↦ ended ])
after_turn f now s rows held claimed u n ended none path rest = rest path
after_turn f now s rows held claimed u n ended (some e) path rest = path

deliver_intents-Ends :
    (s : System) (f : Faults) (now : ℕ) (rows : List Row) (held : List Str) (claimed : List Row)
    (v : World) (n : ℕ)
    → All (λ r. contains held (row_id r) ≡ true) claimed
    → Versions held rows v.rows
    → Turns f now s (open_batch rows held v claimed)
    → Ends f now s rows held (deliver_intents f now claimed v n)
unfolding deliver_intents turn
deliver_intents-Ends s f now rows held [] v n mine same path = (path, same)
deliver_intents-Ends s f now rows held (r ∷ claimed) v n (here_, mine) same path =
    let d = deliver v.dest r.intent (f.sink (row_id r)) in
    let sunk = after_sink f now r v d in
    let kept = after_sink-Versions held rows f now r v d here_ same in
    let b : Batch = record { held = held; todo = r ∷ claimed; rows = v.rows } in
    after_turn f now s rows held claimed sunk.0 n
      (deliver_intents f now claimed sunk.0 (if sunk.1 then n + 1 else n)) sunk.2
      (then_turn b r claimed path refl refl)
      (λ on.
        deliver_intents-Ends s f now rows held claimed sunk.0 (if sunk.1 then n + 1 else n) mine
          kept on)

-- The commit leaves what the loop has made of the tables.
committed-Ended :
    (f : Faults) (rows : List Row) (held : List Str) (v : World)
    → IsKeyed rows
    → Versions held rows v.rows
    → (f.commit ≡ commits) ⊎ ((e : ℕ) × (f.commit ≡ reply_lost e))
    → Ended f (open_batch rows held v []) (idle v)
committed-Ended f rows held v k same c =
    let keyed =
      subst (λ l. (id : Str) → occurs id l ≤ 1) (sym (Versions-ids held rows v.rows same)) k in
    let left = merge-Versions held v.rows rows v.rows keyed (λ x i. i) same in
    subst (λ r. Ended f (open_batch rows held v []) (idle (record v { rows = r }))) left
      (committed _ refl refl c)

-- How the transaction goes on from these turns.
abbrev Settles : Faults → ℕ → System → World → Type 0
Settles f now s v = (t : System) × Turns f now s t × Ended f t (idle v)

settle-Settles :
    (f : Faults) (now : ℕ) (s : System) (rows : List Row) (held : List Str) (n : ℕ)
    (c : CommitOutcome) (x : World × ℕ × Option ℕ)
    → f.commit ≡ c
    → IsKeyed rows
    → Ends f now s rows held x
    → Settles f now s (settle rows n c x).0
unfolding settle
settle-Settles f now s rows held n c (v, d, some e) is k path = (_, path, aborted refl)
settle-Settles f now s rows held n (rolls_back e) (v, d, none) is k (path, same) =
    (_, path, rolled_back _ e refl refl is)
settle-Settles f now s rows held n commits (v, d, none) is k (path, same) =
    (_, path, committed-Ended f rows held v k same (inl is))
settle-Settles f now s rows held n (reply_lost e) (v, d, none) is k (path, same) =
    (_, path, committed-Ended f rows held v k same (inr (e, is)))

claimed-held :
    (held : List Str) (claimed : List Row)
    → ((r : Row) → In r claimed → In (row_id r) held)
    → All (λ r. contains held (row_id r) ≡ true) claimed
claimed-held held [] all = tt
claimed-held held (r ∷ claimed) all = (
  (contains_iff held (row_id r)).1 (all r (inl refl)),
  claimed-held held claimed (λ x i. all x (inr i)),
)

claimed-BatchRun :
    (w : World) (f : Faults) (now n : ℕ) (claimed : List Row)
    → claimed ≡ claim (λ id. false) n w.rows
    → IsKeyed w.rows
    → f.begin_fails ≡ none
    → f.claim_fails ≡ none
    → BatchRun f now n (idle w) (idle (deliver_claimed f now claimed w).0)
unfolding deliver_claimed begin held_count
claimed-BatchRun w f now n [] is k begins claims_it = nothing_claimed (sym is)
claimed-BatchRun w f now n (r ∷ claimed) is k begins claims_it =
    let held = row_ids (r ∷ claimed) in
    let start = open_batch w.rows held w (r ∷ claimed) in
    let (t, turns, ended) =
      settle-Settles f now start w.rows held (length (r ∷ claimed)) f.commit
        (deliver_intents f now (r ∷ claimed) w 0) refl k
        (deliver_intents-Ends start f now w.rows held (r ∷ claimed) w 0
          (claimed-held held (r ∷ claimed) (λ x i. In-map row_id x (r ∷ claimed) i))
          (Versions-refl held w.rows) no_turn) in
    ran t _ begins claims_it
      (subst (λ l. Turns f now (open_batch w.rows (row_ids l) w l) t) is turns) ended

-- DeliverBatch, whatever fails in it, is one transaction on its own: it claims up to the batch's size,
-- delivers what it claimed in turn, and commits, or is rolled back by an error of a turn or of the
-- commit; or it does nothing, if it does not begin, cannot claim or finds nothing. What it makes of
-- the tables is what a path of the interleaving leads to where no other transaction is open. The
-- events of the table are distinct, and no other transaction has locked a row.
pub deliver_batch-BatchRun :
    (f : Faults) (now batch : ℕ) (w : World)
    → IsKeyed w.rows
    → f.locked ≡ (λ id. false)
    → BatchRun f now batch (idle w) (idle (deliver_batch f now batch w).0)
      × Reach (idle w) (idle (deliver_batch f now batch w).0)
unfolding deliver_batch
deliver_batch-BatchRun f now batch w k free =
    let run = by_faults f.begin_fails f.claim_fails refl refl in
    (run, BatchRun-Reach f now batch (idle w) _ refl run)
  where
    outcome : Option ℕ → Option ℕ → World × Outcome
    outcome b c = elim b [
      | some e ↦ (w, record { claimed = 0; delivered = 0; error = some e })
      | none ↦ elim c [
        | some e ↦ (w, record { claimed = 0; delivered = 0; error = some e })
        | none ↦ deliver_claimed f now (claim f.locked batch w.rows) w
      ]
    ]

    by_faults :
        (b c : Option ℕ)
        → f.begin_fails ≡ b
        → f.claim_fails ≡ c
        → BatchRun f now batch (idle w) (idle (outcome b c).0)
    by_faults (some e) c h g = unbegun e h
    by_faults none (some e) h g = unclaimed e g
    by_faults none none h g =
        claimed-BatchRun w f now batch (claim f.locked batch w.rows)
          (ap (λ l. claim l batch w.rows) free) k h g
