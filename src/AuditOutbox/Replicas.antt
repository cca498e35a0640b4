-- ===== src/AuditOutbox/Replicas.antt =====
-- identity/auditoutbox: the relays of several replicas at once. The transaction of each DeliverBatch
-- is cut into its claim, the turns of its loop and its end, which stand in any order with those of
-- the others; a turn is one delivery of the sink with the mark or failure statement that follows it. PostgreSQL is read
-- thus: a transaction writes to its own versions of the rows that it has locked, which nobody else
-- sees before the commit; SKIP LOCKED passes over the rows that another transaction has locked.
pub mod Keys
mod Sharing
mod Versions
mod Coherence
mod Interleaving
pub mod Safety
pub mod Alone
mod Tests
use terraform_suite_identity.Common.{
  ℕ, ◌+◌, Str, ◌==◌, contains, ltb, List, [], ◌∷◌, ◌++◌, count_if, Bool, Option, none, some,
  if◌then◌else◌, ◌≡◌,
}
use terraform_suite_identity.AuditOutbox.{
  Intent, Row, World, row_id, row_ids, enqueue, claim, prune_delivered,
}
use terraform_suite_identity.AuditOutbox.Relay.{Faults, deliver, after_sink}

-- A transaction of DeliverBatch: the events whose rows it has locked, the intents that it has still to
-- deliver, and its versions of the rows.
pub record Batch : Type 0 where
  pub held : List Str
  pub todo : List Row
  pub rows : List Row

-- The committed tables, and the transactions that are open.
pub record System : Type 0 where
  pub world : World
  pub batches : List Batch

-- How often the row of an event is locked.
unfoldable pub held_count : Str → List Batch → ℕ
held_count id [] = 0
held_count id (b ∷ bs) = count_if (λ x. x == id) b.held + held_count id bs

abbrev pub is_held : List Batch → Str → Bool
is_held bs id = ltb 0 (held_count id bs)

-- BeginTx and `claim`
unfoldable pub begin : System → ℕ → Batch
begin s n =
    let claimed = claim (is_held s.batches) n s.world.rows in
    record { held = row_ids claimed; todo = claimed; rows = s.world.rows }

abbrev pub put_back : Option Batch → List Batch → List Batch
put_back none bs = bs
put_back (some b) bs = b ∷ bs

-- One turn of the loop, with the statement that it ends in; an error rolls the transaction back.
unfoldable pub turn : Faults → ℕ → Row → List Row → World → Batch → World × Option Batch
unfolding after_sink deliver
turn f now r rest w b =
    let (v, counts, error) =
      after_sink f now r (record w { rows = b.rows })
        (deliver w.dest r.intent (f.sink (row_id r))) in
    (
      record v { rows = w.rows },
      elim error [ some e ↦ none | none ↦ some (record b { todo = rest; rows = v.rows }) ],
    )

-- The version of a row that a transaction has.
unfoldable pub version : List Row → Row → Row
version [] r = r
version (x ∷ xs) r = if row_id x == row_id r then x else version xs r

-- The commit: the versions of the locked rows become those of the table.
unfoldable pub merge : List Str → List Row → List Row → List Row
unfolding version
merge held versions [] = []
merge held versions (r ∷ rows) =
    (if contains held (row_id r) then version versions r else r) ∷ merge held versions rows

-- What happens next: a mutation commits its intent; a replica claims, delivers one intent, commits, or
-- stops, with a rollback or a crash; or it prunes.
pub data Step : System → System → Type 0 where
  mutates :
      (s : System) (uuid : Str) (now : ℕ) (i : Option Intent)
      → Step s (record s { world = record s.world { rows = (enqueue s.world.rows uuid now i).0 } })
  claims : (s : System) (n : ℕ) → Step s (record s { batches = begin s n ∷ s.batches })
  delivers_next :
      (s : System) (f : Faults) (now : ℕ) (pre post : List Batch) (b : Batch) (r : Row)
      (rest : List Row)
      → s.batches ≡ pre ++ b ∷ post
      → b.todo ≡ r ∷ rest
      → Step s (record {
        world = (turn f now r rest s.world b).0;
        batches = pre ++ put_back (turn f now r rest s.world b).1 post;
      })
  commits_batch :
      (s : System) (pre post : List Batch) (b : Batch)
      → s.batches ≡ pre ++ b ∷ post
      → b.todo ≡ []
      → Step s (record {
        world = record s.world { rows = merge b.held b.rows s.world.rows };
        batches = pre ++ post;
      })
  stops :
      (s : System) (pre post : List Batch) (b : Batch)
      → s.batches ≡ pre ++ b ∷ post
      → Step s (record s { batches = pre ++ post })
  prunes :
      (s : System) (before n : ℕ)
      → Step s
          (record s { world = record s.world { rows = prune_delivered before n s.world.rows } })

pub data Reach (s : System) : System → Type 0 where
  here : Reach s s
  next : {t u : System} → Reach s t → Step t u → Reach s u
