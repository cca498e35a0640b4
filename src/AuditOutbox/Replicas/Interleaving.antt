-- ===== src/AuditOutbox/Replicas/Interleaving.antt =====
-- What each step of the relays of several replicas keeps (identity/auditoutbox).
use terraform_suite_identity.Common.{
  ℕ, ◌+◌, ◌≤◌, Str, In, In-append, In-append_left, In-append_right, All, List, ◌∷◌, ◌++◌, ◌≡◌, inl,
  inr, refl, sym, subst, arith,
}
use terraform_suite_identity.AuditOutbox.{Row, row_id, row_ids, dest_ids, prune_delivered}
use terraform_suite_identity.AuditOutbox.Relay.{Faults}
use terraform_suite_identity.AuditOutbox.Records.{Covered, Keeps-refl, Keeps-trans, Covered-mono}
use terraform_suite_identity.AuditOutbox.Pruning.{prune_delivered-Keeps}
use terraform_suite_identity.AuditOutbox.Replicas.{
  Batch, System, held_count, put_back, turn, merge, Step, mutates, claims, delivers_next,
  commits_batch, stops, prunes, Reach, here, next,
}
use terraform_suite_identity.AuditOutbox.Replicas.Sharing.{
  turn-Turned, merge-ids, merge-Covered, merge-In, prune-In, prune-IsKeyed,
}
use terraform_suite_identity.AuditOutbox.Replicas.Keys.{
  occurs, IsKeyed, present-occurs, held_count-append, held_count-middle,
}
use terraform_suite_identity.AuditOutbox.Replicas.Coherence.{
  IsCoherent, Follows, In-without, mutates-Follows, claims-Follows,
}

-- A batch among those of the system, what it sees and what it holds.
module _ (s : System) (pre post : List Batch) (b : Batch) (c : IsCoherent s)
    (open_ : s.batches ≡ pre ++ b ∷ post) where
  view : All (Covered (dest_ids s.world.dest)) b.rows
  view = c.views b (subst (In b) (sym open_) (In-append_right b pre (b ∷ post) (inl refl)))

  other_view : (x : Batch) → In x (pre ++ post) → All (Covered (dest_ids s.world.dest)) x.rows
  other_view x h = c.views x (subst (In x) (sym open_) (In-without pre post b x h))

  held_sum : (id : Str) → held_count id s.batches ≡ occurs id b.held + held_count id (pre ++ post)
  held_sum id =
      subst (λ bs. held_count id bs ≡ occurs id b.held + held_count id (pre ++ post)) (sym open_)
        (held_count-middle id pre post b)

  stops-Follows : Follows s (record s { batches = pre ++ post })
  stops-Follows = (
    record {
      ledger = c.ledger;
      views = other_view;
      keyed = c.keyed;
      apart = λ id. omega (arith, c.apart id, held_sum id);
      pending = λ r h held. c.pending r h (omega (arith, held, held_sum (row_id r)));
    },
    Keeps-refl s.world c.ledger,
  )

  commits-Follows : Follows s (record {
    world = record s.world { rows = merge b.held b.rows s.world.rows };
    batches = pre ++ post;
  })
  commits-Follows =
      let ids = dest_ids s.world.dest in
      let same = merge-ids b.held b.rows s.world.rows in
      let covered = merge-Covered ids b.held b.rows s.world.rows view c.ledger in
      (
        record {
          ledger = covered;
          views = other_view;
          keyed = subst (λ l. (id : Str) → occurs id l ≤ 1) (sym same) c.keyed;
          apart = λ id. omega (arith, c.apart id, held_sum id);
          pending = λ r h held. elim (merge-In b.held b.rows s.world.rows r h) [
            | inl old ↦ c.pending r old (omega (arith, held, held_sum (row_id r)))
            | inr mine ↦ absurd (
                omega (
                  arith,
                  held,
                  present-occurs (row_id r) b.held mine,
                  held_sum (row_id r),
                  c.apart (row_id r),
                ))
          ];
        },
        record {
          ledger = covered;
          dest = λ id h. h;
          rows = λ id h. inl (subst (In id) (sym same) h);
        },
      )

  delivers-Follows :
      (f : Faults) (now : ℕ) (r : Row) (rest : List Row)
      → Follows s (record {
        world = (turn f now r rest s.world b).0;
        batches = pre ++ put_back (turn f now r rest s.world b).1 post;
      })
  delivers-Follows f now r rest =
      let x = turn f now r rest s.world b in
      let t = turn-Turned f now r rest s.world b view in
      let grown = Covered-mono (dest_ids s.world.dest) (dest_ids x.0.dest) in
      let ledger =
        subst (λ rows. All (Covered (dest_ids x.0.dest)) rows) (sym t.rows)
          (grown s.world.rows t.dest c.ledger) in
      let fewer = λ (id : Str).
        let sum = held_count-append id pre (put_back x.1 post) in
        let sum' = held_count-append id pre post in
        let less = t.holds id post in
        let whole = held_sum id in
        let le : held_count id (pre ++ put_back x.1 post) ≤ held_count id s.batches =
          omega (arith, sum, sum', less, whole) in
        le in
      (
        record {
          ledger = ledger;
          views = λ y h. elim (In-append y pre (put_back x.1 post) h) [
            | inl early ↦ grown y.rows t.dest (other_view y (In-append_left y pre post early))
            | inr late ↦ elim (t.views y post late) [
              | inl mine ↦ mine
              | inr other ↦ grown y.rows t.dest (other_view y (In-append_right y pre post other))
            ]
          ];
          keyed = subst IsKeyed (sym t.rows) c.keyed;
          apart = λ id. omega (arith, c.apart id, fewer id);
          pending = λ y h held.
              c.pending y (subst (In y) t.rows h) (omega (arith, held, fewer (row_id y)));
        },
        record {
          ledger = ledger;
          dest = t.dest;
          rows = λ id h. inl (subst (λ rows. In id (row_ids rows)) (sym t.rows) h);
        },
      )

prunes-Follows :
    (s : System) (before n : ℕ)
    → IsCoherent s
    → Follows s
        (record s { world = record s.world { rows = prune_delivered before n s.world.rows } })
prunes-Follows s before n c =
    let k = prune_delivered-Keeps before n s.world c.ledger in
    (
      record {
        ledger = k.ledger;
        views = c.views;
        keyed = prune-IsKeyed before n s.world.rows c.keyed;
        apart = c.apart;
        pending = λ r h held. c.pending r (prune-In before n s.world.rows r h) held;
      },
      k,
    )

Step-Follows : {s t : System} → Step s t → IsCoherent s → Follows s t
Step-Follows (mutates s uuid now i) c = mutates-Follows s uuid now i c
Step-Follows (claims s n) c = claims-Follows s n c
Step-Follows (delivers_next s f now pre post b r rest e todo) c =
    delivers-Follows s pre post b c e f now r rest
Step-Follows (commits_batch s pre post b e done) c = commits-Follows s pre post b c e
Step-Follows (stops s pre post b e) c = stops-Follows s pre post b c e
Step-Follows (prunes s before n) c = prunes-Follows s before n c

pub Reach-Follows : {s t : System} → IsCoherent s → Reach s t → Follows s t
Reach-Follows {s} c here = (c, Keeps-refl s.world c.ledger)
Reach-Follows {s} c (next {t} {u} r st) =
    let (d, k) = Reach-Follows c r in
    let (e, k') = Step-Follows st d in (e, Keeps-trans s.world t.world u.world k k')
