-- ===== src/AuditOutbox/Replicas/Sharing.antt =====
-- What a turn of the loop, a commit and a prune do to the table, the destination and the locks.
use terraform_suite_identity.Common.{
  counting, ℕ, ◌+◌, ◌≤◌, Str, ◌==◌, eq_iff, contains, In, filter-In, All, List, [], ◌∷◌, true,
  Option, Bool-cases, branch, branch-if, ◌≡◌, ◌⊎◌, inl, inr, refl, sym, subst, ap, ◌∙◌, arith,
}
use terraform_suite_identity.AuditOutbox.{Row, World, row_id, row_ids, dest_ids, prune_delivered}
use terraform_suite_identity.AuditOutbox.Relay.{Faults, deliver, after_sink}
use terraform_suite_identity.AuditOutbox.Records.{Covered, deliver-In, deliver-there}
use terraform_suite_identity.AuditOutbox.Delivery.{after_sink-Keeps}
use terraform_suite_identity.AuditOutbox.Replicas.{
  Batch, held_count, put_back, turn, version, merge,
}
use terraform_suite_identity.AuditOutbox.Replicas.Keys.{occurs, IsKeyed}

-- A turn leaves the committed rows and what the batch holds, and the destination grows.
pub record Turned (w : World) (b : Batch) (x : World × Option Batch) : Type 0 where
  pub rows : x.0.rows ≡ w.rows
  pub dest : (id : Str) → In id (dest_ids w.dest) → In id (dest_ids x.0.dest)
  pub holds :
      (id : Str) (post : List Batch)
      → held_count id (put_back x.1 post) ≤ occurs id b.held + held_count id post
  pub views :
      (c : Batch) (post : List Batch)
      → In c (put_back x.1 post)
      → All (Covered (dest_ids x.0.dest)) c.rows ⊎ In c post

pub turn-Turned :
    (f : Faults) (now : ℕ) (r : Row) (rest : List Row) (w : World) (b : Batch)
    → All (Covered (dest_ids w.dest)) b.rows
    → Turned w b (turn f now r rest w b)
unfolding turn held_count
turn-Turned f now r rest w b view =
    let o = f.sink (row_id r) in
    let own = record w { rows = b.rows } in
    let d = deliver w.dest r.intent o in
    let k =
      after_sink-Keeps f now r own d view (deliver-In w.dest r.intent o)
        (deliver-there w.dest r.intent o) in
    let (v, counts, error) = after_sink f now r own d in
    let after : World = record v { rows = w.rows } in
    branch (λ (x : Option Batch). Turned w b (after, x)) error _ _
      (λ e. record {
        rows = refl;
        dest = k.dest;
        holds = λ id post. omega arith;
        views = λ c post h. inr h;
      })
      (record {
        rows = refl;
        dest = k.dest;
        holds = λ id post. omega arith;
        views = λ c post h. elim h [
          | inl same ↦
              inl (subst (λ (c : Batch). All (Covered (dest_ids v.dest)) c.rows) same k.ledger)
          | inr later ↦ inr later
        ];
      })

version-id : (rows : List Row) (r : Row) → row_id (version rows r) ≡ row_id r
unfolding version
version-id [] r = refl
version-id (x ∷ xs) r = ground (arith, eq_iff (row_id x) (row_id r), version-id xs r)

version-Covered :
    (ids : List Str) (rows : List Row) (r : Row)
    → All (Covered ids) rows
    → Covered ids r
    → Covered ids (version rows r)
unfolding version
version-Covered ids [] r h c = c
version-Covered ids (x ∷ xs) r (d, h) c =
    branch-if (Covered ids) (row_id x == row_id r) _ _ d (version-Covered ids xs r h c)

pub merge-ids :
    (held : List Str) (versions rows : List Row) → row_ids (merge held versions rows) ≡ row_ids rows
unfolding merge
merge-ids held versions [] = refl
merge-ids held versions (r ∷ rows) =
    ground (arith, version-id versions r, merge-ids held versions rows)

pub merge-Covered :
    (ids held : List Str) (versions rows : List Row)
    → All (Covered ids) versions
    → All (Covered ids) rows
    → All (Covered ids) (merge held versions rows)
unfolding merge
merge-Covered ids held versions [] v h = tt
merge-Covered ids held versions (r ∷ rows) v (c, h) = (
  branch-if (Covered ids) (contains held (row_id r)) _ _ (version-Covered ids versions r v c) c,
  merge-Covered ids held versions rows v h,
)

-- The commit changes no row that the transaction does not hold.
pub merge-In :
    (held : List Str) (versions rows : List Row) (r : Row)
    → In r (merge held versions rows)
    → In r rows ⊎ (contains held (row_id r) ≡ true)
unfolding merge
merge-In held versions [] r h = elim h [ ]
merge-In held versions (x ∷ xs) r (inr later) = elim (merge-In held versions xs r later) [
  | inl there ↦ inl (inr there)
  | inr mine ↦ inr mine
]
merge-In held versions (x ∷ xs) r (inl same) = elim (Bool-cases (contains held (row_id x))) [
  | inl mine ↦ inr (
      subst (λ id. contains held id ≡ true)
        (sym (version-id versions x) ∙ ap row_id (rw mine at same)) mine)
  | inr other ↦ inl (inl (rw other at same))
]

pub prune-In :
    (before n : ℕ) (rows : List Row) (r : Row) → In r (prune_delivered before n rows) → In r rows
unfolding prune_delivered
prune-In before n rows r h = (filter-In _ r rows h).0

pub prune-IsKeyed :
    (before n : ℕ) (rows : List Row) → IsKeyed rows → IsKeyed (prune_delivered before n rows)
unfolding prune_delivered
prune-IsKeyed before n rows k id = omega (counting, k id)
