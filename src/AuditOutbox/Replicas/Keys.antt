-- ===== src/AuditOutbox/Replicas/Keys.antt =====
-- The key of the table, and what a claim takes of it.
use terraform_suite_identity.Common.{
  counting, ℕ, ◌+◌, ◌<◌, ◌≤◌, Str, ◌==◌, eq_iff, contains, contains_iff, In, In-append, filter-In,
  In-sort_by, take-In, List, [], ◌∷◌, ◌++◌, filter, sort_by, count_if, count_if-append, count_if-In,
  count_if_unique, In-count_if, Bool, true, false, not, ◌&&◌, Option, none, some, Bool-cases,
  branch-if, if◌then◌else◌, ◌≡◌, ◌⊎◌, inl, inr, refl, sym, subst, arith,
}
use terraform_suite_identity.AuditOutbox.{
  Intent, Row, row_id, row_ids, OutboxError, fill, insert_row, enqueue, is_pending, older, claim,
}
use terraform_suite_identity.AuditOutbox.Records.{row_ids-append}
use terraform_suite_identity.AuditOutbox.Replicas.{Batch, held_count}

abbrev pub occurs : Str → List Str → ℕ
occurs id ids = count_if (λ x. x == id) ids

-- The primary key of the table.
abbrev pub IsKeyed : List Row → Type 0
IsKeyed rows = (id : Str) → occurs id (row_ids rows) ≤ 1

-- Two rows of a table with one key are one row.
pub one_row :
    (rows : List Row) (r x : Row)
    → IsKeyed rows
    → In r rows
    → In x rows
    → row_id x ≡ row_id r
    → x ≡ r
one_row rows r x k h i same =
    count_if_unique (λ (y : Row). row_id y == row_id r) rows x r (omega (counting, k (row_id r))) i
      h ((eq_iff (row_id x) (row_id r)).1 same) ((eq_iff (row_id r) (row_id r)).1 refl)

absent-occurs : (id : Str) (ids : List Str) → contains ids id ≡ false → occurs id ids ≡ 0
unfolding count_if contains
absent-occurs id [] h = refl
absent-occurs id (x ∷ xs) h = ground (arith, eq_iff x id, eq_iff id x, absent-occurs id xs)

pub present-occurs : (id : Str) (ids : List Str) → contains ids id ≡ true → 0 < occurs id ids
present-occurs id ids h =
    In-count_if (λ x. x == id) id ids ((contains_iff ids id).0 h) ((eq_iff id id).1 refl)

pub held_count-append :
    (id : Str) (xs ys : List Batch) → held_count id (xs ++ ys) ≡ held_count id xs + held_count id ys
unfolding held_count
held_count-append id [] ys = omega arith
held_count-append id (x ∷ xs) ys = omega (arith, held_count-append id xs ys)

pub held_count-middle :
    (id : Str) (pre post : List Batch) (b : Batch)
    → held_count id (pre ++ b ∷ post) ≡ occurs id b.held + held_count id (pre ++ post)
unfolding held_count
held_count-middle id pre post b =
    omega (arith, held_count-append id pre (b ∷ post), held_count-append id pre post)

append-IsKeyed :
    (rows : List Row) (r : Row)
    → contains (row_ids rows) (row_id r) ≡ false
    → IsKeyed rows
    → IsKeyed (rows ++ r ∷ [])
unfolding count_if
append-IsKeyed rows r absent k id =
    subst (λ ids. occurs id ids ≤ 1) (sym (row_ids-append rows r))
      (let sum = count_if-append (λ x. x == id) (row_ids rows) (row_id r ∷ []) in
        let none_yet = absent-occurs (row_id r) (row_ids rows) absent in
        let once = k id in by_test (row_id r == id) refl sum none_yet once)
  where
    by_test :
        (b : Bool)
        → (row_id r == id) ≡ b
        → occurs id (row_ids rows ++ row_id r ∷ [])
          ≡ occurs id (row_ids rows) + (if row_id r == id then 1 else 0)
        → occurs (row_id r) (row_ids rows) ≡ 0
        → occurs id (row_ids rows) ≤ 1
        → occurs id (row_ids rows ++ row_id r ∷ []) ≤ 1
    by_test true e sum none_yet once =
        let gone : occurs id (row_ids rows) ≡ 0 =
          subst (λ x. occurs x (row_ids rows) ≡ 0) ((eq_iff (row_id r) id).0 e) none_yet in
        ground (arith, sum, e, gone)
    by_test false e sum none_yet once = ground (arith, sum, e, once)

insert_row-IsKeyed : (rows : List Row) (i : Intent) → IsKeyed rows → IsKeyed (insert_row rows i).0
unfolding insert_row
insert_row-IsKeyed rows i k = elim (Bool-cases (contains (row_ids rows) i.event_id)) [
  | inl there ↦ rw there k
  | inr absent ↦ rw absent (append-IsKeyed rows _ absent k)
]

pub enqueue-IsKeyed :
    (rows : List Row) (uuid : Str) (now : ℕ) (i : Option Intent)
    → IsKeyed rows
    → IsKeyed (enqueue rows uuid now i).0
unfolding enqueue
enqueue-IsKeyed rows uuid now none k = k
enqueue-IsKeyed rows uuid now (some i) k =
    branch-if (λ (x : List Row × Option OutboxError). IsKeyed x.0) (i.action == []) _ _ k
      (insert_row-IsKeyed rows (fill uuid now i) k)

-- What a mutation adds is not delivered.
pub enqueue-In :
    (rows : List Row) (uuid : Str) (now : ℕ) (i : Option Intent) (r : Row)
    → In r (enqueue rows uuid now i).0
    → In r rows ⊎ (r.delivered_at ≡ none)
unfolding enqueue insert_row
enqueue-In rows uuid now none r = λ h. inl h
enqueue-In rows uuid now (some i) r =
    let P = λ (x : List Row × Option OutboxError). In r x.0 → In r rows ⊎ (r.delivered_at ≡ none) in
    let filled = fill uuid now i in
    branch-if P (i.action == []) _ _ (λ h. inl h)
      (branch-if P (contains (row_ids rows) filled.event_id) _ _ (λ h. inl h)
        (λ h. elim (In-append r rows _ h) [
          | inl old ↦ inl old
          | inr new ↦ elim new [
            | inl same ↦ inr (subst (λ (x : Row). x.delivered_at ≡ none) same refl)
            | inr nothing ↦ elim nothing [ ]
          ]
        ]))

-- A claim takes pending rows of the table that nobody holds.
pub claim-In :
    (locked : Str → Bool) (n : ℕ) (rows : List Row) (r : Row)
    → In r (claim locked n rows)
    → In r rows × (r.delivered_at ≡ none) × (locked (row_id r) ≡ false)
unfolding claim is_pending
claim-In locked n rows r h =
    let free = λ (r : Row). is_pending r && not (locked (row_id r)) in
    let sorted = take-In n r (sort_by older (filter free rows)) h in
    let (there, test) = filter-In free r rows ((In-sort_by older r (filter free rows)).0 sorted) in
    (there, ground (arith, test), ground (arith, test))

pub claim-occurs :
    (locked : Str → Bool) (n : ℕ) (rows : List Row) (id : Str)
    → occurs id (row_ids (claim locked n rows)) ≤ occurs id (row_ids rows)
unfolding claim
claim-occurs locked n rows id = omega counting

-- One who holds an event has claimed its row.
pub occurs-row :
    (id : Str) (rows : List Row)
    → 0 < occurs id (row_ids rows)
    → (r : Row) × In r rows × (row_id r ≡ id)
occurs-row id rows h =
    let (r, there, same) = count_if-In (λ (r : Row). row_id r == id) rows (omega counting) in
    (r, there, (eq_iff (row_id r) id).0 same)
