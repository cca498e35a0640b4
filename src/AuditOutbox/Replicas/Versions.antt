-- ===== src/AuditOutbox/Replicas/Versions.antt =====
-- A transaction's versions of the rows, where nobody else writes.
use terraform_suite_identity.Common.{
  ℕ, Str, ◌==◌, eq_iff, contains, In, List, [], ◌∷◌, Bool, true, false, Bool-cases, Option, none,
  some, branch, if◌then◌else◌, ◌≡◌, inl, inr, refl, sym, subst, ap, ◌∙◌, arith,
}
use terraform_suite_identity.AuditOutbox.{
  Intent, Row, World, row_id, row_ids, mark_row, mark_delivered, fail_row, record_failure,
}
use terraform_suite_identity.AuditOutbox.Relay.{Faults, ship, after_sink}
use terraform_suite_identity.AuditOutbox.Delivery.{ship-rows}
use terraform_suite_identity.AuditOutbox.Replicas.{version, merge}
use terraform_suite_identity.AuditOutbox.Replicas.Keys.{IsKeyed, one_row}

-- The rows of a table in the versions of a transaction that holds these.
abbrev pub Versions : List Str → List Row → List Row → Type 0
Versions held [] [] = Unit
Versions held [] (x ∷ xs) = ⊥
Versions held (r ∷ rows) [] = ⊥
Versions held (r ∷ rows) (x ∷ xs) =
    (row_id x ≡ row_id r) × (contains held (row_id r) ≡ false → x ≡ r) × Versions held rows xs

pub Versions-refl : (held : List Str) (rows : List Row) → Versions held rows rows
Versions-refl held [] = tt
Versions-refl held (r ∷ rows) = (refl, λ free. refl, Versions-refl held rows)

Versions-mark :
    (held : List Str) (now : ℕ) (id : Str) (rows xs : List Row)
    → contains held id ≡ true
    → Versions held rows xs
    → Versions held rows (mark_delivered now id xs)
unfolding mark_delivered mark_row
Versions-mark held now id [] [] mine v = tt
Versions-mark held now id [] (x ∷ xs) mine v = v
Versions-mark held now id (r ∷ rows) [] mine v = v
Versions-mark held now id (r ∷ rows) (x ∷ xs) mine (same, kept, v) = (
  ground (arith, same),
  λ free. ground (arith, mine, same, kept free, eq_iff (row_id x) id),
  Versions-mark held now id rows xs mine v,
)

Versions-fail :
    (held : List Str) (id : Str) (cause : ℕ) (rows xs : List Row)
    → contains held id ≡ true
    → Versions held rows xs
    → Versions held rows (record_failure id cause xs)
unfolding record_failure fail_row
Versions-fail held id cause [] [] mine v = tt
Versions-fail held id cause [] (x ∷ xs) mine v = v
Versions-fail held id cause (r ∷ rows) [] mine v = v
Versions-fail held id cause (r ∷ rows) (x ∷ xs) mine (same, kept, v) = (
  ground (arith, same),
  λ free. ground (arith, mine, same, kept free, eq_iff (row_id x) id),
  Versions-fail held id cause rows xs mine v,
)

pub after_sink-Versions :
    (held : List Str) (rows : List Row) (f : Faults) (now : ℕ) (r : Row) (w : World)
    (d : List Intent × Option ℕ)
    → contains held (row_id r) ≡ true
    → Versions held rows w.rows
    → Versions held rows (after_sink f now r w d).0.rows
unfolding after_sink
after_sink-Versions held rows f now r w (dest, some cause) mine v =
    branch (λ (x : World × Bool × Option ℕ). Versions held rows x.0.rows)
      (f.record_fails (row_id r)) _ _ (λ e. v)
      (Versions-fail held (row_id r) cause rows w.rows mine v)
after_sink-Versions held rows f now r w (dest, none) mine v =
    let same = (ship-rows (record w { dest = dest }) r.intent (f.ships (row_id r))).0 in
    let sent = ship (record w { dest = dest }) r.intent (f.ships (row_id r)) in
    let v' = subst (Versions held rows) (sym same) v in
    branch (λ (x : World × Bool × Option ℕ). Versions held rows x.0.rows) (f.mark_fails (row_id r))
      _ _ (λ e. v') (Versions-mark held now (row_id r) rows sent.rows mine v')

pub Versions-ids :
    (held : List Str) (rows xs : List Row) → Versions held rows xs → row_ids xs ≡ row_ids rows
Versions-ids held [] [] v = refl
Versions-ids held [] (x ∷ xs) v = elim v [ ]
Versions-ids held (r ∷ rows) [] v = elim v [ ]
Versions-ids held (r ∷ rows) (x ∷ xs) (same, kept, v) = cc (same, Versions-ids held rows xs v)

version-In :
    (xs : List Row) (r x : Row)
    → In x xs
    → row_id x ≡ row_id r
    → In (version xs r) xs × (row_id (version xs r) ≡ row_id r)
unfolding version
version-In [] r x i same = elim i [ ]
version-In (y ∷ ys) r x i same =
    by_test (row_id y == row_id r) refl (λ later. version-In ys r x later same) i
  where
    by_test :
        (b : Bool)
        → (row_id y == row_id r) ≡ b
        → (In x ys → In (version ys r) ys × (row_id (version ys r) ≡ row_id r))
        → In x (y ∷ ys)
        → In (if b then y else version ys r) (y ∷ ys)
          × (row_id (if b then y else version ys r) ≡ row_id r)
    by_test true found rest i = (inl refl, (eq_iff (row_id y) (row_id r)).0 found)
    by_test false other rest (inl first) =
        let test = (eq_iff (row_id y) (row_id r)).1 (ap row_id first ∙ same) in cc (test, other)
    by_test false other rest (inr later) = let (j, e) = rest later in (inr j, e)

-- Where nobody else writes, the commit leaves the transaction's versions.
pub merge-Versions :
    (held : List Str) (full rows xs : List Row)
    → IsKeyed full
    → ((x : Row) → In x xs → In x full)
    → Versions held rows xs
    → merge held full rows ≡ xs
unfolding merge
merge-Versions held full [] [] k all v = refl
merge-Versions held full [] (x ∷ xs) k all v = elim v [ ]
merge-Versions held full (r ∷ rows) [] k all v = elim v [ ]
merge-Versions held full (r ∷ rows) (x ∷ xs) k all (same, kept, v) =
    let rest = merge-Versions held full rows xs k (λ y i. all y (inr i)) v in
    elim (Bool-cases (contains held (row_id r))) [
      | inl mine ↦
          let (there, e) = version-In full r x (all x (inl refl)) same in
          let found : version full r ≡ x =
            one_row full x (version full r) k (all x (inl refl)) there (e ∙ sym same) in
          rw mine (cc (found, rest))
      | inr free ↦ rw free (cc (kept free, rest))
    ]
