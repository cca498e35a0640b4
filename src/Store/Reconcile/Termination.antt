-- ===== src/Store/Reconcile/Termination.antt =====
-- The reconciliation's loop ends (identity/store/template_reconcile.go).
use terraform_suite_identity.Common.{
  take-In, length-sort_by, ℕ, zero, suc, ◌<◌, ◌≤◌, ℤ, pos, negsuc, Str, ◌==◌, ltb, List, [], ◌∷◌,
  length, filter, filter-In, map, In, count_if, count_if-lt, count_if-length, Bool, true, not, ◌||◌,
  Option, none, some, branch-if, Result, ok, err, ◌≡◌, ◌≢◌, refl, sym, subst, arith,
}
use terraform_suite_identity.Auth.Scopes.{ReadWritePairs}
use terraform_suite_identity.Store.Tables.{Member, Db, StoreError}
use terraform_suite_identity.Store.Reconcile.{
  TemplateAffected, row_lt, principal_of, holds_template, holders, is_after, Batch,
  reconcile_one_batch, ReconcileOptions, TemplateReconcileResult, Surroundings, last, at_limit,
  Answer, after_batch, reconcile_loop, zero_result, reconcile_sized, reconcile_role_template,
}
use terraform_suite_identity.Store.Reconcile.Order.{row_lt_irrefl, row_lt_trans, last-In}
use terraform_suite_identity.Store.Reconcile.Batches.{BatchOf, one_batch}

length-selected :
    (t : Str) (ms : List Member)
    → length (map principal_of (filter (holds_template t) ms)) ≤ length ms
unfolding filter
length-selected t [] = omega arith
length-selected t (m ∷ ms) =
    branch-if (λ l. length (map principal_of l) ≤ suc (length ms)) (holds_template t m) _ _
      (let rest = length-selected t ms in omega (arith, rest))
      (let rest = length-selected t ms in omega (arith, rest))

-- A place behind another has less in front of it.
is_after_trans :
    (c : Option TemplateAffected) (p q : TemplateAffected)
    → is_after c p ≡ true
    → row_lt p q ≡ true
    → is_after c q ≡ true
is_after_trans none p q h k = refl
is_after_trans (some c) p q h k = row_lt_trans c p q h k

fewer_ahead :
    (c : Option TemplateAffected) (p : TemplateAffected) (ps : List TemplateAffected)
    → In p ps
    → is_after c p ≡ true
    → count_if (is_after (some p)) ps < count_if (is_after c) ps
fewer_ahead c p ps i h =
    count_if-lt (is_after (some p)) (is_after c) (λ q k. is_after_trans c p q h k) ps p i
      (row_lt_irrefl p) h

module _ (env : ℕ → Surroundings) (t : Str) (proposed : List Str) (rw_pairs : ReadWritePairs)
    (max : ℤ) where
  abbrev IsSome : Option Answer → Type 0
  IsSome none = ⊥
  IsSome (some a) = Unit {0}

  after_batch-IsSome :
      (size : ℕ) (after : Option TemplateAffected) (db : Db)
      (next : Db → Option TemplateAffected → TemplateReconcileResult → Option Answer)
      (r : TemplateReconcileResult) (outcome : Db × Result StoreError Batch)
      → ((b : Batch) → outcome.1 ≡ ok b → BatchOf t proposed rw_pairs size after db outcome.0 b)
      → ((db' : Db) (c : TemplateAffected) (r' : TemplateReconcileResult)
          → count_if (is_after (some c)) (holders t db'.members)
            < count_if (is_after after) (holders t db.members)
          → IsSome (next db' (some c) r'))
      → IsSome (after_batch size next r outcome)
  unfolding after_batch
  after_batch-IsSome size after db next r (db', err e) batch more = tt
  after_batch-IsSome size after db next r (db', ok ([], swept, spared)) batch more = tt
  after_batch-IsSome size after db next r (db', ok (q ∷ page, swept, spared)) batch more =
      let (page_eq, done) = batch (q ∷ page, swept, spared) refl in
      let here = subst (In (last q page)) page_eq (last-In q page) in
      let there =
        filter-In (is_after after) (last q page) (holders t db.members)
          (take-In size (last q page) (filter (is_after after) (holders t db.members)) here) in
      let less = fewer_ahead after (last q page) (holders t db.members) there.0 there.1 in
      branch-if IsSome (ltb (length (q ∷ page)) size) _ _ tt (
        more db' (last q page) _ (
          subst
            (λ ms.
              count_if (is_after (some (last q page))) (holders t ms)
              < count_if (is_after after) (holders t db.members))
            (sym done.0) less))

  loop-IsSome :
      (size fuel : ℕ) (db : Db) (after : Option TemplateAffected) (r : TemplateReconcileResult)
      → count_if (is_after after) (holders t db.members) < fuel
      → IsSome (reconcile_loop env t proposed rw_pairs size max fuel db after r)
  unfolding reconcile_loop
  loop-IsSome size zero db after r h = omega arith
  loop-IsSome size (suc fuel) db after r h =
      branch-if IsSome ((env r.batches_run).cancelled || at_limit max r.batches_run) _ _ tt (
        after_batch-IsSome size after db (reconcile_loop env t proposed rw_pairs size max fuel) r
          (reconcile_one_batch (env r.batches_run).faults t proposed rw_pairs size after db)
          (one_batch t proposed rw_pairs (env r.batches_run).faults size after db)
          (λ db' c r' less. loop-IsSome size fuel db' (some c) r' (omega (arith, less, h))))

-- A reconciliation always answers: its loop runs at most once for each membership and once more,
-- whatever fails and wherever it starts.
pub reconcile_terminates :
    (env : ℕ → Surroundings) (has_db : Bool) (t : Str) (proposed : List Str)
    (rw_pairs : ReadWritePairs) (opts : ReconcileOptions) (db : Db)
    → reconcile_role_template env has_db t proposed rw_pairs opts db ≢ none
unfolding reconcile_role_template reconcile_sized
reconcile_terminates env has_db t proposed rw_pairs opts db h =
    subst (IsSome env t proposed rw_pairs opts.max_batches) h (
      branch-if (IsSome env t proposed rw_pairs opts.max_batches) (not has_db) _ _ tt (
        branch-if (IsSome env t proposed rw_pairs opts.max_batches) (t == []) _ _ tt
          (sized opts.batch_size)))
  where
    bounded : count_if (is_after opts.after) (holders t db.members) < suc (length db.members)
    bounded =
        let a = count_if-length (is_after opts.after) (holders t db.members) in
        let b = length-sort_by row_lt (map principal_of (filter (holds_template t) db.members)) in
        let c = length-selected t db.members in omega (arith, a, b, c)

    sized :
        (size : ℤ)
        → IsSome env t proposed rw_pairs opts.max_batches (
            reconcile_sized size db (λ size.
              reconcile_loop env t proposed rw_pairs size opts.max_batches
                (suc (length db.members))
                db
                opts.after
                zero_result))
    sized (pos zero) = tt
    sized (pos (suc n)) =
        loop-IsSome env t proposed rw_pairs opts.max_batches (suc n) (suc (length db.members)) db
          opts.after zero_result bounded
    sized (negsuc n) = tt
