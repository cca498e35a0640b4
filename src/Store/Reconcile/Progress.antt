-- ===== src/Store/Reconcile/Progress.antt =====
-- What a reconciliation has settled, whole or interrupted (identity/store/template_reconcile.go).
use terraform_suite_identity.Common.{
  ℕ, zero, suc, ℤ, pos, negsuc, Str, ◌==◌, ltb, List, [], ◌∷◌, length, In, Bool, true, false, not,
  ◌||◌, Option, none, some, if◌then◌else◌, branch-if, Result, ok, err, ◌≡◌, ◌⊎◌, inl, inr, refl,
  sym, subst, ◌∙◌, arith,
}
use terraform_suite_identity.Auth.Scopes.{ReadWritePairs}
use terraform_suite_identity.Store.Tables.{Db, StoreError}
use terraform_suite_identity.Store.Reconcile.{
  TemplateAffected, holders, is_after, Batch, reconcile_one_batch, ReconcileOptions,
  TemplateReconcileResult, Surroundings, last, at_limit, stopped, finished, add_batch, Answer,
  after_batch, reconcile_loop, zero_result, reconcile_sized, reconcile_role_template,
}
use terraform_suite_identity.Store.Reconcile.Batches.{
  IsSettled, IsSettledUpTo, BatchOf, one_batch, full_page, short_settles,
}

module _ (env : ℕ → Surroundings) (t : Str) (proposed : List Str) (rw_pairs : ReadWritePairs)
    (max : ℤ) where
  -- Where a run has finished everybody is settled, and else everybody up to where it resumes.
  abbrev pub Progress : Db → Answer → Type 0
  Progress db (db', err e) = Unit {0}
  Progress db (db', ok res) =
      (db'.members ≡ db.members)
      × ((p : TemplateAffected)
          → In p (holders t db.members)
          → (res.done ≡ true) ⊎ (is_after res.cursor p ≡ false)
          → IsSettled t proposed rw_pairs db' p)

  -- The answer, if there is one, makes progress.
  abbrev Yields : Db → Option Answer → Type 0
  Yields db none = Unit {0}
  Yields db (some answer) = Progress db answer

  after_batch-Yields :
      (n : ℕ) (after : Option TemplateAffected) (db : Db)
      (next : Db → Option TemplateAffected → TemplateReconcileResult → Option Answer)
      (r : TemplateReconcileResult) (outcome : Db × Result StoreError Batch)
      → IsSettledUpTo t proposed rw_pairs after db
      → ((b : Batch) → outcome.1 ≡ ok b → BatchOf t proposed rw_pairs (suc n) after db outcome.0 b)
      → ((db' : Db) (c : Option TemplateAffected) (r' : TemplateReconcileResult)
          → IsSettledUpTo t proposed rw_pairs c db'
          → Yields db' (next db' c r'))
      → Yields db (after_batch (suc n) next r outcome)
  unfolding after_batch
  after_batch-Yields n after db next r (db', err e) s batch more = tt
  after_batch-Yields n after db next r (db', ok ([], swept, spared)) s batch more =
      let done = batch ([], swept, spared) refl in
      (
        done.1.0,
        λ p i stop.
            short_settles t proposed rw_pairs (suc n) after db db' ([], swept, spared) s done
              (ground arith) p i,
      )
  after_batch-Yields n after db next r (db', ok (q ∷ page, swept, spared)) s batch more =
      by_length (ltb (length (q ∷ page)) (suc n)) refl
    where
      b : Batch
      b = (q ∷ page, swept, spared)

      moved :
          (db db' : Db) (o : Option Answer) → db'.members ≡ db.members → Yields db' o → Yields db o
      moved db db' none e y = tt
      moved db db' (some (d, err x)) e y = tt
      moved db db' (some (d, ok res)) e y =
          (y.0 ∙ e, λ p i stop. y.1 p (subst (λ ms. In p (holders t ms)) (sym e) i) stop)

      by_length :
          (short : Bool)
          → ltb (length (q ∷ page)) (suc n) ≡ short
          → Yields db (
              if short
              then some (db', ok (finished (add_batch r b)))
              else next db' (some (last q page)) (add_batch r b))
      by_length true e = (
        (batch b refl).1.0,
        λ p i stop. short_settles t proposed rw_pairs (suc n) after db db' b s (batch b refl) e p i,
      )
      by_length false e =
          let same = (batch b refl).1.0 in
          moved db db' (next db' (some (last q page)) (add_batch r b)) same (
            more db' (some (last q page)) (add_batch r b)
              (full_page t proposed rw_pairs n after db db' q page swept spared s (batch b refl)))

  loop-Yields :
      (n fuel : ℕ) (db : Db) (after : Option TemplateAffected) (r : TemplateReconcileResult)
      → IsSettledUpTo t proposed rw_pairs after db
      → Yields db (reconcile_loop env t proposed rw_pairs (suc n) max fuel db after r)
  unfolding reconcile_loop
  loop-Yields n zero db after r s = tt
  loop-Yields n (suc fuel) db after r s =
      branch-if (Yields db) ((env r.batches_run).cancelled || at_limit max r.batches_run)
        (some (db, ok (stopped r after))) _
        (refl, λ p i stop. elim stop [ inl e ↦ cc e | inr before ↦ s p i before ])
        (after_batch-Yields n after db (reconcile_loop env t proposed rw_pairs (suc n) max fuel) r
          (reconcile_one_batch (env r.batches_run).faults t proposed rw_pairs (suc n) after db) s
          (one_batch t proposed rw_pairs (env r.batches_run).faults (suc n) after db)
          (λ db' c r' s'. loop-Yields n fuel db' c r' s'))

reconcile-Progress :
    (env : ℕ → Surroundings) (has_db : Bool) (t : Str) (proposed : List Str)
    (rw_pairs : ReadWritePairs) (opts : ReconcileOptions) (db db' : Db)
    (res : TemplateReconcileResult)
    → IsSettledUpTo t proposed rw_pairs opts.after db
    → reconcile_role_template env has_db t proposed rw_pairs opts db ≡ some (db', ok res)
    → Progress env t proposed rw_pairs opts.max_batches db (db', ok res)
unfolding reconcile_role_template reconcile_sized
reconcile-Progress env has_db t proposed rw_pairs opts db db' res s h =
    subst (Yields env t proposed rw_pairs opts.max_batches db) h (
      branch-if (Yields env t proposed rw_pairs opts.max_batches db) (not has_db) _ _ tt (
        branch-if (Yields env t proposed rw_pairs opts.max_batches db) (t == []) _ _ tt
          (sized opts.batch_size)))
  where
    sized :
        (size : ℤ)
        → Yields env t proposed rw_pairs opts.max_batches db (
            reconcile_sized size db (λ size.
              reconcile_loop env t proposed rw_pairs size opts.max_batches
                (suc (length db.members))
                db
                opts.after
                zero_result))
    sized (pos zero) = tt
    sized (pos (suc n)) =
        loop-Yields env t proposed rw_pairs opts.max_batches n (suc (length db.members)) db
          opts.after zero_result s
    sized (negsuc n) = tt

-- Where the principals up to `opts.After` are settled, a run that reports no error has settled, if
-- it is done, every holder of the template, and else every holder up to the cursor that it returns:
-- each of their keys carries only scopes that the proposed ones grant. A run that a limit or the
-- context ended is thus resumed from its cursor with nothing left behind.
pub reconcile_progress :
    (env : ℕ → Surroundings) (has_db : Bool) (t : Str) (proposed : List Str)
    (rw_pairs : ReadWritePairs) (opts : ReconcileOptions) (db db' : Db)
    (res : TemplateReconcileResult)
    → IsSettledUpTo t proposed rw_pairs opts.after db
    → reconcile_role_template env has_db t proposed rw_pairs opts db ≡ some (db', ok res)
    → (p : TemplateAffected) → In p (holders t db.members)
    → (res.done ≡ true) ⊎ (is_after res.cursor p ≡ false)
    → IsSettled t proposed rw_pairs db' p
reconcile_progress env has_db t proposed rw_pairs opts db db' res s h =
    (reconcile-Progress env has_db t proposed rw_pairs opts db db' res s h).1

pub reconcile-members :
    (env : ℕ → Surroundings) (has_db : Bool) (t : Str) (proposed : List Str)
    (rw_pairs : ReadWritePairs) (opts : ReconcileOptions) (db db' : Db)
    (res : TemplateReconcileResult)
    → IsSettledUpTo t proposed rw_pairs opts.after db
    → reconcile_role_template env has_db t proposed rw_pairs opts db ≡ some (db', ok res)
    → db'.members ≡ db.members
reconcile-members env has_db t proposed rw_pairs opts db db' res s h =
    (reconcile-Progress env has_db t proposed rw_pairs opts db db' res s h).0
