-- ===== src/Store/Reconcile/Batches.antt =====
-- What one batch of a reconciliation settles (identity/store/template_reconcile.go).
use terraform_suite_identity.Common.{
  In-sort_by, ℕ, suc, Str, ltb, List, [], ◌∷◌, length, filter, In-filter, take, map, In, Bool, true,
  false, ◌&&◌, Option, some, if◌then◌else◌, Bool-cases, ok, >>=-eq-ok, >>-eq-ok, ok_inj, no_error,
  transact, transact-ok, ◌≡◌, ◌⊎◌, inl, inr, refl, sym, ap, subst, ◌∙◌, arith,
}
use terraform_suite_identity.Auth.Scopes.{ReadWritePairs}
use terraform_suite_identity.Store.Tables.{Member, Key, Db, database, Faults}
use terraform_suite_identity.Store.Sweep.{empty_plan, decide, revoke}
use terraform_suite_identity.Store.Sweep.Decisions.{IsCovered, sweep-IsCovered}
use terraform_suite_identity.Store.Reconcile.{
  TemplateAffected, row_lt, principal_of, holds_template, holders, is_after, plan_batch, belongs,
  in_page, still_holds, batch_key, sweep_batch_keys, Batch, sweep_page, batch_body,
  reconcile_one_batch, last,
}
use terraform_suite_identity.Store.Reconcile.Order.{
  IsOrdered, sort_by-IsOrdered, filter-IsOrdered, page_split, short_page,
}

in_page-In :
    (p : TemplateAffected) (page : List TemplateAffected) (k : Key)
    → In p page
    → belongs p k ≡ true
    → in_page page k ≡ true
unfolding in_page
in_page-In p [] k i b = elim i [ ]
in_page-In p (q ∷ page) k (inl same) b =
    let b' = subst (λ x. belongs x k ≡ true) (sym same) b in ground arith
in_page-In p (q ∷ page) k (inr later) b = let rest = in_page-In p page k later b in ground arith

still_holds-In :
    (t : Str) (p : TemplateAffected) (ms : List Member) (k : Key)
    → In p (map principal_of (filter (holds_template t) ms))
    → belongs p k ≡ true
    → still_holds t ms k ≡ true
unfolding still_holds filter
still_holds-In t p [] k i b = elim i [ ]
still_holds-In t p (m ∷ ms) k i b =
    by_test (holds_template t m) (belongs (principal_of m) k) refl
      (λ j. still_holds-In t p ms k j b) i
  where
    by_test :
        (holds here : Bool)
        → belongs (principal_of m) k ≡ here
        → (In p (map principal_of (filter (holds_template t) ms)) → still_holds t ms k ≡ true)
        → In p (
            map principal_of
              (if holds then m ∷ filter (holds_template t) ms else filter (holds_template t) ms))
        → (if holds && here then true else still_holds t ms k) ≡ true
    by_test false here e rest i = rest i
    by_test true true e rest i = refl
    by_test true false e rest (inl same) = cc (subst (λ x. belongs x k ≡ true) (sym same) b, e)
    by_test true false e rest (inr later) = rest later

abbrev last_lt : List TemplateAffected → TemplateAffected → Bool
last_lt [] p = false
last_lt (q ∷ page) p = row_lt (last q page) p

module _ (t : Str) (proposed : List Str) (rw_pairs : ReadWritePairs) where
  -- Every key of the principal carries only scopes that the proposed ones grant.
  abbrev pub IsSettled : Db → TemplateAffected → Type 0
  IsSettled db p =
      (k : Key) → In k db.keys → belongs p k ≡ true → IsCovered (λ k. proposed) rw_pairs k

  -- The principals up to the place where a run resumes are settled.
  abbrev pub IsSettledUpTo : Option TemplateAffected → Db → Type 0
  IsSettledUpTo after db =
      (p : TemplateAffected)
      → In p (holders t db.members)
      → is_after after p ≡ false
      → IsSettled db p

  -- A batch settles its page, and unsettles nobody.
  abbrev pub BatchDone : Db → Db → List TemplateAffected → Type 0
  BatchDone db db' page =
      (db'.members ≡ db.members)
      × ((p : TemplateAffected) → IsSettled db p → IsSettled db' p)
      × ((p : TemplateAffected) → In p page → In p (holders t db.members) → IsSettled db' p)

  sweep_page-BatchDone :
      (f : Faults) (db db' : Db) (page : List TemplateAffected) (b : Batch)
      → sweep_page f t proposed rw_pairs db page ≡ ok (db', b)
      → BatchDone db db' page × (b.0 ≡ page)
  unfolding sweep_page sweep_batch_keys holders
  sweep_page-BatchDone f db db' [] b h =
      let same = ap (λ (x : Db × Batch). x.0) (ok_inj h) in
      (
        subst (λ (x : Db). BatchDone db x []) same (refl, λ p s. s, λ p i. elim i [ ]),
        ap (λ (x : Db × Batch). x.1.0) (sym (ok_inj h)),
      )
  sweep_page-BatchDone f db db' (q ∷ page) b h =
      let (outcome, a, h1) =
        >>=-eq-ok (sweep_batch_keys f t proposed rw_pairs (q ∷ page) db) _ _ h in
      let h2 = (>>-eq-ok (no_error database f.reads_keys) _ _ a).1 in
      let selected = batch_key t db.members (q ∷ page) in
      let (plan, c, h3) =
        >>=-eq-ok (decide selected (λ k. proposed) rw_pairs db.keys empty_plan) _ _ h2 in
      let (swept, d, h4) = >>=-eq-ok (revoke f plan.doomed db.keys) _ _ h3 in
      let all =
        sweep-IsCovered (λ k. proposed) rw_pairs selected f db.keys swept.0 swept.1 plan c d in
      let e = ap (λ (x : Db × ℕ × ℕ). x.0) (ok_inj h4) ∙ ap (λ (x : Db × Batch). x.0) (ok_inj h1) in
      (
        subst (λ (x : Db). BatchDone db x (q ∷ page)) e
            (
              refl,
              λ p s k i b. s k (all k i).0 b,
              λ p i there k j b.
                  let here = in_page-In p (q ∷ page) k i b in
                  let member =
                    (In-sort_by row_lt p
                        (map principal_of (filter (holds_template t) db.members))).0
                      there in
                  let still = still_holds-In t p db.members k member b in
                  (all k j).1 (ground arith),
            ),
        ap (λ (x : Db × Batch). x.1.0) (sym (ok_inj h1)),
      )

  -- The page of a batch, and what the batch did.
  abbrev pub BatchOf : ℕ → Option TemplateAffected → Db → Db → Batch → Type 0
  BatchOf size after db db' b =
      (b.0 ≡ take size (filter (is_after after) (holders t db.members))) × BatchDone db db' b.0

  pub one_batch :
      (f : Faults) (size : ℕ) (after : Option TemplateAffected) (db : Db) (b : Batch)
      → (reconcile_one_batch f t proposed rw_pairs size after db).1 ≡ ok b
      → BatchOf size after db (reconcile_one_batch f t proposed rw_pairs size after db).0 b
  unfolding reconcile_one_batch batch_body plan_batch
  one_batch f size after db b h =
      let body =
        transact-ok database f.begins f.commit (batch_body f t proposed rw_pairs size after) db b
          h in
      let (page, a, h1) = >>=-eq-ok (plan_batch f t after size db) _ _ body in
      let e = ok_inj ((>>-eq-ok (no_error database f.reduces) _ _ a).1) in
      let (batch_done, same) =
        sweep_page-BatchDone f db
          (transact database f.begins f.commit (batch_body f t proposed rw_pairs size after) db).0
          page b h1 in
      (
        same ∙ sym e,
        subst
            (BatchDone db
              (transact database f.begins f.commit (batch_body f t proposed rw_pairs size after)
                db).0)
            (sym same) batch_done,
      )

  -- Who is settled after a batch: those before it, and its page.
  page_settles :
      (size : ℕ) (after : Option TemplateAffected) (db db' : Db) (b : Batch) (p : TemplateAffected)
      → IsSettledUpTo after db
      → BatchOf size after db db' b
      → In p (holders t db.members)
      → (is_after after p ≡ false) ⊎ In p b.0
      → IsSettled db' p
  page_settles size after db db' b p s (e, (members, keep, settle)) i (inl before) =
      keep p (s p i before)
  page_settles size after db db' b p s (e, (members, keep, settle)) i (inr here) = settle p here i

  -- After a full page the run resumes behind its last row.
  pub full_page :
      (n : ℕ) (after : Option TemplateAffected) (db db' : Db) (q : TemplateAffected)
      (page : List TemplateAffected) (swept spared : ℕ)
      → IsSettledUpTo after db
      → BatchOf (suc n) after db db' (q ∷ page, swept, spared)
      → IsSettledUpTo (some (last q page)) db'
  unfolding holders take
  full_page n after db db' q page swept spared s batch p there level =
      let i = subst (λ ms. In p (holders t ms)) batch.1.0 there in
      let ordered =
        filter-IsOrdered (is_after after) (holders t db.members)
          (sort_by-IsOrdered (map principal_of (filter (holds_template t) db.members))) in
      page_settles (suc n) after db db' (q ∷ page, swept, spared) p s batch i
        (elim (Bool-cases (is_after after p)) [
          | inr before ↦ inl before
          | inl later ↦
              in_full n (filter (is_after after) (holders t db.members)) ordered (sym batch.0)
                (In-filter (is_after after) p (holders t db.members) i later)
        ])
    where
      in_full :
          (n : ℕ) (rows : List TemplateAffected)
          → IsOrdered rows
          → take (suc n) rows ≡ q ∷ page
          → In p rows
          → (is_after after p ≡ false) ⊎ In p (q ∷ page)
      in_full n [] ordered e i = elim i [ ]
      in_full n (r ∷ rows) ordered e i = elim (page_split n r rows ordered p i) [
        | inl here ↦ inr (subst (In p) e here)
        | inr later ↦ cc (subst (λ l. last_lt l p ≡ true) e later, level)
      ]

  -- After a page that is not full everybody is settled.
  pub short_settles :
      (size : ℕ) (after : Option TemplateAffected) (db db' : Db) (b : Batch)
      → IsSettledUpTo after db
      → BatchOf size after db db' b
      → ltb (length b.0) size ≡ true
      → (p : TemplateAffected) → In p (holders t db.members)
      → IsSettled db' p
  short_settles size after db db' b s batch short p i =
      page_settles size after db db' b p s batch i (elim (Bool-cases (is_after after p)) [
        | inr before ↦ inl before
        | inl later ↦
            let rows = filter (is_after after) (holders t db.members) in
            let short' = subst (λ l. ltb (length l) size ≡ true) batch.0 short in
            let all = batch.0 ∙ short_page size rows short' in
            inr
              (subst (In p) (sym all) (In-filter (is_after after) p (holders t db.members) i later))
      ])
