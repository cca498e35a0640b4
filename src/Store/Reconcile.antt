-- ===== src/Store/Reconcile.antt =====
-- identity/store/template_reconcile.go: the reconciliation of the keys of a role template's holders
-- with proposed scopes, in batches of principals, each its own transaction.
pub mod Order
pub mod Batches
pub mod Progress
pub mod Termination
pub mod Preview
mod Tests
use terraform_suite_identity.Common.{
  sort_by, ℕ, zero, suc, ◌+◌, Str, ◌==◌, contains, nat_eq, leb, ltb, List, [], ◌∷◌, length, map,
  filter, Bool, true, false, not, ◌&&◌, ◌||◌, Option, none, some, ℤ, pos, negsuc, if◌then◌else◌,
  Result, ok, err, ◌>>=◌, ◌>>◌, no_error, transact, CommitOutcome, take, is_empty,
}
use terraform_suite_identity.Auth.Scopes.{ReadWritePairs}
use terraform_suite_identity.Store.OrgScope.{str_lt}
use terraform_suite_identity.Store.Tables.{
  Member, Key, Db, StoreError, no_database, empty_template, bad_batch_size, undecodable, database,
  Faults, owned_by,
}
use terraform_suite_identity.Store.Sweep.{Plan, empty_plan, authority_retained, decide, revoke}

pub record TemplateAffected : Type 0 where
  pub organization_id : Str
  pub user_id : Str

-- `(organization_id, user_id) > ($2, $3)`, with the arguments the other way round.
unfoldable pub row_lt : TemplateAffected → TemplateAffected → Bool
row_lt p q =
    str_lt p.organization_id q.organization_id
    || (p.organization_id == q.organization_id && str_lt p.user_id q.user_id)

abbrev pub principal_of : Member → TemplateAffected
principal_of m = record { organization_id = m.org_id; user_id = m.user_id }

-- `role_template_id = $1`
abbrev pub holds_template : Str → Member → Bool
holds_template template_id m = owned_by m.role_template_id template_id

-- The principals that hold the template: `ORDER BY organization_id, user_id`.
unfoldable pub holders : Str → List Member → List TemplateAffected
unfolding sort_by
holders template_id members =
    sort_by row_lt (map principal_of (filter (holds_template template_id) members))

abbrev pub is_after : Option TemplateAffected → TemplateAffected → Bool
is_after none p = true
is_after (some c) p = row_lt c p

unfoldable pub plan_batch :
    Faults → Str → Option TemplateAffected → ℕ → Db → Result StoreError (List TemplateAffected)
unfolding holders
plan_batch f template_id after batch_size db = do
  no_error database f.reduces
  ok (take batch_size (filter (is_after after) (holders template_id db.members)))

-- The condition that joins a key to a principal.
abbrev pub belongs : TemplateAffected → Key → Bool
belongs p k = p.organization_id == k.org_id && owned_by k.user_id p.user_id

-- Some principal of the page has the key: the join with the two unnested columns.
unfoldable pub in_page : List TemplateAffected → Key → Bool
in_page [] k = false
in_page (p ∷ page) k = if belongs p k then true else in_page page k

-- The key's user still holds the template there: the join with organization_members.
unfoldable pub still_holds : Str → List Member → Key → Bool
still_holds template_id [] k = false
still_holds template_id (m ∷ members) k =
    if holds_template template_id m && belongs (principal_of m) k
    then true
    else still_holds template_id members k

abbrev pub batch_key : Str → List Member → List TemplateAffected → Key → Bool
batch_key template_id members page k = in_page page k && still_holds template_id members k

unfoldable pub sweep_batch_keys :
    Faults
    → Str
    → List Str
    → ReadWritePairs
    → List TemplateAffected
    → Db
    → Result StoreError (Db × ℕ × ℕ)
sweep_batch_keys f template_id proposed rw_pairs page db = do
  no_error database f.reads_keys
  plan ← decide (batch_key template_id db.members page) (λ k. proposed) rw_pairs db.keys empty_plan
  swept ← revoke f plan.doomed db.keys
  ok (record db { keys = swept.0 }, swept.1, plan.kept)

-- A batch's page, with the numbers of keys swept and spared.
abbrev pub Batch : Type 0
Batch = List TemplateAffected × ℕ × ℕ

unfoldable pub sweep_page :
    Faults
    → Str
    → List Str
    → ReadWritePairs
    → Db
    → List TemplateAffected
    → Result StoreError (Db × Batch)
unfolding sweep_batch_keys
sweep_page f template_id proposed rw_pairs db [] = ok (db, ([], 0, 0))
sweep_page f template_id proposed rw_pairs db (p ∷ page) = do
  swept ← sweep_batch_keys f template_id proposed rw_pairs (p ∷ page) db
  ok (swept.0, (p ∷ page, swept.1, swept.2))

unfoldable pub batch_body :
    Faults
    → Str
    → List Str
    → ReadWritePairs
    → ℕ
    → Option TemplateAffected
    → Db
    → Result StoreError (Db × Batch)
unfolding plan_batch sweep_page
batch_body f template_id proposed rw_pairs batch_size after db = do
  page ← plan_batch f template_id after batch_size db
  sweep_page f template_id proposed rw_pairs db page

unfoldable pub reconcile_one_batch :
    Faults
    → Str
    → List Str
    → ReadWritePairs
    → ℕ
    → Option TemplateAffected
    → Db
    → Db × Result StoreError Batch
unfolding batch_body transact
reconcile_one_batch f template_id proposed rw_pairs batch_size after db =
    transact database f.begins f.commit
      (batch_body f template_id proposed rw_pairs batch_size after) db

-- A size or a bound is an `int`; only the sign of the size matters below zero.
pub record ReconcileOptions : Type 0 where
  pub batch_size : ℤ
  pub max_batches : ℤ
  pub after : Option TemplateAffected

pub record TemplateReconcileResult : Type 0 where
  pub batches_run : ℕ
  pub principals_checked : ℕ
  pub keys_swept : ℕ
  pub keys_spared : ℕ
  pub cursor : Option TemplateAffected
  pub done : Bool

-- What surrounds a batch: whether the context has ended, and its transaction's faults.
pub record Surroundings : Type 0 where
  pub cancelled : Bool
  pub faults : Faults

abbrev pub last : TemplateAffected → List TemplateAffected → TemplateAffected
last p [] = p
last p (q ∷ qs) = last q qs

-- `opts.MaxBatches > 0 && result.BatchesRun >= opts.MaxBatches`
abbrev pub at_limit : ℤ → ℕ → Bool
at_limit (pos n) run = ltb 0 n && leb n run
at_limit (negsuc n) run = false

-- `result` with `Done` false and the place to resume at, or with `Done` and no such place.
abbrev pub stopped : TemplateReconcileResult → Option TemplateAffected → TemplateReconcileResult
stopped r cursor = record r { cursor = cursor; done = false }

abbrev pub finished : TemplateReconcileResult → TemplateReconcileResult
finished r = record r { cursor = none; done = true }

unfoldable pub add_batch : TemplateReconcileResult → Batch → TemplateReconcileResult
add_batch r (page, swept, spared) = record r {
  batches_run = r.batches_run + 1;
  principals_checked = r.principals_checked + length page;
  keys_swept = r.keys_swept + swept;
  keys_spared = r.keys_spared + spared;
}

abbrev pub Answer : Type 0
Answer = Db × Result StoreError TemplateReconcileResult

-- The end of the loop's body: `next` is its next turn.
unfoldable pub after_batch :
    ℕ
    → (Db → Option TemplateAffected → TemplateReconcileResult → Option Answer)
    → TemplateReconcileResult
    → Db × Result StoreError Batch
    → Option Answer
unfolding add_batch
after_batch batch_size next r (db, err e) = some (db, err e)
after_batch batch_size next r (db, ok ([], swept, spared)) =
    some (db, ok (finished (add_batch r ([], swept, spared))))
after_batch batch_size next r (db, ok (p ∷ page, swept, spared)) =
    let counted = add_batch r (p ∷ page, swept, spared) in
    if ltb (length (p ∷ page)) batch_size
    then some (db, ok (finished counted))
    else next db (some (last p page)) counted

-- The loop, on fuel; `none` is out of fuel.
unfoldable pub reconcile_loop :
    (ℕ → Surroundings)
    → Str
    → List Str
    → ReadWritePairs
    → ℕ
    → ℤ
    → ℕ
    → Db
    → Option TemplateAffected
    → TemplateReconcileResult
    → Option Answer
unfolding after_batch reconcile_one_batch
reconcile_loop env template_id proposed rw_pairs size max zero db cursor r = none
reconcile_loop env template_id proposed rw_pairs size max (suc fuel) db cursor r =
    let around = env r.batches_run in
    let next = reconcile_loop env template_id proposed rw_pairs size max fuel in
    if around.cancelled || at_limit max r.batches_run
    then some (db, ok (stopped r cursor))
    else after_batch size next r
        (reconcile_one_batch around.faults template_id proposed rw_pairs size cursor db)

abbrev pub zero_result : TemplateReconcileResult
zero_result = record {
  batches_run = 0;
  principals_checked = 0;
  keys_swept = 0;
  keys_spared = 0;
  cursor = none;
  done = false;
}

-- The check of the batch size.
unfoldable pub reconcile_sized : ℤ → Db → (ℕ → Option Answer) → Option Answer
reconcile_sized (pos (suc n)) db loop = loop (suc n)
reconcile_sized size db loop = some (db, err bad_batch_size)

-- One turn for each row of organization_members, and one more.
unfoldable pub reconcile_role_template :
    (ℕ → Surroundings)
    → Bool
    → Str
    → List Str
    → ReadWritePairs
    → ReconcileOptions
    → Db
    → Option Answer
unfolding reconcile_loop reconcile_sized
reconcile_role_template env has_db template_id proposed rw_pairs opts db =
    let fuel = suc (length db.members) in
    if not has_db
    then some (db, err no_database)
    else if template_id == []
    then some (db, err empty_template)
    else reconcile_sized opts.batch_size db (λ size.
      reconcile_loop env template_id proposed rw_pairs size opts.max_batches fuel db opts.after
        zero_result)
