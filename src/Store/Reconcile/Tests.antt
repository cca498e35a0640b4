-- ===== src/Store/Reconcile/Tests.antt =====
-- A reconciliation in batches of one (identity/store/template_reconcile.go), and witnesses.
use terraform_suite_identity.Common.{
  ℕ, String, lit, ◌==◌, contains, filter, count_if, take, [], ◌∷◌, true, false, none, some, ok,
  commits, ◌≡◌, ◌≢◌, inl, inr, refl, pos,
}
use terraform_suite_identity.Auth.Scopes.{has_scope, ReadWritePairs}
use terraform_suite_identity.Store.OrgScope.{str_lt}
use terraform_suite_identity.Store.Tables.{Key, Db, Faults, without_keys, Member}
use terraform_suite_identity.Store.Sweep.{decide_key, decide, revoke}
use terraform_suite_identity.Store.Reconcile.{
  TemplateAffected, holders, ReconcileOptions, TemplateReconcileResult, Surroundings,
  reconcile_role_template, row_lt, in_page, still_holds,
}
use terraform_suite_identity.Store.Reconcile.Batches.{IsSettled}
use terraform_suite_identity.Store.Reconcile.Progress.{reconcile_progress}
use terraform_suite_identity.Store.Reconcile.Preview.{
  TemplateReconcileImpact, preview_role_template_reconciliation, preview-reconcile,
}
use terraform_suite_identity.Store.Reconcile.Termination.{reconcile_terminates}

abbrev no_faults : Faults
no_faults = record {
  begins = none;
  lookup = none;
  reduces = none;
  reduced_rows = none;
  reads_authority = none;
  reads_keys = none;
  deletes_keys = none;
  deleted_rows = none;
  commit = commits;
}

abbrev calm : ℕ → Surroundings
calm n = record { cancelled = false; faults = no_faults }

abbrev pairs : ReadWritePairs
pairs = (lit "read", lit "write") ∷ []

abbrev key_of : String → Key
key_of u = record {
  id = lit u;
  org_id = lit "a";
  user_id = some (lit u);
  scopes = some (lit "write" ∷ []);
}

abbrev member_of : String → Member
member_of u = record { org_id = lit "a"; user_id = lit u; role_template_id = some (lit "t") }

abbrev tables : Db
tables = record {
  members = member_of "v" ∷ member_of "u" ∷ [];
  templates = [];
  keys = key_of "u" ∷ key_of "v" ∷ [];
  own = [];
}

-- One principal at a time, to the end.
abbrev to_the_end : ReconcileOptions
to_the_end = record { batch_size = pos 1; max_batches = pos 0; after = none }

-- Both keys write, and only reading is proposed.
abbrev swept : TemplateReconcileResult
swept = record {
  batches_run = 3;
  principals_checked = 2;
  keys_swept = 2;
  keys_spared = 0;
  cursor = none;
  done = true;
}

abbrev emptied : Db
emptied = record tables { keys = [] }

to_the_end_sweeps :
    reconcile_role_template calm true (lit "t") (lit "read" ∷ []) pairs to_the_end tables
    ≡ some (emptied, ok swept)
unfolding reconcile_role_template ◌==◌ contains has_scope filter count_if take str_lt without_keys
    decide_key row_lt decide in_page still_holds revoke
to_the_end_sweeps = refl

-- The same after one batch: the first principal is settled, and the run can be resumed.
abbrev one_batch_only : ReconcileOptions
one_batch_only = record { batch_size = pos 1; max_batches = pos 1; after = none }

abbrev first_of_two : TemplateAffected
first_of_two = record { organization_id = lit "a"; user_id = lit "u" }

abbrev halted : TemplateReconcileResult
halted = record {
  batches_run = 1;
  principals_checked = 1;
  keys_swept = 1;
  keys_spared = 0;
  cursor = some first_of_two;
  done = false;
}

abbrev half : Db
half = record tables { keys = key_of "v" ∷ [] }

one_batch_halts :
    reconcile_role_template calm true (lit "t") (lit "read" ∷ []) pairs one_batch_only tables
    ≡ some (half, ok halted)
unfolding reconcile_role_template ◌==◌ contains has_scope filter count_if take str_lt without_keys
    decide_key row_lt decide in_page still_holds revoke
one_batch_halts = refl

reconcile_progress_example : IsSettled (lit "t") (lit "read" ∷ []) pairs half first_of_two
unfolding holders row_lt str_lt ◌==◌ filter
reconcile_progress_example =
    reconcile_progress calm true (lit "t") (lit "read" ∷ []) pairs one_batch_only tables half halted
      (λ p i e. cc e) one_batch_halts first_of_two (inl refl) (inr refl)

reconcile_terminates_example :
    reconcile_role_template calm true (lit "t") (lit "read" ∷ []) pairs one_batch_only tables ≢ none
reconcile_terminates_example =
    reconcile_terminates calm true (lit "t") (lit "read" ∷ []) pairs one_batch_only tables

preview-reconcile_example :
    (impact : TemplateReconcileImpact) × (preview_role_template_reconciliation no_faults true
        (lit "t")
        (lit "read" ∷ [])
        pairs
        emptied
      ≡ ok impact)
    × (impact.keys ≡ 0)
    × (impact.principals ≡ 0)
unfolding ◌==◌
preview-reconcile_example =
    preview-reconcile calm no_faults (lit "t") (lit "read" ∷ []) pairs to_the_end tables emptied
      swept refl refl refl to_the_end_sweeps refl
