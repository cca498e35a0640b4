-- ===== src/Store/Reduction.antt =====
-- identity/store/authority_reduction.go: an authority reduction and the revocation of the keys that
-- rest on it, in one transaction. A statement's effect on the tables is written out; an append of
-- the tenant predicate admits a row as `permits_organization` does.
pub mod Operations
pub mod Retained
pub mod Contained
pub mod Runs
pub mod Statements
pub mod Tenant
mod Tests
use terraform_suite_identity.Common.{
  ℕ, Str, ◌==◌, contains, List, [], ◌∷◌, length, map, filter, count_if, is_empty, Bool, true, false,
  not, ◌&&◌, Option, none, some, if◌then◌else◌, Result, ok, err, ◌>>=◌, ◌>>◌, no_error, require,
  transact,
}
use terraform_suite_identity.Common.Assoc.{Assoc, get, put}
use terraform_suite_identity.Auth.Scopes.{ReadWritePairs}
use terraform_suite_identity.Store.OrgScope.{OrgScope, matches_nothing, permits_organization}
use terraform_suite_identity.Store.Tables.{
  Member, Template, Key, Db, StoreError, no_database, no_credential_decision, not_found, no_role,
  undecodable, database, application, Faults, owned_by, member_scopes,
}
use terraform_suite_identity.Store.Sweep.{Plan, empty_plan, decide, revoke}

pub record Reduced : Type 0 where
  pub user_id : Str
  pub organizations : List Str
  pub keys_revoked : ℕ
  pub keys_retained : ℕ

-- The application's sweep of its own credentials, on the same transaction.
abbrev pub AppCredentials : Type 0
AppCredentials = Reduced → List Str → Result ℕ (List Str)

unfoldable pub no_app_credentials : AppCredentials
no_app_credentials red own = ok own

pub record Reducer : Type 0 where
  pub has_db : Bool
  pub rw_pairs : ReadWritePairs

-- `retained[orgID]`, with nil for a missing key.
abbrev pub or_nil : Option (List Str) → List Str
or_nil none = []
or_nil (some scopes) = scopes

-- The body of the loop of `retainedScopes`, for one row that the query returns.
unfoldable pub retain_row :
    Str → Option (List Str) → Assoc (List Str) → Result StoreError (Assoc (List Str))
unfolding put
retain_row org_id none retained = err undecodable
retain_row org_id (some scopes) retained = ok (put retained org_id scopes)

-- The memberships that the query selects.
abbrev pub member_of : Str → List Str → Member → Bool
member_of user_id org_ids m = m.user_id == user_id && contains org_ids m.org_id

unfoldable pub retain_rows :
    List Template
    → Str
    → List Str
    → List Member
    → Assoc (List Str)
    → Result StoreError (Assoc (List Str))
unfolding retain_row
retain_rows templates user_id org_ids [] retained = ok retained
retain_rows templates user_id org_ids (m ∷ members) retained = do
  next ←
      (if member_of user_id org_ids m
        then retain_row m.org_id (member_scopes templates m) retained
        else ok retained)
  retain_rows templates user_id org_ids members next

unfoldable pub retained_scopes : Faults → Str → List Str → Db → Result StoreError (Assoc (List Str))
unfolding retain_rows
retained_scopes f user_id org_ids db = do
  no_error database f.reads_authority
  retain_rows db.templates user_id org_ids db.members []

-- The keys that the query locks: `user_id = $1 AND organization_id = ANY($2)`.
abbrev pub derived : Str → List Str → Key → Bool
derived user_id org_ids k = owned_by k.user_id user_id && contains org_ids k.org_id

unfoldable pub sweep_derived_keys :
    Faults → ReadWritePairs → Str → List Str → Db → Result StoreError (Db × Reduced)
unfolding retained_scopes decide revoke
sweep_derived_keys f rw_pairs user_id org_ids db = do
  retained ← retained_scopes f user_id org_ids db
  no_error database f.reads_keys
  plan ←
      decide (derived user_id org_ids) (λ k. or_nil (get retained k.org_id)) rw_pairs db.keys
        empty_plan
  swept ← revoke f plan.doomed db.keys
  ok (
    record db { keys = swept.0 },
    record {
      user_id = user_id;
      organizations = org_ids;
      keys_revoked = swept.1;
      keys_retained = plan.kept;
    },
  )

-- `app(ctx, tx, red)` on the application's part of the connection.
unfoldable pub keep_own : Db → Reduced → Result ℕ (List Str) → Result StoreError (Db × Reduced)
keep_own db red (err e) = err (application e)
keep_own db red (ok own) = ok (record db { own = own }, red)

-- `if len(orgIDs) > 0 { … }` and the summary.
unfoldable pub sweep_reduced :
    Faults
    → ReadWritePairs
    → Str
    → AppCredentials
    → Db
    → List Str
    → Result StoreError (Db × Reduced)
unfolding sweep_derived_keys keep_own
sweep_reduced f rw_pairs user_id app db [] =
    ok (db, record { user_id = user_id; organizations = []; keys_revoked = 0; keys_retained = 0 })
sweep_reduced f rw_pairs user_id app db (o ∷ org_ids) = do
  swept ← sweep_derived_keys f rw_pairs user_id (o ∷ org_ids) db
  keep_own swept.0 swept.1 (app swept.1 swept.0.own)

-- What runs between `BeginTx` and `Commit`.
unfoldable pub reduction :
    Faults
    → ReadWritePairs
    → Str
    → AppCredentials
    → (Db → Result StoreError (Db × List Str))
    → Db
    → Result StoreError (Db × Reduced)
unfolding sweep_reduced
reduction f rw_pairs user_id app reduce db = do
  reduced ← reduce db
  sweep_reduced f rw_pairs user_id app reduced.0 reduced.1

unfoldable pub run :
    Option Reducer
    → Faults
    → Str
    → Option AppCredentials
    → (Db → Result StoreError (Db × List Str))
    → Db
    → Db × Result StoreError Reduced
unfolding reduction transact
run none f user_id app reduce db = (db, err no_database)
run (some r) f user_id none reduce db =
    (db, err (if r.has_db then no_credential_decision else no_database))
run (some r) f user_id (some app) reduce db =
    if r.has_db
    then transact database f.begins f.commit (reduction f r.rw_pairs user_id app reduce) db
    else (db, err no_database)
