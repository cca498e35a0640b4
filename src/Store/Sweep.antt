-- ===== src/Store/Sweep.antt =====
-- The part that identity/store/authority_reduction.go and identity/store/template_reconcile.go have
-- in common: which keys an authority still covers, and the deletion of the others.
pub mod Deletion
pub mod Decisions
use terraform_suite_identity.Common.{
  ℕ, ◌+◌, Str, contains, nat_eq, List, [], ◌∷◌, ◌++◌, length, count_if, Bool, true, false, not,
  Option, none, some, if◌then◌else◌, Result, ok, err, ◌>>=◌, ◌>>◌, no_error, require, map,
}
use terraform_suite_identity.Auth.Scopes.{ReadWritePairs, has_scope}
use terraform_suite_identity.Store.Tables.{
  Key, StoreError, undecodable, miscounted, database, Faults, without_keys,
}

unfoldable pub authority_retained : List Str → List Str → ReadWritePairs → Bool
authority_retained [] retained rw_pairs = true
authority_retained (s ∷ have) retained rw_pairs =
    if not (has_scope retained s rw_pairs) then false else authority_retained have retained rw_pairs

-- What the loop over the locked keys counts and collects.
pub record Plan : Type 0 where
  pub kept : ℕ
  pub doomed : List Str

abbrev pub empty_plan : Plan
empty_plan = record { kept = 0; doomed = [] }

-- `kept++; continue`, or `doomed = append(doomed, id)`.
unfoldable pub judge : Bool → Key → Plan → Plan
judge true k plan = record plan { kept = plan.kept + 1 }
judge false k plan = record plan { doomed = plan.doomed ++ k.id ∷ [] }

-- The body of the loop, for one row that the query returns, whose scopes have been decoded.
unfoldable pub decide_key :
    List Str → ReadWritePairs → Key → Plan → Option (List Str) → Result StoreError Plan
unfolding judge authority_retained
decide_key authority rw_pairs k plan none = err undecodable
decide_key authority rw_pairs k plan (some have) =
    ok (judge (authority_retained have authority rw_pairs) k plan)

-- The loop over the keys, of which the query returns the selected ones.
unfoldable pub decide :
    (Key → Bool) → (Key → List Str) → ReadWritePairs → List Key → Plan → Result StoreError Plan
decide selected authority rw_pairs [] plan = ok plan
decide selected authority rw_pairs (k ∷ keys) plan = do
  next ← (if selected k then decide_key (authority k) rw_pairs k plan k.scopes else ok plan)
  decide selected authority rw_pairs keys next

-- The deletion with its count; nothing is sent where nothing is doomed.
unfoldable pub revoke : Faults → List Str → List Key → Result StoreError (List Key × ℕ)
revoke f [] keys = ok (keys, 0)
revoke f (d ∷ doomed) keys = do
  no_error database f.deletes_keys
  no_error database f.deleted_rows
  let deleted = count_if (λ (k : Key). contains (d ∷ doomed) k.id) keys
  require (nat_eq deleted (length (d ∷ doomed))) miscounted
  ok (without_keys (d ∷ doomed) keys, deleted)
