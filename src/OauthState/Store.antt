-- ===== src/OauthState/Store.antt =====
-- The `Store` interface of oauthstate.go, its errors, and the key prefixes.
pub use terraform_suite_identity.Common.{Result, ok, err}
use terraform_suite_identity.Common.{ℕ, ℤ, Str, lit, List, Option}

abbrev pub Bytes : Type 0
Bytes = List ℕ

-- The errors of a store. `backend` is any other failure of one that is not the memory store.
pub data StoreError : Type 0 where
  key_required ttl_not_positive already_exists capacity_exhausted not_found : StoreError
  backend : ℕ → StoreError

-- The operations on a store whose state is an `S`; a time is an argument of each call.
pub record Store (S : Type 0) : Type 0 where
  pub put_if_absent : S → ℕ → Str → Bytes → ℤ → S × Option StoreError
  pub take : S → ℕ → Str → S × Result StoreError Bytes
  pub close : S → S

abbrev pub state_prefix : Str
state_prefix = lit "state:"

abbrev pub reserve_prefix : Str
reserve_prefix = lit "reserve:"
