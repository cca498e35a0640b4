-- ===== src/OauthState/Memory/Counts.antt =====
-- The entries as a map: each key once, and what purging and deleting do to counts.
use terraform_suite_identity.Common.{
  ℕ, ◌+◌, ◌≤◌, Str, eq_iff, [], ◌∷◌, ◌≡◌, ◌≢◌, refl, Bool, true, none, some, arith,
}
use terraform_suite_identity.Common.Assoc
use terraform_suite_identity.Common.Assoc.{
  Assoc, get-delete, get-put, count-delete_there, count-delete-le,
}
use terraform_suite_identity.OauthState.Memory.{Entry, purge_expired}

-- Every key occurs once, and none is empty, as in a Go map that only `PutIfAbsent` writes.
abbrev pub IsMap : Assoc Entry → Type 0
IsMap [] = Unit
IsMap ((k, e) ∷ m) = (k ≢ []) × (Assoc.get m k ≡ none) × IsMap m

pub delete-IsMap : (m : Assoc Entry) (k : Str) → IsMap m → IsMap (Assoc.delete m k)
unfolding Assoc.delete
delete-IsMap [] k h = tt
delete-IsMap ((j, e) ∷ m) k h = ground (arith, delete-IsMap m k (h.2), get-delete m k j)

pub get-purge_none :
    (now : ℕ) (m : Assoc Entry) (k : Str)
    → Assoc.get m k ≡ none
    → Assoc.get (purge_expired now m) k ≡ none
unfolding Assoc.get purge_expired
get-purge_none now [] k h = refl
get-purge_none now ((j, e) ∷ m) k h = ground (arith, get-purge_none now m k)

pub purge-IsMap : (now : ℕ) (m : Assoc Entry) → IsMap m → IsMap (purge_expired now m)
unfolding purge_expired
purge-IsMap now [] h = tt
purge-IsMap now ((k, e) ∷ m) h =
    ground (arith, purge-IsMap now m (h.2), get-purge_none now m k (h.1))

pub count-purge-le :
    (test : Str → Bool) (now : ℕ) (m : Assoc Entry)
    → Assoc.count test (purge_expired now m) ≤ Assoc.count test m
unfolding Assoc.count purge_expired
count-purge-le test now [] = omega arith
count-purge-le test now ((k, e) ∷ m) = ground (arith, count-purge-le test now m)

-- Over a map, deleting a key that is there lowers the count by one exactly.
pub count-delete-none :
    (test : Str → Bool) (m : Assoc Entry) (k : Str)
    → Assoc.get m k ≡ none
    → Assoc.count test (Assoc.delete m k) ≡ Assoc.count test m
unfolding Assoc.count Assoc.delete Assoc.get
count-delete-none test [] k h = refl
count-delete-none test ((j, e) ∷ m) k h = ground (arith, count-delete-none test m k)

pub count-delete_one :
    (test : Str → Bool) (m : Assoc Entry) (k : Str) (e : Entry)
    → IsMap m
    → Assoc.get m k ≡ some e
    → test k ≡ true
    → Assoc.count test (Assoc.delete m k) + 1 ≡ Assoc.count test m
unfolding Assoc.count Assoc.delete Assoc.get
count-delete_one test [] k e h found t = cc
count-delete_one test ((j, x) ∷ m) k e h found t =
    ground (arith, eq_iff j k, count-delete_one test m k e (h.2), count-delete-none test m j (h.1))
