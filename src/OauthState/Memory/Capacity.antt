-- ===== src/OauthState/Memory/Capacity.antt =====
-- The budgets of the memory store, and the room that `makeRoomLocked` leaves.
use terraform_suite_identity.Common.{
  ℕ, zero, suc, ◌+◌, ◌-◌, ◌≤◌, ◌<◌, Str, [], ◌∷◌, length, ◌≡◌, inl, inr, refl, Bool, false, Option,
  none, leb, Bool-cases, arith,
}
use terraform_suite_identity.Common.Assoc
use terraform_suite_identity.Common.Assoc.{
  Assoc, get-delete, get-put, count-delete_there, count-delete-le,
}
use terraform_suite_identity.OauthState.Store.{StoreError}
use terraform_suite_identity.OauthState.Memory.{
  Entry, MemoryStore, is_replay_marker, is_login_state, purge_expired, evict_until, make_room,
}
use terraform_suite_identity.OauthState.Memory.Counts.{
  IsMap, delete-IsMap, count-delete_one, purge-IsMap, count-purge-le,
}
use terraform_suite_identity.OauthState.Memory.Victim.{Evicts, evict_lem}

-- Each key once, a positive budget, and no namespace above it.
pub record IsWithin (s : MemoryStore) : Type 0 where
  pub keys : IsMap s.entries
  pub positive : 1 ≤ s.max_entries
  pub states : Assoc.count is_login_state s.entries ≤ s.max_entries
  pub markers : Assoc.count is_replay_marker s.entries ≤ s.max_entries

-- The entries that making room leaves for a login state.
abbrev pub HasRoom : ℕ → Assoc Entry → Assoc Entry × Option StoreError → Type 0
HasRoom max m r =
    (r.1 ≡ none)
    × IsMap r.0
    × (Assoc.count is_login_state r.0 < max)
    × (Assoc.count is_replay_marker r.0 ≤ Assoc.count is_replay_marker m)

Evicts-counts :
    (m rest : Assoc Entry)
    → IsMap m
    → Evicts m rest
    → IsMap rest
      × (Assoc.count is_login_state rest + 1 ≡ Assoc.count is_login_state m)
      × (Assoc.count is_replay_marker rest ≤ Assoc.count is_replay_marker m)
Evicts-counts m rest h ev = rw ev.removed (
  delete-IsMap m ev.victim h,
  count-delete_one is_login_state m ev.victim ev.entry h ev.there ev.login,
  count-delete-le is_replay_marker m ev.victim,
)

evict_until_lem :
    (fuel states max : ℕ) (m : Assoc Entry)
    → IsMap m
    → 1 ≤ max
    → states ≡ Assoc.count is_login_state m
    → states < fuel
    → HasRoom max m (evict_until fuel states max m)
unfolding evict_until
evict_until_lem zero states max m h pos count enough = absurd (omega arith)
evict_until_lem (suc fuel) states max m h pos count enough = elim (Bool-cases (leb max states)) [
  | inr room ↦ rw room (refl, h, ground arith, omega arith)
  | inl full ↦
      let (rest, found, ev) = evict_lem m h (ground arith) in
      let (keys, fewer, markers) = Evicts-counts m rest h ev in
      let (fine, keys', room, markers') =
        evict_until_lem fuel (states - 1) max rest keys pos (omega arith) (ground arith) in
      rw (full, found, evict_until) (fine, keys', room, omega arith)
]

count-length-le : (test : Str → Bool) (m : Assoc Entry) → Assoc.count test m ≤ length m
unfolding Assoc.count
count-length-le test [] = omega arith
count-length-le test ((k, e) ∷ m) = ground (arith, count-length-le test m)

-- Making room for a login state succeeds, within the fuel that it is given.
pub make_room-login :
    (s : MemoryStore) (key : Str) (now : ℕ)
    → IsWithin s
    → is_replay_marker key ≡ false
    → HasRoom s.max_entries s.entries (make_room s key now)
unfolding make_room
make_room-login s key now w plain =
    let live = purge_expired now s.entries in
    let (fine, keys, room, markers) =
      evict_until_lem (suc (length live)) (Assoc.count is_login_state live) s.max_entries live
        (purge-IsMap now s.entries w.keys) w.positive refl
        (let le = count-length-le is_login_state live in omega arith) in
    let fewer = count-purge-le is_replay_marker now s.entries in
    rw plain (fine, keys, room, omega arith)
