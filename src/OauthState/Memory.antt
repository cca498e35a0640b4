-- ===== src/OauthState/Memory.antt =====
-- identity/auth/oauthstate/memory.go: `MemoryStore`. Every method holds the mutex from its first
-- access to its return, so an interleaving of calls is a sequence of them, each with the time that
-- it reads. The map is an association list, visited in its order.
pub mod Retention
pub mod SingleUse
pub mod Counts
pub mod Victim
pub mod Capacity
pub mod Budget
mod Tests
use terraform_suite_identity.Common.{
  ℕ, zero, suc, ◌+◌, ◌-◌, ℤ, is_positive, to_ℕ, Str, ◌==◌, has_prefix, List, [], ◌∷◌, length, Bool,
  true, false, not, ◌||◌, ltb, leb, Option, none, some, if◌then◌else◌,
}
use terraform_suite_identity.Common.Assoc
use terraform_suite_identity.Common.Assoc.{Assoc}
use terraform_suite_identity.OauthState.Store.{
  Bytes, StoreError, key_required, ttl_not_positive, already_exists, capacity_exhausted, not_found,
  Result, ok, err, Store, reserve_prefix,
}

pub record Entry : Type 0 where
  pub bytes : Bytes
  pub expires_at : ℕ

-- `stopped` is whether `stopCh` is closed.
pub record MemoryStore : Type 0 where
  pub entries : Assoc Entry
  pub max_entries : ℕ
  pub stopped : Bool

abbrev pub default_max_entries : ℕ
default_max_entries = 4096

-- The janitor's interval has no part in the state.
unfoldable pub new_memory_store : ℤ → MemoryStore
new_memory_store max_entries = record {
  entries = [];
  max_entries = if is_positive max_entries then to_ℕ max_entries else default_max_entries;
  stopped = false;
}

unfoldable pub is_replay_marker : Str → Bool
is_replay_marker key = has_prefix key reserve_prefix

pub is_login_state : Str → Bool
is_login_state key = not (is_replay_marker key)

-- `purgeExpiredLocked`: what is left; the two counts are those of what is left.
unfoldable pub purge_expired : ℕ → Assoc Entry → Assoc Entry
purge_expired now [] = []
purge_expired now ((k, e) ∷ entries) =
    let rest = purge_expired now entries in if ltb e.expires_at now then rest else (k, e) ∷ rest

-- The loop of `evictNearestExpiryStateLocked` over the victim so far, empty for none, and its expiry.
pub nearest : Str → ℕ → Assoc Entry → Str
nearest victim soonest [] = victim
nearest victim soonest ((k, e) ∷ entries) =
    let skip = nearest victim soonest entries in
    let choose = nearest k e.expires_at entries in
    if is_replay_marker k
    then skip
    else if victim == [] || ltb e.expires_at soonest
    then choose
    else skip

-- `none` is the answer false.
unfoldable pub evict_nearest_expiry_state : Assoc Entry → Option (Assoc Entry)
unfolding nearest
evict_nearest_expiry_state entries =
    let victim = nearest [] 0 entries in
    if victim == [] then none else some (Assoc.delete entries victim)

-- The loop of `makeRoomLocked`. An eviction takes an entry away, so the number of entries and one
-- is enough fuel.
unfoldable pub evict_until : ℕ → ℕ → ℕ → Assoc Entry → Assoc Entry × Option StoreError
evict_until zero states max_entries entries = (entries, some capacity_exhausted)
evict_until (suc fuel) states max_entries entries =
    if leb max_entries states
    then (elim (evict_nearest_expiry_state entries) [
      | none ↦ (entries, some capacity_exhausted)
      | some rest ↦ evict_until fuel (states - 1) max_entries rest
    ])
    else (entries, none)

-- The entries after the call, and its error.
unfoldable pub make_room : MemoryStore → Str → ℕ → Assoc Entry × Option StoreError
make_room s key now =
    let live = purge_expired now s.entries in
    if is_replay_marker key
    then (if leb s.max_entries (Assoc.count is_replay_marker live)
        then (live, some capacity_exhausted)
        else (live, none))
    else evict_until (suc (length live)) (Assoc.count is_login_state live) s.max_entries live

-- `existing, ok := s.entries[key]; ok && now.Before(existing.expiresAt)`
unfoldable pub is_live : Option Entry → ℕ → Bool
is_live none now = false
is_live (some e) now = ltb now e.expires_at

-- The write of `PutIfAbsent`, unless making room failed.
unfoldable pub store_entry :
    MemoryStore → Str → Entry → Assoc Entry × Option StoreError → MemoryStore × Option StoreError
store_entry s key e (entries, some x) = (record s { entries = entries }, some x)
store_entry s key e (entries, none) = (record s { entries = Assoc.put entries key e }, none)

unfoldable pub put_if_absent : MemoryStore → ℕ → Str → Bytes → ℤ → MemoryStore × Option StoreError
unfolding store_entry is_live
put_if_absent s now key bytes ttl =
    if key == []
    then (s, some key_required)
    else if not (is_positive ttl)
    then (s, some ttl_not_positive)
    else if is_live (Assoc.get s.entries key) now
    then (s, some already_exists)
    else store_entry s key (record { bytes = bytes; expires_at = now + to_ℕ ttl })
        (make_room s key now)

-- `Take` on the entry that it found.
pub take_entry : MemoryStore → ℕ → Str → Option Entry → MemoryStore × Result StoreError Bytes
take_entry s now key none = (s, err not_found)
take_entry s now key (some e) = (
  record s { entries = Assoc.delete s.entries key },
  if ltb e.expires_at now then err not_found else ok e.bytes,
)

unfoldable pub take : MemoryStore → ℕ → Str → MemoryStore × Result StoreError Bytes
unfolding take_entry
take s now key = take_entry s now key (Assoc.get s.entries key)

unfoldable pub close : MemoryStore → MemoryStore
close s = record s { entries = []; stopped = true }

unfoldable pub sweep : MemoryStore → ℕ → MemoryStore
sweep s now = record s { entries = purge_expired now s.entries }

-- One tick of the janitor.
unfoldable pub janitor_tick : MemoryStore → ℕ → MemoryStore
unfolding sweep
janitor_tick s now = if s.stopped then s else sweep s now

abbrev pub memory : Store MemoryStore
memory = record { put_if_absent = put_if_absent; take = take; close = close }

-- A call of a method, with the time that it reads; `ticks` is a tick of the janitor.
pub data Call : Type 0 where
  puts : ℕ → Str → Bytes → ℤ → Call
  takes : ℕ → Str → Call
  ticks : ℕ → Call
  closes : Call

pub step : MemoryStore → Call → MemoryStore
step s (puts now key b ttl) = (put_if_absent s now key b ttl).0
step s (takes now key) = (take s now key).0
step s (ticks now) = janitor_tick s now
step s closes = close s

pub run : MemoryStore → List Call → MemoryStore
unfolding step
run s [] = s
run s (c ∷ calls) = run (step s c) calls
