-- ===== src/OauthState/Memory/Budget.antt =====
-- The budgets of the memory store, through every call.
use terraform_suite_identity.Common.{
  ℕ, zero, suc, ◌+◌, ◌≤◌, ◌<◌, ℤ, pos, negsuc, is_positive, to_ℕ, Str, ◌==◌, eq_iff, eq_refl,
  ne_of_test, List, [], ◌∷◌, ◌≡◌, ◌≢◌, inl, inr, refl, ap, Bool, true, false, not, ◌&&◌, Option,
  none, some, leb, Bool-cases, arith, if◌then◌else◌,
}
use terraform_suite_identity.Common.Assoc
use terraform_suite_identity.Common.Assoc.{
  Assoc, get-delete, get-put, count-delete_there, count-delete-le,
}
use terraform_suite_identity.OauthState.Store.{
  Bytes, StoreError, capacity_exhausted, ttl_not_positive, already_exists,
}
use terraform_suite_identity.OauthState.Memory.{
  Entry, MemoryStore, Call, puts, takes, ticks, closes, close, step, run, new_memory_store,
  is_replay_marker, is_login_state, purge_expired, make_room, is_live, store_entry, put_if_absent,
  take_entry, take, sweep, janitor_tick,
}
use terraform_suite_identity.OauthState.Memory.Counts.{
  IsMap, delete-IsMap, purge-IsMap, count-purge-le,
}
use terraform_suite_identity.OauthState.Memory.Capacity.{IsWithin, make_room-login}

-- What any making of room leaves: both namespaces within the budget, and space in the key's own.
record RoomFor (s : MemoryStore) (key : Str) (r : Assoc Entry × Option StoreError) : Type 0 where
  keys : IsMap r.0
  states : Assoc.count is_login_state r.0 ≤ s.max_entries
  markers : Assoc.count is_replay_marker r.0 ≤ s.max_entries
  marker_space :
      r.1 ≡ none → is_replay_marker key ≡ true → Assoc.count is_replay_marker r.0 < s.max_entries
  state_space :
      r.1 ≡ none → is_replay_marker key ≡ false → Assoc.count is_login_state r.0 < s.max_entries

make_room-marker :
    (s : MemoryStore) (key : Str) (now : ℕ)
    → is_replay_marker key ≡ true
    → make_room s key now ≡ (
      purge_expired now s.entries,
      if leb s.max_entries (Assoc.count is_replay_marker (purge_expired now s.entries))
          then some capacity_exhausted
          else none,
    )
unfolding make_room
make_room-marker s key now marker = ground arith

make_room-RoomFor :
    (s : MemoryStore) (key : Str) (now : ℕ) → IsWithin s → RoomFor s key (make_room s key now)
make_room-RoomFor s key now w =
    let live = purge_expired now s.entries in
    let fewer_states = count-purge-le is_login_state now s.entries in
    let fewer_markers = count-purge-le is_replay_marker now s.entries in
    let states = w.states in
    let markers = w.markers in
    elim (Bool-cases (is_replay_marker key)) [
      | inl marker ↦ rw (make_room-marker s key now marker) (record {
        keys = purge-IsMap now s.entries w.keys;
        states = omega arith;
        markers = omega arith;
        marker_space = λ fine _. ground arith;
        state_space = λ fine plain. cc (marker, plain);
      })
      | inr plain ↦
          let (fine, keys, room, kept) = make_room-login s key now w plain in
          record {
            keys = keys;
            states = omega arith;
            markers = omega arith;
            marker_space = λ _ marker. cc (marker, plain);
            state_space = λ _ _. room;
          }
    ]

put-IsMap : (m : Assoc Entry) (k : Str) (e : Entry) → k ≢ [] → IsMap m → IsMap (Assoc.put m k e)
unfolding Assoc.put
put-IsMap m k e named h = (named, ground (arith, get-delete m k k, eq_refl k), delete-IsMap m k h)

count-put-le :
    (test : Str → Bool) (m : Assoc Entry) (k : Str) (e : Entry)
    → Assoc.count test (Assoc.put m k e) ≤ Assoc.count test m + (if test k then 1 else 0)
unfolding Assoc.put Assoc.count
count-put-le test m k e = ground (arith, count-delete-le test m k)

store_entry-IsWithin :
    (s : MemoryStore) (key : Str) (e : Entry) (r : Assoc Entry × Option StoreError)
    → IsWithin s
    → key ≢ []
    → RoomFor s key r
    → IsWithin (store_entry s key e r).0
unfolding store_entry
store_entry-IsWithin s key e (m, some x) w named room = record {
  keys = room.keys;
  positive = w.positive;
  states = room.states;
  markers = room.markers;
}
store_entry-IsWithin s key e (m, none) w named room =
    let marker_space = room.marker_space refl in
    let state_space = room.state_space refl in
    let states = count-put-le is_login_state m key e in
    let markers = count-put-le is_replay_marker m key e in
    record {
      keys = put-IsMap m key e named room.keys;
      positive = w.positive;
      states = unfold is_login_state in ground (arith, states, state_space, room.states);
      markers = ground (arith, markers, marker_space, room.markers);
    }

put-IsWithin :
    (s : MemoryStore) (now : ℕ) (key : Str) (b : Bytes) (ttl : ℤ)
    → IsWithin s
    → IsWithin (put_if_absent s now key b ttl).0
unfolding put_if_absent
put-IsWithin s now key b ttl w = elim (Bool-cases (key == [])) [
  | inl unnamed ↦ rw unnamed w
  | inr named ↦
      let e : Entry = record { bytes = b; expires_at = now + to_ℕ ttl } in
      rw named (
        two _ (not (is_positive ttl)) (is_live (Assoc.get s.entries key) now) w (
          store_entry-IsWithin s key e (make_room s key now) w (ne_of_test key [] named)
            (make_room-RoomFor s key now w)))
]
  where
    two :
        (x : MemoryStore × Option StoreError) (a b : Bool)
        → IsWithin s
        → IsWithin x.0
        → IsWithin
            (if a then (s, some ttl_not_positive) else if b then (s, some already_exists) else x).0
    two x true b w h = w
    two x false true w h = w
    two x false false w h = h

take_entry-IsWithin :
    (s : MemoryStore) (now : ℕ) (key : Str) (o : Option Entry)
    → IsWithin s
    → IsWithin (take_entry s now key o).0
unfolding take_entry
take_entry-IsWithin s now key none w = w
take_entry-IsWithin s now key (some e) w =
    let states = count-delete-le is_login_state s.entries key in
    let markers = count-delete-le is_replay_marker s.entries key in
    let states' = w.states in
    let markers' = w.markers in
    record {
      keys = delete-IsMap s.entries key w.keys;
      positive = w.positive;
      states = omega arith;
      markers = omega arith;
    }

sweep-IsWithin : (s : MemoryStore) (now : ℕ) → IsWithin s → IsWithin (sweep s now)
unfolding sweep
sweep-IsWithin s now w =
    let states = count-purge-le is_login_state now s.entries in
    let markers = count-purge-le is_replay_marker now s.entries in
    let states' = w.states in
    let markers' = w.markers in
    record {
      keys = purge-IsMap now s.entries w.keys;
      positive = w.positive;
      states = omega arith;
      markers = omega arith;
    }

IsWithin-if :
    (a : Bool) (s t : MemoryStore) → IsWithin s → IsWithin t → IsWithin (if a then s else t)
IsWithin-if true s t v w = v
IsWithin-if false s t v w = w

tick-IsWithin : (s : MemoryStore) (now : ℕ) → IsWithin s → IsWithin (janitor_tick s now)
unfolding janitor_tick
tick-IsWithin s now w = IsWithin-if s.stopped s (sweep s now) w (sweep-IsWithin s now w)

close-IsWithin : (s : MemoryStore) → IsWithin s → IsWithin (close s)
unfolding close Assoc.count
close-IsWithin s w = record {
  keys = tt;
  positive = w.positive;
  states = omega arith;
  markers = omega arith;
}

step-IsWithin : (s : MemoryStore) (c : Call) → IsWithin s → IsWithin (step s c)
unfolding step take
step-IsWithin s (puts now key b ttl) w = put-IsWithin s now key b ttl w
step-IsWithin s (takes now key) w = take_entry-IsWithin s now key (Assoc.get s.entries key) w
step-IsWithin s (ticks now) w = tick-IsWithin s now w
step-IsWithin s closes w = close-IsWithin s w

run-IsWithin : (s : MemoryStore) (calls : List Call) → IsWithin s → IsWithin (run s calls)
unfolding run
run-IsWithin s [] w = w
run-IsWithin s (c ∷ calls) w = run-IsWithin (step s c) calls (step-IsWithin s c w)

new-IsWithin : (max : ℤ) → IsWithin (new_memory_store max)
unfolding new_memory_store Assoc.count
new-IsWithin (pos zero) = record {
  keys = tt;
  positive = omega arith;
  states = omega arith;
  markers = omega arith;
}
new-IsWithin (pos (suc n)) = record {
  keys = tt;
  positive = omega arith;
  states = omega arith;
  markers = omega arith;
}
new-IsWithin (negsuc n) = record {
  keys = tt;
  positive = omega arith;
  states = omega arith;
  markers = omega arith;
}

-- The memory is bounded: from a new store, after any calls of its methods and ticks of its
-- janitor in any order, each key stands once and
-- neither namespace holds more entries than the budget.
pub memory_bounded : (max : ℤ) (calls : List Call) → IsWithin (run (new_memory_store max) calls)
memory_bounded max calls = run-IsWithin (new_memory_store max) calls (new-IsWithin max)

store_entry-error :
    (s : MemoryStore) (key : Str) (e : Entry) (r : Assoc Entry × Option StoreError)
    → (store_entry s key e r).1 ≡ r.1
unfolding store_entry
store_entry-error s key e (m, some x) = refl
store_entry-error s key e (m, none) = refl

-- A write that is in order fails in one case only, for a replay marker where the live markers fill
-- the budget. It never fails for a login state: an eviction always finds room.
capacity_outcomes :
    (s : MemoryStore) (now : ℕ) (key : Str) (b : Bytes) (ttl : ℤ)
    → IsWithin s
    → key ≢ []
    → is_positive ttl ≡ true
    → is_live (Assoc.get s.entries key) now ≡ false
    → (put_if_absent s now key b ttl).1 ≡ (
        if is_replay_marker key
          && leb s.max_entries (Assoc.count is_replay_marker (purge_expired now s.entries))
        then some capacity_exhausted
        else none)
unfolding put_if_absent
capacity_outcomes s now key b ttl w named positive dead =
    let e : Entry = record { bytes = b; expires_at = now + to_ℕ ttl } in
    let error = store_entry-error s key e (make_room s key now) in
    elim (Bool-cases (is_replay_marker key)) [
      | inl marker ↦
          ground
            (arith, error, eq_iff key [], ap (λ (r : _). r.1) (make_room-marker s key now marker))
      | inr plain ↦ ground (arith, error, eq_iff key [], make_room-login s key now w plain)
    ]
