-- ===== src/OauthState/Memory/Retention.antt =====
-- What each method of the memory store leaves in place of a replay marker.
use terraform_suite_identity.Common.{
  ℕ, ◌+◌, ◌-◌, ◌≤◌, ◌<◌, ℤ, is_positive, to_ℕ, length, Str, ◌==◌, eq_iff, has_prefix, ne_of_test,
  zero, suc, List, [], ◌∷◌, ◌≡◌, ◌≢◌, inl, inr, refl, ◌∙◌, All, sym, subst, true, false, Option,
  none, some, Bool-cases, Option-cases, arith,
}
use terraform_suite_identity.Common.Assoc
use terraform_suite_identity.Common.Assoc.{Assoc, get-delete, get-put}
use terraform_suite_identity.OauthState.Store.{Bytes, StoreError, already_exists}
use terraform_suite_identity.OauthState.Memory.{
  Entry, MemoryStore, Call, puts, takes, ticks, closes, step, run, is_replay_marker, is_login_state,
  purge_expired, nearest, evict_nearest_expiry_state, evict_until, make_room, store_entry,
  put_if_absent, take_entry, take, sweep, janitor_tick,
}

pub get-purge :
    (now : ℕ) (m : Assoc Entry) (k : Str) (e : Entry)
    → Assoc.get m k ≡ some e
    → now ≤ e.expires_at
    → Assoc.get (purge_expired now m) k ≡ some e
unfolding Assoc.get purge_expired
get-purge now [] k e h live = cc
get-purge now ((j, x) ∷ m) k e h live = ground (arith, eq_iff j k, get-purge now m k e)

-- What the search for a victim returns is what it began with, or a key that is no marker.
nearest-marker :
    (victim : Str) (soonest : ℕ) (m : Assoc Entry)
    → is_replay_marker victim ≡ false
    → is_replay_marker (nearest victim soonest m) ≡ false
unfolding nearest
nearest-marker v s [] h = h
nearest-marker v s ((k, e) ∷ m) h =
    ground (arith, nearest-marker v s m h, nearest-marker k e.expires_at m)

no_marker : is_replay_marker [] ≡ false
unfolding is_replay_marker has_prefix
no_marker = refl

evict-get :
    (m rest : Assoc Entry) (k : Str)
    → evict_nearest_expiry_state m ≡ some rest
    → is_replay_marker k ≡ true
    → Assoc.get rest k ≡ Assoc.get m k
unfolding evict_nearest_expiry_state
evict-get m rest k h marker =
    let victim = nearest [] 0 m in
    let plain = nearest-marker [] 0 m no_marker in
    let apart : victim ≢ k = λ e. cc (plain, marker, e) in
    ground (arith, get-delete m victim k, eq_iff victim k)

evict_until-get :
    (fuel states max : ℕ) (m : Assoc Entry) (k : Str)
    → is_replay_marker k ≡ true
    → Assoc.get (evict_until fuel states max m).0 k ≡ Assoc.get m k
unfolding evict_until
evict_until-get zero states max m k marker = refl
evict_until-get (suc fuel) states max m k marker =
    elim (Option-cases (evict_nearest_expiry_state m)) [
      | inl e ↦ rw (e, evict_until) (ground arith)
      | inr (rest, e) ↦
          ground (
            arith,
            evict-get m rest k e marker,
            evict_until-get fuel (states - 1) max rest k marker,
          )
    ]

make_room-get :
    (s : MemoryStore) (key : Str) (now : ℕ) (k : Str) (e : Entry)
    → is_replay_marker k ≡ true
    → Assoc.get s.entries k ≡ some e
    → now ≤ e.expires_at
    → Assoc.get (make_room s key now).0 k ≡ some e
unfolding make_room
make_room-get s key now k e marker h live =
    let kept = get-purge now s.entries k e h live in
    let m = purge_expired now s.entries in
    ground (
      arith,
      evict_until-get (suc (length m)) (Assoc.count is_login_state m) s.max_entries m k marker,
    )

store_entry-get :
    (s : MemoryStore) (key : Str) (x : Entry) (r : Assoc Entry × Option StoreError) (k : Str)
    → key ≢ k
    → Assoc.get (store_entry s key x r).0.entries k ≡ Assoc.get r.0 k
unfolding store_entry
store_entry-get s key x (m, some error) k ne = refl
store_entry-get s key x (m, none) k ne = ground (arith, get-put m key k x, eq_iff key k)

-- A write under another key, at any time up to a marker's expiry, leaves the marker in place.
pub put-get :
    (s : MemoryStore) (now : ℕ) (key : Str) (b : Bytes) (ttl : ℤ) (k : Str) (e : Entry)
    → is_replay_marker k ≡ true
    → Assoc.get s.entries k ≡ some e
    → now < e.expires_at
    → Assoc.get (put_if_absent s now key b ttl).0.entries k ≡ some e
unfolding put_if_absent
put-get s now key b ttl k e marker h live = elim (Bool-cases (key == k)) [
  | inl same ↦
      let self : key ≡ k = (eq_iff key k).0 same in
      let found : Assoc.get s.entries key ≡ some e =
        subst (λ j. Assoc.get s.entries j ≡ some e) (sym self) h in
      ground arith
  | inr other ↦
      let x : Entry = record { bytes = b; expires_at = now + to_ℕ ttl } in
      let kept = make_room-get s key now k e marker h (omega arith) in
      let stored = store_entry-get s key x (make_room s key now) k (ne_of_test key k other) in
      ground arith
]

take_entry-get :
    (s : MemoryStore) (now : ℕ) (key k : Str) (o : Option Entry)
    → key ≢ k
    → Assoc.get (take_entry s now key o).0.entries k ≡ Assoc.get s.entries k
unfolding take_entry
take_entry-get s now key k none ne = refl
take_entry-get s now key k (some x) ne = ground (arith, get-delete s.entries key k, eq_iff key k)

pub take-get :
    (s : MemoryStore) (now : ℕ) (key k : Str)
    → key ≢ k
    → Assoc.get (take s now key).0.entries k ≡ Assoc.get s.entries k
unfolding take
take-get s now key k ne = take_entry-get s now key k (Assoc.get s.entries key) ne

-- A call before the time, which neither takes the key nor closes the store.
abbrev pub Spares : Str → ℕ → Call → Type 0
Spares k until (puts now key b ttl) = now < until
Spares k until (takes now key) = (now < until) × (key ≢ k)
Spares k until (ticks now) = now < until
Spares k until closes = ⊥

pub step-get :
    (s : MemoryStore) (c : Call) (k : Str) (e : Entry)
    → is_replay_marker k ≡ true
    → Assoc.get s.entries k ≡ some e
    → Spares k e.expires_at c
    → Assoc.get (step s c).entries k ≡ some e
unfolding step janitor_tick sweep
step-get s (puts now key b ttl) k e marker h spares = put-get s now key b ttl k e marker h spares
step-get s (takes now key) k e marker h spares = take-get s now key k (spares.1) ∙ h
step-get s (ticks now) k e marker h spares =
    let kept = get-purge now s.entries k e h (omega arith) in ground arith
step-get s closes k e marker h spares = elim spares [ ]

run-get :
    (s : MemoryStore) (calls : List Call) (k : Str) (e : Entry)
    → is_replay_marker k ≡ true
    → Assoc.get s.entries k ≡ some e
    → All (Spares k e.expires_at) calls
    → Assoc.get (run s calls).entries k ≡ some e
unfolding run
run-get s [] k e marker h spares = h
run-get s (c ∷ calls) k e marker h spares =
    run-get (step s c) calls k e marker (step-get s c k e marker h (spares.0)) (spares.1)

pub put-refused :
    (s : MemoryStore) (k : Str) (e : Entry) (now : ℕ) (b : Bytes) (ttl : ℤ)
    → Assoc.get s.entries k ≡ some e
    → now < e.expires_at
    → k ≢ []
    → is_positive ttl ≡ true
    → put_if_absent s now k b ttl ≡ (s, some already_exists)
unfolding put_if_absent
put-refused s k e now b ttl h live named positive = ground (arith, eq_iff k [])

-- A replay marker is never forgotten early: whatever calls run before it expires, short of one that
-- takes it or closes the store, in any number and against any capacity, a second write under its key is refused as
-- already there and changes nothing.
marker_blocks_reuse :
    (s : MemoryStore) (calls : List Call) (k : Str) (e : Entry) (now : ℕ) (b : Bytes) (ttl : ℤ)
    → is_replay_marker k ≡ true
    → Assoc.get s.entries k ≡ some e
    → All (Spares k e.expires_at) calls
    → now < e.expires_at
    → k ≢ []
    → is_positive ttl ≡ true
    → put_if_absent (run s calls) now k b ttl ≡ (run s calls, some already_exists)
marker_blocks_reuse s calls k e now b ttl marker h spares live named positive =
    put-refused (run s calls) k e now b ttl (run-get s calls k e marker h spares) live named
      positive
