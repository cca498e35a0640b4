-- ===== src/OauthState/Memory/Tests.antt =====
-- The memory store: tests, and the theorems at concrete inputs.
use terraform_suite_identity.Common.{
  pos, Str, lit, ◌==◌, has_prefix, [], ◌∷◌, ◌≡◌, refl, true, false, none, some, arith,
}
use terraform_suite_identity.Common.Assoc
use terraform_suite_identity.OauthState.Memory.{
  MemoryStore, puts, closes, run, new_memory_store, put_if_absent, is_live, is_replay_marker,
  is_login_state, purge_expired, nearest, evict_nearest_expiry_state, store_entry, evict_until,
  make_room,
}
use terraform_suite_identity.OauthState.Memory.Counts.{IsMap}
use terraform_suite_identity.OauthState.Memory.Capacity.{IsWithin}
use terraform_suite_identity.OauthState.Memory.Budget.{memory_bounded}

abbrev login1 : Str
login1 = lit "state:1"

abbrev login2 : Str
login2 = lit "state:2"

abbrev login3 : Str
login3 = lit "state:3"

abbrev marker1 : Str
marker1 = lit "reserve:1"

abbrev small : MemoryStore
small = record { entries = []; max_entries = 2; stopped = false }

abbrev full : MemoryStore
full = record {
  entries =
      (login1, record { bytes = 7 ∷ []; expires_at = 90 })
      ∷ (marker1, record { bytes = []; expires_at = 20 })
      ∷ (login2, record { bytes = 8 ∷ []; expires_at = 50 })
      ∷ [];
  max_entries = 2;
  stopped = false;
}

-- The login state that expires first makes way, the marker that expires before it does not.
evicts_the_nearest :
    (put_if_absent full 10 login3 [] (pos 5)).0.entries
    ≡ (login3, record { bytes = []; expires_at = 15 })
      ∷ (login1, record { bytes = 7 ∷ []; expires_at = 90 })
      ∷ (marker1, record { bytes = []; expires_at = 20 })
      ∷ []
unfolding put_if_absent make_room evict_until evict_nearest_expiry_state purge_expired
    is_replay_marker has_prefix ◌==◌ Assoc.get Assoc.put Assoc.delete Assoc.count is_login_state
    nearest store_entry is_live
evicts_the_nearest = refl

marker1_marks : is_replay_marker marker1 ≡ true
unfolding is_replay_marker has_prefix
marker1_marks = refl

login1_plain : is_replay_marker login1 ≡ false
unfolding is_replay_marker has_prefix
login1_plain = refl

marker1_there : Assoc.get full.entries marker1 ≡ some (record { bytes = []; expires_at = 20 })
unfolding Assoc.get ◌==◌
marker1_there = refl

small_accepts : (put_if_absent small 10 login1 (7 ∷ []) (pos 5)).1 ≡ none
unfolding put_if_absent make_room evict_until purge_expired is_replay_marker has_prefix ◌==◌
    Assoc.get Assoc.count is_live store_entry
small_accepts = refl

full-IsMap : IsMap full.entries
unfolding Assoc.get ◌==◌
full-IsMap = (λ h. cc h, refl, (λ h. cc h, refl, (λ h. cc h, refl, tt)))

full_states : Assoc.count is_login_state full.entries ≡ 2
unfolding Assoc.count is_login_state is_replay_marker has_prefix
full_states = refl

full_markers : Assoc.count is_replay_marker full.entries ≡ 1
unfolding Assoc.count is_replay_marker has_prefix
full_markers = refl

full-IsWithin : IsWithin full
full-IsWithin =
    let s = full_states in
    let m = full_markers in
    record {
      keys = full-IsMap;
      positive = omega arith;
      states = omega arith;
      markers = omega arith;
    }

login3_absent : is_live (Assoc.get full.entries login3) 10 ≡ false
unfolding Assoc.get ◌==◌ is_live
login3_absent = refl

memory_bounded_example : IsWithin (
    run
      (new_memory_store (pos 0))
      (puts 10 login3 [] (pos 5) ∷ closes ∷ puts 20 login3 [] (pos 5) ∷ []))
memory_bounded_example =
    memory_bounded (pos 0) (puts 10 login3 [] (pos 5) ∷ closes ∷ puts 20 login3 [] (pos 5) ∷ [])
