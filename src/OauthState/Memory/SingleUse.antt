-- ===== src/OauthState/Memory/SingleUse.antt =====
-- `Take`, repeated and after `PutIfAbsent`.
use terraform_suite_identity.Common.{
  ℕ, ◌+◌, ◌≤◌, ℤ, to_ℕ, Str, eq_refl, ◌≡◌, ◌↔◌, refl, subst, Option, none, some, ltb, arith,
  if◌then◌else◌,
}
use terraform_suite_identity.Common.Assoc
use terraform_suite_identity.Common.Assoc.{Assoc, get-delete, get-put}
use terraform_suite_identity.OauthState.Store.{Bytes, StoreError, not_found, ok, err}
use terraform_suite_identity.OauthState.Memory.{
  Entry, MemoryStore, take_entry, take, store_entry, put_if_absent, make_room,
}

take_entry-gone :
    (s : MemoryStore) (now : ℕ) (key : Str) (o : Option Entry)
    → Assoc.get s.entries key ≡ o
    → Assoc.get (take_entry s now key o).0.entries key ≡ none
unfolding take_entry
take_entry-gone s now key none h = h
take_entry-gone s now key (some e) h = ground (arith, get-delete s.entries key key, eq_refl key)

pub take-gone :
    (s : MemoryStore) (now : ℕ) (key : Str) → Assoc.get (take s now key).0.entries key ≡ none
unfolding take
take-gone s now key = take_entry-gone s now key (Assoc.get s.entries key) refl

take-none :
    (s : MemoryStore) (now : ℕ) (key : Str)
    → Assoc.get s.entries key ≡ none
    → take s now key ≡ (s, err not_found)
unfolding take take_entry
take-none s now key h = rw (h, take_entry)

take_entry_iff :
    (s : MemoryStore) (now : ℕ) (key : Str) (b : Bytes) (o : Option Entry)
    → Assoc.get s.entries key ≡ o
    → ((take_entry s now key o).1 ≡ ok b)
      ↔ ((e : Entry) × (Assoc.get s.entries key ≡ some e) × (now ≤ e.expires_at) × (e.bytes ≡ b))
unfolding take_entry
take_entry_iff s now key b none found = (λ h. cc, λ h. cc (found, h.1))
take_entry_iff s now key b (some e) found = (
  λ h. (e, found, ground arith, ground arith),
  λ h.
      let same : h.0 ≡ e = cc (found, h.1) in
      let live : now ≤ e.expires_at = subst (λ (x : Entry). now ≤ x.expires_at) same h.2 in
      let bytes : e.bytes ≡ b = subst (λ (x : Entry). x.bytes ≡ b) same h.3 in ground arith,
)

-- `Take` returns the bytes of the entry under its key exactly if there is one that has not expired,
-- and whatever it returned, a second `Take` of the key finds nothing and changes nothing.
pub take_once :
    (s : MemoryStore) (now later : ℕ) (key : Str) (b : Bytes)
    → (((take s now key).1 ≡ ok b)
        ↔ ((e : Entry) × (Assoc.get s.entries key ≡ some e) × (now ≤ e.expires_at) × (e.bytes ≡ b)))
      × (take (take s now key).0 later key ≡ ((take s now key).0, err not_found))
unfolding take
take_once s now later key b = (
  take_entry_iff s now key b (Assoc.get s.entries key) refl,
  take-none (take s now key).0 later key (take-gone s now key),
)

store_entry-there :
    (s : MemoryStore) (key : Str) (e : Entry) (r : Assoc Entry × Option StoreError)
    → (store_entry s key e r).1 ≡ none
    → Assoc.get (store_entry s key e r).0.entries key ≡ some e
unfolding store_entry
store_entry-there s key e (m, some x) h = cc
store_entry-there s key e (m, none) h = ground (arith, get-put m key key e, eq_refl key)

pub put-there :
    (s : MemoryStore) (now : ℕ) (key : Str) (b : Bytes) (ttl : ℤ)
    → (put_if_absent s now key b ttl).1 ≡ none
    → Assoc.get (put_if_absent s now key b ttl).0.entries key
      ≡ some (record { bytes = b; expires_at = now + to_ℕ ttl })
unfolding put_if_absent
put-there s now key b ttl h =
    let e : Entry = record { bytes = b; expires_at = now + to_ℕ ttl } in
    let there = store_entry-there s key e (make_room s key now) in ground arith

-- Insert and lookup: what `PutIfAbsent` stored is what a `Take` of the key returns, up to and with
-- the moment at which it expires, and after that moment nothing.
pub take-put :
    (s : MemoryStore) (now later : ℕ) (key : Str) (b : Bytes) (ttl : ℤ)
    → (put_if_absent s now key b ttl).1 ≡ none
    → (take (put_if_absent s now key b ttl).0 later key).1
      ≡ (if ltb (now + to_ℕ ttl) later then err not_found else ok b)
unfolding take take_entry
take-put s now later key b ttl h = rw (put-there s now key b ttl h, take_entry)
