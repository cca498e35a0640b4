-- ===== src/OauthState/Manager/Replay.antt =====
-- `Reserve` over the memory store, through any calls that follow it.
use terraform_suite_identity.Common.{
  ℕ, ◌+◌, ◌<◌, ℤ, is_positive, to_ℕ, Str, ◌==◌, ne_of_test, has_prefix, List, [], ◌∷◌, ◌++◌, ◌≡◌,
  ◌≢◌, refl, sym, ◌∙◌, subst, All, true, false, Option, none, some, arith, Bool-cases, inl, inr,
}
use terraform_suite_identity.Common.Assoc
use terraform_suite_identity.OauthState.Store.{
  Bytes, StoreError, already_exists, Result, ok, err, state_prefix, reserve_prefix,
}
use terraform_suite_identity.OauthState.Memory.{
  Entry, MemoryStore, memory, put_if_absent, take, janitor_tick, sweep, is_replay_marker,
}
use terraform_suite_identity.OauthState.Memory.Retention.{put-get, put-refused, take-get, get-purge}
use terraform_suite_identity.OauthState.Memory.SingleUse.{put-there}
use terraform_suite_identity.OauthState.Manager.{
  Codec, ManagerError, new_state, close, issued, issue_encoded, issue_state, issue, consume,
  reserved, reserve,
}
use terraform_suite_identity.OauthState.Manager.Protocol.{store-consume}

-- A call of a method of the manager, or a tick of the store's janitor, with the times that it reads.
pub data ManagerCall : Type 0 where
  issues : ℕ → ℕ → Option Bytes → Str → Bytes → ℤ → ManagerCall
  consumes : ℕ → ℕ → Str → Str → ManagerCall
  reserves : ℕ → Str → ℤ → ManagerCall
  closes : ManagerCall
  ticks : ℕ → ManagerCall

pub manager_step : Codec → MemoryStore → ManagerCall → MemoryStore
manager_step codec s (issues minted now entropy purpose payload ttl) =
    (issue memory codec s minted now entropy purpose payload ttl).0
manager_step codec s (consumes taken now purpose state) =
    (consume memory codec s taken now purpose state).0
manager_step codec s (reserves now key ttl) = (reserve memory codec s now key ttl).0
manager_step codec s closes = close memory codec s
manager_step codec s (ticks now) = janitor_tick s now

pub manager_run : Codec → MemoryStore → List ManagerCall → MemoryStore
manager_run codec s [] = s
manager_run codec s (c ∷ calls) = manager_run codec (manager_step codec s c) calls

-- The store reads a time before this one in the call, and the call is not `Close`.
abbrev pub Before : ℕ → ManagerCall → Type 0
Before until (issues minted now entropy purpose payload ttl) = now < until
Before until (consumes taken now purpose state) = taken < until
Before until (reserves now key ttl) = now < until
Before until closes = ⊥
Before until (ticks now) = now < until

marked : (k : Str) → is_replay_marker (reserve_prefix ++ k) ≡ true
unfolding is_replay_marker has_prefix
marked k = refl

state_plain : (x : Str) → is_replay_marker (state_prefix ++ x) ≡ false
unfolding is_replay_marker has_prefix
state_plain x = refl

state_apart : (x k : Str) → state_prefix ++ x ≢ reserve_prefix ++ k
state_apart x k h = cc (h, state_plain x, marked k)

Kept : Str → Entry → MemoryStore → Type 0
Kept k e s = Assoc.get s.entries (reserve_prefix ++ k) ≡ some e

module _ (codec : Codec) (k : Str) (e : Entry) where
  issued-Kept :
      (state : Str) (r : MemoryStore × Option StoreError)
      → Kept k e r.0
      → Kept k e (issued memory codec state r).0
  unfolding issued
  issued-Kept state (s, none) h = h
  issued-Kept state (s, some x) h = h

  issue_encoded-Kept :
      (s : MemoryStore) (now : ℕ) (ttl : ℤ) (state : Str) (o : Option Bytes)
      → Kept k e s
      → now < e.expires_at
      → Kept k e (issue_encoded memory codec s now ttl state o).0
  unfolding issue_encoded Kept
  issue_encoded-Kept s now ttl state none h live = h
  issue_encoded-Kept s now ttl state (some b) h live =
      issued-Kept state (put_if_absent s now (state_prefix ++ state) b ttl)
        (put-get s now (state_prefix ++ state) b ttl (reserve_prefix ++ k) e (marked k) h live)

  issue_state-Kept :
      (s : MemoryStore) (minted now : ℕ) (purpose : Str) (payload : Bytes) (ttl : ℤ)
      (r : Result ManagerError Str)
      → Kept k e s
      → now < e.expires_at
      → Kept k e (issue_state memory codec s minted now purpose payload ttl r).0
  unfolding issue_state
  issue_state-Kept s minted now purpose payload ttl (err x) h live = h
  issue_state-Kept s minted now purpose payload ttl (ok st) h live =
      issue_encoded-Kept s now ttl st _ h live

  issue-Kept :
      (s : MemoryStore) (minted now : ℕ) (entropy : Option Bytes) (purpose : Str) (payload : Bytes)
      (ttl : ℤ)
      → Kept k e s
      → now < e.expires_at
      → Kept k e (issue memory codec s minted now entropy purpose payload ttl).0
  unfolding issue
  issue-Kept s minted now entropy purpose payload ttl h live =
      let written = issue_state-Kept s minted now purpose payload ttl (new_state entropy) h live in
      ground arith

  take-Kept :
      (s : MemoryStore) (now : ℕ) (state : Str)
      → Kept k e s
      → Kept k e (take s now (state_prefix ++ state)).0
  unfolding Kept
  take-Kept s now state h =
      take-get s now (state_prefix ++ state) (reserve_prefix ++ k) (state_apart state k) ∙ h

  consume-Kept :
      (s : MemoryStore) (taken now : ℕ) (asked state : Str)
      → Kept k e s
      → Kept k e (consume memory codec s taken now asked state).0
  unfolding consume
  consume-Kept s taken now asked state h = elim (Bool-cases (asked == [])) [
    | inl unnamed ↦ rw unnamed h
    | inr named ↦
        subst (Kept k e)
          (sym (store-consume codec s taken now asked state (ne_of_test asked [] named)))
          (take-Kept s taken state h)
  ]

  reserved-Kept :
      (r : MemoryStore × Option StoreError) → Kept k e r.0 → Kept k e (reserved memory codec r).0
  unfolding reserved
  reserved-Kept (s, none) h = h
  reserved-Kept (s, some already_exists) h = h
  reserved-Kept (s, some x) h = h

  reserve-Kept :
      (s : MemoryStore) (now : ℕ) (key : Str) (ttl : ℤ)
      → Kept k e s
      → now < e.expires_at
      → Kept k e (reserve memory codec s now key ttl).0
  unfolding reserve Kept
  reserve-Kept s now key ttl h live =
      let key' = reserve_prefix ++ key in
      let written = put-get s now key' [] ttl (reserve_prefix ++ k) e (marked k) h live in
      let answered = reserved-Kept (put_if_absent s now key' [] ttl) written in ground arith

  step-Kept :
      (s : MemoryStore) (c : ManagerCall)
      → Kept k e s
      → Before e.expires_at c
      → Kept k e (manager_step codec s c)
  unfolding manager_step janitor_tick sweep Kept
  step-Kept s (issues minted now entropy purpose payload ttl) h live =
      issue-Kept s minted now entropy purpose payload ttl h live
  step-Kept s (consumes taken now purpose state) h live = consume-Kept s taken now purpose state h
  step-Kept s (reserves now key ttl) h live = reserve-Kept s now key ttl h live
  step-Kept s closes h live = elim live [ ]
  step-Kept s (ticks now) h live =
      let kept = get-purge now s.entries (reserve_prefix ++ k) e h (omega arith) in ground arith

  run-Kept :
      (s : MemoryStore) (calls : List ManagerCall)
      → Kept k e s
      → All (Before e.expires_at) calls
      → Kept k e (manager_run codec s calls)
  unfolding manager_run
  run-Kept s [] h live = h
  run-Kept s (c ∷ calls) h live =
      run-Kept (manager_step codec s c) calls (step-Kept s c h (live.0)) (live.1)

module _ (codec : Codec) where
  reserved-true :
      (r : MemoryStore × Option StoreError)
      → (reserved memory codec r).1 ≡ true
      → (r.1 ≡ none) × ((reserved memory codec r).0 ≡ r.0)
  unfolding reserved
  reserved-true (s, none) h = (refl, refl)
  reserved-true (s, some already_exists) h = cc h
  reserved-true (s, some x) h = cc h

  -- A reservation that was made has its marker in the store, until its expiry.
  reserve-Kept_new :
      (s : MemoryStore) (now : ℕ) (key : Str) (ttl : ℤ)
      → (reserve memory codec s now key ttl).1 ≡ true
      → Kept key
          (record { bytes = []; expires_at = now + to_ℕ ttl })
          (reserve memory codec s now key ttl).0
  unfolding reserve Kept
  reserve-Kept_new s now key ttl h =
      let key' = reserve_prefix ++ key in
      let made = reserved-true (put_if_absent s now key' [] ttl) in
      let there = put-there s now key' [] ttl in ground (arith, made, there)

  -- Anti-replay: once `Reserve` has answered true for a key, then whatever calls of the manager other
  -- than `Close` and ticks of the janitor follow, in any number and against any capacity, a later `Reserve` of that
  -- key answers false without an error and changes nothing, as long as every time that the store
  -- reads is before the end of the reservation.
  pub replay_denied :
      (s : MemoryStore) (now later : ℕ) (key : Str) (ttl ttl' : ℤ) (calls : List ManagerCall)
      → (reserve memory codec s now key ttl).1 ≡ true
      → All (Before (now + to_ℕ ttl)) calls
      → later < now + to_ℕ ttl
      → is_positive ttl' ≡ true
      → let s' = manager_run codec (reserve memory codec s now key ttl).0 calls in
        reserve memory codec s' later key ttl' ≡ (s', false, none)
  unfolding reserve reserved Kept
  replay_denied s now later key ttl ttl' calls first before live positive =
      let s' = manager_run codec (reserve memory codec s now key ttl).0 calls in
      let marker : Entry = record { bytes = []; expires_at = now + to_ℕ ttl } in
      let kept = run-Kept codec key marker _ calls (reserve-Kept_new s now key ttl first) before in
      let refused =
        put-refused s' (reserve_prefix ++ key) marker later [] ttl' kept live (λ h. cc h)
          positive in
      ground (arith, refused)
