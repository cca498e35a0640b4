-- ===== src/OauthState/Manager/Protocol.antt =====
-- Issue and Consume over the memory store: the round trip, the checks, and single use.
use terraform_suite_identity.Common.{
  ℕ, ◌+◌, ◌≤◌, ℤ, to_ℕ, Str, ◌==◌, eq_iff, [], ◌++◌, ◌≡◌, ◌≢◌, refl, sym, ap, ◌∙◌, subst, Option,
  none, some, ltb, arith, if◌then◌else◌,
}
use terraform_suite_identity.OauthState.Store.{
  Bytes, StoreError, not_found, Result, ok, err, state_prefix,
}
use terraform_suite_identity.OauthState.Memory.{MemoryStore, memory, put_if_absent, take}
use terraform_suite_identity.OauthState.Memory.SingleUse.{take-put, take_once}
use terraform_suite_identity.OauthState.Manager.{
  Envelope, Codec, ManagerError, state_not_found, expired, purpose_mismatch, new_state, issued,
  issue_encoded, issue_state, issue, check_envelope, consume_taken, consume,
}

-- The codec reads back what it wrote.
abbrev pub ReadsBack : Codec → Type 0
ReadsBack codec = (e : Envelope) (b : Bytes) → codec.marshal e ≡ some b → codec.unmarshal b ≡ some e

module _ (codec : Codec) where
  -- What a call of `Issue` that returned a state did: it wrote the envelope under that state.
  record Issued (s s' : MemoryStore) (minted now : ℕ) (purpose : Str) (payload : Bytes) (ttl : ℤ)
      (state : Str) : Type 0 where
    encoded : Bytes
    marshalled :
        codec.marshal
          (record { purpose = purpose; expires_at = minted + to_ℕ ttl; payload = payload })
        ≡ some encoded
    written : put_if_absent s now (state_prefix ++ state) encoded ttl ≡ (s', none)

  issued-eq :
      (state state' : Str) (r : MemoryStore × Option StoreError) (s' : MemoryStore)
      → issued memory codec state r ≡ (s', ok state')
      → (r ≡ (s', none)) × (state ≡ state')
  unfolding issued
  issued-eq state state' (t, some e) s' h = cc h
  issued-eq state state' (t, none) s' h = (cc h, cc h)

  issue_encoded-Issued :
      (s s' : MemoryStore) (minted now : ℕ) (purpose : Str) (payload : Bytes) (ttl : ℤ)
      (minted_state state : Str) (o : Option Bytes)
      → codec.marshal
          (record { purpose = purpose; expires_at = minted + to_ℕ ttl; payload = payload })
        ≡ o
      → issue_encoded memory codec s now ttl minted_state o ≡ (s', ok state)
      → Issued s s' minted now purpose payload ttl state
  unfolding issue_encoded
  issue_encoded-Issued s s' minted now purpose payload ttl st state none m h = cc h
  issue_encoded-Issued s s' minted now purpose payload ttl st state (some b) m h =
      let (written, same) =
        issued-eq st state (put_if_absent s now (state_prefix ++ st) b ttl) s' h in
      record {
        encoded = b;
        marshalled = m;
        written =
            subst (λ x. put_if_absent s now (state_prefix ++ x) b ttl ≡ (s', none)) same written;
      }

  issue_state-Issued :
      (s s' : MemoryStore) (minted now : ℕ) (purpose : Str) (payload : Bytes) (ttl : ℤ)
      (state : Str) (r : Result ManagerError Str)
      → issue_state memory codec s minted now purpose payload ttl r ≡ (s', ok state)
      → Issued s s' minted now purpose payload ttl state
  unfolding issue_state
  issue_state-Issued s s' minted now purpose payload ttl state (err e) h = cc h
  issue_state-Issued s s' minted now purpose payload ttl state (ok st) h =
      issue_encoded-Issued s s' minted now purpose payload ttl st state _ refl h

  issue-Issued :
      (s s' : MemoryStore) (minted now : ℕ) (entropy : Option Bytes) (purpose : Str)
      (payload : Bytes) (ttl : ℤ) (state : Str)
      → issue memory codec s minted now entropy purpose payload ttl ≡ (s', ok state)
      → Issued s s' minted now purpose payload ttl state
  unfolding issue
  issue-Issued s s' minted now entropy purpose payload ttl state h =
      issue_state-Issued s s' minted now purpose payload ttl state (new_state entropy)
        (ground arith)

  consume_taken-ok :
      (now : ℕ) (asked : Str) (b : Bytes) (r : MemoryStore × Result StoreError Bytes)
      → r.1 ≡ ok b
      → (consume_taken memory codec now asked r).1
        ≡ check_envelope memory codec now asked (codec.unmarshal b)
  unfolding consume_taken
  consume_taken-ok now asked b (s, ok c) h =
      let same : c ≡ b = cc h in
      ap (λ x. check_envelope memory codec now asked (codec.unmarshal x)) same
  consume_taken-ok now asked b (s, err not_found) h = cc h
  consume_taken-ok now asked b (s, err e) h = cc h

  -- Whatever the checks decide, the store has lost the entry.
  consume_taken-store :
      (now : ℕ) (asked : Str) (r : MemoryStore × Result StoreError Bytes)
      → (consume_taken memory codec now asked r).0 ≡ r.0
  unfolding consume_taken
  consume_taken-store now asked (s, ok c) = refl
  consume_taken-store now asked (s, err not_found) = refl
  consume_taken-store now asked (s, err e) = refl

  pub store-consume :
      (s : MemoryStore) (taken now : ℕ) (asked state : Str)
      → asked ≢ []
      → (consume memory codec s taken now asked state).0 ≡ (take s taken (state_prefix ++ state)).0
  unfolding consume
  store-consume s taken now asked state named =
      let same = consume_taken-store now asked (take s taken (state_prefix ++ state)) in
      ground (arith, eq_iff asked [])

  -- The round trip, and every check of `Consume` on an issued state that the store still holds:
  -- after its expiry it is refused as expired, before that it gives back exactly the payload to the
  -- purpose that it was issued for, and is refused to any other purpose.
  pub consume-issue :
      (s s' : MemoryStore) (minted now taken later : ℕ) (entropy : Option Bytes)
      (purpose asked : Str) (payload : Bytes) (ttl : ℤ) (state : Str)
      → ReadsBack codec
      → issue memory codec s minted now entropy purpose payload ttl ≡ (s', ok state)
      → taken ≤ now + to_ℕ ttl
      → asked ≢ []
      → (consume memory codec s' taken later asked state).1 ≡ (
          if ltb (minted + to_ℕ ttl) later
          then err expired
          else if purpose == asked
          then ok payload
          else err purpose_mismatch)
  unfolding consume check_envelope
  consume-issue s s' minted now taken later entropy purpose asked payload ttl state back h fresh
        named =
      let i = issue-Issued s s' minted now entropy purpose payload ttl state h in
      let key = state_prefix ++ state in
      let error : (put_if_absent s now key i.encoded ttl).1 ≡ none =
        ap (λ (r : _). r.1) i.written in
      let store : (put_if_absent s now key i.encoded ttl).0 ≡ s' = ap (λ (r : _). r.0) i.written in
      let took : (take s' taken key).1 ≡ ok i.encoded =
        subst (λ (t : MemoryStore). (take t taken key).1 ≡ ok i.encoded) store
          (take-put s now taken key i.encoded ttl error ∙ ground arith) in
      let checked = consume_taken-ok later asked i.encoded (take s' taken key) took in
      let read = back _ i.encoded i.marshalled in
      ground (arith, eq_iff asked [], checked ∙ ap (check_envelope memory codec later asked) read)

  refused_taken :
      (t : MemoryStore) (taken now : ℕ) (asked state : Str)
      → asked ≢ []
      → take t taken (state_prefix ++ state) ≡ (t, err not_found)
      → consume memory codec t taken now asked state ≡ (t, err state_not_found)
  unfolding consume consume_taken
  refused_taken t taken now asked state named h =
      let answer : consume_taken memory codec now asked (take t taken (state_prefix ++ state))
          ≡ (t, err state_not_found) =
        ap (consume_taken memory codec now asked) h in
      ground (arith, eq_iff asked [])

  -- Single use: a call of `Consume` that names a purpose destroys the state, whatever it answers, so
  -- that every later call for it finds nothing, and leaves the store as it is.
  consume_burns :
      (s : MemoryStore) (taken now taken' now' : ℕ) (asked asked' state : Str)
      → asked ≢ []
      → asked' ≢ []
      → let s' = (consume memory codec s taken now asked state).0 in
        consume memory codec s' taken' now' asked' state ≡ (s', err state_not_found)
  consume_burns s taken now taken' now' asked asked' state named named' =
      let key = state_prefix ++ state in
      let gone = (take_once s taken taken' key []).1 in
      let same = store-consume s taken now asked state named in
      refused_taken (consume memory codec s taken now asked state).0 taken' now' asked' state named'
        (subst (λ (t : MemoryStore). take t taken' key ≡ (t, err not_found)) (sym same) gone)
