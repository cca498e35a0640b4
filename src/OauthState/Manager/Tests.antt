-- ===== src/OauthState/Manager/Tests.antt =====
-- The manager: tests, and the theorems at concrete inputs.
use terraform_suite_identity.Common.{
  pos, lit, ◌==◌, eq_iff, has_prefix, [], ◌∷◌, ◌≡◌, refl, sym, ap, Bool-cases, inl, inr, true,
  false, Option, none, some, ltb, if◌then◌else◌, arith,
}
use terraform_suite_identity.Common.Assoc
use terraform_suite_identity.OauthState.Store.{Bytes, ok, err}
use terraform_suite_identity.OauthState.Memory.{
  MemoryStore, memory, put_if_absent, take, purge_expired, evict_until, make_room, is_replay_marker,
  store_entry, is_live,
}
use terraform_suite_identity.OauthState.Manager.{
  Envelope, Codec, expired, purpose_mismatch, issue, consume, reserve, new_state, issue_state,
  issue_encoded, issued, reserved, raw_url_encode,
}
use terraform_suite_identity.OauthState.Manager.Protocol.{ReadsBack, consume-issue}
use terraform_suite_identity.OauthState.Manager.Replay.{
  issues, consumes, reserves, ticks, manager_run, replay_denied,
}

-- A codec that knows one purpose.
abbrev toy_marshal : Envelope → Option Bytes
toy_marshal e = if e.purpose == lit "login" then some (e.expires_at ∷ e.payload) else none

abbrev toy_unmarshal : Bytes → Option Envelope
toy_unmarshal [] = none
toy_unmarshal (t ∷ b) = some (record { purpose = lit "login"; expires_at = t; payload = b })

abbrev toy : Codec
toy = record { marshal = toy_marshal; unmarshal = toy_unmarshal }

toy-ReadsBack : ReadsBack toy
toy-ReadsBack e b h = elim (Bool-cases (e.purpose == lit "login")) [
  | inl same ↦
      let named = (eq_iff e.purpose (lit "login")).0 same in
      let written : some (e.expires_at ∷ e.payload) ≡ some b = rw (← h, same) in
      let bytes : e.expires_at ∷ e.payload ≡ b = cc written in
      rw (← bytes) (ap (λ p. some (record e { purpose = p })) (sym named))
  | inr other ↦ cc (h, other)
]

-- The encoding of RFC 4648, section 10, and the characters that differ in the URL alphabet.
encodes : raw_url_encode (lit "fooba") ≡ lit "Zm9vYmE"
unfolding raw_url_encode
encodes = refl

abbrev empty_store : MemoryStore
empty_store = record { entries = []; max_entries = 2; stopped = false }

issues_a_state :
    issue memory toy empty_store 10 11 (some (1 ∷ 2 ∷ 3 ∷ [])) (lit "login") (9 ∷ []) (pos 5) ≡ (
      (issue memory toy empty_store 10 11 (some (1 ∷ 2 ∷ 3 ∷ [])) (lit "login") (9 ∷ []) (pos 5)).0,
      ok (lit "AQID"),
    )
unfolding issue new_state issue_state issue_encoded issued store_entry is_live put_if_absent take
    make_room evict_until purge_expired is_replay_marker has_prefix ◌==◌ Assoc.get Assoc.count
    raw_url_encode
issues_a_state = refl

consume-issue_example :
    (consume memory toy
      (issue memory toy empty_store 10 11 (some (1 ∷ 2 ∷ 3 ∷ [])) (lit "login") (9 ∷ []) (pos 5)).0
      14
      15
      (lit "login")
      (lit "AQID")).1
    ≡ (if ltb 15 15
        then err expired
        else if lit "login" == lit "login"
        then ok (9 ∷ [])
        else err purpose_mismatch)
consume-issue_example =
    consume-issue toy empty_store _ 10 11 14 15 (some (1 ∷ 2 ∷ 3 ∷ [])) (lit "login") (lit "login")
      (9 ∷ []) (pos 5) (lit "AQID") toy-ReadsBack issues_a_state (omega arith) (λ h. cc h)

reserves_once : (reserve memory toy empty_store 10 (lit "jti") (pos 30)).1 ≡ true
unfolding reserve reserved store_entry is_live put_if_absent take make_room evict_until
    purge_expired is_replay_marker has_prefix ◌==◌ Assoc.get Assoc.count
reserves_once = refl

replay_denied_example :
    reserve memory toy
      (manager_run toy (reserve memory toy empty_store 10 (lit "jti") (pos 30)).0 (
        issues 11 12 (some (1 ∷ [])) (lit "login") [] (pos 5)
        ∷ consumes 20 21 (lit "login") (lit "jti")
        ∷ reserves 25 (lit "jti2") (pos 1)
        ∷ ticks 30
        ∷ []))
      39
      (lit "jti")
      (pos 30)
    ≡ (
      manager_run toy (reserve memory toy empty_store 10 (lit "jti") (pos 30)).0 (
          issues 11 12 (some (1 ∷ [])) (lit "login") [] (pos 5)
          ∷ consumes 20 21 (lit "login") (lit "jti")
          ∷ reserves 25 (lit "jti2") (pos 1)
          ∷ ticks 30
          ∷ []),
      false,
      none,
    )
replay_denied_example =
    replay_denied toy empty_store 10 39 (lit "jti") (pos 30) (pos 30)
      (issues 11 12 (some (1 ∷ [])) (lit "login") [] (pos 5)
        ∷ consumes 20 21 (lit "login") (lit "jti")
        ∷ reserves 25 (lit "jti2") (pos 1)
        ∷ ticks 30
        ∷ [])
      reserves_once (omega arith, (omega arith, (omega arith, (omega arith, tt)))) (omega arith)
      refl
