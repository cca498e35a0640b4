-- ===== src/OauthState/Manager.antt =====
-- The `Manager` of oauthstate.go, over any `Store`. `encoding/json` and `crypto/rand` are arguments:
-- a codec of envelopes, and the bytes that a call of `rand.Read` gave, if it succeeded.
pub mod Protocol
pub mod Replay
mod Tests
use terraform_suite_identity.Common.{
  ℕ, zero, suc, ◌+◌, ◌*◌, ◌/◌, ◌%◌, ℤ, is_positive, to_ℕ, Str, ◌==◌, lit, List, [], ◌∷◌, ◌++◌, Bool,
  true, false, not, Option, none, some, ltb, if◌then◌else◌, get_elem?,
}
use terraform_suite_identity.OauthState.Store.{
  Bytes, StoreError, already_exists, not_found, Result, ok, err, Store, state_prefix,
  reserve_prefix,
}

pub record Envelope : Type 0 where
  pub purpose : Str
  pub expires_at : ℕ
  pub payload : Bytes

pub record Codec : Type 0 where
  pub marshal : Envelope → Option Bytes
  pub unmarshal : Bytes → Option Envelope

-- `base64.RawURLEncoding`: three bytes are four characters of the alphabet, without padding.
abbrev pub alphabet : Str
alphabet = lit "ABCDEFGHIJKLMNOPQRSTUVWXYZabcdefghijklmnopqrstuvwxyz0123456789-_"

unfoldable pub symbol : ℕ → Str
symbol n = elim (get_elem? alphabet n) [ none ↦ [] | some c ↦ c ∷ [] ]

unfoldable pub raw_url_encode : Bytes → Str
unfolding symbol
raw_url_encode [] = []
raw_url_encode (a ∷ []) = symbol (a / 4) ++ symbol (a % 4 * 16)
raw_url_encode (a ∷ b ∷ []) =
    symbol (a / 4) ++ (symbol (a % 4 * 16 + b / 16) ++ symbol (b % 16 * 4))
raw_url_encode (a ∷ b ∷ c ∷ rest) =
    symbol (a / 4)
    ++ (symbol (a % 4 * 16 + b / 16)
        ++ (symbol (b % 16 * 4 + c / 64) ++ (symbol (c % 64) ++ raw_url_encode rest)))

pub data ManagerError : Type 0 where
  purpose_required bad_ttl bad_key entropy_failed encode_failed decode_failed : ManagerError
  store_failed : StoreError → ManagerError
  state_not_found expired purpose_mismatch : ManagerError

-- The argument is the 32 bytes that `rand.Read` filled, or `none` for its error.
unfoldable pub new_state : Option Bytes → Result ManagerError Str
unfolding raw_url_encode
new_state none = err entropy_failed
new_state (some b) = ok (raw_url_encode b)

module _ {S : Type 0} (store : Store S) (codec : Codec) where
  -- The answer of the store to a write.
  pub issued : Str → S × Option StoreError → S × Result ManagerError Str
  issued state (s, some e) = (s, err (store_failed e))
  issued state (s, none) = (s, ok state)

  -- `Issue` once its entry is encoded; `now` is the time that the store reads.
  pub issue_encoded : S → ℕ → ℤ → Str → Option Bytes → S × Result ManagerError Str
  unfolding issued
  issue_encoded s now ttl state none = (s, err encode_failed)
  issue_encoded s now ttl state (some encoded) =
      issued state (store.put_if_absent s now (state_prefix ++ state) encoded ttl)

  -- `Issue` once its state is minted; `minted` is the time that the manager reads.
  pub issue_state :
      S → ℕ → ℕ → Str → Bytes → ℤ → Result ManagerError Str → S × Result ManagerError Str
  unfolding issue_encoded
  issue_state s minted now purpose payload ttl (err e) = (s, err e)
  issue_state s minted now purpose payload ttl (ok state) = issue_encoded s now ttl state (
      codec.marshal
        (record { purpose = purpose; expires_at = minted + to_ℕ ttl; payload = payload }))

  unfoldable pub issue : S → ℕ → ℕ → Option Bytes → Str → Bytes → ℤ → S × Result ManagerError Str
  unfolding issue_state new_state
  issue s minted now entropy purpose payload ttl =
      if purpose == []
      then (s, err purpose_required)
      else if not (is_positive ttl)
      then (s, err bad_ttl)
      else issue_state s minted now purpose payload ttl (new_state entropy)

  -- The checks of `Consume` on the entry that it took.
  pub check_envelope : ℕ → Str → Option Envelope → Result ManagerError Bytes
  check_envelope now purpose none = err decode_failed
  check_envelope now purpose (some env) =
      if ltb env.expires_at now
      then err expired
      else if not (env.purpose == purpose)
      then err purpose_mismatch
      else ok env.payload

  pub consume_taken : ℕ → Str → S × Result StoreError Bytes → S × Result ManagerError Bytes
  unfolding check_envelope
  consume_taken now purpose (s, err not_found) = (s, err state_not_found)
  consume_taken now purpose (s, err e) = (s, err (store_failed e))
  consume_taken now purpose (s, ok stored) =
      (s, check_envelope now purpose (codec.unmarshal stored))

  -- `taken` is the time that the store reads, `now` the later one that the manager reads.
  unfoldable pub consume : S → ℕ → ℕ → Str → Str → S × Result ManagerError Bytes
  unfolding consume_taken
  consume s taken now purpose state =
      if purpose == []
      then (s, err purpose_required)
      else consume_taken now purpose (store.take s taken (state_prefix ++ state))

  -- The answer of the store to a reservation.
  pub reserved : S × Option StoreError → S × Bool × Option ManagerError
  reserved (s, none) = (s, true, none)
  reserved (s, some already_exists) = (s, false, none)
  reserved (s, some e) = (s, false, some (store_failed e))

  unfoldable pub reserve : S → ℕ → Str → ℤ → S × Bool × Option ManagerError
  unfolding reserved
  reserve s now key ttl =
      if key == []
      then (s, false, some bad_key)
      else if not (is_positive ttl)
      then (s, false, some bad_ttl)
      else reserved (store.put_if_absent s now (reserve_prefix ++ key) [] ttl)

  unfoldable pub close : S → S
  close s = store.close s
