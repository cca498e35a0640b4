-- ===== src/Notify/Keys.antt =====
-- identity/store/api_key_repository.go: the two statements that the expiry warnings run. Times are
-- nanoseconds.
use terraform_suite_identity.Notify.Fault.{ClaimFault, answers, fails, reply_lost}
use terraform_suite_identity.Common.{
  ℕ, suc, ◌+◌, ◌-◌, ◌*◌, ◌%◌, ◌^◌, ℤ, pos, negsuc, Str, ◌==◌, leb, ltb, List, [], ◌∷◌, filter,
  sort_by, Bool, true, false, ◌&&◌, Option, none, some, if◌then◌else◌,
}

-- A row of api_keys, with the columns that the job reads.
pub record KeyRow : Type 0 where
  pub id : Str
  pub user_id : Option Str
  pub name : Str
  pub key_prefix : Str
  pub expires_at : Option ℕ
  pub sent_at : Option ℕ

-- `int64`, for a product of a positive count.
unfoldable pub int64 : ℕ → ℤ
int64 n = if ltb (n % 2 ^ 64) (2 ^ 63) then pos (n % 2 ^ 64) else negsuc (2 ^ 64 - n % 2 ^ 64 - 1)

abbrev pub day : ℕ
day = 86400000000000

-- `expires_at <= $1`, where `$1` is `time.Now().Add(d)`.
unfoldable pub by_cutoff : ℕ → ℕ → ℤ → Bool
by_cutoff e now (pos d) = leb e (now + d)
by_cutoff e now (negsuc d) = leb (e + suc d) now

-- The WHERE clause, at the time of the process and at the time of the database.
unfoldable pub is_expiring : ℕ → ℕ → ℕ → KeyRow → Bool
unfolding by_cutoff int64
is_expiring now db_now warning_days k = elim k.expires_at [
  | none ↦ false
  | some e ↦ elim k.user_id [
    | none ↦ false
    | some u ↦ elim k.sent_at [
      | some t ↦ false
      | none ↦ ltb db_now e && by_cutoff e now (int64 (warning_days * day))
    ]
  ]
]

-- `ORDER BY expires_at ASC`
abbrev pub expiry : KeyRow → ℕ
expiry k = elim k.expires_at [ none ↦ 0 | some e ↦ e ]

unfoldable pub find_expiring_keys : ℕ → ℕ → ℕ → List KeyRow → List KeyRow
unfolding is_expiring sort_by
find_expiring_keys now db_now warning_days rows =
    sort_by (λ j k. ltb (expiry j) (expiry k)) (filter (is_expiring now db_now warning_days) rows)

-- The UPDATE of ClaimExpiryNotification, and whether it took a row.
abbrev pub is_unsent : KeyRow → Bool
is_unsent k = elim k.sent_at [ none ↦ true | some t ↦ false ]

unfoldable pub claim_rows : ℕ → Str → List KeyRow → List KeyRow × Bool
claim_rows now id [] = ([], false)
claim_rows now id (k ∷ ks) =
    let (rest, won) = claim_rows now id ks in
    if k.id == id && is_unsent k
    then (record k { sent_at = some now } ∷ rest, true)
    else (k ∷ rest, won)

unfoldable pub claim_expiry_notification :
    ClaimFault → ℕ → Str → List KeyRow → List KeyRow × Option Bool
unfolding claim_rows
claim_expiry_notification answers now id rows =
    let (rows', won) = claim_rows now id rows in (rows', some won)
claim_expiry_notification fails now id rows = (rows, none)
claim_expiry_notification reply_lost now id rows = ((claim_rows now id rows).0, none)
