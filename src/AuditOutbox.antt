-- ===== src/AuditOutbox.antt =====
-- identity/auditoutbox: the outbox (outbox.go). The statements are read as PostgreSQL runs them on one table; a transaction works
-- on a copy that is kept or dropped. What can fail is an argument of each call.
mod Records
mod Delivery
mod Pruning
pub mod Relay
pub mod Ledger
pub mod Batch
pub mod Turns
pub mod Isolation
pub mod Redelivery
pub mod Replicas
pub mod Tests
use terraform_suite_identity.Common.{
  filter, sort_by, take, ℕ, zero, suc, ◌+◌, ◌-◌, ◌*◌, ℤ, pos, negsuc, Str, ◌==◌, contains, List, [],
  ◌∷◌, ◌++◌, length, map, is_empty, Bool, true, false, not, ◌&&◌, ◌||◌, Option, none, some, ltb,
  nat_eq, if◌then◌else◌,
}
use terraform_suite_identity.Store.OrgScope.{str_lt}

-- An intent; a pointer that may be nil is an option. The time 0 is Go's zero time. The metadata is
-- the encoded document.
pub record Intent : Type 0 where
  pub event_id : Str
  pub occurred_at : ℕ
  pub action : Str
  pub actor_user_id : Option Str
  pub actor_email : Option Str
  pub organization_id : Option Str
  pub resource_type : Option Str
  pub resource_id : Option Str
  pub ip_address : Option Str
  pub metadata : Option Str

-- A row of the outbox table.
pub record Row : Type 0 where
  pub intent : Intent
  pub delivered_at : Option ℕ
  pub attempts : ℕ
  pub last_error : Option ℕ

pub data OutboxError : Type 0 where
  intent_incomplete : OutboxError
  database : ℕ → OutboxError

-- The outbox, the destination table, and what the shipper accepted.
pub record World : Type 0 where
  pub rows : List Row
  pub dest : List Intent
  pub shipped : List Intent

abbrev pub row_id : Row → Str
row_id r = r.intent.event_id

abbrev pub row_ids : List Row → List Str
row_ids rows = map row_id rows

abbrev pub dest_ids : List Intent → List Str
dest_ids dest = map (λ (i : Intent). i.event_id) dest

-- The defaults that `Enqueue` fills in: a fresh identifier, and the time.
pub fill : Str → ℕ → Intent → Intent
fill uuid now i = record i {
  event_id = if i.event_id == [] then uuid else i.event_id;
  occurred_at = if nat_eq i.occurred_at 0 then now else i.occurred_at;
}

-- The insert; event_id is the table's primary key. The number is that of the error.
pub insert_row : List Row → Intent → List Row × Option OutboxError
insert_row rows i = if contains (row_ids rows) i.event_id then (rows, some (database 23505)) else (
  rows ++ record { intent = i; delivered_at = none; attempts = 0; last_error = none } ∷ [],
  none,
)

-- `Enqueue`, for an outbox and a transaction that are there; `none` is the nil intent.
unfoldable pub enqueue : List Row → Str → ℕ → Option Intent → List Row × Option OutboxError
unfolding fill insert_row
enqueue rows uuid now none = (rows, some intent_incomplete)
enqueue rows uuid now (some i) =
    if i.action == [] then (rows, some intent_incomplete) else insert_row rows (fill uuid now i)

pub is_pending : Row → Bool
is_pending r = elim r.delivered_at [ none ↦ true | some t ↦ false ]

-- `occurred_at ASC, event_id ASC`
pub older : Row → Row → Bool
older a b =
    ltb a.intent.occurred_at b.intent.occurred_at
    || (nat_eq a.intent.occurred_at b.intent.occurred_at && str_lt (row_id a) (row_id b))

-- `claim`: the rows that another replica has locked are skipped.
unfoldable pub claim : (Str → Bool) → ℕ → List Row → List Row
unfolding filter sort_by take older is_pending
claim locked n rows =
    take n (sort_by older (filter (λ r. is_pending r && not (locked (row_id r))) rows))

-- `markDelivered`
pub mark_row : ℕ → Str → Row → Row
mark_row now id r =
    if row_id r == id
    then record r { delivered_at = some now; attempts = r.attempts + 1; last_error = none }
    else r

unfoldable pub mark_delivered : ℕ → Str → List Row → List Row
unfolding mark_row
mark_delivered now id [] = []
mark_delivered now id (r ∷ rows) = mark_row now id r ∷ mark_delivered now id rows

-- `recordFailure`
pub fail_row : Str → ℕ → Row → Row
fail_row id cause r =
    if row_id r == id then record r { attempts = r.attempts + 1; last_error = some cause } else r

unfoldable pub record_failure : Str → ℕ → List Row → List Row
unfolding fail_row
record_failure id cause [] = []
record_failure id cause (r ∷ rows) = fail_row id cause r ∷ record_failure id cause rows

pub delivered_before : ℕ → Row → Bool
delivered_before before r = elim r.delivered_at [ none ↦ false | some t ↦ ltb t before ]

-- `delivered_at ASC`, among delivered rows.
pub delivered_earlier : Row → Row → Bool
delivered_earlier a b = elim b.delivered_at [ none ↦ false | some t ↦ delivered_before t a ]

-- `PruneDelivered` with a limit that is positive.
unfoldable pub prune_delivered : ℕ → ℕ → List Row → List Row
unfolding filter sort_by take delivered_before delivered_earlier
prune_delivered before n rows =
    let victims =
      row_ids (take n (sort_by delivered_earlier (filter (delivered_before before) rows))) in
    filter (λ r. not (contains victims (row_id r))) rows
