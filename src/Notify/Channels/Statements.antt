-- ===== src/Notify/Channels/Statements.antt =====
-- identity/notify/channel_repository.go: the statements on the channels.
use terraform_suite_identity.Common.{
  ℕ, zero, suc, ltb, Str, ◌==◌, contains, is_empty, List, [], ◌∷◌, ◌++◌, filter, sort_by, map,
  count_if, Bool, not, ◌&&◌, ◌||◌, Option, none, some, if◌then◌else◌, Result, ok, err, ◌>>=◌, ◌>>◌,
  no_error,
}
use terraform_suite_identity.Notify.Channels.{
  ChannelRow, NotificationChannel, scan_channel, without_secret, ChannelError, ChannelFilter,
  ChannelQueryOption, new_channel_filter, admits, new_channel_write, not_found, database,
}

-- What the INSERT of Create leaves to the table: the id, the time, and the owner by default.
pub record Defaults : Type 0 where
  pub id : Str
  pub now : ℕ
  pub organization_id : Option Str

abbrev pub or_default : Option Str → Option Str → Option Str
or_default none default = default
or_default (some o) default = some o

unfoldable pub create :
    Defaults
    → Option ℕ
    → NotificationChannel
    → List (Option Str)
    → List ChannelRow
    → Result ChannelError (List ChannelRow × NotificationChannel)
unfolding new_channel_write scan_channel
create by_table fails ch opts rows = do
  org ← new_channel_write opts
  no_error database fails
  let row : ChannelRow = record {
    id = by_table.id;
    name = ch.name;
    typ = ch.typ;
    encrypted_target = ch.encrypted_target;
    events = ch.events;
    enabled = ch.enabled;
    last_status = none;
    last_error = none;
    last_sent_at = none;
    created_at = by_table.now;
    updated_at = by_table.now;
    organization_id = or_default org by_table.organization_id;
  }
  ok (rows ++ row ∷ [], without_secret (scan_channel row))

-- `ORDER BY created_at DESC`
abbrev pub is_newer : ChannelRow → ChannelRow → Bool
is_newer r s = ltb s.created_at r.created_at

unfoldable pub list_channels :
    Option ℕ
    → List ChannelQueryOption
    → List ChannelRow
    → Result ChannelError (List NotificationChannel)
unfolding sort_by new_channel_filter admits scan_channel
list_channels fails opts rows = do
  no_error database fails
  ok (
      map (λ r. without_secret (scan_channel r))
        (sort_by is_newer (filter (admits (new_channel_filter opts)) rows)))

-- `WHERE id = $1 AND …`
abbrev pub named : ChannelFilter → Str → ChannelRow → Bool
named f id r = r.id == id && admits f r

unfoldable pub first_row : List ChannelRow → Result ChannelError ChannelRow
first_row [] = err not_found
first_row (r ∷ rs) = ok r

unfoldable pub get_by_id :
    Option ℕ
    → Str
    → List ChannelQueryOption
    → List ChannelRow
    → Result ChannelError NotificationChannel
unfolding first_row new_channel_filter scan_channel
get_by_id fails id opts rows = do
  no_error database fails
  row ← first_row (filter (named (new_channel_filter opts) id) rows)
  ok (scan_channel row)

-- The SET clause where the WHERE clause holds.
abbrev pub set_rows :
    (ChannelRow → Bool) → (ChannelRow → ChannelRow) → List ChannelRow → List ChannelRow
set_rows selects change rows = map (λ r. if selects r then change r else r) rows

pub record Change : Type 0 where
  pub name : Str
  pub typ : Str
  pub events : List Str
  pub enabled : Bool
  pub encrypted_target : Str

abbrev pub changed : Change → ℕ → ChannelRow → ChannelRow
changed c now r = record r {
  name = c.name;
  typ = c.typ;
  events = c.events;
  enabled = c.enabled;
  encrypted_target = if is_empty c.encrypted_target then r.encrypted_target else c.encrypted_target;
  updated_at = now;
}

unfoldable pub update :
    Option ℕ
    → ℕ
    → Str
    → Change
    → List ChannelQueryOption
    → List ChannelRow
    → Result ChannelError (List ChannelRow × NotificationChannel)
unfolding first_row new_channel_filter scan_channel
update fails now id c opts rows = do
  no_error database fails
  row ← first_row (filter (named (new_channel_filter opts) id) rows)
  ok (
    set_rows (named (new_channel_filter opts) id) (changed c now) rows,
    without_secret (scan_channel (changed c now row)),
  )

-- requireChannelRow, with the failure to read the count.
unfoldable pub require_channel_row : Option ℕ → ℕ → Result ChannelError (Unit {0})
require_channel_row (some e) n = err (database e)
require_channel_row none zero = err not_found
require_channel_row none (suc n) = ok tt

-- A statement that changes rows, and what requireChannelRow makes of their number.
unfoldable pub exec :
    Option ℕ
    → Option ℕ
    → (ChannelRow → Bool)
    → List ChannelRow
    → List ChannelRow
    → List ChannelRow × Result ChannelError (Unit {0})
unfolding require_channel_row
exec (some e) count_fails selects rows rows' = (rows, err (database e))
exec none count_fails selects rows rows' =
    (rows', require_channel_row count_fails (count_if selects rows))

unfoldable pub delete :
    Option ℕ
    → Option ℕ
    → Str
    → List ChannelQueryOption
    → List ChannelRow
    → List ChannelRow × Result ChannelError (Unit {0})
unfolding exec new_channel_filter
delete fails count_fails id opts rows =
    let selects = named (new_channel_filter opts) id in
    exec fails count_fails selects rows (filter (λ r. not (selects r)) rows)

-- `enabled AND (jsonb_array_length(events) = 0 OR events @> to_jsonb($1::text))`
abbrev pub subscribed : Str → ChannelRow → Bool
subscribed event_type r = r.enabled && (is_empty r.events || contains r.events event_type)

unfoldable pub list_enabled_for_event :
    Option ℕ
    → Str
    → List ChannelQueryOption
    → List ChannelRow
    → Result ChannelError (List NotificationChannel)
unfolding new_channel_filter scan_channel
list_enabled_for_event fails event_type opts rows = do
  no_error database fails
  ok (
      map scan_channel
        (filter (λ r. subscribed event_type r && admits (new_channel_filter opts) r) rows))

-- `NULLIF($3,'')`
abbrev pub null_if_empty : Str → Option Str
null_if_empty s = if is_empty s then none else some s

abbrev pub stamped : Str → Str → ℕ → ChannelRow → ChannelRow
stamped status message now r = record r {
  last_status = some status;
  last_error = null_if_empty message;
  last_sent_at = some now;
  updated_at = now;
}

unfoldable pub record_delivery :
    Option ℕ
    → Option ℕ
    → Str
    → Str
    → Str
    → ℕ
    → List ChannelQueryOption
    → List ChannelRow
    → List ChannelRow × Result ChannelError (Unit {0})
unfolding exec new_channel_filter
record_delivery fails count_fails id status message now opts rows =
    let selects = named (new_channel_filter opts) id in
    exec fails count_fails selects rows (set_rows selects (stamped status message now) rows)
