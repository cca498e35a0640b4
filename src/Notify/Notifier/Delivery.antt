-- ===== src/Notify/Notifier/Delivery.antt =====
-- identity/notify/notifier.go: deliver and record, Notify, SendTest and SendTestEmail.
use terraform_suite_identity.Common.{
  ℕ, zero, suc, ℤ, pos, negsuc, Str, lit, is_empty, List, [], ◌∷◌, ◌++◌, map, Bool, true, not, ◌||◌,
  Option, none, some, if◌then◌else◌, Result, ok, err,
}
use terraform_suite_identity.Crypto.{Library}
use terraform_suite_identity.Notify.Message.{join}
use terraform_suite_identity.Notify.Channels.{
  ChannelRow, NotificationChannel, ChannelError, ChannelQueryOption,
}
use terraform_suite_identity.Notify.Channels.Statements.{
  get_by_id, list_enabled_for_event, record_delivery,
}
use terraform_suite_identity.Notify.Notifier.{
  Outgoing, NotifyError, Notifier, decrypt_target, Sent, send_email, send_to_target, unavailable,
  channel,
}

-- The statement of record: its clock and its failures.
pub record Recorder : Type 0 where
  pub now : ℕ
  pub fails : Option ℕ
  pub count_fails : Option ℕ

-- record, whose own error is logged only.
unfoldable pub record_outcome :
    Notifier
    → Recorder
    → Str
    → Option NotifyError
    → List ChannelQueryOption
    → List ChannelRow
    → List ChannelRow
record_outcome n r id none opts rows =
    (record_delivery r.fails r.count_fails id (lit "sent") [] r.now opts rows).0
record_outcome n r id (some e) opts rows =
    (record_delivery r.fails r.count_fails id (lit "failed") (n.error_text e) r.now opts rows).0

-- The table, what went out, and the error.
pub record Delivery : Type 0 where
  pub rows : List ChannelRow
  pub out : List Outgoing
  pub error : Option NotifyError

-- deliver, from what decryptTarget gave on.
unfoldable pub deliver_target :
    Notifier
    → Recorder
    → NotificationChannel
    → Str
    → Str
    → List ChannelQueryOption
    → List ChannelRow
    → Result NotifyError Str
    → Delivery
unfolding send_to_target record_outcome
deliver_target n r ch title message opts rows (err e) = record {
  rows = record_outcome n r ch.id (some e) opts rows;
  out = [];
  error = some e;
}
deliver_target n r ch title message opts rows (ok target) =
    let (out, error) = send_to_target n ch target title message in
    record { rows = record_outcome n r ch.id error opts rows; out = out; error = error }

unfoldable pub deliver :
    Library
    → Notifier
    → Recorder
    → NotificationChannel
    → Str
    → Str
    → List ChannelQueryOption
    → List ChannelRow
    → Delivery
unfolding deliver_target
deliver lib n r ch title message opts rows =
    deliver_target n r ch title message opts rows (decrypt_target lib n ch)

-- The loop of Notify: each channel is tried, whatever became of those before it.
unfoldable pub deliver_all :
    Library
    → Notifier
    → (Str → Recorder)
    → List NotificationChannel
    → Str
    → Str
    → List ChannelQueryOption
    → List ChannelRow
    → List ChannelRow × List (Str × Outgoing)
unfolding deliver
deliver_all lib n r [] title message opts rows = (rows, [])
deliver_all lib n r (ch ∷ chs) title message opts rows =
    let d = deliver lib n (r ch.id) ch title message opts rows in
    let (rows', later) = deliver_all lib n r chs title message opts d.rows in
    (rows', map (λ o. (ch.id, o)) d.out ++ later)

pub record Event : Type 0 where
  pub typ : Str
  pub title : Str
  pub message : Str
  pub dedup_key : Str
  pub dedup_ttl : ℤ

abbrev pub default_dedup_ttl : ℕ
default_dedup_ttl = 3600000000000

-- `ttl <= 0`
abbrev pub ttl_of : ℤ → ℕ
ttl_of (pos zero) = default_dedup_ttl
ttl_of (pos (suc n)) = suc n
ttl_of (negsuc n) = default_dedup_ttl

-- claimDedup: what ClaimDedup answers to the key, an error being `none`.
unfoldable pub claim_dedup : (Str → ℕ → Option Bool) → Event → Bool
claim_dedup claim ev =
    if is_empty ev.dedup_key
    then true
    else elim (claim ev.dedup_key (ttl_of ev.dedup_ttl)) [ none ↦ true | some won ↦ won ]

-- The fan-out of Notify, from the answer of ListEnabledForEvent on.
unfoldable pub notify_listed :
    Library
    → Notifier
    → (Str → Recorder)
    → Event
    → List ChannelQueryOption
    → List ChannelRow
    → Result ChannelError (List NotificationChannel)
    → List ChannelRow × List (Str × Outgoing)
unfolding deliver_all
notify_listed lib n r ev opts rows (err e) = (rows, [])
notify_listed lib n r ev opts rows (ok channels) =
    deliver_all lib n r channels ev.title ev.message opts rows

unfoldable pub notify :
    Library
    → Option Notifier
    → (Str → ℕ → Option Bool)
    → Option ℕ
    → (Str → Recorder)
    → Event
    → List ChannelQueryOption
    → List ChannelRow
    → List ChannelRow × List (Str × Outgoing)
unfolding claim_dedup notify_listed
notify lib none claim fails r ev opts rows = (rows, [])
notify lib (some n) claim fails r ev opts rows =
    if not n.has_repo || not (claim_dedup claim ev)
    then (rows, [])
    else notify_listed lib n r ev opts rows (list_enabled_for_event fails ev.typ opts rows)

unfoldable pub send_test :
    Library
    → Option Notifier
    → Option ℕ
    → Recorder
    → Str
    → List ChannelQueryOption
    → List ChannelRow
    → Delivery
unfolding deliver
send_test lib none fails r id opts rows = record { rows = rows; out = []; error = some unavailable }
send_test lib (some n) fails r id opts rows =
    if not n.has_repo
    then record { rows = rows; out = []; error = some unavailable }
    else elim (get_by_id fails id opts rows) [
      | err e ↦ record { rows = rows; out = []; error = some (channel e) }
      | ok ch ↦ deliver lib n r ch (lit "Test notification") n.test_message opts rows
    ]

unfoldable pub send_test_email : Option Notifier → List Str → Str → Str → Sent
unfolding send_email
send_test_email none to subject body = ([], some unavailable)
send_test_email (some n) to subject body = send_email n (join (lit ",") to) subject body
