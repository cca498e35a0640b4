-- ===== src/Notify/Notifier/Reach.antt =====
-- The channels that a notification goes out to (identity/notify/notifier.go).
use terraform_suite_identity.Common.{
  ℕ, Str, List, [], ◌∷◌, map, filter, In, In-append, In-map_inv, filter-In, Bool, true, false, not,
  ◌&&◌, ◌||◌, Option, none, some, if◌then◌else◌, Result, ok, err, ok_inj, ◌≡◌, inl, inr, refl, sym,
  ap, subst, arith,
}
use terraform_suite_identity.Crypto.{Library}
use terraform_suite_identity.Notify.Channels.{
  ChannelRow, NotificationChannel, scan_channel, ChannelError, ChannelFilter, ChannelQueryOption,
  new_channel_filter, admits,
}
use terraform_suite_identity.Notify.Channels.Statements.{subscribed, list_enabled_for_event}
use terraform_suite_identity.Notify.Notifier.{Outgoing, Notifier}
use terraform_suite_identity.Notify.Notifier.Delivery.{
  Recorder, deliver, deliver_all, Event, claim_dedup, notify_listed, notify,
}

module _ (opts : List ChannelQueryOption) (lib : Library) (n : Notifier) (title message : Str) where
  -- What goes out goes out for a channel of the list.
  deliver_all-In :
      (r : Str → Recorder) (chs : List NotificationChannel) (rows : List ChannelRow) (id : Str)
      (o : Outgoing)
      → In {A = Str × Outgoing} (id, o) (deliver_all lib n r chs title message opts rows).1
      → (ch : NotificationChannel) × In ch chs × (ch.id ≡ id)
  unfolding deliver_all
  deliver_all-In r [] rows id o h = elim h [ ]
  deliver_all-In r (ch ∷ chs) rows id o h =
      let d = deliver lib n (r ch.id) ch title message opts rows in
      elim (In-append (id, o) (map (λ x. (ch.id, x)) d.out)
        (deliver_all lib n r chs title message opts d.rows).1 h) [
          | inl now ↦ (ch, inl refl, tagged ch.id d.out now)
          | inr later ↦
              let (c, there, same) = deliver_all-In r chs d.rows id o later in (c, inr there, same)
        ]
    where
      tagged :
          (i : Str) (os : List Outgoing)
          → In {A = Str × Outgoing} (id, o) (map (λ x. (i, x)) os)
          → i ≡ id
      tagged i [] g = elim g [ ]
      tagged i (x ∷ os) (inl e) = ap (λ (p : Str × Outgoing). p.0) e
      tagged i (x ∷ os) (inr g) = tagged i os g

-- The channel of a delivery is an enabled and subscribed row that the options admit.
abbrev pub Reaches : Event → ChannelFilter → Str → List ChannelRow → Type 0
Reaches ev f id rows =
    (row : ChannelRow) × In row rows
    × (row.id ≡ id)
    × (subscribed ev.typ row ≡ true)
    × (admits f row ≡ true)

listed-Reaches :
    (ev : Event) (opts : List ChannelQueryOption) (fails : Option ℕ) (rows : List ChannelRow)
    (chs : List NotificationChannel) (ch : NotificationChannel)
    → list_enabled_for_event fails ev.typ opts rows ≡ ok chs
    → In ch chs
    → Reaches ev (new_channel_filter opts) ch.id rows
unfolding list_enabled_for_event
listed-Reaches ev opts (some e) rows chs ch h there = cc h
listed-Reaches ev opts none rows chs ch h there =
    let f = new_channel_filter opts in
    let (row, kept, same) =
      In-map_inv scan_channel ch (filter (λ r. subscribed ev.typ r && admits f r) rows)
        (subst (λ l. In ch l) (sym (ok_inj h)) there) in
    let (held, passes) = filter-In (λ r. subscribed ev.typ r && admits f r) row rows kept in
    (row, held, ap (λ c. c.id) same, ground (arith, passes), ground (arith, passes))

notify_listed-Reaches :
    (lib : Library) (n : Notifier) (r : Str → Recorder) (ev : Event)
    (opts : List ChannelQueryOption) (fails : Option ℕ) (rows : List ChannelRow)
    (l : Result ChannelError (List NotificationChannel)) (id : Str) (o : Outgoing)
    → list_enabled_for_event fails ev.typ opts rows ≡ l
    → In {A = Str × Outgoing} (id, o) (notify_listed lib n r ev opts rows l).1
    → Reaches ev (new_channel_filter opts) id rows
unfolding notify_listed
notify_listed-Reaches lib n r ev opts fails rows (err e) id o s g = elim g [ ]
notify_listed-Reaches lib n r ev opts fails rows (ok chs) id o s g =
    let (ch, there, same) = deliver_all-In opts lib n ev.title ev.message r chs rows id o g in
    subst (λ i. Reaches ev (new_channel_filter opts) i rows) same
      (listed-Reaches ev opts fails rows chs ch s there)

-- Whatever Notify sends goes out for a channel that is enabled, takes the event, and lies in the
-- tenant scope of the options.
pub notify-Reaches :
    (lib : Library) (n : Option Notifier) (claim : Str → ℕ → Option Bool) (fails : Option ℕ)
    (r : Str → Recorder) (ev : Event) (opts : List ChannelQueryOption) (rows : List ChannelRow)
    (id : Str) (o : Outgoing)
    → In {A = Str × Outgoing} (id, o) (notify lib n claim fails r ev opts rows).1
    → Reaches ev (new_channel_filter opts) id rows
unfolding notify
notify-Reaches lib none claim fails r ev opts rows id o h = elim h [ ]
notify-Reaches lib (some n) claim fails r ev opts rows id o h =
    unless (not n.has_repo || not (claim_dedup claim ev)) h
  where
    unless :
        (b : Bool)
        → In {A = Str × Outgoing}
            (id, o)
            (if b
              then (rows, [])
              else notify_listed lib n r ev opts rows
                  (list_enabled_for_event fails ev.typ opts rows)).1
        → Reaches ev (new_channel_filter opts) id rows
    unless true g = elim g [ ]
    unless false g =
        notify_listed-Reaches lib n r ev opts fails rows
          (list_enabled_for_event fails ev.typ opts rows) id o refl g
