-- ===== src/Notify/Notifier/Tests.antt =====
-- The notifier (identity/notify/notifier.go) on concrete channels.
use terraform_suite_identity.Common.{
  ℕ, pos, Str, lit, ◌==◌, ne_of_test, contains, List, [], ◌∷◌, ◌++◌, filter, true, none, some, ◌≡◌,
  inl, refl,
}
use terraform_suite_identity.Store.OrgScope.{org_scope_organizations, permits_organization}
use terraform_suite_identity.Crypto.{
  TokenCipher, seal_data, seal_with_context, open_with_context_or_legacy,
}
use terraform_suite_identity.Auth.Tokens.Toy.{get_str}
use terraform_suite_identity.Crypto.Toy.{repeated, toy_seal, toy, toy_laws}
use terraform_suite_identity.Notify.Channels.{
  ChannelRow, scan_channel, ChannelQueryOption, new_channel_filter, admits,
}
use terraform_suite_identity.Notify.Channels.Statements.{
  named, Change, delete, list_enabled_for_event,
}
use terraform_suite_identity.Notify.Notifier.{
  target_context, slack, post, status, Notifier, NotifyError, decrypt_target,
}
use terraform_suite_identity.Notify.Notifier.Delivery.{Recorder, Event, deliver, notify}
use terraform_suite_identity.Notify.Notifier.Target.{recorded, moved_target_unsent}
use terraform_suite_identity.Notify.Notifier.Tenant.{
  hidden, other_rows, delete_tenant, notify-hidden,
}
use terraform_suite_identity.Notify.Notifier.Reach.{Reaches, notify-Reaches}

abbrev cipher : TokenCipher
cipher = record { master_key = repeated 32 1; previous_key = none }

abbrev nonce : List ℕ
nonce = repeated 12 7

-- A webhook's address, sealed for one channel.
abbrev sealed_target : Str
sealed_target =
    nonce ++ toy_seal (repeated 32 1) nonce (lit "https://hook") (target_context (lit "c1"))

abbrev row1 : ChannelRow
row1 = record {
  id = lit "c1";
  name = lit "ops";
  typ = lit "slack";
  encrypted_target = sealed_target;
  events = [];
  enabled = true;
  last_status = none;
  last_error = none;
  last_sent_at = none;
  created_at = 1;
  updated_at = 1;
  organization_id = some (lit "org1");
}

-- The same target, written into a row of another organization.
abbrev row2 : ChannelRow
row2 = record row1 { id = lit "c2"; organization_id = some (lit "org2") }

abbrev notifier : Notifier
notifier = record {
  has_repo = true;
  token_cipher = some cipher;
  smtp_host = lit "relay";
  smtp_from = lit "ops";
  source = lit "registry";
  test_message = lit "test";
  is_address = λ a. true;
  transmit = λ o. status 200;
  error_text = λ e. lit "failed";
}

abbrev recorder : Recorder
recorder = record { now = 5; fails = none; count_fails = none }

abbrev event : Event
event = record {
  typ = lit "scan";
  title = lit "t";
  message = lit "m";
  dedup_key = [];
  dedup_ttl = pos 0;
}

abbrev in_org1 : List ChannelQueryOption
in_org1 = some (org_scope_organizations (lit "org1" ∷ [])) ∷ []

moved_target_unsent_example :
    let d =
      deliver toy notifier recorder
        (scan_channel row2)
        (lit "t")
        (lit "m")
        in_org1
        (row1 ∷ row2 ∷ []) in
    (d.out ≡ [])
    × ((e : NotifyError) × (d.error ≡ some e)
        × (d.rows
            ≡ recorded none
                (lit "c2")
                (notifier.error_text e)
                recorder.now
                in_org1
                (row1 ∷ row2 ∷ [])))
unfolding seal_with_context seal_data scan_channel ◌==◌
moved_target_unsent_example =
    moved_target_unsent toy toy_laws notifier recorder (scan_channel row2) cipher (lit "c1") nonce
      (lit "https://hook") (lit "t") (lit "m") in_org1 (row1 ∷ row2 ∷ []) refl refl
      (ne_of_test (lit "c2") (lit "c1") refl)

notify-Reaches_example : Reaches event (new_channel_filter in_org1) (lit "c1") (row1 ∷ row2 ∷ [])
unfolding notify deliver decrypt_target list_enabled_for_event filter admits permits_organization
    org_scope_organizations ◌==◌ contains open_with_context_or_legacy get_str
notify-Reaches_example =
    notify-Reaches toy (some notifier) (λ k t. some true) none (λ i. recorder) event in_org1
      (row1 ∷ row2 ∷ []) (lit "c1") (post (lit "https://hook") (slack (lit "t\nm"))) (inl refl)

abbrev renamed : Change
renamed = record {
  name = lit "new";
  typ = lit "slack";
  events = [];
  enabled = true;
  encrypted_target = [];
}

-- The row stands outside of the scope.
delete_tenant_example :
    let f = new_channel_filter in_org1 in
    let rows' = (delete none none (lit "c2") in_org1 (row1 ∷ row2 ∷ [])).0 in
    (hidden f rows' ≡ hidden f (row1 ∷ row2 ∷ []))
    × (other_rows (lit "c2") rows' ≡ other_rows (lit "c2") (row1 ∷ row2 ∷ []))
    × (filter (named f (lit "c2")) rows' ≡ [])
delete_tenant_example = delete_tenant none none (lit "c2") in_org1 (row1 ∷ row2 ∷ [])

notify-hidden_example :
    hidden
      (new_channel_filter in_org1)
      (notify toy
        (some notifier)
        (λ k t. some true)
        none
        (λ i. recorder)
        event
        in_org1
        (row1 ∷ row2 ∷ [])).0
    ≡ hidden (new_channel_filter in_org1) (row1 ∷ row2 ∷ [])
notify-hidden_example =
    notify-hidden toy (some notifier) (λ k t. some true) none (λ i. recorder) event in_org1
      (row1 ∷ row2 ∷ [])
