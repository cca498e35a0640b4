-- ===== src/Notify/Channels.antt =====
-- identity/notify: channel_repository.go with the options of channel_scope.go and channel_owner.go. The
-- events column holds an array of strings, as marshalEvents writes it.
pub mod Statements
use terraform_suite_identity.Common.{
  ℕ, zero, suc, ltb, Str, ◌==◌, contains, trim_space, is_empty, List, [], ◌∷◌, ◌++◌, filter,
  sort_by, map, count_if, Bool, true, false, not, ◌&&◌, ◌||◌, Option, none, some, if◌then◌else◌,
  Result, ok, err, ◌>>=◌, ◌>>◌, no_error,
}
use terraform_suite_identity.Store.OrgScope.{OrgScope, zero_scope, permits_organization}
use terraform_suite_identity.Store.OrgScope.Database.{owner}

-- A row of notification_channels; an application may have it without organizations.
pub record ChannelRow : Type 0 where
  pub id : Str
  pub name : Str
  pub typ : Str
  pub encrypted_target : Str
  pub events : List Str
  pub enabled : Bool
  pub last_status : Option Str
  pub last_error : Option Str
  pub last_sent_at : Option ℕ
  pub created_at : ℕ
  pub updated_at : ℕ
  pub organization_id : Option Str

pub record NotificationChannel : Type 0 where
  pub id : Str
  pub name : Str
  pub typ : Str
  pub encrypted_target : Str
  pub has_target : Bool
  pub events : List Str
  pub enabled : Bool
  pub last_status : Option Str
  pub last_error : Option Str
  pub last_sent_at : Option ℕ
  pub created_at : ℕ
  pub updated_at : ℕ

unfoldable pub scan_channel : ChannelRow → NotificationChannel
scan_channel r = record {
  id = r.id;
  name = r.name;
  typ = r.typ;
  encrypted_target = r.encrypted_target;
  has_target = not (is_empty r.encrypted_target);
  events = r.events;
  enabled = r.enabled;
  last_status = r.last_status;
  last_error = r.last_error;
  last_sent_at = r.last_sent_at;
  created_at = r.created_at;
  updated_at = r.updated_at;
}

-- `ch.EncryptedTarget = ""`
abbrev pub without_secret : NotificationChannel → NotificationChannel
without_secret ch = record ch { encrypted_target = [] }

pub data ChannelError : Type 0 where
  not_found empty_owning_organization : ChannelError
  database : ℕ → ChannelError

-- channelFilter, and `WithOrgScope`; a nil option is `none`.
pub record ChannelFilter : Type 0 where
  pub scoped : Bool
  pub scope : OrgScope

abbrev pub ChannelQueryOption : Type 0
ChannelQueryOption = Option OrgScope

abbrev pub apply_option : ChannelFilter → ChannelQueryOption → ChannelFilter
apply_option f none = f
apply_option f (some scope) = record { scoped = true; scope = scope }

unfoldable pub fold_options : ChannelFilter → List ChannelQueryOption → ChannelFilter
fold_options f [] = f
fold_options f (o ∷ opts) = fold_options (apply_option f o) opts

unfoldable pub new_channel_filter : List ChannelQueryOption → ChannelFilter
unfolding fold_options
new_channel_filter opts = fold_options (record { scoped = false; scope = zero_scope }) opts

-- The rows that the predicate of splice admits.
unfoldable pub admits : ChannelFilter → ChannelRow → Bool
admits f r = if not f.scoped then true else permits_organization f.scope (owner r.organization_id)

-- `WithOwningOrganization` and newChannelWrite: the last organization that is named, trimmed.
unfoldable pub owning_organization : Option Str → List (Option Str) → Option Str
owning_organization org [] = org
owning_organization org (none ∷ opts) = owning_organization org opts
owning_organization org (some o ∷ opts) = owning_organization (some (trim_space o)) opts

unfoldable pub new_channel_write : List (Option Str) → Result ChannelError (Option Str)
unfolding owning_organization
new_channel_write opts = elim (owning_organization none opts) [
  | none ↦ ok none
  | some o ↦ if is_empty o then err empty_owning_organization else ok (some o)
]
