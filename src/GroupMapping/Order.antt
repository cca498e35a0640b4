-- ===== src/GroupMapping/Order.antt =====
-- The order of mappings in `ResolveGroupMappings` (identity/models/group_mapping_resolve.go).
use terraform_suite_identity.Common.{
  Str, ◌==◌, eq_iff, contains, List, [], ◌∷◌, ◌++◌, ◌≡◌, refl, sym, ap, ◌∙◌, Bool, true, false, not,
  ◌&&◌, ◌||◌, Option, none, some, if◌then◌else◌, arith,
}
use terraform_suite_identity.Common.Assoc
use terraform_suite_identity.Common.Assoc.{Assoc, get-put}
use terraform_suite_identity.GroupMapping.{
  OidcGroupMapping, GroupMappingResolution, is_some, resolve_one, resolve_all,
  resolve_group_mappings, wanted, is_managed,
}

abbrev pub or_else : Option Str → Option Str → Option Str
or_else none b = b
or_else (some a) b = some a

-- The role of the first mapping that names the organization and whose group is held.
pub first_match : List Str → List OidcGroupMapping → Str → Option Str
first_match groups [] org = none
first_match groups (m ∷ mappings) org =
    let rest = first_match groups mappings org in
    if not (m.organization == []) && (m.organization == org && contains groups m.group)
    then some m.role
    else rest

-- Some mapping names the organization.
pub names : List OidcGroupMapping → Str → Bool
names [] org = false
names (m ∷ mappings) org = not (m.organization == []) && m.organization == org || names mappings org

wanted-one :
    (groups : List Str) (res : GroupMappingResolution) (m : OidcGroupMapping) (org : Str)
    → wanted (resolve_one groups res m) org
      ≡ or_else (wanted res org) (
          if not (m.organization == []) && (m.organization == org && contains groups m.group)
          then some m.role
          else none)
unfolding wanted resolve_one is_some
wanted-one groups res m org =
    ground (arith, eq_iff m.organization org, get-put res.desired_role m.organization org m.role)

managed-one :
    (groups : List Str) (res : GroupMappingResolution) (m : OidcGroupMapping) (org : Str)
    → is_managed (resolve_one groups res m) org
      ≡ (is_managed res org || (not (m.organization == []) && m.organization == org))
unfolding is_managed resolve_one
managed-one groups res m org =
    ground (arith, eq_iff m.organization org, get-put res.managed m.organization org true)

or_else_assoc : (a b c : Option Str) → or_else (or_else a b) c ≡ or_else a (or_else b c)
or_else_assoc none b c = refl
or_else_assoc (some a) b c = refl

first_match-cons :
    (groups : List Str) (m : OidcGroupMapping) (mappings : List OidcGroupMapping) (org : Str)
    → first_match groups (m ∷ mappings) org
      ≡ or_else
          (if not (m.organization == []) && (m.organization == org && contains groups m.group)
            then some m.role
            else none)
          (first_match groups mappings org)
unfolding first_match
first_match-cons groups m mappings org = ground arith

wanted-all :
    (groups : List Str) (res : GroupMappingResolution) (mappings : List OidcGroupMapping)
    (org : Str)
    → wanted (resolve_all groups res mappings) org
      ≡ or_else (wanted res org) (first_match groups mappings org)
unfolding resolve_all first_match
wanted-all groups res [] org = end (wanted res org)
  where
    end : (o : Option Str) → o ≡ or_else o none
    end none = refl
    end (some a) = refl
wanted-all groups res (m ∷ mappings) org =
    wanted-all groups (resolve_one groups res m) mappings org
    ∙ ap (λ o. or_else o (first_match groups mappings org)) (wanted-one groups res m org)
    ∙ or_else_assoc (wanted res org) _ (first_match groups mappings org)
    ∙ ap (or_else (wanted res org)) (sym (first_match-cons groups m mappings org))

managed-all :
    (groups : List Str) (res : GroupMappingResolution) (mappings : List OidcGroupMapping)
    (org : Str)
    → is_managed (resolve_all groups res mappings) org ≡ (is_managed res org || names mappings org)
unfolding resolve_all names
managed-all groups res [] org = ground arith
managed-all groups res (m ∷ mappings) org =
    let rest = managed-all groups (resolve_one groups res m) mappings org in
    let one = managed-one groups res m org in ground (arith, rest, one)

first_match-append :
    (groups : List Str) (ms more : List OidcGroupMapping) (org : Str)
    → first_match groups (ms ++ more) org
      ≡ or_else (first_match groups ms org) (first_match groups more org)
unfolding first_match
first_match-append groups [] more org = refl
first_match-append groups (m ∷ ms) more org = ground (arith, first_match-append groups ms more org)

start_none : (org : Str) → wanted (record { desired_role = []; managed = [] }) org ≡ none
unfolding wanted Assoc.get
start_none org = refl

start_unmanaged : (org : Str) → is_managed (record { desired_role = []; managed = [] }) org ≡ false
unfolding is_managed Assoc.get
start_unmanaged org = refl

-- The first match wins, and appending is stable. The role that an organization grants is that of the
-- first mapping which names it and whose group is held; mappings that are appended decide only where
-- none before them matched; and an organization is managed exactly where some mapping names it,
-- whether or not its group is held.
pub mapping_order :
    (groups : List Str) (ms more : List OidcGroupMapping) (org : Str)
    → (wanted (resolve_group_mappings groups ms) org ≡ first_match groups ms org)
      × (wanted (resolve_group_mappings groups (ms ++ more)) org
          ≡ or_else
              (wanted (resolve_group_mappings groups ms) org)
              (wanted (resolve_group_mappings groups more) org))
      × (is_managed (resolve_group_mappings groups ms) org ≡ names ms org)
unfolding resolve_group_mappings
mapping_order groups ms more org =
    let none_yet : GroupMappingResolution = record { desired_role = []; managed = [] } in
    let start : wanted none_yet org ≡ none = start_none org in
    let all = λ (l : List OidcGroupMapping).
      wanted-all groups none_yet l org ∙ ap (λ o. or_else o (first_match groups l org)) start in
    (
      all ms,
      all (ms ++ more)
          ∙ first_match-append groups ms more org
          ∙ ap (λ o. or_else o (first_match groups more org)) (sym (all ms))
          ∙ ap (or_else (wanted (resolve_group_mappings groups ms) org)) (sym (all more)),
      managed-all groups none_yet ms org ∙ ap (λ b. b || names ms org) (start_unmanaged org),
    )
