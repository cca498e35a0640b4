-- ===== src/GroupMapping.antt =====
-- identity/models/group_mapping_resolve.go: which role each organization grants, by the first mapping
-- that names it and whose group is held, and which organizations the mappings manage.
pub mod Order
mod Tests
use terraform_suite_identity.Common.{
  Str, ◌==◌, contains, List, [], ◌∷◌, Bool, true, false, not, Option, none, some, if◌then◌else◌,
}
use terraform_suite_identity.Common.Assoc
use terraform_suite_identity.Common.Assoc.{Assoc}

pub record OidcGroupMapping : Type 0 where
  pub group : Str
  pub organization : Str
  pub role : Str

-- A set is a map into `Bool` whose values are true.
pub record GroupMappingResolution : Type 0 where
  pub desired_role : Assoc Str
  pub managed : Assoc Bool

pub is_some : Option Str → Bool
is_some none = false
is_some (some role) = true

-- One turn of the loop.
unfoldable pub resolve_one :
    List Str → GroupMappingResolution → OidcGroupMapping → GroupMappingResolution
unfolding is_some
resolve_one groups res m = if m.organization == [] then res else record {
  managed = Assoc.put res.managed m.organization true;
  desired_role =
      if not (contains groups m.group)
      then res.desired_role
      else if is_some (Assoc.get res.desired_role m.organization)
      then res.desired_role
      else Assoc.put res.desired_role m.organization m.role;
}

unfoldable pub resolve_all :
    List Str → GroupMappingResolution → List OidcGroupMapping → GroupMappingResolution
resolve_all groups res [] = res
resolve_all groups res (m ∷ mappings) = resolve_all groups (resolve_one groups res m) mappings

unfoldable pub resolve_group_mappings : List Str → List OidcGroupMapping → GroupMappingResolution
resolve_group_mappings groups mappings =
    resolve_all groups (record { desired_role = []; managed = [] }) mappings

unfoldable pub wanted : GroupMappingResolution → Str → Option Str
wanted r org = Assoc.get r.desired_role org

unfoldable pub is_managed : GroupMappingResolution → Str → Bool
is_managed r org = elim (Assoc.get r.managed org) [ none ↦ false | some b ↦ true ]
