-- ===== src/GroupMapping/Tests.antt =====
-- Group mappings: a test, and the theorem at a concrete input.
use terraform_suite_identity.Common.{lit, ◌==◌, contains, List, [], ◌∷◌, ◌++◌, ◌≡◌, refl, some}
use terraform_suite_identity.Common.Assoc
use terraform_suite_identity.GroupMapping.{
  OidcGroupMapping, resolve_one, resolve_all, resolve_group_mappings, wanted, is_managed, is_some,
}
use terraform_suite_identity.GroupMapping.Order.{or_else, first_match, names, mapping_order}

abbrev mappings : List OidcGroupMapping
mappings =
    record { group = lit "ops"; organization = lit "org1"; role = lit "admin" }
    ∷ record { group = lit "dev"; organization = lit "org1"; role = lit "viewer" }
    ∷ []

abbrev appended : List OidcGroupMapping
appended = record { group = lit "dev"; organization = lit "org1"; role = lit "owner" } ∷ []

first_wins :
    wanted (resolve_group_mappings (lit "dev" ∷ lit "ops" ∷ []) mappings) (lit "org1")
    ≡ some (lit "admin")
unfolding resolve_group_mappings resolve_all resolve_one wanted is_some Assoc.get Assoc.put
    Assoc.delete contains ◌==◌
first_wins = refl

mapping_order_example :
    (wanted (resolve_group_mappings (lit "dev" ∷ []) mappings) (lit "org1")
      ≡ first_match (lit "dev" ∷ []) mappings (lit "org1"))
    × (wanted (resolve_group_mappings (lit "dev" ∷ []) (mappings ++ appended)) (lit "org1")
        ≡ or_else
            (wanted (resolve_group_mappings (lit "dev" ∷ []) mappings) (lit "org1"))
            (wanted (resolve_group_mappings (lit "dev" ∷ []) appended) (lit "org1")))
    × (is_managed (resolve_group_mappings (lit "dev" ∷ []) mappings) (lit "org1")
        ≡ names mappings (lit "org1"))
mapping_order_example = mapping_order (lit "dev" ∷ []) mappings appended (lit "org1")
