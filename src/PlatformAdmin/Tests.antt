-- ===== src/PlatformAdmin/Tests.antt =====
-- Calls on a small carrier of platform administrators, and witnesses.
use terraform_suite_identity.Common.{
  Str, lit, ◌==◌, trim_space, count_if, [], ◌∷◌, true, false, none, some, ok, err, commits, ◌≡◌,
  ◌⊎◌, inl, refl, if◌then◌else◌,
}
use terraform_suite_identity.Common.Assoc.{get}
use terraform_suite_identity.Store.OrgScope.{str_lt}
use terraform_suite_identity.PlatformAdmin.{
  Grant, last_platform_admin, Carrier, Surroundings, AuditIntentWriter, Predicate, Resolver, revoke,
  require_another_exercisable_admin,
}
use terraform_suite_identity.PlatformAdmin.Floor.{IsExercisable}
use terraform_suite_identity.PlatformAdmin.History.{
  removes, apply, revokes, run_calls, never_without_admin, changes_audited,
}

abbrev calm : Surroundings
calm = record {
  has_db = true;
  begins = none;
  reads = none;
  deletes = none;
  deleted_rows = none;
  commit = commits;
  now = 7;
}

abbrev writes : AuditIntentWriter
writes intents = ok (lit "intent" ∷ intents)

-- Only "a" exists: the grant of "z" is that of a deleted user.
abbrev directory : Resolver
directory u = if u == lit "a" then ok true else ok false

abbrev grant_of : Str → Grant
grant_of u = record { user_id = u; granted_by = none; granted_at = 1; note = none }

abbrev two : Carrier
two = record { grants = grant_of (lit "a") ∷ grant_of (lit "z") ∷ []; intents = [] }

revoke_last_refused :
    (revoke calm
      (lit "a")
      (some (require_another_exercisable_admin (some directory)))
      (some writes)
      two).1
    ≡ err last_platform_admin
unfolding revoke ◌==◌ get trim_space str_lt require_another_exercisable_admin
revoke_last_refused = refl

revoke_other :
    (revoke calm
      (lit "z")
      (some (require_another_exercisable_admin (some directory)))
      (some writes)
      two).1
    ≡ ok (grant_of (lit "z"))
unfolding revoke ◌==◌ get trim_space str_lt require_another_exercisable_admin count_if
revoke_other = refl

never_without_admin_example :
    IsExercisable directory
      (run_calls directory
        (revokes calm (lit "z") (some writes) ∷ revokes calm (lit "a") (some writes) ∷ [])
        two).grants
unfolding ◌==◌
never_without_admin_example =
    never_without_admin directory
      (revokes calm (lit "z") (some writes) ∷ revokes calm (lit "a") (some writes) ∷ []) two
      (grant_of (lit "a"), inl refl, refl)

-- A predicate of the caller's own.
abbrev keeps_all : Predicate
keeps_all remaining = none

changes_audited_example :
    (apply (removes calm (lit "a") (some keeps_all) (some writes)) two ≡ two)
    ⊎ ((v : AuditIntentWriter) × (some writes ≡ some v)
        × (v [] ≡ ok (apply (removes calm (lit "a") (some keeps_all) (some writes)) two).intents))
changes_audited_example =
    changes_audited (removes calm (lit "a") (some keeps_all) (some writes)) two
