-- ===== src/PlatformAdmin.antt =====
-- identity/platformadmin: the carrier of platform administrators (platformadmin.go), the floor that
-- keeps one of them (floor.go), and the scopes of sessions and keys (scopes.go).
pub mod Floor
pub mod Audit
pub mod Scopes
pub mod History
mod Tests
use terraform_suite_identity.Common.{
  ℕ, Str, ◌==◌, nat_eq, ltb, trim_space, List, [], ◌∷◌, ◌++◌, length, filter, count_if, Bool, true,
  false, not, ◌&&◌, ◌||◌, Option, none, some, if◌then◌else◌, Result, ok, err, ◌>>=◌, ◌>>◌, no_error,
  require, transact, CommitOutcome,
}
use terraform_suite_identity.Common.Assoc.{Assoc, get, put}
use terraform_suite_identity.Store.OrgScope.{str_lt}
use terraform_suite_identity.Auth.Scopes.{scope_admin}

-- A row of the carrier table; the times are those of the server's clock.
pub record Grant : Type 0 where
  pub user_id : Str
  pub granted_by : Option Str
  pub granted_at : ℕ
  pub note : Option Str

pub data CarrierError : Type 0 where
  not_configured already_platform_admin not_platform_admin audit_intent_required : CarrierError
  last_platform_admin identity_unavailable : CarrierError
  removed_rows database audit : ℕ → CarrierError

-- The carrier table and the outbox of the audit intents, in one database.
pub record Carrier : Type 0 where
  pub grants : List Grant
  pub intents : List Str

-- Whether the carrier has a connection, and which of its statements fail.
pub record Surroundings : Type 0 where
  pub has_db : Bool
  pub begins : Option ℕ
  pub reads : Option ℕ
  pub deletes : Option ℕ
  pub deleted_rows : Option ℕ
  pub commit : CommitOutcome
  pub now : ℕ

-- The application's writer of the audit intent, on the mutation's transaction.
abbrev pub AuditIntentWriter : Type 0
AuditIntentWriter = List Str → Result ℕ (List Str)

-- `none` is the nil error.
abbrev pub Predicate : Type 0
Predicate = List Grant → Option CarrierError

-- `ORDER BY granted_at ASC, user_id ASC`
unfoldable pub grant_lt : Grant → Grant → Bool
grant_lt g h =
    ltb g.granted_at h.granted_at
    || (nat_eq g.granted_at h.granted_at && str_lt g.user_id h.user_id)

unfoldable pub insert_grant : Grant → List Grant → List Grant
unfolding grant_lt
insert_grant g [] = g ∷ []
insert_grant g (h ∷ hs) = if grant_lt h g then h ∷ insert_grant g hs else g ∷ h ∷ hs

unfoldable pub order_grants : List Grant → List Grant
unfolding insert_grant
order_grants [] = []
order_grants (g ∷ gs) = insert_grant g (order_grants gs)

abbrev pub names : Str → Grant → Bool
names user_id g = g.user_id == user_id

-- `SELECT EXISTS(SELECT 1 FROM … WHERE user_id = $1)`
unfoldable pub holds_grant : Str → List Grant → Bool
holds_grant user_id [] = false
holds_grant user_id (g ∷ gs) = if names user_id g then true else holds_grant user_id gs

unfoldable pub is_platform_admin : Surroundings → Str → Carrier → Result CarrierError Bool
unfolding holds_grant
is_platform_admin around user_id c =
    if not around.has_db
    then err not_configured
    else if user_id == []
    then ok false
    else (no_error database around.reads >> ok (holds_grant user_id c.grants))

unfoldable pub list_grants : Surroundings → Carrier → Result CarrierError (List Grant)
unfolding order_grants
list_grants around c = do
  require around.has_db not_configured
  no_error database around.reads
  ok (order_grants c.grants)

-- `writeAuditIntent(ctx, tx)`
unfoldable pub write_intent : AuditIntentWriter → Carrier → Result CarrierError Carrier
write_intent writer c = elim (writer c.intents) [
  | err e ↦ err (audit e)
  | ok intents ↦ ok (record c { intents = intents })
]

-- `INSERT … ON CONFLICT (user_id) DO NOTHING RETURNING …`, and the intent.
unfoldable pub grant_body :
    Surroundings → Grant → AuditIntentWriter → Carrier → Result CarrierError (Carrier × Grant)
unfolding write_intent holds_grant
grant_body around g writer c = do
  no_error database around.reads
  require (not (holds_grant g.user_id c.grants)) already_platform_admin
  written ← write_intent writer (record c { grants = c.grants ++ g ∷ [] })
  ok (written, g)

unfoldable pub grant :
    Surroundings
    → Str
    → Option Str
    → Option Str
    → Option AuditIntentWriter
    → Carrier
    → Carrier × Result CarrierError Grant
unfolding grant_body transact
grant around user_id granted_by remark none c =
    (c, err (if around.has_db then audit_intent_required else not_configured))
grant around user_id granted_by remark (some writer) c =
    let row : Grant = record {
      user_id = user_id;
      granted_by = granted_by;
      granted_at = around.now;
      note = remark;
    } in
    if not around.has_db || trim_space user_id == []
    then (c, err not_configured)
    else transact database around.begins around.commit (grant_body around row writer) c

-- The loop of `lockCarrier`: the grant that is to go, and the others.
unfoldable pub split_grants :
    Str → List Grant → Option Grant → List Grant → Option Grant × List Grant
split_grants user_id [] target remaining = (target, remaining)
split_grants user_id (g ∷ gs) target remaining =
    split_grants user_id gs (if names user_id g then some g else target)
      (if names user_id g then remaining else remaining ++ g ∷ [])

unfoldable pub lock_carrier :
    Surroundings → Str → Carrier → Result CarrierError (Option Grant × List Grant)
unfolding split_grants order_grants
lock_carrier around user_id c = do
  no_error database around.reads
  ok (split_grants user_id (order_grants c.grants) none [])

-- What follows the lock, for the grant that it found.
unfoldable pub remove_grant :
    Surroundings
    → Str
    → Predicate
    → AuditIntentWriter
    → Carrier
    → Option Grant × List Grant
    → Result CarrierError (Carrier × Grant)
unfolding write_intent
remove_grant around user_id keeps writer c (none, remaining) = err not_platform_admin
remove_grant around user_id keeps writer c (some target, remaining) = do
  no_error (λ e. e) (keeps remaining)
  no_error database around.deletes
  no_error database around.deleted_rows
  let affected = count_if (names user_id) c.grants
  require (nat_eq affected 1) (removed_rows affected)
  written ← write_intent writer (record c { grants = filter (λ g. not (names user_id g)) c.grants })
  ok (written, target)

unfoldable pub revoke_body :
    Surroundings
    → Str
    → Predicate
    → AuditIntentWriter
    → Carrier
    → Result CarrierError (Carrier × Grant)
unfolding lock_carrier remove_grant
revoke_body around user_id keeps writer c =
    lock_carrier around user_id c >>= remove_grant around user_id keeps writer c

unfoldable pub revoke :
    Surroundings
    → Str
    → Option Predicate
    → Option AuditIntentWriter
    → Carrier
    → Carrier × Result CarrierError Grant
unfolding revoke_body transact
revoke around user_id keeps none c =
    (c, err (if around.has_db then audit_intent_required else not_configured))
revoke around user_id none (some writer) c = (c, err not_configured)
revoke around user_id (some keeps) (some writer) c =
    if not around.has_db || trim_space user_id == []
    then (c, err not_configured)
    else transact database around.begins around.commit (revoke_body around user_id keeps writer) c

-- Whether a user exists, as the application resolves it.
abbrev pub Resolver : Type 0
Resolver = Str → Result ℕ Bool

-- `seen[g.UserID] = exists`, where the loop goes on: the user does not exist, or is known already.
unfoldable pub remember_absent : Assoc Bool → Str → Option Bool → Assoc Bool
unfolding put
remember_absent seen user_id none = put seen user_id false
remember_absent seen user_id (some known) = seen

-- What the loop does with a grant, by what it has seen and, where it has not, by the answer.
unfoldable pub weigh : Option Bool → Result ℕ Bool → Option CarrierError → Option CarrierError
weigh (some true) answer rest = none
weigh (some false) answer rest = rest
weigh none (err e) rest = some identity_unavailable
weigh none (ok true) rest = none
weigh none (ok false) rest = rest

-- The loop of `RequireAnotherExercisableAdmin`, with the answers so far.
unfoldable pub find_exercisable : Resolver → Assoc Bool → Predicate
unfolding get remember_absent weigh
find_exercisable r seen [] = some last_platform_admin
find_exercisable r seen (g ∷ remaining) =
    let seen' = remember_absent seen g.user_id (get seen g.user_id) in
    weigh (get seen g.user_id) (r g.user_id) (find_exercisable r seen' remaining)

unfoldable pub require_another_exercisable_admin : Option Resolver → Predicate
unfolding find_exercisable
require_another_exercisable_admin none remaining = some identity_unavailable
require_another_exercisable_admin (some r) remaining = find_exercisable r [] remaining

unfoldable pub without_admin : List Str → List Str
without_admin [] = []
without_admin (s ∷ scopes) =
    let rest = without_admin scopes in if s == scope_admin then rest else s ∷ rest

unfoldable pub key_scopes : List Str → List Str
unfolding without_admin
key_scopes scopes = without_admin scopes

unfoldable pub session_scopes :
    Surroundings → Str → List Str → Carrier → List Str × Option CarrierError
unfolding is_platform_admin without_admin
session_scopes around user_id scopes c = elim (is_platform_admin around user_id c) [
  | err e ↦ (without_admin scopes, some e)
  | ok false ↦ (without_admin scopes, none)
  | ok true ↦ (without_admin scopes ++ scope_admin ∷ [], none)
]
