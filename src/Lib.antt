-- ===== src/Lib.antt =====
-- Verification of the identity module: scope checks, tenant scopes and their SQL predicate, the
-- resolution of a principal's reach, tokens, API keys, the reduction of authority with the keys that
-- rest on it, platform administrators, single-use login state, the audit outbox, notification channels
-- and expiry warnings, and the guard of outgoing requests.
--
-- Parts, and how they interact. A request carries claims (identity/auth/jwt.go) whose scopes the
-- checks of identity/auth/scopes.go decide. What organizations it reaches is resolved by
-- identity/tenantscope from memberships, which identity/store/org_scope.go turns into an
-- allowlist by the same scope check, and the repositories splice that allowlist into their SQL.
-- At login the groups of an identity provider are mapped to roles by identity/models.
-- A privileged mutation writes its audit intent in its own transaction, and the relay of
-- identity/auditoutbox delivers the intents to the audit table, again where a delivery failed.
-- When a membership is taken away or narrowed, or a role loses scopes, identity/store revokes the API
-- keys (identity/auth/apikey.go) that the authority which is left no longer covers, by the same scope
-- check. Who is a platform administrator is the carrier of identity/platformadmin, which sessions ask
-- and keys never do. What the services fetch goes through the guard of identity/httpsafe.
-- Tokens at rest, and the targets of notification channels, are sealed by identity/crypto.
-- identity/notify fans an event out to the channels of a tenant, after a claim on the event's key where it
-- has one, and warns the owners of keys that expire soon.
-- Before there is a session, identity/auth/oauthstate binds a browser to its login: a manager
-- issues and consumes states and reserves replay markers over a store, here the memory store.
--
-- Files and the code they model:
--   Auth/Claims             identity/auth/jwt.go: Claims, TokenID, syncTokenID
--   Auth/Scopes             identity/auth/scopes.go, function by function; Grants, Ceiling and
--                           Bound hold the proofs about held scopes, role assignment and claims
--                           bound to an organization
--   Auth/Tokens             identity/auth/jwt.go: TokenManager, with Validation, Issued and Coupled
--                           for the proofs, and Toy, a library that meets the laws it is given
--   Store/OrgScope          identity/store/org_scope.go, with Order, Canonical, Permits, Predicate,
--                           Users and Resolver for the proofs, and Database for PostgreSQL
--   Store/Tables            the rows that the reductions read and write, identity/migrations
--   Store/Sweep             what authority_reduction.go and template_reconcile.go have in common: the
--                           decision about a key, and the deletion; Decisions and Deletion hold
--                           the proofs
--   Store/Reduction         identity/store/authority_reduction.go: the transaction; Operations has
--                           the four reductions, Retained, Contained, Runs, Statements and
--                           Tenant the proofs
--   Store/Reconcile         identity/store/template_reconcile.go: the batches; Preview has the
--                           preview, Order, Batches, Progress and Termination the proofs
--   Auth/ApiKeys            identity/auth/apikey.go, with Generated and Header for the proofs
--   Notify/Message          identity/notify/notifier.go: BuildMessage, ParseRecipients; Headers
--   Notify/Channels         identity/notify/channel_repository.go, channel_scope.go, channel_owner.go:
--                           rows and options; Statements has the statements
--   Notify/Notifier         identity/notify/notifier.go: the transports; Delivery has Notify and
--                           SendTest, and Target, Tenant and Reach the proofs
--   Notify/Keys             identity/store/api_key_repository.go: FindExpiringKeys, ClaimExpiryNotification
--   Notify/Expiry           identity/notify/api_key_expiry.go, with Spends, Once and Warned for the proofs
--   Notify/Dedup            identity/store/notify_dedup_repository.go, with Marks, Marked and Spaced
--                           for the proofs
--   Notify/Fault            what the statement of a claim meets
--   Crypto                  identity/crypto/tokencipher.go, with Sealed, Context, Rotation, Reseal
--                           and Derived for the proofs
--   PlatformAdmin           identity/platformadmin: platformadmin.go, floor.go and scopes.go, with
--                           Floor, Audit, History and Scopes for the proofs
--   HttpSafe                identity/httpsafe/httpsafe.go: addresses and the allowlist; Dial has
--                           ValidateURL and DialContext, Redirect has CheckRedirect, and Ranges
--                           the proof about the denied ranges
--   TenantScope             identity/tenantscope/tenantscope.go and acting.go, with Authority,
--                           Outcomes and Writes for the proofs
--   OauthState/Store        identity/auth/oauthstate/oauthstate.go: the Store interface
--   OauthState/Memory       identity/auth/oauthstate/memory.go, with Retention, SingleUse, Counts,
--                           Victim, Capacity and Budget for the proofs
--   OauthState/Manager      identity/auth/oauthstate/oauthstate.go: Manager, with Protocol and
--                           Replay for the proofs
--   AuditOutbox             identity/auditoutbox: outbox.go; Relay has relay.go and the insert of sink.go;
--                           Replicas has the relays of several replicas, turn by turn, with
--                           Keys, Sharing, Coherence, Interleaving, Safety, Versions and Alone for the
--                           proofs; Records, Delivery, Pruning, Ledger, Redelivery, Batch, Turns and
--                           Isolation have the proofs about one relay
--   GroupMapping            identity/models/group_mapping_resolve.go, with Order for the proofs
--   Common                  the language: strings, maps, numbers, and shared lemmas
-- A function keeps its name in the case of this library (HasScope is has_scope); where a body is
-- split, the pieces stand before it, each with a comment that says which lines it is.
--
-- How Go is read. A string is the list of its code points, for strings that are valid UTF-8. A time
-- is a natural number, handed to each call that reads the clock; a duration is an integer, which may
-- be negative. A map that is read by key is an association list; the theorems hold for every order
-- of it, so for every order of an iteration. A result pair of a value and an error is a pair, both
-- parts given on every path. Errors are data types by the sentinel that a caller can tell apart,
-- their texts are left out. Contexts are left out where the code does not read them. A method that
-- holds a mutex for its whole body is one step, so an interleaving of calls is a list of steps.
--
-- Code outside of the repository. The JWT library is the interface Auth.Tokens.Jwt, and what it
-- documents about parsing and signing is Auth.Tokens.Validation.JwtLaws: a parsed token verifies
-- under the key that the key function gave for its algorithm, and has passed the checks of `exp`, `nbf`
-- and audience; signing keeps claims of valid text whose times the library made and that have no `nbf`. json.Marshal and json.Unmarshal are a codec argument, with the hypothesis, where it
-- is used, that it reads back what it wrote. The bytes of rand.Read are an argument,
-- `none` for its failure. GetUserMemberships and the platform-administrator lookup are
-- function arguments without hypotheses. PostgreSQL is the interface Store.OrgScope.Database, with
-- the documented reading of IS NULL, = ANY and EXISTS; the predicates are built as expressions and
-- `render` gives the exact text that the code writes.
--
-- AES-GCM, PBKDF2 and base64 are the record Crypto.Library; Crypto.Sealed.LibraryLaws says that base64 is
-- read back, and that GCM opens what it sealed and nothing under another key or other additional data,
-- which is its authentication taken as exact.
-- mail.ParseAddress, the HTTP client, the relay and the text of errors are fields of Notify.Notifier.Notifier,
-- without hypotheses.
-- bcrypt is the record Auth.ApiKeys.Bcrypt, and what it documents is Auth.ApiKeys.Generated.BcryptLaws.
-- The parsers of addresses and URLs, the resolver and the dialer of net are the record HttpSafe.Net and
-- a function, without hypotheses. The application's hooks (AppCredentials, AuditIntentWriter, the
-- resolver of the floor) are function arguments without hypotheses.
--
-- The statements of the reductions, of the reconciliation and of the carrier are read as PostgreSQL runs
-- them: a statement is a filter or a map of the rows, its failure is an argument, and what follows
-- BeginTx is a function from the tables to new tables or an error (Common.Results.transact), which a
-- commit keeps, a rollback drops, and a lost reply keeps with an error. The rows that the code
-- locks do not change within a transaction, so calls are taken one after another. A JSON
-- column is what it decodes to, or does not. The tenant predicate of a statement admits a row as
-- permits_organization does, which Store.OrgScope.Predicate relates to the SQL text.
-- The statements of the outbox are read as PostgreSQL runs them: filter, order, limit and update on
-- one table, a transaction as a copy that is kept or dropped; what fails, and which rows another
-- replica has locked, is an argument. In AuditOutbox.Replicas the transactions of several relays are
-- open at once: each has its own versions of the rows that it has locked, which its commit makes
-- those of the table, and SKIP LOCKED passes over what the others have locked.
--
-- Fuel. `run_batches` gets the number of batches that the code allows in a cycle. `digits` gets the
-- number and one, which is more than its digits. `evict_until` gets the number of entries and one;
-- every round deletes an entry, so the loop ends before the fuel is spent. `reconcile_loop` gets the
-- number of memberships and one; every full page leaves fewer of them ahead.
--
-- Not modelled: what is SQL text, requests to other systems, or calls of libraries that are not in the
-- repository. These are the plain repositories (one statement and the scan of its rows each; the
-- predicate that they splice is modelled), the schema routing and the checks of tables at startup,
-- cloud credentials, suite discovery, the dialogue with the mail relay, and the OIDC, SAML and LDAP
-- providers. Of platformadmin the table's name, its DDL and the advisory lock of Serialize are left
-- out; of auditoutbox the report of the backlog, Verify and the timer of Start; of notify the JSON of
-- the payloads; String methods for logs; and the timing of the janitor, whose tick may come at any
-- time. The memory store's iteration order is not modelled beyond any fixed order of its entries.
mod Common
pub mod Auth
pub mod Store
pub mod TenantScope
pub mod OauthState
pub mod AuditOutbox
pub mod GroupMapping
pub mod PlatformAdmin
pub mod HttpSafe
pub mod Crypto
pub mod Notify
