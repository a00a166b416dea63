-- ===== src/Lib.antt =====
-- A model of the stateful and the security-relevant core of imbi-api (src/imbi_api/), and theorems
-- about it.
--
-- The program is an HTTP API over a graph database (Apache AGE), Valkey and ClickHouse. Its
-- endpoints load records from the graph, its queues and its maintenance runs keep their state in
-- Valkey, and its worker loops take their work from there. Paths below are from src/imbi_api/.
--
-- - Prelude and its children hold what the other files share: Boolean tests, lists over the native
--   numbers, integers, dictionaries (Dict), splitting texts (Splits), sorted names (Sorted), and the
--   answer of a handler (Replies: a value, an HTTPException with its status and detail, or another
--   exception).
--
-- - Valkey, Maintenance: maintenance/state.py and maintenance/worker.py. Valkey is an interface, a
--   record of the set, hash and lock commands that the code sends with the laws of their
--   documentation; Valkey.InMemory implements it, so that the theorems have an instance.
--   Maintenance.Status has the states of a run, the outcomes of a project and the reading of a
--   field, Maintenance.State one function per function of state.py (start_run, checkout,
--   record_outcome, requeue, maybe_finalize, cancel_run, read_status) over the keys of one
--   operation. A call sends several commands: Maintenance.Commands is the step relation of single
--   commands of any number of workers and administrators on these keys, in any order, with
--   Commands.Calls, that each call is a sequence of them; the commands of start_run behind its lock
--   are one step there. Maintenance.System is the coarser relation of whole calls, which the theorems
--   on the ticks of a worker use. Maintenance.Worker is a tick of worker.py. Maintenance.Stale is the case that the step
--   relation leaves out: an outcome that comes after its run has ended.
--
-- - Queue: commit_sync/queue.py, pr_sync/queue.py and deployment_sync/queue.py, which are one text
--   over different constants. Queue.Sync has that text (enqueue, process_message,
--   maybe_dead_letter, handle_entries, pause_until) and Queue.Sync.Consumer the loop, a round at a
--   time, as many rounds as an argument says; the loop itself never ends. CommitSync, PrSync and
--   DeploymentSync give the constants and name the functions of each file. The commands that are
--   sent are a log, newest first, and the other side (Queue.Outside) is any function from the log
--   so far to an answer, an exception included, so nothing is assumed of Valkey, of the database
--   and of the plugins. Retries of a status write are counted by the constant of
--   commit_sync/service.py.
--
-- - Scoring: scoring/queue.py. The producers are over the same log: Scoring.Enqueue has
--   enqueue_recompute and its pipelined version, Scoring.Daily the tick of a day with the polls of
--   its loop (Scoring.Daily.Loop), Scoring.Targets the projects of a policy, Scoring.Dependents the
--   fan-out to dependents. Scoring.Consumer is the consumer: a message, a batch, the dead-letter
--   check and the rounds of the loop, over the commands of the consumer group (Scoring.Group, an
--   interface with the laws of their documentation, which Scoring.Group.InMemory implements) and
--   over the database and the computation of a score (an interface without laws). A delivery count
--   is a number, 0 where a message is not pending.
--
-- - Auth: auth/permissions.py. Auth.Directory is what the code asks of the graph, of imbi_common's
--   token check and of the password hash, as a record of functions, with the code's own loading
--   functions over the answers. Auth.Cache is the ordered dictionary of API-key contexts,
--   Auth.Keys authenticate_api_key over it, Auth.Tokens authenticate_jwt and the two dependencies
--   that pick the token of a request, Auth.Scopes validate_scopes, Auth.Access check_permission
--   and require_resource_access, Auth.Guard require_permission. A set of names is a list, a time
--   is in seconds; the wall clock and the monotonic clock are two arguments. SHA-256 is an
--   argument.
--
-- - Session: auth/tokens.py, auth/membership.py, auth/totp.py, and of endpoints/auth.py and
--   endpoints/mfa.py the login, the refresh, the logout and the second factor. Session.Graph is the
--   part of the database that they share, as lists of rows (users, service accounts, token rows,
--   TOTP secrets, organizations and memberships), with one function per query. Session.Issue is
--   issue_token_pair with the default membership of Session.Membership, Session.Refresh
--   rotate_refresh_token with handle_refresh_reuse, Session.Logout logout and the refresh endpoint
--   with its cookies, Session.Totp and Session.Login the login with its two factors, Session.Mfa
--   the endpoints that set up, confirm and disable the second factor. Session.Calls is any sequence
--   of sign-ins, rotations and logouts, and the theorems on tokens hold along it. What other
--   requests do to the database between two queries of one login is a function that is an argument
--   (`between`). Signing, verifying, hashing, encrypting and drawing identifiers are arguments;
--   what a signed token claims is a hypothesis where a theorem needs it. Times are in microseconds.
--
-- - OAuth: auth/authorization_codes.py, auth/oauth_clients.py, and of endpoints/auth.py the
--   authorization server. OAuth.Codes is the store of codes over an interface of two Valkey
--   commands (Store) with the laws of their documentation; OAuth.Codes.InMemory implements it.
--   OAuth.Clients registers clients, OAuth.Authorize is the authorization endpoint, OAuth.Grants
--   the code and refresh grants of the token endpoint and OAuth.ClientCredentials the third one.
--   JSON, SHA-256 in base64url, urlparse and urlencode are arguments. A code's time is in seconds.
--
-- - Blueprint: blueprint_compliance.py and blueprint_attributes.py. Blueprint.Schema has the values
--   of properties and the parts of a blueprint that the code reads, Blueprint.Compliance the check,
--   Blueprint.Remedy its fixes and Blueprint.Attributes the catalog of attributes that a list can be
--   filtered by. A number is an integer; the wording of findings is left out; the `$` of the pattern
--   for names stands before a last newline too, as in Python.
--
-- - Plugins: plugins/assignments.py, plugins/resolution.py and the registrations of
--   plugins/lifecycle.py. Plugins.Values has the values of JSON with parse_options, Plugins.Bindings
--   effective_bindings over the decoded answers of its three queries, Plugins.Resolution
--   resolve_capability and resolve_all_capabilities, Plugins.Registry the registration nodes as a
--   list of rows. The registry of installed plugins, parse_agtype and json.loads are arguments. A
--   number is an integer, an identifier a text.
--
-- - Pagination: endpoints/_pagination.py, with base64, ISO times and urlencode as arguments. The
--   padding that the code takes off and puts back is in the model.
--
-- - Patch: patch.py, with the jsonpatch library and the repr of a text as arguments.
--
-- - Sbom: parse of sbom.py, with its deduplication (Sbom.Components, Sbom.Keys) and the CPE,
--   licence, scope and group helpers (Sbom.Text). The CycloneDX library's reader, which yields the
--   components in its own order, and the text of a package URL are arguments.
--
-- Times in the queues, the cache and the keys are whole seconds, where nothing else is said.
--
-- Fuel: none of the functions can run out of it. `ticks`, `consume` and
-- `consume_recompute` take the number of rounds,
-- since the loops run until the process stops; the tries of the cascade in Session.Refresh are the
-- three of the source; all other recursion is structural.
--
-- Not modelled: log messages and traces, sleeps, the interleaving of two calls of one process
-- between their awaits where no step relation is given, the text of graph queries, and the parts
-- of the program that only pass a request on to the database, to plugins or to other services:
-- endpoints/ without auth.py, mfa.py and _pagination.py, auth/ where it calls Argon2 or other
-- providers, email/, llm/, storage/, identity/, the rest of plugins/ and the application's start.
pub mod Prelude
pub mod Valkey
pub mod Maintenance
pub mod Queue
pub mod Auth
pub mod Pagination
pub mod Patch
pub mod Scoring
pub mod Sbom
pub mod Session
pub mod Blueprint
pub mod OAuth
pub mod Plugins
