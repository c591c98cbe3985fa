-- ===== src/Lib.antt =====
-- The verification library of sub2api-gate: a model of the sync service, a Python HTTP service
-- beside a sub2api instance that creates, shows and removes the accounts of invited users in its
-- PostgreSQL database, and the theorems about it.
--
-- A POST request reaches the handler of sub2api-sync/sub2api_sync.py (Http: Handler.do_POST,
-- do_GET, _other_method, with the table of error answers in Http.Answers and dispatch_action in
-- Http.Dispatch). It is authenticated (Auth: get_secret, claim_nonce, verify_request; a Redis key
-- per nonce keeps a request from being used twice), and its JSON payload (Payload) is read by
-- small validators: identifiers (Payload.Identifier: payload_identifier), the identity of the
-- invite (Identity: payload_identity, default_email), group names (Group: configured_groups,
-- requested_groups, group_profile) and API keys (Token: requested_tokens). An action looks up the
-- user that the invite owns (Invite: resolve_invite_user, _bind_or_validate_invite_user) and
-- changes rows inside one transaction (Database: DatabaseTransaction; Removal: deprovision and
-- purge). The texts of SQL statements are built by sql_quote and ilike_contains (Sql; the second
-- stands in sub2api-sync/usage_metadata.py). A failure of a dependency is recorded in a bounded
-- deque that the diagnostics action reads (Diagnostics: record_failure_diagnostic,
-- failure_diagnostic). The time that a request has and the threads that serve requests are limited
-- by action_deadline, remaining_timeout and the slots of SafeThreadingHTTPServer (Server). The
-- groups that a request may use, with their plans and subscriptions and the cached catalogue of
-- them, are Catalog (ensure_group, resolve_provision_groups, load_group_catalog).
--
-- A provision (Provision: _provision) finds or creates the user of an invite, gives it the groups
-- and makes its keys those of the request (Keys: sync_user_keys, get_user_keys); status (Status:
-- _status) shows them. login (Login: login, sanitize_login_auth) hands the credentials to the
-- sub2api instance and passes on what it answers about the account of the invite. Usage cuts the
-- rows of usage logs into pages (list_usage_logs, get_usage_log_detail, in sub2api-
-- sync/usage_metadata.py).
--
-- The secrets reach the containers through a private environment file, which deploy/private_env.py
-- reads (Environment: _parse_private_environment and what main emits; Environment.File: the walk
-- to the file, the tests of its owner and mode, and the loop that reads it).
--
-- State is explicit: the database is a record of tables (Db) with the columns that the statements
-- name, and an action is a function from a database to a result and a database (Exec). The handler
-- works on a World, the nonces, the data and the recorded failures, and takes the actions as a
-- record of functions (Actions). An exception is a value (Raised, by class). A text is a list of
-- code points over the native numbers, and bytes are taken as the code points of the text that
-- they decode to. A claim of a nonce is a command to an abstract key store whose documented
-- behaviour is the hypotheses of Services; Auth.Memory is a store that has it. The hash functions,
-- the fingerprint of an invite, json.loads, int of a header, what Python's str and lower give
-- beyond ASCII, crypt of the database, what the code draws at random, the order in which the
-- database gives rows and the cells that are read back from what psql prints for the keys of a
-- user (Keys.KeyReader; Keys.Memory is one that does what is documented), and the answer of the
-- upstream service are parameters. Instants are milliseconds, in Catalog.load_group_catalog
-- seconds and for subscriptions days. A query with LIMIT 1 takes the first row of the table that
-- matches. A transaction runs over a connection (Database.Session: what is durable, and what the
-- open transaction has made of it), and a fault of the connection is an argument of it (Fault),
-- and a statement that a constraint of the database refuses is such a fault. A text in a statement
-- is taken to arrive as it was written; the quoting itself is Sql.
--
-- Every loop is over a list or a text, but for the one that reads a file
-- (Environment.File.read_chunks): it has fuel for every byte that it may read and one round more,
-- and a round reads a byte or ends the loop.
--
-- Not modelled: the test of an API key, the filters of the usage logs and the list of their
-- models, and the Redis client; sockets, log lines, the psql child process, the other deployment
-- scripts under deploy and nginx, the Worker under worker-allow-ip (JavaScript), and the SQL
-- migrations.

pub mod Base
pub mod Sql
pub mod Auth
pub mod Payload
pub mod Group
pub mod Token
pub mod Identity
pub mod Database
pub mod Catalog
pub mod Invite
pub mod Removal
pub mod Diagnostics
pub mod Http
pub mod Server
pub mod Environment
pub mod Keys
pub mod Provision
pub mod Status
pub mod Login
pub mod Usage
