-- ===== src/Lib.antt =====
-- portfolio-backend is the Go API of a static site: reactions and visitor comments on published
-- content, moderation of the comments by one administrator, and a registry of content that the
-- frontend's manifest synchronizes. This library models the parts of it that decide something,
-- and proves what they promise. Paths are those of the repository.
--
-- How the parts interact: a request passes the middleware of internal/httpapi and reaches a
-- handler, which may ask the visitor's rate limiter (internal/platform/ratelimit); the handler
-- calls a service (internal/comments, internal/reactions), which asks the content service
-- (internal/content) about the slug and then calls its PostgreSQL store; a store works by single
-- statements or by transactions on the tables of migrations/. A deployment job synchronizes the
-- content registry with a snapshot.
--
-- - Base, Errors: the native numbers, lists, integers, maps as association lists, Go strings as
--   bytes, UTF-8 as Go decodes it, decimal numbers, and the errors that the packages name.
--
-- - Limiter: internal/platform/ratelimit/assignment.go. `allow` is Allow, split into its
--   branches.
--
-- - Content: internal/content. Content/Identifier has the tests on slugs, kinds and revisions,
--   Content/Service the policy checks, Content/Manifest the snapshots, Content/Registry the store
--   of internal/content/postgres.
--
-- - Database: the tables that the statements of the stores use, a session with the failures of
--   its coming round trips, statements and transactions; Database/Meaning says what a call means
--   apart from failures.
--
-- - Comments: internal/comments. Comments/Store is internal/comments/postgres (store.go and
--   moderation.go), Comments/Service is comments.go and moderation.go.
--
-- - Reactions: internal/reactions and internal/reactions/postgres: likes, views and stats.
--
-- - AdminAuth: internal/adminauth. AdminAuth/Claims and AdminAuth/Verifier are verifier.go,
--   AdminAuth/Keys is jwks.go.
--
-- - Visitor: internal/platform/visitor/identity.go.
--
-- - Http: internal/httpapi. Http/Comments and Http/Parameters are comments.go, Http/Reactions is
--   reactions.go and views.go, Http/Admin is admin_comments.go and middleware/access.go,
--   Http/ClientIp is middleware/clientip.go. A handler is a function of the decoded request and
--   of the session and its limiter.
--
-- - Http/Router, Http/Health, Http/Logging: router.go and health.go of internal/httpapi, and
--   requestlog.go and recovery.go of internal/httpapi/middleware. A route is a method, a pattern,
--   its middleware and an endpoint.
--
-- - Config: internal/config/config.go. Config/Env reads one variable, Config/Load is Load and
--   LoadAPI, in contiguous parts.
--
-- - Migrate: internal/platform/migrate/migrate.go. Migrate/Directory is Load, Migrate/Run is Up.
--
-- - App: internal/app/app.go. App/Wiring is what Run builds from the configuration, App/Serve is
--   serve as a step relation.
--
-- - Commands: cmd/api/main.go, cmd/synccontent/main.go, cmd/migrate/main.go and
--   cmd/smoke/main.go, with their exit codes; Database/Pool is
--   internal/platform/postgres/pool.go.
--
-- - Examples: runs at concrete inputs, and instances of the theorems.
--
-- The SQL of the stores is modelled as functions on the tables, with the CHECK constraints and
-- the foreign keys that its statements can meet; of a visitor hash, that it has 32 bytes is its
-- type in the code, and is taken. Each transaction is one step: the advisory locks and row locks
-- that the code takes serialize the transactions of a post, and those of the synchronization;
-- what the model leaves out is that two transactions of different posts overlap. Any round trip
-- may fail, in any pattern; a commit that reports a failure is taken not to have happened. An
-- identifier that a failed insertion draws is drawn again in the model and skipped by the server;
-- nothing depends on it but that later identifiers are greater.
--
-- Instants are nanoseconds since a fixed past instant, a whole second; last_counted_at, which the
-- code compares, is in microseconds, to which pgx rounds the times that it sends down; other
-- stored times are not rounded in the model, which compares none of them; durations are integers
-- of them, and no two instants are so far apart that Go's saturating subtraction differs.
-- Identifiers and limits are Go's signed integers where the code tests their signs, and natural
-- numbers in the tables. No loop needs fuel: each is a recursion on its list. The printing of a
-- number stops at 20 digits, which are enough for 64 bits.
--
-- What the standard library and pgx do is a parameter, or a value that the request brings: JSON,
-- regular files and flags, the environment, the statements of a migration, base64, RSA, SHA-256,
-- HMAC, HTTP, case folding, IP addresses and prefixes. Timeouts of queries are among the failures
-- of round trips. Response headers are left out, and logs but for the entry of a request. The
-- statements of a migration are taken to leave schema_migrations alone.
--
-- Not modelled: the HTTP server, the matching of routes, and the containers of the integration
-- tests.
pub mod AdminAuth
pub mod App
pub mod Base
pub mod Commands
pub mod Comments
pub mod Config
pub mod Content
pub mod Database
pub mod Errors
pub mod Examples
pub mod Http
pub mod Limiter
pub mod Migrate
pub mod Reactions
pub mod Visitor
