-- ===== src/Lib.antt =====
-- A model of go-kickstart: an HTTP service with passwordless accounts, sessions with rotating refresh
-- tokens, rate limits on verification codes, and a bounded cache in memory.
--
-- Parts and files
--   Cache, Memory      cache/cache.go and cache/memory. `Store` has the map `items`, the list `order`
--                      and the counter `bytes` of the source; `set`, `get`, `delete`, `stats`, `close`
--                      and `clean_tick` are its methods and one round of its goroutine. The mutex makes
--                      a call one step. Memory/Spec is the abstract store: a list of entries, the
--                      oldest first. Order, Invariant, Loops and Push prove the parts of the
--                      refinement, which Refine, Runs and Reads put together.
--   Database           database/models.go, database/identity.go and the transactions of
--                      database/sqlite/sqlite.go. `Tables` has the rows of database/sqlite/migrations,
--                      `World` the tables, the clock, the random source and the faults to come, and `M`
--                      is a call with its result and the world after it, also where it fails.
--   Database/Queries, Sessions, Challenges
--                      database/sqlite/queries: one function per method of the querier. The SQL text
--                      stands in the .sql files beside the migrations, and is run on the tables.
--   Database/Laws, Ensures, Atomic
--                      what a call that succeeded or failed has done, with a rule for each way to
--                      build a call.
--   Database/RateLimits, Codes
--                      the limits on requests and the single use of verification codes.
--   Auth               auth/authenticator.go and auth/claims.go, on top of the queries. Rotation and
--                      Refresh follow a refresh through its transaction, Verify the check of an access
--                      token, Revocation the end of all sessions, and Atomic the errors.
--   Middleware         middleware/authentication.go, with Gates for what passes them.
--   Handlers           handlers/otp.go, handlers/mail.go and handlers/internal.go. `H` is a part of a
--                      handler, which goes on or ends the request with a `Reply`. Session follows
--                      handlers/auth.go and Account handlers/account.go with its routes, Transactions
--                      has their transactions, and Outcome, Limits, Replies, Codes and Routes what
--                      their replies tell.
--   Handlers/Routing   handlers/routing.go and the paths of handlers/handler.go, with the root prefix
--                      in Handlers/Prefix.
--   Cached             database/cached: reads of accounts through the cache, which uses the database and
--                      a store by the interface `CacheStore` of Cache (Memory/Interface has the
--                      instance). Interleaving is the step relation of concurrent readers and writers,
--                      Invariant, Stored, Fills and Coherence follow it, Writes tells which accounts the
--                      statements change, and Reads and Calls put calls one after another.
--   Migrations         database/migrations.go and the migrations.go of the three adapters. Reading has
--                      the list of the files, Pending, Newer and Applied the runs in one transaction,
--                      and Migrations/Mysql the runs between two transactions, with Rounds, Left and
--                      Restart for starts that stop anywhere.
--   Database/Mysql     the methods of database/mysql/queries that take several statements, with
--                      Equivalence and Limits against those of SQLite.
--   Storage            database/sqlite/storage.go: the names and the checks of the files of a database.
--   Process            cmd/server.go and cmd/http.go: a run as the trace of what it opens and closes,
--                      with Lifecycle and Secrets.
--   Config             database/provider/provider.go and the directories of cmd/root.go.
--   Base               lists, texts as bytes, decimal numbers, signed integers and maps.
--
-- Parameters: the JWT library (`Tokener`) and SHA-256 (`hash`) are fields of `Authenticator`. The email
-- parser, the OTP signer and the decoding of a body are arguments of the handlers. The mailer fails or
-- takes a message, which `sent` keeps. `Json` is the encoding of an account; it keeps
-- an email that is valid UTF-8, and the rows that the cache loads have such. `CacheState` has the hash of the shards, `run_sql` is what a migration does
-- to the schema, also when it fails, and `same` is how MySQL compares texts. `Calls` has what the
-- libraries answer to a start of the server, where a forced close waits for no request, and `Os` the
-- system that has the files of a database, each with its bytes.
-- The engine's behaviour is an assumption of the model: a statement runs as a whole or fails with no
-- effect, and a transaction that is rolled back or fails to commit leaves no trace. `faults` decides
-- which statements fail.
--
-- Bounds: times are natural numbers, in nanoseconds or, where the source takes Unix time, in seconds;
-- account numbers and byte counts are natural numbers as well, since the source keeps them below
-- 2 ^ 63, with the windows of 60 and 600 seconds that are added to them. `parse_int` has the 64-bit bound of the source. The loops that expire and evict run on fuel,
-- the length of the list and one more: each round takes an element away. The evicting loop returns
-- none for a panic or for the end of the fuel. The generation of a shard of the cache wraps at 2 ^ 64,
-- and the versions of migrations are signed.
--
-- A context is read where the source reads it, and is an argument there, since it may end in between.
--
-- Not modelled: the setup of the handler and its mux, logs, the PostgreSQL queries and the methods of
-- MySQL that are one statement, the opening of connections, the flags,
-- the loop of the maintenance, translations, templates and generated code.
pub mod Base
pub mod Cache
pub mod Memory
pub mod Database
pub mod Auth
pub mod Middleware
pub mod Handlers
pub mod Config
pub mod Cached
pub mod Migrations
pub mod Process
pub mod Storage
