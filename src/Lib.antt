-- ===== src/Lib.antt =====
-- The artifact registry: uploads of versioned artifacts, channels that point at one version of each
-- artifact, and signed webhooks about both.
--
-- Parts, and where they are modelled:
-- - internal/domain: Domain (records), Domain/Errors (`fmt.Errorf` with `%w`, `errors.Is`).
-- - internal/repository/sqlite: Sqlite/Artifacts, Sqlite/Channels, Sqlite/Deliveries, with
--   Sqlite/Errors (`isUniqueViolation`) and Sqlite/Rows (ORDER BY). The tables are lists of records in
--   `World.Db`; a unique key is a test before an insert, and a transaction puts the tables back when
--   it is not committed. Times are compared as the texts of Time (`time.RFC3339Nano`).
-- - internal/storage: Storage (the interface `Backend`, and the laws `IsBackend` that the service
--   relies on), Storage/Local and Storage/Path (the backend on the local disk), Storage/S3 (the backend
--   on an S3-compatible store), Storage/Factory (`NewBackend`).
-- - internal/service/registry.go: Registry/Version (`semverRE`, `normalizeVersion`),
--   Registry/Identifier (`validateIdentifier`, `storageKey`), Registry/Ids (`newID`), and
--   Registry/Service (the operations of `Registry`).
-- - internal/webhooks: Delivery (records and states), Webhooks/Event (envelope and signature),
--   Webhooks/Dispatcher (`deliver`), Webhooks/Emit (`Emit`), Webhooks/Replay (`Replay`).
-- - internal/auth, internal/config: Auth, Config.
-- - internal/api: Api/Middleware, Api/Router, Api/Handlers (the handlers that change state), Api/Reads (those
--   that read), Api/Limits (the limit on an upload).
-- - cmd/server: Server/Start (`main` up to the listener, and `sqlite.New`).
-- - The whole service running: Server/Threads (what a goroutine has left to do, and its next step),
--   Server/System (goroutines in any interleaving, with restarts), Server/Integrity (what the
--   tables keep), Server/Catalog (the tables seen as a catalog that answers by keys and changes in
--   four ways only) and Server/Safekeeping (the files of uploads that run together).
--
-- The service calls the repository and a backend; the handlers call the service and, behind a
-- success, the dispatcher; the dispatcher writes its records to the same database.
--
-- State and errors. A function that touches the database or the storage is an `Exec World`: it takes a
-- `World` (tables, stored objects, and the outcomes of the coming external calls) and gives a result
-- and the world afterwards, also beside an error. Each call that leaves the process takes one outcome
-- of `World.faults`, so a theorem about every world covers the failure of any call, at any place; a
-- call of the database that fails is taken to have had no effect, and a write to the local disk that
-- fails leaves the file empty. A calm world is one where no coming call fails. `Exec.Triple` has the
-- rules for what holds after an action, whether it returns or fails.
--
-- Parameters. `Platform` has the verbs %q and the hashes, `Codec` is encoding/json on the webhook
-- envelope, `Engine` says what SQLite leaves open (the text of its constraint errors, the order of
-- rows with equal keys), `S3.Client` is the AWS client, with its documented behaviour as
-- `S3.Laws.IsClient`. Readings of the clock, UUIDs and the answers of the webhook receivers are
-- arguments. No loop runs on fuel: the retry loop recurs on the list of delays. `alone` of
-- Server/Threads/Alone makes a given number of steps, and the theorems about it say how many are
-- enough.
--
-- Bounds. Numbers are unbounded but for `parse_int`, which checks 64 bits, and the limit of
-- Api/Limits, which wraps at 64 bits; attempt counts, sizes and sequence hints are counts of things in
-- memory or on disk. `decimal_text` is called with 20 digits, enough for every 64-bit number. A time is
-- a number of nanoseconds since 1970.
--
-- Levels. A catalog forgets the order of rows and the calls of the database: `view` shows the one that
-- the tables stand for, and `Change` is what may happen to it. Laws of the catalog, such as that the
-- current pointer of a channel is the newest of its history, are then laws of the running service. A
-- storage backend is seen through `IsBackend`, by the names that it keeps objects under; for the
-- local disk these are the cleaned paths, and Storage/Path/Laws says what becomes of a key.
--
-- Concurrency. The handlers and `deliver` are modelled twice: as functions that run to their end, and,
-- as far as they change the tables, cut at the calls of the database and the storage, so that the
-- calls of several goroutines interleave. The database has one connection, so each call of it, and
-- the transaction of `SaveChannel`, is one step. Both use the same definitions between the cuts.
-- A run of Server/Safekeeping is one where each upload is for a file that nothing has in hand; a run of
-- Server/System/Stranded is one where no new UUID is a given identifier.
--
-- Not modelled: signals and the time limits of the listener, the log lines (with the middleware that
-- writes one for each request), the parsing of multipart forms and of paths, and the sleeping between
-- attempts. The deliveries that `Emit` and `Replay` start are returned as tasks, to be run by `deliver`.
-- `strings.ToLower` on the name of the backend is that of ASCII; with any other letter the backend is
-- unknown either way, but the text of that error may differ.
pub mod Base
pub mod Domain
pub mod Exec
pub mod Delivery
pub mod World
pub mod Sqlite
pub mod Platform
pub mod Storage
pub mod Time
pub mod Auth
pub mod Config
pub mod Registry
pub mod Webhooks
pub mod Api
pub mod Server
pub mod Tests
