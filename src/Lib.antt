-- ===== src/Lib.antt =====
-- psst-rs: a server for secrets that can be read once. A client encrypts a secret and stores the
-- ciphertext with a digest of its key; whoever has the link reads it once, and it is deleted.
--
-- Parts of the program, their files here, and how they correspond:
--
-- - src/secret.rs: Secret.antt (requests, identifiers, tokens, digests, TTLs), on Crypto.antt, the
--   crates base64 and sha2 as a parameter.
-- - src/rate_limit.rs: RateLimit.antt (kinds, keys and bucket numbers of the counters).
-- - src/request_context.rs: RequestContext.antt (the client's address behind trusted proxies, and
--   its pseudonym), on Net.antt for addresses.
-- - src/config.rs: Config.antt (the configuration and `validate`), Config/Defaults.antt (the defaults),
--   Config/Load.antt (`from_lookup`);
--   Numbers and Proxies are about printed numbers and addresses.
-- - src/db.rs: Db/Tables.antt (rows and records), Db/Statements.antt (the SQL statements as functions
--   on lists of rows), Db/Schema.antt, Db/Connection.antt (connections, transactions, the schema's
--   migration), Db/Store.antt (every method of `SecretStore`). Db/Spec.antt says what the store
--   promises: each method as one atomic step on the tables. Db/Transactions.antt has the rules for
--   calls that may fail; Db/Reads, Writes, Counters, Stats and Validity are about the methods,
--   Db/Migration.antt about the schema (Settled says what it is to become, Statements and Steps are
--   about the statements that change it), Db/Trace.antt about any interleaving of the methods.
-- - src/metrics.rs: Metrics.antt (counters modulo 2 ^ 64, gauges that wrap at an `i64`) and
--   Metrics/Render.antt (the text of `render`). Metrics/Render/Scrape.antt is a reader of that text,
--   written from the format and not from the code; Writers, Lines and Labels show what it makes of
--   each part.
-- - src/http.rs: Http/Api.antt (errors and the shared state), Http/Validate.antt (the checks of a
--   request), Http/Limits.antt (quotas and rate limits), Http/Turnstile.antt (the verifier),
--   Http/Handlers.antt (create, read and delete; Admission, Storing, Creation, Consuming, Reading and
--   Deletion below it are about their parts), Http/Pages.antt (labels and escaping) and
--   Http/Pages/Templates.antt (the pages), Http/Router.antt (routes and layers). Http/Ends.antt states
--   how a handler ends, and Http/Lifecycle is about a secret from its creation to its read or
--   deletion.
-- - The handlers and the maintenance task as threads: Http/Program.antt (programs in steps, and the
--   schedules that interleave them; Costs, Calls and Funding below it are the rules for them) and Http/Threads.antt (each handler again, cut into its steps; `serve` is the thread of a
--   request, `run_requests` any interleaving). Tariff is the interface of a claim that holds in every interleaving (a measure
--   of the tables, and what each call of the store costs in it), which Creating, Deleting and Serving
--   take; Spending and Once fill it for one secret, Guessing, Attempts and Limited for one requester.
-- - src/maintenance.rs: Maintenance.antt (the pass and one turn of the loop); Stale, Purge and Ticks
--   are about the counters that go, the pass and the turn.
-- - src/main.rs: Startup.antt. build.rs: Build.antt.
-- - Examples/ has concrete inputs and the theorems at them. Prelude.antt and the files below it are
--   shared: results over a state, integers, decimal numbers, strings, lists.
--
-- A handler of src/http.rs is a function on the shared state (`World`: the database file and the
-- metrics) that returns a value or an error, and keeps what it wrote before an error. It calls the
-- store of src/db.rs, whose methods are functions on `Sqlite`: the tables, the schema and the number
-- of calls made. Loops are structural recursion on a list or a text, and printing a number is recursion
-- on its size; no fuel is used. A schedule is a finite list of turns; a thread that waits for a verifier
-- which never answers gets no further turn in it.
--
-- What stands for code outside the repository:
--
-- - SQLite and the file system: the parameter `fault` says of each call, by its number, whether it
--   fails; a failed call has changed nothing, and a transaction that is not committed is rolled back.
--   Outside a transaction each statement of a batch is committed on its own. A statement on the schema
--   that SQLite refuses, an index without its column, is an error of the model; names of tables,
--   columns and indexes are compared as they are written, and no index is named like a table.
--   The order of rows without an ORDER BY is that of the list. A count stays below 2 ^ 63.
-- - Errors of `anyhow` are the text of their outermost context.
-- - base64 and SHA-256: `Crypto`, with decoding as the inverse of encoding on bytes, and 32 bytes of a
--   digest. Addresses: `AddrParsers`. The verifier and its HTTP client: `TurnstileClient`.
-- - axum is `dispatch`: it finds the route and calls its handler; `Next` is a request's way through the
--   rest of the layers. git and the file system of the build are parameters of Build.antt.
-- - The clock and the request are arguments, and so is the random generator, a function from a number
--   of bytes to that many bytes, one for each of its two calls. In Http/Handlers.antt a
--   creation waits for its verifier, and what others do in this time is its argument `others`; between
--   the other calls of a handler nothing else is run there. In Http/Threads.antt any other thread may
--   run between two calls of the store, between a call and the change of the metrics that follows, and
--   during the wait. The atomics that are changed together at one place are changed in one step.
-- - A mutex or an atomic of the metrics is its value; of the log, the line of each request is kept.
--
-- Not modelled: what axum does with a route, a body or JSON, `init_tracing` in src/main.rs, how tokio
-- picks the task that runs next (every order is considered), and the browser's code in static/. The
-- files that `include_str!` reads, the templates, the style sheet and the script, are parameters.
pub mod Prelude
pub mod Crypto
pub mod Net
pub mod RateLimit
pub mod Secret
pub mod Db
pub mod RequestContext
pub mod Metrics
pub mod Config
pub mod Http
pub mod Maintenance
mod Examples
pub mod Build
pub mod Startup
