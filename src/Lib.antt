-- ===== src/Lib.antt =====
-- A model of pglockr, which shows who blocks whom in a PostgreSQL cluster, with proofs about it.
--
-- A source polls the cluster (internal/pg, through the redaction of internal/redact); the poller
-- builds the wait-for graph of what it gets (internal/graph) and puts it into the store
-- (internal/store), which retains the last snapshots and publishes each to its subscribers. The HTTP
-- API (internal/api) authenticates a request (internal/auth), answers from the store, and signals
-- backends on behalf of an operator (internal/signal), which leaves an entry in the audit trail
-- (internal/audit) in memory or, with the history of snapshots, in SQLite (internal/persist). A client of
-- the stream is a subscriber of the store. internal/metrics counts polls and actions, internal/setup
-- prints the SQL that provisions the database role, and cmd/pglockr loads the configuration
-- (internal/config) and puts the parts together.
--
-- The parts and their files:
--   Graph, Graph/Builder      internal/graph/types.go and builder.go: the data types and `Build`.
--                             The order in which Go visits a map is a parameter: for the sessions, the
--                             order of the list that stands for the map, and for the blockers, `walk`.
--   Store, Store/Ring         internal/store/store.go: the ring and its queries. The abstract view is
--                             `contents`, the list of the retained snapshots.
--   Store/Hub                 the same file: subscribers and `Put`, in the steps that other goroutines
--                             can come between. A channel is a cell of a heap. Store/Hub/Interleave is
--                             the relation of these steps.
--   Store/Diff                internal/store/diff.go.
--   Redact                    internal/redact/redact.go: the lexer, a round of its loop at a time.
--   Redact/Tokens             a description of SQL text by tokens, which the lexer is compared with.
--   Redact/Source             internal/redact/source.go.
--   Audit, Audit/Memory       internal/audit/audit.go: the interface `Sink`, and its instance in memory.
--   Auth, Auth/Proxy          internal/auth/auth.go and proxy.go: roles, tokens, the middleware, the
--                             check of the origin, and the identity that a proxy injects.
--   Poller                    internal/poller/poller.go: a round of `Run`, and runs of rounds; in
--                             Poller/Observed with the metrics as the observer.
--   Signal                    internal/signal/signal.go: `Do`, on any sink.
--   Api                       internal/api/handlers.go. Api/Routes is server.go: the table of routes,
--                             the middleware, and the handler of the embedded UI.
--   Api/Stream                internal/api/stream.go: `handleStream` as a run over what happens while it
--                             lasts, on the hub of Store/Hub.
--   Api/Past                  the snapshot of an instant, with Persist behind the store.
--   Api/Durable               the audit trail of the API in memory and in SQLite.
--   Pg                        internal/pg/client.go and preflight.go: what is made of the rows that the
--                             driver returns. Pg/Inspect: inspect.go; Pg/Backends: signal.go;
--                             Pg/Connect: `Connect`.
--   Persist                   internal/persist/sqlite.go. Persist/Schema is the database as an interface,
--                             a record of the statements and of laws over the rows of its tables;
--                             Persist/Trail is audit.go, Persist/Open is `Open`, and Persist/Table is
--                             a database of lists.
--   Config                    internal/config/config.go: Config/Load fills a configuration, and
--                             Config/Validate says what it accepts.
--   Metrics                   internal/metrics/metrics.go: counters and gauges.
--   Command                   cmd/pglockr/main.go: the choices that it makes. Command/Process is `run`
--                             and `main`, with the resources that they acquire.
--   Lifecycle                 what Command/Process, Pg/Connect and Persist/Open share: resources that
--                             are acquired, deferred and released, and returns on an error.
--   Setup                     internal/setup/grants.go; `RandomPassword` is in Setup/Password.
--   Prelude, Sorting          what the parts share: lists, maps, strings, time, and the sort that
--                             stands for the one of Go's library.
--
-- Conventions. A Go string is the list of its code points. A map is an association list. An instant is a
-- number of nanoseconds since an origin before Go's zero time, and a duration is an int64 whose
-- saturation and overflow are written out. Process ids of sessions are natural numbers. A mutex that
-- a method holds from its start to its end is left out.
--
-- Fuel. The loop of the lexer is given as many rounds as the text has runes; every round takes one rune
-- at least, so it never runs out. All other loops are structural.
--
-- Parameters: the map orders, what the driver of PostgreSQL returns, the database of SQLite with its
-- laws, JSON and gzip with theirs, the YAML parser, files and the environment, SHA-256, `strconv.Atoi`,
-- `time.Parse`, the clock, the cancellation of a context, whether a call on a WebSocket succeeds, the
-- matching of chi, `fs.Stat`, the flag package, random bytes, and what `ListenAndServe` returns.
--
-- Not modelled: the texts of the SQL queries of internal/pg and of the schemas of internal/persist, which
-- the databases run; the registry and the handler of internal/metrics (a third-party library); the
-- file server of internal/api; the shutdown of the HTTP server by a signal; deadlines and logs;
-- the web UI and the deployment.
pub mod Prelude
pub mod Sorting
pub mod Graph
pub mod Store
pub mod Redact
pub mod Audit
pub mod Auth
pub mod Poller
pub mod Signal
pub mod Api
pub mod Setup
pub mod Pg
pub mod Config
pub mod Command
pub mod Persist
pub mod Lifecycle
pub mod Metrics
