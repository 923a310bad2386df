-- ===== src/Lib.antt =====
-- Genus, a type-safe ORM for Go: a model of the parts of it that decide by themselves, and what
-- holds of them.
--
-- The program's parts and how they interact. A client describes a query or a mutation with the
-- builders of query/ (Builder, FastBuilder); they write SQL text, numbered by the dialect of
-- dialects/, and hand it with its arguments to an executor. The executor may stand behind a circuit
-- breaker (CircuitBreakerExecutor) or be called again by WithRetry, both in core/circuit_breaker.go;
-- the connection may be one of several shards (sharding/sharding.go); results may be kept by the
-- cache of cache/cache.go, under keys that begin with the table. The schema is brought up to date by
-- the migrations of migrate/migrate.go, which a control table in the database records.
-- migrate/diff.go compares the schema of the models with another and writes the statements that lead
-- from one to the other. core/db.go and core/batch.go write the statements on single records and on
-- slices of them. The cursor pages of query/cursor.go add a condition, an order and a limit to a
-- Builder. The event store of eventsourcing/event.go keeps events in a table of its own;
-- repositories rebuild aggregates from them, and a bus hands them to handlers; cqrs/cqrs.go has the
-- buses for commands and queries.
--
-- Which file models which part:
--
--   Prelude    shared types, tests on numbers, lists, signed integers (Int), Go's slices of bytes
--              (Slices) and maps with string keys (Dict).
--   Breaker    core/circuit_breaker.go: CircuitBreaker and its methods NewCircuitBreaker, Allow,
--              RecordSuccess, RecordFailure, Reset, setState. Breaker/Invariant has what holds between
--              two calls, Breaker/Runs whole histories, Breaker/Executor the CircuitBreakerExecutor.
--   Retry      core/circuit_breaker.go: WithRetry (Retry/Loop, Retry/Bounds), DefaultIsRetryable and the
--              substring search contains (Retry/Text).
--   Cache      cache/cache.go: InMemoryCache with Get, Set, evictOldest, Delete, DeleteByPrefix, Clear,
--              and QueryCacheKey, TableCachePrefix. Its child modules: the invariant, the room that Set
--              makes, what readers see, prefixes, and histories of calls.
--   Sharding   sharding/sharding.go: ModuloStrategy and ConsistentHashStrategy; sortRing (Ring),
--              binarySearch (Search), Build for one shard more (Growth), NewShardManager (Manager),
--              GetShard, GetShardFromContext and MergeResults (Routing). core/shard_executor.go:
--              ExecOnAllShards (AllShards): its slices, its WaitGroup and the steps of its goroutines,
--              with sums over them (Count), what every state satisfies (Slots), what it returns (Joined)
--              and that it does (Ending).
--   Query      query/: conditions and Not (Condition, of condition.go), WHERE clauses (Where, of
--              builder.go and subquery.go), rewritePlaceholders (Rewrite), SELECT, COUNT and DELETE
--              (Builder, of builder.go and mutation.go), UPDATE and the soft-delete scope (Mutation, of
--              mutation.go and scope.go), the methods that return a new Builder (Chain, of builder.go),
--              the builders of subqueries (Nested, of subquery.go), FastBuilder (Fast, of
--              fast_builder.go). Sql has the dialects; Numbering, Statements and Scope have proofs on
--              the placeholders and on the conditions that a chain of calls leaves.
--              Query/Cursor is the pagination of cursor.go, with Walk (from page to page) and Pages;
--              Query/Detector the N+1 detector of n1detector.go, with Window.
--   Events     eventsourcing/event.go: EventStore and SnapshotStore. Events/Store has what Append leaves
--              for Load, Events/Repository BaseAggregate, AggregateRepository and SnapshotRepository,
--              Events/Snapshots loading with a snapshot, Events/Bus the EventBus.
--   Cqrs       cqrs/cqrs.go: the buses, their middleware, the projections. Cqrs/Chain is about the order
--              of the middleware, Cqrs/Buses about the cache and the names of handlers.
--   Db         core/db.go (Db/Single: Create, Update, Delete, ForceDelete; Db/Transaction: WithTx) and
--              core/batch.go (Db/Batch: the statements; Db/Operations; Db/Transaction: BatchUpdate).
--              Db/Numbering is about placeholders, Db/Inserted about BatchInsert, Db/Deleted about
--              BatchDelete. Db/Upsert is core/upsert.go, with Db/Upserted about its placeholders and the
--              columns that it updates.
--   Diff       migrate/diff.go: the schema of models; Diff and GenerateMigration (Diff/Changes).
--              Diff/Columns has what the changes make of a table, Diff/Same the difference of a schema to
--              itself.
--   Migrate    migrate/migrate.go: the Migrator with Register, Up, Down, Status and runMigration
--              (run_up and run_down). Migrate/Applied is about Up, Migrate/Reverted about Down.
--   Tests      runs on concrete inputs.
--
-- State and operations. A method of the source is a function that takes the state to the new state,
-- with its results; a mutex makes one call one step. The Get of the cache takes its lock several
-- times; it is one step here, as if no other call came in between. Times are nanoseconds on the
-- natural numbers and the clock's reading is an argument. Signed integers are kept where a negative
-- value changes what the code does. A Go map is an association list; the counter of the round-robin
-- is taken modulo 2 ^ 64; other counters are not bounded. SQL text is a list of pieces, literal text
-- or a call of Placeholder, so that the numbers can be read off it; `render` gives the string.
--
-- Fuel. The eviction loop of Set runs on one round more than there are keys in the order,
-- binarySearch on as many rounds as the ring has points, WithRetry on as many as its `for` admits,
-- the loops of BatchInsert and BatchUpsert on as many as there are models, since a batch takes at
-- least one; the digits of a number on as many as the number and one. The theorems on Set,
-- binarySearch, WithRetry and BatchInsert give the result, so that they show the fuel to be enough.
--
-- Parameters. The hash FNV-1a and the formatting of values (Sharding), SHA-256 (Cache), the product
-- of a duration with a float64 (Retry), database/sql, contexts, and what reflection says of a model;
-- sort.Slice and the statements on the control table (Migrate), the statements on the tables of
-- events and snapshots, JSON, the methods of aggregates and handlers (Events), the text of a cursor
-- and the execution of a query (Query/Cursor), the driver, transactions and what reflection does
-- with a model (Db), handlers and the cache (Cqrs), the functions of strings and regexp
-- (Query/Detector), the order in which Go visits a map (Diff). What a theorem relies on of them is a
-- record of laws beside it (IsTable, IsKeeping, IsRanked, IsCodec, IsInserting, IsTransactional,
-- IsRange).
--
-- Not modelled: Stats and other reads of a field, NoOpCache, ShardManager.Close, the loading of
-- preloads, the scanning of rows, logging, the reading of a database's schema, and the packages
-- cloud, codegen, graphql, grpc, tracing, playground, cmd: they are I/O, generated text, or left for
-- a later extension.
pub mod Prelude
pub mod Breaker
pub mod Retry
pub mod Cache
pub mod Sharding
pub mod Query
pub mod Migrate
pub mod Cqrs
pub mod Db
pub mod Diff
pub mod Events
mod Tests
