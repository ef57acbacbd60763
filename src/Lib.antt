-- ===== src/Lib.antt =====
-- A model of durable-timer, a service that stores timers in shards and calls back when they are due.
--
-- The parts, and the files that model them:
-- - Config: the engine's configuration and its defaults (server/config/engine.go, config.go).
-- - Databases/Models, TimerUuid, TimerStore: the records, errors and UUIDs that every store shares, and
--   the interface of a store (server/databases/db_unified_models.go, timer_uuid.go,
--   db_unified_interfaces.go). A store is a state type with one function for each call.
-- - Databases/Results, Codec, Rows, Table, Race: what the stores share: the results of calls, the JSON
--   codec, the rows of the table `timers` with the conditions on them as tests, the table as how many of
--   its rows pass a test, and attempts that race for one thing.
-- - Databases/Sql: what the stores over MySQL and PostgreSQL share. The statements are data, with their
--   WHERE clauses as tests on rows; Sql/Session is the transaction that checks the shard's version,
--   Sql/Claim `ClaimShardOwnership`, Sql/Columns the scan of rows, Sql/Ranges the batch. Sql/Laws states
--   what the servers document of the statements; Sql/Atomic, Fence, Claimed, Replace and
--   Exclusion use it.
-- - Databases/Mysql (server/databases/mysql/mysql_timer_store_impl.go): Mysql/Shard claims and updates
--   shards, Mysql/Write has the operations on one timer, Mysql/Read `GetTimer`, Mysql/Range those on a
--   range. `mysql_timer_store` puts them behind the interface. Mysql/Atomic says what they make of the
--   table.
-- - Databases/Postgresql (server/databases/postgresql/postgresql_timer_store_impl.go): the same, with the
--   updates in Postgresql/Update, which delete and insert a timer whose time changes. Postgresql/Agreement
--   compares the store with MySQL's.
-- - Databases/Cassandra (server/databases/cassandra/cassandra_timer_store_impl.go): Cassandra/Cql has the
--   statements and the interface of `gocql`, Cassandra/Lookup the search for a timer's key, Cassandra/Shard,
--   Write, Update and Read the operations. A write that carries a version is one batch whose first
--   statement is conditional on it. Cassandra/Laws states what is documented of conditional statements;
--   Cassandra/Fence and Exclusion use it.
-- - Databases/Mongodb (server/databases/mongodb/mongodb_timer_store_impl.go): Mongodb/Driver has the
--   writes and the interface of the driver, Mongodb/Session the transaction that checks the version,
--   Mongodb/Shard, Write, Range and Read the operations. Mongodb/Laws states what is documented of
--   sessions, which Mongodb/Fence uses. Where a field of a document may be of another
--   type than the code asserts, the model panics.
-- - Databases/Dynamodb (server/databases/dynamodb/dynamodb_timer_store_impl.go): Dynamodb/Client has the
--   keys, the writes and the interface of the AWS client, Dynamodb/Shard the claim, Dynamodb/Create the
--   creations and the update of the metadata, Dynamodb/Read the reads, Dynamodb/Range the
--   operations that delete ranges, Dynamodb/Change the updates and deletions, with what they make of a cancelled transaction.
-- - Backoff: the retry policies, the retrier, and `ThrottleRetry.Do` (server/engine/backoff).
-- - Engine: the timer gate, the ownership of a shard, the channels of offsets, the batch reader and the
--   batch deleter (server/engine/timer_gate.go, shard_ownership.go, offset_channels.go,
--   batch_reader.go, batch_deleter.go). The loops are lists of events: a case of the `select` is one.
--   ShardOwnership/Takeover joins the ownership with the MySQL store.
-- - Base: shared names, Boolean tests, lists, texts and integers. Tests: parameters as concrete
--   functions, with a table in memory, and examples.
--
-- How the parts interact: the owner of a shard claims it in the store and holds the version that it
-- got; every write of the owner carries that version. The batch reader reads timers of the shard from
-- the store through the retry loop, whenever its gate fires, and hands them on. The offset of what is
-- done comes to the batch deleter, which writes it through the owner and deletes what is before it.
--
-- Times are nanoseconds since Go's zero time, UUIDs 128-bit numbers, an int64 or int32 its bit pattern;
-- the durations and ints of the configuration likewise; durations are integers where the code subtracts
-- them (Backoff, with the wrap-around of int64 written out). A function that may panic returns an Option.
--
-- Parameters, since their code is not part of the repository: float64, `rand.Intn`, the clock and the
-- waits of a platform, MD5, the layouts of times, the JSON codec, `database/sql` with its MySQL or
-- PostgreSQL server, the parser of UUIDs, `gocql` with Cassandra, the MongoDB driver and the AWS client. Columns round times and may
-- normalise JSON: that is the server's part, so what is said of rows is said of the rows that a
-- statement carries. Texts are compared byte by byte. A timer of Go 1.23 or later is assumed, whose Stop and Reset discard an old value.
--
-- A read of `gocql` gives the zero value for NULL. Of the answer to a batch that was not applied the
-- store reads only the version of the shard; what Cassandra puts there is left open.
--
-- The laws of Sql/Laws are for a table that no other session changes between the statements of an
-- operation: the check of the version and the write are two statements, and the read takes no lock.
--
-- Bounds: `do_retry` runs on fuel, one unit for a run of the operation. With a policy of n attempts
-- n + 1 units are enough, with one that expires limit + 2, since every wait takes a nanosecond or more;
-- a read of the batch reader has 60 * 10^9 + 2, from the minute after which its policy expires.
--
-- Not modelled: connecting to the stores and closing them; the decoding of YAML;
-- logging, the timeouts of contexts, jitter.go, the HTTP API (generated, without logic), and the parts of the
-- engine that are interfaces only. The lock of `ConcurrentRetrier` is taken as held from the test of
-- the count to the end of the call.
pub mod Base
pub mod Config
pub mod Databases
pub mod Backoff
pub mod Engine
pub mod Tests
