-- ===== src/Lib.antt =====
-- Replay divergence: where two execution trails of one program, that of a reference and that of an
-- implementation under test, first write different values, and on which earlier writes that
-- instruction depends.
--
-- The parts, with the paths of the repository, and the files that model them:
--   internal/model: records, status machines and guarded updates. Model/Errors, Model/Status,
--     Model/Batch, Model/Event, Model/Checkpoint, Model/Snapshot and Model/Divergence. A Go method
--     that changes its receiver returns the new record, or the error that leaves it as it was.
--   internal/trace: importer.go and validator.go turn the inputs of a request into events.
--     Trace/Importer and Trace/Validator. The duplicate check is a parameter: a call on the state
--     of whatever store answers it.
--   internal/compare: hash.go replays the writes of a trail, selects a scope and computes the
--     FNV-1a fingerprint of a state; compare.go compares the two trails at a checkpoint.
--     Compare/Hash, Compare/Replay, Compare/Scope, Compare/Diff and Compare/Comparator.
--     `eventsUpTo` of internal/service/batch_service.go, through which every replay of the
--     service goes, stands in Compare/Replay.
--   internal/backtrace: graph.go builds the dependency edges, tracer.go finds the first divergence
--     and expands its chain. Backtrace/Graph and Backtrace/Tracer.
--   internal/sync: aligner.go marks the events of both trails as aligned and counts the sequence
--     numbers that only one trail has. Sync/Aligner, over the interface `EventGetter`.
--   internal/snapshot: publisher.go assembles the frozen configuration and replaces published
--     snapshots. Snapshot/Publisher.
--   internal/store: store.go holds the database and the transaction, the other files a table each.
--     Store/World has all tables, the statements, any of which the database may refuse, and the
--     transaction; Store/Events has event_store.go, Store/Rows batch_store.go and
--     checkpoint_store.go, Store/Fingerprints, Store/Dependencies, Store/Divergences and
--     Store/Snapshots the files of these names. `UpdateTx` is the statement of `Update`.
--     Store/World/Quiet, Store/World/Holds and Store/World/Keeps have the rules for calls that change
--     no table, for what a call that succeeds makes of the tables, and for what every call leaves as
--     it was; Store/Consistent has the constraints of the tables.
--   internal/service: a call checks a request against the stored batch, calls the parts above and
--     writes what they return. Service/Batches and Service/Scan have batch_service.go, and
--     Service/Comparison, Service/Tracing and Service/Statistics compare_service.go;
--     Service/Snapshots has snapshot_service.go. What a request's context answers, the clock and the
--     formatted time in the default name of a snapshot are parameters. Service/Preserves is the
--     interface between a fact about the tables and the calls: a fact that every write keeps is one
--     that every call keeps.
--   internal/httpapi: a request is decoded, handed to the service or to a store, and answered.
--     Httpapi/Router has the requests, one constructor for each route, and the answers with their
--     status codes (router.go); Httpapi/Batches, Httpapi/Trails, Httpapi/Comparisons,
--     Httpapi/Snapshots and Httpapi/System have the handlers of the other files, and
--     Httpapi/Routes sends a request to its handler. An id of a path or a body comes as what the
--     library made of it, or as the failure to make anything; ids that parse are natural numbers.
--     Requests are served one after another; `Reached` collects what they make of a new database.
--   cmd/replaydivergence: main.go starts the server, or runs a smoke test on a new database.
--     Cmd/Smoke has the smoke test.
--   Prelude holds what the parts share: Boolean tests, lists, signed integers, text order, sorting,
--     and Go's maps from texts as association lists. Model/Exec is the shape of a call that reads
--     and writes a store and may fail. The children of a module prove what holds of it. Examples
--     has small trails and runs.
--
-- Numbers. A sequence number is an integer; the places where int64 wraps around are written out
-- (`times4` in Trace/Importer, `next_seq` in Sync/Aligner), and the hash is computed modulo 2^64.
-- Identifiers, counts and times are natural numbers. Error texts and other formatted texts that
-- no code reads again are data with the values that they format.
--
-- Loops over slices are structural recursion. Two loops run on fuel: the queue of `expandChain`,
-- with one unit more than there are reference events, each of which enters the queue at most once
-- (Backtrace/Tracer/Ends), and the counting loop of `Align`, for which one unit more than there are
-- numbers in the range is enough unless the range ends at the greatest int64 (Sync/Aligner and, for
-- the numbers of the stored events, Service/Batches/Synced). `fuel` of a request's setting is that
-- of the second loop.
--
-- `sort.Slice`, whose order among equal keys Go leaves open, is a stable insertion sort. The order
-- of iteration over a Go map, which Go leaves open too, is that of the association list.
--
-- The database runs one statement after another, as the single connection of the source does. A
-- statement that it refuses changes nothing; which ones it refuses is a list in the state.
--
-- Not modelled: the JSON texts and the formats of times, whose values stand in their place
-- (internal/store/util.go); the SQL engine beyond what its statements say, with
-- the opening of the database and its migration; the constructor and the accessors of the service
-- (internal/service/service.go); the decoding and the encoding of JSON by the library, and the
-- multiplexer of net/http; the server's start and its log (cmd/replaydivergence). Requests that the
-- server handles at the same time are not interleaved here: a request has the database to itself
-- from its first statement to its last.
mod Prelude
pub mod Model
pub mod Compare
pub mod Trace
pub mod Backtrace
pub mod Snapshot
pub mod Sync
pub mod Store
pub mod Service
pub mod Httpapi
pub mod Cmd
mod Examples
