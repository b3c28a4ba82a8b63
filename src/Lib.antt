-- ===== src/Lib.antt =====
-- policy_gate: a bounded, fail-closed cache of authorization decisions for servers.
--
-- The program. A gate answers whether a subject may be served. Decisions come from an external
-- source, by a unary lookup or by a watch that the source pushes changes over. The gate keeps one
-- entry for each subject in a bounded map; streams hold handles to entries and read them without a
-- lock. When the watch is down, every entry is made stale, so that nothing is served on old data.
--
-- The parts, and the files that model them:
--   Decision.antt   the decisions, results and errors of src/lib.rs;
--   Config.antt     the configuration and its builder, src/lib.rs;
--   Time.antt       sleeps and timeouts, src/time.rs, as polls at explicit instants;
--   Word.antt       the packed word of an entry, its state and its deadline, src/gate.rs;
--   Entry.antt      an entry: its snapshot, its pending fetch and its refresh window, src/gate.rs;
--   Store.antt      the memory that the entries live in, by address;
--   Lru.antt        the `lru` package as a parameter, with its documented laws; Lru/Listed.antt is
--                   a cache that satisfies them;
--   Subjects.antt   `SubjectMap`, src/gate.rs;
--   Gate.antt       `GateState`, src/gate.rs: publication and the snapshots of results, and below
--                   it Gate/Fetch.antt (lookups and what their outcome does), Gate/Access.antt
--                   (cached reads, refresh claims), Gate/Admit.antt (the admission loop; the whole
--                   call in Gate/Admit/Driver.antt) and Gate/Watch.antt (connection changes and watch
--                   decisions); Gate/Safety/Events.antt has the histories of a gate;
--   Facade.antt     `PolicyGate`, src/gate.rs: what a server calls, and its construction together
--                   with the watcher of src/watcher.rs;
--   Admission.antt  handles, src/gate.rs;
--   Watcher.antt    the watch loop, its backoff and health, src/watcher.rs;
--   Tonic.antt      the decoding of src/tonic_source.rs, and in Tonic/Source.antt its configuration,
--                   construction and watch;
--   Stream.antt     bodies that are cut on a denial, src/stream.rs: one argument for each round of the
--                   loop of `poll_frame`;
--   Layer.antt      the middleware, src/layer.rs, in Layer/Rejections.antt the rejections of
--                   src/layer.rs and src/grpc.rs, and in Layer/Service.antt the layer as it is put
--                   together and the response of each outcome;
--   Example.antt    the service of examples/http_middleware.rs;
--   Metrics.antt    the events of src/metrics.rs.
-- Functions, fields and constructors keep their names of the source in antt's spelling.
--
-- How state is modelled. A method takes the state and returns it beside its result. An `Arc` is an
-- address in the store, so that pointer equality is equality of addresses, and the handles of an
-- entry alias it. What a function reads from the clock is an argument, in the order in which it
-- reads it, and so is what it draws at random. Code between two awaits is one step; an async
-- function is a machine over what it waits for. The compare-and-swap loops of an entry take the
-- list of what other threads leave in the cell between the attempts. Durations and instants are
-- nanoseconds in native numbers; widths are written out where the code saturates,
-- checks or wraps around.
--
-- Bounds. The eviction loop runs on the number of items as fuel: each round drops an item. The
-- other loops recur on their lists: the rounds of a poll of a body, the answers to a request and the
-- turns of an admission are lists too.
--
-- Not modelled: the Tokio driver and the transport (I/O), generated protocol code, the body adapters
-- and the encoding of a status into headers, which are parameters, and the Clone and Debug
-- implementations. Threads do not interleave inside a step; the exceptions are the compare-and-swap
-- loops of an entry and the rebuild of the published snapshot, whose parts between the locks are steps
-- of their own.
pub mod Prelude
pub mod Decision
pub mod Time
pub mod Word
pub mod Entry
pub mod Config
pub mod Lru
pub mod Metrics
pub mod Store
pub mod Admission
pub mod Subjects
pub mod Gate
pub mod Watcher
pub mod Tonic
pub mod Stream
pub mod Layer
pub mod Facade
pub mod Example
mod Tests
