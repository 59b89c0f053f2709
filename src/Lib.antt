-- ===== src/Lib.antt =====
-- A model of the MiniEureka node: a replicated registry of service instances.
--
-- A node keeps its instances in a sharded registry (backend/internal/registry). Every change
-- is a mutation (backend/internal/model) with a lease epoch and a version from the node's
-- hybrid logical clock (backend/internal/clock); the registry decides conflicts by comparing
-- them, so that nodes may exchange mutations and compact fences in any order. Changes are
-- published in a bounded event log (backend/internal/events); the members of the cluster, with
-- a local failure detector, stand in a table that follows an order of its own
-- (backend/internal/cluster). The service (backend/internal/service) turns the requests of
-- clients and the tasks of the timing wheel into mutations of leases; gossip
-- (backend/internal/gossip) carries mutations to peers in signed messages for a number of
-- rounds, and compares whole registries by the digests of shards.
--
-- Prelude: shared helpers. Slices is about parts of a list; Int, Bits, Order, Text, Map, Sort,
--   Utf8, Time and Decimal model what the code uses of Go: int64 arithmetic with its
--   wrap-around, three-way comparisons, byte strings, maps as association lists (the order of a list
--   stands for an iteration order that Go leaves open), UTF-8 decoding, time.Time as nanoseconds
--   since Go's zero time, and decimal numerals.
-- Model: Error (validation.go), Version and Revision (version.go), Instance (instance.go),
--   Mutation (mutation.go), Member (member.go). String enumerations keep a constructor for any
--   other string.
-- Clock: hlc.go. Now and Observe take the reading of the wall clock as an argument.
-- Registry: Entry (registry.go), Compare and Shard (apply.go), Lifecycle (ApplyFence of
--   apply.go, and lifecycle.go), for one shard. A method that runs under the shard's lock is one
--   step. Rank is the order behind the four comparisons, Cell the view of a shard at one key,
--   Run a sequence of calls, Converge what replicas agree on. Store is the array of shards with
--   its FNV-1a index. Query (query.go, digest.go) reads a list of shards, each as it was under
--   its lock; Listing, Counting and Exchange are about what it reads. json.Marshal and
--   reflect.DeepEqual are parameters (Compare.Platform): the second also sees parts of a
--   time.Time that the model does not have. Digest (digest.go) takes what hashes the entries as
--   a parameter.
-- Events: ring.go. Subscribe is its two critical sections. Channels that the ring has closed
--   are kept, since their readers still hold them.
-- Wheel: ttl/wheel.go. The handler is a parameter; Advance runs on fuel for its turns.
-- Cluster: table.go, with Edges. One reading of the wall clock stands for those of a whole
--   call.
-- Service: service.go, with Leases (operations.go, ApplyRemote, DashboardInstances) and Tasks
--   (HandleTasks). The parts of the node are a record that each call hands on; the identifiers
--   that it draws and the readings of the clocks are arguments, and the mutation sink is an
--   outbox. Lead and Requests are about every request, Outcome, Renewal and Eviction about the
--   lease that a node holds, Refused about one that a fence stops, Errors about what an error
--   leaves.
-- Gossip: Nonces, Wire and Http (wire.go), with Accept, Replay, Delivery and Canonical about
--   them; Pages (anti_entropy.go), with Complete, Sync and Idle; Engine, Delta and Peers
--   (engine.go), with Rounds and Turns; Select (fanout.go, faults.go and the tests of Send in
--   udp.go). Radio is what a round sends, with Clean and Turn, Dispatch what is done with a
--   packet, Answer the handler of anti-entropy; Life puts these and the service together as the
--   steps of a node, of which Ready says when it becomes ready. encoding/json, SHA-256, HMAC,
--   hexadecimal and the RFC 3339 form of a time are a record of functions (Wire.Codec), and
--   math/rand is a function. A map that a loop ranges over is visited in the order of its list.
-- Api: the rate limiter of middleware.go with Limits, and Middleware (its wrapper and writer);
--   Pagination (pagination.go) with Reading; Replies (response.go and decodeJSON of server.go),
--   Services (handlers_services.go) with Calls and Discovery, Dashboard, Feed and Demos
--   (handlers_dashboard.go) with Summary, and Origin (websocket.go up to its loop). A handler
--   takes what it reads of the request and gives a status with what it carries; a decoder of
--   JSON, URLs and the package strings are parameters.
-- Config: Validate and splitCSV of config.go, with Accepted and Csv, and Load with Loaded. The
--   environment and the readers of addresses, numbers, durations and URLs are parameters.
-- Demo: demo/manager.go, over the service, with Seed and Offline. What its calls draw and read
--   has the number of the call.
-- Tests: the theorems at concrete inputs.
--
-- Numbers are unbounded where the code cannot overflow them in the model; a uint64 or int64
-- that can overflow wraps around. Locks make each method one step, and the order of the steps
-- is a list. Messages of validation errors are left out, since nothing branches on them. Fuel
-- is taken by the decimal printer, which has more than the number it prints, by Wheel.advance,
-- one unit for a turn, by the loop of SyncPeer, one unit for a page of 200 items, and by
-- Reading.read_pages, one unit for a page. A service method and a message handler take several
-- locks in turn; the model runs each to its end before the next.
--
-- Not modelled: the sockets of UDP and HTTP and the loop of an event stream over its
-- connection, which are input and output; the goroutines, of which the steps of Life are an
-- order in which they may run; the text of JSON responses and the headers of security; the
-- metrics and the log, which nothing reads back; the start of the process (cmd/minieureka) and
-- the client library, which only call what is modelled here.
pub mod Prelude
pub mod Model
pub mod Clock
pub mod Registry
pub mod Events
pub mod Wheel
pub mod Cluster
pub mod Service
pub mod Gossip
pub mod Api
pub mod Config
pub mod Demo
mod Tests
