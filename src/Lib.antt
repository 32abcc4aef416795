-- ===== src/Lib.antt =====
-- KDown is a download manager. Its engine splits a file into leases, which workers fetch by HTTP
-- range requests and write at their positions; it keeps what is completed as a set of byte ranges,
-- from which a checkpoint can resume a job. This library models the parts of the engine that
-- decide: which bytes are fetched next, which count as done, which responses and resumptions are
-- admitted, how a job ends, and what memory is charged.
--
-- Interval and its children model crates/engine/src/scheduler/interval_set.rs. The BTreeMap of
-- starts and inclusive ends is a list of entries by ascending start, with the map's calls as
-- functions (last_le, last_lt, first_ge, range_between, insert_key, remove_key); insert, subtract
-- and the queries make the same calls in the same order. The loop of insert that absorbs
-- successors runs on fuel, the number of entries: each round removes an entry. Interval.Reference
-- has the structural operations that they are compared with.
--
-- Scheduler models crates/engine/src/scheduler: Plan has plan_segments and tile_ranges of mod.rs,
-- the loop on fuel (one round for each byte is enough); Lease the SegmentLease of lease.rs and the
-- map of active leases by id; Policy the sizing policy of core.rs; Core the SegmentScheduler of
-- core.rs and every operation of it that changes state, with their queries in Core.Queries. Time
-- (Instant::now) is an argument. The f64 estimate of the duration target is over a record of
-- floats whose operations have no laws, so the theorems hold for any. Core.Trace has histories of
-- calls in any order, Core.Clocks the clocks of the leases, Core.Drive the rounds of acquiring and
-- completing.
--
-- Job models the state machine of crates/engine/src/job/state.rs: State has the graph and the
-- machine, whose atomic byte is a number; Request sequences of calls and the edges that they take.
--
-- Resume models crates/engine/src/resume: Checkpoint the checkpoint of checkpoint.rs with its
-- validation, the record of a completed range by sorting and merging, and the local binding, with
-- Size for the checked estimate of its serialized size (a sum in Result) and Estimate for what
-- that leaves out, over a JSON text that is a parameter; Durable the tracker of durable_ranges.rs;
-- Admission the two phases of flow.rs; Coordinated the store of coordinated_store.rs, which never
-- goes back. The store and what the file system says of the temporary file are parameters: a store
-- is a record of load, save and delete over any state.
--
-- Io.Frontier models LeaseFrontier of crates/engine/src/io/write_frontier.rs over the interval
-- sets: Event has what workers and writers call, History any sequence of it. A failing assert is
-- none; a debug_assert is absent. Io.Ledger models the pools, the non-blocking reservation and the
-- release of crates/engine/src/io/transfer_ledger.rs. Io.Budget models
-- crates/engine/src/io/write_budget.rs: a call that waits is a stage of its reservation, which a
-- poll moves on and a cancel ends; System has any order of such events, Frames the splitting of a
-- frame, on fuel (its length). Io.Buffers models crates/engine/src/io/buffer_pool.rs, its acquire
-- in the parts between two locks.
--
-- Http models the comparisons of crates/engine/src/http/validators.rs (Validators), the check of a
-- range response of crates/engine/src/http/range.rs (Range) and the redirect tracker and header
-- scope of crates/engine/src/http/redirect.rs (Redirect), where what is read from a URL is a
-- parameter. Control models the kinds of failure of crates/engine/src/error.rs (Error), the
-- decision to retry of crates/engine/src/control/retry.rs (Retry), where the delay that is drawn
-- at random is an argument, and the registry of crates/engine/src/control/origin.rs (Origin),
-- where the clock is an argument and the loop of evictions runs on fuel, the number of entries.
--
-- Control.Adaptive models the decision of crates/engine/src/control/adaptive.rs over floats
-- without laws. Config models the validation of crates/engine/src/config.rs: the checks in their
-- order, as a list of which the first violated one is the error.
--
-- Prelude has the shared names, the Boolean tests on numbers, sums and lists, and the saturating
-- arithmetic of u64. A number of w bits is a natural number with its wrap-around or saturation
-- written out where the source can reach it. Offsets of a file are below 2^64 - 1, since a file
-- has at most 2^64 - 1 bytes.
--
-- Not modelled: what is asynchronous (workers, controller, writer lanes, the HTTP transport,
-- connections) but for the waits of Io.Budget and Io.Buffers, file and checkpoint I/O, rate limits
-- (floats), the waiting reservations of the ledger, the texts of errors, parsing of headers and
-- URLs, metrics, and the application crate with its web interface.
pub mod Prelude
pub mod Interval
pub mod Scheduler
pub mod Job
pub mod Io
pub mod Http
pub mod Control
pub mod Resume
pub mod Config
