-- ===== src/Lib.antt =====
-- wavelet is a runtime for graphs of stream-processing nodes. A program builds nodes, each with a
-- cycle function and with parents that trigger it or that it only observes. An executor runs the
-- graph in cycles: it polls its event sources, which schedule nodes, then runs the scheduled nodes
-- by depth, where a node that broadcasts has the children that it triggers scheduled in the same
-- cycle; at last it removes the nodes that asked for it and runs deferred functions.
--
-- The parts, their files here and the code that they model (paths from the repository's root):
-- Prelude and its modules are shared: Boolean tests, lists over the native numbers, and `Call`, the
--   result of code that may panic.
-- Control: `Relationship` and `Control` of wavelet/src/lib.rs.
-- Scheduler: wavelet/src/runtime/scheduler.rs, with the same method names. Scheduler/Contents and
--   Scheduler/Order say what the queues hold, as one list in the order of the depths; Scheduler/Drain
--   is about many calls of `pop` and about `enable_depth`.
-- Graph: wavelet/src/runtime/graph.rs (`NodeContext::new` is `new_node`, `NodeContext::cycle` is
--   `cycle_node`). Collector: wavelet/src/runtime/garbage_collector.rs.
-- Scheduling: the pair `can_schedule`, then `schedule`, that every event source and the executor
--   repeat. `try_schedule` ignores a refusal, `must_schedule` panics on it.
-- Clock: wavelet/src/runtime/clock.rs; Clock/Historical: wavelet/src/runtime/clock/historical.rs, and
--   Historical/Exhausting how many readings it takes, Historical/Replay the same as a clock of the
--   executor, where its readings return;
--   Clock/Manual: wavelet/src/runtime/clock/test_clock.rs; Clock/Precision:
--   wavelet/src/runtime/clock/precision_clock.rs, and in Precision/Accuracy how far it is off.
-- EventDriver and its modules Timer, Yield, Io:
--   wavelet/src/runtime/event_driver.rs and wavelet/src/runtime/event_driver/. EventDriver/Polling and
--   EventDriver/Sources prove what a poll schedules, EventDriver/Reads how often it reads the clock,
--   EventDriver/Waiting how long it blocks, EventDriver/Timer/Life how long a timer lives;
--   EventDriver/Registration is about the I/O driver's table and EventDriver/Served about a driver
--   with I/O on a mio that does not fail.
-- Executor, Executor/Context, Executor/Cycle: wavelet/src/runtime/executor.rs. `cycle` is composed of
--   `node_loop`, `sweep_loop` and `spawn_loop`; Executor/Wiring, Turns, Propagation and NodeLoop prove
--   what the node loop does, Executor/Sweeping what the removals do and Executor/Whole what a whole
--   cycle does; Executor/Rest is about the executor between cycles, Executor/Drivers about the event
--   driver through a cycle. Executor/Frugal, Answers, Budget and Spending, on
--   Scheduling/Loads, are about closures that schedule nodes by `schedule_node`, which does not mark
--   them, so that a node may wait more than once: every node has a weight that pays for what it adds.
-- Runtime: the loops over a cycle of wavelet/src/runtime.rs; Runtime/Completion proves that they end.
-- Node: wavelet/src/runtime/node.rs, the cell behind a handle (`NodeInner`), the relationships and
--   the closure that the builder puts around the user's function, with the drop of its own handle;
--   Node/Edges, Node/Depth and Node/Building prove what a new node does to the graph; Node/Builder: the builder with its
--   ways to build, and the drop of a cell; Node/Builder/Handles: the calls on handles, which count,
--   and Node/Builder/Counting what they add up to.
-- Channel and its modules: wavelet/src/channel.rs. `try_receive` is given what others do to the
--   channel between its two accesses, the pop and the load of the number of senders.
-- Wsnl and its modules: the stream nodes in wavelet/src/wsnl/logic.rs, wavelet/src/wsnl/transform.rs,
--   wavelet/src/wsnl/time.rs and wavelet/src/wsnl/util.rs; Wsnl/Switch and Wsnl/Route: the switches
--   and the router of wavelet/src/wsnl/control.rs, where a weak handle is the address of a cell in a
--   list of cells. The cycle functions stand in the part's own file, the functions that build the
--   nodes in its module Building.
-- Factory: wavelet/src/factory/keyed.rs; Factory/Simple: wavelet/src/factory/simple.rs.
-- Testing: wavelet/src/testing.rs.
-- Tests: the definitions and the theorems at small inputs.
--
-- Third-party code is a parameter with the laws that its documentation states: petgraph's
-- `StableGraph` (StableGraph), crossbeam's `ArrayQueue` (ArrayQueue), `slab` (Slab), mio (Mio) and
-- the time crate's `OffsetDateTime` (a type, and for the clocks a `Calendar`, whose sums panic
-- behind the last moment; for the precision clock a `Timeline`, as its sums of a current time and of
-- the time since the last sampling are taken far from the last moment). The operating
-- system's clocks are a parameter too (`SystemClocks` of Clock/Precision).
-- StableGraph/Slots, ArrayQueue/Bounded and Tests/Sample give concrete instances. `Platform` gathers
-- these parameters and the types that stand for the user's closures; `Closures` says what running
-- and dropping a closure does. Closures work on the context and on a store, which stands for all
-- that they have captured.
--
-- State is passed explicitly: a `&mut self` method returns the new state. A `VecDeque` and a `Vec`
-- are lists, a `BTreeMap` is the list of its entries in order, a `HashMap` is a list of pairs. An
-- `Instant` and a `Duration` are numbers of nanoseconds; the overflow of sums of
-- these is modelled in Clock/Manual, whose settings are arbitrary, and not elsewhere. The executor
-- takes a clock whose readings return. Depths wrap at 2^32, epochs, timer numbers
-- and the channel's counts at 2^64, as in a release build; the debug assertions are left out. The
-- number of pending events stands for entries in memory and does not wrap.
--
-- Fuel: `pop_loop` recurs on the number of queues from the current depth on. `node_loop` and
-- `spawn_loop` take fuel: for the node loop, more than there are nodes is enough where closures
-- leave scheduling to the graph, and more than the waiting nodes weigh where they schedule nodes
-- themselves; `finish` gives the spawns fuel for all that wait. `sweep_loop` recurs on a number of
-- nodes and on the queue; the number of nodes in the graph is enough. `blocking_send` takes fuel
-- for its attempts. `run_forever` and `run_until_completion` take fuel for their cycles; a round of
-- them gives the cycle its own fuel.
--
-- Polling I/O: `Mio.poll` gives the answer of a call that returns. A poll that blocks for good, as in
-- the mode `Park` with neither an event nor a timer, has no run in the model; the entry on
-- `run_forever` below is for a runtime that spins.
--
-- Not modelled: memory orderings and data races, since each access to a shared queue is one step;
-- the registration of the shutdown flag with the signal handlers; logging; the program in example/.
pub mod Prelude
pub mod Control
pub mod Scheduler
pub mod StableGraph
pub mod Graph
pub mod Scheduling
pub mod ArrayQueue
pub mod Slab
pub mod Mio
pub mod Clock
pub mod EventDriver
pub mod Platform
pub mod Collector
pub mod Executor
pub mod Channel
pub mod Node
pub mod Wsnl
pub mod Factory
pub mod Runtime
pub mod Testing
pub mod Tests
