-- ===== src/Lib.antt =====
-- A program that transforms sequences of input events by a graph of nodes, after its C sources.
--
-- Events are records in one global list, ordered by time in intent. Each stands at a position, a node
-- or a channel of the graph. The main loop waits for input, calls what is scheduled, and passes over
-- the list of events; a pass calls the handler of the position of an event. The handler of a channel
-- moves the event to the node at its end; the handler of a node changes the event and forwards it,
-- replicated, to the channels of its outputs. Predicates on events live in a registry of their own and
-- are asked by the nodes that route.
--
-- A C function that writes through a pointer is a function here that returns the new value. Pointers
-- to events are their addresses, natural numbers that are not used again; pointers to nodes, channels
-- and subscribers are numbers; NULL is `none`. Whether an allocation succeeds is a parameter `alloc`.
-- Exits, failed assertions and accesses to what is not there are results of their own (`none`,
-- `aborted`). A signed overflow of `time_t`, `long` or `int64_t`, which C leaves undefined, is outside
-- the model: those numbers are unbounded. `size_t` keeps its wrap-around where the code may meet it.
--
-- Prelude: shared names, tests, lists, integers and bits.
-- Queue (queue.h, queue.c): the ring buffer. Queue/Inv has its invariant, Queue/Refine the sequence it
--   stands for, Queue/Grow growth and `queue_put`, Queue/Loop removal and the loop of the destructor.
--   The loop runs on fuel, one round more than there are values.
-- Modifiers (modifiers.h): sets of modifiers as bytes. Modifiers/Bytes, /Members and /Whole go from
--   bytes to the flags of the members.
-- Time (time.h): `timespec_add` and its companions. The loops of carry and borrow get for
--   fuel the quotient of the nanoseconds by a second, and one; Time/Sums is about them. Time/Order
--   is the order of times, Time/Assign the conversion from nanoseconds and milliseconds.
--   `get_current_time` is a parameter of what uses it.
-- Event (events.h) and Event/Store (events.c): the list of events from FIRST_EVENT on.
--   Event/Store/Create and /Sorted say where `event_create` puts an event, Event/Store/Writes is about
--   writes to an event in the list.
-- Predicate (event_predicate.h, event_predicate.c): the registry. `event_predicate_apply` recurses on
--   fuel, which is the depth of its stack: one more than there are predicates, in
--   Predicate/Termination, where the arguments of a predicate are older than itself. The loop of
--   `event_predicate_register` gets two rounds in Predicate/Registry.
-- Graph (graph.h, graph.c): channels, connectors and broadcast; Graph/Channel is about delivery.
-- Processing (processing.h, processing.c): subscriptions and delayed calls, with Processing/Loop for
--   the passes, on fuel of two more than there are events, where handlers ask for a rewind. The handler
--   and what makes a position ready are parameters of the passes.
--   Processing/Iteration is `process_io` and `process_iteration` around them. The loop runs on fuel,
--   as the handlers may keep it busy for ever; `pselect` and the clock are parameters. In
--   Processing/Iteration/Termination it ends on fuel for a measure of what is left to do, which the
--   calls use up.
-- Nodes (nodes/tee.c, assign.c, differentiate.c, integrate.c, scale.c, modifiers.c) and Routing
--   (nodes/router.c, modify_predicate.c): the handlers of the nodes, with Nodes/Create and
--   Routing/Create for their constructors.
-- HashTable (hash_table.h, hash_table.c): open addressing over two arrays, with HashTable/Key for the
--   keys. HashTable/Keys is about keys, HashTable/Search about the two loops, HashTable/Inv has the
--   invariant and the map that a table stands for. HashTable/Put and /Lookup are about the writes of an insertion, HashTable/Insert,
--   /Sound and /Grow about the whole of it, HashTable/Replay and /Rebuild about growth, HashTable/Find
--   about searches, HashTable/Delete about deletions. HashTable/Sample is a table for the examples. The fuel of an insertion is the depth of its calls through growth and change of the
--   hash function, which has no bound, as the hash function is drawn at random: it may be changed
--   again and again.
-- Config (config.h, config.c): sections of nodes and channels, with Config/Constants for constants and
--   enums, Config/Predicates for the predicates and Config/Whole for `load_config`. libconfig is the
--   parameter `Libconfig`; Config/Laws says what is relied on in it and in the tables, Config/Tables
--   makes the hash table such a table. Nested predicates are read on fuel, the depth of the settings.
-- EventCodes (event_code_names.c, event_code_names.cc): the table, in eight parts after its lines, and
--   its use. The values of the macros are a parameter, since they stand in a header of the kernel.
-- Setup (module_registry.c, main.c): the registry of node types, and the graph that main builds.
-- Examples: the theorems at concrete inputs.
--
-- Not modelled: nodes/window.c; the destructors of the nodes, which free memory; nodes/evdev.c,
-- getchar.c, print.c and uinput.c, which do input and output; of main.c the options, the messages, the
-- reading of the file and the clean-up; `value_deinit` of hash_table.c, which is NULL in every table
-- of the program.
pub mod Prelude
pub mod Queue
pub mod Modifiers
pub mod Time
pub mod Event
pub mod Predicate
pub mod Graph
pub mod Processing
pub mod Nodes
pub mod Routing
pub mod HashTable
pub mod Config
pub mod EventCodes
pub mod Setup
pub mod Examples
