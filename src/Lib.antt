-- ===== src/Lib.antt =====
-- Verification of the multi-core out-of-order simulator.
--
-- Parts of the program, and the files that model them:
--
-- * src/common/sync_coordinator.cpp holds the fetch of a thread at a synchronisation record until the
--   records of other threads have retired. Sync.antt models the class `SyncCoordinator`, each method a
--   function with its name; Sync/Gates.antt has the effect of one call, Sync/History.antt the runs of
--   calls and their summary, Sync/Order.antt the order between threads.
-- * src/coherence is the coherence protocol. Coherence/Message.antt models message.cpp and the
--   settings that the protocol reads, Coherence/Agent.antt the helpers of agent.cpp, and Mi, Msi and
--   Mesi below it the agents of agent_mi.cpp, agent_msi.cpp and agent_mesi.cpp, one function to a
--   `do_proc_*` or `do_ntwk_*` method. Coherence/Lls.antt models lls_cache.cpp.
--   Coherence/Directory.antt models directory.cpp, and Mi, Msi and Mesi below it the `MI_tick`,
--   `MSI_tick` and `MESI_tick` of directory_mi.cpp, directory_msi.cpp and directory_mesi.cpp: one
--   function to a branch of the chain of tests, `dispatch` for the chain, `handle` for the step on a
--   message, and `respond_if_due` for the answer of the memory at the end of the cycle.
--   Coherence/Adapter.antt models coherence_adapter.cpp, between a core's caches and its agents: it stands below
--   the last cache, so that the state of the caches holds it. Coherence/Adapter/Wiring.antt models how
--   src/full/full_mode.cpp sets the pointers of a core's L1 cache.
--   Coherence/Ring.antt models how a node of node.cpp chooses the direction of a message.
-- * src/ooo is the out-of-order core. Ooo/Inst.antt, Ooo/Rat.antt, Ooo/Rob.antt and Ooo/SchedQ.antt model
--   the instruction, the register alias table, the reorder buffer and the scheduling queue;
--   Ooo/Classify.antt models inst.cpp, from a record of the trace to an instruction.
--   Ooo/Core.antt has the dispatch stage of core.cpp, `writeback` and the flush at a mispredicted
--   branch. Ooo/Rob/Order.antt follows the reorder buffer under any operations, and
--   Ooo/Core/Progress.antt the back end under the steps of its stages.
-- * src/cache is the cache. Cache/Sets.antt models a set of cache.cpp, Cache/Level.antt the class `Cache`
--   with the methods that touch one level only, Cache/Level/Insert.antt, Access.antt and Issue.antt beside it
--   `insert_new_block`, `access` and `issue`, and Below.antt what stands below a level, another level or
--   main_memory.cpp; Cache/Level/Run.antt has the runs of calls. Cache/Prefetch.antt models the three
--   prefetchers. Cache/Mshr.antt models mshr.cpp, the table of the misses in flight; a
--   cache allocates a slot at a miss, and the core finds it again by its identifier until it releases it.
-- * src/predictor is the branch prediction. Predictor/Counter.antt models the counter of
--   include/comparch/predictor/saturating_counter.hpp, and Predictor/YehPatt.antt the class of
--   yeh_patt.cpp, with its registers in Predictor/YehPatt/History.antt.
--   Predictor/Perceptron.antt models perceptron.cpp and Predictor/Hybrid.antt hybrid.cpp, over these two.
-- * src/common/trace.cpp is the trace files. Trace/Bytes.antt models its little-endian helpers,
--   Trace/Format.antt the encodings of the records and of the header, Trace/Reader.antt the class
--   `Reader`, with the sink for synchronisation records as an interface, and Trace/Writer.antt `Writer`.
-- * Coherence/MiSystem.antt puts the agents and the directory of the MI protocol into one machine.
--
-- How they interact: a cache's agent pushes messages for the directory, whose node id is the number of
-- processors, into its node's egress queue; the directory pushes its answers into its own; the ring
-- carries them. In a core the dispatch stage moves instructions into the reorder buffer and the scheduling
-- queue under fresh tags; a unit that completes one broadcasts its tag to the alias table and to the
-- queue; the retire stage takes completed ones off the reorder buffer. The model of the MI machine keeps
-- the messages that are under way in one list, and a step may deliver any of them, so that each order of
-- the ring is one of its runs.
--
-- Conventions: a method that changes an object returns the new one; an exception is `throw`, without the
-- state, since the simulation ends with it; a map is a function from keys to options, and a key that
-- was never used is `none`. Counters wrap at their width, `active_sharers` and `inv_ack_waiting` at 32
-- bits, the clock and the other counters at 64; `inv_ack_waiting` is a bit pattern whose sign is tested
-- as one. A presence vector is a list of 16 bits; an index past it is outside the C++ program's
-- defined behaviour, and reads false here. Pointers to messages have one owner at a time and are
-- modelled by the messages. The loop of `Reader::next` runs on fuel, one round more than the stream has
-- bytes, and the sort of a Markov row on a round for each entry, which is enough since a
-- round takes at least one entry off; each other loop is a recursion on a list or on the rounds that are left. A stream is the list of its bytes.
-- A level of cache has three pointers, any of which may be null, over one state of all that they point to;
-- what the level above holds is an argument of an access, for the prefetchers.
-- A weight of the perceptron is an integer of any size.
--
-- Not modelled: printing, logging, the reading of configurations, the opening of files, the command line
-- and the run modes but for that wiring (input and output); the MOSI and MOESIF protocols, the ports and the queues of the
-- ring, and of the out-of-order core the retire, execute, schedule and fetch stages, of which only what
-- they do to the back end is a step.
pub mod Base
pub mod Sync
pub mod Coherence
pub mod Ooo
pub mod Cache
pub mod Predictor
pub mod Trace
