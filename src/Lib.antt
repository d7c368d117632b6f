-- ===== src/Lib.antt =====
-- X-LOAD, the NVMe XCOPY load generator (include/ and src/ of the repository).
--
-- The program copies blocks inside an NVMe target as fast as it can. `ConfigManager` reads the
-- command line, `SpdkContext` connects to the target and finds its namespaces; `PollThreadManager`
-- starts one worker thread for each core, each with a queue pair of its own and an `OperationPool`
-- of DMA buffers. A worker submits copy commands up to its depth: it takes an operation from its
-- pool, has the shared `XcopyGenerator` fill it, which asks the shared `LbaManager` for destination
-- blocks and random source blocks, and hands it to SPDK. The completion callback puts the outcome
-- into the shared `Statistics`, whose `ErrorCounter` counts status codes, gives the operation back
-- and submits the next command. Meanwhile `main` loops until the time is over, and its
-- `LiveMonitor` shows the counters.
--
-- The files:
--   Common      lists, options, Boolean tests, the arithmetic of 32- and 64-bit integers, and texts
--   Double      the machine's floating-point numbers, as a parameter; Fixed has thousandths in place
--               of them, for the tests
--   Timer       src/high_res_timer.cpp: the clock, the cycle counter, the frequency (Frequency)
--   Dma         SPDK's DMA memory: the addresses handed out and what is written to them
--   Lba         src/lba_manager.cpp. `get_and_advance_dst_lba` and the other operations as functions;
--               Concurrent takes its compare-exchange loop apart into atomic steps of any number of
--               threads, Torn the three stores of `set_dst_range`
--   Pool        include/operation_pool.h. A pointer to an operation is its index; Setup is about
--               `init`, Acquire and Slots about `acquire` and `release`, Hold about a pool in use
--   Errors      src/error_handler.cpp: the classes of status codes, and `ErrorCounter`
--   Generator   src/xcopy_generator.cpp: `generate` with both its loops, `XcopyOperation` and its copy
--   Statistics  src/statistics.cpp: the counters, the ring buffer of latency samples (Buffer) and the
--               figures in floating point (Latency, and Percentile below it)
--   Poll        src/poll_thread_manager.cpp: submission (Submit), completion and batches (Complete),
--               the loop of a worker (Worker) and its end (Exit), a new queue pair (Reconnect), start
--               and stop (Start), the poller that nothing registers (Poller); the other modules are
--               about submissions (Balance, Retry, Batch), the commands that reach SPDK (Sent),
--               commands in flight (Flight), the workers launched (Launch, Lifecycle), and all workers
--               of a run together, with the objects that they share (System: its turns; the loop of a
--               thread as turns, Loop; Account, Counted, Accounted, Reported); Samples has data for the tests
--   Config      src/config_manager.cpp: `Config`, `validate`, `parse_args` (Parse), which option sets what
--               (Options), and the texts that are printed of them (Print)
--   Spdk        src/spdk_context.cpp: the connections (Connect), the namespaces (Discover), `init` and
--               `cleanup` (Opening, Closing); Samples has what the tests take the libraries to answer
--   Monitor     src/live_monitor.cpp: the figures of the status line (Lines), its time (Elapsed),
--               its text (Text)
--   Reporter    src/json_reporter.cpp: the figures of the final report (Reported), and the texts of both
--               reports (Text); Json has the grammar of JSON, Printed the numbers in the report, and
--               Wellformed its parts and the whole
--   Main        src/main.cpp: all that comes before the threads (Prepare), the loop (Loop), the
--               report of a whole run (Report), and what comes after it (End)
-- A Tests module beside each of them applies the theorems at concrete inputs.
--
-- State and integers. An object is a record and an operation a function from the state before to
-- the result and the state after. Atomics are plain fields where a call is taken as uninterrupted;
-- where the code relies on compare-exchange, the loop is also a step relation. Numbers are natural
-- numbers, and a w-bit sum, difference or product is taken modulo 2 ^ w. What the code reads
-- through a pointer is an option, with what the code does when it is null.
--
-- What is not in the repository is an argument: the answers of SPDK's allocator (`Alloc`), of its
-- probes and namespaces (`Library`), of the controllers, queue pairs and polls (`Site`), whether a
-- command is accepted and when (`Answers`), the random numbers drawn (`Draws`), the options that
-- `getopt_long` finds and the numbers that `strtoul` reads, what the clocks answer (`Clocks`) and what
-- /proc/cpuinfo holds (`Machine`). The C library and SPDK are not modelled otherwise. The arithmetic of
-- doubles and the texts that streams print of them are arguments too (`Doubles`); where a theorem needs
-- the rules of IEEE 754 or of the printing, it takes them as the hypotheses `Rounds` and `Prints`.
--
-- In `thread_func` the store of `stop` reaches the thread in one of the rounds, between its submissions
-- and its completions, or after the rounds; among the turns of System it can come between any two
-- calls.
--
-- Loops. Those over lists are structural. `acquire` makes `pool_size` attempts, the loop around
-- `generate` ten (`max_retries`), the wait for a connection 5000 polls (`max_polls`), and the loop
-- over the controllers one attempt for each, as in the code; a reconnection polls 10000 times and a
-- drain as often: these bounds are the code's own, not fuel. The compare-exchange loops run as long
-- as their threads take steps. Two loops have fuel. That over the namespaces of a controller has 2
-- ^ 32, as many as there are 32-bit numbers; that of `main` has what its theorem takes
-- (`max_rounds`).
--
-- Not modelled: the printing of messages; of SPDK the options handed to it; of the main function its
-- signal handlers and the workers beside its loop, which System takes together; of the worker thread
-- its admin polls, sleeps, affinity and SPDK thread object. The other components take the readings of
-- the clock as arguments, and not the functions of Timer.
pub mod Common
pub mod Lba
pub mod Dma
pub mod Pool
pub mod Errors
pub mod Generator
pub mod Double
pub mod Timer
pub mod Statistics
pub mod Poll
pub mod Config
pub mod Spdk
pub mod Monitor
pub mod Reporter
pub mod Main
