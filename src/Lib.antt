-- ===== src/Lib.antt =====
-- HawkSet, a detector of persistency races: a model of the tool's own code and the theorems that make
-- it correct.
--
-- The tool runs inside Intel PIN. While the program under test runs, handlers simulate its caches and
-- follow its locks and threads; at the end, an analysis compares every store to persistent memory
-- with the loads of the other threads.
--
-- The parts, and the files that model them:
--   VectorClock (src/vector_clock.hpp): `update`, `is_concurrent`; the loops in VectorClock/Loops,
--     the order in VectorClock/Order.
--   Bitset: the 64 bits of a word, as a function of the number of a bit.
--   Lockset, TimedLockset (src/lockset.cpp, src/lockset.hpp): sets of lock numbers in growing words,
--     and the locks with the moment of their acquisition; as sets in Lockset/Sets, TimedLockset/Sets.
--   Registry (src/lockset.cpp): `Lockset::lock_index` and `Lockset::lock_counter`, the numbers of the
--     locks, and the operations on a lockset by a lock's address; Registry/Laws.
--   Intern, Cache (src/cache.hpp): hash-consing, the two caches of locksets and the intersections on
--     addresses; Cache/Laws, Cache/Hash.
--   Backtrace (src/utils.hpp): the order of the frames and `GetBacktrace`; Backtrace/Walk is
--     `CustomBackTrace`, with one round for each address that there is still room for.
--   Heuristic (src/hawkset.cpp): `IgnoreAccess`, `HandleAccess`, `HandleAccessByte`; against the
--     history of the accesses in Heuristic/Refine and Heuristic/Replay, and Heuristic/Width.
--   Tool (src/hawkset.cpp): the global state, `ThreadData`, and the monad that the handlers run in.
--   Memory (src/hawkset.cpp): `RegisterAccess`, `RegisterUnpersistedStore`, `ProcessFlush`,
--     `CheckOverwrite`, `ProcessStore`, `ProcessRead`, `ProcessFence`; Memory/Flush, Memory/Store,
--     Memory/Recorded and Memory/Fence say what they do to the bytes.
--   Threads (src/hawkset.cpp, src/trace.hpp): `ProcessLock` and `ProcessThreadCreate`, `Init`, `Join`,
--     `Exit`; Threads/Clocks and Threads/Order, Threads/Locks for what a thread holds, Threads/Frame for
--     what the life of the threads leaves alone.
--   PmAlloc (src/utils.hpp): the mappings of persistent memory, `SysBefore`, `SysAfter`, `IsPMAddress`,
--     `FDPointsToPM`; PmAlloc/Regions is what the tool's list makes of
--     the system calls, and PmAlloc/System what they do to the mappings.
--   Opcodes (src/utils.hpp, src/hawkset.cpp): `IsMovnt`, `IsFence`, `GetFlushType` and
--     `TraceInstructions`, the analysis routine that each instruction gets.
--   Handlers (src/hawkset.cpp): the analysis routines, `TraceWrite` to `TraceRet`, `LockBefore` to
--     `RWUnlockBefore` and `TraceAdqRelBefore` and `After`; they call Memory, Threads and PmAlloc.
--   Protocol (src/hawkset.cpp): `PthreadCreateReplacement`, `PthreadJoinReplacement`, `TraceThreadStart`
--     and `TraceThreadExit` as steps of the threads, in any order, on Tool's state, the mutex and the
--     semaphore of a creation; Protocol/Invariant, Protocol/Safety, Protocol/Progress.
--   Config (src/utils.hpp): `MutexFunctionInfo` and `MutexConfig`, on a loaded document; Config/Print is
--     which documents spell out a configuration, Config/Load what the constructors make of its entries.
--   Images (src/utils.hpp, src/hawkset.cpp): `ImageLoad`, `InstrumentLockRoutine` and
--     `InstrumentAdqRelRoutine`: the calls that a configuration inserts, with their arguments.
--   Races (src/hawkset.cpp): `CheckPMRacesPerThread` and the table of loads; Races/PerThread,
--     Races/Loads, and Races/Insert and Races/Recorded for the loads as they were recorded.
--     Races/Reports: `CheckPMRaces`, the groups of stores and the reports; Races/Groups, Races/Racing
--     and Races/Reported, put together in Races/Check.
--   Startup (src/hawkset.cpp): the state of the globals, and `HandleKnobs`; `main_start` in Run is `main`
--     from there to the start of the first thread.
--   Run (src/hawkset.cpp): `main` and whole runs, from the start of the first thread: the threads take the steps of
--     Protocol, and each one that has started calls the routines of Handlers and the hooks of the system
--     calls, in any order; Run/Sound and Run/Invariant.
--   Sound: what the pointers and indices of Tool's state refer to; Sound/Memory to Sound/Handlers follow
--     the operations of Memory, Threads and Handlers, with the rules of Sound/Actions; Sound/Loads
--     is about what RegisterAccess records.
--   Ready: which routines can stop the process, by a failed assertion or an access outside of an array;
--     Heuristic/Room for the numbers of the threads, Ready/Memory to Ready/Events for the routines,
--     Ready/Runs for whole runs.
--   Output (src/hawkset.cpp, src/utils.hpp): `OutputRaces` and `GetBacktraceSymbols`, the text of a
--     report; Output/Loads to Output/Reported say which traces get into the reports.
--   Prelude, Map: the shared tests, lists and ordered maps. Tests: the theorems at concrete inputs.
--
-- How the code is read:
--   - A handler is a function from the state to its result and the next state; `none` is an assertion
--     that fails and ends the process, or an access outside of an array, of a value that is not set, or
--     `pop_back` of an empty vector. `back()` of an empty `vector_clocks`, which is undefined too, is the
--     empty clock. What a mutex protects is one step.
--   - A number of `w` bits wraps at `2 ^ w`, which is written out; where the source mixes widths, each
--     cut is written.
--   - A map, ordered or not, is the list of its entries by ascending key. Where the source goes through
--     an unordered one, the order is this one. A map whose keys are no numbers is the list of its
--     entries in the order in which they came.
--   - A pointer into a cache is the position of its value in the order of allocation, since nothing is
--     freed and no value changes once it is there.
--   - Loops are recursions on the list that they go through, or on the number of their rounds, so no
--     fuel is needed. The rounds of the loop of `ProcessStore` come from its own bound, which wraps.
--   - Parameters stand for what is not the repository's: what `readlink` gives for a descriptor, the
--     opcodes of XED, PIN's tests on an instruction and its search for a routine, the memory of the
--     program, the document that libyaml loads, `backtrace_symbols` and `atoi`. A text is a list of bytes
--     where the source walks it, and a native string where it only compares it.
--
-- Not modelled: the registration with PIN and the usage text (`main` of src/hawkset.cpp); the choice of
-- the output stream, and printing but for the reports; timing and statistics (src/logger.hpp, `Fini` of
-- src/hawkset.cpp); other functions that nothing calls (src/utils.hpp); the programs under test
-- (examples).
pub mod Prelude
pub mod Map
pub mod Intern
pub mod VectorClock
pub mod Bitset
pub mod Lockset
pub mod Registry
pub mod TimedLockset
pub mod Cache
pub mod Heuristic
pub mod Backtrace
pub mod Tool
pub mod Memory
pub mod Threads
pub mod Races
mod Tests
pub mod PmAlloc
pub mod Opcodes
pub mod Handlers
pub mod Protocol
pub mod Config
pub mod Images
pub mod Sound
pub mod Ready
pub mod Startup
pub mod Run
pub mod Output
