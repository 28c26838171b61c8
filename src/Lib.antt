-- ===== src/Lib.antt =====
-- Hippocrates repairs durability bugs in programs for persistent memory: a bug finder's trace says
-- which stores are not flushed or fenced, and an LLVM pass adds flushes and fences that repair
-- them. This library models the repair, from the events of the trace to the fixes in the module.
--
-- The parts, with the files of the repository:
--   Base         shared names, Boolean tests on numbers, lists, byte strings, outcomes of code that
--                can stop at an assertion, signed integers.
--   Address      AddressInfo (src/BugReports.hpp, src/BugReports.cpp): ranges of memory.
--   Location     LocationInfo (the same files): source locations, which match by file name.
--   Ir           what the passes read of an LLVM module: functions, blocks, instructions.
--   FixLoc       FixLoc (the same files): a range of instructions in a block.
--   Fix          FixType, FixDesc and fixMap_ (src/BugFixer.hpp); addFixToMapping (src/BugFixer.cpp)
--                is in Fix/Merge. Fix/Effects, Fix/Laws and Fix/Joint have what it keeps.
--   Trace        TraceEvent and TraceInfo (src/BugReports.cpp); Trace/Build and Trace/Resolve are
--                TraceInfoBuilder, Trace/Values is TraceEvent::pmValues.
--   Utils        src/common/PassUtils.cpp; Utils/Remover is src/remover/FlushRemover.cpp, and
--                Utils/Cleaner is src/cleaner/FunctionCleaner.cpp.
--   Mapping      BugLocationMapper (src/BugReports.cpp): from locations to instructions.
--   PmDesc       PmDesc (src/FlowAnalyzer.cpp): which values point to persistent memory.
--   Raise        BugFixer::raiseFixLocation (src/BugFixer.cpp), which moves a fix to a caller, with
--                the heuristic that picks the caller in Raise/Heuristic.
--   Persisted    BugFixer::handleAssertPersisted: the walk back through the trace from a bug, the sum
--                of the stores on the way, and the fixes at what was found.
--   Redundant    BugFixer::handleRequiredFlush: the redundant flush and the one before it.
--   Repair       BugFixer::computeAndAddFix, fixBug, runFixMapOptimization, patchMemoryPrimitives and
--                doRepair, which calls all of these; the constructor is in Repair/Setup.
--   Aliases      BugFixer::runTraceAA: the functions that keep their bodies for the analysis by trace.
--   Flow         FlowAnalyzer (src/FlowAnalyzer.cpp): whether and where a flush is redundant, on the
--                graph of the blocks between two flushes.
--   Graph        FnContext, ContextBlock and ContextGraph (src/FlowAnalyzer.hpp,
--                src/FlowAnalyzer.cpp): the contexts of calls, the blocks that an event stands in
--                (Graph/Locate), and the graph that Flow walks (Graph/Successors and
--                Graph/Construct). Graph/Rounds counts the rounds, Graph/View is the constructor.
--   Intrinsics   flush_loop (src/intrinsic/persistent_intrinsics.c) and, in Intrinsics/Naive, the
--                persistent versions of memset, memcpy, memmove and strncpy.
--   Generator    src/FixGenerator.cpp: GenericFixGenerator with insertFlush and insertFence, copies of
--                functions and their flushes in Generator/Clone, insertPersistentSubProgram in
--                Generator/SubProgram, removeFlush and PMTestFixGenerator in Generator/Remove. The
--                other files below it have what these keep of a program.
--   Tests        concrete runs, and the theorems at concrete inputs.
--
-- How code is modelled. State is passed on: the fix map goes through the handlers, and a run that
-- ends at an assertion or an exception is `aborted`; the build keeps assertions. Pointers to
-- instructions are numbers and 0 is nullptr. Addresses and lengths wrap at 2 ^ 64, and scores at
-- the same width. Loops over lists are structural. `absorb_all` runs on fuel, the number of the
-- ranges, of which each round takes one out; `clean` runs on fuel, one more than the number of the
-- functions, of which each round but the last removes one; `flush_loop` on the number of the
-- bytes, of which each round passes over 64; `traverse` on a round for each node that waits and
-- for each node and edge of the graph; `explore` and `grow` on two for each function; `construct`
-- on the rounds that Graph/Rounds counts, from the calls that a context has not made yet. The
-- lists stand for hash maps in the order of insertion.
--
-- Parameters: the size of a cache line, `std::hash`, the result of the Andersen analysis, the map
-- of cloned values, whether LLVM takes a function for dead, the users of a function, what LLVM has
-- behind the end of a block, and what yaml-cpp reads. The repair takes the generator of fixes as a
-- record, which Generator/Generic fills, and the path analysis, too. The name that LLVM gives to a
-- new function and the demangling of names are parameters of the generator.
--
-- Not modelled: printing, the summary file, the casts of constants that LLVM folds (the model has
-- an instruction for each cast), the casts of modifyCall and the conditional removal of flushes,
-- the erasure of stack slots for the analysis by reduced allocation, and the scripts.
pub mod Base
pub mod Address
pub mod Location
pub mod Ir
pub mod FixLoc
pub mod Fix
pub mod Trace
pub mod Utils
pub mod Mapping
pub mod PmDesc
pub mod Raise
pub mod Persisted
pub mod Redundant
pub mod Flow
pub mod Graph
pub mod Repair
pub mod Aliases
pub mod Generator
pub mod Intrinsics
mod Tests
