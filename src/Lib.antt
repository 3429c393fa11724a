-- ===== src/Lib.antt =====
-- spork: heartbeat scheduling of fork-join and loop parallelism over parlay's work-stealing
-- scheduler. A spork runs its body with a promotion callback in reserve; heartbeats (timer signals)
-- give the thread tokens, and a token turns the outermost spork that is not yet promoted into jobs
-- that other workers may steal.
--
-- The files, from the bottom up:
--
-- Base and its children hold tests, lists and 32-bit words.
--
-- Slots models the spork deque of one thread (scheduler.hpp, SporkSlot and heartbeat_handler): slots
-- in memory that are linked by pointers to their next fields, as the constructor, close, promote,
-- promote_front and eager_promote read and write them. Reading a null or dangling pointer is a fault
-- of the model. Slots/Chain says which list the pointers represent, Slots/Walk and Slots/Ops what each
-- operation does to that list. The loop of promote_front takes fuel; the number of slots is enough.
--
-- Worker models WorkStealingJob (enqueue, try_dequeue, fast_clone, sync, sync_is_stolen, wait, the call
-- operator) over an interface JobQueue to parlay's deque of jobs, which is not in the repository.
-- Worker/Stack has the steps of one worker as a whole: with_prom_handler opening and closing sporks, the
-- joins behind it, heartbeats between any two steps, thefts by other workers, and jobs of others run
-- while waiting. The eager promotion is one step, since it disables heartbeats while it runs.
--
-- Parfor models parfor.hpp: seqfor, the promotion lambda of parfor_ at 32-bit unsigned indices, the loop
-- at the grain of its volatile accesses (Parfor/Loop) with the promotion at any point, whole runs with
-- the jobs that promotions make (Parfor/Runs), the overloads of parfor at size_t (Parfor/Dispatch), and
-- ranges whose end lies before their beginning (Parfor/Reversed).
-- A step of the loop runs up to as many rounds as the unroll factor that the promotion lambda is told,
-- which is what fablepass makes of the loop; the factor is any number from 1 up.
--
-- Fork models spork.hpp and par.hpp: what becomes of a spork, and programs made of par as the sequences
-- of their accesses to the state (Fork/Races); and fibE and fibSeq of fib.hpp (Fork/Fib).
--
-- Queens models safe and countSol of nqueens.cpp. countSol takes as fuel the number of columns left,
-- which is how deep it recurses.
--
-- Unroll models parts of fablepass/SporkUnrollPass.cpp: chains of integer casts (CastChain), the guard
-- of a batch (createBatchGuard) on bits of 32 and 64, matchLoopProtocol (Unroll/Recognise) on a record
-- of what LLVM's analyses say of a loop, findMarkedLoops (Unroll/Marked) with fuel for its work list,
-- for which the number of blocks and two is enough (its end is told from `return false`), the loop of
-- formBatchedLoop (Unroll/Batched) for a 32-bit unsigned index, and the driver (Unroll/Sites), to
-- which the verdicts of LLVM's analyses and of the matchers on each loop are given. The steps of
-- Parfor/Loop are the protocol that the batched loop is held against.
--
-- Unroll/Probe has the loop of the function that buildProbe makes, with fuel for its rounds, what goes
-- into it and comes out of it (Probe/Passed), and measureProbe on what scalar evolution says of its
-- loops. Unroll/Transplant has the loops that transplantProbe puts in the place of the marked one, at
-- 32-bit unsigned indices with no casts and with the body of each loop given; matchStepLoop
-- (Transplant/Match), SinkPlan on the uses of a limit, with the depth of its calls as fuel, for which
-- the number of pure users is enough (Transplant/Sink), the check that no loop depends on the
-- snapshot, with fuel for the number of instructions and two (Transplant/Snapshot), and the exit
-- values of a loop that is passed over (Transplant/Skipped). What LLVM makes of the probe is given as
-- the steps of its loops.
--
-- Gem models gempass/SporkUnrollPass.cpp, the pass that unrolls by LLVM's own count: findMarkedLoop
-- (Gem/Marker), findProgressStore and what it calls (Gem/Progress), where collectDependentLoads takes as
-- fuel one for each value and each operand, computeNativeUnrollDecision (Gem/Decide), createBatchGuard
-- (Gem/Guard), the validation of formBatchedLoopWithCleanup (Gem/Form), the loop that it forms for a
-- 32-bit unsigned index (Gem/Batched), and the driver (Gem/Driver). What LLVM's analyses, its
-- computeUnrollCount and its UnrollLoop say is given in records.
--
-- Frame models pass/RtsSporkPass.cpp: resolving arguments to allocas and numbering the sites
-- (Frame/Resolve), patching the table of frame offsets (Frame/Patch), and the machine pass from the
-- metadata of a function to the table (Frame/Machine).
--
-- Scan models scan.hpp at 32-bit unsigned indices as a function of a schedule, which says where each
-- promotion falls and what is stolen; arrays are lists, and the parts that the code scans are cut out of
-- them. The size of chunks, a square root, is a parameter, and so is what is
-- read of the partial sums once scan_downsweep has freed them. Scan/Sums, Scan/Loop and Scan/Chunks carry
-- the proof in Scan/Correct.
--
-- Checks holds runs on concrete inputs.
--
-- Not modelled: timers and signal delivery beyond the fact that a heartbeat may fall between any two
-- steps, errno, memory orderings between threads, benchmarks and input or output, the earlier
-- schedulers under old, and the rest of the LLVM passes: the pipeline that optimizes the probe, and
-- the clones behind an exit (replaceOrSinkPastExit) of fablepass, metadata and the registration of the
-- passes.
pub mod Base
pub mod Slots
pub mod Worker
pub mod Parfor
pub mod Fork
pub mod Queens
pub mod Unroll
pub mod Frame
pub mod Scan
pub mod Gem
mod Checks
