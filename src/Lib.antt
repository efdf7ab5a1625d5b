-- ===== src/Lib.antt =====
-- A verification library of exm-turbine, the distributed engine that runs Swift/T programs. Workers
-- take units of work, which are Tcl code, from the ADLB library; work that runs elsewhere goes
-- through executors, which have slots for tasks and give back completed tasks with callbacks.
--
-- The parts and the files that model them:
--   code/src/turbine/async_exec.c: Async. The worker loop (`turbine_async_worker_loop`: Async.Loop)
--   asks ADLB for as much work as the executor has free slots for (`get_tasks`: Async.Get, with the
--   ring of outstanding requests) and runs the callbacks of completed tasks (`check_tasks`,
--   `run_callback`: Async.Check). Async.Registry is the table of executors.
--   code/src/turbine/executors/exec_interface.h and code/src/turbine/async_exec.h: Exec, the types
--   that executors and the loop exchange.
--   code/src/turbine/executors/noop_executor.c: Noop, an executor that completes tasks at random.
--   code/src/turbine/executors/coaster_executor.c: Coaster, the executor that runs tasks through the
--   Coaster service.
--   code/src/turbine/services.c: Service, the process that runs beside a worker loop.
--   code/src/turbine/worker.c: Worker, the loop that evaluates work in place.
--   code/src/turbine/cache.c: Cache, with eviction of the least recently used entry.
--   code/src/tcl/turbine/tcl-turbine.c: Rule, the command `turbine::c::rule`, which hands a task and
--   its inputs to ADLB, with the parsers of code/src/tcl/adlb/tcl-adlb.c that it calls.
--   The same file: Arguments, the commands that start the worker loops, with their keyword arguments,
--   and Jobs, the command `turbine::coaster_run`.
--   code/src/tcl/adlb/tcl-adlb.c and code/src/tcl/adlb/tcl-adlb.h: Handle, the handles and subscripts
--   of data, built (Handle.Build), parsed (Handle.Parse) and extended (Handle.Append).
--   code/src/tcl/adlb/tcl-adlb.c: Packing. Types are read from the words of a command
--   (`get_compound_type`); a Tcl object is packed (`adlb_tclobj_bin_append`: Packing.Append, with single
--   data in Packing.Objects) and read back (`adlb_datum2tclobj`: Packing.Unpack). Packing.Canonical says
--   what comes back without the packed form; Packing.Entries, Elements, Singles and Levels lead to
--   RoundTrip.
--   The same file: Data, the commands on data. Data.Access stores, retrieves, inserts and looks up with
--   handles of Handle and values of Packing, Data.Create creates data from words and Data.Nested at a
--   subscript; Data.Counts, Data.Types and Data.Enumerate are the other commands; Data.StoreRetrieve, Twice, Spin,
--   Ignored and Shapes are about them.
--   The same file: Checkpoint, the values that are packed into a checkpoint and unpacked from one.
--   The same file: Blobs, the cache of retrieved blobs and the commands that free from it.
--   code/src/turbine/turbine-defs.h and code/src/turbine/turbine.c: Codes.
-- Common holds what they share; Externals is ADLB, Tcl and the operating system as a record of
-- functions over a state of their own; Scenario is an instance of it for the modules named Tests.
--
-- State is passed on explicitly. A function that can fail an assertion or read through a bad pointer
-- returns an `Outcome`: `done`, `fault`, or `starved` where the model ran out of fuel or of random
-- numbers. Counts and indices are natural numbers: the slots of an executor are counted, and
-- the -1 for unlimited or unknown slots, which exec_interface.h allows, is left out. A
-- subtraction that the code tests for its sign is written with the test. `memory` of the cache wraps
-- at 2 ^ 64. Signed options of rules are integers.
--
-- Fuel: the two worker loops run until the program is told to shut down, so they take a number of
-- rounds, and every statement holds for all such numbers; Worker.Session gives the number that is
-- enough. The loop of `service_shutdown` has ten rounds, of which it uses at most ten. The loop over
-- requests is by recursion on their number. The search for an active task takes random numbers from
-- a list and ends at the first that stands for the slot of an active task. The loop of the coaster
-- executor over completed jobs has one round more than the caller's array has places, which is enough
-- since each full round fills one.
--
-- `pack_fields` has a round for each word, and a field takes a word at least. `lookup_loop` and
-- `await_value`, which ask ADLB until it answers, take a number of rounds, and what is stated of them
-- is for all such numbers. How deep structs or packed data may lie in one another is a number in
-- `tclobj2datum` and `datum2tclobj`; as much as there are types is enough for what was packed. Structs
-- are in the definitions, and not in the statement on what was packed.
--
-- Parameters, with what the code relies on: ADLB's codes (AdlbContract) and work units
-- (GetContract), executors (ExecutorContract), Tcl's variables (TclVars), the hash tables and the tree
-- of the ExM c-utils library (ContainerLaws, TableLaws) and the Coaster client with its table of tasks
-- (ClientLaws); the client's functions that make a job (JobEnv);
-- the conversions of numbers and the buffers of handles (HandleEnv, HandleLaws); ADLB's packed form and
-- Tcl's lists and dictionaries (PackEnv, PackLaws, BlobLaws);
-- ADLB's functions on data (DataEnv, RetrieveLaws, NestedLaws, RecordLaws, CountsEnv, TypesEnv);
-- the table of blobs and memory (BlobEnv, FreeLaws). Each has an instance in a module of tests.
--
-- Not modelled: debug output and messages, memory that is freed, MPI, the configuration of the
-- coaster executor, input and output, the other Tcl commands (among them those on
-- checkpoint files, and blobs made from lists), and the bindings of other languages.
pub mod Common
pub mod Exec
pub mod Codes
pub mod Externals
pub mod Service
pub mod Noop
pub mod Coaster
pub mod Worker
pub mod Cache
pub mod Async
pub mod Rule
pub mod Arguments
pub mod Jobs
pub mod Blobs
pub mod Checkpoint
pub mod Data
pub mod Handle
pub mod Packing
pub mod Scenario
