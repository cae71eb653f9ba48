-- ===== src/Lib.antt =====
-- The performance tests of NCCL: a verification library for the parts of the program that carry logic of
-- their own on the host.
--
-- The program is a set of benchmarks. `main` and `run` of src/common.cu read the options, start the threads
-- and, for each size, time a collective and check its result. src/util.cu writes what they find, to stdout
-- and, with -J, to a JSON file, and holds a profiler plugin that NCCL loads from the running program to learn
-- which algorithm was used. src/device_api/gin is a second family of benchmarks with its own options and
-- driver.
--
-- Files, and what they model:
--   Prelude        names of the libraries, Boolean tests, lists and integers over the native numbers.
--   Json/Sanitize  `sanitizeJson` of src/util.cu. A string is the list of its bytes without the NUL.
--   Json/State     `json_state_t`, the stack `states` and the file. A writer function takes a `Writer` and
--                  gives an `Option Writer`; a failed assertion is `none`. `realloc_ok` says which sizes
--                  `realloc` grants.
--   Json/Print     what `%d`, `%zu` and `%lf` write. A double is a NaN, an infinity or a count of millionths.
--   Json/Writer    the functions `jsonKey` to `jsonDouble`; `Call` is a call of one of them.
--   Json/Machine   the specification: a machine over a stack of states, with the text that each call gives.
--   Json/Document  the grammar of JSON and the beginnings of a JSON text; Json/Finish and Json/Runs build on it.
--   Report         the JSON half of the reporting functions of src/util.cu: `writeDeviceReport`,
--                  `writeResultHeader`, `writeBenchmarkLineBody` and so on, as lists of calls.
--                  Report/Session has the order in which src/common.cu calls them, and `jsonOutputFinalize`.
--   Profiler       the event objects `group`, `task` and `proxy` of src/util.cu and the handlers of the plugin,
--                  each call one step; Profiler/Counting runs any sequence of calls, one finished before the next,
--                  and Profiler/Overlap mixes the atomic steps of the handlers of task events.
--   Barrier        `Barrier` of src/common.cu: a step is a thread's way in, up to its wait, or its way out.
--   Collectives    the `GetCollByteCount` functions of src/all_gather.cu and the other collectives, and
--                  `setupArgs` of src/common.cu.
--   Run            what `run` of src/common.cu hands out: the limit of the sizes, GPUs, ranks and slices.
--   Reduce         `Allreduce` of src/common.cu: the values in the order in which the threads take the mutex.
--   Alltoallv      src/alltoallv.cu: the patterns, the counts, the calls of `AlltoAllvRunColl` and the expected
--                  data of `AlltoAllvInitData`. Alltoallv/Matrix has the two passes over
--                  the file of a matrix, and Alltoallv/Matrix/Passes what they share.
--   SizeLoop       the loop over the sizes in `TimeTest` of src/common.cu.
--   Stats          `percentileIndex` and `computeIterStats` of src/util.cu; `qsort` is a parameter.
--   Launch         `startColl`, `completeColl` and `AllocateBuffs` of src/common.cu: the memory that a call of a
--                  collective uses, and the calls that a thread makes, a `Step` each.
--   Bench          `BenchTime` of src/common.cu and its events, as the list of the steps of a thread.
--                  Bench/Rounds and Bench/Timeline have what a GPU is given between two events, Bench/Groups what
--                  an open group holds back; Bench/Captures
--                  has the groups and the captures of graphs.
--   CommandLine    the options of src/common.cu: CommandLine/Numbers has `strtol` and `parsesize`,
--                  CommandLine/Names the types and operations by name, and CommandLine/Options the loop of `main`
--                  and the checks behind it. CommandLine/Extension has `getExtension` and
--                  `classifyOutputFile`.
--   Gin/Number     `parse_size` and `parse_int_arg` of src/device_api/gin/utils/args.cc, with `strtoll`.
--   Gin/Options    `args_t` and `parse_args`. What `getopt_long` finds is an argument.
--   Gin/Configure  `gin_test_caps_t`, `configure_op` and `configure_test_args`.
--   Gin/Sweep      `next_size` and `gin_perf_run` of src/device_api/gin/utils/common.cc: the calls of a rank.
--   Hypercube      the exchanges of `HyperCubeRunColl` in src/hypercube.cu, on all the ranks at once. A buffer is
--                  its blocks, and a receive delivers what the partner sends in the same group.
--   Verifiable     verifiable/verifiable.cu, the data of the tests and their verification. Verifiable/Words has
--                  `mixBits`, `hashOf` and the like; Verifiable/Shuffle `shuffleRank`; Verifiable/SumXy
--                  `genSumXY`; Verifiable/Floats `makeFloat`, `genInOutFloatSum` and, in Floats/Scaled,
--                  `genInOutFloatPreMulSum`, in Floats/Product `genInOutFloatProd`, in Floats/Extremes the
--                  inputs of a copy, a minimum and a maximum, on bits; Verifiable/Integers `genInput` and `genOutput` of integers;
--                  Verifiable/Kernels how blocks and threads share the elements; Verifiable/Results
--                  `ncclVerifiablePrepareInput` and `ncclVerifiableVerify` of integers.
--
-- Bounds: a `size_t` wraps at 2^64, an `int` is cut to 32 bits, and an `atomic<int>` counter wraps at
-- 2^32. `decimal_from` has fuel, `n + 1` for a number `n`, since each round divides by ten. `sweep` has
-- fuel, `maxbytes + 1`, since each round of the loop makes the size grow, and `size_loop` has `maxbytes
-- + 2`, the tests of its condition, where the step grows. `bit_length` has the width of its word,
-- `gather` one more than the bits of a rank, since each round takes one, and
-- `rounds` the number of elements, since a thread takes each once at most. The passes over a matrix have the length of
-- its text and one more, since each round takes a character or more. `finish_all_on` follows the stack,
-- which each round makes shorter.
--
-- Not modelled: the kernels and the calls of CUDA, NCCL and MPI, whose sources are elsewhere; the text
-- on stdout; floating-point arithmetic; the interleaving of the reduction over threads, the gathering of
-- times, the split by color and the collection of results of src/common.cu; the run functions of the
-- collectives but those of src/alltoallv.cu and src/hypercube.cu; src/comm_ops.cu; the floating point average and
-- the output of a floating point minimum or maximum in verifiable/verifiable.cu, and its self test; os; tools.
pub mod Prelude
pub mod Json
pub mod Profiler
pub mod Report
pub mod Stats
pub mod Hypercube
pub mod Verifiable
pub mod CommandLine
pub mod Barrier
pub mod SizeLoop
pub mod Launch
pub mod Bench
pub mod Run
pub mod Reduce
pub mod Alltoallv
pub mod Collectives
pub mod Gin
