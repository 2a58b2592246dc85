-- ===== src/Lib.antt =====
-- The scalable thread management library (include/sthread.h, src/*.c).
--
-- The library has five layers, and a file or folder here for each:
--   platform       src/platform.h    clocks, processor count, mappings with a guard page
--   memory         src/memory.c      thread stacks, pools of equal objects
--   sync           src/sync.c        mutexes, condition variables, semaphores over pthread
--   task queue     src/scheduler.c   a bounded FIFO of tasks, used by all threads of a pool
--   thread pool    src/thread_pool.c workers that pop and run tasks, submit, wait, destroy
-- and src/sthread.c passes them on as the public functions, which examples/*.c and benchmarks/*.c use.
--
-- Base       numbers, tests, threads by number, addresses and `align_up`, the C `int`
-- Platform   each function of src/platform.h, the system's answers being arguments; Time: deadlines
-- Memory     Stack and StackLaws: `stack_alloc_*`; Pool, PoolState, FreeList, PoolCreate and
--            PoolDestroy: `memory_pool_*` over the blocks of `malloc` and the links written into them;
--            Unordered: the pool without the order of its objects; Clients and Exclusive: threads that
--            share a pool of objects
-- Sync       Errors: the codes and `map_pthread_error`; Primitives and PrimitiveLaws: `sync_mutex_*`
--            and `sync_cond_*`; Semaphore: `sync_sem_*`; Counting and CountingLaws: a semaphore with
--            `n` threads at once
-- Scheduler  Store: task nodes in a heap, `task_queue_t`, the signals that were sent; Queue: each
--            function `task_queue_*` under its name; Chain: the nodes as a list; Fifo: what the queue
--            promises; Append, Push, Pop, Lifecycle: the functions against it; Monitor: `n` threads in push and
--            pop at once, with its invariant and its wake-ups
-- ThreadPool System: the threads of a pool, step by step, on the specification of the queue; Lifecycle,
--            Counts, CountSteps, Waits, WaitSteps: its invariants; Safety, Progress, Settling, WaitReturns,
--            EarlyReturn, Once: what follows, Once for several calls of `thread_pool_destroy`; Runs: a small run;
--            World, Release, Create, CreateDestroy, Submit: `thread_pool_create`, `_destroy` and `_submit` on the
--            queue in memory with every resource of a pool; Shown, SubmitSteps, CallSteps, WokenSteps: submits,
--            pops and waits there, also those that sleep and are woken, as steps of the threads of System
-- Sthread    Objects and Primitives: `sthread_mutex_*`, `sthread_cond_*`, `sthread_sem_*`; Threads:
--            `sthread_create`, `_join`, `_detach`, `_self`, `_strerror`; Pools: `sthread_pool_*`; and
--            ObjectLaws, DestroyLaws, SemLaws, ThreadLaws, PoolLaws
-- Demos      the programs of examples/ and benchmarks/ on top: Partition, Sum, Tally, Waiting, Greeting,
--            Performance: tasks of a pool that add to an atomic counter, with ThreadPool below them; Counter,
--            Section: threads under one mutex; Exchange: a producer and a consumer over two semaphores of Sync,
--            for the buffers of Ring and Pile; Matrix: the product of matrices by interleaved tasks; Visual: the
--            display of a pool; Menu; Benchmark: a pool against a thread for each task. Console: what the
--            main thread of a program prints and calls, Held what it holds by that; Visual.Screen, Script,
--            Timed and Program, Hello, Matrix.Program: the demos and `main` of the three examples in that
--            form; Visual.Clean, Matrix.Memory: what they leave; Visual.Refresh: the lines they print
-- Examples files hold runs and calls at concrete inputs.
--
-- How the code is read. A pointer is a number and NULL is 0. `size_t` wraps around at 2 ^ 64 and
-- `unsigned int` at 2 ^ 32. `none` of a command is a fault: a read, write or `free` through a bad
-- pointer. What the C library, pthread and the kernel answer is an argument. The code between taking
-- and releasing a lock is one piece; a call that reaches `pthread_cond_wait` ends its piece there, and
-- goes on with `push_loop`, `pop_loop` or `wait_loop` when it is woken, at any time. In the step systems
-- a piece is one step, and so is each access to an atomic field.
--
-- Bounds and fuel. The loop of `task_queue_destroy` has `count + 1` rounds, one more than there are
-- nodes. The other loops are structural. Counters are taken to stay below 2 ^ 64 where a theorem says so.
-- Page sizes are powers of two up to 4 MiB.
--
-- In Demos a task, or a thread, may stop between any two accesses to shared memory; as many tasks may run
-- at once as there are, which covers any number of workers. A `double` is a type with the
-- operations that a program uses. An `int` has 32 bits.
--
-- Not modelled: the tests, what the tasks of the examples print, the time that anything takes, the
-- printed tables of benchmarks/bench_throughput.c, `sthread_yield`, `platform_memory_barrier`,
-- `platform_cleanup` (no effect here), the frees of `thread_pool_destroy` behind TERMINATED in System,
-- which end the life of the pool, and calls after them (World has the frees), joins in World while
-- tasks are queued (System has them), the blocks of the tasks of demo 1 of examples/visual_demo.c,
-- which the tasks free themselves, reads outside a matrix in examples/matrix_multiply.c (a write there
-- is recorded), the scheduling and memory order of the machine (atomic accesses are sequentially
-- consistent, as in the C standard's default), and in System the sleep within a push or a pop (each is
-- one step, taken when it does not have to wait; until then the thread stands before it, and Monitor
-- has the sleep).
--
-- The order of the two loads in the test of `thread_pool_wait` is unspecified in C. System has both: a
-- client at `comparing` has loaded `completed_tasks` first, one at `bounding` `submitted_tasks`.
pub mod Base
pub mod Platform
pub mod Memory
pub mod Sync
pub mod Scheduler
pub mod ThreadPool
pub mod Sthread
pub mod Demos
