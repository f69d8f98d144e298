-- ===== src/Lib.antt =====
-- Verification library of the concurrency library: intrusive containers, lock-free containers,
-- executors, futures, fibers and channels.
--
-- The program and how its parts interact. Routines are intrusive nodes that know how to run. An
-- executor takes routines and runs them later: the manual executor when it is told to, a strand one
-- at a time on top of another executor, a thread pool on its workers. The executors keep their
-- routines in the intrusive containers, and each worker of a thread pool also in a ring queue that
-- the other workers rob. Futures, fibers and channels submit their callbacks to executors.
--
-- Which file models what:
--   * Common: shared names, lists, Boolean tests, 64-bit words and sums over threads.
--   * Intrusive/Memory: intrusive/structures/*_node.hpp. The links of all nodes by address, and
--     commands that read and write them; a command through the null pointer is a fault (`none`).
--   * Intrusive/Queue, Intrusive/Stack, Intrusive/BidirectionalList: intrusive/structures/queue.hpp,
--     stack.hpp and list.hpp, method by method. `Holds` says which nodes a container holds; the
--     proofs are in Queue/Fifo, Stack/Lifo, BidirectionalList/Ends, Middle and PushBack.
--   * LockFree/RingQueue: lockfree/ring_queue.hpp, `TryPush`, `TryPop` and `Grab` as one thread runs
--     them; they refine LockFree/Bounded in RingQueue/Contents. RingQueue/Threads is a step relation
--     of one producer with any number of consumers, one atomic operation a step.
--   * LockFree/CountedPtr: `CountedPtr` of lockfree/stack.hpp, a pointer and a counter in one word.
--   * LockFree/Stack: lockfree/stack.hpp as a step relation of `n` threads, with the memory that is
--     in use. Stack/Invariant says what the counters of a node mean; Stack/Turn and Stack/Crew say
--     what a step of one thread at one node leaves alone, and Pushing, Viewing, Counting and Leaving
--     go through the steps. Stack/Destroy is the destructor.
--   * Executors/ManualExecutor: executors/manual_executor.hpp, on Intrusive/Queue.
--   * Executors/Strand: executors/strand.hpp as a step relation of `n` threads, one atomic operation a
--     step; the invariant is in Strand/Invariant.
--   * Executors/ThreadPool: executors/thread_pool/with_waitidle. The pushes stand in ThreadPool,
--     the takes in ThreadPool/Take, the workers in ThreadPool/Worker, the destructor in
--     ThreadPool/Destroy. `Moves` of ThreadPool/Conserves is the contract of all of them: which
--     routines leave the queues and which come. ThreadPool/WithoutWaitIdle is
--     executors/thread_pool/without_waitidle.
--   * Futures/Result: futures/result.hpp, futures/callbacks and the task of futures/api/execute.hpp.
--   * Futures/Contract: futures/future_value.hpp, promise.hpp, future.hpp and api/future.hpp as a step
--     relation of the owner of the promise and the owner of the future; Contract/Invariant has the
--     invariant, Contract/PromiseSide and FutureSide show that each owner keeps it.
--   * Futures/Pipeline: futures/future.hpp and promise.hpp, chains of `Then` and `Recover`.
--   * Futures/All, Futures/FirstOf: futures/api/all.hpp and first_of.hpp, as step relations of the
--     callbacks that they subscribe.
--   * Detail/SpinLock: detail/spinlock.hpp as a step relation of any number of threads.
--   * Detail/WaitGroup: detail/waitgroup.hpp, as a count.
--   * Fibers/Life: fibers/fiber.hpp and fiber.cpp, when a fiber is deleted.
--   * Fibers/WaitGroup: fibers/sync/waitgroup.hpp and the `WaitGroupAwaiter` of fibers/awaiters.hpp as
--     a step relation of `n` fibers; WaitGroup/Loop is `CreateQueueFromStack` and `ResumeAwaiters`
--     over the links of the awaiters.
--   * Fibers/Mutex: fibers/sync/mutex.hpp and the `MutexAwaiter` of fibers/awaiters.hpp as a step
--     relation of `n` fibers; Mutex/Kept shows that every step keeps Mutex/Invariant.
--   * Fibers/ConditionVariable: fibers/sync/condition_variable.hpp as a step relation of `n` fibers;
--     ConditionVariable/Kept has the invariant, ConditionVariable/NotifyAll the loop of `NotifyAll`.
--   * Channels/Channel: channels/channel.hpp and its awaiters, on Intrusive/Queue and
--     Intrusive/BidirectionalList. Channel/Fifo and Channel/Taking show that it is a bounded queue
--     while no consumer waits; Channel/Consumers is about consumers that wait.
--   * Channels/Select: channels/select.hpp, the random permutation and `TrySelect`.
--
-- Bounds and fuel. Sizes and counters are 64-bit words with their wrap-around; where a theorem needs
-- that none wraps, it says so. `PushRoutineInTheLocalQueue` loops until its push succeeds: the model
-- has two tries, which is enough, since a failed one moves half of the full queue away. `WaitIdle` of
-- the manual executor runs on fuel; enough of it is the weight of the waiting routines. The loop of
-- `NotifyAll` has fuel too; more than its awaiters is enough. The
-- destructor of the lock-free stack has the number of its nodes as fuel. The 16-bit counters of
-- the lock-free stack may wrap, and a flag of the model tells that one did.
--
-- Not modelled. Memory orders: the steps are sequentially consistent. Blocking waits and their
-- wake-ups, and the start and the end of threads. Callbacks of client code are parameters. The
-- methods of the thread pool run undisturbed. The spinlock that guards the fiber mutex and the
-- condition variable is a lock that one fiber holds, and an operation of a channel, which runs
-- under it, is one step. What a fiber does after its guard was released twice, and a callback of
-- `FirstOf` after it has read a deleted record, is left out; that it comes to this is a step.
-- Outside the library are the API of the fibers, `Select` where it waits, and the lock-free queue;
-- the coroutines wrap a context library.
pub mod Channels
pub mod Common
pub mod Intrusive
pub mod Executors
pub mod LockFree
pub mod Futures
pub mod Fibers
pub mod Detail
