-- ===== src/Lib.antt =====
-- A model of glommio, a thread-per-core runtime for Rust, with proofs.
--
-- An executor runs its tasks on one thread and switches between them only at an await, so between
-- two awaits a call has its data to itself. The model takes an asynchronous operation apart at its
-- awaits: a call up to the await, each poll of the waiting future, and the drop of the future are
-- functions of their own on an explicit state, and a run is any sequence of them (the `Step` and
-- `Reach` types). Wakers are numbers, and a call returns the wakers that it calls. `Option` is a
-- panic (`none`) or the result; the errors of glommio are values of `Result`. Waiter nodes, which
-- the code pins and links into intrusive lists, are cells of a store found by their number; a list
-- holds numbers, and `is_linked` is membership. Unsigned integers are natural numbers with the
-- wrap-around of a release build written out.
--
-- The parts, and the code that they are about:
--   FreeList      glommio/src/free_list.rs: the slab of the executor's queues and sources (`alloc`,
--                 `dealloc`, `index`), against a partial map.
--   Errors        glommio/src/error.rs: the variants that the modelled calls return.
--   Semaphore     glommio/src/sync/semaphore.rs: `SemaphoreState`, `Waiter` and the permits.
--   RwLock        glommio/src/sync/rwlock.rs: `State`, `Waiter`, the guards and `wake_up_fibers`.
--   LocalChannel  glommio/src/channels/local_channel.rs: `State` and `Waiter`; LocalChannel/Ends has
--                 the sender, the receiver, the stream and the drops.
--   Gate          glommio/src/sync/gate.rs: `GateInner` and `Pass`. A closer waits on a local
--                 channel, so this part calls those of LocalChannel.
--   SpscQueue     glommio/src/channels/spsc_queue.rs: the ring under the channels between executors.
--   Task          glommio/src/task (state.rs, header.rs, raw.rs, task_impl.rs, join_handle.rs): the
--                 header and the union of one task; Task/Calls has the wakers, `run` and the handle.
--                 Task/Machine is what they do, as a machine of phases; Task/World has the calls that
--                 a task can get, and Task/Reached their sequences.
--   Registry      glommio/src/task/registry.rs: the intrusive list of the tasks of an executor, with its
--                 pointers as they are written. A task of Task has a flag for it.
--   Executor      glommio/src/executor/mod.rs and context.rs: `TaskQueue`, `ExecutorQueues`, the turns
--                 of `run_one_task_queue` and the cleanups that nest in them (`with_cleanup`).
--   IoScheduler   glommio/src/io/sched.rs: the reads of a file that are under way and their reuse.
--   Latch         glommio/src/executor/latch.rs: the barrier at which the executors of a pool start.
--   Shares        glommio/src/shares.rs: the weight of a task queue.
--   Base          Shared names, Boolean tests, lists, queues of distinct numbers, stores, remainders
--                 and masks.
-- Below a part, modules are named for what they prove: an invariant (Invariant, Valid, Chain, Ring),
-- the calls that keep it, the runs, and Tests with instances at concrete inputs.
--
-- Bounds and fuel. Counters are modulo 2 ^ 64 (usize, u64) or 2 ^ 32 (u32 of the lock). Loops over a
-- list are recursion on the list. `next_power_of_two` tries the 64 powers that fit into a usize. The
-- size of a slot of the ring is an argument, and an allocation of more bytes than a `Vec` may have
-- panics. The drop of the ring has fuel, and more fuel than items is proved to be enough.
--
-- Left out: the memory orderings between the two threads of the ring and between the threads of the
-- latch (a run is a sequence of atomic steps); the pointer code of the intrusive lists of the
-- primitives, which belongs to a library; the calls of the task registry on its tasks; the messages of
-- errors; io_uring, files and sockets, which are system calls; the loop of the executor around its task
-- queues, which is not entered from a cleanup; the I/O requirements of the queues; the timers and the
-- shared channel. A call on a task is one atomic step also on a foreign thread, its schedule closure
-- puts the runnable in a queue or drops it, and the destructors of futures make no calls on their own
-- task. An allocation that the system refuses aborts the process and is no step of the model.
pub mod Base
pub mod Errors
pub mod FreeList
pub mod Semaphore
pub mod RwLock
pub mod SpscQueue
pub mod LocalChannel
pub mod Gate
pub mod Latch
pub mod Shares
pub mod IoScheduler
pub mod Task
pub mod Executor
pub mod Registry
