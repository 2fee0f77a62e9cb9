-- ===== src/Lib.antt =====
-- Verification of runite, a single-threaded asynchronous runtime: its synchronization primitives, its
-- mpsc, oneshot, watch and broadcast channels, its completions, tasks, timers and buffered I/O. A file
-- models the code that its first comment names; paths are from the repository's root.
--
-- Parts:
-- Prelude: tests on numbers, lists, and histories (`Reach`).
-- Sync/Waiters: the wait queue that src/sync/{semaphore,mutex,rw_lock,notify}.rs each carry. A future
--   and the queue share a `selected` cell: the heap maps addresses to such cells, and logs the wakes in
--   order. Waiters/Pending, Removal and Enqueue relate the queue to the futures that are alive.
-- Sync/OnceCell: src/sync/once_cell.rs over Notify. The loop of `get_or_init` is cut where it suspends.
-- Sync/Cancellation: src/sync/cancellation.rs, the tree of tokens. `Collect` follows the loop that visits
--   it, whose fuel is the number of links from tokens that are not cancelled: a round takes one token off
--   the stack, or moves the children of one onto it. `Users` keeps which token each was derived from, as
--   the calls of `child_token` say; `Inv` relates that to the children that the tokens hold.
-- Sync/Semaphore, Mutex, RwLock, Notify: the structs, one function per method, poll and drop, with the
--   names of the source. Each has a `System` (the primitive, the futures that wait, the guards that are
--   out) and a step relation: first poll, poll again, dropping a future in any state (cancellation),
--   dropping a guard, and the try methods. A step is what one call does: the runtime runs the tasks of a
--   thread one at a time, and the source keeps no borrow across a call of a waker.
-- Io: `Traits` has the readers and writers that src/io/buf.rs wraps, as interfaces with what src/io/traits.rs
--   documents; `BufReader` and `BufWriter` are its adapters, with every poll that their owners can make.
-- Channel/Mpsc: src/channel/mpsc.rs. `Mpsc` has the state behind the lock with its methods, `Ends` the
--   sections under the lock of `Sender`, `UnboundedSender` and `Receiver`, `Users` the step relation in
--   which those sections interleave in any order, `Fifo` and `Order` the abstract queue.
--   Completions are collected as the source collects them; firing them is the caller's. `unanswered` has
--   the receiver's wait as long as its completion has not been collected.
-- Channel/Oneshot: src/channel/oneshot.rs, in the same way, with the value that the sender handed over
--   and those that the receiver got kept beside the state.
-- Channel/Watch: src/channel/watch.rs. A write and the collecting of its waiters are two sections, and
--   other sections may come between them: `collecting` holds the versions of the writes in between.
--   `waits` has the waits that were registered, until a section returns their handle or their future is
--   dropped; `Waits` relates them to the stored waiters.
-- Channel/Broadcast: src/channel/broadcast.rs. `Log` has the abstract channel, the list of all values sent
--   and what it owes a receiver; `Users` the step relation, with the completions that senders have
--   collected and not fired as part of the state, and the answers that each receiver got. `Ids` has why
--   the cancel callback of a wait finds the waiter of that wait.
-- Channel/Gaps: `swap_remove`, as the last two channels and the tokens use it on their waiters.
-- Op/Completion: src/op/completion.rs, which every channel and driver operation waits on. Each access to a
--   flag or a cell is a step, and a handle on another thread may come in between any two. The channels
--   take their completions as handles and answers; they are not built on this model.
-- Runtime/Tasks: src/platform/runtime_shared/future_task.rs, with `queue_future`, `drain_remote_tasks` and
--   `commit_idle` of scheduler.rs. `Thread` has the queues and the registry of one thread, as
--   far as polls of tasks and wakes of them go through them. `Users` has the step relation: a poll is cut
--   where it begins and ends, other tasks' calls come in between, and another thread's wake is cut
--   between its claim of the marker and its enqueueing. `Kept` is the invariant, task by task.
-- Runtime/Scheduler: the timers of src/platform/runtime_shared/scheduler.rs, from `timeout` and `interval`
--   over `dispatch_expired_timers` to the macrotasks that call them. It takes the timer queue as an
--   interface: `Queue` has its operations and laws, and `Heap` shows them of Runtime/Timer. `Life` has the
--   life of one timer and what the tables hold of it, `Users` the turns of the loop and the calls in
--   between, each with its effect on lives, and the calls of the callbacks with the deadline that the
--   scheduler had set for them; `Stories` relates each step to the steps of a life.
-- Runtime/Timer: src/platform/runtime_shared/timer.rs, the binary heap with its map from ids to places.
--   Order, Up, Down and Index are the lemmas of sifting and of the map, Insert, Remove, Fill, Least and
--   Due those of the operations. Abstractly the heap is the map `find` from ids to nodes.
--
-- Bounds: id counters wrap at 2 ^ 64 in the definitions, and a step that registers a waiter supposes
-- that the counter does not wrap at that step. Loops recurse on the queue that they drain; those of the
-- timer heap take fuel: `sift_up` its index, since a parent's index is smaller, `sift_down` the distance
-- to the end, since a child's is larger, and `pop_due` the length, since each round removes a node. That
-- the heap is in order afterwards shows that this is enough. The loops that wake the waiters of a watch
-- or broadcast channel take the number of waiters, since each round takes one out or passes it.
--
-- Not modelled: the values that locks protect, wakers beyond the fact and the order of their calls,
-- poisoning of the standard library's mutexes, and a sender or receiver callback that runs between the
-- two halves of `try_recv` (its section under the lock and the drop of its pending wait are one step).
-- Of timers: what the destructor of a callback does when the callback is dropped. A time is a
-- `Duration`, at most `max_duration`; the clock goes on only between the calls.
-- Of tasks: panics from destructors and join wakers, which the source catches and logs, and the counters
-- but for `ready_tasks`. The turns of `run` with their records and warnings, the spawning of workers, the
-- drivers and most of the I/O are outside this library.
pub mod Channel
pub mod Io
pub mod Op
pub mod Prelude
pub mod Runtime
pub mod Sync
