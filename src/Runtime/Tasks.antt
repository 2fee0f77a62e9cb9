-- ===== src/Runtime/Tasks.antt =====
-- Spawned tasks: src/platform/runtime_shared/future_task.rs, with `queue_future` and `commit_idle` of
-- scheduler.rs. A task's cells are one record, found by its id; ids are never used twice.
pub mod Users
mod Inv
mod Steps
mod Touched
mod Idle
mod Kept
mod Wakeups
mod Ended
pub mod Safety
pub mod Outcome
mod Tests
use runite.Prelude.{
  ℕ, zero, suc, ◌+◌, ◌-◌, List, [], ◌∷◌, ◌++◌, Option, none, some, Bool, true, false, not, ◌&&◌,
  ◌||◌, if◌then◌else◌, ◌==◌, ltb, is_empty, update,
}

-- `enum TaskState`.
pub data TaskState : Type 0 where
  running finished aborted cancelled panicked : TaskState

pub data JoinError : Type 0 where
  join_aborted join_cancelled join_panicked : JoinError

abbrev pub is_running : TaskState → Bool
is_running running = true
is_running finished = false
is_running aborted = false
is_running cancelled = false
is_running panicked = false

abbrev pub is_finished : TaskState → Bool
is_finished running = false
is_finished finished = true
is_finished aborted = false
is_finished cancelled = false
is_finished panicked = false

abbrev pub is_aborted : TaskState → Bool
is_aborted running = false
is_aborted finished = false
is_aborted aborted = true
is_aborted cancelled = false
is_aborted panicked = false

module _ (A : Type 0) where
  -- `FutureTask`, `TaskWaker`, `TaskShared` and `JoinState` of one task. `future` tells whether the cell
  -- holds the future, `registered` whether `ThreadState::tasks` holds the task.
  pub record Task : Type 0 where
    pub registered : Bool
    pub future : Bool
    pub queued : Bool
    pub scheduled : Bool
    pub state : TaskState
    pub result : Option A
    pub join_waker : Option ℕ

  -- The part of a thread that tasks use. `microtasks` holds the ids of the queued polls, `macrotasks` and
  -- `remote` those of the wakes that other threads sent, and `posting` the wakes that another thread has
  -- claimed and not yet sent. `polling` is the task whose poll is on the stack. `woken` and `dropped` log
  -- the join wakers that were called and the futures that were dropped.
  pub record Thread : Type 0 where
    pub task : ℕ → Task
    pub next_task_id : ℕ
    pub microtasks : List ℕ
    pub macrotasks : List ℕ
    pub remote : List ℕ
    pub posting : List ℕ
    pub polling : Option ℕ
    pub ready_tasks : ℕ
    pub closed : Bool
    pub woken : List ℕ
    pub dropped : List ℕ

  -- What a poll of the wrapped future does, its value handed to `JoinState::complete`.
  pub data Polled : Type 0 where
    ready : A → Polled
    pending panics : Polled

  pub data Joined : Type 0 where
    waits : Joined
    value : A → Joined
    fails : JoinError → Joined
    -- `expect("join handle polled after completion")`.
    panic : Joined

pub data IdleCommit : Type 0 where
  retry main_idle worker_closed : IdleCommit
  cancel_tasks : List ℕ → IdleCommit

abbrev pub wake_join : Option ℕ → List ℕ → List ℕ
wake_join none woken = woken
wake_join (some w) woken = woken ++ w ∷ []

module _ {A : Type 0} where
  abbrev pub blank : Task A
  blank = record {
    registered = false;
    future = false;
    queued = false;
    scheduled = false;
    state = running;
    result = none;
    join_waker = none;
  }

  unfoldable pub set_task : ℕ → Task A → Thread A → Thread A
  set_task a t s = record s { task = update s.task a t }

  -- `FutureTask::schedule`.
  unfoldable pub schedule : ℕ → Thread A → Thread A
  unfolding set_task
  schedule a s =
      if (s.task a).queued then s else record (set_task a (record (s.task a) { queued = true }) s) {
        ready_tasks = suc s.ready_tasks;
        microtasks = s.microtasks ++ a ∷ [];
      }

  unfoldable pub schedule_task_by_id : ℕ → Thread A → Thread A
  unfolding schedule
  schedule_task_by_id a s = if (s.task a).registered then schedule a s else s

  -- `TaskWaker::wake` on the owner's thread; its `swap` and its `store` are one step.
  unfoldable pub wake_local : ℕ → Thread A → Thread A
  unfolding schedule_task_by_id
  wake_local a s = if (s.task a).scheduled then s else schedule_task_by_id a s

  -- `TaskWaker::wake` on another thread: the `swap`, and then `queue_internal_wake`.
  unfoldable pub wake_remote : ℕ → Thread A → Thread A
  unfolding set_task
  wake_remote a s =
      if (s.task a).scheduled
      then s
      else record (set_task a (record (s.task a) { scheduled = true }) s) {
        posting = a ∷ s.posting;
      }

  unfoldable pub clear_scheduled : ℕ → Thread A → Thread A
  unfolding set_task
  clear_scheduled a s = set_task a (record (s.task a) { scheduled = false }) s

  unfoldable pub queue_internal_wake : ℕ → Thread A → Thread A
  unfolding clear_scheduled
  queue_internal_wake a s =
      if s.closed then clear_scheduled a s else record s { remote = s.remote ++ a ∷ [] }

  -- The closure of a remote wake.
  unfoldable pub run_wake : ℕ → Thread A → Thread A
  unfolding clear_scheduled schedule_task_by_id
  run_wake a s = schedule_task_by_id a (clear_scheduled a s)

  unfoldable pub drain_remote_tasks : Thread A → Thread A
  drain_remote_tasks s = record s { macrotasks = s.macrotasks ++ s.remote; remote = [] }

  -- `queue_future`.
  unfoldable pub queue_future : Thread A → Thread A
  unfolding set_task schedule
  queue_future s =
      let id = s.next_task_id in
      let t : Task A = record blank { registered = true; future = true } in
      schedule id (record (set_task id t s) { next_task_id = suc id })

  -- The start of `FutureTask::poll`, for the first of the queued polls.
  unfoldable pub begin_poll : ℕ → List ℕ → Thread A → Thread A
  unfolding set_task
  begin_poll a rest s =
      record (set_task a (record (s.task a) { queued = false; future = false }) s) {
        microtasks = rest;
        ready_tasks = s.ready_tasks - 1;
        polling = if (s.task a).future then some a else none;
      }

  -- `mark_terminal`, and the call of the join waker.
  unfoldable pub mark_terminal : TaskState → ℕ → Thread A → Thread A
  unfolding set_task
  mark_terminal terminal a s =
      if is_running (s.task a).state
      then record (set_task a (record (s.task a) { state = terminal; join_waker = none }) s) {
        woken = wake_join (s.task a).join_waker s.woken;
      }
      else s

  -- `JoinState::complete`.
  unfoldable pub complete : A → ℕ → Thread A → Thread A
  unfolding set_task
  complete v a s =
      if is_running (s.task a).state
      then record (set_task a
          (record (s.task a) { state = finished; result = some v; join_waker = none }) s) {
            woken = wake_join (s.task a).join_waker s.woken;
          }
      else s

  -- `deregister_task`, and the drop of the future that was polled.
  unfoldable pub retire : ℕ → Thread A → Thread A
  unfolding set_task
  retire a s = record (set_task a (record (s.task a) { registered = false }) s) {
    polling = none;
    dropped = a ∷ s.dropped;
  }

  -- The rest of `FutureTask::poll`.
  unfoldable pub end_poll : Polled A → ℕ → Thread A → Thread A
  unfolding retire complete mark_terminal set_task
  end_poll (ready v) a s = retire a (complete v a s)
  end_poll pending a s =
      if is_aborted (s.task a).state
      then record s { polling = none; dropped = a ∷ s.dropped }
      else record (set_task a (record (s.task a) { future = true }) s) { polling = none }
  end_poll panics a s = retire a (mark_terminal panicked a s)

  -- What `abort` and the cancellation do with a future that is not being polled.
  unfoldable pub take_future : ℕ → Thread A → Thread A
  unfolding set_task
  take_future a s =
      record (set_task a (record (s.task a) { future = false; registered = false }) s) {
        dropped = if (s.task a).future then a ∷ s.dropped else s.dropped;
      }

  -- `TaskShared::abort`.
  unfoldable pub abort : ℕ → Thread A → Thread A
  unfolding mark_terminal take_future
  abort a s = if is_running (s.task a).state then take_future a (mark_terminal aborted a s) else s

  -- `ready_tasks` falls if a poll of the task was queued.
  unfoldable pub unqueue : ℕ → Thread A → Thread A
  unfolding set_task
  unqueue a s =
      if (s.task a).queued
      then record (set_task a (record (s.task a) { queued = false }) s) {
        ready_tasks = s.ready_tasks - 1;
      }
      else s

  -- One task of `cancel_tasks_for_shutdown`.
  unfoldable pub cancel_task : ℕ → Thread A → Thread A
  unfolding mark_terminal take_future unqueue
  cancel_task a s =
      if is_running (s.task a).state
      then take_future a (unqueue a (mark_terminal cancelled a s))
      else s

  -- `cancel_tasks_for_shutdown`, with the ids in order. It calls all join wakers before it drops the first
  -- future; the two logs are apart.
  unfoldable pub cancel_all : List ℕ → Thread A → Thread A
  unfolding cancel_task
  cancel_all [] s = s
  cancel_all (a ∷ ids) s = cancel_all ids (cancel_task a s)

  -- The keys of the registry below `n`, in order.
  unfoldable pub registered_ids : ℕ → Thread A → List ℕ
  registered_ids zero s = []
  registered_ids (suc n) s =
      let below = registered_ids n s in if (s.task n).registered then below ++ n ∷ [] else below

  unfoldable pub take_registry : Thread A → Thread A
  take_registry s = record s { task = λ a. record (s.task a) { registered = false } }

  -- `commit_idle`; `live` is `has_live_async_operations`, and `worker` tells a worker's thread.
  unfoldable pub commit_idle : Bool → Bool → Thread A → Thread A × IdleCommit
  unfolding registered_ids take_registry
  commit_idle live worker s =
      if not (is_empty s.remote) || live
      then (s, retry)
      else if not (is_empty (registered_ids s.next_task_id s))
      then (take_registry s, cancel_tasks (registered_ids s.next_task_id s))
      else if worker
      then (record s { closed = true }, worker_closed)
      else (s, main_idle)

  -- What `run` does with the answer.
  abbrev committed : Thread A × IdleCommit → Thread A
  unfolding cancel_all
  committed (s, retry) = s
  committed (s, main_idle) = s
  committed (s, worker_closed) = s
  committed (s, cancel_tasks ids) = cancel_all ids s

  unfoldable pub go_idle : Bool → Bool → Thread A → Thread A
  unfolding commit_idle cancel_all
  go_idle live worker s = committed (commit_idle live worker s)

  abbrev taken_value : Option A → Joined A
  taken_value none = panic
  taken_value (some v) = value v

  unfoldable pub answer_join : TaskState → ℕ → ℕ → Thread A → Thread A × Joined A
  unfolding set_task
  answer_join running waker a s =
      (set_task a (record (s.task a) { join_waker = some waker }) s, waits)
  answer_join finished waker a s =
      (set_task a (record (s.task a) { result = none }) s, taken_value (s.task a).result)
  answer_join aborted waker a s = (s, fails join_aborted)
  answer_join cancelled waker a s = (s, fails join_cancelled)
  answer_join panicked waker a s = (s, fails join_panicked)

  -- `JoinState::poll`.
  unfoldable pub poll_join : ℕ → ℕ → Thread A → Thread A × Joined A
  unfolding answer_join
  poll_join waker a s = answer_join (s.task a).state waker a s
