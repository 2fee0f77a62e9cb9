-- ===== src/Runtime/Scheduler.antt =====
-- The timers of src/platform/runtime_shared/scheduler.rs: timeouts, intervals, their cancellation, and
-- their way from the timer queue over the macrotask queue to their callbacks. A `Duration` is its
-- number of nanoseconds, a callback a number.
pub mod Queue
mod Heap
pub mod Life
mod Tables
mod Moves
mod Sets
mod Clears
mod Lives
mod Turns
mod Ends
mod Timely
mod Ready
mod Inv
mod Steps
pub mod Stories
mod Silence
mod Spacing
pub mod Users
pub mod Safety
mod Tests
use runite.Prelude.{
  ℕ, suc, ◌+◌, ◌-◌, ◌*◌, ◌^◌, List, [], ◌∷◌, ◌++◌, Option, none, some, Bool, true, false, leb, ltb,
  ◌==◌, if◌then◌else◌, update,
}
use runite.Runtime.Timer.{TimerNode, TimerKind}
use runite.Runtime.Scheduler.Queue.{TimerQueue}

-- A queued macrotask: the wrapper of an expired timeout, a turn of an interval, or other work.
pub data Macrotask : Type 0 where
  run_timeout run_interval : ℕ → ℕ → Macrotask
  other : ℕ → Macrotask

pub record IntervalEntry : Type 0 where
  pub callback : ℕ
  pub interval : ℕ

-- The part of `ThreadState` that timers use. `armed` is the deadline that the driver was given last,
-- and `running` the interval whose callback is on the stack, with the deadline of that turn.
pub record Scheduler (Q : Type 0) : Type 0 where
  pub timers : Q
  pub live_timeouts : ℕ → Bool
  pub live_intervals : ℕ → Option IntervalEntry
  pub next_timer_id : ℕ
  pub macrotasks : List Macrotask
  pub armed : Option ℕ
  pub generation : ℕ
  pub running : Option (ℕ × ℕ)

-- `Duration::MAX`.
unfoldable pub max_duration : ℕ
max_duration = 2 ^ 64 * 1000000000 - 1

-- `checked_add(..).unwrap_or(Duration::MAX)`; with the current time it is `deadline_from_now`.
unfoldable pub saturating_add : ℕ → ℕ → ℕ
saturating_add a b = if leb (a + b) max_duration then a + b else max_duration

-- What a turn of the loop calls, with its argument.
pub data Called : Type 0 where
  nothing : Called
  timeout_callback interval_callback : ℕ → Called

-- `TimeoutHandle` and `IntervalHandle`.
pub record TimerHandle : Type 0 where
  pub id : ℕ
  pub generation : ℕ

-- The `checked_add` of `allocate_timer_id`.
abbrev pub has_next_id : {Q : Type 0} → Scheduler Q → Bool
has_next_id s = ltb (suc s.next_timer_id) (2 ^ 64)

abbrev pub handle_of : {Q : Type 0} → Scheduler Q → TimerHandle
handle_of s = record { id = s.next_timer_id; generation = s.generation }

-- `schedule_interval_macrotask`.
unfoldable pub schedule_interval : {Q : Type 0} → ℕ → ℕ → Scheduler Q → Scheduler Q
schedule_interval id scheduled s = record s {
  macrotasks = s.macrotasks ++ run_interval id scheduled ∷ [];
}

unfoldable pub interval_node : ℕ → ℕ → TimerNode
interval_node id deadline = record { id = id; deadline = deadline; kind = TimerKind.interval }

-- The macrotask of an expired timer.
abbrev pub macrotask_of : TimerNode → Macrotask
macrotask_of n = elim n.kind [
  | TimerKind.timeout callback ↦ run_timeout n.id callback
  | TimerKind.interval ↦ run_interval n.id n.deadline
]

abbrev pub macrotasks_of : List TimerNode → List Macrotask
macrotasks_of [] = []
macrotasks_of (n ∷ due) = macrotask_of n ∷ macrotasks_of due

abbrev pub begin_interval :
    {Q : Type 0} → ℕ → ℕ → Option IntervalEntry → Scheduler Q → Scheduler Q × Called
begin_interval id scheduled none s = (s, nothing)
begin_interval id scheduled (some e) s =
    (record s { running = some (id, scheduled) }, interval_callback e.callback)

-- A macrotask that was popped, up to its callback.
abbrev pub run_macrotask : {Q : Type 0} → Macrotask → Scheduler Q → Scheduler Q × Called
run_macrotask (run_timeout id callback) s = (
  record s { live_timeouts = update s.live_timeouts id false },
  if s.live_timeouts id then timeout_callback callback else nothing,
)
run_macrotask (run_interval id scheduled) s = begin_interval id scheduled (s.live_intervals id) s
run_macrotask (other task) s = (s, nothing)

module _ {Q : Type 0} (i : TimerQueue Q) where
  -- `rearm_thread_timer`.
  unfoldable pub rearm : Scheduler Q → Scheduler Q
  rearm s = record s { armed = i.peek_deadline s.timers }

  unfoldable pub insert_timer : TimerNode → Scheduler Q → Scheduler Q
  unfolding rearm
  insert_timer n s = rearm (record s { timers = i.insert n s.timers })

  -- `timeout`, when there is an id for the timer.
  unfoldable pub set_timeout : ℕ → ℕ → ℕ → Scheduler Q → Scheduler Q
  unfolding insert_timer
  set_timeout delay callback now s =
      let id = s.next_timer_id in
      let node : TimerNode = record {
        id = id;
        deadline = saturating_add now delay;
        kind = TimerKind.timeout callback;
      } in
      insert_timer node
        (record s { next_timer_id = suc id; live_timeouts = update s.live_timeouts id true })

  -- `none` is the panic of `allocate_timer_id` that the ids are used up.
  unfoldable pub timeout : ℕ → ℕ → ℕ → Scheduler Q → Option (Scheduler Q × TimerHandle)
  unfolding set_timeout
  timeout delay callback now s =
      if has_next_id s then some (set_timeout delay callback now s, handle_of s) else none

  unfoldable pub set_interval : ℕ → ℕ → ℕ → Scheduler Q → Scheduler Q
  unfolding schedule_interval insert_timer
  set_interval delay callback now s =
      let id = s.next_timer_id in
      let entered : Scheduler Q = record s {
        next_timer_id = suc id;
        live_intervals =
            update s.live_intervals id (some (record { callback = callback; interval = delay }));
      } in
      if delay == 0
      then schedule_interval id (saturating_add now 0) entered
      else insert_timer (interval_node id (saturating_add now delay)) entered

  unfoldable pub interval : ℕ → ℕ → ℕ → Scheduler Q → Option (Scheduler Q × TimerHandle)
  unfolding set_interval
  interval delay callback now s =
      if has_next_id s then some (set_interval delay callback now s, handle_of s) else none

  -- `clear_timer` once the handle is known to be of this thread.
  abbrev pub cleared : ℕ → Q × Option TimerNode → Scheduler Q → Scheduler Q
  unfolding rearm
  cleared id (timers, none) s = record s {
    live_timeouts = update s.live_timeouts id false;
    live_intervals = update s.live_intervals id none;
    timers = timers;
  }
  cleared id (timers, some n) s = rearm (record s {
    live_timeouts = update s.live_timeouts id false;
    live_intervals = update s.live_intervals id none;
    timers = timers;
  })

  unfoldable pub clear_timer : ℕ → ℕ → Scheduler Q → Scheduler Q
  unfolding rearm
  clear_timer generation id s =
      if generation == s.generation then cleared id (i.remove id s.timers) s else s

  -- `cancel_timeout` and `cancel_interval`.
  abbrev pub cancel : TimerHandle → Scheduler Q → Scheduler Q
  cancel handle s = clear_timer handle.generation handle.id s

  abbrev pub dispatched : Q × Option (List TimerNode) → Scheduler Q → Option (Scheduler Q)
  unfolding rearm
  dispatched (timers, none) s = none
  dispatched (timers, some due) s =
      some (rearm (record s { timers = timers; macrotasks = s.macrotasks ++ macrotasks_of due }))

  -- `dispatch_expired_timers`; `none` is a failure of `pop_due`.
  unfoldable pub dispatch_expired_timers : ℕ → Scheduler Q → Option (Scheduler Q)
  unfolding rearm
  dispatch_expired_timers now s = dispatched (i.pop_due now s.timers) s

  -- What a turn of an interval does when its callback has returned.
  abbrev pub reschedule : ℕ → ℕ → ℕ → Option IntervalEntry → Scheduler Q → Scheduler Q
  unfolding schedule_interval insert_timer
  reschedule now id scheduled none s = s
  reschedule now id scheduled (some e) s =
      let next = saturating_add scheduled e.interval in
      if leb next now then schedule_interval id next s else insert_timer (interval_node id next) s

  unfoldable pub end_interval : ℕ → ℕ → ℕ → Scheduler Q → Scheduler Q
  unfolding schedule_interval insert_timer
  end_interval now id scheduled s =
      reschedule now id scheduled (s.live_intervals id) (record s { running = none })

  -- The same when it has panicked.
  unfoldable pub fail_interval : ℕ → Scheduler Q → Scheduler Q
  fail_interval id s = record s {
    timers = (i.remove id s.timers).0;
    live_intervals = update s.live_intervals id none;
    running = none;
  }
