-- ===== src/Runtime/Scheduler/Tests.antt =====
-- A timeout and an interval on a concrete history, over the timer heap.
use runite.Runtime.Scheduler.Steps.{Reach-Inv}
use mathlib.Core.List.{Memᴰ}
use mathlib.Core.List.Memᴰ.{head}
use runite.Prelude.{
  ℕ, ◌≡◌, ◌≤◌, ◌<◌, ◌↔◌, refl, List, [], ◌∷◌, ◌++◌, none, some, arith, if◌then◌else◌, update, Reach,
  here, next,
}
use runite.Runtime.Timer.{
  TimerNode, TimerHeap, new, insert, remove, pop_due, peek_deadline, sift_up, sift_up_loop, swap,
  fix, sift_down, sift_down_loop, take_out, pop_min, pop_due_loop,
}
use runite.Runtime.Timer.Due.{Rising}
use runite.Runtime.Scheduler.{
  Scheduler, TimerHandle, handle_of, timeout, interval, run_timeout, run_interval, saturating_add,
  max_duration, macrotasks_of, rearm, insert_timer, interval_node, schedule_interval, set_timeout,
  set_interval, dispatch_expired_timers, run_macrotask, end_interval,
}
use runite.Runtime.Scheduler.Heap.{timer_heap, timer_heap_laws}
use runite.Runtime.Scheduler.Life.{timeout_waits, expire_life, end_life, node_of, Shows}
use runite.Runtime.Scheduler.Users.{System, Step, start, interval_life, begun, after_cancel, due_of}
use runite.Runtime.Scheduler.Turns.{after_dispatch, dispatch_lem}
use runite.Runtime.Scheduler.Stories.{deadlines, turns, LifeStep}
use runite.Runtime.Scheduler.Spacing.{Spaced}
use runite.Runtime.Scheduler.Safety.{
  lives_are_kept, driver_is_armed_for_earliest, dispatch_in_deadline_order, timers_never_run_early,
  cancelled_timer_stays_silent, timeout_runs_once, intervals_do_not_drift,
}

abbrev fresh : System TimerHeap
fresh = start timer_heap 7

-- The timeout 1 is due at 5, the interval 2 every 3.
abbrev one_timer : System TimerHeap
one_timer = record fresh {
  scheduler = set_timeout timer_heap 5 9 fresh.now fresh.scheduler;
  life =
      update fresh.life fresh.scheduler.next_timer_id
        (timeout_waits (saturating_add fresh.now 5) 9);
}

abbrev two_timers : System TimerHeap
two_timers = record one_timer {
  scheduler = set_interval timer_heap 3 4 one_timer.now one_timer.scheduler;
  life = update one_timer.life one_timer.scheduler.next_timer_id (interval_life 3 4 one_timer.now);
}

-- The loop comes back at 10.
abbrev late : System TimerHeap
late = record two_timers { now = 10 }

abbrev second : TimerHandle
second = record { id = 2; generation = 7 }

late_history : Reach (Step timer_heap) (start timer_heap 7) late
unfolding start timeout interval set_timeout set_interval insert_timer schedule_interval rearm
late_history =
    next
      (next (next here (Step.sets_timeout 5 9 one_timer.scheduler (handle_of fresh.scheduler) refl))
        (Step.sets_interval 3 4 two_timers.scheduler second refl))
      (Step.ticks 10 (omega arith))

abbrev dispatched : System TimerHeap
dispatched = record late {
  scheduler = after_dispatch timer_heap_laws late.now late.scheduler;
  life = λ b. expire_life late.now (late.life b);
}

dispatched_history : Reach (Step timer_heap) (start timer_heap 7) dispatched
unfolding start set_timeout set_interval insert_timer schedule_interval rearm
dispatched_history = next late_history (
    Step.dispatches (after_dispatch timer_heap_laws late.now late.scheduler) refl (
      dispatch_lem timer_heap_laws late.now late.scheduler
        (Reach-Inv timer_heap_laws 7 late late_history).ready.valid))

in_order : dispatched.scheduler.macrotasks ≡ run_interval 2 3 ∷ run_timeout 1 9 ∷ []
unfolding start set_timeout set_interval insert_timer schedule_interval rearm interval_node
    saturating_add max_duration new insert remove pop_due peek_deadline sift_up sift_up_loop swap
    fix sift_down sift_down_loop take_out pop_min pop_due_loop
in_order = refl

-- The interval is called late, and returns at 10: its next deadline, 6, has passed.
abbrev called : System TimerHeap
called =
    begun (run_interval 2 3)
      (run_macrotask (run_interval 2 3)
        (record dispatched.scheduler { macrotasks = run_timeout 1 9 ∷ [] }))
      dispatched

called_history : Reach (Step timer_heap) (start timer_heap 7) called
unfolding start set_timeout set_interval insert_timer schedule_interval rearm
called_history =
    next dispatched_history (Step.begins (run_interval 2 3) (run_timeout 1 9 ∷ []) refl in_order)

is_running : called.scheduler.running ≡ some (2, 3)
unfolding start set_timeout set_interval insert_timer schedule_interval rearm interval_node
    saturating_add max_duration
is_running = refl

abbrev ended : System TimerHeap
ended = record called {
  scheduler = end_interval timer_heap called.now 2 3 called.scheduler;
  life = update called.life 2 (end_life called.now (called.life 2));
}

ended_history : Reach (Step timer_heap) (start timer_heap 7) ended
ended_history = next called_history (Step.ends 2 3 is_running)

both_queued : ended.scheduler.macrotasks ≡ run_timeout 1 9 ∷ run_interval 2 6 ∷ []
unfolding start set_timeout set_interval insert_timer schedule_interval rearm interval_node
    saturating_add max_duration end_interval
both_queued = refl

is_idle : ended.scheduler.running ≡ none
unfolding start set_timeout set_interval insert_timer schedule_interval rearm interval_node
    saturating_add max_duration end_interval
is_idle = refl

-- Then the timeout is called, and the interval again.
abbrev timed_out : System TimerHeap
timed_out =
    begun (run_timeout 1 9)
      (run_macrotask (run_timeout 1 9)
        (record ended.scheduler { macrotasks = run_interval 2 6 ∷ [] }))
      ended

timed_out_history : Reach (Step timer_heap) (start timer_heap 7) timed_out
timed_out_history =
    next ended_history (Step.begins (run_timeout 1 9) (run_interval 2 6 ∷ []) is_idle both_queued)

next_turn : timed_out.scheduler.macrotasks ≡ run_interval 2 6 ∷ []
unfolding start set_timeout set_interval insert_timer schedule_interval rearm interval_node
    saturating_add max_duration end_interval
next_turn = refl

still_idle : timed_out.scheduler.running ≡ none
unfolding start set_timeout set_interval insert_timer schedule_interval rearm interval_node
    saturating_add max_duration end_interval
still_idle = refl

abbrev called_again : System TimerHeap
called_again =
    begun (run_interval 2 6)
      (run_macrotask (run_interval 2 6) (record timed_out.scheduler { macrotasks = [] })) timed_out

called_again_history : Reach (Step timer_heap) (start timer_heap 7) called_again
called_again_history =
    next timed_out_history (Step.begins (run_interval 2 6) [] still_idle next_turn)

calls_so_far :
    (deadlines 2 called_again.runs ≡ 6 ∷ 3 ∷ []) × (deadlines 1 called_again.runs ≡ 5 ∷ [])
unfolding start set_timeout set_interval insert_timer schedule_interval rearm interval_node
    saturating_add max_duration end_interval
calls_so_far = (refl, refl)

has_entry : called_again.scheduler.live_intervals 2 ≡ some (record { callback = 4; interval = 3 })
unfolding start set_timeout set_interval insert_timer schedule_interval rearm interval_node
    saturating_add max_duration end_interval
has_entry = refl

is_made : 2 < called.scheduler.next_timer_id
unfolding start set_timeout set_interval insert_timer schedule_interval rearm interval_node
    saturating_add max_duration
is_made = omega arith

-- The interval clears itself from its callback, and returns.
abbrev cancelled : System TimerHeap
cancelled = after_cancel timer_heap second called

own_handle : second.generation ≡ called.scheduler.generation
unfolding start set_timeout set_interval insert_timer schedule_interval rearm
own_handle = refl

silent_history : Reach (Step timer_heap) cancelled (record cancelled { now = 99 })
unfolding start set_timeout set_interval insert_timer schedule_interval rearm
silent_history = next here (Step.ticks 99 (omega arith))

-- The call of the timeout.
first_call : Memᴰ (record { id = 1; deadline = 5; scheduled = 5; time = 10 }) timed_out.runs
unfolding start set_timeout set_interval insert_timer schedule_interval rearm interval_node
    saturating_add max_duration end_interval
first_call = head refl

lives_are_kept_example :
    Shows timer_heap_laws called.scheduler 2 (called.life 2)
    × ((t : System TimerHeap)
        → Step timer_heap called t
        → LifeStep called.now
            (called.life 2)
            (deadlines 2 called.runs)
            (t.life 2)
            (deadlines 2 t.runs))
lives_are_kept_example = lives_are_kept timer_heap_laws 7 called called_history 2

driver_is_armed_for_earliest_example :
    ((b : ℕ) (n : TimerNode)
      → node_of b (late.life b) ≡ some n
      → (e : ℕ) × (late.scheduler.armed ≡ some e) × (e ≤ n.deadline))
    × ((e : ℕ)
        → late.scheduler.armed ≡ some e
        → (n : TimerNode) × (node_of n.id (late.life n.id) ≡ some n) × (n.deadline ≡ e))
driver_is_armed_for_earliest_example =
    driver_is_armed_for_earliest timer_heap_laws 7 late late_history

dispatch_in_deadline_order_example :
    (t : Scheduler TimerHeap) × (due : List TimerNode) × (dispatch_expired_timers timer_heap
        late.now late.scheduler
      ≡ some t)
    × (t.macrotasks ≡ late.scheduler.macrotasks ++ macrotasks_of due)
    × Rising due
    × ((n : TimerNode)
        → Memᴰ n due ↔ ((node_of n.id (late.life n.id) ≡ some n) × (n.deadline ≤ late.now)))
    × ((b : ℕ) (n : TimerNode) → timer_heap_laws.find t.timers b ≡ some n → late.now < n.deadline)
dispatch_in_deadline_order_example = dispatch_in_deadline_order timer_heap_laws 7 late late_history

timers_never_run_early_example : ◌≤◌ 5 10
timers_never_run_early_example =
    timers_never_run_early timer_heap_laws 7 timed_out
      (record { id = 1; deadline = 5; scheduled = 5; time = 10 }) timed_out_history first_call

cancelled_timer_stays_silent_example :
    deadlines 2 (record cancelled { now = 99 }).runs ≡ deadlines 2 called.runs
cancelled_timer_stays_silent_example =
    cancelled_timer_stays_silent timer_heap_laws 7 called (record cancelled { now = 99 }) second
      called_history own_handle is_made silent_history

timeout_runs_once_example :
    deadlines 1 called_again.runs
    ≡ (if ended.scheduler.live_timeouts 1 then due_of (ended.life 1) ∷ [] else [])
timeout_runs_once_example =
    timeout_runs_once timer_heap_laws 7 ended called_again 1 9 (run_interval 2 6 ∷ []) ended_history
      is_idle both_queued (next here (Step.begins (run_interval 2 6) [] still_idle next_turn))

intervals_do_not_drift_example : Spaced 3 (turns 2 called_again.runs)
intervals_do_not_drift_example =
    intervals_do_not_drift timer_heap_laws 7 called_again 2 (record { callback = 4; interval = 3 })
      called_again_history has_entry
