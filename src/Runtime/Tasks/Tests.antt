-- ===== src/Runtime/Tasks/Tests.antt =====
-- Two tasks on a concrete thread.
use runite.Prelude.{
  ℕ, ◌≡◌, refl, inr, [], ◌∷◌, ◌++◌, none, true, false, not, ◌||◌, bit, length, copies, Reach, here,
  next, arith,
}
use runite.Runtime.Tasks.{
  Thread, ready, pending, panics, waits, value, fails, join_aborted, join_panicked, is_running,
  set_task, schedule, wake_remote, queue_internal_wake, queue_future, wake_join, begin_poll,
  mark_terminal, end_poll, take_future, abort, cancel_task, join_cancelled, answer_join, poll_join,
}
use runite.Runtime.Tasks.Users.{is_spawned, start, Step, spawns, posts, begins, ends, aborts, joins}
use runite.Runtime.Tasks.Inv.{is_at}
use runite.Runtime.Tasks.Wakeups.{Woken}
use runite.Runtime.Tasks.Safety.{
  polls_are_coalesced, no_poll_after_end, future_is_dropped_once, Quietly, quietly,
  wake_leads_to_poll,
}
use runite.Runtime.Tasks.Outcome.{outcome_is_final, abort_wins, join_reports_outcome}

-- Two spawned tasks, whose polls are queued.
abbrev two : Thread ℕ
two = queue_future (queue_future start)

-- Their polls have begun and were pending; task 1 waits for a wake from outside.
abbrev polled : Thread ℕ
polled = end_poll pending 1 (begin_poll 1 (2 ∷ []) two)

abbrev joined : Thread ℕ
joined = (poll_join 7 1 polled).0

abbrev aborted_one : Thread ℕ
aborted_one = abort 1 joined

to_two : Reach Step start two
unfolding start queue_future schedule set_task
to_two = next (next here (spawns (omega arith))) (spawns (omega arith))

to_polled : Reach Step start polled
unfolding start queue_future schedule set_task begin_poll end_poll
to_polled = next (next to_two (begins 1 (2 ∷ []) refl refl)) (ends 1 pending refl)

spawned_one : is_spawned 1 polled ≡ true
unfolding start queue_future schedule set_task begin_poll end_poll
spawned_one = refl

to_joined : Reach Step start joined
to_joined = next to_polled (joins 7 1 spawned_one)

spawned_joined : is_spawned 1 joined ≡ true
unfolding start queue_future schedule set_task begin_poll end_poll poll_join answer_join
spawned_joined = refl

running_joined : is_running (joined.task 1).state ≡ true
unfolding start queue_future schedule set_task begin_poll end_poll poll_join answer_join
running_joined = refl

to_aborted : Reach Step start aborted_one
to_aborted = next to_joined (aborts 1 spawned_joined)

spawned_aborted : is_spawned 1 aborted_one ≡ true
unfolding start queue_future schedule set_task begin_poll end_poll poll_join answer_join abort
    mark_terminal take_future
spawned_aborted = refl

ended_aborted : is_running (aborted_one.task 1).state ≡ false
unfolding start queue_future schedule set_task begin_poll end_poll poll_join answer_join abort
    mark_terminal take_future
ended_aborted = refl

-- A wake from another thread that is posted and adopted.
abbrev claimed : Thread ℕ
claimed = wake_remote 1 polled

abbrev posted : Thread ℕ
posted = queue_internal_wake 1 (record claimed { posting = [] ++ [] })

open_claimed : claimed.closed ≡ false
unfolding start queue_future schedule set_task begin_poll end_poll wake_remote
open_claimed = refl

off_posted : is_at posted.polling 1 ≡ false
unfolding start queue_future schedule set_task begin_poll end_poll wake_remote queue_internal_wake
off_posted = refl

posting_claimed : claimed.posting ≡ [] ++ 1 ∷ []
unfolding start queue_future schedule set_task begin_poll end_poll wake_remote
posting_claimed = refl

to_posted : Reach (Quietly 1) (wake_remote 1 polled) posted
to_posted = next here (quietly (posts [] [] 1 posting_claimed) open_claimed off_posted)

running_posted : is_running (posted.task 1).state ≡ true
unfolding start queue_future schedule set_task begin_poll end_poll wake_remote queue_internal_wake
running_posted = refl

-- The wake of task 1 is under way, and nothing else of it.
posted_wakes : (posted.remote ≡ 1 ∷ []) × (posted.microtasks ≡ 2 ∷ [])
unfolding start queue_future schedule set_task begin_poll end_poll wake_remote queue_internal_wake
posted_wakes = (refl, refl)

polls_are_coalesced_example :
    (copies 2 polled.microtasks ≡ bit (polled.task 2).queued)
    × (polled.ready_tasks ≡ length polled.microtasks)
polls_are_coalesced_example = polls_are_coalesced polled 2 to_polled

no_poll_after_end_test : (begin_poll 1 [] aborted_one).polling ≡ none
no_poll_after_end_test = no_poll_after_end aborted_one 1 [] to_aborted ended_aborted

future_is_dropped_once_example :
    copies 1 aborted_one.dropped
    ≡ bit (not (is_running (aborted_one.task 1).state || is_at aborted_one.polling 1))
future_is_dropped_once_example = future_is_dropped_once aborted_one 1 to_aborted spawned_aborted

wake_leads_to_poll_example : Woken posted 1
wake_leads_to_poll_example =
    wake_leads_to_poll polled posted 1 to_polled spawned_one (inr to_posted) running_posted

to_end : Reach Step aborted_one (abort 1 aborted_one)
to_end = next here (aborts 1 spawned_aborted)

outcome_is_final_test : ((abort 1 aborted_one).task 1).state ≡ (aborted_one.task 1).state
outcome_is_final_test =
    outcome_is_final aborted_one (abort 1 aborted_one) 1 spawned_aborted ended_aborted to_end

abort_wins_example :
    ((abort 1 joined).woken ≡ wake_join (joined.task 1).join_waker joined.woken)
    × ((poll_join 8 1 (abort 1 aborted_one)).1 ≡ fails join_aborted)
abort_wins_example =
    abort_wins joined (abort 1 aborted_one) 8 1 spawned_joined running_joined to_end

join_reports_outcome_example :
    (((poll_join 8 1 (end_poll (ready 5) 1 joined)).1 ≡ value 5)
      × ((end_poll (ready 5) 1 joined).woken ≡ wake_join (joined.task 1).join_waker joined.woken))
    × (((poll_join 8 1 (end_poll panics 1 joined)).1 ≡ fails join_panicked)
        × ((end_poll panics 1 joined).woken ≡ wake_join (joined.task 1).join_waker joined.woken))
    × (((poll_join 8 1 (cancel_task 1 joined)).1 ≡ fails join_cancelled)
        × ((cancel_task 1 joined).woken ≡ wake_join (joined.task 1).join_waker joined.woken))
    × (((poll_join 8 1 (end_poll pending 1 joined)).1 ≡ waits)
        × ((end_poll pending 1 joined).woken ≡ joined.woken))
join_reports_outcome_example = join_reports_outcome joined 8 1 5 running_joined
