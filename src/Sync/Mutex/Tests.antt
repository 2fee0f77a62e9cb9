-- ===== src/Sync/Mutex/Tests.antt =====
-- A mutex on concrete histories.
use runite.Prelude.{
  ◌+◌, ◌≤◌, ◌≡◌, ◌≢◌, ◌↔◌, refl, [], ◌∷◌, ◌++◌, true, false, arith, Reach, here, next,
}
use runite.Sync.Waiters.{Ticket, Waiter, pending, ticket, tickets, new_cell, select, wake}
use runite.Sync.Mutex.{
  System, Step, start, new, after_poll, poll, poll_unregistered, enqueue, new_future,
  allocate_waiter_id, drop_future, drop_guard, release_to_next_waiter, try_lock, first_poll,
  waiting,
}
use runite.Sync.Mutex.Inv.{waiting_tickets, handed}
use runite.Sync.Mutex.Safety.{mutual_exclusion, no_lost_wakeup, drop_guard_hands_over}

abbrev one_out : System
one_out = after_poll start.live [] start.held (poll 7 start.mutex new_future)

-- The second and the third task wait.
abbrev one_waits : System
one_waits = after_poll one_out.live [] one_out.held (poll 8 one_out.mutex new_future)

abbrev two_wait : System
two_wait = after_poll one_waits.live [] one_waits.held (poll 9 one_waits.mutex new_future)

abbrev first : Ticket (Unit {0})
first = record { id = 0; kind = tt; cell = 0 }

abbrev second : Ticket (Unit {0})
second = record { id = 1; kind = tt; cell = 1 }

history : Reach Step start two_wait
unfolding start new after_poll poll poll_unregistered enqueue allocate_waiter_id new_cell
    drop_future
history =
    next (next (next here (first_poll 7 (omega arith))) (first_poll 8 (omega arith)))
      (first_poll 9 (omega arith))

queue_order : waiting_tickets two_wait ≡ first ∷ second ∷ []
unfolding start new after_poll poll poll_unregistered enqueue allocate_waiter_id new_cell
    drop_future
queue_order = refl

-- A future that was handed the lock and is dropped passes it on.
dropped_passes_on :
    let mutex = drop_future (drop_guard two_wait.mutex) (waiting first) in
    (mutex.woken ≡ 8 ∷ 9 ∷ []) × (mutex.cells 1 ≡ true) × (mutex.locked ≡ true)
unfolding start new after_poll poll poll_unregistered enqueue allocate_waiter_id new_cell
    drop_future drop_guard release_to_next_waiter select wake
dropped_passes_on = (refl, refl, refl)

mutual_exclusion_example :
    (two_wait.held + handed two_wait ≤ 1)
    × ((two_wait.mutex.locked ≡ true) ↔ (two_wait.held + handed two_wait ≡ 1))
mutual_exclusion_example = mutual_exclusion two_wait history

no_lost_wakeup_example :
    (tickets two_wait.mutex.waiters ≡ waiting_tickets two_wait)
    × (waiting_tickets two_wait ≢ [] → two_wait.mutex.locked ≡ true)
no_lost_wakeup_example = no_lost_wakeup two_wait history

drop_guard_hands_over_test :
    let s' = record two_wait { mutex = drop_guard two_wait.mutex } in
    (s'.mutex.cells 0 ≡ true)
    × (waiting_tickets s' ≡ second ∷ [])
    × ((w : Waiter (Unit {0})) × (ticket w ≡ first)
        × (s'.mutex.woken ≡ two_wait.mutex.woken ++ w.waker ∷ []))
    × ((try_lock s'.mutex).1 ≡ false)
    × ((poll 5 s'.mutex new_future).2 ≡ pending)
drop_guard_hands_over_test =
    drop_guard_hands_over two_wait first (second ∷ []) 5 history queue_order
