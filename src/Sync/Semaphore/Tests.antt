-- ===== src/Sync/Semaphore/Tests.antt =====
-- A semaphore on concrete histories.
use runite.Prelude.{◌+◌, ◌≤◌, ◌≡◌, ◌≢◌, refl, [], ◌∷◌, ◌++◌, true, false, arith, Reach, here, next}
use runite.Sync.Waiters.{Ticket, Waiter, ticket, tickets, new_cell, select, wake}
use runite.Sync.Semaphore.{
  System, Step, start, new, after_poll, poll, poll_unregistered, enqueue, new_future,
  allocate_waiter_id, drop_future, drop_permit, release_to_next_waiter, try_acquire, first_poll,
  waiting,
}
use runite.Sync.Semaphore.Inv.{waiting_tickets, handed}
use runite.Sync.Semaphore.Safety.{permits_conserved, no_idle_permit, drop_permit_serves_oldest}

abbrev one_out : System
one_out = after_poll (start 1).live [] (start 1).held (poll 7 (start 1).sem new_future)

-- The second and the third task wait.
abbrev one_waits : System
one_waits = after_poll one_out.live [] one_out.held (poll 8 one_out.sem new_future)

abbrev two_wait : System
two_wait = after_poll one_waits.live [] one_waits.held (poll 9 one_waits.sem new_future)

abbrev first : Ticket (Unit {0})
first = record { id = 0; kind = tt; cell = 0 }

abbrev second : Ticket (Unit {0})
second = record { id = 1; kind = tt; cell = 1 }

history : Reach Step (start 1) two_wait
unfolding start new after_poll poll poll_unregistered enqueue allocate_waiter_id new_cell
    drop_future
history =
    next (next (next here (first_poll 7 (omega arith))) (first_poll 8 (omega arith)))
      (first_poll 9 (omega arith))

queue_order : waiting_tickets two_wait ≡ first ∷ second ∷ []
unfolding start new after_poll poll poll_unregistered enqueue allocate_waiter_id new_cell
    drop_future
queue_order = refl

-- A future that was handed the permit and is dropped passes it on.
dropped_passes_on :
    let sem = drop_future (drop_permit two_wait.sem) (waiting first) in
    (sem.woken ≡ 8 ∷ 9 ∷ []) × (sem.cells 1 ≡ true) × (sem.permits ≡ 0)
unfolding start new after_poll poll poll_unregistered enqueue allocate_waiter_id new_cell
    drop_future drop_permit release_to_next_waiter select wake
dropped_passes_on = (refl, refl, refl)

permits_conserved_example :
    (two_wait.sem.permits + two_wait.held + handed two_wait ≡ 1) × (two_wait.held ≤ 1)
permits_conserved_example = permits_conserved 1 two_wait history

no_idle_permit_example :
    (tickets two_wait.sem.waiters ≡ waiting_tickets two_wait)
    × (waiting_tickets two_wait ≢ [] → two_wait.sem.permits ≡ 0)
no_idle_permit_example = no_idle_permit 1 two_wait history

drop_permit_serves_oldest_test :
    let s' = record two_wait { sem = drop_permit two_wait.sem } in
    (s'.sem.cells 0 ≡ true)
    × (waiting_tickets s' ≡ second ∷ [])
    × ((w : Waiter (Unit {0})) × (ticket w ≡ first)
        × (s'.sem.woken ≡ two_wait.sem.woken ++ w.waker ∷ []))
    × (s'.sem.permits ≡ two_wait.sem.permits)
    × ((try_acquire s'.sem).1 ≡ false)
drop_permit_serves_oldest_test =
    drop_permit_serves_oldest 1 two_wait first (second ∷ []) history queue_order
