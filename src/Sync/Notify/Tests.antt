-- ===== src/Sync/Notify/Tests.antt =====
-- A `Notify` on concrete histories.
use runite.Prelude.{ℕ, ◌+◌, ◌≡◌, ◌≢◌, refl, [], ◌∷◌, ◌++◌, map, false, arith, Reach, here, next}
use runite.Sync.Waiters.{Ticket, Waiter, ticket, tickets, new_cell, select, wake}
use runite.Sync.Waiters.Pending.{bit}
use runite.Sync.Notify.{
  one, new, new_future, notify_one, notify_waiters, enqueue, allocate_waiter_id, poll, drop_future,
  forward,
}
use runite.Sync.Notify.Users.{System, Step, start, after_poll, first_poll, is_ready, waiting}
use runite.Sync.Notify.Inv.{waiting_tickets, given}
use runite.Sync.Notify.Safety.{
  notifications_accounted, no_lost_notification, notify_one_serves_oldest,
  notify_waiters_serves_all,
}

-- The state after a first poll.
abbrev ask : ℕ → System → System
ask waker s = record (after_poll s.live [] s (poll waker s.notify new_future)) {
  consumed = bit (is_ready (poll waker s.notify new_future).2) + s.consumed;
}

abbrev two_wait : System
two_wait = ask 8 (ask 7 start)

abbrev first : Ticket (Unit {0})
first = record { id = 0; kind = tt; cell = 0 }

abbrev second : Ticket (Unit {0})
second = record { id = 1; kind = tt; cell = 1 }

history : Reach Step start two_wait
unfolding start new after_poll poll enqueue allocate_waiter_id new_cell
history = next (next here (first_poll 7 (omega arith))) (first_poll 8 (omega arith))

queue_order : waiting_tickets two_wait ≡ first ∷ second ∷ []
unfolding start new after_poll poll enqueue allocate_waiter_id new_cell
queue_order = refl

-- A future that owns a notification and is dropped passes it on.
dropped_passes_on :
    let n = drop_future (notify_one two_wait.notify) (waiting first) in
    (n.woken ≡ 7 ∷ 8 ∷ []) × (n.cells 1 ≡ one) × (n.permit ≡ false)
unfolding start new after_poll poll enqueue allocate_waiter_id new_cell drop_future forward
    notify_one select wake
dropped_passes_on = (refl, refl, refl)

notifications_accounted_example :
    two_wait.issued
    ≡ two_wait.consumed + two_wait.merged + bit two_wait.notify.permit + given two_wait
notifications_accounted_example = notifications_accounted two_wait history

no_lost_notification_example :
    (tickets two_wait.notify.queue ≡ waiting_tickets two_wait)
    × (waiting_tickets two_wait ≢ [] → two_wait.notify.permit ≡ false)
no_lost_notification_example = no_lost_notification two_wait history

notify_one_serves_oldest_test :
    let s' = record two_wait { notify = notify_one two_wait.notify } in
    (s'.notify.cells 0 ≡ one)
    × (waiting_tickets s' ≡ second ∷ [])
    × ((w : Waiter (Unit {0})) × (ticket w ≡ first)
        × (s'.notify.woken ≡ two_wait.notify.woken ++ w.waker ∷ []))
    × (s'.notify.permit ≡ two_wait.notify.permit)
notify_one_serves_oldest_test =
    notify_one_serves_oldest two_wait first (second ∷ []) history queue_order

notify_waiters_serves_all_test :
    let s' = record two_wait { notify = notify_waiters two_wait.notify } in
    (waiting_tickets s' ≡ [])
    × (s'.notify.queue ≡ [])
    × (s'.notify.woken ≡ two_wait.notify.woken ++ map (λ w. w.waker) two_wait.notify.queue)
    × (s'.notify.permit ≡ two_wait.notify.permit)
    × (given s' ≡ given two_wait)
notify_waiters_serves_all_test = notify_waiters_serves_all two_wait history
