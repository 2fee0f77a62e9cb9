-- ===== src/Sync/Mutex/Safety.antt =====
-- What the users of a mutex may rely on, after every history.
use runite.Prelude.{
  ℕ, ◌+◌, ◌≤◌, ◌≡◌, ◌≢◌, ◌↔◌, refl, ap, sym, ◌∙◌, inl, inr, List, [], ◌∷◌, ◌++◌, true, false, arith,
  Reach,
}
use runite.Sync.Waiters.{pending, Ticket, Waiter, ticket, tickets}
use runite.Sync.Waiters.Pending.{unselected-select}
use runite.Sync.Waiters.Removal.{tickets_front}
use runite.Sync.Mutex.{
  System, Step, start, drop_guard, release_to_next_waiter, try_lock, poll, new_future,
  poll_unregistered,
}
use runite.Sync.Mutex.Inv.{chosen, waiting_tickets, handed}
use runite.Sync.Mutex.Steps.{Reach-Inv}

-- Mutual exclusion. After every history, the guards that are out and the futures that own the lock
-- and have not picked it up are together at most one, and exactly one when the lock is taken.
pub mutual_exclusion :
    (s : System)
    → Reach Step start s
    → (s.held + handed s ≤ 1) × ((s.mutex.locked ≡ true) ↔ (s.held + handed s ≡ 1))
mutual_exclusion s r =
    let v = Reach-Inv r in
    (ground (arith, v.total), (ground (arith, v.total), ground (arith, v.total)))

-- After every history, nobody waits for a lock that is free, and the queue holds exactly the futures
-- that wait, in the order of their first poll.
pub no_lost_wakeup :
    (s : System)
    → Reach Step start s
    → (tickets s.mutex.waiters ≡ waiting_tickets s)
      × (waiting_tickets s ≢ [] → s.mutex.locked ≡ true)
no_lost_wakeup s r =
    let v = Reach-Inv r in
    (
      v.queue,
      λ some_waiting. elim v.no_idle [
        | inl p ↦ p
        | inr e ↦ absurd (some_waiting (sym v.queue ∙ rw e))
      ],
    )

-- After every history in which some future waits, dropping the guard hands the lock to the future
-- that has waited longest: its cell is set, its waker is the one that is woken, the others still wait
-- in order, and the lock stays taken, so that neither `try_lock` nor a first poll can overtake it.
pub drop_guard_hands_over :
    (s : System) (t : Ticket (Unit {0})) (rest : List (Ticket (Unit {0}))) (waker : ℕ)
    → Reach Step start s
    → waiting_tickets s ≡ t ∷ rest
    → let s' = record s { mutex = drop_guard s.mutex } in
      (s'.mutex.cells t.cell ≡ true)
      × (waiting_tickets s' ≡ rest)
      × ((w : Waiter (Unit {0})) × (ticket w ≡ t)
          × (s'.mutex.woken ≡ s.mutex.woken ++ w.waker ∷ []))
      × ((try_lock s'.mutex).1 ≡ false)
      × ((poll waker s'.mutex new_future).2 ≡ pending)
unfolding drop_guard try_lock poll poll_unregistered
drop_guard_hands_over s t rest waker r e =
    let v = Reach-Inv r in
    let (w, ws, q, front, back) = tickets_front s.mutex.waiters t rest (v.queue ∙ e) in
    rw (q, release_to_next_waiter)
      (
        ground arith,
        rw (ap (λ (u : Ticket (Unit {0})). u.cell) front) (
            unselected-select chosen s.mutex.cells 0 s.mutex.next_cell s.live t rest true v.within e
              refl),
        (w, front, refl),
        refl,
        refl,
      )
