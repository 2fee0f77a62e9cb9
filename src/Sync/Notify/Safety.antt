-- ===== src/Sync/Notify/Safety.antt =====
-- What the users of a `Notify` may rely on, after every history.
use runite.Prelude.{
  ◌+◌, ◌≡◌, ◌≢◌, refl, ap, sym, ◌∙◌, inl, inr, List, [], ◌∷◌, ◌++◌, false, arith, Reach, map,
}
use runite.Sync.Waiters.{Ticket, Waiter, ticket, tickets, wake_all_lem}
use runite.Sync.Waiters.Pending.{bit, unselected-select}
use runite.Sync.Waiters.Removal.{tickets_front}
use runite.Sync.Notify.{one, is_selected, notify_one, notify_waiters, select_all}
use runite.Sync.Notify.Users.{System, Step, start}
use runite.Sync.Notify.Inv.{waiting_tickets, given}
use runite.Sync.Notify.Steps.{Reach-Inv, select_all_lem}

-- After every history, each call of `notify_one` has completed a future, whose poll answered that it is
-- ready, or was merged into a permit already stored, or is the stored permit, or is owned by one future
-- that has yet to pick it up; also when a future that owned one was dropped.
pub notifications_accounted :
    (s : System)
    → Reach Step start s
    → s.issued ≡ s.consumed + s.merged + bit s.notify.permit + given s
notifications_accounted s r = (Reach-Inv r).accounted

-- After every history, no permit is stored while a future waits, and the queue holds exactly the
-- futures that wait, in the order of their first poll.
pub no_lost_notification :
    (s : System)
    → Reach Step start s
    → (tickets s.notify.queue ≡ waiting_tickets s)
      × (waiting_tickets s ≢ [] → s.notify.permit ≡ false)
no_lost_notification s r =
    let v = Reach-Inv r in
    (
      v.queue,
      λ some_waiting. elim v.no_idle [
        | inl p ↦ p
        | inr e ↦ absurd (some_waiting (sym v.queue ∙ rw e))
      ],
    )

-- After every history in which some future waits, `notify_one` completes the future that has waited
-- longest and wakes that one only.
pub notify_one_serves_oldest :
    (s : System) (t : Ticket (Unit {0})) (rest : List (Ticket (Unit {0})))
    → Reach Step start s
    → waiting_tickets s ≡ t ∷ rest
    → let s' = record s { notify = notify_one s.notify } in
      (s'.notify.cells t.cell ≡ one)
      × (waiting_tickets s' ≡ rest)
      × ((w : Waiter (Unit {0})) × (ticket w ≡ t)
          × (s'.notify.woken ≡ s.notify.woken ++ w.waker ∷ []))
      × (s'.notify.permit ≡ s.notify.permit)
unfolding notify_one
notify_one_serves_oldest s t rest r e =
    let v = Reach-Inv r in
    let (w, ws, q, front, back) = tickets_front s.notify.queue t rest (v.queue ∙ e) in
    rw (q, notify_one)
      (
        ground arith,
        rw (ap (λ (u : Ticket (Unit {0})). u.cell) front) (
            unselected-select is_selected s.notify.cells 0 s.notify.next_cell s.live t rest one
              v.within e refl),
        (w, front, refl),
        refl,
      )

-- After every history, `notify_waiters` selects every future that waits and wakes each of them, in
-- the order of their first poll, and stores no permit: nothing is kept for a later future.
pub notify_waiters_serves_all :
    (s : System)
    → Reach Step start s
    → let s' = record s { notify = notify_waiters s.notify } in
      (waiting_tickets s' ≡ [])
      × (s'.notify.queue ≡ [])
      × (s'.notify.woken ≡ s.notify.woken ++ map (λ w. w.waker) s.notify.queue)
      × (s'.notify.permit ≡ s.notify.permit)
      × (given s' ≡ given s)
unfolding notify_waiters
notify_waiters_serves_all s r =
    let v = Reach-Inv r in
    let all = select_all_lem s.notify.queue s.notify.heap s.live v.within v.queue in
    let same =
      wake_all_lem (map (λ (w : Waiter (Unit {0})). w.waker) s.notify.queue)
        (select_all s.notify.queue s.notify.heap) in
    (rw same.0 all.0, refl, same.2 ∙ rw all.2, refl, rw same.0 all.3)
