-- ===== src/Sync/Semaphore/Safety.antt =====
-- What the users of a semaphore may rely on, after every history.
use runite.Prelude.{
  ℕ, ◌+◌, ◌≤◌, ◌≡◌, ◌≢◌, refl, ap, sym, ◌∙◌, inl, inr, List, [], ◌∷◌, ◌++◌, true, false, arith,
  Reach,
}
use runite.Sync.Waiters.{Ticket, Waiter, ticket, tickets}
use runite.Sync.Waiters.Pending.{unselected-select}
use runite.Sync.Waiters.Removal.{tickets_front}
use runite.Sync.Semaphore.{System, Step, start, drop_permit, release_to_next_waiter, try_acquire}
use runite.Sync.Semaphore.Inv.{chosen, waiting_tickets, handed}
use runite.Sync.Semaphore.Steps.{Reach-Inv}

-- After every history from a semaphore of `n` permits, the free permits, those that are out and
-- those handed to a future that has not picked its own up make `n`; so at most `n` are out.
pub permits_conserved :
    (n : ℕ) (s : System)
    → Reach Step (start n) s
    → (s.sem.permits + s.held + handed s ≡ n) × (s.held ≤ n)
permits_conserved n s r = let v = Reach-Inv n r in (v.total, omega (arith, v.total))

-- After every history, no permit is free while a future waits for one, and the queue holds exactly
-- the futures that wait, in the order of their first poll.
pub no_idle_permit :
    (n : ℕ) (s : System)
    → Reach Step (start n) s
    → (tickets s.sem.waiters ≡ waiting_tickets s) × (waiting_tickets s ≢ [] → s.sem.permits ≡ 0)
no_idle_permit n s r =
    let v = Reach-Inv n r in
    (
      v.queue,
      λ some_waiting. elim v.no_idle [
        | inl p ↦ p
        | inr e ↦ absurd (some_waiting (sym v.queue ∙ rw e))
      ],
    )

-- After every history in which some future waits, a permit that is dropped goes to the future that
-- has waited longest: its cell is set, its waker is the one that is woken, the others still wait in
-- order, and the number of free permits is unchanged, so nobody can overtake it.
pub drop_permit_serves_oldest :
    (n : ℕ) (s : System) (t : Ticket (Unit {0})) (rest : List (Ticket (Unit {0})))
    → Reach Step (start n) s
    → waiting_tickets s ≡ t ∷ rest
    → let s' = record s { sem = drop_permit s.sem } in
      (s'.sem.cells t.cell ≡ true)
      × (waiting_tickets s' ≡ rest)
      × ((w : Waiter (Unit {0})) × (ticket w ≡ t) × (s'.sem.woken ≡ s.sem.woken ++ w.waker ∷ []))
      × (s'.sem.permits ≡ s.sem.permits)
      × ((try_acquire s'.sem).1 ≡ false)
unfolding drop_permit try_acquire
drop_permit_serves_oldest n s t rest r e =
    let v = Reach-Inv n r in
    let (w, ws, q, front, back) = tickets_front s.sem.waiters t rest (v.queue ∙ e) in
    rw (q, release_to_next_waiter)
      (
        ground arith,
        rw (ap (λ (u : Ticket (Unit {0})). u.cell) front) (
            unselected-select chosen s.sem.cells 0 s.sem.next_cell s.live t rest true v.within e
              refl),
        (w, front, refl),
        refl,
        ground (arith, v.no_idle),
      )
