-- ===== src/Sync/RwLock/Safety.antt =====
-- What the users of a lock may rely on, after every history.
use mathlib.Core.List.{append-nil, append_assoc}
use runite.Prelude.{
  ℕ, ◌+◌, ◌≤◌, ◌<◌, ◌≡◌, ◌≢◌, refl, sym, ◌∙◌, inl, inr, List, [], ◌∷◌, ◌++◌, map, true, false,
  arith, Bool-cases, length, ltb, if◌then◌else◌, Reach,
}
use runite.Sync.Waiters.{Waiter, tickets, wake_all_lem}
use runite.Sync.RwLock.{
  RwLock, WaiterKind, is_read, admit_readers, admit, fire, release_to_next_waiters, release_writer,
}
use runite.Sync.RwLock.Users.{System, Step, start}
use runite.Sync.RwLock.Inv.{waiting_tickets, admitted_readers, admitted_writers}
use runite.Sync.RwLock.Steps.{Reach-Inv}

abbrev pub readers_in : System → ℕ
readers_in s = s.readers_held + admitted_readers s

abbrev pub writers_in : System → ℕ
writers_in s = s.writers_held + admitted_writers s

-- After every history there is at most one writer, and none while there is a reader; guards that are
-- out and futures that were admitted and have not picked theirs up both count.
pub readers_writer_exclusion :
    (s : System) → Reach Step start s → (writers_in s ≤ 1) × (0 < readers_in s → writers_in s ≡ 0)
readers_writer_exclusion s r =
    let v = Reach-Inv r in
    (ground (arith, v.writes), λ some_reader. ground (arith, v.writes, v.reads, v.exclusive))

-- After every history, the queue holds exactly the futures that wait, in the order of their first
-- poll, and if some future waits then a reader or a writer is in.
pub nobody_waits_for_a_free_lock :
    (s : System)
    → Reach Step start s
    → (tickets s.lock.waiters ≡ waiting_tickets s)
      × (waiting_tickets s ≢ [] → 0 < readers_in s + writers_in s)
nobody_waits_for_a_free_lock s r =
    let v = Reach-Inv r in
    (
      v.queue,
      λ some_waiting. elim v.no_idle [
        | inl e ↦ absurd (some_waiting (sym v.queue ∙ rw e))
        | inr busy ↦ ground (arith, v.writes, v.reads)
      ],
    )

-- The readers at the front of a queue, and what stands behind them.
pub leading_readers : List (Waiter WaiterKind) → List (Waiter WaiterKind)
leading_readers [] = []
leading_readers (w ∷ ws) = if is_read w.kind then w ∷ leading_readers ws else []

pub behind_readers : List (Waiter WaiterKind) → List (Waiter WaiterKind)
behind_readers [] = []
behind_readers (w ∷ ws) = if is_read w.kind then behind_readers ws else w ∷ ws

abbrev pub wakers : List (Waiter WaiterKind) → List ℕ
wakers = map (λ w. w.waker)

admit_readers_lem :
    (ws : List (Waiter WaiterKind)) (s : RwLock) (wakes : List ℕ)
    → let r = admit_readers ws s wakes in
      (r.0.waiters ≡ behind_readers ws)
      × (r.0.readers ≡ s.readers + length (leading_readers ws))
      × (r.1 ≡ wakes ++ wakers (leading_readers ws))
      × (r.0.woken ≡ s.woken)
      × (r.0.writer ≡ s.writer)
unfolding admit_readers leading_readers behind_readers
admit_readers_lem [] s wakes = (refl, omega arith, sym (append-nil wakes), refl, refl)
admit_readers_lem (w ∷ ws) s wakes = elim (Bool-cases (is_read w.kind)) [
  | inl e ↦
      let ih = admit_readers_lem ws _ _ in
      rw e (
        ih.0,
        omega (arith, ih.1),
        ih.2 ∙ append_assoc wakes (w.waker ∷ []) (wakers (leading_readers ws)),
        ih.3,
        ih.4,
      )
  | inr e ↦ rw e (refl, omega arith, sym (append-nil wakes), refl, refl)
]

admit_front :
    (q : List (Waiter WaiterKind)) (s : RwLock) (w : Waiter WaiterKind)
    (ws : List (Waiter WaiterKind))
    → q ≡ w ∷ ws
    → is_read w.kind ≡ true
    → admit q s ≡ admit_readers q s []
unfolding admit
admit_front [] s w ws e k = absurd (cc)
admit_front (x ∷ q) s w ws e k = ground arith

-- After every history, if a writer's guard is dropped while a reader has waited longest, then all
-- readers at the front of the queue are admitted together and woken in their order, and the queue
-- keeps what stands behind them: a writer that waits there is not overtaken.
pub drop_writer_admits_readers :
    (s : System) (w : Waiter WaiterKind) (ws : List (Waiter WaiterKind))
    → Reach Step start s
    → s.writers_held ≡ 1
    → s.lock.waiters ≡ w ∷ ws
    → is_read w.kind ≡ true
    → let lock' = release_writer s.lock in
      (lock'.readers ≡ length (leading_readers s.lock.waiters))
      × (lock'.writer ≡ false)
      × (lock'.waiters ≡ behind_readers s.lock.waiters)
      × (lock'.woken ≡ s.lock.woken ++ wakers (leading_readers s.lock.waiters))
unfolding release_writer release_to_next_waiters fire
drop_writer_admits_readers s w ws r held q k =
    let v = Reach-Inv r in
    let free = record s.lock { writer = false } in
    let none_in : s.lock.readers ≡ 0 = ground (arith, v.writes, v.exclusive) in
    let quiet : ltb 0 s.lock.readers ≡ false = ground arith in
    let all = admit_readers_lem s.lock.waiters free [] in
    let woke =
      wake_all_lem (admit_readers s.lock.waiters free []).1
        (admit_readers s.lock.waiters free []).0.heap in
    rw (quiet, admit_front s.lock.waiters free w ws q k)
      (omega (arith, all.1), all.4, all.0, woke.2 ∙ rw (all.3, all.2))
