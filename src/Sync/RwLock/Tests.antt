-- ===== src/Sync/RwLock/Tests.antt =====
-- A reader-writer lock on concrete histories.
use runite.Prelude.{
  ℕ, ◌+◌, ◌≤◌, ◌<◌, ◌≡◌, ◌≢◌, refl, List, [], ◌∷◌, ◌++◌, false, arith, length, Reach, here, next,
}
use runite.Sync.Waiters.{Waiter, tickets, new_cell, select, wake, wake_all}
use runite.Sync.RwLock.{
  WaiterKind, read, write, new, new_future, enqueue, allocate_waiter_id, poll_read, poll_write,
  poll_read_unregistered, poll_write_unregistered, release_writer, release_to_next_waiters, admit,
  admit_readers, fire, drop_write_future,
}
use runite.Sync.RwLock.Users.{System, Step, start, after_poll, poll, first_poll}
use runite.Sync.RwLock.Inv.{waiting_tickets}
use runite.Sync.RwLock.Safety.{
  readers_in, writers_in, leading_readers, behind_readers, wakers, readers_writer_exclusion,
  nobody_waits_for_a_free_lock, drop_writer_admits_readers,
}

-- The state after a first poll.
abbrev ask : WaiterKind → ℕ → System → System
ask k waker s = after_poll k s.live [] s (poll k waker s.lock new_future)

-- A writer is in; two readers, a writer and a reader wait.
abbrev crowd : System
crowd = ask read 5 (ask write 4 (ask read 3 (ask read 2 (ask write 1 start))))

history : Reach Step start crowd
unfolding start new after_poll poll_read poll_write poll_read_unregistered poll_write_unregistered
    enqueue allocate_waiter_id new_cell drop_write_future
history =
    next
      (next
        (next
          (next (next here (first_poll write 1 (omega arith))) (first_poll read 2 (omega arith)))
          (first_poll read 3 (omega arith)))
        (first_poll write 4 (omega arith)))
      (first_poll read 5 (omega arith))

one_writer : crowd.writers_held ≡ 1
unfolding start new after_poll poll_read poll_write poll_read_unregistered poll_write_unregistered
    enqueue allocate_waiter_id new_cell drop_write_future
one_writer = refl

abbrev waiter : ℕ → WaiterKind → ℕ → Waiter WaiterKind
waiter id kind waker = record { id = id; kind = kind; selected = id; waker = waker }

abbrev others : List (Waiter WaiterKind)
others = waiter 1 read 3 ∷ waiter 2 write 4 ∷ waiter 3 read 5 ∷ []

crowd_queue : crowd.lock.waiters ≡ waiter 0 read 2 ∷ others
unfolding start new after_poll poll_read poll_write poll_read_unregistered poll_write_unregistered
    enqueue allocate_waiter_id new_cell drop_write_future
crowd_queue = refl

-- Two readers get in together; the writer keeps its turn before the last reader.
two_get_in :
    let lock = release_writer crowd.lock in
    (lock.readers ≡ 2)
    × (lock.woken ≡ 2 ∷ 3 ∷ [])
    × (lock.waiters ≡ waiter 2 write 4 ∷ waiter 3 read 5 ∷ [])
unfolding start new after_poll poll_read poll_write poll_read_unregistered poll_write_unregistered
    enqueue allocate_waiter_id new_cell drop_write_future release_writer release_to_next_waiters
    admit admit_readers fire select wake wake_all
two_get_in = (refl, refl, refl)

readers_writer_exclusion_example :
    (writers_in crowd ≤ 1) × (0 < readers_in crowd → writers_in crowd ≡ 0)
readers_writer_exclusion_example = readers_writer_exclusion crowd history

nobody_waits_for_a_free_lock_example :
    (tickets crowd.lock.waiters ≡ waiting_tickets crowd)
    × (waiting_tickets crowd ≢ [] → 0 < readers_in crowd + writers_in crowd)
nobody_waits_for_a_free_lock_example = nobody_waits_for_a_free_lock crowd history

drop_writer_admits_readers_test :
    let lock' = release_writer crowd.lock in
    (lock'.readers ≡ length (leading_readers crowd.lock.waiters))
    × (lock'.writer ≡ false)
    × (lock'.waiters ≡ behind_readers crowd.lock.waiters)
    × (lock'.woken ≡ crowd.lock.woken ++ wakers (leading_readers crowd.lock.waiters))
drop_writer_admits_readers_test =
    drop_writer_admits_readers crowd (waiter 0 read 2) others history one_writer crowd_queue refl
