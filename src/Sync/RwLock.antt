-- ===== src/Sync/RwLock.antt =====
-- src/sync/rw_lock.rs, less the protected value, which only a guard reaches. A method returns the
-- new lock; wakes are recorded in the heap's log, after all other effects of the method.
pub mod Users
pub mod Inv
pub mod Release
pub mod Steps
pub mod Safety
mod Tests
use runite.Prelude.{
  ℕ, suc, ◌+◌, ◌-◌, List, [], ◌∷◌, ◌++◌, Option, none, some, Bool, true, false, not, ◌&&◌, ◌||◌,
  is_empty, ltb, ◌==◌, if◌then◌else◌,
}
use runite.Sync.Waiters.{
  Waiter, Ticket, Heap, Poll, ready, pending, new_cell, select, wake_all, remove_id, refresh,
  wrapping_suc,
}

pub data WaiterKind : Type 0 where
  read write : WaiterKind

-- `waiter.kind == WaiterKind::Read`.
abbrev pub is_read : WaiterKind → Bool
is_read read = true
is_read write = false

-- `struct RwLock`.
pub record RwLock : Type 0 where
  pub readers : ℕ
  pub writer : Bool
  pub next_waiter_id : ℕ
  pub waiters : List (Waiter WaiterKind)
  pub heap : Heap Bool
  pub open heap use *

-- `struct RwLockReadFuture` and `struct RwLockWriteFuture`.
pub record Future : Type 0 where
  pub waiter : Option (Ticket WaiterKind)
  pub acquired : Bool

unfoldable pub new : Heap Bool → RwLock
new heap = record { readers = 0; writer = false; next_waiter_id = 0; waiters = []; heap = heap }

-- `RwLockReadFuture::new` and `RwLockWriteFuture::new`.
abbrev pub new_future : Future
new_future = record { waiter = none; acquired = false }

-- The Boolean is `Some(guard)`.
unfoldable pub try_read : RwLock → RwLock × Bool
try_read s =
    if s.writer || not (is_empty s.waiters)
    then (s, false)
    else (record s { readers = s.readers + 1 }, true)

unfoldable pub try_write : RwLock → RwLock × Bool
try_write s =
    if s.writer || (ltb 0 s.readers || not (is_empty s.waiters))
    then (s, false)
    else (record s { writer = true }, true)

unfoldable pub allocate_waiter_id : RwLock → RwLock
allocate_waiter_id s = record s { next_waiter_id = wrapping_suc s.next_waiter_id }

unfoldable pub remove_waiter : ℕ → RwLock → RwLock
remove_waiter id s = record s { waiters = remove_id id s.waiters }

-- The `while` loop of `release_to_next_waiters` over the readers at the front, with the wakers that
-- it collects. The list is the queue that is left.
unfoldable pub admit_readers : List (Waiter WaiterKind) → RwLock → List ℕ → RwLock × List ℕ
unfolding select
admit_readers [] s wakes = (record s { waiters = [] }, wakes)
admit_readers (w ∷ ws) s wakes =
    let rest =
      admit_readers ws (record s { readers = s.readers + 1; heap = select w.selected true s.heap })
        (wakes ++ w.waker ∷ []) in
    if is_read w.kind then rest else (record s { waiters = w ∷ ws }, wakes)

-- The writer at the front.
unfoldable pub admit_writer :
    Waiter WaiterKind → List (Waiter WaiterKind) → RwLock → RwLock × List ℕ
unfolding select
admit_writer w ws s =
    (record s { waiters = ws; writer = true; heap = select w.selected true s.heap }, w.waker ∷ [])

-- The block that borrows the queue: who is admitted, and whom to wake.
unfoldable pub admit : List (Waiter WaiterKind) → RwLock → RwLock × List ℕ
admit [] s = (s, [])
admit (w ∷ ws) s = if is_read w.kind then admit_readers (w ∷ ws) s [] else admit_writer w ws s

unfoldable pub fire : RwLock × List ℕ → RwLock
fire (s, wakes) = record s { heap = wake_all wakes s.heap }

unfoldable pub release_to_next_waiters : RwLock → RwLock
release_to_next_waiters s = if s.writer || ltb 0 s.readers then s else fire (admit s.waiters s)

-- Also `Drop for RwLockReadGuard`. The count is not 0 where this is called.
unfoldable pub release_reader : RwLock → RwLock
release_reader s =
    let t = record s { readers = s.readers - 1 } in
    if t.readers == 0 then release_to_next_waiters t else t

-- Also `Drop for RwLockWriteGuard`.
unfoldable pub release_writer : RwLock → RwLock
release_writer s = release_to_next_waiters (record s { writer = false })

-- The first `Pending` of a future: a new waiter at the back of the queue.
unfoldable pub enqueue : WaiterKind → ℕ → RwLock → RwLock × Future × Poll
unfolding allocate_waiter_id new_cell
enqueue kind waker s = (
  record (allocate_waiter_id s) {
    waiters =
        s.waiters
        ++ record { id = s.next_waiter_id; kind = kind; selected = s.next_cell; waker = waker }
          ∷ [];
    heap = new_cell false s.heap;
  },
  record {
    waiter = some (record { id = s.next_waiter_id; kind = kind; cell = s.next_cell });
    acquired = false;
  },
  pending,
)

-- `RwLockReadFuture::poll` of a future that has no waiter yet.
unfoldable pub poll_read_unregistered : ℕ → RwLock → RwLock × Future × Poll
unfolding enqueue
poll_read_unregistered waker s =
    if not s.writer && is_empty s.waiters
    then (record s { readers = s.readers + 1 }, record { waiter = none; acquired = true }, ready)
    else enqueue read waker s

-- `RwLockWriteFuture::poll` of a future that has no waiter yet.
unfoldable pub poll_write_unregistered : ℕ → RwLock → RwLock × Future × Poll
unfolding enqueue
poll_write_unregistered waker s =
    if not s.writer && (s.readers == 0 && is_empty s.waiters)
    then (record s { writer = true }, record { waiter = none; acquired = true }, ready)
    else enqueue write waker s

-- A poll of either future once it has a waiter.
unfoldable pub poll_registered : ℕ → RwLock → Future → Ticket WaiterKind → RwLock × Future × Poll
poll_registered waker s f t =
    if s.cells t.cell
    then (s, record f { acquired = true }, ready)
    else (record s { waiters = refresh t.id waker s.waiters }, f, pending)

-- `RwLockReadFuture::poll`.
unfoldable pub poll_read : ℕ → RwLock → Future → RwLock × Future × Poll
unfolding poll_read_unregistered poll_registered
poll_read waker s f = elim f.waiter [
  | none ↦ poll_read_unregistered waker s
  | some t ↦ poll_registered waker s f t
]

-- `RwLockWriteFuture::poll`.
unfoldable pub poll_write : ℕ → RwLock → Future → RwLock × Future × Poll
unfolding poll_write_unregistered poll_registered
poll_write waker s f = elim f.waiter [
  | none ↦ poll_write_unregistered waker s
  | some t ↦ poll_registered waker s f t
]

-- `Drop for RwLockReadFuture`.
unfoldable pub drop_read_future : RwLock → Future → RwLock
unfolding remove_waiter
drop_read_future s f = elim f.waiter [
  | none ↦ s
  | some t ↦
      if f.acquired then s else if s.cells t.cell then release_reader s else remove_waiter t.id s
]

-- `Drop for RwLockWriteFuture`.
unfoldable pub drop_write_future : RwLock → Future → RwLock
unfolding remove_waiter
drop_write_future s f = elim f.waiter [
  | none ↦ s
  | some t ↦
      if f.acquired then s else if s.cells t.cell then release_writer s else remove_waiter t.id s
]
