-- ===== src/Sync/Mutex.antt =====
-- src/sync/mutex.rs, less the protected value, which only a guard reaches. A method returns the new
-- mutex; a wake is recorded in the heap's log, after all other effects of the method.
pub mod Inv
pub mod Steps
pub mod Safety
mod Tests
use runite.Prelude.{
  ℕ, suc, ◌+◌, List, [], ◌∷◌, ◌++◌, Option, none, some, Bool, true, false, ◌&&◌, is_empty, not,
  ◌||◌, if◌then◌else◌, ◌≡◌, ◌<◌,
}
use runite.Sync.Waiters.{
  Waiter, Ticket, Heap, Poll, ready, pending, new_cell, select, wake, remove_id, refresh,
  wrapping_suc, usize_mod,
}

-- `struct Mutex`.
pub record Mutex : Type 0 where
  pub locked : Bool
  pub next_waiter_id : ℕ
  pub waiters : List (Waiter (Unit {0}))
  pub heap : Heap Bool
  pub open heap use *

-- `struct LockFuture`.
pub record LockFuture : Type 0 where
  pub waiter : Option (Ticket (Unit {0}))
  pub acquired : Bool

pub new : Heap Bool → Mutex
new heap = record { locked = false; next_waiter_id = 0; waiters = []; heap = heap }

-- `LockFuture::new`.
abbrev pub new_future : LockFuture
new_future = record { waiter = none; acquired = false }

-- The Boolean is `Some(guard)`.
pub try_lock : Mutex → Mutex × Bool
try_lock s =
    if s.locked || not (is_empty s.waiters) then (s, false) else (record s { locked = true }, true)

pub allocate_waiter_id : Mutex → Mutex
allocate_waiter_id s = record s { next_waiter_id = wrapping_suc s.next_waiter_id }

pub remove_waiter : ℕ → Mutex → Mutex
remove_waiter id s = record s { waiters = remove_id id s.waiters }

pub release_to_next_waiter : Mutex → Mutex
unfolding select wake
release_to_next_waiter s = elim s.waiters [
  | [] ↦ record s { locked = false }
  | w ∷ ws ↦ record s {
    waiters = ws;
    locked = true;
    heap = wake w.waker (select w.selected true s.heap);
  }
]

-- `Drop for MutexGuard`.
pub drop_guard : Mutex → Mutex
unfolding release_to_next_waiter
drop_guard s = release_to_next_waiter s

-- The future's first `Pending`: a new waiter at the back of the queue.
pub enqueue : ℕ → Mutex → Mutex × LockFuture × Poll
unfolding allocate_waiter_id new_cell
enqueue waker s = (
  record (allocate_waiter_id s) {
    waiters =
        s.waiters
        ++ record { id = s.next_waiter_id; kind = tt; selected = s.next_cell; waker = waker } ∷ [];
    heap = new_cell false s.heap;
  },
  record {
    waiter = some (record { id = s.next_waiter_id; kind = tt; cell = s.next_cell });
    acquired = false;
  },
  pending,
)

-- `LockFuture::poll` of a future that has no waiter yet.
pub poll_unregistered : ℕ → Mutex → Mutex × LockFuture × Poll
unfolding enqueue
poll_unregistered waker s =
    if not s.locked && is_empty s.waiters
    then (record s { locked = true }, record { waiter = none; acquired = true }, ready)
    else enqueue waker s

-- `LockFuture::poll`.
pub poll : ℕ → Mutex → LockFuture → Mutex × LockFuture × Poll
unfolding poll_unregistered
poll waker s f = elim f.waiter [
  | none ↦ poll_unregistered waker s
  | some t ↦
      if s.cells t.cell
      then (s, record f { acquired = true }, ready)
      else (record s { waiters = refresh t.id waker s.waiters }, f, pending)
]

-- `Drop for LockFuture`.
pub drop_future : Mutex → LockFuture → Mutex
unfolding release_to_next_waiter remove_waiter
drop_future s f = elim f.waiter [
  | none ↦ s
  | some t ↦
      if f.acquired
      then s
      else if s.cells t.cell
      then release_to_next_waiter s
      else remove_waiter t.id s
]

-- The mutex with its users: the futures that wait, in the order of their first poll, and the
-- number of guards that are out.
pub record System : Type 0 where
  pub mutex : Mutex
  pub live : List (Ticket (Unit {0}))
  pub held : ℕ

pub start : System
unfolding new
start = record {
  mutex = new (record { cells = λ _. false; next_cell = 0; woken = [] });
  live = [];
  held = 0;
}

abbrev pub waiting : Ticket (Unit {0}) → LockFuture
waiting t = record { waiter = some t; acquired = false }

-- `lock` drops its future once it is ready, and keeps it where it was while it waits.
pub after_poll :
    List (Ticket (Unit {0})) → List (Ticket (Unit {0})) → ℕ → Mutex × LockFuture × Poll → System
unfolding drop_future
after_poll xs ys held (s, f, ready) = record {
  mutex = drop_future s f;
  live = xs ++ ys;
  held = suc held;
}
after_poll xs ys held (s, f, pending) = elim f.waiter [
  | none ↦ record { mutex = s; live = xs ++ ys; held = held }
  | some t ↦ record { mutex = s; live = xs ++ t ∷ ys; held = held }
]

pub after_try : System → Mutex × Bool → System
after_try s (mutex, got) = record s { mutex = mutex; held = if got then suc s.held else s.held }

-- What the tasks of the thread can do. A first poll supposes that the id counter does not wrap.
pub data Step (s : System) : System → Type 0 where
  first_poll :
      (waker : ℕ)
      → s.mutex.next_waiter_id + 1 < usize_mod
      → Step s (after_poll s.live [] s.held (poll waker s.mutex new_future))
  poll_again :
      (waker : ℕ) (xs : List (Ticket (Unit {0}))) (t : Ticket (Unit {0}))
      (ys : List (Ticket (Unit {0})))
      → s.live ≡ xs ++ t ∷ ys
      → Step s (after_poll xs ys s.held (poll waker s.mutex (waiting t)))
  cancel :
      (xs : List (Ticket (Unit {0}))) (t : Ticket (Unit {0})) (ys : List (Ticket (Unit {0})))
      → s.live ≡ xs ++ t ∷ ys
      → Step s (record s { mutex = drop_future s.mutex (waiting t); live = xs ++ ys })
  give_back : (h : ℕ) → s.held ≡ suc h → Step s (record s { mutex = drop_guard s.mutex; held = h })
  try : Step s (after_try s (try_lock s.mutex))
