-- ===== src/Sync/Semaphore.antt =====
-- src/sync/semaphore.rs. A method returns the new semaphore; a wake is recorded in the heap's log,
-- after all other effects of the method, as the source makes it.
pub mod Inv
pub mod Steps
pub mod Safety
mod Tests
use runite.Prelude.{
  ℕ, suc, ◌+◌, ◌-◌, List, [], ◌∷◌, ◌++◌, Option, none, some, Bool, true, false, ◌&&◌, is_empty, ltb,
  if◌then◌else◌, ◌≡◌, ◌<◌,
}
use runite.Sync.Waiters.{
  Waiter, Ticket, Heap, Poll, ready, pending, new_cell, select, wake, remove_id, refresh,
  wrapping_suc, usize_mod,
}

-- `struct Semaphore`. `permits` cannot overflow: it never passes the number it starts with.
pub record Semaphore : Type 0 where
  pub permits : ℕ
  pub next_waiter_id : ℕ
  pub waiters : List (Waiter (Unit {0}))
  pub heap : Heap Bool
  pub open heap use *

-- `struct AcquireFuture`.
pub record AcquireFuture : Type 0 where
  pub waiter : Option (Ticket (Unit {0}))
  pub acquired : Bool

pub new : ℕ → Heap Bool → Semaphore
new permits heap = record { permits = permits; next_waiter_id = 0; waiters = []; heap = heap }

-- `AcquireFuture::new`.
abbrev pub new_future : AcquireFuture
new_future = record { waiter = none; acquired = false }

-- The Boolean is `Some(permit)`.
pub try_acquire : Semaphore → Semaphore × Bool
try_acquire s =
    if is_empty s.waiters
    then if ltb 0 s.permits then (record s { permits = s.permits - 1 }, true) else (s, false)
    else (s, false)

pub allocate_waiter_id : Semaphore → Semaphore
allocate_waiter_id s = record s { next_waiter_id = wrapping_suc s.next_waiter_id }

pub remove_waiter : ℕ → Semaphore → Semaphore
remove_waiter id s = record s { waiters = remove_id id s.waiters }

pub release_to_next_waiter : Semaphore → Semaphore
unfolding select wake
release_to_next_waiter s = elim s.waiters [
  | [] ↦ record s { permits = s.permits + 1 }
  | w ∷ ws ↦ record s { waiters = ws; heap = wake w.waker (select w.selected true s.heap) }
]

-- `Drop for SemaphorePermit`.
pub drop_permit : Semaphore → Semaphore
unfolding release_to_next_waiter
drop_permit s = release_to_next_waiter s

-- The future's first `Pending`: a new waiter at the back of the queue.
pub enqueue : ℕ → Semaphore → Semaphore × AcquireFuture × Poll
unfolding allocate_waiter_id new_cell
enqueue waker s = (
  record (allocate_waiter_id s) {
    waiters =
        s.waiters
        ++ record { id = s.next_waiter_id; kind = tt; selected = s.next_cell; waker = waker } ∷ [];
    heap = new_cell false s.heap;
  },
  record {
    waiter = some (record { id = s.next_waiter_id; kind = tt; cell = s.next_cell });
    acquired = false;
  },
  pending,
)

-- `AcquireFuture::poll` of a future that has no waiter yet.
pub poll_unregistered : ℕ → Semaphore → Semaphore × AcquireFuture × Poll
unfolding enqueue
poll_unregistered waker s =
    if is_empty s.waiters && ltb 0 s.permits
    then (record s { permits = s.permits - 1 }, record { waiter = none; acquired = true }, ready)
    else enqueue waker s

-- `AcquireFuture::poll`.
pub poll : ℕ → Semaphore → AcquireFuture → Semaphore × AcquireFuture × Poll
unfolding poll_unregistered
poll waker s f = elim f.waiter [
  | none ↦ poll_unregistered waker s
  | some t ↦
      if s.cells t.cell
      then (s, record f { acquired = true }, ready)
      else (record s { waiters = refresh t.id waker s.waiters }, f, pending)
]

-- `Drop for AcquireFuture`.
pub drop_future : Semaphore → AcquireFuture → Semaphore
unfolding release_to_next_waiter remove_waiter
drop_future s f = elim f.waiter [
  | none ↦ s
  | some t ↦
      if f.acquired
      then s
      else if s.cells t.cell
      then release_to_next_waiter s
      else remove_waiter t.id s
]

-- The semaphore with its users: the futures that wait, in the order of their first poll, and the
-- number of permits that are out.
pub record System : Type 0 where
  pub sem : Semaphore
  pub live : List (Ticket (Unit {0}))
  pub held : ℕ

pub start : ℕ → System
unfolding new
start n = record {
  sem = new n (record { cells = λ _. false; next_cell = 0; woken = [] });
  live = [];
  held = 0;
}

abbrev pub waiting : Ticket (Unit {0}) → AcquireFuture
waiting t = record { waiter = some t; acquired = false }

-- `acquire` drops its future once it is ready, and keeps it where it was while it waits.
pub after_poll :
    List (Ticket (Unit {0}))
    → List (Ticket (Unit {0}))
    → ℕ
    → Semaphore × AcquireFuture × Poll
    → System
unfolding drop_future
after_poll xs ys held (s, f, ready) = record {
  sem = drop_future s f;
  live = xs ++ ys;
  held = suc held;
}
after_poll xs ys held (s, f, pending) = elim f.waiter [
  | none ↦ record { sem = s; live = xs ++ ys; held = held }
  | some t ↦ record { sem = s; live = xs ++ t ∷ ys; held = held }
]

pub after_try : System → Semaphore × Bool → System
after_try s (sem, got) = record s { sem = sem; held = if got then suc s.held else s.held }

-- What the tasks of the thread can do. A first poll supposes that the id counter does not wrap.
pub data Step (s : System) : System → Type 0 where
  first_poll :
      (waker : ℕ)
      → s.sem.next_waiter_id + 1 < usize_mod
      → Step s (after_poll s.live [] s.held (poll waker s.sem new_future))
  poll_again :
      (waker : ℕ) (xs : List (Ticket (Unit {0}))) (t : Ticket (Unit {0}))
      (ys : List (Ticket (Unit {0})))
      → s.live ≡ xs ++ t ∷ ys
      → Step s (after_poll xs ys s.held (poll waker s.sem (waiting t)))
  cancel :
      (xs : List (Ticket (Unit {0}))) (t : Ticket (Unit {0})) (ys : List (Ticket (Unit {0})))
      → s.live ≡ xs ++ t ∷ ys
      → Step s (record s { sem = drop_future s.sem (waiting t); live = xs ++ ys })
  give_back : (h : ℕ) → s.held ≡ suc h → Step s (record s { sem = drop_permit s.sem; held = h })
  try : Step s (after_try s (try_acquire s.sem))
