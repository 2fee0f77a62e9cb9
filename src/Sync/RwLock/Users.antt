-- ===== src/Sync/RwLock/Users.antt =====
-- A lock of src/sync/rw_lock.rs with the tasks that use it.
use runite.Prelude.{
  ℕ, suc, ◌+◌, ◌<◌, ◌≡◌, List, [], ◌∷◌, ◌++◌, none, some, Bool, false, if◌then◌else◌,
}
use runite.Sync.Waiters.{Ticket, Poll, ready, pending, usize_mod}
use runite.Sync.RwLock.{
  RwLock, Future, WaiterKind, read, write, new, new_future, try_read, try_write, poll_read,
  poll_write, drop_read_future, drop_write_future, release_reader, release_writer,
}

-- The futures that wait, in the order of their first poll, and the guards that are out.
pub record System : Type 0 where
  pub lock : RwLock
  pub live : List (Ticket WaiterKind)
  pub readers_held : ℕ
  pub writers_held : ℕ

unfoldable pub start : System
unfolding new
start = record {
  lock = new (record { cells = λ _. false; next_cell = 0; woken = [] });
  live = [];
  readers_held = 0;
  writers_held = 0;
}

abbrev pub waiting : Ticket WaiterKind → Future
waiting t = record { waiter = some t; acquired = false }

-- The method of the future of each kind.
abbrev pub poll : WaiterKind → ℕ → RwLock → Future → RwLock × Future × Poll
poll read = poll_read
poll write = poll_write

abbrev pub drop_future : WaiterKind → RwLock → Future → RwLock
drop_future read = drop_read_future
drop_future write = drop_write_future

-- A guard that is handed out.
abbrev pub hold : WaiterKind → System → System
hold read s = record s { readers_held = suc s.readers_held }
hold write s = record s { writers_held = suc s.writers_held }

-- A future that is ready hands out its guard and is dropped; one that waits keeps its place.
unfoldable pub after_poll :
    WaiterKind
    → List (Ticket WaiterKind)
    → List (Ticket WaiterKind)
    → System
    → RwLock × Future × Poll
    → System
after_poll k xs ys s (lock, f, ready) =
    hold k (record s { lock = drop_future k lock f; live = xs ++ ys })
after_poll k xs ys s (lock, f, pending) = elim f.waiter [
  | none ↦ record s { lock = lock; live = xs ++ ys }
  | some t ↦ record s { lock = lock; live = xs ++ t ∷ ys }
]

unfoldable pub after_try : WaiterKind → System → RwLock × Bool → System
after_try k s (lock, got) = let s' = record s { lock = lock } in if got then hold k s' else s'

-- What the tasks of the thread can do. A first poll supposes that the id counter does not wrap.
pub data Step (s : System) : System → Type 0 where
  first_poll :
      (k : WaiterKind) (waker : ℕ)
      → s.lock.next_waiter_id + 1 < usize_mod
      → Step s (after_poll k s.live [] s (poll k waker s.lock new_future))
  poll_again :
      (waker : ℕ) (xs : List (Ticket WaiterKind)) (t : Ticket WaiterKind)
      (ys : List (Ticket WaiterKind))
      → s.live ≡ xs ++ t ∷ ys
      → Step s (after_poll t.kind xs ys s (poll t.kind waker s.lock (waiting t)))
  cancel :
      (xs : List (Ticket WaiterKind)) (t : Ticket WaiterKind) (ys : List (Ticket WaiterKind))
      → s.live ≡ xs ++ t ∷ ys
      → Step s (record s { lock = drop_future t.kind s.lock (waiting t); live = xs ++ ys })
  drop_read_guard :
      (h : ℕ)
      → s.readers_held ≡ suc h
      → Step s (record s { lock = release_reader s.lock; readers_held = h })
  drop_write_guard :
      (h : ℕ)
      → s.writers_held ≡ suc h
      → Step s (record s { lock = release_writer s.lock; writers_held = h })
  try_to_read : Step s (after_try read s (try_read s.lock))
  try_to_write : Step s (after_try write s (try_write s.lock))
