-- ===== src/Sync/OnceCell/Users.antt =====
-- A cell of src/sync/once_cell.rs with the tasks that call `get_or_init`.
use runite.Prelude.{ℕ, ◌≡◌, some, Bool, true, false}
use runite.Sync.Waiters.{Ticket}
use runite.Sync.Notify.{Notified, new_future, poll, drop_future}
use runite.Sync.OnceCell.{OnceCell, initializes, waits, new, look, finish, abandon}

-- `running` tells whether some task runs its initializer.
pub record System (A : Type 0) : Type 0 where
  pub cell : OnceCell A
  pub running : Bool

abbrev pub waiting : Ticket (Unit {0}) → Notified
waiting t = record { waiter = some t; done = false }

module _ {A : Type 0} where
  unfoldable pub start : System A
  start = record { cell = new; running = false }

  -- What one poll or drop of a caller does to the cell. A wait that ends and the look at the state after
  -- it are two steps, which others may separate; in the source they are one.
  pub data Step (s : System A) : System A → Type 0 where
    starts :
        (look s.cell).1 ≡ initializes → Step s (record { cell = (look s.cell).0; running = true })
    suspends :
        (waker : ℕ)
        → (look s.cell).1 ≡ waits
        → Step s
            (record s { cell = record s.cell { notify = (poll waker s.cell.notify new_future).0 } })
    poll_again :
        (waker : ℕ) (t : Ticket (Unit {0}))
        → Step s (record s {
          cell = record s.cell { notify = (poll waker s.cell.notify (waiting t)).0 };
        })
    cancel :
        (t : Ticket (Unit {0}))
        → Step s
            (record s { cell = record s.cell { notify = drop_future s.cell.notify (waiting t) } })
    finishes :
        (v : A) → s.running ≡ true → Step s (record { cell = finish v s.cell; running = false })
    gives_up : s.running ≡ true → Step s (record { cell = abandon s.cell; running = false })
