-- ===== src/Sync/OnceCell.antt =====
-- src/sync/once_cell.rs over the model of its `Notify`. What a caller of `get_or_init` does between two
-- of its suspensions is one function; the initializer is the caller's, and its value an argument.
pub mod Users
pub mod Safety
mod Tests
use runite.Prelude.{ℕ, ◌+◌, ◌<◌, ◌≡◌, List, [], ◌∷◌, ◌++◌, Option, none, some, Bool, true, false}
use runite.Sync.Waiters.{Ticket, Poll, Heap, ready, pending, usize_mod}
use runite.Sync.Notify.{
  Notify, Notified, Selection, unnotified, new_future, notify_waiters, poll, drop_future,
}

-- `enum State`, with its constructors renamed: `Poll` has a `ready` too.
pub data State : Type 0 where
  vacant initializing filled : State

module _ (A : Type 0) where
  -- `struct OnceCell`.
  pub record OnceCell : Type 0 where
    pub state : State
    pub notify : Notify
    pub value : Option A

  -- What `get_or_init` does when it looks at the state.
  pub data Turn : Type 0 where
    returns : Option A → Turn
    initializes waits : Turn

module _ {A : Type 0} where
  unfoldable pub new : OnceCell A
  new = record {
    state = vacant;
    notify = runite.Sync.Notify.new (record { cells = λ _. unnotified; next_cell = 0; woken = [] });
    value = none;
  }

  -- `OnceCell::get`.
  unfoldable pub get : OnceCell A → Option A
  get c = elim c.state [ vacant ↦ none | initializing ↦ none | filled ↦ c.value ]

  unfoldable pub look : OnceCell A → OnceCell A × Turn A
  unfolding get
  look c = elim c.state [
    | vacant ↦ (record c { state = initializing }, initializes)
    | initializing ↦ (c, waits)
    | filled ↦ (c, returns (get c))
  ]

  -- The initializer returns a value.
  unfoldable pub finish : A → OnceCell A → OnceCell A
  finish v c = record { state = filled; notify = notify_waiters c.notify; value = some v }

  -- `Drop for InitGuard` while it is armed: the initializer was dropped or panicked.
  unfoldable pub abandon : OnceCell A → OnceCell A
  abandon c = record c { state = vacant; notify = notify_waiters c.notify }
