-- ===== src/Sync/Notify/Users.antt =====
-- A `Notify` of src/sync/notify.rs with the tasks that use it, and a count of what becomes of every
-- call of `notify_one`.
use runite.Prelude.{
  ℕ, suc, ◌+◌, ◌<◌, ◌≡◌, List, [], ◌∷◌, ◌++◌, none, some, Bool, true, false, ◌&&◌, is_empty,
}
use runite.Sync.Waiters.{Ticket, Poll, ready, pending, usize_mod}
use runite.Sync.Waiters.Pending.{bit}
use runite.Sync.Notify.{
  Notify, Notified, Selection, unnotified, one, waiters, new, new_future, notify_one,
  notify_waiters, poll, drop_future,
}

-- `live` holds the futures that wait, in the order of their first poll. `issued` counts the calls of
-- `notify_one`, `consumed` the polls that answered that such a call completed their future, and
-- `merged` the notifications that met a permit already stored.
pub record System : Type 0 where
  pub notify : Notify
  pub live : List (Ticket (Unit {0}))
  pub issued : ℕ
  pub consumed : ℕ
  pub merged : ℕ

unfoldable pub start : System
unfolding new
start = record {
  notify = new (record { cells = λ _. unnotified; next_cell = 0; woken = [] });
  live = [];
  issued = 0;
  consumed = 0;
  merged = 0;
}

abbrev pub waiting : Ticket (Unit {0}) → Notified
waiting t = record { waiter = some t; done = false }

-- A notification made now finds a permit and nobody to give it to.
abbrev pub merges : Notify → Bool
merges s = is_empty s.queue && s.permit

-- The state after a poll at the place between two parts of the queue.
unfoldable pub after_poll :
    List (Ticket (Unit {0})) → List (Ticket (Unit {0})) → System → Notify × Notified × Poll → System
after_poll xs ys s (n, f, ready) = record s { notify = drop_future n f; live = xs ++ ys }
after_poll xs ys s (n, f, pending) = elim f.waiter [
  | none ↦ record s { notify = n; live = xs ++ ys }
  | some t ↦ record s { notify = n; live = xs ++ t ∷ ys }
]

abbrev pub is_ready : Poll → Bool
is_ready ready = true
is_ready pending = false

abbrev pub is_one : Selection → Bool
is_one unnotified = false
is_one one = true
is_one waiters = false

-- What the tasks of the thread can do. A first poll supposes that the id counter does not wrap.
pub data Step (s : System) : System → Type 0 where
  notify_once : Step s (record s {
    notify = notify_one s.notify;
    issued = suc s.issued;
    merged = bit (merges s.notify) + s.merged;
  })
  notify_all : Step s (record s { notify = notify_waiters s.notify })
  first_poll :
      (waker : ℕ)
      → s.notify.next_waiter_id + 1 < usize_mod
      → Step s (record (after_poll s.live [] s (poll waker s.notify new_future)) {
        consumed = bit (is_ready (poll waker s.notify new_future).2) + s.consumed;
      })
  poll_again :
      (waker : ℕ) (xs : List (Ticket (Unit {0}))) (t : Ticket (Unit {0}))
      (ys : List (Ticket (Unit {0})))
      → s.live ≡ xs ++ t ∷ ys
      → Step s (record (after_poll xs ys s (poll waker s.notify (waiting t))) {
        consumed =
            bit (is_ready (poll waker s.notify (waiting t)).2 && is_one (s.notify.cells t.cell))
            + s.consumed;
      })
  cancel :
      (xs : List (Ticket (Unit {0}))) (t : Ticket (Unit {0})) (ys : List (Ticket (Unit {0})))
      → s.live ≡ xs ++ t ∷ ys
      → Step s (record s {
        notify = drop_future s.notify (waiting t);
        live = xs ++ ys;
        merged = bit (is_one (s.notify.cells t.cell) && merges s.notify) + s.merged;
      })
