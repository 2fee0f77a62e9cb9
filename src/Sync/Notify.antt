-- ===== src/Sync/Notify.antt =====
-- src/sync/notify.rs. A method returns the new state; wakes are recorded in the heap's log, after all
-- other effects of the method.
pub mod Users
pub mod Inv
pub mod Steps
pub mod Safety
mod Tests
use runite.Prelude.{
  ℕ, List, [], ◌∷◌, ◌++◌, map, Option, none, some, Bool, true, false, if◌then◌else◌,
}
use runite.Sync.Waiters.{
  Waiter, Ticket, Heap, Poll, ready, pending, new_cell, select, wake, wake_all, remove_id, refresh,
  wrapping_suc,
}

-- `enum Selection`, with its first constructor renamed: `Poll` has a `pending` too.
pub data Selection : Type 0 where
  unnotified one waiters : Selection

-- `selected.get() != Selection::Pending`.
abbrev pub is_selected : Selection → Bool
is_selected unnotified = false
is_selected one = true
is_selected waiters = true

-- `struct Notify`.
pub record Notify : Type 0 where
  pub permit : Bool
  pub next_waiter_id : ℕ
  pub queue : List (Waiter (Unit {0}))
  pub heap : Heap Selection
  pub open heap use *

-- `struct Notified`.
pub record Notified : Type 0 where
  pub waiter : Option (Ticket (Unit {0}))
  pub done : Bool

unfoldable pub new : Heap Selection → Notify
new heap = record { permit = false; next_waiter_id = 0; queue = []; heap = heap }

-- `Notified::new`.
abbrev pub new_future : Notified
new_future = record { waiter = none; done = false }

unfoldable pub notify_one : Notify → Notify
unfolding select wake
notify_one s = elim s.queue [
  | [] ↦ record s { permit = true }
  | w ∷ ws ↦ record s { queue = ws; heap = wake w.waker (select w.selected one s.heap) }
]

-- The first loop of `notify_waiters`.
unfoldable pub select_all : List (Waiter (Unit {0})) → Heap Selection → Heap Selection
unfolding select
select_all [] h = h
select_all (w ∷ ws) h = select_all ws (select w.selected waiters h)

-- Everybody is selected before the first wake.
unfoldable pub notify_waiters : Notify → Notify
notify_waiters s = record s {
  queue = [];
  heap = wake_all (map (λ w. w.waker) s.queue) (select_all s.queue s.heap);
}

unfoldable pub allocate_waiter_id : Notify → Notify
allocate_waiter_id s = record s { next_waiter_id = wrapping_suc s.next_waiter_id }

unfoldable pub remove_waiter : ℕ → Notify → Notify
remove_waiter id s = record s { queue = remove_id id s.queue }

-- The first `Pending` of a future: a new waiter at the back of the queue.
unfoldable pub enqueue : ℕ → Notify → Notify × Notified × Poll
unfolding allocate_waiter_id new_cell
enqueue waker s = (
  record (allocate_waiter_id s) {
    queue =
        s.queue
        ++ record { id = s.next_waiter_id; kind = tt; selected = s.next_cell; waker = waker } ∷ [];
    heap = new_cell unnotified s.heap;
  },
  record {
    waiter = some (record { id = s.next_waiter_id; kind = tt; cell = s.next_cell });
    done = false;
  },
  pending,
)

-- `Notified::poll`; `permit.replace(false)` leaves the permit false whatever it was.
unfoldable pub poll : ℕ → Notify → Notified → Notify × Notified × Poll
poll waker s f = elim f.waiter [
  | none ↦
      if s.permit
      then (record s { permit = false }, record { waiter = none; done = true }, ready)
      else enqueue waker s
  | some t ↦
      if is_selected (s.cells t.cell)
      then (s, record f { done = true }, ready)
      else (record s { queue = refresh t.id waker s.queue }, f, pending)
]

-- The `match` of `Drop for Notified`.
unfoldable pub forward : Selection → Ticket (Unit {0}) → Notify → Notify
unfolding remove_waiter
forward unnotified t s = remove_waiter t.id s
forward one t s = notify_one s
forward waiters t s = s

-- `Drop for Notified`.
unfoldable pub drop_future : Notify → Notified → Notify
unfolding forward
drop_future s f =
    if f.done then s else elim f.waiter [ none ↦ s | some t ↦ forward (s.cells t.cell) t s ]
