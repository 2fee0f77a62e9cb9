-- ===== src/Channel/Watch.antt =====
-- src/channel/watch.rs: the value with its version, the book of waiters, and each section under their
-- locks. A completion handle is a number; what a section returns is completed by its caller after the
-- lock is released.
pub mod Wake
pub mod Users
pub mod Inv
mod Waits
pub mod Safety
mod Tests
use runite.Channel.Gaps.{fill_gap}
use runite.Prelude.{
  ℕ, zero, suc, ◌+◌, ◌-◌, ◌%◌, ◌^◌, List, [], ◌∷◌, ◌++◌, map, Option, none, some, Bool, true, false,
  length, ltb, ◌==◌, if◌then◌else◌,
}

pub record WatchWaiter : Type 0 where
  pub id : ℕ
  pub version : ℕ
  pub handle : ℕ

-- `struct Shared` with its `Book`.
pub record Shared (A : Type 0) : Type 0 where
  pub value : A
  pub version : ℕ
  pub sender_count : ℕ
  pub receiver_count : ℕ
  pub waiters : List WatchWaiter
  pub next_waiter_id : ℕ

-- `Ok(version)` and `Err(RecvError)`.
pub data Answer : Type 0 where
  changed : ℕ → Answer
  closed : Answer

-- `position` and `swap_remove` of `Book::remove_waiter`.
unfoldable pub remove_waiter : ℕ → List WatchWaiter → List WatchWaiter
remove_waiter id [] = []
remove_waiter id (w ∷ ws) = if w.id == id then fill_gap ws else w ∷ remove_waiter id ws

-- The loop of `Book::wake_changed`: what it has passed, what stands from `index` on, and the handles
-- that it has taken out.
unfoldable pub wake_loop :
    ℕ → ℕ → List WatchWaiter → List WatchWaiter → List ℕ → List WatchWaiter × List ℕ
wake_loop zero current kept rest ready = (kept ++ rest, ready)
wake_loop (suc fuel) current kept [] ready = (kept, ready)
wake_loop (suc fuel) current kept (w ∷ ws) ready = elim (ltb w.version current) [
  | true ↦ wake_loop fuel current kept (fill_gap ws) (ready ++ w.handle ∷ [])
  | false ↦ wake_loop fuel current (kept ++ w ∷ []) ws ready
]

-- What `poll_changed` makes of a completed wait: the version seen from then on and its result, where
-- `none` is a stale completion, after which it registers again.
unfoldable pub accept : ℕ → Answer → ℕ × Option Bool
accept seen (changed version) = if ltb seen version then (version, some true) else (seen, none)
accept seen closed = (seen, some false)

module _ {A : Type 0} where
  unfoldable pub channel : A → Shared A
  channel initial = record {
    value = initial;
    version = 0;
    sender_count = 1;
    receiver_count = 1;
    waiters = [];
    next_waiter_id = 1;
  }

  -- As many rounds as there are waiters are enough: each takes one out or passes it.
  unfoldable pub wake_changed : ℕ → Shared A → Shared A × List ℕ
  unfolding wake_loop
  wake_changed current s =
      let (waiters, ready) = wake_loop (length s.waiters) current [] s.waiters [] in
      (record s { waiters = waiters }, ready)

  -- `Drop for Sender`: `Book::close_sender`. There is a sender to drop.
  unfoldable pub close_sender : Shared A → Shared A × List ℕ
  close_sender s =
      if s.sender_count - 1 == 0
      then (record s { sender_count = 0; waiters = [] }, map (λ w. w.handle) s.waiters)
      else (record s { sender_count = s.sender_count - 1 }, [])

  -- `fetch_add` of the version, under the write lock of the value.
  unfoldable pub write : A → Shared A → Shared A
  write value s = record s { value = value; version = (s.version + 1) % 2 ^ 64 }

  -- The first section of `Sender::send`; `none` is `Err(SendError(value))`.
  unfoldable pub send : A → Shared A → Option (Shared A)
  unfolding write
  send value s = if s.receiver_count == 0 then none else some (write value s)

  -- The first sections of `send_modify` and `send_if_modified`, which returns whether it wrote.
  unfoldable pub send_modify : (A → A) → Shared A → Shared A
  unfolding write
  send_modify f s = write (f s.value) s

  unfoldable pub send_if_modified : (A → A × Bool) → Shared A → Shared A × Bool
  unfolding write
  send_if_modified f s =
      if (f s.value).1
      then (write (f s.value).0 s, true)
      else (record s { value = (f s.value).0 }, false)

  -- The section of `poll_changed` in which a receiver that has seen a version registers; an answer is
  -- `immediate`.
  unfoldable pub register : ℕ → ℕ → Shared A → Shared A × Option Answer
  register seen handle s =
      if ltb seen s.version
      then (s, some (changed s.version))
      else if s.sender_count == 0
      then (s, some closed)
      else (
        record s {
          next_waiter_id = (s.next_waiter_id + 1) % 2 ^ 64;
          waiters =
              s.waiters ++ record { id = s.next_waiter_id; version = seen; handle = handle } ∷ [];
        },
        none,
      )

  unfoldable pub cancel : ℕ → Shared A → Shared A
  unfolding remove_waiter
  cancel id s = record s { waiters = remove_waiter id s.waiters }

  unfoldable pub clone_sender : Shared A → Shared A
  clone_sender s = record s { sender_count = s.sender_count + 1 }

  unfoldable pub clone_receiver : Shared A → Shared A
  clone_receiver s = record s { receiver_count = s.receiver_count + 1 }

  -- The receiver starts at the current version.
  unfoldable pub subscribe : Shared A → Shared A × ℕ
  subscribe s = (record s { receiver_count = s.receiver_count + 1 }, s.version)

  unfoldable pub drop_receiver : Shared A → Shared A
  drop_receiver s = record s { receiver_count = s.receiver_count - 1 }

  -- The value with the version seen from then on.
  unfoldable pub borrow_and_update : Shared A → A × ℕ
  borrow_and_update s = (s.value, s.version)
