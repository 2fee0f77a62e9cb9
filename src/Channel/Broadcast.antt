-- ===== src/Channel/Broadcast.antt =====
-- src/channel/broadcast.rs: the ring of slots and the waiters behind the lock, with each section of the
-- two ends under it. A completion handle is a number; what a section returns is completed by its caller
-- after the lock is released.
pub mod Log
pub mod Users
mod Wake
mod Inv
mod Steps
mod Kept
mod Ids
mod Moves
mod Histories
pub mod Safety
mod Tests
use runite.Channel.Gaps.{fill_gap}
use runite.Prelude.{
  ℕ, zero, suc, ◌+◌, ◌-◌, ◌%◌, ◌^◌, List, [], ◌∷◌, ◌++◌, Option, none, some, Bool, true, false,
  length, ltb, ◌==◌, if◌then◌else◌,
}

pub record RecvWaiter : Type 0 where
  pub id : ℕ
  pub next_seq : ℕ
  pub handle : ℕ

-- `slice::get`.
abbrev pub get : {A : Type 0} → ℕ → List A → Option A
get n [] = none
get zero (x ∷ xs) = some x
get (suc n) (x ∷ xs) = get n xs

-- `position` and `swap_remove`.
unfoldable pub without : ℕ → List RecvWaiter → List RecvWaiter
without id [] = []
without id (w ∷ ws) = if w.id == id then fill_gap ws else w ∷ without id ws

module _ (A : Type 0) where
  pub record Slot : Type 0 where
    pub seq : ℕ
    pub value : A

  pub record State : Type 0 where
    pub buffer : List Slot
    pub capacity : ℕ
    pub next_seq : ℕ
    pub sender_count : ℕ
    pub receiver_count : ℕ
    pub recv_waiters : List RecvWaiter
    pub next_waiter_id : ℕ

  pub data RecvOutcome : Type 0 where
    value : A → ℕ → RecvOutcome
    lagged : ℕ → ℕ → RecvOutcome
    closed : RecvOutcome

  -- What `recv_outcome` returns; `panics` is an `expect` that fails.
  pub data Looked : Type 0 where
    answers : RecvOutcome → Looked
    waits panics : Looked

  -- `Result<T, RecvError>`.
  pub data Received : Type 0 where
    received : A → Received
    missed : ℕ → Received
    ended : Received

  -- The `wait` of a receiver: the completion future as its owner sees it.
  pub data Wait : Type 0 where
    idle pending : Wait
    completed : RecvOutcome → Wait

  pub record Receiver : Type 0 where
    pub next_seq : ℕ
    pub wait : Wait

  pub data SendResult : Type 0 where
    send_error send_panics : SendResult
    sent : State → ℕ → List (ℕ × RecvOutcome) → SendResult

  pub data Polled : Type 0 where
    poll_panics poll_pending : Polled
    poll_ready : Received → Polled

module _ {A : Type 0} where
  -- The state that `channel` makes, for a capacity above 0.
  unfoldable pub new : ℕ → State A
  new capacity = record {
    buffer = [];
    capacity = capacity;
    next_seq = 0;
    sender_count = 1;
    receiver_count = 1;
    recv_waiters = [];
    next_waiter_id = 1;
  }

  abbrev pub front_seq : ℕ → List (Slot A) → ℕ
  front_seq next [] = next
  front_seq next (x ∷ xs) = x.seq

  unfoldable pub oldest_seq : State A → ℕ
  oldest_seq s = front_seq s.next_seq s.buffer

  abbrev pub found : Option (Slot A) → Looked A
  found none = panics
  found (some slot) = answers (value slot.value (slot.seq + 1))

  unfoldable pub recv_outcome : ℕ → State A → Looked A
  unfolding oldest_seq
  recv_outcome next s =
      if ltb next (oldest_seq s)
      then answers (lagged (oldest_seq s - next) (oldest_seq s))
      else if ltb next s.next_seq
      then found (get (next - oldest_seq s) s.buffer)
      else if s.sender_count == 0
      then answers closed
      else waits

  abbrev pub pop_front : List (Slot A) → List (Slot A)
  pop_front [] = []
  pop_front (x ∷ xs) = xs

  unfoldable pub push_value : A → State A → State A
  push_value v s = record s {
    buffer =
        (if length s.buffer == s.capacity then pop_front s.buffer else s.buffer)
        ++ record { seq = s.next_seq; value = v } ∷ [];
    next_seq = (s.next_seq + 1) % 2 ^ 64;
  }

  unfoldable pub enqueue_waiter : ℕ → ℕ → State A → State A × ℕ
  enqueue_waiter next handle s = (
    record s {
      next_waiter_id = (s.next_waiter_id + 1) % 2 ^ 64;
      recv_waiters =
          s.recv_waiters ++ record { id = s.next_waiter_id; next_seq = next; handle = handle } ∷ [];
    },
    s.next_waiter_id,
  )

  unfoldable pub remove_waiter : ℕ → State A → State A
  unfolding without
  remove_waiter id s = record s { recv_waiters = without id s.recv_waiters }

  -- The loop of `wake_ready_receivers`: the waiters that it has passed, those from `index` on, and what
  -- it has taken out. The waiters play no part in `recv_outcome`.
  unfoldable pub wake_loop :
      ℕ
      → State A
      → List RecvWaiter
      → List RecvWaiter
      → List (ℕ × RecvOutcome A)
      → Option (List RecvWaiter × List (ℕ × RecvOutcome A))
  unfolding recv_outcome
  wake_loop zero s kept rest ready = some (kept ++ rest, ready)
  wake_loop (suc fuel) s kept [] ready = some (kept, ready)
  wake_loop (suc fuel) s kept (w ∷ ws) ready = elim (recv_outcome w.next_seq s) [
    | answers o ↦ wake_loop fuel s kept (fill_gap ws) (ready ++ (w.handle, o) ∷ [])
    | waits ↦ wake_loop fuel s (kept ++ w ∷ []) ws ready
    | panics ↦ none
  ]

  abbrev pub with_waiters :
      State A
      → Option (List RecvWaiter × List (ℕ × RecvOutcome A))
      → Option (State A × List (ℕ × RecvOutcome A))
  with_waiters s none = none
  with_waiters s (some (waiters, ready)) = some (record s { recv_waiters = waiters }, ready)

  -- As many rounds as there are waiters are enough: each takes one out or passes it.
  unfoldable pub wake_ready_receivers : State A → Option (State A × List (ℕ × RecvOutcome A))
  unfolding wake_loop
  wake_ready_receivers s = with_waiters s (wake_loop (length s.recv_waiters) s [] s.recv_waiters [])

  -- There is a sender to drop.
  unfoldable pub drop_sender : State A → Option (State A × List (ℕ × RecvOutcome A))
  unfolding wake_ready_receivers
  drop_sender s =
      if s.sender_count - 1 == 0
      then wake_ready_receivers (record s { sender_count = s.sender_count - 1 })
      else some (record s { sender_count = s.sender_count - 1 }, [])

  abbrev pub sent_to : ℕ → Option (State A × List (ℕ × RecvOutcome A)) → SendResult A
  sent_to receivers none = send_panics
  sent_to receivers (some (s, ready)) = sent s receivers ready

  -- `Sender::send`, up to the completions.
  unfoldable pub send : A → State A → SendResult A
  unfolding push_value wake_ready_receivers
  send v s =
      if s.receiver_count == 0
      then send_error
      else sent_to s.receiver_count (wake_ready_receivers (push_value v s))

  unfoldable pub clone_sender : State A → State A
  clone_sender s = record s { sender_count = s.sender_count + 1 }

  -- `Sender::subscribe` and `Receiver::resubscribe`.
  unfoldable pub subscribe : State A → State A × Receiver A
  subscribe s = (
    record s { receiver_count = s.receiver_count + 1 },
    record { next_seq = s.next_seq; wait = idle },
  )

  unfoldable pub drop_receiver : State A → State A
  drop_receiver s = record s { receiver_count = s.receiver_count - 1 }

  -- `Receiver::len`.
  unfoldable pub len : Receiver A → State A → ℕ
  unfolding oldest_seq
  len r s =
      if ltb r.next_seq (oldest_seq s) then s.next_seq - oldest_seq s else s.next_seq - r.next_seq

  abbrev pub apply_outcome : RecvOutcome A → Receiver A → Receiver A × Received A
  apply_outcome (value v next) r = (record r { next_seq = next }, received v)
  apply_outcome (lagged skipped next) r = (record r { next_seq = next }, missed skipped)
  apply_outcome closed r = (r, ended)

  abbrev applied : Receiver A × Received A → Receiver A × Polled A
  applied (r, answer) = (r, poll_ready answer)

  -- `poll_recv` with a wait that is there.
  abbrev pub poll_wait : Wait A → Receiver A → Receiver A × Polled A
  poll_wait idle r = (r, poll_pending)
  poll_wait pending r = (r, poll_pending)
  poll_wait (completed o) r = applied (apply_outcome o (record r { wait = idle }))

  -- The section of `poll_recv` under the lock, with the wait that it leaves.
  abbrev pub registered : ℕ → Looked A → Receiver A → State A → State A × (Receiver A × Polled A)
  unfolding enqueue_waiter
  registered handle (answers o) r s = (s, poll_wait (completed o) r)
  registered handle waits r s =
      ((enqueue_waiter r.next_seq handle s).0, (record r { wait = pending }, poll_pending))
  registered handle panics r s = (s, (r, poll_panics))

  abbrev pub poll_on : ℕ → Wait A → Receiver A → State A → State A × (Receiver A × Polled A)
  unfolding recv_outcome enqueue_waiter
  poll_on handle idle r s = registered handle (recv_outcome r.next_seq s) r s
  poll_on handle pending r s = (s, poll_wait pending r)
  poll_on handle (completed o) r s = (s, poll_wait (completed o) r)

  -- `handle` is the one that `runtime_waiter` makes if the receiver does not wait yet.
  unfoldable pub poll_recv : ℕ → Receiver A → State A → State A × (Receiver A × Polled A)
  unfolding recv_outcome enqueue_waiter
  poll_recv handle r s = poll_on handle r.wait r s
