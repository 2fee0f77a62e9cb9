-- ===== src/Channel/Mpsc.antt =====
-- src/channel/mpsc.rs: the state behind the lock and the methods of its two ends. A completion handle
-- is a number that the caller supplies; completions are collected as the source collects them, to be
-- fired after the lock is released.
pub mod Ends
pub mod Users
pub mod Pump
pub mod Inv
pub mod Receives
pub mod Fifo
pub mod Waiter
pub mod Steps
pub mod Order
pub mod Safety
mod Tests
use runite.Prelude.{
  ℕ, zero, suc, ◌+◌, ◌-◌, ◌%◌, ◌^◌, List, [], ◌∷◌, ◌++◌, Option, none, some, Bool, true, false,
  ◌&&◌, is_empty, length, ltb, leb, not, ◌==◌, if◌then◌else◌,
}

module _ (A : Type 0) where
  -- `struct SendWaiter`.
  pub record SendWaiter : Type 0 where
    pub id : ℕ
    pub value : A
    pub handle : ℕ

  -- `enum PendingCompletion`.
  pub data PendingCompletion : Type 0 where
    recv_ready : ℕ → PendingCompletion
    send_ok : ℕ → PendingCompletion
    send_err : ℕ → A → PendingCompletion

  -- `enum TrySendError` with the success of its `Result`.
  pub data SendResult : Type 0 where
    sent : SendResult
    full closed : A → SendResult

  -- `struct State`.
  pub record State : Type 0 where
    pub queue : List A
    pub capacity : Option ℕ
    pub sender_count : ℕ
    pub receiver_closed : Bool
    pub recv_waiter : Option ℕ
    pub send_waiters : List SendWaiter
    pub next_waiter_id : ℕ

  -- A state with the completions collected so far.
  abbrev pub Out : Type 0
  Out = State × List PendingCompletion

module _ {A : Type 0} where
  -- `self.capacity.is_some_and(|capacity| self.queue.len() >= capacity)`.
  abbrev pub is_full : State A → Bool
  is_full s = elim s.capacity [ none ↦ false | some c ↦ leb c (length s.queue) ]

  -- `self.capacity.is_none_or(|capacity| self.queue.len() < capacity)`.
  abbrev pub has_capacity : State A → Bool
  has_capacity s = elim s.capacity [ none ↦ true | some c ↦ ltb (length s.queue) c ]

  unfoldable pub new : Option ℕ → State A
  new capacity = record {
    queue = [];
    capacity = capacity;
    sender_count = 1;
    receiver_closed = false;
    recv_waiter = none;
    send_waiters = [];
    next_waiter_id = 1;
  }

  unfoldable pub wake_receiver : Out A → Out A
  wake_receiver (s, cs) = elim s.recv_waiter [
    | none ↦ (s, cs)
    | some h ↦ (record s { recv_waiter = none }, cs ++ recv_ready h ∷ [])
  ]

  unfoldable pub try_send_now : A → Out A → Out A × SendResult A
  unfolding wake_receiver
  try_send_now value (s, cs) =
      if s.receiver_closed
      then ((s, cs), closed value)
      else if is_full s
      then ((s, cs), full value)
      else (wake_receiver (record s { queue = s.queue ++ value ∷ [] }, cs), sent)

  -- The loop of `fail_pending_senders` over the queue of waiters.
  unfoldable pub fail_all : List (SendWaiter A) → List (PendingCompletion A)
  fail_all [] = []
  fail_all (w ∷ ws) = send_err w.handle w.value ∷ fail_all ws

  unfoldable pub fail_pending_senders : Out A → Out A
  fail_pending_senders (s, cs) = (record s { send_waiters = [] }, cs ++ fail_all s.send_waiters)

  -- The loop of `pump_senders`, over the queue of waiters.
  unfoldable pub pump_loop : List (SendWaiter A) → Out A → Out A
  unfolding fail_pending_senders wake_receiver
  pump_loop [] (s, cs) = (record s { send_waiters = [] }, cs)
  pump_loop (w ∷ ws) (s, cs) =
      let (s', cs') = wake_receiver (record s { queue = s.queue ++ w.value ∷ [] }, cs) in
      let rest = pump_loop ws (s', cs' ++ send_ok w.handle ∷ []) in
      if s.receiver_closed
      then fail_pending_senders (record s { send_waiters = w ∷ ws }, cs)
      else if has_capacity s
      then rest
      else (record s { send_waiters = w ∷ ws }, cs)

  unfoldable pub pump_senders : Out A → Out A
  pump_senders (s, cs) =
      let out = pump_loop s.send_waiters (s, cs) in
      if is_empty out.0.queue && out.0.sender_count == 0 then wake_receiver out else out

  unfoldable pub close_receiver : Out A → Out A
  unfolding fail_pending_senders wake_receiver
  close_receiver (s, cs) =
      wake_receiver (fail_pending_senders (record s { receiver_closed = true }, cs))

  -- `checked_sub` cannot fail where there is a sender to drop.
  unfoldable pub drop_sender : Out A → Out A
  drop_sender (s, cs) =
      let s' = record s { sender_count = s.sender_count - 1 } in
      if s'.sender_count == 0 && is_empty s'.queue then wake_receiver (s', cs) else (s', cs)

  unfoldable pub remove_send_waiter : ℕ → List (SendWaiter A) → List (SendWaiter A)
  remove_send_waiter id [] = []
  remove_send_waiter id (w ∷ ws) = if w.id == id then ws else w ∷ remove_send_waiter id ws
