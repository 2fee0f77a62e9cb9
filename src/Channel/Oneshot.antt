-- ===== src/Channel/Oneshot.antt =====
-- src/channel/oneshot.rs: the state behind the lock and each section of the two ends under it. A
-- completion handle is a number; what a section returns as the waiter to complete is fired by its
-- caller after the lock is released.
pub mod Users
pub mod Inv
pub mod Safety
mod Tests
use runite.Prelude.{ℕ, Option, none, some, Bool, true, false, not, ◌&&◌, ◌||◌, if◌then◌else◌}

module _ (A : Type 0) where
  -- `struct State`.
  pub record State : Type 0 where
    pub value : Option A
    pub sender_alive : Bool
    pub receiver_closed : Bool
    pub waiter : Option ℕ

  -- `struct Receiver`, less the shared state.
  pub record Receiver : Type 0 where
    pub consumed : Bool
    pub wait : Option ℕ

  -- `Ok(value)`, `Err(TryRecvError::Empty)` and `Err(TryRecvError::Closed)`.
  pub data RecvResult : Type 0 where
    received : A → RecvResult
    empty closed : RecvResult

  -- A state with the waiter to complete.
  abbrev pub Out : Type 0
  Out = State × Option ℕ

module _ {A : Type 0} where
  unfoldable pub channel : State A × Receiver A
  channel = (
    record { value = none; sender_alive = true; receiver_closed = false; waiter = none },
    record { consumed = false; wait = none },
  )

  -- `Sender::send`; the option is the value of `Err(SendError(value))`.
  unfoldable pub send : A → State A → Out A × Option A
  send value s =
      if s.receiver_closed
      then ((record s { sender_alive = false }, none), some value)
      else ((record s { sender_alive = false; value = some value; waiter = none }, s.waiter), none)

  -- `Drop for Sender`.
  unfoldable pub drop_sender : State A → Out A
  drop_sender s =
      if s.sender_alive
      then elim s.value [
        | none ↦ (record s { sender_alive = false; waiter = none }, s.waiter)
        | some v ↦ (record s { sender_alive = false }, none)
      ]
      else (s, none)

  -- The section of `try_recv` and the first one of `poll_recv`.
  unfoldable pub take_value : State A → State A × RecvResult A
  take_value s = elim s.value [
    | none ↦ (s, if s.receiver_closed || not s.sender_alive then closed else empty)
    | some v ↦ (record s { value = none }, received v)
  ]

  -- The callback that `poll_recv` installs, which also runs when a pending wait is dropped.
  unfoldable pub cancel_recv : State A → State A
  cancel_recv s = record s { waiter = none }

  -- What `try_recv` makes of the answer: unless it is `Empty`, the pending wait is dropped.
  abbrev pub after_take :
      Receiver A → State A × RecvResult A → (State A × Receiver A) × RecvResult A
  after_take r (s, received v) =
      ((cancel_recv s, record { consumed = true; wait = none }), received v)
  after_take r (s, empty) = ((s, r), empty)
  after_take r (s, closed) = ((cancel_recv s, record { consumed = true; wait = none }), closed)

  -- `Receiver::try_recv`.
  unfoldable pub try_recv : State A → Receiver A → (State A × Receiver A) × RecvResult A
  unfolding take_value cancel_recv
  try_recv s r = if r.consumed then ((s, r), closed) else after_take r (take_value s)

  -- What `poll_recv` makes of it: the wait is over when it comes to this section.
  abbrev pub after_poll :
      Receiver A → State A × RecvResult A → (State A × Receiver A) × RecvResult A
  after_poll r (s, received v) = ((s, record r { consumed = true }), received v)
  after_poll r (s, empty) = ((s, r), empty)
  after_poll r (s, closed) = ((s, record r { consumed = true }), closed)

  -- `Receiver::poll_recv` up to its second section.
  unfoldable pub poll_recv : State A → Receiver A → (State A × Receiver A) × RecvResult A
  unfolding take_value
  poll_recv s r = if r.consumed then ((s, r), closed) else after_poll r (take_value s)

  -- The second section of `poll_recv`. The Boolean is `immediate`; `none` is the assertion that no
  -- other waiter is stored, when it fails.
  unfoldable pub register_recv : ℕ → State A → Option (State A × Bool)
  register_recv handle s =
      if (elim s.value [ none ↦ false | some v ↦ true ])
        || (s.receiver_closed || not s.sender_alive)
      then some (s, true)
      else elim s.waiter [ none ↦ some (record s { waiter = some handle }, false) | some w ↦ none ]

  -- `Receiver::close`, and `Drop for Receiver`, which completes nobody.
  unfoldable pub close : State A → Out A
  close s = (record s { receiver_closed = true; waiter = none }, s.waiter)

  unfoldable pub drop_receiver : State A → State A
  drop_receiver s = record s { receiver_closed = true; waiter = none }

  abbrev pub is_closed : State A → Bool
  is_closed s = s.receiver_closed || not s.sender_alive
