-- ===== src/Channel/Mpsc/Ends.antt =====
-- The methods of `Sender`, `UnboundedSender` and `Receiver`: each of their sections under the lock.
use runite.Prelude.{
  ℕ, ◌+◌, ◌%◌, ◌^◌, [], ◌∷◌, ◌++◌, Option, none, some, Bool, true, false, ◌||◌, not, is_empty, ◌==◌,
  if◌then◌else◌,
}
use runite.Channel.Mpsc.{
  State, SendResult, Out, sent, full, closed, try_send_now, pump_senders, close_receiver,
  drop_sender, remove_send_waiter,
}

-- `Err(TryRecvError::Empty)`, `Err(TryRecvError::Disconnected)` and `Ok(value)`.
pub data RecvResult (A : Type 0) : Type 0 where
  received : A → RecvResult A
  nothing disconnected : RecvResult A

module _ {A : Type 0} where
  -- `Sender::try_send`, `UnboundedSender::send` and the first section of `Sender::poll_send`.
  unfoldable pub try_send : A → State A → Out A × SendResult A
  unfolding try_send_now
  try_send value s = try_send_now value (s, [])

  -- What `poll_send` does with the answer of its second attempt: a full queue gets a waiter.
  unfoldable pub publish_send_waiter : ℕ → Out A × SendResult A → Out A × SendResult A
  publish_send_waiter handle (out, sent) = (out, sent)
  publish_send_waiter handle (out, closed value) = (out, closed value)
  publish_send_waiter handle ((s, cs), full value) = (
    (
      record s {
        next_waiter_id = (s.next_waiter_id + 1) % 2 ^ 64;
        send_waiters =
            s.send_waiters ++ record { id = s.next_waiter_id; value = value; handle = handle } ∷ [];
      },
      cs,
    ),
    full value,
  )

  -- The second section of `Sender::poll_send`.
  unfoldable pub register_send : ℕ → A → State A → Out A × SendResult A
  unfolding try_send_now publish_send_waiter
  register_send handle value s = publish_send_waiter handle (try_send_now value (s, []))

  -- The callback that `set_cancel_send_waiter` installs.
  unfoldable pub cancel_send : ℕ → State A → State A
  cancel_send id s = record s { send_waiters = remove_send_waiter id s.send_waiters }

  -- `Clone` of either sender, and `Drop`.
  unfoldable pub clone_sender : State A → State A
  clone_sender s = record s { sender_count = s.sender_count + 1 }

  unfoldable pub drop_end : State A → Out A
  unfolding drop_sender
  drop_end s = drop_sender (s, [])

  -- `Receiver::try_recv`, and the first section of the loop of `poll_recv`, which tests the two flags
  -- in the other order.
  unfoldable pub try_recv : State A → Out A × RecvResult A
  try_recv s = elim s.queue [
    | [] ↦ ((s, []), if s.sender_count == 0 || s.receiver_closed then disconnected else nothing)
    | v ∷ vs ↦ (pump_senders (record s { queue = vs }, []), received v)
  ]

  -- The second section of `poll_recv`: the waiter is stored unless there is something to report. The
  -- Boolean is `immediate`; `none` is the assertion that no other waiter is stored, when it fails.
  unfoldable pub register_recv : ℕ → State A → Option (State A × Bool)
  register_recv handle s =
      if not (is_empty s.queue) || (s.receiver_closed || s.sender_count == 0)
      then some (s, true)
      else elim s.recv_waiter [
        | none ↦ some (record s { recv_waiter = some handle }, false)
        | some _ ↦ none
      ]

  -- The callback that `poll_recv` installs.
  unfoldable pub cancel_recv : State A → State A
  cancel_recv s = record s { recv_waiter = none }

  -- `Receiver::close`, and `Drop for Receiver`.
  unfoldable pub close : State A → Out A
  unfolding close_receiver
  close s = close_receiver (s, [])
