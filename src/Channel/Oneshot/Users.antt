-- ===== src/Channel/Oneshot/Users.antt =====
-- A oneshot channel with its two ends, each of whose sections under the lock is one step.
use runite.Prelude.{ℕ, ◌≡◌, List, [], ◌∷◌, ◌++◌, Option, none, some, Bool, true, false}
use runite.Channel.Oneshot.{
  State, Receiver, RecvResult, received, empty, closed, channel, send, drop_sender, try_recv,
  poll_recv, register_recv, cancel_recv, close, drop_receiver,
}

-- `sender` tells whether the sender is still there: `send` consumes it. `given` and `got` keep what
-- the sender handed over and what the receiver got.
pub record System (A : Type 0) : Type 0 where
  pub state : State A
  pub receiver : Receiver A
  pub sender : Bool
  pub given : Option A
  pub got : List A

module _ {A : Type 0} where
  unfoldable pub start : System A
  unfolding channel
  start = record { state = channel.0; receiver = channel.1; sender = true; given = none; got = [] }

  -- A value that `send` gives back was not handed over.
  abbrev pub handed : A → Option A → Option A
  handed v none = some v
  handed v (some _) = none

  abbrev pub collect : RecvResult A → List A → List A
  collect (received v) vs = vs ++ v ∷ []
  collect empty vs = vs
  collect closed vs = vs

  -- The state after a section of the receiver.
  abbrev pub after_recv : System A → (State A × Receiver A) × RecvResult A → System A
  after_recv s ((state, receiver), result) = record s {
    state = state;
    receiver = receiver;
    got = collect result s.got;
  }

  pub data Step (s : System A) : System A → Type 0 where
    send_value :
        (v : A)
        → s.sender ≡ true
        → Step s (record s {
          state = (send v s.state).0.0;
          sender = false;
          given = handed v (send v s.state).1;
        })
    lose_sender :
        s.sender ≡ true → Step s (record s { state = (drop_sender s.state).0; sender = false })
    try_receive : Step s (after_recv s (try_recv s.state s.receiver))
    poll_receive : s.receiver.wait ≡ none → Step s (after_recv s (poll_recv s.state s.receiver))
    start_wait :
        (handle : ℕ) (t : State A) (immediate : Bool)
        → s.receiver.consumed ≡ false
        → s.receiver.wait ≡ none
        → register_recv handle s.state ≡ some (t, immediate)
        → Step s (record s { state = t; receiver = record s.receiver { wait = some handle } })
    woken :
        s.state.waiter ≡ none → Step s (record s { receiver = record s.receiver { wait = none } })
    abandon :
        Step s
          (record s { state = cancel_recv s.state; receiver = record s.receiver { wait = none } })
    shut : Step s (record s { state = (close s.state).0 })
    lose_receiver : Step s (record s { state = drop_receiver s.state })
