-- ===== src/Channel/Mpsc/Users.antt =====
-- A channel with its senders and its receiver, each of whose sections under the lock is one step.
use runite.Prelude.{ℕ, ◌<◌, ◌≡◌, List, [], ◌∷◌, Option, none, some, Bool, ◌==◌, if◌then◌else◌}
use runite.Channel.Mpsc.{
  State, SendResult, Out, PendingCompletion, recv_ready, send_ok, send_err, sent, full, closed, new,
}
use runite.Channel.Mpsc.Ends.{
  RecvResult, received, nothing, disconnected, try_send, register_send, cancel_send, clone_sender,
  drop_end, try_recv, register_recv, cancel_recv, close,
}

abbrev pub answered : ℕ → Option ℕ → Option ℕ
answered h none = none
answered h (some k) = if k == h then none else some k

module _ (A : Type 0) where
  -- `stream_wait` is the receiver's own, outside the lock. `unanswered` is the handle of its wait as long
  -- as no section has collected the completion of that handle.
  pub record System : Type 0 where
    pub state : State A
    pub stream_wait : Option ℕ
    pub unanswered : Option ℕ

  -- What a step shows: a value that the channel took over from a sender, one that it gave to the
  -- receiver, one that a sender took back, or that waiting sends were refused.
  pub data Event : Type 0 where
    arrived delivered : A → Event
    withdrawn refused silent : Event

module _ {A : Type 0} where
  unfoldable pub start : Option ℕ → System A
  start capacity = record { state = new capacity; stream_wait = none; unanswered = none }

  -- A send that is accepted, or waits, has arrived; one that is refused keeps its value.
  abbrev pub sent_event : A → SendResult A → Event A
  sent_event v sent = arrived v
  sent_event v (full _) = silent
  sent_event v (closed _) = silent

  abbrev pub registered_event : A → SendResult A → Event A
  registered_event v sent = arrived v
  registered_event v (full _) = arrived v
  registered_event v (closed _) = silent

  abbrev pub received_event : RecvResult A → Event A
  received_event (received v) = delivered v
  received_event nothing = silent
  received_event disconnected = silent

  -- What is left of a wait when the completions that a section collected have been fired.
  abbrev pub settle : List (PendingCompletion A) → Option ℕ → Option ℕ
  settle [] o = o
  settle (recv_ready h ∷ cs) o = settle cs (answered h o)
  settle (send_ok h ∷ cs) o = settle cs o
  settle (send_err h v ∷ cs) o = settle cs o

  abbrev pub after : Out A → System A → System A
  after (t, cs) s = record s { state = t; unanswered = settle cs s.unanswered }

  -- `try_recv` drops the pending wait unless it found nothing; a wait that is dropped before it
  -- completes runs the callback that takes the waiter away.
  abbrev pub after_recv : System A → Out A × RecvResult A → System A
  after_recv s (out, nothing) = after out s
  after_recv s (out, received v) = record {
    state = cancel_recv out.0;
    stream_wait = none;
    unanswered = none;
  }
  after_recv s (out, disconnected) = record {
    state = cancel_recv out.0;
    stream_wait = none;
    unanswered = none;
  }

  -- The receiver goes on when the completion of its wait has been collected.
  pub data Step (s : System A) : Event A → System A → Type 0 where
    send : (v : A) → Step s (sent_event v (try_send v s.state).1) (after (try_send v s.state).0 s)
    register :
        (handle : ℕ) (v : A)
        → Step s
            (registered_event v (register_send handle v s.state).1)
            (after (register_send handle v s.state).0 s)
    cancel : (id : ℕ) → Step s withdrawn (record s { state = cancel_send id s.state })
    clone : 0 < s.state.sender_count → Step s silent (record s { state = clone_sender s.state })
    drop : 0 < s.state.sender_count → Step s silent (after (drop_end s.state) s)
    receive : Step s (received_event (try_recv s.state).1) (after_recv s (try_recv s.state))
    poll_receive :
        s.stream_wait ≡ none
        → Step s (received_event (try_recv s.state).1) (after (try_recv s.state).0 s)
    wait :
        (handle : ℕ) (t : State A) (immediate : Bool)
        → s.stream_wait ≡ none
        → register_recv handle s.state ≡ some (t, immediate)
        → Step s silent (record {
          state = t;
          stream_wait = some handle;
          unanswered = if immediate then none else some handle;
        })
    woken : s.unanswered ≡ none → Step s silent (record s { stream_wait = none })
    abandon :
        Step s silent
          (record { state = cancel_recv s.state; stream_wait = none; unanswered = none })
    shut : Step s refused (after (close s.state) s)
