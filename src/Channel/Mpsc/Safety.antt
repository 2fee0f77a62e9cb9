-- ===== src/Channel/Mpsc/Safety.antt =====
-- What the two ends of a channel may rely on, after every history.
use mathlib.Core.Path.{subst}
use mathlib.Core.List.{append-nil, Sublistᴰ}
use runite.Prelude.{
  ℕ, ◌≤◌, ◌<◌, ◌≡◌, ◌≢◌, refl, sym, ◌∙◌, ◌⊎◌, inl, inr, List, [], ◌∷◌, ◌++◌, Option, none, some,
  true, false, length, arith, Option-cases,
}
use runite.Channel.Mpsc.{State, new, recv_ready, closed, is_full, fail_all, wake_receiver}
use runite.Channel.Mpsc.Ends.{try_send, try_recv, received, register_recv, close}
use runite.Channel.Mpsc.Users.{System, Event, Step, start}
use runite.Channel.Mpsc.Pump.{accepted, values}
use runite.Channel.Mpsc.Inv.{Inv, is_positive}
use runite.Channel.Mpsc.Receives.{popped}
use runite.Channel.Mpsc.Fifo.{Fifo, pipeline, try_recv_front}
use runite.Channel.Mpsc.Steps.{Step-Fifo}
use runite.Channel.Mpsc.Order.{
  Trace, arrivals, deliveries, is_calm, start-Ok, Trace-Ok, Trace-order, Trace-calm,
}

module _ {A : Type 0} where
  abbrev pub FitsCapacity : Option ℕ → State A → Type 0
  FitsCapacity (some c) s =
      (length s.queue ≤ c)
      × (s.send_waiters ≢ [] → (s.receiver_closed ≡ false) × (length s.queue ≡ c))
  FitsCapacity none s = s.send_waiters ≡ []

  bounded : (c : Option ℕ) (s : State A) → Inv s → s.capacity ≡ c → FitsCapacity c s
  bounded (some c) s i cap =
      let within = i.within in
      let backlog = i.backlog in
      let short : length s.queue ≤ c = ground arith in (short, λ some_wait. ground arith)
  bounded none s i cap = let backlog = i.backlog in ground arith

  -- After every history of a channel with a positive capacity, the queue is no longer than the
  -- capacity, and a send waits only while the receiver is open and the queue is full; and of a channel
  -- with no capacity, no send ever waits.
  pub queue_bounded :
      (c : Option ℕ) (es : List (Event A)) (s : System A)
      → is_positive c ≡ true
      → Trace (start c) es s
      → FitsCapacity c s.state
  queue_bounded c es s p tr =
      let k = Trace-Ok tr (start-Ok c p) in bounded c s.state k.inner k.same_capacity

  -- After every history, if the receiver waits and no section has collected the completion of its wait,
  -- then the channel stores the handle of that wait and has nothing to report: the queue is empty, no send
  -- waits, the channel is open and has a sender. So no wakeup of the receiver is lost.
  pub waiting_receiver_has_nothing :
      (c : Option ℕ) (es : List (Event A)) (s : System A)
      → is_positive c ≡ true
      → Trace (start c) es s
      → s.unanswered ≢ none
      → (s.unanswered ≡ s.stream_wait)
        × (s.state.recv_waiter ≡ s.unanswered)
        × (s.state.queue ≡ [])
        × (s.state.send_waiters ≡ [])
        × (s.state.receiver_closed ≡ false)
        × (0 < s.state.sender_count)
  waiting_receiver_has_nothing c es s p tr w =
      let k = Trace-Ok tr (start-Ok c p) in
      let asked = k.asked in
      let stored : s.state.recv_waiter ≢ none = λ n. w (asked ∙ n) in
      let idle = k.inner.idle in
      let own = k.own in
      let backlog = k.inner.backlog in
      let positive = k.inner.positive in
      (asked ∙ ground arith, sym asked, ground arith, ground arith, ground arith, ground arith)

  register_recv-answers :
      (handle : ℕ) (s : State A) → s.recv_waiter ≡ none → register_recv handle s ≢ none
  unfolding register_recv
  register_recv-answers handle s n = ground arith

  -- After every history, a receiver that has no pending wait can register one: the assertion that no
  -- other waiter is stored does not fail.
  pub registering_never_panics :
      (c : Option ℕ) (es : List (Event A)) (s : System A) (handle : ℕ)
      → is_positive c ≡ true
      → Trace (start c) es s
      → s.stream_wait ≡ none
      → register_recv handle s.state ≢ none
  registering_never_panics c es s handle p tr n =
      let own = (Trace-Ok tr (start-Ok c p)).own in
      let unset : s.state.recv_waiter ≡ none = ground arith in
      register_recv-answers handle s.state unset

  -- After every history, each step moves the values that are queued or waiting the way its event says:
  -- a send that is accepted or waits enqueues its value, the receiver takes the oldest one, a cancelled
  -- send takes out at most one, closing keeps a prefix, and nothing else changes them.
  pub refines_fifo :
      (c : Option ℕ) (es : List (Event A)) (s : System A) (e : Event A) (t : System A)
      → is_positive c ≡ true
      → Trace (start c) es s
      → Step s e t
      → Fifo (pipeline s.state) e (pipeline t.state)
  refines_fifo c es s e t p tr st =
      let k = Trace-Ok tr (start-Ok c p) in Step-Fifo s e t st k.own k.inner

  -- Over every history, the values that the receiver got, followed by those in the channel, are a
  -- sublist of those that the senders handed over: no value is duplicated, invented or overtakes
  -- another.
  pub delivered_in_order :
      (c : Option ℕ) (es : List (Event A)) (s : System A)
      → is_positive c ≡ true
      → Trace (start c) es s
      → Sublistᴰ (deliveries es ++ pipeline s.state) (arrivals es)
  unfolding start new
  delivered_in_order c es s p tr = Trace-order tr (start-Ok c p)

  -- Over every history in which no send was cancelled and the receiver was not closed, the values that
  -- the receiver got, followed by those in the channel, are all that the senders handed over, in the
  -- order in which they handed them over: nothing is lost.
  pub nothing_lost :
      (c : Option ℕ) (es : List (Event A)) (s : System A)
      → is_positive c ≡ true
      → Trace (start c) es s
      → is_calm es ≡ true
      → deliveries es ++ pipeline s.state ≡ arrivals es
  unfolding start new
  nothing_lost c es s p tr calm = Trace-calm tr (start-Ok c p) calm

  -- After every history, a receiver takes the front of a queue that has one, and the freed place goes
  -- to the sends that waited longest: their values join the queue in order and exactly their handles
  -- are completed with success, in that order.
  pub receiving_admits_oldest :
      (c : Option ℕ) (es : List (Event A)) (s : System A) (v : A) (vs : List A)
      → is_positive c ≡ true
      → Trace (start c) es s
      → s.state.queue ≡ v ∷ vs
      → let r = try_recv s.state in
        (r.1 ≡ received v)
        × (r.0.0.queue ++ values r.0.0.send_waiters ≡ vs ++ values s.state.send_waiters)
        × (r.0.1 ++ accepted r.0.0.send_waiters ≡ accepted s.state.send_waiters)
        × ((r.0.0.send_waiters ≡ []) ⊎ (is_full r.0.0 ≡ true))
  receiving_admits_oldest c es s v vs p tr e =
      let k = Trace-Ok tr (start-Ok c p) in
      let pumped = popped v vs s.state e k.inner in
      let open_or_done = pumped.backlog in
      subst
        (λ r.
          (r.1 ≡ received v)
          × (r.0.0.queue ++ values r.0.0.send_waiters ≡ vs ++ values s.state.send_waiters)
          × (r.0.1 ++ accepted r.0.0.send_waiters ≡ accepted s.state.send_waiters)
          × ((r.0.0.send_waiters ≡ []) ⊎ (is_full r.0.0 ≡ true)))
        (sym (try_recv_front v vs s.state e))
        (refl, pumped.order, pumped.fired, elim open_or_done [ inl n ↦ inl n | inr (_, f) ↦ inr f ])

  -- Closing refuses every send that waits, with its value and in order, wakes a waiting receiver, keeps
  -- the queue for the receiver to drain, and from then on every send is refused with its value.
  pub close_refuses :
      (s : State A) (v : A)
      → let r = close s in
        (r.1
          ≡ fail_all s.send_waiters
            ++ elim s.recv_waiter [ none ↦ [] | some h ↦ recv_ready h ∷ [] ])
        × (r.0.queue ≡ s.queue)
        × (r.0.send_waiters ≡ [])
        × (r.0.recv_waiter ≡ none)
        × (try_send v r.0 ≡ ((r.0, []), closed v))
  unfolding close wake_receiver try_send
  close_refuses s v = elim (Option-cases s.recv_waiter) [
    | inl e ↦ rw (e, append-nil) (refl, refl, refl, e, refl)
    | inr (h, e) ↦ rw e (refl, refl, refl, refl, refl)
  ]
