-- ===== src/Channel/Broadcast/Safety.antt =====
-- What senders and receivers of a broadcast channel may rely on.
use mathlib.Core.Path.{subst}
use mathlib.Core.List.{Memᴰ}
use mathlib.Core.List.Memᴰ.{head, tail}
use runite.Prelude.{
  ℕ, ◌+◌, ◌<◌, ◌≤◌, ◌≡◌, refl, sym, ap, ◌∙◌, ◌⊎◌, inl, inr, List, [], ◌∷◌, Bool-cases, length, ◌==◌,
  bit, copies, Reach, arith,
}
use runite.Channel.Broadcast.{
  RecvWaiter, State, RecvOutcome, value, lagged, closed, Looked, answers, waits, panics, ended,
  Wait, idle, pending, completed, Receiver, recv_outcome, poll_recv, poll_on, poll_wait,
  enqueue_waiter, registered, poll_ready,
}
use runite.Channel.Broadcast.Wake.{waiting_handles, handed_handles}
use runite.Channel.Broadcast.Users.{System, start, Step}
use runite.Channel.Broadcast.Inv.{OwedWait, is_pending, recv_outcome-Owed, nothing_to_receive, Inv}
use runite.Channel.Broadcast.Log.{promised, recv_outcome-promised}
use runite.Channel.Broadcast.Users.{System}
use runite.Channel.Broadcast.Histories.{reached-Inv}

found_waiter :
    (r : ℕ) (ws : List RecvWaiter)
    → 0 < copies r (waiting_handles ws)
    → (w : RecvWaiter) × Memᴰ w ws × (w.handle ≡ r)
found_waiter r [] e = absurd (omega arith)
found_waiter r (w ∷ ws) e = elim (Bool-cases (r == w.handle)) [
  | inl f ↦ (w, head refl, ground arith)
  | inr f ↦ let (x, m, q) = found_waiter r ws (ground arith) in (x, tail m, q)
]

module _ {A : Type 0} where
  -- After any history of a channel with a capacity above 0, `recv_outcome` answers a receiver at any place of the log with the value in
  -- that place if it is among the last `capacity` ones, with the number of those missed if it is older, and at
  -- the end of the log that the channel is closed if it has no senders, or else nothing; no `expect` fails.
  pub answers_are_exact :
      (capacity : ℕ) (s : System A) (n : ℕ)
      → 0 < capacity
      → Reach Step (start capacity) s
      → recv_outcome n s.state ≡ promised n s.state.capacity s.state.sender_count s.log
  answers_are_exact capacity s n p h =
      recv_outcome-promised s.state s.log n (reached-Inv capacity s p h).holds

  -- After any history of a channel with a capacity above 0, a receiver that waits has one waiter in the
  -- channel, or one completion that was collected and is still to be fired, and a receiver that does not
  -- wait has neither; and while a receiver has a waiter, the channel has nothing for it: no wake is lost.
  pub no_value_waits :
      (capacity : ℕ) (s : System A) (r : ℕ)
      → 0 < capacity
      → Reach Step (start capacity) s
      → (copies r (waiting_handles s.state.recv_waiters) + copies r (handed_handles s.completing)
          ≡ bit (is_pending (s.receiver r).wait))
        × ((copies r (waiting_handles s.state.recv_waiters) ≡ 0)
            ⊎ (recv_outcome (s.receiver r).next_seq s.state ≡ waits))
  no_value_waits capacity s r p h =
      let v = reached-Inv capacity s p h in
      let o = (v.own r).out in
      (
        o,
        elim (Bool-cases (copies r (waiting_handles s.state.recv_waiters) == 0)) [
          | inl f ↦ inl (ground arith)
          | inr f ↦
              let (w, m, q) = found_waiter r s.state.recv_waiters (ground arith) in
              let (x, y, z) = v.places w m in
              let n : w.next_seq ≡ (s.receiver r).next_seq =
                x ∙ ap (λ k. (s.receiver k).next_seq) q in
              inr (
                ap (λ k. recv_outcome k s.state) (sym n)
                ∙ nothing_to_receive s.state s.log w.next_seq v.holds y z)
        ],
      )

  ended_by :
      (o : RecvOutcome A) (x : Receiver A)
      → (poll_wait (completed o) x).1 ≡ poll_ready ended
      → o ≡ closed
  ended_by (value v m) x e = cc
  ended_by (lagged k m) x e = cc
  ended_by closed x e = refl

  looked_ended :
      (x : Looked A) (r : ℕ) (y : Receiver A) (t : State A)
      → (registered r x y t).1.1 ≡ poll_ready ended
      → x ≡ answers closed
  unfolding enqueue_waiter
  looked_ended (answers o) r y t e = ap answers (ended_by o y e)
  looked_ended waits r y t e = cc
  looked_ended panics r y t e = cc

  polled_ended :
      (w : Wait A) (s : System A) (r : ℕ)
      → Inv s
      → (s.receiver r).wait ≡ w
      → (poll_on r w (s.receiver r) s.state).1.1 ≡ poll_ready ended
      → (length s.log ≤ (s.receiver r).next_seq) × (s.state.sender_count ≡ 0)
  unfolding poll_on
  polled_ended idle s r v q e =
      recv_outcome-Owed s.state s.log (s.receiver r).next_seq (answers closed) v.holds
        (looked_ended (recv_outcome (s.receiver r).next_seq s.state) r (s.receiver r) s.state e)
  polled_ended pending s r v q e = cc
  polled_ended (completed o) s r v q e =
      subst (λ w. OwedWait w (s.receiver r).next_seq s.state.sender_count s.log)
        (q ∙ ap completed (ended_by o (s.receiver r) e)) (v.own r).owed

  -- After any history of a channel with a capacity above 0, a poll answers that the channel is closed only to a receiver that has come to
  -- the end of the log, and only when there are no senders left.
  pub closed_after_everything :
      (capacity : ℕ) (s : System A) (r : ℕ)
      → 0 < capacity
      → Reach Step (start capacity) s
      → (poll_recv r (s.receiver r) s.state).1.1 ≡ poll_ready ended
      → (length s.log ≤ (s.receiver r).next_seq) × (s.state.sender_count ≡ 0)
  unfolding poll_recv
  closed_after_everything capacity s r p h e =
      polled_ended (s.receiver r).wait s r (reached-Inv capacity s p h) refl e
