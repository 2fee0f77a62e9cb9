-- ===== src/Channel/Mpsc/Pump.antt =====
-- `pump_senders`: which waiting sends it accepts.
use mathlib.Core.Path.{subst}
use mathlib.Core.List.{append_assoc}
use runite.Prelude.{
  ◌≡◌, refl, sym, ◌∙◌, ◌⊎◌, inl, inr, List, [], ◌∷◌, ◌++◌, map, none, some, Bool, true, false, ◌&&◌,
  arith, Bool-cases, length, length-append, ltb, is_empty, ◌==◌,
}
use runite.Channel.Mpsc.{
  State, SendWaiter, PendingCompletion, Out, send_ok, is_full, has_capacity, wake_receiver,
  pump_loop, pump_senders,
}

module _ {A : Type 0} where
  -- The queue is longer than the channel allows.
  abbrev pub is_over : State A → Bool
  is_over s = elim s.capacity [ none ↦ false | some c ↦ ltb c (length s.queue) ]

  abbrev pub values : List (SendWaiter A) → List A
  values = map (λ w. w.value)

  abbrev pub accepted : List (SendWaiter A) → List (PendingCompletion A)
  accepted = map (λ w. send_ok w.handle)

  -- Sends wait only for a queue that is full and open.
  abbrev pub Backlog : State A → Type 0
  Backlog s = (s.send_waiters ≡ []) ⊎ ((s.receiver_closed ≡ false) × (is_full s ≡ true))

  pub wake_receiver-none :
      (s : State A) (cs : List (PendingCompletion A))
      → s.recv_waiter ≡ none
      → wake_receiver (s, cs) ≡ (s, cs)
  unfolding wake_receiver
  wake_receiver-none s cs e = ground arith

  -- What the loop makes of a state and a queue of waiters: values and completions keep their order,
  -- and it stops only when nobody waits or the queue is full.
  pub record Pumped (ws : List (SendWaiter A)) (start : Out A) (out : Out A) : Type 0 where
    pub order : out.0.queue ++ values out.0.send_waiters ≡ start.0.queue ++ values ws
    pub fired : out.1 ++ accepted out.0.send_waiters ≡ start.1 ++ accepted ws
    pub recv : out.0.recv_waiter ≡ none
    pub same_closed : out.0.receiver_closed ≡ start.0.receiver_closed
    pub same_count : out.0.sender_count ≡ start.0.sender_count
    pub same_capacity : out.0.capacity ≡ start.0.capacity
    pub within : is_over out.0 ≡ false
    pub backlog : Backlog out.0

  push_within :
      (s : State A) (v : A)
      → has_capacity s ≡ true
      → is_over (record s { queue = s.queue ++ v ∷ [] }) ≡ false
  push_within s v h = ground (arith, length-append s.queue (v ∷ []))

  pump_loop_go :
      (w : SendWaiter A) (ws : List (SendWaiter A)) (s : State A) (cs : List (PendingCompletion A))
      → s.recv_waiter ≡ none
      → s.receiver_closed ≡ false
      → has_capacity s ≡ true
      → pump_loop (w ∷ ws) (s, cs)
        ≡ pump_loop ws (record s { queue = s.queue ++ w.value ∷ [] }, cs ++ send_ok w.handle ∷ [])
  unfolding pump_loop
  pump_loop_go w ws s cs e open_now room =
      simp (open_now, room, wake_receiver-none (record s { queue = s.queue ++ w.value ∷ [] }) cs e)

  pump_loop_stop :
      (w : SendWaiter A) (ws : List (SendWaiter A)) (s : State A) (cs : List (PendingCompletion A))
      → s.receiver_closed ≡ false
      → has_capacity s ≡ false
      → pump_loop (w ∷ ws) (s, cs) ≡ (record s { send_waiters = w ∷ ws }, cs)
  unfolding pump_loop
  pump_loop_stop w ws s cs open_now full = simp (open_now, full)

  pub pump_loop-Pumped :
      (ws : List (SendWaiter A)) (s : State A) (cs : List (PendingCompletion A))
      → s.recv_waiter ≡ none
      → is_over s ≡ false
      → (ws ≡ []) ⊎ (s.receiver_closed ≡ false)
      → Pumped ws (s, cs) (pump_loop ws (s, cs))
  unfolding pump_loop
  pump_loop-Pumped [] s cs e o c = record {
    order = refl;
    fired = refl;
    recv = e;
    same_closed = refl;
    same_count = refl;
    same_capacity = refl;
    within = o;
    backlog = inl refl;
  }
  pump_loop-Pumped (w ∷ ws) s cs e o c =
      let open_now : s.receiver_closed ≡ false = elim c [ inl n ↦ absurd (cc) | inr f ↦ f ] in
      elim (Bool-cases (has_capacity s)) [
        | inl room ↦
            let ih =
              pump_loop-Pumped ws (record s { queue = s.queue ++ w.value ∷ [] })
                (cs ++ send_ok w.handle ∷ []) e (push_within s w.value room) (inr open_now) in
            subst (Pumped (w ∷ ws) (s, cs)) (sym (pump_loop_go w ws s cs e open_now room)) (record {
              order = ih.order ∙ append_assoc s.queue (w.value ∷ []) (values ws);
              fired = ih.fired ∙ append_assoc cs (send_ok w.handle ∷ []) (accepted ws);
              recv = ih.recv;
              same_closed = ih.same_closed;
              same_count = ih.same_count;
              same_capacity = ih.same_capacity;
              within = ih.within;
              backlog = ih.backlog;
            })
        | inr stop ↦
            subst (Pumped (w ∷ ws) (s, cs)) (sym (pump_loop_stop w ws s cs open_now stop)) (record {
              order = refl;
              fired = refl;
              recv = e;
              same_closed = refl;
              same_count = refl;
              same_capacity = refl;
              within = o;
              backlog = inr (open_now, ground arith);
            })
      ]

  -- The whole of `pump_senders`, when no receiver waits.
  pub pump_senders-Pumped :
      (s : State A) (cs : List (PendingCompletion A))
      → s.recv_waiter ≡ none
      → is_over s ≡ false
      → (s.send_waiters ≡ []) ⊎ (s.receiver_closed ≡ false)
      → Pumped s.send_waiters (s, cs) (pump_senders (s, cs))
  unfolding pump_senders
  pump_senders-Pumped s cs e o c =
      let loop = pump_loop-Pumped s.send_waiters s cs e o c in
      elim (Bool-cases (
        is_empty (pump_loop s.send_waiters (s, cs)).0.queue
        && (pump_loop s.send_waiters (s, cs)).0.sender_count == 0)) [
          | inl end ↦
              rw
                (
                  end,
                  wake_receiver-none (pump_loop s.send_waiters (s, cs)).0
                      (pump_loop s.send_waiters (s, cs)).1 loop.recv,
                )
                loop
          | inr more ↦ rw more loop
        ]
