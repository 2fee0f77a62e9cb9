-- ===== src/Channel/Mpsc/Waiter.antt =====
-- No operation but the receiver's own registration stores a waiter for the receiver, and none
-- changes the capacity.
use mathlib.Core.Path.{subst}
use runite.Prelude.{
  ℕ, Option, true, ◌-◌, ◌==◌, ◌&&◌, is_empty, ◌∙◌, ◌≡◌, refl, sym, ap, ◌⊎◌, inl, inr, List, [], ◌∷◌,
  ◌++◌, none, arith, Bool-cases, List-cases, Option-cases,
}
use runite.Channel.Mpsc.Users.{settle, answered}
use runite.Channel.Mpsc.{
  SendWaiter, fail_all, recv_ready, send_ok, send_err, pump_senders, State, PendingCompletion,
  wake_receiver, is_full,
}
use runite.Channel.Mpsc.Ends.{
  try_send, register_send, publish_send_waiter, drop_end, try_recv, close,
}
use runite.Channel.Mpsc.Inv.{Inv, try_send_now_closed, try_send_now_full, try_send_now_sent}
use runite.Channel.Mpsc.Receives.{popped, try_recv_empty, try_recv_pumps}

module _ {A : Type 0} where
  abbrev pub Kept : State A → State A → Type 0
  Kept s t = ((t.recv_waiter ≡ none) ⊎ (t.recv_waiter ≡ s.recv_waiter)) × (t.capacity ≡ s.capacity)

  wake-Kept :
      (s t : State A) (cs : List (PendingCompletion A))
      → t.capacity ≡ s.capacity
      → Kept s (wake_receiver (t, cs)).0
  unfolding wake_receiver
  wake-Kept s t cs c = elim (Option-cases t.recv_waiter) [
    | inl e ↦ rw e (inl refl, c)
    | inr (h, e) ↦ rw e (inl refl, c)
  ]

  pub try_send-Kept : (v : A) (s : State A) → Kept s (try_send v s).0.0
  unfolding try_send
  try_send-Kept v s = elim (Bool-cases s.receiver_closed) [
    | inl c ↦ subst (λ o. Kept s o.0.0) (sym (try_send_now_closed v s [] c)) (inr refl, refl)
    | inr o ↦ elim (Bool-cases (is_full s)) [
      | inl f ↦ subst (λ o. Kept s o.0.0) (sym (try_send_now_full v s [] o f)) (inr refl, refl)
      | inr r ↦
          subst (λ o. Kept s o.0.0) (sym (try_send_now_sent v s [] o r))
            (wake-Kept s (record s { queue = s.queue ++ v ∷ [] }) [] refl)
    ]
  ]

  pub register_send-Kept :
      (handle : ℕ) (v : A) (s : State A) → Kept s (register_send handle v s).0.0
  unfolding register_send publish_send_waiter
  register_send-Kept handle v s = elim (Bool-cases s.receiver_closed) [
    | inl c ↦
        subst (λ o. Kept s (publish_send_waiter handle o).0.0) (sym (try_send_now_closed v s [] c))
          (inr refl, refl)
    | inr o ↦ elim (Bool-cases (is_full s)) [
      | inl f ↦
          subst (λ o. Kept s (publish_send_waiter handle o).0.0)
            (sym (try_send_now_full v s [] o f)) (inr refl, refl)
      | inr r ↦
          subst (λ o. Kept s (publish_send_waiter handle o).0.0)
            (sym (try_send_now_sent v s [] o r))
            (wake-Kept s (record s { queue = s.queue ++ v ∷ [] }) [] refl)
    ]
  ]

  pub drop_end-Kept : (s : State A) → Kept s (drop_end s).0
  unfolding drop_end wake_receiver
  drop_end-Kept s = (ground arith, ground arith)

  pub close-Kept :
      (s : State A) → ((close s).0.recv_waiter ≡ none) × ((close s).0.capacity ≡ s.capacity)
  unfolding close wake_receiver
  close-Kept s = (ground arith, ground arith)

  pub try_recv-Kept : (s : State A) → Inv s → Kept s (try_recv s).0.0
  try_recv-Kept s i = elim (List-cases s.queue) [
    | inl e ↦ subst (Kept s) (sym (try_recv_empty s e)) (inr refl, refl)
    | inr (v, vs, e) ↦
        subst (Kept s) (sym (try_recv_pumps v vs s e))
          (inl (popped v vs s e i).recv, (popped v vs s e i).same_capacity)
  ]

  -- No section takes the receiver's waiter away without collecting its completion.
  settle-none : (cs : List (PendingCompletion A)) → settle cs none ≡ none
  settle-none [] = refl
  settle-none (recv_ready h ∷ cs) = settle-none cs
  settle-none (send_ok h ∷ cs) = settle-none cs
  settle-none (send_err h v ∷ cs) = settle-none cs

  settle-append :
      (cs ds : List (PendingCompletion A)) (o : Option ℕ)
      → settle (cs ++ ds) o ≡ settle ds (settle cs o)
  settle-append [] ds o = refl
  settle-append (recv_ready h ∷ cs) ds o = settle-append cs ds (answered h o)
  settle-append (send_ok h ∷ cs) ds o = settle-append cs ds o
  settle-append (send_err h v ∷ cs) ds o = settle-append cs ds o

  settle-fail_all : (ws : List (SendWaiter A)) (o : Option ℕ) → settle (fail_all ws) o ≡ o
  unfolding fail_all
  settle-fail_all [] o = refl
  settle-fail_all (w ∷ ws) o = settle-fail_all ws o

  settle-wake_receiver :
      (t : State A) (cs : List (PendingCompletion A)) (o : Option ℕ)
      → settle cs o ≡ t.recv_waiter
      → settle (wake_receiver (t, cs)).1 o ≡ (wake_receiver (t, cs)).0.recv_waiter
  unfolding wake_receiver
  settle-wake_receiver t cs o e = elim (Option-cases t.recv_waiter) [
    | inl n ↦ rw n (e ∙ n)
    | inr (h, n) ↦
        let same : (h == h) ≡ true = ground arith in
        rw (n, settle-append cs (recv_ready h ∷ []) o, e, n, same) refl
  ]

  pub try_send_settles :
      (v : A) (s : State A)
      → settle (try_send v s).0.1 s.recv_waiter ≡ (try_send v s).0.0.recv_waiter
  unfolding try_send
  try_send_settles v s = elim (Bool-cases s.receiver_closed) [
    | inl c ↦ rw (try_send_now_closed v s [] c) refl
    | inr o ↦ elim (Bool-cases (is_full s)) [
      | inl f ↦ rw (try_send_now_full v s [] o f) refl
      | inr r ↦
          rw (try_send_now_sent v s [] o r)
            (settle-wake_receiver (record s { queue = s.queue ++ v ∷ [] }) [] s.recv_waiter refl)
    ]
  ]

  pub register_send_settles :
      (handle : ℕ) (v : A) (s : State A)
      → settle (register_send handle v s).0.1 s.recv_waiter
        ≡ (register_send handle v s).0.0.recv_waiter
  unfolding register_send publish_send_waiter
  register_send_settles handle v s = elim (Bool-cases s.receiver_closed) [
    | inl c ↦ rw (try_send_now_closed v s [] c) refl
    | inr o ↦ elim (Bool-cases (is_full s)) [
      | inl f ↦ rw (try_send_now_full v s [] o f) refl
      | inr r ↦
          rw (try_send_now_sent v s [] o r)
            (settle-wake_receiver (record s { queue = s.queue ++ v ∷ [] }) [] s.recv_waiter refl)
    ]
  ]

  pub drop_end_settles :
      (s : State A) → settle (drop_end s).1 s.recv_waiter ≡ (drop_end s).0.recv_waiter
  unfolding drop_end
  drop_end_settles s =
      let t = record s { sender_count = s.sender_count - 1 } in
      elim (Bool-cases (t.sender_count == 0 && is_empty t.queue)) [
        | inl e ↦ rw e (settle-wake_receiver t [] s.recv_waiter refl)
        | inr e ↦ rw e refl
      ]

  pub close_settles : (s : State A) → settle (close s).1 s.recv_waiter ≡ (close s).0.recv_waiter
  unfolding close
  close_settles s =
      settle-wake_receiver (record s { receiver_closed = true; send_waiters = [] })
        (fail_all s.send_waiters) s.recv_waiter (settle-fail_all s.send_waiters s.recv_waiter)

  pub try_recv_settles :
      (s : State A) → Inv s → settle (try_recv s).0.1 s.recv_waiter ≡ (try_recv s).0.0.recv_waiter
  unfolding try_recv
  try_recv_settles s i = elim (List-cases s.queue) [
    | inl e ↦ rw e refl
    | inr (v, vs, e) ↦
        let idle : s.recv_waiter ≡ none = ground (arith, i.idle) in
        let out = pump_senders (record s { queue = vs }, []) in
        rw e (ap (settle out.1) idle ∙ settle-none out.1 ∙ sym (popped v vs s e i).recv)
  ]
