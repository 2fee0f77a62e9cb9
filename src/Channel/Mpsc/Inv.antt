-- ===== src/Channel/Mpsc/Inv.antt =====
-- What holds of a channel between two steps, and that every step keeps it.
use mathlib.Core.Path.{subst}
use runite.Prelude.{
  ℕ, ◌<◌, ◌≡◌, refl, sym, ◌⊎◌, inl, inr, List, [], ◌∷◌, ◌++◌, Option, none, some, Bool, true, false,
  ltb, length-append, arith, Bool-cases,
}
use runite.Channel.Mpsc.{
  State, SendWaiter, PendingCompletion, sent, full, closed, is_full, new, wake_receiver,
  try_send_now, remove_send_waiter,
}
use runite.Channel.Mpsc.Pump.{Backlog, is_over}
use runite.Channel.Mpsc.Ends.{
  try_send, register_send, publish_send_waiter, cancel_send, clone_sender, drop_end, cancel_recv,
  close,
}

-- `assert!(capacity > 0)` of `channel`.
abbrev pub is_positive : Option ℕ → Bool
is_positive none = true
is_positive (some c) = ltb 0 c

module _ {A : Type 0} where
  -- A receiver waits only where there is nothing to report to it.
  abbrev pub Idle : State A → Type 0
  Idle s =
      (s.recv_waiter ≡ none) ⊎ ((s.queue ≡ []) × (s.receiver_closed ≡ false) × (0 < s.sender_count))

  pub record Inv (s : State A) : Type 0 where
    pub within : is_over s ≡ false
    pub backlog : Backlog s
    pub idle : Idle s
    pub positive : is_positive s.capacity ≡ true

  pub new-Inv : (c : Option ℕ) → is_positive c ≡ true → Inv (new c)
  unfolding new
  new-Inv c p = record { within = ground arith; backlog = inl refl; idle = inl refl; positive = p }

  push-Inv :
      (s : State A) (v : A) (cs : List (PendingCompletion A))
      → s.receiver_closed ≡ false
      → is_full s ≡ false
      → Inv s
      → Inv (wake_receiver (record s { queue = s.queue ++ v ∷ [] }, cs)).0
  unfolding wake_receiver
  push-Inv s v cs o f i = record {
    within = ground (arith, i.within, length-append s.queue (v ∷ []));
    backlog = ground (arith, i.backlog);
    idle = ground (arith, i.idle);
    positive = ground (arith, i.positive);
  }

  -- The three answers of `try_send_now`.
  pub try_send_now_closed :
      (v : A) (s : State A) (cs : List (PendingCompletion A))
      → s.receiver_closed ≡ true
      → try_send_now v (s, cs) ≡ ((s, cs), closed v)
  unfolding try_send_now
  try_send_now_closed v s cs c = simp c

  pub try_send_now_full :
      (v : A) (s : State A) (cs : List (PendingCompletion A))
      → s.receiver_closed ≡ false
      → is_full s ≡ true
      → try_send_now v (s, cs) ≡ ((s, cs), full v)
  unfolding try_send_now
  try_send_now_full v s cs o f = simp (o, f)

  pub try_send_now_sent :
      (v : A) (s : State A) (cs : List (PendingCompletion A))
      → s.receiver_closed ≡ false
      → is_full s ≡ false
      → try_send_now v (s, cs) ≡ (wake_receiver (record s { queue = s.queue ++ v ∷ [] }, cs), sent)
  unfolding try_send_now
  try_send_now_sent v s cs o r = simp (o, r)

  pub try_send-Inv : (v : A) (s : State A) → Inv s → Inv (try_send v s).0.0
  unfolding try_send
  try_send-Inv v s i = elim (Bool-cases s.receiver_closed) [
    | inl c ↦ subst (λ o. Inv o.0.0) (sym (try_send_now_closed v s [] c)) i
    | inr o ↦ elim (Bool-cases (is_full s)) [
      | inl f ↦ subst (λ o. Inv o.0.0) (sym (try_send_now_full v s [] o f)) i
      | inr r ↦ subst (λ o. Inv o.0.0) (sym (try_send_now_sent v s [] o r)) (push-Inv s v [] o r i)
    ]
  ]

  publish-Inv :
      (handle : ℕ) (v : A) (s : State A) (cs : List (PendingCompletion A))
      → s.receiver_closed ≡ false
      → is_full s ≡ true
      → Inv s
      → Inv (publish_send_waiter handle ((s, cs), full v)).0.0
  unfolding publish_send_waiter
  publish-Inv handle v s cs o f i = record {
    within = i.within;
    backlog = inr (o, f);
    idle = i.idle;
    positive = i.positive;
  }

  pub register_send-Inv :
      (handle : ℕ) (v : A) (s : State A) → Inv s → Inv (register_send handle v s).0.0
  unfolding register_send publish_send_waiter
  register_send-Inv handle v s i = elim (Bool-cases s.receiver_closed) [
    | inl c ↦
        subst (λ o. Inv (publish_send_waiter handle o).0.0) (sym (try_send_now_closed v s [] c)) i
    | inr o ↦ elim (Bool-cases (is_full s)) [
      | inl f ↦
          subst (λ o. Inv (publish_send_waiter handle o).0.0) (sym (try_send_now_full v s [] o f))
            (publish-Inv handle v s [] o f i)
      | inr r ↦
          subst (λ o. Inv (publish_send_waiter handle o).0.0) (sym (try_send_now_sent v s [] o r))
            (push-Inv s v [] o r i)
    ]
  ]

  remove-nil : (id : ℕ) (ws : List (SendWaiter A)) → ws ≡ [] → remove_send_waiter id ws ≡ []
  unfolding remove_send_waiter
  remove-nil id [] e = refl
  remove-nil id (w ∷ ws) e = absurd (cc)

  pub cancel_send-Inv : (id : ℕ) (s : State A) → Inv s → Inv (cancel_send id s)
  unfolding cancel_send
  cancel_send-Inv id s i = record {
    within = i.within;
    backlog = elim i.backlog [ inl e ↦ inl (remove-nil id s.send_waiters e) | inr f ↦ inr f ];
    idle = i.idle;
    positive = i.positive;
  }

  pub clone-Inv : (s : State A) → Inv s → Inv (clone_sender s)
  unfolding clone_sender
  clone-Inv s i = record {
    within = i.within;
    backlog = i.backlog;
    idle = ground (arith, i.idle);
    positive = i.positive;
  }

  pub cancel_recv-Inv : (s : State A) → Inv s → Inv (cancel_recv s)
  unfolding cancel_recv
  cancel_recv-Inv s i = record {
    within = i.within;
    backlog = i.backlog;
    idle = inl refl;
    positive = i.positive;
  }

  pub drop_end-Inv : (s : State A) → 0 < s.sender_count → Inv s → Inv (drop_end s).0
  unfolding drop_end wake_receiver
  drop_end-Inv s h i = record {
    within = ground (arith, i.within);
    backlog = ground (arith, i.backlog);
    idle = ground (arith, i.idle);
    positive = ground (arith, i.positive);
  }

  pub close-Inv : (s : State A) → Inv s → Inv (close s).0
  unfolding close wake_receiver
  close-Inv s i = record {
    within = ground (arith, i.within);
    backlog = ground (arith, i.backlog);
    idle = ground (arith, i.idle);
    positive = ground (arith, i.positive);
  }
