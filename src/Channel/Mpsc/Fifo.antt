-- ===== src/Channel/Mpsc/Fifo.antt =====
-- What each operation of a channel does to the values in its keeping, queued and waiting together.
use mathlib.Core.Path.{subst}
use mathlib.Core.List.{append_assoc, append-nil}
use mathlib.Core.List.{map-append}
use runite.Prelude.{
  ℕ, ◌≡◌, refl, sym, ap, ◌∙◌, inl, inr, List, [], ◌∷◌, ◌++◌, none, some, Bool, false, arith,
  Bool-cases, List-cases, Option-cases, ◌==◌, ◌||◌,
}
use runite.Channel.Mpsc.{
  State, SendWaiter, PendingCompletion, is_full, wake_receiver, pump_senders, remove_send_waiter,
}
use runite.Channel.Mpsc.Ends.{
  received, try_send, register_send, publish_send_waiter, cancel_send, drop_end, try_recv,
  register_recv, close,
}
use runite.Channel.Mpsc.Pump.{values}
use runite.Channel.Mpsc.Inv.{Inv, try_send_now_closed, try_send_now_full, try_send_now_sent}
use runite.Channel.Mpsc.Receives.{popped, try_recv_empty, register_recv-cases}
use runite.Channel.Mpsc.Users.{
  Event, arrived, delivered, withdrawn, refused, silent, sent_event, registered_event,
  received_event,
}

-- A queue of values that enters and leaves in order, and from which waiting values may be withdrawn.
pub data Fifo {A : Type 0} : List A → Event A → List A → Type 0 where
  enqueue : (v : A) (q : List A) → Fifo q (arrived v) (q ++ v ∷ [])
  dequeue : (v : A) (q : List A) → Fifo (v ∷ q) (delivered v) q
  withdraw : (xs : List A) (v : A) (ys : List A) → Fifo (xs ++ v ∷ ys) withdrawn (xs ++ ys)
  keep : (q : List A) → Fifo q withdrawn q
  cut : (xs ys : List A) → Fifo (xs ++ ys) refused xs
  idle : (q : List A) → Fifo q silent q

module _ {A : Type 0} where
  -- What the channel has taken over and not handed out.
  abbrev pub pipeline : State A → List A
  pipeline s = s.queue ++ values s.send_waiters

  wake-pipeline :
      (s : State A) (cs : List (PendingCompletion A))
      → pipeline (wake_receiver (s, cs)).0 ≡ pipeline s
  unfolding wake_receiver
  wake-pipeline s cs = elim (Option-cases s.recv_waiter) [
    | inl e ↦ rw e refl
    | inr (h, e) ↦ rw e refl
  ]

  pushed :
      (v : A) (s : State A) (cs : List (PendingCompletion A))
      → is_full s ≡ false
      → Inv s
      → pipeline (wake_receiver (record s { queue = s.queue ++ v ∷ [] }, cs)).0
        ≡ pipeline s ++ v ∷ []
  pushed v s cs r i =
      let none_waits : s.send_waiters ≡ [] = ground (arith, i.backlog) in
      wake-pipeline (record s { queue = s.queue ++ v ∷ [] }) cs
      ∙ rw none_waits
          (append-nil (s.queue ++ v ∷ []) ∙ ap (λ q. q ++ v ∷ []) (sym (append-nil s.queue)))

  pub try_send-Fifo :
      (v : A) (s : State A)
      → Inv s
      → Fifo (pipeline s) (sent_event v (try_send v s).1) (pipeline (try_send v s).0.0)
  unfolding try_send
  try_send-Fifo v s i = elim (Bool-cases s.receiver_closed) [
    | inl c ↦
        subst (λ o. Fifo (pipeline s) (sent_event v o.1) (pipeline o.0.0))
          (sym (try_send_now_closed v s [] c)) (idle (pipeline s))
    | inr o ↦ elim (Bool-cases (is_full s)) [
      | inl f ↦
          subst (λ o. Fifo (pipeline s) (sent_event v o.1) (pipeline o.0.0))
            (sym (try_send_now_full v s [] o f)) (idle (pipeline s))
      | inr r ↦
          subst (λ o. Fifo (pipeline s) (sent_event v o.1) (pipeline o.0.0))
            (sym (try_send_now_sent v s [] o r)) (rw (pushed v s [] r i) (enqueue v (pipeline s)))
    ]
  ]

  joined :
      (s : State A) (w : SendWaiter A)
      → s.queue ++ values (s.send_waiters ++ w ∷ []) ≡ pipeline s ++ w.value ∷ []
  joined s w = rw (map-append, append_assoc) refl

  pub register_send-Fifo :
      (handle : ℕ) (v : A) (s : State A)
      → Inv s
      → Fifo
          (pipeline s)
          (registered_event v (register_send handle v s).1)
          (pipeline (register_send handle v s).0.0)
  unfolding register_send publish_send_waiter
  register_send-Fifo handle v s i = elim (Bool-cases s.receiver_closed) [
    | inl c ↦
        subst
          (λ o.
            Fifo (pipeline s) (registered_event v (publish_send_waiter handle o).1)
              (pipeline (publish_send_waiter handle o).0.0))
          (sym (try_send_now_closed v s [] c)) (idle (pipeline s))
    | inr o ↦ elim (Bool-cases (is_full s)) [
      | inl f ↦
          subst
            (λ o.
              Fifo (pipeline s) (registered_event v (publish_send_waiter handle o).1)
                (pipeline (publish_send_waiter handle o).0.0))
            (sym (try_send_now_full v s [] o f))
            (subst (Fifo (pipeline s) (arrived v))
              (sym (joined s (record { id = s.next_waiter_id; value = v; handle = handle })))
              (enqueue v (pipeline s)))
      | inr r ↦
          subst
            (λ o.
              Fifo (pipeline s) (registered_event v (publish_send_waiter handle o).1)
                (pipeline (publish_send_waiter handle o).0.0))
            (sym (try_send_now_sent v s [] o r)) (rw (pushed v s [] r i) (enqueue v (pipeline s)))
    ]
  ]

  later : (x : A) {xs ys : List A} → Fifo xs withdrawn ys → Fifo (x ∷ xs) withdrawn (x ∷ ys)
  later x (withdraw xs v ys) = withdraw (x ∷ xs) v ys
  later x (keep q) = keep (x ∷ q)

  after :
      (ps : List A) {xs ys : List A} → Fifo xs withdrawn ys → Fifo (ps ++ xs) withdrawn (ps ++ ys)
  after [] f = f
  after (p ∷ ps) f = later p (after ps f)

  removed :
      (id : ℕ) (ws : List (SendWaiter A))
      → Fifo (values ws) withdrawn (values (remove_send_waiter id ws))
  unfolding remove_send_waiter
  removed id [] = keep []
  removed id (w ∷ ws) = elim (Bool-cases (w.id == id)) [
    | inl e ↦ rw e (withdraw [] w.value (values ws))
    | inr n ↦ rw n (later w.value (removed id ws))
  ]

  pub cancel_send-Fifo :
      (id : ℕ) (s : State A) → Fifo (pipeline s) withdrawn (pipeline (cancel_send id s))
  unfolding cancel_send
  cancel_send-Fifo id s = after s.queue (removed id s.send_waiters)

  pub drop-Fifo : (s : State A) → pipeline (drop_end s).0 ≡ pipeline s
  unfolding drop_end wake_receiver
  drop-Fifo s = ground arith

  pub close-Fifo : (s : State A) → Fifo (pipeline s) refused (pipeline (close s).0)
  unfolding close wake_receiver
  close-Fifo s = elim (Option-cases s.recv_waiter) [
    | inl e ↦ rw (e, append-nil) (cut s.queue (values s.send_waiters))
    | inr (h, e) ↦ rw (e, append-nil) (cut s.queue (values s.send_waiters))
  ]

  -- What `try_recv` answers.
  pub try_recv_front :
      (v : A) (vs : List A) (s : State A)
      → s.queue ≡ v ∷ vs
      → try_recv s ≡ (pump_senders (record s { queue = vs }, []), received v)
  unfolding try_recv
  try_recv_front v vs s e = rw e refl

  try_recv_silent : (s : State A) → s.queue ≡ [] → received_event (try_recv s).1 ≡ silent
  unfolding try_recv
  try_recv_silent s e = elim (Bool-cases (s.sender_count == 0 || s.receiver_closed)) [
    | inl d ↦ rw (e, d) refl
    | inr n ↦ rw (e, n) refl
  ]

  pub try_recv-Fifo :
      (s : State A)
      → Inv s
      → Fifo (pipeline s) (received_event (try_recv s).1) (pipeline (try_recv s).0.0)
  try_recv-Fifo s i = elim (List-cases s.queue) [
    | inl e ↦ rw (try_recv_silent s e) (
        subst (λ t. Fifo (pipeline s) silent (pipeline t)) (sym (try_recv_empty s e))
          (idle (pipeline s)))
    | inr (v, vs, e) ↦
        subst (λ o. Fifo (pipeline s) (received_event o.1) (pipeline o.0.0))
          (sym (try_recv_front v vs s e))
          (subst
            (λ q. Fifo q (delivered v) (pipeline (pump_senders (record s { queue = vs }, [])).0))
            (rw e (ap (λ q. v ∷ q) (popped v vs s e i).order))
            (dequeue v (pipeline (pump_senders (record s { queue = vs }, [])).0)))
  ]

  pub register_recv-Fifo :
      (handle : ℕ) (s t : State A) (now : Bool)
      → s.recv_waiter ≡ none
      → register_recv handle s ≡ some (t, now)
      → pipeline t ≡ pipeline s
  register_recv-Fifo handle s t now n e = elim (register_recv-cases handle s t now n e) [
    | inl k ↦ ap pipeline (sym k)
    | inr (w, _, _, _) ↦ ap pipeline (sym w)
  ]
