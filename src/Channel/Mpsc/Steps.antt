-- ===== src/Channel/Mpsc/Steps.antt =====
-- Every step of a channel's ends keeps the invariant, and moves the values the way a queue does.
use runite.Prelude.{
  ℕ, Option, some, Bool, true, false, Bool-cases, not, ◌||◌, ◌==◌, is_empty, if◌then◌else◌, ◌≡◌,
  refl, sym, ap, ◌∙◌, ◌⊎◌, inl, inr, List, none, arith,
}
use runite.Channel.Mpsc.{State, Out}
use runite.Channel.Mpsc.Ends.{
  RecvResult, received, nothing, disconnected, try_send, register_send, cancel_send, clone_sender,
  drop_end, try_recv, cancel_recv, register_recv,
}
use runite.Channel.Mpsc.Users.{
  System, Event, Step, settle, after_recv, received_event, send, register, cancel, clone, drop,
  receive, poll_receive, wait, woken, abandon, shut,
}
use runite.Channel.Mpsc.Inv.{
  Inv, try_send-Inv, register_send-Inv, cancel_send-Inv, clone-Inv, drop_end-Inv, cancel_recv-Inv,
  close-Inv,
}
use runite.Channel.Mpsc.Receives.{
  try_recv-Inv, register_recv-Inv, register_recv-cases, register_recv-waits, register_recv-reports,
}
use runite.Channel.Mpsc.Waiter.{
  Kept, try_send-Kept, register_send-Kept, drop_end-Kept, close-Kept, try_recv-Kept,
  try_send_settles, register_send_settles, drop_end_settles, close_settles, try_recv_settles,
}
use runite.Channel.Mpsc.Fifo.{
  Fifo, idle, pipeline, try_send-Fifo, register_send-Fifo, cancel_send-Fifo, drop-Fifo,
  try_recv-Fifo, register_recv-Fifo, close-Fifo,
}

module _ {A : Type 0} where
  -- A waiter that is stored is the receiver's own pending wait.
  abbrev pub Own : System A → Type 0
  Own s = (s.state.recv_waiter ≡ none) ⊎ (s.state.recv_waiter ≡ s.stream_wait)

  abbrev pub Asked : System A → Type 0
  Asked s = s.unanswered ≡ s.state.recv_waiter

  after_recv-Inv : (s : System A) → Inv s.state → Inv (after_recv s (try_recv s.state)).state
  after_recv-Inv s i = go (try_recv s.state) (try_recv-Inv s.state i)
    where
      go : (o : Out A × RecvResult A) → Inv o.0.0 → Inv (after_recv s o).state
      go (out, received v) j = cancel_recv-Inv out.0 j
      go (out, nothing) j = j
      go (out, disconnected) j = cancel_recv-Inv out.0 j

  pub Step-Inv :
      (s : System A) (e : Event A) (t : System A) → Step s e t → Own s → Inv s.state → Inv t.state
  Step-Inv s e t (send v) o i = try_send-Inv v s.state i
  Step-Inv s e t (register handle v) o i = register_send-Inv handle v s.state i
  Step-Inv s e t (cancel id) o i = cancel_send-Inv id s.state i
  Step-Inv s e t (clone h) o i = clone-Inv s.state i
  Step-Inv s e t (drop h) o i = drop_end-Inv s.state h i
  Step-Inv s e t receive o i = after_recv-Inv s i
  Step-Inv s e t (poll_receive n) o i = try_recv-Inv s.state i
  Step-Inv s e t (wait handle t' now n r) o i =
      register_recv-Inv handle s.state t' now (ground arith) r i
  Step-Inv s e t (woken n) o i = i
  Step-Inv s e t abandon o i = cancel_recv-Inv s.state i
  Step-Inv s e t shut o i = close-Inv s.state i

  still :
      (s : System A) (t : State A)
      → Own s
      → Kept s.state t
      → (t.recv_waiter ≡ none) ⊎ (t.recv_waiter ≡ s.stream_wait)
  still s t o k = ground (arith, k.0)

  after_recv-Own : (s : System A) → Own s → Inv s.state → Own (after_recv s (try_recv s.state))
  unfolding cancel_recv
  after_recv-Own s o i = go (try_recv s.state) (try_recv-Kept s.state i)
    where
      go : (r : Out A × RecvResult A) → Kept s.state r.0.0 → Own (after_recv s r)
      go (out, received v) k = inl refl
      go (out, nothing) k = still s out.0 o k
      go (out, disconnected) k = inl refl

  pub Step-Own :
      (s : System A) (e : Event A) (t : System A)
      → Step s e t
      → Own s
      → Asked s
      → Inv s.state
      → Own t
  unfolding cancel_send clone_sender cancel_recv
  Step-Own s e t (send v) o k i = still s (try_send v s.state).0.0 o (try_send-Kept v s.state)
  Step-Own s e t (register handle v) o k i =
      still s (register_send handle v s.state).0.0 o (register_send-Kept handle v s.state)
  Step-Own s e t (cancel id) o k i = o
  Step-Own s e t (clone h) o k i = o
  Step-Own s e t (drop h) o k i = still s (drop_end s.state).0 o (drop_end-Kept s.state)
  Step-Own s e t receive o k i = after_recv-Own s o i
  Step-Own s e t (poll_receive n) o k i = still s (try_recv s.state).0.0 o (try_recv-Kept s.state i)
  Step-Own s e t (wait handle t' now n r) o k i =
      let unset : s.state.recv_waiter ≡ none = ground arith in
      elim (register_recv-cases handle s.state t' now unset r) [
        | inl z ↦ inl (ap (λ u. u.recv_waiter) (sym z) ∙ unset)
        | inr (w, _, _, _) ↦ inr (ap (λ u. u.recv_waiter) (sym w))
      ]
  Step-Own s e t (woken n) o k i = inl (sym k ∙ n)
  Step-Own s e t abandon o k i = inl refl
  Step-Own s e t shut o k i = inl (close-Kept s.state).0

  after_recv-Asked :
      (s : System A) (r : Out A × RecvResult A)
      → settle r.0.1 s.unanswered ≡ r.0.0.recv_waiter
      → Asked (after_recv s r)
  unfolding cancel_recv
  after_recv-Asked s (out, received v) k = refl
  after_recv-Asked s (out, nothing) k = k
  after_recv-Asked s (out, disconnected) k = refl

  register_recv-Asked :
      (handle : ℕ) (s t : State A) (now : Bool)
      → s.recv_waiter ≡ none
      → register_recv handle s ≡ some (t, now)
      → (if now then none else some handle) ≡ t.recv_waiter
  register_recv-Asked handle s t now n e =
      elim (Bool-cases (not (is_empty s.queue) || (s.receiver_closed || s.sender_count == 0))) [
        | inl p ↦
            let same : ◌≡◌ {A = Option (State A × Bool)} (some (s, true)) (some (t, now)) =
              sym (register_recv-reports handle s p) ∙ e in
            ap (λ o. elim o [ none ↦ none | some q ↦ if q.1 then none else some handle ]) (sym same)
            ∙ sym n
            ∙ ap (λ o. elim o [ none ↦ s.recv_waiter | some q ↦ q.0.recv_waiter ]) same
        | inr p ↦
            let w = register_recv-waits handle s (ground arith) (ground arith) (ground arith) n in
            let same : ◌≡◌ {A = Option (State A × Bool)}
                (some (record s { recv_waiter = some handle }, false)) (some (t, now)) =
              sym w ∙ e in
            ap (λ o. elim o [ none ↦ none | some q ↦ if q.1 then none else some handle ]) (sym same)
            ∙ ap (λ o. elim o [ none ↦ none | some q ↦ q.0.recv_waiter ]) same
      ]

  -- The receiver's wait is unanswered exactly as long as the channel stores its handle.
  pub Step-Asked :
      (s : System A) (e : Event A) (t : System A)
      → Step s e t
      → Own s
      → Asked s
      → Inv s.state
      → Asked t
  unfolding cancel_send clone_sender cancel_recv
  Step-Asked s e t (send v) o k i = rw k (try_send_settles v s.state)
  Step-Asked s e t (register handle v) o k i = rw k (register_send_settles handle v s.state)
  Step-Asked s e t (cancel id) o k i = k
  Step-Asked s e t (clone h) o k i = k
  Step-Asked s e t (drop h) o k i = rw k (drop_end_settles s.state)
  Step-Asked s e t receive o k i =
      after_recv-Asked s (try_recv s.state) (rw k (try_recv_settles s.state i))
  Step-Asked s e t (poll_receive n) o k i = rw k (try_recv_settles s.state i)
  Step-Asked s e t (wait handle t' now n r) o k i =
      register_recv-Asked handle s.state t' now (ground arith) r
  Step-Asked s e t (woken n) o k i = k
  Step-Asked s e t abandon o k i = refl
  Step-Asked s e t shut o k i = rw k (close_settles s.state)

  after_recv-capacity :
      (s : System A) (r : Out A × RecvResult A) → (after_recv s r).state.capacity ≡ r.0.0.capacity
  unfolding cancel_recv
  after_recv-capacity s (out, received v) = refl
  after_recv-capacity s (out, nothing) = refl
  after_recv-capacity s (out, disconnected) = refl

  pub Step-capacity :
      (s : System A) (e : Event A) (t : System A)
      → Step s e t
      → Own s
      → Inv s.state
      → t.state.capacity ≡ s.state.capacity
  unfolding cancel_send clone_sender cancel_recv
  Step-capacity s e t (send v) o i = (try_send-Kept v s.state).1
  Step-capacity s e t (register handle v) o i = (register_send-Kept handle v s.state).1
  Step-capacity s e t (cancel id) o i = refl
  Step-capacity s e t (clone h) o i = refl
  Step-capacity s e t (drop h) o i = (drop_end-Kept s.state).1
  Step-capacity s e t receive o i =
      after_recv-capacity s (try_recv s.state) ∙ (try_recv-Kept s.state i).1
  Step-capacity s e t (poll_receive n) o i = (try_recv-Kept s.state i).1
  Step-capacity s e t (wait handle t' now n r) o i =
      elim (register_recv-cases handle s.state t' now (ground arith) r) [
        | inl k ↦ ap (λ u. u.capacity) (sym k)
        | inr (w, _, _, _) ↦ ap (λ u. u.capacity) (sym w)
      ]
  Step-capacity s e t (woken n) o i = refl
  Step-capacity s e t abandon o i = refl
  Step-capacity s e t shut o i = (close-Kept s.state).1

  after_recv-Fifo :
      (s : System A) (q : List A)
      → (o : Out A × RecvResult A) → Fifo q (received_event o.1) (pipeline o.0.0)
      → Fifo q (received_event o.1) (pipeline (after_recv s o).state)
  unfolding cancel_recv
  after_recv-Fifo s q (out, received v) f = f
  after_recv-Fifo s q (out, nothing) f = f
  after_recv-Fifo s q (out, disconnected) f = f

  -- Each step does to the values in the channel what its event says.
  pub Step-Fifo :
      (s : System A) (e : Event A) (t : System A)
      → Step s e t
      → Own s
      → Inv s.state
      → Fifo (pipeline s.state) e (pipeline t.state)
  unfolding clone_sender cancel_recv
  Step-Fifo s e t (send v) o i = try_send-Fifo v s.state i
  Step-Fifo s e t (register handle v) o i = register_send-Fifo handle v s.state i
  Step-Fifo s e t (cancel id) o i = cancel_send-Fifo id s.state
  Step-Fifo s e t (clone h) o i = idle (pipeline s.state)
  Step-Fifo s e t (drop h) o i = rw (drop-Fifo s.state) (idle (pipeline s.state))
  Step-Fifo s e t receive o i = after_recv-Fifo s _ (try_recv s.state) (try_recv-Fifo s.state i)
  Step-Fifo s e t (poll_receive n) o i = try_recv-Fifo s.state i
  Step-Fifo s e t (wait handle t' now n r) o i =
      rw (register_recv-Fifo handle s.state t' now (ground arith) r) (idle (pipeline s.state))
  Step-Fifo s e t (woken n) o i = idle (pipeline s.state)
  Step-Fifo s e t abandon o i = idle (pipeline s.state)
  Step-Fifo s e t shut o i = close-Fifo s.state
