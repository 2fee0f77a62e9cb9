-- ===== src/Channel/Oneshot/Safety.antt =====
-- What the two ends of a oneshot channel may rely on, after every history.
use runite.Prelude.{
  ℕ, ◌≡◌, ◌≢◌, refl, sym, ap, ◌∙◌, ◌⊎◌, inl, inr, List, [], ◌∷◌, ◌++◌, Option, none, some, Bool,
  true, false, arith, Bool-cases, Reach,
}
use runite.Channel.Oneshot.{
  State, Receiver, received, closed, send, drop_sender, take_value, poll_recv, register_recv,
}
use runite.Channel.Oneshot.Users.{System, Step, start}
use runite.Channel.Oneshot.Inv.{
  listed, unset-Inv, register_recv-reports, register_recv-waits, reports, Reach-Inv,
}

module _ {A : Type 0} where
  at_most_one :
      (o : Option A) (vs ws : List A)
      → listed o ≡ vs ++ ws
      → (vs ≡ []) ⊎ ((vs ≡ listed o) × (ws ≡ []))
  at_most_one o [] ws e = inl refl
  at_most_one none (v ∷ vs) ws e = absurd (cc)
  at_most_one (some x) (v ∷ []) [] e = inr (sym e, refl)
  at_most_one (some x) (v ∷ []) (w ∷ ws) e = absurd (cc)
  at_most_one (some x) (v ∷ u ∷ vs) ws e = absurd (cc)

  -- After every history, the receiver has got nothing, and the value that the sender handed over, if
  -- there is one, is stored in the channel; or it has got exactly that value, once, and nothing is
  -- stored any more.
  pub delivered_at_most_once :
      (s : System A)
      → Reach Step start s
      → ((s.got ≡ []) × (listed s.given ≡ listed s.state.value))
        ⊎ ((s.got ≡ listed s.given) × (listed s.state.value ≡ []))
  delivered_at_most_once s r =
      let v = Reach-Inv r in
      elim (at_most_one s.given s.got (listed s.state.value) v.conserved) [
        | inl e ↦ inl (e, v.conserved ∙ ap (λ l. l ++ listed s.state.value) e)
        | inr p ↦ inr p
      ]

  -- After every history, a waiter that is stored is the receiver's own and has nothing to be told: no
  -- value is stored, the channel is open and its sender is there. So no wakeup is lost.
  pub waiting_means_undecided :
      (s : System A)
      → Reach Step start s
      → s.state.waiter ≢ none
      → (s.state.waiter ≡ s.receiver.wait)
        × (s.state.value ≡ none)
        × (s.state.receiver_closed ≡ false)
        × (s.sender ≡ true)
  waiting_means_undecided s r w =
      let v = Reach-Inv r in
      elim v.idle [
        | inl n ↦ absurd (w n)
        | inr (own, stored, open_now, there) ↦ (own, stored, open_now, v.alive ∙ there)
      ]

  some_answer : (p : State A × Bool) → ◌≢◌ {A = Option (State A × Bool)} (some p) none
  some_answer p e = cc

  -- After every history, a receiver without a pending wait can register one: the assertion that no
  -- other waiter is stored does not fail.
  pub registration_never_panics :
      (s : System A) (handle : ℕ)
      → Reach Step start s
      → s.receiver.wait ≡ none
      → register_recv handle s.state ≢ none
  registration_never_panics s handle r n f =
      let unset = unset-Inv s (Reach-Inv r) n in
      elim (Bool-cases (reports s.state)) [
        | inl p ↦ some_answer _ (sym (register_recv-reports handle s.state p) ∙ f)
        | inr p ↦ some_answer _ (sym (register_recv-waits handle s.state p unset) ∙ f)
      ]

  poll_of_dead :
      (t : State A) (r : Receiver A)
      → r.consumed ≡ false
      → t.value ≡ none
      → t.sender_alive ≡ false
      → (poll_recv t r).1 ≡ closed
  unfolding poll_recv take_value
  poll_of_dead t r c n d = elim (Bool-cases t.receiver_closed) [
    | inl o ↦ rw (c, n, d, o) refl
    | inr o ↦ rw (c, n, d, o) refl
  ]

  -- After every history, dropping a sender that sent nothing while a receiver waits completes exactly
  -- that receiver's wait, and its next poll reports that the channel is closed.
  pub lost_sender_wakes_receiver :
      (s : System A) (handle : ℕ)
      → Reach Step start s
      → s.state.waiter ≡ some handle
      → s.receiver.consumed ≡ false
      → let out = drop_sender s.state in
        (out.1 ≡ some handle) × (out.0.waiter ≡ none) × ((poll_recv out.0 s.receiver).1 ≡ closed)
  unfolding drop_sender
  lost_sender_wakes_receiver s handle r w c =
      let v = Reach-Inv r in
      let stored : s.state.value ≡ none = ground (arith, v.idle) in
      let there : s.state.sender_alive ≡ true = ground (arith, v.idle) in
      (
        ground arith,
        ground arith,
        poll_of_dead (drop_sender s.state).0 s.receiver c (ground arith) (ground arith),
      )

  -- After every history, sending while a receiver waits stores the value, completes exactly that
  -- receiver's wait, and its next poll gets the value.
  pub sending_wakes_receiver :
      (s : System A) (handle : ℕ) (v : A)
      → Reach Step start s
      → s.state.waiter ≡ some handle
      → s.receiver.consumed ≡ false
      → let out = send v s.state in
        (out.1 ≡ none) × (out.0.1 ≡ some handle) × ((poll_recv out.0.0 s.receiver).1 ≡ received v)
  unfolding send poll_recv take_value
  sending_wakes_receiver s handle v r w c =
      let i = Reach-Inv r in
      let open_now : s.state.receiver_closed ≡ false = ground (arith, i.idle) in
      (ground arith, ground arith, rw (c, open_now) refl)
