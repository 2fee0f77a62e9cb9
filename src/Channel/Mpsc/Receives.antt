-- ===== src/Channel/Mpsc/Receives.antt =====
-- What the receiver's sections keep of the invariant.
use runite.Channel.Mpsc.Inv.{Inv}
use mathlib.Core.Path.{subst}
use runite.Prelude.{
  ℕ, ◌<◌, ◌≡◌, refl, sym, ap, ◌∙◌, ◌⊎◌, inl, inr, List, [], ◌∷◌, Option, none, some, Bool, true,
  false, ◌||◌, not, ◌==◌, is_empty, arith, Bool-cases, List-cases,
}
use runite.Channel.Mpsc.{State, pump_senders}
use runite.Channel.Mpsc.Pump.{Pumped, pump_senders-Pumped}
use runite.Channel.Mpsc.Ends.{try_recv, register_recv}

module _ {A : Type 0} where
  -- Taking the front value leaves room, and the pump restores the rest.
  pub popped :
      (v : A) (vs : List A) (s : State A)
      → s.queue ≡ v ∷ vs
      → Inv s
      → Pumped s.send_waiters
          (record s { queue = vs }, [])
          (pump_senders (record s { queue = vs }, []))
  popped v vs s e i =
      pump_senders-Pumped (record s { queue = vs }) [] (ground (arith, i.idle))
        (ground (arith, i.within)) (ground (arith, i.backlog))

  pub try_recv_empty : (s : State A) → s.queue ≡ [] → (try_recv s).0.0 ≡ s
  unfolding try_recv
  try_recv_empty s e = rw e refl

  pub try_recv_pumps :
      (v : A) (vs : List A) (s : State A)
      → s.queue ≡ v ∷ vs
      → (try_recv s).0.0 ≡ (pump_senders (record s { queue = vs }, [])).0
  unfolding try_recv
  try_recv_pumps v vs s e = rw e refl

  pub try_recv-Inv : (s : State A) → Inv s → Inv (try_recv s).0.0
  unfolding try_recv
  try_recv-Inv s i = elim (List-cases s.queue) [
    | inl e ↦ subst Inv (sym (try_recv_empty s e)) i
    | inr (v, vs, e) ↦ subst Inv (sym (try_recv_pumps v vs s e)) (record {
      within = (popped v vs s e i).within;
      backlog = (popped v vs s e i).backlog;
      idle = inl (popped v vs s e i).recv;
      positive = rw (popped v vs s e i).same_capacity i.positive;
    })
  ]

  -- A receiver that finds nothing and may still get something stores its waiter; any other does not.
  pub register_recv-waits :
      (handle : ℕ) (s : State A)
      → s.queue ≡ []
      → s.receiver_closed ≡ false
      → 0 < s.sender_count
      → s.recv_waiter ≡ none
      → register_recv handle s ≡ some (record s { recv_waiter = some handle }, false)
  unfolding register_recv
  register_recv-waits handle s e o h n = ground arith

  pub register_recv-reports :
      (handle : ℕ) (s : State A)
      → (not (is_empty s.queue) || (s.receiver_closed || s.sender_count == 0)) ≡ true
      → register_recv handle s ≡ some (s, true)
  unfolding register_recv
  register_recv-reports handle s p = simp p

  stored :
      (s : State A) {t : State A} {a b : Bool}
      → ◌≡◌ {A = Option (State A × Bool)} (some (s, a)) (some (t, b))
      → s ≡ t
  stored s e = ap (λ o. elim o [ none ↦ s | some p ↦ p.0 ]) e

  waiting-Inv :
      (handle : ℕ) (s : State A)
      → s.queue ≡ []
      → s.receiver_closed ≡ false
      → 0 < s.sender_count
      → Inv s
      → Inv (record s { recv_waiter = some handle })
  waiting-Inv handle s e o h i = record {
    within = i.within;
    backlog = i.backlog;
    idle = inr (e, o, h);
    positive = i.positive;
  }

  -- What `register_recv` makes of the state of a receiver that does not wait yet.
  pub register_recv-cases :
      (handle : ℕ) (s t : State A) (now : Bool)
      → s.recv_waiter ≡ none
      → register_recv handle s ≡ some (t, now)
      → (s ≡ t)
        ⊎ ((record s { recv_waiter = some handle } ≡ t)
            × (s.queue ≡ [])
            × (s.receiver_closed ≡ false)
            × (0 < s.sender_count))
  register_recv-cases handle s t now n e =
      elim (Bool-cases (not (is_empty s.queue) || (s.receiver_closed || s.sender_count == 0))) [
        | inl p ↦ inl (stored s (sym (register_recv-reports handle s p) ∙ e))
        | inr p ↦
            let q : s.queue ≡ [] = ground arith in
            let o : s.receiver_closed ≡ false = ground arith in
            let h : 0 < s.sender_count = ground arith in
            inr (
              stored (record s { recv_waiter = some handle })
                  (sym (register_recv-waits handle s q o h n) ∙ e),
              q,
              o,
              h,
            )
      ]

  pub register_recv-Inv :
      (handle : ℕ) (s t : State A) (now : Bool)
      → s.recv_waiter ≡ none
      → register_recv handle s ≡ some (t, now)
      → Inv s
      → Inv t
  register_recv-Inv handle s t now n e i = elim (register_recv-cases handle s t now n e) [
    | inl k ↦ subst Inv k i
    | inr (w, q, o, h) ↦ subst Inv w (waiting-Inv handle s q o h i)
  ]
