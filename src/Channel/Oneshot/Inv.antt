-- ===== src/Channel/Oneshot/Inv.antt =====
-- What holds of a oneshot channel between two steps, and that every step keeps it.
use mathlib.Core.Path.{subst}
use mathlib.Core.List.{append-nil}
use runite.Prelude.{
  ℕ, ◌≡◌, refl, sym, ap, ◌∙◌, ◌⊎◌, inl, inr, List, [], ◌∷◌, ◌++◌, Option, none, some, Bool, true,
  false, not, ◌||◌, arith, Bool-cases, Option-cases, if-true, if-false, Reach, Reach-keeps,
}
use runite.Channel.Oneshot.{
  State, Receiver, channel, send, drop_sender, take_value, try_recv, poll_recv, register_recv,
  cancel_recv, close, drop_receiver,
}
use runite.Channel.Oneshot.Users.{
  System, Step, start, handed, after_recv, send_value, lose_sender, try_receive, poll_receive,
  start_wait, woken, abandon, shut, lose_receiver,
}

module _ {A : Type 0} where
  abbrev pub listed : Option A → List A
  listed none = []
  listed (some v) = v ∷ []

  pub record Inv (s : System A) : Type 0 where
    -- What was handed over is what the receiver got and what is stored.
    pub conserved : listed s.given ≡ s.got ++ listed s.state.value
    pub alive : s.sender ≡ s.state.sender_alive
    pub unsent : (s.sender ≡ false) ⊎ (s.given ≡ none)
    -- A waiter that is stored is the receiver's, and there is nothing to report to it.
    pub idle :
        (s.state.waiter ≡ none)
        ⊎ ((s.state.waiter ≡ s.receiver.wait)
            × (s.state.value ≡ none)
            × (s.state.receiver_closed ≡ false)
            × (s.state.sender_alive ≡ true))

  nil_parts : (xs ys : List A) → [] ≡ xs ++ ys → (xs ≡ []) × (ys ≡ [])
  nil_parts [] ys e = (refl, sym e)
  nil_parts (x ∷ xs) ys e = absurd (cc)

  pub start-Inv : Inv start
  unfolding start channel
  start-Inv = record { conserved = refl; alive = refl; unsent = inr refl; idle = inl refl }

  send-Inv :
      (s : System A) (v : A)
      → s.sender ≡ true
      → Inv s
      → Inv (record s {
        state = (send v s.state).0.0;
        sender = false;
        given = handed v (send v s.state).1;
      })
  unfolding send
  send-Inv s v h i = record {
    conserved =
        let ungiven : s.given ≡ none = ground (arith, i.unsent) in
        let (nothing_got, nothing_stored) =
          nil_parts s.got (listed s.state.value) (ap listed (sym ungiven) ∙ i.conserved) in
        elim (Bool-cases s.state.receiver_closed) [
          | inl c ↦ rw (c, nothing_got) (sym nothing_stored)
          | inr o ↦ rw (o, nothing_got) refl
        ];
    alive = ground arith;
    unsent = inl refl;
    idle = ground (arith, i.idle);
  }

  lose-Inv :
      (s : System A)
      → s.sender ≡ true
      → Inv s
      → Inv (record s { state = (drop_sender s.state).0; sender = false })
  unfolding drop_sender
  lose-Inv s h i = record {
    conserved = ground (arith, i.conserved);
    alive = ground (arith, i.alive);
    unsent = inl refl;
    idle = ground (arith, i.idle);
  }

  try-Inv : (s : System A) → Inv s → Inv (after_recv s (try_recv s.state s.receiver))
  unfolding try_recv take_value cancel_recv
  try-Inv s i = record {
    conserved = elim (Bool-cases s.receiver.consumed) [
      | inl c ↦ rw (try_recv, c) i.conserved
      | inr c ↦ elim (Option-cases s.state.value) [
        | inl e ↦ elim (Bool-cases (s.state.receiver_closed || not s.state.sender_alive)) [
          | inl d ↦ rw (try_recv, c, e, take_value, d) i.conserved
          | inr d ↦ rw (try_recv, c, e, take_value, d) i.conserved
        ]
        | inr (v, e) ↦
            rw (try_recv, c, take_value, e)
              (i.conserved ∙ ap (λ o. s.got ++ listed o) e ∙ sym (append-nil (s.got ++ v ∷ [])))
      ]
    ];
    alive = ground (arith, i.alive);
    unsent = ground (arith, i.unsent);
    idle = ground (arith, i.idle);
  }

  poll-Inv : (s : System A) → Inv s → Inv (after_recv s (poll_recv s.state s.receiver))
  unfolding poll_recv take_value
  poll-Inv s i = record {
    conserved = elim (Bool-cases s.receiver.consumed) [
      | inl c ↦ rw (poll_recv, c) i.conserved
      | inr c ↦ elim (Option-cases s.state.value) [
        | inl e ↦ elim (Bool-cases (s.state.receiver_closed || not s.state.sender_alive)) [
          | inl d ↦ rw (poll_recv, c, e, take_value, d) i.conserved
          | inr d ↦ rw (poll_recv, c, e, take_value, d) i.conserved
        ]
        | inr (v, e) ↦
            rw (poll_recv, c, take_value, e)
              (i.conserved ∙ ap (λ o. s.got ++ listed o) e ∙ sym (append-nil (s.got ++ v ∷ [])))
      ]
    ];
    alive = ground (arith, i.alive);
    unsent = ground (arith, i.unsent);
    idle = ground (arith, i.idle);
  }

  stored :
      (s : State A) {t : State A} {a b : Bool}
      → ◌≡◌ {A = Option (State A × Bool)} (some (s, a)) (some (t, b))
      → s ≡ t
  stored s e = ap (λ o. elim o [ none ↦ s | some p ↦ p.0 ]) e

  -- Whether there is something to report to the receiver.
  abbrev pub reports : State A → Bool
  reports s =
      (elim s.value [ none ↦ false | some v ↦ true ]) || (s.receiver_closed || not s.sender_alive)

  pub register_recv-reports :
      (handle : ℕ) (s : State A) → reports s ≡ true → register_recv handle s ≡ some (s, true)
  unfolding register_recv
  register_recv-reports handle s p = if-true (reports s) (some (s, true)) _ p

  pub register_recv-waits :
      (handle : ℕ) (s : State A)
      → reports s ≡ false
      → s.waiter ≡ none
      → register_recv handle s ≡ some (record s { waiter = some handle }, false)
  unfolding register_recv
  register_recv-waits handle s p n = if-false (reports s) (some (s, true)) _ p ∙ rw n refl

  pub unset-Inv : (s : System A) → Inv s → s.receiver.wait ≡ none → s.state.waiter ≡ none
  unset-Inv s i n = ground (arith, i.idle)

  wait-Inv :
      (s : System A) (handle : ℕ) (t : State A) (now : Bool)
      → s.receiver.wait ≡ none
      → register_recv handle s.state ≡ some (t, now)
      → Inv s
      → Inv (record s { state = t; receiver = record s.receiver { wait = some handle } })
  wait-Inv s handle t now n e i =
      let unset = unset-Inv s i n in
      let goal : State A → Type 0 =
        λ u. Inv (record s { state = u; receiver = record s.receiver { wait = some handle } }) in
      elim (Bool-cases (reports s.state)) [
        | inl p ↦
            subst goal (stored s.state (sym (register_recv-reports handle s.state p) ∙ e)) (record {
              conserved = i.conserved;
              alive = i.alive;
              unsent = i.unsent;
              idle = inl unset;
            })
        | inr p ↦
            subst goal
              (stored (record s.state { waiter = some handle })
                (sym (register_recv-waits handle s.state p unset) ∙ e))
              (record {
                conserved = i.conserved;
                alive = i.alive;
                unsent = i.unsent;
                idle = inr (refl, ground arith, ground arith, ground arith);
              })
      ]

  simple-Inv :
      (s : System A) (t : State A) (r : Receiver A)
      → t.value ≡ s.state.value
      → t.sender_alive ≡ s.state.sender_alive
      → t.waiter ≡ none
      → Inv s
      → Inv (record s { state = t; receiver = r })
  simple-Inv s t r v a w i = record {
    conserved = rw v i.conserved;
    alive = i.alive ∙ sym a;
    unsent = i.unsent;
    idle = inl w;
  }

  -- Every step keeps the invariant.
  pub Step-Inv : (s t : System A) → Step s t → Inv s → Inv t
  unfolding cancel_recv close drop_receiver
  Step-Inv s t (send_value v h) i = send-Inv s v h i
  Step-Inv s t (lose_sender h) i = lose-Inv s h i
  Step-Inv s t try_receive i = try-Inv s i
  Step-Inv s t (poll_receive n) i = poll-Inv s i
  Step-Inv s t (start_wait handle u now c n e) i = wait-Inv s handle u now n e i
  Step-Inv s t (woken n) i = simple-Inv s s.state (record s.receiver { wait = none }) refl refl n i
  Step-Inv s t abandon i =
      simple-Inv s (record s.state { waiter = none }) (record s.receiver { wait = none }) refl refl
        refl i
  Step-Inv s t shut i =
      simple-Inv s (record s.state { receiver_closed = true; waiter = none }) s.receiver refl refl
        refl i
  Step-Inv s t lose_receiver i =
      simple-Inv s (record s.state { receiver_closed = true; waiter = none }) s.receiver refl refl
        refl i

  pub Reach-Inv : {s : System A} → Reach Step start s → Inv s
  Reach-Inv r = Reach-keeps Step Inv Step-Inv start-Inv r
