-- ===== src/Channel/Broadcast/Histories.antt =====
-- Every history keeps what holds of a broadcast channel.
use mathlib.Core.Path.{subst}
use runite.Prelude.{
  ℕ, suc, ◌+◌, ◌-◌, ◌<◌, ◌^◌, ◌≡◌, refl, sym, ap, ◌∙◌, inl, inr, List, [], ◌∷◌, ◌++◌, some, false,
  Bool-cases, ◌==◌, drop, update, Reach, Reach-keeps, arith,
}
use runite.Channel.Broadcast.{
  State, RecvOutcome, sent, new, push_value, send, idle, remove_waiter, drop_sender, clone_sender,
  drop_receiver, poll_recv, wake_ready_receivers,
}
use runite.Channel.Broadcast.Log.{Holds, slots, push_value-Holds}
use runite.Channel.Broadcast.Wake.{wake_ready_receivers-Woken}
use runite.Channel.Broadcast.Users.{
  System, start, Step, sends, completes, polls, subscribes, clones, loses_sender, drops, cancels,
  set_wait,
}
use runite.Channel.Broadcast.Inv.{
  nothing, Grows, Grows-refl, Grows-append, Owed-Grows, OwedWait-Grows, Holds-Sound,
  nothing_to_receive, Inv,
}
use runite.Channel.Broadcast.Steps.{Touch-Inv, collected-Inv}
use runite.Channel.Broadcast.Kept.{completes-Touch}
use runite.Channel.Broadcast.Ids.{
  Ids, lost_of, sent_lost, cancelled_only, known_id, Step-Ids, start-Ids,
}
use runite.Channel.Broadcast.Moves.{poll_on-Inv, subscribes-Touch, cancels-Touch}

module _ {A : Type 0} where
  -- A wake after which the state and the handles are `d`.
  woken-Inv :
      (s : System A) (u : State A) (log : List A) (d : State A × List (ℕ × RecvOutcome A))
      → 0 < s.state.sender_count
      → u.recv_waiters ≡ s.state.recv_waiters
      → Grows s.log log
      → Holds u log
      → lost_of d (wake_ready_receivers u) ≡ d
      → Inv s
      → Inv (record s { state = d.0; log = log; completing = s.completing ++ d.1 })
  woken-Inv s u log d p e g h q v =
      let (r, x, k) = wake_ready_receivers-Woken u (Holds-Sound u log h) in
      let z : (record u { recv_waiters = r.0 }, r.1) ≡ d = ap (lost_of d) (sym x) ∙ q in
      subst
        (λ (c : State A × List (ℕ × RecvOutcome A)).
          Inv (record s { state = c.0; log = log; completing = s.completing ++ c.1 }))
        z (collected-Inv s u log r p e g h k v)

  sends-Inv :
      (s : System A) (v : A) (t : State A) (n : ℕ) (ready : List (ℕ × RecvOutcome A))
      → 0 < s.state.sender_count
      → suc s.state.next_seq < 2 ^ 64
      → send v s.state ≡ sent t n ready
      → Inv s
      → Inv (record s { state = t; log = s.log ++ v ∷ []; completing = s.completing ++ ready })
  unfolding send
  sends-Inv s v t n ready p b e i =
      woken-Inv s (push_value v s.state) (s.log ++ v ∷ []) (t, ready) p (unfold push_value in refl)
        (Grows-append s.log (v ∷ [])) (push_value-Holds s.state s.log v b i.holds)
        (sent_lost (s.state.receiver_count == 0) s.state.receiver_count n (t, ready)
          (wake_ready_receivers (push_value v s.state)) e)
        i

  loses-Inv :
      (s : System A) (t : State A) (ready : List (ℕ × RecvOutcome A))
      → 0 < s.state.sender_count
      → drop_sender s.state ≡ some (t, ready)
      → Inv s
      → Inv (record s { state = t; completing = s.completing ++ ready })
  unfolding drop_sender
  loses-Inv s t ready p e v =
      let u : State A = record s.state { sender_count = s.state.sender_count - 1 } in
      let h : Holds u s.log = record {
        room = v.holds.room;
        next = v.holds.next;
        ring = v.holds.ring;
      } in
      let d : State A × List (ℕ × RecvOutcome A) = (t, ready) in
      elim (Bool-cases (s.state.sender_count - 1 == 0)) [
        | inl f ↦ woken-Inv s u s.log d p refl (Grows-refl s.log) h (ap (lost_of d) (rw f at e)) v
        | inr f ↦
            subst
              (λ (c : State A × List (ℕ × RecvOutcome A)).
                Inv (record s { state = c.0; completing = s.completing ++ c.1 }))
              (ap (lost_of d) (rw f at e))
              (collected-Inv s u s.log (s.state.recv_waiters, []) p refl (Grows-refl s.log) h
                (record {
                  counts = λ b. omega arith;
                  no_more = λ b. omega arith;
                  left = λ w m.
                      let (x, y, z) = v.places w m in
                      inr (m, nothing_to_receive u s.log w.next_seq h y (ground arith));
                  taken = λ c m. elim m [ ];
                })
                v)
      ]

  clones-Inv :
      (s : System A)
      → 0 < s.state.sender_count
      → Inv s
      → Inv (record s { state = clone_sender s.state })
  unfolding clone_sender
  clones-Inv s p v =
      let left = s.state.sender_count + 1 in
      let g = Grows-refl s.log in
      record {
        holds = record { room = v.holds.room; next = v.holds.next; ring = v.holds.ring };
        own = λ r.
            let o = v.own r in
            record {
              path = o.path;
              place = o.place;
              owed =
                  OwedWait-Grows (s.receiver r).wait (s.receiver r).next_seq s.state.sender_count
                    left s.log s.log p g o.owed;
              out = o.out;
              fresh = o.fresh;
            };
        live = v.live;
        places = λ w m. let (x, y, z) = v.places w m in (x, y, omega arith);
        handed = λ c m.
            Owed-Grows c.1 (s.receiver c.0).next_seq s.state.sender_count left s.log s.log p g
              (v.handed c m);
      }

  drops-Inv :
      (s : System A) (r : ℕ)
      → Inv s
      → Inv (record s { state = drop_receiver s.state; alive = update s.alive r false })
  unfolding drop_receiver
  drops-Inv s r v = record {
    holds = record { room = v.holds.room; next = v.holds.next; ring = v.holds.ring };
    own = λ b.
        let o = v.own b in
        record { path = o.path; place = o.place; owed = o.owed; out = o.out; fresh = o.fresh };
    live = λ b. let k = v.live b in ground arith;
    places = v.places;
    handed = v.handed;
  }

  -- The ids play no part in the invariant.
  renamed-Inv : (s : System A) (ids : ℕ → ℕ) → Inv s → Inv (record s { ids = ids })
  renamed-Inv s ids v = record {
    holds = v.holds;
    own = λ b.
        let o = v.own b in
        record { path = o.path; place = o.place; owed = o.owed; out = o.out; fresh = o.fresh };
    live = v.live;
    places = v.places;
    handed = v.handed;
  }

  Step-Inv : (s t : System A) → Step s t → Ids s.ids s.state → Inv s → Inv t
  unfolding poll_recv
  Step-Inv s _ (sends x t n ready p b e) i v = sends-Inv s x t n ready p b e v
  Step-Inv s _ (completes xs ys r o e) i v = Touch-Inv s _ r (completes-Touch s xs ys r o e v) v
  Step-Inv s _ (polls r a b) i v = renamed-Inv _ _ (poll_on-Inv s r (s.receiver r).wait a refl v)
  Step-Inv s _ subscribes i v = Touch-Inv s _ s.opened (subscribes-Touch s v) v
  Step-Inv s _ (clones p) i v = clones-Inv s p v
  Step-Inv s _ (loses_sender t ready p e) i v = loses-Inv s t ready p e v
  Step-Inv s _ (drops r a) i v = drops-Inv s r v
  Step-Inv s _ (cancels xs ys w a e) i v =
      subst (λ n. Inv (set_wait w.handle idle (record s { state = remove_waiter n s.state })))
        (sym (known_id s xs ys w e i))
        (Touch-Inv s _ w.handle
          (cancels-Touch s xs ys w e (cancelled_only s.ids s.state i xs ys w e) v) v)

  start-Inv : (capacity : ℕ) → 0 < capacity → Inv (start {A = A} capacity)
  unfolding start new
  start-Inv capacity p = record {
    holds = record {
      room = p;
      next = refl;
      ring = let z : 0 - capacity ≡ 0 = omega arith in ap (λ k. slots k (drop k [])) (sym z);
    };
    own = λ r. record {
      path = nothing;
      place = omega arith;
      owed = tt;
      out = refl;
      fresh = ground arith;
    };
    live = λ r. ground arith;
    places = λ w m. elim m [ ];
    handed = λ c m. elim m [ ];
  }

  Step-Both : (s t : System A) → Step s t → Inv s × Ids s.ids s.state → Inv t × Ids t.ids t.state
  Step-Both s t a (v, i) = (Step-Inv s t a i v, Step-Ids s t a v i)

  pub reached-Inv :
      (capacity : ℕ) (s : System A) → 0 < capacity → Reach Step (start capacity) s → Inv s
  reached-Inv capacity s p r =
      (Reach-keeps Step (λ s. Inv s × Ids s.ids s.state) Step-Both
        (start-Inv capacity p, start-Ids capacity) r).0
