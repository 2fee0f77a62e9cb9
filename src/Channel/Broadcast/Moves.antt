-- ===== src/Channel/Broadcast/Moves.antt =====
-- What a poll, a subscription and a cancelled wait do to one receiver.
use mathlib.Core.Path.{fun_ext, subst}
use mathlib.Core.List.{Memᴰ}
use mathlib.Core.List.Memᴰ.{tail}
use runite.Prelude.{
  ℕ, ◌+◌, ◌≡◌, refl, sym, ap, ◌∙◌, inl, inr, List, [], ◌∷◌, ◌++◌, map, true, false, Bool-cases,
  ◌==◌, bit, copies, update, arith,
}
use runite.Channel.Gaps.{fill_gap, gap_from, copies-fill_gap, mem-append, mem-left, mem-right}
use runite.Channel.Broadcast.{
  RecvWaiter, Looked, answers, waits, panics, Received, Wait, idle, pending, completed, Receiver,
  recv_outcome, without, remove_waiter, subscribe, poll_on, enqueue_waiter, registered,
}
use runite.Channel.Broadcast.Wake.{waiting_handles, copies-map}
use runite.Channel.Broadcast.Users.{System, set_wait, after_poll, after_subscribe}
use runite.Channel.Broadcast.Inv.{
  nothing, OwedWait, is_pending, recv_outcome-Owed, Holds-Sound, Inv,
}
use runite.Channel.Broadcast.Steps.{mem-copies, Touch, Touch-Inv, handle_of}
use runite.Channel.Broadcast.Kept.{update_at, update_off, answered-Inv, registers-Touch}

update_self : {B : Type 0} (f : ℕ → B) (r : ℕ) → f ≡ update f r (f r)
update_self f r = fun_ext λ b. elim (Bool-cases (b == r)) [
  | inl e ↦ let z : b ≡ r = ground arith in rw e (ap f z)
  | inr e ↦ sym (update_off f r b (f r) e)
]

module _ {A : Type 0} where
  registered-Inv :
      (s : System A) (r : ℕ) (x : Looked A)
      → s.alive r ≡ true
      → is_pending (s.receiver r).wait ≡ false
      → recv_outcome (s.receiver r).next_seq s.state ≡ x
      → Inv s
      → Inv (after_poll r (registered r x (s.receiver r) s.state) s)
  unfolding enqueue_waiter
  registered-Inv s r (answers o) a p e v =
      answered-Inv s r o p
        (recv_outcome-Owed s.state s.log (s.receiver r).next_seq (answers o) v.holds e) v
  registered-Inv s r waits a p e v =
      let (l, z) = recv_outcome-Owed s.state s.log (s.receiver r).next_seq waits v.holds e in
      Touch-Inv s _ r (registers-Touch s r a p l z v) v
  registered-Inv s r panics a p e v =
      absurd (Holds-Sound s.state s.log v.holds (s.receiver r).next_seq e)

  pub poll_on-Inv :
      (s : System A) (r : ℕ) (w : Wait A)
      → s.alive r ≡ true
      → (s.receiver r).wait ≡ w
      → Inv s
      → Inv (after_poll r (poll_on r w (s.receiver r) s.state) s)
  unfolding after_poll poll_on registered
  poll_on-Inv s r idle a e v =
      registered-Inv s r (recv_outcome (s.receiver r).next_seq s.state) a (ap is_pending e) refl v
  poll_on-Inv s r pending a e v =
      subst Inv
        (ap (λ (f : ℕ → Receiver A). record s { receiver = f }) (update_self s.receiver r)
          ∙ ap
              (λ (g : ℕ → List (Received A)). record s {
                receiver = update s.receiver r (s.receiver r);
                events = g;
              })
              (update_self s.events r))
        v
  poll_on-Inv s r (completed o) a e v =
      answered-Inv s r o (ap is_pending e)
        (subst (λ w. OwedWait w (s.receiver r).next_seq s.state.sender_count s.log) e
          (v.own r).owed)
        v

  pub subscribes-Touch :
      (s : System A) → Inv s → Touch s (after_subscribe (subscribe s.state) s) s.opened
  unfolding after_subscribe subscribe
  subscribes-Touch s v =
      let r = s.opened in
      let n = s.state.next_seq in
      let w = v.own r in
      let x : Receiver A = record { next_seq = n; wait = idle } in
      let at = update_at s.receiver r x in
      let p : is_pending (s.receiver r).wait ≡ false = let f = w.fresh in ground arith in
      let alone : copies r (waiting_handles s.state.recv_waiters)
            + copies r (map handle_of s.completing)
          ≡ 0 =
        ground (arith, w.out) in
      record {
        holds = record { room = v.holds.room; next = v.holds.next; ring = v.holds.ring };
        live = λ b. let k = v.live b in ground arith;
        log = refl;
        senders = refl;
        opened = omega arith;
        own = record {
          path = rw (at, update_at s.events r [], update_at s.begin r n) nothing;
          place = rw at (omega (arith, v.holds.next));
          owed = rw at tt;
          out = rw at alone;
          fresh = rw at (ground arith);
        };
        off_receiver = λ b f. update_off s.receiver r b x f;
        off_events = λ b f. update_off s.events r b [] f;
        off_begin = λ b f. update_off s.begin r b n f;
        off_out = λ b f. refl;
        places = λ y m.
            inl (
              m,
              mem-copies (λ (y : RecvWaiter). y.handle) r y s.state.recv_waiters m (omega arith),
            );
        handed = λ y m. (m, mem-copies handle_of r y s.completing m (omega arith));
      }

  pub cancels-Touch :
      (s : System A) (xs ys : List RecvWaiter) (w : RecvWaiter)
      → s.state.recv_waiters ≡ xs ++ w ∷ ys
      → without w.id s.state.recv_waiters ≡ xs ++ fill_gap ys
      → Inv s
      → Touch s (set_wait w.handle idle (record s { state = remove_waiter w.id s.state })) w.handle
  unfolding remove_waiter
  cancels-Touch s xs ys w e q v =
      let r = w.handle in
      let o = v.own r in
      let x : Receiver A = record (s.receiver r) { wait = idle } in
      let at = update_at s.receiver r x in
      let h = λ (y : RecvWaiter). y.handle in
      let c : (b : ℕ)
          → copies b (map h s.state.recv_waiters)
            ≡ copies b (map h xs) + (bit (b == r) + copies b (map h ys)) =
        λ b. ap (λ zs. copies b (map h zs)) e ∙ copies-map h b xs (w ∷ ys) in
      let d : (b : ℕ)
          → copies b (map h (without w.id s.state.recv_waiters))
            ≡ copies b (map h xs) + copies b (map h ys) =
        λ b.
          ap (λ zs. copies b (map h zs)) q
          ∙ copies-map h b xs (fill_gap ys)
          ∙ ap (λ n. copies b (map h xs) + n) (copies-fill_gap h b ys) in
      let alone : copies r (map h (without w.id s.state.recv_waiters))
            + copies r (map handle_of s.completing)
          ≡ 0 =
        ground (arith, o.out, c r, d r) in
      record {
        holds = record { room = v.holds.room; next = v.holds.next; ring = v.holds.ring };
        live = v.live;
        log = refl;
        senders = refl;
        opened = omega arith;
        own = record {
          path = rw at o.path;
          place = rw at o.place;
          owed = rw at tt;
          out = rw at alone;
          fresh = rw at (ground arith);
        };
        off_receiver = λ b f. update_off s.receiver r b x f;
        off_events = λ b f. refl;
        off_begin = λ b f. refl;
        off_out = λ b f. ground (arith, c b, d b);
        places = λ y m. inl (
          subst (Memᴰ y) (sym e) (elim (mem-append y xs (fill_gap ys) (subst (Memᴰ y) q m)) [
            | inl i ↦ mem-left y xs (w ∷ ys) i
            | inr i ↦ mem-right y xs (w ∷ ys) (tail (gap_from y ys i))
          ]),
          mem-copies h r y (without w.id s.state.recv_waiters) m (omega arith),
        );
        handed = λ y m. (m, mem-copies handle_of r y s.completing m (omega arith));
      }
