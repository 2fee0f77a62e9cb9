-- ===== src/Channel/Broadcast/Kept.antt =====
-- What a completion, an answer and a registration do to one receiver.
use mathlib.Core.Path.{subst}
use mathlib.Core.List.{Memᴰ}
use mathlib.Core.List.Memᴰ.{head, tail}
use runite.Prelude.{
  ℕ, ◌+◌, ◌<◌, ◌≤◌, ◌≡◌, refl, sym, ap, ◌∙◌, inl, inr, List, [], ◌∷◌, ◌++◌, map, true, false,
  length, ◌==◌, bit, copies, update, arith,
}
use runite.Channel.Gaps.{mem-append, mem-left, mem-right}
use runite.Channel.Broadcast.{
  RecvWaiter, RecvOutcome, value, lagged, closed, Received, received, missed, ended, idle, pending,
  completed, Receiver, poll_wait, enqueue_waiter, poll_pending,
}
use runite.Channel.Broadcast.Wake.{waiting_handles, copies-map}
use runite.Channel.Broadcast.Users.{System, set_wait, after_poll}
use runite.Channel.Broadcast.Inv.{Reads, reads, misses, stops, Owed, is_pending, get_within, Inv}
use runite.Channel.Broadcast.Steps.{mem-copies, Touch, Touch-Inv, handle_of}

module _ {B : Type 0} where
  pub update_at : (f : ℕ → B) (r : ℕ) (x : B) → update f r x r ≡ x
  update_at f r x = let e : (r == r) ≡ true = ground arith in rw e refl

  pub update_off : (f : ℕ → B) (r b : ℕ) (x : B) → (b == r) ≡ false → update f r x b ≡ f b
  update_off f r b x e = rw e refl

  widen : (y : B) (xs ys : List B) (x : B) → Memᴰ y (xs ++ ys) → Memᴰ y (xs ++ x ∷ ys)
  widen y xs ys x m = elim (mem-append y xs ys m) [
    | inl i ↦ mem-left y xs (x ∷ ys) i
    | inr i ↦ mem-right y xs (x ∷ ys) (tail i)
  ]

module _ {A : Type 0} where
  pub completes-Touch :
      (s : System A) (xs ys : List (ℕ × RecvOutcome A)) (r : ℕ) (o : RecvOutcome A)
      → s.completing ≡ xs ++ (r, o) ∷ ys
      → Inv s
      → Touch s (set_wait r (completed o) (record s { completing = xs ++ ys })) r
  completes-Touch s xs ys r o e v =
      let w = v.own r in
      let x : Receiver A = record (s.receiver r) { wait = completed o } in
      let at = update_at s.receiver r x in
      let here : Memᴰ (r, o) s.completing =
        subst (Memᴰ (r, o)) (sym e) (mem-right (r, o) xs ((r, o) ∷ ys) (head refl)) in
      let c : (b : ℕ)
          → copies b (map handle_of s.completing)
            ≡ copies b (map handle_of xs) + (bit (b == r) + copies b (map handle_of ys)) =
        λ b. ap (λ zs. copies b (map handle_of zs)) e ∙ copies-map handle_of b xs ((r, o) ∷ ys) in
      let d : (b : ℕ)
          → copies b (map handle_of (xs ++ ys))
            ≡ copies b (map handle_of xs) + copies b (map handle_of ys) =
        λ b. copies-map handle_of b xs ys in
      let none_left : copies r (waiting_handles s.state.recv_waiters)
            + copies r (map handle_of (xs ++ ys))
          ≡ 0 =
        ground (arith, w.out, c r, d r) in
      record {
        holds = v.holds;
        live = v.live;
        log = refl;
        senders = refl;
        opened = omega arith;
        own = record {
          path = rw at w.path;
          place = rw at w.place;
          owed = rw at (v.handed (r, o) here);
          out = rw at none_left;
          fresh = rw at (ground arith);
        };
        off_receiver = λ b f. update_off s.receiver r b x f;
        off_events = λ b f. refl;
        off_begin = λ b f. refl;
        off_out = λ b f. ground (arith, c b, d b);
        places = λ y m.
            inl (
              m,
              mem-copies (λ (y : RecvWaiter). y.handle) r y s.state.recv_waiters m (omega arith),
            );
        handed = λ y m. (
          subst (Memᴰ y) (sym e) (widen y xs ys (r, o) m),
          mem-copies handle_of r y (xs ++ ys) m (omega arith),
        );
      }

  -- A receiver that is not waiting goes on to the place `n` of the log.
  moves-Touch :
      (s : System A) (r n : ℕ) (es : List (Received A))
      → is_pending (s.receiver r).wait ≡ false
      → Reads s.log (s.begin r) es n
      → n ≤ length s.log
      → Inv s
      → Touch s
          (record s {
            receiver = update s.receiver r (record { next_seq = n; wait = idle });
            events = update s.events r es;
          })
          r
  moves-Touch s r n es p q l v =
      let w = v.own r in
      let x : Receiver A = record { next_seq = n; wait = idle } in
      let at = update_at s.receiver r x in
      let alone : copies r (waiting_handles s.state.recv_waiters)
            + copies r (map handle_of s.completing)
          ≡ 0 =
        ground (arith, w.out) in
      record {
        holds = v.holds;
        live = v.live;
        log = refl;
        senders = refl;
        opened = omega arith;
        own = record {
          path = rw (at, update_at s.events r es) q;
          place = rw at l;
          owed = rw at tt;
          out = rw at alone;
          fresh = rw at (ground arith);
        };
        off_receiver = λ b f. update_off s.receiver r b x f;
        off_events = λ b f. update_off s.events r b es f;
        off_begin = λ b f. refl;
        off_out = λ b f. refl;
        places = λ y m.
            inl (
              m,
              mem-copies (λ (y : RecvWaiter). y.handle) r y s.state.recv_waiters m (omega arith),
            );
        handed = λ y m. (m, mem-copies handle_of r y s.completing m (omega arith));
      }

  pub answered-Inv :
      (s : System A) (r : ℕ) (o : RecvOutcome A)
      → is_pending (s.receiver r).wait ≡ false
      → Owed o (s.receiver r).next_seq s.state.sender_count s.log
      → Inv s
      → Inv (after_poll r (s.state, poll_wait (completed o) (s.receiver r)) s)
  unfolding after_poll
  answered-Inv s r (value x m) p (e, q) v =
      let w = v.own r in
      Touch-Inv s _ r
        (moves-Touch s r m (s.events r ++ received x ∷ []) p
          (rw q (reads (s.events r) (s.receiver r).next_seq x w.path e))
          (omega (arith, q, get_within (s.receiver r).next_seq x s.log e)) v)
        v
  answered-Inv s r (lagged k m) p (e, q) v =
      let w = v.own r in
      Touch-Inv s _ r
        (moves-Touch s r m (s.events r ++ missed k ∷ []) p
          (rw e (misses (s.events r) (s.receiver r).next_seq k w.path)) q v)
        v
  answered-Inv s r closed p (e, q) v =
      let w = v.own r in
      Touch-Inv s _ r
        (moves-Touch s r (s.receiver r).next_seq (s.events r ++ ended ∷ []) p
          (stops (s.events r) (s.receiver r).next_seq w.path) w.place v)
        v

  pub registers-Touch :
      (s : System A) (r : ℕ)
      → s.alive r ≡ true
      → is_pending (s.receiver r).wait ≡ false
      → length s.log ≤ (s.receiver r).next_seq
      → 0 < s.state.sender_count
      → Inv s
      → Touch s
          (after_poll r
            (
              (enqueue_waiter (s.receiver r).next_seq r s.state).0,
              (record (s.receiver r) { wait = pending }, poll_pending),
            )
            s)
          r
  unfolding after_poll enqueue_waiter
  registers-Touch s r a p l z v =
      let w = v.own r in
      let n = (s.receiver r).next_seq in
      let x : Receiver A = record (s.receiver r) { wait = pending } in
      let y : RecvWaiter = record { id = s.state.next_waiter_id; next_seq = n; handle = r } in
      let at = update_at s.receiver r x in
      let c =
        λ (b : ℕ). copies-map (λ (y : RecvWaiter). y.handle) b s.state.recv_waiters (y ∷ []) in
      record {
        holds = record { room = v.holds.room; next = v.holds.next; ring = v.holds.ring };
        live = v.live;
        log = refl;
        senders = refl;
        opened = omega arith;
        own = record {
          path = rw (at, update_at s.events r (s.events r)) w.path;
          place = rw at w.place;
          owed = rw at tt;
          out = rw at (ground (arith, w.out, c r));
          fresh = rw at (let k = v.live r in ground arith);
        };
        off_receiver = λ b f. update_off s.receiver r b x f;
        off_events = λ b f. update_off s.events r b (s.events r) f;
        off_begin = λ b f. refl;
        off_out = λ b f. ground (arith, c b);
        places = λ u m. elim (mem-append u s.state.recv_waiters (y ∷ []) m) [
          | inl i ↦ inl (
            i,
            mem-copies (λ (y : RecvWaiter). y.handle) r u s.state.recv_waiters i
                (ground (arith, w.out)),
          )
          | inr (head i) ↦ inr (rw i (refl, sym (ap (λ (y : Receiver A). y.next_seq) at), l, z))
          | inr (tail i) ↦ elim i [ ]
        ];
        handed = λ u m. (m, mem-copies handle_of r u s.completing m (ground (arith, w.out)));
      }
