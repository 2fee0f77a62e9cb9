-- ===== src/Channel/Broadcast/Steps.antt =====
-- A section that touches one receiver, or collects waiters, keeps what holds of a broadcast channel.
use mathlib.Core.Path.{subst}
use mathlib.Core.List.{Memᴰ}
use mathlib.Core.List.Memᴰ.{head, tail}
use runite.Prelude.{
  ℕ, ◌+◌, ◌<◌, ◌≤◌, ◌≡◌, sym, ap, ◌∙◌, ◌⊎◌, inl, inr, List, [], ◌∷◌, ◌++◌, map, false, ◌&&◌,
  Bool-cases, length, leb, ◌==◌, bit, copies, arith,
}
use runite.Channel.Gaps.{mem-append}
use runite.Channel.Broadcast.{RecvWaiter, State, RecvOutcome, answers, waits, Receiver}
use runite.Channel.Broadcast.Log.{Holds}
use runite.Channel.Broadcast.Wake.{Woken, waiting_handles, copies-map}
use runite.Channel.Broadcast.Users.{System}
use runite.Channel.Broadcast.Inv.{
  Owed, is_pending, Grows, Reads-Grows, Owed-Grows, OwedWait-Grows, recv_outcome-Owed, Own, Inv,
}

pub mem-copies :
    {B : Type 0} (f : B → ℕ) (r : ℕ) (x : B) (xs : List B)
    → Memᴰ x xs
    → copies r (map f xs) ≡ 0
    → (f x == r) ≡ false
mem-copies f r x [] m e = elim m [ ]
mem-copies f r x (y ∷ ys) (head i) e = let q = ap f i in ground arith
mem-copies f r x (y ∷ ys) (tail m) e = mem-copies f r x ys m (omega arith)

module _ {A : Type 0} where
  abbrev pub handle_of : ℕ × RecvOutcome A → ℕ
  handle_of c = c.0

  -- A section that touches the receiver `r` only.
  pub record Touch (s t : System A) (r : ℕ) : Type 0 where
    pub holds : Holds t.state t.log
    pub log : t.log ≡ s.log
    pub senders : t.state.sender_count ≡ s.state.sender_count
    pub opened : s.opened ≤ t.opened
    pub own : Own t r
    pub live : (b : ℕ) → (t.alive b && leb t.opened b) ≡ false
    pub off_receiver : (b : ℕ) → (b == r) ≡ false → t.receiver b ≡ s.receiver b
    pub off_events : (b : ℕ) → (b == r) ≡ false → t.events b ≡ s.events b
    pub off_begin : (b : ℕ) → (b == r) ≡ false → t.begin b ≡ s.begin b
    pub off_out :
        (b : ℕ)
        → (b == r) ≡ false
        → copies b (waiting_handles t.state.recv_waiters) + copies b (map handle_of t.completing)
          ≡ copies b (waiting_handles s.state.recv_waiters) + copies b (map handle_of s.completing)
    pub places :
        (w : RecvWaiter)
        → Memᴰ w t.state.recv_waiters
        → (Memᴰ w s.state.recv_waiters × ((w.handle == r) ≡ false))
          ⊎ ((w.handle ≡ r)
              × (w.next_seq ≡ (t.receiver r).next_seq)
              × (length s.log ≤ w.next_seq)
              × (0 < s.state.sender_count))
    pub handed :
        (c : ℕ × RecvOutcome A) → Memᴰ c t.completing → Memᴰ c s.completing × ((c.0 == r) ≡ false)

  off-Own : (s t : System A) (r b : ℕ) → (b == r) ≡ false → Touch s t r → Own s b → Own t b
  off-Own s t r b e k o =
      let x = k.off_receiver b e in
      record {
        path = rw (k.log, x, k.off_events b e, k.off_begin b e) o.path;
        place = rw (k.log, x) o.place;
        owed = rw (k.log, x, k.senders) o.owed;
        out = k.off_out b e ∙ o.out ∙ ap (λ (y : Receiver A). bit (is_pending y.wait)) (sym x);
        fresh = let f = o.fresh in let l = k.opened in rw x (ground arith);
      }

  pub Touch-Inv : (s t : System A) (r : ℕ) → Touch s t r → Inv s → Inv t
  Touch-Inv s t r k v = record {
    holds = k.holds;
    live = k.live;
    own = λ b. elim (Bool-cases (b == r)) [
      | inl e ↦ let z : r ≡ b = ground arith in subst (Own t) z k.own
      | inr e ↦ off-Own s t r b e k (v.own b)
    ];
    places = λ w m. elim (k.places w m) [
      | inl (i, e) ↦
          let (p, q, u) = v.places w i in
          (
            p ∙ ap (λ (y : Receiver A). y.next_seq) (sym (k.off_receiver w.handle e)),
            rw k.log q,
            rw k.senders u,
          )
      | inr (e, p, q, u) ↦
          (p ∙ ap (λ n. (t.receiver n).next_seq) (sym e), rw k.log q, rw k.senders u)
    ];
    handed = λ c m.
        let (i, e) = k.handed c m in rw (k.log, k.senders, k.off_receiver c.0 e) (v.handed c i);
  }

  -- The state with the waiters that a wake left, and what it took.
  abbrev pub collected :
      State A → List A → List RecvWaiter × List (ℕ × RecvOutcome A) → System A → System A
  collected u log r s = record s {
    state = record u { recv_waiters = r.0 };
    log = log;
    completing = s.completing ++ r.1;
  }

  -- Collecting the waiters after a push, or when the last sender goes.
  pub collected-Inv :
      (s : System A) (u : State A) (log : List A) (r : List RecvWaiter × List (ℕ × RecvOutcome A))
      → 0 < s.state.sender_count
      → u.recv_waiters ≡ s.state.recv_waiters
      → Grows s.log log
      → Holds u log
      → Woken u [] u.recv_waiters [] r
      → Inv s
      → Inv (collected u log r s)
  collected-Inv s u log r p e g h k v =
      let longer = g.longer in
      let mem : (w : RecvWaiter) → Memᴰ w u.recv_waiters → Memᴰ w s.state.recv_waiters =
        λ w m. subst (Memᴰ w) e m in
      record {
        holds = record { room = h.room; next = h.next; ring = h.ring };
        live = v.live;
        own = λ b.
            let o = v.own b in
            let q = o.place in
            record {
              path =
                  Reads-Grows s.log log (s.begin b) (s.events b) (s.receiver b).next_seq g o.path;
              place = omega arith;
              owed =
                  OwedWait-Grows (s.receiver b).wait (s.receiver b).next_seq s.state.sender_count
                    u.sender_count s.log log p g o.owed;
              out = omega (
                arith,
                o.out,
                k.counts b,
                copies-map handle_of b s.completing r.1,
                ap (λ ws. copies b (waiting_handles ws)) e,
              );
              fresh = o.fresh;
            };
        places = λ w m. elim (k.left w m) [
          | inl i ↦ elim i [ ]
          | inr (i, l) ↦
              let (x, y, z) = v.places w (mem w i) in
              let (a, b) = recv_outcome-Owed u log w.next_seq waits h l in (x, a, b)
        ];
        handed = λ c m. elim (mem-append c s.completing r.1 m) [
          | inl i ↦
              Owed-Grows c.1 (s.receiver c.0).next_seq s.state.sender_count u.sender_count s.log log
                p g (v.handed c i)
          | inr i ↦ elim (k.taken c i) [
            | inl j ↦ elim j [ ]
            | inr (w, j, f, l) ↦
                let (x, y, z) = v.places w (mem w j) in
                let q : w.next_seq ≡ (s.receiver c.0).next_seq =
                  x ∙ ap (λ n. (s.receiver n).next_seq) f in
                subst (λ n. Owed c.1 n u.sender_count log) q
                  (recv_outcome-Owed u log w.next_seq (answers c.1) h l)
          ]
        ];
      }
