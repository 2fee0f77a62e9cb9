-- ===== src/Channel/Broadcast/Ids.antt =====
-- The ids of the waiters of a broadcast channel, by which `remove_waiter` finds the one to remove.
use mathlib.Core.Path.{subst}
use mathlib.Core.List.{Memᴰ}
use mathlib.Core.List.Memᴰ.{head, tail}
use runite.Prelude.{
  ℕ, suc, ◌+◌, ◌-◌, ◌<◌, ◌≤◌, ◌^◌, ◌≡◌, refl, sym, ap, ◌∙◌, inl, inr, List, [], ◌∷◌, ◌++◌, Option,
  none, some, Bool, true, false, Bool-cases, ◌==◌, copies, update, if◌then◌else◌, arith,
}
use runite.Channel.Gaps.{fill_gap, copies-fill_gap, gap_from, mem-append, mem-right}
use runite.Channel.Broadcast.{
  RecvWaiter, State, RecvOutcome, Looked, answers, waits, panics, Wait, idle, pending, completed,
  Receiver, SendResult, send_error, send_panics, sent, sent_to, new, without, remove_waiter,
  push_value, send, drop_sender, clone_sender, subscribe, drop_receiver, poll_recv, poll_on,
  registered, enqueue_waiter, recv_outcome, wake_ready_receivers,
}
use runite.Channel.Broadcast.Log.{Holds, push_value-Holds}
use runite.Channel.Broadcast.Wake.{
  Sound, waiting_handles, waiting_ids, copies-map, wake_ready_receivers-Woken,
}
use runite.Channel.Broadcast.Users.{
  System, start, Step, sends, completes, polls, subscribes, clones, loses_sender, drops, cancels,
  after_poll, after_subscribe, id_after,
}
use runite.Channel.Broadcast.Inv.{Holds-Sound, is_pending, Inv}
use runite.Channel.Broadcast.Steps.{mem-copies}

id_of : RecvWaiter → ℕ
id_of w = w.id

without-first :
    (xs ys : List RecvWaiter) (w : RecvWaiter)
    → copies w.id (waiting_ids xs) ≡ 0
    → without w.id (xs ++ w ∷ ys) ≡ xs ++ fill_gap ys
unfolding without
without-first [] ys w e = let same : (w.id == w.id) ≡ true = ground arith in rw same refl
without-first (x ∷ xs) ys w e =
    let other : (x.id == w.id) ≡ false = ground arith in
    rw other (ap (λ zs. x ∷ zs) (without-first xs ys w (omega arith)))

copies-without :
    (b i : ℕ) (ws : List RecvWaiter)
    → copies b (waiting_ids (without i ws)) ≤ copies b (waiting_ids ws)
unfolding without
copies-without b i [] = omega arith
copies-without b i (w ∷ ws) = elim (Bool-cases (w.id == i)) [
  | inl e ↦ rw e (omega (arith, copies-fill_gap (λ (x : RecvWaiter). x.id) b ws))
  | inr e ↦ rw e (omega (arith, copies-without b i ws))
]

without-from : (i : ℕ) (x : RecvWaiter) (ws : List RecvWaiter) → Memᴰ x (without i ws) → Memᴰ x ws
unfolding without
without-from i x [] m = m
without-from i x (w ∷ ws) m = elim (Bool-cases (w.id == i)) [
  | inl e ↦ tail (gap_from x ws (rw e at m))
  | inr e ↦ elim (rw e at m) [ head a ↦ head a | tail a ↦ tail (without-from i x ws a) ]
]

module _ {A : Type 0} where
  -- What a wake hands over to its caller.
  abbrev wake_of :
      State A × List (ℕ × RecvOutcome A) → SendResult A → State A × List (ℕ × RecvOutcome A)
  wake_of d send_error = d
  wake_of d send_panics = d
  wake_of d (sent t n ready) = (t, ready)

  abbrev pub lost_of :
      State A × List (ℕ × RecvOutcome A)
      → Option (State A × List (ℕ × RecvOutcome A))
      → State A × List (ℕ × RecvOutcome A)
  lost_of d none = d
  lost_of d (some r) = r

  -- No two waiters have one id, and the next id is above all that are in use.
  -- The callbacks were made with the ids of the waiters.
  pub record Ids (ids : ℕ → ℕ) (s : State A) : Type 0 where
    pub known : (w : RecvWaiter) → Memᴰ w s.recv_waiters → ids w.handle ≡ w.id
    pub once : (b : ℕ) → copies b (waiting_ids s.recv_waiters) ≤ 1
    pub unused : (b : ℕ) → s.next_waiter_id ≤ b → copies b (waiting_ids s.recv_waiters) ≡ 0

  pub start-Ids : (capacity : ℕ) → Ids (start {A = A} capacity).ids (start {A = A} capacity).state
  unfolding start new
  start-Ids capacity = record {
    known = λ w m. elim m [ ];
    once = λ b. omega arith;
    unused = λ b l. refl;
  }

  -- `remove_waiter` takes out the waiter with the id, and no other.
  pub cancelled_only :
      (f : ℕ → ℕ) (s : State A)
      → Ids f s
      → (xs ys : List RecvWaiter) (w : RecvWaiter) → s.recv_waiters ≡ xs ++ w ∷ ys
      → without w.id s.recv_waiters ≡ xs ++ fill_gap ys
  cancelled_only f s i xs ys w e =
      let all = copies-map (λ (x : RecvWaiter). x.id) w.id xs (w ∷ ys) in
      let total = ap (λ zs. copies w.id (waiting_ids zs)) e in
      let once = i.once w.id in
      let same : (w.id == w.id) ≡ true = ground arith in
      ap (without w.id) e ∙ without-first xs ys w (ground arith)

  -- A section that hands no id out and adds no waiter.
  fewer :
      (f : ℕ → ℕ) (s t : State A)
      → t.next_waiter_id ≡ s.next_waiter_id
      → ((b : ℕ) → copies b (waiting_ids t.recv_waiters) ≤ copies b (waiting_ids s.recv_waiters))
      → ((w : RecvWaiter) → Memᴰ w t.recv_waiters → Memᴰ w s.recv_waiters)
      → Ids f s
      → Ids f t
  fewer f s t e l m i = record {
    known = λ w n. i.known w (m w n);
    once = λ b. omega (arith, l b, i.once b);
    unused = λ b k. let none_in = i.unused b (omega arith) in omega (arith, l b, none_in);
  }

  woken-Ids :
      (f : ℕ → ℕ) (u : State A) (d : State A × List (ℕ × RecvOutcome A))
      → Sound u
      → lost_of d (wake_ready_receivers u) ≡ d
      → Ids f u
      → Ids f d.0
  woken-Ids f u d n q i =
      let (r, x, k) = wake_ready_receivers-Woken u n in
      let z : (record u { recv_waiters = r.0 }, r.1) ≡ d = ap (lost_of d) (sym x) ∙ q in
      subst (λ (c : State A × List (ℕ × RecvOutcome A)). Ids f c.0) z
        (fewer f u (record u { recv_waiters = r.0 }) refl (λ b. omega (arith, k.no_more b))
          (λ w m. elim (k.left w m) [ inl a ↦ elim a [ ] | inr (a, c) ↦ a ]) i)

  pub sent_lost :
      (b : Bool) (k n : ℕ) (d : State A × List (ℕ × RecvOutcome A))
      → (x : Option (State A × List (ℕ × RecvOutcome A)))
      → (if b then send_error else sent_to k x) ≡ sent d.0 n d.1
      → lost_of d x ≡ d
  sent_lost true k n d x e = cc
  sent_lost false k n d none e = cc
  sent_lost false k n d (some (t, ready)) e = ap (wake_of d) e

  push_value-Ids : (f : ℕ → ℕ) (v : A) (s : State A) → Ids f s → Ids f (push_value v s)
  unfolding push_value
  push_value-Ids f v s i = record { known = i.known; once = i.once; unused = i.unused }

  sends-Ids :
      (s : System A) (v : A) (t : State A) (n : ℕ) (ready : List (ℕ × RecvOutcome A))
      → suc s.state.next_seq < 2 ^ 64
      → send v s.state ≡ sent t n ready
      → Inv s
      → Ids s.ids s.state
      → Ids s.ids t
  unfolding send
  sends-Ids s v t n ready b e w i =
      let u = push_value v s.state in
      woken-Ids s.ids u (t, ready)
        (Holds-Sound u (s.log ++ v ∷ []) (push_value-Holds s.state s.log v b w.holds))
        (sent_lost (s.state.receiver_count == 0) s.state.receiver_count n (t, ready)
          (wake_ready_receivers u) e)
        (push_value-Ids s.ids v s.state i)

  loses-Ids :
      (s : System A) (t : State A) (ready : List (ℕ × RecvOutcome A))
      → drop_sender s.state ≡ some (t, ready)
      → Inv s
      → Ids s.ids s.state
      → Ids s.ids t
  unfolding drop_sender
  loses-Ids s t ready e w i =
      let u : State A = record s.state { sender_count = s.state.sender_count - 1 } in
      let h : Holds u s.log = record {
        room = w.holds.room;
        next = w.holds.next;
        ring = w.holds.ring;
      } in
      let k : Ids s.ids u = record { known = i.known; once = i.once; unused = i.unused } in
      let d : State A × List (ℕ × RecvOutcome A) = (t, ready) in
      elim (Bool-cases (s.state.sender_count - 1 == 0)) [
        | inl f ↦ woken-Ids s.ids u d (Holds-Sound u s.log h) (ap (lost_of d) (rw f at e)) k
        | inr f ↦
            subst (λ (c : State A × List (ℕ × RecvOutcome A)). Ids s.ids c.0)
              (ap (lost_of d) (rw f at e)) k
      ]

  -- A receiver without a waiter.
  abbrev Free : ℕ → State A → Type 0
  Free r s = copies r (waiting_handles s.recv_waiters) ≡ 0

  -- The callback of a receiver without a waiter may have any id.
  renewed : (f : ℕ → ℕ) (r n : ℕ) (s : State A) → Free r s → Ids f s → Ids (update f r n) s
  renewed f r n s e i = record {
    known = λ w m.
        let other = mem-copies (λ (y : RecvWaiter). y.handle) r w s.recv_waiters m e in
        rw other (i.known w m);
    once = i.once;
    unused = i.unused;
  }

  kept : (f : ℕ → ℕ) (r : ℕ) (s : State A) → Ids f s → Ids (update f r (f r)) s
  kept f r s i = record {
    known = λ w m. elim (Bool-cases (w.handle == r)) [
      | inl e ↦ let same : r ≡ w.handle = ground arith in rw e (ap f same ∙ i.known w m)
      | inr e ↦ rw e (i.known w m)
    ];
    once = i.once;
    unused = i.unused;
  }

  registered-Ids :
      (f : ℕ → ℕ) (r : ℕ) (o : Looked A) (x : Receiver A) (s : State A)
      → s.next_waiter_id + 1 < 2 ^ 64
      → Free r s
      → Ids f s
      → Ids (update f r (enqueue_waiter x.next_seq r s).1) (registered r o x s).0
  unfolding enqueue_waiter
  registered-Ids f r (answers o) x s b e i = renewed f r s.next_waiter_id s e i
  registered-Ids f r panics x s b e i = renewed f r s.next_waiter_id s e i
  registered-Ids f r waits x s b e i =
      let w : RecvWaiter = record { id = s.next_waiter_id; next_seq = x.next_seq; handle = r } in
      let more = λ (c : ℕ). copies-map (λ (y : RecvWaiter). y.id) c s.recv_waiters (w ∷ []) in
      let k = renewed f r s.next_waiter_id s e i in
      let here : (r == r) ≡ true = ground arith in
      record {
        known = λ y m. elim (mem-append y s.recv_waiters (w ∷ []) m) [
          | inl a ↦ k.known y a
          | inr (head a) ↦ rw (a, here) refl
          | inr (tail a) ↦ elim a [ ]
        ];
        once = λ (c : ℕ). elim (Bool-cases (c == s.next_waiter_id)) [
          | inl e ↦ let none_in = i.unused c (ground arith) in let all = more c in ground arith
          | inr e ↦ let all = more c in let old = i.once c in ground arith
        ];
        unused = λ c l.
            let l : s.next_waiter_id + 1 ≤ c = omega arith in
            let old = i.unused c (omega arith) in
            let all = more c in
            let other : (c == s.next_waiter_id) ≡ false = ground arith in ground arith;
      }

  poll_on-Ids :
      (f : ℕ → ℕ) (r : ℕ) (w : Wait A) (x : Receiver A) (s : State A)
      → s.next_waiter_id + 1 < 2 ^ 64
      → (is_pending w ≡ false → Free r s)
      → Ids f s
      → Ids (update f r (id_after w (f r) (enqueue_waiter x.next_seq r s).1)) (poll_on r w x s).0
  unfolding poll_on registered
  poll_on-Ids f r idle x s b e i = registered-Ids f r (recv_outcome x.next_seq s) x s b (e refl) i
  poll_on-Ids f r pending x s b e i = kept f r s i
  poll_on-Ids f r (completed o) x s b e i = kept f r s i

  pub known_id :
      (s : System A) (xs ys : List RecvWaiter) (w : RecvWaiter)
      → s.state.recv_waiters ≡ xs ++ w ∷ ys
      → Ids s.ids s.state
      → s.ids w.handle ≡ w.id
  known_id s xs ys w e i = i.known w (subst (Memᴰ w) (sym e) (mem-right w xs (w ∷ ys) (head refl)))

  pub Step-Ids : (s t : System A) → Step s t → Inv s → Ids s.ids s.state → Ids t.ids t.state
  unfolding poll_recv after_poll after_subscribe subscribe clone_sender drop_receiver remove_waiter
  Step-Ids s _ (sends x t n ready p b e) v i = sends-Ids s x t n ready b e v i
  Step-Ids s _ (completes xs ys r o e) v i = i
  Step-Ids s _ (polls r a b) v i =
      poll_on-Ids s.ids r (s.receiver r).wait (s.receiver r) s.state b
        (λ p. let o = v.own r in let e = o.out in ground arith) i
  Step-Ids s _ subscribes v i = record { known = i.known; once = i.once; unused = i.unused }
  Step-Ids s _ (clones p) v i = record { known = i.known; once = i.once; unused = i.unused }
  Step-Ids s _ (loses_sender t ready p e) v i = loses-Ids s t ready e v i
  Step-Ids s _ (drops r a) v i = record { known = i.known; once = i.once; unused = i.unused }
  Step-Ids s _ (cancels xs ys w a e) v i =
      let n = s.ids w.handle in
      fewer s.ids s.state (remove_waiter n s.state) refl
        (λ b. copies-without b n s.state.recv_waiters)
        (λ x m. without-from n x s.state.recv_waiters m) i
