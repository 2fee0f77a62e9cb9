-- ===== src/Channel/Watch/Waits.antt =====
-- The waits of a watch channel that are neither completed nor dropped are those of stored waiters.
use mathlib.Core.Path.{subst}
use mathlib.Core.List.{Memᴰ}
use mathlib.Core.List.Memᴰ.{head, tail}
use runite.Prelude.{
  ℕ, ◌+◌, ◌-◌, ◌^◌, ◌<◌, ◌≡◌, ◌≢◌, refl, sym, ap, ◌∙◌, inl, inr, List, [], ◌∷◌, ◌++◌, map, Option,
  none, some, true, false, Bool-cases, arith, length, ltb, ◌==◌, update, Reach, Reach-keeps,
}
use runite.Channel.Watch.{
  WatchWaiter, Shared, Answer, channel, write, send_modify, wake_loop, wake_changed, close_sender,
  register, cancel, clone_sender, clone_receiver, subscribe, drop_receiver,
}
use runite.Channel.Gaps.{mem-left, mem-right}
use runite.Channel.Watch.Wake.{wake_loop-Woken, remove_waiter-into}
use runite.Channel.Watch.Users.{
  System, Step, start, written, woken, asked, has, completed, write_value, modify, modify_if,
  modify_not, collect, wait, abandon, add_sender, lose_sender, add_receiver, subscribe_one,
  lose_receiver,
}
use runite.Channel.Watch.Inv.{
  true-false, waiting, register-changed, register-closed, register-waits, send-writes, writes,
  only_value,
}

-- The waiter of the wait `n`, whose receiver has seen `seen`.
abbrev pub waiter_of : ℕ → ℕ → WatchWaiter
waiter_of n seen = record { id = n; version = seen; handle = n }

has-mem : (n : ℕ) (hs : List ℕ) → Memᴰ n hs → has n hs ≡ true
has-mem n [] m = elim m [ ]
has-mem n (h ∷ hs) m = elim (Bool-cases (n == h)) [
  | inl e ↦ rw e refl
  | inr e ↦ rw e (elim m [ head i ↦ absurd (ground arith) | tail i ↦ has-mem n hs i ])
]

nothing_seen : (v : ℕ) → ◌≢◌ {A = Option ℕ} none (some v)
nothing_seen v e = cc

seen_same : (v w : ℕ) → ◌≡◌ {A = Option ℕ} (some v) (some w) → v ≡ w
seen_same v w e = ap (λ o. elim o [ none ↦ v | some u ↦ u ]) e

-- A wait that a section leaves is one of those before it, and its handle was not returned.
left_waiting :
    (hs : List ℕ) (waits : ℕ → Option ℕ) (n v : ℕ)
    → completed hs waits n ≡ some v
    → (waits n ≡ some v) × (has n hs ≡ false)
left_waiting hs waits n v e = elim (Bool-cases (has n hs)) [
  | inl y ↦ absurd (nothing_seen v (rw y at e))
  | inr f ↦ (rw f at e, f)
]

mem-handles :
    (w : WatchWaiter) (ws : List WatchWaiter) → Memᴰ w ws → Memᴰ w.handle (map (λ x. x.handle) ws)
mem-handles w [] m = elim m [ ]
mem-handles w (x ∷ ws) (head e) = head (ap (λ (t : WatchWaiter). t.handle) e)
mem-handles w (x ∷ ws) (tail m) = tail (mem-handles w ws m)

module _ {A : Type 0} where
  pub record Kept (s : System A) : Type 0 where
    pub ids : (n : ℕ) → n < s.opened → s.ids n ≡ n
    pub next : s.shared.next_waiter_id ≡ s.opened
    pub stored :
        (n v : ℕ) → s.waits n ≡ some v → (n < s.opened) × Memᴰ (waiter_of n v) s.shared.waiters

  start-Kept : (initial : A) → Kept (start initial)
  unfolding start channel
  start-Kept initial = record {
    ids = λ n l. omega arith;
    next = refl;
    stored = λ n v e. absurd (nothing_seen v e);
  }

  -- A section that leaves the waiters as they are.
  untouched :
      (s : System A) (t : Shared A) (collecting : List ℕ)
      → t.waiters ≡ s.shared.waiters
      → t.next_waiter_id ≡ s.shared.next_waiter_id
      → Kept s
      → Kept (record s { shared = t; collecting = collecting })
  untouched s t collecting e f k = record {
    ids = k.ids;
    next = f ∙ k.next;
    stored = λ n v w. rw e (k.stored n v w);
  }

  collect-Kept :
      (s : System A) (c : ℕ) (collecting : List ℕ)
      → Kept s
      → Kept (record (woken s (wake_changed c s.shared)) { collecting = collecting })
  unfolding wake_changed
  collect-Kept s c collecting k =
      let ws = s.shared.waiters in
      let r = wake_loop (length ws) c [] ws [] in
      let o = wake_loop-Woken (length ws) c [] ws [] (omega arith) in
      record {
        ids = k.ids;
        next = k.next;
        stored = λ n v e.
            let (was, f) = left_waiting r.1 s.waits n v e in
            let (l, m) = k.stored n v was in
            (
              l,
              elim (Bool-cases (ltb v c)) [
                | inl y ↦
                    let z = has-mem n r.1 (o.taken (waiter_of n v) m (ground arith)) in
                    absurd (true-false (sym z ∙ f))
                | inr y ↦ o.stays (waiter_of n v) m (ground arith)
              ],
            );
      }

  lose-Kept : (s : System A) → Kept s → Kept (woken s (close_sender s.shared))
  unfolding close_sender
  lose-Kept s k = elim (Bool-cases (s.shared.sender_count - 1 == 0)) [
    | inl z ↦ rw z (record {
      ids = k.ids;
      next = k.next;
      stored = λ n v e.
          let hs = map (λ (w : WatchWaiter). w.handle) s.shared.waiters in
          let (was, f) = left_waiting hs s.waits n v e in
          let (l, m) = k.stored n v was in
          absurd
            (true-false (sym (has-mem n hs (mem-handles (waiter_of n v) s.shared.waiters m)) ∙ f));
    })
    | inr z ↦ rw z (record { ids = k.ids; next = k.next; stored = k.stored })
  ]

  waiting-Kept :
      (s : System A) (seen : ℕ)
      → s.shared.next_waiter_id + 1 < 2 ^ 64
      → Kept s
      → Kept (asked s seen (waiting seen s.opened s.shared, none))
  waiting-Kept s seen b k =
      let p = k.next in
      record {
        ids = λ n l. elim (Bool-cases (n == s.opened)) [
          | inl e ↦ rw e (ground arith)
          | inr e ↦ rw e (k.ids n (ground arith))
        ];
        next = omega arith;
        stored = λ n v w. elim (Bool-cases (n == s.opened)) [
          | inl e ↦
              let same : n ≡ s.opened = ground arith in
              let seen_is = seen_same seen v (rw e at w) in
              (
                omega arith,
                mem-right (waiter_of n v) s.shared.waiters (_ ∷ [])
                    (head (rw (sym seen_is, same, k.next) refl)),
              )
          | inr e ↦
              let (l, m) = k.stored n v (rw e at w) in
              (omega arith, mem-left (waiter_of n v) s.shared.waiters (_ ∷ []) m)
        ];
      }

  wait-Kept :
      (s : System A) (seen : ℕ)
      → s.shared.next_waiter_id + 1 < 2 ^ 64
      → Kept s
      → Kept (asked s seen (register seen s.opened s.shared))
  wait-Kept s seen b k =
      let goal : Shared A × Option Answer → Type 0 = λ r. Kept (asked s seen r) in
      let same = untouched s s.shared s.collecting refl refl k in
      elim (Bool-cases (ltb seen s.shared.version)) [
        | inl e ↦ subst goal (sym (register-changed seen s.opened s.shared e)) same
        | inr e ↦ elim (Bool-cases (s.shared.sender_count == 0)) [
          | inl z ↦ subst goal (sym (register-closed seen s.opened s.shared e z)) same
          | inr z ↦
              subst goal (sym (register-waits seen s.opened s.shared e z)) (waiting-Kept s seen b k)
        ]
      ]

  abandon-Kept :
      (s : System A) (m : ℕ)
      → m < s.opened
      → Kept s
      → Kept (record s { shared = cancel (s.ids m) s.shared; waits = update s.waits m none })
  unfolding cancel
  abandon-Kept s m l k = record {
    ids = k.ids;
    next = k.next;
    stored = λ n v w. elim (Bool-cases (n == m)) [
      | inl e ↦ absurd (nothing_seen v (rw e at w))
      | inr e ↦
          let (b, i) = k.stored n v (rw e at w) in
          let id = k.ids m l in
          (b, remove_waiter-into (s.ids m) (waiter_of n v) s.shared.waiters i (λ f. ground arith))
    ];
  }

  Step-Kept : (s t : System A) → Step s t → Kept s → Kept t
  unfolding write send_modify clone_sender clone_receiver subscribe drop_receiver
  Step-Kept s t (write_value v u b e) k =
      subst (λ x. Kept (written s x)) (send-writes v s.shared u e)
        (untouched s (write v s.shared) _ refl refl k)
  Step-Kept s t (modify f b) k = untouched s _ _ refl refl k
  Step-Kept s t (modify_if f b e) k =
      subst (λ x. Kept (written s x)) (sym (writes f s.shared e))
        (untouched s (write (f s.shared.value).0 s.shared) _ refl refl k)
  Step-Kept s t (modify_not f e) k =
      subst (λ x. Kept (record s { shared = x })) (sym (only_value f s.shared e))
        (untouched s _ s.collecting refl refl k)
  Step-Kept s t (collect xs c ys e) k = collect-Kept s c (xs ++ ys) k
  Step-Kept s t (wait seen b f) k = wait-Kept s seen f k
  Step-Kept s t (abandon n l) k = abandon-Kept s n l k
  Step-Kept s t (add_sender h) k = untouched s _ s.collecting refl refl k
  Step-Kept s t (lose_sender h) k = lose-Kept s k
  Step-Kept s t add_receiver k = untouched s _ s.collecting refl refl k
  Step-Kept s t subscribe_one k = untouched s _ s.collecting refl refl k
  Step-Kept s t (lose_receiver h) k = untouched s _ s.collecting refl refl k

  pub Reach-Kept : (initial : A) {s : System A} → Reach Step (start initial) s → Kept s
  Reach-Kept initial r = Reach-keeps Step Kept Step-Kept (start-Kept initial) r
