-- ===== src/Channel/Watch/Inv.antt =====
-- What holds of a watch channel between two sections, and that every section keeps it.
use mathlib.Core.Path.{subst}
use mathlib.Core.List.{Memᴰ}
use mathlib.Core.List.Memᴰ.{head, tail}
use runite.Prelude.{
  ℕ, ◌+◌, ◌-◌, ◌%◌, ◌^◌, ◌≤◌, ◌<◌, ◌≡◌, ◌≢◌, refl, sym, ap, ◌∙◌, ◌⊎◌, inl, inr, List, [], ◌∷◌, ◌++◌,
  Option, none, some, Bool, true, false, Bool-cases, arith, length, ltb, ◌==◌, if-true, if-false,
  Reach, Reach-keeps,
}
use runite.Channel.Watch.{
  WatchWaiter, Shared, Answer, changed, closed, channel, write, send, send_modify, send_if_modified,
  wake_loop, wake_changed, close_sender, register, cancel, remove_waiter, clone_sender,
  clone_receiver, subscribe, drop_receiver,
}
use runite.Channel.Gaps.{mem-append, mem-left, mem-right}
use runite.Channel.Watch.Wake.{wake_loop-Woken, remove_waiter-from}
use runite.Channel.Watch.Users.{
  System, Step, start, written, woken, asked, write_value, modify, modify_if, modify_not, collect,
  wait, abandon, add_sender, lose_sender, add_receiver, subscribe_one, lose_receiver,
}

pub true-false : true ≢ false
true-false e = cc

wake_nothing : (c : ℕ) (ws : List WatchWaiter) → ws ≡ [] → (wake_loop (length ws) c [] ws []).0 ≡ []
unfolding wake_loop
wake_nothing c [] e = refl
wake_nothing c (w ∷ ws) e = absurd (cc)

remove-nothing : (id : ℕ) (ws : List WatchWaiter) → ws ≡ [] → remove_waiter id ws ≡ []
unfolding remove_waiter
remove-nothing id [] e = refl
remove-nothing id (w ∷ ws) e = absurd (cc)

module _ {A : Type 0} where
  -- A waiter that has seen the current version, or that a write on its way will collect.
  abbrev pub Fresh : System A → WatchWaiter → Type 0
  Fresh s w = (w.version ≡ s.shared.version) ⊎ ((c : ℕ) × Memᴰ c s.collecting × (w.version < c))

  pub record Inv (s : System A) : Type 0 where
    pub fresh : (w : WatchWaiter) → Memᴰ w s.shared.waiters → Fresh s w
    pub open_or_empty : (s.shared.waiters ≡ []) ⊎ (0 < s.shared.sender_count)

  start-Inv : (initial : A) → Inv (start initial)
  unfolding start channel
  start-Inv initial = record { fresh = λ w m. elim m [ ]; open_or_empty = inl refl }

  written-Inv :
      (s : System A) (v : A)
      → s.shared.version + 1 < 2 ^ 64
      → Inv s
      → Inv (written s (write v s.shared))
  unfolding write
  written-Inv s v b i = record {
    fresh = λ w m. elim (i.fresh w m) [
      | inl e ↦ inr (
        (s.shared.version + 1) % 2 ^ 64,
        mem-right _ s.collecting (_ ∷ []) (head refl),
        omega (arith, e, b),
      )
      | inr (c, k, l) ↦ inr (c, mem-left c s.collecting (_ ∷ []) k, l)
    ];
    open_or_empty = i.open_or_empty;
  }

  collect-Inv :
      (s : System A) (xs : List ℕ) (c : ℕ) (ys : List ℕ)
      → s.collecting ≡ xs ++ c ∷ ys
      → Inv s
      → Inv (record (woken s (wake_changed c s.shared)) { collecting = xs ++ ys })
  unfolding wake_changed
  collect-Inv s xs c ys e i =
      let k = wake_loop-Woken (length s.shared.waiters) c [] s.shared.waiters [] (omega arith) in
      record {
        fresh = λ w m. elim (k.left w m) [
          | inl n ↦ elim n [ ]
          | inr (was, l) ↦ elim (i.fresh w was) [
            | inl f ↦ inl f
            | inr (d, p, q) ↦ elim (mem-append d xs (c ∷ ys) (subst (Memᴰ d) e p)) [
              | inl a ↦ inr (d, mem-left d xs ys a, q)
              | inr (head a) ↦ absurd (omega (arith, a, q, l))
              | inr (tail a) ↦ inr (d, mem-right d xs ys a, q)
            ]
          ]
        ];
        open_or_empty = elim i.open_or_empty [
          | inl n ↦ inl (wake_nothing c s.shared.waiters n)
          | inr o ↦ inr o
        ];
      }

  -- The waiter that a receiver leaves.
  abbrev pub waiting : ℕ → ℕ → Shared A → Shared A
  waiting seen handle s = record s {
    next_waiter_id = (s.next_waiter_id + 1) % 2 ^ 64;
    waiters = s.waiters ++ record { id = s.next_waiter_id; version = seen; handle = handle } ∷ [];
  }

  waiting-Inv :
      (s : System A) (seen : ℕ)
      → seen ≡ s.shared.version
      → 0 < s.shared.sender_count
      → Inv s
      → Inv (asked s seen (waiting seen s.opened s.shared, none))
  waiting-Inv s seen e o i = record {
    fresh = λ w m. elim (mem-append w s.shared.waiters (_ ∷ []) m) [
      | inl was ↦ i.fresh w was
      | inr (head is) ↦ inl (ap (λ (t : WatchWaiter). t.version) is ∙ e)
      | inr (tail n) ↦ elim n [ ]
    ];
    open_or_empty = inr o;
  }

  pub register-changed :
      (seen handle : ℕ) (s : Shared A)
      → ltb seen s.version ≡ true
      → register seen handle s ≡ (s, some (changed s.version))
  unfolding register
  register-changed seen handle s e = if-true (ltb seen s.version) _ _ e

  pub register-closed :
      (seen handle : ℕ) (s : Shared A)
      → ltb seen s.version ≡ false
      → (s.sender_count == 0) ≡ true
      → register seen handle s ≡ (s, some closed)
  unfolding register
  register-closed seen handle s e z =
      if-false (ltb seen s.version) _ _ e ∙ if-true (s.sender_count == 0) _ _ z

  pub register-waits :
      (seen handle : ℕ) (s : Shared A)
      → ltb seen s.version ≡ false
      → (s.sender_count == 0) ≡ false
      → register seen handle s ≡ (waiting seen handle s, none)
  unfolding register
  register-waits seen handle s e z =
      if-false (ltb seen s.version) _ _ e ∙ if-false (s.sender_count == 0) _ _ z

  wait-Inv :
      (s : System A) (seen : ℕ)
      → seen ≤ s.shared.version
      → Inv s
      → Inv (asked s seen (register seen s.opened s.shared))
  wait-Inv s seen b i =
      let goal : Shared A × Option Answer → Type 0 = λ r. Inv (asked s seen r) in
      let handle = s.opened in
      elim (Bool-cases (ltb seen s.shared.version)) [
        | inl e ↦
            subst goal (sym (register-changed seen handle s.shared e))
              (record { fresh = i.fresh; open_or_empty = i.open_or_empty })
        | inr e ↦ elim (Bool-cases (s.shared.sender_count == 0)) [
          | inl z ↦
              subst goal (sym (register-closed seen handle s.shared e z))
                (record { fresh = i.fresh; open_or_empty = i.open_or_empty })
          | inr z ↦
              subst goal (sym (register-waits seen handle s.shared e z))
                (waiting-Inv s seen (ground arith) (ground arith) i)
        ]
      ]

  lose-Inv :
      (s : System A) → 0 < s.shared.sender_count → Inv s → Inv (woken s (close_sender s.shared))
  unfolding close_sender
  lose-Inv s h i = elim (Bool-cases (s.shared.sender_count - 1 == 0)) [
    | inl z ↦ rw z (record { fresh = λ w m. elim m [ ]; open_or_empty = inl refl })
    | inr z ↦ rw z (record { fresh = i.fresh; open_or_empty = inr (ground arith) })
  ]

  cancel-Inv :
      (s : System A) (id : ℕ) (waits : ℕ → Option ℕ)
      → Inv s
      → Inv (record s { shared = cancel id s.shared; waits = waits })
  unfolding cancel
  cancel-Inv s id waits i = record {
    fresh = λ w m. i.fresh w (remove_waiter-from id w s.shared.waiters m);
    open_or_empty = elim i.open_or_empty [
      | inl n ↦ inl (remove-nothing id s.shared.waiters n)
      | inr o ↦ inr o
    ];
  }

  none-some : (t : Shared A) → ◌≢◌ {A = Option (Shared A)} none (some t)
  none-some t e = cc

  some_inner : (s t : Shared A) → ◌≡◌ {A = Option (Shared A)} (some s) (some t) → s ≡ t
  some_inner s t e = ap (λ o. elim o [ none ↦ s | some u ↦ u ]) e

  pub send-writes : (v : A) (s t : Shared A) → send v s ≡ some t → write v s ≡ t
  unfolding send
  send-writes v s t e = elim (Bool-cases (s.receiver_count == 0)) [
    | inl z ↦
        absurd (none-some t (sym (if-true (s.receiver_count == 0) none (some (write v s)) z) ∙ e))
    | inr z ↦
        some_inner (write v s) t
          (sym (if-false (s.receiver_count == 0) none (some (write v s)) z) ∙ e)
  ]

  -- Whether the closure reports a change decides whether the version moves.
  pub writes :
      (f : A → A × Bool) (s : Shared A)
      → (send_if_modified f s).1 ≡ true
      → (send_if_modified f s).0 ≡ write (f s.value).0 s
  unfolding send_if_modified
  writes f s e = elim (Bool-cases (f s.value).1) [
    | inl y ↦ rw y refl
    | inr n ↦ absurd (true-false (sym e ∙ rw n refl))
  ]

  pub only_value :
      (f : A → A × Bool) (s : Shared A)
      → (send_if_modified f s).1 ≡ false
      → (send_if_modified f s).0 ≡ record s { value = (f s.value).0 }
  unfolding send_if_modified
  only_value f s e = elim (Bool-cases (f s.value).1) [
    | inl y ↦ absurd (true-false (sym (rw y refl) ∙ e))
    | inr n ↦ rw n refl
  ]

  Step-Inv : (s t : System A) → Step s t → Inv s → Inv t
  unfolding send_modify clone_sender clone_receiver subscribe drop_receiver
  Step-Inv s t (write_value v u b e) i =
      subst (λ x. Inv (written s x)) (send-writes v s.shared u e) (written-Inv s v b i)
  Step-Inv s t (modify f b) i = written-Inv s (f s.shared.value) b i
  Step-Inv s t (modify_if f b e) i =
      subst (λ x. Inv (written s x)) (sym (writes f s.shared e))
        (written-Inv s (f s.shared.value).0 b i)
  Step-Inv s t (modify_not f e) i =
      subst (λ x. Inv (record s { shared = x })) (sym (only_value f s.shared e))
        (record { fresh = i.fresh; open_or_empty = i.open_or_empty })
  Step-Inv s t (collect xs c ys e) i = collect-Inv s xs c ys e i
  Step-Inv s t (wait seen b f) i = wait-Inv s seen b i
  Step-Inv s t (abandon n l) i = cancel-Inv s (s.ids n) _ i
  Step-Inv s t (add_sender h) i = record { fresh = i.fresh; open_or_empty = inr (omega arith) }
  Step-Inv s t (lose_sender h) i = lose-Inv s h i
  Step-Inv s t add_receiver i = record { fresh = i.fresh; open_or_empty = i.open_or_empty }
  Step-Inv s t subscribe_one i = record { fresh = i.fresh; open_or_empty = i.open_or_empty }
  Step-Inv s t (lose_receiver h) i = record { fresh = i.fresh; open_or_empty = i.open_or_empty }

  pub Reach-Inv : (initial : A) {s : System A} → Reach Step (start initial) s → Inv s
  Reach-Inv initial r = Reach-keeps Step Inv Step-Inv (start-Inv initial) r
