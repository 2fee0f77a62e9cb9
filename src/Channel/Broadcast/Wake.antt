-- ===== src/Channel/Broadcast/Wake.antt =====
-- `wake_ready_receivers` answers exactly the waiters that the ring has an answer for.
use mathlib.Core.Path.{subst}
use mathlib.Core.List.{Memᴰ, append-nil}
use mathlib.Core.List.Memᴰ.{head, tail}
use runite.Prelude.{
  ℕ, zero, suc, ◌+◌, ◌≤◌, ◌≡◌, ◌≢◌, refl, sym, ap, ◌∙◌, ◌⊎◌, inl, inr, List, [], ◌∷◌, ◌++◌, map,
  some, length, copies, copies-append, arith,
}
use runite.Channel.Gaps.{fill_gap, length-fill, gap_from, copies-fill_gap, mem-append}
use runite.Channel.Broadcast.{
  State, RecvWaiter, RecvOutcome, Looked, answers, waits, panics, recv_outcome, wake_loop,
  with_waiters, wake_ready_receivers,
}

abbrev pub waiting_handles : List RecvWaiter → List ℕ
waiting_handles = map (λ w. w.handle)

abbrev pub waiting_ids : List RecvWaiter → List ℕ
waiting_ids = map (λ w. w.id)

map-append : {B C : Type 0} (f : B → C) (xs ys : List B) → map f (xs ++ ys) ≡ map f xs ++ map f ys
map-append f [] ys = refl
map-append f (x ∷ xs) ys = ap (λ zs. f x ∷ zs) (map-append f xs ys)

pub copies-map :
    {B : Type 0} (f : B → ℕ) (h : ℕ) (xs ys : List B)
    → copies h (map f (xs ++ ys)) ≡ copies h (map f xs) + copies h (map f ys)
copies-map f h xs ys =
    ap (copies h) (map-append f xs ys) ∙ sym (copies-append (map f xs) (map f ys) h) ∙ omega arith

module _ {A : Type 0} where
  abbrev pub handed_handles : List (ℕ × RecvOutcome A) → List ℕ
  handed_handles = map (λ c. c.0)

  -- No waiter makes an `expect` fail.
  abbrev pub Sound : State A → Type 0
  Sound s = (n : ℕ) → recv_outcome n s ≢ panics

  -- What the loop makes of the waiters that it still has to pass.
  pub record Woken (s : State A) (kept rest : List RecvWaiter) (ready : List (ℕ × RecvOutcome A))
      (r : List RecvWaiter × List (ℕ × RecvOutcome A)) : Type 0 where
    pub counts :
        (h : ℕ)
        → copies h (waiting_handles r.0) + copies h (handed_handles r.1)
          ≡ copies h (waiting_handles kept)
            + copies h (waiting_handles rest)
            + copies h (handed_handles ready)
    pub no_more :
        (b : ℕ)
        → copies b (waiting_ids r.0) ≤ copies b (waiting_ids kept) + copies b (waiting_ids rest)
    pub left :
        (w : RecvWaiter)
        → Memᴰ w r.0
        → Memᴰ w kept ⊎ (Memᴰ w rest × (recv_outcome w.next_seq s ≡ waits))
    pub taken :
        (c : ℕ × RecvOutcome A)
        → Memᴰ c r.1
        → Memᴰ c ready
          ⊎ ((w : RecvWaiter) × Memᴰ w rest
              × (w.handle ≡ c.0)
              × (recv_outcome w.next_seq s ≡ answers c.1))

  looked : (x : Looked A) → (x ≢ panics) → ((o : RecvOutcome A) × x ≡ answers o) ⊎ (x ≡ waits)
  looked (answers o) n = inl (o, refl)
  looked waits n = inr refl
  looked panics n = absurd (n refl)

  pub wake_loop-Woken :
      (fuel : ℕ) (s : State A) (kept rest : List RecvWaiter) (ready : List (ℕ × RecvOutcome A))
      → Sound s
      → length rest ≤ fuel
      → (r : List RecvWaiter × List (ℕ × RecvOutcome A)) × (wake_loop fuel s kept rest ready
          ≡ some r)
        × Woken s kept rest ready r
  unfolding wake_loop
  wake_loop-Woken zero s kept [] ready n b = (
    (kept ++ [], ready),
    refl,
    record {
      counts = λ h. omega (arith, copies-map (λ (w : RecvWaiter). w.handle) h kept []);
      no_more = λ b. omega (arith, copies-map (λ (w : RecvWaiter). w.id) b kept []);
      left = λ w m. inl (subst (Memᴰ w) (append-nil kept) m);
      taken = λ c m. inl m;
    },
  )
  wake_loop-Woken zero s kept (w ∷ ws) ready n b = absurd (omega arith)
  wake_loop-Woken (suc fuel) s kept [] ready n b = (
    (kept, ready),
    refl,
    record {
      counts = λ h. omega arith;
      no_more = λ b. omega arith;
      left = λ w m. inl m;
      taken = λ c m. inl m;
    },
  )
  wake_loop-Woken (suc fuel) s kept (w ∷ ws) ready n b =
      elim (looked (recv_outcome w.next_seq s) (n w.next_seq)) [
        | inl (o, e) ↦
            let (r, q, k) =
              wake_loop-Woken fuel s kept (fill_gap ws) (ready ++ (w.handle, o) ∷ []) n
                (omega (arith, length-fill ws)) in
            (
              r,
              rw (wake_loop, e) q,
              record {
                counts = λ h. omega (
                  arith,
                  k.counts h,
                  copies-fill_gap (λ (w : RecvWaiter). w.handle) h ws,
                  copies-map (λ (c : ℕ × RecvOutcome A). c.0) h ready ((w.handle, o) ∷ []),
                );
                no_more = λ b.
                    omega (arith, k.no_more b, copies-fill_gap (λ (w : RecvWaiter). w.id) b ws);
                left = λ x m. elim (k.left x m) [
                  | inl i ↦ inl i
                  | inr (i, l) ↦ inr (tail (gap_from x ws i), l)
                ];
                taken = λ c m. elim (k.taken c m) [
                  | inl i ↦ elim (mem-append c ready ((w.handle, o) ∷ []) i) [
                    | inl j ↦ inl j
                    | inr (head j) ↦ inr (
                      w,
                      head refl,
                      ap (λ (c : ℕ × RecvOutcome A). c.0) (sym j),
                      e ∙ ap (λ (c : ℕ × RecvOutcome A). answers c.1) (sym j),
                    )
                    | inr (tail j) ↦ elim j [ ]
                  ]
                  | inr (x, i, l, p) ↦ inr (x, tail (gap_from x ws i), l, p)
                ];
              },
            )
        | inr e ↦
            let (r, q, k) = wake_loop-Woken fuel s (kept ++ w ∷ []) ws ready n (omega arith) in
            (
              r,
              rw (wake_loop, e) q,
              record {
                counts = λ h.
                    omega (
                      arith,
                      k.counts h,
                      copies-map (λ (w : RecvWaiter). w.handle) h kept (w ∷ []),
                    );
                no_more = λ b.
                    omega
                      (arith, k.no_more b, copies-map (λ (w : RecvWaiter). w.id) b kept (w ∷ []));
                left = λ x m. elim (k.left x m) [
                  | inl i ↦ elim (mem-append x kept (w ∷ []) i) [
                    | inl j ↦ inl j
                    | inr (head j) ↦
                        inr (head j, ap (λ (x : RecvWaiter). recv_outcome x.next_seq s) j ∙ e)
                    | inr (tail j) ↦ elim j [ ]
                  ]
                  | inr (i, l) ↦ inr (tail i, l)
                ];
                taken = λ c m. elim (k.taken c m) [
                  | inl i ↦ inl i
                  | inr (x, i, l, p) ↦ inr (x, tail i, l, p)
                ];
              },
            )
      ]

  pub wake_ready_receivers-Woken :
      (s : State A)
      → Sound s
      → (r : List RecvWaiter × List (ℕ × RecvOutcome A)) × (wake_ready_receivers s
          ≡ some (record s { recv_waiters = r.0 }, r.1))
        × Woken s [] s.recv_waiters [] r
  unfolding wake_ready_receivers
  wake_ready_receivers-Woken s n =
      let (r, q, k) =
        wake_loop-Woken (length s.recv_waiters) s [] s.recv_waiters [] n (omega arith) in
      (r, ap (with_waiters s) q, k)
