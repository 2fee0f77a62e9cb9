-- ===== src/Channel/Watch/Wake.antt =====
-- `wake_changed` takes out exactly the waiters of older versions.
use mathlib.Core.Path.{subst}
use mathlib.Core.List.{Memᴰ, append-nil}
use mathlib.Core.List.Memᴰ.{head, tail}
use runite.Prelude.{
  ℕ, zero, suc, ◌≤◌, ◌<◌, ◌≡◌, ◌≢◌, refl, ap, ◌⊎◌, inl, inr, List, [], ◌∷◌, ◌++◌, true, false,
  Bool-cases, arith, length, ltb, ◌==◌,
}
use runite.Channel.Gaps.{fill_gap, length-fill, gap_from, gap_into, mem-append, mem-left, mem-right}
use runite.Channel.Watch.{WatchWaiter, remove_waiter, wake_loop}

pub remove_waiter-from :
    (id : ℕ) (x : WatchWaiter) (ws : List WatchWaiter) → Memᴰ x (remove_waiter id ws) → Memᴰ x ws
unfolding remove_waiter
remove_waiter-from id x [] m = m
remove_waiter-from id x (w ∷ ws) m = elim (Bool-cases (w.id == id)) [
  | inl e ↦ tail (gap_from x ws (rw e at m))
  | inr e ↦ elim (rw e at m) [ head i ↦ head i | tail i ↦ tail (remove_waiter-from id x ws i) ]
]

pub remove_waiter-into :
    (id : ℕ) (x : WatchWaiter) (ws : List WatchWaiter)
    → Memᴰ x ws
    → x.id ≢ id
    → Memᴰ x (remove_waiter id ws)
unfolding remove_waiter
remove_waiter-into id x [] m n = m
remove_waiter-into id x (w ∷ ws) m n = elim (Bool-cases (w.id == id)) [
  | inl e ↦ rw e (elim m [
    | head i ↦ let same_id = ap (λ (t : WatchWaiter). t.id) i in absurd (n (ground arith))
    | tail i ↦ gap_into x ws i
  ])
  | inr e ↦ rw e (elim m [ head i ↦ head i | tail i ↦ tail (remove_waiter-into id x ws i n) ])
]

-- What the loop leaves and takes.
pub record Woken (current : ℕ) (kept rest : List WatchWaiter) (ready : List ℕ)
    (r : List WatchWaiter × List ℕ) : Type 0 where
  pub left : (x : WatchWaiter) → Memᴰ x r.0 → Memᴰ x kept ⊎ (Memᴰ x rest × (current ≤ x.version))
  pub taken : (x : WatchWaiter) → Memᴰ x rest → x.version < current → Memᴰ x.handle r.1
  pub stays : (x : WatchWaiter) → Memᴰ x rest → current ≤ x.version → Memᴰ x r.0
  pub passed : (x : WatchWaiter) → Memᴰ x kept → Memᴰ x r.0
  pub before : (h : ℕ) → Memᴰ h ready → Memᴰ h r.1

not_older :
    (x w : WatchWaiter) (current : ℕ)
    → x ≡ w
    → x.version < current
    → ltb w.version current ≡ false
    → ⊥
not_older x w current i l e =
    let same_version = ap (λ (t : WatchWaiter). t.version) i in ground arith

too_old :
    (x w : WatchWaiter) (current : ℕ)
    → x ≡ w
    → current ≤ x.version
    → ltb w.version current ≡ true
    → ⊥
too_old x w current i l e = let same_version = ap (λ (t : WatchWaiter). t.version) i in ground arith

pub wake_loop-Woken :
    (fuel current : ℕ) (kept rest : List WatchWaiter) (ready : List ℕ)
    → length rest ≤ fuel
    → Woken current kept rest ready (wake_loop fuel current kept rest ready)
unfolding wake_loop
wake_loop-Woken zero current kept [] ready b = record {
  left = λ x m. inl (subst (Memᴰ x) (append-nil kept) m);
  taken = λ x m l. elim m [ ];
  stays = λ x m l. elim m [ ];
  passed = λ x m. mem-left x kept [] m;
  before = λ h m. m;
}
wake_loop-Woken zero current kept (w ∷ ws) ready b = absurd (omega (arith, b))
wake_loop-Woken (suc fuel) current kept [] ready b = record {
  left = λ x m. inl m;
  taken = λ x m l. elim m [ ];
  stays = λ x m l. elim m [ ];
  passed = λ x m. m;
  before = λ h m. m;
}
wake_loop-Woken (suc fuel) current kept (w ∷ ws) ready b =
    elim (Bool-cases (ltb w.version current)) [
      | inl e ↦
          let ih =
            wake_loop-Woken fuel current kept (fill_gap ws) (ready ++ w.handle ∷ [])
              (omega (arith, b, length-fill ws)) in
          rw (wake_loop, e)
            (record {
              left = λ x m. elim (ih.left x m) [
                | inl i ↦ inl i
                | inr (i, l) ↦ inr (tail (gap_from x ws i), l)
              ];
              taken = λ x m l. elim m [
                | head i ↦
                    rw i (ih.before w.handle (mem-right w.handle ready (w.handle ∷ []) (head refl)))
                | tail i ↦ ih.taken x (gap_into x ws i) l
              ];
              stays = λ x m l. elim m [
                | head i ↦ absurd (too_old x w current i l e)
                | tail i ↦ ih.stays x (gap_into x ws i) l
              ];
              passed = ih.passed;
              before = λ h m. ih.before h (mem-left h ready (w.handle ∷ []) m);
            })
      | inr e ↦
          let ih = wake_loop-Woken fuel current (kept ++ w ∷ []) ws ready (omega (arith, b)) in
          rw (wake_loop, e)
            (record {
              left = λ x m. elim (ih.left x m) [
                | inl i ↦ elim (mem-append x kept (w ∷ []) i) [
                  | inl k ↦ inl k
                  | inr (head k) ↦ inr (head k, rw k (ground arith))
                  | inr (tail k) ↦ elim k [ ]
                ]
                | inr (i, l) ↦ inr (tail i, l)
              ];
              taken = λ x m l. elim m [
                | head i ↦ absurd (not_older x w current i l e)
                | tail i ↦ ih.taken x i l
              ];
              stays = λ x m l. elim m [
                | head i ↦ ih.passed x (mem-right x kept (w ∷ []) (head i))
                | tail i ↦ ih.stays x i l
              ];
              passed = λ x m. ih.passed x (mem-left x kept (w ∷ []) m);
              before = ih.before;
            })
    ]
