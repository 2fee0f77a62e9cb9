-- ===== src/Runtime/Timer/Down.antt =====
-- `sift_down` puts a heap in order.
use mathlib.Core.Path.{subst}
use runite.Prelude.{
  ℕ, zero, suc, ◌+◌, ◌-◌, ◌*◌, ◌≤◌, ◌<◌, ◌≡◌, ◌≢◌, ◌⊎◌, refl, sym, ap, ◌∙◌, inl, inr, true, false,
  Bool-cases, arith, ◌==◌, ◌&&◌, ltb, if-true, if-false, both_bound, not_bound,
}
use runite.Runtime.Timer.{
  TimerNode, TimerHeap, before, less, parent, swap, smallest, sift_down_loop, sift_down,
}
use runite.Runtime.Timer.Order.{
  Le, Le-trans, Le-same, Le-refl, before→Le, not_before→Le, before_trans, Ordered, Gap, Above,
  Below, Ordered-Gap, same, apart, swap-left, swap-right, swap-other,
}

-- A child that is before its parent and not after its sibling.
pub record Child (k c : ℕ) (h : TimerHeap) : Type 0 where
  pub under : parent c ≡ k
  pub inner : 0 < c
  pub within : c < h.len
  pub first : before (h.nodes c) (h.nodes k) ≡ true
  pub least : (i : ℕ) → 0 < i → i < h.len → parent i ≡ k → Le (h.nodes c) (h.nodes i)

children :
    (k : ℕ) (P : ℕ → Type 0)
    → (k * 2 + 1 ≢ 0 → P (k * 2 + 1))
    → P (k * 2 + 2)
    → (i : ℕ) → 0 < i
    → parent i ≡ k
    → P i
children k P l r i p e = elim (Bool-cases (i == k * 2 + 1)) [
  | inl d ↦ subst P (sym (same i (k * 2 + 1) d)) (l (omega arith))
  | inr d ↦
      let not_left = apart i (k * 2 + 1) d in
      let right : i ≡ k * 2 + 2 = omega (arith, e, p, not_left) in subst P (sym right) r
]

-- What the two tests of a round decide.
module _ (k : ℕ) (h : TimerHeap) where
  abbrev node : TimerNode
  node = h.nodes k

  abbrev left : TimerNode
  left = h.nodes (k * 2 + 1)

  abbrev right : TimerNode
  right = h.nodes (k * 2 + 2)

  abbrev Here : Type 0
  Here = ((smallest k h ≡ k) × Below k h) ⊎ Child k (smallest k h) h

  after_both :
      (P : ℕ → Type 0)
      → (k * 2 + 1 < h.len → P (k * 2 + 1))
      → (k * 2 + 2 < h.len → P (k * 2 + 2))
      → (i : ℕ) → 0 < i
      → i < h.len
      → parent i ≡ k
      → P i
  after_both P l r i p q e = children k (λ j. j < h.len → P j) (λ _. l) r i p e q

  left_goes : (ltb (k * 2 + 1) h.len && less h (k * 2 + 1) k) ≡ true → Child k (smallest k h) h
  left_goes a =
      let (lin, lfirst) = both_bound (k * 2 + 1) h.len (less h (k * 2 + 1) k) a in
      elim (Bool-cases (ltb (k * 2 + 2) h.len && less h (k * 2 + 2) (k * 2 + 1))) [
        | inl b ↦
            let (rin, rfirst) = both_bound (k * 2 + 2) h.len (less h (k * 2 + 2) (k * 2 + 1)) b in
            rw (a, b)
              (record {
                under = omega arith;
                inner = omega arith;
                within = rin;
                first = before_trans right left node rfirst lfirst;
                least =
                    after_both (λ i. Le (h.nodes (k * 2 + 2)) (h.nodes i))
                      (λ _. before→Le right left rfirst) (λ _. Le-refl right);
              })
        | inr b ↦
            rw (a, b)
              (record {
                under = omega arith;
                inner = omega arith;
                within = lin;
                first = lfirst;
                least =
                    after_both (λ i. Le (h.nodes (k * 2 + 1)) (h.nodes i)) (λ _. Le-refl left)
                      (λ rin.
                        not_before→Le left right
                          (not_bound (k * 2 + 2) h.len (less h (k * 2 + 2) (k * 2 + 1)) b rin));
              })
      ]

  left_stays : (ltb (k * 2 + 1) h.len && less h (k * 2 + 1) k) ≡ false → Here
  left_stays a = elim (Bool-cases (ltb (k * 2 + 2) h.len && less h (k * 2 + 2) k)) [
    | inl b ↦
        let (rin, rfirst) = both_bound (k * 2 + 2) h.len (less h (k * 2 + 2) k) b in
        inr (
          rw (a, b)
            (record {
              under = omega arith;
              inner = omega arith;
              within = rin;
              first = rfirst;
              least =
                  after_both (λ i. Le (h.nodes (k * 2 + 2)) (h.nodes i))
                    (λ lin. Le-trans right node left (before→Le right node rfirst) (
                      not_before→Le node left
                        (not_bound (k * 2 + 1) h.len (less h (k * 2 + 1) k) a lin)))
                    (λ _. Le-refl right);
            }))
    | inr b ↦ inl (
      rw (a, b) refl,
      after_both (λ i. Le (h.nodes k) (h.nodes i))
          (λ lin.
            not_before→Le node left (not_bound (k * 2 + 1) h.len (less h (k * 2 + 1) k) a lin))
          (λ rin.
            not_before→Le node right (not_bound (k * 2 + 2) h.len (less h (k * 2 + 2) k) b rin)),
    )
  ]

  pub smallest-cases : ((smallest k h ≡ k) × Below k h) ⊎ Child k (smallest k h) h
  smallest-cases = elim (Bool-cases (ltb (k * 2 + 1) h.len && less h (k * 2 + 1) k)) [
    | inl a ↦ inr (left_goes a)
    | inr a ↦ left_stays a
  ]

-- A round of `sift_down` moves the gap to the child.
module _ (k : ℕ) (h : TimerHeap) (q : k < h.len) (c : ℕ) (d : Child k c h) (g : Gap k h) where
  ne : k ≢ c
  ne = omega (arith, d.under, d.inner)

  away_down :
      (i : ℕ)
      → 0 < i
      → i < h.len
      → i ≢ c
      → parent i ≢ c
      → Le ((swap k c h).nodes (parent i)) ((swap k c h).nodes i)
  away_down i a b n m = elim (Bool-cases (i == k)) [
    | inl e ↦
        let here : i ≡ k = same i k e in
        let z : 0 < k = omega (arith, a, here) in
        Le-same _ _ (h.nodes (parent k)) (h.nodes c)
          (ap (λ j. (swap k c h).nodes (parent j)) here
            ∙ swap-other k c (parent k) h (omega (arith, z)) (λ w. m (ap parent here ∙ w)))
          (ap (swap k c h).nodes here ∙ swap-left k c h ne) (g.across c d.inner d.within d.under z)
    | inr e ↦
        let stays = swap-other k c i h (apart i k e) n in
        elim (Bool-cases (parent i == k)) [
          | inl f ↦
              Le-same _ _ (h.nodes c) (h.nodes i)
                (ap (swap k c h).nodes (same (parent i) k f) ∙ swap-left k c h ne) stays
                (d.least i a b (same (parent i) k f))
          | inr f ↦
              Le-same _ _ (h.nodes (parent i)) (h.nodes i)
                (swap-other k c (parent i) h (apart (parent i) k f) m) stays
                (g.away i a b (apart i k e) (apart (parent i) k f))
        ]
  ]

  across_down :
      (i : ℕ)
      → 0 < i
      → i < h.len
      → parent i ≡ c
      → 0 < c
      → Le ((swap k c h).nodes (parent c)) ((swap k c h).nodes i)
  across_down i a b e z =
      let under = d.under in
      let not_k : i ≢ k = omega (arith, e, under, z, a) in
      let not_c : i ≢ c = omega (arith, e, z, a) in
      Le-same _ _ (h.nodes c) (h.nodes i) (ap (swap k c h).nodes under ∙ swap-left k c h ne)
        (swap-other k c i h not_k not_c)
        (subst (λ j. Le (h.nodes j) (h.nodes i)) e (g.away i a b not_k (λ w. ne (sym w ∙ e))))

  swap_down-Gap : Gap c (swap k c h)
  unfolding swap
  swap_down-Gap = record { away = away_down; across = across_down }

  swap_down-Above : Above c (swap k c h)
  swap_down-Above z =
      Le-same _ _ (h.nodes c) (h.nodes k) (ap (swap k c h).nodes d.under ∙ swap-left k c h ne)
        (swap-right k c h) (before→Le (h.nodes c) (h.nodes k) d.first)

here_is : (k c : ℕ) → c ≡ k → (c == k) ≡ true
here_is k c e = ground arith

here_is_not : (k c : ℕ) → k ≢ c → (c == k) ≡ false
here_is_not k c e = ground arith

less_left : (fuel n k c : ℕ) → n - k ≤ suc fuel → k < c → c < n → n - c ≤ fuel
less_left fuel n k c e l w = omega arith

-- With enough fuel the loop puts the heap in order.
pub sift_down_loop-Ordered :
    (fuel k : ℕ) (h : TimerHeap)
    → h.len - k ≤ fuel
    → k < h.len
    → Gap k h
    → Above k h
    → Ordered (sift_down_loop fuel k h)
unfolding sift_down_loop
sift_down_loop-Ordered zero k h e q g a = absurd (omega (arith, e, q))
sift_down_loop-Ordered (suc fuel) k h e q g a = elim (smallest-cases k h) [
  | inl (stop, b) ↦
      subst Ordered (sym (if-true (smallest k h == k) h _ (here_is k (smallest k h) stop)))
        (Ordered-Gap k h g a b)
  | inr d ↦
      let c = smallest k h in
      let deeper = d.under in
      let inner = d.inner in
      subst Ordered (sym (if-false (c == k) h _ (here_is_not k c (ne k h q c d g)))) (
        sift_down_loop-Ordered fuel c (swap k c h)
          (less_left fuel h.len k c e (omega (arith, deeper, inner)) d.within) d.within
          (swap_down-Gap k h q c d g) (swap_down-Above k h q c d g))
]

pub sift_down-Ordered :
    (k : ℕ) (h : TimerHeap) → k < h.len → Gap k h → Above k h → Ordered (sift_down k h)
unfolding sift_down
sift_down-Ordered k h q g a = sift_down_loop-Ordered (h.len - k) k h (omega arith) q g a
