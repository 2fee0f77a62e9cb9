-- ===== src/Runtime/Timer/Up.antt =====
-- `sift_up` puts a heap in order.
use mathlib.Core.Path.{subst}
use runite.Prelude.{
  both_bound, not_bound, ℕ, zero, suc, ◌≤◌, ◌<◌, ◌≡◌, ◌≢◌, ap, ◌∙◌, inl, inr, true, Bool-cases,
  arith, ◌==◌, ◌&&◌, ltb,
}
use runite.Runtime.Timer.{TimerHeap, before, less, parent, swap, sift_up_loop, sift_up}
use runite.Runtime.Timer.Order.{
  Le, Le-trans, Le-same, before→Le, not_before→Le, Ordered, Gap, Below, Ordered-Gap, same, apart,
  swap-left, swap-right, swap-other,
}

-- A round of `sift_up` moves the gap to the parent.
module _ (k : ℕ) (h : TimerHeap) (p : 0 < k) (q : k < h.len)
    (l : before (h.nodes k) (h.nodes (parent k)) ≡ true) (g : Gap k h) (b : Below k h) where
  ne : k ≢ parent k
  ne = omega arith

  lt : Le (h.nodes k) (h.nodes (parent k))
  lt = before→Le (h.nodes k) (h.nodes (parent k)) l

  -- A sibling is not before the parent.
  sibling :
      (i : ℕ)
      → 0 < i
      → i < h.len
      → parent i ≡ parent k
      → i ≢ k
      → Le (h.nodes (parent k)) (h.nodes i)
  sibling i a c e n = subst (λ j. Le (h.nodes j) (h.nodes i)) e (g.away i a c n (omega (arith, e)))

  away_up :
      (i : ℕ)
      → 0 < i
      → i < h.len
      → i ≢ parent k
      → parent i ≢ parent k
      → Le ((swap k (parent k) h).nodes (parent i)) ((swap k (parent k) h).nodes i)
  away_up i a c n m =
      let i_not_k : i ≢ k = λ e. m (ap parent e) in
      let stays = swap-other k (parent k) i h i_not_k n in
      elim (Bool-cases (parent i == k)) [
        | inl e ↦
            let under = same (parent i) k e in
            Le-same _ _ (h.nodes (parent k)) (h.nodes i)
              (ap (swap k (parent k) h).nodes under ∙ swap-left k (parent k) h ne) stays
              (g.across i a c under p)
        | inr d ↦
            Le-same _ _ (h.nodes (parent i)) (h.nodes i)
              (swap-other k (parent k) (parent i) h (apart (parent i) k d) m) stays
              (g.away i a c i_not_k (apart (parent i) k d))
      ]

  across_up :
      (i : ℕ)
      → 0 < i
      → i < h.len
      → parent i ≡ parent k
      → 0 < parent k
      → Le ((swap k (parent k) h).nodes (parent (parent k))) ((swap k (parent k) h).nodes i)
  across_up i a c e z =
      let up = g.away (parent k) z (omega arith) (omega arith) (omega arith) in
      let stays = swap-other k (parent k) (parent (parent k)) h (omega arith) (omega arith) in
      elim (Bool-cases (i == k)) [
        | inl d ↦
            Le-same _ _ (h.nodes (parent (parent k))) (h.nodes (parent k)) stays
              (ap (swap k (parent k) h).nodes (same i k d) ∙ swap-left k (parent k) h ne) up
        | inr d ↦
            Le-same _ _ (h.nodes (parent (parent k))) (h.nodes i) stays
              (swap-other k (parent k) i h (apart i k d) (omega (arith, e)))
              (Le-trans _ _ _ up (sibling i a c e (apart i k d)))
      ]

  below_up :
      (i : ℕ)
      → 0 < i
      → i < h.len
      → parent i ≡ parent k
      → Le ((swap k (parent k) h).nodes (parent k)) ((swap k (parent k) h).nodes i)
  below_up i a c e =
      let top = swap-right k (parent k) h in
      elim (Bool-cases (i == k)) [
        | inl d ↦
            Le-same _ _ (h.nodes k) (h.nodes (parent k)) top
              (ap (swap k (parent k) h).nodes (same i k d) ∙ swap-left k (parent k) h ne) lt
        | inr d ↦
            Le-same _ _ (h.nodes k) (h.nodes i) top
              (swap-other k (parent k) i h (apart i k d) (omega (arith, e)))
              (Le-trans _ _ _ lt (sibling i a c e (apart i k d)))
      ]

  swap_up-Gap : Gap (parent k) (swap k (parent k) h)
  unfolding swap
  swap_up-Gap = record { away = away_up; across = across_up }

  swap_up-Below : Below (parent k) (swap k (parent k) h)
  unfolding swap
  swap_up-Below = below_up

-- With enough fuel the loop puts the heap in order.
pub sift_up_loop-Ordered :
    (fuel k : ℕ) (h : TimerHeap)
    → k ≤ fuel
    → k < h.len
    → Gap k h
    → Below k h
    → Ordered (sift_up_loop fuel k h)
unfolding sift_up_loop
sift_up_loop-Ordered zero k h e q g b = Ordered-Gap k h g (λ z. absurd (omega (arith, z))) b
sift_up_loop-Ordered (suc fuel) k h e q g b = elim (Bool-cases (ltb 0 k && less h k (parent k))) [
  | inl go ↦
      let (p, l) = both_bound 0 k (less h k (parent k)) go in
      rw go (
        sift_up_loop-Ordered fuel (parent k) (swap k (parent k) h) (omega (arith, e))
          (omega (arith, q)) (swap_up-Gap k h p q l g b) (swap_up-Below k h p q l g b))
  | inr stop ↦
      rw stop
        (Ordered-Gap k h g (λ z. not_before→Le _ _ (not_bound 0 k (less h k (parent k)) stop z)) b)
]

pub sift_up-Ordered :
    (k : ℕ) (h : TimerHeap) → k < h.len → Gap k h → Below k h → Ordered (sift_up k h)
unfolding sift_up
sift_up-Ordered k h q g b = sift_up_loop-Ordered k k h (omega arith) q g b
