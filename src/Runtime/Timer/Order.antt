-- ===== src/Runtime/Timer/Order.antt =====
-- The order of timers, and heaps that are in order but for one place.
use runite.Prelude.{ℕ, ◌≤◌, ◌<◌, ◌≡◌, ◌≢◌, inl, inr, sym, true, false, Bool-cases, arith, ◌==◌}
use runite.Runtime.Timer.{TimerNode, TimerHeap, before, parent, swap}

-- `a` is not after `b`.
unfoldable pub Le : TimerNode → TimerNode → Type 0
Le a b = before b a ≡ false

pub Le-trans : (a b c : TimerNode) → Le a b → Le b c → Le a c
unfolding Le
Le-trans a b c p q = ground arith

pub before_trans : (a b c : TimerNode) → before a b ≡ true → before b c ≡ true → before a c ≡ true
before_trans a b c p q = ground arith

pub before→Le : (a b : TimerNode) → before a b ≡ true → Le a b
unfolding Le
before→Le a b p = ground arith

pub not_before→Le : (a b : TimerNode) → before b a ≡ false → Le a b
unfolding Le
not_before→Le a b p = p

pub Le-refl : (a : TimerNode) → Le a a
unfolding Le
Le-refl a = ground arith

-- Every node but the first is not before its parent.
abbrev pub Ordered : TimerHeap → Type 0
Ordered h = (i : ℕ) → 0 < i → i < h.len → Le (h.nodes (parent i)) (h.nodes i)

-- The same away from one place, whose neighbours are in order with each other.
pub record Gap (k : ℕ) (h : TimerHeap) : Type 0 where
  pub away :
      (i : ℕ) → 0 < i → i < h.len → i ≢ k → parent i ≢ k → Le (h.nodes (parent i)) (h.nodes i)
  pub across :
      (i : ℕ) → 0 < i → i < h.len → parent i ≡ k → 0 < k → Le (h.nodes (parent k)) (h.nodes i)

abbrev pub Above : ℕ → TimerHeap → Type 0
Above k h = 0 < k → Le (h.nodes (parent k)) (h.nodes k)

abbrev pub Below : ℕ → TimerHeap → Type 0
Below k h = (i : ℕ) → 0 < i → i < h.len → parent i ≡ k → Le (h.nodes k) (h.nodes i)

pub same : (a b : ℕ) → (a == b) ≡ true → a ≡ b
same a b e = ground arith

pub apart : (a b : ℕ) → (a == b) ≡ false → a ≢ b
apart a b e = ground arith

pub Ordered-Gap : (k : ℕ) (h : TimerHeap) → Gap k h → Above k h → Below k h → Ordered h
Ordered-Gap k h g a b i p q = elim (Bool-cases (i == k)) [
  | inl e ↦ rw (same i k e) (a (rw (sym (same i k e)) p))
  | inr n ↦ elim (Bool-cases (parent i == k)) [
    | inl e ↦ rw (same (parent i) k e) (b i p q (same (parent i) k e))
    | inr m ↦ g.away i p q (apart i k n) (apart (parent i) k m)
  ]
]

-- What a swap leaves where.
pub swap-left : (i j : ℕ) (h : TimerHeap) → i ≢ j → (swap i j h).nodes i ≡ h.nodes j
unfolding swap
swap-left i j h n = ground arith

pub swap-right : (i j : ℕ) (h : TimerHeap) → (swap i j h).nodes j ≡ h.nodes i
unfolding swap
swap-right i j h = ground arith

pub swap-other : (i j k : ℕ) (h : TimerHeap) → k ≢ i → k ≢ j → (swap i j h).nodes k ≡ h.nodes k
unfolding swap
swap-other i j k h p q = ground arith

pub Le-same : (a b c d : TimerNode) → a ≡ c → b ≡ d → Le c d → Le a b
Le-same a b c d p q l = rw (p, q) l

pub Le-deadline : (a b : TimerNode) → Le a b → a.deadline ≤ b.deadline
unfolding Le
Le-deadline a b l = ground arith
