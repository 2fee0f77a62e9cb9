-- ===== src/Runtime/Timer/Index.antt =====
-- The map from ids to places agrees with the places, and what the heap holds under an id.
use mathlib.Core.Path.{subst}
use runite.Prelude.{
  ℕ, zero, suc, ◌-◌, ◌<◌, ◌≡◌, ◌≢◌, refl, sym, ap, ◌∙◌, inl, inr, Option, none, some, false,
  Bool-cases, Option-cases, arith, ◌==◌, ◌&&◌, ltb, both_bound, if-true, if-false,
}
use runite.Runtime.Timer.{
  TimerNode, TimerHeap, less, parent, swap, smallest, sift_up_loop, sift_up, sift_down_loop,
  sift_down,
}
use runite.Runtime.Timer.Order.{same, apart, swap-left, swap-right, swap-other}
use runite.Runtime.Timer.Down.{smallest-cases}

pub record Index (h : TimerHeap) : Type 0 where
  pub placed : (i : ℕ) → i < h.len → h.positions (h.nodes i).id ≡ some i
  pub found : (id i : ℕ) → h.positions id ≡ some i → (i < h.len) × ((h.nodes i).id ≡ id)

-- The heap as a map from ids to nodes.
abbrev pub find : TimerHeap → ℕ → Option TimerNode
find h id = elim (h.positions id) [ none ↦ none | some i ↦ some (h.nodes i) ]

-- Two heaps hold the same nodes, and the second has a good index.
pub record Rearranged (h h' : TimerHeap) : Type 0 where
  pub index : Index h'
  pub same_len : h'.len ≡ h.len
  pub same_find : (id : ℕ) → find h' id ≡ find h id

pub some_same : (i j : ℕ) → ◌≡◌ {A = Option ℕ} (some i) (some j) → i ≡ j
some_same i j e = ap (λ o. elim o [ none ↦ i | some k ↦ k ]) e

pub ids_apart :
    (h : TimerHeap) (i j : ℕ)
    → Index h
    → i < h.len
    → j < h.len
    → i ≢ j
    → (h.nodes i).id ≢ (h.nodes j).id
ids_apart h i j x p q n e = n (some_same i j (sym (x.placed i p) ∙ ap h.positions e ∙ x.placed j q))

pub find_at : (h : TimerHeap) (id i : ℕ) → h.positions id ≡ some i → find h id ≡ some (h.nodes i)
find_at h id i e = rw (find, e) refl

pub find-none : (h : TimerHeap) (id : ℕ) → h.positions id ≡ none → find h id ≡ none
find-none h id e = rw (find, e) refl

module _ (h : TimerHeap) (x : Index h) (i j : ℕ) (p : i < h.len) (q : j < h.len) (n : i ≢ j) where
  -- Where the two ids lead after the swap, and any other id.
  first_moves : (swap i j h).positions (h.nodes i).id ≡ some j
  unfolding swap
  first_moves = ground arith

  second_moves : (swap i j h).positions (h.nodes j).id ≡ some i
  unfolding swap
  second_moves = let apart_ids = ids_apart h i j x p q n in ground arith

  others_stay :
      (id : ℕ)
      → id ≢ (h.nodes i).id
      → id ≢ (h.nodes j).id
      → (swap i j h).positions id ≡ h.positions id
  unfolding swap
  others_stay id a b = ground arith

  not_there : (id k m : ℕ) → (h.nodes k).id ≡ id → (id == (h.nodes m).id) ≡ false → k ≢ m
  not_there id k m there off e =
      apart id (h.nodes m).id off (sym there ∙ ap (λ t. (h.nodes t).id) e)

  swap-placed : (k : ℕ) → k < h.len → (swap i j h).positions ((swap i j h).nodes k).id ≡ some k
  swap-placed k l = elim (Bool-cases (k == i)) [
    | inl e ↦ rw (same k i e, swap-left i j h n) second_moves
    | inr d ↦ elim (Bool-cases (k == j)) [
      | inl e ↦ rw (same k j e, swap-right i j h) first_moves
      | inr f ↦ rw (swap-other i j k h (apart k i d) (apart k j f)) (
          others_stay (h.nodes k).id (ids_apart h k i x l p (apart k i d))
            (ids_apart h k j x l q (apart k j f))
          ∙ x.placed k l)
    ]
  ]

  swap-found :
      (id k : ℕ)
      → (swap i j h).positions id ≡ some k
      → (k < h.len) × (((swap i j h).nodes k).id ≡ id)
  swap-found id k e = elim (Bool-cases (id == (h.nodes i).id)) [
    | inl a ↦
        let here = same id (h.nodes i).id a in
        let k_is = some_same j k (sym first_moves ∙ ap (swap i j h).positions (sym here) ∙ e) in
        subst (λ m. (m < h.len) × (((swap i j h).nodes m).id ≡ id)) k_is
          (q, ap (λ t. t.id) (swap-right i j h) ∙ sym here)
    | inr a ↦ elim (Bool-cases (id == (h.nodes j).id)) [
      | inl b ↦
          let here = same id (h.nodes j).id b in
          let k_is = some_same i k (sym second_moves ∙ ap (swap i j h).positions (sym here) ∙ e) in
          subst (λ m. (m < h.len) × (((swap i j h).nodes m).id ≡ id)) k_is
            (p, ap (λ t. t.id) (swap-left i j h n) ∙ sym here)
      | inr b ↦
          let old =
            sym (others_stay id (apart id (h.nodes i).id a) (apart id (h.nodes j).id b)) ∙ e in
          let (l, there) = x.found id k old in
          (
            l,
            ap (λ t. t.id)
                  (swap-other i j k h (not_there id k i there a) (not_there id k j there b))
                ∙ there,
          )
    ]
  ]

  swap-find : (id : ℕ) → find (swap i j h) id ≡ find h id
  swap-find id = elim (Bool-cases (id == (h.nodes i).id)) [
    | inl a ↦
        let here = same id (h.nodes i).id a in
        find_at (swap i j h) id j (ap (swap i j h).positions here ∙ first_moves)
        ∙ ap some (swap-right i j h)
        ∙ sym (find_at h id i (ap h.positions here ∙ x.placed i p))
    | inr a ↦ elim (Bool-cases (id == (h.nodes j).id)) [
      | inl b ↦
          let here = same id (h.nodes j).id b in
          find_at (swap i j h) id i (ap (swap i j h).positions here ∙ second_moves)
          ∙ ap some (swap-left i j h n)
          ∙ sym (find_at h id j (ap h.positions here ∙ x.placed j q))
      | inr b ↦
          let still = others_stay id (apart id (h.nodes i).id a) (apart id (h.nodes j).id b) in
          elim (Option-cases (h.positions id)) [
            | inl e ↦ find-none (swap i j h) id (still ∙ e) ∙ sym (find-none h id e)
            | inr (k, e) ↦
                let (l, there) = x.found id k e in
                find_at (swap i j h) id k (still ∙ e)
                ∙ ap some (swap-other i j k h (not_there id k i there a) (not_there id k j there b))
                ∙ sym (find_at h id k e)
          ]
    ]
  ]

  pub swap-Rearranged : Rearranged h (swap i j h)
  unfolding swap
  swap-Rearranged = record {
    index = record { placed = swap-placed; found = swap-found };
    same_len = refl;
    same_find = swap-find;
  }

pub Rearranged-refl : (h : TimerHeap) → Index h → Rearranged h h
Rearranged-refl h x = record { index = x; same_len = refl; same_find = λ id. refl }

pub Rearranged-trans : (a b c : TimerHeap) → Rearranged a b → Rearranged b c → Rearranged a c
Rearranged-trans a b c r t = record {
  index = t.index;
  same_len = t.same_len ∙ r.same_len;
  same_find = λ id. t.same_find id ∙ r.same_find id;
}

sift_up_loop-Rearranged :
    (fuel k : ℕ) (h : TimerHeap) → k < h.len → Index h → Rearranged h (sift_up_loop fuel k h)
unfolding sift_up_loop
sift_up_loop-Rearranged zero k h q x = Rearranged-refl h x
sift_up_loop-Rearranged (suc fuel) k h q x = elim (Bool-cases (ltb 0 k && less h k (parent k))) [
  | inl go ↦
      let (z, _) = both_bound 0 k (less h k (parent k)) go in
      let below : parent k < h.len = omega (arith, q) in
      let round = swap-Rearranged h x k (parent k) q below (omega (arith, z)) in
      subst (Rearranged h) (sym (if-true (ltb 0 k && less h k (parent k)) _ h go)) (
        Rearranged-trans h (swap k (parent k) h) _ round (
          sift_up_loop-Rearranged fuel (parent k) (swap k (parent k) h) (rw round.same_len below)
            round.index))
  | inr stop ↦
      subst (Rearranged h) (sym (if-false (ltb 0 k && less h k (parent k)) _ h stop))
        (Rearranged-refl h x)
]

sift_down_loop-Rearranged :
    (fuel k : ℕ) (h : TimerHeap) → k < h.len → Index h → Rearranged h (sift_down_loop fuel k h)
unfolding sift_down_loop
sift_down_loop-Rearranged zero k h q x = Rearranged-refl h x
sift_down_loop-Rearranged (suc fuel) k h q x = elim (Bool-cases (smallest k h == k)) [
  | inl stop ↦
      subst (Rearranged h) (sym (if-true (smallest k h == k) h _ stop)) (Rearranged-refl h x)
  | inr go ↦ elim (smallest-cases k h) [
    | inl (e, _) ↦ absurd (apart (smallest k h) k go e)
    | inr d ↦
        let c = smallest k h in
        let round = swap-Rearranged h x k c q d.within (λ e. apart c k go (sym e)) in
        subst (Rearranged h) (sym (if-false (c == k) h _ go)) (
          Rearranged-trans h (swap k c h) _ round (
            sift_down_loop-Rearranged fuel c (swap k c h) (rw round.same_len d.within) round.index))
  ]
]

pub sift_up-Rearranged : (k : ℕ) (h : TimerHeap) → k < h.len → Index h → Rearranged h (sift_up k h)
unfolding sift_up
sift_up-Rearranged k h = sift_up_loop-Rearranged k k h

pub sift_down-Rearranged :
    (k : ℕ) (h : TimerHeap) → k < h.len → Index h → Rearranged h (sift_down k h)
unfolding sift_down
sift_down-Rearranged k h = sift_down_loop-Rearranged (h.len - k) k h
