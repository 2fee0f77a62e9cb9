-- ===== src/Runtime/Timer/Remove.antt =====
-- `remove` keeps the heap good and takes out the node of one id.
use mathlib.Core.Path.{subst}
use runite.Prelude.{
  ℕ, ◌-◌, ◌<◌, ◌≡◌, ◌≢◌, sym, ap, ◌∙◌, inl, inr, none, some, Bool-cases, Option-cases, arith, ◌==◌,
  ◌&&◌, ltb, if◌then◌else◌, update, if-true, if-false, both_bound, not_bound,
}
use runite.Runtime.Timer.{TimerHeap, less, parent, sift_up, sift_down, fix}
use runite.Runtime.Timer.Order.{Le-trans, before→Le, not_before→Le, Ordered, Gap, same, apart}
use runite.Runtime.Timer.Up.{sift_up-Ordered}
use runite.Runtime.Timer.Down.{sift_down-Ordered}
use runite.Runtime.Timer.Index.{
  Index, find, find_at, find-none, ids_apart, Rearranged, sift_up-Rearranged, sift_down-Rearranged,
}
use runite.Runtime.Timer.Insert.{Good, some_not_none}

-- `fix` repairs a gap at whose place any node may stand.
pub fix-Ordered : (k : ℕ) (h : TimerHeap) → k < h.len → Gap k h → Ordered (fix k h)
unfolding fix
fix-Ordered k h q g = elim (Bool-cases (ltb 0 k && less h k (parent k))) [
  | inl up ↦
      let (z, l) = both_bound 0 k (less h k (parent k)) up in
      subst Ordered
        (sym (if-true (ltb 0 k && less h k (parent k)) (sift_up k h) (sift_down k h) up))
        (sift_up-Ordered k h q g (λ i p b e.
          Le-trans (h.nodes k) (h.nodes (parent k)) (h.nodes i)
            (before→Le (h.nodes k) (h.nodes (parent k)) l) (g.across i p b e z)))
  | inr down ↦
      subst Ordered
        (sym (if-false (ltb 0 k && less h k (parent k)) (sift_up k h) (sift_down k h) down))
        (sift_down-Ordered k h q g (λ z.
          not_before→Le (h.nodes (parent k)) (h.nodes k)
            (not_bound 0 k (less h k (parent k)) down z)))
]

pub fix-Rearranged : (k : ℕ) (h : TimerHeap) → k < h.len → Index h → Rearranged h (fix k h)
unfolding fix
fix-Rearranged k h q x = elim (Bool-cases (ltb 0 k && less h k (parent k))) [
  | inl up ↦
      subst (Rearranged h)
        (sym (if-true (ltb 0 k && less h k (parent k)) (sift_up k h) (sift_down k h) up))
        (sift_up-Rearranged k h q x)
  | inr down ↦
      subst (Rearranged h)
        (sym (if-false (ltb 0 k && less h k (parent k)) (sift_up k h) (sift_down k h) down))
        (sift_down-Rearranged k h q x)
]

-- The heap without its last node, and the heap whose last node fills a gap.
abbrev pub cut : ℕ → TimerHeap → TimerHeap
cut id h = record h { len = h.len - 1; positions = update h.positions id none }

abbrev pub filled : ℕ → ℕ → TimerHeap → TimerHeap
filled id index h = record {
  len = h.len - 1;
  nodes = update h.nodes index (h.nodes (h.len - 1));
  positions = update (update h.positions id none) (h.nodes (h.len - 1)).id (some index);
}

module _ (h : TimerHeap) (v : Good h) (id index : ℕ) (at_id : h.positions id ≡ some index) where
  inside : index < h.len
  inside = (v.index.found id index at_id).0

  there : (h.nodes index).id ≡ id
  there = (v.index.found id index at_id).1

  other_id : (i : ℕ) → i < h.len → i ≢ index → (h.nodes i).id ≢ id
  other_id i l n e = ids_apart h i index v.index l inside n (e ∙ sym there)

  cut_gone : (cut id h).positions id ≡ none
  cut_gone = ground arith

  cut_other : (x : ℕ) → x ≢ id → (cut id h).positions x ≡ h.positions x
  cut_other x n = ground arith

  module _ (is_last : index ≡ h.len - 1) where
    cut-Index : Index (cut id h)
    cut-Index = record {
      placed = λ i l.
          let l' : i < h.len = omega (arith, l) in
          let n : i ≢ index = omega (arith, l, is_last) in
          cut_other (h.nodes i).id (other_id i l' n) ∙ v.index.placed i l';
      found = λ x i e. elim (Bool-cases (x == id)) [
        | inl a ↦
            absurd (some_not_none i (sym e ∙ ap (cut id h).positions (same x id a) ∙ cut_gone))
        | inr a ↦
            let (l, here) = v.index.found x i (sym (cut_other x (apart x id a)) ∙ e) in
            let n : i ≢ index = λ w. apart x id a (sym here ∙ ap (λ k. (h.nodes k).id) w ∙ there) in
            (omega (arith, l, n, is_last), here)
      ];
    }

    pub cut-Good : Good (cut id h)
    cut-Good = record { index = cut-Index; order = λ i p l. v.order i p (omega (arith, l)) }

  pub cut-find : (x : ℕ) → find (cut id h) x ≡ (if x == id then none else find h x)
  cut-find x = elim (Bool-cases (x == id)) [
    | inl a ↦
        find-none (cut id h) x (ap (cut id h).positions (same x id a) ∙ cut_gone)
        ∙ sym (if-true (x == id) none (find h x) a)
    | inr a ↦
        let still = cut_other x (apart x id a) in
        elim (Option-cases (h.positions x)) [
          | inl e ↦ find-none (cut id h) x (still ∙ e) ∙ sym (find-none h x e)
          | inr (i, e) ↦ find_at (cut id h) x i (still ∙ e) ∙ sym (find_at h x i e)
        ]
        ∙ sym (if-false (x == id) none (find h x) a)
  ]
