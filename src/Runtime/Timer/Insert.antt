-- ===== src/Runtime/Timer/Insert.antt =====
-- `insert` keeps the heap good and adds one node to what it holds.
use mathlib.Core.Path.{subst}
use runite.Prelude.{
  ℕ, suc, ◌<◌, ◌≡◌, ◌≢◌, sym, ap, ◌∙◌, inl, inr, Option, none, some, Bool-cases, Option-cases,
  arith, ◌==◌, if◌then◌else◌, update, if-true, if-false,
}
use runite.Runtime.Timer.{TimerNode, TimerHeap, parent, insert, new}
use runite.Runtime.Timer.Order.{Ordered, Gap, Below, same, apart}
use runite.Runtime.Timer.Up.{sift_up-Ordered}
use runite.Runtime.Timer.Index.{Index, find, find_at, find-none, some_same, sift_up-Rearranged}

pub record Good (h : TimerHeap) : Type 0 where
  pub index : Index h
  pub order : Ordered h

pub new-Good : Good new
unfolding new
new-Good = record {
  index = record { placed = λ i l. absurd (omega (arith, l)); found = λ id i e. absurd (cc) };
  order = λ i p l. absurd (omega (arith, l));
}

pub some_not_none : (i : ℕ) → ◌≢◌ {A = Option ℕ} (some i) none
some_not_none i e = cc

-- The heap before the new node is sifted up.
abbrev pub pushed : TimerNode → TimerHeap → TimerHeap
pushed node h = record {
  len = suc h.len;
  nodes = update h.nodes h.len node;
  positions = update h.positions node.id (some h.len);
}

module _ (node : TimerNode) (h : TimerHeap) (v : Good h) (fresh : h.positions node.id ≡ none) where
  old_node : (i : ℕ) → i < h.len → (pushed node h).nodes i ≡ h.nodes i
  old_node i l = ground arith

  new_node : (pushed node h).nodes h.len ≡ node
  new_node = ground arith

  old_position : (id : ℕ) → id ≢ node.id → (pushed node h).positions id ≡ h.positions id
  old_position id n = ground arith

  new_position : (pushed node h).positions node.id ≡ some h.len
  new_position = ground arith

  -- No id in the heap is the new one.
  other_id : (i : ℕ) → i < h.len → (h.nodes i).id ≢ node.id
  other_id i l e = some_not_none i (sym (v.index.placed i l) ∙ ap h.positions e ∙ fresh)

  pushed-Index : Index (pushed node h)
  pushed-Index = record {
    placed = λ i l. elim (Bool-cases (i == h.len)) [
      | inl e ↦ rw (same i h.len e, new_node) new_position
      | inr d ↦
          let inside : i < h.len = omega (arith, l, apart i h.len d) in
          rw (old_node i inside)
            (old_position (h.nodes i).id (other_id i inside) ∙ v.index.placed i inside)
    ];
    found = λ id i e. elim (Bool-cases (id == node.id)) [
      | inl a ↦
          let here = same id node.id a in
          let i_is =
            some_same h.len i (sym new_position ∙ ap (pushed node h).positions (sym here) ∙ e) in
          subst (λ k. (k < suc h.len) × (((pushed node h).nodes k).id ≡ id)) i_is
            (omega arith, ap (λ t. t.id) new_node ∙ sym here)
      | inr a ↦
          let (l, there) = v.index.found id i (sym (old_position id (apart id node.id a)) ∙ e) in
          (omega (arith, l), ap (λ t. t.id) (old_node i l) ∙ there)
    ];
  }

  pushed-find :
      (id : ℕ) → find (pushed node h) id ≡ (if id == node.id then some node else find h id)
  pushed-find id = elim (Bool-cases (id == node.id)) [
    | inl a ↦
        find_at (pushed node h) id h.len
          (ap (pushed node h).positions (same id node.id a) ∙ new_position)
        ∙ ap some new_node
        ∙ sym (if-true (id == node.id) (some node) (find h id) a)
    | inr a ↦
        let still = old_position id (apart id node.id a) in
        (elim (Option-cases (h.positions id)) [
          | inl e ↦ find-none (pushed node h) id (still ∙ e) ∙ sym (find-none h id e)
          | inr (i, e) ↦
              let (l, _) = v.index.found id i e in
              find_at (pushed node h) id i (still ∙ e)
              ∙ ap some (old_node i l)
              ∙ sym (find_at h id i e)
        ])
        ∙ sym (if-false (id == node.id) (some node) (find h id) a)
  ]

  pushed-Gap : Gap h.len (pushed node h)
  pushed-Gap = record {
    away = λ i p l n m.
        let inside : i < h.len = omega (arith, l, n) in
        rw (old_node i inside, old_node (parent i) (omega (arith, inside))) (v.order i p inside);
    across = λ i p l e z. absurd (omega (arith, l, e, z));
  }

  pushed-Below : Below h.len (pushed node h)
  pushed-Below i p l e = absurd (omega (arith, l, e, p))

  pub insert-Good : Good (insert node h)
  unfolding insert
  insert-Good = record {
    index = (sift_up-Rearranged h.len (pushed node h) (omega arith) pushed-Index).index;
    order = sift_up-Ordered h.len (pushed node h) (omega arith) pushed-Gap pushed-Below;
  }

  pub insert-find :
      (id : ℕ) → find (insert node h) id ≡ (if id == node.id then some node else find h id)
  unfolding insert
  insert-find id =
      (sift_up-Rearranged h.len (pushed node h) (omega arith) pushed-Index).same_find id
      ∙ pushed-find id
