-- ===== src/Runtime/Timer/Fill.antt =====
-- `remove` of a node that is not the last: the last one fills the gap.
use mathlib.Core.Path.{subst}
use runite.Prelude.{
  ℕ, ◌-◌, ◌<◌, ◌≡◌, ◌≢◌, sym, ap, ◌∙◌, inl, inr, none, some, Bool-cases, Option-cases, arith, ◌==◌,
  if◌then◌else◌, if-true, if-false,
}
use runite.Runtime.Timer.{TimerHeap, parent, fix}
use runite.Runtime.Timer.Order.{Le, Le-trans, Gap, same, apart}
use runite.Runtime.Timer.Index.{Index, find, find_at, find-none, some_same, ids_apart}
use runite.Runtime.Timer.Insert.{Good, some_not_none}
use runite.Runtime.Timer.Remove.{filled, fix-Ordered, fix-Rearranged}

module _ (h : TimerHeap) (v : Good h) (id index : ℕ) (at_id : h.positions id ≡ some index)
    (inner : index ≢ h.len - 1) where
  abbrev last : ℕ
  last = h.len - 1

  abbrev last_id : ℕ
  last_id = (h.nodes last).id

  inside : index < h.len
  inside = (v.index.found id index at_id).0

  below_last : index < last
  below_last = omega (arith, inside, inner)

  in_range : last < h.len
  in_range = omega (arith, inside)

  there : (h.nodes index).id ≡ id
  there = (v.index.found id index at_id).1

  other_id : (i : ℕ) → i < h.len → i ≢ index → (h.nodes i).id ≢ id
  other_id i l n e = ids_apart h i index v.index l inside n (e ∙ sym there)

  last_not_id : last_id ≢ id
  last_not_id = other_id last in_range (λ e. inner (sym e))

  node_in_gap : (filled id index h).nodes index ≡ h.nodes last
  node_in_gap = ground arith

  node_elsewhere : (i : ℕ) → i ≢ index → (filled id index h).nodes i ≡ h.nodes i
  node_elsewhere i n = ground arith

  last_moves : (filled id index h).positions last_id ≡ some index
  last_moves = ground arith

  id_goes : (filled id index h).positions id ≡ none
  id_goes = let n = last_not_id in ground arith

  others_stay : (x : ℕ) → x ≢ id → x ≢ last_id → (filled id index h).positions x ≡ h.positions x
  others_stay x n m = ground arith

  filled-Index : Index (filled id index h)
  filled-Index = record {
    placed = λ i l.
        let l' : i < h.len = omega (arith, l) in
        elim (Bool-cases (i == index)) [
          | inl e ↦ rw (same i index e, node_in_gap) last_moves
          | inr d ↦
              let n = apart i index d in
              rw (node_elsewhere i n) (
                others_stay (h.nodes i).id (other_id i l' n)
                  (ids_apart h i last v.index l' in_range (omega (arith, l)))
                ∙ v.index.placed i l')
        ];
    found = λ x i e. elim (Bool-cases (x == id)) [
      | inl a ↦
          absurd
            (some_not_none i (sym e ∙ ap (filled id index h).positions (same x id a) ∙ id_goes))
      | inr a ↦ elim (Bool-cases (x == last_id)) [
        | inl b ↦
            let here = same x last_id b in
            let i_is =
              some_same index i
                (sym last_moves ∙ ap (filled id index h).positions (sym here) ∙ e) in
            subst (λ k. (k < h.len - 1) × (((filled id index h).nodes k).id ≡ x)) i_is
              (below_last, ap (λ t. t.id) node_in_gap ∙ sym here)
        | inr b ↦
            let (l, here) =
              v.index.found x i (sym (others_stay x (apart x id a) (apart x last_id b)) ∙ e) in
            let n : i ≢ index = λ w. apart x id a (sym here ∙ ap (λ k. (h.nodes k).id) w ∙ there) in
            let m : i ≢ last = λ w. apart x last_id b (sym here ∙ ap (λ k. (h.nodes k).id) w) in
            (omega (arith, l, m), ap (λ t. t.id) (node_elsewhere i n) ∙ here)
      ]
    ];
  }

  filled-Gap : Gap index (filled id index h)
  filled-Gap = record {
    away = λ i p l n m.
        rw (node_elsewhere i n, node_elsewhere (parent i) m) (v.order i p (omega (arith, l)));
    across = λ i p l e z.
        let n : i ≢ index = omega (arith, e, p) in
        let m : parent index ≢ index = omega (arith, z) in
        rw (node_elsewhere i n, node_elsewhere (parent index) m)
          (Le-trans (h.nodes (parent index)) (h.nodes index) (h.nodes i) (v.order index z inside)
            (subst (λ k. Le (h.nodes k) (h.nodes i)) e (v.order i p (omega (arith, l)))));
  }

  filled-find : (x : ℕ) → find (filled id index h) x ≡ (if x == id then none else find h x)
  filled-find x = elim (Bool-cases (x == id)) [
    | inl a ↦
        find-none (filled id index h) x (ap (filled id index h).positions (same x id a) ∙ id_goes)
        ∙ sym (if-true (x == id) none (find h x) a)
    | inr a ↦
        elim (Bool-cases (x == last_id)) [
          | inl b ↦
              let here = same x last_id b in
              find_at (filled id index h) x index
                (ap (filled id index h).positions here ∙ last_moves)
              ∙ ap some node_in_gap
              ∙ sym (find_at h x last (ap h.positions here ∙ v.index.placed last in_range))
          | inr b ↦
              let still = others_stay x (apart x id a) (apart x last_id b) in
              elim (Option-cases (h.positions x)) [
                | inl e ↦ find-none (filled id index h) x (still ∙ e) ∙ sym (find-none h x e)
                | inr (i, e) ↦
                    let (l, here) = v.index.found x i e in
                    find_at (filled id index h) x i (still ∙ e)
                    ∙ ap some (
                        node_elsewhere i
                          (λ w. apart x id a (sym here ∙ ap (λ k. (h.nodes k).id) w ∙ there)))
                    ∙ sym (find_at h x i e)
              ]
        ]
        ∙ sym (if-false (x == id) none (find h x) a)
  ]

  pub refilled-Good : Good (fix index (filled id index h))
  refilled-Good = record {
    index = (fix-Rearranged index (filled id index h) below_last filled-Index).index;
    order = fix-Ordered index (filled id index h) below_last filled-Gap;
  }

  pub refilled-find :
      (x : ℕ) → find (fix index (filled id index h)) x ≡ (if x == id then none else find h x)
  refilled-find x =
      (fix-Rearranged index (filled id index h) below_last filled-Index).same_find x ∙ filled-find x

  pub refilled-len : (fix index (filled id index h)).len ≡ h.len - 1
  refilled-len = (fix-Rearranged index (filled id index h) below_last filled-Index).same_len
