-- ===== src/Runtime/Timer/Least.antt =====
-- The first node is the least, and `remove` as an operation on a map from ids to nodes.
use mathlib.Core.Path.{subst}
use runite.Prelude.{
  ℕ, zero, suc, ◌-◌, ◌≤◌, ◌<◌, ◌≡◌, ◌≢◌, refl, sym, ap, ◌∙◌, inl, inr, Option, none, some,
  Bool-cases, Option-cases, arith, ◌==◌, if◌then◌else◌, if-true, if-false,
}
use runite.Runtime.Timer.{TimerNode, TimerHeap, parent, fix, take_out, remove}
use runite.Runtime.Timer.Order.{Le, Le-trans, Le-refl, Ordered, same, apart}
use runite.Runtime.Timer.Index.{Index, find, find_at, find-none}
use runite.Runtime.Timer.Insert.{Good}
use runite.Runtime.Timer.Remove.{cut, filled, cut-Good, cut-find}
use runite.Runtime.Timer.Fill.{refilled-Good, refilled-find, refilled-len}

-- By induction on a bound of the place.
least_within :
    (bound i : ℕ) (h : TimerHeap) → Ordered h → i ≤ bound → i < h.len → Le (h.nodes 0) (h.nodes i)
least_within bound zero h o b l = Le-refl (h.nodes 0)
least_within zero (suc i) h o b l = absurd (omega (arith, b))
least_within (suc bound) (suc i) h o b l =
    Le-trans (h.nodes 0) (h.nodes (parent (suc i))) (h.nodes (suc i))
      (least_within bound (parent (suc i)) h o (omega (arith, b)) (omega (arith, l)))
      (o (suc i) (omega arith) l)

pub none_not_some : (n : TimerNode) → ◌≢◌ {A = Option TimerNode} none (some n)
none_not_some n e = cc

pub node_same : (m n : TimerNode) → ◌≡◌ {A = Option TimerNode} (some m) (some n) → m ≡ n
node_same m n e = ap (λ o. elim o [ none ↦ m | some k ↦ k ]) e

pub find-cases :
    (h : TimerHeap) (id : ℕ) (n : TimerNode)
    → Index h
    → find h id ≡ some n
    → (i : ℕ) × (h.positions id ≡ some i) × (i < h.len) × (h.nodes i ≡ n)
find-cases h id n x e = elim (Option-cases (h.positions id)) [
  | inl o ↦ absurd (none_not_some n (sym (find-none h id o) ∙ e))
  | inr (i, o) ↦ (i, o, (x.found id i o).0, node_same (h.nodes i) n (sym (find_at h id i o) ∙ e))
]

pub first_least :
    (h : TimerHeap) (id : ℕ) (n : TimerNode) → Good h → find h id ≡ some n → Le (h.nodes 0) n
first_least h id n v e =
    let (i, _, l, is) = find-cases h id n v.index e in
    subst (Le (h.nodes 0)) is (least_within i i h v.order (omega arith) l)

-- What `remove` does.
pub record Removed (id : ℕ) (h : TimerHeap) (r : TimerHeap × Option TimerNode) : Type 0 where
  pub good : Good r.0
  pub answer : r.1 ≡ find h id
  pub rest : (x : ℕ) → find r.0 x ≡ (if x == id then none else find h x)
  pub shorter : (n : TimerNode) → find h id ≡ some n → suc r.0.len ≡ h.len

absent :
    (h : TimerHeap) (id x : ℕ)
    → h.positions id ≡ none
    → find h x ≡ (if x == id then none else find h x)
absent h id x e = elim (Bool-cases (x == id)) [
  | inl a ↦
      find-none h x (ap h.positions (same x id a) ∙ e) ∙ sym (if-true (x == id) none (find h x) a)
  | inr a ↦ sym (if-false (x == id) none (find h x) a)
]

take_out_last :
    (h : TimerHeap) (id index : ℕ)
    → index ≡ h.len - 1
    → take_out id index h ≡ (cut id h, h.nodes index)
unfolding take_out
take_out_last h id index e =
    if-true (index == h.len - 1) (cut id h, h.nodes (h.len - 1)) _ (ground arith)
    ∙ ap (λ k. (cut id h, h.nodes k)) (sym e)

take_out_inner :
    (h : TimerHeap) (id index : ℕ)
    → index ≢ h.len - 1
    → take_out id index h ≡ (fix index (filled id index h), h.nodes index)
unfolding take_out
take_out_inner h id index n = if-false (index == h.len - 1) _ _ (ground arith)

remove-none : (h : TimerHeap) (id : ℕ) → h.positions id ≡ none → remove id h ≡ (h, none)
unfolding remove
remove-none h id e = rw (remove, e) refl

remove-some :
    (h : TimerHeap) (id index : ℕ)
    → h.positions id ≡ some index
    → remove id h ≡ ((take_out id index h).0, some (take_out id index h).1)
unfolding remove
remove-some h id index e = rw (remove, e) refl

one_less : (n i : ℕ) → i < n → suc (n - 1) ≡ n
one_less n i l = omega arith

pub remove-Removed : (id : ℕ) (h : TimerHeap) → Good h → Removed id h (remove id h)
remove-Removed id h v = elim (Option-cases (h.positions id)) [
  | inl e ↦ subst (Removed id h) (sym (remove-none h id e)) (record {
    good = v;
    answer = sym (find-none h id e);
    rest = λ x. absent h id x e;
    shorter = λ n f. absurd (none_not_some n (sym (find-none h id e) ∙ f));
  })
  | inr (index, e) ↦
      subst (Removed id h) (sym (remove-some h id index e))
        (elim (Bool-cases (index == h.len - 1)) [
          | inl a ↦
              subst (λ o. Removed id h (o.0, some o.1))
                (sym (take_out_last h id index (same index (h.len - 1) a)))
                (record {
                  good = cut-Good h v id index e (same index (h.len - 1) a);
                  answer = sym (find_at h id index e);
                  rest = cut-find h v id index e;
                  shorter = λ n f. one_less h.len index (v.index.found id index e).0;
                })
          | inr a ↦
              subst (λ o. Removed id h (o.0, some o.1))
                (sym (take_out_inner h id index (apart index (h.len - 1) a)))
                (record {
                  good = refilled-Good h v id index e (apart index (h.len - 1) a);
                  answer = sym (find_at h id index e);
                  rest = refilled-find h v id index e (apart index (h.len - 1) a);
                  shorter = λ n f.
                      ap suc (refilled-len h v id index e (apart index (h.len - 1) a))
                      ∙ one_less h.len index (v.index.found id index e).0;
                })
        ])
]
