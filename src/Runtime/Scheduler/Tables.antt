-- ===== src/Runtime/Scheduler/Tables.antt =====
-- The macrotasks of one timer among those of the queue, and those that a dispatch adds for it.
use mathlib.Core.Path.{subst}
use mathlib.Core.List.{Memᴰ}
use mathlib.Core.List.Memᴰ.{head, tail}
use runite.Prelude.{
  ℕ, ◌≡◌, ◌≢◌, refl, sym, ap, ◌∙◌, inl, inr, List, [], ◌∷◌, ◌++◌, Option, none, some, true, false,
  Bool-cases, Option-cases, arith, ◌==◌, leb, if◌then◌else◌,
}
use runite.Runtime.Timer.{TimerNode, TimerKind, before}
use runite.Runtime.Timer.Least.{none_not_some, node_same}
use runite.Runtime.Timer.Due.{Rising}
use runite.Runtime.Scheduler.{Macrotask, macrotask_of, macrotasks_of}
use runite.Runtime.Scheduler.Queue.{TimerQueue, IsTimerQueue}
use runite.Runtime.Scheduler.Life.{has_id, macrotasks_for}

pub macrotasks_for-append :
    (b : ℕ) (ms ns : List Macrotask)
    → macrotasks_for b (ms ++ ns) ≡ macrotasks_for b ms ++ macrotasks_for b ns
macrotasks_for-append b [] ns = refl
macrotasks_for-append b (m ∷ ms) ns = elim (Bool-cases (has_id b m)) [
  | inl e ↦ rw (e, macrotasks_for-append b ms ns) refl
  | inr e ↦ rw (e, macrotasks_for-append b ms ns) refl
]

-- What a dispatch queues for a timer with this node.
abbrev pub expired : ℕ → Option TimerNode → List Macrotask
expired now none = []
expired now (some n) = if leb n.deadline now then macrotask_of n ∷ [] else []

has_id-macrotask_of : (b : ℕ) (n : TimerNode) → has_id b (macrotask_of n) ≡ (b == n.id)
has_id-macrotask_of b n =
    elim n.kind as (λ k. has_id b (macrotask_of (record n { kind = k })) ≡ (b == n.id)) [
      | TimerKind.timeout c ↦ refl
      | TimerKind.interval ↦ refl
    ]

others_skipped :
    (b : ℕ) (due : List TimerNode)
    → ((n : TimerNode) → Memᴰ n due → n.id ≢ b)
    → macrotasks_for b (macrotasks_of due) ≡ []
others_skipped b [] other = refl
others_skipped b (n ∷ due) other =
    let e : (b == n.id) ≡ false = ground (arith, other n (head refl)) in
    rw (has_id-macrotask_of b n, e) (others_skipped b due (λ m k. other m (tail k)))

irreflexive : (n : TimerNode) → before n n ≡ true → ⊥
irreflexive n e = absurd (ground arith)

module _ {Q : Type 0} {i : TimerQueue Q} (l : IsTimerQueue i) (q : Q) where
  apart :
      (m n : TimerNode)
      → l.find q m.id ≡ some m
      → l.find q n.id ≡ some n
      → before m n ≡ true
      → m.id ≢ n.id
  apart m n f g e same =
      let twin : m ≡ n = node_same m n (sym f ∙ ap (l.find q) same ∙ g) in
      irreflexive n (subst (λ k. before k n ≡ true) twin e)

  once :
      (due : List TimerNode) (n : TimerNode)
      → Rising due
      → ((m : TimerNode) → Memᴰ m due → l.find q m.id ≡ some m)
      → Memᴰ n due
      → macrotasks_for n.id (macrotasks_of due) ≡ macrotask_of n ∷ []
  once [] n rising held k = elim k [ ]
  once (m ∷ due) n (first, rising) held (head same) =
      let e : (n.id == m.id) ≡ true = ground (arith, ap (λ (k : TimerNode). k.id) same) in
      let skipped = others_skipped n.id due (λ k y eq.
        apart m k (held m (head refl)) (held k (tail y)) (first k y)
          (ap (λ (z : TimerNode). z.id) (sym same) ∙ sym eq)) in
      rw (has_id-macrotask_of n.id m, e, skipped, same) refl
  once (m ∷ due) n (first, rising) held (tail k) =
      let e : (n.id == m.id) ≡ false =
        ground (arith, apart m n (held m (head refl)) (held n (tail k)) (first n k)) in
      rw (has_id-macrotask_of n.id m, e) (once due n rising (λ x y. held x (tail y)) k)

  pub due-expired :
      (now b : ℕ)
      → l.Valid q
      → macrotasks_for b (macrotasks_of (l.due now q)) ≡ expired now (l.find q b)
  due-expired now b v = elim (Option-cases (l.find q b)) [
    | inl e ↦ rw e (
        others_skipped b (l.due now q) (λ n m same.
          none_not_some n (sym e ∙ sym (ap (l.find q) same) ∙ (l.due_sound now n q v m).0)))
    | inr (n, e) ↦ elim (Bool-cases (leb n.deadline now)) [
      | inl o ↦
          rw (e, o)
            (subst (λ x. macrotasks_for x (macrotasks_of (l.due now q)) ≡ macrotask_of n ∷ [])
              (l.keyed q b n v e)
              (once (l.due now q) n (l.due-Rising now q v) (λ m k. (l.due_sound now m q v k).0)
                (l.due_complete now b n q v e (ground arith))))
      | inr o ↦
          rw (e, o)
            (others_skipped b (l.due now q) (λ m k same.
              let (f, d) = l.due_sound now m q v k in
              let twin : m ≡ n = node_same m n (sym f ∙ ap (l.find q) same ∙ e) in
              let late : leb m.deadline now ≡ false =
                subst (λ x. leb x.deadline now ≡ false) (sym twin) o in
              absurd (ground (arith, d, late))))
    ]
  ]
