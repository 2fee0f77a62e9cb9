-- ===== src/Runtime/Scheduler/Heap.antt =====
-- The timer heap is such a queue.
use mathlib.Core.List.{Memᴰ}
use runite.Prelude.{
  ℕ, ◌≤◌, ◌<◌, ◌≡◌, ◌≢◌, refl, sym, ap, ◌∙◌, List, [], Option, none, some, inl, inr, Bool-cases,
  Option-cases, ◌==◌, arith,
}
use runite.Runtime.Timer.{TimerNode, TimerHeap, new, insert, remove, pop_due, peek_deadline}
use runite.Runtime.Timer.Order.{Le-deadline}
use runite.Runtime.Timer.Index.{find, find_at}
use runite.Runtime.Timer.Insert.{Good, new-Good, insert-Good, insert-find}
use runite.Runtime.Timer.Least.{none_not_some, first_least, remove-Removed, find-cases}
use runite.Runtime.Timer.Due.{Rising, Popped, held, peeks, peek_empty, pop_due_loop-Popped}
use runite.Runtime.Scheduler.Queue.{TimerQueue, IsTimerQueue}

abbrev pub timer_heap : TimerQueue TimerHeap
timer_heap = record {
  new = new;
  insert = insert;
  remove = remove;
  pop_due = pop_due;
  peek_deadline = peek_deadline;
}

pub unheld : (h : TimerHeap) (id : ℕ) → find h id ≡ none → h.positions id ≡ none
unheld h id e = elim (Option-cases (h.positions id)) [
  | inl o ↦ o
  | inr (i, o) ↦ absurd (none_not_some (h.nodes i) (sym e ∙ find_at h id i o))
]

pub new_unheld : (id : ℕ) → find new id ≡ none
unfolding new
new_unheld id = refl

abbrev pub list_of : Option (List TimerNode) → List TimerNode
list_of none = []
list_of (some due) = due

pub pop_due-Popped : (now : ℕ) (h : TimerHeap) → Good h → Popped now h (pop_due now h)
unfolding pop_due
pop_due-Popped now h v = pop_due_loop-Popped h.len now h (omega arith) v

pub heap_keyed : (h : TimerHeap) (id : ℕ) (n : TimerNode) → Good h → find h id ≡ some n → n.id ≡ id
heap_keyed h id n v e =
    let (i, o, l, q) = find-cases h id n v.index e in
    ap (λ (m : TimerNode). m.id) (sym q) ∙ (v.index.found id i o).1

pub remove_unheld : (id : ℕ) (h : TimerHeap) → h.positions id ≡ none → (remove id h).0 ≡ h
unfolding remove
remove_unheld id h e = rw (remove, e) refl

pub peek_held :
    (h : TimerHeap) (d : ℕ)
    → Good h
    → peek_deadline h ≡ some d
    → (n : TimerNode) × (find h n.id ≡ some n) × (n.deadline ≡ d)
peek_held h d v e = elim (Bool-cases (h.len == 0)) [
  | inl o ↦ absurd (no_peek (sym (peek_empty h o) ∙ e))
  | inr o ↦
      let some_node : 0 < h.len = ground (arith, o) in
      (h.nodes 0, held 0 h v some_node, some_same (sym (peeks 0 h v some_node) ∙ e))
]
  where
    no_peek : {d : ℕ} → ◌≢◌ {A = Option ℕ} none (some d)
    no_peek e = cc

    some_same : {a b : ℕ} → ◌≡◌ {A = Option ℕ} (some a) (some b) → a ≡ b
    some_same e = cc

pub peek_heap_least :
    (h : TimerHeap) (id : ℕ) (n : TimerNode)
    → Good h
    → find h id ≡ some n
    → (m : TimerNode) × (find h m.id ≡ some m)
      × (peek_deadline h ≡ some m.deadline)
      × (m.deadline ≤ n.deadline)
peek_heap_least h id n v e =
    let (i, _, l, _) = find-cases h id n v.index e in
    let some_node : 0 < h.len = omega (arith, l) in
    (
      h.nodes 0,
      held 0 h v some_node,
      peeks 0 h v some_node,
      Le-deadline (h.nodes 0) n (first_least h id n v e),
    )

pub heap_answers :
    (now : ℕ) (h : TimerHeap) → Good h → (pop_due now h).1 ≡ some (list_of (pop_due now h).1)
heap_answers now h v = rw (pop_due-Popped now h v).answer refl

pub heap-Rising : (now : ℕ) (h : TimerHeap) → Good h → Rising (list_of (pop_due now h).1)
heap-Rising now h v = let p = pop_due-Popped now h v in rw p.answer p.rising

pub heap_due :
    (now : ℕ) (n : TimerNode) (h : TimerHeap)
    → Good h
    → Memᴰ n (list_of (pop_due now h).1)
    → (find h n.id ≡ some n) × (n.deadline ≤ now)
heap_due now n h v m = let p = pop_due-Popped now h v in p.sound n (rw p.answer at m)

pub heap_all_due :
    (now id : ℕ) (n : TimerNode) (h : TimerHeap)
    → Good h
    → find h id ≡ some n
    → n.deadline ≤ now
    → Memᴰ n (list_of (pop_due now h).1)
heap_all_due now id n h v e d = let p = pop_due-Popped now h v in rw p.answer (p.complete id n e d)

abbrev pub timer_heap_laws : IsTimerQueue timer_heap
timer_heap_laws = record {
  Valid = Good;
  find = find;
  new-Valid = new-Good;
  new_empty = new_unheld;
  keyed = heap_keyed;
  insert-Valid = λ n h v e. insert-Good n h v (unheld h n.id e);
  insert_adds = λ n h id v e. insert-find n h v (unheld h n.id e) id;
  remove-Valid = λ id h v. (remove-Removed id h v).good;
  remove_answers = λ id h v. (remove-Removed id h v).answer;
  remove_takes_out = λ id x h v. (remove-Removed id h v).rest x;
  remove_absent = λ id h v e. remove_unheld id h (unheld h id e);
  pop_due-Valid = λ now h v. (pop_due-Popped now h v).good;
  pop_due_leaves = λ now id h v. (pop_due-Popped now h v).left id;
  due = λ now h. list_of (pop_due now h).1;
  pop_due_answers = λ now h v. let p = pop_due-Popped now h v in rw p.answer refl;
  due-Rising = λ now h v. let p = pop_due-Popped now h v in rw p.answer p.rising;
  due_sound = λ now n h v m. let p = pop_due-Popped now h v in p.sound n (rw p.answer at m);
  due_complete =
      λ now id n h v e d. let p = pop_due-Popped now h v in rw p.answer (p.complete id n e d);
  peek_sound = peek_held;
  peek_least = peek_heap_least;
}
