-- ===== src/Runtime/Timer/Safety.antt =====
-- What the scheduler may rely on of a timer heap: it is a map from ids to nodes whose due entries can
-- be taken out in order.
use mathlib.Core.List.{Memᴰ}
use runite.Prelude.{
  ℕ, ◌≤◌, ◌≡◌, sym, ◌∙◌, List, none, some, ◌==◌, if◌then◌else◌, arith, Option-cases, inl, inr, ◌<◌,
  Reach, Reach-keeps,
}
use runite.Runtime.Timer.{TimerNode, TimerHeap, new, insert, remove, pop_due, peek_deadline}
use runite.Runtime.Timer.Order.{Le-deadline}
use runite.Runtime.Timer.Index.{find, find_at}
use runite.Runtime.Timer.Insert.{Good, new-Good, insert-Good, insert-find}
use runite.Runtime.Timer.Least.{none_not_some, first_least, remove-Removed, find-cases}
use runite.Runtime.Timer.Due.{held, Rising, unexpired, pop_due_loop-Popped, peeks}

-- What is done to a heap. An id is inserted only while it is not in the heap: the scheduler draws ids
-- from a counter.
pub data Step (h : TimerHeap) : TimerHeap → Type 0 where
  insertion : (node : TimerNode) → find h node.id ≡ none → Step h (insert node h)
  removal : (id : ℕ) → Step h (remove id h).0
  expiry : (now : ℕ) → Step h (pop_due now h).0

unheld : (h : TimerHeap) (id : ℕ) → find h id ≡ none → h.positions id ≡ none
unheld h id e = elim (Option-cases (h.positions id)) [
  | inl o ↦ o
  | inr (i, o) ↦ absurd (none_not_some (h.nodes i) (sym e ∙ find_at h id i o))
]

Step-Good : (h h' : TimerHeap) → Step h h' → Good h → Good h'
unfolding pop_due
Step-Good h h' (insertion node e) v = insert-Good node h v (unheld h node.id e)
Step-Good h h' (removal id) v = (remove-Removed id h v).good
Step-Good h h' (expiry now) v = (pop_due_loop-Popped h.len now h (omega arith) v).good

-- After every history from an empty heap, no node is before its parent in the order of deadlines and
-- ids, and the map leads from the id of each node to its place and from nothing else to a place.
pub history-Good : (h : TimerHeap) → Reach Step new h → Good h
history-Good h r = Reach-keeps Step Good Step-Good new-Good r

-- After every history, inserting a node whose id is not in the heap adds it under its id and changes
-- no other entry.
pub insert_adds :
    (h : TimerHeap) (node : TimerNode) (id : ℕ)
    → Reach Step new h
    → find h node.id ≡ none
    → find (insert node h) id ≡ (if id == node.id then some node else find h id)
insert_adds h node id r e = insert-find node h (history-Good h r) (unheld h node.id e) id

-- After every history, removing an id answers with the node under it, or with nothing, and changes
-- no other entry.
pub remove_takes_out :
    (h : TimerHeap) (id x : ℕ)
    → Reach Step new h
    → ((remove id h).1 ≡ find h id)
      × (find (remove id h).0 x ≡ (if x == id then none else find h x))
remove_takes_out h id x r = let k = remove-Removed id h (history-Good h r) in (k.answer, k.rest x)

-- After every history in which the heap holds a node, the deadline at the front is that of some node
-- in the heap and is not later than that of any.
pub peek_is_least :
    (h : TimerHeap) (id : ℕ) (n : TimerNode)
    → Reach Step new h
    → find h id ≡ some n
    → (m : TimerNode) × (find h m.id ≡ some m)
      × (peek_deadline h ≡ some m.deadline)
      × (m.deadline ≤ n.deadline)
peek_is_least h id n r e =
    let v = history-Good h r in
    let (i, _, l, _) = find-cases h id n v.index e in
    let some_node : 0 < h.len = omega (arith, l) in
    (
      h.nodes 0,
      held 0 h v some_node,
      peeks 0 h v some_node,
      Le-deadline (h.nodes 0) n (first_least h id n v e),
    )

-- After every history, `pop_due` returns, without failing, the nodes of the heap whose deadline is not
-- after `now`, each of them once and in the order of deadlines and ids, and leaves exactly the others.
pub pop_due_is_exact :
    (h : TimerHeap) (now : ℕ)
    → Reach Step new h
    → (due : List TimerNode) × ((pop_due now h).1 ≡ some due)
      × Rising due
      × ((n : TimerNode) → Memᴰ n due → (find h n.id ≡ some n) × (n.deadline ≤ now))
      × ((id : ℕ) (n : TimerNode) → find h id ≡ some n → n.deadline ≤ now → Memᴰ n due)
      × ((id : ℕ) → find (pop_due now h).0 id ≡ unexpired now (find h id))
unfolding pop_due
pop_due_is_exact h now r =
    let k = pop_due_loop-Popped h.len now h (omega arith) (history-Good h r) in
    (k.due, k.answer, k.rising, k.sound, k.complete, k.left)
