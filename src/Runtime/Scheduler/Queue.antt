-- ===== src/Runtime/Scheduler/Queue.antt =====
-- What the scheduler uses of its timers (`TimerHeap` of src/platform/runtime_shared/timer.rs): the
-- operations, and the laws that they keep, by which the queue is a map from ids to nodes.
use mathlib.Core.List.{Memᴰ}
use runite.Prelude.{ℕ, ◌≤◌, ◌≡◌, List, Option, none, some, ◌==◌, if◌then◌else◌}
use runite.Runtime.Timer.{TimerNode}
use runite.Runtime.Timer.Due.{Rising, unexpired}

pub record TimerQueue (Q : Type 0) : Type 0 where
  pub new : Q
  pub insert : TimerNode → Q → Q
  pub remove : ℕ → Q → Q × Option TimerNode
  pub pop_due : ℕ → Q → Q × Option (List TimerNode)
  pub peek_deadline : Q → Option ℕ

-- `Valid` is what the queue keeps, `find` what it holds under an id.
pub record IsTimerQueue {Q : Type 0} (i : TimerQueue Q) : Type 1 where
  pub Valid : Q → Type 0
  pub find : Q → ℕ → Option TimerNode
  pub new-Valid : Valid i.new
  pub new_empty : (id : ℕ) → find i.new id ≡ none
  pub keyed : (q : Q) (id : ℕ) (n : TimerNode) → Valid q → find q id ≡ some n → n.id ≡ id
  pub insert-Valid : (n : TimerNode) (q : Q) → Valid q → find q n.id ≡ none → Valid (i.insert n q)
  pub insert_adds :
      (n : TimerNode) (q : Q) (id : ℕ)
      → Valid q
      → find q n.id ≡ none
      → find (i.insert n q) id ≡ (if id == n.id then some n else find q id)
  pub remove-Valid : (id : ℕ) (q : Q) → Valid q → Valid (i.remove id q).0
  pub remove_answers : (id : ℕ) (q : Q) → Valid q → (i.remove id q).1 ≡ find q id
  pub remove_takes_out :
      (id x : ℕ) (q : Q) → Valid q → find (i.remove id q).0 x ≡ (if x == id then none else find q x)
  pub remove_absent : (id : ℕ) (q : Q) → Valid q → find q id ≡ none → (i.remove id q).0 ≡ q
  pub pop_due-Valid : (now : ℕ) (q : Q) → Valid q → Valid (i.pop_due now q).0
  pub pop_due_leaves :
      (now id : ℕ) (q : Q) → Valid q → find (i.pop_due now q).0 id ≡ unexpired now (find q id)
  pub due : ℕ → Q → List TimerNode
  pub pop_due_answers : (now : ℕ) (q : Q) → Valid q → (i.pop_due now q).1 ≡ some (due now q)
  pub due-Rising : (now : ℕ) (q : Q) → Valid q → Rising (due now q)
  pub due_sound :
      (now : ℕ) (n : TimerNode) (q : Q)
      → Valid q
      → Memᴰ n (due now q)
      → (find q n.id ≡ some n) × (n.deadline ≤ now)
  pub due_complete :
      (now id : ℕ) (n : TimerNode) (q : Q)
      → Valid q
      → find q id ≡ some n
      → n.deadline ≤ now
      → Memᴰ n (due now q)
  pub peek_sound :
      (q : Q) (d : ℕ)
      → Valid q
      → i.peek_deadline q ≡ some d
      → (n : TimerNode) × (find q n.id ≡ some n) × (n.deadline ≡ d)
  pub peek_least :
      (q : Q) (id : ℕ) (n : TimerNode)
      → Valid q
      → find q id ≡ some n
      → (m : TimerNode) × (find q m.id ≡ some m)
        × (i.peek_deadline q ≡ some m.deadline)
        × (m.deadline ≤ n.deadline)
