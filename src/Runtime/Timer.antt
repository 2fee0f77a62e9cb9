-- ===== src/Runtime/Timer.antt =====
-- src/platform/runtime_shared/timer.rs: a binary heap of timers by deadline and id, with a map from ids
-- to places. A `Duration` is its number of nanoseconds and a callback is a number. A `Vec` is its
-- length and its elements; the elements past the end are never read.
pub mod Order
pub mod Up
pub mod Down
pub mod Index
pub mod Insert
pub mod Remove
pub mod Fill
pub mod Least
pub mod Due
pub mod Safety
mod Tests
use runite.Prelude.{
  ℕ, zero, suc, ◌+◌, ◌-◌, ◌*◌, ◌/◌, List, [], ◌∷◌, Option, none, some, Bool, true, false, ◌&&◌,
  ◌||◌, not, ltb, leb, ◌==◌, if◌then◌else◌, update,
}

pub data TimerKind : Type 0 where
  timeout : ℕ → TimerKind
  interval : TimerKind

pub record TimerNode : Type 0 where
  pub id : ℕ
  pub deadline : ℕ
  pub kind : TimerKind

-- `nodes` is a vector of length `len`; `positions` is the hash map.
pub record TimerHeap : Type 0 where
  pub len : ℕ
  pub nodes : ℕ → TimerNode
  pub positions : ℕ → Option ℕ

unfoldable pub new : TimerHeap
new = record {
  len = 0;
  nodes = λ _. record { id = 0; deadline = 0; kind = interval };
  positions = λ _. none;
}

abbrev pub is_empty : TimerHeap → Bool
is_empty h = h.len == 0

unfoldable pub peek_deadline : TimerHeap → Option ℕ
peek_deadline h = if is_empty h then none else some (h.nodes 0).deadline

-- `(left.deadline, left.id) < (right.deadline, right.id)`.
abbrev pub before : TimerNode → TimerNode → Bool
before a b = ltb a.deadline b.deadline || ((a.deadline == b.deadline) && ltb a.id b.id)

abbrev pub less : TimerHeap → ℕ → ℕ → Bool
less h lhs rhs = before (h.nodes lhs) (h.nodes rhs)

abbrev pub parent : ℕ → ℕ
parent index = (index - 1) / 2

-- The two elements trade places, and then the map learns both.
unfoldable pub swap : ℕ → ℕ → TimerHeap → TimerHeap
swap lhs rhs h =
    let nodes = update (update h.nodes lhs (h.nodes rhs)) rhs (h.nodes lhs) in
    record h {
      nodes = nodes;
      positions = update (update h.positions (nodes lhs).id (some lhs)) (nodes rhs).id (some rhs);
    }

-- The loop of `sift_up`, which moves to the parent at most `fuel` times.
unfoldable pub sift_up_loop : ℕ → ℕ → TimerHeap → TimerHeap
unfolding swap
sift_up_loop zero index h = h
sift_up_loop (suc fuel) index h =
    let rest = sift_up_loop fuel (parent index) (swap index (parent index) h) in
    if ltb 0 index && less h index (parent index) then rest else h

-- A parent's index is smaller, so `index` rounds are enough.
unfoldable pub sift_up : ℕ → TimerHeap → TimerHeap
unfolding sift_up_loop
sift_up index h = sift_up_loop index index h

-- `smallest` after the two tests of a round of `sift_down`.
abbrev pub smallest_left : ℕ → TimerHeap → ℕ
smallest_left index h =
    if ltb (index * 2 + 1) h.len && less h (index * 2 + 1) index then index * 2 + 1 else index

abbrev pub smallest : ℕ → TimerHeap → ℕ
smallest index h =
    if ltb (index * 2 + 2) h.len && less h (index * 2 + 2) (smallest_left index h)
    then index * 2 + 2
    else smallest_left index h

-- The loop of `sift_down`, which moves to a child at most `fuel` times.
unfoldable pub sift_down_loop : ℕ → ℕ → TimerHeap → TimerHeap
unfolding swap
sift_down_loop zero index h = h
sift_down_loop (suc fuel) index h =
    let rest = sift_down_loop fuel (smallest index h) (swap index (smallest index h) h) in
    if smallest index h == index then h else rest

-- A child's index is larger and below the length, so this many rounds are enough.
unfoldable pub sift_down : ℕ → TimerHeap → TimerHeap
unfolding sift_down_loop
sift_down index h = sift_down_loop (h.len - index) index h

unfoldable pub fix : ℕ → TimerHeap → TimerHeap
unfolding sift_up sift_down
fix index h =
    if ltb 0 index && less h index (parent index) then sift_up index h else sift_down index h

unfoldable pub insert : TimerNode → TimerHeap → TimerHeap
unfolding sift_up
insert node h = sift_up h.len (record {
  len = suc h.len;
  nodes = update h.nodes h.len node;
  positions = update h.positions node.id (some h.len);
})

-- The two ways on once the id is found and the last node is popped: it is the one, or it fills the gap.
unfoldable pub take_out : ℕ → ℕ → TimerHeap → TimerHeap × TimerNode
unfolding fix
take_out id index h =
    let len = h.len - 1 in
    let last = h.nodes len in
    let positions = update h.positions id none in
    if index == len then (record h { len = len; positions = positions }, last) else (
      fix index (record {
        len = len;
        nodes = update h.nodes index last;
        positions = update positions last.id (some index);
      }),
      h.nodes index,
    )

unfoldable pub remove : ℕ → TimerHeap → TimerHeap × Option TimerNode
unfolding take_out
remove id h = elim (h.positions id) [
  | none ↦ (h, none)
  | some index ↦ ((take_out id index h).0, some (take_out id index h).1)
]

unfoldable pub pop_min : TimerHeap → TimerHeap × Option TimerNode
unfolding remove
pop_min h = if is_empty h then (h, none) else remove (h.nodes 0).id h

-- `self.peek_deadline().is_some_and(|deadline| deadline <= now)`.
abbrev pub is_due : ℕ → Option ℕ → Bool
is_due now none = false
is_due now (some deadline) = leb deadline now

-- `due.push(..)` around the rounds that follow; `none` is the failure of the `expect`.
abbrev pub push_due :
    TimerHeap
    → Option TimerNode
    → TimerHeap × Option (List TimerNode)
    → TimerHeap × Option (List TimerNode)
push_due h' none rest = (h', none)
push_due h' (some node) (h'', none) = (h'', none)
push_due h' (some node) (h'', some due) = (h'', some (node ∷ due))

-- The loop of `pop_due`.
unfoldable pub pop_due_loop : ℕ → ℕ → TimerHeap → TimerHeap × Option (List TimerNode)
unfolding pop_min peek_deadline
pop_due_loop zero now h = (h, some [])
pop_due_loop (suc fuel) now h =
    let rest = pop_due_loop fuel now (pop_min h).0 in
    if is_due now (peek_deadline h) then push_due (pop_min h).0 (pop_min h).1 rest else (h, some [])

-- Each round removes a node, so as many rounds as there are nodes are enough.
unfoldable pub pop_due : ℕ → TimerHeap → TimerHeap × Option (List TimerNode)
unfolding pop_due_loop
pop_due now h = pop_due_loop h.len now h
