-- ===== src/Sync/Waiters.antt =====
-- The wait queue that src/sync/{semaphore,mutex,rw_lock,notify}.rs each carry: a `VecDeque<Waiter>`
-- with an id counter, and the futures that hold the other end of each waiter's `selected` cell.
pub mod Pending
pub mod Removal
pub mod Enqueue
use mathlib.Core.List.{append-nil, append_assoc}
use runite.Prelude.{
  refl, sym, ◌∙◌, ℕ, suc, ◌+◌, ◌%◌, ◌^◌, ◌≤◌, ◌≡◌, List, [], ◌∷◌, ◌++◌, map, Bool, true, false,
  ◌==◌, if◌then◌else◌, update,
}

-- `struct Waiter`. A kind is what rw_lock.rs tells apart; `selected` is the address of the shared
-- cell and `waker` names the task that a wake schedules.
pub record Waiter (K : Type 0) : Type 0 where
  pub id : ℕ
  pub kind : K
  pub selected : ℕ
  pub waker : ℕ

-- `Some((id, selected))` of a future that waits.
pub record Ticket (K : Type 0) : Type 0 where
  pub id : ℕ
  pub kind : K
  pub cell : ℕ

abbrev pub usize_mod : ℕ
usize_mod = 2 ^ 64

-- `id.wrapping_add(1)`.
abbrev pub wrapping_suc : ℕ → ℕ
wrapping_suc id = (id + 1) % usize_mod

-- What the waiters share with the rest of the thread: the cells, the next free address, and the
-- wakes made so far, oldest first.
pub record Heap (S : Type 0) : Type 0 where
  pub cells : ℕ → S
  pub next_cell : ℕ
  pub woken : List ℕ

module _ {S : Type 0} where
  -- `Rc::new(Cell::new(v))` at the next address.
  unfoldable pub new_cell : S → Heap S → Heap S
  new_cell v h = record h { cells = update h.cells h.next_cell v; next_cell = suc h.next_cell }

  -- `waiter.selected.set(v)`.
  unfoldable pub select : ℕ → S → Heap S → Heap S
  select a v h = record h { cells = update h.cells a v }

  -- `waiter.waker.wake()`.
  unfoldable pub wake : ℕ → Heap S → Heap S
  wake waker h = record h { woken = h.woken ++ waker ∷ [] }

module _ {S : Type 0} where
  -- `for waker in wake { waker.wake(); }`.
  unfoldable pub wake_all : List ℕ → Heap S → Heap S
  unfolding wake
  wake_all [] h = h
  wake_all (w ∷ ws) h = wake_all ws (wake w h)

  pub wake_all_lem :
      (ws : List ℕ) (h : Heap S)
      → ((wake_all ws h).cells ≡ h.cells)
        × ((wake_all ws h).next_cell ≡ h.next_cell)
        × ((wake_all ws h).woken ≡ h.woken ++ ws)
  unfolding wake_all
  wake_all_lem [] h = (refl, refl, sym (append-nil h.woken))
  wake_all_lem (w ∷ ws) h =
      let ih = wake_all_lem ws (wake w h) in (ih.0, ih.1, ih.2 ∙ append_assoc h.woken (w ∷ []) ws)

-- `Poll`, with the guard that a ready future hands out left to its caller.
pub data Poll : Type 0 where
  ready pending : Poll

module _ {K : Type 0} where
  -- `waiters.iter().position(|waiter| waiter.id == id)` and `waiters.remove(index)`.
  unfoldable pub remove_id : ℕ → List (Waiter K) → List (Waiter K)
  remove_id id [] = []
  remove_id id (w ∷ ws) = if w.id == id then ws else w ∷ remove_id id ws

  -- `waiters.iter_mut().find(|waiter| waiter.id == id)` with its waker replaced.
  unfoldable pub refresh : ℕ → ℕ → List (Waiter K) → List (Waiter K)
  refresh id waker [] = []
  refresh id waker (w ∷ ws) =
      if w.id == id then record w { waker = waker } ∷ ws else w ∷ refresh id waker ws

  abbrev pub ticket : Waiter K → Ticket K
  ticket w = record { id = w.id; kind = w.kind; cell = w.selected }

  abbrev pub tickets : List (Waiter K) → List (Ticket K)
  tickets = map ticket

  -- The tickets have rising cells between two bounds, and each id is its cell's number.
  abbrev pub Within : ℕ → ℕ → List (Ticket K) → Type 0
  Within lo hi [] = lo ≤ hi
  Within lo hi (t ∷ ts) = (lo ≤ t.cell) × (t.id ≡ t.cell) × Within (suc t.cell) hi ts

  module _ {S : Type 0} (on : S → Bool) (cells : ℕ → S) where
    -- The tickets that nobody has selected.
    abbrev pub unselected : List (Ticket K) → List (Ticket K)
    unselected [] = []
    unselected (t ∷ ts) = if on (cells t.cell) then unselected ts else t ∷ unselected ts

  module _ {S : Type 0} (p : K → S → Bool) (cells : ℕ → S) where
    -- How many tickets have a kind and a cell that pass a test.
    abbrev pub count : List (Ticket K) → ℕ
    count [] = 0
    count (t ∷ ts) = (if p t.kind (cells t.cell) then 1 else 0) + count ts
