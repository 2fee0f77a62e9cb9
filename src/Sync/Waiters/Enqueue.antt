-- ===== src/Sync/Waiters/Enqueue.antt =====
-- A waiter that joins the queue at its back, with a fresh cell.
use mathlib.Core.List.{map-append}
use native.Mathlib.Nat.{le_refl}
use runite.Prelude.{ℕ, ◌≡◌, List, [], ◌∷◌, ◌++◌, Bool, false, arith, update}
use runite.Sync.Waiters.{Waiter, Ticket, Within, unselected, count, tickets, ticket}
use runite.Sync.Waiters.Pending.{
  unselected-append, unselected-update_above, count-append, count-update_above,
}

module _ {K : Type 0} {S : Type 0} where
  -- The new waiter is the last one that nobody has selected.
  pub unselected-enqueue :
      (on : S → Bool) (cells : ℕ → S) (hi : ℕ) (ts : List (Ticket K)) (q : List (Waiter K))
      (id waker : ℕ) (k : K) (v : S)
      → Within 0 hi ts
      → tickets q ≡ unselected on cells ts
      → on v ≡ false
      → tickets (q ++ record { id = id; kind = k; selected = hi; waker = waker } ∷ [])
        ≡ unselected on (update cells hi v) (ts ++ record { id = id; kind = k; cell = hi } ∷ [])
  unselected-enqueue on cells hi ts q id waker k v h e o = ground (
    arith,
    map-append ticket q (record { id = id; kind = k; selected = hi; waker = waker } ∷ []),
    unselected-append on (update cells hi v) ts (record { id = id; kind = k; cell = hi } ∷ []),
    unselected-update_above on cells 0 hi ts hi v h (le_refl _),
  )

  pub count-enqueue :
      (p : K → S → Bool) (cells : ℕ → S) (hi : ℕ) (ts : List (Ticket K)) (id : ℕ) (k : K) (v : S)
      → Within 0 hi ts
      → p k v ≡ false
      → count p (update cells hi v) (ts ++ record { id = id; kind = k; cell = hi } ∷ [])
        ≡ count p cells ts
  count-enqueue p cells hi ts id k v h o = ground (
    arith,
    count-append p (update cells hi v) ts (record { id = id; kind = k; cell = hi } ∷ []),
    count-update_above p cells 0 hi ts hi v h (le_refl _),
  )
