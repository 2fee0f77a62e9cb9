-- ===== src/Sync/Waiters/Removal.antt =====
-- A waiter that leaves the queue from the middle, and a waker that is replaced.
use runite.Prelude.{ℕ, suc, ◌≤◌, ◌≡◌, ◌≢◌, refl, List, [], ◌∷◌, ◌++◌, Bool, true, false, arith}
use runite.Sync.Waiters.{Waiter, Ticket, Within, unselected, tickets, ticket, remove_id, refresh}
use runite.Sync.Waiters.Pending.{unselected-append}

module _ {K : Type 0} where
  pub tickets-refresh :
      (id waker : ℕ) (ws : List (Waiter K)) → tickets (refresh id waker ws) ≡ tickets ws
  unfolding refresh
  tickets-refresh id waker [] = refl
  tickets-refresh id waker (w ∷ ws) = ground (arith, tickets-refresh id waker ws)

  -- The front of the queue belongs to the first ticket.
  pub tickets_front :
      (q : List (Waiter K)) (t : Ticket K) (rest : List (Ticket K))
      → tickets q ≡ t ∷ rest
      → (w : Waiter K) × (ws : List (Waiter K)) × (q ≡ w ∷ ws)
        × (ticket w ≡ t)
        × (tickets ws ≡ rest)
  tickets_front [] t rest e = absurd (cc)
  tickets_front (w ∷ ws) t rest e = (w, ws, refl, ground arith, ground arith)

  pub remove_id-nil : (id : ℕ) (ws : List (Waiter K)) → ws ≡ [] → remove_id id ws ≡ []
  unfolding remove_id
  remove_id-nil id [] e = refl
  remove_id-nil id (w ∷ ws) e = absurd (cc)

  abbrev Lacks : ℕ → List (Ticket K) → Type 0
  Lacks id [] = Unit {0}
  Lacks id (t ∷ ts) = (t.id ≢ id) × Lacks id ts

  remove_id-Lacks :
      (q : List (Waiter K)) (xs : List (Ticket K)) (t : Ticket K) (ys : List (Ticket K))
      → tickets q ≡ xs ++ t ∷ ys
      → Lacks t.id xs
      → tickets (remove_id t.id q) ≡ xs ++ ys
  unfolding remove_id
  remove_id-Lacks [] [] t ys e h = absurd (cc)
  remove_id-Lacks [] (x ∷ xs) t ys e h = absurd (cc)
  remove_id-Lacks (w ∷ q) [] t ys e h = ground arith
  remove_id-Lacks (w ∷ q) (x ∷ xs) t ys e h = ground (arith, remove_id-Lacks q xs t ys)

  pub Within-middle :
      (lo hi : ℕ) (xs : List (Ticket K)) (t : Ticket K) (ys : List (Ticket K))
      → Within lo hi (xs ++ t ∷ ys)
      → (lo ≤ t.cell) × (t.id ≡ t.cell)
  Within-middle lo hi [] t ys h = (h.0, h.1)
  Within-middle lo hi (x ∷ xs) t ys h = ground (arith, Within-middle (suc x.cell) hi xs t ys h.2)

  module _ {S : Type 0} (on : S → Bool) (cells : ℕ → S) where
    Lacks-unselected :
        (lo hi : ℕ) (xs : List (Ticket K)) (t : Ticket K) (ys : List (Ticket K))
        → Within lo hi (xs ++ t ∷ ys)
        → Lacks t.id (unselected on cells xs)
    Lacks-unselected lo hi [] t ys h = tt
    Lacks-unselected lo hi (x ∷ xs) t ys h = ground (
      arith,
      Lacks-unselected (suc x.cell) hi xs t ys h.2,
      Within-middle (suc x.cell) hi xs t ys h.2,
    )

    -- A selected ticket is not pending, so it leaves without a trace.
    pub unselected-finish :
        (xs : List (Ticket K)) (t : Ticket K) (ys : List (Ticket K))
        → on (cells t.cell) ≡ true
        → unselected on cells (xs ++ t ∷ ys) ≡ unselected on cells (xs ++ ys)
    unselected-finish xs t ys o =
        rw (unselected-append on cells xs (t ∷ ys), unselected-append on cells xs ys, o)

    -- A ticket that nobody selected is cancelled by its id.
    pub unselected-cancel :
        (q : List (Waiter K)) (lo hi : ℕ) (xs : List (Ticket K)) (t : Ticket K)
        (ys : List (Ticket K))
        → Within lo hi (xs ++ t ∷ ys)
        → on (cells t.cell) ≡ false
        → tickets q ≡ unselected on cells (xs ++ t ∷ ys)
        → tickets (remove_id t.id q) ≡ unselected on cells (xs ++ ys)
    unselected-cancel q lo hi xs t ys h o e = rw (unselected-append on cells xs ys) (
        remove_id-Lacks q (unselected on cells xs) t (unselected on cells ys)
          (rw (unselected-append on cells xs (t ∷ ys), o) at e) (Lacks-unselected lo hi xs t ys h))
