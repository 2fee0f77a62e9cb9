-- ===== src/Sync/Waiters/Pending.antt =====
-- What registering, selecting and finishing a waiter do to the pending tickets and to the counts.
pub use runite.Prelude.{bit}
use runite.Prelude.{
  ℕ, suc, ◌+◌, ◌≤◌, ◌<◌, ◌≡◌, refl, List, [], ◌∷◌, ◌++◌, Bool, true, false, arith, update,
  Bool-cases, inl, inr,
}
use runite.Sync.Waiters.{Ticket, Within, unselected, count}

module _ {K : Type 0} where
  pub Within-le : (lo hi : ℕ) (ts : List (Ticket K)) → Within lo hi ts → lo ≤ hi
  Within-le lo hi [] h = h
  Within-le lo hi (t ∷ ts) h = omega (arith, Within-le (suc t.cell) hi ts h.2)

  pub Within-weaken :
      (lo lo' hi : ℕ) (ts : List (Ticket K)) → lo' ≤ lo → Within lo hi ts → Within lo' hi ts
  Within-weaken lo lo' hi [] l h = omega arith
  Within-weaken lo lo' hi (t ∷ ts) l h = (omega arith, h.1, h.2)

  pub Within-snoc :
      (lo hi : ℕ) (ts : List (Ticket K)) (id : ℕ) (k : K)
      → Within lo hi ts
      → id ≡ hi
      → Within lo (suc hi) (ts ++ record { id = id; kind = k; cell = hi } ∷ [])
  Within-snoc lo hi [] id k h e = (h, e, omega arith)
  Within-snoc lo hi (t ∷ ts) id k h e = (h.0, h.1, Within-snoc (suc t.cell) hi ts id k h.2 e)

  pub Within-remove :
      (lo hi : ℕ) (xs : List (Ticket K)) (t : Ticket K) (ys : List (Ticket K))
      → Within lo hi (xs ++ t ∷ ys)
      → Within lo hi (xs ++ ys)
  Within-remove lo hi [] t ys h = Within-weaken (suc t.cell) lo hi ys (omega arith) h.2
  Within-remove lo hi (x ∷ xs) t ys h = (h.0, h.1, Within-remove (suc x.cell) hi xs t ys h.2)

  module _ {S : Type 0} (on : S → Bool) (cells : ℕ → S) where
    pub unselected-append :
        (xs ys : List (Ticket K))
        → unselected on cells (xs ++ ys) ≡ unselected on cells xs ++ unselected on cells ys
    unselected-append [] ys = refl
    unselected-append (x ∷ xs) ys = ground (arith, unselected-append xs ys)

    -- A write above or below the tickets' cells is not seen.
    pub unselected-update_above :
        (lo hi : ℕ) (ts : List (Ticket K)) (a : ℕ) (v : S)
        → Within lo hi ts
        → hi ≤ a
        → unselected on (update cells a v) ts ≡ unselected on cells ts
    unselected-update_above lo hi [] a v h l = refl
    unselected-update_above lo hi (t ∷ ts) a v h l =
        ground
          (arith, unselected-update_above (suc t.cell) hi ts a v, Within-le (suc t.cell) hi ts h.2)

    pub unselected-update_below :
        (lo hi : ℕ) (ts : List (Ticket K)) (a : ℕ) (v : S)
        → Within lo hi ts
        → a < lo
        → unselected on (update cells a v) ts ≡ unselected on cells ts
    unselected-update_below lo hi [] a v h l = refl
    unselected-update_below lo hi (t ∷ ts) a v h l =
        ground (arith, unselected-update_below (suc t.cell) hi ts a v)

    pub unselected_lower :
        (lo hi : ℕ) (ts : List (Ticket K)) (t : Ticket K) (rest : List (Ticket K))
        → Within lo hi ts
        → unselected on cells ts ≡ t ∷ rest
        → (lo ≤ t.cell) × (on (cells t.cell) ≡ false)
    unselected_lower lo hi [] t rest h e = absurd (cc)
    unselected_lower lo hi (x ∷ ts) t rest h e =
        ground (arith, unselected_lower (suc x.cell) hi ts t rest)

    -- Selecting the first pending ticket leaves the others pending.
    pub unselected-select :
        (lo hi : ℕ) (ts : List (Ticket K)) (t : Ticket K) (rest : List (Ticket K)) (v : S)
        → Within lo hi ts
        → unselected on cells ts ≡ t ∷ rest
        → on v ≡ true
        → unselected on (update cells t.cell v) ts ≡ rest
    unselected-select lo hi [] t rest v h e o = absurd (cc)
    unselected-select lo hi (x ∷ ts) t rest v h e o = ground (
      arith,
      unselected-select (suc x.cell) hi ts t rest v,
      unselected_lower (suc x.cell) hi ts t rest,
      unselected-update_below (suc x.cell) hi ts t.cell v,
    )

  module _ {S : Type 0} (p : K → S → Bool) (cells : ℕ → S) where
    pub count-append :
        (xs ys : List (Ticket K)) → count p cells (xs ++ ys) ≡ count p cells xs + count p cells ys
    count-append [] ys = omega arith
    count-append (x ∷ xs) ys = omega (arith, count-append xs ys)

    pub count-middle :
        (xs : List (Ticket K)) (t : Ticket K) (ys : List (Ticket K))
        → count p cells (xs ++ t ∷ ys) ≡ bit (p t.kind (cells t.cell)) + count p cells (xs ++ ys)
    count-middle xs t ys = omega (arith, count-append xs (t ∷ ys), count-append xs ys)

    pub count-update_above :
        (lo hi : ℕ) (ts : List (Ticket K)) (a : ℕ) (v : S)
        → Within lo hi ts
        → hi ≤ a
        → count p (update cells a v) ts ≡ count p cells ts
    count-update_above lo hi [] a v h l = refl
    count-update_above lo hi (t ∷ ts) a v h l =
        ground (arith, count-update_above (suc t.cell) hi ts a v, Within-le (suc t.cell) hi ts h.2)

    pub count-update_below :
        (lo hi : ℕ) (ts : List (Ticket K)) (a : ℕ) (v : S)
        → Within lo hi ts
        → a < lo
        → count p (update cells a v) ts ≡ count p cells ts
    count-update_below lo hi [] a v h l = refl
    count-update_below lo hi (t ∷ ts) a v h l =
        ground (arith, count-update_below (suc t.cell) hi ts a v)

    -- Selecting the first pending ticket moves its count from the old value to the new one.
    pub count-select :
        (on : S → Bool) (lo hi : ℕ) (ts : List (Ticket K)) (t : Ticket K) (rest : List (Ticket K))
        (v : S)
        → Within lo hi ts
        → unselected on cells ts ≡ t ∷ rest
        → count p (update cells t.cell v) ts + bit (p t.kind (cells t.cell))
          ≡ count p cells ts + bit (p t.kind v)
    count-select on lo hi [] t rest v h e = absurd (cc)
    count-select on lo hi (x ∷ ts) t rest v h e = elim (Bool-cases (on (cells x.cell))) [
      | inl chosen ↦ ground (
        arith,
        count-select on (suc x.cell) hi ts t rest v,
        unselected_lower on cells (suc x.cell) hi ts t rest,
      )
      | inr waiting ↦ ground (arith, count-update_below (suc x.cell) hi ts t.cell v)
    ]
