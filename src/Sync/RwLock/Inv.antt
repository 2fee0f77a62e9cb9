-- ===== src/Sync/RwLock/Inv.antt =====
-- What holds of a lock and its users between two steps.
use runite.Prelude.{
  ℕ, ◌+◌, ◌<◌, ◌≡◌, refl, ◌∙◌, ◌⊎◌, inl, List, [], ◌∷◌, ◌++◌, Bool, true, false, not, ◌&&◌, arith,
}
use runite.Sync.Waiters.{Waiter, Ticket, Within, unselected, count, tickets}
use runite.Sync.Waiters.Pending.{bit, Within-remove, count-middle}
use runite.Sync.Waiters.Removal.{unselected-finish, unselected-cancel}
use runite.Sync.RwLock.{WaiterKind, read, write, is_read, remove_waiter}
use runite.Sync.RwLock.Users.{System, start, hold}

abbrev pub chosen : Bool → Bool
chosen b = b

-- A reader, or a writer, that was admitted.
abbrev pub admitted_reader : WaiterKind → Bool → Bool
admitted_reader k b = is_read k && b

abbrev pub admitted_writer : WaiterKind → Bool → Bool
admitted_writer k b = not (is_read k) && b

abbrev pub waiting_tickets : System → List (Ticket WaiterKind)
waiting_tickets s = unselected chosen s.lock.cells s.live

-- The futures that own a share, or the lock, and have not picked it up.
abbrev pub admitted_readers : System → ℕ
admitted_readers s = count admitted_reader s.lock.cells s.live

abbrev pub admitted_writers : System → ℕ
admitted_writers s = count admitted_writer s.lock.cells s.live

-- The part that holds also while `release_to_next_waiters` takes waiters off the queue.
pub record Core (ws : List (Waiter WaiterKind)) (s : System) : Type 0 where
  pub queue : tickets ws ≡ waiting_tickets s
  pub within : Within 0 s.lock.next_cell s.live
  pub ids : s.lock.next_waiter_id ≡ s.lock.next_cell
  pub reads : s.lock.readers ≡ s.readers_held + admitted_readers s
  pub writes : bit s.lock.writer ≡ s.writers_held + admitted_writers s

pub record Inv (s : System) : Type 0 where
  pub core : Core s.lock.waiters s
  pub open core use *
  pub exclusive : (s.lock.writer ≡ false) ⊎ (s.lock.readers ≡ 0)
  pub no_idle : (s.lock.waiters ≡ []) ⊎ ((s.lock.writer ≡ true) ⊎ (0 < s.lock.readers))

pub start-Inv : Inv start
unfolding start
start-Inv = record {
  core = record {
    queue = refl;
    within = omega arith;
    ids = refl;
    reads = omega arith;
    writes = omega arith;
  };
  exclusive = inl refl;
  no_idle = inl refl;
}

module _ (xs : List (Ticket WaiterKind)) (t : Ticket WaiterKind)
    (ys : List (Ticket WaiterKind)) where
  finish_as-Core :
      (k : WaiterKind) (ws : List (Waiter WaiterKind)) (s : System)
      → t.kind ≡ k
      → s.lock.cells t.cell ≡ true
      → Core ws (record s { live = xs ++ t ∷ ys })
      → Core ws (hold k (record s { live = xs ++ ys }))
  finish_as-Core read ws s e o c = record {
    queue = c.queue ∙ unselected-finish chosen s.lock.cells xs t ys o;
    within = Within-remove 0 s.lock.next_cell xs t ys c.within;
    ids = c.ids;
    reads = ground (arith, count-middle admitted_reader s.lock.cells xs t ys);
    writes = ground (arith, count-middle admitted_writer s.lock.cells xs t ys);
  }
  finish_as-Core write ws s e o c = record {
    queue = c.queue ∙ unselected-finish chosen s.lock.cells xs t ys o;
    within = Within-remove 0 s.lock.next_cell xs t ys c.within;
    ids = c.ids;
    reads = ground (arith, count-middle admitted_reader s.lock.cells xs t ys);
    writes = ground (arith, count-middle admitted_writer s.lock.cells xs t ys);
  }

  -- A future that picks its share up.
  pub finish-Core :
      (ws : List (Waiter WaiterKind)) (s : System)
      → s.lock.cells t.cell ≡ true
      → Core ws (record s { live = xs ++ t ∷ ys })
      → Core ws (hold t.kind (record s { live = xs ++ ys }))
  finish-Core ws s o c = finish_as-Core t.kind ws s refl o c

  pub cancel-Core :
      (s : System)
      → s.lock.cells t.cell ≡ false
      → Core s.lock.waiters (record s { live = xs ++ t ∷ ys })
      → Core
          (remove_waiter t.id s.lock).waiters
          (record s { lock = remove_waiter t.id s.lock; live = xs ++ ys })
  unfolding remove_waiter
  cancel-Core s o c = record {
    queue =
        unselected-cancel chosen s.lock.cells s.lock.waiters 0 s.lock.next_cell xs t ys c.within o
          c.queue;
    within = Within-remove 0 s.lock.next_cell xs t ys c.within;
    ids = c.ids;
    reads = ground (arith, count-middle admitted_reader s.lock.cells xs t ys);
    writes = ground (arith, count-middle admitted_writer s.lock.cells xs t ys);
  }
