-- ===== src/Sync/Mutex/Inv.antt =====
-- What holds of a mutex and its users between two steps.
use runite.Prelude.{
  ℕ, suc, ◌+◌, ◌<◌, ◌≡◌, ◌≢◌, refl, sym, ◌∙◌, ◌⊎◌, inl, inr, List, [], ◌∷◌, ◌++◌, Bool, true, false,
  arith, List-cases,
}
use runite.Sync.Waiters.{Ticket, Within, unselected, count, tickets, ticket, usize_mod}
use runite.Sync.Waiters.Pending.{
  bit, Within-snoc, Within-remove, unselected-select, unselected_lower, count-middle, count-select,
}
use runite.Sync.Waiters.Removal.{remove_id-nil, unselected-finish, unselected-cancel}
use runite.Sync.Waiters.Enqueue.{unselected-enqueue, count-enqueue}
use runite.Sync.Mutex.{
  Mutex, System, start, after_poll, release_to_next_waiter, remove_waiter, enqueue,
}

-- A waiter is selected when its cell is set.
abbrev pub chosen : Bool → Bool
chosen b = b

abbrev pub granted : Unit {0} → Bool → Bool
granted _ b = b

abbrev pub waiting_tickets : System → List (Ticket (Unit {0}))
waiting_tickets s = unselected chosen s.mutex.cells s.live

-- The futures that own the lock and have not picked it up.
abbrev pub handed : System → ℕ
handed s = count granted s.mutex.cells s.live

pub record Inv (s : System) : Type 0 where
  pub queue : tickets s.mutex.waiters ≡ waiting_tickets s
  pub within : Within 0 s.mutex.next_cell s.live
  pub ids : s.mutex.next_waiter_id ≡ s.mutex.next_cell
  pub total : s.held + handed s ≡ bit s.mutex.locked
  pub no_idle : (s.mutex.locked ≡ true) ⊎ (s.mutex.waiters ≡ [])

pub start-Inv : Inv start
unfolding start
start-Inv = record {
  queue = refl;
  within = omega arith;
  ids = refl;
  total = omega arith;
  no_idle = inr refl;
}

module _ (s : Mutex) (held : ℕ) where
  pub finish-Inv :
      (xs : List (Ticket (Unit {0}))) (t : Ticket (Unit {0})) (ys : List (Ticket (Unit {0})))
      → s.cells t.cell ≡ true
      → Inv (record { mutex = s; live = xs ++ t ∷ ys; held = held })
      → Inv (record { mutex = s; live = xs ++ ys; held = suc held })
  finish-Inv xs t ys o v = record {
    queue = v.queue ∙ unselected-finish chosen s.cells xs t ys o;
    within = Within-remove 0 s.next_cell xs t ys v.within;
    ids = v.ids;
    total = ground (arith, count-middle granted s.cells xs t ys);
    no_idle = v.no_idle;
  }

  pub cancel-Inv :
      (xs : List (Ticket (Unit {0}))) (t : Ticket (Unit {0})) (ys : List (Ticket (Unit {0})))
      → s.cells t.cell ≡ false
      → Inv (record { mutex = s; live = xs ++ t ∷ ys; held = held })
      → Inv (record { mutex = remove_waiter t.id s; live = xs ++ ys; held = held })
  unfolding remove_waiter
  cancel-Inv xs t ys o v = record {
    queue = unselected-cancel chosen s.cells s.waiters 0 s.next_cell xs t ys v.within o v.queue;
    within = Within-remove 0 s.next_cell xs t ys v.within;
    ids = v.ids;
    total = ground (arith, count-middle granted s.cells xs t ys);
    no_idle = elim v.no_idle [ inl p ↦ inl p | inr e ↦ inr (remove_id-nil t.id s.waiters e) ];
  }

  module _ (live : List (Ticket (Unit {0}))) where
    pub release-Inv :
        Inv (record { mutex = s; live = live; held = suc held })
        → Inv (record { mutex = release_to_next_waiter s; live = live; held = held })
    unfolding release_to_next_waiter
    release-Inv v = elim (List-cases s.waiters) [
      | inl e ↦
          rw (e, release_to_next_waiter)
            (record {
              queue = v.queue;
              within = v.within;
              ids = v.ids;
              total = ground arith;
              no_idle = inr e;
            })
      | inr (w, ws, e) ↦
          rw (e, release_to_next_waiter)
            (record {
              queue = sym (
                  unselected-select chosen s.cells 0 s.next_cell live (ticket w) (tickets ws) true
                    v.within (sym (rw e at v.queue)) refl);
              within = v.within;
              ids = v.ids;
              total = ground (
                arith,
                count-select granted s.cells chosen 0 s.next_cell live (ticket w) (tickets ws) true
                    v.within (sym (rw e at v.queue)),
                unselected_lower chosen s.cells 0 s.next_cell live (ticket w) (tickets ws) v.within
                    (sym (rw e at v.queue)),
              );
              no_idle = ground arith;
            })
    ]

    pub enqueue-Inv :
        (waker : ℕ)
        → s.next_waiter_id + 1 < usize_mod
        → (s.locked ≡ true) ⊎ (s.waiters ≢ [])
        → Inv (record { mutex = s; live = live; held = held })
        → Inv (after_poll live [] held (enqueue waker s))
    unfolding enqueue after_poll
    enqueue-Inv waker b full v = record {
      queue =
          unselected-enqueue chosen s.cells s.next_cell live s.waiters _ waker tt false v.within
            v.queue refl;
      within = Within-snoc 0 s.next_cell live _ tt v.within v.ids;
      ids = omega (arith, v.ids);
      total = omega (
        arith,
        v.total,
        count-enqueue granted s.cells s.next_cell live s.next_waiter_id tt false v.within refl,
      );
      no_idle = ground arith;
    }
