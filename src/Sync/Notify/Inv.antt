-- ===== src/Sync/Notify/Inv.antt =====
-- What holds of a `Notify` and its users between two steps, and that every step keeps it.
use runite.Prelude.{
  ℕ, suc, ◌+◌, ◌≡◌, refl, sym, ◌⊎◌, inl, inr, List, [], ◌∷◌, Bool, false, arith, List-cases,
}
use runite.Sync.Waiters.{Ticket, Within, unselected, count, ticket, tickets}
use runite.Sync.Waiters.Pending.{bit, unselected-select, unselected_lower, count-select}
use runite.Sync.Notify.{Selection, one, is_selected, notify_one}
use runite.Sync.Notify.Users.{System, start, merges, is_one}

abbrev pub given_one : Unit {0} → Selection → Bool
given_one _ b = is_one b

abbrev pub waiting_tickets : System → List (Ticket (Unit {0}))
waiting_tickets s = unselected is_selected s.notify.cells s.live

-- The futures that own a notification of `notify_one` and have not picked it up.
abbrev pub given : System → ℕ
given s = count given_one s.notify.cells s.live

pub record Inv (s : System) : Type 0 where
  pub queue : tickets s.notify.queue ≡ waiting_tickets s
  pub within : Within 0 s.notify.next_cell s.live
  pub ids : s.notify.next_waiter_id ≡ s.notify.next_cell
  pub accounted : s.issued ≡ s.consumed + s.merged + bit s.notify.permit + given s
  pub no_idle : (s.notify.permit ≡ false) ⊎ (s.notify.queue ≡ [])

pub start-Inv : Inv start
unfolding start
start-Inv = record {
  queue = refl;
  within = omega arith;
  ids = refl;
  accounted = refl;
  no_idle = inl refl;
}

-- One more notification is owed, and `notify_one` makes it.
pub notify_one-Inv :
    (s : System)
    → Inv s
    → Inv (record s {
      notify = notify_one s.notify;
      issued = suc s.issued;
      merged = bit (merges s.notify) + s.merged;
    })
unfolding notify_one
notify_one-Inv s v = elim (List-cases s.notify.queue) [
  | inl e ↦
      rw (e, notify_one)
        (record {
          queue = v.queue;
          within = v.within;
          ids = v.ids;
          accounted = ground (arith, v.accounted);
          no_idle = inr e;
        })
  | inr (w, ws, e) ↦
      let front : ticket w ∷ tickets ws ≡ waiting_tickets s = rw e at v.queue in
      rw (e, notify_one)
        (record {
          queue = sym (
              unselected-select is_selected s.notify.cells 0 s.notify.next_cell s.live (ticket w)
                (tickets ws) one v.within (sym front) refl);
          within = v.within;
          ids = v.ids;
          accounted = ground (
            arith,
            v.accounted,
            count-select given_one s.notify.cells is_selected 0 s.notify.next_cell s.live (ticket w)
                (tickets ws) one v.within (sym front),
            unselected_lower is_selected s.notify.cells 0 s.notify.next_cell s.live (ticket w)
                (tickets ws) v.within (sym front),
          );
          no_idle = ground (arith, v.no_idle);
        })
]
