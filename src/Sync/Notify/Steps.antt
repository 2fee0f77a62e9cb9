-- ===== src/Sync/Notify/Steps.antt =====
-- Every step of the users of a `Notify` keeps the invariant.
use mathlib.Core.Path.{subst}
use mathlib.Core.List.{append-nil}
use runite.Prelude.{
  ℕ, suc, ◌+◌, ◌<◌, ◌≡◌, refl, sym, ◌∙◌, inl, inr, List, [], ◌∷◌, ◌++◌, map, true, false, ◌&&◌,
  arith, Bool-cases, Reach, Reach-keeps,
}
use runite.Sync.Waiters.{
  Waiter, Ticket, Heap, Within, unselected, count, ticket, tickets, pending, usize_mod, select,
  refresh, wake_all_lem,
}
use runite.Sync.Waiters.Pending.{
  bit, Within-snoc, Within-remove, count-middle, unselected-select, unselected_lower, count-select,
}
use runite.Sync.Waiters.Enqueue.{unselected-enqueue, count-enqueue}
use runite.Sync.Waiters.Removal.{
  tickets-refresh, remove_id-nil, unselected-finish, unselected-cancel,
}
use runite.Sync.Notify.{
  Notify, Selection, unnotified, one, waiters, is_selected, new_future, notify_waiters, select_all,
  poll, enqueue, forward, drop_future, remove_waiter,
}
use runite.Sync.Notify.Users.{
  System, Step, start, waiting, merges, after_poll, is_ready, is_one, notify_once, notify_all,
  first_poll, poll_again, cancel,
}
use runite.Sync.Notify.Inv.{Inv, start-Inv, notify_one-Inv, given_one}

-- The first loop of `notify_waiters` leaves nobody unselected and gives no notification of
-- `notify_one`.
pub select_all_lem :
    (ws : List (Waiter (Unit {0}))) (h : Heap Selection) (live : List (Ticket (Unit {0})))
    → Within 0 h.next_cell live
    → tickets ws ≡ unselected is_selected h.cells live
    → (unselected is_selected (select_all ws h).cells live ≡ [])
      × ((select_all ws h).next_cell ≡ h.next_cell)
      × ((select_all ws h).woken ≡ h.woken)
      × (count given_one (select_all ws h).cells live ≡ count given_one h.cells live)
unfolding select_all
select_all_lem [] h live within e = (sym e, refl, refl, refl)
select_all_lem (w ∷ ws) h live within e =
    let rest = select_all_lem ws (select w.selected waiters h) live within (
      sym (
        unselected-select is_selected h.cells 0 h.next_cell live (ticket w) (tickets ws) waiters
          within (sym e) refl)) in
    let old =
      unselected_lower is_selected h.cells 0 h.next_cell live (ticket w) (tickets ws) within
        (sym e) in
    let counts =
      count-select given_one h.cells is_selected 0 h.next_cell live (ticket w) (tickets ws) waiters
        within (sym e) in
    (rest.0, rest.1, rest.2, rest.3 ∙ ground (arith, old, counts))

notify_waiters-Inv : (s : System) → Inv s → Inv (record s { notify = notify_waiters s.notify })
unfolding notify_waiters
notify_waiters-Inv s v =
    let all = select_all_lem s.notify.queue s.notify.heap s.live v.within v.queue in
    let same =
      wake_all_lem (map (λ (w : Waiter (Unit {0})). w.waker) s.notify.queue)
        (select_all s.notify.queue s.notify.heap) in
    record {
      queue = rw same.0 (sym all.0);
      within = rw (same.1, all.1) v.within;
      ids = rw (same.1, all.1) v.ids;
      accounted = rw (same.0, all.3) v.accounted;
      no_idle = inr refl;
    }

module _ (s : System) (xs : List (Ticket (Unit {0}))) (t : Ticket (Unit {0}))
    (ys : List (Ticket (Unit {0}))) where
  finish-Inv :
      is_selected (s.notify.cells t.cell) ≡ true
      → Inv (record s { live = xs ++ t ∷ ys })
      → Inv (record s {
        live = xs ++ ys;
        consumed = bit (is_one (s.notify.cells t.cell)) + s.consumed;
      })
  finish-Inv o v = record {
    queue = v.queue ∙ unselected-finish is_selected s.notify.cells xs t ys o;
    within = Within-remove 0 s.notify.next_cell xs t ys v.within;
    ids = v.ids;
    accounted = omega (arith, v.accounted, count-middle given_one s.notify.cells xs t ys);
    no_idle = v.no_idle;
  }

  remove-Inv :
      s.notify.cells t.cell ≡ unnotified
      → Inv (record s { live = xs ++ t ∷ ys })
      → Inv (record s { notify = remove_waiter t.id s.notify; live = xs ++ ys })
  unfolding remove_waiter
  remove-Inv o v = record {
    queue =
        unselected-cancel is_selected s.notify.cells s.notify.queue 0 s.notify.next_cell xs t ys
          v.within (rw o) v.queue;
    within = Within-remove 0 s.notify.next_cell xs t ys v.within;
    ids = v.ids;
    accounted = ground (arith, v.accounted, count-middle given_one s.notify.cells xs t ys);
    no_idle = elim v.no_idle [ inl p ↦ inl p | inr e ↦ inr (remove_id-nil t.id s.notify.queue e) ];
  }

-- A notification that is forwarded is neither issued nor consumed again.
forwarded-Inv :
    (s : System) → Inv (record s { issued = suc s.issued; consumed = suc s.consumed }) → Inv s
forwarded-Inv s v = record {
  queue = v.queue;
  within = v.within;
  ids = v.ids;
  accounted = omega (arith, v.accounted);
  no_idle = v.no_idle;
}

-- The counters may be written another way.
recount-Inv :
    (s : System) (consumed merged : ℕ)
    → s.consumed ≡ consumed
    → s.merged ≡ merged
    → Inv s
    → Inv (record s { consumed = consumed; merged = merged })
recount-Inv s consumed merged c m v = record {
  queue = v.queue;
  within = v.within;
  ids = v.ids;
  accounted = omega (arith, v.accounted);
  no_idle = v.no_idle;
}

cancel-Inv :
    (s : System) (xs : List (Ticket (Unit {0}))) (t : Ticket (Unit {0}))
    (ys : List (Ticket (Unit {0}))) (c : Selection)
    → s.notify.cells t.cell ≡ c
    → Inv (record s { live = xs ++ t ∷ ys })
    → Inv (record s {
      notify = forward c t s.notify;
      live = xs ++ ys;
      merged = bit (is_one c && merges s.notify) + s.merged;
    })
unfolding forward
cancel-Inv s xs t ys unnotified o v =
    recount-Inv _ _ _ refl (omega arith) (remove-Inv s xs t ys o v)
cancel-Inv s xs t ys one o v = forwarded-Inv _ (
    notify_one-Inv (record s { live = xs ++ ys; consumed = suc s.consumed })
      (recount-Inv _ _ _ (ground arith) refl (finish-Inv s xs t ys (rw o) v)))
cancel-Inv s xs t ys waiters o v =
    recount-Inv _ _ _ (ground arith) (omega arith) (finish-Inv s xs t ys (rw o) v)

enqueue-Inv :
    (s : System) (waker : ℕ)
    → s.notify.next_waiter_id + 1 < usize_mod
    → s.notify.permit ≡ false
    → Inv s
    → Inv (record (after_poll s.live [] s (enqueue waker s.notify)) { consumed = 0 + s.consumed })
unfolding enqueue after_poll
enqueue-Inv s waker b free v = record {
  queue =
      unselected-enqueue is_selected s.notify.cells s.notify.next_cell s.live s.notify.queue _ waker
        tt unnotified v.within v.queue refl;
  within = Within-snoc 0 s.notify.next_cell s.live _ tt v.within v.ids;
  ids = omega (arith, v.ids);
  accounted = omega (
    arith,
    v.accounted,
    count-enqueue given_one s.notify.cells s.notify.next_cell s.live s.notify.next_waiter_id tt
        unnotified v.within refl,
  );
  no_idle = inl free;
}

enqueue_waits : (waker : ℕ) (n : Notify) → (enqueue waker n).2 ≡ pending
unfolding enqueue
enqueue_waits waker n = refl

first_poll-Inv :
    (s : System) (waker : ℕ)
    → s.notify.next_waiter_id + 1 < usize_mod
    → Inv s
    → Inv (record (after_poll s.live [] s (poll waker s.notify new_future)) {
      consumed = bit (is_ready (poll waker s.notify new_future).2) + s.consumed;
    })
unfolding after_poll poll drop_future
first_poll-Inv s waker b v = elim (Bool-cases s.notify.permit) [
  | inl p ↦
      simp (p, append-nil)
        (record {
          queue = v.queue;
          within = v.within;
          ids = v.ids;
          accounted = ground (arith, v.accounted);
          no_idle = inl refl;
        })
  | inr p ↦ simp (p, enqueue_waits) (enqueue-Inv s waker b p v)
]

refresh-Inv :
    (s : System) (id waker : ℕ)
    → Inv s
    → Inv (record s { notify = record s.notify { queue = refresh id waker s.notify.queue } })
unfolding refresh
refresh-Inv s id waker v = record {
  queue = tickets-refresh id waker s.notify.queue ∙ v.queue;
  within = v.within;
  ids = v.ids;
  accounted = v.accounted;
  no_idle = elim v.no_idle [ inl p ↦ inl p | inr e ↦ inr (rw e) ];
}

poll_again-Inv :
    (s : System) (waker : ℕ) (xs : List (Ticket (Unit {0}))) (t : Ticket (Unit {0}))
    (ys : List (Ticket (Unit {0})))
    → Inv (record s { live = xs ++ t ∷ ys })
    → Inv (record (after_poll xs ys s (poll waker s.notify (waiting t))) {
      consumed =
          bit (is_ready (poll waker s.notify (waiting t)).2 && is_one (s.notify.cells t.cell))
          + s.consumed;
    })
unfolding after_poll poll drop_future
poll_again-Inv s waker xs t ys v = elim (Bool-cases (is_selected (s.notify.cells t.cell))) [
  | inl o ↦ rw o (finish-Inv s xs t ys o v)
  | inr o ↦ simp o (
      recount-Inv _ _ _ (ground arith) refl
        (refresh-Inv (record s { live = xs ++ t ∷ ys }) t.id waker v))
]

-- Every step keeps the invariant.
pub Step-Inv : (s t : System) → Step s t → Inv s → Inv t
unfolding drop_future
Step-Inv s t notify_once v = notify_one-Inv s v
Step-Inv s t notify_all v = notify_waiters-Inv s v
Step-Inv s t (first_poll waker b) v = first_poll-Inv s waker b v
Step-Inv s t (poll_again waker xs t' ys e) v =
    poll_again-Inv s waker xs t' ys (subst (λ l. Inv (record s { live = l })) e v)
Step-Inv s t (cancel xs t' ys e) v =
    cancel-Inv s xs t' ys (s.notify.cells t'.cell) refl
      (subst (λ l. Inv (record s { live = l })) e v)

pub Reach-Inv : {s : System} → Reach Step start s → Inv s
Reach-Inv r = Reach-keeps Step Inv Step-Inv start-Inv r
