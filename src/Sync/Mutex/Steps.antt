-- ===== src/Sync/Mutex/Steps.antt =====
-- Every step of a mutex's users keeps the invariant.
use mathlib.Core.Path.{subst}
use mathlib.Core.List.{append-nil}
use runite.Prelude.{
  ℕ, suc, ◌+◌, ◌<◌, ◌≡◌, ◌∙◌, inl, inr, List, [], ◌∷◌, ◌++◌, true, false, arith, Bool-cases, not,
  ◌&&◌, ◌||◌, is_empty→nil, is_empty→ne, is_empty, Reach, Reach-keeps,
}
use runite.Sync.Waiters.{Ticket, usize_mod, refresh}
use runite.Sync.Waiters.Removal.{tickets-refresh}
use runite.Sync.Mutex.{
  Mutex, System, Step, start, waiting, after_poll, after_try, poll, drop_future, drop_guard,
  try_lock, first_poll, poll_again, cancel, give_back, try, poll_unregistered,
}
use runite.Sync.Mutex.Inv.{Inv, start-Inv, finish-Inv, cancel-Inv, release-Inv, enqueue-Inv}

abbrev at : Mutex → List (Ticket (Unit {0})) → ℕ → System
at sem live held = record { mutex = sem; live = live; held = held }

take-Inv :
    (s : System)
    → s.mutex.waiters ≡ []
    → s.mutex.locked ≡ false
    → Inv s
    → Inv (at (record s.mutex { locked = true }) s.live (suc s.held))
take-Inv s e h v = record {
  queue = v.queue;
  within = v.within;
  ids = v.ids;
  total = ground arith;
  no_idle = inr e;
}

refresh-Inv :
    (s : System) (id waker : ℕ)
    → Inv s
    → Inv (record s { mutex = record s.mutex { waiters = refresh id waker s.mutex.waiters } })
unfolding refresh
refresh-Inv s id waker v = record {
  queue = tickets-refresh id waker s.mutex.waiters ∙ v.queue;
  within = v.within;
  ids = v.ids;
  total = v.total;
  no_idle = elim v.no_idle [ inl p ↦ inl p | inr e ↦ inr (rw e) ];
}

first_poll-Inv :
    (s : System) (waker : ℕ)
    → s.mutex.next_waiter_id + 1 < usize_mod
    → Inv s
    → Inv (after_poll s.live [] s.held (poll_unregistered waker s.mutex))
unfolding after_poll poll_unregistered
first_poll-Inv s waker b v = elim (Bool-cases (not s.mutex.locked && is_empty s.mutex.waiters)) [
  | inl p ↦
      rw (p, append-nil) (take-Inv s (is_empty→nil s.mutex.waiters (ground arith)) (ground arith) v)
  | inr p ↦
      rw p
        (enqueue-Inv s.mutex s.held s.live waker b (ground (arith, is_empty→ne s.mutex.waiters)) v)
]

poll_again-Inv :
    (s : System) (waker : ℕ) (xs : List (Ticket (Unit {0}))) (t : Ticket (Unit {0}))
    (ys : List (Ticket (Unit {0})))
    → Inv (record s { live = xs ++ t ∷ ys })
    → Inv (after_poll xs ys s.held (poll waker s.mutex (waiting t)))
unfolding after_poll poll drop_future
poll_again-Inv s waker xs t ys v = elim (Bool-cases (s.mutex.cells t.cell)) [
  | inl o ↦ rw o (finish-Inv s.mutex s.held xs t ys o v)
  | inr o ↦ rw o (refresh-Inv (at s.mutex (xs ++ t ∷ ys) s.held) t.id waker v)
]

cancel_future-Inv :
    (s : System) (xs : List (Ticket (Unit {0}))) (t : Ticket (Unit {0}))
    (ys : List (Ticket (Unit {0})))
    → Inv (record s { live = xs ++ t ∷ ys })
    → Inv (at (drop_future s.mutex (waiting t)) (xs ++ ys) s.held)
unfolding drop_future
cancel_future-Inv s xs t ys v = elim (Bool-cases (s.mutex.cells t.cell)) [
  | inl o ↦ rw o (release-Inv s.mutex s.held (xs ++ ys) (finish-Inv s.mutex s.held xs t ys o v))
  | inr o ↦ rw o (cancel-Inv s.mutex s.held xs t ys o v)
]

try-Inv : (s : System) → Inv s → Inv (after_try s (try_lock s.mutex))
unfolding after_try try_lock
try-Inv s v = elim (Bool-cases (s.mutex.locked || not (is_empty s.mutex.waiters))) [
  | inl p ↦ rw p v
  | inr p ↦ rw p (take-Inv s (is_empty→nil s.mutex.waiters (ground arith)) (ground arith) v)
]

-- Every step keeps the invariant.
pub Step-Inv : (s t : System) → Step s t → Inv s → Inv t
unfolding poll drop_guard
Step-Inv s t (first_poll waker b) v = first_poll-Inv s waker b v
Step-Inv s t (poll_again waker xs t' ys e) v =
    poll_again-Inv s waker xs t' ys (subst (λ l. Inv (at s.mutex l s.held)) e v)
Step-Inv s t (cancel xs t' ys e) v =
    cancel_future-Inv s xs t' ys (subst (λ l. Inv (at s.mutex l s.held)) e v)
Step-Inv s t (give_back h e) v =
    release-Inv s.mutex h s.live (subst (λ k. Inv (at s.mutex s.live k)) e v)
Step-Inv s t try v = try-Inv s v

pub Reach-Inv : {s : System} → Reach Step (start) s → Inv s
Reach-Inv r = Reach-keeps Step Inv (Step-Inv) (start-Inv) r
