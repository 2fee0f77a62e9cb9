-- ===== src/Sync/Semaphore/Steps.antt =====
-- Every step of a semaphore's users keeps the invariant.
use mathlib.Core.Path.{subst}
use mathlib.Core.List.{append-nil}
use runite.Prelude.{
  ℕ, suc, ◌+◌, ◌-◌, ◌<◌, ◌≡◌, ◌∙◌, inl, inr, List, [], ◌∷◌, ◌++◌, arith, Bool-cases, is_empty→nil,
  is_empty→ne, ltb, is_empty, Reach, Reach-keeps,
}
use runite.Sync.Waiters.{Ticket, usize_mod, refresh}
use runite.Sync.Waiters.Removal.{tickets-refresh}
use runite.Sync.Semaphore.{
  Semaphore, System, Step, start, waiting, after_poll, after_try, poll, drop_future, drop_permit,
  try_acquire, first_poll, poll_again, cancel, give_back, try, poll_unregistered,
}
use runite.Sync.Semaphore.Inv.{Inv, start-Inv, finish-Inv, cancel-Inv, release-Inv, enqueue-Inv}

abbrev at : Semaphore → List (Ticket (Unit {0})) → ℕ → System
at sem live held = record { sem = sem; live = live; held = held }

take-Inv :
    (n : ℕ) (s : System)
    → s.sem.waiters ≡ []
    → 0 < s.sem.permits
    → Inv n s
    → Inv n (at (record s.sem { permits = s.sem.permits - 1 }) s.live (suc s.held))
take-Inv n s e h v = record {
  queue = v.queue;
  within = v.within;
  ids = v.ids;
  total = omega (arith, v.total);
  no_idle = inr e;
}

refresh-Inv :
    (n : ℕ) (s : System) (id waker : ℕ)
    → Inv n s
    → Inv n (record s { sem = record s.sem { waiters = refresh id waker s.sem.waiters } })
unfolding refresh
refresh-Inv n s id waker v = record {
  queue = tickets-refresh id waker s.sem.waiters ∙ v.queue;
  within = v.within;
  ids = v.ids;
  total = v.total;
  no_idle = elim v.no_idle [ inl p ↦ inl p | inr e ↦ inr (rw e) ];
}

first_poll-Inv :
    (n : ℕ) (s : System) (waker : ℕ)
    → s.sem.next_waiter_id + 1 < usize_mod
    → Inv n s
    → Inv n (after_poll s.live [] s.held (poll_unregistered waker s.sem))
unfolding after_poll poll_unregistered
first_poll-Inv n s waker b v = elim (Bool-cases (is_empty s.sem.waiters)) [
  | inl e ↦ elim (Bool-cases (ltb 0 s.sem.permits)) [
    | inl p ↦ rw (e, p, append-nil) (take-Inv n s (is_empty→nil s.sem.waiters e) (ground arith) v)
    | inr p ↦ rw (e, p) (enqueue-Inv n s.sem s.held s.live waker b (inl (ground arith)) v)
  ]
  | inr e ↦ rw e (enqueue-Inv n s.sem s.held s.live waker b (inr (is_empty→ne _ e)) v)
]

poll_again-Inv :
    (n : ℕ) (s : System) (waker : ℕ) (xs : List (Ticket (Unit {0}))) (t : Ticket (Unit {0}))
    (ys : List (Ticket (Unit {0})))
    → Inv n (record s { live = xs ++ t ∷ ys })
    → Inv n (after_poll xs ys s.held (poll waker s.sem (waiting t)))
unfolding after_poll poll drop_future
poll_again-Inv n s waker xs t ys v = elim (Bool-cases (s.sem.cells t.cell)) [
  | inl o ↦ rw o (finish-Inv n s.sem s.held xs t ys o v)
  | inr o ↦ rw o (refresh-Inv n (at s.sem (xs ++ t ∷ ys) s.held) t.id waker v)
]

cancel_future-Inv :
    (n : ℕ) (s : System) (xs : List (Ticket (Unit {0}))) (t : Ticket (Unit {0}))
    (ys : List (Ticket (Unit {0})))
    → Inv n (record s { live = xs ++ t ∷ ys })
    → Inv n (at (drop_future s.sem (waiting t)) (xs ++ ys) s.held)
unfolding drop_future
cancel_future-Inv n s xs t ys v = elim (Bool-cases (s.sem.cells t.cell)) [
  | inl o ↦ rw o (release-Inv n s.sem s.held (xs ++ ys) (finish-Inv n s.sem s.held xs t ys o v))
  | inr o ↦ rw o (cancel-Inv n s.sem s.held xs t ys o v)
]

try-Inv : (n : ℕ) (s : System) → Inv n s → Inv n (after_try s (try_acquire s.sem))
unfolding after_try try_acquire
try-Inv n s v = elim (Bool-cases (is_empty s.sem.waiters)) [
  | inl e ↦ elim (Bool-cases (ltb 0 s.sem.permits)) [
    | inl p ↦ rw (e, p) (take-Inv n s (is_empty→nil s.sem.waiters e) (ground arith) v)
    | inr p ↦ rw (e, p) v
  ]
  | inr e ↦ rw e v
]

-- Every step keeps the invariant.
pub Step-Inv : (n : ℕ) (s t : System) → Step s t → Inv n s → Inv n t
unfolding poll drop_permit
Step-Inv n s t (first_poll waker b) v = first_poll-Inv n s waker b v
Step-Inv n s t (poll_again waker xs t' ys e) v =
    poll_again-Inv n s waker xs t' ys (subst (λ l. Inv n (at s.sem l s.held)) e v)
Step-Inv n s t (cancel xs t' ys e) v =
    cancel_future-Inv n s xs t' ys (subst (λ l. Inv n (at s.sem l s.held)) e v)
Step-Inv n s t (give_back h e) v =
    release-Inv n s.sem h s.live (subst (λ k. Inv n (at s.sem s.live k)) e v)
Step-Inv n s t try v = try-Inv n s v

pub Reach-Inv : (n : ℕ) {s : System} → Reach Step (start n) s → Inv n s
Reach-Inv n r = Reach-keeps Step (Inv n) (Step-Inv n) (start-Inv n) r
