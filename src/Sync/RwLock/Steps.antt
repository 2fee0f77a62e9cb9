-- ===== src/Sync/RwLock/Steps.antt =====
-- Every step of a lock's users keeps the invariant.
use mathlib.Core.Path.{subst}
use mathlib.Core.List.{append-nil}
use runite.Prelude.{
  ℕ, ◌+◌, ◌<◌, ◌≡◌, ◌≢◌, refl, ◌∙◌, ◌⊎◌, inl, inr, List, [], ◌∷◌, ◌++◌, true, false, not, ◌&&◌,
  ◌||◌, arith, Bool-cases, ltb, ◌==◌, is_empty, is_empty→ne, Reach, Reach-keeps,
}
use runite.Sync.Waiters.{Ticket, usize_mod, refresh}
use runite.Sync.Waiters.Pending.{Within-snoc}
use runite.Sync.Waiters.Enqueue.{unselected-enqueue, count-enqueue}
use runite.Sync.Waiters.Removal.{tickets-refresh, remove_id-nil}
use runite.Sync.RwLock.{
  WaiterKind, read, write, new_future, try_read, try_write, enqueue, poll_read, poll_write,
  drop_read_future, drop_write_future, remove_waiter,
}
use runite.Sync.RwLock.Users.{
  System, Step, start, waiting, poll, drop_future, hold, after_poll, after_try, first_poll,
  poll_again, cancel, drop_read_guard, drop_write_guard, try_to_read, try_to_write,
}
use runite.Sync.RwLock.Inv.{
  Core, Inv, start-Inv, chosen, admitted_reader, admitted_writer, finish-Core, cancel-Core,
}
use runite.Sync.RwLock.Release.{release_reader-Inv, release_writer-Inv}

finish-Inv :
    (s : System) (xs : List (Ticket WaiterKind)) (t : Ticket WaiterKind)
    (ys : List (Ticket WaiterKind))
    → s.lock.cells t.cell ≡ true
    → Inv (record s { live = xs ++ t ∷ ys })
    → Inv (hold t.kind (record s { live = xs ++ ys }))
finish-Inv s xs t ys o v = go t.kind (finish-Core xs t ys s.lock.waiters s o v.core)
  where
    go :
        (k : WaiterKind)
        → Core s.lock.waiters (hold k (record s { live = xs ++ ys }))
        → Inv (hold k (record s { live = xs ++ ys }))
    go read c = record { core = c; exclusive = v.exclusive; no_idle = v.no_idle }
    go write c = record { core = c; exclusive = v.exclusive; no_idle = v.no_idle }

cancel-Inv :
    (s : System) (xs : List (Ticket WaiterKind)) (t : Ticket WaiterKind)
    (ys : List (Ticket WaiterKind))
    → s.lock.cells t.cell ≡ false
    → Inv (record s { live = xs ++ t ∷ ys })
    → Inv (record s { lock = remove_waiter t.id s.lock; live = xs ++ ys })
unfolding remove_waiter
cancel-Inv s xs t ys o v = record {
  core = cancel-Core xs t ys s o v.core;
  exclusive = v.exclusive;
  no_idle = elim v.no_idle [
    | inl e ↦ inl (remove_id-nil t.id s.lock.waiters e)
    | inr busy ↦ inr busy
  ];
}

take_read-Inv :
    (s : System)
    → s.lock.writer ≡ false
    → Inv s
    → Inv (hold read (record s { lock = record s.lock { readers = s.lock.readers + 1 } }))
take_read-Inv s free v = record {
  core = record {
    queue = v.queue;
    within = v.within;
    ids = v.ids;
    reads = omega (arith, v.reads);
    writes = v.writes;
  };
  exclusive = inl free;
  no_idle = inr (inr (omega arith));
}

take_write-Inv :
    (s : System)
    → s.lock.writer ≡ false
    → s.lock.readers ≡ 0
    → Inv s
    → Inv (hold write (record s { lock = record s.lock { writer = true } }))
take_write-Inv s free none_left v = record {
  core = record {
    queue = v.queue;
    within = v.within;
    ids = v.ids;
    reads = v.reads;
    writes = ground (arith, v.writes);
  };
  exclusive = inr none_left;
  no_idle = inr (inl refl);
}

enqueue-Inv :
    (k held : WaiterKind) (s : System) (waker : ℕ)
    → s.lock.next_waiter_id + 1 < usize_mod
    → (s.lock.waiters ≢ []) ⊎ ((s.lock.writer ≡ true) ⊎ (0 < s.lock.readers))
    → Inv s
    → Inv (after_poll held s.live [] s (enqueue k waker s.lock))
unfolding enqueue after_poll
enqueue-Inv k held s waker b busy v = record {
  core = record {
    queue =
        unselected-enqueue chosen s.lock.cells s.lock.next_cell s.live s.lock.waiters _ waker k
          false v.within v.queue refl;
    within = Within-snoc 0 s.lock.next_cell s.live _ k v.within v.ids;
    ids = omega (arith, v.ids);
    reads = ground (
      arith,
      v.reads,
      count-enqueue admitted_reader s.lock.cells s.lock.next_cell s.live s.lock.next_waiter_id k
          false v.within,
    );
    writes = ground (
      arith,
      v.writes,
      count-enqueue admitted_writer s.lock.cells s.lock.next_cell s.live s.lock.next_waiter_id k
          false v.within,
    );
  };
  exclusive = v.exclusive;
  no_idle = ground (arith, v.no_idle);
}

first_poll-Inv :
    (k : WaiterKind) (s : System) (waker : ℕ)
    → s.lock.next_waiter_id + 1 < usize_mod
    → Inv s
    → Inv (after_poll k s.live [] s (poll k waker s.lock new_future))
unfolding after_poll poll_read poll_write drop_read_future drop_write_future
first_poll-Inv read s waker b v = elim (Bool-cases (not s.lock.writer && is_empty s.lock.waiters)) [
  | inl p ↦ rw (p, append-nil) (take_read-Inv s (ground arith) v)
  | inr p ↦ rw p (enqueue-Inv read read s waker b (ground (arith, is_empty→ne s.lock.waiters)) v)
]
first_poll-Inv write s waker b v =
    elim (Bool-cases (not s.lock.writer && (s.lock.readers == 0 && is_empty s.lock.waiters))) [
      | inl p ↦ rw (p, append-nil) (take_write-Inv s (ground arith) (ground arith) v)
      | inr p ↦
          rw p (enqueue-Inv write write s waker b (ground (arith, is_empty→ne s.lock.waiters)) v)
    ]

refresh-Inv :
    (s : System) (id waker : ℕ)
    → Inv s
    → Inv (record s { lock = record s.lock { waiters = refresh id waker s.lock.waiters } })
unfolding refresh
refresh-Inv s id waker v = record {
  core = record {
    queue = tickets-refresh id waker s.lock.waiters ∙ v.queue;
    within = v.within;
    ids = v.ids;
    reads = v.reads;
    writes = v.writes;
  };
  exclusive = v.exclusive;
  no_idle = elim v.no_idle [ inl e ↦ inl (rw e) | inr busy ↦ inr busy ];
}

poll_again-Inv :
    (k : WaiterKind) (s : System) (waker : ℕ) (xs : List (Ticket WaiterKind))
    (t : Ticket WaiterKind) (ys : List (Ticket WaiterKind))
    → t.kind ≡ k
    → Inv (record s { live = xs ++ t ∷ ys })
    → Inv (after_poll k xs ys s (poll k waker s.lock (waiting t)))
unfolding after_poll poll_read poll_write drop_read_future drop_write_future
poll_again-Inv read s waker xs t ys e v = elim (Bool-cases (s.lock.cells t.cell)) [
  | inl o ↦
      rw o (subst (λ k. Inv (hold k (record s { live = xs ++ ys }))) e (finish-Inv s xs t ys o v))
  | inr o ↦ rw o (refresh-Inv (record s { live = xs ++ t ∷ ys }) t.id waker v)
]
poll_again-Inv write s waker xs t ys e v = elim (Bool-cases (s.lock.cells t.cell)) [
  | inl o ↦
      rw o (subst (λ k. Inv (hold k (record s { live = xs ++ ys }))) e (finish-Inv s xs t ys o v))
  | inr o ↦ rw o (refresh-Inv (record s { live = xs ++ t ∷ ys }) t.id waker v)
]

cancel_future-Inv :
    (k : WaiterKind) (s : System) (xs : List (Ticket WaiterKind)) (t : Ticket WaiterKind)
    (ys : List (Ticket WaiterKind))
    → t.kind ≡ k
    → Inv (record s { live = xs ++ t ∷ ys })
    → Inv (record s { lock = drop_future k s.lock (waiting t); live = xs ++ ys })
unfolding drop_read_future drop_write_future
cancel_future-Inv read s xs t ys e v = elim (Bool-cases (s.lock.cells t.cell)) [
  | inl o ↦ rw o (
      release_reader-Inv _ s.readers_held refl
        (subst (λ k. Inv (hold k (record s { live = xs ++ ys }))) e (finish-Inv s xs t ys o v)))
  | inr o ↦ rw o (cancel-Inv s xs t ys o v)
]
cancel_future-Inv write s xs t ys e v = elim (Bool-cases (s.lock.cells t.cell)) [
  | inl o ↦ rw o (
      release_writer-Inv _ s.writers_held refl
        (subst (λ k. Inv (hold k (record s { live = xs ++ ys }))) e (finish-Inv s xs t ys o v)))
  | inr o ↦ rw o (cancel-Inv s xs t ys o v)
]

try_read-Inv : (s : System) → Inv s → Inv (after_try read s (try_read s.lock))
unfolding after_try try_read
try_read-Inv s v = elim (Bool-cases (s.lock.writer || not (is_empty s.lock.waiters))) [
  | inl p ↦ rw p v
  | inr p ↦ rw p (take_read-Inv s (ground arith) v)
]

try_write-Inv : (s : System) → Inv s → Inv (after_try write s (try_write s.lock))
unfolding after_try try_write
try_write-Inv s v =
    elim (Bool-cases (s.lock.writer || (ltb 0 s.lock.readers || not (is_empty s.lock.waiters)))) [
      | inl p ↦ rw p v
      | inr p ↦ rw p (take_write-Inv s (ground arith) (ground arith) v)
    ]

-- Every step keeps the invariant.
pub Step-Inv : (s t : System) → Step s t → Inv s → Inv t
Step-Inv s t (first_poll k waker b) v = first_poll-Inv k s waker b v
Step-Inv s t (poll_again waker xs t' ys e) v =
    poll_again-Inv t'.kind s waker xs t' ys refl (subst (λ l. Inv (record s { live = l })) e v)
Step-Inv s t (cancel xs t' ys e) v =
    cancel_future-Inv t'.kind s xs t' ys refl (subst (λ l. Inv (record s { live = l })) e v)
Step-Inv s t (drop_read_guard h e) v = release_reader-Inv s h e v
Step-Inv s t (drop_write_guard h e) v = release_writer-Inv s h e v
Step-Inv s t try_to_read v = try_read-Inv s v
Step-Inv s t try_to_write v = try_write-Inv s v

pub Reach-Inv : {s : System} → Reach Step start s → Inv s
Reach-Inv r = Reach-keeps Step Inv Step-Inv start-Inv r
