-- ===== src/Sync/RwLock/Release.antt =====
-- `release_to_next_waiters`: whom it admits, and that it keeps the invariant.
use mathlib.Core.Path.{subst}
use native.Mathlib.Nat.{le_refl}
use runite.Prelude.{
  ℕ, suc, ◌+◌, ◌-◌, ◌==◌, ◌≤◌, ◌<◌, ◌≡◌, refl, sym, ◌∙◌, ◌⊎◌, inl, inr, List, [], ◌∷◌, ◌++◌, true,
  false, arith, Bool-cases, ltb, ◌||◌,
}
use runite.Sync.Waiters.{Waiter, ticket, tickets, select, wake_all_lem}
use runite.Sync.Waiters.Pending.{unselected-select, unselected_lower, count-select}
use runite.Sync.RwLock.{
  WaiterKind, is_read, admit_readers, admit_writer, admit, fire, release_to_next_waiters,
  release_reader, release_writer,
}
use runite.Sync.RwLock.Users.{System}
use runite.Sync.RwLock.Inv.{Core, Inv, chosen, admitted_reader, admitted_writer}

module _ (s : System) (w : Waiter WaiterKind) (ws : List (Waiter WaiterKind)) where
  admit_reader-Core :
      is_read w.kind ≡ true
      → Core (w ∷ ws) s
      → Core ws (record s {
        lock = record s.lock {
          readers = s.lock.readers + 1;
          heap = select w.selected true s.lock.heap;
        };
      })
  unfolding select
  admit_reader-Core e c = record {
    queue = sym (
        unselected-select chosen s.lock.cells 0 s.lock.next_cell s.live (ticket w) (tickets ws) true
          c.within (sym c.queue) refl);
    within = c.within;
    ids = c.ids;
    reads = ground (
      arith,
      c.reads,
      count-select admitted_reader s.lock.cells chosen 0 s.lock.next_cell s.live (ticket w)
          (tickets ws) true c.within (sym c.queue),
      unselected_lower chosen s.lock.cells 0 s.lock.next_cell s.live (ticket w) (tickets ws)
          c.within (sym c.queue),
    );
    writes = ground (
      arith,
      c.writes,
      count-select admitted_writer s.lock.cells chosen 0 s.lock.next_cell s.live (ticket w)
          (tickets ws) true c.within (sym c.queue),
    );
  }

  admit_writer-Core :
      is_read w.kind ≡ false
      → s.lock.writer ≡ false
      → Core (w ∷ ws) s
      → Core ws (record s { lock = (admit_writer w ws s.lock).0 })
  unfolding admit_writer
  admit_writer-Core e free c = record {
    queue = sym (
        unselected-select chosen s.lock.cells 0 s.lock.next_cell s.live (ticket w) (tickets ws) true
          c.within (sym c.queue) refl);
    within = c.within;
    ids = c.ids;
    reads = ground (
      arith,
      c.reads,
      count-select admitted_reader s.lock.cells chosen 0 s.lock.next_cell s.live (ticket w)
          (tickets ws) true c.within (sym c.queue),
    );
    writes = ground (
      arith,
      c.writes,
      count-select admitted_writer s.lock.cells chosen 0 s.lock.next_cell s.live (ticket w)
          (tickets ws) true c.within (sym c.queue),
      unselected_lower chosen s.lock.cells 0 s.lock.next_cell s.live (ticket w) (tickets ws)
          c.within (sym c.queue),
    );
  }

-- The loop keeps the bookkeeping, leaves the writer flag and only adds readers.
admit_readers-Core :
    (ws : List (Waiter WaiterKind)) (s : System) (wakes : List ℕ)
    → Core ws s
    → let r = (admit_readers ws s.lock wakes).0 in
      Core r.waiters (record s { lock = r })
      × (r.writer ≡ s.lock.writer)
      × (s.lock.readers ≤ r.readers)
unfolding admit_readers
admit_readers-Core [] s wakes c = (
  record { queue = c.queue; within = c.within; ids = c.ids; reads = c.reads; writes = c.writes },
  refl,
  le_refl _,
)
admit_readers-Core (w ∷ ws) s wakes c = elim (Bool-cases (is_read w.kind)) [
  | inl e ↦
      let ih =
        admit_readers-Core ws
          (record s {
            lock = record s.lock {
              readers = s.lock.readers + 1;
              heap = select w.selected true s.lock.heap;
            };
          })
          (wakes ++ w.waker ∷ []) (admit_reader-Core s w ws e c) in
      rw e (ih.0, ih.1, omega (arith, ih.2))
  | inr e ↦ rw e (
    record { queue = c.queue; within = c.within; ids = c.ids; reads = c.reads; writes = c.writes },
    refl,
    le_refl _,
  )
]

-- At least the reader at the front is admitted.
admit_readers_grows :
    (w : Waiter WaiterKind) (ws : List (Waiter WaiterKind)) (s : System)
    → is_read w.kind ≡ true
    → Core (w ∷ ws) s
    → 0 < (admit_readers (w ∷ ws) s.lock []).0.readers
unfolding admit_readers
admit_readers_grows w ws s e c =
    let more =
      admit_readers-Core ws
        (record s {
          lock = record s.lock {
            readers = s.lock.readers + 1;
            heap = select w.selected true s.lock.heap;
          };
        })
        (w.waker ∷ []) (admit_reader-Core s w ws e c) in
    rw e (omega (arith, more.2))

fire-Core :
    (ws : List (Waiter WaiterKind)) (s : System) (wakes : List ℕ)
    → Core ws s
    → Core ws (record s { lock = fire (s.lock, wakes) })
unfolding fire
fire-Core ws s wakes c =
    let same = wake_all_lem wakes s.lock.heap in
    record {
      queue = rw same.0 c.queue;
      within = rw same.1 c.within;
      ids = rw same.1 c.ids;
      reads = rw same.0 c.reads;
      writes = rw same.0 c.writes;
    }

fire-Inv : (s : System) (wakes : List ℕ) → Inv s → Inv (record s { lock = fire (s.lock, wakes) })
unfolding fire
fire-Inv s wakes v = record {
  core = fire-Core s.lock.waiters s wakes v.core;
  exclusive = v.exclusive;
  no_idle = v.no_idle;
}

-- Who is admitted to a lock that is free.
admit-Inv :
    (ws : List (Waiter WaiterKind)) (s : System)
    → s.lock.writer ≡ false
    → s.lock.readers ≡ 0
    → s.lock.waiters ≡ ws
    → Core ws s
    → Inv (record s { lock = (admit ws s.lock).0 })
unfolding admit admit_writer
admit-Inv [] s free none_left e c = record {
  core = subst (λ l. Core l s) (sym e) c;
  exclusive = inl free;
  no_idle = inl e;
}
admit-Inv (w ∷ ws) s free none_left e c = elim (Bool-cases (is_read w.kind)) [
  | inl r ↦
      let all = admit_readers-Core (w ∷ ws) s [] c in
      rw r (record {
        core = all.0;
        exclusive = inl (all.1 ∙ free);
        no_idle = inr (inr (admit_readers_grows w ws s r c));
      })
  | inr r ↦ rw r (record {
    core = admit_writer-Core s w ws r free c;
    exclusive = inr none_left;
    no_idle = inr (inl refl);
  })
]

pub release_to_next-Inv :
    (s : System)
    → Core s.lock.waiters s
    → (s.lock.writer ≡ false) ⊎ (s.lock.readers ≡ 0)
    → Inv (record s { lock = release_to_next_waiters s.lock })
unfolding release_to_next_waiters
release_to_next-Inv s c excl = elim (Bool-cases (s.lock.writer || ltb 0 s.lock.readers)) [
  | inl busy ↦ rw busy (record { core = c; exclusive = excl; no_idle = inr (ground arith) })
  | inr free ↦ rw free (
      fire-Inv (record s { lock = (admit s.lock.waiters s.lock).0 }) (admit s.lock.waiters s.lock).1
        (admit-Inv s.lock.waiters s (ground arith) (ground arith) refl c))
]

pub release_reader-Inv :
    (s : System) (h : ℕ)
    → s.readers_held ≡ suc h
    → Inv s
    → Inv (record s { lock = release_reader s.lock; readers_held = h })
unfolding release_reader
release_reader-Inv s h e v =
    let one_less : Core s.lock.waiters
        (record s { lock = record s.lock { readers = s.lock.readers - 1 }; readers_held = h }) =
      record {
        queue = v.queue;
        within = v.within;
        ids = v.ids;
        reads = omega (arith, v.reads);
        writes = v.writes;
      } in
    elim (Bool-cases (s.lock.readers - 1 == 0)) [
      | inl last ↦ rw last (release_to_next-Inv _ one_less (inr (ground arith)))
      | inr more ↦ rw more (record {
        core = one_less;
        exclusive = ground (arith, v.exclusive, v.reads);
        no_idle = inr (inr (ground arith));
      })
    ]

pub release_writer-Inv :
    (s : System) (h : ℕ)
    → s.writers_held ≡ suc h
    → Inv s
    → Inv (record s { lock = release_writer s.lock; writers_held = h })
unfolding release_writer
release_writer-Inv s h e v =
    release_to_next-Inv (record s { lock = record s.lock { writer = false }; writers_held = h })
      (record {
        queue = v.queue;
        within = v.within;
        ids = v.ids;
        reads = v.reads;
        writes = ground (arith, v.writes);
      })
      (inl refl)
