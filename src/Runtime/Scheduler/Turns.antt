-- ===== src/Runtime/Scheduler/Turns.antt =====
-- What the turns of the loop do to the tables of the timers.
use runite.Runtime.Scheduler.Lives.{
  expire_node, expire_queue, expire_rest, queued_timeout, queued_interval, here_lem,
}
use runite.Prelude.{
  ℕ, ◌≡◌, refl, sym, ap, ◌∙◌, inl, inr, List, ◌∷◌, ◌++◌, Option, none, some, true, false,
  Option-cases, ◌==◌, if-true, if-false,
}
use runite.Runtime.Timer.{TimerNode}
use runite.Runtime.Timer.Due.{unexpired}
use runite.Runtime.Scheduler.{
  Scheduler, Macrotask, run_timeout, run_interval, other, rearm, macrotasks_of, dispatched,
  dispatch_expired_timers, run_macrotask,
}
use runite.Runtime.Scheduler.Queue.{TimerQueue, IsTimerQueue}
use runite.Runtime.Scheduler.Life.{
  Life, interval_queued, expire_life, run_life, node_of, queue_of, live_of, entry_of, stack_of,
  is_unmade, has_id, macrotasks_for, Shows,
}
use runite.Runtime.Scheduler.Tables.{macrotasks_for-append, expired, due-expired}
use runite.Runtime.Scheduler.Moves.{Same}

module _ {Q : Type 0} {i : TimerQueue Q} (l : IsTimerQueue i) where
  dispatched_lem :
      (p : Q × Option (List TimerNode)) (due : List TimerNode) (s : Scheduler Q)
      → p.1 ≡ some due
      → dispatched i p s
        ≡ some (record s {
          timers = p.0;
          macrotasks = s.macrotasks ++ macrotasks_of due;
          armed = i.peek_deadline p.0;
        })
  unfolding rearm
  dispatched_lem (timers, none) due s e = absurd (cc)
  dispatched_lem (timers, some d) due s e = cc

  -- A dispatch succeeds, and this is what it leaves.
  abbrev pub after_dispatch : ℕ → Scheduler Q → Scheduler Q
  after_dispatch now s = record s {
    timers = (i.pop_due now s.timers).0;
    macrotasks = s.macrotasks ++ macrotasks_of (l.due now s.timers);
    armed = i.peek_deadline (i.pop_due now s.timers).0;
  }

  pub dispatch_lem :
      (now : ℕ) (s : Scheduler Q)
      → l.Valid s.timers
      → dispatch_expired_timers i now s ≡ some (after_dispatch now s)
  unfolding dispatch_expired_timers
  dispatch_lem now s v =
      dispatched_lem (i.pop_due now s.timers) (l.due now s.timers) s
        (l.pop_due_answers now s.timers v)

  pub dispatch-Shows :
      (now : ℕ) (s : Scheduler Q) (b : ℕ) (x : Life)
      → l.Valid s.timers
      → Shows l s b x
      → Shows l (after_dispatch now s) b (expire_life now x)
  dispatch-Shows now s b x v sh =
      let (live, entry, stack, made) = expire_rest now x in
      record {
        node = l.pop_due_leaves now b s.timers v ∙ ap (unexpired now) sh.node ∙ expire_node now b x;
        queue =
            macrotasks_for-append b s.macrotasks (macrotasks_of (l.due now s.timers))
            ∙ ap (λ ms. ms ++ macrotasks_for b (macrotasks_of (l.due now s.timers))) sh.queue
            ∙ ap (λ ms. queue_of b x ++ ms)
                (due-expired l s.timers now b v ∙ ap (expired now) sh.node)
            ∙ expire_queue now b x;
        live = sh.live ∙ sym live;
        entry = sh.entry ∙ sym entry;
        stack = sh.stack ∙ sym stack;
        made = sh.made ∙ sym made;
      }

  -- A macrotask that begins.
  pub begin_others :
      (m : Macrotask) (rest : List Macrotask) (s : Scheduler Q) (b : ℕ)
      → s.macrotasks ≡ m ∷ rest
      → s.running ≡ none
      → has_id b m ≡ false
      → Same l s (run_macrotask m (record s { macrotasks = rest })).0 b
  begin_others (run_timeout id c) rest s b q idle e = record {
    node = refl;
    queue = rw (q, e) refl;
    live = if-false (b == id) _ _ e;
    entry = refl;
    stack = refl;
    made = refl;
  }
  begin_others (run_interval id d) rest s b q idle e = elim (Option-cases (s.live_intervals id)) [
    | inl n ↦ rw n (record {
      node = refl;
      queue = rw (q, e) refl;
      live = refl;
      entry = refl;
      stack = refl;
      made = refl;
    })
    | inr (k, n) ↦ rw n (record {
      node = refl;
      queue = rw (q, e) refl;
      live = refl;
      entry = refl;
      stack = rw (idle, e) refl;
      made = refl;
    })
  ]
  begin_others (other task) rest s b q idle e = record {
    node = refl;
    queue = rw q refl;
    live = refl;
    entry = refl;
    stack = refl;
    made = refl;
  }

  pub head_for :
      (b : ℕ) (m : Macrotask) (rest : List Macrotask) (s : Scheduler Q) (x : Life)
      → s.macrotasks ≡ m ∷ rest
      → has_id b m ≡ true
      → Shows l s b x
      → m ∷ macrotasks_for b rest ≡ queue_of b x
  head_for b m rest s x q e sh =
      sym (ap (macrotasks_for b) q ∙ if-true (has_id b m) _ _ e) ∙ sh.queue

  pub begin_timeout :
      (id c : ℕ) (rest : List Macrotask) (s : Scheduler Q) (x : Life)
      → s.macrotasks ≡ run_timeout id c ∷ rest
      → Shows l s id x
      → Shows l
          (run_macrotask (run_timeout id c) (record s { macrotasks = rest })).0
          id
          (run_life x)
  begin_timeout id c rest s x q sh =
      let (d, live, queued, empty) =
        queued_timeout id c (macrotasks_for id rest) x
          (head_for id (run_timeout id c) rest s x q (here_lem id) sh) in
      rw queued (record {
        node = sh.node ∙ ap (node_of id) queued;
        queue = empty;
        live = if-true (id == id) _ _ (here_lem id);
        entry = sh.entry ∙ ap entry_of queued;
        stack = sh.stack ∙ ap stack_of queued;
        made = sh.made ∙ ap is_unmade queued;
      })

  pub begin_interval-Shows :
      (id d : ℕ) (rest : List Macrotask) (s : Scheduler Q) (x : Life)
      → s.macrotasks ≡ run_interval id d ∷ rest
      → Shows l s id x
      → Shows l
          (run_macrotask (run_interval id d) (record s { macrotasks = rest })).0
          id
          (run_life x)
  begin_interval-Shows id d rest s x q sh =
      let (k, queued, empty) =
        queued_interval id d (macrotasks_for id rest) x
          (head_for id (run_interval id d) rest s x q (here_lem id) sh) in
      elim (Option-cases k) [
        | inl n ↦
            let p : x ≡ interval_queued d none = queued ∙ ap (interval_queued d) n in
            rw (p, sh.entry ∙ ap entry_of p)
              (record {
                node = sh.node ∙ ap (node_of id) p;
                queue = empty;
                live = sh.live ∙ ap live_of p;
                entry = sh.entry ∙ ap entry_of p;
                stack = sh.stack ∙ ap stack_of p;
                made = sh.made ∙ ap is_unmade p;
              })
        | inr (e, n) ↦
            let p : x ≡ interval_queued d (some e) = queued ∙ ap (interval_queued d) n in
            rw (p, sh.entry ∙ ap entry_of p)
              (record {
                node = sh.node ∙ ap (node_of id) p;
                queue = empty;
                live = sh.live ∙ ap live_of p;
                entry = sh.entry ∙ ap entry_of p;
                stack = if-true (id == id) _ _ (here_lem id);
                made = sh.made ∙ ap is_unmade p;
              })
      ]
