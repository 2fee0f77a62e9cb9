-- ===== src/Runtime/Scheduler/Ends.antt =====
-- What the end of an interval's callback does to the tables of the timers.
use runite.Runtime.Scheduler.Lives.{here_lem, running_interval}
use runite.Prelude.{
  ℕ, ◌≡◌, refl, sym, ap, ◌∙◌, inl, inr, Option, none, some, false, Bool-cases, Option-cases, ◌==◌,
  leb, if-true, if-false,
}
use runite.Runtime.Scheduler.{
  Scheduler, IntervalEntry, saturating_add, rearm, insert_timer, schedule_interval, interval_node,
  reschedule, end_interval, fail_interval,
}
use runite.Runtime.Scheduler.Queue.{TimerQueue, IsTimerQueue}
use runite.Runtime.Scheduler.Life.{
  Life, gone, interval_runs, end_life, next_life, node_of, queue_of, live_of, entry_of, is_unmade,
  turn_of, Shows,
}
use runite.Runtime.Scheduler.Moves.{
  Same, insert_others, insert_here, schedule_others, schedule_here,
}

module _ {Q : Type 0} {i : TimerQueue Q} (l : IsTimerQueue i) where
  -- The next turn is queued, or waits for its deadline.
  pub reschedule_others :
      (now id d : ℕ) (k : Option IntervalEntry) (s : Scheduler Q) (b : ℕ)
      → l.Valid s.timers
      → l.find s.timers id ≡ none
      → (b == id) ≡ false
      → Same l s (reschedule i now id d k s) b
  unfolding schedule_interval insert_timer rearm interval_node
  reschedule_others now id d none s b v free e = record {
    node = refl;
    queue = refl;
    live = refl;
    entry = refl;
    stack = refl;
    made = refl;
  }
  reschedule_others now id d (some k) s b v free e =
      elim (Bool-cases (leb (saturating_add d k.interval) now)) [
        | inl o ↦ rw o (record {
          node = refl;
          queue = schedule_others id (saturating_add d k.interval) b s.macrotasks e;
          live = refl;
          entry = refl;
          stack = refl;
          made = refl;
        })
        | inr o ↦ rw o (record {
          node = insert_others l _ s b v free e;
          queue = refl;
          live = refl;
          entry = refl;
          stack = refl;
          made = refl;
        })
      ]

  pub reschedule_here :
      (now id d : ℕ) (k : IntervalEntry) (s : Scheduler Q)
      → l.Valid s.timers
      → Shows l s id (interval_runs d (some k))
      → Shows l
          (reschedule i now id d (some k) (record s { running = none }))
          id
          (next_life now (saturating_add d k.interval) k)
  unfolding schedule_interval insert_timer rearm interval_node
  reschedule_here now id d k s v sh = elim (Bool-cases (leb (saturating_add d k.interval) now)) [
    | inl o ↦ rw o (record {
      node = sh.node;
      queue = schedule_here id (saturating_add d k.interval) s.macrotasks sh.queue;
      live = sh.live;
      entry = sh.entry;
      stack = refl;
      made = sh.made;
    })
    | inr o ↦ rw o (record {
      node = insert_here l _ (record s { running = none }) v sh.node;
      queue = sh.queue;
      live = sh.live;
      entry = sh.entry;
      stack = refl;
      made = sh.made;
    })
  ]

  pub stopped :
      (id d : ℕ) (s : Scheduler Q) (b : ℕ)
      → s.running ≡ some (id, d)
      → (b == id) ≡ false
      → none ≡ turn_of b s.running
  stopped id d s b r e = sym (ap (turn_of b) r ∙ if-false (b == id) _ _ e)

  pub end_others :
      (now id d : ℕ) (s : Scheduler Q) (b : ℕ)
      → l.Valid s.timers
      → l.find s.timers id ≡ none
      → s.running ≡ some (id, d)
      → (b == id) ≡ false
      → Same l s (end_interval i now id d s) b
  unfolding end_interval
  end_others now id d s b v free r e =
      let o : Same l (record s { running = none }) (end_interval i now id d s) b =
        reschedule_others now id d (s.live_intervals id) (record s { running = none }) b v free e in
      record {
        node = o.node;
        queue = o.queue;
        live = o.live;
        entry = o.entry;
        stack = o.stack ∙ stopped id d s b r e;
        made = o.made;
      }

  -- The life of the timer whose callback is on the stack.
  pub on_stack :
      (id d : ℕ) (s : Scheduler Q) (x : Life)
      → s.running ≡ some (id, d)
      → Shows l s id x
      → (k : Option IntervalEntry) × (x ≡ interval_runs d k)
  on_stack id d s x r sh =
      running_interval d x
        (sym (ap (turn_of id) r ∙ if-true (id == id) _ _ (here_lem id)) ∙ sh.stack)

  pub end_here :
      (now id d : ℕ) (s : Scheduler Q) (x : Life)
      → l.Valid s.timers
      → s.running ≡ some (id, d)
      → Shows l s id x
      → Shows l (end_interval i now id d s) id (end_life now x)
  unfolding end_interval
  end_here now id d s x v r sh =
      let (k, p) = on_stack id d s x r sh in
      elim (Option-cases k) [
        | inl n ↦
            let q : x ≡ interval_runs d none = p ∙ ap (interval_runs d) n in
            rw (q, sh.entry ∙ ap entry_of q)
              (record {
                node = sh.node ∙ ap (node_of id) q;
                queue = sh.queue ∙ ap (queue_of id) q;
                live = sh.live ∙ ap live_of q;
                entry = sh.entry ∙ ap entry_of q;
                stack = refl;
                made = sh.made ∙ ap is_unmade q;
              })
        | inr (e, n) ↦
            let q : x ≡ interval_runs d (some e) = p ∙ ap (interval_runs d) n in
            rw (q, sh.entry ∙ ap entry_of q) (reschedule_here now id d e s v (rw q at sh))
      ]

  pub fail_others :
      (id d : ℕ) (s : Scheduler Q) (b : ℕ)
      → l.Valid s.timers
      → s.running ≡ some (id, d)
      → (b == id) ≡ false
      → Same l s (fail_interval i id s) b
  unfolding fail_interval
  fail_others id d s b v r e = record {
    node = l.remove_takes_out id b s.timers v ∙ if-false (b == id) _ _ e;
    queue = refl;
    live = refl;
    entry = if-false (b == id) _ _ e;
    stack = stopped id d s b r e;
    made = refl;
  }

  pub fail_here :
      (id d : ℕ) (s : Scheduler Q) (x : Life)
      → l.Valid s.timers
      → s.running ≡ some (id, d)
      → Shows l s id x
      → Shows l (fail_interval i id s) id gone
  unfolding fail_interval
  fail_here id d s x v r sh =
      let (k, q) = on_stack id d s x r sh in
      record {
        node = l.remove_takes_out id id s.timers v ∙ if-true (id == id) _ _ (here_lem id);
        queue = sh.queue ∙ ap (queue_of id) q;
        live = sh.live ∙ ap live_of q;
        entry = if-true (id == id) _ _ (here_lem id);
        stack = refl;
        made = sh.made ∙ ap is_unmade q;
      }
