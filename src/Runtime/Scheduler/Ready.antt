-- ===== src/Runtime/Scheduler/Ready.antt =====
-- The timer queue and the driver under each operation of the scheduler.
use runite.Runtime.Scheduler.Clears.{cleared_lem}
use runite.Prelude.{
  ℕ, ◌≡◌, refl, sym, ap, ◌∙◌, inl, inr, List, Option, none, some, Bool-cases, Option-cases, ◌==◌,
  leb,
}
use runite.Runtime.Scheduler.{
  Scheduler, Macrotask, run_timeout, run_interval, other, IntervalEntry, saturating_add, rearm,
  insert_timer, set_timeout, schedule_interval, interval_node, set_interval, cleared, reschedule,
  end_interval, fail_interval, run_macrotask,
}
use runite.Runtime.Scheduler.Queue.{TimerQueue, IsTimerQueue}

module _ {Q : Type 0} {i : TimerQueue Q} (l : IsTimerQueue i) where
  -- The queue is sound and the driver is armed for its earliest deadline.
  pub record Ready (s : Scheduler Q) : Type 0 where
    pub valid : l.Valid s.timers
    pub armed : s.armed ≡ i.peek_deadline s.timers

  pub timeout-Ready :
      (delay callback now : ℕ) (s : Scheduler Q)
      → Ready s
      → l.find s.timers s.next_timer_id ≡ none
      → Ready (set_timeout i delay callback now s)
  unfolding set_timeout insert_timer rearm
  timeout-Ready delay callback now s v free = record {
    valid = l.insert-Valid _ s.timers v.valid free;
    armed = refl;
  }

  pub interval-Ready :
      (delay callback now : ℕ) (s : Scheduler Q)
      → Ready s
      → l.find s.timers s.next_timer_id ≡ none
      → Ready (set_interval i delay callback now s)
  unfolding set_interval schedule_interval insert_timer rearm interval_node
  interval-Ready delay callback now s v free = elim (Bool-cases (delay == 0)) [
    | inl z ↦ rw z (record { valid = v.valid; armed = v.armed })
    | inr z ↦ rw z (record { valid = l.insert-Valid _ s.timers v.valid free; armed = refl })
  ]

  pub cleared-Ready :
      (id : ℕ) (s : Scheduler Q) → Ready s → Ready (cleared i id (i.remove id s.timers) s)
  cleared-Ready id s v = elim (Option-cases (i.remove id s.timers).1) [
    | inl e ↦
        let same =
          l.remove_absent id s.timers v.valid (sym (l.remove_answers id s.timers v.valid) ∙ e) in
        rw (cleared_lem l id (i.remove id s.timers) s, e)
          (record {
            valid = l.remove-Valid id s.timers v.valid;
            armed = v.armed ∙ ap i.peek_deadline (sym same);
          })
    | inr (n, e) ↦
        rw (cleared_lem l id (i.remove id s.timers) s, e)
          (record { valid = l.remove-Valid id s.timers v.valid; armed = refl })
  ]

  pub reschedule-Ready :
      (now id d : ℕ) (k : Option IntervalEntry) (s : Scheduler Q)
      → Ready s
      → l.find s.timers id ≡ none
      → Ready (reschedule i now id d k s)
  unfolding schedule_interval insert_timer rearm interval_node
  reschedule-Ready now id d none s v free = record { valid = v.valid; armed = v.armed }
  reschedule-Ready now id d (some k) s v free =
      elim (Bool-cases (leb (saturating_add d k.interval) now)) [
        | inl o ↦ rw o (record { valid = v.valid; armed = v.armed })
        | inr o ↦ rw o (record { valid = l.insert-Valid _ s.timers v.valid free; armed = refl })
      ]

  pub end-Ready :
      (now id d : ℕ) (s : Scheduler Q)
      → Ready s
      → l.find s.timers id ≡ none
      → Ready (end_interval i now id d s)
  unfolding end_interval
  end-Ready now id d s v free =
      reschedule-Ready now id d (s.live_intervals id) (record s { running = none })
        (record { valid = v.valid; armed = v.armed }) free

  pub fail-Ready :
      (id : ℕ) (s : Scheduler Q)
      → Ready s
      → l.find s.timers id ≡ none
      → Ready (fail_interval i id s)
  unfolding fail_interval
  fail-Ready id s v free = record {
    valid = l.remove-Valid id s.timers v.valid;
    armed = v.armed ∙ ap i.peek_deadline (sym (l.remove_absent id s.timers v.valid free));
  }

  pub begin-Ready :
      (m : Macrotask) (rest : List Macrotask) (s : Scheduler Q)
      → Ready s
      → Ready (run_macrotask m (record s { macrotasks = rest })).0
  begin-Ready (run_timeout id c) rest s v = record { valid = v.valid; armed = v.armed }
  begin-Ready (run_interval id d) rest s v = elim (Option-cases (s.live_intervals id)) [
    | inl n ↦ rw n (record { valid = v.valid; armed = v.armed })
    | inr (k, n) ↦ rw n (record { valid = v.valid; armed = v.armed })
  ]
  begin-Ready (other task) rest s v = record { valid = v.valid; armed = v.armed }
