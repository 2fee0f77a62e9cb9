-- ===== src/Runtime/Scheduler/Inv.antt =====
-- What holds of the scheduler and the lives of its timers between two steps, and that every step keeps it.
use runite.Runtime.Scheduler.Lives.{here_lem}
use mathlib.Core.List.{Memᴰ}
use mathlib.Core.List.Memᴰ.{head, tail}
use runite.Prelude.{
  ℕ, ◌≤◌, ◌≡◌, refl, inl, inr, List, ◌∷◌, some, true, false, Bool-cases, arith, ◌==◌, update,
}
use runite.Runtime.Scheduler.{
  Scheduler, Macrotask, run_timeout, run_interval, other, Called, nothing, timeout_callback,
  interval_callback,
}
use runite.Runtime.Scheduler.Queue.{TimerQueue, IsTimerQueue}
use runite.Runtime.Scheduler.Life.{
  queue_of, has_id, Life, unmade, gone, timeout_waits, timeout_queued, interval_waits,
  interval_queued, interval_runs, Shows,
}
use runite.Runtime.Scheduler.Users.{System, Run, start, logged, due_of}
use runite.Runtime.Scheduler.Timely.{Timely}
use runite.Runtime.Scheduler.Ready.{Ready}
use runite.Runtime.Scheduler.Moves.{Same, focus, Same-Shows}

pub some_same : {A : Type 0} {a b : A} → some a ≡ some b → a ≡ b
some_same e = cc

-- The macrotask of a timer was queued when the timer was due.
pub macrotask_was_due :
    (now b : ℕ) (m : Macrotask) (x : Life)
    → Timely now x
    → (r : List Macrotask) → m ∷ r ≡ queue_of b x
    → due_of x ≤ now
macrotask_was_due now b m unmade v r e = omega arith
macrotask_was_due now b m gone v r e = omega arith
macrotask_was_due now b m (timeout_waits d c) v r e = absurd (cc)
macrotask_was_due now b m (timeout_queued d c live) v r e = v
macrotask_was_due now b m (interval_waits d k) v r e = absurd (cc)
macrotask_was_due now b m (interval_queued d k) v r e = v
macrotask_was_due now b m (interval_runs d k) v r e = absurd (cc)

-- A callback that is called is due.
pub begun-punctual :
    (m : Macrotask) (called : Called) (now : ℕ) (life : ℕ → Life) (runs : List Run)
    → ((id : ℕ) → has_id id m ≡ true → due_of (life id) ≤ now)
    → ((r : Run) → Memᴰ r runs → r.deadline ≤ r.time)
    → (r : Run) → Memᴰ r (logged m called now life runs)
    → r.deadline ≤ r.time
begun-punctual m nothing now life runs due old r k = old r k
begun-punctual (run_timeout id c) (timeout_callback d) now life runs due old r (head e) =
    rw e (due id (here_lem id))
begun-punctual (run_timeout id c) (timeout_callback d) now life runs due old r (tail k) = old r k
begun-punctual (run_interval id c) (timeout_callback d) now life runs due old r k = old r k
begun-punctual (other task) (timeout_callback d) now life runs due old r k = old r k
begun-punctual (run_timeout id c) (interval_callback d) now life runs due old r k = old r k
begun-punctual (run_interval id c) (interval_callback d) now life runs due old r (head e) =
    rw e (due id (here_lem id))
begun-punctual (run_interval id c) (interval_callback d) now life runs due old r (tail k) = old r k
begun-punctual (other task) (interval_callback d) now life runs due old r k = old r k

-- The turns of intervals have the deadlines of their lives.
pub begun_agrees :
    (m : Macrotask) (called : Called) (now : ℕ) (life : ℕ → Life) (runs : List Run)
    → ((id d : ℕ) → m ≡ run_interval id d → d ≡ due_of (life id))
    → ((r : Run) → Memᴰ r runs → r.scheduled ≡ r.deadline)
    → (r : Run) → Memᴰ r (logged m called now life runs)
    → r.scheduled ≡ r.deadline
begun_agrees m nothing now life runs same old r k = old r k
begun_agrees (run_timeout id c) (timeout_callback d) now life runs same old r (head e) = rw e refl
begun_agrees (run_timeout id c) (timeout_callback d) now life runs same old r (tail k) = old r k
begun_agrees (run_interval id c) (timeout_callback d) now life runs same old r k = old r k
begun_agrees (other task) (timeout_callback d) now life runs same old r k = old r k
begun_agrees (run_timeout id c) (interval_callback d) now life runs same old r k = old r k
begun_agrees (run_interval id c) (interval_callback d) now life runs same old r (head e) =
    rw e (same id c refl)
begun_agrees (run_interval id c) (interval_callback d) now life runs same old r (tail k) = old r k
begun_agrees (other task) (interval_callback d) now life runs same old r k = old r k

module _ {Q : Type 0} {i : TimerQueue Q} (l : IsTimerQueue i) where
  pub record Inv (s : System Q) : Type 0 where
    pub ready : Ready l s.scheduler
    pub shows : (b : ℕ) → Shows l s.scheduler b (s.life b)
    pub timely : (b : ℕ) → Timely s.now (s.life b)
    pub punctual : (r : Run) → Memᴰ r s.runs → r.deadline ≤ r.time
    pub agrees : (r : Run) → Memᴰ r s.runs → r.scheduled ≡ r.deadline

  pub start-Inv : (generation : ℕ) → Inv (start i generation)
  unfolding start
  start-Inv generation = record {
    ready = record { valid = l.new-Valid; armed = refl };
    shows = λ b. elim (Bool-cases (b == 0)) [
      | inl e ↦ rw e (record {
        node = l.new_empty b;
        queue = refl;
        live = refl;
        entry = refl;
        stack = refl;
        made = ground arith;
      })
      | inr e ↦ rw e (record {
        node = l.new_empty b;
        queue = refl;
        live = refl;
        entry = refl;
        stack = refl;
        made = ground arith;
      })
    ];
    timely = λ b. elim (Bool-cases (b == 0)) [ inl e ↦ rw e tt | inr e ↦ rw e tt ];
    punctual = λ r m. elim m [ ];
    agrees = λ r m. elim m [ ];
  }

  pub step_focus :
      (s : System Q) (id : ℕ) (t : Scheduler Q) (new : Life)
      → Inv s
      → Ready l t
      → Shows l t id new
      → Timely s.now new
      → ((b : ℕ) → (b == id) ≡ false → Same l s.scheduler t b)
      → Inv (record s { scheduler = t; life = update s.life id new })
  step_focus s id t new v r here timely same = record {
    ready = r;
    shows =
        focus (Shows l t) s.life id new here
          (λ b k. Same-Shows l s.scheduler t b (s.life b) (same b k) (v.shows b));
    timely = focus (λ b x. Timely s.now x) s.life id new timely (λ b k. v.timely b);
    punctual = v.punctual;
    agrees = v.agrees;
  }
