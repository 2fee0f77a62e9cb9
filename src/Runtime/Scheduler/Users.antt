-- ===== src/Runtime/Scheduler/Users.antt =====
-- The turns of a thread's loop that touch timers, and what callbacks and tasks do with them in between.
use runite.Prelude.{
  ℕ, ◌≤◌, ◌≡◌, List, [], ◌∷◌, ◌++◌, none, some, false, ◌==◌, if◌then◌else◌, update,
}
use runite.Runtime.Scheduler.{
  Scheduler, TimerHandle, Macrotask, run_timeout, run_interval, other, IntervalEntry, Called,
  nothing, timeout_callback, interval_callback, saturating_add, timeout, interval, cancel,
  dispatch_expired_timers, run_macrotask, end_interval, fail_interval,
}
use runite.Runtime.Scheduler.Queue.{TimerQueue}
use runite.Runtime.Scheduler.Life.{
  Life, unmade, gone, timeout_waits, interval_waits, interval_queued, clear_life, expire_life,
  run_life, end_life,
}

-- A call of the callback of a timer, the deadline that it was due at by its life, the one that the
-- scheduler had given to the turn, and the time of the call. The macrotask of a timeout has none, and
-- stands with that of its life.
pub record Run : Type 0 where
  pub id : ℕ
  pub deadline : ℕ
  pub scheduled : ℕ
  pub time : ℕ

-- The scheduler with the clock. Beside it stand the lives of all timers, which follow `Life` alone, and
-- the calls of callbacks so far, the latest first.
pub record System (Q : Type 0) : Type 0 where
  pub scheduler : Scheduler Q
  pub now : ℕ
  pub life : ℕ → Life
  pub runs : List Run

-- The deadline that a life goes by.
abbrev pub due_of : Life → ℕ
due_of unmade = 0
due_of gone = 0
due_of (timeout_waits d c) = d
due_of (Life.timeout_queued d c live) = d
due_of (interval_waits d e) = d
due_of (interval_queued d e) = d
due_of (Life.interval_runs d e) = d

-- The timer of a macrotask is moved on.
abbrev pub begin_life : Macrotask → (ℕ → Life) → ℕ → Life
begin_life (run_timeout id c) life = update life id (run_life (life id))
begin_life (run_interval id d) life = update life id (run_life (life id))
begin_life (other task) life = life

abbrev pub logged : Macrotask → Called → ℕ → (ℕ → Life) → List Run → List Run
logged m nothing now life runs = runs
logged (run_timeout id c) (timeout_callback d) now life runs =
    record { id = id; deadline = due_of (life id); scheduled = due_of (life id); time = now } ∷ runs
logged (run_interval id c) (timeout_callback d) now life runs = runs
logged (other task) (timeout_callback d) now life runs = runs
logged (run_timeout id c) (interval_callback d) now life runs = runs
logged (run_interval id scheduled) (interval_callback d) now life runs =
    record { id = id; deadline = due_of (life id); scheduled = scheduled; time = now } ∷ runs
logged (other task) (interval_callback d) now life runs = runs

abbrev pub interval_life : ℕ → ℕ → ℕ → Life
interval_life delay callback now =
    let e : IntervalEntry = record { callback = callback; interval = delay } in
    if delay == 0
    then interval_queued (saturating_add now 0) (some e)
    else interval_waits (saturating_add now delay) e

-- The system when a macrotask has begun.
abbrev pub begun : {Q : Type 0} → Macrotask → Scheduler Q × Called → System Q → System Q
begun m (t, called) s = record s {
  scheduler = t;
  life = begin_life m s.life;
  runs = logged m called s.now s.life s.runs;
}

module _ {Q : Type 0} (i : TimerQueue Q) where
  unfoldable pub start : ℕ → System Q
  start generation = record {
    scheduler = record {
      timers = i.new;
      live_timeouts = λ _. false;
      live_intervals = λ _. none;
      next_timer_id = 1;
      macrotasks = [];
      armed = i.peek_deadline i.new;
      generation = generation;
      running = none;
    };
    now = 0;
    life = λ b. if b == 0 then gone else unmade;
    runs = [];
  }

  abbrev pub after_cancel : TimerHandle → System Q → System Q
  after_cancel handle s = record s {
    scheduler = cancel i handle s.scheduler;
    life =
        if handle.generation == s.scheduler.generation
        then update s.life handle.id (clear_life (s.life handle.id))
        else s.life;
  }

  -- A macrotask begins once the callback of the one before has returned; in between, callbacks and tasks
  -- may set and clear timers.
  pub data Step (s : System Q) : System Q → Type 0 where
    sets_timeout :
        (delay callback : ℕ) (t : Scheduler Q) (handle : TimerHandle)
        → timeout i delay callback s.now s.scheduler ≡ some (t, handle)
        → Step s (record s {
          scheduler = t;
          life = update s.life handle.id (timeout_waits (saturating_add s.now delay) callback);
        })
    sets_interval :
        (delay callback : ℕ) (t : Scheduler Q) (handle : TimerHandle)
        → interval i delay callback s.now s.scheduler ≡ some (t, handle)
        → Step s (record s {
          scheduler = t;
          life = update s.life handle.id (interval_life delay callback s.now);
        })
    cancels : (handle : TimerHandle) → Step s (after_cancel handle s)
    dispatches :
        (t : Scheduler Q)
        → s.scheduler.running ≡ none
        → dispatch_expired_timers i s.now s.scheduler ≡ some t
        → Step s (record s { scheduler = t; life = λ b. expire_life s.now (s.life b) })
    begins :
        (m : Macrotask) (rest : List Macrotask)
        → s.scheduler.running ≡ none
        → s.scheduler.macrotasks ≡ m ∷ rest
        → Step s (begun m (run_macrotask m (record s.scheduler { macrotasks = rest })) s)
    ends :
        (id d : ℕ)
        → s.scheduler.running ≡ some (id, d)
        → Step s (record s {
          scheduler = end_interval i s.now id d s.scheduler;
          life = update s.life id (end_life s.now (s.life id));
        })
    fails :
        (id d : ℕ)
        → s.scheduler.running ≡ some (id, d)
        → Step s
            (record s { scheduler = fail_interval i id s.scheduler; life = update s.life id gone })
    queues :
        (task : ℕ)
        → Step s (record s {
          scheduler = record s.scheduler { macrotasks = s.scheduler.macrotasks ++ other task ∷ [] };
        })
    ticks : (now : ℕ) → s.now ≤ now → Step s (record s { now = now })
