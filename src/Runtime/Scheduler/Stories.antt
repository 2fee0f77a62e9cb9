-- ===== src/Runtime/Scheduler/Stories.antt =====
-- The steps of a single timer, and that each step of the scheduler is one of them for every timer.
use runite.Runtime.Scheduler.Sets.{timeout_lem, interval_lem}
use runite.Runtime.Scheduler.Lives.{here_lem, queued_timeout, queued_interval}
use runite.Prelude.{
  ℕ, ◌≡◌, refl, ap, ◌∙◌, inl, inr, List, [], ◌∷◌, Option, none, some, true, false, Bool-cases,
  Option-cases, arith, ◌==◌, leb, if◌then◌else◌, if-true, if-false,
}
use runite.Runtime.Scheduler.{
  Macrotask, run_timeout, run_interval, other, IntervalEntry, saturating_add, run_macrotask, Called,
  nothing, timeout_callback, interval_callback,
}
use runite.Runtime.Scheduler.Queue.{TimerQueue, IsTimerQueue}
use runite.Runtime.Scheduler.Life.{
  Life, unmade, gone, timeout_waits, timeout_queued, interval_waits, interval_queued, interval_runs,
  clear_life, expire_life, run_life, end_life, live_of, entry_of, has_id, macrotasks_for,
}
use runite.Runtime.Scheduler.Users.{System, Run, Step, interval_life, logged, begun, due_of}
use runite.Runtime.Scheduler.Users.Step.{
  sets_timeout, sets_interval, cancels, dispatches, begins, ends, fails, queues, ticks,
}
use runite.Runtime.Scheduler.Moves.{focus, unmade_lem}
use runite.Runtime.Scheduler.Turns.{head_for}
use runite.Runtime.Scheduler.Ends.{on_stack}
use runite.Runtime.Scheduler.Inv.{Inv}

-- The deadlines of a timer's calls so far, the latest first.
abbrev pub deadlines : ℕ → List Run → List ℕ
deadlines b [] = []
deadlines b (r ∷ runs) = if b == r.id then r.deadline ∷ deadlines b runs else deadlines b runs

-- The deadlines that the scheduler gave to its turns, in the same way.
abbrev pub turns : ℕ → List Run → List ℕ
turns b [] = []
turns b (r ∷ runs) = if b == r.id then r.scheduled ∷ turns b runs else turns b runs

-- The deadline of the call that the beginning of its macrotask makes, if that makes one.
abbrev pub calls : Life → Option ℕ
calls unmade = none
calls gone = none
calls (timeout_waits d c) = none
calls (timeout_queued d c live) = if live then some d else none
calls (interval_waits d e) = none
calls (interval_queued d none) = none
calls (interval_queued d (some e)) = some d
calls (interval_runs d e) = none

-- A step of a timer with the calls so far, at the time `now`.
pub data LifeStep (now : ℕ) (x : Life) (ran : List ℕ) : Life → List ℕ → Type 0 where
  rests : LifeStep now x ran x ran
  is_set :
      (delay callback : ℕ)
      → x ≡ unmade
      → LifeStep now x ran (timeout_waits (saturating_add now delay) callback) ran
  is_repeated :
      (delay callback : ℕ) → x ≡ unmade → LifeStep now x ran (interval_life delay callback now) ran
  is_cleared : LifeStep now x ran (clear_life x) ran
  expires : LifeStep now x ran (expire_life now x) ran
  is_called : (d : ℕ) → calls x ≡ some d → LifeStep now x ran (run_life x) (d ∷ ran)
  is_skipped : calls x ≡ none → LifeStep now x ran (run_life x) ran
  returns :
      (d : ℕ) (k : Option IntervalEntry)
      → x ≡ interval_runs d k
      → LifeStep now x ran (end_life now x) ran
  panics : (d : ℕ) (k : Option IntervalEntry) → x ≡ interval_runs d k → LifeStep now x ran gone ran

logged_others :
    (b : ℕ) (m : Macrotask) (called : Called) (now : ℕ) (life : ℕ → Life) (runs : List Run)
    → has_id b m ≡ false
    → deadlines b (logged m called now life runs) ≡ deadlines b runs
logged_others b m nothing now life runs e = refl
logged_others b (run_timeout id c) (timeout_callback d) now life runs e = if-false (b == id) _ _ e
logged_others b (run_interval id c) (timeout_callback d) now life runs e = refl
logged_others b (other task) (timeout_callback d) now life runs e = refl
logged_others b (run_timeout id c) (interval_callback d) now life runs e = refl
logged_others b (run_interval id c) (interval_callback d) now life runs e = if-false (b == id) _ _ e
logged_others b (other task) (interval_callback d) now life runs e = refl

module _ {Q : Type 0} {i : TimerQueue Q} (l : IsTimerQueue i) where
  -- The timer whose macrotask begins.
  timeout_LifeStep :
      (s : System Q) (id c : ℕ) (rest : List Macrotask)
      → s.scheduler.macrotasks ≡ run_timeout id c ∷ rest
      → Inv l s
      → let r = run_macrotask (run_timeout id c) (record s.scheduler { macrotasks = rest }) in
        LifeStep s.now
          (s.life id)
          (deadlines id s.runs)
          (run_life (s.life id))
          (deadlines id (logged (run_timeout id c) r.1 s.now s.life s.runs))
  timeout_LifeStep s id c rest q v =
      let (d, live, e, _) = queued_timeout id c (macrotasks_for id rest) (s.life id) (
        head_for l id (run_timeout id c) rest s.scheduler (s.life id) q (here_lem id)
          (v.shows id)) in
      let flag : s.scheduler.live_timeouts id ≡ live = (v.shows id).live ∙ ap live_of e in
      elim (Bool-cases live) [
        | inl o ↦
            rw
              (
                flag ∙ o,
                if-true (id == id) (due_of (s.life id) ∷ deadlines id s.runs) (deadlines id s.runs)
                    (here_lem id),
              )
              (is_called (due_of (s.life id)) (rw (e, o) refl))
        | inr o ↦ rw (flag ∙ o) (is_skipped (rw (e, o) refl))
      ]

  interval_LifeStep :
      (s : System Q) (id d : ℕ) (rest : List Macrotask)
      → s.scheduler.macrotasks ≡ run_interval id d ∷ rest
      → Inv l s
      → let r = run_macrotask (run_interval id d) (record s.scheduler { macrotasks = rest }) in
        LifeStep s.now
          (s.life id)
          (deadlines id s.runs)
          (run_life (s.life id))
          (deadlines id (logged (run_interval id d) r.1 s.now s.life s.runs))
  interval_LifeStep s id d rest q v =
      let (k, e, _) = queued_interval id d (macrotasks_for id rest) (s.life id) (
        head_for l id (run_interval id d) rest s.scheduler (s.life id) q (here_lem id)
          (v.shows id)) in
      let entry : s.scheduler.live_intervals id ≡ k = (v.shows id).entry ∙ ap entry_of e in
      elim (Option-cases k) [
        | inl o ↦ rw (entry ∙ o) (is_skipped (rw (e, o) refl))
        | inr (f, o) ↦
            rw
              (
                entry ∙ o,
                if-true (id == id) (due_of (s.life id) ∷ deadlines id s.runs) (deadlines id s.runs)
                    (here_lem id),
              )
              (is_called (due_of (s.life id)) (rw (e, o) refl))
      ]

  begins-LifeStep :
      (s : System Q) (m : Macrotask) (rest : List Macrotask)
      → s.scheduler.macrotasks ≡ m ∷ rest
      → Inv l s
      → (b : ℕ)
      → let t = begun m (run_macrotask m (record s.scheduler { macrotasks = rest })) s in
        LifeStep s.now (s.life b) (deadlines b s.runs) (t.life b) (deadlines b t.runs)
  begins-LifeStep s (run_timeout id c) rest q v =
      let r = run_macrotask (run_timeout id c) (record s.scheduler { macrotasks = rest }) in
      focus
        (λ b x.
          LifeStep s.now (s.life b) (deadlines b s.runs) x
            (deadlines b (logged (run_timeout id c) r.1 s.now s.life s.runs)))
        s.life id (run_life (s.life id)) (timeout_LifeStep s id c rest q v)
        (λ b e. rw (logged_others b (run_timeout id c) r.1 s.now s.life s.runs e) rests)
  begins-LifeStep s (run_interval id d) rest q v =
      let r = run_macrotask (run_interval id d) (record s.scheduler { macrotasks = rest }) in
      focus
        (λ b x.
          LifeStep s.now (s.life b) (deadlines b s.runs) x
            (deadlines b (logged (run_interval id d) r.1 s.now s.life s.runs)))
        s.life id (run_life (s.life id)) (interval_LifeStep s id d rest q v)
        (λ b e. rw (logged_others b (run_interval id d) r.1 s.now s.life s.runs e) rests)
  begins-LifeStep s (other task) rest q v = λ b. rests

  next_unmade : (s : System Q) → Inv l s → s.life s.scheduler.next_timer_id ≡ unmade
  next_unmade s v =
      let id = s.scheduler.next_timer_id in
      let first : true ≡ leb id id = ground arith in
      unmade_lem (s.life id) (first ∙ (v.shows id).made)

  pub Step-LifeStep :
      (s t : System Q)
      → Step i s t
      → Inv l s
      → (b : ℕ) → LifeStep s.now (s.life b) (deadlines b s.runs) (t.life b) (deadlines b t.runs)
  Step-LifeStep s t (sets_timeout delay callback u handle e) v =
      let (_, id) = timeout_lem l delay callback s.now s.scheduler u handle e in
      focus (λ b x. LifeStep s.now (s.life b) (deadlines b s.runs) x (deadlines b s.runs)) s.life
        handle.id (timeout_waits (saturating_add s.now delay) callback)
        (is_set delay callback (ap s.life id ∙ next_unmade s v)) (λ b k. rests)
  Step-LifeStep s t (sets_interval delay callback u handle e) v =
      let (_, id) = interval_lem l delay callback s.now s.scheduler u handle e in
      focus (λ b x. LifeStep s.now (s.life b) (deadlines b s.runs) x (deadlines b s.runs)) s.life
        handle.id (interval_life delay callback s.now)
        (is_repeated delay callback (ap s.life id ∙ next_unmade s v)) (λ b k. rests)
  Step-LifeStep s t (cancels handle) v =
      elim (Bool-cases (handle.generation == s.scheduler.generation)) [
        | inl e ↦ rw e (
            focus (λ b x. LifeStep s.now (s.life b) (deadlines b s.runs) x (deadlines b s.runs))
              s.life handle.id (clear_life (s.life handle.id)) is_cleared (λ b k. rests))
        | inr e ↦ rw e (λ (b : ℕ). rests)
      ]
  Step-LifeStep s t (dispatches u idle e) v = λ b. expires
  Step-LifeStep s t (begins m rest idle e) v = begins-LifeStep s m rest e v
  Step-LifeStep s t (ends id d r) v =
      let (k, e) = on_stack l id d s.scheduler (s.life id) r (v.shows id) in
      focus (λ b x. LifeStep s.now (s.life b) (deadlines b s.runs) x (deadlines b s.runs)) s.life id
        (end_life s.now (s.life id)) (returns d k e) (λ b e. rests)
  Step-LifeStep s t (fails id d r) v =
      let (k, e) = on_stack l id d s.scheduler (s.life id) r (v.shows id) in
      focus (λ b x. LifeStep s.now (s.life b) (deadlines b s.runs) x (deadlines b s.runs)) s.life id
        gone (panics d k e) (λ b e. rests)
  Step-LifeStep s t (queues task) v = λ b. rests
  Step-LifeStep s t (ticks now e) v = λ b. rests
