-- ===== src/Runtime/Scheduler/Safety.antt =====
-- What the callers of `timeout`, `interval` and their cancellation may rely on, after every history.
use runite.Runtime.Scheduler.Steps.{Reach-Inv, Step-Inv}
use runite.Runtime.Scheduler.Lives.{here_lem, queued_timeout}
use mathlib.Core.List.{Memᴰ}
use mathlib.Core.List.Memᴰ.{head, tail}
use runite.Prelude.{
  ℕ, ◌≡◌, ◌≤◌, ◌<◌, ◌↔◌, refl, sym, ap, ◌∙◌, inl, inr, List, [], ◌∷◌, ◌++◌, Option, none, some,
  Bool-cases, true, false, arith, leb, ◌==◌, if◌then◌else◌, Reach,
}
use runite.Runtime.Timer.{TimerNode}
use runite.Runtime.Timer.Due.{Rising, unexpired}
use runite.Runtime.Scheduler.{
  Scheduler, TimerHandle, Macrotask, run_timeout, IntervalEntry, macrotasks_of,
  dispatch_expired_timers, run_macrotask,
}
use runite.Runtime.Scheduler.Queue.{TimerQueue, IsTimerQueue}
use runite.Runtime.Scheduler.Life.{node_of, macrotasks_for, is_unmade, Shows}
use runite.Runtime.Scheduler.Users.{System, Run, start, Step, due_of, begun, after_cancel}
use runite.Runtime.Scheduler.Turns.{after_dispatch, dispatch_lem, head_for}
use runite.Runtime.Scheduler.Stories.{deadlines, turns, LifeStep, Step-LifeStep}
use runite.Runtime.Scheduler.Silence.{is_silent, is_silent-clear_life, silent_forever}
use runite.Runtime.Scheduler.Spacing.{Spaced, Even-Spaced, Reach-Even}

still_waits :
    (now : ℕ) (o : Option TimerNode) (n : TimerNode) → unexpired now o ≡ some n → now < n.deadline
still_waits now none n e = absurd (cc)
still_waits now (some m) n e = elim (Bool-cases (leb m.deadline now)) [
  | inl o ↦ absurd (none_some (rw o at e))
  | inr o ↦
      let f : ◌≡◌ {A = Option TimerNode} (some m) (some n) = rw o at e in
      let same : m ≡ n = cc in ground (arith, ap (λ (k : TimerNode). k.deadline) same)
]
  where
    none_some : ◌≡◌ {A = Option TimerNode} none (some n) → ⊥
    none_some e = absurd (cc)

module _ {Q : Type 0} {i : TimerQueue Q} (l : IsTimerQueue i) (generation : ℕ) where
  -- After every history, the scheduler's tables hold of every timer exactly what its own life says:
  -- its node in the timer queue, its macrotask, its flag or its entry, and whether its callback is on
  -- the stack; and each further step of the scheduler is for every timer one of the steps of a life.
  pub lives_are_kept :
      (s : System Q)
      → Reach (Step i) (start i generation) s
      → (b : ℕ)
      → Shows l s.scheduler b (s.life b)
        × ((t : System Q)
            → Step i s t
            → LifeStep s.now (s.life b) (deadlines b s.runs) (t.life b) (deadlines b t.runs))
  lives_are_kept s r b =
      let v = Reach-Inv l generation s r in (v.shows b, λ t st. Step-LifeStep l s t st v b)

  -- After every history, the driver is armed for the earliest deadline of a waiting timer: for a deadline
  -- no later than that of any timer that waits, which is the deadline of one that does.
  pub driver_is_armed_for_earliest :
      (s : System Q)
      → Reach (Step i) (start i generation) s
      → ((b : ℕ) (n : TimerNode)
          → node_of b (s.life b) ≡ some n
          → (e : ℕ) × (s.scheduler.armed ≡ some e) × (e ≤ n.deadline))
        × ((e : ℕ)
            → s.scheduler.armed ≡ some e
            → (n : TimerNode) × (node_of n.id (s.life n.id) ≡ some n) × (n.deadline ≡ e))
  driver_is_armed_for_earliest s r =
      let v = Reach-Inv l generation s r in
      (
        λ b n e.
            let (m, _, p, d) =
              l.peek_least s.scheduler.timers b n v.ready.valid ((v.shows b).node ∙ e) in
            (m.deadline, v.ready.armed ∙ p, d),
        λ e p.
            let (n, f, d) =
              l.peek_sound s.scheduler.timers e v.ready.valid (sym v.ready.armed ∙ p) in
            (n, sym (v.shows n.id).node ∙ f, d),
      )

  -- After every history, a dispatch of the expired timers succeeds. It puts behind the macrotasks that
  -- are queued one for each timer that waits with a deadline no later than the present, and for no
  -- other, in the order of their deadlines; and every timer that still waits then is to expire later.
  pub dispatch_in_deadline_order :
      (s : System Q)
      → Reach (Step i) (start i generation) s
      → (t : Scheduler Q) × (due : List TimerNode) × (dispatch_expired_timers i s.now s.scheduler
          ≡ some t)
        × (t.macrotasks ≡ s.scheduler.macrotasks ++ macrotasks_of due)
        × Rising due
        × ((n : TimerNode)
            → Memᴰ n due ↔ ((node_of n.id (s.life n.id) ≡ some n) × (n.deadline ≤ s.now)))
        × ((b : ℕ) (n : TimerNode) → l.find t.timers b ≡ some n → s.now < n.deadline)
  dispatch_in_deadline_order s r =
      let v = Reach-Inv l generation s r in
      let valid = v.ready.valid in
      let q = s.scheduler.timers in
      (
        after_dispatch l s.now s.scheduler,
        l.due s.now q,
        dispatch_lem l s.now s.scheduler valid,
        refl,
        l.due-Rising s.now q valid,
        λ n. (
          λ m. let (f, d) = l.due_sound s.now n q valid m in (sym (v.shows n.id).node ∙ f, d),
          λ p. l.due_complete s.now n.id n q valid ((v.shows n.id).node ∙ p.0) p.1,
        ),
        λ b n f. still_waits s.now (l.find q b) n (sym (l.pop_due_leaves s.now b q valid) ∙ f),
      )

  -- In every history, no callback of a timer is called before the deadline that it is due at.
  pub timers_never_run_early :
      (s : System Q) (r : Run)
      → Reach (Step i) (start i generation) s
      → Memᴰ r s.runs
      → r.deadline ≤ r.time
  timers_never_run_early s r h m = (Reach-Inv l generation s h).punctual r m

  -- When a timer that was made is cancelled by a handle of this thread, whether it waits, its macrotask
  -- is queued, or its callback is running, its callback is never called again, whatever happens
  -- afterwards.
  pub cancelled_timer_stays_silent :
      (s t : System Q) (handle : TimerHandle)
      → Reach (Step i) (start i generation) s
      → handle.generation ≡ s.scheduler.generation
      → handle.id < s.scheduler.next_timer_id
      → Reach (Step i) (after_cancel i handle s) t
      → deadlines handle.id t.runs ≡ deadlines handle.id s.runs
  cancelled_timer_stays_silent s t handle r own made h =
      let v = Reach-Inv l generation s r in
      let u = after_cancel i handle s in
      let w = Step-Inv l s u (Step.cancels handle) v in
      let known : is_unmade (s.life handle.id) ≡ false =
        sym (v.shows handle.id).made ∙ ground (arith, made) in
      let same : (handle.generation == s.scheduler.generation) ≡ true = ground (arith, own) in
      let silent : is_silent (u.life handle.id) ≡ true =
        rw (same, here_lem handle.id) (is_silent-clear_life (s.life handle.id) known) in
      (silent_forever l u t handle.id h w silent).2

  -- When the macrotask of a timeout begins, the callback is called for the first time if the timeout is
  -- live, and else not at all; and it is never called again, whatever happens afterwards.
  pub timeout_runs_once :
      (s t : System Q) (id callback : ℕ) (rest : List Macrotask)
      → Reach (Step i) (start i generation) s
      → s.scheduler.running ≡ none
      → s.scheduler.macrotasks ≡ run_timeout id callback ∷ rest
      → Reach
          (Step i)
          (begun
            (run_timeout id callback)
            (run_macrotask (run_timeout id callback) (record s.scheduler { macrotasks = rest }))
            s)
          t
      → deadlines id t.runs ≡ (if s.scheduler.live_timeouts id then due_of (s.life id) ∷ [] else [])
  timeout_runs_once s t id callback rest r idle q h =
      let (v, even) = Reach-Even l generation s r in
      let m = run_timeout id callback in
      let u = begun m (run_macrotask m (record s.scheduler { macrotasks = rest })) s in
      let w = Step-Inv l s u (Step.begins m rest idle q) v in
      let (d, live, e, _) =
        queued_timeout id callback (macrotasks_for id rest) (s.life id)
          (head_for l id m rest s.scheduler (s.life id) q (here_lem id) (v.shows id)) in
      let over : is_silent (u.life id) ≡ true = rw (here_lem id, e) refl in
      let first : deadlines id s.runs ≡ [] = rw e at (even id) in
      let now_ran : deadlines id u.runs
          ≡ (if s.scheduler.live_timeouts id then due_of (s.life id) ∷ [] else []) =
        elim (Bool-cases (s.scheduler.live_timeouts id)) [
          | inl o ↦ rw (o, here_lem id, first) refl
          | inr o ↦ rw (o, first) refl
        ] in
      (silent_forever l u t id h w over).2 ∙ now_ran

  turns-deadlines :
      (b : ℕ) (runs : List Run)
      → ((r : Run) → Memᴰ r runs → r.scheduled ≡ r.deadline)
      → turns b runs ≡ deadlines b runs
  turns-deadlines b [] agree = refl
  turns-deadlines b (r ∷ runs) agree =
      let ih = turns-deadlines b runs (λ x m. agree x (tail m)) in
      elim (Bool-cases (b == r.id)) [
        | inl e ↦ rw (e, ih, agree r (head refl)) refl
        | inr e ↦ rw (e, ih) refl
      ]

  -- After every history, the turns of an interval that has not been cleared and whose callbacks were
  -- called are exactly its period apart, up to `Duration::MAX`, by the deadlines that the scheduler gave
  -- them, however late the callbacks were called and however long they took.
  pub intervals_do_not_drift :
      (s : System Q) (id : ℕ) (entry : IntervalEntry)
      → Reach (Step i) (start i generation) s
      → s.scheduler.live_intervals id ≡ some entry
      → Spaced entry.interval (turns id s.runs)
  intervals_do_not_drift s id entry r e =
      let (v, even) = Reach-Even l generation s r in
      rw (turns-deadlines id s.runs v.agrees)
        (Even-Spaced (s.life id) entry (deadlines id s.runs) (sym (v.shows id).entry ∙ e) (even id))
