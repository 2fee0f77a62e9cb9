-- ===== src/Runtime/Tasks/Wakeups.antt =====
-- A wake of a task waits until the task is polled or has ended.
use mathlib.Core.Path.{subst}
use runite.Prelude.{
  ℕ, ◌+◌, ◌<◌, ◌≡◌, ap, inl, inr, List, none, Bool, true, false, not, ◌||◌, ◌==◌, Bool-cases,
  copies, arith,
}
use runite.Runtime.Tasks.{
  Thread, TaskState, ready, pending, panics, is_running, running, set_task, schedule,
  schedule_task_by_id, wake_local, wake_remote, clear_scheduled, queue_internal_wake, run_wake,
  drain_remote_tasks, queue_future, begin_poll, mark_terminal, complete, retire, end_poll,
  take_future, abort, answer_join, poll_join, registered_ids, take_registry,
}
use runite.Runtime.Tasks.Users.{
  Step, spawns, wakes, claims, posts, drains, runs_wake, begins, ends, aborts, joins, idles,
}
use runite.Runtime.Tasks.Inv.{is_at, wakes_of, Fit}
use runite.Runtime.Tasks.Inv.{Same, Same-trans}
use runite.Runtime.Tasks.Steps.{pop-Same, run_wake-Same, begin_poll-Same}
use runite.Runtime.Tasks.Idle.{go_idle_cases, cancel_all-scheduled}
use runite.Runtime.Tasks.Kept.{Inv}

module _ {A : Type 0} where
  -- A poll of the task is queued, or a wake of it is under way.
  abbrev pub Woken : Thread A → ℕ → Type 0
  Woken s a = 0 < copies a s.microtasks + wakes_of a s

  abbrev pub flagged : Thread A → ℕ → Bool
  flagged s a = (s.task a).queued || (s.task a).scheduled

  pub Fit-Woken : (s : Thread A) (a : ℕ) → Fit s a → flagged s a ≡ true → Woken s a
  Fit-Woken s a f e = let g = f.polls in let h = f.wakes in ground arith

  -- How a step may end the wait of a task.
  abbrev pub open_end : Thread A → ℕ → Bool
  open_end t a = flagged t a || (is_at t.polling a || not (is_running (t.task a).state))

  run_wake-flagged :
      (a : ℕ) (rest : List ℕ) (s : Thread A)
      → Fit s a
      → flagged s a ≡ true
      → open_end (run_wake a (record s { macrotasks = rest })) a ≡ true
  unfolding run_wake schedule_task_by_id schedule clear_scheduled set_task
  run_wake-flagged a rest s f e =
      let g = f.registered in
      let h = f.spawned_queued in let k = f.spawned_scheduled in ground arith

  begin_poll-flagged :
      (a : ℕ) (rest : List ℕ) (s : Thread A)
      → s.polling ≡ none
      → Fit s a
      → flagged s a ≡ true
      → open_end (begin_poll a rest s) a ≡ true
  unfolding begin_poll set_task
  begin_poll-flagged a rest s n f e =
      let g = f.registered in
      let h = f.spawned_queued in
      let k = f.spawned_scheduled in
      let o = ap (λ p. is_at p a) n in let q = f.future in ground arith

  answer_join-flagged :
      (x : TaskState) (w a b : ℕ) (s : Thread A)
      → flagged s b ≡ true
      → flagged (answer_join x w a s).0 b ≡ true
  unfolding answer_join set_task
  answer_join-flagged running w a b s e = ground arith
  answer_join-flagged TaskState.finished w a b s e = ground arith
  answer_join-flagged TaskState.aborted w a b s e = e
  answer_join-flagged TaskState.cancelled w a b s e = e
  answer_join-flagged TaskState.panicked w a b s e = e

  Same-flagged : (s t : Thread A) (b : ℕ) → Same s t b → flagged s b ≡ true → open_end t b ≡ true
  Same-flagged s t b k e = let q = k.task in ground arith

  pub Step-flagged :
      (a : ℕ) (s t : Thread A)
      → Step s t
      → Inv s
      → s.closed ≡ false
      → flagged s a ≡ true
      → open_end t a ≡ true
  unfolding queue_future wake_local wake_remote queue_internal_wake run_wake schedule_task_by_id
      schedule clear_scheduled begin_poll end_poll retire complete mark_terminal abort take_future
      poll_join answer_join drain_remote_tasks set_task
  Step-flagged b s _ (spawns h) v c e = let f = v.fit b in ground arith
  Step-flagged b s _ (wakes a h) v c e = ground arith
  Step-flagged b s _ (claims a h) v c e = ground arith
  Step-flagged b s _ (posts xs ys a p) v c e = ground arith
  Step-flagged b s _ (drains n) v c e = ground arith
  Step-flagged b s _ (runs_wake a rest n p) v c e = elim (Bool-cases (b == a)) [
    | inl q ↦
        let z : a ≡ b = ground arith in
        subst (λ k. open_end (run_wake a (record s { macrotasks = rest })) k ≡ true) z
          (run_wake-flagged a rest s (v.fit a) (rw z e))
    | inr q ↦
        let t = record s { macrotasks = rest } in
        Same-flagged s (run_wake a t) b
          (Same-trans s t (run_wake a t) b (pop-Same a b q rest s p) (run_wake-Same a b q t)) e
  ]
  Step-flagged b s _ (begins a rest n p) v c e = elim (Bool-cases (b == a)) [
    | inl q ↦
        let z : a ≡ b = ground arith in
        subst (λ k. open_end (begin_poll a rest s) k ≡ true) z
          (begin_poll-flagged a rest s n (v.fit a) (rw z e))
    | inr q ↦ Same-flagged s (begin_poll a rest s) b (begin_poll-Same a b q rest s n p) e
  ]
  Step-flagged b s _ (ends a (ready x) p) v c e = ground arith
  Step-flagged b s _ (ends a pending p) v c e = ground arith
  Step-flagged b s _ (ends a panics p) v c e = ground arith
  Step-flagged b s _ (aborts a h) v c e = ground arith
  Step-flagged b s _ (joins w a h) v c e =
      let f = answer_join-flagged (s.task a).state w a b s e in ground arith
  Step-flagged b s _ (idles live worker n m k) v c e =
      go_idle_cases (λ t. open_end t b ≡ true) live worker s (ground arith) (ground arith)
        (let g = (v.fit b).polls in
          let l = ap (copies b) m in
          let q = cancel_all-scheduled (registered_ids s.next_task_id s) b (take_registry s) in
          unfold take_registry in ground arith)
