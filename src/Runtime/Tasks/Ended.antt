-- ===== src/Runtime/Tasks/Ended.antt =====
-- A task that has ended keeps its outcome.
use mathlib.Core.Path.{subst}
use runite.Prelude.{
  ℕ, ◌≡◌, refl, ap, ◌∙◌, inl, inr, List, ◌++◌, true, false, ◌==◌, Bool-cases, arith,
}
use runite.Runtime.Tasks.{
  Task, Thread, TaskState, Polled, ready, pending, panics, is_running, running, set_task, schedule,
  schedule_task_by_id, wake_local, wake_remote, clear_scheduled, queue_internal_wake, run_wake,
  drain_remote_tasks, queue_future, begin_poll, mark_terminal, complete, retire, end_poll,
  take_future, abort, answer_join, poll_join, registered_ids, take_registry,
}
use runite.Runtime.Tasks.Users.{
  is_spawned, Step, spawns, wakes, claims, posts, drains, runs_wake, begins, ends, aborts, joins,
  idles,
}
use runite.Runtime.Tasks.Inv.{Same, Same-trans}
use runite.Runtime.Tasks.Steps.{
  queue_future-Same, wake_local-Same, wake_remote-Same, queue_internal_wake-Same, unpost-Same,
  pop-Same, run_wake-Same, begin_poll-Same, end_poll-Same, abort-Same, answer_join-Same,
}
use runite.Runtime.Tasks.Idle.{go_idle_cases, cancel_all-ended, cancel_all-next}

module _ {A : Type 0} where
  -- The task `b` has ended as it had before.
  abbrev pub Stays : Thread A → Thread A → ℕ → Type 0
  Stays s t b = ((t.task b).state ≡ (s.task b).state) × (is_spawned b t ≡ true)

  off-Stays : (s t : Thread A) (b : ℕ) → is_spawned b s ≡ true → Same s t b → Stays s t b
  off-Stays s t b p k = (ap (λ (x : Task A). x.state) k.task, k.spawned ∙ p)

  -- A step that touches the task `a`.
  touched-Stays :
      (a b : ℕ) (s t : Thread A)
      → is_spawned b s ≡ true
      → is_running (s.task b).state ≡ false
      → ((b == a) ≡ false → Same s t b)
      → (is_spawned a s ≡ true → is_running (s.task a).state ≡ false → Stays s t a)
      → Stays s t b
  touched-Stays a b s t p e off at = elim (Bool-cases (b == a)) [
    | inl q ↦ let z : a ≡ b = ground arith in subst (Stays s t) z (at (rw z p) (rw z e))
    | inr q ↦ off-Stays s t b p (off q)
  ]

  answer_join-Stays :
      (x : TaskState) (w a : ℕ) (s : Thread A)
      → is_spawned a s ≡ true
      → Stays s (answer_join x w a s).0 a
  unfolding answer_join set_task
  answer_join-Stays running w a s p = ground arith
  answer_join-Stays TaskState.finished w a s p = ground arith
  answer_join-Stays TaskState.aborted w a s p = (refl, p)
  answer_join-Stays TaskState.cancelled w a s p = (refl, p)
  answer_join-Stays TaskState.panicked w a s p = (refl, p)

  end_poll-Stays :
      (o : Polled A) (a : ℕ) (s : Thread A)
      → is_spawned a s ≡ true
      → is_running (s.task a).state ≡ false
      → Stays s (end_poll o a s) a
  unfolding end_poll retire complete mark_terminal set_task
  end_poll-Stays (ready v) a s p e = ground arith
  end_poll-Stays pending a s p e = ground arith
  end_poll-Stays panics a s p e = ground arith

  run_wake-Stays :
      (a : ℕ) (rest : List ℕ) (s : Thread A)
      → is_spawned a s ≡ true
      → Stays s (run_wake a (record s { macrotasks = rest })) a
  unfolding run_wake schedule_task_by_id schedule clear_scheduled set_task
  run_wake-Stays a rest s p = ground arith

  post-Stays :
      (a : ℕ) (xs : List ℕ) (s : Thread A)
      → is_spawned a s ≡ true
      → Stays s (queue_internal_wake a (record s { posting = xs })) a
  unfolding queue_internal_wake clear_scheduled set_task
  post-Stays a xs s p = ground arith

  wake_local-Stays : (a : ℕ) (s : Thread A) → is_spawned a s ≡ true → Stays s (wake_local a s) a
  unfolding wake_local schedule_task_by_id schedule set_task
  wake_local-Stays a s p = ground arith

  wake_remote-Stays : (a : ℕ) (s : Thread A) → is_spawned a s ≡ true → Stays s (wake_remote a s) a
  unfolding wake_remote set_task
  wake_remote-Stays a s p = ground arith

  begin_poll-Stays :
      (a : ℕ) (rest : List ℕ) (s : Thread A)
      → is_spawned a s ≡ true
      → Stays s (begin_poll a rest s) a
  unfolding begin_poll set_task
  begin_poll-Stays a rest s p = ground arith

  abort-Stays :
      (a : ℕ) (s : Thread A)
      → is_spawned a s ≡ true
      → is_running (s.task a).state ≡ false
      → Stays s (abort a s) a
  unfolding abort
  abort-Stays a s p e = rw e (refl, p)

  next-unspawned : (s : Thread A) → is_spawned s.next_task_id s ≡ false
  next-unspawned s = ground arith

  answer_join-next :
      (x : TaskState) (w a : ℕ) (s : Thread A)
      → ((answer_join x w a s).0).next_task_id ≡ s.next_task_id
  unfolding answer_join set_task
  answer_join-next running w a s = refl
  answer_join-next TaskState.finished w a s = refl
  answer_join-next TaskState.aborted w a s = refl
  answer_join-next TaskState.cancelled w a s = refl
  answer_join-next TaskState.panicked w a s = refl

  -- A spawned task stays spawned.
  pub Step-spawned :
      (b : ℕ) (s t : Thread A) → Step s t → is_spawned b s ≡ true → is_spawned b t ≡ true
  unfolding queue_future wake_local wake_remote queue_internal_wake run_wake schedule_task_by_id
      schedule clear_scheduled begin_poll end_poll retire complete mark_terminal abort take_future
      poll_join drain_remote_tasks set_task
  Step-spawned b s _ (spawns h) p = ground arith
  Step-spawned b s _ (wakes a h) p = ground arith
  Step-spawned b s _ (claims a h) p = ground arith
  Step-spawned b s _ (posts xs ys a k) p = ground arith
  Step-spawned b s _ (drains n) p = p
  Step-spawned b s _ (runs_wake a rest n k) p = ground arith
  Step-spawned b s _ (begins a rest n k) p = p
  Step-spawned b s _ (ends a (ready v) k) p = ground arith
  Step-spawned b s _ (ends a pending k) p = ground arith
  Step-spawned b s _ (ends a panics k) p = ground arith
  Step-spawned b s _ (aborts a h) p = ground arith
  Step-spawned b s _ (joins w a h) p =
      let q = answer_join-next (s.task a).state w a s in ground arith
  Step-spawned b s _ (idles live worker n m k) p =
      go_idle_cases (λ t. is_spawned b t ≡ true) live worker s p p
        (let q = cancel_all-next (registered_ids s.next_task_id s) (take_registry s) in
          unfold take_registry in ground arith)

  pub Step-Stays :
      (b : ℕ) (s t : Thread A)
      → Step s t
      → is_spawned b s ≡ true
      → is_running (s.task b).state ≡ false
      → Stays s t b
  unfolding drain_remote_tasks poll_join
  Step-Stays b s _ (spawns h) p e =
      touched-Stays s.next_task_id b s (queue_future s) p e (λ q. queue_future-Same b s q)
        (λ r f. let z = next-unspawned s in ground arith)
  Step-Stays b s _ (wakes a h) p e =
      touched-Stays a b s (wake_local a s) p e (λ q. wake_local-Same a b q s)
        (λ r f. wake_local-Stays a s r)
  Step-Stays b s _ (claims a h) p e =
      touched-Stays a b s (wake_remote a s) p e (λ q. wake_remote-Same a b q s)
        (λ r f. wake_remote-Stays a s r)
  Step-Stays b s _ (posts xs ys a k) p e =
      let t = record s { posting = xs ++ ys } in
      touched-Stays a b s (queue_internal_wake a t) p e
        (λ q. Same-trans s t _ b (unpost-Same a b q xs ys s k) (queue_internal_wake-Same a b q t))
        (λ r f. post-Stays a (xs ++ ys) s r)
  Step-Stays b s _ (drains n) p e = (refl, p)
  Step-Stays b s _ (runs_wake a rest n k) p e =
      let t = record s { macrotasks = rest } in
      touched-Stays a b s (run_wake a t) p e
        (λ q. Same-trans s t _ b (pop-Same a b q rest s k) (run_wake-Same a b q t))
        (λ r f. run_wake-Stays a rest s r)
  Step-Stays b s _ (begins a rest n k) p e =
      touched-Stays a b s (begin_poll a rest s) p e (λ q. begin_poll-Same a b q rest s n k)
        (λ r f. begin_poll-Stays a rest s r)
  Step-Stays b s _ (ends a o k) p e =
      touched-Stays a b s (end_poll o a s) p e (λ q. end_poll-Same a b q o s k)
        (end_poll-Stays o a s)
  Step-Stays b s _ (aborts a h) p e =
      touched-Stays a b s (abort a s) p e (λ q. abort-Same a b q s) (abort-Stays a s)
  Step-Stays b s _ (joins w a h) p e =
      touched-Stays a b s (answer_join (s.task a).state w a s).0 p e
        (λ q. answer_join-Same a b q (s.task a).state w s)
        (λ r f. answer_join-Stays (s.task a).state w a s r)
  Step-Stays b s _ (idles live worker n m k) p e =
      go_idle_cases (λ t. Stays s t b) live worker s (refl, p) (refl, p)
        (
          unfold take_registry in
              (cancel_all-ended (registered_ids s.next_task_id s) b (take_registry s) e),
          (let q = cancel_all-next (registered_ids s.next_task_id s) (take_registry s) in
              unfold take_registry in ground arith),
        )
