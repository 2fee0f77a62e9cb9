-- ===== src/Runtime/Tasks/Touched.antt =====
-- What a step does to the task that it touches.
use runite.Prelude.{
  ℕ, ◌<◌, ◌≡◌, refl, ap, List, [], ◌∷◌, ◌++◌, none, Bool, true, false, if◌then◌else◌, copies,
  copies-append, arith,
}
use runite.Runtime.Tasks.{
  Thread, TaskState, pending, running, set_task, schedule, schedule_task_by_id, wake_local,
  wake_remote, clear_scheduled, queue_internal_wake, run_wake, queue_future, begin_poll,
  mark_terminal, complete, retire, end_poll, take_future, abort, answer_join,
}
use runite.Runtime.Tasks.Users.{is_spawned}
use runite.Runtime.Tasks.Inv.{is_at, Fit}

module _ {A : Type 0} (a : ℕ) where
  -- A task that is registered can be scheduled.
  schedule-Fit : (s : Thread A) → is_spawned a s ≡ true → Fit s a → Fit (schedule a s) a
  unfolding schedule set_task
  schedule-Fit s p f = ground (arith, copies-append s.microtasks (a ∷ []) a)

  Fit-if :
      (t : Bool) (x y : Thread A)
      → (t ≡ true → Fit x a)
      → (t ≡ false → Fit y a)
      → Fit (if t then x else y) a
  Fit-if true x y f g = f refl
  Fit-if false x y f g = g refl

  pub schedule_task_by_id-Fit : (s : Thread A) → Fit s a → Fit (schedule_task_by_id a s) a
  unfolding schedule_task_by_id
  schedule_task_by_id-Fit s f =
      Fit-if (s.task a).registered _ s
        (λ e. schedule-Fit s (let g = f.registered in ground arith) f) (λ e. f)

  pub wake_local-Fit : (s : Thread A) → Fit s a → Fit (wake_local a s) a
  unfolding wake_local
  wake_local-Fit s f = Fit-if (s.task a).scheduled s _ (λ e. f) (λ e. schedule_task_by_id-Fit s f)

  pub wake_remote-Fit : (s : Thread A) → is_spawned a s ≡ true → Fit s a → Fit (wake_remote a s) a
  unfolding wake_remote set_task
  wake_remote-Fit s p f = ground arith

  -- A claimed wake arrives: it joins the remote queue, or the thread is closed.
  pub post-Fit :
      (xs ys : List ℕ) (s : Thread A)
      → s.posting ≡ xs ++ a ∷ ys
      → Fit s a
      → Fit (queue_internal_wake a (record s { posting = xs ++ ys })) a
  unfolding queue_internal_wake clear_scheduled set_task
  post-Fit xs ys s e f =
      let n = ap (copies a) e in
      ground (
        arith,
        copies-append xs (a ∷ ys) a,
        copies-append xs ys a,
        copies-append s.remote (a ∷ []) a,
      )

  pub unclaimed-Fit :
      (rest : List ℕ) (s : Thread A)
      → s.macrotasks ≡ a ∷ rest
      → Fit s a
      → Fit (clear_scheduled a (record s { macrotasks = rest })) a
  unfolding clear_scheduled set_task
  unclaimed-Fit rest s e f = let n = ap (copies a) e in ground arith

  pub run_wake-Fit :
      (rest : List ℕ) (s : Thread A)
      → s.macrotasks ≡ a ∷ rest
      → Fit s a
      → Fit (run_wake a (record s { macrotasks = rest })) a
  unfolding run_wake
  run_wake-Fit rest s e f =
      schedule_task_by_id-Fit (clear_scheduled a (record s { macrotasks = rest }))
        (unclaimed-Fit rest s e f)

  pub begin_poll-Fit :
      (rest : List ℕ) (s : Thread A)
      → s.polling ≡ none
      → s.microtasks ≡ a ∷ rest
      → Fit s a
      → Fit (begin_poll a rest s) a
  unfolding begin_poll set_task
  begin_poll-Fit rest s n e f =
      let c = ap (copies a) e in let o = ap (λ p. is_at p a) n in ground arith

  pub ready-Fit :
      (v : A) (s : Thread A)
      → is_at s.polling a ≡ true
      → Fit s a
      → Fit (retire a (complete v a s)) a
  unfolding retire complete set_task
  ready-Fit v s p f = ground arith

  pub panics-Fit :
      (s : Thread A)
      → is_at s.polling a ≡ true
      → Fit s a
      → Fit (retire a (mark_terminal TaskState.panicked a s)) a
  unfolding retire mark_terminal set_task
  panics-Fit s p f = ground arith

  pub pending-Fit :
      (s : Thread A) → is_at s.polling a ≡ true → Fit s a → Fit (end_poll pending a s) a
  unfolding end_poll set_task
  pending-Fit s p f = ground arith

  pub abort-Fit : (s : Thread A) → Fit s a → Fit (abort a s) a
  unfolding abort mark_terminal take_future set_task
  abort-Fit s f = ground arith

  pub answer_join-Fit :
      (x : TaskState) (waker : ℕ) (s : Thread A)
      → (s.task a).state ≡ x
      → Fit s a
      → Fit (answer_join x waker a s).0 a
  unfolding answer_join set_task
  answer_join-Fit running waker s e f = ground arith
  answer_join-Fit TaskState.finished waker s e f = ground arith
  answer_join-Fit TaskState.aborted waker s e f = f
  answer_join-Fit TaskState.cancelled waker s e f = f
  answer_join-Fit TaskState.panicked waker s e f = f

pub queue_future-Fit :
    {A : Type 0} (s : Thread A)
    → 0 < s.next_task_id
    → Fit s s.next_task_id
    → Fit (queue_future s) s.next_task_id
unfolding queue_future schedule set_task
queue_future-Fit s p f =
    ground (arith, copies-append s.microtasks (s.next_task_id ∷ []) s.next_task_id)
