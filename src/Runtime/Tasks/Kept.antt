-- ===== src/Runtime/Tasks/Kept.antt =====
-- Every step keeps what holds of the tasks of a thread.
use mathlib.Core.Path.{subst}
use runite.Prelude.{
  ℕ, ◌<◌, ◌≡◌, refl, ap, inl, inr, [], ◌∷◌, ◌++◌, some, true, false, ◌==◌, Bool-cases, length,
  length-append, copies, Reach, Reach-keeps, arith,
}
use runite.Runtime.Tasks.{
  Thread, TaskState, ready, pending, panics, running, set_task, schedule, schedule_task_by_id,
  wake_local, wake_remote, clear_scheduled, queue_internal_wake, run_wake, drain_remote_tasks,
  queue_future, begin_poll, mark_terminal, complete, retire, end_poll, take_future, abort,
  answer_join, poll_join,
}
use runite.Runtime.Tasks.Users.{
  start, Step, spawns, wakes, claims, posts, drains, runs_wake, begins, ends, aborts, joins, idles,
}
use runite.Runtime.Tasks.Inv.{is_at, Fit, Same, Same-Fit}
use runite.Runtime.Tasks.Steps.{
  queue_future-Same, wake_local-Same, wake_remote-Same, queue_internal_wake-Same, unpost-Same,
  pop-Same, run_wake-Same, begin_poll-Same, end_poll-Same, abort-Same, answer_join-Same, drain-Same,
}
use runite.Runtime.Tasks.Inv.{Same-trans}
use runite.Runtime.Tasks.Touched.{
  queue_future-Fit, wake_local-Fit, wake_remote-Fit, post-Fit, run_wake-Fit, begin_poll-Fit,
  ready-Fit, panics-Fit, pending-Fit, abort-Fit, answer_join-Fit,
}
use runite.Runtime.Tasks.Idle.{go_idle-Fit, go_idle-Quiet, Unqueued}

module _ {A : Type 0} where
  pub record Inv (s : Thread A) : Type 0 where
    pub positive : 0 < s.next_task_id
    pub ready : s.ready_tasks ≡ length s.microtasks
    pub fit : (b : ℕ) → Fit s b

  -- A step that touches one task.
  at_or_off :
      (a : ℕ) (s t : Thread A)
      → ((b : ℕ) → (b == a) ≡ false → Same s t b)
      → Fit t a
      → ((b : ℕ) → Fit s b)
      → (b : ℕ) → Fit t b
  at_or_off a s t off at f b = elim (Bool-cases (b == a)) [
    | inl e ↦ let q : a ≡ b = ground arith in subst (Fit t) q at
    | inr e ↦ Same-Fit s t b (off b e) (f b)
  ]

  -- The queue of polls and its counter.
  record Counted (s : Thread A) : Type 0 where
    pub positive : 0 < s.next_task_id
    pub ready : s.ready_tasks ≡ length s.microtasks

  answer_join-Counted :
      (x : TaskState) (w a : ℕ) (s : Thread A) → Counted s → Counted (answer_join x w a s).0
  unfolding answer_join set_task
  answer_join-Counted running w a s c = record { positive = c.positive; ready = c.ready }
  answer_join-Counted TaskState.finished w a s c = record { positive = c.positive; ready = c.ready }
  answer_join-Counted TaskState.aborted w a s c = c
  answer_join-Counted TaskState.cancelled w a s c = c
  answer_join-Counted TaskState.panicked w a s c = c

  empty_queue : (s : Thread A) → s.microtasks ≡ [] → ((b : ℕ) → Fit s b) → Unqueued s
  empty_queue s e f b = let c = ap (copies b) e in let g = (f b).polls in ground arith

  Step-Counted : (s t : Thread A) → Step s t → Inv s → Counted t
  unfolding queue_future wake_local wake_remote queue_internal_wake run_wake schedule_task_by_id
      schedule clear_scheduled begin_poll end_poll retire complete mark_terminal abort take_future
      poll_join answer_join drain_remote_tasks set_task
  Step-Counted s _ (spawns h) v =
      let p = v.ready in ground (arith, length-append s.microtasks (s.next_task_id ∷ []))
  Step-Counted s _ (wakes a h) v =
      let p = v.ready in let q = v.positive in ground (arith, length-append s.microtasks (a ∷ []))
  Step-Counted s _ (claims a h) v = let p = v.ready in let q = v.positive in ground arith
  Step-Counted s _ (posts xs ys a e) v = let p = v.ready in let q = v.positive in ground arith
  Step-Counted s _ (drains n) v = record { positive = v.positive; ready = v.ready }
  Step-Counted s _ (runs_wake a rest n e) v =
      let p = v.ready in let q = v.positive in ground (arith, length-append s.microtasks (a ∷ []))
  Step-Counted s _ (begins a rest n e) v =
      let p = v.ready in
      let c = ap length e in record { positive = v.positive; ready = omega arith }
  Step-Counted s _ (ends a (ready x) e) v = let p = v.ready in let q = v.positive in ground arith
  Step-Counted s _ (ends a pending e) v = let p = v.ready in let q = v.positive in ground arith
  Step-Counted s _ (ends a panics e) v = let p = v.ready in let q = v.positive in ground arith
  Step-Counted s _ (aborts a h) v = let p = v.ready in let q = v.positive in ground arith
  Step-Counted s _ (joins w a h) v =
      answer_join-Counted (s.task a).state w a s (record { positive = v.positive; ready = v.ready })
  Step-Counted s _ (idles live worker n e m) v =
      let q = go_idle-Quiet live worker s (empty_queue s e v.fit) in
      let r = v.ready in let p = v.positive in ground (arith, q.next, q.ready, q.microtasks)

  polling_at : (s : Thread A) (a : ℕ) → s.polling ≡ some a → is_at s.polling a ≡ true
  polling_at s a e = let p = ap (λ o. is_at o a) e in ground arith

  Step-Fit : (s t : Thread A) → Step s t → Inv s → (b : ℕ) → Fit t b
  unfolding poll_join
  Step-Fit s _ (spawns h) v =
      at_or_off s.next_task_id s (queue_future s) (λ b e. queue_future-Same b s e)
        (queue_future-Fit s v.positive (v.fit s.next_task_id)) v.fit
  Step-Fit s _ (wakes a h) v =
      at_or_off a s (wake_local a s) (λ b e. wake_local-Same a b e s) (wake_local-Fit a s (v.fit a))
        v.fit
  Step-Fit s _ (claims a h) v =
      at_or_off a s (wake_remote a s) (λ b e. wake_remote-Same a b e s)
        (wake_remote-Fit a s h (v.fit a)) v.fit
  Step-Fit s _ (posts xs ys a p) v =
      let t = record s { posting = xs ++ ys } in
      at_or_off a s (queue_internal_wake a t)
        (λ b e. Same-trans s t _ b (unpost-Same a b e xs ys s p) (queue_internal_wake-Same a b e t))
        (post-Fit a xs ys s p (v.fit a)) v.fit
  Step-Fit s _ (drains n) v = λ b. Same-Fit s (drain_remote_tasks s) b (drain-Same b s) (v.fit b)
  Step-Fit s _ (runs_wake a rest n p) v =
      let t = record s { macrotasks = rest } in
      at_or_off a s (run_wake a t)
        (λ b e. Same-trans s t _ b (pop-Same a b e rest s p) (run_wake-Same a b e t))
        (run_wake-Fit a rest s p (v.fit a)) v.fit
  Step-Fit s _ (begins a rest n p) v =
      at_or_off a s (begin_poll a rest s) (λ b e. begin_poll-Same a b e rest s n p)
        (begin_poll-Fit a rest s n p (v.fit a)) v.fit
  Step-Fit s _ (ends a (ready x) p) v =
      at_or_off a s (end_poll (ready x) a s) (λ b e. end_poll-Same a b e (ready x) s p)
        (unfold end_poll in (ready-Fit a x s (polling_at s a p) (v.fit a))) v.fit
  Step-Fit s _ (ends a pending p) v =
      at_or_off a s (end_poll pending a s) (λ b e. end_poll-Same a b e pending s p)
        (pending-Fit a s (polling_at s a p) (v.fit a)) v.fit
  Step-Fit s _ (ends a panics p) v =
      at_or_off a s (end_poll panics a s) (λ b e. end_poll-Same a b e panics s p)
        (unfold end_poll in (panics-Fit a s (polling_at s a p) (v.fit a))) v.fit
  Step-Fit s _ (aborts a h) v =
      at_or_off a s (abort a s) (λ b e. abort-Same a b e s) (abort-Fit a s (v.fit a)) v.fit
  Step-Fit s _ (joins w a h) v =
      at_or_off a s (answer_join (s.task a).state w a s).0
        (λ b e. answer_join-Same a b e (s.task a).state w s)
        (answer_join-Fit a (s.task a).state w s refl (v.fit a)) v.fit
  Step-Fit s _ (idles live worker n e m) v =
      λ b. go_idle-Fit live worker b s (v.fit b) (empty_queue s e v.fit b) (ap (λ o. is_at o b) n)

  pub Step-Inv : (s t : Thread A) → Step s t → Inv s → Inv t
  Step-Inv s t st v =
      let c = Step-Counted s t st v in
      record { positive = c.positive; ready = c.ready; fit = Step-Fit s t st v }

  pub reached-Inv : (s : Thread A) → Reach Step start s → Inv s
  unfolding start
  reached-Inv s r =
      Reach-keeps Step Inv Step-Inv
        (record { positive = omega arith; ready = refl; fit = λ b. ground arith }) r
