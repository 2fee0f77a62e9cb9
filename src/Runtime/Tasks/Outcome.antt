-- ===== src/Runtime/Tasks/Outcome.antt =====
-- What a join handle reports of its task.
use runite.Prelude.{
  ℕ, ◌≡◌, refl, ap, ◌∙◌, Option, none, some, true, false, Reach, Reach-keeps, arith,
}
use runite.Runtime.Tasks.{
  Thread, TaskState, ready, pending, panics, Joined, waits, value, fails, panic, join_aborted,
  join_panicked, is_running, running, set_task, wake_join, mark_terminal, complete, retire,
  end_poll, take_future, abort, unqueue, cancel_task, join_cancelled, answer_join, poll_join,
}
use runite.Runtime.Tasks.Users.{is_spawned, Step}
use runite.Runtime.Tasks.Ended.{Stays, Step-Stays}

running_of : (x : TaskState) → is_running x ≡ true → x ≡ running
running_of running e = refl
running_of TaskState.finished e = ground arith
running_of TaskState.aborted e = ground arith
running_of TaskState.cancelled e = ground arith
running_of TaskState.panicked e = ground arith

module _ {A : Type 0} where
  -- A task that has ended, whether it completed, panicked, was aborted or was cancelled, keeps that state
  -- through every further history.
  pub outcome_is_final :
      (s t : Thread A) (a : ℕ)
      → is_spawned a s ≡ true
      → is_running (s.task a).state ≡ false
      → Reach Step s t
      → (t.task a).state ≡ (s.task a).state
  outcome_is_final s t a p e r =
      (Reach-keeps Step (λ u. Stays s u a)
        (λ u v st h. let k = Step-Stays a u v st h.1 (ap is_running h.0 ∙ e) in (k.0 ∙ h.0, k.1))
        (refl, p) r).0

  aborted_state :
      (a : ℕ) (s : Thread A)
      → is_running (s.task a).state ≡ true
      → ((abort a s).task a).state ≡ TaskState.aborted
  unfolding abort mark_terminal take_future set_task
  aborted_state a s e = ground arith

  abort-spawned : (a : ℕ) (s : Thread A) → is_spawned a s ≡ true → is_spawned a (abort a s) ≡ true
  unfolding abort mark_terminal take_future set_task
  abort-spawned a s e = ground arith

  abort-woken :
      (a : ℕ) (s : Thread A)
      → is_running (s.task a).state ≡ true
      → (abort a s).woken ≡ wake_join (s.task a).join_waker s.woken
  unfolding abort mark_terminal take_future set_task
  abort-woken a s e = ground arith

  abbrev reply : TaskState → Option A → Joined A
  reply running r = waits
  reply TaskState.finished none = panic
  reply TaskState.finished (some v) = value v
  reply TaskState.aborted r = fails join_aborted
  reply TaskState.cancelled r = fails join_cancelled
  reply TaskState.panicked r = fails join_panicked

  replies :
      (x : TaskState) (r : Option A) (w a : ℕ) (t : Thread A)
      → (t.task a).state ≡ x
      → (t.task a).result ≡ r
      → (poll_join w a t).1 ≡ reply x r
  unfolding poll_join answer_join
  replies running r w a t e f = rw e refl
  replies TaskState.finished none w a t e f = rw (e, f) refl
  replies TaskState.finished (some v) w a t e f = rw (e, f) refl
  replies TaskState.aborted r w a t e f = rw e refl
  replies TaskState.cancelled r w a t e f = rw e refl
  replies TaskState.panicked r w a t e f = rw e refl

  -- To abort a running task calls the waker of the join handle that waits, if one does, and from then on, even if the
  -- abort came while the task was being polled and that poll returns a value, the join handle answers that
  -- the task was aborted.
  pub abort_wins :
      (s t : Thread A) (waker a : ℕ)
      → is_spawned a s ≡ true
      → is_running (s.task a).state ≡ true
      → Reach Step (abort a s) t
      → ((abort a s).woken ≡ wake_join (s.task a).join_waker s.woken)
        × ((poll_join waker a t).1 ≡ fails join_aborted)
  abort_wins s t w a p e r =
      let x = aborted_state a s e in
      (
        abort-woken a s e,
        replies TaskState.aborted (t.task a).result w a t
            (outcome_is_final (abort a s) t a (abort-spawned a s p) (ap is_running x ∙ refl) r ∙ x)
            refl,
      )

  -- What the polls and the cancellation of a running task do for its join handle: each calls the waker of
  -- the join handle that waits, and the join handle then answers with the value, or that the task panicked
  -- or was cancelled. After a poll that is pending it goes on waiting.
  pub join_reports_outcome :
      (s : Thread A) (waker a : ℕ) (v : A)
      → is_running (s.task a).state ≡ true
      → (((poll_join waker a (end_poll (ready v) a s)).1 ≡ value v)
          × ((end_poll (ready v) a s).woken ≡ wake_join (s.task a).join_waker s.woken))
        × (((poll_join waker a (end_poll panics a s)).1 ≡ fails join_panicked)
            × ((end_poll panics a s).woken ≡ wake_join (s.task a).join_waker s.woken))
        × (((poll_join waker a (cancel_task a s)).1 ≡ fails join_cancelled)
            × ((cancel_task a s).woken ≡ wake_join (s.task a).join_waker s.woken))
        × (((poll_join waker a (end_poll pending a s)).1 ≡ waits)
            × ((end_poll pending a s).woken ≡ s.woken))
  unfolding end_poll complete retire mark_terminal set_task cancel_task take_future unqueue
  join_reports_outcome s w a v e = (
    (
      replies TaskState.finished (some v) w a (end_poll (ready v) a s) (ground arith)
          (ground arith),
      ground arith,
    ),
    (
      replies TaskState.panicked (s.task a).result w a (end_poll panics a s) (ground arith)
          (ground arith),
      ground arith,
    ),
    (
      replies TaskState.cancelled (s.task a).result w a (cancel_task a s) (ground arith)
          (ground arith),
      ground arith,
    ),
    (
      replies running (s.task a).result w a (end_poll pending a s)
          (let z = running_of (s.task a).state e in ground arith) (ground arith),
      ground arith,
    ),
  )
