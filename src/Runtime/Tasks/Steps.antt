-- ===== src/Runtime/Tasks/Steps.antt =====
-- The steps leave the other tasks alone.
use runite.Prelude.{
  ℕ, suc, ◌≡◌, refl, sym, ap, ◌∙◌, List, [], ◌∷◌, ◌++◌, none, some, Bool, true, false, ◌==◌,
  if◌then◌else◌, copies, copies-append, arith,
}
use runite.Runtime.Tasks.{
  Task, Thread, TaskState, Polled, ready, pending, panics, is_running, is_aborted, running, blank,
  set_task, schedule, schedule_task_by_id, wake_local, wake_remote, clear_scheduled,
  queue_internal_wake, run_wake, drain_remote_tasks, queue_future, begin_poll, mark_terminal,
  complete, retire, end_poll, take_future, abort, unqueue, cancel_task, answer_join,
}
use runite.Runtime.Tasks.Inv.{is_at, Same, Same-trans}

module _ {A : Type 0} where
  pub Same-refl : (s : Thread A) (b : ℕ) → Same s s b
  Same-refl s b = record {
    task = refl;
    spawned = refl;
    microtasks = refl;
    wakes = refl;
    polling = refl;
    dropped = refl;
  }

  pub Same-if :
      (b : ℕ) (t : Bool) (s x y : Thread A)
      → Same s x b
      → Same s y b
      → Same s (if t then x else y) b
  Same-if b true s x y p q = p
  Same-if b false s x y p q = q

  module _ (a b : ℕ) (other : (b == a) ≡ false) where
    pub set_task-Same : (t : Task A) (s : Thread A) → Same s (set_task a t s) b
    unfolding set_task
    set_task-Same t s = record {
      task = rw other refl;
      spawned = refl;
      microtasks = refl;
      wakes = refl;
      polling = refl;
      dropped = refl;
    }

    pub schedule-Same : (s : Thread A) → Same s (schedule a s) b
    unfolding schedule set_task
    schedule-Same s = Same-if b (s.task a).queued s s _ (Same-refl s b) (record {
      task = rw other refl;
      spawned = refl;
      microtasks = ground (arith, copies-append s.microtasks (a ∷ []) b);
      wakes = refl;
      polling = refl;
      dropped = refl;
    })

    pub schedule_task_by_id-Same : (s : Thread A) → Same s (schedule_task_by_id a s) b
    unfolding schedule_task_by_id
    schedule_task_by_id-Same s =
        Same-if b (s.task a).registered s _ s (schedule-Same s) (Same-refl s b)

    pub wake_local-Same : (s : Thread A) → Same s (wake_local a s) b
    unfolding wake_local
    wake_local-Same s =
        Same-if b (s.task a).scheduled s s _ (Same-refl s b) (schedule_task_by_id-Same s)

    pub wake_remote-Same : (s : Thread A) → Same s (wake_remote a s) b
    unfolding wake_remote set_task
    wake_remote-Same s = Same-if b (s.task a).scheduled s s _ (Same-refl s b) (record {
      task = rw other refl;
      spawned = refl;
      microtasks = refl;
      wakes = ground arith;
      polling = refl;
      dropped = refl;
    })

    pub clear_scheduled-Same : (s : Thread A) → Same s (clear_scheduled a s) b
    unfolding clear_scheduled
    clear_scheduled-Same s = set_task-Same (record (s.task a) { scheduled = false }) s

    pub queue_internal_wake-Same : (s : Thread A) → Same s (queue_internal_wake a s) b
    unfolding queue_internal_wake
    queue_internal_wake-Same s = Same-if b s.closed s _ _ (clear_scheduled-Same s) (record {
      task = refl;
      spawned = refl;
      microtasks = refl;
      wakes = ground (arith, copies-append s.remote (a ∷ []) b);
      polling = refl;
      dropped = refl;
    })

    pub unpost-Same :
        (xs ys : List ℕ) (s : Thread A)
        → s.posting ≡ xs ++ a ∷ ys
        → Same s (record s { posting = xs ++ ys }) b
    unpost-Same xs ys s e = record {
      task = refl;
      spawned = refl;
      microtasks = refl;
      wakes =
          let f = ap (copies b) e in
          ground (arith, copies-append xs (a ∷ ys) b, copies-append xs ys b);
      polling = refl;
      dropped = refl;
    }

    pub pop-Same :
        (rest : List ℕ) (s : Thread A)
        → s.macrotasks ≡ a ∷ rest
        → Same s (record s { macrotasks = rest }) b
    pop-Same rest s e = record {
      task = refl;
      spawned = refl;
      microtasks = refl;
      wakes = let f = ap (copies b) e in ground arith;
      polling = refl;
      dropped = refl;
    }

    pub run_wake-Same : (s : Thread A) → Same s (run_wake a s) b
    unfolding run_wake
    run_wake-Same s =
        Same-trans s (clear_scheduled a s) _ b (clear_scheduled-Same s)
          (schedule_task_by_id-Same (clear_scheduled a s))

    pub begin_poll-Same :
        (rest : List ℕ) (s : Thread A)
        → s.polling ≡ none
        → s.microtasks ≡ a ∷ rest
        → Same s (begin_poll a rest s) b
    unfolding begin_poll set_task
    begin_poll-Same rest s n e = record {
      task = rw other refl;
      spawned = refl;
      microtasks = let f = ap (copies b) e in ground arith;
      wakes = refl;
      polling = let f = ap (λ o. is_at o b) n in ground arith;
      dropped = refl;
    }

    pub mark_terminal-Same : (x : TaskState) (s : Thread A) → Same s (mark_terminal x a s) b
    unfolding mark_terminal set_task
    mark_terminal-Same x s =
        Same-if b (is_running (s.task a).state) s _ s
          (record {
            task = rw other refl;
            spawned = refl;
            microtasks = refl;
            wakes = refl;
            polling = refl;
            dropped = refl;
          })
          (Same-refl s b)

    pub complete-Same : (v : A) (s : Thread A) → Same s (complete v a s) b
    unfolding complete set_task
    complete-Same v s =
        Same-if b (is_running (s.task a).state) s _ s
          (record {
            task = rw other refl;
            spawned = refl;
            microtasks = refl;
            wakes = refl;
            polling = refl;
            dropped = refl;
          })
          (Same-refl s b)

    pub retire-Same : (s : Thread A) → is_at s.polling b ≡ false → Same s (retire a s) b
    unfolding retire set_task
    retire-Same s e = record {
      task = rw other refl;
      spawned = refl;
      microtasks = refl;
      wakes = refl;
      polling = sym e;
      dropped = ground arith;
    }

    off_stack : (s : Thread A) → s.polling ≡ some a → is_at s.polling b ≡ false
    off_stack s e = ap (λ o. is_at o b) e ∙ other

    pub retired-Same : (s t : Thread A) → s.polling ≡ some a → Same s t b → Same s (retire a t) b
    retired-Same s t e k =
        Same-trans s t (retire a t) b k (retire-Same t (k.polling ∙ off_stack s e))

    pub end_poll-Same :
        (o : Polled A) (s : Thread A) → s.polling ≡ some a → Same s (end_poll o a s) b
    unfolding end_poll set_task
    end_poll-Same (ready v) s e = retired-Same s (complete v a s) e (complete-Same v s)
    end_poll-Same panics s e =
        retired-Same s (mark_terminal TaskState.panicked a s) e
          (mark_terminal-Same TaskState.panicked s)
    end_poll-Same pending s e =
        Same-if b (is_aborted (s.task a).state) s _ _
          (record {
            task = refl;
            spawned = refl;
            microtasks = refl;
            wakes = refl;
            polling = sym (off_stack s e);
            dropped = ground arith;
          })
          (record {
            task = rw other refl;
            spawned = refl;
            microtasks = refl;
            wakes = refl;
            polling = sym (off_stack s e);
            dropped = refl;
          })

    pub take_future-Same : (s : Thread A) → Same s (take_future a s) b
    unfolding take_future set_task
    take_future-Same s = record {
      task = rw other refl;
      spawned = refl;
      microtasks = refl;
      wakes = refl;
      polling = refl;
      dropped = ground arith;
    }

    pub abort-Same : (s : Thread A) → Same s (abort a s) b
    unfolding abort
    abort-Same s =
        let t = mark_terminal TaskState.aborted a s in
        Same-if b (is_running (s.task a).state) s _ s
          (Same-trans s t (take_future a t) b (mark_terminal-Same TaskState.aborted s)
            (take_future-Same t))
          (Same-refl s b)

    pub answer_join-Same :
        (x : TaskState) (waker : ℕ) (s : Thread A) → Same s (answer_join x waker a s).0 b
    unfolding answer_join
    answer_join-Same running waker s =
        set_task-Same (record (s.task a) { join_waker = some waker }) s
    answer_join-Same TaskState.finished waker s =
        set_task-Same (record (s.task a) { result = none }) s
    answer_join-Same TaskState.aborted waker s = Same-refl s b
    answer_join-Same TaskState.cancelled waker s = Same-refl s b
    answer_join-Same TaskState.panicked waker s = Same-refl s b

    pub unqueue-Same : (s : Thread A) → Same s (unqueue a s) b
    unfolding unqueue set_task
    unqueue-Same s =
        Same-if b (s.task a).queued s _ s
          (record {
            task = rw other refl;
            spawned = refl;
            microtasks = refl;
            wakes = refl;
            polling = refl;
            dropped = refl;
          })
          (Same-refl s b)

    pub cancel_task-Same : (s : Thread A) → Same s (cancel_task a s) b
    unfolding cancel_task
    cancel_task-Same s =
        let t = mark_terminal TaskState.cancelled a s in
        let u = unqueue a t in
        Same-if b (is_running (s.task a).state) s _ s
          (Same-trans s u (take_future a u) b
            (Same-trans s t u b (mark_terminal-Same TaskState.cancelled s) (unqueue-Same t))
            (take_future-Same u))
          (Same-refl s b)

  pub queue_future-Same :
      (b : ℕ) (s : Thread A) → (b == s.next_task_id) ≡ false → Same s (queue_future s) b
  unfolding queue_future set_task
  queue_future-Same b s other =
      let t : Task A = record blank { registered = true; future = true } in
      let u = record (set_task s.next_task_id t s) { next_task_id = suc s.next_task_id } in
      Same-trans s u (schedule s.next_task_id u) b
        (record {
          task = rw other refl;
          spawned = ground arith;
          microtasks = refl;
          wakes = refl;
          polling = refl;
          dropped = refl;
        })
        (schedule-Same s.next_task_id b other u)

  pub drain-Same : (b : ℕ) (s : Thread A) → Same s (drain_remote_tasks s) b
  unfolding drain_remote_tasks
  drain-Same b s = record {
    task = refl;
    spawned = refl;
    microtasks = refl;
    wakes = omega (arith, copies-append s.macrotasks s.remote b);
    polling = refl;
    dropped = refl;
  }
