-- ===== src/Runtime/Tasks/Inv.antt =====
-- What holds of every task of a thread, and of the tasks that a step does not touch.
use runite.Prelude.{
  ℕ, ◌+◌, ◌≡◌, sym, ap, ◌∙◌, Option, none, some, Bool, true, false, not, ◌&&◌, ◌||◌, ◌==◌, bit,
  copies,
}
use runite.Runtime.Tasks.Users.{is_spawned}
use runite.Runtime.Tasks.{Task, Thread, is_running, is_finished, is_aborted}

abbrev pub is_some : {A : Type 0} → Option A → Bool
is_some none = false
is_some (some a) = true

abbrev pub is_at : Option ℕ → ℕ → Bool
is_at none b = false
is_at (some a) b = b == a

module _ {A : Type 0} where
  -- The wakes of a task that other threads have sent and the loop has not run.
  abbrev pub wakes_of : ℕ → Thread A → ℕ
  wakes_of b s = copies b s.macrotasks + copies b s.remote + copies b s.posting

  -- What holds of one task. A task is registered while it runs; its future is then in its cell or on the
  -- stack, and is dropped once in the end.
  pub record Fit (s : Thread A) (b : ℕ) : Type 0 where
    pub polls : copies b s.microtasks ≡ bit (s.task b).queued
    pub wakes : wakes_of b s ≡ bit (s.task b).scheduled
    pub spawned_queued : ((s.task b).queued && not (is_spawned b s)) ≡ false
    pub spawned_scheduled : ((s.task b).scheduled && not (is_spawned b s)) ≡ false
    pub registered : (s.task b).registered ≡ (is_spawned b s && is_running (s.task b).state)
    pub future : (s.task b).future ≡ ((s.task b).registered && not (is_at s.polling b))
    pub stack :
        (is_at s.polling b && not (is_running (s.task b).state || is_aborted (s.task b).state))
        ≡ false
    pub spawned_stack : (is_at s.polling b && not (is_spawned b s)) ≡ false
    pub joiner : (not (is_running (s.task b).state) && is_some (s.task b).join_waker) ≡ false
    pub result : (not (is_finished (s.task b).state) && is_some (s.task b).result) ≡ false
    pub drops :
        copies b s.dropped + bit (s.task b).future + bit (is_at s.polling b) ≡ bit (is_spawned b s)

  -- A step that leaves the task `b` alone.
  pub record Same (s s' : Thread A) (b : ℕ) : Type 0 where
    pub task : s'.task b ≡ s.task b
    pub spawned : is_spawned b s' ≡ is_spawned b s
    pub microtasks : copies b s'.microtasks ≡ copies b s.microtasks
    pub wakes : wakes_of b s' ≡ wakes_of b s
    pub polling : is_at s'.polling b ≡ is_at s.polling b
    pub dropped : copies b s'.dropped ≡ copies b s.dropped

  pub Same-Fit : (s s' : Thread A) (b : ℕ) → Same s s' b → Fit s b → Fit s' b
  Same-Fit s s' b e f = record {
    polls = e.microtasks ∙ f.polls ∙ ap (λ (t : Task A). bit t.queued) (sym e.task);
    wakes = e.wakes ∙ f.wakes ∙ ap (λ (t : Task A). bit t.scheduled) (sym e.task);
    spawned_queued = rw (e.task, e.spawned) f.spawned_queued;
    spawned_scheduled = rw (e.task, e.spawned) f.spawned_scheduled;
    registered = rw (e.task, e.spawned) f.registered;
    future = rw (e.task, e.polling) f.future;
    stack = rw (e.task, e.polling) f.stack;
    spawned_stack = rw (e.polling, e.spawned) f.spawned_stack;
    joiner = rw e.task f.joiner;
    result = rw e.task f.result;
    drops = rw (e.task, e.polling, e.spawned, e.dropped) f.drops;
  }

  pub Same-trans : (s t u : Thread A) (b : ℕ) → Same s t b → Same t u b → Same s u b
  Same-trans s t u b p q = record {
    task = q.task ∙ p.task;
    spawned = q.spawned ∙ p.spawned;
    microtasks = q.microtasks ∙ p.microtasks;
    wakes = q.wakes ∙ p.wakes;
    polling = q.polling ∙ p.polling;
    dropped = q.dropped ∙ p.dropped;
  }
