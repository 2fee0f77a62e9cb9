-- ===== src/Runtime/Tasks/Safety.antt =====
-- What the tasks of a thread and those who wait for them may rely on.
use runite.Prelude.{
  ℕ, ◌≡◌, ap, ◌∙◌, ◌⊎◌, inl, inr, List, none, true, false, not, ◌||◌, Bool-cases, bit, length,
  copies, Reach, Reach-keeps, arith,
}
use runite.Runtime.Tasks.{
  Thread, is_running, set_task, schedule, schedule_task_by_id, wake_local, wake_remote, begin_poll,
}
use runite.Runtime.Tasks.Users.{is_spawned, start, Step, wakes, claims}
use runite.Runtime.Tasks.Inv.{is_at}
use runite.Runtime.Tasks.Wakeups.{Woken, flagged, Fit-Woken, Step-flagged}
use runite.Runtime.Tasks.Kept.{Inv, Step-Inv, reached-Inv}
use runite.Runtime.Tasks.Ended.{Step-spawned, Step-Stays}

module _ {A : Type 0} where
  -- After any history of spawns, wakes from this and other threads, polls with any outcome, aborts, polls of
  -- join handles and idle turns: a task has a poll in the microtask queue exactly if it is marked as
  -- queued, and then one, and `ready_tasks` is the number of queued polls.
  pub polls_are_coalesced :
      (s : Thread A) (b : ℕ)
      → Reach Step start s
      → (copies b s.microtasks ≡ bit (s.task b).queued) × (s.ready_tasks ≡ length s.microtasks)
  polls_are_coalesced s b r = let v = reached-Inv s r in ((v.fit b).polls, v.ready)

  -- After any history of a thread's tasks, a queued poll of a task that has ended, because it completed, panicked, was
  -- aborted or was cancelled, does not poll its future.
  pub no_poll_after_end :
      (s : Thread A) (a : ℕ) (rest : List ℕ)
      → Reach Step start s
      → is_running (s.task a).state ≡ false
      → (begin_poll a rest s).polling ≡ none
  unfolding begin_poll
  no_poll_after_end s a rest r e =
      let f = (reached-Inv s r).fit a in let g = f.registered in let h = f.future in ground arith

  -- After any history of a thread's tasks, the future of a spawned task has been dropped exactly once if the task has ended
  -- and is not on the stack, and never otherwise.
  pub future_is_dropped_once :
      (s : Thread A) (a : ℕ)
      → Reach Step start s
      → is_spawned a s ≡ true
      → copies a s.dropped ≡ bit (not (is_running (s.task a).state || is_at s.polling a))
  future_is_dropped_once s a r e =
      let f = (reached-Inv s r).fit a in
      let d = f.drops in let g = f.future in let h = f.registered in ground arith

  -- A step after which the task is not being polled, on a thread that was not closed.
  pub data Quietly (a : ℕ) (s t : Thread A) : Type 0 where
    quietly : Step s t → s.closed ≡ false → is_at t.polling a ≡ false → Quietly a s t

  -- What holds on the way: the task has ended, or a poll or a wake of it is waiting.
  record Waits (a : ℕ) (s : Thread A) : Type 0 where
    inv : Inv s
    spawned : is_spawned a s ≡ true
    waiting : (flagged s a || not (is_running (s.task a).state)) ≡ true

  Quietly-Waits : (a : ℕ) (s t : Thread A) → Quietly a s t → Waits a s → Waits a t
  Quietly-Waits a s t (quietly st c off) w = record {
    inv = Step-Inv s t st w.inv;
    spawned = Step-spawned a s t st w.spawned;
    waiting = elim (Bool-cases (is_running (s.task a).state)) [
      | inl e ↦
          let h = w.waiting in let g = Step-flagged a s t st w.inv c (ground arith) in ground arith
      | inr e ↦
          let k = (Step-Stays a s t st w.spawned e).0 in let l = ap is_running k ∙ e in ground arith
    ];
  }

  wake_local-Waits :
      (a : ℕ) (s : Thread A) → Inv s → is_spawned a s ≡ true → Waits a (wake_local a s)
  unfolding wake_local schedule_task_by_id schedule set_task
  wake_local-Waits a s v p = record {
    inv = Step-Inv s (wake_local a s) (wakes a p) v;
    spawned = Step-spawned a s (wake_local a s) (wakes a p) p;
    waiting = let f = (v.fit a).registered in ground arith;
  }

  wake_remote-Waits :
      (a : ℕ) (s : Thread A) → Inv s → is_spawned a s ≡ true → Waits a (wake_remote a s)
  unfolding wake_remote set_task
  wake_remote-Waits a s v p = record {
    inv = Step-Inv s (wake_remote a s) (claims a p) v;
    spawned = Step-spawned a s (wake_remote a s) (claims a p) p;
    waiting = ground arith;
  }

  Waits-Woken : (a : ℕ) (t : Thread A) → Waits a t → is_running (t.task a).state ≡ true → Woken t a
  Waits-Woken a t w e = Fit-Woken t a (w.inv.fit a) (let h = w.waiting in ground arith)

  -- After any history of a thread's tasks, let a running task be woken from this thread or from another one. As long as
  -- the task is not being polled after any step, and the thread is not closed, the task has ended, or a poll
  -- of it is in the microtask queue, or a wake of it is on its way: no wake is lost.
  pub wake_leads_to_poll :
      (s t : Thread A) (a : ℕ)
      → Reach Step start s
      → is_spawned a s ≡ true
      → Reach (Quietly a) (wake_local a s) t ⊎ Reach (Quietly a) (wake_remote a s) t
      → is_running (t.task a).state ≡ true
      → Woken t a
  wake_leads_to_poll s t a r p q e =
      let v = reached-Inv s r in
      elim q [
        | inl k ↦
            Waits-Woken a t
              (Reach-keeps (Quietly a) (Waits a) (Quietly-Waits a) (wake_local-Waits a s v p) k) e
        | inr k ↦
            Waits-Woken a t
              (Reach-keeps (Quietly a) (Waits a) (Quietly-Waits a) (wake_remote-Waits a s v p) k) e
      ]
