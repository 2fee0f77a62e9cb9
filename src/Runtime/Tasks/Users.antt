-- ===== src/Runtime/Tasks/Users.antt =====
-- What can happen to the tasks of a thread: the turns of its loop, what a task does while it is polled, and
-- wakes from other threads, which may come at any time.
use runite.Prelude.{
  ℕ, suc, ◌<◌, ◌^◌, ◌≡◌, List, [], ◌∷◌, ◌++◌, none, some, Bool, true, false, ◌&&◌, ltb,
}
use runite.Runtime.Tasks.{
  Thread, Polled, blank, wake_local, wake_remote, queue_internal_wake, run_wake, drain_remote_tasks,
  queue_future, begin_poll, end_poll, abort, go_idle, poll_join,
}

module _ {A : Type 0} where
  -- Ids are handed out from 1 on.
  abbrev pub is_spawned : ℕ → Thread A → Bool
  is_spawned a s = ltb 0 a && ltb a s.next_task_id

  unfoldable pub start : Thread A
  start = record {
    task = λ _. blank;
    next_task_id = 1;
    microtasks = [];
    macrotasks = [];
    remote = [];
    posting = [];
    polling = none;
    ready_tasks = 0;
    closed = false;
    woken = [];
    dropped = [];
  }

  -- A spawn supposes that the ids are not used up, since `queue_future` panics otherwise.
  pub data Step (s : Thread A) : Thread A → Type 0 where
    spawns : suc s.next_task_id < 2 ^ 64 → Step s (queue_future s)
    wakes : (a : ℕ) → is_spawned a s ≡ true → Step s (wake_local a s)
    claims : (a : ℕ) → is_spawned a s ≡ true → Step s (wake_remote a s)
    posts :
        (xs ys : List ℕ) (a : ℕ)
        → s.posting ≡ xs ++ a ∷ ys
        → Step s (queue_internal_wake a (record s { posting = xs ++ ys }))
    drains : s.polling ≡ none → Step s (drain_remote_tasks s)
    runs_wake :
        (a : ℕ) (rest : List ℕ)
        → s.polling ≡ none
        → s.macrotasks ≡ a ∷ rest
        → Step s (run_wake a (record s { macrotasks = rest }))
    begins :
        (a : ℕ) (rest : List ℕ)
        → s.polling ≡ none
        → s.microtasks ≡ a ∷ rest
        → Step s (begin_poll a rest s)
    ends : (a : ℕ) (o : Polled A) → s.polling ≡ some a → Step s (end_poll o a s)
    aborts : (a : ℕ) → is_spawned a s ≡ true → Step s (abort a s)
    joins : (waker a : ℕ) → is_spawned a s ≡ true → Step s (poll_join waker a s).0
    idles :
        (live worker : Bool)
        → s.polling ≡ none
        → s.microtasks ≡ []
        → s.macrotasks ≡ []
        → Step s (go_idle live worker s)
