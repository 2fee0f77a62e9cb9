-- ===== src/Runtime/Tasks/Idle.antt =====
-- What `commit_idle` and the cancellation that follows it do.
use mathlib.Core.Path.{subst}
use runite.Prelude.{
  ℕ, zero, suc, ◌≡◌, refl, ap, ◌∙◌, ◌⊎◌, inl, inr, List, [], ◌∷◌, Bool, true, false, not, ◌&&◌,
  ◌||◌, ◌==◌, Bool-cases, ltb, is_empty, if◌then◌else◌, bit, copies, copies-append, arith,
}
use runite.Runtime.Tasks.{
  Task, Thread, IdleCommit, is_running, set_task, mark_terminal, take_future, unqueue, cancel_task,
  cancel_all, registered_ids, take_registry, commit_idle, committed, go_idle,
}
use runite.Runtime.Tasks.Inv.{is_at, Fit, Same, Same-Fit}
use runite.Runtime.Tasks.Steps.{cancel_task-Same}

module _ {A : Type 0} where
  copies-registered_ids :
      (n b : ℕ) (s : Thread A)
      → copies b (registered_ids n s) ≡ bit (ltb b n && (s.task b).registered)
  unfolding registered_ids
  copies-registered_ids zero b s = ground arith
  copies-registered_ids (suc n) b s =
      let ih = copies-registered_ids n b s in
      let c = copies-append (registered_ids n s) (n ∷ []) b in
      elim (Bool-cases (b == n)) [
        | inl e ↦
            let q : b ≡ n = ground arith in
            let r = ap (λ k. (s.task k).registered) q in ground arith
        | inr e ↦ ground arith
      ]

  -- A task that was taken from the registry and is still to be cancelled.
  pub record Due (s : Thread A) (b : ℕ) : Type 0 where
    pub was : Fit (set_task b (record (s.task b) { registered = true }) s) b
    pub off : (s.task b).registered ≡ false
    pub idle : is_at s.polling b ≡ false
    pub unqueued : (s.task b).queued ≡ false

  Same-Due : (s t : Thread A) (b : ℕ) → Same s t b → Due s b → Due t b
  unfolding set_task
  Same-Due s t b e d = record {
    was =
        Same-Fit (set_task b (record (s.task b) { registered = true }) s)
          (set_task b (record (t.task b) { registered = true }) t) b
          (record {
            task = ground (arith, e.task);
            spawned = e.spawned;
            microtasks = e.microtasks;
            wakes = e.wakes;
            polling = e.polling;
            dropped = e.dropped;
          })
          d.was;
    off = ap (λ (x : Task A). x.registered) e.task ∙ d.off;
    idle = e.polling ∙ d.idle;
    unqueued = ap (λ (x : Task A). x.queued) e.task ∙ d.unqueued;
  }

  cancel_task-Fit : (b : ℕ) (s : Thread A) → Due s b → Fit (cancel_task b s) b
  unfolding cancel_task mark_terminal take_future unqueue set_task
  cancel_task-Fit b s d = let f = d.was in ground arith

  -- Every task is settled, or is on the list once and due.
  cancel_all-Fit :
      (ids : List ℕ) (b : ℕ) (s : Thread A)
      → ((copies b ids ≡ 0) × Fit s b) ⊎ ((copies b ids ≡ 1) × Due s b)
      → Fit (cancel_all ids s) b
  unfolding cancel_all
  cancel_all-Fit [] b s (inl h) = h.1
  cancel_all-Fit [] b s (inr h) = ground (arith, h.0)
  cancel_all-Fit (a ∷ ids) b s (inl (c, f)) = elim (Bool-cases (b == a)) [
    | inl e ↦ ground arith
    | inr e ↦
        cancel_all-Fit ids b (cancel_task a s)
          (inl (ground arith, Same-Fit s (cancel_task a s) b (cancel_task-Same a b e s) f))
  ]
  cancel_all-Fit (a ∷ ids) b s (inr (c, d)) = elim (Bool-cases (b == a)) [
    | inl e ↦
        let q : b ≡ a = ground arith in
        subst (λ k. Fit (cancel_all ids (cancel_task k s)) b) q
          (cancel_all-Fit ids b (cancel_task b s) (inl (ground arith, cancel_task-Fit b s d)))
    | inr e ↦
        cancel_all-Fit ids b (cancel_task a s)
          (inr (ground arith, Same-Due s (cancel_task a s) b (cancel_task-Same a b e s) d))
  ]

  -- No poll is queued when the thread goes idle.
  abbrev pub Unqueued : Thread A → Type 0
  Unqueued s = (b : ℕ) → (s.task b).queued ≡ false

  pub record Quiet (s t : Thread A) : Type 0 where
    pub microtasks : t.microtasks ≡ s.microtasks
    pub ready : t.ready_tasks ≡ s.ready_tasks
    pub next : t.next_task_id ≡ s.next_task_id

  cancel_task-Quiet : (a : ℕ) (s : Thread A) → (s.task a).queued ≡ false → Quiet s (cancel_task a s)
  unfolding cancel_task mark_terminal take_future unqueue set_task
  cancel_task-Quiet a s e = ground arith

  cancel_task-Unqueued : (a : ℕ) (s : Thread A) → Unqueued s → Unqueued (cancel_task a s)
  unfolding cancel_task mark_terminal take_future unqueue set_task
  cancel_task-Unqueued a s h b = ground (arith, h a, h b)

  cancel_all-Quiet : (ids : List ℕ) (s : Thread A) → Unqueued s → Quiet s (cancel_all ids s)
  unfolding cancel_all
  cancel_all-Quiet [] s h = record { microtasks = refl; ready = refl; next = refl }
  cancel_all-Quiet (a ∷ ids) s h =
      let p = cancel_task-Quiet a s (h a) in
      let q = cancel_all-Quiet ids (cancel_task a s) (cancel_task-Unqueued a s h) in
      record {
        microtasks = q.microtasks ∙ p.microtasks;
        ready = q.ready ∙ p.ready;
        next = q.next ∙ p.next;
      }

  cancel_task-next : (a : ℕ) (s : Thread A) → (cancel_task a s).next_task_id ≡ s.next_task_id
  unfolding cancel_task mark_terminal take_future unqueue set_task
  cancel_task-next a s = ground arith

  pub cancel_all-next :
      (ids : List ℕ) (s : Thread A) → (cancel_all ids s).next_task_id ≡ s.next_task_id
  unfolding cancel_all
  cancel_all-next [] s = refl
  cancel_all-next (a ∷ ids) s = cancel_all-next ids (cancel_task a s) ∙ cancel_task-next a s

  cancel_task-scheduled :
      (a b : ℕ) (s : Thread A) → ((cancel_task a s).task b).scheduled ≡ (s.task b).scheduled
  unfolding cancel_task mark_terminal take_future unqueue set_task
  cancel_task-scheduled a b s = elim (Bool-cases (b == a)) [
    | inl e ↦
        let q : b ≡ a = ground arith in let r = ap (λ k. (s.task k).scheduled) q in ground arith
    | inr e ↦ ground arith
  ]

  -- A wake under way stays so.
  pub cancel_all-scheduled :
      (ids : List ℕ) (b : ℕ) (s : Thread A)
      → ((cancel_all ids s).task b).scheduled ≡ (s.task b).scheduled
  unfolding cancel_all
  cancel_all-scheduled [] b s = refl
  cancel_all-scheduled (a ∷ ids) b s =
      cancel_all-scheduled ids b (cancel_task a s) ∙ cancel_task-scheduled a b s

  cancel_task-ended :
      (a b : ℕ) (s : Thread A)
      → is_running (s.task b).state ≡ false
      → ((cancel_task a s).task b).state ≡ (s.task b).state
  unfolding cancel_task mark_terminal take_future unqueue set_task
  cancel_task-ended a b s h = elim (Bool-cases (b == a)) [
    | inl e ↦ let q : b ≡ a = ground arith in let r = ap (λ k. (s.task k).state) q in ground arith
    | inr e ↦ ground arith
  ]

  -- The cancellation leaves a task alone that has ended.
  pub cancel_all-ended :
      (ids : List ℕ) (b : ℕ) (s : Thread A)
      → is_running (s.task b).state ≡ false
      → ((cancel_all ids s).task b).state ≡ (s.task b).state
  unfolding cancel_all
  cancel_all-ended [] b s h = refl
  cancel_all-ended (a ∷ ids) b s h =
      let q = cancel_task-ended a b s h in
      cancel_all-ended ids b (cancel_task a s) (ap is_running q ∙ h) ∙ q

  -- Every task is on the list of those that were registered, or is settled.
  taken :
      (b : ℕ) (s : Thread A)
      → Fit s b
      → (s.task b).queued ≡ false
      → is_at s.polling b ≡ false
      → ((copies b (registered_ids s.next_task_id s) ≡ 0) × Fit (take_registry s) b)
        ⊎ ((copies b (registered_ids s.next_task_id s) ≡ 1) × Due (take_registry s) b)
  unfolding take_registry set_task
  taken b s f u i =
      let c = copies-registered_ids s.next_task_id b s in
      elim (Bool-cases (s.task b).registered) [
        | inl e ↦ inr (
          let g = f.registered in ground arith,
          record { was = ground arith; off = refl; idle = i; unqueued = u },
        )
        | inr e ↦ inl (ground arith, ground arith)
      ]

  committed_if :
      (P : Thread A → Type 0) (t : Bool) (x y : Thread A × IdleCommit)
      → P (committed x)
      → P (committed y)
      → P (committed (if t then x else y))
  committed_if P true x y p q = p
  committed_if P false x y p q = q

  -- The answers of `commit_idle` that change no task, and the one that takes all of them.
  pub go_idle_cases :
      (P : Thread A → Type 0) (live worker : Bool) (s : Thread A)
      → P s
      → P (record s { closed = true })
      → P (cancel_all (registered_ids s.next_task_id s) (take_registry s))
      → P (go_idle live worker s)
  unfolding go_idle commit_idle
  go_idle_cases P live worker s p q r = committed_if P (not (is_empty s.remote) || live) _ _ p (
      committed_if P (not (is_empty (registered_ids s.next_task_id s))) _ _ r
        (committed_if P worker _ _ q p))

  pub go_idle-Fit :
      (live worker : Bool) (b : ℕ) (s : Thread A)
      → Fit s b
      → (s.task b).queued ≡ false
      → is_at s.polling b ≡ false
      → Fit (go_idle live worker s) b
  go_idle-Fit live worker b s f u i =
      go_idle_cases (λ t. Fit t b) live worker s f
        (Same-Fit s (record s { closed = true }) b
          (record {
            task = refl;
            spawned = refl;
            microtasks = refl;
            wakes = refl;
            polling = refl;
            dropped = refl;
          })
          f)
        (cancel_all-Fit (registered_ids s.next_task_id s) b (take_registry s) (taken b s f u i))

  pub go_idle-Quiet :
      (live worker : Bool) (s : Thread A) → Unqueued s → Quiet s (go_idle live worker s)
  go_idle-Quiet live worker s h =
      let same : Quiet s s = record { microtasks = refl; ready = refl; next = refl } in
      go_idle_cases (Quiet s) live worker s same
        (record { microtasks = refl; ready = refl; next = refl })
        (let q =
            cancel_all-Quiet (registered_ids s.next_task_id s) (take_registry s)
              (unfold take_registry in h) in
          unfold take_registry in
          record { microtasks = q.microtasks; ready = q.ready; next = q.next })
