-- ===== src/Runtime/Scheduler/Moves.antt =====
-- What an operation leaves alone of a timer, and what a new node or macrotask changes.
use mathlib.Core.Path.{subst}
use mathlib.Core.List.{append-nil}
use runite.Prelude.{
  ℕ, ◌≡◌, refl, sym, ◌∙◌, inl, inr, List, [], ◌∷◌, ◌++◌, none, some, true, false, Bool-cases, arith,
  ◌==◌, leb, if-true, if-false, update,
}
use runite.Runtime.Timer.{TimerNode}
use runite.Runtime.Scheduler.{Scheduler, Macrotask, run_interval}
use runite.Runtime.Scheduler.Queue.{TimerQueue, IsTimerQueue}
use runite.Runtime.Scheduler.Life.{
  Life, unmade, gone, timeout_waits, timeout_queued, interval_waits, interval_queued, interval_runs,
  is_unmade, macrotasks_for, turn_of, Shows,
}
use runite.Runtime.Scheduler.Tables.{macrotasks_for-append}

-- To prove of all timers what is known of the one that changes and of the others.
pub focus :
    (P : ℕ → Life → Type 0) (life : ℕ → Life) (id : ℕ) (new : Life)
    → P id new
    → ((b : ℕ) → (b == id) ≡ false → P b (life b))
    → (b : ℕ) → P b (update life id new b)
focus P life id new here there b = elim (Bool-cases (b == id)) [
  | inl e ↦
      let same : id ≡ b = ground (arith, e) in
      subst (P b) (sym (if-true (b == id) new (life b) e)) (subst (λ x. P x new) same here)
  | inr e ↦ subst (P b) (sym (if-false (b == id) new (life b) e)) (there b e)
]

pub unmade_lem : (x : Life) → true ≡ is_unmade x → x ≡ unmade
unmade_lem unmade e = refl
unmade_lem gone e = absurd (cc)
unmade_lem (timeout_waits d c) e = absurd (cc)
unmade_lem (timeout_queued d c live) e = absurd (cc)
unmade_lem (interval_waits d k) e = absurd (cc)
unmade_lem (interval_queued d k) e = absurd (cc)
unmade_lem (interval_runs d k) e = absurd (cc)

-- A turn that is put on the macrotask queue.
pub schedule_others :
    (id d : ℕ) (b : ℕ) (ms : List Macrotask)
    → (b == id) ≡ false
    → macrotasks_for b (ms ++ run_interval id d ∷ []) ≡ macrotasks_for b ms
schedule_others id d b ms e =
    rw (macrotasks_for-append b ms (run_interval id d ∷ []), e) (append-nil (macrotasks_for b ms))

pub schedule_here :
    (id d : ℕ) (ms : List Macrotask)
    → macrotasks_for id ms ≡ []
    → macrotasks_for id (ms ++ run_interval id d ∷ []) ≡ run_interval id d ∷ []
schedule_here id d ms n =
    let e : (id == id) ≡ true = ground arith in
    rw (macrotasks_for-append id ms (run_interval id d ∷ []), e, n) refl

module _ {Q : Type 0} {i : TimerQueue Q} (l : IsTimerQueue i) where
  -- Two schedulers have the same of the timer `b`.
  pub record Same (s t : Scheduler Q) (b : ℕ) : Type 0 where
    pub node : l.find t.timers b ≡ l.find s.timers b
    pub queue : macrotasks_for b t.macrotasks ≡ macrotasks_for b s.macrotasks
    pub live : t.live_timeouts b ≡ s.live_timeouts b
    pub entry : t.live_intervals b ≡ s.live_intervals b
    pub stack : turn_of b t.running ≡ turn_of b s.running
    pub made : leb t.next_timer_id b ≡ leb s.next_timer_id b

  pub Same-Shows :
      (s t : Scheduler Q) (b : ℕ) (x : Life) → Same s t b → Shows l s b x → Shows l t b x
  Same-Shows s t b x e v = record {
    node = e.node ∙ v.node;
    queue = e.queue ∙ v.queue;
    live = e.live ∙ v.live;
    entry = e.entry ∙ v.entry;
    stack = e.stack ∙ v.stack;
    made = e.made ∙ v.made;
  }

  -- The next id has not been given to a timer.
  pub fresh :
      (s : Scheduler Q) (x : Life) → Shows l s s.next_timer_id x → Shows l s s.next_timer_id unmade
  fresh s x v =
      let first : true ≡ leb s.next_timer_id s.next_timer_id = ground arith in
      subst (Shows l s s.next_timer_id) (unmade_lem x (first ∙ v.made)) v

  -- A timer that is put into the queue.
  pub insert_others :
      (n : TimerNode) (s : Scheduler Q) (b : ℕ)
      → l.Valid s.timers
      → l.find s.timers n.id ≡ none
      → (b == n.id) ≡ false
      → l.find (i.insert n s.timers) b ≡ l.find s.timers b
  insert_others n s b v free e = l.insert_adds n s.timers b v free ∙ if-false (b == n.id) _ _ e

  pub insert_here :
      (n : TimerNode) (s : Scheduler Q)
      → l.Valid s.timers
      → l.find s.timers n.id ≡ none
      → l.find (i.insert n s.timers) n.id ≡ some n
  insert_here n s v free =
      let e : (n.id == n.id) ≡ true = ground arith in
      l.insert_adds n s.timers n.id v free ∙ if-true (n.id == n.id) _ _ e
