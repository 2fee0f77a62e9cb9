-- ===== src/Runtime/Scheduler/Clears.antt =====
-- What cancellation does to the tables of the cancelled timer, and to those of every other.
use runite.Runtime.Scheduler.Moves.{Same}
use runite.Prelude.{
  ℕ, ◌≡◌, refl, sym, ◌∙◌, Option, none, some, true, false, arith, ◌==◌, if-true, if-false, update,
}
use runite.Runtime.Timer.{TimerNode}
use runite.Runtime.Scheduler.{Scheduler, rearm, cleared}
use runite.Runtime.Scheduler.Queue.{TimerQueue, IsTimerQueue}
use runite.Runtime.Scheduler.Life.{
  Life, unmade, gone, timeout_waits, timeout_queued, interval_waits, interval_queued, interval_runs,
  clear_life, node_of, queue_of, live_of, entry_of, stack_of, is_unmade, Shows,
}

clear_node : (b : ℕ) (x : Life) → node_of b (clear_life x) ≡ none
clear_node b unmade = refl
clear_node b gone = refl
clear_node b (timeout_waits d c) = refl
clear_node b (timeout_queued d c live) = refl
clear_node b (interval_waits d k) = refl
clear_node b (interval_queued d k) = refl
clear_node b (interval_runs d k) = refl

clear_queue : (b : ℕ) (x : Life) → queue_of b (clear_life x) ≡ queue_of b x
clear_queue b unmade = refl
clear_queue b gone = refl
clear_queue b (timeout_waits d c) = refl
clear_queue b (timeout_queued d c live) = refl
clear_queue b (interval_waits d k) = refl
clear_queue b (interval_queued d k) = refl
clear_queue b (interval_runs d k) = refl

clear_live : (x : Life) → live_of (clear_life x) ≡ false
clear_live unmade = refl
clear_live gone = refl
clear_live (timeout_waits d c) = refl
clear_live (timeout_queued d c live) = refl
clear_live (interval_waits d k) = refl
clear_live (interval_queued d k) = refl
clear_live (interval_runs d k) = refl

clear_entry : (x : Life) → entry_of (clear_life x) ≡ none
clear_entry unmade = refl
clear_entry gone = refl
clear_entry (timeout_waits d c) = refl
clear_entry (timeout_queued d c live) = refl
clear_entry (interval_waits d k) = refl
clear_entry (interval_queued d k) = refl
clear_entry (interval_runs d k) = refl

clear_stack : (x : Life) → stack_of (clear_life x) ≡ stack_of x
clear_stack unmade = refl
clear_stack gone = refl
clear_stack (timeout_waits d c) = refl
clear_stack (timeout_queued d c live) = refl
clear_stack (interval_waits d k) = refl
clear_stack (interval_queued d k) = refl
clear_stack (interval_runs d k) = refl

clear_made : (x : Life) → is_unmade (clear_life x) ≡ is_unmade x
clear_made unmade = refl
clear_made gone = refl
clear_made (timeout_waits d c) = refl
clear_made (timeout_queued d c live) = refl
clear_made (interval_waits d k) = refl
clear_made (interval_queued d k) = refl
clear_made (interval_runs d k) = refl

module _ {Q : Type 0} {i : TimerQueue Q} (l : IsTimerQueue i) where
  -- Cancellation takes away the node, the flag and the entry.
  pub cleared_lem :
      (id : ℕ) (p : Q × Option TimerNode) (s : Scheduler Q)
      → cleared i id p s ≡ record s {
        live_timeouts = update s.live_timeouts id false;
        live_intervals = update s.live_intervals id none;
        timers = p.0;
        armed = elim p.1 [ none ↦ s.armed | some n ↦ i.peek_deadline p.0 ];
      }
  unfolding rearm
  cleared_lem id (timers, none) s = refl
  cleared_lem id (timers, some n) s = refl

  pub clear_others :
      (id : ℕ) (s : Scheduler Q) (b : ℕ)
      → l.Valid s.timers
      → (b == id) ≡ false
      → Same l s (cleared i id (i.remove id s.timers) s) b
  clear_others id s b v e = rw (cleared_lem id (i.remove id s.timers) s) (record {
    node = l.remove_takes_out id b s.timers v ∙ if-false (b == id) _ _ e;
    queue = refl;
    live = if-false (b == id) _ _ e;
    entry = if-false (b == id) _ _ e;
    stack = refl;
    made = refl;
  })

  -- What is left of a cancelled timer is as its life says.
  pub clear_here :
      (id : ℕ) (s : Scheduler Q) (x : Life)
      → l.Valid s.timers
      → Shows l s id x
      → Shows l (cleared i id (i.remove id s.timers) s) id (clear_life x)
  clear_here id s x v sh =
      let e : (id == id) ≡ true = ground arith in
      rw (cleared_lem id (i.remove id s.timers) s) (record {
        node =
            l.remove_takes_out id id s.timers v ∙ if-true (id == id) _ _ e ∙ sym (clear_node id x);
        queue = sh.queue ∙ sym (clear_queue id x);
        live = if-true (id == id) _ _ e ∙ sym (clear_live x);
        entry = if-true (id == id) _ _ e ∙ sym (clear_entry x);
        stack = sh.stack ∙ sym (clear_stack x);
        made = sh.made ∙ sym (clear_made x);
      })
