-- ===== src/Runtime/Scheduler/Life.antt =====
-- The life of one timer, as its owner may see it: what each call and each turn makes of it, and what the
-- scheduler's tables hold of a timer at each point of its life.
use runite.Prelude.{
  ℕ, ◌≡◌, List, [], ◌∷◌, Option, none, some, Bool, true, false, leb, ◌==◌, if◌then◌else◌,
}
use runite.Runtime.Timer.{TimerNode, TimerKind}
use runite.Runtime.Scheduler.{
  Scheduler, Macrotask, run_timeout, run_interval, other, IntervalEntry, saturating_add,
}
use runite.Runtime.Scheduler.Queue.{TimerQueue, IsTimerQueue}

-- A timeout waits for its deadline, and then for its macrotask, whose callback is called if the timeout
-- is live by then. An interval goes round; it has its entry until it is cleared.
pub data Life : Type 0 where
  unmade gone : Life
  timeout_waits : ℕ → ℕ → Life
  timeout_queued : ℕ → ℕ → Bool → Life
  interval_waits : ℕ → IntervalEntry → Life
  interval_queued interval_runs : ℕ → Option IntervalEntry → Life

-- `clear_timer`.
abbrev pub clear_life : Life → Life
clear_life unmade = unmade
clear_life gone = gone
clear_life (timeout_waits d c) = gone
clear_life (timeout_queued d c live) = timeout_queued d c false
clear_life (interval_waits d e) = gone
clear_life (interval_queued d e) = interval_queued d none
clear_life (interval_runs d e) = interval_runs d none

-- The expired timers are dispatched.
abbrev pub expire_life : ℕ → Life → Life
expire_life now unmade = unmade
expire_life now gone = gone
expire_life now (timeout_waits d c) =
    if leb d now then timeout_queued d c true else timeout_waits d c
expire_life now (timeout_queued d c live) = timeout_queued d c live
expire_life now (interval_waits d e) =
    if leb d now then interval_queued d (some e) else interval_waits d e
expire_life now (interval_queued d e) = interval_queued d e
expire_life now (interval_runs d e) = interval_runs d e

-- Its macrotask begins.
abbrev pub run_life : Life → Life
run_life unmade = unmade
run_life gone = gone
run_life (timeout_waits d c) = timeout_waits d c
run_life (timeout_queued d c live) = gone
run_life (interval_waits d e) = interval_waits d e
run_life (interval_queued d none) = gone
run_life (interval_queued d (some e)) = interval_runs d (some e)
run_life (interval_runs d e) = interval_runs d e

abbrev pub next_life : ℕ → ℕ → IntervalEntry → Life
next_life now next e = if leb next now then interval_queued next (some e) else interval_waits next e

-- The callback of an interval returns.
abbrev pub end_life : ℕ → Life → Life
end_life now unmade = unmade
end_life now gone = gone
end_life now (timeout_waits d c) = timeout_waits d c
end_life now (timeout_queued d c live) = timeout_queued d c live
end_life now (interval_waits d e) = interval_waits d e
end_life now (interval_queued d e) = interval_queued d e
end_life now (interval_runs d none) = gone
end_life now (interval_runs d (some e)) = next_life now (saturating_add d e.interval) e

-- The timer queue's node, the macrotasks, the flag and the entry that the scheduler has for a timer,
-- and the deadline of its turn if its callback is on the stack.
abbrev pub node_of : ℕ → Life → Option TimerNode
node_of b unmade = none
node_of b gone = none
node_of b (timeout_waits d c) = some (record { id = b; deadline = d; kind = TimerKind.timeout c })
node_of b (timeout_queued d c live) = none
node_of b (interval_waits d e) = some (record { id = b; deadline = d; kind = TimerKind.interval })
node_of b (interval_queued d e) = none
node_of b (interval_runs d e) = none

abbrev pub queue_of : ℕ → Life → List Macrotask
queue_of b unmade = []
queue_of b gone = []
queue_of b (timeout_waits d c) = []
queue_of b (timeout_queued d c live) = run_timeout b c ∷ []
queue_of b (interval_waits d e) = []
queue_of b (interval_queued d e) = run_interval b d ∷ []
queue_of b (interval_runs d e) = []

abbrev pub live_of : Life → Bool
live_of unmade = false
live_of gone = false
live_of (timeout_waits d c) = true
live_of (timeout_queued d c live) = live
live_of (interval_waits d e) = false
live_of (interval_queued d e) = false
live_of (interval_runs d e) = false

abbrev pub entry_of : Life → Option IntervalEntry
entry_of unmade = none
entry_of gone = none
entry_of (timeout_waits d c) = none
entry_of (timeout_queued d c live) = none
entry_of (interval_waits d e) = some e
entry_of (interval_queued d e) = e
entry_of (interval_runs d e) = e

abbrev pub stack_of : Life → Option ℕ
stack_of unmade = none
stack_of gone = none
stack_of (timeout_waits d c) = none
stack_of (timeout_queued d c live) = none
stack_of (interval_waits d e) = none
stack_of (interval_queued d e) = none
stack_of (interval_runs d e) = some d

abbrev pub is_unmade : Life → Bool
is_unmade unmade = true
is_unmade gone = false
is_unmade (timeout_waits d c) = false
is_unmade (timeout_queued d c live) = false
is_unmade (interval_waits d e) = false
is_unmade (interval_queued d e) = false
is_unmade (interval_runs d e) = false

-- The macrotasks of one timer, in their order.
abbrev pub has_id : ℕ → Macrotask → Bool
has_id b (run_timeout id c) = b == id
has_id b (run_interval id d) = b == id
has_id b (other task) = false

abbrev pub macrotasks_for : ℕ → List Macrotask → List Macrotask
macrotasks_for b [] = []
macrotasks_for b (m ∷ ms) = if has_id b m then m ∷ macrotasks_for b ms else macrotasks_for b ms

abbrev pub turn_of : ℕ → Option (ℕ × ℕ) → Option ℕ
turn_of b none = none
turn_of b (some (id, d)) = if b == id then some d else none

module _ {Q : Type 0} {i : TimerQueue Q} (l : IsTimerQueue i) where
  -- The scheduler holds of the timer `b` what its life says, and nothing else.
  pub record Shows (s : Scheduler Q) (b : ℕ) (x : Life) : Type 0 where
    pub node : l.find s.timers b ≡ node_of b x
    pub queue : macrotasks_for b s.macrotasks ≡ queue_of b x
    pub live : s.live_timeouts b ≡ live_of x
    pub entry : s.live_intervals b ≡ entry_of x
    pub stack : turn_of b s.running ≡ stack_of x
    pub made : leb s.next_timer_id b ≡ is_unmade x
