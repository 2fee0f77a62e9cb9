-- ===== src/Runtime/Scheduler/Timely.antt =====
-- A callback is called no earlier than its deadline.
use runite.Prelude.{ℕ, ◌+◌, ◌≤◌, inl, inr, none, some, Bool-cases, arith, ◌==◌, leb}
use runite.Runtime.Scheduler.{saturating_add, max_duration}
use runite.Runtime.Scheduler.Life.{
  Life, unmade, gone, timeout_waits, timeout_queued, interval_waits, interval_queued, interval_runs,
  clear_life, expire_life, run_life, end_life,
}
use runite.Runtime.Scheduler.Users.{interval_life}

-- A timer that has left the queue was due.
abbrev pub Timely : ℕ → Life → Type 0
Timely now unmade = Unit
Timely now gone = Unit
Timely now (timeout_waits d c) = Unit
Timely now (timeout_queued d c live) = d ≤ now
Timely now (interval_waits d k) = Unit
Timely now (interval_queued d k) = d ≤ now
Timely now (interval_runs d k) = d ≤ now

saturating_add_zero : (a : ℕ) → saturating_add a 0 ≤ a
unfolding saturating_add
saturating_add_zero a = elim (Bool-cases (leb (a + 0) max_duration)) [
  | inl e ↦ rw e (omega arith)
  | inr e ↦ rw e (ground arith)
]

pub interval_life-Timely : (delay callback now : ℕ) → Timely now (interval_life delay callback now)
interval_life-Timely delay callback now = elim (Bool-cases (delay == 0)) [
  | inl z ↦ rw z (saturating_add_zero now)
  | inr z ↦ rw z tt
]

pub expire-Timely : (now : ℕ) (x : Life) → Timely now x → Timely now (expire_life now x)
expire-Timely now unmade v = tt
expire-Timely now gone v = tt
expire-Timely now (timeout_waits d c) v = elim (Bool-cases (leb d now)) [
  | inl e ↦ rw e (ground (arith, e))
  | inr e ↦ rw e tt
]
expire-Timely now (timeout_queued d c live) v = v
expire-Timely now (interval_waits d k) v = elim (Bool-cases (leb d now)) [
  | inl e ↦ rw e (ground (arith, e))
  | inr e ↦ rw e tt
]
expire-Timely now (interval_queued d k) v = v
expire-Timely now (interval_runs d k) v = v

pub clear-Timely : (now : ℕ) (x : Life) → Timely now x → Timely now (clear_life x)
clear-Timely now unmade v = tt
clear-Timely now gone v = tt
clear-Timely now (timeout_waits d c) v = tt
clear-Timely now (timeout_queued d c live) v = v
clear-Timely now (interval_waits d k) v = tt
clear-Timely now (interval_queued d k) v = v
clear-Timely now (interval_runs d k) v = v

pub run-Timely : (now : ℕ) (x : Life) → Timely now x → Timely now (run_life x)
run-Timely now unmade v = tt
run-Timely now gone v = tt
run-Timely now (timeout_waits d c) v = tt
run-Timely now (timeout_queued d c live) v = tt
run-Timely now (interval_waits d k) v = tt
run-Timely now (interval_queued d none) v = tt
run-Timely now (interval_queued d (some k)) v = v
run-Timely now (interval_runs d k) v = v

pub end-Timely : (now : ℕ) (x : Life) → Timely now x → Timely now (end_life now x)
end-Timely now unmade v = tt
end-Timely now gone v = tt
end-Timely now (timeout_waits d c) v = tt
end-Timely now (timeout_queued d c live) v = v
end-Timely now (interval_waits d k) v = tt
end-Timely now (interval_queued d k) v = v
end-Timely now (interval_runs d none) v = tt
end-Timely now (interval_runs d (some k)) v =
    elim (Bool-cases (leb (saturating_add d k.interval) now)) [
      | inl e ↦ rw e (ground (arith, e))
      | inr e ↦ rw e tt
    ]

pub tick-Timely : (now later : ℕ) (x : Life) → now ≤ later → Timely now x → Timely later x
tick-Timely now later unmade e v = tt
tick-Timely now later gone e v = tt
tick-Timely now later (timeout_waits d c) e v = tt
tick-Timely now later (timeout_queued d c live) e v = omega arith
tick-Timely now later (interval_waits d k) e v = tt
tick-Timely now later (interval_queued d k) e v = omega arith
tick-Timely now later (interval_runs d k) e v = omega arith
