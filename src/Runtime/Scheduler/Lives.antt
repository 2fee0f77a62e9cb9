-- ===== src/Runtime/Scheduler/Lives.antt =====
-- How the steps of a life change what the tables hold of a timer, and what they tell of its life.
use runite.Prelude.{
  ℕ, ◌≡◌, refl, inl, inr, List, [], ◌∷◌, ◌++◌, Option, some, Bool, true, Bool-cases, arith, ◌==◌,
  leb,
}
use runite.Runtime.Timer.Due.{unexpired}
use runite.Runtime.Scheduler.{Macrotask, run_timeout, run_interval, IntervalEntry}
use runite.Runtime.Scheduler.Life.{
  Life, unmade, gone, timeout_waits, timeout_queued, interval_waits, interval_queued, interval_runs,
  expire_life, node_of, queue_of, live_of, entry_of, stack_of, is_unmade,
}
use runite.Runtime.Scheduler.Tables.{expired}

-- What of a life changes when its timer expires.
pub expire_node :
    (now b : ℕ) (x : Life) → unexpired now (node_of b x) ≡ node_of b (expire_life now x)
expire_node now b unmade = refl
expire_node now b gone = refl
expire_node now b (timeout_waits d c) = elim (Bool-cases (leb d now)) [
  | inl e ↦ rw e refl
  | inr e ↦ rw e refl
]
expire_node now b (timeout_queued d c live) = refl
expire_node now b (interval_waits d k) = elim (Bool-cases (leb d now)) [
  | inl e ↦ rw e refl
  | inr e ↦ rw e refl
]
expire_node now b (interval_queued d k) = refl
expire_node now b (interval_runs d k) = refl

pub expire_queue :
    (now b : ℕ) (x : Life)
    → queue_of b x ++ expired now (node_of b x) ≡ queue_of b (expire_life now x)
expire_queue now b unmade = refl
expire_queue now b gone = refl
expire_queue now b (timeout_waits d c) = elim (Bool-cases (leb d now)) [
  | inl e ↦ rw e refl
  | inr e ↦ rw e refl
]
expire_queue now b (timeout_queued d c live) = refl
expire_queue now b (interval_waits d k) = elim (Bool-cases (leb d now)) [
  | inl e ↦ rw e refl
  | inr e ↦ rw e refl
]
expire_queue now b (interval_queued d k) = refl
expire_queue now b (interval_runs d k) = refl

-- What does not.
pub expire_rest :
    (now : ℕ) (x : Life)
    → (live_of (expire_life now x) ≡ live_of x)
      × (entry_of (expire_life now x) ≡ entry_of x)
      × (stack_of (expire_life now x) ≡ stack_of x)
      × (is_unmade (expire_life now x) ≡ is_unmade x)
expire_rest now unmade = (refl, refl, refl, refl)
expire_rest now gone = (refl, refl, refl, refl)
expire_rest now (timeout_waits d c) = elim (Bool-cases (leb d now)) [
  | inl e ↦ rw e (refl, refl, refl, refl)
  | inr e ↦ rw e (refl, refl, refl, refl)
]
expire_rest now (timeout_queued d c live) = (refl, refl, refl, refl)
expire_rest now (interval_waits d k) = elim (Bool-cases (leb d now)) [
  | inl e ↦ rw e (refl, refl, refl, refl)
  | inr e ↦ rw e (refl, refl, refl, refl)
]
expire_rest now (interval_queued d k) = (refl, refl, refl, refl)
expire_rest now (interval_runs d k) = (refl, refl, refl, refl)

-- Whose macrotask is in the queue.
pub queued_timeout :
    (b c : ℕ) (r : List Macrotask) (x : Life)
    → run_timeout b c ∷ r ≡ queue_of b x
    → (d : ℕ) × (live : Bool) × (x ≡ timeout_queued d c live) × (r ≡ [])
queued_timeout b c r unmade e = absurd (cc)
queued_timeout b c r gone e = absurd (cc)
queued_timeout b c r (timeout_waits d k) e = absurd (cc)
queued_timeout b c r (timeout_queued d k live) e = (d, live, cc, cc)
queued_timeout b c r (interval_waits d k) e = absurd (cc)
queued_timeout b c r (interval_queued d k) e = absurd (cc)
queued_timeout b c r (interval_runs d k) e = absurd (cc)

pub queued_interval :
    (b d : ℕ) (r : List Macrotask) (x : Life)
    → run_interval b d ∷ r ≡ queue_of b x
    → (k : Option IntervalEntry) × (x ≡ interval_queued d k) × (r ≡ [])
queued_interval b d r unmade e = absurd (cc)
queued_interval b d r gone e = absurd (cc)
queued_interval b d r (timeout_waits d' k) e = absurd (cc)
queued_interval b d r (timeout_queued d' k live) e = absurd (cc)
queued_interval b d r (interval_waits d' k) e = absurd (cc)
queued_interval b d r (interval_queued d' k) e = (k, cc, cc)
queued_interval b d r (interval_runs d' k) e = absurd (cc)

pub running_interval :
    (d : ℕ) (x : Life) → some d ≡ stack_of x → (k : Option IntervalEntry) × (x ≡ interval_runs d k)
running_interval d unmade e = absurd (cc)
running_interval d gone e = absurd (cc)
running_interval d (timeout_waits d' k) e = absurd (cc)
running_interval d (timeout_queued d' k live) e = absurd (cc)
running_interval d (interval_waits d' k) e = absurd (cc)
running_interval d (interval_queued d' k) e = absurd (cc)
running_interval d (interval_runs d' k) e = (k, cc)

pub here_lem : (b : ℕ) → (b == b) ≡ true
here_lem b = ground arith
