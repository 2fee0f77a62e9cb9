-- ===== src/Sync/OnceCell/Safety.antt =====
-- What the callers of `get_or_init` may rely on.
use runite.Prelude.{
  ℕ, ◌≡◌, ◌≢◌, none, refl, ap, inl, inr, [], Option, some, true, false, Bool-cases, arith, Reach,
  Reach-keeps,
}
use runite.Sync.Waiters.{Ticket, refresh, remove_id}
use runite.Sync.Notify.{
  Notify, Notified, Selection, unnotified, one, waiters, is_selected, new_future, notify_one,
  notify_waiters, poll, drop_future, forward, remove_waiter,
}
use runite.Sync.OnceCell.{
  State, vacant, initializing, filled, returns, initializes, waits, new, get, look, finish, abandon,
}
use runite.Sync.OnceCell.Users.{
  System, Step, start, waiting, starts, suspends, poll_again, cancel, finishes, gives_up,
}

-- While an initializer runs the state says so, and otherwise nobody is queued.
-- A filled cell has a value.
abbrev Fits : {A : Type 0} → State → System A → Type 0
Fits initializing s = s.running ≡ true
Fits vacant s = (s.running ≡ false) × (s.cell.notify.queue ≡ [])
Fits filled s = (s.running ≡ false) × (s.cell.notify.queue ≡ []) × (s.cell.value ≢ none)

abbrev Inv : {A : Type 0} → System A → Type 0
Inv s = Fits s.cell.state s

poll-empty :
    (waker : ℕ) (t : Ticket (Unit {0})) (n : Notify)
    → n.queue ≡ []
    → (poll waker n (waiting t)).0.queue ≡ []
unfolding poll refresh
poll-empty waker t n e = elim (Bool-cases (is_selected (n.cells t.cell))) [
  | inl p ↦ rw p e
  | inr p ↦ rw p (ap (refresh t.id waker) e)
]

forward-empty :
    (x : Selection) (t : Ticket (Unit {0})) (n : Notify) → n.queue ≡ [] → (forward x t n).queue ≡ []
unfolding forward remove_waiter remove_id notify_one
forward-empty unnotified t n e = ap (remove_id t.id) e
forward-empty one t n e = ground arith
forward-empty waiters t n e = e

drop-empty :
    (t : Ticket (Unit {0})) (n : Notify) → n.queue ≡ [] → (drop_future n (waiting t)).queue ≡ []
unfolding drop_future
drop-empty t n e = forward-empty (n.cells t.cell) t n e

module _ {A : Type 0} where
  starts_initializing :
      (x : State) (n : Notify) (v : Option A)
      → (look (record { state = x; notify = n; value = v })).1 ≡ initializes
      → (look (record { state = x; notify = n; value = v })).0.state ≡ initializing
  unfolding look get
  starts_initializing vacant n v f = refl
  starts_initializing initializing n v f = ground arith
  starts_initializing filled n v f = ground arith

  waits_initializing :
      (x : State) (n : Notify) (v : Option A)
      → (look (record { state = x; notify = n; value = v })).1 ≡ waits
      → x ≡ initializing
  unfolding look get
  waits_initializing vacant n v f = ground arith
  waits_initializing initializing n v f = refl
  waits_initializing filled n v f = ground arith

  quiet_keeps :
      (x : State) (s : System A) (n : Notify)
      → (s.cell.notify.queue ≡ [] → n.queue ≡ [])
      → Fits x s
      → Fits x (record s { cell = record s.cell { notify = n } })
  quiet_keeps vacant s n f p = (p.0, f p.1)
  quiet_keeps initializing s n f p = p
  quiet_keeps filled s n f p = (p.0, f p.1, p.2)

  busy-Fits : (x : State) (s : System A) → x ≡ initializing → s.running ≡ true → Fits x s
  busy-Fits vacant s e r = ground arith
  busy-Fits initializing s e r = r
  busy-Fits filled s e r = ground arith

  busy_running : (x : State) (s : System A) → x ≡ initializing → Fits x s → s.running ≡ true
  busy_running vacant s e p = ground arith
  busy_running initializing s e p = p
  busy_running filled s e p = ground arith

  Step-Inv : (s t : System A) → Step s t → Inv s → Inv t
  unfolding look finish abandon notify_waiters
  Step-Inv s _ (starts e) p =
      busy-Fits (look s.cell).0.state (record { cell = (look s.cell).0; running = true })
        (starts_initializing s.cell.state s.cell.notify s.cell.value e) refl
  Step-Inv s _ (suspends w e) p =
      let e' = waits_initializing s.cell.state s.cell.notify s.cell.value e in
      let n = (poll w s.cell.notify new_future).0 in
      busy-Fits s.cell.state (record s { cell = record s.cell { notify = n } }) e'
        (busy_running s.cell.state s e' p)
  Step-Inv s _ (poll_again w t) p =
      quiet_keeps s.cell.state s (poll w s.cell.notify (waiting t)).0 (poll-empty w t s.cell.notify)
        p
  Step-Inv s _ (cancel t) p =
      quiet_keeps s.cell.state s (drop_future s.cell.notify (waiting t))
        (drop-empty t s.cell.notify) p
  Step-Inv s _ (finishes v r) p = (refl, refl, λ e. ground arith)
  Step-Inv s _ (gives_up r) p = (refl, refl)

  reached-Inv : (s : System A) → Reach Step start s → Inv s
  unfolding start new runite.Sync.Notify.new
  reached-Inv s r = Reach-keeps Step Inv Step-Inv (refl, refl) r

  settled_queue :
      (x : State) (s : System A) → x ≢ initializing → Fits x s → s.cell.notify.queue ≡ []
  settled_queue vacant s e p = p.1
  settled_queue initializing s e p = absurd (e refl)
  settled_queue filled s e p = p.1

  -- After any history of callers that start, wait, are polled again or cancelled, and of initializers that
  -- complete or are dropped: unless an initializer is in progress, no waiter is left in the queue of the
  -- cell's `Notify`.
  pub settled_without_waiters :
      (s : System A) → Reach Step start s → s.cell.state ≢ initializing → s.cell.notify.queue ≡ []
  settled_without_waiters s r e = settled_queue s.cell.state s e (reached-Inv s r)

  running_turn :
      (x : State) (n : Notify) (v : Option A) (s : System A)
      → s.running ≡ true
      → Fits x s
      → (look (record { state = x; notify = n; value = v })).1 ≢ initializes
  unfolding look get
  running_turn vacant n v s r p = ground (arith, p.0)
  running_turn initializing n v s r p = λ e. ground arith
  running_turn filled n v s r p = ground (arith, p.0)

  -- After any history of callers and initializers, while some task runs its initializer, another caller that looks at the
  -- state does not start one of its own.
  pub one_initializer :
      (s : System A) → Reach Step start s → s.running ≡ true → (look s.cell).1 ≢ initializes
  one_initializer s r b = running_turn s.cell.state s.cell.notify s.cell.value s b (reached-Inv s r)

  pub record Filled (v : A) (s : System A) : Type 0 where
    pub idle : s.running ≡ false
    pub state : s.cell.state ≡ filled
    pub value : s.cell.value ≡ some v

  filled_value :
      (x : State) (n : Notify) (w : Option A) (v : A)
      → get (record { state = x; notify = n; value = w }) ≡ some v
      → (x ≡ filled) × (w ≡ some v)
  unfolding get
  filled_value vacant n w v e = ground arith
  filled_value initializing n w v e = ground arith
  filled_value filled n w v e = (refl, e)

  filled_turn :
      (x : State) (n : Notify) (w : Option A)
      → x ≡ filled
      → (look (record { state = x; notify = n; value = w })).1 ≢ initializes
  unfolding look get
  filled_turn vacant n w q = λ e. ground arith
  filled_turn initializing n w q = λ e. ground arith
  filled_turn filled n w q = λ e. ground arith

  idle_of_filled : (x : State) (s : System A) → x ≡ filled → Fits x s → s.running ≡ false
  idle_of_filled vacant s e p = p.0
  idle_of_filled initializing s e p = ground arith
  idle_of_filled filled s e p = p.0

  get-Filled : (v : A) (s : System A) → Inv s → get s.cell ≡ some v → Filled v s
  get-Filled v s p e =
      let q = filled_value s.cell.state s.cell.notify s.cell.value v e in
      record { idle = idle_of_filled s.cell.state s q.0 p; state = q.0; value = q.1 }

  Step-Filled : (v : A) (s t : System A) → Step s t → Filled v s → Filled v t
  unfolding look finish abandon get
  Step-Filled v s _ (starts e) p =
      absurd (filled_turn s.cell.state s.cell.notify s.cell.value p.state e)
  Step-Filled v s _ (suspends w e) p = record { idle = p.idle; state = p.state; value = p.value }
  Step-Filled v s _ (poll_again w t) p = record { idle = p.idle; state = p.state; value = p.value }
  Step-Filled v s _ (cancel t) p = record { idle = p.idle; state = p.state; value = p.value }
  Step-Filled v s _ (finishes u r) p = let i = p.idle in ground arith
  Step-Filled v s _ (gives_up r) p = let i = p.idle in ground arith

  Filled-get : (v : A) (s : System A) → Filled v s → get s.cell ≡ some v
  unfolding get
  Filled-get v s p = rw p.state p.value

  -- After any history of callers and initializers, once `get` returns a value it returns the same value
  -- after any further history.
  pub value_is_kept :
      (v : A) (s t : System A)
      → Reach Step start s
      → get s.cell ≡ some v
      → Reach Step s t
      → get t.cell ≡ some v
  value_is_kept v s t r e h =
      Filled-get v t
        (Reach-keeps Step (Filled v) (Step-Filled v) (get-Filled v s (reached-Inv s r) e) h)

  returned_value :
      (x : State) (n : Notify) (w o : Option A) (s : System A)
      → s.cell.value ≡ w
      → Fits x s
      → (look (record { state = x; notify = n; value = w })).1 ≡ returns o
      → o ≢ none
  unfolding look get
  returned_value vacant n w o s q p e = ground arith
  returned_value initializing n w o s q p e = ground arith
  returned_value filled n w o s q p e = λ z. p.2 (ground arith)

  -- After any history of callers and initializers, what a caller gets who finds the cell initialized is not
  -- `None`, so the `expect` of `ready_value` does not panic.
  pub ready_value_never_panics :
      (s : System A) (o : Option A) → Reach Step start s → (look s.cell).1 ≡ returns o → o ≢ none
  ready_value_never_panics s o r e =
      returned_value s.cell.state s.cell.notify s.cell.value o s refl (reached-Inv s r) e
