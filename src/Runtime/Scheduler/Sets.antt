-- ===== src/Runtime/Scheduler/Sets.antt =====
-- What `timeout` and `interval` do to the tables of the new timer, and to those of every other.
use runite.Runtime.Scheduler.Moves.{
  Same, insert_others, insert_here, schedule_others, schedule_here,
}
use runite.Prelude.{
  ℕ, ◌≡◌, refl, inl, inr, Option, none, some, true, false, Bool-cases, arith, ◌==◌, ltb, ◌^◌, suc,
  ap, if-true, if-false,
}
use runite.Runtime.Scheduler.{
  Scheduler, TimerHandle, handle_of, timeout, interval, saturating_add, rearm, insert_timer,
  set_timeout, schedule_interval, interval_node, set_interval,
}
use runite.Runtime.Scheduler.Queue.{TimerQueue, IsTimerQueue}
use runite.Runtime.Scheduler.Life.{unmade, timeout_waits, Shows}
use runite.Runtime.Scheduler.Users.{interval_life}

module _ {Q : Type 0} {i : TimerQueue Q} (l : IsTimerQueue i) where
  made_by :
      (t u s : Scheduler Q) (handle : TimerHandle)
      → ◌≡◌ {A = Option (Scheduler Q × TimerHandle)} (some (t, handle_of s)) (some (u, handle))
      → (u ≡ t) × (handle.id ≡ s.next_timer_id)
  made_by t u s handle e =
      let same : ◌≡◌ {A = Scheduler Q × TimerHandle} (u, handle) (t, handle_of s) = cc in
      (ap (λ p. p.0) same, ap (λ p. p.1.id) same)

  none_made :
      (t : Scheduler Q) (handle : TimerHandle)
      → ◌≡◌ {A = Option (Scheduler Q × TimerHandle)} none (some (t, handle))
      → ⊥
  none_made t handle e = absurd (cc)

  pub timeout_others :
      (delay callback now : ℕ) (s : Scheduler Q) (b : ℕ)
      → l.Valid s.timers
      → l.find s.timers s.next_timer_id ≡ none
      → (b == s.next_timer_id) ≡ false
      → Same l s (set_timeout i delay callback now s) b
  unfolding set_timeout insert_timer rearm
  timeout_others delay callback now s b v free e = record {
    node = insert_others l _ s b v free e;
    queue = refl;
    live = if-false (b == s.next_timer_id) _ _ e;
    entry = refl;
    stack = refl;
    made = ground arith;
  }

  pub timeout_here :
      (delay callback now : ℕ) (s : Scheduler Q)
      → l.Valid s.timers
      → Shows l s s.next_timer_id unmade
      → Shows l
          (set_timeout i delay callback now s)
          s.next_timer_id
          (timeout_waits (saturating_add now delay) callback)
  unfolding set_timeout insert_timer rearm
  timeout_here delay callback now s v sh =
      let e : (s.next_timer_id == s.next_timer_id) ≡ true = ground arith in
      record {
        node = insert_here l _ s v sh.node;
        queue = sh.queue;
        live = if-true (s.next_timer_id == s.next_timer_id) _ _ e;
        entry = sh.entry;
        stack = sh.stack;
        made = ground arith;
      }

  -- The id of a new timer is the one in its handle.
  pub timeout_lem :
      (delay callback now : ℕ) (s t : Scheduler Q) (handle : TimerHandle)
      → timeout i delay callback now s ≡ some (t, handle)
      → (t ≡ set_timeout i delay callback now s) × (handle.id ≡ s.next_timer_id)
  unfolding timeout
  timeout_lem delay callback now s t handle e =
      elim (Bool-cases (ltb (suc s.next_timer_id) (2 ^ 64))) [
        | inl b ↦ made_by (set_timeout i delay callback now s) t s handle (rw b at e)
        | inr b ↦ absurd (none_made t handle (rw b at e))
      ]

  pub interval_lem :
      (delay callback now : ℕ) (s t : Scheduler Q) (handle : TimerHandle)
      → interval i delay callback now s ≡ some (t, handle)
      → (t ≡ set_interval i delay callback now s) × (handle.id ≡ s.next_timer_id)
  unfolding interval
  interval_lem delay callback now s t handle e =
      elim (Bool-cases (ltb (suc s.next_timer_id) (2 ^ 64))) [
        | inl b ↦ made_by (set_interval i delay callback now s) t s handle (rw b at e)
        | inr b ↦ absurd (none_made t handle (rw b at e))
      ]

  pub interval_others :
      (delay callback now : ℕ) (s : Scheduler Q) (b : ℕ)
      → l.Valid s.timers
      → l.find s.timers s.next_timer_id ≡ none
      → (b == s.next_timer_id) ≡ false
      → Same l s (set_interval i delay callback now s) b
  unfolding set_interval schedule_interval insert_timer rearm interval_node
  interval_others delay callback now s b v free e = elim (Bool-cases (delay == 0)) [
    | inl z ↦ rw z (record {
      node = refl;
      queue = schedule_others s.next_timer_id (saturating_add now 0) b s.macrotasks e;
      live = refl;
      entry = if-false (b == s.next_timer_id) _ _ e;
      stack = refl;
      made = ground arith;
    })
    | inr z ↦ rw z (record {
      node = insert_others l _ s b v free e;
      queue = refl;
      live = refl;
      entry = if-false (b == s.next_timer_id) _ _ e;
      stack = refl;
      made = ground arith;
    })
  ]

  pub interval_here :
      (delay callback now : ℕ) (s : Scheduler Q)
      → l.Valid s.timers
      → Shows l s s.next_timer_id unmade
      → Shows l
          (set_interval i delay callback now s)
          s.next_timer_id
          (interval_life delay callback now)
  unfolding set_interval schedule_interval insert_timer rearm interval_node
  interval_here delay callback now s v sh =
      let e : (s.next_timer_id == s.next_timer_id) ≡ true = ground arith in
      elim (Bool-cases (delay == 0)) [
        | inl z ↦ rw z (record {
          node = sh.node;
          queue = schedule_here s.next_timer_id (saturating_add now 0) s.macrotasks sh.queue;
          live = sh.live;
          entry = if-true (s.next_timer_id == s.next_timer_id) _ _ e;
          stack = sh.stack;
          made = ground arith;
        })
        | inr z ↦ rw z (record {
          node = insert_here l _ s v sh.node;
          queue = sh.queue;
          live = sh.live;
          entry = if-true (s.next_timer_id == s.next_timer_id) _ _ e;
          stack = sh.stack;
          made = ground arith;
        })
      ]
