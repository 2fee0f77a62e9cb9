-- ===== src/Runtime/Scheduler/Steps.antt =====
-- Every step of the scheduler keeps the invariant.
use runite.Runtime.Scheduler.Inv.{
  some_same, macrotask_was_due, begun-punctual, begun_agrees, Inv, start-Inv, step_focus,
}
use runite.Runtime.Scheduler.Clears.{clear_others, clear_here}
use runite.Runtime.Scheduler.Sets.{
  timeout_lem, interval_lem, timeout_others, timeout_here, interval_others, interval_here,
}
use mathlib.Core.Path.{subst}
use mathlib.Core.List.{append-nil}
use runite.Prelude.{
  ℕ, ◌≡◌, refl, sym, ap, ◌∙◌, inl, inr, List, [], ◌∷◌, none, some, false, Bool-cases, ◌==◌, update,
  Reach, Reach-keeps,
}
use runite.Runtime.Scheduler.{
  Scheduler, TimerHandle, Macrotask, run_timeout, run_interval, other, saturating_add, set_timeout,
  set_interval, cleared, clear_timer, end_interval, fail_interval, run_macrotask,
  dispatch_expired_timers,
}
use runite.Runtime.Scheduler.Queue.{TimerQueue, IsTimerQueue}
use runite.Runtime.Scheduler.Life.{
  node_of, macrotasks_for, gone, timeout_waits, clear_life, expire_life, run_life, end_life, Shows,
}
use runite.Runtime.Scheduler.Lives.{queued_interval, here_lem}
use runite.Runtime.Scheduler.Users.{
  due_of, after_cancel, System, start, Step, sets_timeout, sets_interval, cancels, dispatches,
  begins, ends, fails, queues, ticks, interval_life, logged, begun,
}
use runite.Runtime.Scheduler.Timely.{
  interval_life-Timely, expire-Timely, clear-Timely, run-Timely, end-Timely, tick-Timely,
}
use runite.Runtime.Scheduler.Ready.{
  timeout-Ready, interval-Ready, cleared-Ready, end-Ready, fail-Ready, begin-Ready,
}
use runite.Runtime.Scheduler.Tables.{macrotasks_for-append}
use runite.Runtime.Scheduler.Moves.{Same, fresh, Same-Shows}
use runite.Runtime.Scheduler.Turns.{
  head_for, after_dispatch, dispatch_lem, dispatch-Shows, begin_others, begin_timeout,
  begin_interval-Shows,
}
use runite.Runtime.Scheduler.Ends.{end_others, end_here, on_stack, fail_others, fail_here}

module _ {Q : Type 0} {i : TimerQueue Q} (l : IsTimerQueue i) where
  absent :
      (s : System Q) (id d : ℕ)
      → s.scheduler.running ≡ some (id, d)
      → Inv l s
      → l.find s.scheduler.timers id ≡ none
  absent s id d r v =
      let (k, e) = on_stack l id d s.scheduler (s.life id) r (v.shows id) in
      (v.shows id).node ∙ ap (node_of id) e

  set_timeout-Inv :
      (s : System Q) (delay callback : ℕ)
      → Inv l s
      → Inv l (record s {
        scheduler = set_timeout i delay callback s.now s.scheduler;
        life =
            update s.life s.scheduler.next_timer_id
              (timeout_waits (saturating_add s.now delay) callback);
      })
  set_timeout-Inv s delay callback v =
      let x = s.scheduler in
      let new = fresh l x (s.life x.next_timer_id) (v.shows x.next_timer_id) in
      step_focus l s x.next_timer_id (set_timeout i delay callback s.now x)
        (timeout_waits (saturating_add s.now delay) callback) v
        (timeout-Ready l delay callback s.now x v.ready new.node)
        (timeout_here l delay callback s.now x v.ready.valid new) tt
        (λ b e. timeout_others l delay callback s.now x b v.ready.valid new.node e)

  set_interval-Inv :
      (s : System Q) (delay callback : ℕ)
      → Inv l s
      → Inv l (record s {
        scheduler = set_interval i delay callback s.now s.scheduler;
        life = update s.life s.scheduler.next_timer_id (interval_life delay callback s.now);
      })
  set_interval-Inv s delay callback v =
      let x = s.scheduler in
      let new = fresh l x (s.life x.next_timer_id) (v.shows x.next_timer_id) in
      step_focus l s x.next_timer_id (set_interval i delay callback s.now x)
        (interval_life delay callback s.now) v
        (interval-Ready l delay callback s.now x v.ready new.node)
        (interval_here l delay callback s.now x v.ready.valid new)
        (interval_life-Timely delay callback s.now)
        (λ b e. interval_others l delay callback s.now x b v.ready.valid new.node e)

  cancels-Inv : (s : System Q) (handle : TimerHandle) → Inv l s → Inv l (after_cancel i handle s)
  unfolding clear_timer
  cancels-Inv s handle v = elim (Bool-cases (handle.generation == s.scheduler.generation)) [
    | inl e ↦ rw e (
        step_focus l s handle.id
          (cleared i handle.id (i.remove handle.id s.scheduler.timers) s.scheduler)
          (clear_life (s.life handle.id)) v (cleared-Ready l handle.id s.scheduler v.ready)
          (clear_here l handle.id s.scheduler (s.life handle.id) v.ready.valid (v.shows handle.id))
          (clear-Timely s.now (s.life handle.id) (v.timely handle.id))
          (λ b k. clear_others l handle.id s.scheduler b v.ready.valid k))
    | inr e ↦ rw e v
  ]

  dispatches-Inv :
      (s : System Q) (t : Scheduler Q)
      → dispatch_expired_timers i s.now s.scheduler ≡ some t
      → Inv l s
      → Inv l (record s { scheduler = t; life = λ b. expire_life s.now (s.life b) })
  dispatches-Inv s t e v =
      let x = s.scheduler in
      let same : after_dispatch l s.now x ≡ t =
        some_same (sym (dispatch_lem l s.now x v.ready.valid) ∙ e) in
      subst (λ u. Inv l (record s { scheduler = u; life = λ b. expire_life s.now (s.life b) })) same
        (record {
          ready = record { valid = l.pop_due-Valid s.now x.timers v.ready.valid; armed = refl };
          shows = λ b. dispatch-Shows l s.now x b (s.life b) v.ready.valid (v.shows b);
          timely = λ b. expire-Timely s.now (s.life b) (v.timely b);
          punctual = v.punctual;
          agrees = v.agrees;
        })

  -- A macrotask of the timer `id` begins.
  -- A turn that is queued has the deadline that the life of its interval goes by.
  turn_due :
      (s : System Q) (id d : ℕ) (rest : List Macrotask)
      → s.scheduler.macrotasks ≡ run_interval id d ∷ rest
      → Inv l s
      → d ≡ due_of (s.life id)
  turn_due s id d rest q v =
      let (k, e, _) = queued_interval id d (macrotasks_for id rest) (s.life id) (
        head_for l id (run_interval id d) rest s.scheduler (s.life id) q (here_lem id)
          (v.shows id)) in
      sym (ap due_of e)

  begins_one :
      (s : System Q) (id : ℕ) (m : Macrotask) (rest : List Macrotask)
      → s.scheduler.macrotasks ≡ m ∷ rest
      → Inv l s
      → let r = run_macrotask m (record s.scheduler { macrotasks = rest }) in
        Shows l r.0 id (run_life (s.life id))
        → ((b : ℕ) → (b == id) ≡ false → Same l s.scheduler r.0 b)
        → Inv l (record s {
          scheduler = r.0;
          life = update s.life id (run_life (s.life id));
          runs = logged m r.1 s.now s.life s.runs;
        })
  begins_one s id m rest q v here others =
      let x = s.scheduler in
      let r = run_macrotask m (record x { macrotasks = rest }) in
      let f =
        step_focus l s id r.0 (run_life (s.life id)) v (begin-Ready l m rest x v.ready) here
          (run-Timely s.now (s.life id) (v.timely id)) others in
      record {
        ready = f.ready;
        shows = f.shows;
        timely = f.timely;
        punctual =
            begun-punctual m r.1 s.now s.life s.runs
              (λ b k.
                macrotask_was_due s.now b m (s.life b) (v.timely b) (macrotasks_for b rest)
                  (head_for l b m rest x (s.life b) q k (v.shows b)))
              v.punctual;
        agrees =
            begun_agrees m r.1 s.now s.life s.runs
              (λ k d e. turn_due s k d rest (q ∙ ap (λ x. x ∷ rest) e) v) v.agrees;
      }

  begins-Inv :
      (s : System Q) (m : Macrotask) (rest : List Macrotask)
      → s.scheduler.running ≡ none
      → s.scheduler.macrotasks ≡ m ∷ rest
      → Inv l s
      → Inv l (begun m (run_macrotask m (record s.scheduler { macrotasks = rest })) s)
  begins-Inv s (run_timeout id c) rest idle e v =
      begins_one s id (run_timeout id c) rest e v
        (begin_timeout l id c rest s.scheduler (s.life id) e (v.shows id))
        (λ b k. begin_others l (run_timeout id c) rest s.scheduler b e idle k)
  begins-Inv s (run_interval id d) rest idle e v =
      begins_one s id (run_interval id d) rest e v
        (begin_interval-Shows l id d rest s.scheduler (s.life id) e (v.shows id))
        (λ b k. begin_others l (run_interval id d) rest s.scheduler b e idle k)
  begins-Inv s (other task) rest idle e v = record {
    ready = record { valid = v.ready.valid; armed = v.ready.armed };
    shows = λ b.
        Same-Shows l s.scheduler (record s.scheduler { macrotasks = rest }) b (s.life b)
          (begin_others l (other task) rest s.scheduler b e idle refl) (v.shows b);
    timely = v.timely;
    punctual = v.punctual;
    agrees = v.agrees;
  }

  pub Step-Inv : (s t : System Q) → Step i s t → Inv l s → Inv l t
  Step-Inv s t (sets_timeout delay callback u handle e) v =
      let (made, id) = timeout_lem l delay callback s.now s.scheduler u handle e in
      rw (made, id) (set_timeout-Inv s delay callback v)
  Step-Inv s t (sets_interval delay callback u handle e) v =
      let (made, id) = interval_lem l delay callback s.now s.scheduler u handle e in
      rw (made, id) (set_interval-Inv s delay callback v)
  Step-Inv s t (cancels handle) v = cancels-Inv s handle v
  Step-Inv s t (dispatches u idle e) v = dispatches-Inv s u e v
  Step-Inv s t (begins m rest idle e) v = begins-Inv s m rest idle e v
  Step-Inv s t (ends id d r) v =
      let x = s.scheduler in
      step_focus l s id (end_interval i s.now id d x) (end_life s.now (s.life id)) v
        (end-Ready l s.now id d x v.ready (absent s id d r v))
        (end_here l s.now id d x (s.life id) v.ready.valid r (v.shows id))
        (end-Timely s.now (s.life id) (v.timely id))
        (λ b e. end_others l s.now id d x b v.ready.valid (absent s id d r v) r e)
  Step-Inv s t (fails id d r) v =
      let x = s.scheduler in
      step_focus l s id (fail_interval i id x) gone v
        (fail-Ready l id x v.ready (absent s id d r v))
        (fail_here l id d x (s.life id) v.ready.valid r (v.shows id)) tt
        (λ b e. fail_others l id d x b v.ready.valid r e)
  Step-Inv s t (queues task) v = record {
    ready = record { valid = v.ready.valid; armed = v.ready.armed };
    shows = λ b.
        let o = v.shows b in
        record {
          node = o.node;
          queue =
              macrotasks_for-append b s.scheduler.macrotasks (other task ∷ [])
              ∙ append-nil (macrotasks_for b s.scheduler.macrotasks)
              ∙ o.queue;
          live = o.live;
          entry = o.entry;
          stack = o.stack;
          made = o.made;
        };
    timely = v.timely;
    punctual = v.punctual;
    agrees = v.agrees;
  }
  Step-Inv s t (ticks now e) v = record {
    ready = v.ready;
    shows = v.shows;
    timely = λ b. tick-Timely s.now now (s.life b) e (v.timely b);
    punctual = v.punctual;
    agrees = v.agrees;
  }

  pub Reach-Inv : (generation : ℕ) (s : System Q) → Reach (Step i) (start i generation) s → Inv l s
  Reach-Inv generation s r = Reach-keeps (Step i) (Inv l) Step-Inv (start-Inv l generation) r
