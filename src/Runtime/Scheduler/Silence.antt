-- ===== src/Runtime/Scheduler/Silence.antt =====
-- A timer whose callback is not called any more.
use runite.Runtime.Scheduler.Steps.{Step-Inv}
use runite.Prelude.{ℕ, ◌≡◌, refl, ◌∙◌, List, none, some, Bool, true, false, Reach, here, next, not}
use runite.Runtime.Scheduler.Queue.{TimerQueue, IsTimerQueue}
use runite.Runtime.Scheduler.Life.{
  Life, unmade, gone, timeout_waits, timeout_queued, interval_waits, interval_queued, interval_runs,
  clear_life, expire_life, run_life, end_life, is_unmade,
}
use runite.Runtime.Scheduler.Users.{System, Step}
use runite.Runtime.Scheduler.Stories.{
  LifeStep, rests, is_set, is_repeated, is_cleared, expires, is_called, is_skipped, returns, panics,
  calls, deadlines, Step-LifeStep,
}
use runite.Runtime.Scheduler.Inv.{Inv}

abbrev pub is_silent : Life → Bool
is_silent unmade = false
is_silent gone = true
is_silent (timeout_waits d c) = false
is_silent (timeout_queued d c live) = not live
is_silent (interval_waits d k) = false
is_silent (interval_queued d none) = true
is_silent (interval_queued d (some k)) = false
is_silent (interval_runs d none) = true
is_silent (interval_runs d (some k)) = false

-- A cancelled timer is such a one, whatever it was doing.
pub is_silent-clear_life : (x : Life) → is_unmade x ≡ false → is_silent (clear_life x) ≡ true
is_silent-clear_life unmade e = cc
is_silent-clear_life gone e = refl
is_silent-clear_life (timeout_waits d c) e = refl
is_silent-clear_life (timeout_queued d c live) e = refl
is_silent-clear_life (interval_waits d k) e = refl
is_silent-clear_life (interval_queued d k) e = refl
is_silent-clear_life (interval_runs d k) e = refl

silent_expires : (now : ℕ) (x : Life) → is_silent x ≡ true → is_silent (expire_life now x) ≡ true
silent_expires now unmade e = cc
silent_expires now gone e = e
silent_expires now (timeout_waits d c) e = absurd (cc)
silent_expires now (timeout_queued d c live) e = e
silent_expires now (interval_waits d k) e = absurd (cc)
silent_expires now (interval_queued d k) e = e
silent_expires now (interval_runs d k) e = e

silent_runs : (x : Life) → is_silent x ≡ true → (is_silent (run_life x) ≡ true) × (calls x ≡ none)
silent_runs unmade e = absurd (cc)
silent_runs gone e = (e, refl)
silent_runs (timeout_waits d c) e = absurd (cc)
silent_runs (timeout_queued d c true) e = absurd (cc)
silent_runs (timeout_queued d c false) e = (refl, refl)
silent_runs (interval_waits d k) e = absurd (cc)
silent_runs (interval_queued d none) e = (refl, refl)
silent_runs (interval_queued d (some k)) e = absurd (cc)
silent_runs (interval_runs d k) e = (e, refl)

silent_ends : (now : ℕ) (x : Life) → is_silent x ≡ true → is_silent (end_life now x) ≡ true
silent_ends now unmade e = cc
silent_ends now gone e = e
silent_ends now (timeout_waits d c) e = absurd (cc)
silent_ends now (timeout_queued d c live) e = e
silent_ends now (interval_waits d k) e = absurd (cc)
silent_ends now (interval_queued d k) e = e
silent_ends now (interval_runs d none) e = refl
silent_ends now (interval_runs d (some k)) e = absurd (cc)

silent_made : (x : Life) → is_silent x ≡ true → is_unmade x ≡ false
silent_made unmade e = cc
silent_made gone e = refl
silent_made (timeout_waits d c) e = refl
silent_made (timeout_queued d c live) e = refl
silent_made (interval_waits d k) e = refl
silent_made (interval_queued d k) e = refl
silent_made (interval_runs d k) e = refl

silent_not_unmade : (x : Life) → is_silent x ≡ true → x ≡ unmade → ⊥
silent_not_unmade x e u = absurd (cc)

silent_LifeStep :
    (now : ℕ) (x y : Life) (ran then_ran : List ℕ)
    → LifeStep now x ran y then_ran
    → is_silent x ≡ true
    → (is_silent y ≡ true) × (then_ran ≡ ran)
silent_LifeStep now x y ran then_ran rests e = (e, refl)
silent_LifeStep now x y ran then_ran (is_set delay callback u) e = absurd (silent_not_unmade x e u)
silent_LifeStep now x y ran then_ran (is_repeated delay callback u) e =
    absurd (silent_not_unmade x e u)
silent_LifeStep now x y ran then_ran is_cleared e = (is_silent-clear_life x (silent_made x e), refl)
silent_LifeStep now x y ran then_ran expires e = (silent_expires now x e, refl)
silent_LifeStep now x y ran then_ran (is_called d c) e =
    let (_, no_call) = silent_runs x e in absurd (cc)
silent_LifeStep now x y ran then_ran (is_skipped c) e = ((silent_runs x e).0, refl)
silent_LifeStep now x y ran then_ran (returns d k q) e = (silent_ends now x e, refl)
silent_LifeStep now x y ran then_ran (panics d k q) e = (refl, refl)

module _ {Q : Type 0} {i : TimerQueue Q} (l : IsTimerQueue i) where
  -- Silence lasts.
  pub silent_forever :
      (s t : System Q) (b : ℕ)
      → Reach (Step i) s t
      → Inv l s
      → is_silent (s.life b) ≡ true
      → Inv l t × (is_silent (t.life b) ≡ true) × (deadlines b t.runs ≡ deadlines b s.runs)
  silent_forever s t b here v e = (v, e, refl)
  silent_forever s u b (next {t = t} r st) v e =
      let (w, f, same) = silent_forever s t b r v e in
      let (g, more) =
        silent_LifeStep t.now (t.life b) (u.life b) (deadlines b t.runs) (deadlines b u.runs)
          (Step-LifeStep l t u st w b) f in
      (Step-Inv l t u st w, g, more ∙ same)
