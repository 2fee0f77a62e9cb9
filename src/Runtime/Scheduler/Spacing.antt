-- ===== src/Runtime/Scheduler/Spacing.antt =====
-- The deadlines of an interval are its period apart.
use runite.Runtime.Scheduler.Steps.{Step-Inv}
use runite.Prelude.{
  ℕ, ◌≡◌, refl, inl, inr, List, [], ◌∷◌, Option, none, some, Bool-cases, leb, ◌==◌, Reach,
  Reach-keeps,
}
use runite.Runtime.Scheduler.{IntervalEntry, saturating_add}
use runite.Runtime.Scheduler.Queue.{TimerQueue, IsTimerQueue}
use runite.Runtime.Scheduler.Life.{
  Life, unmade, gone, timeout_waits, timeout_queued, interval_waits, interval_queued, interval_runs,
  clear_life, expire_life, run_life, end_life, entry_of,
}
use runite.Runtime.Scheduler.Users.{System, start, Step, interval_life}
use runite.Runtime.Scheduler.Stories.{
  LifeStep, rests, is_set, is_repeated, is_cleared, expires, is_called, is_skipped, returns, panics,
  calls, deadlines, Step-LifeStep,
}
use runite.Runtime.Scheduler.Inv.{Inv, start-Inv}

-- `d` is the deadline after those in the list.
abbrev pub Follows : ℕ → ℕ → List ℕ → Type 0
Follows period d [] = Unit {0}
Follows period d (e ∷ ran) = d ≡ saturating_add e period

-- Each deadline but the first is the one before it and the period.
abbrev pub Spaced : ℕ → List ℕ → Type 0
Spaced period [] = Unit {0}
Spaced period (d ∷ ran) = Follows period d ran × Spaced period ran

abbrev pub Even : Life → List ℕ → Type 0
Even unmade ran = ran ≡ []
Even gone ran = Unit {0}
Even (timeout_waits d c) ran = ran ≡ []
Even (timeout_queued d c live) ran = ran ≡ []
Even (interval_waits d k) ran = Follows k.interval d ran × Spaced k.interval ran
Even (interval_queued d none) ran = Unit {0}
Even (interval_queued d (some k)) ran = Follows k.interval d ran × Spaced k.interval ran
Even (interval_runs d none) ran = Unit {0}
Even (interval_runs d (some k)) ran =
    (earlier : List ℕ) × (ran ≡ d ∷ earlier) × Spaced k.interval ran

unmade-Even : (x : Life) (ran : List ℕ) → x ≡ unmade → Even x ran → ran ≡ []
unmade-Even x ran e v = rw e at v

interval_life-Even : (delay callback now : ℕ) → Even (interval_life delay callback now) []
interval_life-Even delay callback now = elim (Bool-cases (delay == 0)) [
  | inl z ↦ rw z (tt, tt)
  | inr z ↦ rw z (tt, tt)
]

clear_life-Even : (x : Life) (ran : List ℕ) → Even x ran → Even (clear_life x) ran
clear_life-Even unmade ran v = v
clear_life-Even gone ran v = tt
clear_life-Even (timeout_waits d c) ran v = tt
clear_life-Even (timeout_queued d c live) ran v = v
clear_life-Even (interval_waits d k) ran v = tt
clear_life-Even (interval_queued d k) ran v = tt
clear_life-Even (interval_runs d k) ran v = tt

expire_life-Even : (now : ℕ) (x : Life) (ran : List ℕ) → Even x ran → Even (expire_life now x) ran
expire_life-Even now unmade ran v = v
expire_life-Even now gone ran v = tt
expire_life-Even now (timeout_waits d c) ran v = elim (Bool-cases (leb d now)) [
  | inl e ↦ rw e v
  | inr e ↦ rw e v
]
expire_life-Even now (timeout_queued d c live) ran v = v
expire_life-Even now (interval_waits d k) ran v = elim (Bool-cases (leb d now)) [
  | inl e ↦ rw e v
  | inr e ↦ rw e v
]
expire_life-Even now (interval_queued d k) ran v = v
expire_life-Even now (interval_runs d k) ran v = v

called-Even :
    (x : Life) (d : ℕ) (ran : List ℕ) → calls x ≡ some d → Even x ran → Even (run_life x) (d ∷ ran)
called-Even unmade d ran c v = absurd (cc)
called-Even gone d ran c v = absurd (cc)
called-Even (timeout_waits e k) d ran c v = absurd (cc)
called-Even (timeout_queued e k live) d ran c v = tt
called-Even (interval_waits e k) d ran c v = absurd (cc)
called-Even (interval_queued e none) d ran c v = absurd (cc)
called-Even (interval_queued e (some k)) d ran c v =
    let same : e ≡ d = cc in
    let follows : Follows k.interval d ran × Spaced k.interval ran = rw same at v in
    (ran, cc, follows)
called-Even (interval_runs e k) d ran c v = absurd (cc)

skipped-Even : (x : Life) (ran : List ℕ) → calls x ≡ none → Even x ran → Even (run_life x) ran
skipped-Even unmade ran c v = v
skipped-Even gone ran c v = tt
skipped-Even (timeout_waits e k) ran c v = v
skipped-Even (timeout_queued e k live) ran c v = tt
skipped-Even (interval_waits e k) ran c v = v
skipped-Even (interval_queued e none) ran c v = tt
skipped-Even (interval_queued e (some k)) ran c v = absurd (cc)
skipped-Even (interval_runs e k) ran c v = v

end_life-Even :
    (now d : ℕ) (k : Option IntervalEntry) (ran : List ℕ)
    → Even (interval_runs d k) ran
    → Even (end_life now (interval_runs d k)) ran
end_life-Even now d none ran v = tt
end_life-Even now d (some k) ran (earlier, e, spaced) =
    let follows : Follows k.interval (saturating_add d k.interval) ran = rw e refl in
    elim (Bool-cases (leb (saturating_add d k.interval) now)) [
      | inl o ↦ rw o (follows, spaced)
      | inr o ↦ rw o (follows, spaced)
    ]

pub LifeStep-Even :
    (now : ℕ) (x y : Life) (ran then_ran : List ℕ)
    → LifeStep now x ran y then_ran
    → Even x ran
    → Even y then_ran
LifeStep-Even now x y ran then_ran rests v = v
LifeStep-Even now x y ran then_ran (is_set delay callback u) v = unmade-Even x ran u v
LifeStep-Even now x y ran then_ran (is_repeated delay callback u) v =
    rw (unmade-Even x ran u v) (interval_life-Even delay callback now)
LifeStep-Even now x y ran then_ran is_cleared v = clear_life-Even x ran v
LifeStep-Even now x y ran then_ran expires v = expire_life-Even now x ran v
LifeStep-Even now x y ran then_ran (is_called d c) v = called-Even x d ran c v
LifeStep-Even now x y ran then_ran (is_skipped c) v = skipped-Even x ran c v
LifeStep-Even now x y ran then_ran (returns d k e) v = rw e (end_life-Even now d k ran (rw e at v))
LifeStep-Even now x y ran then_ran (panics d k e) v = tt

-- What is left of an interval that has its entry.
pub Even-Spaced :
    (x : Life) (k : IntervalEntry) (ran : List ℕ)
    → entry_of x ≡ some k
    → Even x ran
    → Spaced k.interval ran
Even-Spaced unmade k ran e v = absurd (cc)
Even-Spaced gone k ran e v = absurd (cc)
Even-Spaced (timeout_waits d c) k ran e v = absurd (cc)
Even-Spaced (timeout_queued d c live) k ran e v = absurd (cc)
Even-Spaced (interval_waits d m) k ran e v = let same : m ≡ k = cc in rw same at v.1
Even-Spaced (interval_queued d none) k ran e v = absurd (cc)
Even-Spaced (interval_queued d (some m)) k ran e v = let same : m ≡ k = cc in rw same at v.1
Even-Spaced (interval_runs d none) k ran e v = absurd (cc)
Even-Spaced (interval_runs d (some m)) k ran e (earlier, q, spaced) =
    let same : m ≡ k = cc in rw same at spaced

module _ {Q : Type 0} {i : TimerQueue Q} (l : IsTimerQueue i) where
  pub Reach-Even :
      (generation : ℕ) (s : System Q)
      → Reach (Step i) (start i generation) s
      → Inv l s × ((b : ℕ) → Even (s.life b) (deadlines b s.runs))
  unfolding start
  Reach-Even generation s r =
      Reach-keeps (Step i) (λ t. Inv l t × ((b : ℕ) → Even (t.life b) (deadlines b t.runs)))
        (λ t u st p. (
          Step-Inv l t u st p.0,
          λ b.
              LifeStep-Even t.now (t.life b) (u.life b) (deadlines b t.runs) (deadlines b u.runs)
                (Step-LifeStep l t u st p.0 b) (p.1 b),
        ))
        (
          start-Inv l generation,
          λ b. elim (Bool-cases (b == 0)) [ inl e ↦ rw e tt | inr e ↦ rw e refl ],
        )
        r
