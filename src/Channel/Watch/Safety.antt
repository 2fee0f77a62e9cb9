-- ===== src/Channel/Watch/Safety.antt =====
-- What senders and receivers of a watch channel may rely on.
use mathlib.Core.Path.{subst}
use mathlib.Core.List.{Memᴰ}
use runite.Prelude.{
  ℕ, ◌≤◌, ◌<◌, ◌≡◌, ◌≢◌, ◌↔◌, if◌then◌else◌, refl, sym, ap, inl, inr, [], Option, none, some, Bool,
  true, false, Bool-cases, arith, length, ltb, Reach,
}
use runite.Channel.Watch.{
  WatchWaiter, Shared, Answer, changed, closed, wake_changed, register, accept,
}
use runite.Channel.Watch.Wake.{wake_loop-Woken}
use runite.Channel.Watch.Users.{System, Step, start}
use runite.Channel.Watch.Inv.{Reach-Inv, true-false}
use runite.Channel.Watch.Waits.{waiter_of, Reach-Kept}

none-true : ◌≢◌ {A = Option Bool} none (some true)
none-true e = cc

false-true : ◌≢◌ {A = Option Bool} (some false) (some true)
false-true e = true-false (sym (ap (λ o. elim o [ none ↦ true | some b ↦ b ]) e))

module _ {A : Type 0} where
  -- After every history in which each write has collected its waiters, a wait that was registered, whose
  -- handle no section has returned to be completed and whose future was not dropped, belongs to a
  -- receiver that has seen the current version, and its waiter is stored.
  pub no_change_missed :
      (initial : A) (s : System A) (n seen : ℕ)
      → Reach Step (start initial) s
      → s.collecting ≡ []
      → s.waits n ≡ some seen
      → (seen ≡ s.shared.version) × Memᴰ (waiter_of n seen) s.shared.waiters
  no_change_missed initial s n seen r e w =
      let (l, m) = (Reach-Kept initial r).stored n seen w in
      elim ((Reach-Inv initial r).fresh (waiter_of n seen) m) [
        | inl f ↦ (f, m)
        | inr (c, k, l) ↦ elim (subst (Memᴰ c) e k) [ ]
      ]

  -- Collecting for a version completes every waiter that has only seen an older one, and leaves only
  -- waiters that were stored and have seen it.
  pub wake_changed_is_exact :
      (current : ℕ) (s : Shared A) (w : WatchWaiter)
      → (Memᴰ w s.waiters → w.version < current → Memᴰ w.handle (wake_changed current s).1)
        × (Memᴰ w (wake_changed current s).0.waiters → Memᴰ w s.waiters × (current ≤ w.version))
  unfolding wake_changed
  wake_changed_is_exact current s w =
      let k = wake_loop-Woken (length s.waiters) current [] s.waiters [] (omega arith) in
      (k.taken w, λ m. elim (k.left w m) [ inl n ↦ elim n [ ] | inr p ↦ p ])

  -- After every history, once the last sender is gone nobody waits, and a receiver that asks is
  -- answered at once: with the current version if it has not seen it, else that the channel is closed.
  pub closed_answers_at_once :
      (initial : A) (s : System A) (seen handle : ℕ)
      → Reach Step (start initial) s
      → s.shared.sender_count ≡ 0
      → (s.shared.waiters ≡ [])
        × ((register seen handle s.shared).1
            ≡ some (if ltb seen s.shared.version then changed s.shared.version else closed))
  unfolding register
  closed_answers_at_once initial s seen handle r z =
      let i = Reach-Inv initial r in
      let o = i.open_or_empty in
      (
        ground arith,
        elim (Bool-cases (ltb seen s.shared.version)) [
          | inl e ↦ rw e refl
          | inr e ↦ rw (e, z) refl
        ],
      )

-- The version that a receiver has seen never goes back when it accepts a completed wait, and a change
-- is reported exactly when it moves forward.
pub accept_moves_forward :
    (seen : ℕ) (answer : Answer)
    → (seen ≤ (accept seen answer).0)
      × (((accept seen answer).1 ≡ some true) ↔ (seen < (accept seen answer).0))
unfolding accept
accept_moves_forward seen (changed version) = elim (Bool-cases (ltb seen version)) [
  | inl e ↦ rw e (ground arith, ((λ _. ground arith), (λ _. refl)))
  | inr e ↦ rw e (omega arith, ((λ k. absurd (none-true k)), (λ l. absurd (omega (arith, l)))))
]
accept_moves_forward seen closed =
    (omega arith, ((λ k. absurd (false-true k)), (λ l. absurd (omega (arith, l)))))
