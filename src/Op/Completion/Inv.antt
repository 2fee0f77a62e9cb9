-- ===== src/Op/Completion/Inv.antt =====
-- What holds of a completion between any two accesses.
use runite.Prelude.{
  ℕ, ◌+◌, ◌<◌, ◌≤◌, ◌≡◌, refl, List, [], ◌∷◌, Option, none, some, Bool, true, false, not, ◌&&◌,
  ◌||◌, ◌==◌, bit, length, length-append, Reach, Reach-keeps, arith,
}
use runite.Op.Completion.{
  Completion, Finishing, no_finish, checks, stores, queues, clears, counts, Polling, no_poll,
  registers, looks, waits, Dropping, alive, takes_result, takes_waker, asks, takes_cancel, cancels,
  swaps, counts_drop, dropped, completion, finish, finish_next, set_cancel, looked, looked_again,
  poll, poll_next, wake, wake_next, drop_future, drop_next,
}
use runite.Op.Completion.Users.{
  is_polling, Step, finishes, goes_on, sets, polls, polls_on, wakes, wakes_on, drops, drops_on,
}

abbrev pub is_some : {A : Type 0} → Option A → Bool
is_some none = false
is_some (some a) = true

abbrev pub is_at : Option ℕ → ℕ → Bool
is_at none b = false
is_at (some a) b = a == b

abbrev pub is_head : List ℕ → ℕ → Bool
is_head [] b = false
is_head (a ∷ rest) b = a == b

abbrev pub counts_down : Dropping → Bool
counts_down alive = false
counts_down takes_result = false
counts_down takes_waker = false
counts_down asks = false
counts_down takes_cancel = false
counts_down cancels = false
counts_down swaps = false
counts_down counts_drop = true
counts_down dropped = false

abbrev pub is_alive : Dropping → Bool
is_alive alive = true
is_alive takes_result = false
is_alive takes_waker = false
is_alive asks = false
is_alive takes_cancel = false
is_alive cancels = false
is_alive swaps = false
is_alive counts_drop = false
is_alive dropped = false

abbrev pub is_waiting : Polling → Bool
is_waiting no_poll = false
is_waiting (registers w) = false
is_waiting (looks w) = false
is_waiting (waits w) = true

-- A poll that waits, or is about to, has its waker in the cell, or it was called.
abbrev pub has_waker : Polling → Option ℕ → List ℕ → Bool
has_waker no_poll waker woken = true
has_waker (registers w) waker woken = true
has_waker (looks w) waker woken = is_at waker w
has_waker (waits w) waker woken = is_at waker w || (not (is_some waker) && is_head woken w)

module _ {A : Type 0} where
  abbrev pub is_finishing : Finishing A → Bool
  is_finishing no_finish = false
  is_finishing (checks v) = true
  is_finishing (stores v) = true
  is_finishing queues = true
  is_finishing clears = true
  is_finishing counts = true

  -- The value is still to be stored.
  abbrev pub holds_value : Finishing A → Bool
  holds_value no_finish = false
  holds_value (checks v) = true
  holds_value (stores v) = true
  holds_value queues = false
  holds_value clears = false
  holds_value counts = false

  abbrev pub is_queueing : Finishing A → Bool
  is_queueing no_finish = false
  is_queueing (checks v) = false
  is_queueing (stores v) = false
  is_queueing queues = true
  is_queueing clears = false
  is_queueing counts = false

  abbrev pub coming : Completion A → Bool
  coming s = is_queueing s.finishing || (s.wake_queued || s.waking)

  pub record Inv (closed : Bool) (s : Completion A) : Type 0 where
    pub share : s.ops ≡ bit (not s.finished || (is_finishing s.finishing || counts_down s.dropping))
    pub apart : (is_finishing s.finishing && counts_down s.dropping) ≡ false
    pub begun : (not s.finished && (is_finishing s.finishing || counts_down s.dropping)) ≡ false
    pub once :
        length s.delivered
          + bit (is_some s.result)
          + bit (holds_value s.finishing)
          + bit (not s.finished)
        ≤ 1
    pub queue : s.queued ≡ bit s.wake_queued
    pub asked : (is_alive s.dropping && not (has_waker s.polling s.waker s.woken)) ≡ false
    pub wake :
        (is_waiting s.polling
          && is_some s.result
          && is_some s.waker
          && not closed
          && not (coming s))
        ≡ false
    pub exclusive : (s.waking && is_polling s.polling) ≡ false
    pub interest : s.interested ≡ is_alive s.dropping

  finishes-Inv :
      (closed : Bool) (v : Option A) (s : Completion A) → Inv closed s → Inv closed (finish v s)
  unfolding finish
  finishes-Inv c v s i = ground arith

  goes_on-Inv :
      (closed : Bool) (s : Completion A) (f : Finishing A)
      → s.finishing ≡ f
      → Inv closed s
      → Inv closed (finish_next closed f s)
  unfolding finish_next
  goes_on-Inv c s no_finish e i = i
  goes_on-Inv c s (checks v) e i = ground arith
  goes_on-Inv c s (stores none) e i = ground arith
  goes_on-Inv c s (stores (some v)) e i = ground arith
  goes_on-Inv c s queues e i = ground arith
  goes_on-Inv c s clears e i = ground arith
  goes_on-Inv c s counts e i = ground arith

  sets-Inv : (closed : Bool) (s : Completion A) → Inv closed s → Inv closed (set_cancel s)
  unfolding set_cancel
  sets-Inv c s i = record {
    share = i.share;
    apart = i.apart;
    begun = i.begun;
    once = i.once;
    queue = i.queue;
    asked = i.asked;
    wake = i.wake;
    exclusive = i.exclusive;
    interest = i.interest;
  }

  polls-Inv :
      (closed : Bool) (w : ℕ) (o : Option A) (s : Completion A)
      → s.result ≡ o
      → s.waking ≡ false
      → Inv closed s
      → Inv closed (looked w o s)
  polls-Inv c w none s e k i = ground arith
  polls-Inv c w (some v) s e k i = let l = length-append s.delivered (v ∷ []) in ground arith

  looks-Inv :
      (closed : Bool) (w : ℕ) (o : Option A) (s : Completion A)
      → s.polling ≡ looks w
      → s.result ≡ o
      → s.waking ≡ false
      → Inv closed s
      → Inv closed (looked_again w o s)
  looks-Inv c w none s p e k i = ground arith
  looks-Inv c w (some v) s p e k i = let l = length-append s.delivered (v ∷ []) in ground arith

  polls_on-Inv :
      (closed : Bool) (p : Polling) (s : Completion A)
      → s.polling ≡ p
      → s.waking ≡ false
      → Inv closed s
      → Inv closed (poll_next p s)
  unfolding poll_next
  polls_on-Inv c no_poll s p k i = i
  polls_on-Inv c (registers w) s p k i = ground arith
  polls_on-Inv c (looks w) s p k i = looks-Inv c w s.result s p refl k i
  polls_on-Inv c (waits w) s p k i = i

  wakes-Inv :
      (closed : Bool) (s : Completion A)
      → 0 < s.queued
      → s.waking ≡ false
      → is_polling s.polling ≡ false
      → Inv closed s
      → Inv closed (wake s)
  unfolding wake
  wakes-Inv c s q k p i = ground arith

  wakes_on-Inv :
      (closed : Bool) (p : Polling) (o : Option ℕ) (s : Completion A)
      → s.polling ≡ p
      → s.waker ≡ o
      → s.waking ≡ true
      → Inv closed s
      → Inv closed (wake_next s)
  unfolding wake_next
  wakes_on-Inv c no_poll o s p e k i = ground arith
  wakes_on-Inv c (registers w) o s p e k i = ground arith
  wakes_on-Inv c (looks w) o s p e k i = ground arith
  wakes_on-Inv c (waits w) none s p e k i = ground arith
  wakes_on-Inv c (waits w) (some v) s p e k i = ground arith

  drops-Inv : (closed : Bool) (s : Completion A) → Inv closed s → Inv closed (drop_future s)
  unfolding drop_future
  drops-Inv c s i = ground arith

  drops_on-Inv :
      (closed : Bool) (d : Dropping) (s : Completion A)
      → s.dropping ≡ d
      → Inv closed s
      → Inv closed (drop_next d s)
  unfolding drop_next
  drops_on-Inv c alive s e i = i
  drops_on-Inv c takes_result s e i = ground arith
  drops_on-Inv c takes_waker s e i = ground arith
  drops_on-Inv c asks s e i = ground arith
  drops_on-Inv c takes_cancel s e i = ground arith
  drops_on-Inv c cancels s e i = ground arith
  drops_on-Inv c swaps s e i = ground arith
  drops_on-Inv c counts_drop s e i = ground arith
  drops_on-Inv c dropped s e i = i

  Step-Inv : (closed : Bool) (s t : Completion A) → Step closed s t → Inv closed s → Inv closed t
  unfolding poll
  Step-Inv c s _ (finishes v) i = finishes-Inv c v s i
  Step-Inv c s _ goes_on i = goes_on-Inv c s s.finishing refl i
  Step-Inv c s _ sets i = sets-Inv c s i
  Step-Inv c s _ (polls w a k p) i = polls-Inv c w s.result s refl k i
  Step-Inv c s _ (polls_on k) i = polls_on-Inv c s.polling s refl k i
  Step-Inv c s _ (wakes q k p) i = wakes-Inv c s q k p i
  Step-Inv c s _ (wakes_on k) i = wakes_on-Inv c s.polling s.waker s refl refl k i
  Step-Inv c s _ (drops k p) i = drops-Inv c s i
  Step-Inv c s _ drops_on i = drops_on-Inv c s.dropping s refl i

  pub reached-Inv :
      (closed : Bool) (s : Completion A) → Reach (Step closed) completion s → Inv closed s
  unfolding completion
  reached-Inv c s r = Reach-keeps (Step c) (Inv c) (Step-Inv c) (ground arith) r
