-- ===== src/Op/Completion/Users.antt =====
-- A future and its handles on their threads, access by access.
use runite.Prelude.{ℕ, ◌<◌, ◌≡◌, Option, Bool, true, false}
use runite.Op.Completion.{
  Completion, Polling, no_poll, registers, looks, waits, alive, finish, finish_next, set_cancel,
  poll, poll_next, wake, wake_next, drop_future, drop_next,
}

-- A poll that is under way on the owner's thread.
abbrev pub is_polling : Polling → Bool
is_polling no_poll = false
is_polling (registers w) = true
is_polling (looks w) = true
is_polling (waits w) = false

module _ {A : Type 0} where
  -- The owner's thread polls, runs wakes and drops the future, one after the other. A handle may finish
  -- and set the callback at any time; any number of handles may.
  pub data Step (closed : Bool) (s : Completion A) : Completion A → Type 0 where
    finishes : (v : Option A) → Step closed s (finish v s)
    goes_on : Step closed s (finish_next closed s.finishing s)
    sets : Step closed s (set_cancel s)
    polls :
        (w : ℕ)
        → s.dropping ≡ alive
        → s.waking ≡ false
        → is_polling s.polling ≡ false
        → Step closed s (poll w s)
    polls_on : s.waking ≡ false → Step closed s (poll_next s.polling s)
    wakes : 0 < s.queued → s.waking ≡ false → is_polling s.polling ≡ false → Step closed s (wake s)
    wakes_on : s.waking ≡ true → Step closed s (wake_next s)
    drops : s.waking ≡ false → is_polling s.polling ≡ false → Step closed s (drop_future s)
    drops_on : Step closed s (drop_next s.dropping s)
