-- ===== src/Op/Completion/Tests.antt =====
-- A completion that is polled, and then finished, on a concrete history.
use runite.Prelude.{
  ℕ, ◌+◌, ◌≤◌, ◌≡◌, refl, some, false, not, ◌||◌, bit, length, [], ◌∷◌, Reach, here, next, arith,
}
use runite.Op.Completion.{
  Completion, completion, finish, finish_next, poll, poll_next, wake, wake_next,
}
use runite.Op.Completion.Users.{Step, finishes, goes_on, polls, polls_on, wakes, wakes_on}
use runite.Op.Completion.Inv.{is_some, is_finishing, counts_down, holds_value}
use runite.Op.Completion.Safety.{operation_counted_once, value_delivered_once}

abbrev polled_once : Completion ℕ
polled_once = poll 5 completion

abbrev waiting_five : Completion ℕ
waiting_five = let s = poll_next polled_once.polling polled_once in poll_next s.polling s

abbrev stored : Completion ℕ
stored =
    let s = finish (some 7) waiting_five in
    let t = finish_next false s.finishing s in finish_next false t.finishing t

abbrev queued_wake : Completion ℕ
queued_wake = finish_next false stored.finishing stored

abbrev ran : Completion ℕ
ran = wake_next (wake queued_wake)

to_waiting : Reach (Step false) completion waiting_five
unfolding completion poll poll_next
to_waiting = next (next (next here (polls 5 refl refl refl)) (polls_on refl)) (polls_on refl)

to_stored : Reach (Step false) completion stored
to_stored = next (next (next to_waiting (finishes (some 7))) goes_on) goes_on

to_ran : Reach (Step false) completion ran
unfolding completion poll poll_next finish finish_next wake
to_ran = next (next (next to_stored goes_on) (wakes (omega arith) refl refl)) (wakes_on refl)

-- The wake calls the waker, and the next poll returns the value.
runs_through : (ran.woken ≡ 5 ∷ []) × ((poll 5 ran).delivered ≡ 7 ∷ [])
unfolding completion poll poll_next finish finish_next wake wake_next
runs_through = (refl, refl)

operation_counted_once_example :
    ran.ops ≡ bit (not ran.finished || (is_finishing ran.finishing || counts_down ran.dropping))
operation_counted_once_example = operation_counted_once false ran to_ran

value_delivered_once_test :
    length stored.delivered + bit (is_some stored.result) + bit (holds_value stored.finishing) ≤ 1
value_delivered_once_test = value_delivered_once false stored to_stored
