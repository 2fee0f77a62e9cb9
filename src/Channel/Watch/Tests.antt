-- ===== src/Channel/Watch/Tests.antt =====
-- A watch channel on concrete histories.
use mathlib.Core.List.{Memᴰ}
use mathlib.Core.List.Memᴰ.{head}
use runite.Prelude.{
  ℕ, ◌≤◌, ◌<◌, ◌≡◌, ◌↔◌, refl, [], ◌∷◌, some, true, arith, ltb, if◌then◌else◌, Reach, here, next,
}
use runite.Channel.Watch.{
  WatchWaiter, changed, closed, channel, write, register, wake_changed, wake_loop, close_sender,
  accept,
}
use runite.Channel.Watch.Users.{System, Step, start, wait, lose_sender, woken, asked}
use runite.Channel.Watch.Safety.{
  no_change_missed, wake_changed_is_exact, closed_answers_at_once, accept_moves_forward,
}

-- A receiver waits for the first change.
abbrev one_waits : System ℕ
one_waits = asked (start 7) 0 (register 0 1 (start 7).shared)

abbrev waiter : WatchWaiter
waiter = record { id = 1; version = 0; handle = 1 }

wait_history : Reach Step (start 7) one_waits
unfolding start channel register
wait_history = next here (wait 0 (omega arith) (omega arith))

it_waits : Memᴰ waiter one_waits.shared.waiters
unfolding start channel register
it_waits = head refl

none_collecting : one_waits.collecting ≡ []
unfolding start channel register
none_collecting = refl

wait_open : one_waits.waits 1 ≡ some 0
unfolding start channel register
wait_open = refl

-- A write wakes it.
write_wakes :
    let r = wake_changed 1 (write 8 one_waits.shared) in (r.1 ≡ 1 ∷ []) × (r.0.waiters ≡ [])
unfolding start channel register write wake_changed wake_loop
write_wakes = (refl, refl)

abbrev no_sender : System ℕ
no_sender = woken (start 7) (close_sender (start 7).shared)

lost_history : Reach Step (start 7) no_sender
unfolding start channel close_sender
lost_history = next here (lose_sender (omega arith))

none_left : no_sender.shared.sender_count ≡ 0
unfolding start channel close_sender
none_left = refl

no_change_missed_example : (0 ≡ one_waits.shared.version) × Memᴰ waiter one_waits.shared.waiters
no_change_missed_example = no_change_missed 7 one_waits 1 0 wait_history none_collecting wait_open

wake_changed_is_exact_test :
    (Memᴰ waiter one_waits.shared.waiters → 0 < 1 → Memᴰ 1 (wake_changed 1 one_waits.shared).1)
    × (Memᴰ waiter (wake_changed 1 one_waits.shared).0.waiters
        → Memᴰ waiter one_waits.shared.waiters × (1 ≤ 0))
wake_changed_is_exact_test = wake_changed_is_exact 1 one_waits.shared waiter

closed_answers_at_once_test :
    (no_sender.shared.waiters ≡ [])
    × ((register 0 3 no_sender.shared).1
        ≡ some
            (if ltb 0 no_sender.shared.version then changed no_sender.shared.version else closed))
closed_answers_at_once_test = closed_answers_at_once 7 no_sender 0 3 lost_history none_left

accept_moves_forward_test :
    (2 ≤ (accept 2 (changed 5)).0)
    × (((accept 2 (changed 5)).1 ≡ some true) ↔ (2 < (accept 2 (changed 5)).0))
accept_moves_forward_test = accept_moves_forward 2 (changed 5)
