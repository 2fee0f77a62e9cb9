-- ===== src/Channel/Broadcast/Tests.antt =====
-- A broadcast channel of capacity 2 on a concrete history.
use runite.Prelude.{
  ℕ, ◌+◌, ◌≤◌, ◌≡◌, refl, ◌⊎◌, [], ◌∷◌, ◌++◌, length, bit, copies, Reach, here, next, arith,
}
use runite.Channel.Broadcast.{
  State, value, waits, received, missed, ended, completed, recv_outcome, oldest_seq, new,
  push_value, send, drop_sender, poll_recv, poll_on, enqueue_waiter, registered,
  wake_ready_receivers, wake_loop, poll_ready,
}
use runite.Channel.Broadcast.Wake.{waiting_handles, handed_handles}
use runite.Channel.Broadcast.Users.{
  System, start, Step, sends, completes, polls, loses_sender, set_wait, after_poll, polled,
}
use runite.Channel.Broadcast.Inv.{is_pending}
use runite.Channel.Broadcast.Log.{promised}
use runite.Channel.Broadcast.Safety.{answers_are_exact, no_value_waits, closed_after_everything}

abbrev s0 : System ℕ
s0 = start 2

-- The receiver waits.
abbrev s1 : System ℕ
s1 = polled 0 s0

-- The first value is sent and collected for it.
abbrev t2 : State ℕ
t2 = record (push_value 10 s1.state) { recv_waiters = [] }

abbrev s2 : System ℕ
s2 = record s1 { state = t2; log = [] ++ 10 ∷ []; completing = [] ++ (0, value 10 1) ∷ [] }

abbrev s3 : System ℕ
s3 = set_wait 0 (completed (value 10 1)) (record s2 { completing = [] ++ [] })

abbrev s4 : System ℕ
s4 = polled 0 s3

-- Three more values: the oldest of them is overwritten.
abbrev push : ℕ → System ℕ → System ℕ
push v s = record s {
  state = push_value v s.state;
  log = s.log ++ v ∷ [];
  completing = s.completing ++ [];
}

abbrev s7 : System ℕ
s7 = push 40 (push 30 (push 20 s4))

abbrev s8 : System ℕ
s8 = polled 0 s7

abbrev s9 : System ℕ
s9 = polled 0 s8

to_one : Reach Step s0 s1
unfolding start new
to_one = next here (polls 0 refl (omega arith))

to_two : Reach Step s0 s2
unfolding start new poll_recv poll_on registered recv_outcome oldest_seq enqueue_waiter after_poll
    send push_value wake_ready_receivers wake_loop
to_two = next to_one (sends 10 t2 1 ((0, value 10 1) ∷ []) (omega arith) (omega arith) refl)

to_four : Reach Step s0 s4
unfolding start new poll_recv poll_on registered recv_outcome oldest_seq enqueue_waiter after_poll
    send push_value wake_ready_receivers wake_loop
to_four = next (next to_two (completes [] [] 0 (value 10 1) refl)) (polls 0 refl (omega arith))

to_seven : Reach Step s0 s7
unfolding start new poll_recv poll_on registered recv_outcome oldest_seq enqueue_waiter after_poll
    send push_value wake_ready_receivers wake_loop
to_seven =
    next
      (next (next to_four (sends 20 (push 20 s4).state 1 [] (omega arith) (omega arith) refl))
        (sends 30 (push 30 (push 20 s4)).state 1 [] (omega arith) (omega arith) refl))
      (sends 40 s7.state 1 [] (omega arith) (omega arith) refl)

-- The receiver got the first value, was told that it missed the second, and got the third.
reads_on : s9.events 0 ≡ received 10 ∷ missed 1 ∷ received 30 ∷ []
unfolding start new poll_recv poll_on registered recv_outcome oldest_seq enqueue_waiter after_poll
    send push_value wake_ready_receivers wake_loop
reads_on = refl

-- The only sender goes at once.
abbrev lost : System ℕ
lost = record s0 { state = record s0.state { sender_count = 0 }; completing = [] ++ [] }

to_lost : Reach Step s0 lost
unfolding start new poll_recv poll_on registered recv_outcome oldest_seq enqueue_waiter after_poll
    send push_value wake_ready_receivers wake_loop drop_sender
to_lost = next here (loses_sender lost.state [] (omega arith) refl)

ends_lost : (poll_recv 0 (lost.receiver 0) lost.state).1.1 ≡ poll_ready ended
unfolding start new poll_recv poll_on registered recv_outcome oldest_seq enqueue_waiter after_poll
    send push_value wake_ready_receivers wake_loop
ends_lost = refl

answers_are_exact_example :
    recv_outcome 1 s7.state ≡ promised 1 s7.state.capacity s7.state.sender_count s7.log
answers_are_exact_example = answers_are_exact 2 s7 1 (omega arith) to_seven

no_value_waits_example :
    (copies 0 (waiting_handles s1.state.recv_waiters) + copies 0 (handed_handles s1.completing)
      ≡ bit (is_pending (s1.receiver 0).wait))
    × ((copies 0 (waiting_handles s1.state.recv_waiters) ≡ 0)
        ⊎ (recv_outcome (s1.receiver 0).next_seq s1.state ≡ waits))
no_value_waits_example = no_value_waits 2 s1 0 (omega arith) to_one

closed_after_everything_example :
    (length lost.log ≤ (lost.receiver 0).next_seq) × (lost.state.sender_count ≡ 0)
closed_after_everything_example = closed_after_everything 2 lost 0 (omega arith) to_lost ends_lost
