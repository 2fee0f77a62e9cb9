-- ===== src/Channel/Oneshot/Tests.antt =====
-- A oneshot channel on concrete histories.
use runite.Prelude.{ℕ, ◌≡◌, ◌≢◌, ◌⊎◌, refl, [], none, some, true, false, Reach, here, next}
use runite.Channel.Oneshot.{
  received, closed, channel, send, drop_sender, take_value, try_recv, poll_recv, register_recv,
}
use runite.Channel.Oneshot.Users.{System, Step, start, send_value, start_wait, handed}
use runite.Channel.Oneshot.Inv.{listed}
use runite.Channel.Oneshot.Safety.{
  delivered_at_most_once, waiting_means_undecided, registration_never_panics,
  lost_sender_wakes_receiver, sending_wakes_receiver,
}

abbrev sent_five : System ℕ
sent_five = record start {
  state = (send 5 start.state).0.0;
  sender = false;
  given = handed 5 (send 5 start.state).1;
}

sent_history : Reach Step start sent_five
unfolding start channel
sent_history = next here (send_value 5 refl)

-- The receiver gets the value, and then reports that the channel is closed.
gets_five :
    let first = try_recv sent_five.state sent_five.receiver in
    (first.1 ≡ received 5) × ((try_recv first.0.0 first.0.1).1 ≡ closed)
unfolding start channel send try_recv take_value
gets_five = (refl, refl)

abbrev receiver_waits : System ℕ
receiver_waits = record start {
  state = record start.state { waiter = some 9 };
  receiver = record start.receiver { wait = some 9 };
}

wait_history : Reach Step start receiver_waits
unfolding start channel register_recv
wait_history = next here (start_wait 9 (record channel.0 { waiter = some 9 }) false refl refl refl)

is_stored : receiver_waits.state.waiter ≢ none
is_stored e = cc

unconsumed : receiver_waits.receiver.consumed ≡ false
unfolding start channel
unconsumed = refl

no_wait : sent_five.receiver.wait ≡ none
unfolding start channel
no_wait = refl

delivered_at_most_once_example :
    ((sent_five.got ≡ []) × (listed sent_five.given ≡ listed sent_five.state.value))
    ⊎ ((sent_five.got ≡ listed sent_five.given) × (listed sent_five.state.value ≡ []))
delivered_at_most_once_example = delivered_at_most_once sent_five sent_history

waiting_means_undecided_test :
    (receiver_waits.state.waiter ≡ receiver_waits.receiver.wait)
    × (receiver_waits.state.value ≡ none)
    × (receiver_waits.state.receiver_closed ≡ false)
    × (receiver_waits.sender ≡ true)
waiting_means_undecided_test = waiting_means_undecided receiver_waits wait_history is_stored

registration_never_panics_test : register_recv 3 sent_five.state ≢ none
registration_never_panics_test = registration_never_panics sent_five 3 sent_history no_wait

lost_sender_wakes_receiver_test :
    let out = drop_sender receiver_waits.state in
    (out.1 ≡ some 9)
    × (out.0.waiter ≡ none)
    × ((poll_recv out.0 receiver_waits.receiver).1 ≡ closed)
lost_sender_wakes_receiver_test =
    lost_sender_wakes_receiver receiver_waits 9 wait_history refl unconsumed

sending_wakes_receiver_test :
    let out = send 5 receiver_waits.state in
    (out.1 ≡ none)
    × (out.0.1 ≡ some 9)
    × ((poll_recv out.0.0 receiver_waits.receiver).1 ≡ received 5)
sending_wakes_receiver_test = sending_wakes_receiver receiver_waits 9 5 wait_history refl unconsumed
