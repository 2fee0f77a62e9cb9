-- ===== src/Channel/Mpsc/Tests.antt =====
-- A channel on concrete histories.
use mathlib.Core.List.{Sublistᴰ}
use runite.Prelude.{
  ℕ, ◌≤◌, ◌<◌, ◌≡◌, ◌≢◌, ◌⊎◌, refl, List, [], ◌∷◌, ◌++◌, none, some, true, false, length,
}
use runite.Channel.Mpsc.{
  new, wake_receiver, try_send_now, pump_loop, pump_senders, is_full, send_ok, recv_ready, fail_all,
  closed,
}
use runite.Channel.Mpsc.Ends.{
  try_send, register_send, publish_send_waiter, try_recv, register_recv, received, close,
}
use runite.Channel.Mpsc.Users.{System, Event, arrived, silent, start, after, send, register, wait}
use runite.Channel.Mpsc.Pump.{values, accepted}
use runite.Channel.Mpsc.Fifo.{Fifo, pipeline}
use runite.Channel.Mpsc.Order.{Trace, done, then_step, arrivals, deliveries}
use runite.Channel.Mpsc.Safety.{
  queue_bounded, waiting_receiver_has_nothing, registering_never_panics, refines_fifo,
  delivered_in_order, nothing_lost, receiving_admits_oldest, close_refuses,
}

-- One value is queued in a channel of capacity 1, and one send waits.
abbrev one_queued : System ℕ
one_queued = after (try_send 10 (start (some 1)).state).0 (start (some 1))

abbrev one_waits : System ℕ
one_waits = after (register_send 4 11 one_queued.state).0 one_queued

abbrev events : List (Event ℕ)
events = arrived 10 ∷ arrived 11 ∷ []

history : Trace (start (some 1)) events one_waits
unfolding start new try_send try_send_now wake_receiver register_send publish_send_waiter
history = then_step (send 10) (then_step (register 4 11) done)

queue_is_ten : one_waits.state.queue ≡ 10 ∷ []
unfolding start new try_send try_send_now wake_receiver register_send publish_send_waiter
queue_is_ten = refl

-- Receiving admits the send that waited.
receive_both :
    let r = try_recv one_waits.state in
    (r.1 ≡ received 10) × (r.0.1 ≡ send_ok 4 ∷ []) × (r.0.0.queue ≡ 11 ∷ [])
unfolding start new try_send try_send_now wake_receiver register_send publish_send_waiter try_recv
    pump_senders pump_loop
receive_both = (refl, refl, refl)

-- A receiver waits on an empty channel.
abbrev idle_receiver : System ℕ
idle_receiver = record {
  state = record (start (some 1)).state { recv_waiter = some 9 };
  stream_wait = some 9;
  unanswered = some 9;
}

idle_history : Trace (start (some 1)) (silent ∷ []) idle_receiver
unfolding start new register_recv
idle_history =
    then_step (wait 9 (record (new (some 1)) { recv_waiter = some 9 }) false refl refl) done

queue_bounded_example :
    (length one_waits.state.queue ≤ 1)
    × (one_waits.state.send_waiters ≢ []
        → (one_waits.state.receiver_closed ≡ false) × (length one_waits.state.queue ≡ 1))
queue_bounded_example = queue_bounded (some 1) events one_waits refl history

still_asks : idle_receiver.unanswered ≢ none
still_asks e = cc

waiting_receiver_has_nothing_example :
    (idle_receiver.unanswered ≡ idle_receiver.stream_wait)
    × (idle_receiver.state.recv_waiter ≡ idle_receiver.unanswered)
    × (idle_receiver.state.queue ≡ [])
    × (idle_receiver.state.send_waiters ≡ [])
    × (idle_receiver.state.receiver_closed ≡ false)
    × (0 < idle_receiver.state.sender_count)
waiting_receiver_has_nothing_example =
    waiting_receiver_has_nothing (some 1) (silent ∷ []) idle_receiver refl idle_history still_asks

no_wait : one_waits.stream_wait ≡ none
unfolding start
no_wait = refl

registering_never_panics_test : register_recv 9 one_waits.state ≢ none
registering_never_panics_test =
    registering_never_panics (some 1) events one_waits 9 refl history no_wait

refines_fifo_example :
    Fifo (pipeline (start {A = ℕ} (some 1)).state) (arrived 10) (pipeline one_queued.state)
unfolding start new try_send try_send_now wake_receiver
refines_fifo_example =
    refines_fifo (some 1) [] (start (some 1)) (arrived 10) one_queued refl done (send 10)

delivered_in_order_test : Sublistᴰ (deliveries events ++ pipeline one_waits.state) (arrivals events)
delivered_in_order_test = delivered_in_order (some 1) events one_waits refl history

nothing_lost_example : deliveries events ++ pipeline one_waits.state ≡ arrivals events
nothing_lost_example = nothing_lost (some 1) events one_waits refl history refl

receiving_admits_oldest_test :
    let r = try_recv one_waits.state in
    (r.1 ≡ received 10)
    × (r.0.0.queue ++ values r.0.0.send_waiters ≡ [] ++ values one_waits.state.send_waiters)
    × (r.0.1 ++ accepted r.0.0.send_waiters ≡ accepted one_waits.state.send_waiters)
    × ((r.0.0.send_waiters ≡ []) ⊎ (is_full r.0.0 ≡ true))
receiving_admits_oldest_test =
    receiving_admits_oldest (some 1) events one_waits 10 [] refl history queue_is_ten

close_refuses_test :
    let r = close one_waits.state in
    (r.1
      ≡ fail_all one_waits.state.send_waiters
        ++ elim one_waits.state.recv_waiter [ none ↦ [] | some h ↦ recv_ready h ∷ [] ])
    × (r.0.queue ≡ one_waits.state.queue)
    × (r.0.send_waiters ≡ [])
    × (r.0.recv_waiter ≡ none)
    × (try_send 12 r.0 ≡ ((r.0, []), closed 12))
close_refuses_test = close_refuses one_waits.state 12
