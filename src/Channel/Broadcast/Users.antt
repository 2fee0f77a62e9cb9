-- ===== src/Channel/Broadcast/Users.antt =====
-- A broadcast channel whose senders and receivers interleave section by section.
use runite.Prelude.{
  ℕ, suc, ◌+◌, ◌^◌, ◌<◌, ◌≡◌, List, [], ◌∷◌, ◌++◌, some, Bool, true, false, ◌==◌, update,
}
use runite.Channel.Broadcast.{
  RecvWaiter, State, RecvOutcome, Received, Wait, idle, pending, completed, Receiver, sent, Polled,
  poll_panics, poll_pending, poll_ready, new, remove_waiter, send, drop_sender, clone_sender,
  subscribe, drop_receiver, poll_recv, enqueue_waiter,
}

module _ (A : Type 0) where
  -- The state with its receivers, by number, and the completions that senders have collected and not
  -- fired. A receiver has one wait at a time, so its number stands for its completion handle. `log` has
  -- all values that were sent, `begin` the place in it at which a receiver started and `events` its
  -- answers so far. `ids` has the id with which the cancel callback of a receiver's wait was made.
  pub record System : Type 0 where
    pub state : State A
    pub receiver : ℕ → Receiver A
    pub opened : ℕ
    pub alive : ℕ → Bool
    pub completing : List (ℕ × RecvOutcome A)
    pub log : List A
    pub begin : ℕ → ℕ
    pub events : ℕ → List (Received A)
    pub ids : ℕ → ℕ

module _ {A : Type 0} where
  abbrev pub fresh_receiver : ℕ → Receiver A
  fresh_receiver n = record { next_seq = n; wait = idle }

  unfoldable pub start : ℕ → System A
  start capacity = record {
    state = new capacity;
    receiver = λ _. fresh_receiver 0;
    opened = 1;
    alive = λ r. r == 0;
    completing = [];
    log = [];
    begin = λ _. 0;
    events = λ _. [];
    ids = λ _. 0;
  }

  abbrev pub noted : Polled A → List (Received A) → List (Received A)
  noted poll_panics es = es
  noted poll_pending es = es
  noted (poll_ready e) es = es ++ e ∷ []

  unfoldable pub after_poll : ℕ → State A × (Receiver A × Polled A) → System A → System A
  after_poll r (t, (x, answer)) s = record s {
    state = t;
    receiver = update s.receiver r x;
    events = update s.events r (noted answer (s.events r));
  }

  -- A poll without a wait makes one, whose callback gets the id that `enqueue_waiter` returns.
  abbrev pub id_after : Wait A → ℕ → ℕ → ℕ
  id_after idle old new = new
  id_after pending old new = old
  id_after (completed o) old new = old

  abbrev pub polled : ℕ → System A → System A
  polled r s =
      let x = s.receiver r in
      record (after_poll r (poll_recv r x s.state) s) {
        ids = update s.ids r (id_after x.wait (s.ids r) (enqueue_waiter x.next_seq r s.state).1);
      }

  unfoldable pub after_subscribe : State A × Receiver A → System A → System A
  after_subscribe (t, x) s = record s {
    state = t;
    receiver = update s.receiver s.opened x;
    opened = suc s.opened;
    alive = update s.alive s.opened true;
    begin = update s.begin s.opened x.next_seq;
    events = update s.events s.opened [];
  }

  abbrev pub set_wait : ℕ → Wait A → System A → System A
  set_wait r w s = record s { receiver = update s.receiver r (record (s.receiver r) { wait = w }) }

  -- A send supposes that the sequence does not wrap, a poll that the ids do not. `cancels` is the cancel
  -- callback of a wait whose receiver was dropped while its waiter `w` is stored.
  pub data Step (s : System A) : System A → Type 0 where
    sends :
        (v : A) (t : State A) (n : ℕ) (ready : List (ℕ × RecvOutcome A))
        → 0 < s.state.sender_count
        → suc s.state.next_seq < 2 ^ 64
        → send v s.state ≡ sent t n ready
        → Step s (record s { state = t; log = s.log ++ v ∷ []; completing = s.completing ++ ready })
    completes :
        (xs ys : List (ℕ × RecvOutcome A)) (r : ℕ) (o : RecvOutcome A)
        → s.completing ≡ xs ++ (r, o) ∷ ys
        → Step s (set_wait r (completed o) (record s { completing = xs ++ ys }))
    polls : (r : ℕ) → s.alive r ≡ true → s.state.next_waiter_id + 1 < 2 ^ 64 → Step s (polled r s)
    subscribes : Step s (after_subscribe (subscribe s.state) s)
    clones : 0 < s.state.sender_count → Step s (record s { state = clone_sender s.state })
    loses_sender :
        (t : State A) (ready : List (ℕ × RecvOutcome A))
        → 0 < s.state.sender_count
        → drop_sender s.state ≡ some (t, ready)
        → Step s (record s { state = t; completing = s.completing ++ ready })
    drops :
        (r : ℕ)
        → s.alive r ≡ true
        → Step s (record s { state = drop_receiver s.state; alive = update s.alive r false })
    cancels :
        (xs ys : List RecvWaiter) (w : RecvWaiter)
        → s.alive w.handle ≡ false
        → s.state.recv_waiters ≡ xs ++ w ∷ ys
        → Step s
            (set_wait w.handle idle (record s { state = remove_waiter (s.ids w.handle) s.state }))
