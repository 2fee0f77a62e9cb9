-- ===== src/Op/Completion.antt =====
-- src/op/completion.rs: the state that a future and its handles share. Its flags are atomic and its cells
-- have locks of their own, so that the thread of a handle can come in between any two accesses. Each
-- access is a function of its own.
pub mod Users
mod Inv
pub mod Safety
mod Tests
use runite.Prelude.{
  ℕ, suc, ◌+◌, ◌-◌, List, [], ◌∷◌, ◌++◌, Option, none, some, Bool, true, false, if◌then◌else◌,
}

-- What `Drop for CompletionFuture` still has to do. `cancels` is a call of the callback.
pub data Dropping : Type 0 where
  alive takes_result takes_waker asks takes_cancel cancels swaps counts_drop dropped : Dropping

-- Where a poll is; `waits` has returned `Pending`.
pub data Polling : Type 0 where
  no_poll : Polling
  registers looks waits : ℕ → Polling

abbrev pub called : Option ℕ → List ℕ → List ℕ
called none woken = woken
called (some w) woken = w ∷ woken

module _ (A : Type 0) where
  -- What `finish` still has to do once it has set `finished`.
  pub data Finishing : Type 0 where
    no_finish : Finishing
    checks stores : Option A → Finishing
    queues clears counts : Finishing

  -- `CompletionState`, and what stands in between. `queued` counts the wakes in the owner's queues,
  -- `waking` tells whether one has begun to run. `ops` is the share in the owner's `pending_ops`.
  -- `woken` logs the wakers called, the latest first, and `delivered` the values that polls returned.
  pub record Completion : Type 0 where
    pub interested : Bool
    pub finished : Bool
    pub wake_queued : Bool
    pub result : Option A
    pub waker : Option ℕ
    pub cancel : Bool
    pub finishing : Finishing
    pub dropping : Dropping
    pub polling : Polling
    pub queued : ℕ
    pub waking : Bool
    pub ops : ℕ
    pub woken : List ℕ
    pub delivered : List A

module _ {A : Type 0} where
  -- `completion`, with `begin_async_operation`.
  unfoldable pub completion : Completion A
  completion = record {
    interested = true;
    finished = false;
    wake_queued = false;
    result = none;
    waker = none;
    cancel = false;
    finishing = no_finish;
    dropping = alive;
    polling = no_poll;
    queued = 0;
    waking = false;
    ops = 1;
    woken = [];
    delivered = [];
  }

  -- `finish`: the swap of `finished`. A later call returns.
  unfoldable pub finish : Option A → Completion A → Completion A
  finish v s = if s.finished then s else record s { finished = true; finishing = checks v }

  -- The rest of `finish`, access by access. `closed` tells that the owner's runtime is.
  unfoldable pub finish_next : Bool → Finishing A → Completion A → Completion A
  finish_next closed no_finish s = s
  finish_next closed (checks v) s = record s {
    finishing = if s.interested then stores v else clears;
  }
  finish_next closed (stores v) s = record s { result = v; finishing = queues }
  finish_next closed queues s =
      if s.wake_queued
      then record s { finishing = clears }
      else if closed
      then record s { finishing = clears; wake_queued = false }
      else record s { finishing = clears; wake_queued = true; queued = suc s.queued }
  finish_next closed clears s = record s { cancel = false; finishing = counts }
  finish_next closed counts s = record s { ops = s.ops - 1; finishing = no_finish }

  unfoldable pub set_cancel : Completion A → Completion A
  set_cancel s = record s { cancel = true }

  -- `poll`, with the waker of its context: the first look.
  abbrev pub looked : ℕ → Option A → Completion A → Completion A
  looked w none s = record s { polling = registers w }
  looked w (some v) s = record s {
    polling = no_poll;
    result = none;
    delivered = s.delivered ++ v ∷ [];
  }

  abbrev pub looked_again : ℕ → Option A → Completion A → Completion A
  looked_again w none s = record s { polling = waits w }
  looked_again w (some v) s = record s {
    polling = no_poll;
    result = none;
    waker = none;
    delivered = s.delivered ++ v ∷ [];
  }

  unfoldable pub poll : ℕ → Completion A → Completion A
  poll w s = looked w s.result s

  unfoldable pub poll_next : Polling → Completion A → Completion A
  poll_next no_poll s = s
  poll_next (registers w) s = record s { waker = some w; polling = looks w }
  poll_next (looks w) s = looked_again w s.result s
  poll_next (waits w) s = s

  -- The closure of `queue_wake`.
  unfoldable pub wake : Completion A → Completion A
  wake s = record s { wake_queued = false; queued = s.queued - 1; waking = true }

  unfoldable pub wake_next : Completion A → Completion A
  wake_next s = record s { waking = false; waker = none; woken = called s.waker s.woken }

  -- `Drop for CompletionFuture`: the swap of `interested`, and the rest.
  unfoldable pub drop_future : Completion A → Completion A
  drop_future s =
      if s.interested then record s { interested = false; dropping = takes_result } else s

  unfoldable pub drop_next : Dropping → Completion A → Completion A
  drop_next alive s = s
  drop_next takes_result s = record s { result = none; dropping = takes_waker }
  drop_next takes_waker s = record s { waker = none; dropping = asks }
  drop_next asks s = record s { dropping = if s.finished then dropped else takes_cancel }
  drop_next takes_cancel s = record s {
    cancel = false;
    dropping = if s.cancel then cancels else swaps;
  }
  drop_next cancels s = record s { dropping = dropped }
  drop_next swaps s =
      if s.finished
      then record s { dropping = dropped }
      else record s { finished = true; dropping = counts_drop }
  drop_next counts_drop s = record s { ops = s.ops - 1; dropping = dropped }
  drop_next dropped s = s
