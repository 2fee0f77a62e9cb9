-- ===== src/Channel/Watch/Users.antt =====
-- A watch channel whose senders and receivers interleave section by section.
use runite.Prelude.{
  ℕ, suc, ◌+◌, ◌^◌, ◌≤◌, ◌<◌, ◌≡◌, List, [], ◌∷◌, ◌++◌, Option, none, some, Bool, true, false, ◌==◌,
  if◌then◌else◌, update,
}
use runite.Channel.Watch.{
  Shared, Answer, channel, send, send_modify, send_if_modified, wake_changed, close_sender,
  register, cancel, clone_sender, clone_receiver, subscribe, drop_receiver,
}

-- `collecting` holds the versions of the writes whose sender has not collected the waiters yet. The
-- waits that were registered are numbered by `opened`, and the number of a wait is its completion handle:
-- `waits` has the version that the receiver of a wait had seen, until the handle of the wait is returned
-- to a caller, which completes it, or its future is dropped. `ids` has the id that the cancel callback of
-- a wait was made with.
pub record System (A : Type 0) : Type 0 where
  pub shared : Shared A
  pub collecting : List ℕ
  pub opened : ℕ
  pub waits : ℕ → Option ℕ
  pub ids : ℕ → ℕ

abbrev pub has : ℕ → List ℕ → Bool
has n [] = false
has n (h ∷ hs) = if n == h then true else has n hs

-- The waits whose handles are not among those that a section has returned.
abbrev pub completed : List ℕ → (ℕ → Option ℕ) → ℕ → Option ℕ
completed hs waits n = if has n hs then none else waits n

module _ {A : Type 0} where
  unfoldable pub start : A → System A
  start initial = record {
    shared = channel initial;
    collecting = [];
    opened = 1;
    waits = λ _. none;
    ids = λ _. 0;
  }

  -- The state after a write.
  abbrev pub written : System A → Shared A → System A
  written s t = record s { shared = t; collecting = s.collecting ++ t.version ∷ [] }

  -- The state after a section that completes waits.
  abbrev pub woken : System A → Shared A × List ℕ → System A
  woken s (t, handles) = record s { shared = t; waits = completed handles s.waits }

  -- The state after a receiver has asked: it waits if it was not answered at once.
  abbrev pub asked : System A → ℕ → Shared A × Option Answer → System A
  asked s seen (t, some answer) = record s { shared = t }
  asked s seen (t, none) = record s {
    shared = t;
    opened = suc s.opened;
    waits = update s.waits s.opened (some seen);
    ids = update s.ids s.opened s.shared.next_waiter_id;
  }

  -- A write supposes that the version does not wrap, and a wait that the ids do not. A receiver
  -- registers with a version that it has seen. `abandon` drops the future of a wait, which may be
  -- completed already.
  pub data Step (s : System A) : System A → Type 0 where
    write_value :
        (v : A) (t : Shared A)
        → s.shared.version + 1 < 2 ^ 64
        → send v s.shared ≡ some t
        → Step s (written s t)
    modify :
        (f : A → A) → s.shared.version + 1 < 2 ^ 64 → Step s (written s (send_modify f s.shared))
    modify_if :
        (f : A → A × Bool)
        → s.shared.version + 1 < 2 ^ 64
        → (send_if_modified f s.shared).1 ≡ true
        → Step s (written s (send_if_modified f s.shared).0)
    modify_not :
        (f : A → A × Bool)
        → (send_if_modified f s.shared).1 ≡ false
        → Step s (record s { shared = (send_if_modified f s.shared).0 })
    collect :
        (xs : List ℕ) (c : ℕ) (ys : List ℕ)
        → s.collecting ≡ xs ++ c ∷ ys
        → Step s (record (woken s (wake_changed c s.shared)) { collecting = xs ++ ys })
    wait :
        (seen : ℕ)
        → seen ≤ s.shared.version
        → s.shared.next_waiter_id + 1 < 2 ^ 64
        → Step s (asked s seen (register seen s.opened s.shared))
    abandon :
        (n : ℕ)
        → n < s.opened
        → Step s (record s { shared = cancel (s.ids n) s.shared; waits = update s.waits n none })
    add_sender : 0 < s.shared.sender_count → Step s (record s { shared = clone_sender s.shared })
    lose_sender : 0 < s.shared.sender_count → Step s (woken s (close_sender s.shared))
    add_receiver : Step s (record s { shared = clone_receiver s.shared })
    subscribe_one : Step s (record s { shared = (subscribe s.shared).0 })
    lose_receiver :
        0 < s.shared.receiver_count → Step s (record s { shared = drop_receiver s.shared })
