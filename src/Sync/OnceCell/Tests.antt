-- ===== src/Sync/OnceCell/Tests.antt =====
-- A once cell on concrete histories.
use runite.Prelude.{
  ℕ, ◌≡◌, ◌≢◌, none, Option, refl, [], some, true, false, arith, Reach, here, next,
}
use runite.Sync.Notify.{poll, new_future, drop_future}
use runite.Sync.OnceCell.{initializes, new, get, look, finish, abandon}
use runite.Sync.OnceCell.Users.{
  System, Step, start, waiting, starts, suspends, cancel, finishes, gives_up,
}
use runite.Sync.OnceCell.Safety.{
  settled_without_waiters, one_initializer, value_is_kept, ready_value_never_panics,
}

abbrev five : Option ℕ
five = some 5

-- One task initializes and a second one waits.
abbrev one_runs : System ℕ
one_runs = record { cell = (look (start {A = ℕ}).cell).0; running = true }

abbrev one_waits : System ℕ
one_waits = record one_runs {
  cell = record one_runs.cell { notify = (poll 7 one_runs.cell.notify new_future).0 };
}

abbrev initialized : System ℕ
initialized = record { cell = finish 5 one_waits.cell; running = false }

abbrev retried : System ℕ
retried = record { cell = abandon one_waits.cell; running = false }

waiting_history : Reach Step start one_waits
unfolding start new look
waiting_history = next (next here (starts refl)) (suspends 7 refl)

initialized_history : Reach Step start initialized
initialized_history = next waiting_history (finishes 5 refl)

settled_without_waiters_example : retried.cell.notify.queue ≡ []
unfolding abandon
settled_without_waiters_example =
    settled_without_waiters retried (next waiting_history (gives_up refl)) (λ e. ground arith)

one_initializer_test : (look one_waits.cell).1 ≢ initializes
one_initializer_test = one_initializer one_waits waiting_history refl

value_is_kept_test :
    get (record initialized.cell {
      notify =
          drop_future initialized.cell.notify (waiting (record { id = 0; kind = tt; cell = 0 }));
    })
    ≡ some 5
unfolding finish get
value_is_kept_test =
    value_is_kept 5 initialized
      (record initialized {
        cell = record initialized.cell {
          notify =
              drop_future initialized.cell.notify
                (waiting (record { id = 0; kind = tt; cell = 0 }));
        };
      })
      initialized_history refl (next here (cancel (record { id = 0; kind = tt; cell = 0 })))

ready_value_never_panics_test : five ≢ none
unfolding look get finish
ready_value_never_panics_test = ready_value_never_panics initialized five initialized_history refl
