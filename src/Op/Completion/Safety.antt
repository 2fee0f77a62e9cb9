-- ===== src/Op/Completion/Safety.antt =====
-- What a future and its handles may rely on.
use runite.Prelude.{◌+◌, ◌≤◌, ◌≡◌, Bool, not, ◌||◌, bit, length, Reach, arith}
use runite.Op.Completion.{Completion, completion}
use runite.Op.Completion.Users.{Step}
use runite.Op.Completion.Inv.{is_some, is_finishing, counts_down, holds_value, reached-Inv}

module _ {A : Type 0} where
  -- However the accesses of the owner's thread and of the threads of any number of handles come in between
  -- each other: the completion counts once in the owner's pending operations until it is finished and the
  -- `finish` or the drop that set the flag has taken it off, and not at all from then on.
  pub operation_counted_once :
      (closed : Bool) (s : Completion A)
      → Reach (Step closed) completion s
      → s.ops ≡ bit (not s.finished || (is_finishing s.finishing || counts_down s.dropping))
  operation_counted_once closed s r = (reached-Inv closed s r).share

  -- After any history of accesses, the values that polls returned, the one in the cell and the one that a handle
  -- is about to store are at most one together.
  pub value_delivered_once :
      (closed : Bool) (s : Completion A)
      → Reach (Step closed) completion s
      → length s.delivered + bit (is_some s.result) + bit (holds_value s.finishing) ≤ 1
  value_delivered_once closed s r = let o = (reached-Inv closed s r).once in omega arith
