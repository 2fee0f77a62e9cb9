-- ===== src/Sync/Cancellation/Tests.antt =====
-- Tokens on a concrete history.
use runite.Prelude.{◌≡◌, refl, ◌⊎◌, [], ◌∷◌, some, true, false, Reach, here, next, arith, update}
use runite.Sync.Cancellation.{
  fresh, new, child_token, mark, collect, links, cancel, wait, drop_token,
}
use runite.Sync.Cancellation.Users.{
  System, start, Step, makes, makes_child, waits, Derived, itself, derived,
}
use runite.Sync.Cancellation.Safety.{cancel_reaches_descendants, cancel_flows_down_only}

-- Token 0 has the child 1, and that has the child 2, which a task waits for.
abbrev family : System
family = record {
  tokens = (wait 9 2 (child_token false 1 (child_token false 0 (new start.tokens)))).0;
  parent = update (update start.parent 1 (some 0)) 2 (some 1);
}

to_family : Reach Step start family
unfolding start fresh new child_token
to_family =
    next
      (next (next (next here makes) (makes_child false 0 (omega arith)))
        (makes_child false 1 (omega arith)))
      (waits 9 2 (omega arith))

grandchild : Derived family 0 2
unfolding start fresh new child_token wait
grandchild = derived 1 2 (derived 0 1 itself refl refl) refl refl

cancelled_two : ((cancel 0 family.tokens).token 2).cancelled ≡ true
unfolding start fresh new child_token wait cancel collect mark links
cancelled_two = refl

wakes_nine : (cancel 0 family.tokens).woken ≡ 9 ∷ []
unfolding start fresh new child_token wait cancel collect mark links
wakes_nine = refl

-- Once the token between them is dropped, the grandchild is not reached any more.
misses_two : ((cancel 0 (drop_token 1 family.tokens)).token 2).cancelled ≡ false
unfolding start fresh new child_token wait cancel collect mark links drop_token
misses_two = refl

cancel_reaches_descendants_example : ((cancel 0 family.tokens).token 2).cancelled ≡ true
cancel_reaches_descendants_example = cancel_reaches_descendants family 0 2 to_family grandchild

cancel_flows_down_only_example : ((family.tokens.token 2).cancelled ≡ true) ⊎ Derived family 0 2
cancel_flows_down_only_example = cancel_flows_down_only family 0 2 to_family cancelled_two
