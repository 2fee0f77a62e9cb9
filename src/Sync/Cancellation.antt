-- ===== src/Sync/Cancellation.antt =====
-- src/sync/cancellation.rs: tokens that are cancelled with the token they come from. A `TokenState` is
-- found by its number; `alive` tells whether a token is left that holds it, since parents hold their
-- children weakly.
mod Links
mod Collect
mod Inv
pub mod Users
pub mod Safety
mod Tests
use runite.Channel.Gaps.{fill_gap}
use runite.Prelude.{
  ℕ, zero, suc, ◌+◌, List, [], ◌∷◌, ◌++◌, map, Option, none, some, Bool, true, false, length, ◌==◌,
  if◌then◌else◌, update,
}

pub record TokenState : Type 0 where
  pub cancelled : Bool
  pub wakers : List (ℕ × ℕ)
  pub next_waiter : ℕ
  pub children : List ℕ
  pub alive : Bool

-- `made` tokens have numbers below it; `woken` logs the wakers that were called.
pub record Tokens : Type 0 where
  pub token : ℕ → TokenState
  pub made : ℕ
  pub woken : List ℕ

unfoldable pub fresh : Bool → TokenState
fresh cancelled = record {
  cancelled = cancelled;
  wakers = [];
  next_waiter = 0;
  children = [];
  alive = true;
}

abbrev pub set_token : ℕ → TokenState → Tokens → Tokens
set_token a t s = record s { token = update s.token a t }

-- `CancellationToken::new`.
unfoldable pub new : Tokens → Tokens
unfolding fresh
new s = record s { token = update s.token s.made (fresh false); made = suc s.made }

-- `retain` of the children that are left.
unfoldable pub retained : Tokens → List ℕ → List ℕ
retained s [] = []
retained s (c ∷ cs) = let rest = retained s cs in if (s.token c).alive then c ∷ rest else rest

-- `child_token`; `full` tells that the vector of children has reached its capacity.
unfoldable pub child_token : Bool → ℕ → Tokens → Tokens
unfolding fresh retained
child_token full a s =
    if (s.token a).cancelled
    then record s { token = update s.token s.made (fresh true); made = suc s.made }
    else let children = if full then retained s (s.token a).children else (s.token a).children in
      record s {
        token =
            update (update s.token a (record (s.token a) { children = children ++ s.made ∷ [] }))
              s.made (fresh false);
        made = suc s.made;
      }

-- `pending.extend` with the children that can be upgraded; the top of the stack comes first.
abbrev pub push_children : (ℕ → TokenState) → List ℕ → List ℕ → List ℕ
push_children token [] pending = pending
push_children token (c ∷ cs) pending =
    push_children token cs (if (token c).alive then c ∷ pending else pending)

unfoldable pub mark : ℕ → Tokens → Tokens
mark a s = set_token a (record (s.token a) { cancelled = true; wakers = []; children = [] }) s

-- The loop of `collect_cancellation`.
unfoldable pub collect : ℕ → List ℕ → List ℕ → Tokens → Tokens × List ℕ
unfolding mark
collect zero pending wakers s = (s, wakers)
collect (suc fuel) [] wakers s = (s, wakers)
collect (suc fuel) (a ∷ pending) wakers s = elim (s.token a).cancelled [
  | true ↦ collect fuel pending wakers s
  | false ↦
      collect fuel (push_children s.token (s.token a).children pending)
        (wakers ++ map (λ w. w.1) (s.token a).wakers) (mark a s)
]

-- The children of the tokens below `n` that are not cancelled: each round takes one off the stack, or
-- moves the children of one of them there.
unfoldable pub links : ℕ → (ℕ → TokenState) → ℕ
links zero token = 0
links (suc n) token = links n token + (if (token n).cancelled then 0 else length (token n).children)

-- `cancel`, with enough fuel.
unfoldable pub cancel : ℕ → Tokens → Tokens
unfolding collect links
cancel a s =
    let (t, wakers) = collect (suc (links s.made s.token)) (a ∷ []) [] s in
    record t { woken = t.woken ++ wakers }

-- The first poll of `cancelled`: its tag, or `none` if it is ready.
unfoldable pub wait : ℕ → ℕ → Tokens → Tokens × Option ℕ
wait waker a s = if (s.token a).cancelled then (s, none) else (
  set_token a
      (record (s.token a) {
        next_waiter = suc (s.token a).next_waiter;
        wakers = (s.token a).wakers ++ ((s.token a).next_waiter, waker) ∷ [];
      })
      s,
  some (s.token a).next_waiter,
)

-- A later poll of it: the stored waker is replaced, unless it would wake the same task.
abbrev pub store_waker : ℕ → ℕ → List (ℕ × ℕ) → List (ℕ × ℕ)
store_waker tag waker [] = []
store_waker tag waker ((slot, stored) ∷ ws) =
    if slot == tag then (slot, waker) ∷ ws else (slot, stored) ∷ store_waker tag waker ws

-- Whether it is ready.
unfoldable pub wait_again : ℕ → ℕ → ℕ → Tokens → Tokens × Bool
wait_again tag waker a s = if (s.token a).cancelled then (s, true) else (
  set_token a (record (s.token a) { wakers = store_waker tag waker (s.token a).wakers }) s,
  false,
)

-- `Drop for Registration`: `position` and `swap_remove`.
abbrev pub forgotten : ℕ → List (ℕ × ℕ) → List (ℕ × ℕ)
forgotten tag [] = []
forgotten tag (w ∷ ws) = if w.0 == tag then fill_gap ws else w ∷ forgotten tag ws

unfoldable pub forget : ℕ → ℕ → Tokens → Tokens
forget tag a s = set_token a (record (s.token a) { wakers = forgotten tag (s.token a).wakers }) s

-- The last of the clones of a token goes.
unfoldable pub drop_token : ℕ → Tokens → Tokens
drop_token a s = set_token a (record (s.token a) { alive = false }) s
