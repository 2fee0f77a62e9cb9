-- ===== src/Sync/Cancellation/Users.antt =====
-- What the owners of tokens do.
use runite.Prelude.{ℕ, ◌<◌, ◌≡◌, Bool, true, false, [], Option, none, some, update}
use runite.Sync.Cancellation.{
  Tokens, fresh, new, child_token, cancel, wait, wait_again, forget, drop_token,
}

-- The tokens, and beside them the token that each was derived from, as the calls of `child_token` say.
pub record System : Type 0 where
  pub tokens : Tokens
  pub parent : ℕ → Option ℕ

-- No token is made yet.
unfoldable pub start : System
unfolding fresh
start = record {
  tokens = record { token = λ a. record (fresh false) { alive = false }; made = 0; woken = [] };
  parent = λ _. none;
}

pub data Step (s : System) : System → Type 0 where
  makes : Step s (record s { tokens = new s.tokens })
  makes_child :
      (full : Bool) (a : ℕ)
      → a < s.tokens.made
      → Step s (record {
        tokens = child_token full a s.tokens;
        parent = update s.parent s.tokens.made (some a);
      })
  cancels : (a : ℕ) → a < s.tokens.made → Step s (record s { tokens = cancel a s.tokens })
  waits :
      (waker a : ℕ) → a < s.tokens.made → Step s (record s { tokens = (wait waker a s.tokens).0 })
  waits_again :
      (tag waker a : ℕ) → Step s (record s { tokens = (wait_again tag waker a s.tokens).0 })
  forgets : (tag a : ℕ) → Step s (record s { tokens = forget tag a s.tokens })
  drops : (a : ℕ) → Step s (record s { tokens = drop_token a s.tokens })

-- A token that was derived from `a`, or from one that was, and so on, where `a` may be anything and all
-- the others are left.
pub data Derived (s : System) (a : ℕ) : ℕ → Type 0 where
  itself : Derived s a a
  derived :
      (b c : ℕ)
      → Derived s a b
      → s.parent c ≡ some b
      → (s.tokens.token c).alive ≡ true
      → Derived s a c
