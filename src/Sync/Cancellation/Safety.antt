-- ===== src/Sync/Cancellation/Safety.antt =====
-- What the owners of tokens may rely on.
use mathlib.Core.Path.{subst}
use mathlib.Core.List.Memᴰ.{head, tail}
use runite.Prelude.{ℕ, ◌≡◌, refl, ◌⊎◌, inl, inr, [], ◌∷◌, true, Bool-cases, Reach}
use runite.Sync.Cancellation.{Tokens, cancel}
use runite.Sync.Cancellation.Users.{System, start, Step, Derived, itself, derived}
use runite.Sync.Cancellation.Collect.{Reached}
use runite.Sync.Cancellation.Links.{Under, self, child}
use runite.Sync.Cancellation.Inv.{Inv, cancelled-Reached, Reach-Inv}

below :
    (s : System) (r : Tokens) (a c : ℕ)
    → Inv s
    → Reached s.tokens (a ∷ []) r
    → Derived s a c
    → (r.token c).cancelled ≡ true
below s r a _ v h itself = h.all a (head refl)
below s r a _ v h (derived b c u p e) =
    let ih = below s r a b v h u in
    elim (Bool-cases (s.tokens.token b).cancelled) [
      | inl f ↦ h.kept c (v.fell b c p e f)
      | inr f ↦ h.closed b c f ih (v.linked b c p e f) e
    ]

-- The links that the tokens keep lead only to tokens that were derived.
Under-Derived : (s : System) (a : ℕ) → Inv s → (c : ℕ) → Under s.tokens a c → Derived s a c
Under-Derived s a v _ self = itself
Under-Derived s a v _ (child b c u m e) = derived b c (Under-Derived s a v b u) (v.sound b c m) e

-- After any history of tokens made, children derived, cancellations, waits and drops, `cancel` comes to an
-- end with this token cancelled, and every token that calls of `child_token` derived from it, directly or
-- through others, as long as that token and those in between are all left; also one that was derived
-- when this token was cancelled already.
pub cancel_reaches_descendants :
    (s : System) (a c : ℕ)
    → Reach Step start s
    → Derived s a c
    → ((cancel a s.tokens).token c).cancelled ≡ true
cancel_reaches_descendants s a c r u =
    let v = Reach-Inv s r in below s (cancel a s.tokens) a c v (cancelled-Reached s a v) u

-- After any history of tokens, a token that is cancelled once `cancel` has run was cancelled before, or calls
-- of `child_token` derived it from the token, directly or through others that are all left: cancellation
-- reaches neither parents nor siblings.
pub cancel_flows_down_only :
    (s : System) (a c : ℕ)
    → Reach Step start s
    → ((cancel a s.tokens).token c).cancelled ≡ true
    → ((s.tokens.token c).cancelled ≡ true) ⊎ Derived s a c
cancel_flows_down_only s a c r e =
    let v = Reach-Inv s r in
    elim ((cancelled-Reached s a v).only c e) [
      | inl k ↦ inl k
      | inr (p, head i, u) ↦ inr (subst (λ x. Derived s x c) i (Under-Derived s p v c u))
      | inr (p, tail i, u) ↦ elim i [ ]
    ]
