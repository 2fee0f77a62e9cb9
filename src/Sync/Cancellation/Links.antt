-- ===== src/Sync/Cancellation/Links.antt =====
-- The links of the tree of tokens: what a visit puts on its stack, and what cancelling one token leaves.
use mathlib.Core.List.{Memᴰ}
use mathlib.Core.List.Memᴰ.{head, tail}
use runite.Prelude.{
  ℕ, zero, suc, ◌+◌, ◌≤◌, ◌≡◌, refl, sym, ap, ◌∙◌, ◌⊎◌, inl, inr, List, [], ◌∷◌, true, false,
  Bool-cases, length, ltb, ◌==◌, if◌then◌else◌, arith,
}
use runite.Sync.Cancellation.{TokenState, Tokens, push_children, mark, links}

-- A token that comes from `a` by tokens that are all left.
pub data Under (s : Tokens) (a : ℕ) : ℕ → Type 0 where
  self : Under s a a
  child :
      (b c : ℕ) → Under s a b → Memᴰ c (s.token b).children → (s.token c).alive ≡ true → Under s a c

pub push-length :
    (token : ℕ → TokenState) (cs pending : List ℕ)
    → length (push_children token cs pending) ≤ length cs + length pending
push-length token [] pending = omega arith
push-length token (c ∷ cs) pending =
    let h = push-length token cs (if (token c).alive then c ∷ pending else pending) in ground arith

pub push-old :
    (token : ℕ → TokenState) (x : ℕ) (cs pending : List ℕ)
    → Memᴰ x pending
    → Memᴰ x (push_children token cs pending)
push-old token x [] pending m = m
push-old token x (c ∷ cs) pending m = elim (Bool-cases (token c).alive) [
  | inl e ↦ push-old token x cs _ (rw e (tail m))
  | inr e ↦ push-old token x cs _ (rw e m)
]

pub push-new :
    (token : ℕ → TokenState) (x : ℕ) (cs pending : List ℕ)
    → Memᴰ x cs
    → (token x).alive ≡ true
    → Memᴰ x (push_children token cs pending)
push-new token x [] pending m e = elim m [ ]
push-new token x (c ∷ cs) pending (head i) e =
    let f : (token c).alive ≡ true = ap (λ k. (token k).alive) (sym i) ∙ e in
    push-old token x cs _ (rw f (head i))
push-new token x (c ∷ cs) pending (tail m) e = push-new token x cs _ m e

pub push-from :
    (token : ℕ → TokenState) (x : ℕ) (cs pending : List ℕ)
    → Memᴰ x (push_children token cs pending)
    → Memᴰ x pending ⊎ (Memᴰ x cs × ((token x).alive ≡ true))
push-from token x [] pending m = inl m
push-from token x (c ∷ cs) pending m = elim (push-from token x cs _ m) [
  | inl i ↦ elim (Bool-cases (token c).alive) [
    | inl e ↦ elim (rw e at i) [
      | head j ↦ inr (head j, ap (λ k. (token k).alive) j ∙ e)
      | tail j ↦ inl j
    ]
    | inr e ↦ inl (rw e at i)
  ]
  | inr (i, e) ↦ inr (tail i, e)
]

pub links-mark :
    (n a : ℕ) (s : Tokens)
    → (s.token a).cancelled ≡ false
    → links n (mark a s).token + (if ltb a n then length (s.token a).children else 0)
      ≡ links n s.token
unfolding links mark
links-mark zero a s e = ground arith
links-mark (suc n) a s e =
    let ih = links-mark n a s e in
    elim (Bool-cases (n == a)) [
      | inl q ↦
          let z : n ≡ a = ground arith in
          let y = ap (λ k. length (s.token k).children) z in
          let x = ap (λ k. (s.token k).cancelled) z in ground arith
      | inr q ↦ ground arith
    ]

-- No token that is still to be made has children.
abbrev pub Bounded : ℕ → Tokens → Type 0
Bounded n s = (b : ℕ) → n ≤ b → (s.token b).children ≡ []

pub mark-Bounded : (n a : ℕ) (s : Tokens) → Bounded n s → Bounded n (mark a s)
unfolding mark
mark-Bounded n a s h b l = elim (Bool-cases (b == a)) [ inl e ↦ rw e refl | inr e ↦ rw e (h b l) ]

pub mark_at : (a : ℕ) (s : Tokens) → ((mark a s).token a).cancelled ≡ true
unfolding mark
mark_at a s = ground arith

pub mark_off : (a b : ℕ) (s : Tokens) → (b == a) ≡ false → (mark a s).token b ≡ s.token b
unfolding mark
mark_off a b s e = rw e refl

pub mark-alive : (a b : ℕ) (s : Tokens) → ((mark a s).token b).alive ≡ (s.token b).alive
unfolding mark
mark-alive a b s = elim (Bool-cases (b == a)) [
  | inl e ↦ let q : b ≡ a = ground arith in let x = ap (λ k. (s.token k).alive) q in ground arith
  | inr e ↦ ground arith
]

mark_child :
    (a b c : ℕ) (s : Tokens) → Memᴰ c ((mark a s).token b).children → Memᴰ c (s.token b).children
unfolding mark
mark_child a b c s m = elim (Bool-cases (b == a)) [
  | inl e ↦ elim (rw e at m) [ ]
  | inr e ↦ rw e at m
]

pub mark-Under : (a p : ℕ) (s : Tokens) (c : ℕ) → Under (mark a s) p c → Under s p c
mark-Under a p s _ self = self
mark-Under a p s _ (child b c u m e) =
    child b c (mark-Under a p s b u) (mark_child a b c s m) (sym (mark-alive a c s) ∙ e)

pub Under-trans : (s : Tokens) (a b c : ℕ) → Under s a b → Under s b c → Under s a c
Under-trans s a b _ u self = u
Under-trans s a b _ u (child d c v m e) = child d c (Under-trans s a b d u v) m e
