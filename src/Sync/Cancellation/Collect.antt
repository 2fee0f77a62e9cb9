-- ===== src/Sync/Cancellation/Collect.antt =====
-- `collect_cancellation` reaches what is left of the tree below a token.
use runite.Sync.Cancellation.Links.{
  self, child, Under, push-length, push-old, push-new, push-from, links-mark, Bounded, mark-Bounded,
  mark_at, mark_off, mark-alive, mark-Under, Under-trans,
}
use mathlib.Core.Path.{subst}
use mathlib.Core.List.{Memᴰ}
use mathlib.Core.List.Memᴰ.{head, tail}
use runite.Prelude.{
  ℕ, zero, suc, ◌+◌, ◌≤◌, ◌≡◌, refl, sym, ap, ◌∙◌, ◌⊎◌, inl, inr, List, [], ◌∷◌, ◌++◌, map, Bool,
  true, false, Bool-cases, length, ltb, ◌==◌, arith,
}
use runite.Sync.Cancellation.{TokenState, Tokens, push_children, mark, collect, links}

-- What holds when the loop has ended.
pub record Reached (s : Tokens) (pending : List ℕ) (r : Tokens) : Type 0 where
  pub kept : (b : ℕ) → (s.token b).cancelled ≡ true → (r.token b).cancelled ≡ true
  pub all : (b : ℕ) → Memᴰ b pending → (r.token b).cancelled ≡ true
  pub closed :
      (b c : ℕ)
      → (s.token b).cancelled ≡ false
      → (r.token b).cancelled ≡ true
      → Memᴰ c (s.token b).children
      → (s.token c).alive ≡ true
      → (r.token c).cancelled ≡ true
  pub same :
      (b : ℕ)
      → (r.token b).cancelled ≡ false
      → ((s.token b).cancelled ≡ false) × ((r.token b).children ≡ (s.token b).children)
  pub same_alive : (b : ℕ) → (r.token b).alive ≡ (s.token b).alive
  pub only :
      (c : ℕ)
      → (r.token c).cancelled ≡ true
      → ((s.token c).cancelled ≡ true) ⊎ ((p : ℕ) × Memᴰ p pending × Under s p c)

true-false : ◌≡◌ {A = Bool} true false → ⊥
true-false e = absurd (cc)

marked-Reached :
    (a : ℕ) (pending : List ℕ) (s r : Tokens)
    → (s.token a).cancelled ≡ false
    → Reached (mark a s) (push_children s.token (s.token a).children pending) r
    → Reached s (a ∷ pending) r
marked-Reached a pending s r e h =
    let cs = (s.token a).children in
    record {
      kept = λ b k. elim (Bool-cases (b == a)) [
        | inl q ↦ h.kept b (
            let z : a ≡ b = ground arith in
            subst (λ x. ((mark a s).token x).cancelled ≡ true) z (mark_at a s))
        | inr q ↦ h.kept b (ap (λ (t : TokenState). t.cancelled) (mark_off a b s q) ∙ k)
      ];
      all = λ b m. elim m [
        | head i ↦ rw i (h.kept a (mark_at a s))
        | tail i ↦ h.all b (push-old s.token b cs pending i)
      ];
      closed = λ b c x y m l. elim (Bool-cases (b == a)) [
        | inl q ↦
            let z : b ≡ a = ground arith in
            h.all c (push-new s.token c cs pending (subst (λ k. Memᴰ c (s.token k).children) z m) l)
        | inr q ↦
            let t = mark_off a b s q in
            h.closed b c (ap (λ (t : TokenState). t.cancelled) t ∙ x) y (rw t m)
              (mark-alive a c s ∙ l)
      ];
      same = λ b k. elim (Bool-cases (b == a)) [
        | inl q ↦
            let z : b ≡ a = ground arith in
            let y : ((mark a s).token b).cancelled ≡ true =
              subst (λ x. ((mark a s).token x).cancelled ≡ true) (sym z) (mark_at a s) in
            absurd (true-false (sym y ∙ (h.same b k).0))
        | inr q ↦
            let t = mark_off a b s q in
            (
              ap (λ (t : TokenState). t.cancelled) (sym t) ∙ (h.same b k).0,
              (h.same b k).1 ∙ ap (λ (t : TokenState). t.children) t,
            )
      ];
      same_alive = λ b. h.same_alive b ∙ mark-alive a b s;
      only = λ c y. elim (h.only c y) [
        | inl k ↦ elim (Bool-cases (c == a)) [
          | inl q ↦ let z : a ≡ c = ground arith in inr (a, head refl, subst (Under s a) z self)
          | inr q ↦ inl (ap (λ (t : TokenState). t.cancelled) (sym (mark_off a c s q)) ∙ k)
        ]
        | inr (p, m, u) ↦ elim (push-from s.token p cs pending m) [
          | inl i ↦ inr (p, tail i, mark-Under a p s c u)
          | inr (i, l) ↦
              inr (a, head refl, Under-trans s a p c (child a p self i l) (mark-Under a p s c u))
        ]
      ];
    }

skipped-Reached :
    (a : ℕ) (pending : List ℕ) (s r : Tokens)
    → (s.token a).cancelled ≡ true
    → Reached s pending r
    → Reached s (a ∷ pending) r
skipped-Reached a pending s r e h = record {
  kept = h.kept;
  all = λ b m. elim m [ head i ↦ rw i (h.kept a e) | tail i ↦ h.all b i ];
  closed = h.closed;
  same = h.same;
  same_alive = h.same_alive;
  only = λ c y. elim (h.only c y) [ inl k ↦ inl k | inr (p, m, u) ↦ inr (p, tail m, u) ];
}

done-Reached : (s : Tokens) → Reached s [] s
done-Reached s = record {
  kept = λ b k. k;
  all = λ b m. elim m [ ];
  closed = λ b c x y m l. absurd (ground arith);
  same = λ b k. (k, refl);
  same_alive = λ b. refl;
  only = λ c y. inl y;
}

-- The fuel is enough: the loop ends with an empty stack.
pub collect-Reached :
    (fuel n : ℕ) (pending wakers : List ℕ) (s : Tokens)
    → length pending + links n s.token ≤ fuel
    → Bounded n s
    → Reached s pending (collect fuel pending wakers s).0
unfolding collect
collect-Reached zero n [] wakers s l h = done-Reached s
collect-Reached zero n (a ∷ pending) wakers s l h = absurd (omega arith)
collect-Reached (suc fuel) n [] wakers s l h = done-Reached s
collect-Reached (suc fuel) n (a ∷ pending) wakers s l h = elim (Bool-cases (s.token a).cancelled) [
  | inl e ↦
      skipped-Reached a pending s _ e
        (rw (collect, e) (collect-Reached fuel n pending wakers s (omega arith) h))
  | inr e ↦
      let cs = (s.token a).children in
      let m = links-mark n a s e in
      let p = push-length s.token cs pending in
      marked-Reached a pending s _ e (
        rw (collect, e)
          (collect-Reached fuel n (push_children s.token cs pending)
            (wakers ++ map (λ w. w.1) (s.token a).wakers) (mark a s)
            (elim (Bool-cases (ltb a n)) [
              | inl q ↦ ground arith
              | inr q ↦ let z = ap length (h a (ground arith)) in ground arith
            ])
            (mark-Bounded n a s h)))
]

-- A token that is cancelled has no children.
abbrev pub Cut : Tokens → Type 0
Cut s = (b : ℕ) → (s.token b).cancelled ≡ true → (s.token b).children ≡ []

mark-Cut : (a : ℕ) (s : Tokens) → Cut s → Cut (mark a s)
unfolding mark
mark-Cut a s h b e = elim (Bool-cases (b == a)) [
  | inl q ↦ rw q refl
  | inr q ↦ rw q (h b (rw q at e))
]

pub collect-Cut :
    (fuel : ℕ) (pending wakers : List ℕ) (s : Tokens)
    → Cut s
    → Cut (collect fuel pending wakers s).0
unfolding collect
collect-Cut zero pending wakers s h = h
collect-Cut (suc fuel) [] wakers s h = h
collect-Cut (suc fuel) (a ∷ pending) wakers s h = elim (Bool-cases (s.token a).cancelled) [
  | inl e ↦ rw (collect, e) (collect-Cut fuel pending wakers s h)
  | inr e ↦
      rw (collect, e)
        (collect-Cut fuel (push_children s.token (s.token a).children pending)
          (wakers ++ map (λ w. w.1) (s.token a).wakers) (mark a s) (mark-Cut a s h))
]

pub collect-Bounded :
    (fuel n : ℕ) (pending wakers : List ℕ) (s : Tokens)
    → Bounded n s
    → Bounded n (collect fuel pending wakers s).0
unfolding collect
collect-Bounded zero n pending wakers s h = h
collect-Bounded (suc fuel) n [] wakers s h = h
collect-Bounded (suc fuel) n (a ∷ pending) wakers s h = elim (Bool-cases (s.token a).cancelled) [
  | inl e ↦ rw (collect, e) (collect-Bounded fuel n pending wakers s h)
  | inr e ↦
      rw (collect, e)
        (collect-Bounded fuel n (push_children s.token (s.token a).children pending)
          (wakers ++ map (λ w. w.1) (s.token a).wakers) (mark a s) (mark-Bounded n a s h))
]

pub collect-made :
    (fuel : ℕ) (pending wakers : List ℕ) (s : Tokens)
    → (collect fuel pending wakers s).0.made ≡ s.made
unfolding collect
collect-made zero pending wakers s = refl
collect-made (suc fuel) [] wakers s = refl
collect-made (suc fuel) (a ∷ pending) wakers s = elim (Bool-cases (s.token a).cancelled) [
  | inl e ↦ rw (collect, e) (collect-made fuel pending wakers s)
  | inr e ↦
      rw (collect, e)
        (collect-made fuel (push_children s.token (s.token a).children pending)
            (wakers ++ map (λ w. w.1) (s.token a).wakers) (mark a s)
          ∙ unfold mark in refl)
]
