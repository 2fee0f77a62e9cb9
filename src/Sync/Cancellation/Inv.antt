-- ===== src/Sync/Cancellation/Inv.antt =====
-- The links that the tokens keep are those that `child_token` made, as far as they matter.
use mathlib.Core.Path.{subst}
use mathlib.Core.List.{Memᴰ}
use mathlib.Core.List.Memᴰ.{head, tail}
use runite.Prelude.{
  ℕ, suc, ◌<◌, ◌≡◌, refl, sym, ap, ◌∙◌, inl, inr, List, [], ◌∷◌, ◌++◌, Option, some, Bool, true,
  false, Bool-cases, ◌==◌, if◌then◌else◌, if-false, update, Reach, Reach-keeps, arith,
}
use runite.Channel.Gaps.{mem-append, mem-left, mem-right}
use runite.Sync.Cancellation.{
  TokenState, Tokens, collect, fresh, new, retained, child_token, links, cancel, wait, wait_again,
  store_waker, forgotten, forget, drop_token, set_token,
}
use runite.Sync.Cancellation.Users.{
  System, start, Step, makes, makes_child, cancels, waits, waits_again, forgets, drops,
}
use runite.Sync.Cancellation.Collect.{
  Cut, Reached, collect-Reached, collect-Cut, collect-Bounded, collect-made,
}
use runite.Sync.Cancellation.Links.{Bounded}

-- A token that is left is among the children of the one it was derived from, until that is cancelled;
-- from then on it is cancelled itself. And the children are all derived so.
pub record Inv (s : System) : Type 0 where
  pub cut : Cut s.tokens
  pub bounded : Bounded s.tokens.made s.tokens
  pub linked :
      (b c : ℕ)
      → s.parent c ≡ some b
      → (s.tokens.token c).alive ≡ true
      → (s.tokens.token b).cancelled ≡ false
      → Memᴰ c (s.tokens.token b).children
  pub fell :
      (b c : ℕ)
      → s.parent c ≡ some b
      → (s.tokens.token c).alive ≡ true
      → (s.tokens.token b).cancelled ≡ true
      → (s.tokens.token c).cancelled ≡ true
  pub sound : (b c : ℕ) → Memᴰ c (s.tokens.token b).children → s.parent c ≡ some b
  pub older : (b c : ℕ) → s.parent c ≡ some b → (c < s.tokens.made) × (b < s.tokens.made)

start-Inv : Inv start
unfolding start fresh
start-Inv = record {
  cut = λ b e. refl;
  bounded = λ b l. refl;
  linked = λ b c e. absurd (cc);
  fell = λ b c e. absurd (cc);
  sound = λ b c m. elim m [ ];
  older = λ b c e. absurd (cc);
}

-- A change that leaves flags and children alone, and revives no token.
same_links-Inv :
    (s : System) (t : Tokens)
    → t.made ≡ s.tokens.made
    → ((b : ℕ) → (t.token b).cancelled ≡ (s.tokens.token b).cancelled)
    → ((b : ℕ) → (t.token b).children ≡ (s.tokens.token b).children)
    → ((b : ℕ) → (t.token b).alive ≡ true → (s.tokens.token b).alive ≡ true)
    → Inv s
    → Inv (record s { tokens = t })
same_links-Inv s t made flag kids left v = record {
  cut = λ b e. kids b ∙ v.cut b (sym (flag b) ∙ e);
  bounded = λ b l. kids b ∙ v.bounded b (omega (arith, made, l));
  linked = λ b c p a e. rw (kids b) (v.linked b c p (left c a) (sym (flag b) ∙ e));
  fell = λ b c p a e. flag c ∙ v.fell b c p (left c a) (sym (flag b) ∙ e);
  sound = λ b c m. v.sound b c (rw (kids b) at m);
  older = λ b c p. rw made (v.older b c p);
}

set_token-Inv :
    (s : System) (a : ℕ) (x : TokenState)
    → x.cancelled ≡ (s.tokens.token a).cancelled
    → x.children ≡ (s.tokens.token a).children
    → (x.alive ≡ true → (s.tokens.token a).alive ≡ true)
    → Inv s
    → Inv (record s { tokens = set_token a x s.tokens })
set_token-Inv s a x flag kids left v =
    same_links-Inv s (set_token a x s.tokens) refl
      (λ b. elim (Bool-cases (b == a)) [
        | inl q ↦
            let z : a ≡ b = ground arith in
            rw q (subst (λ k. x.cancelled ≡ (s.tokens.token k).cancelled) z flag)
        | inr q ↦ rw q refl
      ])
      (λ b. elim (Bool-cases (b == a)) [
        | inl q ↦
            let z : a ≡ b = ground arith in
            rw q (subst (λ k. x.children ≡ (s.tokens.token k).children) z kids)
        | inr q ↦ rw q refl
      ])
      (λ b. elim (Bool-cases (b == a)) [
        | inl q ↦
            let z : a ≡ b = ground arith in
            rw q (subst (λ k. x.alive ≡ true → (s.tokens.token k).alive ≡ true) z left)
        | inr q ↦ rw q (λ (e : (s.tokens.token b).alive ≡ true). e)
      ])
      v

-- A new token that nothing is derived from.
makes-Inv : (s : System) → Inv s → Inv (record s { tokens = new s.tokens })
unfolding new fresh
makes-Inv s v = record {
  cut = λ b e. let k = v.cut b in ground arith;
  bounded = λ b l. let k = v.bounded b in ground arith;
  linked = λ b c p a e.
      let (x, y) = v.older b c p in
      let cn : (c == s.tokens.made) ≡ false = ground arith in
      let bn : (b == s.tokens.made) ≡ false = ground arith in
      rw bn (v.linked b c p (rw cn at a) (rw bn at e));
  fell = λ b c p a e.
      let (x, y) = v.older b c p in
      let cn : (c == s.tokens.made) ≡ false = ground arith in
      let bn : (b == s.tokens.made) ≡ false = ground arith in
      rw cn (v.fell b c p (rw cn at a) (rw bn at e));
  sound = λ b c m. elim (Bool-cases (b == s.tokens.made)) [
    | inl q ↦ elim (rw q at m) [ ]
    | inr q ↦ v.sound b c (rw q at m)
  ];
  older = λ b c p. let (x, y) = v.older b c p in (omega arith, omega arith);
}

some_same : (a b : ℕ) → ◌≡◌ {A = Option ℕ} (some a) (some b) → a ≡ b
some_same a b e = cc

true-false : ◌≡◌ {A = Bool} true false → ⊥
true-false e = absurd (cc)

-- A child of a token that is cancelled.
makes_fallen-Inv :
    (s : System) (a : ℕ)
    → a < s.tokens.made
    → (s.tokens.token a).cancelled ≡ true
    → Inv s
    → Inv (record {
      tokens = record s.tokens {
        token = update s.tokens.token s.tokens.made (fresh true);
        made = suc s.tokens.made;
      };
      parent = update s.parent s.tokens.made (some a);
    })
unfolding fresh
makes_fallen-Inv s a l f v = record {
  cut = λ b e. let k = v.cut b in ground arith;
  bounded = λ b g. let k = v.bounded b in ground arith;
  linked = λ b c p k e. elim (Bool-cases (c == s.tokens.made)) [
    | inl q ↦
        let z : a ≡ b = some_same a b (rw q at p) in
        let bn : (b == s.tokens.made) ≡ false = ground arith in
        absurd (true-false (sym f ∙ ap (λ x. (s.tokens.token x).cancelled) z ∙ (rw bn at e)))
    | inr q ↦
        let p' : s.parent c ≡ some b = rw q at p in
        let (x, y) = v.older b c p' in
        let bn : (b == s.tokens.made) ≡ false = ground arith in
        rw bn (v.linked b c p' (rw q at k) (rw bn at e))
  ];
  fell = λ b c p k e. elim (Bool-cases (c == s.tokens.made)) [
    | inl q ↦ rw q refl
    | inr q ↦
        let p' : s.parent c ≡ some b = rw q at p in
        let (x, y) = v.older b c p' in
        let bn : (b == s.tokens.made) ≡ false = ground arith in
        rw q (v.fell b c p' (rw q at k) (rw bn at e))
  ];
  sound = λ b c m. elim (Bool-cases (b == s.tokens.made)) [
    | inl q ↦ elim (rw q at m) [ ]
    | inr q ↦
        let p = v.sound b c (rw q at m) in
        let (x, y) = v.older b c p in
        let cn : (c == s.tokens.made) ≡ false = ground arith in rw cn p
  ];
  older = λ b c p. elim (Bool-cases (c == s.tokens.made)) [
    | inl q ↦ let z : a ≡ b = some_same a b (rw q at p) in (ground arith, omega (arith, z, l))
    | inr q ↦ let (x, y) = v.older b c (rw q at p) in (omega arith, omega arith)
  ];
}

retained-kept :
    (t : Tokens) (c : ℕ) (cs : List ℕ)
    → (t.token c).alive ≡ true
    → Memᴰ c cs
    → Memᴰ c (retained t cs)
unfolding retained
retained-kept t c [] a m = m
retained-kept t c (x ∷ cs) a (head e) =
    let k : (t.token x).alive ≡ true = ap (λ y. (t.token y).alive) (sym e) ∙ a in rw k (head e)
retained-kept t c (x ∷ cs) a (tail m) =
    let ih = retained-kept t c cs a m in
    elim (Bool-cases (t.token x).alive) [ inl k ↦ rw k (tail ih) | inr k ↦ rw k ih ]

retained-from : (t : Tokens) (c : ℕ) (cs : List ℕ) → Memᴰ c (retained t cs) → Memᴰ c cs
unfolding retained
retained-from t c [] m = m
retained-from t c (x ∷ cs) m = elim (Bool-cases (t.token x).alive) [
  | inl k ↦ elim (rw k at m) [ head e ↦ head e | tail r ↦ tail (retained-from t c cs r) ]
  | inr k ↦ tail (retained-from t c cs (rw k at m))
]

-- The children that are left when there is room for one more.
abbrev kids : Bool → ℕ → Tokens → List ℕ
kids full a t = if full then retained t (t.token a).children else (t.token a).children

kids-kept :
    (full : Bool) (a c : ℕ) (t : Tokens)
    → (t.token c).alive ≡ true
    → Memᴰ c (t.token a).children
    → Memᴰ c (kids full a t)
kids-kept true a c t e m = retained-kept t c (t.token a).children e m
kids-kept false a c t e m = m

kids-from :
    (full : Bool) (a c : ℕ) (t : Tokens) → Memᴰ c (kids full a t) → Memᴰ c (t.token a).children
kids-from true a c t m = retained-from t c (t.token a).children m
kids-from false a c t m = m

-- A child of a token that is not cancelled.
makes_linked-Inv :
    (s : System) (full : Bool) (a : ℕ)
    → a < s.tokens.made
    → (s.tokens.token a).cancelled ≡ false
    → Inv s
    → Inv (record {
      tokens = record s.tokens {
        token =
            update
              (update s.tokens.token a (record (s.tokens.token a) {
                children = kids full a s.tokens ++ s.tokens.made ∷ [];
              }))
              s.tokens.made
              (fresh false);
        made = suc s.tokens.made;
      };
      parent = update s.parent s.tokens.made (some a);
    })
unfolding fresh
makes_linked-Inv s full a l f v =
    let n = s.tokens.made in
    let t =
      update
        (update s.tokens.token a
          (record (s.tokens.token a) { children = kids full a s.tokens ++ n ∷ [] }))
        n (fresh false) in
    let flag : (b : ℕ) → b < n → (t b).cancelled ≡ (s.tokens.token b).cancelled = λ b g.
      let bn : (b == n) ≡ false = ground arith in
      elim (Bool-cases (b == a)) [
        | inl q ↦
            let z : a ≡ b = ground arith in rw (bn, q) (ap (λ x. (s.tokens.token x).cancelled) z)
        | inr q ↦ rw (bn, q) refl
      ] in
    let left : (b : ℕ) → b < n → (t b).alive ≡ (s.tokens.token b).alive = λ b g.
      let bn : (b == n) ≡ false = ground arith in
      elim (Bool-cases (b == a)) [
        | inl q ↦ let z : a ≡ b = ground arith in rw (bn, q) (ap (λ x. (s.tokens.token x).alive) z)
        | inr q ↦ rw (bn, q) refl
      ] in
    record {
      cut = λ b e. elim (Bool-cases (b == a)) [
        | inl q ↦
            let bn : (b == n) ≡ false = ground arith in
            absurd (true-false (sym (rw (bn, q) at e) ∙ f))
        | inr q ↦ let k = v.cut b in ground arith
      ];
      bounded = λ b g. let k = v.bounded b in ground arith;
      linked = λ b c p k e. elim (Bool-cases (c == n)) [
        | inl q ↦
            let z : a ≡ b = some_same a b (rw q at p) in
            let bn : (b == n) ≡ false = ground arith in
            let ba : (b == a) ≡ true = ground arith in
            let w : c ≡ n = ground arith in
            rw (bn, ba) (mem-right c (kids full a s.tokens) (n ∷ []) (head w))
        | inr q ↦
            let p' : s.parent c ≡ some b = rw q at p in
            let (x, y) = v.older b c p' in
            let bn : (b == n) ≡ false = ground arith in
            let alive : (s.tokens.token c).alive ≡ true = sym (left c x) ∙ k in
            let m = v.linked b c p' alive (sym (flag b y) ∙ e) in
            elim (Bool-cases (b == a)) [
              | inl ba ↦
                  let z : b ≡ a = ground arith in
                  rw (bn, ba)
                    (mem-left c (kids full a s.tokens) (n ∷ []) (
                      kids-kept full a c s.tokens alive
                        (subst (λ d. Memᴰ c (s.tokens.token d).children) z m)))
              | inr ba ↦ rw (bn, ba) m
            ]
      ];
      fell = λ b c p k e. elim (Bool-cases (c == n)) [
        | inl q ↦
            let z : a ≡ b = some_same a b (rw q at p) in
            let y : b < n = omega (arith, z, l) in
            absurd
              (true-false (sym e ∙ flag b y ∙ ap (λ x. (s.tokens.token x).cancelled) (sym z) ∙ f))
        | inr q ↦
            let p' : s.parent c ≡ some b = rw q at p in
            let (x, y) = v.older b c p' in
            flag c x ∙ v.fell b c p' (sym (left c x) ∙ k) (sym (flag b y) ∙ e)
      ];
      sound = λ b c m. elim (Bool-cases (b == n)) [
        | inl q ↦ elim (rw q at m) [ ]
        | inr q ↦ elim (Bool-cases (b == a)) [
          | inl ba ↦
              let z : b ≡ a = ground arith in
              elim (mem-append c (kids full a s.tokens) (n ∷ []) (rw (q, ba) at m)) [
                | inl o ↦
                    let p = v.sound a c (kids-from full a c s.tokens o) in
                    let (x, y) = v.older a c p in
                    let cn : (c == n) ≡ false = ground arith in rw cn (p ∙ ap some (sym z))
                | inr (head o) ↦
                    let cn : (c == n) ≡ true = ground (arith, o) in rw cn (ap some (sym z))
                | inr (tail o) ↦ elim o [ ]
              ]
          | inr ba ↦
              let p = v.sound b c (rw (q, ba) at m) in
              let (x, y) = v.older b c p in let cn : (c == n) ≡ false = ground arith in rw cn p
        ]
      ];
      older = λ b c p. elim (Bool-cases (c == n)) [
        | inl q ↦ let z : a ≡ b = some_same a b (rw q at p) in (ground arith, omega (arith, z, l))
        | inr q ↦ let (x, y) = v.older b c (rw q at p) in (omega arith, omega arith)
      ];
    }

makes_child-Inv :
    (s : System) (full : Bool) (a : ℕ)
    → a < s.tokens.made
    → Inv s
    → Inv (record {
      tokens = child_token full a s.tokens;
      parent = update s.parent s.tokens.made (some a);
    })
unfolding child_token
makes_child-Inv s full a l v = elim (Bool-cases (s.tokens.token a).cancelled) [
  | inl e ↦ rw e (makes_fallen-Inv s a l e v)
  | inr e ↦
      subst (λ t. Inv (record { tokens = t; parent = update s.parent s.tokens.made (some a) }))
        (sym (if-false (s.tokens.token a).cancelled _ _ e)) (makes_linked-Inv s full a l e v)
]

pub cancelled-Reached : (s : System) (a : ℕ) → Inv s → Reached s.tokens (a ∷ []) (cancel a s.tokens)
unfolding cancel
cancelled-Reached s a v =
    let h =
      collect-Reached (suc (links s.tokens.made s.tokens.token)) s.tokens.made (a ∷ []) [] s.tokens
        (omega arith) v.bounded in
    record {
      kept = h.kept;
      all = h.all;
      closed = h.closed;
      same = h.same;
      same_alive = h.same_alive;
      only = h.only;
    }

cancels-Inv : (s : System) (a : ℕ) → Inv s → Inv (record s { tokens = cancel a s.tokens })
unfolding cancel
cancels-Inv s a v =
    let fuel = suc (links s.tokens.made s.tokens.token) in
    let made = collect-made fuel (a ∷ []) [] s.tokens in
    let cut = collect-Cut fuel (a ∷ []) [] s.tokens v.cut in
    let h = collect-Reached fuel s.tokens.made (a ∷ []) [] s.tokens (omega arith) v.bounded in
    record {
      cut = cut;
      bounded = rw made (collect-Bounded fuel s.tokens.made (a ∷ []) [] s.tokens v.bounded);
      linked = λ b c p k e.
          let (was, kids) = h.same b e in rw kids (v.linked b c p (sym (h.same_alive c) ∙ k) was);
      fell = λ b c p k e.
          let alive = sym (h.same_alive c) ∙ k in
          elim (Bool-cases (s.tokens.token b).cancelled) [
            | inl was ↦ h.kept c (v.fell b c p alive was)
            | inr was ↦ h.closed b c was e (v.linked b c p alive was) alive
          ];
      sound = λ b c m. elim (Bool-cases ((collect fuel (a ∷ []) [] s.tokens).0.token b).cancelled) [
        | inl e ↦ elim (subst (Memᴰ c) (cut b e) m) [ ]
        | inr e ↦ v.sound b c (subst (Memᴰ c) (h.same b e).1 m)
      ];
      older = λ b c p. rw made (v.older b c p);
    }

Step-Inv : (s t : System) → Step s t → Inv s → Inv t
unfolding wait wait_again forget drop_token
Step-Inv s _ makes v = makes-Inv s v
Step-Inv s _ (makes_child full a l) v = makes_child-Inv s full a l v
Step-Inv s _ (cancels a l) v = cancels-Inv s a v
Step-Inv s _ (waits waker a l) v =
    let x = s.tokens.token a in
    elim (Bool-cases x.cancelled) [
      | inl e ↦ rw e v
      | inr e ↦
          let t : TokenState = record x {
            cancelled = false;
            next_waiter = suc x.next_waiter;
            wakers = x.wakers ++ (x.next_waiter, waker) ∷ [];
          } in
          rw e (set_token-Inv s a t (sym e) refl (λ k. k) v)
    ]
Step-Inv s _ (waits_again tag waker a) v =
    let x = s.tokens.token a in
    elim (Bool-cases x.cancelled) [
      | inl e ↦ rw e v
      | inr e ↦
          let t : TokenState = record x {
            cancelled = false;
            wakers = store_waker tag waker x.wakers;
          } in
          rw e (set_token-Inv s a t (sym e) refl (λ k. k) v)
    ]
Step-Inv s _ (forgets tag a) v =
    set_token-Inv s a
      (record (s.tokens.token a) { wakers = forgotten tag (s.tokens.token a).wakers }) refl refl
      (λ k. k) v
Step-Inv s _ (drops a) v =
    set_token-Inv s a (record (s.tokens.token a) { alive = false }) refl refl
      (λ k. absurd (true-false (sym k))) v

pub Reach-Inv : (s : System) → Reach Step start s → Inv s
Reach-Inv s r = Reach-keeps Step Inv Step-Inv start-Inv r
