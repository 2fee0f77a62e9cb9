-- ===== src/Io/BufReader/Newlines.antt =====
-- The first newline of a list of bytes, which bounds what a round of `read_line` moves.
use mathlib.Core.Path.{subst}
use runite.Prelude.{
  ℕ, zero, suc, ◌≡◌, refl, sym, ap, ◌∙◌, inl, inr, List, [], ◌∷◌, ◌++◌, true, false, Option, none,
  some, Bool-cases, Option-cases, ◌==◌, length, take, drop, take_all, arith,
}
use runite.Io.BufReader.{shifted, up_to, position_newline, ends_line, line_length}

-- A newline can only be the last byte.
abbrev pub OneLine : List ℕ → Type 0
OneLine bs = (n : ℕ) → position_newline bs ≡ some n → suc n ≡ length bs

ends_line-cons : (b : ℕ) (bs : List ℕ) → ends_line bs ≡ true → ends_line (b ∷ bs) ≡ true
unfolding ends_line
ends_line-cons b [] e = cc
ends_line-cons b (c ∷ bs) e = e

pub ends_line-append : (xs ys : List ℕ) → ends_line ys ≡ true → ends_line (xs ++ ys) ≡ true
ends_line-append [] ys e = e
ends_line-append (x ∷ xs) ys e = ends_line-cons x (xs ++ ys) (ends_line-append xs ys e)

shifted_inv : (o : Option ℕ) (n : ℕ) → shifted o ≡ some n → (m : ℕ) × (o ≡ some m) × (n ≡ suc m)
shifted_inv none n e = cc
shifted_inv (some m) n e = (m, refl, ground arith)

-- The first newline, and the bytes up to it.
line_at :
    (bs : List ℕ) (n : ℕ)
    → position_newline bs ≡ some n
    → (position_newline (take (suc n) bs) ≡ some n)
      × (length (take (suc n) bs) ≡ suc n)
      × (ends_line (take (suc n) bs) ≡ true)
unfolding position_newline
line_at [] n e = cc
line_at (b ∷ bs) n e = elim (Bool-cases (b == 10)) [
  | inl t ↦
      let z : 0 ≡ n = ground arith in
      subst
        (λ k.
          (position_newline (take (suc k) (b ∷ bs)) ≡ some k)
          × (length (take (suc k) (b ∷ bs)) ≡ suc k)
          × (ends_line (take (suc k) (b ∷ bs)) ≡ true))
        z (unfold ends_line in (rw t refl, refl, t))
  | inr t ↦
      let (m, q, z) = shifted_inv (position_newline bs) n (rw t at e) in
      let (p, k, l) = line_at bs m q in
      rw z (rw t (ap shifted p), ap suc k, ends_line-cons b (take (suc m) bs) l)
]

pub none-append :
    (xs ys : List ℕ)
    → position_newline xs ≡ none
    → position_newline ys ≡ none
    → position_newline (xs ++ ys) ≡ none
unfolding position_newline
none-append [] ys e f = f
none-append (x ∷ xs) ys e f = ground (arith, none-append xs ys)

pub OneLine-append : (xs ys : List ℕ) → position_newline xs ≡ none → OneLine ys → OneLine (xs ++ ys)
unfolding position_newline
OneLine-append [] ys e f n p = f n p
OneLine-append (x ∷ xs) ys e f n p = elim (Bool-cases (x == 10)) [
  | inl t ↦ ground arith
  | inr t ↦
      let (m, q, z) = shifted_inv (position_newline (xs ++ ys)) n (rw t at p) in
      let ih = OneLine-append xs ys (ground arith) f m q in omega arith
]

pub none-OneLine : (bs : List ℕ) → position_newline bs ≡ none → OneLine bs
none-OneLine bs e n p = cc

pub none-drop :
    (n : ℕ) (bs : List ℕ) → position_newline bs ≡ none → position_newline (drop n bs) ≡ none
unfolding position_newline
none-drop zero bs e = e
none-drop (suc n) [] e = e
none-drop (suc n) (b ∷ bs) e = none-drop n bs (ground arith)

-- What a round moves to the line buffer.
pub record Moved (moved : List ℕ) : Type 0 where
  pub one : OneLine moved
  pub open_end : ends_line moved ≡ false → position_newline moved ≡ none

pub Moved-line : (bs : List ℕ) → Moved (take (line_length bs) bs)
unfolding line_length
Moved-line bs = elim (Option-cases (position_newline bs)) [
  | inl e ↦
      let q : take (up_to bs (position_newline bs)) bs ≡ bs =
        ap (λ o. take (up_to bs o) bs) e ∙ take_all (length bs) bs (omega arith) in
      subst Moved (sym q) (record { one = none-OneLine bs e; open_end = λ f. e })
  | inr (n, e) ↦
      let q : take (up_to bs (position_newline bs)) bs ≡ take (suc n) bs =
        ap (λ o. take (up_to bs o) bs) e in
      let (p, k, l) = line_at bs n e in
      subst Moved (sym q) (record { one = λ m f. ground arith; open_end = λ f. ground arith })
]
