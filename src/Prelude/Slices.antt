-- ===== src/Prelude/Slices.antt =====
-- Parts of a list: `&buf[..n]`, `&buf[n..]` and `&buf[a..b]`.
use Prim.Native.Nat.{ℕ, zero, suc, ◌+◌, ◌-◌, ◌≤◌, min}
use mathlib.Core.Path.{◌≡◌, refl, sym, ap, ◌∙◌}
use mathlib.Core.List.{List, [], ◌∷◌, ◌++◌, append-nil}
use native.Mathlib.Omega.{arith}
use mathlib.Core.Logic.{inl, inr}
use runite.Prelude.Tests.{leb, Bool-cases}
use runite.Prelude.Lists.{length}

module _ {ℓ} {A : Type ℓ} where
  abbrev pub take : ℕ → List A → List A
  take zero xs = []
  take (suc n) [] = []
  take (suc n) (x ∷ xs) = x ∷ take n xs

  abbrev pub drop : ℕ → List A → List A
  drop zero xs = xs
  drop (suc n) [] = []
  drop (suc n) (x ∷ xs) = drop n xs

  abbrev pub slice : ℕ → ℕ → List A → List A
  slice a b xs = take (b - a) (drop a xs)

  pub take-append-drop : (n : ℕ) (xs : List A) → take n xs ++ drop n xs ≡ xs
  take-append-drop zero xs = refl
  take-append-drop (suc n) [] = refl
  take-append-drop (suc n) (x ∷ xs) = ap (λ ys. x ∷ ys) (take-append-drop n xs)

  pub length-take : (n : ℕ) (xs : List A) → n ≤ length xs → length (take n xs) ≡ n
  length-take zero xs h = refl
  length-take (suc n) [] h = omega arith
  length-take (suc n) (x ∷ xs) h = omega (arith, length-take n xs)

  pub length-take-le : (n : ℕ) (xs : List A) → length (take n xs) ≤ n
  length-take-le zero xs = omega arith
  length-take-le (suc n) [] = omega arith
  length-take-le (suc n) (x ∷ xs) = omega (arith, length-take-le n xs)

  pub length-drop : (n : ℕ) (xs : List A) → length (drop n xs) ≡ length xs - n
  length-drop zero xs = omega arith
  length-drop (suc n) [] = omega arith
  length-drop (suc n) (x ∷ xs) = omega (arith, length-drop n xs)

  pub take_all : (n : ℕ) (xs : List A) → length xs ≤ n → take n xs ≡ xs
  take_all zero [] h = refl
  take_all zero (x ∷ xs) h = absurd (omega arith)
  take_all (suc n) [] h = refl
  take_all (suc n) (x ∷ xs) h = ap (λ ys. x ∷ ys) (take_all n xs (omega arith))

  pub drop_all : (n : ℕ) (xs : List A) → length xs ≤ n → drop n xs ≡ []
  drop_all zero [] h = refl
  drop_all zero (x ∷ xs) h = absurd (omega arith)
  drop_all (suc n) [] h = refl
  drop_all (suc n) (x ∷ xs) h = drop_all n xs (omega arith)

  pub drop_add : (m n : ℕ) (xs : List A) → drop (m + n) xs ≡ drop n (drop m xs)
  drop_add zero n xs = ap (λ k. drop k xs) (omega arith)
  drop_add (suc m) zero [] = ap (λ k. drop k []) (let e : suc m + 0 ≡ suc m = omega arith in e)
  drop_add (suc m) (suc n) [] =
      ap (λ k. drop k []) (let e : suc m + suc n ≡ suc (m + suc n) = omega arith in e)
  drop_add (suc m) n (x ∷ xs) =
      ap (λ k. drop k (x ∷ xs)) (let e : suc m + n ≡ suc (m + n) = omega arith in e)
      ∙ drop_add m n xs

  pub drop-append : (n : ℕ) (xs ys : List A) → n ≤ length xs → drop n (xs ++ ys) ≡ drop n xs ++ ys
  drop-append zero xs ys h = refl
  drop-append (suc n) [] ys h = absurd (omega arith)
  drop-append (suc n) (x ∷ xs) ys h = drop-append n xs ys (omega arith)

  pub take_append : (xs ys : List A) → take (length xs) (xs ++ ys) ≡ xs
  take_append [] ys = refl
  take_append (x ∷ xs) ys = ap (λ zs. x ∷ zs) (take_append xs ys)

  pub take_add : (m n : ℕ) (xs : List A) → take (m + n) xs ≡ take m xs ++ take n (drop m xs)
  take_add zero n xs = ap (λ k. take k xs) (omega arith)
  take_add (suc m) zero [] = ap (λ k. take k []) (let e : suc m + 0 ≡ suc m = omega arith in e)
  take_add (suc m) (suc n) [] =
      ap (λ k. take k []) (let e : suc m + suc n ≡ suc (m + suc n) = omega arith in e)
  take_add (suc m) n (x ∷ xs) =
      ap (λ k. take k (x ∷ xs)) (let e : suc m + n ≡ suc (m + n) = omega arith in e)
      ∙ ap (λ zs. x ∷ zs) (take_add m n xs)

  -- A slice splits at any place.
  pub slice_split :
      (a b c : ℕ) (xs : List A) → a ≤ b → b ≤ c → slice a b xs ++ slice b c xs ≡ slice a c xs
  slice_split a b c xs h k =
      let e : a + (b - a) ≡ b = omega arith in
      let f : (b - a) + (c - b) ≡ c - a = omega arith in
      sym (
        ap (λ t. take t (drop a xs)) (sym f)
        ∙ take_add (b - a) (c - b) (drop a xs)
        ∙ ap (λ ys. slice a b xs ++ take (c - b) ys)
            (sym (drop_add a (b - a) xs) ∙ ap (λ t. drop t xs) e))

  pub slice_empty : (a b : ℕ) (xs : List A) → b ≤ a → slice a b xs ≡ []
  slice_empty a b xs h = ap (λ k. take k (drop a xs)) (let e : b - a ≡ 0 = omega arith in e)

  pub length-slice : (a b : ℕ) (xs : List A) → b ≤ length xs → length (slice a b xs) ≡ b - a
  length-slice a b xs h = length-take (b - a) (drop a xs) (omega (arith, length-drop a xs))

  pub take-slice :
      (k a b : ℕ) (xs : List A)
      → a + k ≤ b
      → b ≤ length xs
      → take k (slice a b xs) ≡ slice a (a + k) xs
  take-slice k a b xs h m =
      let e : length (slice a (a + k) xs) ≡ k =
        omega (arith, length-slice a (a + k) xs (omega arith)) in
      ap (take k) (sym (slice_split a (a + k) b xs (omega arith) h))
      ∙ ap (λ n. take n (slice a (a + k) xs ++ slice (a + k) b xs)) (sym e)
      ∙ take_append (slice a (a + k) xs) (slice (a + k) b xs)

  -- What is taken off a list from `p` on, and what then remains, when `k` may be past the end.
  pub cut_drop :
      (p k : ℕ) (xs : List A)
      → p ≤ length xs
      → take k (drop p xs) ++ drop (min (length xs) (p + k)) xs ≡ drop p xs
  cut_drop p k xs h = elim (Bool-cases (leb (p + k) (length xs))) [
    | inl e ↦
        let m : min (length xs) (p + k) ≡ p + k = ground arith in
        ap (λ n. take k (drop p xs) ++ drop n xs) m
        ∙ ap (λ ys. take k (drop p xs) ++ ys) (drop_add p k xs)
        ∙ take-append-drop k (drop p xs)
    | inr e ↦
        let m : min (length xs) (p + k) ≡ length xs = ground arith in
        let n : length (drop p xs) ≤ k = ground (arith, length-drop p xs) in
        ap (λ n. take k (drop p xs) ++ drop n xs) m
        ∙ ap (λ ys. take k (drop p xs) ++ ys) (drop_all (length xs) xs (omega arith))
        ∙ append-nil (take k (drop p xs))
        ∙ take_all k (drop p xs) n
  ]

  pub cut_slice :
      (a k b : ℕ) (xs : List A)
      → a ≤ b
      → b ≤ length xs
      → take k (slice a b xs) ++ slice (min b (a + k)) b xs ≡ slice a b xs
  cut_slice a k b xs h l = elim (Bool-cases (leb (a + k) b)) [
    | inl e ↦
        let le : a + k ≤ b = ground arith in
        let m : min b (a + k) ≡ a + k = ground arith in
        ap (λ n. take k (slice a b xs) ++ slice n b xs) m
        ∙ ap (λ ys. ys ++ slice (a + k) b xs) (take-slice k a b xs le l)
        ∙ slice_split a (a + k) b xs (omega arith) le
    | inr e ↦
        let m : min b (a + k) ≡ b = ground arith in
        let n : length (slice a b xs) ≤ k = ground (arith, length-slice a b xs l) in
        ap (λ n. take k (slice a b xs) ++ slice n b xs) m
        ∙ ap (λ ys. take k (slice a b xs) ++ ys) (slice_empty b b xs (omega arith))
        ∙ append-nil (take k (slice a b xs))
        ∙ take_all k (slice a b xs) n
  ]
