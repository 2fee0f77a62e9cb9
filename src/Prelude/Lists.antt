-- ===== src/Prelude/Lists.antt =====
-- Lists measured and indexed by native numbers, under the library's names.
use Prim.Native.Nat.{ℕ, suc, ◌+◌}
use mathlib.Core.Path.{◌≡◌, refl, ap}
use mathlib.Core.Logic.{◌≢◌, ◌⊎◌, inl, inr}
use mathlib.Core.Bool.{Bool, true, false}
use mathlib.Core.List.{List, [], ◌∷◌, ◌++◌}
use native.Mathlib.Omega.{arith}
use runite.Prelude.Tests.{◌==◌, bit}

module _ {ℓ} {A : Type ℓ} where
  abbrev pub length : List A → ℕ
  length [] = 0
  length (x ∷ xs) = suc (length xs)

  pub length-append : (xs ys : List A) → length (xs ++ ys) ≡ length xs + length ys
  length-append [] ys = omega arith
  length-append (x ∷ xs) ys = omega (arith, length-append xs ys)

  pub List-cases : (xs : List A) → (xs ≡ []) ⊎ ((x : A) × (ys : List A) × (xs ≡ x ∷ ys))
  List-cases [] = inl refl
  List-cases (x ∷ xs) = inr (x, xs, refl)

  -- `VecDeque::is_empty`.
  abbrev pub is_empty : List A → Bool
  is_empty [] = true
  is_empty (x ∷ xs) = false

  pub is_empty→nil : (xs : List A) → is_empty xs ≡ true → xs ≡ []
  is_empty→nil [] e = refl
  is_empty→nil (x ∷ xs) e = cc

  pub is_empty→ne : (xs : List A) → is_empty xs ≡ false → xs ≢ []
  is_empty→ne xs e n = cc (ap is_empty n)

-- How often a number stands in a list.
abbrev pub copies : ℕ → List ℕ → ℕ
copies b [] = 0
copies b (x ∷ xs) = bit (b == x) + copies b xs

pub copies-append : (us vs : List ℕ) (b : ℕ) → copies b vs + copies b us ≡ copies b (us ++ vs)
copies-append [] vs b = omega arith
copies-append (u ∷ us) vs b = let ih = copies-append us vs b in omega arith
