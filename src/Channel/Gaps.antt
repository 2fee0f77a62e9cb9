-- ===== src/Channel/Gaps.antt =====
-- `Vec::swap_remove`, as src/channel/watch.rs, src/channel/broadcast.rs and src/sync/cancellation.rs use
-- it on their waiters.
use mathlib.Core.List.{Memᴰ}
use mathlib.Core.List.Memᴰ.{head, tail}
use runite.Prelude.{
  ℕ, suc, ◌≡◌, refl, ap, ◌⊎◌, inl, inr, List, [], ◌∷◌, ◌++◌, length, copies, map, arith,
}

module _ {A : Type 0} where
  -- `swap_remove` of the first element: the last one takes its place.
  abbrev pub last : A → List A → A
  last w [] = w
  last w (v ∷ vs) = last v vs

  abbrev pub init : A → List A → List A
  init w [] = []
  init w (v ∷ vs) = w ∷ init v vs

  abbrev pub fill_gap : List A → List A
  fill_gap [] = []
  fill_gap (w ∷ ws) = last w ws ∷ init w ws

  pub mem-append : (x : A) (xs ys : List A) → Memᴰ x (xs ++ ys) → Memᴰ x xs ⊎ Memᴰ x ys
  mem-append x [] ys m = inr m
  mem-append x (z ∷ xs) ys (head e) = inl (head e)
  mem-append x (z ∷ xs) ys (tail m) = elim (mem-append x xs ys m) [
    | inl i ↦ inl (tail i)
    | inr i ↦ inr i
  ]

  pub mem-left : (x : A) (xs ys : List A) → Memᴰ x xs → Memᴰ x (xs ++ ys)
  mem-left x [] ys m = elim m [ ]
  mem-left x (z ∷ xs) ys (head e) = head e
  mem-left x (z ∷ xs) ys (tail m) = tail (mem-left x xs ys m)

  pub mem-right : (x : A) (xs ys : List A) → Memᴰ x ys → Memᴰ x (xs ++ ys)
  mem-right x [] ys m = m
  mem-right x (z ∷ xs) ys m = tail (mem-right x xs ys m)

  length-init : (w : A) (ws : List A) → length (init w ws) ≡ length ws
  length-init w [] = refl
  length-init w (v ∷ vs) = ap suc (length-init v vs)

  pub length-fill : (ws : List A) → length (fill_gap ws) ≡ length ws
  length-fill [] = refl
  length-fill (w ∷ ws) = ap suc (length-init w ws)

  -- Filling the gap keeps the same waiters.
  fill_from : (x w : A) (ws : List A) → Memᴰ x (last w ws ∷ init w ws) → Memᴰ x (w ∷ ws)
  fill_from x w [] m = m
  fill_from x w (v ∷ vs) (head e) = tail (fill_from x v vs (head e))
  fill_from x w (v ∷ vs) (tail (head e)) = head e
  fill_from x w (v ∷ vs) (tail (tail m)) = tail (fill_from x v vs (tail m))

  fill_into : (x w : A) (ws : List A) → Memᴰ x (w ∷ ws) → Memᴰ x (last w ws ∷ init w ws)
  fill_into x w [] m = m
  fill_into x w (v ∷ vs) (head e) = tail (head e)
  fill_into x w (v ∷ vs) (tail m) = elim (fill_into x v vs m) [
    | head e ↦ head e
    | tail i ↦ tail (tail i)
  ]

  pub gap_from : (x : A) (ws : List A) → Memᴰ x (fill_gap ws) → Memᴰ x ws
  gap_from x [] m = m
  gap_from x (w ∷ ws) m = fill_from x w ws m

  pub gap_into : (x : A) (ws : List A) → Memᴰ x ws → Memᴰ x (fill_gap ws)
  gap_into x [] m = m
  gap_into x (w ∷ ws) m = fill_into x w ws m

  -- Nor does it change how often something stands in the list.
  copies-fill_from :
      (f : A → ℕ) (h : ℕ) (w : A) (ws : List A)
      → copies h (map f (last w ws ∷ init w ws)) ≡ copies h (map f (w ∷ ws))
  copies-fill_from f h w [] = refl
  copies-fill_from f h w (v ∷ vs) = omega (arith, copies-fill_from f h v vs)

  pub copies-fill_gap :
      (f : A → ℕ) (h : ℕ) (ws : List A) → copies h (map f (fill_gap ws)) ≡ copies h (map f ws)
  copies-fill_gap f h [] = refl
  copies-fill_gap f h (w ∷ ws) = copies-fill_from f h w ws
