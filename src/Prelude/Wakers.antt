-- ===== src/Prelude/Wakers.antt =====
-- A function changed at one place: a store of `Rc<Cell<_>>` flags, the elements of a `Vec`, a `HashMap`.
use Prim.Native.Nat.{ℕ}
use runite.Prelude.Tests.{◌==◌, if◌then◌else◌}

module _ {ℓ} {S : Type ℓ} where
  -- `Cell::set`, an assignment to an element, `HashMap::insert`.
  abbrev pub update : (ℕ → S) → ℕ → S → ℕ → S
  update cells a v b = if b == a then v else cells b
