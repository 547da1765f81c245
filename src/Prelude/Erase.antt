-- ===== src/Prelude/Erase.antt =====
-- Items found and removed by their index.
use porta.Prelude.Lists.{length, get_elem?, erase_at, position, select}
use Prim.Native.Nat.{ℕ, zero, suc, ◌<◌}
use mathlib.Core.Path.{◌≡◌, refl, ap}
use mathlib.Core.List.{List, [], ◌∷◌, ◌++◌}
use mathlib.Core.Option.{none, some}
use mathlib.Core.Bool.{Bool, true, false}
use native.Mathlib.Omega.{arith}

module _ {ℓ} {A : Type ℓ} where
  pub erase_at_missing :
      (xs : List A) (index : ℕ) → get_elem? xs index ≡ none → erase_at xs index ≡ xs
  erase_at_missing [] index h = refl
  erase_at_missing (x ∷ xs) zero h = cc
  erase_at_missing (x ∷ xs) (suc index) h = ap (◌∷◌ x) (erase_at_missing xs index h)

  -- An item in the middle of a list, by its place.
  pub get_elem?-middle :
      (xs : List A) (y : A) (ys : List A) (index : ℕ)
      → index ≡ length xs
      → get_elem? (xs ++ y ∷ ys) index ≡ some y
  get_elem?-middle [] y ys zero e = refl
  get_elem?-middle [] y ys (suc index) e = absurd (omega arith)
  get_elem?-middle (x ∷ xs) y ys zero e = absurd (omega arith)
  get_elem?-middle (x ∷ xs) y ys (suc index) e = get_elem?-middle xs y ys index (omega arith)

  pub erase_at-middle :
      (xs : List A) (y : A) (ys : List A) (index : ℕ)
      → index ≡ length xs
      → erase_at (xs ++ y ∷ ys) index ≡ xs ++ ys
  erase_at-middle [] y ys zero e = refl
  erase_at-middle [] y ys (suc index) e = absurd (omega arith)
  erase_at-middle (x ∷ xs) y ys zero e = absurd (omega arith)
  erase_at-middle (x ∷ xs) y ys (suc index) e =
      ap (◌∷◌ x) (erase_at-middle xs y ys index (omega arith))

  pub position-lt :
      (p : A → Bool) (xs : List A) (index : ℕ) → position p xs ≡ some index → index < length xs
  position-lt p [] index h = cc
  position-lt p (x ∷ xs) zero h = omega arith
  position-lt p (x ∷ xs) (suc index) h = ground (arith, position-lt p xs index)

  -- A removal at the position of a test takes nothing from those who fail it.
  pub select-erase_position :
      (p keep : A → Bool) (xs : List A) (index : ℕ)
      → ((x : A) → p x ≡ true → keep x ≡ false)
      → position p xs ≡ some index
      → select keep (erase_at xs index) ≡ select keep xs
  select-erase_position p keep [] index h e = cc
  select-erase_position p keep (x ∷ xs) zero h e = ground (arith, h x)
  select-erase_position p keep (x ∷ xs) (suc index) h e =
      ground (arith, select-erase_position p keep xs index h)
