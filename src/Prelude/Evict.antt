-- ===== src/Prelude/Evict.antt =====
-- Items removed from a list one at a time, each the first that passes a test, while there is no room.
use porta.Prelude.Lists.{erase_at, position, select}
use Prim.Native.Nat.{ℕ, zero, suc}
use mathlib.Core.Path.{◌≡◌, refl}
use mathlib.Core.List.{List, [], ◌∷◌}
use mathlib.Core.Option.{none, some}
use mathlib.Core.Bool.{Bool, true, false}
use native.Mathlib.Omega.{arith}

-- The second list is the first without the first of its items that passes the test.
pub data Removes {ℓ} {A : Type ℓ} (p : A → Bool) : List A → List A → Type ℓ where
  here : (x : A) (xs : List A) → p x ≡ true → Removes p (x ∷ xs) xs
  later : (x : A) (xs ys : List A) → p x ≡ false → Removes p xs ys → Removes p (x ∷ xs) (x ∷ ys)

-- Removals of the form `Replaces`, each made while the items do not fit.
pub data Evicts {ℓ} {A : Type ℓ} (Fits : List A → Type 0) (Replaces : List A → List A → Type ℓ)
    : List A → List A → Type ℓ where
  done : (items : List A) → Evicts Fits Replaces items items
  evict :
      (items rest kept : List A)
      → (Fits items → ⊥)
      → Replaces items rest
      → Evicts Fits Replaces rest kept
      → Evicts Fits Replaces items kept

module _ {ℓ} {A : Type ℓ} where
  pub position-Removes :
      (p : A → Bool) (xs : List A) (index : ℕ)
      → position p xs ≡ some index
      → Removes p xs (erase_at xs index)
  position-Removes p [] index h = cc
  position-Removes p (x ∷ xs) zero h = here x xs (ground (arith, h))
  position-Removes p (x ∷ xs) (suc index) h =
      later x xs (erase_at xs index) (ground (arith, h))
        (position-Removes p xs index (ground (arith, h)))

  pub position-none : (p : A → Bool) (xs : List A) → position p xs ≡ none → select p xs ≡ []
  position-none p [] h = refl
  position-none p (x ∷ xs) h = ground (arith, position-none p xs)
