-- ===== src/Wire/Bytes.antt =====
-- Byte sequences as lists of numbers, and the big-endian words of the Rust standard library
-- (`to_be_bytes`, `from_be_bytes`).
use native.Mathlib.Nat.{pow-suc}
use porta.Prelude.{
  ℕ, zero, suc, ◌+◌, ◌*◌, ◌/◌, ◌%◌, ◌^◌, ◌<◌, ◌≡◌, refl, List, [], ◌∷◌, ◌++◌, arith, length,
  length-append, All,
}

abbrev pub Bytes : Type 0
Bytes = List ℕ

abbrev pub IsByte : ℕ → Type 0
IsByte b = b < 256

abbrev pub IsBytes : Bytes → Type 0
IsBytes = All IsByte

-- The `n` bytes of a word of `8 * n` bits, the highest first.
abbrev pub be_bytes : ℕ → ℕ → Bytes
be_bytes zero v = []
be_bytes (suc n) v = be_bytes n (v / 256) ++ v % 256 ∷ []

abbrev pub from_be_after : ℕ → Bytes → ℕ
from_be_after acc [] = acc
from_be_after acc (b ∷ bs) = from_be_after (acc * 256 + b) bs

abbrev pub from_be : Bytes → ℕ
from_be = from_be_after 0

pub length-be_bytes : (n v : ℕ) → length (be_bytes n v) ≡ n
length-be_bytes zero v = refl
length-be_bytes (suc n) v =
    omega (arith, length-be_bytes n (v / 256), length-append (be_bytes n (v / 256)) (v % 256 ∷ []))

pub from_be_after-snoc :
    (acc : ℕ) (bs : Bytes) (b : ℕ)
    → from_be_after acc (bs ++ b ∷ []) ≡ from_be_after acc bs * 256 + b
from_be_after-snoc acc [] b = refl
from_be_after-snoc acc (c ∷ bs) b = from_be_after-snoc (acc * 256 + c) bs b

pub from_be-be_bytes : (n v : ℕ) → v < 256 ^ n → from_be (be_bytes n v) ≡ v
from_be-be_bytes zero v h = omega arith
from_be-be_bytes (suc n) v h = omega (
  arith,
  from_be_after-snoc 0 (be_bytes n (v / 256)) (v % 256),
  from_be-be_bytes n (v / 256) (omega (arith, pow-suc 256 n)),
)

pub IsBytes-append : (xs ys : Bytes) → IsBytes xs → IsBytes ys → IsBytes (xs ++ ys)
IsBytes-append [] ys h k = k
IsBytes-append (x ∷ xs) ys h k = (h.0, IsBytes-append xs ys h.1 k)

pub be_bytes-IsBytes : (n v : ℕ) → IsBytes (be_bytes n v)
be_bytes-IsBytes zero v = tt
be_bytes-IsBytes (suc n) v = IsBytes-append _ _ (be_bytes-IsBytes n (v / 256)) (omega arith, tt)
