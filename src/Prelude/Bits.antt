-- ===== src/Prelude/Bits.antt =====
-- Bitwise operations as arithmetic: masks of ones, and `or` of values whose bits do not overlap.
use Prim.Native.Nat.{digits, bit_and-bitwise, bit_or-bitwise}
use native.Mathlib.Nat.{pow-suc, div-add-mod', mul-add-mod_self_right, mod-eq_of_lt, mod-lt}
use porta.Prelude.{
  ℕ, zero, suc, ◌+◌, ◌-◌, ◌*◌, ◌/◌, ◌%◌, ◌^◌, ◌≤◌, ◌<◌, min, max, bit_and, bit_or, ◌≡◌, refl, ap,
  sym, ◌∙◌, arith,
}

-- More digits to go than the number has make no difference.
digits_enough :
    (z : ℕ → ℕ) (f : ℕ → ℕ → ℕ) (n m a b : ℕ) → a ≤ n → a ≤ m → digits z f n a b ≡ digits z f m a b
digits_enough z f zero zero a b p q = refl
digits_enough z f zero (suc m) zero b p q = refl
digits_enough z f zero (suc m) (suc a) b p q = absurd (omega arith)
digits_enough z f (suc n) zero zero b p q = refl
digits_enough z f (suc n) zero (suc a) b p q = absurd (omega arith)
digits_enough z f (suc n) (suc m) zero b p q = refl
digits_enough z f (suc n) (suc m) (suc a) b p q =
    omega (arith, digits_enough z f n m (suc a / 2) (b / 2) (omega arith) (omega arith))

and_zero_left : (b : ℕ) → bit_and 0 b ≡ 0
and_zero_left b = bit_and-bitwise 0 b

or_zero_left : (b : ℕ) → bit_or 0 b ≡ b
or_zero_left b = bit_or-bitwise 0 b

pub and_step : (a b : ℕ) → bit_and a b ≡ bit_and (a / 2) (b / 2) * 2 + min (a % 2) (b % 2)
and_step zero b = omega (arith, and_zero_left b, and_zero_left (b / 2))
and_step (suc a) b = omega (
  arith,
  bit_and-bitwise (suc a) b,
  bit_and-bitwise (suc a / 2) (b / 2),
  digits_enough (λ b. zero) min a (suc a / 2) (suc a / 2) (b / 2) (omega arith) (omega arith),
)

pub or_step : (a b : ℕ) → bit_or a b ≡ bit_or (a / 2) (b / 2) * 2 + max (a % 2) (b % 2)
or_step zero b = omega (arith, or_zero_left b, or_zero_left (b / 2))
or_step (suc a) b = omega (
  arith,
  bit_or-bitwise (suc a) b,
  bit_or-bitwise (suc a / 2) (b / 2),
  digits_enough (λ b. b) max a (suc a / 2) (suc a / 2) (b / 2) (omega arith) (omega arith),
)

and_zero_upto : (n a : ℕ) → a ≤ n → bit_and a 0 ≡ 0
and_zero_upto n zero h = and_zero_left 0
and_zero_upto zero (suc a) h = absurd (omega arith)
and_zero_upto (suc n) (suc a) h =
    omega (arith, and_step (suc a) 0, and_zero_upto n (suc a / 2) (omega arith))

pub and_zero : (a : ℕ) → bit_and a 0 ≡ 0
and_zero a = and_zero_upto a a (omega arith)

pub pow_pos : (k : ℕ) → 0 < 2 ^ k
pow_pos zero = omega arith
pow_pos (suc k) = omega (arith, pow-suc 2 k, pow_pos k)

half_ones : (k : ℕ) → ((2 ^ suc k - 1) / 2 ≡ 2 ^ k - 1) × ((2 ^ suc k - 1) % 2 ≡ 1)
half_ones k = omega (arith, pow-suc 2 k, pow_pos k)

half_shifted : (k m : ℕ) → (m * 2 ^ suc k / 2 ≡ m * 2 ^ k) × (m * 2 ^ suc k % 2 ≡ 0)
half_shifted k m =
    let e : m * 2 ^ suc k ≡ m * 2 ^ k * 2 = omega (arith, ap (λ (t : ℕ). m * t) (pow-suc 2 k)) in
    rw e (omega arith)

low_digit_of : (p a : ℕ) → 0 < p → a % (p * 2) ≡ a / 2 % p * 2 + min (a % 2) 1
low_digit_of p a h =
    let e : a ≡ a / 2 / p * (p * 2) + (a / 2 % p * 2 + min (a % 2) 1) =
      omega (arith, div-add-mod' (a / 2) p) in
    let m : (a / 2 / p * (p * 2) + (a / 2 % p * 2 + min (a % 2) 1)) % (p * 2)
        ≡ a / 2 % p * 2 + min (a % 2) 1 =
      mul-add-mod_self_right (a / 2 / p) (p * 2) _
      ∙ mod-eq_of_lt (omega (arith, mod-lt (a / 2) {m = p} h)) in
    ap (λ (t : ℕ). t % (p * 2)) e ∙ m

-- `a & (2 ** k - 1)`.
pub and_ones : (k a : ℕ) → bit_and a (2 ^ k - 1) ≡ a % 2 ^ k
and_ones zero a = omega (arith, and_zero a)
and_ones (suc k) a =
    rw
      (
        and_step a (2 ^ suc k - 1),
        (half_ones k).0,
        (half_ones k).1,
        and_ones k (a / 2),
        pow-suc 2 k,
      )
      (sym (low_digit_of (2 ^ k) a (pow_pos k)))

-- `x | m << k` where `x` has at most `k` bits.
pub or_high : (k x m : ℕ) → x < 2 ^ k → bit_or x (m * 2 ^ k) ≡ x + m * 2 ^ k
or_high zero zero m h = omega (arith, or_zero_left (m * 2 ^ 0))
or_high zero (suc x) m h = absurd (omega arith)
or_high (suc k) x m h = omega (
  arith,
  ap (λ (t : ℕ). m * t) (pow-suc 2 k),
  or_step x (m * 2 ^ suc k),
  ap (bit_or (x / 2)) (half_shifted k m).0,
  or_high k (x / 2) m (omega (arith, pow-suc 2 k)),
)
