-- ===== src/Wire/Ip/Checksum.antt =====
-- The Internet checksum of ip.rs: a header with its checksum set sums to zero.
use porta.Prelude.{
  ℕ, zero, suc, ◌+◌, ◌-◌, ◌*◌, ◌/◌, ◌%◌, ◌≤◌, ◌<◌, bit_and, ◌≡◌, refl, ap, ◌∙◌, [], ◌∷◌, arith,
  length, take, set,
}
use porta.Prelude.Bits.{and_ones}
use porta.Prelude.Except.{ok, err}
use porta.Wire.Bytes.{Bytes}
use porta.Wire.Ip.{
  Ipv4Error, byte_at, ipv4_header_length, sum_words, fold_carry, internet_checksum,
  ipv4_header_checksum, set_u16, set_ipv4_header_checksum,
}
use porta.Prelude.{◌≢◌}
use porta.Prelude.{sym}
use porta.Prelude.{length-set}
use porta.Prelude.{length-take}

-- The loop ends with 16 bits, does not exceed the sum, keeps it modulo 65535, and makes zero of zero only.
pub fold_carry_lem :
    (fuel sum : ℕ)
    → sum ≤ fuel
    → (fold_carry fuel sum < 65536)
      × (fold_carry fuel sum ≤ sum)
      × (fold_carry fuel sum % 65535 ≡ sum % 65535)
      × (fold_carry fuel sum ≡ 0 → sum ≡ 0)
unfolding fold_carry
fold_carry_lem zero sum h = (omega arith, omega arith, refl, λ e. e)
fold_carry_lem (suc fuel) sum h =
    let next = bit_and sum 65535 + sum / 65536 in
    ground (arith, and_ones 16 sum, fold_carry_lem fuel next)

sum_words-acc : (sum : ℕ) (bytes : Bytes) → sum_words sum bytes ≡ sum + sum_words 0 bytes
unfolding sum_words
sum_words-acc sum [] = omega arith
sum_words-acc sum (last ∷ []) = omega arith
sum_words-acc sum (high ∷ low ∷ rest) = omega (
  arith,
  sum_words-acc (sum + (high * 256 + low)) rest,
  sum_words-acc (0 + (high * 256 + low)) rest,
)

abbrev double : ℕ → ℕ
double zero = 0
double (suc k) = suc (suc (double k))

abbrev with_word : Bytes → ℕ → ℕ → ℕ → Bytes
with_word bytes k high low = set (set bytes (double k) high) (suc (double k)) low

sum_words-with_word :
    (k sum high low : ℕ) (bytes : Bytes)
    → double k + 2 ≤ length bytes
    → sum_words sum (with_word bytes k high low)
      ≡ sum_words sum (with_word bytes k 0 0) + (high * 256 + low)
unfolding sum_words
sum_words-with_word k sum high low [] h = absurd (omega arith)
sum_words-with_word k sum high low (x ∷ []) h = absurd (omega arith)
sum_words-with_word zero sum high low (x ∷ y ∷ rest) h =
    omega (
      arith,
      sum_words-acc (sum + (high * 256 + low)) rest,
      sum_words-acc (sum + (0 * 256 + 0)) rest,
    )
sum_words-with_word (suc k) sum high low (x ∷ y ∷ rest) h =
    sum_words-with_word k (sum + (x * 256 + y)) high low rest (omega arith)

take-set : (n i v : ℕ) (bytes : Bytes) → take n (set bytes i v) ≡ set (take n bytes) i v
take-set zero i v bytes = refl
take-set (suc n) i v [] = refl
take-set (suc n) zero v (x ∷ bytes) = refl
take-set (suc n) (suc i) v (x ∷ bytes) = ap (◌∷◌ x) (take-set n i v bytes)

set_twice : (i v w : ℕ) (bytes : Bytes) → set (set bytes i v) i w ≡ set bytes i w
set_twice i v w [] = refl
set_twice zero v w (x ∷ bytes) = refl
set_twice (suc i) v w (x ∷ bytes) = ap (◌∷◌ x) (set_twice i v w bytes)

set_swap :
    (i v w : ℕ) (bytes : Bytes) → set (set bytes (suc i) v) i w ≡ set (set bytes i w) (suc i) v
set_swap i v w [] = refl
set_swap zero v w (x ∷ bytes) = refl
set_swap (suc i) v w (x ∷ bytes) = ap (◌∷◌ x) (set_swap i v w bytes)

-- What the bytes sum to with the checksum of the rest in place.
complement_sums :
    (sum : ℕ)
    → let c = 65535 - fold_carry sum sum % 65536 in
      (c < 65536) × (65535 - fold_carry (sum + c) (sum + c) % 65536 ≡ 0)
complement_sums sum =
    let f = fold_carry_lem sum sum (omega arith) in
    let c = 65535 - fold_carry sum sum % 65536 in
    let g = fold_carry_lem (sum + c) (sum + c) (omega arith) in ground (arith, f, g)

-- With a word set to the checksum that the bytes have without it, the checksum is zero.
pub internet_checksum-with_word :
    (k : ℕ) (bytes : Bytes)
    → double k + 2 ≤ length bytes
    → let c = internet_checksum (with_word bytes k 0 0) in
      internet_checksum (with_word bytes k (c / 256 % 256) (c % 256)) ≡ 0
unfolding internet_checksum
internet_checksum-with_word k bytes h =
    let sum = sum_words 0 (with_word bytes k 0 0) in
    let c = 65535 - fold_carry sum sum % 65536 in
    let d = complement_sums sum in
    let total : sum_words 0 (with_word bytes k (c / 256 % 256) (c % 256)) ≡ sum + c =
      omega (arith, d.0, sum_words-with_word k 0 (c / 256 % 256) (c % 256) bytes h) in
    ap (λ (t : ℕ). 65535 - fold_carry t t % 65536) total ∙ d.1

ipv4_header_length_bounds :
    (packet : Bytes) (n : ℕ) → ipv4_header_length packet ≡ ok n → (20 ≤ n) × (n ≤ length packet)
unfolding ipv4_header_length
ipv4_header_length_bounds packet n h = ground arith

byte_at-set_ne : (bytes : Bytes) (i j v : ℕ) → i ≢ j → byte_at (set bytes i v) j ≡ byte_at bytes j
byte_at-set_ne [] i j v h = refl
byte_at-set_ne (x ∷ bytes) zero zero v h = absurd (h refl)
byte_at-set_ne (x ∷ bytes) zero (suc j) v h = refl
byte_at-set_ne (x ∷ bytes) (suc i) zero v h = refl
byte_at-set_ne (x ∷ bytes) (suc i) (suc j) v h = byte_at-set_ne bytes i j v (λ e. h (ap suc e))

-- The header length is read off the length and the first byte alone.
ipv4_header_length_same :
    (p q : Bytes)
    → length p ≡ length q
    → byte_at p 0 ≡ byte_at q 0
    → ipv4_header_length p ≡ ipv4_header_length q
unfolding ipv4_header_length
ipv4_header_length_same p q e f = ground arith

overwrite :
    (bytes : Bytes) (i a b : ℕ)
    → set (set (set (set bytes i 0) (suc i) 0) i a) (suc i) b ≡ set (set bytes i a) (suc i) b
overwrite bytes i a b =
    ap (λ (t : Bytes). set t (suc i) b)
      (set_swap i 0 a (set bytes i 0) ∙ ap (λ (t : Bytes). set t (suc i) 0) (set_twice i 0 a bytes))
    ∙ set_twice (suc i) 0 b (set bytes i a)

take-with_word :
    (n k a b : ℕ) (bytes : Bytes) → take n (with_word bytes k a b) ≡ with_word (take n bytes) k a b
take-with_word n k a b bytes =
    take-set n (suc (double k)) b (set bytes (double k) a)
    ∙ ap (λ (t : Bytes). set t (suc (double k)) b) (take-set n (double k) a bytes)

-- `take n` of a packet with its checksum set, the field cleared first as the code does.
sealed_verifies :
    (packet : Bytes) (n : ℕ)
    → 20 ≤ n
    → n ≤ length packet
    → let cleared = set (set packet 10 0) 11 0 in
      internet_checksum (take n (set_u16 cleared 10 (internet_checksum (take n cleared)))) ≡ 0
sealed_verifies packet n low high =
    let head = take n packet in
    let c = internet_checksum (take n (set (set packet 10 0) 11 0)) in
    let c' : c ≡ internet_checksum (with_word head 5 0 0) =
      ap internet_checksum (take-with_word n 5 0 0 packet) in
    let whole : take n (set_u16 (set (set packet 10 0) 11 0) 10 c)
        ≡ with_word head 5 (c / 256 % 256) (c % 256) =
      ap (take n) (overwrite packet 10 (c / 256 % 256) (c % 256))
      ∙ take-with_word n 5 (c / 256 % 256) (c % 256) packet in
    ap internet_checksum whole
    ∙ ap (λ (t : ℕ). internet_checksum (with_word head 5 (t / 256 % 256) (t % 256))) c'
    ∙ internet_checksum-with_word 5 head (omega (arith, length-take n packet))

-- A packet whose header is accepted gets the checksum that makes the header verify; nothing but
-- bytes 10 and 11 changes. Any other packet is refused with the error of the header test.
pub set_ipv4_header_checksum_verifies :
    (packet : Bytes)
    → ((n : ℕ)
        → ipv4_header_length packet ≡ ok n
        → (q : Bytes) × (set_ipv4_header_checksum packet ≡ ok q)
          × (ipv4_header_checksum q ≡ ok 0)
          × (length q ≡ length packet)
          × ((i : ℕ) → i ≢ 10 → i ≢ 11 → byte_at q i ≡ byte_at packet i))
      × ((e : Ipv4Error)
          → ipv4_header_length packet ≡ err e
          → set_ipv4_header_checksum packet ≡ err e)
unfolding set_ipv4_header_checksum ipv4_header_checksum
set_ipv4_header_checksum_verifies packet = (accepted, λ e h. rw h)
  where
    cleared : Bytes
    cleared = set (set packet 10 0) 11 0

    sealed_with : ℕ → Bytes
    sealed_with c = set_u16 cleared 10 c

    untouched : (c i : ℕ) → i ≢ 10 → i ≢ 11 → byte_at (sealed_with c) i ≡ byte_at packet i
    untouched c i h k =
        byte_at-set_ne (set cleared 10 (c / 256 % 256)) 11 i (c % 256) (λ e. k (sym e))
        ∙ byte_at-set_ne cleared 10 i (c / 256 % 256) (λ e. h (sym e))
        ∙ byte_at-set_ne (set packet 10 0) 11 i 0 (λ e. k (sym e))
        ∙ byte_at-set_ne packet 10 i 0 (λ e. h (sym e))

    same_length : (c : ℕ) → length (sealed_with c) ≡ length packet
    same_length c =
        length-set (set cleared 10 (c / 256 % 256)) 11 (c % 256)
        ∙ length-set cleared 10 (c / 256 % 256)
        ∙ length-set (set packet 10 0) 11 0
        ∙ length-set packet 10 0

    accepted :
        (n : ℕ)
        → ipv4_header_length packet ≡ ok n
        → (q : Bytes) × (set_ipv4_header_checksum packet ≡ ok q)
          × (ipv4_header_checksum q ≡ ok 0)
          × (length q ≡ length packet)
          × ((i : ℕ) → i ≢ 10 → i ≢ 11 → byte_at q i ≡ byte_at packet i)
    accepted n h =
        let c = internet_checksum (take n cleared) in
        let b = ipv4_header_length_bounds packet n h in
        let same : ipv4_header_length (sealed_with c) ≡ ok n =
          ipv4_header_length_same (sealed_with c) packet (same_length c)
            (untouched c 0 (omega arith) (omega arith))
          ∙ h in
        (
          sealed_with c,
          rw h,
          rw (same, sealed_verifies packet n b.0 b.1),
          same_length c,
          untouched c,
        )
