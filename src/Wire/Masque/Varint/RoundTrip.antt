-- ===== src/Wire/Masque/Varint/RoundTrip.antt =====
-- Every integer below 2 ^ 62 is read back from its encoding, and larger ones are refused.
use porta.Prelude.Except.{ok, err}
use porta.Prelude.Bits.{and_ones, or_high}
use porta.Prelude.{
  ℕ, suc, ◌+◌, ◌-◌, ◌/◌, ◌%◌, ◌^◌, ◌≤◌, ◌<◌, ◌≡◌, refl, ap, ◌∙◌, ◌∷◌, ◌++◌, arith, length, take,
  leb, if◌then◌else◌,
}
use porta.Wire.Bytes.{Bytes, be_bytes, from_be, length-be_bytes}
use porta.Wire.Masque.{varint_too_large}
use porta.Wire.Masque.Varint.{encode_varint, parse_varint, max_quic_varint}
use porta.Prelude.{le→ltb}
use porta.Prelude.{Bool-cases}
use porta.Prelude.{inr}
use porta.Prelude.{tests}
use porta.Prelude.{inl}
use porta.Prelude.{leb→le}
use porta.Prelude.{subst}
use porta.Prelude.{sym}

-- How many bytes `encode_varint` takes.
abbrev pub varint_size : ℕ → ℕ
varint_size value =
    if leb value 63 then 1 else if leb value 16383 then 2 else if leb value 1073741823 then 4 else 8

-- The encoding of `value`: its big-endian bytes with the size in the two highest bits.
abbrev pub tagged : ℕ → ℕ
tagged value =
    if leb value 63
    then value
    else if leb value 16383
    then value + 0x4000
    else if leb value 1073741823
    then value + 0x80000000
    else value + 0xc000000000000000

encode_varint-tagged :
    (value : ℕ)
    → value ≤ max_quic_varint
    → encode_varint value ≡ ok (be_bytes (varint_size value) (tagged value))
unfolding encode_varint
encode_varint-tagged value h =
    ground (arith, or_high 14 (value % 2 ^ 16) 1, or_high 31 (value % 2 ^ 32) 1, or_high 62 value 3)

parse_varint-cons :
    (first k : ℕ) (rest : Bytes)
    → first / 64 ≡ k
    → 2 ^ k ≤ suc (length rest)
    → parse_varint (first ∷ rest) ≡ ok (from_be (first % 64 ∷ take (2 ^ k - 1) rest), 2 ^ k)
unfolding parse_varint
parse_varint-cons first k rest e h = rw (e, le→ltb (suc (length rest)) (2 ^ k) h, and_ones 6 first)

parse_two :
    (t v : ℕ) (rest : Bytes)
    → t ≡ v + 0x4000
    → v < 0x4000
    → parse_varint (be_bytes 2 t ++ rest) ≡ ok (v, 2)
parse_two t v rest e h =
    parse_varint-cons (t / 256 % 256) 1 (t % 256 ∷ rest) (omega arith) (omega arith)
    ∙ ap (λ (w : ℕ). ok (w, 2)) (omega arith)

parse_four :
    (t v : ℕ) (rest : Bytes)
    → t ≡ v + 0x80000000
    → v < 0x40000000
    → parse_varint (be_bytes 4 t ++ rest) ≡ ok (v, 4)
parse_four t v rest e h =
    parse_varint-cons (t / 256 / 256 / 256 % 256) 2 _ (omega arith) (omega arith)
    ∙ ap (λ (w : ℕ). ok (w, 4)) (omega arith)

parse_eight :
    (t v : ℕ) (rest : Bytes)
    → t ≡ v + 0xc000000000000000
    → v < 2 ^ 62
    → parse_varint (be_bytes 8 t ++ rest) ≡ ok (v, 8)
parse_eight t v rest e h =
    parse_varint-cons (t / 256 / 256 / 256 / 256 / 256 / 256 / 256 % 256) 3 _ (omega arith)
      (omega arith)
    ∙ ap (λ (w : ℕ). ok (w, 8)) (omega arith)

parse_one : (v : ℕ) (rest : Bytes) → v < 64 → parse_varint (be_bytes 1 v ++ rest) ≡ ok (v, 1)
parse_one v rest h =
    parse_varint-cons (v % 256) 0 rest (omega arith) (omega arith)
    ∙ ap (λ (w : ℕ). ok (w, 1)) (omega arith)

-- Whatever follows it, the encoding of an integer below 2 ^ 62 parses to that integer, and to its
-- length, which is 1, 2, 4 or 8. From 2 ^ 62 on `encode_varint` refuses.
pub parse_varint-encode_varint :
    (value : ℕ)
    → (value ≤ max_quic_varint
        → (bytes : Bytes) × (encode_varint value ≡ ok bytes)
          × (length bytes ≡ varint_size value)
          × ((rest : Bytes) → parse_varint (bytes ++ rest) ≡ ok (value, varint_size value)))
      × (max_quic_varint < value → encode_varint value ≡ err varint_too_large)
unfolding encode_varint
parse_varint-encode_varint value = (accepted, λ h. ground arith)
  where
    parsed :
        (rest : Bytes)
        → value ≤ max_quic_varint
        → parse_varint (be_bytes (varint_size value) (tagged value) ++ rest)
          ≡ ok (value, varint_size value)
    parsed rest h = ground (
      arith,
      parse_one value rest,
      parse_two (value + 0x4000) value rest refl,
      parse_four (value + 0x80000000) value rest refl,
      parse_eight (value + 0xc000000000000000) value rest refl,
    )

    accepted :
        value ≤ max_quic_varint
        → (bytes : Bytes) × (encode_varint value ≡ ok bytes)
          × (length bytes ≡ varint_size value)
          × ((rest : Bytes) → parse_varint (bytes ++ rest) ≡ ok (value, varint_size value))
    accepted h = (
      be_bytes (varint_size value) (tagged value),
      encode_varint-tagged value h,
      length-be_bytes (varint_size value) (tagged value),
      λ rest. parsed rest h,
    )

-- What was encoded parses to its integer and to its length, and is not empty.
pub parse_varint-append :
    (value : ℕ) (bytes rest : Bytes)
    → encode_varint value ≡ ok bytes
    → (parse_varint (bytes ++ rest) ≡ ok (value, length bytes)) × (0 < length bytes)
parse_varint-append value bytes rest h = elim (Bool-cases (leb value max_quic_varint)) [
  | inr f ↦ absurd (cc (h, (parse_varint-encode_varint value).1 (omega tests)))
  | inl t ↦
      let (b, e, size, parses) = (parse_varint-encode_varint value).0 (leb→le _ _ t) in
      let same : b ≡ bytes = cc (e, h) in
      subst (λ x. (parse_varint (x ++ rest) ≡ ok (value, length x)) × (0 < length x)) same
        (parses rest ∙ ap (λ (n : ℕ). ok (value, n)) (sym size), ground (arith, size))
]
