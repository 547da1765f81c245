-- ===== src/Wire/Ip.antt =====
-- rust/porta-wire/src/ip.rs: IPv4 validation and the header checksum. `Ipv4Addr` is its number.
pub mod Classify
pub mod Checksum
pub mod Addresses
mod Tests
use porta.Prelude.{
  ℕ, zero, suc, ◌+◌, ◌-◌, ◌*◌, ◌/◌, ◌%◌, bit_and, Bool, true, false, not, ◌||◌, List, [], ◌∷◌,
  length, take, drop, get_or, set, ◌==◌, ltb, if◌then◌else◌,
}
use porta.Prelude.Except.{Except, ok, err, ◌>>=◌}
use porta.Wire.Bytes.{Bytes, be_bytes, from_be}

-- `packet[i]`. Each use stands behind a test of the length, so the default is never read.
abbrev pub byte_at : Bytes → ℕ → ℕ
byte_at packet i = get_or packet i 0

abbrev pub u16_at : Bytes → ℕ → ℕ
u16_at packet i = from_be (byte_at packet i ∷ byte_at packet (suc i) ∷ [])

-- `packet[from..from + n]`.
abbrev pub slice : Bytes → ℕ → ℕ → Bytes
slice packet from n = take n (drop from packet)

pub record Ipv4Info : Type 0 where
  pub source : ℕ
  pub destination : ℕ
  pub total_length : ℕ
  pub header_length : ℕ

pub data Ipv4Error : Type 0 where
  not_ipv4 short_header : Ipv4Error
  invalid_length : ℕ → ℕ → Ipv4Error

abbrev pub header_length_field : Bytes → ℕ
header_length_field packet = bit_and (byte_at packet 0) 0x0f * 4

unfoldable pub parse_ipv4 : Bytes → Except Ipv4Error Ipv4Info
parse_ipv4 packet =
    if ltb (length packet) 20
    then err short_header
    else if not (byte_at packet 0 / 16 == 4)
    then err not_ipv4
    else (let header_length = header_length_field packet in
        let total_length = u16_at packet 2 in
        if ltb header_length 20 || ltb (length packet) header_length
        then err short_header
        else if ltb total_length header_length || not (total_length == length packet)
        then err (invalid_length total_length (length packet))
        else ok (record {
          source = from_be (slice packet 12 4);
          destination = from_be (slice packet 16 4);
          total_length = total_length;
          header_length = header_length;
        }))

pub ipv4_header_length : Bytes → Except Ipv4Error ℕ
ipv4_header_length packet =
    if ltb (length packet) 20
    then err short_header
    else if not (byte_at packet 0 / 16 == 4)
    then err not_ipv4
    else (let header_length = header_length_field packet in
        if ltb header_length 20 || ltb (length packet) header_length
        then err short_header
        else ok header_length)

-- The sum of the 16-bit words; an odd byte at the end is the high half of a word. The source adds up
-- in 64 bits, which data of fewer than 2 ^ 48 words cannot overflow.
pub sum_words : ℕ → Bytes → ℕ
sum_words sum [] = sum
sum_words sum (last ∷ []) = sum + last * 256
sum_words sum (high ∷ low ∷ rest) = sum_words (sum + (high * 256 + low)) rest

-- `while sum >> 16 != 0`; each round makes the sum smaller, so `sum` rounds are enough.
pub fold_carry : ℕ → ℕ → ℕ
fold_carry zero sum = sum
fold_carry (suc fuel) sum =
    let rest = fold_carry fuel (bit_and sum 0xffff + sum / 65536) in
    if sum / 65536 == 0 then sum else rest

pub internet_checksum : Bytes → ℕ
unfolding sum_words fold_carry
internet_checksum bytes = let sum = sum_words 0 bytes in 65535 - fold_carry sum sum % 65536

pub ipv4_header_checksum : Bytes → Except Ipv4Error ℕ
unfolding ipv4_header_length internet_checksum
ipv4_header_checksum packet = do
  header_length ← ipv4_header_length packet
  ok (internet_checksum (take header_length packet))

-- `packet[i..i + 2].copy_from_slice(&value.to_be_bytes())`.
abbrev pub set_u16 : Bytes → ℕ → ℕ → Bytes
set_u16 packet i value = set (set packet i (value / 256 % 256)) (suc i) (value % 256)

pub set_ipv4_header_checksum : Bytes → Except Ipv4Error Bytes
unfolding ipv4_header_length internet_checksum
set_ipv4_header_checksum packet = do
  header_length ← ipv4_header_length packet
  let cleared = set (set packet 10 0) 11 0
  ok (set_u16 cleared 10 (internet_checksum (take header_length cleared)))
