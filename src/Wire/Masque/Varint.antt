-- ===== src/Wire/Masque/Varint.antt =====
-- The QUIC variable-length integers of masque.rs.
pub mod RoundTrip
mod Tests
use porta.Prelude.{
  ℕ, zero, suc, ◌+◌, ◌-◌, ◌*◌, ◌/◌, ◌%◌, ◌^◌, bit_and, bit_or, List, [], ◌∷◌, length, take, ltb,
  leb, if◌then◌else◌,
}
use porta.Prelude.Except.{Except, ok, err}
use porta.Wire.Bytes.{Bytes, be_bytes, from_be}
use porta.Wire.Stream.{Reader}
use porta.Wire.Stream.Fill.{ReadErrors, fill}
use porta.Wire.Masque.{
  IoError, unexpected_eof, failed, MasqueError, varint_too_large, truncated_varint, io,
}

abbrev pub max_quic_varint : ℕ
max_quic_varint = 2 ^ 62 - 1

unfoldable pub encode_varint : ℕ → Except MasqueError Bytes
encode_varint value =
    if leb value 63
    then ok (value % 256 ∷ [])
    else if leb value 16383
    then ok (be_bytes 2 (bit_or (value % 2 ^ 16) 0x4000))
    else if leb value 1073741823
    then ok (be_bytes 4 (bit_or (value % 2 ^ 32) 0x80000000))
    else if leb value max_quic_varint
    then ok (be_bytes 8 (bit_or value 0xc000000000000000))
    else err varint_too_large

-- `1_usize << (first >> 6)`.
abbrev pub varint_length : ℕ → ℕ
varint_length first = 2 ^ (first / 64)

unfoldable pub parse_varint : Bytes → Except MasqueError (ℕ × ℕ)
parse_varint [] = err truncated_varint
parse_varint (first ∷ rest) =
    let size = varint_length first in
    if ltb (suc (length rest)) size
    then err truncated_varint
    else ok (from_be (bit_and first 0x3f ∷ take (size - 1) rest), size)

-- `Read::read_exact`.
abbrev pub exact_errors : ReadErrors IoError
exact_errors = record { at_start = unexpected_eof; later = unexpected_eof; other = failed }

unfoldable pub read_exact : ℕ → Reader → Except IoError Bytes × Reader
unfolding fill
read_exact n s = fill exact_errors [] n s

abbrev pub after_rest : ℕ → Except IoError Bytes × Reader → Except MasqueError ℕ × Reader
after_rest first (ok rest, s) = (ok (from_be (bit_and first 0x3f ∷ rest)), s)
after_rest first (err e, s) = (err (io e), s)

abbrev pub after_first : Except IoError Bytes × Reader → Except MasqueError ℕ × Reader
after_first (ok [], s) = (err (io unexpected_eof), s)
after_first (ok (first ∷ _), s) = after_rest first (read_exact (varint_length first - 1) s)
after_first (err e, s) = (err (io e), s)

-- The first byte tells how many more there are. (`read_exact` of one byte never returns none.)
unfoldable pub read_varint : Reader → Except MasqueError ℕ × Reader
unfolding read_exact
read_varint s = after_first (read_exact 1 s)
