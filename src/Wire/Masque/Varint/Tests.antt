-- ===== src/Wire/Masque/Varint/Tests.antt =====
-- The integers of RFC 9000, appendix A.1.
use porta.Prelude.Except.{ok, err}
use porta.Prelude.{◌≡◌, refl, [], ◌∷◌, ◌^◌}
use porta.Wire.Masque.{varint_too_large}
use porta.Wire.Masque.Varint.{encode_varint, parse_varint}
use porta.Prelude.{◌++◌, length, arith}
use porta.Wire.Bytes.{Bytes}
use porta.Wire.Masque.Varint.RoundTrip.{parse_varint-encode_varint}

eight_bytes :
    encode_varint 151288809941952652
    ≡ ok (0xc2 ∷ 0x19 ∷ 0x7c ∷ 0x5e ∷ 0xff ∷ 0x14 ∷ 0xe8 ∷ 0x8c ∷ [])
unfolding encode_varint
eight_bytes = refl

two_bytes : parse_varint (0x7b ∷ 0xbd ∷ 9 ∷ []) ≡ ok (15293, 2)
unfolding parse_varint
two_bytes = refl

too_large : encode_varint (2 ^ 62) ≡ err varint_too_large
unfolding encode_varint
too_large = refl

parse_varint-encode_varint_example :
    (bytes : Bytes) × (encode_varint 15293 ≡ ok bytes)
    × (length bytes ≡ 2)
    × ((rest : Bytes) → parse_varint (bytes ++ rest) ≡ ok (15293, 2))
parse_varint-encode_varint_example = (parse_varint-encode_varint 15293).0 (omega arith)
