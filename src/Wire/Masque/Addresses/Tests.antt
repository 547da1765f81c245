-- ===== src/Wire/Masque/Addresses/Tests.antt =====
-- An address request of masque.rs, over prefixes whose host bits are not masked.
use porta.Prelude.{ℕ, some, List, [], ◌∷◌, refl, ◌≡◌, arith}
use porta.Prelude.Except.{ok}
use porta.Wire.Bytes.{Bytes}
use porta.Wire.Masque.Varint.{encode_varint}
use porta.Wire.Masque.Addresses.{
  encode_addresses, NetFamily, Address, v4, encode_address_request, decode_address_request,
  encode_address_assign, decode_address_assign,
}
use porta.Wire.Masque.Addresses.RoundTrip.{decode_address-encode_address}

-- Prefixes of any length, taken for networks as they are.
abbrev plain : NetFamily
plain = record {
  Net = Bytes × ℕ;
  new = λ bytes n. some (bytes, n);
  addr = λ p. p.0;
  network = λ p. p.0;
  prefix_len = λ p. p.1;
}

abbrev one_address : List (Address plain plain)
one_address = record { request_id = 1; prefix = v4 (10 ∷ 0 ∷ 0 ∷ 2 ∷ [], 32) } ∷ []

abbrev encoded : Bytes
encoded = 1 ∷ 4 ∷ 10 ∷ 0 ∷ 0 ∷ 2 ∷ 32 ∷ []

decode_address-encode_address_example :
    (encode_address_request plain plain one_address ≡ ok encoded
      → decode_address_request plain plain encoded ≡ ok one_address)
    × (encode_address_assign plain plain one_address ≡ ok encoded
        → decode_address_assign plain plain encoded ≡ ok one_address)
decode_address-encode_address_example =
    decode_address-encode_address plain plain one_address encoded
      (record { rebuilt = refl; sized = refl; short = omega arith }, tt)

encoded_lem : encode_address_request plain plain one_address ≡ ok encoded
unfolding encode_address_request encode_addresses encode_varint
encoded_lem = refl
