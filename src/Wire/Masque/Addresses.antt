-- ===== src/Wire/Masque/Addresses.antt =====
-- The ADDRESS_REQUEST and ADDRESS_ASSIGN capsules of masque.rs. The prefixes are those of the `ipnet`
-- crate: a family of them is a parameter, `Ipv4Net` and `Ipv6Net`.
pub mod RoundTrip
mod Tests
use porta.Prelude.{
  ℕ, zero, suc, Bool, true, false, not, ◌||◌, Option, none, some, List, [], ◌∷◌, ◌++◌, length, take,
  drop, get_or, ◌==◌, ltb, if◌then◌else◌,
}
use porta.Prelude.Except.{Except, ok, err, ◌>>=◌}
use porta.Prelude.Map.{nat_eq, list_beq}
use porta.Wire.Bytes.{Bytes}
use porta.Wire.Masque.{
  MasqueError, AddressDetail, request_id, not_masked, ip_version, prefix_length, malformed_address,
  malformed_address_detail, empty_address_request, zero_address_request_id,
  decoded_empty_address_request, decoded_zero_address_request_id,
}
use porta.Wire.Masque.Varint.{encode_varint, parse_varint}

-- `new` is `none` where the crate returns its error; addresses are their octets.
pub record NetFamily : Type 1 where
  pub Net : Type 0
  pub new : Bytes → ℕ → Option Net
  pub addr : Net → Bytes
  pub network : Net → Bytes
  pub prefix_len : Net → ℕ

pub data IpNet (V4 V6 : NetFamily) : Type 0 where
  v4 : V4.Net → IpNet V4 V6
  v6 : V6.Net → IpNet V4 V6

pub record Address (V4 V6 : NetFamily) : Type 0 where
  pub request_id : ℕ
  pub prefix : IpNet V4 V6

module _ (V4 V6 : NetFamily) where
  abbrev pub net_bytes : (V : NetFamily) → ℕ → V.Net → Except MasqueError Bytes
  net_bytes V version p =
      if not (list_beq (V.addr p) (V.network p))
      then err (malformed_address_detail not_masked)
      else ok (version ∷ (V.addr p ++ V.prefix_len p ∷ []))

  abbrev pub prefix_bytes : IpNet V4 V6 → Except MasqueError Bytes
  prefix_bytes (v4 p) = net_bytes V4 4 p
  prefix_bytes (v6 p) = net_bytes V6 6 p

  pub encode_addresses : List (Address V4 V6) → Except MasqueError Bytes
  encode_addresses [] = ok []
  encode_addresses (a ∷ rest) = do
    id ← encode_varint a.request_id
    prefix ← prefix_bytes a.prefix
    tail ← encode_addresses rest
    ok (id ++ (prefix ++ tail))

  abbrev pub any_zero : List (Address V4 V6) → Bool
  any_zero [] = false
  any_zero (a ∷ rest) = a.request_id == 0 || any_zero rest

  abbrev pub is_empty : List (Address V4 V6) → Bool
  is_empty [] = true
  is_empty (_ ∷ _) = false

  pub encode_address_request : List (Address V4 V6) → Except MasqueError Bytes
  encode_address_request addresses =
      if is_empty addresses
      then err empty_address_request
      else if any_zero addresses
      then err zero_address_request_id
      else encode_addresses addresses

  pub encode_address_assign : List (Address V4 V6) → Except MasqueError Bytes
  encode_address_assign addresses = encode_addresses addresses

  abbrev pub masked : (V : NetFamily) → Option V.Net → Except MasqueError V.Net
  masked V none = err malformed_address
  masked V (some p) =
      if not (list_beq (V.addr p) (V.network p))
      then err (malformed_address_detail not_masked)
      else ok p

  -- The address and the prefix length at the head of `value`.
  abbrev pub decode_net : (V : NetFamily) → ℕ → ℕ → Bytes → Except MasqueError V.Net
  decode_net V octets bits value =
      let prefix_bits = get_or value octets 0 in
      if ltb (length value) (suc octets)
      then err malformed_address
      else if ltb bits prefix_bits
      then err (malformed_address_detail (prefix_length prefix_bits))
      else masked V (V.new (take octets value) prefix_bits)

  abbrev pub decode_prefix : ℕ → Bytes → Except MasqueError (IpNet V4 V6 × Bytes)
  decode_prefix version value =
      if version == 4
      then (decode_net V4 4 32 value >>= λ p. ok (v4 p, drop 5 value))
      else if version == 6
      then (decode_net V6 16 128 value >>= λ p. ok (v6 p, drop 17 value))
      else err (malformed_address_detail (ip_version version))

  abbrev pub split_first : Bytes → Except MasqueError (ℕ × Bytes)
  split_first [] = err malformed_address
  split_first (version ∷ rest) = ok (version, rest)

  abbrev pub id_error : Except MasqueError (ℕ × ℕ) → Except MasqueError (ℕ × ℕ)
  id_error (ok r) = ok r
  id_error (err e) = err (malformed_address_detail request_id)

  -- `while !value.is_empty()`: each round takes a byte at least, so the length is fuel enough.
  pub decode_addresses : ℕ → Bytes → Except MasqueError (List (Address V4 V6))
  decode_addresses fuel [] = ok []
  decode_addresses zero (first ∷ value) = ok []
  decode_addresses (suc fuel) (first ∷ value) = do
    (id, consumed) ← id_error (parse_varint (first ∷ value))
    (version, rest) ← split_first (drop consumed (first ∷ value))
    (prefix, left) ← decode_prefix version rest
    addresses ← decode_addresses fuel left
    ok (record { request_id = id; prefix = prefix } ∷ addresses)

  pub decode_address_assign : Bytes → Except MasqueError (List (Address V4 V6))
  unfolding decode_addresses
  decode_address_assign value = decode_addresses (length value) value

  abbrev pub requested : List (Address V4 V6) → Except MasqueError (List (Address V4 V6))
  requested addresses =
      if is_empty addresses
      then err decoded_empty_address_request
      else if any_zero addresses
      then err decoded_zero_address_request_id
      else ok addresses

  pub decode_address_request : Bytes → Except MasqueError (List (Address V4 V6))
  unfolding decode_addresses
  decode_address_request value = decode_addresses (length value) value >>= requested
