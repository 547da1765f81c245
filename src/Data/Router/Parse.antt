-- ===== src/Data/Router/Parse.antt =====
-- The router's own parser of IPv4 headers against that of rust/porta-wire/src/ip.rs.
use porta.Prelude.{
  ℕ, ◌≡◌, refl, ◌*◌, ◌/◌, Bool, true, false, not, ◌||◌, length, bit_and, ◌==◌, ltb, if◌then◌else◌,
}
use porta.Prelude.Except.{Except, ok, err}
use porta.Wire.Bytes.{Bytes, from_be}
use porta.Wire.Ip
use porta.Wire.Ip.{Ipv4Info, Ipv4Error, invalid_length, byte_at, u16_at, slice}
use porta.Data.Router.{
  RouterError, invalid_packet, short_header, not_ipv4, invalid_header_length, total_length_mismatch,
  parse_ipv4,
}

-- The same addresses, or errors that tell the same.
pub data Agrees : Except RouterError (Bytes × Bytes) → Except Ipv4Error Ipv4Info → Type 0 where
  same_addresses :
      (source destination : Bytes) (info : Ipv4Info)
      → from_be source ≡ info.source
      → from_be destination ≡ info.destination
      → Agrees (ok (source, destination)) (ok info)
  both_short : Agrees (err (invalid_packet short_header)) (err Ip.short_header)
  both_other : Agrees (err (invalid_packet not_ipv4)) (err Ip.not_ipv4)
  both_header : Agrees (err (invalid_packet invalid_header_length)) (err Ip.short_header)
  both_length :
      (declared actual : ℕ)
      → Agrees (err (invalid_packet total_length_mismatch)) (err (invalid_length declared actual))

-- A property of two conditionals on one test.
both_cases :
    {A B : Type 0} (P : A → B → Type 0) (b : Bool) (x y : A) (u v : B)
    → P x u
    → P y v
    → P (if b then x else y) (if b then u else v)
both_cases P true x y u v h k = h
both_cases P false x y u v h k = k

-- The router accepts the packets that the parser of ip.rs accepts, with the same addresses, and refuses the
-- others for the same reason.
pub parse_ipv4-Agrees : (packet : Bytes) → Agrees (parse_ipv4 packet) (Ip.parse_ipv4 packet)
unfolding parse_ipv4 Ip.parse_ipv4
parse_ipv4-Agrees packet = both_cases Agrees (ltb (length packet) 20) _ _ _ _ both_short (
    both_cases Agrees (not (byte_at packet 0 / 16 == 4)) _ _ _ _ both_other (
      both_cases Agrees
        (ltb (bit_and (byte_at packet 0) 0x0f * 4) 20
          || ltb (length packet) (bit_and (byte_at packet 0) 0x0f * 4))
        _ _ _ _ both_header
        (both_cases Agrees
          (ltb (u16_at packet 2) (bit_and (byte_at packet 0) 0x0f * 4)
            || not (u16_at packet 2 == length packet))
          _ _ _ _ (both_length (u16_at packet 2) (length packet))
          (same_addresses (slice packet 12 4) (slice packet 16 4) _ refl refl))))
