-- ===== src/Wire/Masque.antt =====
-- rust/porta-wire/src/masque.rs: MASQUE capsules, IP datagrams, and the MTU messages.
pub mod Varint
pub mod Capsule
pub mod MtuMessages
pub mod Routes
pub mod Addresses
use porta.Prelude.{ℕ}

-- What a `std::io::Error` tells: an early end of the stream, or some other failure.
pub data IoError : Type 0 where
  unexpected_eof write_zero : IoError
  failed : ℕ → IoError

-- What the text of `MalformedAddressDetail` tells.
pub data AddressDetail : Type 0 where
  request_id : AddressDetail
  not_masked : AddressDetail
  ip_version prefix_length : ℕ → AddressDetail

pub data MasqueError : Type 0 where
  capsule_too_large varint_too_large truncated_varint : MasqueError
  io : IoError → MasqueError
  read_capsule_length read_capsule_value : IoError → MasqueError
  unknown_context : ℕ → MasqueError
  empty_ip_datagram malformed_address : MasqueError
  empty_address_request zero_address_request_id : MasqueError
  decoded_empty_address_request decoded_zero_address_request_id : MasqueError
  malformed_address_detail : AddressDetail → MasqueError
  malformed_route_detail : ℕ → MasqueError
  malformed_route routes_not_ordered decoded_routes_not_ordered invalid_mtu_message : MasqueError
