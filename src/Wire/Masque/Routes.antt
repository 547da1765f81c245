-- ===== src/Wire/Masque/Routes.antt =====
-- The ROUTE_ADVERTISEMENT capsules of masque.rs. Addresses are the numbers of their octets.
pub mod RoundTrip
pub mod Order
mod Tests
use Prim.Native.Nat.{compare, Ordering}
use porta.Prelude.{
  ℕ, zero, suc, ◌+◌, ◌*◌, Bool, true, false, not, ◌||◌, Option, none, some, List, [], ◌∷◌, ◌++◌,
  length, take, drop, get_or, ◌==◌, ltb, if◌then◌else◌,
}
use porta.Prelude.Except.{Except, ok, err, ◌>>=◌}
use porta.Wire.Bytes.{Bytes, be_bytes, from_be}
use porta.Wire.Masque.{
  MasqueError, malformed_route, malformed_route_detail, routes_not_ordered,
  decoded_routes_not_ordered,
}

pub data IpAddr : Type 0 where
  v4 v6 : ℕ → IpAddr

pub record Route : Type 0 where
  pub start : IpAddr
  pub end : IpAddr
  pub protocol : ℕ

pub same_address_family : IpAddr → IpAddr → Bool
same_address_family (v4 a) (v4 b) = true
same_address_family (v6 a) (v6 b) = true
same_address_family (v4 a) (v6 b) = false
same_address_family (v6 a) (v4 b) = false

-- The derived order: every IPv4 address is below every IPv6 address.
abbrev pub addr_ltb : IpAddr → IpAddr → Bool
addr_ltb (v4 a) (v4 b) = ltb a b
addr_ltb (v6 a) (v6 b) = ltb a b
addr_ltb (v4 a) (v6 b) = true
addr_ltb (v6 a) (v4 b) = false

abbrev pub compare_in_family : Route → Route → Ordering
compare_in_family first second = elim (compare first.protocol second.protocol) [
  | Ordering.lt ↦ Ordering.lt
  | Ordering.gt ↦ Ordering.gt
  | Ordering.eq ↦ if addr_ltb first.end second.start then Ordering.lt else Ordering.gt
]

abbrev pub compare_starts : IpAddr → IpAddr → Ordering → Ordering
compare_starts (v4 a) (v6 b) o = Ordering.lt
compare_starts (v6 a) (v4 b) o = Ordering.gt
compare_starts (v4 a) (v4 b) o = o
compare_starts (v6 a) (v6 b) o = o

pub compare_routes : Route → Route → Ordering
compare_routes first second =
    compare_starts first.start second.start (compare_in_family first second)

abbrev pub is_less : Ordering → Bool
is_less Ordering.lt = true
is_less Ordering.eq = false
is_less Ordering.gt = false

-- `compare_routes(previous, route) == Less`, for the route before if there is one.
abbrev pub follows : Option Route → Route → Bool
follows none route = true
follows (some previous) route = is_less (compare_routes previous route)

abbrev pub octets : IpAddr → Bytes
octets (v4 a) = be_bytes 4 a
octets (v6 a) = be_bytes 16 a

abbrev pub version_of : IpAddr → ℕ
version_of (v4 a) = 4
version_of (v6 a) = 6

abbrev pub route_bytes : Route → Bytes
route_bytes route =
    version_of route.start ∷ (octets route.start ++ (octets route.end ++ route.protocol ∷ []))

-- The loop over the routes, with the route before. Once the families agree, one `match` arm is left.
pub encode_routes : Option Route → List Route → Except MasqueError Bytes
unfolding same_address_family compare_routes
encode_routes previous [] = ok []
encode_routes previous (route ∷ rest) =
    let tail = encode_routes (some route) rest in
    if not (same_address_family route.start route.end) || addr_ltb route.end route.start
    then err malformed_route
    else if not (follows previous route)
    then err routes_not_ordered
    else tail >>= λ bytes. ok (route_bytes route ++ bytes)

pub encode_route_advertisement : List Route → Except MasqueError Bytes
unfolding encode_routes
encode_route_advertisement routes = encode_routes none routes

abbrev pub address : ℕ → Bytes → IpAddr
address version bytes = if version == 4 then v4 (from_be bytes) else v6 (from_be bytes)

abbrev pub address_length : ℕ → ℕ
address_length version = if version == 4 then 4 else 16

abbrev pub route_at : ℕ → Bytes → Route
route_at version value =
    let n = address_length version in
    record {
      start = address version (take n value);
      end = address version (take n (drop n value));
      protocol = get_or value (n * 2) 0;
    }

-- A round of the decoder at a version byte, before the routes of `rest`.
pub decode_round :
    Option Route → ℕ → Bytes → Except MasqueError (List Route) → Except MasqueError (List Route)
unfolding compare_routes
decode_round previous version value rest =
    let n = address_length version in
    let route = route_at version value in
    if not (version == 4 || version == 6)
    then err (malformed_route_detail version)
    else if ltb (length value) (n * 2 + 1)
    then err malformed_route
    else if addr_ltb route.end route.start
    then err malformed_route
    else if not (follows previous route)
    then err decoded_routes_not_ordered
    else rest >>= λ routes. ok (route ∷ routes)

-- `while !value.is_empty()`: each round takes a byte at least, so the length is fuel enough.
pub decode_routes : ℕ → Option Route → Bytes → Except MasqueError (List Route)
unfolding decode_round
decode_routes fuel previous [] = ok []
decode_routes zero previous (version ∷ value) = ok []
decode_routes (suc fuel) previous (version ∷ value) = decode_round previous version value (
    decode_routes fuel (some (route_at version value))
      (drop (address_length version * 2 + 1) value))

pub decode_route_advertisement : Bytes → Except MasqueError (List Route)
unfolding decode_routes
decode_route_advertisement value = decode_routes (length value) none value
