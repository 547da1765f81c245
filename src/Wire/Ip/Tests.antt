-- ===== src/Wire/Ip/Tests.antt =====
-- The vectors of the tests in ip.rs, and the theorems at such packets.
use porta.Prelude.Except.{ok, err}
use porta.Prelude.{ℕ, ◌≡◌, refl, [], ◌∷◌, replicate}
use porta.Wire.Bytes.{Bytes}
use porta.Wire.Ip.{parse_ipv4, internet_checksum, set_ipv4_header_checksum, short_header}
use porta.Wire.Ip.Classify.{classify_ipv4, control}
use porta.Wire.Ip.Classify.{flow_of}
use porta.Wire.Ip.Classify.{class_of}
use porta.Wire.Ip.Classify.{hash_flow}
use porta.Prelude.{◌≤◌, ◌≢◌, length, true}
use porta.Wire.Bytes.{from_be}
use porta.Wire.Ip.{Ipv4Info, ipv4_header_length, ipv4_header_checksum, byte_at}
use porta.Wire.Ip.Addresses.{parse_ipv4-classify_ipv4, classify_ipv4_fragments}
use porta.Wire.Ip.Checksum.{set_ipv4_header_checksum_verifies}

abbrev dns_query : Bytes
dns_query =
    0x45 ∷ 0 ∷ 0 ∷ 28 ∷ 0 ∷ 0 ∷ 0 ∷ 0 ∷ 64 ∷ 17 ∷ 0 ∷ 0 ∷ 10 ∷ 0 ∷ 0 ∷ 1 ∷ 1 ∷ 1 ∷ 1 ∷ 1 ∷ 0x30
    ∷ 0x39 ∷ 0 ∷ 53 ∷ 0 ∷ 0 ∷ 0 ∷ 0 ∷ []

dns_class : (classify_ipv4 dns_query).class ≡ control
unfolding classify_ipv4 flow_of class_of hash_flow
dns_class = refl

dns_hash : (classify_ipv4 dns_query).hash ≡ 0x4b5b0ddd
unfolding classify_ipv4 flow_of class_of hash_flow
dns_hash = refl

golden_checksum : internet_checksum (1 ∷ 2 ∷ 3 ∷ []) ≡ 0xfbfd
unfolding internet_checksum
golden_checksum = refl

short_packet : parse_ipv4 (replicate 19 0) ≡ err short_header
unfolding parse_ipv4
short_packet = refl

abbrev udp_info : Ipv4Info
udp_info = record {
  header_length = 20;
  total_length = 28;
  source = 0x0a000001;
  destination = 0x01010101;
}

-- The second fragment of a datagram.
abbrev fragment : Bytes
fragment =
    0x45 ∷ 0 ∷ 0 ∷ 28 ∷ 0 ∷ 7 ∷ 0 ∷ 1 ∷ 64 ∷ 17 ∷ 0 ∷ 0 ∷ 10 ∷ 0 ∷ 0 ∷ 1 ∷ 1 ∷ 1 ∷ 1 ∷ 1 ∷ 0x30
    ∷ 0x39 ∷ 0 ∷ 53 ∷ 0 ∷ 0 ∷ 0 ∷ 0 ∷ []

parses : parse_ipv4 dns_query ≡ ok udp_info
unfolding parse_ipv4
parses = refl

header_of_query : ipv4_header_length dns_query ≡ ok 20
unfolding ipv4_header_length
header_of_query = refl

fragmented_query : (classify_ipv4 fragment).flow.fragmented ≡ true
unfolding classify_ipv4 flow_of
fragmented_query = refl

parse_ipv4-classify_ipv4_example :
    (20 ≤ 20)
    × (20 ≤ 28)
    × (28 ≡ length dns_query)
    × (from_be (classify_ipv4 dns_query).flow.source ≡ 0x0a000001)
    × (from_be (classify_ipv4 dns_query).flow.destination ≡ 0x01010101)
parse_ipv4-classify_ipv4_example = parse_ipv4-classify_ipv4 dns_query udp_info parses

classify_ipv4_fragments_example :
    ((classify_ipv4 fragment).flow.source_port ≡ 0)
    × ((classify_ipv4 fragment).flow.destination_port ≡ 0)
    × ((classify_ipv4 fragment).class ≡ control → (classify_ipv4 fragment).flow.protocol ≡ 1)
classify_ipv4_fragments_example = (classify_ipv4_fragments fragment).0 fragmented_query

set_ipv4_header_checksum_verifies_example :
    (q : Bytes) × (set_ipv4_header_checksum dns_query ≡ ok q)
    × (ipv4_header_checksum q ≡ ok 0)
    × (length q ≡ length dns_query)
    × ((i : ℕ) → i ≢ 10 → i ≢ 11 → byte_at q i ≡ byte_at dns_query i)
set_ipv4_header_checksum_verifies_example =
    (set_ipv4_header_checksum_verifies dns_query).0 20 header_of_query
