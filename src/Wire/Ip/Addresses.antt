-- ===== src/Wire/Ip/Addresses.antt =====
-- How validation and classification of ip.rs agree on a packet.
use porta.Prelude.Except.{ok}
use porta.Prelude.{◌≤◌, ◌≡◌, true, false, arith, length}
use porta.Wire.Bytes.{Bytes, from_be}
use porta.Wire.Ip.{Ipv4Info, parse_ipv4}
use porta.Wire.Ip.Classify.{classify_ipv4, flow_of, class_of, control}

-- A packet that `parse_ipv4` accepts is at least its header long, has exactly its declared length,
-- and `classify_ipv4` reads the same addresses from it.
pub parse_ipv4-classify_ipv4 :
    (packet : Bytes) (info : Ipv4Info)
    → parse_ipv4 packet ≡ ok info
    → (20 ≤ info.header_length)
      × (info.header_length ≤ info.total_length)
      × (info.total_length ≡ length packet)
      × (from_be (classify_ipv4 packet).flow.source ≡ info.source)
      × (from_be (classify_ipv4 packet).flow.destination ≡ info.destination)
unfolding parse_ipv4 classify_ipv4 flow_of
parse_ipv4-classify_ipv4 packet info h = ground arith

-- A fragment has no ports in its flow, and no fragment is ever put in the control class for its
-- ports: only ICMP is. A whole packet has no fragment identification.
pub classify_ipv4_fragments :
    (packet : Bytes)
    → ((classify_ipv4 packet).flow.fragmented ≡ true
        → ((classify_ipv4 packet).flow.source_port ≡ 0)
          × ((classify_ipv4 packet).flow.destination_port ≡ 0)
          × ((classify_ipv4 packet).class ≡ control → (classify_ipv4 packet).flow.protocol ≡ 1))
      × ((classify_ipv4 packet).flow.fragmented ≡ false
          → (classify_ipv4 packet).flow.fragment_id ≡ 0)
unfolding classify_ipv4 flow_of class_of
classify_ipv4_fragments packet = ground arith
