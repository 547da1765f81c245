-- ===== src/Data/Classify.antt =====
-- `classify_ipv4` of rust/porta-server/src/data/queue.rs, the server's own copy of the classifier.
pub mod SameAsWire
mod Tests
use porta.Prelude.{
  ℕ, suc, ◌+◌, ◌*◌, ◌/◌, ◌%◌, ◌^◌, bit_and, bit_xor, Bool, true, false, not, ◌&&◌, ◌||◌, List, [],
  ◌∷◌, ◌++◌, length, replicate, ◌==◌, ltb, leb, if◌then◌else◌,
}
use porta.Wire.Bytes.{Bytes, be_bytes}
use porta.Wire.Ip.{byte_at, u16_at, slice}

pub data PacketClass : Type 0 where
  tcp datagram control : PacketClass

pub record FlowKey : Type 0 where
  pub source : Bytes
  pub destination : Bytes
  pub source_port : ℕ
  pub destination_port : ℕ
  pub fragment_id : ℕ
  pub protocol : ℕ
  pub fragmented : Bool

pub record PacketMetadata : Type 0 where
  pub class : PacketClass
  pub flow : FlowKey
  pub hash : ℕ

abbrev pub blank_metadata : PacketMetadata
blank_metadata = record {
  class = datagram;
  flow = record {
    source = replicate 4 0;
    destination = replicate 4 0;
    source_port = 0;
    destination_port = 0;
    fragment_id = 0;
    protocol = 0;
    fragmented = false;
  };
  hash = 0;
}

unfoldable pub hash_bytes : ℕ → Bytes → ℕ
hash_bytes hash [] = hash
hash_bytes hash (value ∷ rest) = hash_bytes (bit_xor hash value * 16777619 % 2 ^ 32) rest

unfoldable pub hash_flow : FlowKey → ℕ
unfolding hash_bytes
hash_flow flow = hash_bytes 2166136261 (
    flow.source
    ++ (flow.destination
        ++ (be_bytes 2 flow.source_port
            ++ (be_bytes 2 flow.destination_port
                ++ (be_bytes 2 flow.fragment_id
                    ++ (flow.protocol ∷ (if flow.fragmented then 1 else 0) ∷ []))))))

unfoldable pub tcp_ack_only : Bytes → ℕ → Bool
tcp_ack_only packet ip_header_length =
    let tcp_header_length = byte_at packet (ip_header_length + 12) / 16 * 4 in
    let flags = byte_at packet (ip_header_length + 13) in
    if ltb (length packet) (ip_header_length + 20)
    then false
    else if ltb tcp_header_length 20 || ltb (length packet) (ip_header_length + tcp_header_length)
    then false
    else not (bit_and flags 0x10 == 0)
      && (bit_and flags 0x07 == 0 && length packet == ip_header_length + tcp_header_length)

abbrev pub is_fragmented : Bytes → Bool
is_fragmented packet = not (bit_and (u16_at packet 6) 0x3fff == 0)

abbrev pub has_ports : Bytes → ℕ → Bool
has_ports packet header_length =
    not (is_fragmented packet)
    && ((byte_at packet 9 == 6 || byte_at packet 9 == 17)
        && leb (header_length + 4) (length packet))

unfoldable pub flow_of : Bytes → ℕ → FlowKey
flow_of packet header_length = record {
  source = slice packet 12 4;
  destination = slice packet 16 4;
  source_port = if has_ports packet header_length then u16_at packet header_length else 0;
  destination_port =
      if has_ports packet header_length then u16_at packet (header_length + 2) else 0;
  fragment_id = if is_fragmented packet then u16_at packet 4 else 0;
  protocol = byte_at packet 9;
  fragmented = is_fragmented packet;
}

-- The arms of the match in their order; the TCP arm's guard has all three tests under `has_ports`.
unfoldable pub class_of : Bytes → ℕ → FlowKey → Bool → PacketClass
unfolding tcp_ack_only
class_of packet header_length flow ports =
    if flow.protocol == 1
    then control
    else if flow.protocol == 6
        && (ports
            && (flow.source_port == 53
                || (flow.destination_port == 53 || tcp_ack_only packet header_length)))
    then control
    else if flow.protocol == 6
    then tcp
    else if flow.protocol == 17
        && (ports
            && (flow.source_port == 53 || (flow.destination_port == 53 || leb (length packet) 256)))
    then control
    else datagram

unfoldable pub classify_ipv4 : Bytes → PacketMetadata
classify_ipv4 packet =
    let header_length = bit_and (byte_at packet 0) 0x0f * 4 in
    if ltb (length packet) 20 || not (byte_at packet 0 / 16 == 4)
    then blank_metadata
    else if ltb header_length 20 || ltb (length packet) header_length
    then blank_metadata
    else (let flow = flow_of packet header_length in
        record {
          class = class_of packet header_length flow (has_ports packet header_length);
          flow = flow;
          hash = hash_flow flow;
        })
