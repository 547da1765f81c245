-- ===== src/Data/Classify/SameAsWire.antt =====
-- The server's classifier against the one that the clients use.
use porta.Prelude.{ℕ, ◌%◌, ◌*◌, ◌^◌, bit_xor, Bool, ◌≡◌, refl, [], ◌∷◌, arith}
use porta.Wire.Bytes.{Bytes}
use porta.Wire.Ip.Classify
use porta.Wire.Ip.{header_length_field}
use porta.Data.Classify.{
  PacketClass, tcp, datagram, control, FlowKey, PacketMetadata, hash_bytes, hash_flow, tcp_ack_only,
  flow_of, class_of, has_ports, classify_ipv4,
}

abbrev pub wire_class : PacketClass → Classify.PacketClass
wire_class tcp = Classify.PacketClass.tcp
wire_class datagram = Classify.PacketClass.datagram
wire_class control = Classify.PacketClass.control

abbrev pub wire_flow : FlowKey → Classify.FlowKey
wire_flow flow = record {
  source = flow.source;
  destination = flow.destination;
  source_port = flow.source_port;
  destination_port = flow.destination_port;
  fragment_id = flow.fragment_id;
  protocol = flow.protocol;
  fragmented = flow.fragmented;
}

abbrev pub wire_metadata : PacketMetadata → Classify.PacketMetadata
wire_metadata m = record { class = wire_class m.class; flow = wire_flow m.flow; hash = m.hash }

hash_bytes-fnv : (hash : ℕ) (bytes : Bytes) → hash_bytes hash bytes ≡ Classify.fnv hash bytes
unfolding hash_bytes Classify.fnv
hash_bytes-fnv hash [] = refl
hash_bytes-fnv hash (value ∷ rest) = hash_bytes-fnv (bit_xor hash value * 16777619 % 2 ^ 32) rest

hash_flow-wire : (flow : FlowKey) → hash_flow flow ≡ Classify.hash_flow (wire_flow flow)
unfolding hash_flow Classify.hash_flow
hash_flow-wire flow = hash_bytes-fnv 2166136261 (Classify.flow_bytes (wire_flow flow))

tcp_ack_only-wire :
    (packet : Bytes) (n : ℕ) → tcp_ack_only packet n ≡ Classify.tcp_ack_only packet n
unfolding tcp_ack_only Classify.tcp_ack_only
tcp_ack_only-wire packet n = refl

flow_of-wire : (packet : Bytes) (n : ℕ) → wire_flow (flow_of packet n) ≡ Classify.flow_of packet n
unfolding flow_of Classify.flow_of
flow_of-wire packet n = refl

class_of-wire :
    (packet : Bytes) (n : ℕ) (flow : FlowKey) (ports : Bool)
    → wire_class (class_of packet n flow ports) ≡ Classify.class_of packet n (wire_flow flow) ports
unfolding class_of Classify.class_of
class_of-wire packet n flow ports = ground arith

-- On every packet the server and the clients find the same class, flow and hash, though the two
-- matches over the protocol are written differently.
pub classify_ipv4-wire :
    (packet : Bytes) → wire_metadata (classify_ipv4 packet) ≡ Classify.classify_ipv4 packet
unfolding classify_ipv4 Classify.classify_ipv4
classify_ipv4-wire packet =
    let n = header_length_field packet in
    let flow = flow_of packet n in
    ground (
      arith,
      flow_of-wire packet n,
      class_of-wire packet n flow (has_ports packet n),
      hash_flow-wire flow,
    )
