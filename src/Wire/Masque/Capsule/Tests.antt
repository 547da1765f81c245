-- ===== src/Wire/Masque/Capsule/Tests.antt =====
-- Capsules of masque.rs that are written and read back.
use porta.Prelude.Except.{ok}
use porta.Prelude.{◌≡◌, List, [], ◌∷◌, ◌++◌, arith}
use porta.Wire.Bytes.{Bytes}
use porta.Wire.Stream.{Reader, Writer, Room, Delivers, accept, stalled}
use porta.Wire.Masque.Capsule.{
  Capsule, write, read, write_ip_packet, decode_ip_packet, capsule_datagram,
}
use porta.Wire.Masque.Capsule.RoundTrip.{read-write, read-write_ip_packet}

abbrev empty_stream : Writer
empty_stream = record { taken = []; plan = accept 1 ∷ stalled ∷ [] }

read-write_example :
    (sent : Bytes) × (plan : List Room) × (write 3 (5 ∷ 6 ∷ []) empty_stream
      ≡ (ok tt, record { taken = sent; plan = plan }))
    × ((tail : Bytes) (s : Reader)
        → Delivers (sent ++ tail) s
        → (s' : Reader) × (read s ≡ (ok (record { capsule_type = 3; value = 5 ∷ 6 ∷ [] }), s'))
          × Delivers tail s')
read-write_example =
    (read-write 3 (5 ∷ 6 ∷ []) empty_stream (omega arith) (omega arith, tt)).0 (omega arith)

read-write_ip_packet_example :
    (sent : Bytes) × (plan : List Room) × (write_ip_packet (0x45 ∷ 1 ∷ []) empty_stream
      ≡ (ok tt, record { taken = sent; plan = plan }))
    × ((tail : Bytes) (s : Reader)
        → Delivers (sent ++ tail) s
        → (c : Capsule) × (s' : Reader) × (read s ≡ (ok c, s'))
          × (c.capsule_type ≡ capsule_datagram)
          × (decode_ip_packet c.value ≡ ok (0x45 ∷ 1 ∷ []))
          × Delivers tail s')
read-write_ip_packet_example =
    (read-write_ip_packet (0x45 ∷ 1 ∷ []) empty_stream (omega arith, tt)).0 (omega arith)
