-- ===== src/Wire/Masque/Capsule/RoundTrip.antt =====
-- What the capsule encoder of masque.rs writes, its decoder reads back.
use porta.Prelude.Except.{ok, err}
use porta.Prelude.{
  ℕ, suc, ◌+◌, ◌-◌, ◌≤◌, ◌<◌, ◌^◌, ◌/◌, ◌≡◌, refl, ap, ◌∙◌, List, [], ◌∷◌, ◌++◌, append-nil,
  append_assoc, arith, length, take_all, le→ltb, if◌then◌else◌, bit_and,
}
use porta.Wire.Bytes.{Bytes, from_be}
use porta.Wire.Stream.{Reader, Writer, Room, Delivers}
use porta.Wire.Stream.Fill.{fill-Delivers}
use porta.Wire.Stream.WriteAll.{IsHealthy, write_all-IsHealthy}
use porta.Wire.Masque.{empty_ip_datagram, capsule_too_large}
use porta.Wire.Masque.Varint.{
  max_quic_varint, encode_varint, parse_varint, varint_length, read_exact, exact_errors,
  read_varint,
}
use porta.Wire.Masque.Varint.RoundTrip.{varint_size, parse_varint-encode_varint}
use porta.Wire.Masque.Capsule.{
  Capsule, max_capsule_size, write, write_ip_packet, io_write_errors, read, encode_ip_packet,
  decode_ip_packet,
}
use porta.Wire.Masque.Capsule.{write_both}
use porta.Prelude.{lt→ltb, subst}
use porta.Prelude.{◌==◌}
use porta.Wire.Masque.Capsule.{capsule_datagram}
use porta.Prelude.{lt→leb}
use porta.Prelude.{le→leb}

read_exact-Delivers :
    (p r : Bytes) (s : Reader) (n : ℕ)
    → Delivers (p ++ r) s
    → n ≡ length p
    → (s' : Reader) × (read_exact n s ≡ (ok p, s')) × Delivers r s'
unfolding read_exact
read_exact-Delivers p r s n d e = fill-Delivers exact_errors [] p r (p ++ r) {s = s} n d refl e

parse_varint_whole :
    (first value : ℕ) (others : Bytes)
    → parse_varint (first ∷ others) ≡ ok (value, suc (length others))
    → (varint_length first ≡ suc (length others)) × (from_be (bit_and first 0x3f ∷ others) ≡ value)
unfolding parse_varint
parse_varint_whole first value others h = ground (arith, take_all others (2 ^ (first / 64) - 1))

-- A byte string that parses as a whole is read as a whole.
read_varint_whole :
    (value : ℕ) (bytes rest : Bytes) (s : Reader)
    → parse_varint bytes ≡ ok (value, length bytes)
    → 0 < length bytes
    → Delivers (bytes ++ rest) s
    → (s' : Reader) × (read_varint s ≡ (ok value, s')) × Delivers rest s'
unfolding read_varint
read_varint_whole value [] rest s h pos d = absurd (omega arith)
read_varint_whole value (first ∷ others) rest s h pos d =
    let (size, means) = parse_varint_whole first value others h in
    let a = read_exact-Delivers (first ∷ []) (others ++ rest) s 1 d refl in
    let b =
      read_exact-Delivers others rest a.0 (varint_length first - 1) a.2 (omega (arith, size)) in
    (b.0, rw (a.1, b.1, means), b.2)

encoded :
    (value : ℕ) (bytes : Bytes)
    → value ≤ max_quic_varint
    → encode_varint value ≡ ok bytes
    → (parse_varint bytes ≡ ok (value, length bytes)) × (0 < length bytes)
encoded value bytes h e =
    let (bs, e', size, parses) = (parse_varint-encode_varint value).0 h in
    let same : bs ≡ bytes = cc in
    let whole : parse_varint bs ≡ ok (value, varint_size value) = rw append-nil at (parses []) in
    (cc, ground (arith, ap length same))

-- `read_varint` reads an integer from its encoding, whatever follows.
pub read_varint-encode_varint :
    (value : ℕ) (bytes rest : Bytes) (s : Reader)
    → value ≤ max_quic_varint
    → encode_varint value ≡ ok bytes
    → Delivers (bytes ++ rest) s
    → (s' : Reader) × (read_varint s ≡ (ok value, s')) × Delivers rest s'
read_varint-encode_varint value bytes rest s h e d =
    let p = encoded value bytes h e in read_varint_whole value bytes rest s p.0 p.1 d

-- The bytes of a capsule on the stream.
abbrev pub capsule_bytes : Bytes → Bytes → Bytes → Bytes
capsule_bytes t n value = t ++ (n ++ value)

read-capsule_bytes :
    (capsule_type : ℕ) (t n value tail : Bytes) (s : Reader)
    → capsule_type ≤ max_quic_varint
    → length value ≤ max_capsule_size
    → encode_varint capsule_type ≡ ok t
    → encode_varint (length value) ≡ ok n
    → Delivers (capsule_bytes t n value ++ tail) s
    → (s' : Reader) × (read s ≡ (ok (record { capsule_type = capsule_type; value = value }), s'))
      × Delivers tail s'
unfolding read
read-capsule_bytes capsule_type t n value tail s small fits e f d =
    let d' : Delivers (t ++ (n ++ (value ++ tail))) s =
      subst (λ (x : Bytes). Delivers x s)
        (append_assoc t (n ++ value) tail ∙ ap (◌++◌ t) (append_assoc n value tail)) d in
    let a = read_varint-encode_varint capsule_type t (n ++ (value ++ tail)) s small e d' in
    let b =
      read_varint-encode_varint (length value) n (value ++ tail) a.0 (omega (arith, fits)) f a.2 in
    let c = read_exact-Delivers value tail b.0 (length value) b.2 refl in
    (c.0, rw (a.1, b.1, le→ltb max_capsule_size (length value) fits, c.1), c.2)

-- A header that both encodings make up, and the data, on a writer without faults.
write_both-IsHealthy :
    (header value : Bytes) (w : Writer)
    → IsHealthy w.plan
    → (plan : List Room) × (write_both (ok header) value w
        ≡ (ok tt, record { taken = w.taken ++ (header ++ value); plan = plan }))
      × IsHealthy plan
write_both-IsHealthy header value w h =
    let a = write_all-IsHealthy io_write_errors header w.taken w.plan h in
    let b = write_all-IsHealthy io_write_errors value (w.taken ++ header) a.0 a.2 in
    (b.0, rw (a.1, b.1, append_assoc w.taken header value), b.2)

-- A type below 2 ^ 62 and a value of at most 2 ^ 20 bytes, written to a writer without faults, are
-- read back from the bytes that this put on the stream, in whatever chunks these arrive and whatever
-- follows them. A longer value is refused, and nothing is written.
pub read-write :
    (capsule_type : ℕ) (value : Bytes) (w : Writer)
    → capsule_type ≤ max_quic_varint
    → IsHealthy w.plan
    → (length value ≤ max_capsule_size
        → (sent : Bytes) × (plan : List Room) × (write capsule_type value w
            ≡ (ok tt, record { taken = w.taken ++ sent; plan = plan }))
          × ((tail : Bytes) (s : Reader)
              → Delivers (sent ++ tail) s
              → (s' : Reader) × (read s
                  ≡ (ok (record { capsule_type = capsule_type; value = value }), s'))
                × Delivers tail s'))
      × (max_capsule_size < length value → write capsule_type value w ≡ (err capsule_too_large, w))
unfolding write
read-write capsule_type value w small h = (accepted, λ long. rw (lt→ltb _ _ long))
  where
    accepted :
        length value ≤ max_capsule_size
        → (sent : Bytes) × (plan : List Room) × (write capsule_type value w
            ≡ (ok tt, record { taken = w.taken ++ sent; plan = plan }))
          × ((tail : Bytes) (s : Reader)
              → Delivers (sent ++ tail) s
              → (s' : Reader) × (read s
                  ≡ (ok (record { capsule_type = capsule_type; value = value }), s'))
                × Delivers tail s')
    accepted fits =
        let (t, e, _, _) = (parse_varint-encode_varint capsule_type).0 small in
        let (n, f, _, _) = (parse_varint-encode_varint (length value)).0 (omega (arith, fits)) in
        let b = write_both-IsHealthy (t ++ (n ++ [])) value w h in
        let whole : (t ++ (n ++ [])) ++ value ≡ capsule_bytes t n value =
          append_assoc t (n ++ []) value ∙ ap (λ (x : Bytes). t ++ (x ++ value)) (append-nil n) in
        (
          capsule_bytes t n value,
          b.0,
          rw (le→ltb max_capsule_size (length value) fits, e, f)
              (b.1
                ∙ ap (λ (x : Bytes). (ok tt, record { taken = w.taken ++ x; plan = b.0 })) whole),
          λ tail s d. read-capsule_bytes capsule_type t n value tail s small fits e f d,
        )

-- `decode_ip_packet` undoes `encode_ip_packet`, but for the empty packet, which it refuses.
decode_ip_packet-encode_ip_packet :
    (packet : Bytes)
    → decode_ip_packet (encode_ip_packet packet)
      ≡ (if length packet == 0 then err empty_ip_datagram else ok packet)
unfolding decode_ip_packet encode_ip_packet parse_varint
decode_ip_packet-encode_ip_packet packet = ground arith

-- A packet of fewer than 2 ^ 20 bytes, written as an IP packet to a writer without faults, is read
-- back as a DATAGRAM capsule from which `decode_ip_packet` takes the packet, unless it is empty.
-- A longer packet is refused, and nothing is written.
pub read-write_ip_packet :
    (packet : Bytes) (w : Writer)
    → IsHealthy w.plan
    → (length packet < max_capsule_size
        → (sent : Bytes) × (plan : List Room) × (write_ip_packet packet w
            ≡ (ok tt, record { taken = w.taken ++ sent; plan = plan }))
          × ((tail : Bytes) (s : Reader)
              → Delivers (sent ++ tail) s
              → (c : Capsule) × (s' : Reader) × (read s ≡ (ok c, s'))
                × (c.capsule_type ≡ capsule_datagram)
                × (decode_ip_packet c.value
                    ≡ (if length packet == 0 then err empty_ip_datagram else ok packet))
                × Delivers tail s'))
      × (max_capsule_size ≤ length packet → write_ip_packet packet w ≡ (err capsule_too_large, w))
unfolding write_ip_packet encode_ip_packet
read-write_ip_packet packet w h = (accepted, λ long. rw (le→leb _ _ long))
  where
    accepted :
        length packet < max_capsule_size
        → (sent : Bytes) × (plan : List Room) × (write_ip_packet packet w
            ≡ (ok tt, record { taken = w.taken ++ sent; plan = plan }))
          × ((tail : Bytes) (s : Reader)
              → Delivers (sent ++ tail) s
              → (c : Capsule) × (s' : Reader) × (read s ≡ (ok c, s'))
                × (c.capsule_type ≡ capsule_datagram)
                × (decode_ip_packet c.value
                    ≡ (if length packet == 0 then err empty_ip_datagram else ok packet))
                × Delivers tail s')
    accepted fits =
        let (t, e, _, _) = (parse_varint-encode_varint capsule_datagram).0 (omega arith) in
        let (n, f, _, _) =
          (parse_varint-encode_varint (length (0 ∷ packet))).0 (omega (arith, fits)) in
        let f' : encode_varint (length packet + 1) ≡ ok n = ap encode_varint (omega arith) ∙ f in
        let b = write_both-IsHealthy (t ++ (n ++ 0 ∷ [])) packet w h in
        let whole : (t ++ (n ++ 0 ∷ [])) ++ packet ≡ capsule_bytes t n (0 ∷ packet) =
          append_assoc t (n ++ 0 ∷ []) packet ∙ ap (◌++◌ t) (append_assoc n (0 ∷ []) packet) in
        (
          capsule_bytes t n (0 ∷ packet),
          b.0,
          rw (lt→leb max_capsule_size (length packet) fits, e, f')
              (b.1
                ∙ ap (λ (x : Bytes). (ok tt, record { taken = w.taken ++ x; plan = b.0 })) whole),
          λ tail s d.
              let r =
                read-capsule_bytes capsule_datagram t n (0 ∷ packet) tail s (omega arith) fits e f
                  d in
              (
                record { capsule_type = capsule_datagram; value = 0 ∷ packet },
                r.0,
                r.1,
                refl,
                decode_ip_packet-encode_ip_packet packet,
                r.2,
              ),
        )
