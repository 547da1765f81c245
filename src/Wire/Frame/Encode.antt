-- ===== src/Wire/Frame/Encode.antt =====
-- What the encoder of frame.rs puts on the stream.
use porta.Prelude.{
  ◌≤◌, ◌<◌, ◌≡◌, refl, ap, ◌∙◌, inl, inr, List, ◌++◌, append_assoc, length, ltb, le→ltb, ltb→le,
  tests, Bool-cases,
}
use porta.Wire.Bytes.{Bytes, be_bytes}
use porta.Prelude.Except.{Except, ok, err}
use porta.Wire.Stream.WriteAll.{write_all, write_all-ok, IsHealthy, write_all-IsHealthy}
use porta.Wire.Stream.{Room, Writer}
use porta.Wire.Frame.{FrameError, too_large, max_packet_size, after_write, write_packet}
use porta.Wire.Frame.{write_errors}

-- The bytes of a packet on the stream.
abbrev pub frame : Bytes → Bytes
frame packet = be_bytes 2 (length packet) ++ packet

after_write-ok :
    (packet : Bytes) (r : Except FrameError (Unit {0}) × Writer)
    → (after_write packet r).0 ≡ ok tt
    → (r.0 ≡ ok tt) × ((after_write packet r).1.taken ≡ r.1.taken ++ packet)
unfolding after_write
after_write-ok packet (ok _, w) h = (refl, write_all-ok write_errors packet w.taken w.plan h)
after_write-ok packet (err e, w) h = cc

-- Within 65535 bytes and on a writer without faults, `write_packet` succeeds, and the stream has
-- grown by the packet's frame, however the writer divides the bytes up.
pub write_packet-IsHealthy :
    (packet : Bytes) (w : Writer)
    → length packet ≤ max_packet_size
    → IsHealthy w.plan
    → (rest : List Room) × (write_packet packet w
        ≡ (ok tt, record { taken = w.taken ++ frame packet; plan = rest }))
      × IsHealthy rest
unfolding write_packet
write_packet-IsHealthy packet w fits h =
    let (p, e, h') =
      write_all-IsHealthy write_errors (be_bytes 2 (length packet)) w.taken w.plan h in
    let (p', e', h'') =
      write_all-IsHealthy write_errors packet (w.taken ++ be_bytes 2 (length packet)) p h' in
    (
      p',
      rw (
        le→ltb max_packet_size (length packet) fits,
        e,
        e',
        append_assoc w.taken (be_bytes 2 (length packet)) packet,
      ),
      h'',
    )

-- A packet of more than 65535 bytes is refused and leaves the stream alone. When `write_packet`
-- succeeds, on any writer, the packet was no longer than that and the stream has grown by its frame.
pub write_packet_outcome :
    (packet : Bytes) (w : Writer)
    → (max_packet_size < length packet → write_packet packet w ≡ (err too_large, w))
      × ((write_packet packet w).0 ≡ ok tt
          → (length packet ≤ max_packet_size)
            × ((write_packet packet w).1.taken ≡ w.taken ++ frame packet))
unfolding write_packet
write_packet_outcome packet w = elim (Bool-cases (ltb max_packet_size (length packet))) [
  | inl long ↦ rw long (λ _. refl, λ h. cc)
  | inr fits ↦ rw fits (λ h. absurd (omega tests), λ h. (ltb→le _ _ fits, wrote h))
]
  where
    header : Bytes
    header = be_bytes 2 (length packet)

    wrote :
        (after_write packet (write_all write_errors header w.taken w.plan)).0 ≡ ok tt
        → (after_write packet (write_all write_errors header w.taken w.plan)).1.taken
          ≡ w.taken ++ frame packet
    wrote h =
        let r = after_write-ok packet (write_all write_errors header w.taken w.plan) h in
        r.1
        ∙ ap (λ (t : Bytes). t ++ packet) (write_all-ok write_errors header w.taken w.plan r.0)
        ∙ append_assoc w.taken header packet
