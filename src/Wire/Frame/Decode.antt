-- ===== src/Wire/Frame/Decode.antt =====
-- What the decoder of frame.rs reads back, however the stream divides the bytes up.
use porta.Prelude.{
  ℕ, zero, suc, ◌≤◌, ◌<◌, ◌≡◌, refl, sym, ap, ◌∙◌, [], ◌∷◌, ◌++◌, append_assoc, arith, length, take,
  length-append, if◌then◌else◌,
}
use porta.Wire.Bytes.{Bytes, be_bytes, from_be, from_be-be_bytes}
use porta.Prelude.Except.{Except, ok, err}
use porta.Wire.Stream.Fill.{fill-Delivers, fill_cut}
use porta.Wire.Stream.{Reader, Delivers}
use porta.Wire.Frame.{
  FrameError, max_packet_size, read_packet, end_of_stream, unexpected_end_of_stream,
  read_payload_end_of_stream, read_payload_unexpected_end_of_stream,
}
use porta.Wire.Frame.Encode.{frame}
use porta.Prelude.{◌==◌}
use porta.Wire.Frame.{header_errors}
use porta.Wire.Frame.{payload_errors}

-- After a frame of at most 65535 bytes on the stream, in chunks of any sizes and with interruptions
-- anywhere, `read_packet` returns the packet, and the reader goes on behind it.
pub read_packet-frame :
    (packet rest : Bytes) (s : Reader)
    → length packet ≤ max_packet_size
    → Delivers (frame packet ++ rest) s
    → (s' : Reader) × (read_packet s ≡ (ok packet, s')) × Delivers rest s'
unfolding read_packet
read_packet-frame packet rest s fits d =
    let n = length packet in
    let head = be_bytes 2 n in
    let h =
      fill-Delivers header_errors [] head (packet ++ rest) (frame packet ++ rest) {s = s} 2 d
        (append_assoc head packet rest) refl in
    let b =
      fill-Delivers payload_errors [] packet rest (packet ++ rest) {s = h.0} n h.2 refl refl in
    let size : from_be head ≡ n = from_be-be_bytes 2 n (omega (arith, fits)) in
    (b.0, rw (h.1, size) b.1, b.2)

abbrev pub cut_error : ℕ → FrameError
cut_error zero = end_of_stream
cut_error (suc zero) = unexpected_end_of_stream
cut_error (suc (suc zero)) = read_payload_end_of_stream
cut_error (suc (suc (suc n))) = read_payload_unexpected_end_of_stream

payload_cut :
    (p : Bytes)
    → ◌≡◌ {A = Except FrameError Bytes}
        (err (if length p == 0 then payload_errors.at_start else payload_errors.later))
        (err (cut_error (suc (suc (length p)))))
payload_cut [] = refl
payload_cut (x ∷ p) = ground arith

-- A stream that ends within a frame is an error that tells where: before the frame, in its header,
-- right behind the header, or in the payload.
pub read_packet_cut :
    (packet p q : Bytes) (s : Reader)
    → length packet ≤ max_packet_size
    → frame packet ≡ p ++ q
    → 0 < length q
    → Delivers p s
    → (read_packet s).0 ≡ err (cut_error (length p))
unfolding read_packet
read_packet_cut packet [] q s fits e more d = rw (fill_cut header_errors [] [] 2 d (omega arith))
read_packet_cut packet (a ∷ []) q s fits e more d =
    rw (fill_cut header_errors [] (a ∷ []) 2 d (omega arith))
read_packet_cut packet (a ∷ b ∷ p) q s fits e more d =
    let n = length packet in
    let h = fill-Delivers header_errors [] (a ∷ b ∷ []) p (a ∷ b ∷ p) {s = s} 2 d refl refl in
    let size : from_be (a ∷ b ∷ []) ≡ n =
      ap (λ (t : Bytes). from_be (take 2 t)) (sym e) ∙ from_be-be_bytes 2 n (omega (arith, fits)) in
    let short : length p < n = omega (arith, ap length e, length-append p q) in
    rw (h.1, size, fill_cut payload_errors [] p {s = h.0} n h.2 short) (payload_cut p)
