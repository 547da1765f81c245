-- ===== src/Wire/Frame/Tests.antt =====
-- Runs of frame.rs.
use porta.Prelude.{◌≡◌, refl, [], ◌∷◌, ◌++◌}
use porta.Prelude.Except.{ok, err}
use porta.Wire.Stream.{chunk, interrupted, accept, stalled}
use porta.Wire.Frame.{read_packet, write_packet, unexpected_end_of_stream}
use porta.Prelude.{List, ◌<◌, ◌≤◌, length, arith}
use porta.Wire.Bytes.{Bytes}
use porta.Wire.Stream.{Reader, Writer, Room, Delivers, delivered, retried, ended}
use porta.Wire.Stream.WriteAll.{IsHealthy}
use porta.Wire.Frame.{max_packet_size, too_large, read_payload_unexpected_end_of_stream}
use porta.Wire.Frame.Encode.{frame, write_packet-IsHealthy, write_packet_outcome}
use porta.Wire.Frame.Decode.{read_packet-frame, read_packet_cut}

reads_in_pieces :
    read_packet (chunk (0 ∷ []) ∷ interrupted ∷ chunk (3 ∷ 1 ∷ 2 ∷ []) ∷ chunk (3 ∷ 0 ∷ []) ∷ [])
    ≡ (ok (1 ∷ 2 ∷ 3 ∷ []), chunk (0 ∷ []) ∷ [])
unfolding read_packet
reads_in_pieces = refl

truncated_header : (read_packet (chunk (0 ∷ []) ∷ [])).0 ≡ err unexpected_end_of_stream
unfolding read_packet
truncated_header = refl

writes_in_pieces :
    (write_packet
      (1 ∷ 2 ∷ 3 ∷ [])
      (record { taken = []; plan = accept 1 ∷ stalled ∷ accept 1 ∷ accept 2 ∷ [] })).1.taken
    ≡ 0 ∷ 3 ∷ 1 ∷ 2 ∷ 3 ∷ []
unfolding write_packet
writes_in_pieces = refl

abbrev three : Bytes
three = 1 ∷ 2 ∷ 3 ∷ []

abbrev slow_writer : Writer
slow_writer = record { taken = 9 ∷ []; plan = accept 1 ∷ stalled ∷ accept 2 ∷ [] }

-- The frame of `three` and one byte more, in two chunks.
abbrev two_chunks : Reader
two_chunks = chunk (0 ∷ []) ∷ interrupted ∷ chunk (3 ∷ 1 ∷ 2 ∷ 3 ∷ 7 ∷ []) ∷ []

two_chunks-Delivers : Delivers (frame three ++ 7 ∷ []) two_chunks
two_chunks-Delivers =
    delivered (0 ∷ []) _ (3 ∷ 1 ∷ 2 ∷ 3 ∷ 7 ∷ []) (omega arith) refl
      (retried (delivered (3 ∷ 1 ∷ 2 ∷ 3 ∷ 7 ∷ []) _ [] (omega arith) refl ended))

-- The header of the frame and one byte of the packet.
cut_short-Delivers : Delivers (0 ∷ 3 ∷ 1 ∷ []) (chunk (0 ∷ 3 ∷ 1 ∷ []) ∷ [])
cut_short-Delivers = delivered (0 ∷ 3 ∷ 1 ∷ []) _ [] (omega arith) refl ended

write_packet-IsHealthy_example :
    (rest : List Room) × (write_packet three slow_writer
      ≡ (ok tt, record { taken = 9 ∷ frame three; plan = rest }))
    × IsHealthy rest
write_packet-IsHealthy_example =
    write_packet-IsHealthy three slow_writer (omega arith) (omega arith, (omega arith, tt))

write_packet_outcome_example :
    (max_packet_size < length three → write_packet three slow_writer ≡ (err too_large, slow_writer))
    × ((write_packet three slow_writer).0 ≡ ok tt
        → (length three ≤ max_packet_size)
          × ((write_packet three slow_writer).1.taken ≡ 9 ∷ frame three))
write_packet_outcome_example = write_packet_outcome three slow_writer

read_packet-frame_example :
    (s' : Reader) × (read_packet two_chunks ≡ (ok three, s')) × Delivers (7 ∷ []) s'
read_packet-frame_example =
    read_packet-frame three (7 ∷ []) two_chunks (omega arith) two_chunks-Delivers

read_packet_cut_example :
    (read_packet (chunk (0 ∷ 3 ∷ 1 ∷ []) ∷ [])).0 ≡ err read_payload_unexpected_end_of_stream
read_packet_cut_example =
    read_packet_cut three (0 ∷ 3 ∷ 1 ∷ []) (2 ∷ 3 ∷ []) (chunk (0 ∷ 3 ∷ 1 ∷ []) ∷ []) (omega arith)
      refl (omega arith) cut_short-Delivers
