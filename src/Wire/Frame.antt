-- ===== src/Wire/Frame.antt =====
-- rust/porta-wire/src/frame.rs: length-prefixed packets on a byte stream.
pub mod Encode
pub mod Decode
mod Tests
use porta.Prelude.{
  ℕ, zero, suc, ◌+◌, ◌-◌, ◌≤◌, ◌<◌, ◌≡◌, refl, Bool, true, false, List, [], ◌∷◌, ◌++◌, arith,
  length, take, drop, ◌==◌, ltb, if◌then◌else◌, Option,
}
use porta.Wire.Bytes.{Bytes, be_bytes, from_be}
use porta.Prelude.Except.{Except, ok, err}
use porta.Wire.Stream.WriteAll.{WriteErrors, write_all}
use porta.Wire.Stream.Fill.{ReadErrors, fill}
use porta.Wire.Stream.{
  Arrival, Reader, Room, Writer, chunk, interrupted, failure, accept, stalled, broken,
}

abbrev pub max_packet_size : ℕ
max_packet_size = 65535

pub data FrameError : Type 0 where
  too_large end_of_stream unexpected_end_of_stream short_write : FrameError
  io : ℕ → FrameError
  read_payload_end_of_stream read_payload_unexpected_end_of_stream : FrameError
  read_payload_io : ℕ → FrameError

abbrev pub header_errors : ReadErrors FrameError
header_errors = record { at_start = end_of_stream; later = unexpected_end_of_stream; other = io }

abbrev pub payload_errors : ReadErrors FrameError
payload_errors = record {
  at_start = read_payload_end_of_stream;
  later = read_payload_unexpected_end_of_stream;
  other = read_payload_io;
}

pub read_header : Reader → Except FrameError Bytes × Reader
unfolding fill
read_header s = fill header_errors [] 2 s

pub read_payload : ℕ → Reader → Except FrameError Bytes × Reader
unfolding fill
read_payload size s = fill payload_errors [] size s

pub after_header : Except FrameError Bytes → Reader → Except FrameError Bytes × Reader
unfolding read_payload
after_header (err e) s = (err e, s)
after_header (ok header) s = read_payload (from_be header) s

-- `Decoder::read_packet`, and `read_packet_into` on a buffer whose contents are overwritten.
pub read_packet : Reader → Except FrameError Bytes × Reader
unfolding read_header after_header
read_packet s = let (header, s') = read_header s in after_header header s'

abbrev pub write_errors : WriteErrors FrameError
write_errors = record { nothing_taken = short_write; other = io }

pub after_write :
    Bytes → Except FrameError (Unit {0}) × Writer → Except FrameError (Unit {0}) × Writer
unfolding write_all
after_write data_bytes (ok _, w) = write_all write_errors data_bytes w.taken w.plan
after_write data_bytes (err e, w) = (err e, w)

-- `Encoder::write_packet`.
pub write_packet : Bytes → Writer → Except FrameError (Unit {0}) × Writer
unfolding write_all after_write
write_packet packet w =
    if ltb max_packet_size (length packet)
    then (err too_large, w)
    else after_write packet (write_all write_errors (be_bytes 2 (length packet)) w.taken w.plan)
