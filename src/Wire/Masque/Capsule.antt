-- ===== src/Wire/Masque/Capsule.antt =====
-- The capsules of masque.rs: a type, a length and a value on a byte stream, and IP packets in them.
pub mod RoundTrip
mod Tests
use porta.Prelude.{
  ℕ, suc, ◌+◌, Bool, true, false, not, List, [], ◌∷◌, ◌++◌, length, drop, ◌==◌, ltb, leb,
  if◌then◌else◌,
}
use porta.Prelude.Except.{Except, ok, err, ◌>>=◌}
use porta.Wire.Bytes.{Bytes}
use porta.Wire.Stream.{Reader, Writer}
use porta.Wire.Stream.WriteAll.{WriteErrors, write_all}
use porta.Wire.Masque.{
  IoError, write_zero, failed, MasqueError, capsule_too_large, io, read_capsule_length,
  read_capsule_value, unknown_context, empty_ip_datagram,
}
use porta.Wire.Masque.Varint.{encode_varint, parse_varint, read_varint, read_exact}

abbrev pub max_capsule_size : ℕ
max_capsule_size = 1048576

abbrev pub capsule_datagram : ℕ
capsule_datagram = 0

pub record Capsule : Type 0 where
  pub capsule_type : ℕ
  pub value : Bytes

-- `Write::write_all` reports a writer that takes nothing as `WriteZero`.
abbrev pub io_write_errors : WriteErrors MasqueError
io_write_errors = record { nothing_taken = io write_zero; other = λ code. io (failed code) }

abbrev pub Written : Type 0
Written = Except MasqueError (Unit {0}) × Writer

abbrev pub and_then : Bytes → Written → Written
and_then value (ok _, w) = write_all io_write_errors value w.taken w.plan
and_then value (err e, w) = (err e, w)

-- The header goes out in one call and the value in another.
abbrev pub write_both : Except MasqueError Bytes → Bytes → Writer → Written
write_both (ok header) value w = and_then value (write_all io_write_errors header w.taken w.plan)
write_both (err e) value w = (err e, w)

abbrev pub capsule_header : ℕ → ℕ → Bytes → Except MasqueError Bytes
capsule_header capsule_type size context = do
  t ← encode_varint capsule_type
  n ← encode_varint size
  ok (t ++ (n ++ context))

-- `Encoder::write`.
pub write : ℕ → Bytes → Writer → Written
write capsule_type value w =
    if ltb max_capsule_size (length value)
    then (err capsule_too_large, w)
    else write_both (capsule_header capsule_type (length value) []) value w

-- `Encoder::write_ip_packet`: a DATAGRAM capsule whose value is context 0 and the packet.
pub write_ip_packet : Bytes → Writer → Written
write_ip_packet packet w =
    if leb max_capsule_size (length packet)
    then (err capsule_too_large, w)
    else write_both (capsule_header capsule_datagram (length packet + 1) (0 ∷ [])) packet w

-- `map_capsule_length_read_error`.
pub map_capsule_length_read_error : MasqueError → MasqueError
map_capsule_length_read_error (io e) = read_capsule_length e
map_capsule_length_read_error e = e

abbrev pub after_value : ℕ → Except IoError Bytes × Reader → Except MasqueError Capsule × Reader
after_value capsule_type (ok value, s) =
    (ok (record { capsule_type = capsule_type; value = value }), s)
after_value capsule_type (err e, s) = (err (read_capsule_value e), s)

abbrev pub after_length : ℕ → Except MasqueError ℕ × Reader → Except MasqueError Capsule × Reader
after_length capsule_type (ok size, s) =
    if ltb max_capsule_size size
    then (err capsule_too_large, s)
    else after_value capsule_type (read_exact size s)
after_length capsule_type (err e, s) = (err (map_capsule_length_read_error e), s)

abbrev pub after_type : Except MasqueError ℕ × Reader → Except MasqueError Capsule × Reader
after_type (ok capsule_type, s) = after_length capsule_type (read_varint s)
after_type (err e, s) = (err e, s)

-- `Decoder::read`, and `read_into` on a buffer whose contents are overwritten.
pub read : Reader → Except MasqueError Capsule × Reader
read s = after_type (read_varint s)

pub encode_ip_packet : Bytes → Bytes
encode_ip_packet packet = 0 ∷ packet

pub decode_ip_packet : Bytes → Except MasqueError Bytes
decode_ip_packet value = do
  (context_id, consumed) ← parse_varint value
  if not (context_id == 0)
      then err (unknown_context context_id)
      else if length value == consumed
      then err empty_ip_datagram
      else ok (drop consumed value)
