-- ===== src/Wire/Masque/MtuMessages/Tests.antt =====
-- A probe and a selection of masque.rs that are read back.
use porta.Prelude.Except.{ok, err}
use porta.Prelude.{◌≡◌, ◌≢◌, refl, [], length, arith, replicate}
use porta.Wire.Bytes.{Bytes}
use porta.Wire.Masque.{invalid_mtu_message}
use porta.Wire.Masque.MtuMessages.{
  MtuProbe, encode_mtu_probe, decode_mtu_probe, encode_mtu_selection, decode_mtu_selection,
}
use porta.Wire.Masque.MtuMessages.RoundTrip.{
  decode_mtu_probe-encode_mtu_probe, decode_mtu_selection-encode_mtu_selection,
}

abbrev token : Bytes
token = replicate 16 3

abbrev probe : MtuProbe
probe = record { token = token; sequence = 1; size = 1280 }

decode_mtu_probe-encode_mtu_probe_example :
    (bytes : Bytes) × (encode_mtu_probe probe ≡ ok bytes)
    × (length bytes ≡ 1281)
    × (decode_mtu_probe bytes ≡ ok probe)
decode_mtu_probe-encode_mtu_probe_example =
    (decode_mtu_probe-encode_mtu_probe probe refl (omega arith)).0 (omega arith) (omega arith)
      (omega arith)

decode_mtu_selection-encode_mtu_selection_example :
    (decode_mtu_selection (encode_mtu_selection token 1280) token ≡ ok 1280)
    × ([] ≢ token
        → decode_mtu_selection (encode_mtu_selection token 1280) [] ≡ err invalid_mtu_message)
decode_mtu_selection-encode_mtu_selection_example =
    decode_mtu_selection-encode_mtu_selection token [] 1280 refl (omega arith)
