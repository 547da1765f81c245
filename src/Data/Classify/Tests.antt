-- ===== src/Data/Classify/Tests.antt =====
-- The server's classifier on a packet of ip.rs's tests.
use porta.Prelude.{◌≡◌, [], ◌∷◌}
use porta.Wire.Bytes.{Bytes}
use porta.Wire.Ip.Classify
use porta.Data.Classify.{classify_ipv4}
use porta.Data.Classify.SameAsWire.{wire_metadata, classify_ipv4-wire}

abbrev query : Bytes
query =
    0x45 ∷ 0 ∷ 0 ∷ 28 ∷ 0 ∷ 0 ∷ 0 ∷ 0 ∷ 64 ∷ 17 ∷ 0 ∷ 0 ∷ 10 ∷ 0 ∷ 0 ∷ 1 ∷ 1 ∷ 1 ∷ 1 ∷ 1 ∷ 0x30
    ∷ 0x39 ∷ 0 ∷ 53 ∷ 0 ∷ 0 ∷ 0 ∷ 0 ∷ []

classify_ipv4-wire_example : wire_metadata (classify_ipv4 query) ≡ Classify.classify_ipv4 query
classify_ipv4-wire_example = classify_ipv4-wire query
