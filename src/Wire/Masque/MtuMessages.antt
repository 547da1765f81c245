-- ===== src/Wire/Masque/MtuMessages.antt =====
-- The MTU discovery messages of masque.rs. An `MtuToken` is a list of 16 bytes.
pub mod RoundTrip
mod Tests
use porta.Prelude.{
  ℕ, suc, ◌+◌, ◌-◌, Bool, true, false, not, ◌&&◌, ◌||◌, List, [], ◌∷◌, ◌++◌, length, take, drop,
  replicate, ◌==◌, ltb, leb, if◌then◌else◌,
}
use porta.Prelude.Except.{Except, ok, err}
use porta.Prelude.Map.{nat_eq, list_beq}
use porta.Wire.Bytes.{Bytes, be_bytes, from_be}
use porta.Wire.Masque.{MasqueError, invalid_mtu_message}

abbrev pub safe_mtu : ℕ
safe_mtu = 1100

abbrev pub max_discovered_mtu : ℕ
max_discovered_mtu = 1400

pub record MtuProbe : Type 0 where
  pub token : Bytes
  pub sequence : ℕ
  pub size : ℕ

-- The vector of `size + 1` zeros with the fields copied over its first 21 bytes.
pub encode_mtu_probe : MtuProbe → Except MasqueError Bytes
encode_mtu_probe probe =
    if not (leb safe_mtu probe.size && leb probe.size max_discovered_mtu) || probe.sequence == 0
    then err invalid_mtu_message
    else ok (
        1
        ∷ (probe.token
            ++ (be_bytes 2 probe.sequence
                ++ (be_bytes 2 probe.size ++ replicate (probe.size + 1 - 21) 0))))

abbrev pub is_mtu_probe : Bytes → Bool
is_mtu_probe [] = false
is_mtu_probe (first ∷ _) = first == 1

-- `data[21..].iter().any(|&value| value != 0)`.
abbrev pub any_nonzero : Bytes → Bool
any_nonzero [] = false
any_nonzero (value ∷ rest) = not (value == 0) || any_nonzero rest

pub decode_mtu_probe : Bytes → Except MasqueError MtuProbe
decode_mtu_probe bytes =
    if not (is_mtu_probe bytes)
      || (ltb (length bytes) (safe_mtu + 1) || ltb (max_discovered_mtu + 1) (length bytes))
    then err invalid_mtu_message
    else (let sequence = from_be (take 2 (drop 17 bytes)) in
        let size = from_be (take 2 (drop 19 bytes)) in
        if sequence == 0 || (not (size == length bytes - 1) || any_nonzero (drop 21 bytes))
        then err invalid_mtu_message
        else ok (record { token = take 16 (drop 1 bytes); sequence = sequence; size = size }))

pub encode_mtu_selection : Bytes → ℕ → Bytes
encode_mtu_selection token mtu = token ++ be_bytes 2 mtu

pub decode_mtu_selection : Bytes → Bytes → Except MasqueError ℕ
decode_mtu_selection bytes token =
    if not (length bytes == 18) || not (list_beq (take 16 bytes) token)
    then err invalid_mtu_message
    else ok (from_be (take 2 (drop 16 bytes)))
