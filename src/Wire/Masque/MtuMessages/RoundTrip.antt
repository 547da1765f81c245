-- ===== src/Wire/Masque/MtuMessages/RoundTrip.antt =====
-- The MTU messages of masque.rs are read back as they were written.
use porta.Prelude.Except.{ok, err}
use porta.Prelude.Map.{nat_eq, list_beq_iff}
use porta.Prelude.{
  ℕ, zero, suc, ◌+◌, ◌-◌, ◌≤◌, ◌<◌, ◌^◌, ◌≡◌, ◌≢◌, refl, ap, sym, ◌∙◌, false, [], ◌∷◌, ◌++◌, arith,
  length, drop, replicate, length-append, length-replicate, take-append, drop-append,
}
use porta.Wire.Bytes.{Bytes, be_bytes, from_be-be_bytes}
use porta.Wire.Masque.{invalid_mtu_message}
use porta.Wire.Masque.MtuMessages.{
  MtuProbe, safe_mtu, max_discovered_mtu, encode_mtu_probe, decode_mtu_probe, any_nonzero,
  encode_mtu_selection, decode_mtu_selection,
}
use porta.Prelude.{◌⊎◌}

any_nonzero-replicate : (n : ℕ) → any_nonzero (replicate n 0) ≡ false
any_nonzero-replicate zero = refl
any_nonzero-replicate (suc n) = any_nonzero-replicate n

drop_past : (xs ys : Bytes) (n k : ℕ) → n ≡ length xs + k → drop n (xs ++ ys) ≡ drop k ys
drop_past [] ys n k e = ap (λ (t : ℕ). drop t ys) (e ∙ omega arith)
drop_past (x ∷ xs) ys zero k e = absurd (omega arith)
drop_past (x ∷ xs) ys (suc n) k e = drop_past xs ys n k (omega arith)

-- A probe with a size from 1100 to 1400 and a nonzero 16-bit sequence number is read back from its
-- encoding, which is one byte longer than that size; any other is refused.
pub decode_mtu_probe-encode_mtu_probe :
    (probe : MtuProbe)
    → length probe.token ≡ 16
    → probe.sequence < 2 ^ 16
    → (safe_mtu ≤ probe.size
        → probe.size ≤ max_discovered_mtu
        → probe.sequence ≢ 0
        → (bytes : Bytes) × (encode_mtu_probe probe ≡ ok bytes)
          × (length bytes ≡ suc probe.size)
          × (decode_mtu_probe bytes ≡ ok probe))
      × ((probe.size < safe_mtu) ⊎ (max_discovered_mtu < probe.size) ⊎ (probe.sequence ≡ 0)
          → encode_mtu_probe probe ≡ err invalid_mtu_message)
unfolding encode_mtu_probe decode_mtu_probe
decode_mtu_probe-encode_mtu_probe probe t s = (accepted, λ bad. ground arith)
  where
    fields : Bytes
    fields =
        be_bytes 2 probe.sequence ++ (be_bytes 2 probe.size ++ replicate (probe.size + 1 - 21) 0)

    long : safe_mtu ≤ probe.size → length (1 ∷ (probe.token ++ fields)) ≡ suc probe.size
    long low =
        let zeros : length (replicate {A = ℕ} (probe.size + 1 - 21) 0) ≡ probe.size + 1 - 21 =
          length-replicate (probe.size + 1 - 21) 0 in
        omega (arith, length-append probe.token fields, zeros)

    decoded :
        safe_mtu ≤ probe.size
        → probe.size ≤ max_discovered_mtu
        → probe.sequence ≢ 0
        → decode_mtu_probe (1 ∷ (probe.token ++ fields)) ≡ ok probe
    decoded low high n = ground (
      arith,
      long low,
      take-append probe.token fields 16 (sym t),
      drop-append probe.token fields 16 (sym t),
      drop_past probe.token fields 18 2 (omega arith),
      drop_past probe.token fields 20 4 (omega arith),
      from_be-be_bytes 2 probe.sequence s,
      from_be-be_bytes 2 probe.size (omega arith),
      any_nonzero-replicate (probe.size + 1 - 21),
    )

    accepted :
        safe_mtu ≤ probe.size
        → probe.size ≤ max_discovered_mtu
        → probe.sequence ≢ 0
        → (bytes : Bytes) × (encode_mtu_probe probe ≡ ok bytes)
          × (length bytes ≡ suc probe.size)
          × (decode_mtu_probe bytes ≡ ok probe)
    accepted low high n = (1 ∷ (probe.token ++ fields), ground arith, long low, decoded low high n)

-- A selection is read back with the token that it was made for, and refused with any other.
pub decode_mtu_selection-encode_mtu_selection :
    (token other : Bytes) (mtu : ℕ)
    → length token ≡ 16
    → mtu < 2 ^ 16
    → (decode_mtu_selection (encode_mtu_selection token mtu) token ≡ ok mtu)
      × (other ≢ token
          → decode_mtu_selection (encode_mtu_selection token mtu) other ≡ err invalid_mtu_message)
unfolding decode_mtu_selection encode_mtu_selection
decode_mtu_selection-encode_mtu_selection token other mtu t m = ground (
  arith,
  take-append token (be_bytes 2 mtu) 16 (sym t),
  drop-append token (be_bytes 2 mtu) 16 (sym t),
  length-append token (be_bytes 2 mtu),
  list_beq_iff token token,
  list_beq_iff token other,
  from_be-be_bytes 2 mtu m,
)
