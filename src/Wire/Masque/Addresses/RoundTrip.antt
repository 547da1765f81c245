-- ===== src/Wire/Masque/Addresses/RoundTrip.antt =====
-- The addresses of masque.rs that are written are read back.
use porta.Prelude.{
  ℕ, zero, suc, ◌≤◌, ◌<◌, ◌≡◌, refl, ap, sym, ◌∙◌, subst, true, false, not, some, List, [], ◌∷◌,
  ◌++◌, length, take, drop, get_or, All, arith, take-append, drop-append, length-append,
  append_assoc, ltb,
}
use porta.Prelude.Except.{Except-cases, ok, ◌>>=◌}
use porta.Prelude.Map.{nat_eq, list_beq}
use porta.Wire.Bytes.{Bytes}
use porta.Wire.Masque.Varint.{encode_varint}
use porta.Wire.Masque.Varint.RoundTrip.{parse_varint-append}
use porta.Wire.Masque.Addresses.{
  NetFamily, IpNet, v4, v6, Address, net_bytes, prefix_bytes, encode_addresses, decode_net,
  decode_prefix, decode_addresses, encode_address_request, decode_address_request,
  encode_address_assign, decode_address_assign,
}
use porta.Prelude.{inl}
use porta.Wire.Masque.Addresses.{masked}
use porta.Prelude.{if_false, inr}
use porta.Prelude.{le→ltb}
use porta.Wire.Masque.Addresses.{is_empty}
use porta.Prelude.{◌⊎◌}
use porta.Wire.Masque.Addresses.{any_zero}
use porta.Wire.Masque.Addresses.{requested}

-- What the crate says of a prefix of a family with so many octets and bits.
pub record IsNet (V : NetFamily) (octets bits : ℕ) (p : V.Net) : Type 0 where
  pub rebuilt : V.new (V.addr p) (V.prefix_len p) ≡ some p
  pub sized : length (V.addr p) ≡ octets
  pub short : V.prefix_len p ≤ bits

module _ (V4 V6 : NetFamily) where
  abbrev pub IsPrefix : IpNet V4 V6 → Type 0
  IsPrefix (v4 p) = IsNet V4 4 32 p
  IsPrefix (v6 p) = IsNet V6 16 128 p

  abbrev pub IsAddress : Address V4 V6 → Type 0
  IsAddress a = IsPrefix a.prefix

get_or-append :
    (xs : Bytes) (b : ℕ) (ys : Bytes) (n : ℕ)
    → length xs ≡ n
    → get_or ((xs ++ b ∷ []) ++ ys) n 0 ≡ b
get_or-append [] b ys n h = subst (λ k. get_or (b ∷ ys) k 0 ≡ b) h refl
get_or-append (x ∷ xs) b ys zero h = absurd (omega arith)
get_or-append (x ∷ xs) b ys (suc n) h = get_or-append xs b ys n (omega arith)

abbrev prefix_octets : (V : NetFamily) → V.Net → Bytes
prefix_octets V p = V.addr p ++ V.prefix_len p ∷ []

net_bytes-ok :
    (V4 V6 V : NetFamily) (version : ℕ) (p : V.Net) (bytes : Bytes)
    → net_bytes V4 V6 V version p ≡ ok bytes
    → (bytes ≡ version ∷ prefix_octets V p) × (list_beq (V.addr p) (V.network p) ≡ true)
net_bytes-ok V4 V6 V version p bytes h = (ground (arith, h), ground (arith, h))

-- A prefix that was written is read back, whatever follows.
decode_net-prefix_octets :
    (V4 V6 V : NetFamily) (octets bits : ℕ) (p : V.Net) (tail : Bytes)
    → IsNet V octets bits p
    → list_beq (V.addr p) (V.network p) ≡ true
    → (decode_net V4 V6 V octets bits (prefix_octets V p ++ tail) ≡ ok p)
      × (drop (suc octets) (prefix_octets V p ++ tail) ≡ tail)
decode_net-prefix_octets V4 V6 V octets bits p tail v h =
    let value = prefix_octets V p ++ tail in
    let sized = v.sized in
    let size : length (prefix_octets V p) ≡ suc octets =
      omega (arith, length-append (V.addr p) (V.prefix_len p ∷ []), sized) in
    let at : get_or value octets 0 ≡ V.prefix_len p =
      get_or-append (V.addr p) (V.prefix_len p) tail octets v.sized in
    let bits_fit = v.short in
    let taken : take octets value ≡ V.addr p =
      ap (take octets) (append_assoc (V.addr p) (V.prefix_len p ∷ []) tail)
      ∙ take-append (V.addr p) (V.prefix_len p ∷ tail) octets (sym v.sized) in
    let made : V.new (take octets value) (get_or value octets 0) ≡ some p =
      ap (λ b. V.new b (get_or value octets 0)) taken ∙ (ap (V.new (V.addr p)) at ∙ v.rebuilt) in
    let whole : masked V4 V6 V (V.new (take octets value) (get_or value octets 0)) ≡ ok p =
      ap (masked V4 V6 V) made ∙ if_false _ _ _ (ap not h) in
    let long : ltb (length value) (suc octets) ≡ false =
      le→ltb (length value) (suc octets)
        (omega (arith, size, length-append (prefix_octets V p) tail)) in
    let fitting : ltb bits (get_or value octets 0) ≡ false =
      le→ltb bits (get_or value octets 0) (subst (λ n. n ≤ bits) (sym at) v.short) in
    (
      if_false _ _ _ long ∙ (if_false _ _ _ fitting ∙ whole),
      drop-append (prefix_octets V p) tail (suc octets) (sym size),
    )

decode_prefix-prefix_bytes :
    (V4 V6 : NetFamily) (p : IpNet V4 V6) (bytes tail : Bytes)
    → IsPrefix V4 V6 p
    → prefix_bytes V4 V6 p ≡ ok bytes
    → (version : ℕ) × (rest : Bytes) × (bytes ≡ version ∷ rest)
      × (decode_prefix V4 V6 version (rest ++ tail) ≡ ok (p, tail))
decode_prefix-prefix_bytes V4 V6 (v4 p) bytes tail v h =
    let (b, t) = net_bytes-ok V4 V6 V4 4 p bytes h in
    let (d, left) = decode_net-prefix_octets V4 V6 V4 4 32 p tail v t in
    (
      4,
      prefix_octets V4 p,
      b,
      ap (λ r. r >>= λ q. ok (v4 q, drop 5 (prefix_octets V4 p ++ tail))) d
          ∙ ap (λ (t : Bytes). ok (v4 p, t)) left,
    )
decode_prefix-prefix_bytes V4 V6 (v6 p) bytes tail v h =
    let (b, t) = net_bytes-ok V4 V6 V6 6 p bytes h in
    let (d, left) = decode_net-prefix_octets V4 V6 V6 16 128 p tail v t in
    (
      6,
      prefix_octets V6 p,
      b,
      ap (λ r. r >>= λ q. ok (v6 q, drop 17 (prefix_octets V6 p ++ tail))) d
          ∙ ap (λ (t : Bytes). ok (v6 p, t)) left,
    )

encode_addresses-cons :
    (V4 V6 : NetFamily) (a : Address V4 V6) (rest : List (Address V4 V6)) (bytes : Bytes)
    → encode_addresses V4 V6 (a ∷ rest) ≡ ok bytes
    → (id prefix tail : Bytes) × (encode_varint a.request_id ≡ ok id)
      × (prefix_bytes V4 V6 a.prefix ≡ ok prefix)
      × (encode_addresses V4 V6 rest ≡ ok tail)
      × (bytes ≡ id ++ (prefix ++ tail))
unfolding encode_addresses
encode_addresses-cons V4 V6 a rest bytes h = elim (Except-cases (encode_varint a.request_id)) [
  | inl (e, i) ↦ absurd (ground (arith, h, i))
  | inr (id, i) ↦ elim (Except-cases (prefix_bytes V4 V6 a.prefix)) [
    | inl (e, k) ↦ absurd (ground (arith, h, i, k))
    | inr (prefix, k) ↦ elim (Except-cases (encode_addresses V4 V6 rest)) [
      | inl (e, t) ↦ absurd (ground (arith, h, i, k, t))
      | inr (tail, t) ↦ (id, prefix, tail, i, k, t, ground (arith, h, i, k, t))
    ]
  ]
]

suc_or_zero : (n : ℕ) → (n ≡ 0) ⊎ ((m : ℕ) × (n ≡ suc m))
suc_or_zero zero = inl refl
suc_or_zero (suc m) = inr (m, refl)

-- A round of the decoder on an identifier and a prefix that were written.
decode_addresses-cons :
    (V4 V6 : NetFamily) (fuel : ℕ) (a : Address V4 V6) (id prefix tail : Bytes)
    → IsAddress V4 V6 a
    → encode_varint a.request_id ≡ ok id
    → prefix_bytes V4 V6 a.prefix ≡ ok prefix
    → decode_addresses V4 V6 (suc fuel) (id ++ (prefix ++ tail))
      ≡ (decode_addresses V4 V6 fuel tail >>= λ addresses. ok (a ∷ addresses))
unfolding decode_addresses
decode_addresses-cons V4 V6 fuel a [] prefix tail v i k =
    absurd (omega (arith, (parse_varint-append a.request_id [] [] i).1))
decode_addresses-cons V4 V6 fuel a (first ∷ id) prefix tail v i k =
    let (version, rest, b, d) = decode_prefix-prefix_bytes V4 V6 a.prefix prefix tail v k in
    let parsed = (parse_varint-append a.request_id (first ∷ id) (prefix ++ tail) i).0 in
    let left = drop-append (first ∷ id) (prefix ++ tail) (length (first ∷ id)) refl in
    rw (parsed, left, b, d) refl

decode_addresses-encode_addresses :
    (V4 V6 : NetFamily) (addresses : List (Address V4 V6)) (fuel : ℕ) (bytes : Bytes)
    → All (IsAddress V4 V6) addresses
    → encode_addresses V4 V6 addresses ≡ ok bytes
    → length bytes ≤ fuel
    → decode_addresses V4 V6 fuel bytes ≡ ok addresses
unfolding encode_addresses decode_addresses
decode_addresses-encode_addresses V4 V6 [] fuel bytes a e n =
    let empty : [] ≡ bytes = cc e in subst (λ b. decode_addresses V4 V6 fuel b ≡ ok []) empty refl
decode_addresses-encode_addresses V4 V6 (r ∷ rest) fuel bytes (h, a) e n =
    let (id, prefix, tail, i, k, t, b) = encode_addresses-cons V4 V6 r rest bytes e in
    let some_bytes = (parse_varint-append r.request_id id [] i).1 in
    let shorter : length tail < length bytes = omega (
      arith,
      some_bytes,
      ap length b,
      length-append id (prefix ++ tail),
      length-append prefix tail,
    ) in
    elim (suc_or_zero fuel) [
      | inl z ↦ absurd (omega (arith, shorter, z, n))
      | inr (m, z) ↦
          subst (λ f. decode_addresses V4 V6 f bytes ≡ ok (r ∷ rest)) (sym z)
            (ap (decode_addresses V4 V6 (suc m)) b
              ∙ (decode_addresses-cons V4 V6 m r id prefix tail h i k
                  ∙ ap (λ x. x >>= λ addresses. ok (r ∷ addresses))
                      (decode_addresses-encode_addresses V4 V6 rest m tail a t
                        (omega (arith, shorter, z, n)))))
    ]

-- Addresses that the crate can rebuild, if a request of them can be encoded, are decoded from their
-- encoding as a request; the same holds of an assignment.
pub decode_address-encode_address :
    (V4 V6 : NetFamily) (addresses : List (Address V4 V6)) (bytes : Bytes)
    → All (IsAddress V4 V6) addresses
    → (encode_address_request V4 V6 addresses ≡ ok bytes
        → decode_address_request V4 V6 bytes ≡ ok addresses)
      × (encode_address_assign V4 V6 addresses ≡ ok bytes
          → decode_address_assign V4 V6 bytes ≡ ok addresses)
unfolding encode_address_request encode_address_assign decode_address_request decode_address_assign
decode_address-encode_address V4 V6 addresses bytes a = (
  λ h.
      let filled : is_empty V4 V6 addresses ≡ false = ground (arith, h) in
      let nonzero : any_zero V4 V6 addresses ≡ false = ground (arith, h) in
      let encoded : encode_addresses V4 V6 addresses ≡ ok bytes = ground (arith, h) in
      ap (λ r. r >>= requested V4 V6)
        (decode_addresses-encode_addresses V4 V6 addresses (length bytes) bytes a encoded
          (omega arith))
      ∙ (if_false _ _ _ filled ∙ if_false _ _ _ nonzero),
  λ h. decode_addresses-encode_addresses V4 V6 addresses (length bytes) bytes a h (omega arith),
)
