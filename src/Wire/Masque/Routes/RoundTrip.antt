-- ===== src/Wire/Masque/Routes/RoundTrip.antt =====
-- The routes of masque.rs that are written are read back.
use porta.Prelude.{
  subst, ℕ, zero, suc, ◌+◌, ◌*◌, ◌≤◌, ◌<◌, ◌^◌, ◌≡◌, refl, ap, sym, ◌∙◌, true, false, not, ◌||◌,
  Option, none, some, List, [], ◌∷◌, ◌++◌, length, drop, All, arith, ◌==◌, ltb, length-append,
  if_false, inl, inr,
}
use porta.Prelude.Except.{Except-cases, ok, ◌>>=◌}
use porta.Wire.Bytes.{Bytes, from_be-be_bytes}
use porta.Wire.Masque.Routes.{
  IpAddr, v4, v6, Route, same_address_family, addr_ltb, follows, octets, version_of, route_bytes,
  encode_routes, encode_route_advertisement, address_length, route_at, decode_routes,
  decode_route_advertisement,
}

abbrev pub IsAddr : IpAddr → Type 0
IsAddr (v4 a) = a < 2 ^ 32
IsAddr (v6 a) = a < 2 ^ 128

abbrev pub IsRoute : Route → Type 0
IsRoute r = IsAddr r.start × IsAddr r.end

abbrev pub body : Route → Bytes
body r = octets r.start ++ (octets r.end ++ r.protocol ∷ [])

route_at-body :
    (s e : IpAddr) (p : ℕ) (tail : Bytes)
    → same_address_family s e ≡ true
    → IsAddr s
    → IsAddr e
    → let r : Route = record { start = s; end = e; protocol = p } in
      (route_at (version_of s) (body r ++ tail) ≡ r)
      × (drop (address_length (version_of s) * 2 + 1) (body r ++ tail) ≡ tail)
      × (ltb (length (body r ++ tail)) (address_length (version_of s) * 2 + 1) ≡ false)
      × (not (version_of s == 4 || version_of s == 6) ≡ false)
unfolding same_address_family
route_at-body (v4 a) (v4 b) p tail f h k =
    let x = from_be-be_bytes 4 a (omega arith) in
    let y = from_be-be_bytes 4 b (omega arith) in
    (λ i. record { start = v4 (x i); end = v4 (y i); protocol = p }, refl, ground arith, refl)
route_at-body (v6 a) (v6 b) p tail f h k =
    let x = from_be-be_bytes 16 a (omega arith) in
    let y = from_be-be_bytes 16 b (omega arith) in
    (λ i. record { start = v6 (x i); end = v6 (y i); protocol = p }, refl, ground arith, refl)
route_at-body (v4 a) (v6 b) p tail f h k = cc f
route_at-body (v6 a) (v4 b) p tail f h k = cc f

decode_routes-cons :
    (fuel : ℕ) (previous : Option Route) (version : ℕ) (value : Bytes) (route : Route)
    → not (version == 4 || version == 6) ≡ false
    → ltb (length value) (address_length version * 2 + 1) ≡ false
    → route_at version value ≡ route
    → addr_ltb route.end route.start ≡ false
    → follows previous route ≡ true
    → decode_routes (suc fuel) previous (version ∷ value) ≡ (
        decode_routes fuel (some route) (drop (address_length version * 2 + 1) value) >>= λ routes.
        ok (route ∷ routes))
unfolding decode_routes
decode_routes-cons fuel previous version value route v l e o f =
    if_false _ _ _ v
    ∙ (if_false _ _ _ l
        ∙ (if_false _ _ _ (ap (λ (t : Route). addr_ltb t.end t.start) e ∙ o)
            ∙ (if_false _ _ _ (ap (λ (t : Route). not (follows previous t)) e ∙ ap not f)
                ∙ ap
                    (λ (t : Route).
                      decode_routes fuel (some t) (drop (address_length version * 2 + 1) value)
                      >>= λ routes. ok (t ∷ routes))
                    e)))

encode_routes-cons :
    (previous : Option Route) (r : Route) (rest : List Route) (bytes : Bytes)
    → encode_routes previous (r ∷ rest) ≡ ok bytes
    → (tail : Bytes) × (encode_routes (some r) rest ≡ ok tail)
      × (bytes ≡ route_bytes r ++ tail)
      × (same_address_family r.start r.end ≡ true)
      × (addr_ltb r.end r.start ≡ false)
      × (follows previous r ≡ true)
unfolding encode_routes
encode_routes-cons previous r rest bytes h = elim (Except-cases (encode_routes (some r) rest)) [
  | inl (e, k) ↦ absurd (ground (arith, h, k))
  | inr (tail, k) ↦ (
    tail,
    k,
    ground (arith, h, k),
    ground (arith, h, k),
    ground (arith, h, k),
    ground (arith, h, k),
  )
]

decode_routes-encode_routes :
    (routes : List Route) (fuel : ℕ) (previous : Option Route) (bytes : Bytes)
    → All IsRoute routes
    → encode_routes previous routes ≡ ok bytes
    → length bytes ≤ fuel
    → decode_routes fuel previous bytes ≡ ok routes
unfolding encode_routes decode_routes
decode_routes-encode_routes [] fuel previous bytes a e n =
    let empty : [] ≡ bytes = cc e in subst (λ b. decode_routes fuel previous b ≡ ok []) empty refl
decode_routes-encode_routes (r ∷ rest) zero previous bytes a e n =
    let (tail, k, b, fam, o, f) = encode_routes-cons previous r rest bytes e in
    absurd (omega (arith, ap length b))
decode_routes-encode_routes (r ∷ rest) (suc fuel) previous bytes (h, a) e n =
    let (tail, k, b, fam, o, f) = encode_routes-cons previous r rest bytes e in
    let (at, left, long, known) = route_at-body r.start r.end r.protocol tail fam h.0 h.1 in
    let ih =
      decode_routes-encode_routes rest fuel (some r) tail a k
        (omega (arith, ap length b, length-append (body r) tail)) in
    subst (λ t. decode_routes (suc fuel) previous t ≡ ok (r ∷ rest)) (sym b)
      (decode_routes-cons fuel previous (version_of r.start) (body r ++ tail) r known long at o f
        ∙ ap (λ t. decode_routes fuel (some r) t >>= λ routes. ok (r ∷ routes)) left
        ∙ ap (λ t. t >>= λ routes. ok (r ∷ routes)) ih)

-- Routes whose addresses are in their ranges, if they can be encoded, are decoded from their encoding.
pub decode_route_advertisement-encode_route_advertisement :
    (routes : List Route) (bytes : Bytes)
    → All IsRoute routes
    → encode_route_advertisement routes ≡ ok bytes
    → decode_route_advertisement bytes ≡ ok routes
unfolding encode_route_advertisement decode_route_advertisement
decode_route_advertisement-encode_route_advertisement routes bytes a e =
    decode_routes-encode_routes routes (length bytes) none bytes a e (omega arith)
