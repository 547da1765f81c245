-- ===== src/Wire/Masque/Routes/Order.antt =====
-- Decoded routes of masque.rs are ordered and do not overlap.
use porta.Prelude.{
  not-false, length, ℕ, zero, suc, ◌+◌, ◌*◌, ◌≤◌, ◌<◌, ◌≡◌, ◌⊎◌, true, false, not, Option, none,
  some, List, [], ◌∷◌, All, arith, subst, drop,
}
use porta.Prelude.Except.{Except, ok, err, ◌>>=◌}
use porta.Wire.Bytes.{Bytes}
use porta.Wire.Masque.{
  malformed_route_detail, malformed_route, decoded_routes_not_ordered, MasqueError,
}
use porta.Wire.Masque.Routes.{
  decode_round, IpAddr, v4, v6, Route, addr_ltb, follows, version_of, compare_routes, decode_routes,
  decode_route_advertisement, route_at, address_length,
}
use porta.Prelude.Except.{reject_cases}
use porta.Prelude.{if◌then◌else◌}
use porta.Prelude.{ltb}
use porta.Prelude.{◌==◌}
use porta.Prelude.{◌||◌}

abbrev pub number : IpAddr → ℕ
number (v4 a) = a
number (v6 a) = a

-- An earlier route has an earlier family, or in its family a lower protocol, or with its protocol
-- addresses that are all lower.
abbrev pub Before : Route → Route → Type 0
Before r s =
    (version_of r.start < version_of s.start)
    ⊎ ((version_of r.start ≡ version_of s.start)
        × ((r.protocol < s.protocol)
            ⊎ ((r.protocol ≡ s.protocol) × (number r.end < number s.start))))

abbrev pub IsProper : Route → Type 0
IsProper r = (version_of r.start ≡ version_of r.end) × (number r.start ≤ number r.end)

abbrev pub AreApart : List Route → Type 0
AreApart [] = Unit {0}
AreApart (r ∷ rest) = All (Before r) rest × AreApart rest

follows-Before :
    (a b c d : IpAddr) (p q : ℕ)
    → let r : Route = record { start = a; end = b; protocol = p } in
      let s : Route = record { start = c; end = d; protocol = q } in
      version_of a ≡ version_of b → follows (some r) s ≡ true → Before r s
unfolding compare_routes
follows-Before (v4 a) (v4 b) (v4 c) d p q f h = ground arith
follows-Before (v4 a) (v4 b) (v6 c) d p q f h = ground arith
follows-Before (v6 a) (v6 b) (v4 c) d p q f h = ground arith
follows-Before (v6 a) (v6 b) (v6 c) d p q f h = ground arith
follows-Before (v4 a) (v6 b) c d p q f h = absurd (omega arith)
follows-Before (v6 a) (v4 b) c d p q f h = absurd (omega arith)

Before-trans : (r s t : Route) → IsProper s → Before r s → Before s t → Before r t
Before-trans r s t p h k = ground arith

All-Before :
    (r s : Route) (ts : List Route)
    → IsProper s
    → Before r s
    → All (Before s) ts
    → All (Before r) ts
All-Before r s [] p h a = tt
All-Before r s (t ∷ ts) p h (k, a) = (Before-trans r s t p h k, All-Before r s ts p h a)

-- What the decoder has after the route before, if there is one.
abbrev Ordered : Option Route → Except MasqueError (List Route) → Type 0
Ordered previous (err e) = Unit {0}
Ordered none (ok routes) = AreApart routes × All IsProper routes
Ordered (some r) (ok routes) = All (Before r) routes × AreApart routes × All IsProper routes

abbrev IsFit : Option Route → Type 0
IsFit none = Unit {0}
IsFit (some r) = IsProper r

cons-Ordered :
    (previous : Option Route) (r : Route) (x : Except MasqueError (List Route))
    → IsFit previous
    → IsProper r
    → follows previous r ≡ true
    → Ordered (some r) x
    → Ordered previous (x >>= λ routes. ok (r ∷ routes))
cons-Ordered none r (err e) i p f o = tt
cons-Ordered (some q) r (err e) i p f o = tt
cons-Ordered none r (ok routes) i p f (a, b, c) = ((a, b), (p, c))
cons-Ordered (some q) r (ok routes) i p f (a, b, c) =
    let h = follows-Before q.start q.end r.start r.end q.protocol r.protocol i.0 f in
    ((h, All-Before q r routes p h a), (a, b), (p, c))

route_at-IsProper :
    (version : ℕ) (value : Bytes)
    → addr_ltb (route_at version value).end (route_at version value).start ≡ false
    → IsProper (route_at version value)
route_at-IsProper version value h = ground (arith, h)

refused-Ordered : (previous : Option Route) (e : MasqueError) → Ordered previous (err e)
refused-Ordered none e = tt
refused-Ordered (some r) e = tt

decode_round_cases :
    (P : Except MasqueError (List Route) → Type 0) (previous : Option Route) (version : ℕ)
    (value : Bytes) (rest : Except MasqueError (List Route))
    → ((e : MasqueError) → P (err e))
    → (let route = route_at version value in
        addr_ltb route.end route.start ≡ false
        → follows previous route ≡ true
        → P (rest >>= λ routes. ok (route ∷ routes)))
    → P (decode_round previous version value rest)
unfolding decode_round
decode_round_cases P previous version value rest e x =
    let n = address_length version * 2 + 1 in
    let route = route_at version value in
    let decoded : Except MasqueError (List Route) = rest >>= λ routes. ok (route ∷ routes) in
    let ordered : Except MasqueError (List Route) =
      if not (follows previous route) then err decoded_routes_not_ordered else decoded in
    let proper : Except MasqueError (List Route) =
      if addr_ltb route.end route.start then err malformed_route else ordered in
    let whole : Except MasqueError (List Route) =
      if ltb (length value) n then err malformed_route else proper in
    reject_cases P (not (version == 4 || version == 6)) (malformed_route_detail version) whole e
      (λ _. reject_cases P (ltb (length value) n) malformed_route proper e (λ _.
        reject_cases P (addr_ltb route.end route.start) malformed_route ordered e (λ o.
          reject_cases P (not (follows previous route)) decoded_routes_not_ordered decoded e
            (λ f. x o (not-false (follows previous route) f)))))

decode_routes-Ordered :
    (fuel : ℕ) (previous : Option Route) (value : Bytes)
    → IsFit previous
    → Ordered previous (decode_routes fuel previous value)
unfolding decode_routes
decode_routes-Ordered fuel none [] i = (tt, tt)
decode_routes-Ordered fuel (some r) [] i = (tt, tt, tt)
decode_routes-Ordered zero none (version ∷ value) i = (tt, tt)
decode_routes-Ordered zero (some r) (version ∷ value) i = (tt, tt, tt)
decode_routes-Ordered (suc fuel) previous (version ∷ value) i =
    let n = address_length version * 2 + 1 in
    let route = route_at version value in
    decode_round_cases (Ordered previous) previous version value
      (decode_routes fuel (some route) (drop n value)) (refused-Ordered previous)
      (λ o f.
        cons-Ordered previous route (decode_routes fuel (some route) (drop n value)) i
          (route_at-IsProper version value o) f
          (decode_routes-Ordered fuel (some route) (drop n value)
            (route_at-IsProper version value o)))

-- The routes that are decoded start and end in one family, none ends before it starts, and each is before
-- all later ones: in an earlier family, or with a lower protocol, or with addresses that are all lower. So
-- no two routes of one family and protocol overlap.
pub decode_route_advertisement-AreApart :
    (value : Bytes) (routes : List Route)
    → decode_route_advertisement value ≡ ok routes
    → AreApart routes × All IsProper routes
unfolding decode_route_advertisement
decode_route_advertisement-AreApart value routes h =
    subst (Ordered none) h (decode_routes-Ordered (length value) none value tt)
