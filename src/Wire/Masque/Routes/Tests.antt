-- ===== src/Wire/Masque/Routes/Tests.antt =====
-- Route advertisements of masque.rs: one route, and the whole of it written and read.
use porta.Prelude.{List, [], ◌∷◌, refl, ◌≡◌, arith, All}
use porta.Prelude.Except.{ok}
use porta.Wire.Bytes.{Bytes}
use porta.Wire.Masque.Routes.{Route, v4, encode_route_advertisement, decode_route_advertisement}
use porta.Wire.Masque.Routes.RoundTrip.{decode_route_advertisement-encode_route_advertisement}
use porta.Wire.Masque.Routes.Order.{AreApart, IsProper, decode_route_advertisement-AreApart}

abbrev two_routes : List Route
two_routes =
    record { start = v4 0x0a000000; end = v4 0x0a0000ff; protocol = 0 }
    ∷ record { start = v4 0; end = v4 0xffffffff; protocol = 6 }
    ∷ []

abbrev advertised : Bytes
advertised =
    4 ∷ 10 ∷ 0 ∷ 0 ∷ 0 ∷ 10 ∷ 0 ∷ 0 ∷ 255 ∷ 0 ∷ 4 ∷ 0 ∷ 0 ∷ 0 ∷ 0 ∷ 255 ∷ 255 ∷ 255 ∷ 255 ∷ 6 ∷ []

decode_route_advertisement-encode_route_advertisement_example :
    decode_route_advertisement advertised ≡ ok two_routes
unfolding encode_route_advertisement
decode_route_advertisement-encode_route_advertisement_example =
    decode_route_advertisement-encode_route_advertisement two_routes advertised
      ((omega arith, omega arith), ((omega arith, omega arith), tt)) refl

decode_route_advertisement-AreApart_example : AreApart two_routes × All IsProper two_routes
unfolding decode_route_advertisement
decode_route_advertisement-AreApart_example =
    decode_route_advertisement-AreApart advertised two_routes refl
