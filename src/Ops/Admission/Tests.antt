-- ===== src/Ops/Admission/Tests.antt =====
-- Two QUIC connections that are not verified, with a limit of one.
use porta.Prelude.{◌≤◌, refl, false, [], ◌∷◌}
use porta.Wire.Bytes.{Bytes}
use porta.Ops.Admission.{
  Transport, quic, fresh, Admission, with_limits, arrive, advances, advance, settle, Steps, start,
  then_step,
}
use porta.Ops.Admission.Bounds.{IsAdmission, sum, permits, unverified_permits, admission_bounds}

abbrev peer : Bytes
peer = 192 ∷ 0 ∷ 2 ∷ 1 ∷ []

abbrev none_yet : Admission
none_yet = with_limits 4096 256 1

abbrev arrived : Admission
arrived = record none_yet { threads = fresh quic peer false ∷ [] }

abbrev two_arrived : Admission
two_arrived = record none_yet { threads = fresh quic peer false ∷ fresh quic peer false ∷ [] }

two_moves : Steps none_yet (settle 0 (advance (fresh quic peer false) two_arrived))
two_moves =
    then_step two_arrived (settle 0 (advance (fresh quic peer false) two_arrived))
      (then_step arrived two_arrived (then_step none_yet arrived start (arrive quic peer false))
        (arrive quic peer false))
      (advances 0 (fresh quic peer false) refl)

admission_bounds_example :
    IsAdmission 4096 1 (settle 0 (advance (fresh quic peer false) two_arrived))
    × ((t : Transport)
        → sum (permits t) (settle 0 (advance (fresh quic peer false) two_arrived)).threads ≤ 4096)
    × (sum unverified_permits (settle 0 (advance (fresh quic peer false) two_arrived)).threads ≤ 1)
admission_bounds_example =
    admission_bounds 4096 256 1 (settle 0 (advance (fresh quic peer false) two_arrived)) two_moves
