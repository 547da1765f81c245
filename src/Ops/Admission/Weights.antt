-- ===== src/Ops/Admission/Weights.antt =====
-- What a thread has added to the counters of the admission, at each place.
use porta.Prelude.{ℕ, Bool, true, false, not}
use porta.Prelude.Map.{list_eq, nat_eq}
use porta.Ops.Admission.{
  Transport, tcp, quic, Phase, fresh, counted, over_global, over_unverified, lowering, permit,
  dropping, marking, dropping_source, rejected, gone,
}

abbrev pub one : Bool → ℕ
one true = 1
one false = 0

abbrev pub same : Transport → Transport → Bool
same tcp tcp = true
same quic quic = true
same tcp quic = false
same quic tcp = false

-- What a thread has added to the active counter of a transport; and to it within the limit.
abbrev pub holds : Transport → Phase → ℕ
holds t (fresh u address verified) = 0
holds t (counted u address verified) = one (same t u)
holds t (over_global u) = one (same t u)
holds t over_unverified = one (same t quic)
holds t (lowering u r) = one (same t u)
holds t (permit u held verified) = one (same t u)
holds t (dropping u held verified) = 0
holds t (marking address) = one (same t quic)
holds t (dropping_source u held) = 0
holds t (rejected r) = 0
holds t gone = 0

abbrev pub within : Transport → Phase → ℕ
within t (fresh u address verified) = 0
within t (counted u address verified) = one (same t u)
within t (over_global u) = 0
within t over_unverified = one (same t quic)
within t (lowering u r) = one (same t u)
within t (permit u held verified) = one (same t u)
within t (dropping u held verified) = 0
within t (marking address) = one (same t quic)
within t (dropping_source u held) = 0
within t (rejected r) = 0
within t gone = 0

-- What a thread has added to the counter of unverified connections; and to it within the limit.
abbrev pub waits : Phase → ℕ
waits (fresh u address verified) = 0
waits (counted u address verified) = 0
waits (over_global u) = 0
waits over_unverified = 1
waits (lowering u r) = 0
waits (permit tcp held verified) = 0
waits (permit quic held verified) = one (not verified)
waits (dropping tcp held verified) = 0
waits (dropping quic held verified) = one (not verified)
waits (marking address) = 1
waits (dropping_source u held) = 0
waits (rejected r) = 0
waits gone = 0

abbrev pub waits_within : Phase → ℕ
waits_within (fresh u address verified) = 0
waits_within (counted u address verified) = 0
waits_within (over_global u) = 0
waits_within over_unverified = 0
waits_within (lowering u r) = 0
waits_within (permit tcp held verified) = 0
waits_within (permit quic held verified) = one (not verified)
waits_within (dropping tcp held verified) = 0
waits_within (dropping quic held verified) = one (not verified)
waits_within (marking address) = 1
waits_within (dropping_source u held) = 0
waits_within (rejected r) = 0
waits_within gone = 0
