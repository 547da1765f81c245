-- ===== src/Wire/Mtu/Tests.antt =====
-- Runs of mtu.rs.
use porta.Prelude.{
  ℕ, ◌+◌, ◌≤◌, ◌≡◌, refl, ◌⊎◌, none, some, List, [], ◌∷◌, arith, length, get_elem?, replicate,
}
use porta.Prelude.Except.{ok}
use porta.Wire.Bytes.{Bytes}
use porta.Wire.Masque.Varint.{encode_varint}
use porta.Wire.Mtu.{DatagramMtu, update, update_all, ip_datagram_capacity}
use porta.Wire.Mtu.Limit.{ip_datagram_capacity-encode_varint, update_all_least}
use porta.Wire.Mtu.Feedback.{FeedbackPolicy, on_oversized}
use porta.Wire.Mtu.Feedback.Bounds.{Bounded}
use porta.Wire.Mtu.Feedback.Spacing.{
  Request, run, icmp_times, Spaced, Decided, feedback_bounds, on_oversized-Decided,
}

room : ip_datagram_capacity (some 1200) 4 ≡ some 1198
unfolding ip_datagram_capacity
room = refl

quarter_id : encode_varint 1 ≡ ok (1 ∷ [])
unfolding encode_varint
quarter_id = refl

ip_datagram_capacity-encode_varint_example : length {A = ℕ} (1 ∷ []) + (1 + 1198) ≡ 1200
ip_datagram_capacity-encode_varint_example =
    ip_datagram_capacity-encode_varint 1200 4 1198 (1 ∷ []) room quarter_id (omega arith)

abbrev at_1280 : DatagramMtu
at_1280 = record { limit = 1280 }

-- The second capacity is too small for any packet.
abbrev capacities : List ℕ
capacities = 1200 ∷ 50 ∷ 1300 ∷ []

least_of_them : (update_all capacities at_1280).limit ≡ 1200
unfolding update_all update
least_of_them = refl

abbrev least : ℕ
least = (update_all capacities at_1280).limit

update_all_least_example :
    (least ≤ 1280)
    × ((68 ≤ 1200 → least ≤ 1200)
        × ((68 ≤ 50 → least ≤ 50) × ((68 ≤ 1300 → least ≤ 1300) × Unit {0})))
    × ((least ≡ 1280) ⊎ ((i : ℕ) × (get_elem? capacities i ≡ some least)))
    × (68 ≤ least)
update_all_least_example = update_all_least capacities at_1280 (omega arith)

abbrev large : Bytes
large = replicate 100 0

abbrev request : Request
request = record { packet = large; effective_mtu = 80; capsule_ceiling = 1280; now = 5; rtt = 0 }

abbrev fresh_policy : FeedbackPolicy
fresh_policy = record { flows = []; last_feedback = none }

feedback_bounds_example :
    Bounded (run (request ∷ request ∷ []) fresh_policy).flows
    × Spaced none (icmp_times (request ∷ request ∷ []) fresh_policy)
feedback_bounds_example = feedback_bounds (request ∷ request ∷ []) fresh_policy (omega arith, tt)

on_oversized-Decided_example :
    Decided 100 80 1280 5 none (on_oversized large 80 1280 5 0 fresh_policy)
on_oversized-Decided_example = on_oversized-Decided large 80 1280 5 0 fresh_policy
