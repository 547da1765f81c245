-- ===== src/Wire/Mtu.antt =====
-- The datagram budgets of rust/porta-wire/src/mtu.rs.
pub mod Limit
pub mod Feedback
mod Tests
use porta.Prelude.{
  ℕ, ◌+◌, ◌-◌, ◌/◌, min, Bool, not, Option, none, some, List, [], ◌∷◌, ◌==◌, ltb, leb,
  if◌then◌else◌,
}
use porta.Prelude.Except.{Except, ok, err}

abbrev pub min_ipv4_mtu : ℕ
min_ipv4_mtu = 68

pub data MtuError : Type 0 where
  invalid_packet fragmentation_needed icmp_suppressed invalid_mtu : MtuError

abbrev pub stream_id_length : ℕ → ℕ
stream_id_length quarter =
    if leb quarter 63
    then 1
    else if leb quarter 16383
    then 2
    else if leb quarter 1073741823
    then 4
    else 8

-- `saturating_sub` is `-`.
pub ip_datagram_capacity : Option ℕ → ℕ → Option ℕ
ip_datagram_capacity none stream_id = none
ip_datagram_capacity (some capacity) stream_id =
    some (capacity - (stream_id_length (stream_id / 4) + 1))

pub record DatagramMtu : Type 0 where
  pub limit : ℕ

-- `DatagramMtu::update`.
pub update : ℕ → DatagramMtu → Except MtuError Bool × DatagramMtu
update ip_capacity mtu =
    if ltb ip_capacity min_ipv4_mtu
    then (err invalid_mtu, mtu)
    else let limit = min mtu.limit ip_capacity in
      (ok (not (limit == mtu.limit)), record { limit = limit })

pub update_all : List ℕ → DatagramMtu → DatagramMtu
unfolding update
update_all [] mtu = mtu
update_all (c ∷ cs) mtu = update_all cs (update c mtu).1
