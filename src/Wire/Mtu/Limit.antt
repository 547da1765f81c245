-- ===== src/Wire/Mtu/Limit.antt =====
-- The datagram limit of mtu.rs after any updates, and the room that its headers leave.
use porta.Prelude.{
  ℕ, suc, ◌+◌, ◌/◌, ◌≤◌, ◌<◌, ◌≡◌, refl, ◌⊎◌, inl, inr, some, List, [], ◌∷◌, arith, length, All,
  get_elem?,
}
use porta.Prelude.Except.{ok}
use porta.Wire.Bytes.{Bytes}
use porta.Wire.Masque.Varint.{encode_varint}
use porta.Wire.Mtu.{DatagramMtu, update, update_all, min_ipv4_mtu, ip_datagram_capacity}
use porta.Prelude.{◌∙◌}
use porta.Prelude.{ap}
use porta.Prelude.{sym}

-- What an IP packet of the capacity, the context ID and the quarter stream ID take together is the
-- capacity that QUIC has, unless the capacity for the packet is zero.
pub ip_datagram_capacity-encode_varint :
    (capacity stream_id room : ℕ) (bytes : Bytes)
    → ip_datagram_capacity (some capacity) stream_id ≡ some room
    → encode_varint (stream_id / 4) ≡ ok bytes
    → 0 < room
    → length bytes + (1 + room) ≡ capacity
unfolding ip_datagram_capacity encode_varint
ip_datagram_capacity-encode_varint capacity stream_id room bytes h e n = ground arith

update_lem :
    (c : ℕ) (mtu : DatagramMtu)
    → min_ipv4_mtu ≤ mtu.limit
    → ((update c mtu).1.limit ≤ mtu.limit)
      × (min_ipv4_mtu ≤ c → (update c mtu).1.limit ≤ c)
      × (((update c mtu).1.limit ≡ mtu.limit) ⊎ ((update c mtu).1.limit ≡ c))
      × (min_ipv4_mtu ≤ (update c mtu).1.limit)
unfolding update
update_lem c mtu h = ground arith

-- From a start that is usable, the limit after any updates is the least of the start and the usable
-- capacities, and is usable.
pub update_all_least :
    (cs : List ℕ) (mtu : DatagramMtu)
    → min_ipv4_mtu ≤ mtu.limit
    → ((update_all cs mtu).limit ≤ mtu.limit)
      × All (λ c. min_ipv4_mtu ≤ c → (update_all cs mtu).limit ≤ c) cs
      × (((update_all cs mtu).limit ≡ mtu.limit)
          ⊎ ((i : ℕ) × (get_elem? cs i ≡ some (update_all cs mtu).limit)))
      × (min_ipv4_mtu ≤ (update_all cs mtu).limit)
unfolding update_all update
update_all_least [] mtu h = (omega arith, tt, inl refl, h)
update_all_least (c ∷ cs) mtu h =
    let (low, under, which, fine) = update_lem c mtu h in
    let (low', under', which', fine') = update_all_least cs (update c mtu).1 fine in
    (
      omega (arith, low, low'),
      (λ u. omega (arith, under u, low'), under'),
      elim which' [
        | inr (i, e) ↦ inr (suc i, e)
        | inl e ↦ elim which [ inl k ↦ inl (e ∙ k) | inr k ↦ inr (0, ap some (sym (e ∙ k))) ]
      ],
      fine',
    )
