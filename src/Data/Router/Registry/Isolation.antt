-- ===== src/Data/Router/Registry/Isolation.antt =====
-- Whom a packet from the device reaches.
use porta.Prelude.{
  ℕ, ◌≡◌, ◌≢◌, sym, ap, ◌∙◌, inl, inr, Bool, some, List, arith, if_cases, Option-cases,
}
use porta.Prelude.Except.{ok, Except-cases}
use porta.Prelude.Map.{lookup, insert, list_eq, nat_eq, lookup-insert_other}
use porta.Wire.Bytes.{Bytes}
use porta.Wire.Ip.{slice}
use porta.Data.Queue.{invalid_tun_packet, no_session, DropReason, session_closed, enqueue_at}
use porta.Data.Router.{Session, Router, record_drop, enqueue, parse_ipv4, was_closed}
use porta.Data.Router.Lanes.{select_lane}
use porta.Data.Router.Lanes.Choice.{select_lane-live}
use porta.Data.Router.Registry.{deliver}
use porta.Data.Router.Registry.Safety.{IsRouter}
use porta.Data.Router.Registry.Calls.{RouterCall, run, new_router, run-IsRouter, new-IsRouter}

store-record_drop : (reason : DropReason) (r : Router) → (record_drop reason r).store ≡ r.store
unfolding record_drop
store-record_drop reason r = ground arith

destination_lem :
    (packet : Bytes) (addresses : Bytes × Bytes)
    → parse_ipv4 packet ≡ ok addresses
    → addresses.1 ≡ slice packet 16 4
unfolding parse_ipv4
destination_lem packet addresses h = ground (arith, h)

store-enqueue_other :
    (id : ℕ) (s : Session) (packet : Bytes) (now : ℕ) (r : Router) (other : ℕ)
    → id ≢ other
    → lookup other (enqueue id s packet now r).store ≡ lookup other r.store
unfolding enqueue
store-enqueue_other id s packet now r other h =
    let queue = (enqueue_at packet now s.queue).1 in
    let queued = record r { store = insert id (record s { queue = queue }) r.store } in
    let same = lookup-insert_other id other (record s { queue = queue }) r.store h in
    if_cases {A = Router} (λ u. lookup other u.store ≡ lookup other r.store) s.cancelled _ _
      (λ _. ap (lookup other) (store-record_drop session_closed r))
      (λ _.
        if_cases {A = Router} (λ u. lookup other u.store ≡ lookup other r.store)
          (was_closed (enqueue_at packet now s.queue).0) _ _
          (λ _. ap (lookup other) (store-record_drop session_closed queued) ∙ same) (λ _. same))

deliver_isolated :
    (n : ℕ) (r : Router) (packet : Bytes) (now id : ℕ) (s : Session)
    → IsRouter n r
    → lookup id r.store ≡ some s
    → s.address ≢ slice packet 16 4
    → lookup id (deliver packet now r).store ≡ some s
unfolding deliver
deliver_isolated n r packet now id s v h apart = elim (Except-cases (parse_ipv4 packet)) [
  | inl (e, p) ↦ rw (deliver, p) (ap (lookup id) (store-record_drop invalid_tun_packet r) ∙ h)
  | inr (addresses, p) ↦ elim (Option-cases (lookup addresses.1 r.sessions)) [
    | inl g ↦ rw (deliver, p, g) (ap (lookup id) (store-record_drop no_session r) ∙ h)
    | inr (group, g) ↦
        let chosen = select_lane r.store group packet in
        let kept = record r {
          sessions = insert addresses.1 (record group { flows = chosen.1 }) r.sessions;
        } in
        elim (Option-cases chosen.0) [
          | inl c ↦ rw (deliver, p, g, c) (ap (lookup id) (store-record_drop no_session kept) ∙ h)
          | inr (found, c) ↦
              let (lane, in_lanes, in_store) = (select_lane-live r.store group packet).0 found c in
              let owner = v.owned addresses.1 group lane found.0 found.1 g in_lanes in_store in
              let other : found.0 ≢ id = λ same.
                let twin : found.1 ≡ s = cc (ap (λ k. lookup k r.store) same, in_store, h) in
                apart (
                  ap (λ (x : Session). x.address) (sym twin)
                  ∙ (owner ∙ destination_lem packet addresses p)) in
              rw (deliver, p, g, c)
                (store-enqueue_other found.0 found.1 packet now kept id other ∙ h)
        ]
  ]
]

-- Whatever calls were made of a new router, each session in a lane of a group has the group's address, and
-- a packet from the device leaves every session as it is that has not the packet's destination address.
pub run_isolates :
    (has_metrics : Bool) (calls : List RouterCall) (packet : Bytes) (now id : ℕ) (s : Session)
    → lookup id (run calls (0, new_router has_metrics)).1.store ≡ some s
    → s.address ≢ slice packet 16 4
    → IsRouter (run calls (0, new_router has_metrics)).0 (run calls (0, new_router has_metrics)).1
      × (lookup id (deliver packet now (run calls (0, new_router has_metrics)).1).store ≡ some s)
run_isolates has_metrics calls packet now id s h apart =
    let reached = run calls (0, new_router has_metrics) in
    let v = run-IsRouter calls 0 (new_router has_metrics) (new-IsRouter has_metrics) in
    (v, deliver_isolated reached.0 reached.1 packet now id s v h apart)
