-- ===== src/Data/Router/Registry/Shrinking.antt =====
-- The calls of the router that add no session take away at most.
use porta.Prelude.{ℕ, ◌≡◌, refl, inl, inr, some, arith, ◌==◌, if_cases, Option-cases}
use porta.Prelude.Except.{Except-cases}
use porta.Prelude.Map.{lookup, insert, remove, list_eq, list_beq, nat_eq, lookup-remove}
use porta.Wire.Bytes.{Bytes}
use porta.Data.Queue.{invalid_tun_packet, no_session, session_closed, enqueue_at}
use porta.Data.Router.{Session, SessionGroup, Router, record_drop, enqueue, parse_ipv4, was_closed}
use porta.Data.Router.Lanes.{select_lane, has_no_lanes}
use porta.Data.Router.Lanes.Choice.{select_lane-live}
use porta.Data.Router.Registry.{without_lane, remove_session, drop_session, deliver}
use porta.Data.Router.Registry.Safety.{
  Shrinks, Shrinks-refl, Shrinks-trans, insert-Shrinks, group-Shrinks, record_drop-Shrinks,
}

pub enqueue-Shrinks :
    (id : ℕ) (s : Session) (packet : Bytes) (now : ℕ) (r : Router)
    → lookup id r.store ≡ some s
    → Shrinks r (enqueue id s packet now r)
unfolding enqueue
enqueue-Shrinks id s packet now r h =
    let queue = (enqueue_at packet now s.queue).1 in
    let queued = record r { store = insert id (record s { queue = queue }) r.store } in
    let written = insert-Shrinks id s (record s { queue = queue }) r h refl in
    if_cases {A = Router} (Shrinks r) s.cancelled _ _ (λ _. record_drop-Shrinks session_closed r)
      (λ _.
        if_cases {A = Router} (Shrinks r) (was_closed (enqueue_at packet now s.queue).0) _ _
          (λ _.
            Shrinks-trans r queued (record_drop session_closed queued) written
              (record_drop-Shrinks session_closed queued))
          (λ _. written))

without_lane-lanes :
    (group_id : Bytes) (lane id : ℕ) (group : SessionGroup) (l i : ℕ)
    → lookup l (without_lane group_id lane id group).lanes ≡ some i
    → lookup l group.lanes ≡ some i
without_lane-lanes group_id lane id group l i =
    if_cases {A = SessionGroup} (λ g. lookup l g.lanes ≡ some i → lookup l group.lanes ≡ some i)
      (list_beq group.id group_id) _ _
      (λ _. elim (Option-cases (lookup lane group.lanes)) [
        | inl e ↦ rw e (λ h. h)
        | inr (current, e) ↦ rw e (
            if_cases {A = SessionGroup}
              (λ g. lookup l g.lanes ≡ some i → lookup l group.lanes ≡ some i) (current == id) _ _
              (λ _ h. ground (arith, lookup-remove lane l group.lanes, h)) (λ _ h. h))
      ])
      (λ _ h. h)

remove_group-Shrinks :
    (address : Bytes) (r : Router) → Shrinks r (record r { sessions = remove address r.sessions })
remove_group-Shrinks address r = record {
  tame = λ id s h. (s, h, refl);
  sub = λ a g l i h k. (g, ground (arith, lookup-remove address a r.sessions, h), k);
}

pub remove_session-Shrinks :
    (address group_id : Bytes) (lane id : ℕ) (r : Router)
    → Shrinks r (remove_session address group_id lane id r)
unfolding remove_session
remove_session-Shrinks address group_id lane id r =
    elim (Option-cases (lookup address r.sessions)) [
      | inl e ↦ rw (remove_session, e) (Shrinks-refl r)
      | inr (group, e) ↦
          let left = without_lane group_id lane id group in
          rw (remove_session, e)
            (if_cases {A = Router} (Shrinks r) (has_no_lanes left.lanes) _ _
              (λ _. remove_group-Shrinks address r)
              (λ _.
                group-Shrinks address group left r e (without_lane-lanes group_id lane id group)))
    ]

pub drop_session-Shrinks : (id : ℕ) (r : Router) → Shrinks r (drop_session id r)
unfolding drop_session
drop_session-Shrinks id r = record {
  tame = λ i s h. (s, ground (arith, lookup-remove id i r.store, h), refl);
  sub = λ a g l i h k. (g, h, k);
}

pub deliver-Shrinks : (packet : Bytes) (now : ℕ) (r : Router) → Shrinks r (deliver packet now r)
unfolding deliver
deliver-Shrinks packet now r = elim (Except-cases (parse_ipv4 packet)) [
  | inl (e, p) ↦ rw (deliver, p) (record_drop-Shrinks invalid_tun_packet r)
  | inr (addresses, p) ↦ elim (Option-cases (lookup addresses.1 r.sessions)) [
    | inl g ↦ rw (deliver, p, g) (record_drop-Shrinks no_session r)
    | inr (group, g) ↦
        let chosen = select_lane r.store group packet in
        let kept = record r {
          sessions = insert addresses.1 (record group { flows = chosen.1 }) r.sessions;
        } in
        let written =
          group-Shrinks addresses.1 group (record group { flows = chosen.1 }) r g
            (λ lane id h. h) in
        elim (Option-cases chosen.0) [
          | inl c ↦
              rw (deliver, p, g, c)
                (Shrinks-trans r kept (record_drop no_session kept) written
                  (record_drop-Shrinks no_session kept))
          | inr (found, c) ↦
              let (lane, in_lanes, in_store) = (select_lane-live r.store group packet).0 found c in
              rw (deliver, p, g, c)
                (Shrinks-trans r kept (enqueue found.0 found.1 packet now kept) written
                  (enqueue-Shrinks found.0 found.1 packet now kept in_store))
        ]
  ]
]
