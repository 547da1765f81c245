-- ===== src/Data/Router/Lanes.antt =====
-- The choice of a lane in router.rs.
pub mod Least
pub mod Choice
use porta.Prelude.{
  ℕ, zero, suc, ◌+◌, ◌-◌, ◌*◌, ◌%◌, ◌^◌, Bool, true, false, Option, none, some, List, [], ◌∷◌,
  length, ◌==◌, ltb, leb, if◌then◌else◌,
}
use porta.Prelude.Map.{lookup, nat_eq}
use porta.Wire.Bytes.{Bytes}
use porta.Data.Classify.{FlowKey, PacketClass, control, tcp, datagram, classify_ipv4}
use porta.Data.Queue.{PacketQueue}
use porta.Data.Router.{Session, SessionGroup}
use porta.Data.Router.Flows.{FlowTable, assignment, touch, assign, remove_flow}

abbrev pub Store : Type 0
Store = List (ℕ × Session)

-- `group.lanes.get(&lane).and_then(Weak::upgrade)`, with the identity.
pub live : Store → SessionGroup → ℕ → Option (ℕ × Session)
live store group lane = elim (lookup lane group.lanes) [
  | none ↦ none
  | some id ↦ elim (lookup id store) [ none ↦ none | some s ↦ some (id, s) ]
]

abbrev pub is_some {ℓ} : {A : Type ℓ} → Option A → Bool
is_some none = false
is_some (some a) = true

-- `(0..lane_count).find_map(...)`, from a lane on.
pub first_live : Store → SessionGroup → ℕ → ℕ → Option (ℕ × Session)
first_live store group lane zero = none
first_live store group lane (suc left) = elim (live store group lane) [
  | some found ↦ some found
  | none ↦ first_live store group (suc lane) left
]

-- The loop over the data lanes, from an offset on, with the lane selected so far and its bytes.
pub least_lane : Store → SessionGroup → ℕ → ℕ → ℕ → ℕ → Option ℕ → ℕ → Option ℕ
least_lane store group data_lanes start offset zero selected selected_bytes = selected
least_lane store group data_lanes start offset (suc left) selected selected_bytes =
    let lane = 1 + (start + offset) % data_lanes in
    elim (live store group lane) [
      | none ↦ least_lane store group data_lanes start (suc offset) left selected selected_bytes
      | some found ↦
          let queued = found.1.queue.queued_bytes in
          elim (ltb queued selected_bytes) [
            | true ↦ least_lane store group data_lanes start (suc offset) left (some lane) queued
            | false ↦
                least_lane store group data_lanes start (suc offset) left selected selected_bytes
          ]
    ]

-- The lane of a flow that has none, or none that is live.
pub select_new_lane : Store → SessionGroup → FlowKey → ℕ → ℕ × FlowTable
select_new_lane store group flow hash =
    let data_lanes = group.lane_count - 1 in
    elim (least_lane store group data_lanes (hash % data_lanes) 0 data_lanes none (2 ^ 64 - 1)) [
      | none ↦ (0, remove_flow flow group.flows)
      | some lane ↦ (lane, assign flow lane group.flows)
    ]

-- The lane, and the flow table after it.
pub select_data_lane : Store → SessionGroup → FlowKey → ℕ → ℕ × FlowTable
select_data_lane store group flow hash =
    if leb group.lane_count 1 then (0, group.flows) else elim (assignment flow group.flows) [
      | none ↦ select_new_lane store group flow hash
      | some found ↦
          if is_some (live store group found.1)
          then (found.1, touch found.0 group.flows)
          else select_new_lane store group flow hash
    ]

abbrev pub is_control : PacketClass → Bool
is_control control = true
is_control tcp = false
is_control datagram = false

pub preferred_lane : Store → SessionGroup → Bytes → ℕ × FlowTable
preferred_lane store group packet =
    let metadata = classify_ipv4 packet in
    if is_control metadata.class
    then (0, group.flows)
    else select_data_lane store group metadata.flow metadata.hash

abbrev pub has_no_lanes : List (ℕ × ℕ) → Bool
has_no_lanes [] = true
has_no_lanes (_ ∷ _) = false

-- The session that a packet goes to, and the flow table after it.
pub select_lane : Store → SessionGroup → Bytes → Option (ℕ × Session) × FlowTable
select_lane store group packet =
    let preferred = preferred_lane store group packet in
    if has_no_lanes group.lanes then (none, group.flows) else elim (live store group preferred.0) [
      | some found ↦ (some found, preferred.1)
      | none ↦ (first_live store group 0 group.lane_count, preferred.1)
    ]

pub packet_lane : Bytes → ℕ → ℕ
packet_lane packet lane_count =
    let metadata = classify_ipv4 packet in
    if leb lane_count 1
    then 0
    else if is_control metadata.class
    then 0
    else 1 + metadata.hash % (lane_count - 1)
