-- ===== src/Data/Router/Registry.antt =====
-- The registration of sessions and the delivery of packets in router.rs.
pub mod Safety
pub mod Shrinking
pub mod Calls
pub mod Isolation
mod Tests
use porta.Prelude.{
  ℕ, zero, suc, Bool, true, false, not, ◌||◌, ◌&&◌, Option, none, some, List, [], ◌∷◌, length, ◌==◌,
  ltb, leb, if◌then◌else◌,
}
use porta.Prelude.Except.{Except, ok, err}
use porta.Prelude.Map.{lookup, insert, remove, list_eq, nat_eq, list_beq}
use porta.Wire.Bytes.{Bytes}
use porta.Data.Queue.{
  PacketQueue, QueueConfig, masque_config, default_config, new, invalid_tun_packet, no_session,
}
use porta.Data.Router.{
  RouterError, missing_group_id, invalid_lane_configuration, lane_count_mismatch, source_spoofed,
  Session, SessionGroup, RouterEvent, lane_collapsed, Router, record_drop, close_session, close_at,
  enqueue, parse_ipv4,
}
use porta.Data.Router.Flows.{FlowTable, default_table}
use porta.Data.Router.Lanes.{select_lane, has_no_lanes}

-- `new_session`, of a lane or not; the parent token may be cancelled already.
abbrev pub new_session : Bool → Bytes → Bool → QueueConfig → Router → Session
new_session cancelled address has_lane config r = record {
  address = address;
  cancelled = cancelled;
  queue = new config r.has_metrics has_lane;
  closed = false;
}

pub close_all : List (ℕ × ℕ) → Router → Router
close_all [] r = r
close_all ((lane, id) ∷ lanes) r = close_all lanes (close_at id r)

pub close_group : Option SessionGroup → Router → Router
unfolding close_all
close_group none r = r
close_group (some group) r = close_all group.lanes r

abbrev pub single_group : ℕ → SessionGroup
single_group id = record {
  id = [];
  lane_count = 1;
  lanes = (0, id) ∷ [];
  lane_connections = [];
  flows = default_table;
  collapse_warned = false;
}

-- `register`; `id` is the identity of the new session.
pub register : ℕ → Bool → Bytes → Router → Router
unfolding close_group
register id cancelled address r =
    let session = new_session cancelled address false masque_config r in
    close_group (lookup address r.sessions) (record r {
      sessions = insert address (single_group id) r.sessions;
      store = insert id session r.store;
    })

abbrev pub mem_bytes : Bytes → List Bytes → Bool
mem_bytes b [] = false
mem_bytes b (c ∷ cs) = list_beq b c || mem_bytes b cs

-- The connections of the lanes that are not empty, each once.
abbrev pub connections : List (ℕ × Bytes) → List (ℕ × ℕ) → List Bytes
connections known [] = []
connections known ((lane, id) ∷ lanes) =
    let rest = connections known lanes in
    elim (lookup lane known) [
      | none ↦ rest
      | some [] ↦ rest
      | some (b ∷ bytes) ↦ if mem_bytes (b ∷ bytes) rest then rest else (b ∷ bytes) ∷ rest
    ]

pub collapsed_lane_group : SessionGroup → Bool
collapsed_lane_group group =
    let found = length (connections group.lane_connections group.lanes) in
    if ltb (length group.lanes) 2 then false else not (found == 0) && ltb found (length group.lanes)

abbrev pub empty_group : Bytes → ℕ → SessionGroup
empty_group id lane_count = record {
  id = id;
  lane_count = lane_count;
  lanes = [];
  lane_connections = [];
  flows = default_table;
  collapse_warned = false;
}

-- The group under the address if it has the identifier, or a new one, with the group that it replaces.
abbrev pub group_for : Bytes → ℕ → Option SessionGroup → SessionGroup × Option SessionGroup
group_for group_id lane_count none = (empty_group group_id lane_count, none)
group_for group_id lane_count (some group) =
    if not (list_beq group.id group_id)
    then (empty_group group_id lane_count, some group)
    else (group, none)

abbrev pub close_previous : Option ℕ → Router → Router
close_previous none r = r
close_previous (some id) r = close_at id r

abbrev pub with_lane : ℕ → ℕ → Bytes → SessionGroup → SessionGroup
with_lane lane id connection group = record group {
  lanes = insert lane id group.lanes;
  lane_connections = insert lane connection group.lane_connections;
}

-- The part of `register_group` under the lock, and the closing of what it replaced.
pub join_group :
    ℕ → Session → Bytes → ℕ → Bytes → SessionGroup × Option SessionGroup → Router → Bool × Router
unfolding collapsed_lane_group close_group
join_group id session address lane connection (group, replaced) r =
    let joined = with_lane lane id connection group in
    let collapsed = collapsed_lane_group joined in
    let warned = record joined { collapse_warned = collapsed || joined.collapse_warned } in
    let log =
      if (collapsed && not joined.collapse_warned) && r.has_metrics
      then lane_collapsed ∷ r.log
      else r.log in
    let added = record r {
      sessions = insert address warned r.sessions;
      store = insert id session r.store;
      log = log;
    } in
    (collapsed, close_previous (lookup lane group.lanes) (close_group replaced added))

abbrev pub is_nil : Bytes → Bool
is_nil [] = true
is_nil (_ ∷ _) = false

-- `register_group`, with whether the group has collapsed. A session that is refused for the count of
-- lanes is closed and dropped.
pub register_group :
    ℕ → Bool → Bytes → Bytes → ℕ → ℕ → Bytes → Router → Except RouterError Bool × Router
unfolding join_group
register_group id cancelled address group_id lane lane_count connection r =
    let session = new_session cancelled address true default_config r in
    let found = group_for group_id lane_count (lookup address r.sessions) in
    let joined = join_group id session address lane connection found r in
    if is_nil group_id
    then (err missing_group_id, r)
    else if (ltb lane_count 2 || ltb 4 lane_count) || leb lane_count lane
    then (err invalid_lane_configuration, r)
    else if not (found.0.lane_count == lane_count)
    then (err lane_count_mismatch, r)
    else (ok joined.0, joined.1)

-- A group loses the lane if the lane is still that session's.
abbrev pub without_lane : Bytes → ℕ → ℕ → SessionGroup → SessionGroup
without_lane group_id lane id group =
    let left = record group {
      lanes = remove lane group.lanes;
      lane_connections = remove lane group.lane_connections;
    } in
    if list_beq group.id group_id
    then elim (lookup lane group.lanes) [
      | none ↦ group
      | some current ↦ if current == id then left else group
    ]
    else group

pub remove_session : Bytes → Bytes → ℕ → ℕ → Router → Router
remove_session address group_id lane id r = elim (lookup address r.sessions) [
  | none ↦ r
  | some group ↦
      let left = without_lane group_id lane id group in
      if has_no_lanes left.lanes
      then record r { sessions = remove address r.sessions }
      else record r { sessions = insert address left r.sessions }
]

-- The last reference to a session goes: it is closed, and no weak reference upgrades any more.
pub drop_session : ℕ → Router → Router
drop_session id r = record r { store = remove id r.store }

-- A round of `run` for a packet that the device gave.
pub deliver : Bytes → ℕ → Router → Router
deliver packet now r = elim (parse_ipv4 packet) [
  | err e ↦ record_drop invalid_tun_packet r
  | ok addresses ↦ elim (lookup addresses.1 r.sessions) [
    | none ↦ record_drop no_session r
    | some group ↦
        let chosen = select_lane r.store group packet in
        let kept = record r {
          sessions = insert addresses.1 (record group { flows = chosen.1 }) r.sessions;
        } in
        elim chosen.0 [
          | none ↦ record_drop no_session kept
          | some found ↦ enqueue found.0 found.1 packet now kept
        ]
  ]
]

-- The check of `inject` before the device.
pub inject_check : Bytes → Bytes → Except RouterError Bytes
inject_check lease packet = elim (parse_ipv4 packet) [
  | err e ↦ err e
  | ok addresses ↦
      if not (list_beq addresses.0 lease) then err (source_spoofed addresses.0 lease) else ok packet
]
