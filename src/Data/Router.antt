-- ===== src/Data/Router.antt =====
-- rust/porta-server/src/data/router.rs: groups of sessions by address, and the packets between them and
-- the device. An `Ipv4Addr` is its octets. The sessions are held in a store by an identity: a weak
-- reference is an identity, and upgrades as long as the store has the session.
pub mod Flows
pub mod Lanes
pub mod Registry
pub mod Parse
mod Tests
use porta.Prelude.{
  ℕ, zero, suc, ◌+◌, ◌*◌, ◌/◌, ◌%◌, bit_and, Bool, true, false, not, ◌||◌, ◌&&◌, Option, none, some,
  List, [], ◌∷◌, length, ◌==◌, ltb, if◌then◌else◌,
}
use porta.Prelude.Except.{Except, ok, err}
use porta.Prelude.Map.{lookup, insert, list_eq, nat_eq, list_beq}
use porta.Wire.Bytes.{Bytes}
use porta.Wire.Ip.{byte_at, u16_at, slice}
use porta.Data.Queue.{
  PacketQueue, EnqueueResult, closed_queue, accepted, dropped_full, dropped_tail, DropReason,
  session_closed, enqueue_at, close,
}
use porta.Data.Router.Flows.{FlowTable}

pub data PacketFault : Type 0 where
  short_header not_ipv4 invalid_header_length total_length_mismatch : PacketFault

pub data RouterError : Type 0 where
  missing_group_id invalid_lane_configuration lane_count_mismatch : RouterError
  invalid_packet : PacketFault → RouterError
  source_spoofed : Bytes → Bytes → RouterError
  device : ℕ → RouterError

-- `SessionInner`, with the state of its cancellation token.
pub record Session : Type 0 where
  pub address : Bytes
  pub cancelled : Bool
  pub queue : PacketQueue
  pub closed : Bool

pub record SessionGroup : Type 0 where
  pub id : Bytes
  pub lane_count : ℕ
  pub lanes : List (ℕ × ℕ)
  pub lane_connections : List (ℕ × Bytes)
  pub flows : FlowTable
  pub collapse_warned : Bool

-- What the router tells the metrics.
pub data RouterEvent : Type 0 where
  dropped : DropReason → RouterEvent
  lane_collapsed : RouterEvent

pub record Router : Type 0 where
  pub has_metrics : Bool
  pub sessions : List (Bytes × SessionGroup)
  pub store : List (ℕ × Session)
  pub log : List RouterEvent

pub record_drop : DropReason → Router → Router
record_drop reason r = if r.has_metrics then record r { log = dropped reason ∷ r.log } else r

-- `SessionInner::close`, which the compare-and-exchange lets run once.
pub close_session : Session → Session
close_session s =
    let closing : Session = record s { closed = true; cancelled = true; queue = close s.queue } in
    if s.closed then s else closing

pub close_at : ℕ → Router → Router
close_at id r = elim (lookup id r.store) [
  | none ↦ r
  | some s ↦ record r { store = insert id (close_session s) r.store }
]

-- `Session::enqueue`.
abbrev pub was_closed : EnqueueResult → Bool
was_closed closed_queue = true
was_closed accepted = false
was_closed dropped_full = false
was_closed dropped_tail = false

pub enqueue : ℕ → Session → Bytes → ℕ → Router → Router
enqueue id s packet now r =
    let (result, queue) = enqueue_at packet now s.queue in
    let queued = record r { store = insert id (record s { queue = queue }) r.store } in
    if s.cancelled
    then record_drop session_closed r
    else if was_closed result
    then record_drop session_closed queued
    else queued

-- The addresses of a valid packet.
pub parse_ipv4 : Bytes → Except RouterError (Bytes × Bytes)
parse_ipv4 packet =
    let header_length = bit_and (byte_at packet 0) 0x0f * 4 in
    let total_length = u16_at packet 2 in
    if ltb (length packet) 20
    then err (invalid_packet short_header)
    else if not (byte_at packet 0 / 16 == 4)
    then err (invalid_packet not_ipv4)
    else if ltb header_length 20 || ltb (length packet) header_length
    then err (invalid_packet invalid_header_length)
    else if ltb total_length header_length || not (total_length == length packet)
    then err (invalid_packet total_length_mismatch)
    else ok (slice packet 12 4, slice packet 16 4)
