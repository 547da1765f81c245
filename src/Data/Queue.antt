-- ===== src/Data/Queue.antt =====
-- `PacketQueue` of rust/porta-server/src/data/queue.rs. The mutex makes each method one step; the
-- two atomics that publish the load, and the calls of the metrics and of `Notify`, are fields.
pub mod Loops
pub mod Room
pub mod Invariant
pub mod Evict
pub mod Service
mod Tests
use porta.Data.Classify.{PacketClass, tcp, datagram, control, classify_ipv4}
use porta.Prelude.{
  ℕ, zero, suc, ◌+◌, ◌-◌, ◌*◌, Bool, true, false, not, ◌&&◌, ◌||◌, Option, none, some, List, [],
  ◌∷◌, ◌++◌, length, get_elem?, erase_at, position, ◌==◌, ltb, leb, if◌then◌else◌,
}
use porta.Wire.Bytes.{Bytes}

pub data QueuePolicy : Type 0 where
  class_aware drop_oldest : QueuePolicy

pub data DropReason : Type 0 where
  queue_oldest queue_full queue_tail queue_expired : DropReason
  session_closed invalid_tun_packet no_session : DropReason

-- Durations and instants are nanoseconds.
pub record QueueConfig : Type 0 where
  pub max_packets : ℕ
  pub max_bytes : ℕ
  pub tcp_max_age : ℕ
  pub datagram_max_age : ℕ
  pub control_max_age : ℕ
  pub policy : QueuePolicy

-- `QueueConfig::default()`.
abbrev pub default_config : QueueConfig
default_config = record {
  max_packets = 96;
  max_bytes = 128 * 1024;
  tcp_max_age = 500000000;
  datagram_max_age = 150000000;
  control_max_age = 250000000;
  policy = class_aware;
}

-- `QueueConfig::masque()`; an age of zero means no limit.
abbrev pub masque_config : QueueConfig
masque_config = record {
  max_packets = 256;
  max_bytes = 256 * 9000;
  tcp_max_age = 0;
  datagram_max_age = 0;
  control_max_age = 0;
  policy = drop_oldest;
}

pub data EnqueueResult : Type 0 where
  accepted dropped_full dropped_tail closed_queue : EnqueueResult

pub record QueuedPacket : Type 0 where
  pub bytes : Bytes
  pub class : PacketClass
  pub enqueued : ℕ

-- What the queue tells others: `DataMetrics::dropped`, `adjust_queue_bytes` up or down, `Notify`.
pub data Event : Type 0 where
  dropped : DropReason → Event
  grew shrank : ℕ → Event
  notified : Event

pub record PacketQueue : Type 0 where
  pub config : QueueConfig
  pub has_metrics : Bool
  pub has_lane : Bool
  pub items : List QueuedPacket
  pub bytes : ℕ
  pub closed : Bool
  pub queued_bytes : ℕ
  pub queued_packets : ℕ
  pub log : List Event

-- `PacketQueue::new`.
abbrev pub new : QueueConfig → Bool → Bool → PacketQueue
new config has_metrics has_lane = record {
  config = config;
  has_metrics = has_metrics;
  has_lane = has_lane;
  items = [];
  bytes = 0;
  closed = false;
  queued_bytes = 0;
  queued_packets = 0;
  log = [];
}

pub publish_load : PacketQueue → PacketQueue
publish_load q = record q { queued_bytes = q.bytes; queued_packets = length q.items }

-- `adjust_bytes`, with the event for the sign of its argument.
pub adjust_bytes : (ℕ → Event) → ℕ → PacketQueue → PacketQueue
adjust_bytes event delta q =
    if not (delta == 0) && (q.has_metrics && q.has_lane)
    then record q { log = event delta ∷ q.log }
    else q

pub record_drop : DropReason → PacketQueue → PacketQueue
record_drop reason q = if q.has_metrics then record q { log = dropped reason ∷ q.log } else q

pub notify : PacketQueue → PacketQueue
notify q = record q { log = notified ∷ q.log }

-- `checked_add` cannot fail: the bytes of packets in memory are far fewer than 2 ^ 64.
pub fits : PacketQueue → ℕ → Bool
fits q packet_bytes =
    ltb (length q.items) q.config.max_packets && leb (q.bytes + packet_bytes) q.config.max_bytes

abbrev pub is_empty : List QueuedPacket → Bool
is_empty [] = true
is_empty (_ ∷ _) = false

pub append_locked : QueuedPacket → PacketQueue → PacketQueue
unfolding publish_load adjust_bytes notify
append_locked item q =
    let grown = adjust_bytes grew (length item.bytes) (
      publish_load
        (record q { items = q.items ++ item ∷ []; bytes = q.bytes + length item.bytes })) in
    if is_empty q.items then notify grown else grown

-- A removal at an index where an item is; `bytes` loses the item's length.
pub take_out : ℕ → QueuedPacket → PacketQueue → PacketQueue
unfolding publish_load adjust_bytes
take_out index item q = adjust_bytes shrank (length item.bytes) (
    publish_load (record q { items = erase_at q.items index; bytes = q.bytes - length item.bytes }))

pub remove_locked : ℕ → PacketQueue → PacketQueue
unfolding take_out
remove_locked index q = elim (get_elem? q.items index) [
  | none ↦ q
  | some item ↦ take_out index item q
]

pub max_age : QueueConfig → PacketClass → ℕ
max_age config tcp = config.tcp_max_age
max_age config datagram = config.datagram_max_age
max_age config control = config.control_max_age

-- `saturating_duration_since` is `-`.
pub is_fresh : QueueConfig → ℕ → QueuedPacket → Bool
unfolding max_age
is_fresh config now item =
    let age = max_age config item.class in age == 0 || ltb (now - item.enqueued) age

-- `while index < state.items.len()`: each round passes an item or removes one, so as many rounds as
-- there are items are enough.
pub expire_from : ℕ → ℕ → ℕ → PacketQueue → PacketQueue
expire_from zero index now q = q
expire_from (suc fuel) index now q = elim (get_elem? q.items index) [
  | none ↦ q
  | some item ↦ elim (is_fresh q.config now item) [
    | true ↦ expire_from fuel (suc index) now q
    | false ↦ expire_from fuel index now (record_drop queue_expired (remove_locked index q))
  ]
]

pub drop_expired_locked : ℕ → PacketQueue → PacketQueue
unfolding expire_from
drop_expired_locked now q = expire_from (length q.items) 0 now q

abbrev pub is_datagram : QueuedPacket → Bool
is_datagram item = elim item.class [ datagram ↦ true | _ ↦ false ]

abbrev pub is_control : QueuedPacket → Bool
is_control item = elim item.class [ control ↦ true | _ ↦ false ]

pub oldest_replaceable : List QueuedPacket → PacketClass → Option ℕ
oldest_replaceable items incoming = elim (position is_datagram items) [
  | some index ↦ some index
  | none ↦ elim incoming [ control ↦ position is_control items | _ ↦ none ]
]

pub victim : PacketQueue → PacketClass → Option ℕ
unfolding oldest_replaceable
victim q class = elim q.config.policy [
  | drop_oldest ↦ if is_empty q.items then none else some 0
  | class_aware ↦ oldest_replaceable q.items class
]

-- `while !self.fits(...)`, true when the loop ends with room and false when it finds no victim. Each
-- round removes an item; after as many rounds as there are items, none is left to be a victim.
pub make_room : ℕ → PacketClass → ℕ → PacketQueue → Bool × PacketQueue
make_room zero class size q = (fits q size, q)
make_room (suc fuel) class size q = elim (fits q size) [
  | true ↦ (true, q)
  | false ↦ elim (victim q class) [
    | none ↦ (false, q)
    | some index ↦ make_room fuel class size (record_drop queue_oldest (remove_locked index q))
  ]
]

pub refuse : PacketClass → PacketQueue → EnqueueResult × PacketQueue
refuse tcp q = (dropped_tail, record_drop queue_tail q)
refuse datagram q = (dropped_full, record_drop queue_full q)
refuse control q = (dropped_full, record_drop queue_full q)

pub settle : QueuedPacket → Bool × PacketQueue → EnqueueResult × PacketQueue
settle item (true, q) = (accepted, append_locked item q)
settle item (false, q) = refuse item.class q

pub enqueue_open : Bytes → ℕ → PacketQueue → EnqueueResult × PacketQueue
enqueue_open packet now q =
    let class = (classify_ipv4 packet).class in
    let item : QueuedPacket = record { bytes = packet; class = class; enqueued = now } in
    let swept = drop_expired_locked now q in
    settle item (make_room (length swept.items) class (length packet) swept)

-- `enqueue_at`. Its first test for room is the loop's, made once before.
pub enqueue_at : Bytes → ℕ → PacketQueue → EnqueueResult × PacketQueue
enqueue_at packet now q = if q.closed then (closed_queue, q) else enqueue_open packet now q

abbrev pub pop_front : PacketQueue → List QueuedPacket → Option Bytes × PacketQueue
pop_front q [] = (none, q)
pop_front q (item ∷ rest) = (
  some item.bytes,
  adjust_bytes shrank (length item.bytes)
      (publish_load (record q { items = rest; bytes = q.bytes - length item.bytes })),
)

pub dequeue_open : ℕ → PacketQueue → Option Bytes × PacketQueue
dequeue_open now q = let swept = drop_expired_locked now q in pop_front swept swept.items

pub dequeue_at : ℕ → PacketQueue → Option Bytes × PacketQueue
dequeue_at now q = if q.closed then (none, q) else dequeue_open now q

pub close : PacketQueue → PacketQueue
close q =
    if q.closed
    then q
    else notify (
        notify (
          adjust_bytes shrank q.bytes (record q {
            items = [];
            bytes = 0;
            closed = true;
            queued_bytes = 0;
            queued_packets = 0;
          })))
