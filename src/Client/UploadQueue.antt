-- ===== src/Client/UploadQueue.antt =====
-- `UploadQueue` of rust/porta-client/src/tunnel/h2_queue.rs. The mutex makes each method one step; the
-- counters of `QueueStats` change under it, and the calls of `Notify` are a field.
pub mod Loops
pub mod Invariant
pub mod Batch
pub mod Room
pub mod Service
mod Tests
use porta.Prelude.{
  ℕ, zero, suc, ◌+◌, ◌-◌, ◌*◌, max, Bool, true, false, not, ◌&&◌, ◌||◌, Option, none, some, List,
  [], ◌∷◌, ◌++◌, length, get_elem?, erase_at, position, ◌==◌, ltb, leb, if◌then◌else◌,
}
use porta.Prelude.Except.{Except, ok, err}
use porta.Wire.Bytes.{Bytes}
use porta.Wire.Ip.Classify.{PacketClass, tcp, datagram, control}

-- Durations and instants are nanoseconds.
pub record QueueConfig : Type 0 where
  pub max_packets : ℕ
  pub max_bytes : ℕ
  pub tcp_max_age : ℕ
  pub datagram_max_age : ℕ
  pub control_max_age : ℕ

-- `QueueConfig::default()`.
abbrev pub default_config : QueueConfig
default_config = record {
  max_packets = 96;
  max_bytes = 128 * 1024;
  tcp_max_age = 500000000;
  datagram_max_age = 150000000;
  control_max_age = 250000000;
}

pub record QueuedPacket : Type 0 where
  pub packet : Bytes
  pub class : PacketClass
  pub enqueued : ℕ

pub data Notice : Type 0 where
  notify_one notify_waiters : Notice

pub record UploadQueue : Type 0 where
  pub config : QueueConfig
  pub items : List QueuedPacket
  pub bytes : ℕ
  pub closed : Bool
  pub active : Bool
  pub oldest_drops : ℕ
  pub full_drops : ℕ
  pub tail_drops : ℕ
  pub expired_drops : ℕ
  pub current_bytes : ℕ
  pub high_water : ℕ
  pub notices : List Notice

pub data EnqueueError : Type 0 where
  unavailable full : Bytes → EnqueueError

abbrev pub with_config : QueueConfig → UploadQueue
with_config config = record {
  config = config;
  items = [];
  bytes = 0;
  closed = false;
  active = true;
  oldest_drops = 0;
  full_drops = 0;
  tail_drops = 0;
  expired_drops = 0;
  current_bytes = 0;
  high_water = 0;
  notices = [];
}

-- `adjust_bytes_locked` with a positive argument, and with a negative one. `bytes` stays at most
-- `max_bytes`, so that it does not saturate upwards.
pub grow : ℕ → UploadQueue → UploadQueue
grow delta q = record q {
  bytes = q.bytes + delta;
  current_bytes = q.current_bytes + delta;
  high_water = max q.high_water (q.current_bytes + delta);
}

pub shrink : ℕ → UploadQueue → UploadQueue
shrink delta q =
    if ltb q.current_bytes delta
    then record q { bytes = q.bytes - delta; current_bytes = 0 }
    else record q {
      bytes = q.bytes - delta;
      current_bytes = q.current_bytes - delta;
      high_water = max q.high_water (q.current_bytes - delta);
    }

pub clear_locked : UploadQueue → UploadQueue
clear_locked q = record q { items = []; bytes = 0; current_bytes = 0 }

pub activate : UploadQueue → UploadQueue
activate q = if not q.closed then record q { active = true } else q

pub deactivate_and_clear : UploadQueue → UploadQueue
unfolding clear_locked
deactivate_and_clear q = clear_locked (record q { active = false })

pub close : UploadQueue → UploadQueue
unfolding clear_locked
close q =
    let cleared = clear_locked (record q { closed = true; active = false }) in
    if q.closed then q else record cleared { notices = notify_waiters ∷ q.notices }

pub fits_locked : UploadQueue → ℕ → Bool
fits_locked q packet_bytes =
    ltb (length q.items) q.config.max_packets && leb (q.bytes + packet_bytes) q.config.max_bytes

pub max_age : QueueConfig → PacketClass → ℕ
max_age config tcp = config.tcp_max_age
max_age config control = config.control_max_age
max_age config datagram = config.datagram_max_age

-- `duration_since` is `-`: it is zero for an instant that is later.
pub is_fresh : QueueConfig → ℕ → QueuedPacket → Bool
unfolding max_age
is_fresh config now item = ltb (now - item.enqueued) (max_age config item.class)

-- `items.remove(index)` and the adjustment, where an item is.
pub remove_locked : ℕ → UploadQueue → UploadQueue
unfolding shrink
remove_locked index q = elim (get_elem? q.items index) [
  | none ↦ q
  | some item ↦ shrink (length item.packet) (record q { items = erase_at q.items index })
]

abbrev pub count_expired : UploadQueue → UploadQueue
count_expired q = record q { expired_drops = suc q.expired_drops }

abbrev pub count_oldest : UploadQueue → UploadQueue
count_oldest q = record q { oldest_drops = suc q.oldest_drops }

-- `while index < state.items.len()`: each round passes an item or removes one, so as many rounds as
-- there are items are enough.
pub expire_from : ℕ → ℕ → ℕ → UploadQueue → UploadQueue
expire_from zero index now q = q
expire_from (suc fuel) index now q = elim (get_elem? q.items index) [
  | none ↦ q
  | some item ↦ elim (is_fresh q.config now item) [
    | true ↦ expire_from fuel (suc index) now q
    | false ↦ expire_from fuel index now (count_expired (remove_locked index q))
  ]
]

pub drop_expired_locked : ℕ → UploadQueue → UploadQueue
unfolding expire_from
drop_expired_locked now q = expire_from (length q.items) 0 now q

abbrev pub is_datagram : QueuedPacket → Bool
is_datagram item = elim item.class [ datagram ↦ true | _ ↦ false ]

abbrev pub is_control : QueuedPacket → Bool
is_control item = elim item.class [ control ↦ true | _ ↦ false ]

pub oldest_replaceable_locked : UploadQueue → PacketClass → Option ℕ
oldest_replaceable_locked q incoming = elim (position is_datagram q.items) [
  | some index ↦ some index
  | none ↦ elim incoming [ control ↦ position is_control q.items | _ ↦ none ]
]

pub record_rejected : PacketClass → UploadQueue → UploadQueue
record_rejected tcp q = record q { tail_drops = suc q.tail_drops }
record_rejected datagram q = record q { full_drops = suc q.full_drops }
record_rejected control q = record q { full_drops = suc q.full_drops }

-- `while !self.fits_locked(...)`, true when the loop ends with room and false when it finds no victim.
-- Each round removes an item; after as many rounds as there are items, none is left to be a victim.
pub make_room : ℕ → PacketClass → ℕ → UploadQueue → Bool × UploadQueue
make_room zero class size q = (fits_locked q size, q)
make_room (suc fuel) class size q = elim (fits_locked q size) [
  | true ↦ (true, q)
  | false ↦ elim (oldest_replaceable_locked q class) [
    | none ↦ (false, q)
    | some victim ↦ make_room fuel class size (count_oldest (remove_locked victim q))
  ]
]

abbrev pub is_empty : List QueuedPacket → Bool
is_empty [] = true
is_empty (_ ∷ _) = false

pub append : QueuedPacket → UploadQueue → UploadQueue
unfolding grow
append item q =
    let grown = grow (length item.packet) q in
    let stored = record grown { items = q.items ++ item ∷ [] } in
    if is_empty q.items then record stored { notices = notify_one ∷ q.notices } else stored

abbrev pub Enqueued : Type 0
Enqueued = Except EnqueueError (Unit {0}) × UploadQueue

pub settle : QueuedPacket → Bool × UploadQueue → Enqueued
settle item (true, q) = (ok tt, append item q)
settle item (false, q) = (err (full item.packet), record_rejected item.class q)

pub enqueue_active : Bytes → PacketClass → ℕ → UploadQueue → Enqueued
enqueue_active packet class now q =
    let item : QueuedPacket = record { packet = packet; class = class; enqueued = now } in
    let swept = drop_expired_locked now q in
    if ltb q.config.max_bytes (length packet) || q.config.max_packets == 0
    then (err (full packet), record_rejected class swept)
    else settle item (make_room (length swept.items) class (length packet) swept)

pub enqueue : Bytes → PacketClass → ℕ → UploadQueue → Enqueued
enqueue packet class now q =
    if q.closed || not q.active
    then (err (unavailable packet), q)
    else enqueue_active packet class now q

-- The batch, its bytes, and the items left: `while batch.len() < max_packets` with the packets it may
-- still take, whether the batch is empty, and the bytes taken before.
pub take_front : ℕ → ℕ → Bool → ℕ → List QueuedPacket → List Bytes × ℕ × List QueuedPacket
take_front zero max_bytes first bytes items = ([], bytes, items)
take_front (suc left) max_bytes first bytes [] = ([], bytes, [])
take_front (suc left) max_bytes first bytes (next ∷ rest) =
    let (batch, total, kept) = take_front left max_bytes false (bytes + length next.packet) rest in
    if not first && ltb max_bytes (bytes + length next.packet)
    then ([], bytes, next ∷ rest)
    else (next.packet ∷ batch, total, kept)

pub data Taken : Type 0 where
  batch : List Bytes → Taken
  finished waits : Taken

-- The locked part of a round of `take_batch`, which goes round again after `waits` when it is notified.
pub take_round : ℕ → ℕ → ℕ → UploadQueue → Taken × UploadQueue
unfolding shrink
take_round now max_packets max_bytes q =
    let swept = drop_expired_locked now q in
    let (packets, bytes, kept) = take_front max_packets max_bytes true 0 swept.items in
    if not (is_empty swept.items)
    then (batch packets, shrink bytes (record swept { items = kept }))
    else if swept.closed
    then (finished, swept)
    else (waits, swept)

pub queued_bytes_at : ℕ → UploadQueue → ℕ × UploadQueue
queued_bytes_at now q = let swept = drop_expired_locked now q in (swept.bytes, swept)
