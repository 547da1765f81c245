-- ===== src/Client/UploadQueue/Invariant.antt =====
-- The invariant of the upload queue: its counters and limits, after any calls.
use porta.Prelude.{
  ℕ, zero, suc, ◌+◌, ◌≤◌, ◌≡◌, refl, ap, ◌∙◌, Bool, true, false, inl, inr, some, List, [], ◌∷◌,
  arith, length, get_elem?, erase_at, length-append, Bool-cases, if_cases, Option-cases,
}
use porta.Wire.Bytes.{Bytes}
use porta.Wire.Ip.Classify.{PacketClass}
use porta.Client.UploadQueue.Batch.{total, total-append, take_front-IsBatch}
use porta.Client.UploadQueue.Loops.{drop_expired_locked_keeps, make_room_keeps}
use porta.Client.UploadQueue.{
  QueueConfig, QueuedPacket, UploadQueue, Enqueued, Taken, with_config, remove_locked,
  count_expired, count_oldest, drop_expired_locked, fits_locked, make_room, append, settle,
  record_rejected, enqueue_active, enqueue, take_front, take_round, queued_bytes_at, activate,
  deactivate_and_clear, close,
}
use porta.Prelude.{ltb, not, ◌||◌}
use porta.Client.UploadQueue.{ltb, not, shrink}
use porta.Prelude.{◌==◌}
use porta.Client.UploadQueue.{is_empty}
use porta.Client.UploadQueue.Batch.{IsBatch}
use porta.Client.UploadQueue.{finished}
use porta.Client.UploadQueue.{waits}
use porta.Prelude.{length_zero}
use porta.Client.UploadQueue.{oldest_replaceable_locked}

-- The byte counter and the gauge are the sum of the items, both limits are kept, the high-water mark is
-- a bound of the bytes within the limit, and a queue that is closed or not active is empty.
pub record IsValid (q : UploadQueue) : Type 0 where
  pub counted : q.bytes ≡ total q.items
  pub gauged : q.current_bytes ≡ q.bytes
  pub few : length q.items ≤ q.config.max_packets
  pub small : q.bytes ≤ q.high_water
  pub bounded : q.high_water ≤ q.config.max_bytes
  pub emptied : q.active ≡ false → q.items ≡ []
  pub shut : q.closed ≡ true → q.active ≡ false

with_config-IsValid : (config : QueueConfig) → IsValid (with_config config)
with_config-IsValid config = record {
  counted = refl;
  gauged = refl;
  few = omega arith;
  small = omega arith;
  bounded = omega arith;
  emptied = λ _. refl;
  shut = λ h. cc;
}

total-erase_at :
    (xs : List QueuedPacket) (index : ℕ) (item : QueuedPacket)
    → get_elem? xs index ≡ some item
    → (total xs ≡ length item.packet + total (erase_at xs index))
      × (length xs ≡ suc (length (erase_at xs index)))
total-erase_at [] index item h = cc
total-erase_at (x ∷ xs) zero item h = ground arith
total-erase_at (x ∷ xs) (suc index) item h =
    let (t, n) = total-erase_at xs index item h in (omega arith, omega arith)

-- What the loops keep: the invariant, and whether the queue takes packets.
abbrev pub Kept : Bool → Bool → UploadQueue → Type 0
Kept a c q = IsValid q × (q.active ≡ a) × (q.closed ≡ c)

remove_locked-Kept :
    (a c : Bool) (index : ℕ) (q : UploadQueue) → Kept a c q → Kept a c (remove_locked index q)
unfolding remove_locked
remove_locked-Kept a c index q (v, e, f) = elim (Option-cases (get_elem? q.items index)) [
  | inl n ↦ rw (n, remove_locked) (v, e, f)
  | inr (item, n) ↦
      rw (n, remove_locked)
        (ground (arith, total-erase_at q.items index item n), ground arith, ground arith)
]

expired-Kept :
    (a c : Bool) (index : ℕ) (q : UploadQueue)
    → Kept a c q
    → Kept a c (count_expired (remove_locked index q))
expired-Kept a c index q k = ground (arith, remove_locked-Kept a c index q k)

pub replaced-Kept :
    (a c : Bool) (index : ℕ) (q : UploadQueue)
    → Kept a c q
    → Kept a c (count_oldest (remove_locked index q))
replaced-Kept a c index q k = ground (arith, remove_locked-Kept a c index q k)

pub swept-Kept :
    (a c : Bool) (now : ℕ) (q : UploadQueue) → Kept a c q → Kept a c (drop_expired_locked now q)
swept-Kept a c now q k = drop_expired_locked_keeps (Kept a c) (expired-Kept a c) now q k

append-IsValid :
    (item : QueuedPacket) (q : UploadQueue)
    → Kept true false q
    → fits_locked q (length item.packet) ≡ true
    → IsValid (append item q)
unfolding append fits_locked
append-IsValid item q k room =
    ground (arith, total-append q.items (item ∷ []), length-append q.items (item ∷ []))

rejected-IsValid :
    (class : PacketClass) (q : UploadQueue) → IsValid q → IsValid (record_rejected class q)
unfolding record_rejected
rejected-IsValid class q v = ground arith

-- The loop of `enqueue` says by its flag whether there is room.
make_room-fits :
    (fuel : ℕ) (class : PacketClass) (size : ℕ) (q : UploadQueue)
    → (make_room fuel class size q).0 ≡ true
    → fits_locked (make_room fuel class size q).1 size ≡ true
unfolding make_room
make_room-fits zero class size q = λ h. h
make_room-fits (suc fuel) class size q = elim (Bool-cases (fits_locked q size)) [
  | inl f ↦ rw (f, make_room) (λ _. f)
  | inr f ↦ elim (Option-cases (oldest_replaceable_locked q class)) [
    | inl v ↦ rw (f, make_room, v) (λ h. cc)
    | inr (index, v) ↦
        rw (f, make_room, v) (make_room-fits fuel class size (count_oldest (remove_locked index q)))
  ]
]

settle-IsValid :
    (item : QueuedPacket) (r : Bool × UploadQueue)
    → Kept true false r.1
    → (r.0 ≡ true → fits_locked r.1 (length item.packet) ≡ true)
    → IsValid (settle item r).1
unfolding settle
settle-IsValid item (true, q) k f = append-IsValid item q k (f refl)
settle-IsValid item (false, q) k f = rejected-IsValid item.class q k.0

enqueue_active-IsValid :
    (packet : Bytes) (class : PacketClass) (now : ℕ) (q : UploadQueue)
    → Kept true false q
    → IsValid (enqueue_active packet class now q).1
unfolding enqueue_active
enqueue_active-IsValid packet class now q k =
    let swept = drop_expired_locked now q in
    let s = swept-Kept true false now q k in
    let n = length swept.items in
    if_cases {A = Enqueued} (λ r. IsValid r.1)
      (ltb q.config.max_bytes (length packet) || q.config.max_packets == 0) _ _
      (λ _. rejected-IsValid class swept s.0)
      (λ _.
        settle-IsValid (record { packet = packet; class = class; enqueued = now })
          (make_room n class (length packet) swept)
          (make_room_keeps (Kept true false) (replaced-Kept true false) n class (length packet)
            swept s)
          (make_room-fits n class (length packet) swept))

enqueue-IsValid :
    (packet : Bytes) (class : PacketClass) (now : ℕ) (q : UploadQueue)
    → IsValid q
    → IsValid (enqueue packet class now q).1
unfolding enqueue
enqueue-IsValid packet class now q v =
    if_cases {A = Enqueued} (λ r. IsValid r.1) (q.closed || not q.active) _ _ (λ _. v)
      (λ h. enqueue_active-IsValid packet class now q (v, ground arith, ground arith))

-- The items from which a batch was taken, less the batch.
taken-IsValid :
    (left max_bytes : ℕ) (q : UploadQueue) (r : List Bytes × ℕ × List QueuedPacket)
    → IsBatch left max_bytes true 0 q.items r
    → IsValid q
    → IsValid (shrink r.1 (record q { items = r.2 }))
unfolding shrink
taken-IsValid left max_bytes q r b v =
    let counts : length q.items ≡ length b.taken + length r.2 =
      ap length b.split ∙ length-append b.taken r.2 in
    let sums : total q.items ≡ total b.taken + total r.2 =
      ap total b.split ∙ total-append b.taken r.2 in
    let emptied : q.items ≡ [] → r.2 ≡ [] =
      λ (h : q.items ≡ []). length_zero r.2 (omega (arith, counts, ap length h)) in
    ground (arith, counts, sums, b.summed, v.counted, v.gauged)

take_round-IsValid :
    (now max_packets max_bytes : ℕ) (q : UploadQueue)
    → IsValid q
    → IsValid (take_round now max_packets max_bytes q).1
unfolding take_round
take_round-IsValid now max_packets max_bytes q v =
    let swept = drop_expired_locked now q in
    let s = (swept-Kept q.active q.closed now q (v, refl, refl)).0 in
    let r = take_front max_packets max_bytes true 0 swept.items in
    if_cases {A = Taken × UploadQueue} (λ t. IsValid t.1) (not (is_empty swept.items)) _ _
      (λ _.
        taken-IsValid max_packets max_bytes swept r
          (take_front-IsBatch max_packets max_bytes true 0 swept.items) s)
      (λ _.
        if_cases {A = Taken × UploadQueue} (λ t. IsValid t.1) swept.closed (finished, swept)
          (waits, swept) (λ _. s) (λ _. s))

-- The calls of the queue.
pub data Call : Type 0 where
  call_enqueue : Bytes → PacketClass → ℕ → Call
  call_take : ℕ → ℕ → ℕ → Call
  call_queued_bytes : ℕ → Call
  call_activate call_deactivate call_close : Call

pub apply : Call → UploadQueue → UploadQueue
apply (call_enqueue packet class now) q = (enqueue packet class now q).1
apply (call_take now max_packets max_bytes) q = (take_round now max_packets max_bytes q).1
apply (call_queued_bytes now) q = (queued_bytes_at now q).1
apply call_activate q = activate q
apply call_deactivate q = deactivate_and_clear q
apply call_close q = close q

pub run : List Call → UploadQueue → UploadQueue
run [] q = q
run (call ∷ calls) q = run calls (apply call q)

apply-IsValid : (call : Call) (q : UploadQueue) → IsValid q → IsValid (apply call q)
unfolding apply queued_bytes_at activate deactivate_and_clear close
apply-IsValid (call_enqueue packet class now) q v = enqueue-IsValid packet class now q v
apply-IsValid (call_take now max_packets max_bytes) q v =
    take_round-IsValid now max_packets max_bytes q v
apply-IsValid (call_queued_bytes now) q v = (swept-Kept q.active q.closed now q (v, refl, refl)).0
apply-IsValid call_activate q v = ground arith
apply-IsValid call_deactivate q v = ground arith
apply-IsValid call_close q v = ground arith

calls-IsValid : (calls : List Call) (q : UploadQueue) → IsValid q → IsValid (run calls q)
unfolding run
calls-IsValid [] q v = v
calls-IsValid (call ∷ calls) q v = calls-IsValid calls (apply call q) (apply-IsValid call q v)

-- Whatever calls were made of a new upload queue, its byte counter and its gauge are the sum of the
-- queued packets, both limits and the high-water mark hold, and it is empty unless it is active.
pub run-with_config-IsValid :
    (config : QueueConfig) (calls : List Call) → IsValid (run calls (with_config config))
run-with_config-IsValid config calls =
    calls-IsValid calls (with_config config) (with_config-IsValid config)
