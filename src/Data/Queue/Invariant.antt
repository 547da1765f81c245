-- ===== src/Data/Queue/Invariant.antt =====
-- The invariant of the queue: its counters, limits and published load, after any calls.
use porta.Data.Queue.Loops.{drop_expired_locked_keeps, make_room_keeps}
use porta.Data.Queue.Room.{make_room_outcome}
use porta.Prelude.{
  ℕ, zero, suc, ◌+◌, ◌≤◌, ◌≡◌, refl, ap, ◌∙◌, Bool, true, false, inl, inr, Option, some, List, [],
  ◌∷◌, ◌++◌, arith, length, get_elem?, erase_at, length-append, Bool-cases, if_cases, Option-cases,
}
use porta.Wire.Bytes.{Bytes}
use porta.Data.Queue.{
  DropReason, QueueConfig, QueuedPacket, Event, dropped, grew, shrank, notified, PacketQueue, new,
  EnqueueResult, record_drop, take_out, remove_locked, append_locked, fits, make_room, refuse,
  settle, drop_expired_locked, enqueue_open, dequeue_open, enqueue_at, dequeue_at, pop_front, close,
}
use porta.Data.Queue.{adjust_bytes, classify_ipv4, queue_tail}
use porta.Data.Queue.{notify, publish_load, queue_full}

-- The payload bytes of the items.
abbrev pub total : List QueuedPacket → ℕ
total [] = 0
total (item ∷ rest) = length item.bytes + total rest

-- The sums of what the metrics were told, up and down.
abbrev pub added : List Event → ℕ
added [] = 0
added (grew n ∷ log) = n + added log
added (dropped _ ∷ log) = added log
added (shrank _ ∷ log) = added log
added (notified ∷ log) = added log

abbrev pub removed : List Event → ℕ
removed [] = 0
removed (shrank n ∷ log) = n + removed log
removed (dropped _ ∷ log) = removed log
removed (grew _ ∷ log) = removed log
removed (notified ∷ log) = removed log

-- The counter is the sum of the items, both are within their limits, the published load is the true
-- one, a closed queue is empty, and the gauge of the metrics shows the bytes of the queue.
pub record IsValid (q : PacketQueue) : Type 0 where
  pub counted : q.bytes ≡ total q.items
  pub few : length q.items ≤ q.config.max_packets
  pub small : q.bytes ≤ q.config.max_bytes
  pub bytes_published : q.queued_bytes ≡ q.bytes
  pub packets_published : q.queued_packets ≡ length q.items
  pub emptied : q.closed ≡ true → q.items ≡ []
  pub metered : q.has_metrics ≡ true → q.has_lane ≡ true → added q.log ≡ q.bytes + removed q.log

new-IsValid : (config : QueueConfig) (m l : Bool) → IsValid (new config m l)
new-IsValid config m l = record {
  counted = refl;
  few = omega arith;
  small = omega arith;
  bytes_published = refl;
  packets_published = refl;
  emptied = λ _. refl;
  metered = λ _ _. omega arith;
}

total-append : (xs ys : List QueuedPacket) → total (xs ++ ys) ≡ total xs + total ys
total-append [] ys = omega arith
total-append (x ∷ xs) ys = omega (arith, total-append xs ys)

total-erase_at :
    (xs : List QueuedPacket) (index : ℕ) (item : QueuedPacket)
    → get_elem? xs index ≡ some item
    → (total xs ≡ length item.bytes + total (erase_at xs index))
      × (length xs ≡ suc (length (erase_at xs index)))
total-erase_at [] index item h = cc
total-erase_at (x ∷ xs) zero item h = ground arith
total-erase_at (x ∷ xs) (suc index) item h =
    let (t, n) = total-erase_at xs index item h in (omega arith, omega arith)

record_drop-IsValid :
    (reason : DropReason) (q : PacketQueue) → IsValid q → IsValid (record_drop reason q)
unfolding record_drop
record_drop-IsValid reason q v = elim (Bool-cases q.has_metrics) [
  | inl m ↦ ground arith
  | inr m ↦ ground arith
]

take_out-IsValid :
    (index : ℕ) (item : QueuedPacket) (q : PacketQueue)
    → get_elem? q.items index ≡ some item
    → IsValid q
    → IsValid (take_out index item q)
unfolding take_out
take_out-IsValid index item q e v = ground (arith, total-erase_at q.items index item e)

pub remove-IsValid :
    (reason : DropReason) (index : ℕ) (q : PacketQueue)
    → IsValid q
    → IsValid (record_drop reason (remove_locked index q))
unfolding remove_locked
remove-IsValid reason index q v = elim (Option-cases (get_elem? q.items index)) [
  | inl e ↦ rw (e, remove_locked) (record_drop-IsValid reason q v)
  | inr (item, e) ↦
      rw (e, remove_locked)
        (record_drop-IsValid reason (take_out index item q) (take_out-IsValid index item q e v))
]

append-IsValid :
    (item : QueuedPacket) (q : PacketQueue)
    → q.closed ≡ false
    → fits q (length item.bytes) ≡ true
    → IsValid q
    → IsValid (append_locked item q)
unfolding append_locked fits
append-IsValid item q open_now room v =
    ground (arith, total-append q.items (item ∷ []), length-append q.items (item ∷ []))

-- What the loops keep: the invariant, and that the queue is open.
abbrev Open : PacketQueue → Type 0
Open q = IsValid q × (q.closed ≡ false)

closed-remove :
    (reason : DropReason) (index : ℕ) (q : PacketQueue)
    → (record_drop reason (remove_locked index q)).closed ≡ q.closed
unfolding record_drop remove_locked
closed-remove reason index q = ground arith

remove-Open :
    (reason : DropReason) (index : ℕ) (q : PacketQueue)
    → Open q
    → Open (record_drop reason (remove_locked index q))
remove-Open reason index q o =
    (remove-IsValid reason index q o.0, closed-remove reason index q ∙ o.1)

pub swept-Open : (now : ℕ) (q : PacketQueue) → Open q → Open (drop_expired_locked now q)
swept-Open now q o = drop_expired_locked_keeps Open remove-Open now q o

settle-IsValid :
    (item : QueuedPacket) (r : Bool × PacketQueue)
    → Open r.1
    → fits r.1 (length item.bytes) ≡ r.0
    → IsValid (settle item r).1
unfolding settle refuse
settle-IsValid item (true, q) o f = append-IsValid item q o.1 f o.0
settle-IsValid item (false, q) o f =
    ground (arith, record_drop-IsValid queue_tail q o.0, record_drop-IsValid queue_full q o.0)

enqueue_open-IsValid :
    (packet : Bytes) (now : ℕ) (q : PacketQueue) → Open q → IsValid (enqueue_open packet now q).1
unfolding enqueue_open
enqueue_open-IsValid packet now q o =
    let s = swept-Open now q o in
    let class = (classify_ipv4 packet).class in
    let swept = drop_expired_locked now q in
    settle-IsValid (record { bytes = packet; class = class; enqueued = now })
      (make_room (length swept.items) class (length packet) swept)
      (make_room_keeps Open remove-Open (length swept.items) class (length packet) swept s)
      (make_room_outcome (length swept.items) class (length packet) swept (omega arith)).0

pub enqueue_at-IsValid :
    (packet : Bytes) (now : ℕ) (q : PacketQueue) → IsValid q → IsValid (enqueue_at packet now q).1
unfolding enqueue_at
enqueue_at-IsValid packet now q v =
    if_cases {A = EnqueueResult × PacketQueue} (λ r. IsValid r.1) q.closed _ _ (λ _. v)
      (λ c. enqueue_open-IsValid packet now q (v, c))

pop_front-IsValid :
    (q : PacketQueue) (items : List QueuedPacket)
    → q.items ≡ items
    → Open q
    → IsValid (pop_front q items).1
unfolding adjust_bytes publish_load
pop_front-IsValid q [] e o = o.0
pop_front-IsValid q (item ∷ rest) e o =
    let v = o.0 in
    let t : total q.items ≡ length item.bytes + total rest = ap total e in
    let n : length q.items ≡ suc (length rest) = ap length e in ground (arith, t, n)

dequeue_open-IsValid : (now : ℕ) (q : PacketQueue) → Open q → IsValid (dequeue_open now q).1
unfolding dequeue_open
dequeue_open-IsValid now q o =
    pop_front-IsValid (drop_expired_locked now q) _ refl (swept-Open now q o)

pub dequeue_at-IsValid : (now : ℕ) (q : PacketQueue) → IsValid q → IsValid (dequeue_at now q).1
unfolding dequeue_at
dequeue_at-IsValid now q v =
    if_cases {A = Option Bytes × PacketQueue} (λ r. IsValid r.1) q.closed _ _ (λ _. v)
      (λ c. dequeue_open-IsValid now q (v, c))

pub close-IsValid : (q : PacketQueue) → IsValid q → IsValid (close q)
unfolding close adjust_bytes notify
close-IsValid q v = ground arith

-- The calls of the owner and of the sessions, with the time of each.
pub data Call : Type 0 where
  enqueues : Bytes → Call
  dequeues closes : Call

pub step : PacketQueue → ℕ × Call → PacketQueue
step q (now, enqueues packet) = (enqueue_at packet now q).1
step q (now, dequeues) = (dequeue_at now q).1
step q (now, closes) = close q

pub run : PacketQueue → List (ℕ × Call) → PacketQueue
unfolding step
run q [] = q
run q (c ∷ cs) = run (step q c) cs

step-IsValid : (q : PacketQueue) (c : ℕ × Call) → IsValid q → IsValid (step q c)
unfolding step
step-IsValid q (now, enqueues packet) v = enqueue_at-IsValid packet now q v
step-IsValid q (now, dequeues) v = dequeue_at-IsValid now q v
step-IsValid q (now, closes) v = close-IsValid q v

run_from-IsValid : (q : PacketQueue) (cs : List (ℕ × Call)) → IsValid q → IsValid (run q cs)
unfolding run
run_from-IsValid q [] v = v
run_from-IsValid q (c ∷ cs) v = run_from-IsValid (step q c) cs (step-IsValid q c v)

-- After any calls at any times, a queue is within the limits that it was made with, its counter and
-- its published load are the true ones, it is empty once closed, and the gauge of its metrics, where
-- it has one, shows its bytes.
pub run-IsValid :
    (config : QueueConfig) (has_metrics has_lane : Bool) (cs : List (ℕ × Call))
    → IsValid (run (new config has_metrics has_lane) cs)
run-IsValid config m l cs = run_from-IsValid _ cs (new-IsValid config m l)
