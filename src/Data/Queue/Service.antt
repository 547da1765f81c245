-- ===== src/Data/Queue/Service.antt =====
-- What a sender and a receiver get from the queue.
use porta.Data.Classify.{PacketClass, tcp, datagram, control, classify_ipv4}
use porta.Data.Queue.Loops.{
  items-drop_expired_locked, items-record_drop, config-drop_expired_locked,
}
use porta.Prelude.Evict.{Evicts}
use porta.Data.Queue.Evict.{Fits, Replaces, NoneReplaced, Makes, make_room-Makes}
use porta.Data.Queue.Invariant.{IsValid, swept-Open}
use porta.Data.Queue.Room.{make_room_spares, is_spared}
use porta.Prelude.{
  ℕ, ◌≡◌, refl, sym, ap, ◌∙◌, Bool, true, false, none, some, List, [], ◌∷◌, ◌++◌, arith, length,
  select, if_true, if_false, subst,
}
use porta.Wire.Bytes.{Bytes}
use porta.Data.Queue.{
  class_aware, QueuedPacket, PacketQueue, EnqueueResult, accepted, dropped_full, dropped_tail,
  closed_queue, is_fresh, make_room, refuse, settle, append_locked, drop_expired_locked, enqueue_at,
  dequeue_at, pop_front,
}
use porta.Data.Queue.{adjust_bytes, dequeue_open, enqueue_open, queue_tail}
use porta.Data.Queue.{QueueConfig, publish_load, queue_full}

abbrev pub refusal : PacketClass → EnqueueResult
refusal tcp = dropped_tail
refusal _ = dropped_full

items-append_locked :
    (item : QueuedPacket) (q : PacketQueue) → (append_locked item q).items ≡ q.items ++ item ∷ []
unfolding append_locked
items-append_locked item q = ground arith

-- How `enqueue_at` ends on an open queue that holds these items once it is swept. Packets make way, one at
-- a time and only while there is no room; if there is room then, the packet is behind the rest; if not, and
-- nobody is left to make way, it is refused.
pub data Ends (config : QueueConfig) (item : QueuedPacket) (items : List QueuedPacket)
    (r : EnqueueResult × PacketQueue) : Type 0 where
  stored :
      (kept : List QueuedPacket)
      → Evicts (Fits config (length item.bytes)) (Replaces item.class) items kept
      → Fits config (length item.bytes) kept
      → select (is_spared item.class) kept ≡ select (is_spared item.class) items
      → r.0 ≡ accepted
      → r.1.items ≡ kept ++ item ∷ []
      → Ends config item items r
  refused :
      (kept : List QueuedPacket)
      → Evicts (Fits config (length item.bytes)) (Replaces item.class) items kept
      → (Fits config (length item.bytes) kept → ⊥)
      → NoneReplaced item.class kept
      → select (is_spared item.class) kept ≡ select (is_spared item.class) items
      → r.0 ≡ refusal item.class
      → r.1.items ≡ kept
      → Ends config item items r

refuse_lem :
    (class : PacketClass) (q : PacketQueue)
    → ((refuse class q).0 ≡ refusal class) × ((refuse class q).1.items ≡ q.items)
unfolding refuse
refuse_lem tcp q = (refl, items-record_drop queue_tail q)
refuse_lem datagram q = (refl, items-record_drop queue_full q)
refuse_lem control q = (refl, items-record_drop queue_full q)

settle-Ends :
    (config : QueueConfig) (item : QueuedPacket) (items : List QueuedPacket)
    (r : Bool × PacketQueue)
    → Makes config item.class (length item.bytes) items r.0 r.1.items
    → select (is_spared item.class) r.1.items ≡ select (is_spared item.class) items
    → Ends config item items (settle item r)
unfolding settle
settle-Ends config item items (true, q) (way, room, full) spares =
    stored q.items way (room refl) spares refl (items-append_locked item q)
settle-Ends config item items (false, q) (way, room, full) spares =
    let (crowded, nobody) = full refl in
    let (answer, left) = refuse_lem item.class q in
    refused q.items way crowded nobody spares answer left

enqueue_open-Ends :
    (packet : Bytes) (now : ℕ) (q : PacketQueue)
    → IsValid (drop_expired_locked now q)
    → q.config.policy ≡ class_aware
    → Ends
        (drop_expired_locked now q).config
        (record { bytes = packet; class = (classify_ipv4 packet).class; enqueued = now })
        (drop_expired_locked now q).items
        (enqueue_open packet now q)
unfolding enqueue_open
enqueue_open-Ends packet now q v p =
    let class = (classify_ipv4 packet).class in
    let swept = drop_expired_locked now q in
    let n = length swept.items in
    let policy : swept.config.policy ≡ class_aware =
      ap (λ (t : QueueConfig). t.policy) (config-drop_expired_locked now q) ∙ p in
    settle-Ends swept.config (record { bytes = packet; class = class; enqueued = now }) swept.items
      (make_room n class (length packet) swept)
      (make_room-Makes n class (length packet) swept (omega arith) policy v)
      (make_room_spares n class (length packet) swept policy)

-- A packet for an open queue under the class-aware policy, whose counters are right and whose limits hold.
-- Exactly what has expired is removed first. Then, one at a time and only while the packet would exceed a
-- limit, the oldest datagram is removed, or the oldest control packet if there is no datagram and the packet
-- is a control packet; all other items stay in order. If the packet fits then, it is stored behind the rest.
-- Otherwise it is refused, with no such item left.
pub enqueue_at_spares :
    (packet : Bytes) (now : ℕ) (q : PacketQueue)
    → IsValid q
    → q.closed ≡ false
    → q.config.policy ≡ class_aware
    → Ends q.config
        (record { bytes = packet; class = (classify_ipv4 packet).class; enqueued = now })
        (select (is_fresh q.config now) q.items)
        (enqueue_at packet now q)
unfolding enqueue_at
enqueue_at_spares packet now q v c p =
    let item : QueuedPacket = record {
      bytes = packet;
      class = (classify_ipv4 packet).class;
      enqueued = now;
    } in
    let swept = drop_expired_locked now q in
    let ends = enqueue_open-Ends packet now q (swept-Open now q (v, c)).0 p in
    subst (λ t. Ends q.config item t (enqueue_at packet now q)) (items-drop_expired_locked now q)
      (subst (λ t. Ends t item swept.items (enqueue_at packet now q))
        (config-drop_expired_locked now q)
        (subst (λ (t : EnqueueResult × PacketQueue). Ends swept.config item swept.items t)
          (sym (if_false q.closed (closed_queue, q) (enqueue_open packet now q) c)) ends))

pop_front_lem :
    (q : PacketQueue) (items : List QueuedPacket)
    → q.items ≡ items
    → (items ≡ [] → ((pop_front q items).0 ≡ none) × ((pop_front q items).1.items ≡ []))
      × ((item : QueuedPacket) (rest : List QueuedPacket)
          → items ≡ item ∷ rest
          → ((pop_front q items).0 ≡ some item.bytes) × ((pop_front q items).1.items ≡ rest))
unfolding adjust_bytes publish_load
pop_front_lem q [] e = (λ _. (refl, e), λ item rest h. cc)
pop_front_lem q (x ∷ xs) e = (λ h. cc, λ item rest h. ground arith)

-- A receiver of an open queue gets the oldest item that has not expired, and the later ones that have
-- not stay in their order; it gets nothing if there is none. A closed queue gives nothing.
pub dequeue_at_fifo :
    (now : ℕ) (q : PacketQueue)
    → (q.closed ≡ true → dequeue_at now q ≡ (none, q))
      × (q.closed ≡ false
          → (select (is_fresh q.config now) q.items ≡ []
              → ((dequeue_at now q).0 ≡ none) × ((dequeue_at now q).1.items ≡ []))
            × ((item : QueuedPacket) (rest : List QueuedPacket)
                → select (is_fresh q.config now) q.items ≡ item ∷ rest
                → ((dequeue_at now q).0 ≡ some item.bytes) × ((dequeue_at now q).1.items ≡ rest)))
unfolding dequeue_at dequeue_open
dequeue_at_fifo now q =
    let swept = drop_expired_locked now q in
    let front = pop_front_lem swept swept.items refl in
    let e = items-drop_expired_locked now q in
    (
      λ c. if_true q.closed (none, q) (dequeue_open now q) c,
      λ c.
          let same = if_false q.closed (none, q) (dequeue_open now q) c in
          (λ h. rw same (front.0 (e ∙ h)), λ item rest h. rw same (front.1 item rest (e ∙ h))),
    )
