-- ===== src/Client/UploadQueue/Service.antt =====
-- What the sender and the tunnel get from the upload queue.
use porta.Prelude.{
  ℕ, ◌≤◌, ◌<◌, ◌≡◌, ◌⊎◌, refl, sym, subst, ◌∙◌, Bool, true, false, not, ◌||◌, List, [], ◌∷◌, ◌++◌,
  arith, length, select, ltb, ◌==◌, if_true, if_false, if_cases,
}
use porta.Prelude.Except.{ok, err}
use porta.Wire.Bytes.{Bytes}
use porta.Wire.Ip.Classify.{PacketClass, tcp, datagram, control}
use porta.Client.UploadQueue.Loops.{items-drop_expired_locked, config-drop_expired_locked}
use porta.Client.UploadQueue.Room.{Fits, Replaces, NoneReplaced, Makes, make_room-Makes, is_spared}
use porta.Client.UploadQueue.Invariant.{IsValid, Kept, swept-Kept}
use porta.Prelude.Evict.{Evicts}
use porta.Client.UploadQueue.{QueueConfig}
use porta.Client.UploadQueue.Batch.{IsBatch, take_front-IsBatch}
use porta.Client.UploadQueue.{
  QueuedPacket, UploadQueue, Enqueued, Taken, batch, finished, waits, full, unavailable, is_fresh,
  is_empty, make_room, settle, append, record_rejected, drop_expired_locked, enqueue,
  enqueue_active, take_front, take_round, shrink,
}
use porta.Prelude.{if◌then◌else◌}

-- How `enqueue` ends on an active queue that holds these items once it is swept. A packet that can never fit
-- is given back and nobody makes way for it. For another packets make way, one at a time and only while
-- there is no room; if there is room then, the packet is behind the rest; if not, and nobody is left to
-- make way, it is given back.
pub data Ends (config : QueueConfig) (item : QueuedPacket) (items : List QueuedPacket)
    (r : Enqueued) : Type 0 where
  never_fits :
      (config.max_bytes < length item.packet) ⊎ (config.max_packets ≡ 0)
      → r.0 ≡ err (full item.packet)
      → r.1.items ≡ items
      → Ends config item items r
  stored :
      (kept : List QueuedPacket)
      → Evicts (Fits config (length item.packet)) (Replaces item.class) items kept
      → Fits config (length item.packet) kept
      → select (is_spared item.class) kept ≡ select (is_spared item.class) items
      → r.0 ≡ ok tt
      → r.1.items ≡ kept ++ item ∷ []
      → Ends config item items r
  refused :
      (kept : List QueuedPacket)
      → length item.packet ≤ config.max_bytes
      → 0 < config.max_packets
      → Evicts (Fits config (length item.packet)) (Replaces item.class) items kept
      → (Fits config (length item.packet) kept → ⊥)
      → NoneReplaced item.class kept
      → select (is_spared item.class) kept ≡ select (is_spared item.class) items
      → r.0 ≡ err (full item.packet)
      → r.1.items ≡ kept
      → Ends config item items r

items-append :
    (item : QueuedPacket) (q : UploadQueue) → (append item q).items ≡ q.items ++ item ∷ []
unfolding append
items-append item q = ground arith

items-record_rejected :
    (class : PacketClass) (q : UploadQueue) → (record_rejected class q).items ≡ q.items
unfolding record_rejected
items-record_rejected tcp q = refl
items-record_rejected datagram q = refl
items-record_rejected control q = refl

settle-Ends :
    (config : QueueConfig) (item : QueuedPacket) (items : List QueuedPacket)
    (r : Bool × UploadQueue)
    → length item.packet ≤ config.max_bytes
    → 0 < config.max_packets
    → Makes config item.class (length item.packet) items r.0 r.1.items
    → Ends config item items (settle item r)
unfolding settle
settle-Ends config item items (true, kept) short some_room v =
    stored kept.items v.way (v.has_room refl) v.spared refl (items-append item kept)
settle-Ends config item items (false, kept) short some_room v =
    let (crowded, nobody) = v.is_full refl in
    refused kept.items short some_room v.way crowded nobody v.spared refl
      (items-record_rejected item.class kept)

enqueue_active-Ends :
    (packet : Bytes) (class : PacketClass) (now : ℕ) (q : UploadQueue)
    → Kept true false q
    → Ends q.config
        (record { packet = packet; class = class; enqueued = now })
        (drop_expired_locked now q).items
        (enqueue_active packet class now q)
unfolding enqueue_active
enqueue_active-Ends packet class now q k =
    let swept = drop_expired_locked now q in
    let n = length swept.items in
    let item : QueuedPacket = record { packet = packet; class = class; enqueued = now } in
    let r = make_room n class (length packet) swept in
    let v =
      subst (λ c. Makes c class (length packet) swept.items r.0 r.1.items)
        (config-drop_expired_locked now q)
        (make_room-Makes n class (length packet) swept (omega arith)
          (swept-Kept true false now q k)) in
    if_cases {A = Enqueued} (Ends q.config item swept.items)
      (ltb q.config.max_bytes (length packet) || q.config.max_packets == 0)
      (err (full packet), record_rejected class swept) (settle item r)
      (λ h. never_fits (ground (arith, h)) refl (items-record_rejected class swept))
      (λ h. settle-Ends q.config item swept.items r (ground (arith, h)) (ground (arith, h)) v)

-- A queue that is closed or not active gives the packet back and stays as it is. An active queue, whose
-- counters are right and whose limits hold, first loses exactly what has expired. A packet longer than the
-- limit of bytes, or any packet if the limit of packets is zero, is given back then. For another, one at a
-- time and only while it would exceed a limit, the oldest datagram is removed, or the oldest control packet if
-- there is no datagram and the packet is a control packet; all other items stay in order. If the packet fits
-- then, it is stored behind the rest; otherwise it is given back, with no such item left.
pub enqueue_spares :
    (packet : Bytes) (class : PacketClass) (now : ℕ) (q : UploadQueue)
    → IsValid q
    → ((q.closed ≡ true) ⊎ (q.active ≡ false)
        → enqueue packet class now q ≡ (err (unavailable packet), q))
      × (q.closed ≡ false
          → q.active ≡ true
          → Ends q.config
              (record { packet = packet; class = class; enqueued = now })
              (select (is_fresh q.config now) q.items)
              (enqueue packet class now q))
unfolding enqueue
enqueue_spares packet class now q v =
    let item : QueuedPacket = record { packet = packet; class = class; enqueued = now } in
    (
      λ h.
          if_true (q.closed || not q.active) (err (unavailable packet), q)
            (enqueue_active packet class now q) (ground (arith, h)),
      λ c a.
          subst (Ends q.config item (select (is_fresh q.config now) q.items))
            (sym (
              if_false (q.closed || not q.active) (err (unavailable packet), q)
                (enqueue_active packet class now q) (ground (arith, c, a))))
            (subst (λ t. Ends q.config item t (enqueue_active packet class now q))
              (items-drop_expired_locked now q) (enqueue_active-Ends packet class now q (v, a, c))),
    )

items-shrink : (n : ℕ) (q : UploadQueue) → (shrink n q).items ≡ q.items
unfolding shrink
items-shrink n q = ground arith

-- What a round of `take_batch` gives: a batch at the front of the items that have not expired, with the
-- rest left in order; with none of them, the end of a closed queue, or a wait.
pub data Gives (now max_packets max_bytes : ℕ) (q : UploadQueue) (r : Taken × UploadQueue)
    : Type 0 where
  given :
      (items : List QueuedPacket) (b : List Bytes × ℕ × List QueuedPacket)
      → items ≡ select (is_fresh q.config now) q.items
      → is_empty items ≡ false
      → r.0 ≡ batch b.0
      → r.1.items ≡ b.2
      → IsBatch max_packets max_bytes true 0 items b
      → Gives now max_packets max_bytes q r
  nothing :
      select (is_fresh q.config now) q.items ≡ []
      → r.1.items ≡ []
      → r.0 ≡ (if r.1.closed then finished else waits)
      → Gives now max_packets max_bytes q r

-- A round of `take_batch` sweeps the queue. If packets are left and the limit of packets is not zero, the
-- batch is the first of them in order, and goes on, within the limit of packets, until the next would exceed
-- the limit of bytes; the first is taken in any case, and alone if it exceeds that limit. Without packets the
-- round ends on a closed queue and waits on another.
pub take_round-Gives :
    (now max_packets max_bytes : ℕ) (q : UploadQueue)
    → Gives now max_packets max_bytes q (take_round now max_packets max_bytes q)
unfolding take_round
take_round-Gives now max_packets max_bytes q =
    let swept = drop_expired_locked now q in
    let r = take_front max_packets max_bytes true 0 swept.items in
    let fresh = items-drop_expired_locked now q in
    let v = take_front-IsBatch max_packets max_bytes true 0 swept.items in
    if_cases {A = Taken × UploadQueue} (Gives now max_packets max_bytes q)
      (not (is_empty swept.items)) (batch r.0, shrink r.1 (record swept { items = r.2 }))
      (if swept.closed then (finished, swept) else (waits, swept))
      (λ h.
        given swept.items r fresh (ground arith) refl
          (items-shrink r.1 (record swept { items = r.2 })) v)
      (λ h.
        let none_left : swept.items ≡ [] = ground arith in
        if_cases {A = Taken × UploadQueue} (Gives now max_packets max_bytes q) swept.closed
          (finished, swept) (waits, swept)
          (λ c.
            nothing (sym fresh ∙ none_left) none_left (sym (if_true swept.closed finished waits c)))
          (λ c.
            nothing (sym fresh ∙ none_left) none_left
              (sym (if_false swept.closed finished waits c))))
