-- ===== src/Data/Queue/Room.antt =====
-- What the loop leaves that makes room for a packet.
use porta.Data.Classify.{PacketClass, tcp, datagram, control}
use porta.Data.Queue.{
  class_aware, is_control, is_datagram, queue_oldest, QueueConfig, QueuedPacket, PacketQueue,
  record_drop, remove_locked, victim, fits, make_room,
}
use porta.Data.Queue.Loops.{
  items-record_drop, config-record_drop, items-remove_locked, config-remove_locked,
}
use porta.Prelude.Erase.{position-lt, select-erase_position}
use porta.Prelude.{
  length-erase_at, ℕ, zero, suc, ◌≤◌, ◌<◌, ◌≡◌, refl, ap, ◌∙◌, Bool, true, false, not, ◌||◌, inl,
  inr, Option, none, some, List, arith, length, erase_at, position, select, Bool-cases,
  Option-cases,
}

-- A victim is an item of the queue.
victim-lt :
    (q : PacketQueue) (class : PacketClass) (index : ℕ)
    → victim q class ≡ some index
    → index < length q.items
unfolding victim
victim-lt q class index h =
    ground (arith, position-lt is_datagram q.items index, position-lt is_control q.items index)

victim-empty : (q : PacketQueue) (class : PacketClass) → length q.items ≡ 0 → victim q class ≡ none
victim-empty q class h = elim (Option-cases (victim q class)) [
  | inl e ↦ e
  | inr (index, e) ↦ absurd (omega (arith, victim-lt q class index e))
]

length-after_victim :
    (q : PacketQueue) (class : PacketClass) (index : ℕ)
    → victim q class ≡ some index
    → suc (length (record_drop queue_oldest (remove_locked index q)).items) ≡ length q.items
length-after_victim q class index h =
    ap (λ (t : List QueuedPacket). suc (length t))
      (items-record_drop queue_oldest (remove_locked index q) ∙ items-remove_locked index q)
    ∙ length-erase_at q.items index (victim-lt q class index h)

-- When no room was made, the packet does not fit and no item may be removed for it; as many rounds as
-- there are items are enough for that.
pub make_room_outcome :
    (fuel : ℕ) (class : PacketClass) (size : ℕ) (q : PacketQueue)
    → length q.items ≤ fuel
    → let r = make_room fuel class size q in
      (fits r.1 size ≡ r.0) × (r.0 ≡ false → victim r.1 class ≡ none)
unfolding make_room
make_room_outcome zero class size q h = (refl, λ _. victim-empty q class (omega arith))
make_room_outcome (suc fuel) class size q h = elim (Bool-cases (fits q size)) [
  | inl f ↦ rw (f, make_room) (f, λ e. cc)
  | inr f ↦ elim (Option-cases (victim q class)) [
    | inl v ↦ rw (f, make_room, v) (f, λ _. v)
    | inr (index, v) ↦
        rw (f, make_room, v)
          (make_room_outcome fuel class size _ (omega (arith, length-after_victim q class index v)))
  ]
]

-- Whom the loop spares under the class-aware policy: all but datagrams; for a control packet it may
-- remove control packets too.
abbrev pub is_spared : PacketClass → QueuedPacket → Bool
is_spared control item = not (is_datagram item || is_control item)
is_spared _ item = not (is_datagram item)

datagram_not_spared :
    (class : PacketClass) (x : QueuedPacket) → is_datagram x ≡ true → is_spared class x ≡ false
datagram_not_spared tcp x h = ground arith
datagram_not_spared datagram x h = ground arith
datagram_not_spared control x h = ground arith

control_not_spared : (x : QueuedPacket) → is_control x ≡ true → is_spared control x ≡ false
control_not_spared x h = ground arith

spared-after_victim :
    (q : PacketQueue) (class : PacketClass) (index : ℕ)
    → q.config.policy ≡ class_aware
    → victim q class ≡ some index
    → select (is_spared class) (erase_at q.items index) ≡ select (is_spared class) q.items
unfolding victim
spared-after_victim q class index p h = elim (Option-cases (position is_datagram q.items)) [
  | inr (i, e) ↦
      select-erase_position is_datagram (is_spared class) q.items index (datagram_not_spared class)
        (ground arith)
  | inl e ↦ only_control class (ground arith)
]
  where
    only_control :
        (c : PacketClass)
        → ◌≡◌ {A = Option ℕ}
            (elim c [ control ↦ position is_control q.items | _ ↦ none ])
            (some index)
        → select (is_spared c) (erase_at q.items index) ≡ select (is_spared c) q.items
    only_control tcp e = cc
    only_control datagram e = cc
    only_control control e =
        select-erase_position is_control (is_spared control) q.items index control_not_spared e

-- Making room under the class-aware policy leaves every spared item in its place in the order.
pub make_room_spares :
    (fuel : ℕ) (class : PacketClass) (size : ℕ) (q : PacketQueue)
    → q.config.policy ≡ class_aware
    → select (is_spared class) (make_room fuel class size q).1.items
      ≡ select (is_spared class) q.items
unfolding make_room
make_room_spares zero class size q p = refl
make_room_spares (suc fuel) class size q p = elim (Bool-cases (fits q size)) [
  | inl f ↦ rw (f, make_room) refl
  | inr f ↦ elim (Option-cases (victim q class)) [
    | inl v ↦ rw (f, make_room, v) refl
    | inr (index, v) ↦
        let q' = record_drop queue_oldest (remove_locked index q) in
        let same : q'.config ≡ q.config =
          config-record_drop queue_oldest (remove_locked index q) ∙ config-remove_locked index q in
        rw (f, make_room, v)
          (make_room_spares fuel class size q' (ap (λ (c : QueueConfig). c.policy) same ∙ p)
            ∙ ap (select (is_spared class)) (
                items-record_drop queue_oldest (remove_locked index q)
                ∙ items-remove_locked index q)
            ∙ spared-after_victim q class index p v)
  ]
]
