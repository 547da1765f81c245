-- ===== src/Data/Queue/Evict.antt =====
-- Which packets make way for a new one, in the words of the items and the limits alone.
use porta.Prelude.{
  ℕ, zero, suc, ◌+◌, ◌≤◌, ◌<◌, ◌≡◌, refl, sym, ap, subst, ◌∙◌, Bool, true, false, inl, inr, Option,
  none, some, List, [], arith, length, erase_at, position, select, Bool-cases, Option-cases,
}
use porta.Prelude.Evict.{Removes, Evicts, done, evict, position-Removes, position-none}
use porta.Data.Classify.{PacketClass, tcp, datagram, control}
use porta.Data.Queue.{
  class_aware, is_control, is_datagram, queue_oldest, QueueConfig, QueuedPacket, PacketQueue,
  record_drop, remove_locked, victim, fits, make_room,
}
use porta.Data.Queue.Loops.{
  items-record_drop, config-record_drop, items-remove_locked, config-remove_locked, make_room_keeps,
}
use porta.Data.Queue.Invariant.{IsValid, total, remove-IsValid}
use porta.Data.Queue.{DropReason}
use porta.Data.Queue.Room.{make_room_outcome}

-- There is room for a packet of this size.
abbrev pub Fits : QueueConfig → ℕ → List QueuedPacket → Type 0
Fits config size items =
    (length items < config.max_packets) × (total items + size ≤ config.max_bytes)

-- The item that makes way for a packet of the class: the oldest datagram; if there is none, for a control
-- packet, the oldest control packet.
pub data Replaces (class : PacketClass) (items rest : List QueuedPacket) : Type 0 where
  a_datagram : Removes is_datagram items rest → Replaces class items rest
  a_control :
      class ≡ control
      → select is_datagram items ≡ []
      → Removes is_control items rest
      → Replaces class items rest

-- No item may make way for a packet of the class.
abbrev pub NoneReplaced : PacketClass → List QueuedPacket → Type 0
NoneReplaced class items =
    (select is_datagram items ≡ []) × (class ≡ control → select is_control items ≡ [])

fits_lem :
    (q : PacketQueue) (size : ℕ)
    → IsValid q
    → (fits q size ≡ true → Fits q.config size q.items)
      × (fits q size ≡ false → Fits q.config size q.items → ⊥)
unfolding fits
fits_lem q size v =
    (λ h. ground (arith, v.counted, h), λ h f. ground (arith, v.counted, h, f.0, f.1))

victim-Replaces :
    (q : PacketQueue) (class : PacketClass) (index : ℕ)
    → q.config.policy ≡ class_aware
    → victim q class ≡ some index
    → Replaces class q.items (erase_at q.items index)
unfolding victim
victim-Replaces q class index p h = elim (Option-cases (position is_datagram q.items)) [
  | inr (i, e) ↦ a_datagram (position-Removes is_datagram q.items index (ground (arith, p, h, e)))
  | inl e ↦ only_control class (position-none is_datagram q.items e) (ground (arith, p, h, e))
]
  where
    only_control :
        (c : PacketClass)
        → select is_datagram q.items ≡ []
        → ◌≡◌ {A = Option ℕ}
            (elim c [ control ↦ position is_control q.items | _ ↦ none ])
            (some index)
        → Replaces c q.items (erase_at q.items index)
    only_control tcp n k = absurd (cc k)
    only_control datagram n k = absurd (cc k)
    only_control control n k = a_control refl n (position-Removes is_control q.items index k)

victim-NoneReplaced :
    (q : PacketQueue) (class : PacketClass)
    → q.config.policy ≡ class_aware
    → victim q class ≡ none
    → NoneReplaced class q.items
unfolding victim
victim-NoneReplaced q class p h = (
  position-none is_datagram q.items (ground (arith, p, h)),
  λ c. position-none is_control q.items (ground (arith, p, h, c)),
)

-- What a step of the loop keeps.
abbrev Ready : QueueConfig → PacketQueue → Type 0
Ready config q = IsValid q × (q.config ≡ config)

remove-Ready :
    (config : QueueConfig) (reason : DropReason) (index : ℕ) (q : PacketQueue)
    → Ready config q
    → Ready config (record_drop reason (remove_locked index q))
remove-Ready config reason index q (v, e) = (
  remove-IsValid reason index q v,
  config-record_drop reason (remove_locked index q) ∙ config-remove_locked index q ∙ e,
)

make_room-Evicts :
    (fuel : ℕ) (class : PacketClass) (size : ℕ) (config : QueueConfig) (q : PacketQueue)
    → config.policy ≡ class_aware
    → Ready config q
    → Evicts (Fits config size) (Replaces class) q.items (make_room fuel class size q).1.items
unfolding make_room
make_room-Evicts zero class size config q p k = done q.items
make_room-Evicts (suc fuel) class size config q p (v, e) = elim (Bool-cases (fits q size)) [
  | inl f ↦ rw (f, make_room) (done q.items)
  | inr f ↦ elim (Option-cases (victim q class)) [
    | inl n ↦ rw (f, make_room, n) (done q.items)
    | inr (index, n) ↦
        let q' = record_drop queue_oldest (remove_locked index q) in
        let items : q'.items ≡ erase_at q.items index =
          items-record_drop queue_oldest (remove_locked index q) ∙ items-remove_locked index q in
        let policy : q.config.policy ≡ class_aware = ap (λ (c : QueueConfig). c.policy) e ∙ p in
        rw (f, make_room, n)
          (evict q.items q'.items _
            (subst (λ c. Fits c size q.items → ⊥) e ((fits_lem q size v).1 f))
            (subst (Replaces class q.items) (sym items) (victim-Replaces q class index policy n))
            (make_room-Evicts fuel class size config q' p
              (remove-Ready config queue_oldest index q (v, e))))
  ]
]

-- How the loop ends, in the words of its flag: with room, or with none and nobody left to make way.
abbrev pub Makes :
    QueueConfig → PacketClass → ℕ → List QueuedPacket → Bool → List QueuedPacket → Type 0
Makes config class size items room kept =
    Evicts (Fits config size) (Replaces class) items kept
    × (room ≡ true → Fits config size kept)
    × (room ≡ false → (Fits config size kept → ⊥) × NoneReplaced class kept)

pub make_room-Makes :
    (fuel : ℕ) (class : PacketClass) (size : ℕ) (q : PacketQueue)
    → length q.items ≤ fuel
    → q.config.policy ≡ class_aware
    → IsValid q
    → let r = make_room fuel class size q in Makes q.config class size q.items r.0 r.1.items
make_room-Makes fuel class size q h p v =
    let r = make_room fuel class size q in
    let (room, nobody) = make_room_outcome fuel class size q h in
    let (w, e) =
      make_room_keeps (Ready q.config) (remove-Ready q.config) fuel class size q (v, refl) in
    let (has, lacks) = fits_lem r.1 size w in
    let policy : r.1.config.policy ≡ class_aware = ap (λ (c : QueueConfig). c.policy) e ∙ p in
    (
      make_room-Evicts fuel class size q.config q p (v, refl),
      λ t. subst (λ c. Fits c size r.1.items) e (has (room ∙ t)),
      λ t. (
        subst (λ c. Fits c size r.1.items → ⊥) e (lacks (room ∙ t)),
        victim-NoneReplaced r.1 class policy (nobody t),
      ),
    )
