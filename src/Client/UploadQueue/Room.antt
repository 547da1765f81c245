-- ===== src/Client/UploadQueue/Room.antt =====
-- Which packets make way for a new one, in the words of the items and the limits alone.
use porta.Prelude.{
  ℕ, zero, suc, ◌+◌, ◌≤◌, ◌<◌, ◌≡◌, inl, inr, refl, ap, sym, subst, ◌∙◌, Bool, true, false, not,
  ◌||◌, Option, none, some, List, [], arith, length, erase_at, position, select, Bool-cases,
  Option-cases, length-erase_at,
}
use porta.Prelude.Erase.{position-lt, select-erase_position}
use porta.Prelude.Evict.{Removes, Evicts, done, evict, position-Removes, position-none}
use porta.Wire.Ip.Classify.{PacketClass, tcp, datagram, control}
use porta.Client.UploadQueue.Loops.{items-remove_locked, config-remove_locked, make_room_keeps}
use porta.Client.UploadQueue.Batch.{total}
use porta.Client.UploadQueue.Invariant.{IsValid, Kept, replaced-Kept}
use porta.Client.UploadQueue.{
  QueueConfig, QueuedPacket, UploadQueue, is_datagram, is_control, fits_locked,
  oldest_replaceable_locked, make_room, remove_locked, count_oldest,
}

-- There is room for a packet of this size.
abbrev pub Fits : QueueConfig → ℕ → List QueuedPacket → Type 0
Fits config size items =
    (length items < config.max_packets) × (total items + size ≤ config.max_bytes)

-- The item that makes way for a packet of the class: the oldest datagram; if there is none, for a control
-- packet, the oldest control packet.
pub data Replaces (class : PacketClass) (items rest : List QueuedPacket) : Type 0 where
  a_datagram : Removes is_datagram items rest → Replaces class items rest
  a_control :
      class ≡ control
      → select is_datagram items ≡ []
      → Removes is_control items rest
      → Replaces class items rest

-- No item may make way for a packet of the class.
abbrev pub NoneReplaced : PacketClass → List QueuedPacket → Type 0
NoneReplaced class items =
    (select is_datagram items ≡ []) × (class ≡ control → select is_control items ≡ [])

fits_lem :
    (q : UploadQueue) (size : ℕ)
    → IsValid q
    → (fits_locked q size ≡ true → Fits q.config size q.items)
      × (fits_locked q size ≡ false → Fits q.config size q.items → ⊥)
unfolding fits_locked
fits_lem q size v =
    (λ h. ground (arith, v.counted, h), λ h f. ground (arith, v.counted, h, f.0, f.1))

oldest-Replaces :
    (q : UploadQueue) (class : PacketClass) (index : ℕ)
    → oldest_replaceable_locked q class ≡ some index
    → Replaces class q.items (erase_at q.items index)
unfolding oldest_replaceable_locked
oldest-Replaces q class index h = elim (Option-cases (position is_datagram q.items)) [
  | inr (i, e) ↦ a_datagram (position-Removes is_datagram q.items index (ground (arith, h, e)))
  | inl e ↦ only_control class (position-none is_datagram q.items e) (ground (arith, h, e))
]
  where
    only_control :
        (c : PacketClass)
        → select is_datagram q.items ≡ []
        → ◌≡◌ {A = Option ℕ}
            (elim c [ control ↦ position is_control q.items | _ ↦ none ])
            (some index)
        → Replaces c q.items (erase_at q.items index)
    only_control tcp n k = absurd (cc k)
    only_control datagram n k = absurd (cc k)
    only_control control n k = a_control refl n (position-Removes is_control q.items index k)

oldest-NoneReplaced :
    (q : UploadQueue) (class : PacketClass)
    → oldest_replaceable_locked q class ≡ none
    → NoneReplaced class q.items
unfolding oldest_replaceable_locked
oldest-NoneReplaced q class h = (
  position-none is_datagram q.items (ground (arith, h)),
  λ c. position-none is_control q.items (ground (arith, h, c)),
)

-- Whom the loop of `enqueue` spares: all but datagrams; for a control packet it may remove control
-- packets too.
abbrev pub is_spared : PacketClass → QueuedPacket → Bool
is_spared control item = not (is_datagram item || is_control item)
is_spared _ item = not (is_datagram item)

datagram_not_spared :
    (class : PacketClass) (x : QueuedPacket) → is_datagram x ≡ true → is_spared class x ≡ false
datagram_not_spared tcp x h = ground arith
datagram_not_spared datagram x h = ground arith
datagram_not_spared control x h = ground arith

control_not_spared : (x : QueuedPacket) → is_control x ≡ true → is_spared control x ≡ false
control_not_spared x h = ground arith

-- A victim stands in the queue, and its removal takes no spared item.
victim_lem :
    (q : UploadQueue) (class : PacketClass) (index : ℕ)
    → oldest_replaceable_locked q class ≡ some index
    → (index < length q.items)
      × (select (is_spared class) (erase_at q.items index) ≡ select (is_spared class) q.items)
unfolding oldest_replaceable_locked
victim_lem q class index h = elim (Option-cases (position is_datagram q.items)) [
  | inr (i, e) ↦
      let at : position is_datagram q.items ≡ some index = ground (arith, h, e) in
      (
        position-lt is_datagram q.items index at,
        select-erase_position is_datagram (is_spared class) q.items index
            (datagram_not_spared class) at,
      )
  | inl e ↦ only_control class (ground (arith, h, e))
]
  where
    only_control :
        (c : PacketClass)
        → ◌≡◌ {A = Option ℕ}
            (elim c [ control ↦ position is_control q.items | _ ↦ none ])
            (some index)
        → (index < length q.items)
          × (select (is_spared c) (erase_at q.items index) ≡ select (is_spared c) q.items)
    only_control tcp e = cc
    only_control datagram e = cc
    only_control control e = (
      position-lt is_control q.items index e,
      select-erase_position is_control (is_spared control) q.items index control_not_spared e,
    )

-- What the loop that makes room leaves: the spared items, in order, and either room, or no item
-- that may be removed; as many rounds as there are items are enough.
record IsRoom (class : PacketClass) (size : ℕ) (q : UploadQueue) (r : Bool × UploadQueue)
    : Type 0 where
  fitting : fits_locked r.1 size ≡ r.0
  exhausted : r.0 ≡ false → oldest_replaceable_locked r.1 class ≡ none
  spares : select (is_spared class) r.1.items ≡ select (is_spared class) q.items

make_room-IsRoom :
    (fuel : ℕ) (class : PacketClass) (size : ℕ) (q : UploadQueue)
    → length q.items ≤ fuel
    → IsRoom class size q (make_room fuel class size q)
unfolding make_room
make_room-IsRoom zero class size q h = record {
  fitting = refl;
  exhausted = λ _. elim (Option-cases (oldest_replaceable_locked q class)) [
    | inl e ↦ e
    | inr (index, e) ↦ absurd (omega (arith, (victim_lem q class index e).0, h))
  ];
  spares = refl;
}
make_room-IsRoom (suc fuel) class size q h = elim (Bool-cases (fits_locked q size)) [
  | inl f ↦ rw (f, make_room) (record { fitting = f; exhausted = λ e. cc; spares = refl })
  | inr f ↦ elim (Option-cases (oldest_replaceable_locked q class)) [
    | inl v ↦ rw (f, make_room, v) (record { fitting = f; exhausted = λ _. v; spares = refl })
    | inr (index, v) ↦
        let (there, same) = victim_lem q class index v in
        let items = items-remove_locked index q in
        let ih =
          make_room-IsRoom fuel class size (count_oldest (remove_locked index q))
            (omega (arith, ap length items, length-erase_at q.items index there, h)) in
        rw (f, make_room, v)
          (record {
            fitting = ih.fitting;
            exhausted = ih.exhausted;
            spares = ih.spares ∙ (ap (select (is_spared class)) items ∙ same);
          })
  ]
]

-- What a step of the loop keeps.
abbrev Ready : QueueConfig → UploadQueue → Type 0
Ready config q = Kept true false q × (q.config ≡ config)

replaced-Ready :
    (config : QueueConfig) (index : ℕ) (q : UploadQueue)
    → Ready config q
    → Ready config (count_oldest (remove_locked index q))
replaced-Ready config index q (k, e) =
    (replaced-Kept true false index q k, config-remove_locked index q ∙ e)

make_room-Evicts :
    (fuel : ℕ) (class : PacketClass) (size : ℕ) (config : QueueConfig) (q : UploadQueue)
    → Ready config q
    → Evicts (Fits config size) (Replaces class) q.items (make_room fuel class size q).1.items
unfolding make_room
make_room-Evicts zero class size config q k = done q.items
make_room-Evicts (suc fuel) class size config q (k, e) = elim (Bool-cases (fits_locked q size)) [
  | inl f ↦ rw (f, make_room) (done q.items)
  | inr f ↦ elim (Option-cases (oldest_replaceable_locked q class)) [
    | inl n ↦ rw (f, make_room, n) (done q.items)
    | inr (index, n) ↦
        let q' = count_oldest (remove_locked index q) in
        let items : q'.items ≡ erase_at q.items index = items-remove_locked index q in
        rw (f, make_room, n)
          (evict q.items q'.items _
            (subst (λ c. Fits c size q.items → ⊥) e ((fits_lem q size k.0).1 f))
            (subst (Replaces class q.items) (sym items) (oldest-Replaces q class index n))
            (make_room-Evicts fuel class size config q' (replaced-Ready config index q (k, e))))
  ]
]

-- How the loop ends, in the words of its flag: with room, or with none and nobody left to make way; the
-- spared items stay.
pub record Makes (config : QueueConfig) (class : PacketClass) (size : ℕ) (items : List QueuedPacket)
    (room : Bool) (kept : List QueuedPacket) : Type 0 where
  pub way : Evicts (Fits config size) (Replaces class) items kept
  pub has_room : room ≡ true → Fits config size kept
  pub is_full : room ≡ false → (Fits config size kept → ⊥) × NoneReplaced class kept
  pub spared : select (is_spared class) kept ≡ select (is_spared class) items

pub make_room-Makes :
    (fuel : ℕ) (class : PacketClass) (size : ℕ) (q : UploadQueue)
    → length q.items ≤ fuel
    → Kept true false q
    → let r = make_room fuel class size q in Makes q.config class size q.items r.0 r.1.items
make_room-Makes fuel class size q h k =
    let r = make_room fuel class size q in
    let room = make_room-IsRoom fuel class size q h in
    let (w, e) =
      make_room_keeps (Ready q.config) (replaced-Ready q.config) fuel class size q (k, refl) in
    let (has, lacks) = fits_lem r.1 size w.0 in
    record {
      way = make_room-Evicts fuel class size q.config q (k, refl);
      has_room = λ t. subst (λ c. Fits c size r.1.items) e (has (room.fitting ∙ t));
      is_full = λ t. (
        subst (λ c. Fits c size r.1.items → ⊥) e (lacks (room.fitting ∙ t)),
        oldest-NoneReplaced r.1 class (room.exhausted t),
      );
      spared = room.spares;
    }
