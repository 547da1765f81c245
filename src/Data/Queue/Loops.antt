-- ===== src/Data/Queue/Loops.antt =====
-- What the two loops of the queue keep, and what the sweep of expired packets leaves.
use porta.Prelude.Erase.{erase_at_missing, get_elem?-middle, erase_at-middle}
use porta.Data.Classify.{PacketClass}
use porta.Prelude.{
  ℕ, zero, suc, ◌≡◌, refl, sym, ap, ◌∙◌, Bool, inl, inr, some, List, [], ◌∷◌, ◌++◌, append_assoc,
  arith, length, get_elem?, erase_at, select, Bool-cases, Option-cases,
}
use porta.Data.Queue.{
  DropReason, queue_oldest, queue_expired, QueueConfig, QueuedPacket, PacketQueue, record_drop,
  remove_locked, is_fresh, expire_from, drop_expired_locked, victim, fits, make_room,
}
use porta.Prelude.{length-append}

-- Both loops keep what a removal and its report keep.
module _ {ℓ} (P : PacketQueue → Type ℓ)
    (keep : (reason : DropReason) (index : ℕ) (q : PacketQueue)
      → P q
      → P (record_drop reason (remove_locked index q))) where
  expire_from_keeps :
      (fuel index now : ℕ) (q : PacketQueue) → P q → P (expire_from fuel index now q)
  unfolding expire_from
  expire_from_keeps zero index now q h = h
  expire_from_keeps (suc fuel) index now q h = elim (Option-cases (get_elem? q.items index)) [
    | inl e ↦ rw (e, expire_from) h
    | inr (item, e) ↦ elim (Bool-cases (is_fresh q.config now item)) [
      | inl f ↦ rw (e, expire_from, f) (expire_from_keeps fuel (suc index) now q h)
      | inr f ↦
          rw (e, expire_from, f) (expire_from_keeps fuel index now _ (keep queue_expired index q h))
    ]
  ]

  pub drop_expired_locked_keeps : (now : ℕ) (q : PacketQueue) → P q → P (drop_expired_locked now q)
  unfolding drop_expired_locked
  drop_expired_locked_keeps now q h = expire_from_keeps (length q.items) 0 now q h

  pub make_room_keeps :
      (fuel : ℕ) (class : PacketClass) (size : ℕ) (q : PacketQueue)
      → P q
      → P (make_room fuel class size q).1
  unfolding make_room
  make_room_keeps zero class size q h = h
  make_room_keeps (suc fuel) class size q h = elim (Bool-cases (fits q size)) [
    | inl f ↦ rw (f, make_room) h
    | inr f ↦ elim (Option-cases (victim q class)) [
      | inl v ↦ rw (f, make_room, v) h
      | inr (index, v) ↦
          rw (f, make_room, v) (make_room_keeps fuel class size _ (keep queue_oldest index q h))
    ]
  ]

pub items-record_drop :
    (reason : DropReason) (q : PacketQueue) → (record_drop reason q).items ≡ q.items
unfolding record_drop
items-record_drop reason q = ground arith

pub config-record_drop :
    (reason : DropReason) (q : PacketQueue) → (record_drop reason q).config ≡ q.config
unfolding record_drop
config-record_drop reason q = ground arith

pub items-remove_locked :
    (index : ℕ) (q : PacketQueue) → (remove_locked index q).items ≡ erase_at q.items index
unfolding remove_locked
items-remove_locked index q = elim (Option-cases (get_elem? q.items index)) [
  | inl e ↦ rw (e, remove_locked) (sym (erase_at_missing q.items index e))
  | inr (item, e) ↦ rw (e, remove_locked) (ground arith)
]

pub config-remove_locked : (index : ℕ) (q : PacketQueue) → (remove_locked index q).config ≡ q.config
unfolding remove_locked
config-remove_locked index q = ground arith

-- From the index on, the sweep removes what is not fresh and nothing else.
items-expire_from :
    (passed rest : List QueuedPacket) (fuel index now : ℕ) (config : QueueConfig) (q : PacketQueue)
    → q.config ≡ config
    → q.items ≡ passed ++ rest
    → index ≡ length passed
    → fuel ≡ length rest
    → (expire_from fuel index now q).items ≡ passed ++ select (is_fresh config now) rest
unfolding expire_from
items-expire_from passed [] zero index now config q c e i f = e
items-expire_from passed [] (suc fuel) index now config q c e i f = absurd (omega arith)
items-expire_from passed (item ∷ rest) zero index now config q c e i f = absurd (omega arith)
items-expire_from passed (item ∷ rest) (suc fuel) index now config q c e i f =
    elim (Bool-cases (is_fresh config now item)) [
      | inl fresh ↦
          rw (here, expire_from, test fresh, fresh)
            (items-expire_from (passed ++ item ∷ []) rest fuel (suc index) now config q c
                (e ∙ sym (append_assoc passed (item ∷ []) rest))
                (omega (arith, i, length-append passed (item ∷ []))) (omega arith)
              ∙ append_assoc passed (item ∷ []) (select (is_fresh config now) rest))
      | inr stale ↦
          rw (here, expire_from, test stale, stale)
            (items-expire_from passed rest fuel index now config
              (record_drop queue_expired (remove_locked index q))
              (config-record_drop queue_expired (remove_locked index q)
                ∙ config-remove_locked index q
                ∙ c)
              (items-record_drop queue_expired (remove_locked index q)
                ∙ items-remove_locked index q
                ∙ ap (λ (t : List QueuedPacket). erase_at t index) e
                ∙ erase_at-middle passed item rest index i)
              i (omega arith))
    ]
  where
    here : get_elem? q.items index ≡ some item
    here =
        ap (λ (t : List QueuedPacket). get_elem? t index) e
        ∙ get_elem?-middle passed item rest index i

    test : {b : Bool} → is_fresh config now item ≡ b → is_fresh q.config now item ≡ b
    test h = ap (λ (t : QueueConfig). is_fresh t now item) c ∙ h

-- The sweep leaves exactly the fresh items, in their order.
pub items-drop_expired_locked :
    (now : ℕ) (q : PacketQueue)
    → (drop_expired_locked now q).items ≡ select (is_fresh q.config now) q.items
unfolding drop_expired_locked
items-drop_expired_locked now q =
    items-expire_from [] q.items (length q.items) 0 now q.config q refl refl refl refl

pub config-drop_expired_locked :
    (now : ℕ) (q : PacketQueue) → (drop_expired_locked now q).config ≡ q.config
config-drop_expired_locked now q =
    drop_expired_locked_keeps (λ t. t.config ≡ q.config)
      (λ reason index t e.
        config-record_drop reason (remove_locked index t) ∙ config-remove_locked index t ∙ e)
      now q refl
