-- ===== src/State/Sessions.antt =====
-- `LiveSessions` of rust/porta-server/src/state/sessions.rs. An `ActiveSession` is known by its identifier,
-- and its two tokens are held under it, since guards share it with the map. Each method takes the lock once.
pub mod Counts
pub mod Live
mod Tests
use porta.Prelude.{
  ℕ, zero, suc, ◌+◌, ◌%◌, ◌^◌, ◌↔◌, Bool, true, false, ◌&&◌, Option, none, some, List, [], ◌∷◌,
  ◌++◌, length, arith, ◌==◌, if◌then◌else◌,
}
use porta.Prelude.Map.{Eq, lookup, insert, remove, list_beq, list_beq_iff, nat_eq}
use porta.Wire.Bytes.{Bytes}
use porta.Prelude.{◌≡◌}

pub record SessionKey : Type 0 where
  pub account_id : Bytes
  pub device_id : Bytes

abbrev pub same_key : SessionKey → SessionKey → Bool
same_key a b = list_beq a.account_id b.account_id && list_beq a.device_id b.device_id

pub same_key_iff : (a b : SessionKey) → (same_key a b ≡ true) ↔ (a ≡ b)
same_key_iff a b =
    ground (arith, list_beq_iff a.account_id b.account_id, list_beq_iff a.device_id b.device_id)

instance abbrev pub key_eq : Eq SessionKey
key_eq = record { beq = same_key; beq_iff = same_key_iff }

pub record ActiveSession : Type 0 where
  pub cancelled : Bool
  pub finished : Bool

pub record LiveSessions : Type 0 where
  pub sessions : List (SessionKey × List ℕ)
  pub next_id : ℕ
  pub tokens : List (ℕ × ActiveSession)

-- `LiveSessions::default()`.
abbrev pub no_sessions : LiveSessions
no_sessions = record { sessions = []; next_id = 1; tokens = [] }

abbrev pub ids_of : SessionKey → List (SessionKey × List ℕ) → List ℕ
ids_of key m = elim (lookup key m) [ none ↦ [] | some ids ↦ ids ]

abbrev pub has : ℕ → List ℕ → Bool
has id [] = false
has id (i ∷ ids) = if id == i then true else has id ids

-- The inner map, whose values are the sessions of its keys.
abbrev pub insert_id : ℕ → List ℕ → List ℕ
insert_id id ids = if has id ids then ids else ids ++ id ∷ []

abbrev pub remove_id : ℕ → List ℕ → List ℕ
remove_id id [] = []
remove_id id (i ∷ ids) = if id == i then ids else i ∷ remove_id id ids

-- `register`; the guard is the identifier with the key.
pub register : SessionKey → LiveSessions → (ℕ × SessionKey) × LiveSessions
register key s =
    let id = s.next_id in
    (
      (id, key),
      record s {
        sessions = insert key (insert_id id (ids_of key s.sessions)) s.sessions;
        next_id = (id + 1) % 2 ^ 64;
        tokens = insert id (record { cancelled = false; finished = false }) s.tokens;
      },
    )

abbrev pub is_empty : List ℕ → Bool
is_empty [] = true
is_empty (_ ∷ _) = false

pub without_guard : ℕ → SessionKey → List (SessionKey × List ℕ) → List (SessionKey × List ℕ)
without_guard id key m = elim (lookup key m) [
  | none ↦ m
  | some active ↦
      let left = remove_id id active in if is_empty left then remove key m else insert key left m
]

pub finish : ℕ → List (ℕ × ActiveSession) → List (ℕ × ActiveSession)
finish id tokens = elim (lookup id tokens) [
  | none ↦ tokens
  | some session ↦ insert id (record session { finished = true }) tokens
]

-- `SessionGuard::drop`.
pub drop_guard : ℕ × SessionKey → LiveSessions → LiveSessions
unfolding without_guard finish
drop_guard (id, key) s = record s {
  sessions = without_guard id key s.sessions;
  tokens = finish id s.tokens;
}

-- The filter of `active_count` and of `cancel_and_drain`.
abbrev pub is_selected : Bytes → Option Bytes → SessionKey → Bool
is_selected account_id none key = list_beq key.account_id account_id
is_selected account_id (some device_id) key =
    list_beq key.account_id account_id && list_beq key.device_id device_id

abbrev pub selected : (SessionKey → Bool) → List (SessionKey × List ℕ) → List ℕ
selected p [] = []
selected p ((key, ids) ∷ m) = if p key then ids ++ selected p m else selected p m

pub active_count : Bytes → Option Bytes → LiveSessions → ℕ
active_count account_id device_id s =
    length (selected (is_selected account_id device_id) s.sessions)

abbrev pub cancel_all : List ℕ → List (ℕ × ActiveSession) → List (ℕ × ActiveSession)
cancel_all [] tokens = tokens
cancel_all (id ∷ ids) tokens = elim (lookup id tokens) [
  | none ↦ cancel_all ids tokens
  | some session ↦ cancel_all ids (insert id (record session { cancelled = true }) tokens)
]

-- `cancel_and_drain` up to its waits for the sessions to finish.
pub cancel : Bytes → Option Bytes → LiveSessions → ℕ × LiveSessions
cancel account_id device_id s =
    let active = selected (is_selected account_id device_id) s.sessions in
    (length active, record s { tokens = cancel_all active s.tokens })
