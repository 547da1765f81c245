-- ===== src/State/Sessions/Live.antt =====
-- The live sessions are those whose guards are held, after any registrations and drops of guards.
use porta.Prelude.{
  ℕ, suc, ◌+◌, ◌%◌, ◌^◌, ◌≤◌, ◌<◌, ◌≡◌, refl, sym, ap, ◌∙◌, inl, inr, Bool, Option, none, some,
  List, [], ◌∷◌, ◌++◌, length, length-append, arith, get_elem?, erase_at, ◌==◌, if◌then◌else◌,
  Bool-cases, Option-cases, if_true, if_false,
}
use native.Mathlib.Nat.{mod-eq_of_lt}
use porta.Prelude.Map.{lookup}
use porta.Prelude.Assoc.{Unique, Unique-remove}
use porta.Wire.Bytes.{Bytes}
use porta.State.Sessions.{
  SessionKey, key_eq, LiveSessions, no_sessions, ids_of, has, insert_id, remove_id, register,
  is_empty, without_guard, drop_guard, is_selected, active_count, cancel,
}
use porta.State.Sessions.Counts.{
  size, weight, one_if, times, guards, matching, size-insert, size-remove, Unique-insert,
  ids_of-insert, ids_of-remove, has-times, times-append, remove_id_lem, erase-guards, weight-rise,
  is_empty-nil, weight-nil,
}

-- Each guard has its place in the map, and the map counts as many sessions as there are guards.
pub record IsLive (s : LiveSessions) (live : List (ℕ × SessionKey)) : Type 0 where
  pub placed : (id : ℕ) (key : SessionKey) → times id (ids_of key s.sessions) ≡ guards id key live
  pub counted : (p : SessionKey → Bool) → size p s.sessions ≡ matching p live
  pub keys : Unique s.sessions
  pub old : (id : ℕ) (key : SessionKey) → s.next_id ≤ id → guards id key live ≡ 0

register-IsLive :
    (key : SessionKey) (s : LiveSessions) (live : List (ℕ × SessionKey))
    → suc s.next_id < 2 ^ 64
    → IsLive s live
    → IsLive (register key s).1 ((s.next_id, key) ∷ live)
unfolding register
register-IsLive key s live small v =
    let id = s.next_id in
    let ids = ids_of key s.sessions in
    let unknown : times id ids ≡ 0 = v.placed id key ∙ v.old id key (omega arith) in
    let new : insert_id id ids ≡ ids ++ id ∷ [] =
      if_false (has id ids) ids (ids ++ id ∷ []) (has-times id ids unknown) in
    let next : (id + 1) % 2 ^ 64 ≡ id + 1 =
      mod-eq_of_lt {n = id + 1} {m = 2 ^ 64} (omega (arith, small)) in
    record {
      placed = λ j k.
          let at = ap (times j) (ids_of-insert key k (insert_id id ids) s.sessions) in
          elim (Bool-cases (key_eq.beq key k)) [
            | inl t ↦
                let same = (key_eq.beq_iff key k).0 t in
                omega (
                  arith,
                  at,
                  ap (times j)
                      (if_true (key_eq.beq key k) (insert_id id ids) (ids_of k s.sessions) t),
                  ap (times j) new,
                  times-append j ids (id ∷ []),
                  v.placed j key,
                  ap (λ z. guards j z live) same,
                  if_true (key_eq.beq key k) (one_if (j == id)) 0 t,
                )
            | inr f ↦ omega (
              arith,
              at,
              ap (times j) (if_false (key_eq.beq key k) (insert_id id ids) (ids_of k s.sessions) f),
              v.placed j k,
              if_false (key_eq.beq key k) (one_if (j == id)) 0 f,
            )
          ];
      counted = λ p. omega (
        arith,
        size-insert p key (insert_id id ids) s.sessions,
        v.counted p,
        weight-rise p key ids (insert_id id ids)
            (omega (arith, ap length new, length-append ids (id ∷ []))),
      );
      keys = Unique-insert key (insert_id id ids) s.sessions v.keys;
      old = λ j k h.
          let later : id + 1 ≤ j = omega (arith, h, next) in
          let other : one_if (j == id) ≡ 0 = ground arith in
          let kept = v.old j k (omega (arith, later)) in
          elim (Bool-cases (key_eq.beq key k)) [
            | inl t ↦ omega (arith, kept, other, if_true (key_eq.beq key k) (one_if (j == id)) 0 t)
            | inr f ↦ omega (arith, kept, if_false (key_eq.beq key k) (one_if (j == id)) 0 f)
          ];
    }

-- The map without a guard: its key has the identifiers that are left, and the other keys have theirs.
record IsWithout (id : ℕ) (key : SessionKey) (m u : List (SessionKey × List ℕ)) : Type 0 where
  left :
      (k : SessionKey)
      → ids_of k u ≡ (if key_eq.beq key k then remove_id id (ids_of key m) else ids_of k m)
  sizes :
      (p : SessionKey → Bool)
      → size p u + weight p key (ids_of key m)
        ≡ size p m + weight p key (remove_id id (ids_of key m))
  keys : Unique u

without_guard-IsWithout :
    (id : ℕ) (key : SessionKey) (m : List (SessionKey × List ℕ))
    → Unique m
    → 1 ≤ times id (ids_of key m)
    → IsWithout id key m (without_guard id key m)
unfolding without_guard
without_guard-IsWithout id key m u h = elim (Option-cases (lookup key m)) [
  | inl e ↦
      let empty : ids_of key m ≡ [] =
        ap (λ (o : Option (List ℕ)). elim o as (λ x. List ℕ) [ none ↦ [] | some v ↦ v ]) e in
      absurd (omega (arith, h, ap (times id) empty))
  | inr (active, e) ↦
      let here : ids_of key m ≡ active =
        ap (λ (o : Option (List ℕ)). elim o as (λ x. List ℕ) [ none ↦ [] | some v ↦ v ]) e in
      let rest = remove_id id active in
      let same : remove_id id (ids_of key m) ≡ rest = ap (remove_id id) here in
      elim (Bool-cases (is_empty rest)) [
        | inl t ↦
            let nil : rest ≡ [] = is_empty-nil rest t in
            let none_left : (p : SessionKey → Bool)
                → weight p key (remove_id id (ids_of key m)) ≡ 0 =
              λ p. ap (weight p key) (same ∙ nil) ∙ weight-nil p key in
            rw (without_guard, e, t)
              (record {
                left = λ k.
                    ids_of-remove key k m
                    ∙ ap (λ (z : List ℕ). if key_eq.beq key k then z else ids_of k m)
                        (sym (same ∙ nil));
                sizes = λ p. omega (arith, size-remove p key m u, none_left p);
                keys = Unique-remove key m u;
              })
        | inr f ↦
            rw (without_guard, e, f)
              (record {
                left = λ k.
                    ids_of-insert key k rest m
                    ∙ ap (λ (z : List ℕ). if key_eq.beq key k then z else ids_of k m) (sym same);
                sizes = λ p. omega (arith, size-insert p key rest m, ap (weight p key) same);
                keys = Unique-insert key rest m u;
              })
      ]
]

drop_guard-IsLive :
    (s : LiveSessions) (live : List (ℕ × SessionKey)) (i id : ℕ) (key : SessionKey)
    → get_elem? live i ≡ some (id, key)
    → IsLive s live
    → IsLive (drop_guard (id, key) s) (erase_at live i)
unfolding drop_guard
drop_guard-IsLive s live i id key h v =
    let (erased, fewer) = erase-guards live i id key h in
    let own : (if key_eq.beq key key then one_if (id == id) else 0) ≡ 1 =
      if_true (key_eq.beq key key) (one_if (id == id)) 0 ((key_eq.beq_iff key key).1 refl)
      ∙ ground arith in
    let there : 1 ≤ times id (ids_of key s.sessions) =
      omega (arith, v.placed id key, erased id key, own) in
    let (short, gone) = remove_id_lem id (ids_of key s.sessions) there in
    let w = without_guard-IsWithout id key s.sessions v.keys there in
    record {
      placed = λ j k.
          let at = ap (times j) (w.left k) in
          elim (Bool-cases (key_eq.beq key k)) [
            | inl t ↦
                let same = (key_eq.beq_iff key k).0 t in
                omega (
                  arith,
                  at,
                  ap (times j) (
                      if_true (key_eq.beq key k) (remove_id id (ids_of key s.sessions))
                        (ids_of k s.sessions) t),
                  gone j,
                  v.placed j key,
                  ap (λ z. guards j z live) same,
                  erased j k,
                  if_true (key_eq.beq key k) (one_if (j == id)) 0 t,
                )
            | inr f ↦ omega (
              arith,
              at,
              ap (times j) (
                  if_false (key_eq.beq key k) (remove_id id (ids_of key s.sessions))
                    (ids_of k s.sessions) f),
              v.placed j k,
              erased j k,
              if_false (key_eq.beq key k) (one_if (j == id)) 0 f,
            )
          ];
      counted = λ p. omega (
        arith,
        w.sizes p,
        v.counted p,
        fewer p,
        weight-rise p key (remove_id id (ids_of key s.sessions)) (ids_of key s.sessions)
            (sym short),
      );
      keys = w.keys;
      old = λ j k o. omega (arith, v.old j k o, erased j k);
    }

pub data SessionCall : Type 0 where
  call_register : SessionKey → SessionCall
  call_drop : ℕ → SessionCall
  call_cancel : Bytes → Option Bytes → SessionCall

-- The sessions with the guards that are held; a drop is of the guard at an index.
pub apply :
    SessionCall → LiveSessions × List (ℕ × SessionKey) → LiveSessions × List (ℕ × SessionKey)
apply (call_register key) (s, live) = ((register key s).1, (register key s).0 ∷ live)
apply (call_drop i) (s, live) = elim (get_elem? live i) [
  | none ↦ (s, live)
  | some guard ↦ (drop_guard guard s, erase_at live i)
]
apply (call_cancel account_id device_id) (s, live) = ((cancel account_id device_id s).1, live)

pub run :
    List SessionCall → LiveSessions × List (ℕ × SessionKey) → LiveSessions × List (ℕ × SessionKey)
run [] r = r
run (call ∷ calls) r = run calls (apply call r)

apply-IsLive :
    (call : SessionCall) (s : LiveSessions) (live : List (ℕ × SessionKey))
    → suc s.next_id < 2 ^ 64
    → IsLive s live
    → IsLive (apply call (s, live)).0 (apply call (s, live)).1
      × ((apply call (s, live)).0.next_id ≤ suc s.next_id)
unfolding apply register drop_guard cancel
apply-IsLive (call_register key) s live small v =
    let next : (s.next_id + 1) % 2 ^ 64 ≡ s.next_id + 1 =
      mod-eq_of_lt {n = s.next_id + 1} {m = 2 ^ 64} (omega (arith, small)) in
    (register-IsLive key s live small v, omega (arith, next))
apply-IsLive (call_drop i) s live small v = elim (Option-cases (get_elem? live i)) [
  | inl e ↦ rw (apply, e) (v, omega arith)
  | inr ((id, key), e) ↦ rw (apply, e) (drop_guard-IsLive s live i id key e v, omega arith)
]
apply-IsLive (call_cancel account_id device_id) s live small v =
    (record { placed = v.placed; counted = v.counted; keys = v.keys; old = v.old }, omega arith)

run-IsLive :
    (calls : List SessionCall) (s : LiveSessions) (live : List (ℕ × SessionKey))
    → s.next_id + length calls < 2 ^ 64
    → IsLive s live
    → IsLive (run calls (s, live)).0 (run calls (s, live)).1
unfolding run
run-IsLive [] s live h v = v
run-IsLive (call ∷ calls) s live h v =
    let (w, next) = apply-IsLive call s live (omega (arith, h)) v in
    run-IsLive calls (apply call (s, live)).0 (apply call (s, live)).1 (omega (arith, h, next)) w

no_sessions-IsLive : IsLive no_sessions []
no_sessions-IsLive = record {
  placed = λ id key. refl;
  counted = λ p. refl;
  keys = tt;
  old = λ id key h. refl;
}

-- After fewer than 2 ^ 64 - 1 calls, whatever they are, the sessions that are counted for an account, or for
-- a device of it, are as many as the guards that are held for it, and `cancel_and_drain` tells the same.
pub active_count-run :
    (calls : List SessionCall) (account_id : Bytes) (device_id : Option Bytes)
    → 1 + length calls < 2 ^ 64
    → (active_count account_id device_id (run calls (no_sessions, [])).0
        ≡ matching (is_selected account_id device_id) (run calls (no_sessions, [])).1)
      × ((cancel account_id device_id (run calls (no_sessions, [])).0).0
          ≡ matching (is_selected account_id device_id) (run calls (no_sessions, [])).1)
unfolding active_count cancel
active_count-run calls account_id device_id h =
    let v = run-IsLive calls no_sessions [] h no_sessions-IsLive in
    (v.counted (is_selected account_id device_id), v.counted (is_selected account_id device_id))
