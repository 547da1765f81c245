-- ===== src/State/Pool/Kept.antt =====
-- What a call of the pool keeps, with the 64-bit count of generations.
use porta.State.Pool.Invariant.{
  Holds, IsValid, Holds-IsValid, renew_or_allocate-Holds, release-Holds,
}
use porta.State.Pool.Addressed.{Addressed, Addressed-later}
use native.Mathlib.Nat.{mod-eq_of_lt}
use porta.State.Pool.{
  Pool, Outcome, Lease, LeaseRecord, ActiveLeaseGroup, Acquired, acquire_inner, acquire_group,
  release, join_or_acquire, renew_or_allocate, broadcast, valid_client_id, is_empty,
}
use porta.Wire.Bytes.{Bytes}
use porta.Prelude.Map.{lookup, list_eq, nat_eq}
use porta.Prelude.{ℕ, ◌+◌, ◌≡◌, ◌≤◌, ◌<◌, ◌%◌, ◌^◌, refl, arith, Option, none, some, not, if_cases}

-- What an acquisition keeps: the agreement of records and owners in any case; while the generation does not
-- wrap, the whole invariant, and the generation grows by one at most.
abbrev pub Keeps : Pool → Pool → Type 0
Keeps p q =
    ((last : ℕ) × Addressed q.gateway (broadcast q) last q.by_client q.by_address)
    × (p.next_generation + 1 < 2 ^ 64 → IsValid q × (q.next_generation ≤ p.next_generation + 1))

unchanged-Keeps : (p : Pool) → IsValid p → Keeps p p
unchanged-Keeps p v = ((p.next_generation, v.0), λ h. (v, omega arith))

later-Keeps :
    (o : Outcome) (c g : Bytes) (p : Pool)
    → (last now : ℕ) → p.next_generation ≤ last
    → now ≤ last
    → IsValid p
    → Holds last now
        (renew_or_allocate o c g (lookup c p.by_client) (record p { next_generation = now })).1
later-Keeps o c g p last now h k (v, w) =
    renew_or_allocate-Holds o c g (lookup c p.by_client) (record p { next_generation = now }) refl
      (Addressed-later v h, w, refl) k

join_or_acquire-Keeps :
    (o : Outcome) (c g : Bytes) (j : Option (ActiveLeaseGroup × LeaseRecord)) (p : Pool)
    → IsValid p
    → Keeps p (join_or_acquire o c g j p).1
join_or_acquire-Keeps o c g none p v =
    let now = (p.next_generation + 1) % 2 ^ 64 in
    let last = p.next_generation + now in
    (
      (last, (later-Keeps o c g p last now (omega arith) (omega arith) v).0),
      λ h.
          let e : now ≡ p.next_generation + 1 = mod-eq_of_lt {n = p.next_generation + 1} h in
          let k = later-Keeps o c g p now now (omega (arith, e)) (omega arith) v in
          (
            Holds-IsValid now
                (renew_or_allocate o c g (lookup c p.by_client)
                  (record p { next_generation = now })).1
                k,
            omega (arith, e, k.2),
          ),
    )
join_or_acquire-Keeps o c g (some (group, r)) p v = unchanged-Keeps p v

pub acquire_inner-Keeps :
    (o : Outcome) (c g : Bytes) (p : Pool) → IsValid p → Keeps p (acquire_inner o c g p).1
unfolding acquire_inner
acquire_inner-Keeps o c g p v =
    if_cases {A = Acquired} (λ x. Keeps p x.1) (not (valid_client_id c)) _ _
      (λ t. unchanged-Keeps p v) (λ f. join_or_acquire-Keeps o c g _ p v)

pub acquire_group-Keeps :
    (o : Outcome) (c g : Bytes) (p : Pool) → IsValid p → Keeps p (acquire_group o c g p).1
unfolding acquire_group
acquire_group-Keeps o c g p v =
    if_cases {A = Acquired} (λ x. Keeps p x.1) (is_empty g) _ _ (λ t. unchanged-Keeps p v)
      (λ f. acquire_inner-Keeps o c g p v)

pub release-Keeps : (l : Lease) (p : Pool) → IsValid p → Keeps p (release l p)
release-Keeps l p (v, w) =
    let k = release-Holds l p (v, w, refl) in
    (
      (p.next_generation, k.0),
      λ h. (Holds-IsValid p.next_generation (release l p) k, omega (arith, k.2)),
    )
