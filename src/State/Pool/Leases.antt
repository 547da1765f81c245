-- ===== src/State/Pool/Leases.antt =====
-- What an acquired lease grants, and what a stale lease can do.
use porta.Prelude.{ℕ, ◌≡◌, refl, none, some}
use porta.Prelude.Except.{ok, err}
use porta.Prelude.Map.{lookup, insert, list_eq, nat_eq}
use porta.Wire.Bytes.{Bytes}
use porta.State.Pool.{
  Pool, Outcome, Lease, LeaseRecord, acquire_inner, release, allocate, renew, broadcast,
  activate_group, after_renewal, after_allocation, renew_or_allocate, Acquired, Done, is_current,
  ActiveLeaseGroup, join_or_acquire, joined, allocate_at, lease,
}
use porta.State.Pool.Invariant.{IsValid}
use porta.State.Pool.Kept.{Keeps, acquire_inner-Keeps}
use native.Mathlib.Nat.{mod-eq_of_lt}
use porta.State.Pool.Disk.{Written, kept, late, failed, persist_state_locked-Written}
use porta.Prelude.{Option, true, ◌≤◌}
use porta.Prelude.{◌<◌}
use porta.Prelude.{◌+◌}
use porta.Prelude.{arith}
use porta.Prelude.Map.{lookup-insert_same}
use porta.Prelude.{if_cases}
use porta.Prelude.{not}
use porta.State.Pool.{is_empty}
use porta.State.Pool.{valid_client_id}
use porta.Prelude.{subst}
use porta.Prelude.{ap, sym}
use porta.State.Pool.{release_known}
use porta.Prelude.{◌∙◌}
use porta.Prelude.{if_true}
use porta.Prelude.{◌==◌}
use porta.Prelude.{◌%◌, ◌^◌}

-- What `acquire_inner` grants when it grants anything: the client's own active record, with generation
-- `n`, at the address that the client has if it has one.
abbrev pub Granted : Bytes → Option LeaseRecord → ℕ → Acquired → Type 0
Granted c known n (err e, q) = Unit {0}
Granted c known n (ok l, q) =
    (r : LeaseRecord) × (lookup c q.by_client ≡ some r)
    × (r.active ≡ true)
    × (r.generation ≡ n)
    × (l ≡ lease q c r)
    × ((s : LeaseRecord) → known ≡ some s → r.address ≡ s.address)

-- The groups do not matter.
activate_group-Granted :
    (c g : Bytes) (known : Option LeaseRecord) (r : LeaseRecord) (p : Pool)
    → lookup c p.by_client ≡ some r
    → r.active ≡ true
    → ((s : LeaseRecord) → known ≡ some s → r.address ≡ s.address)
    → Granted c known r.generation (ok (lease p c r), activate_group c g r.generation p)
unfolding activate_group
activate_group-Granted c g known r p h a f =
    if_cases (λ q. Granted c known r.generation (ok (lease p c r), q)) (is_empty g) _ _
      (λ t. (r, h, a, refl, refl, f)) (λ t. (r, h, a, refl, refl, f))

after_renewal-Granted :
    (c g : Bytes) (previous r : LeaseRecord) (group : Option ActiveLeaseGroup) (p : Pool) (x : Done)
    → r.active ≡ true
    → r.address ≡ previous.address
    → Written (record p { by_client = insert c r p.by_client }) x
    → Granted c (some previous) r.generation (after_renewal c g previous r group x)
after_renewal-Granted c g previous r group p x a e (kept d y) =
    activate_group-Granted c g (some previous) r _ (lookup-insert_same c r p.by_client) a
      (λ s h. cc (h, e))
after_renewal-Granted c g previous r group p x a e (late d code t y) = tt
after_renewal-Granted c g previous r none p x a e (failed code) = tt
after_renewal-Granted c g previous r (some o) p x a e (failed code) = tt

after_allocation-Granted :
    (c g : Bytes) (r : LeaseRecord) (p : Pool) (x : Done)
    → r.active ≡ true
    → Written
        (record p {
          by_client = insert c r p.by_client;
          by_address = insert r.address c p.by_address;
        })
        x
    → Granted c none r.generation (after_allocation c g r x)
after_allocation-Granted c g r p x a (kept d y) =
    activate_group-Granted c g none r _ (lookup-insert_same c r p.by_client) a (λ s h. cc h)
after_allocation-Granted c g r p x a (late d code t y) = tt
after_allocation-Granted c g r p x a (failed code) = tt

allocate_at-Granted :
    (o : Outcome) (c g : Bytes) (found : Option ℕ) (p : Pool)
    → Granted c none p.next_generation (allocate_at o c g found p)
allocate_at-Granted o c g none p = tt
allocate_at-Granted o c g (some a) p =
    after_allocation-Granted c g _ p _ refl (persist_state_locked-Written o _)

renew_or_allocate-Granted :
    (o : Outcome) (c g : Bytes) (known : Option LeaseRecord) (p : Pool)
    → Granted c known p.next_generation (renew_or_allocate o c g known p)
unfolding renew allocate
renew_or_allocate-Granted o c g none p = allocate_at-Granted o c g _ p
renew_or_allocate-Granted o c g (some r) p =
    after_renewal-Granted c g r _ (lookup c p.groups) p _ refl refl
      (persist_state_locked-Written o _)

-- A joined group holds the client's active record.
joined_lem :
    (g : Bytes) (group : Option ActiveLeaseGroup) (known : Option LeaseRecord)
    (o : ActiveLeaseGroup) (r : LeaseRecord)
    → joined g group known ≡ some (o, r)
    → (known ≡ some r) × (r.active ≡ true)
joined_lem g none known o r h = cc h
joined_lem g (some q) none o r h = cc h
joined_lem g (some q) (some s) o r h = ground arith

join_or_acquire-Granted :
    (o : Outcome) (c g : Bytes) (j : Option (ActiveLeaseGroup × LeaseRecord)) (p : Pool)
    → joined g (lookup c p.groups) (lookup c p.by_client) ≡ j
    → (n : ℕ) × Granted c (lookup c p.by_client) n (join_or_acquire o c g j p)
      × (j ≡ none → n ≡ (p.next_generation + 1) % 2 ^ 64)
join_or_acquire-Granted o c g none p h = (
  (p.next_generation + 1) % 2 ^ 64,
  renew_or_allocate-Granted o c g (lookup c p.by_client) _,
  λ _. refl,
)
join_or_acquire-Granted o c g (some (q, r)) p h =
    let (e, a) = joined_lem g (lookup c p.groups) (lookup c p.by_client) q r h in
    (r.generation, (r, e, a, refl, refl, λ s t. cc (e, t)), λ t. cc t)

acquire_inner-Granted :
    (o : Outcome) (c g : Bytes) (p : Pool)
    → (n : ℕ) × Granted c (lookup c p.by_client) n (acquire_inner o c g p)
      × (joined g (lookup c p.groups) (lookup c p.by_client) ≡ none
          → n ≡ (p.next_generation + 1) % 2 ^ 64)
unfolding acquire_inner
acquire_inner-Granted o c g p =
    if_cases {A = Acquired}
      (λ x.
        (n : ℕ) × Granted c (lookup c p.by_client) n x
        × (joined g (lookup c p.groups) (lookup c p.by_client) ≡ none
            → n ≡ (p.next_generation + 1) % 2 ^ 64))
      (not (valid_client_id c)) _ _ (λ t. ((p.next_generation + 1) % 2 ^ 64, tt, λ _. refl))
      (λ f. join_or_acquire-Granted o c g _ p refl)

current_lem :
    (c : Bytes) (q : Pool) (r : LeaseRecord)
    → lookup c q.by_client ≡ some r
    → r.active ≡ true
    → is_current (lease q c r) q ≡ true
unfolding is_current
current_lem c q r e a = ground (arith, e, a)

differ_lem : (a b n m : ℕ) → a ≡ n → n ≡ m + 1 → b ≤ m → not (a == b) ≡ true
differ_lem a b n m h k l = ground arith

-- A lease that is granted is the client's current one, at an address of the pool between the gateway and
-- the broadcast address, and at the address that the client had if it had one.
pub acquire_inner_grants :
    (o : Outcome) (c g : Bytes) (p q : Pool) (l : Lease)
    → IsValid p
    → acquire_inner o c g p ≡ (ok l, q)
    → (l.client_id ≡ c)
      × (is_current l q ≡ true)
      × (q.gateway < l.address)
      × (l.address < broadcast q)
      × ((s : LeaseRecord) → lookup c p.by_client ≡ some s → l.address ≡ s.address)
unfolding is_current
acquire_inner_grants o c g p q l v h =
    let (n, grant, fresh) = acquire_inner-Granted o c g p in
    let (r, e, a, m, i, f) = subst (Granted c (lookup c p.by_client) n) h grant in
    let ((last, w), k) =
      subst {A = Acquired} (λ x. Keeps p x.1) h (acquire_inner-Keeps o c g p v) in
    let (low, high) = w.ranged c r e in
    subst
      (λ x.
        (x.client_id ≡ c)
        × (is_current x q ≡ true)
        × (q.gateway < x.address)
        × (x.address < broadcast q)
        × ((s : LeaseRecord) → lookup c p.by_client ≡ some s → x.address ≡ s.address))
      (sym i) (refl, current_lem c q r e a, low, high, f)

-- While the 64-bit count of generations does not wrap: once a client acquires a lease anew, that is without joining the group of its present lease, to release
-- any lease of it from before changes nothing.
pub release_stale :
    (o : Outcome) (c g : Bytes) (p q : Pool) (l old : Lease)
    → joined g (lookup c p.groups) (lookup c p.by_client) ≡ none
    → acquire_inner o c g p ≡ (ok l, q)
    → old.client_id ≡ c
    → old.generation ≤ p.next_generation
    → p.next_generation + 1 < 2 ^ 64
    → release old q ≡ q
unfolding release
release_stale o c g p q l old j h e older fits =
    let (n, grant, fresh) = acquire_inner-Granted o c g p in
    let (r, known, a, m, k, f) = subst (Granted c (lookup c p.by_client) n) h grant in
    ap (λ x. release_known old x q) (ap (λ x. lookup x q.by_client) e ∙ known)
    ∙ if_true (not (r.generation == old.generation)) q _ (
        differ_lem r.generation old.generation _ p.next_generation m
          (fresh j ∙ mod-eq_of_lt {n = p.next_generation + 1} fits) older)
