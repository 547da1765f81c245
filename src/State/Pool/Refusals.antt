-- ===== src/State/Pool/Refusals.antt =====
-- When the pool refuses a lease: for want of an address, after a failed write, and after a failed sync.
use porta.Prelude.{
  ==→eq, Bool-cases, subst, inl, inr, ◌==◌, ℕ, ◌≡◌, refl, none, some, zero, suc, Option, ◌≢◌,
}
use porta.Prelude.Except.{ok, err}
use porta.Prelude.Map.{
  lookup, insert, list_eq, nat_eq, lookup-insert_back, lookup-insert_known, lookup-remove-none,
  lookup-remove_back,
}
use porta.Wire.Bytes.{Bytes}
use porta.State.Pool.{
  json, Pool, Outcome, LeaseRecord, acquire_inner, find_free, allocate, renew, broadcast,
  after_renewal, after_allocation, renew_or_allocate, Acquired, Done, ActiveLeaseGroup,
  join_or_acquire, exhausted, io, durability, invalid, allocate_at,
}
use porta.State.Pool.Invariant.{find_free_lem}
use porta.State.Pool.Commit.{Committed, abandon-Committed}
use porta.State.Pool.Disk.{Written, kept, late, failed, persist_state_locked-Written}
use porta.State.Pool.{valid_client_id}
use porta.Prelude.{if_cases, ◌+◌, ◌-◌, ◌≤◌}
use porta.Prelude.{arith, false, not, ◌<◌}
use porta.Prelude.{◌%◌}
use porta.Prelude.{◌^◌}

find_free_next :
    (fuel start : ℕ) (p : Pool)
    → find_free (suc fuel) start p ≡ none
    → (lookup start p.by_address ≢ none) × (find_free fuel (suc start) p ≡ none)
unfolding find_free
find_free_next fuel start p h = ground arith

-- Unless `find_free` finds an address, every address of its range has an owner.
pub find_free_full :
    (fuel start : ℕ) (p : Pool)
    → find_free fuel start p ≡ none
    → (a : ℕ) → start ≤ a
    → a < start + fuel
    → lookup a p.by_address ≢ none
unfolding find_free
find_free_full zero start p h a low high = absurd (omega (arith, low, high))
find_free_full (suc fuel) start p h a low high =
    let (taken, rest) = find_free_next fuel start p h in
    elim (Bool-cases (start == a)) [
      | inl t ↦ subst (λ x. lookup x p.by_address ≢ none) (==→eq start a t) taken
      | inr f ↦ find_free_full fuel (suc start) p rest a (ground arith) (omega arith)
    ]

-- All of the pool but its generation.
abbrev pub Unchanged : Pool → Pool → Type 0
Unchanged p q =
    (q.by_client ≡ p.by_client)
    × (q.by_address ≡ p.by_address)
    × (q.groups ≡ p.groups)
    × (q.disk ≡ p.disk)

-- If the result is an error, what it says of the pool before, `p`, and the pool after, with `n` the
-- generation that a new record would have.
abbrev pub Refusal : ℕ → Bytes → Pool → Acquired → Type 0
Refusal n c p (ok l, q) = Unit {0}
Refusal n c p (err invalid, q) = (valid_client_id c ≡ false) × Unchanged p q
Refusal n c p (err exhausted, q) =
    (lookup c p.by_client ≡ none)
    × ((a : ℕ) → p.gateway < a → a < broadcast p → lookup a p.by_address ≢ none)
    × Unchanged p q
Refusal n c p (err (io code), q) =
    ((d : Bytes) → lookup d q.by_client ≡ lookup d p.by_client)
    × ((a : ℕ) → lookup a q.by_address ≡ lookup a p.by_address)
    × ((d : Bytes) → lookup d q.groups ≡ lookup d p.groups)
    × (q.disk ≡ p.disk)
Refusal n c p (err (durability code), q) = Committed n c p q
Refusal n c p (err json, q) = ⊥

abbrev pub Refused : Bytes → Pool → Acquired → Type 0
Refused c p = Refusal ((p.next_generation + 1) % 2 ^ 64) c p

after_renewal-Refused :
    (c g : Bytes) (previous r : LeaseRecord) (group : Option ActiveLeaseGroup) (p : Pool) (x : Done)
    → lookup c p.by_client ≡ some previous
    → lookup c p.groups ≡ group
    → r.address ≡ previous.address
    → Written (record p { by_client = insert c r p.by_client }) x
    → Refusal r.generation c p (after_renewal c g previous r group x)
after_renewal-Refused c g previous r group p x h k same (kept d y) = tt
after_renewal-Refused c g previous r group p x h k same (late d code t y) =
    abandon-Committed r.generation c r p p.by_address d refl (λ s e. (cc (same, h, e), refl))
      (λ e. absurd (cc (h, e))) t y
after_renewal-Refused c g previous r none p x h k same (failed code) = (
  λ d. lookup-insert_back c d previous r p.by_client h,
  λ _. refl,
  λ d. lookup-remove-none c d p.groups k,
  refl,
)
after_renewal-Refused c g previous r (some o) p x h k same (failed code) = (
  λ d. lookup-insert_back c d previous r p.by_client h,
  λ _. refl,
  λ d. lookup-insert_known c d o p.groups k,
  refl,
)

after_allocation-Refused :
    (c g : Bytes) (r : LeaseRecord) (p : Pool) (x : Done)
    → lookup c p.by_client ≡ none
    → lookup r.address p.by_address ≡ none
    → p.gateway < r.address
    → r.address < broadcast p
    → Written
        (record p {
          by_client = insert c r p.by_client;
          by_address = insert r.address c p.by_address;
        })
        x
    → Refusal r.generation c p (after_allocation c g r x)
after_allocation-Refused c g r p x h k low high (kept d y) = tt
after_allocation-Refused c g r p x h k low high (late d code t y) =
    abandon-Committed r.generation c r p (insert r.address c p.by_address) d refl
      (λ s e. absurd (cc (h, e))) (λ e. (k, low, high, refl)) t y
after_allocation-Refused c g r p x h k low high (failed code) = (
  λ d. lookup-remove_back c d r p.by_client h,
  λ a. lookup-remove_back r.address a c p.by_address k,
  λ _. refl,
  refl,
)

allocate_at-Refused :
    (o : Outcome) (c g : Bytes) (fuel : ℕ) (found : Option ℕ) (p : Pool)
    → lookup c p.by_client ≡ none
    → fuel ≡ broadcast p - suc p.gateway
    → find_free fuel (suc p.gateway) p ≡ found
    → Refusal p.next_generation c p (allocate_at o c g found p)
allocate_at-Refused o c g fuel none p h e k = (
  h,
  λ a low high. find_free_full fuel (suc p.gateway) p k a low (omega arith),
  (refl, refl, refl, refl),
)
allocate_at-Refused o c g fuel (some a) p h e k =
    let (free, low, high) = find_free_lem fuel (suc p.gateway) a p k in
    after_allocation-Refused c g _ p _ h free low (omega (arith, low, high, e))
      (persist_state_locked-Written o _)

renew_or_allocate-Refused :
    (o : Outcome) (c g : Bytes) (known : Option LeaseRecord) (p : Pool)
    → lookup c p.by_client ≡ known
    → Refusal p.next_generation c p (renew_or_allocate o c g known p)
unfolding renew allocate
renew_or_allocate-Refused o c g none p h =
    allocate_at-Refused o c g (broadcast p - suc p.gateway) _ p h refl refl
renew_or_allocate-Refused o c g (some r) p h =
    after_renewal-Refused c g r _ (lookup c p.groups) p _ h refl refl
      (persist_state_locked-Written o _)

-- A refusal speaks of the pool before the generation is counted.
later-Refused :
    (c : Bytes) (n : ℕ) (p : Pool) (x : Acquired)
    → Refusal n c (record p { next_generation = n }) x
    → Refusal n c p x
later-Refused c n p (ok l, q) h = tt
later-Refused c n p (err invalid, q) h = h
later-Refused c n p (err exhausted, q) h = h
later-Refused c n p (err (io code), q) h = h
later-Refused c n p (err (durability code), q) h = record {
  kept_record = h.kept_record;
  known = h.known;
  inactive = h.inactive;
  dated = h.dated;
  renewed = h.renewed;
  reserved = h.reserved;
  others = h.others;
  groups = h.groups;
  persistent = h.persistent;
  on_disk = h.on_disk;
}
later-Refused c n p (err json, q) h = h

join_or_acquire-Refused :
    (o : Outcome) (c g : Bytes) (j : Option (ActiveLeaseGroup × LeaseRecord)) (p : Pool)
    → Refused c p (join_or_acquire o c g j p)
join_or_acquire-Refused o c g none p =
    later-Refused c ((p.next_generation + 1) % 2 ^ 64) p _
      (renew_or_allocate-Refused o c g (lookup c p.by_client) _ refl)
join_or_acquire-Refused o c g (some (group, r)) p = tt

-- How a lease is refused. The clients, the owners, the groups and the file stay for an invalid client ID,
-- and for a client without an address while every address between the gateway and the broadcast address has
-- an owner. After a failed write every client's record and group, every address's owner and the file are
-- as before. After a failed sync of the directory the file and the maps have the client's new record, inactive,
-- at the client's address or else at a free one that becomes its own, and the client has no group.
pub acquire_inner-Refused :
    (o : Outcome) (c g : Bytes) (p : Pool) → Refused c p (acquire_inner o c g p)
unfolding acquire_inner
acquire_inner-Refused o c g p =
    if_cases {A = Acquired} (Refused c p) (not (valid_client_id c)) _ _
      (λ t. (ground (arith, t), (refl, refl, refl, refl))) (λ f. join_or_acquire-Refused o c g _ p)
