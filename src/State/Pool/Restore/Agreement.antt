-- ===== src/State/Pool/Restore/Agreement.antt =====
-- What a pool that loads its file holds: the file's leases, inactive.
use porta.Prelude.{
  Option-cases, if◌then◌else◌, ◌+◌, ℕ, ◌<◌, ◌≡◌, refl, sym, ap, ◌∙◌, subst, true, false, not,
  Option, none, some, List, [], ◌∷◌, arith, max, if_cases, inl, inr, Bool-cases,
}
use porta.Prelude.Except.{Except, ok, err, ◌>>=◌}
use porta.Prelude.Map.{
  lookup, insert, nat_eq, list_eq, list_beq, list_beq_iff, lookup-insert_same, lookup-insert_other,
  lookup-insert_cases,
}
use porta.Wire.Bytes.{Bytes}
use porta.State.Pool.{
  invalid, state_version, Pool, PoolState, PersistedLease, LeaseRecord, PoolError, valid_client_id,
  broadcast,
}
use porta.State.Pool.Addressed.{Addressed, Addressed-add, Addressed-later, Addressed-empty}
use porta.State.Pool.Invariant.{IsValid}
use porta.State.Pool.Disk.{disk_leases, stored_form}
use porta.State.Pool.Restore.{
  fits_pool, restored, restore_at, restore_lease, restore_all, load_state, is_owned, dated,
}
use porta.Prelude.{◌==◌}

abbrev pub Restored : Bytes → Option ℕ → ℕ → Pool → Except PoolError Pool → Type 0
Restored c v g p (err e) = Unit {0}
Restored c v g p (ok q) =
    (a : ℕ) × (v ≡ some a)
    × (p.gateway < a)
    × (a < broadcast p)
    × (lookup a p.by_address ≡ none)
    × (q ≡ restored c a g p)

owned_lem : (o : Option Bytes) → is_owned o ≡ false → o ≡ none
owned_lem none h = refl
owned_lem (some x) h = cc h

restore_at-Restored :
    (c : Bytes) (v : Option ℕ) (g : ℕ) (p : Pool) → Restored c v g p (restore_at c g v p)
restore_at-Restored c none g p = tt
restore_at-Restored c (some a) g p =
    if_cases (Restored c (some a) g p) _ (err invalid)
      (if is_owned (lookup a p.by_address) then err invalid else ok (restored c a g p)) (λ _. tt)
      (λ f.
        if_cases (Restored c (some a) g p) (is_owned (lookup a p.by_address)) (err invalid)
          (ok (restored c a g p)) (λ _. tt)
          (λ k. (a, refl, ground (arith, f), ground (arith, f), owned_lem _ k, refl)))

restore_lease-Restored :
    (c : Bytes) (v : Option ℕ) (g : ℕ) (p : Pool) → Restored c v g p (restore_lease c v g p)
unfolding restore_lease
restore_lease-Restored c v g p =
    if_cases (Restored c v g p) (not (valid_client_id c)) _ _ (λ _. tt)
      (λ _. restore_at-Restored c v g p)

-- The keys of the entries are distinct and not in the map.
abbrev pub Apart : List (Bytes × PersistedLease) → List (Bytes × LeaseRecord) → Type 0
Apart [] m = Unit {0}
Apart ((c, l) ∷ ls) m = (lookup c m ≡ none) × (lookup c ls ≡ none) × Apart ls m

Apart-insert :
    (c : Bytes) (r : LeaseRecord) (ls : List (Bytes × PersistedLease))
    (m : List (Bytes × LeaseRecord))
    → lookup c ls ≡ none
    → Apart ls m
    → Apart ls (insert c r m)
Apart-insert c r [] m h a = tt
Apart-insert c r ((d, l) ∷ ls) m h (k, j, a) = elim (Bool-cases (list_beq d c)) [
  | inl t ↦ absurd (ground (arith, t, h))
  | inr f ↦ (
    lookup-insert_other c d r m (λ q. cc (f, (list_beq_iff d c).1 (sym q))) ∙ k,
    j,
    Apart-insert c r ls m (ground arith) a,
  )
]

abbrev pub IsAddressed : Pool → Type 0
IsAddressed p = Addressed p.gateway (broadcast p) p.next_generation p.by_client p.by_address

abbrev pub Inactive : List (Bytes × LeaseRecord) → Type 0
Inactive m = (c : Bytes) (r : LeaseRecord) → lookup c m ≡ some r → r.active ≡ false

abbrev pub Loaded : List (Bytes × PersistedLease) → Pool → Except PoolError Pool → Type 0
Loaded ls p (err e) = Unit {0}
Loaded ls p (ok q) =
    IsAddressed q
    × Inactive q.by_client
    × ((c : Bytes) (l : PersistedLease)
        → lookup c ls ≡ some l
        → stored_form (lookup c q.by_client) ≡ some l)
    × ((c : Bytes) → lookup c ls ≡ none → lookup c q.by_client ≡ lookup c p.by_client)
    × (q.disk ≡ p.disk)

entry : ℕ → Option ℕ → Option PersistedLease
entry generation address = some (record { address = address; generation = generation })

-- One lease more in front.
cons-Loaded :
    (c : Bytes) (l : PersistedLease) (rest : List (Bytes × PersistedLease)) (a n : ℕ) (p : Pool)
    (x : Except PoolError Pool)
    → l.address ≡ some a
    → lookup c rest ≡ none
    → Loaded rest (record (restored c a l.generation p) { next_generation = n }) x
    → Loaded ((c, l) ∷ rest) p x
unfolding entry
cons-Loaded c l rest a n p (err e) h k v = tt
cons-Loaded c l rest a n p (ok q) h k (v, i, f, g, d) = (v, i, here', there', d)
  where
    r : LeaseRecord
    r = record { address = a; generation = l.generation; active = false }

    here' :
        (d : Bytes) (m : PersistedLease)
        → lookup d ((c, l) ∷ rest) ≡ some m
        → stored_form (lookup d q.by_client) ≡ some m
    here' d m e = elim (Bool-cases (list_beq c d)) [
      | inl t ↦
          ap (λ z. stored_form (lookup z q.by_client)) (sym ((list_beq_iff c d).0 t))
          ∙ (ap stored_form (g c k ∙ lookup-insert_same c r p.by_client)
              ∙ (ap (entry l.generation) (sym h) ∙ ground (arith, t, e)))
      | inr n ↦ f d m (ground (arith, n, e))
    ]

    there' :
        (d : Bytes) → lookup d ((c, l) ∷ rest) ≡ none → lookup d q.by_client ≡ lookup d p.by_client
    there' d e = elim (Bool-cases (list_beq c d)) [
      | inl t ↦ absurd (ground (arith, t, e))
      | inr n ↦
          g d (ground (arith, n, e))
          ∙ lookup-insert_other c d r p.by_client (λ o. cc (n, (list_beq_iff c d).1 o))
    ]

step-Loaded :
    (c : Bytes) (l : PersistedLease) (rest : List (Bytes × PersistedLease)) (p : Pool)
    → ((p' : Pool)
        → IsAddressed p'
        → Inactive p'.by_client
        → Apart rest p'.by_client
        → Loaded rest p' (restore_all rest p'))
    → IsAddressed p
    → Inactive p.by_client
    → lookup c p.by_client ≡ none
    → lookup c rest ≡ none
    → Apart rest p.by_client
    → (x : Except PoolError Pool) → Restored c l.address l.generation p x
    → Loaded ((c, l) ∷ rest) p (x >>= λ q. dated l.generation q >>= λ r. restore_all rest r)
step-Loaded c l rest p ih v i new k ap' (err e) s = tt
step-Loaded c l rest p ih v i new k ap' (ok q) (a, e, low, high, free, same) =
    let n = max p.next_generation l.generation in
    let r : LeaseRecord = record { address = a; generation = l.generation; active = false } in
    subst
      (λ t.
        Loaded ((c, l) ∷ rest) p
          (restore_all rest (record t { next_generation = max t.next_generation l.generation })))
      (sym same)
      (cons-Loaded c l rest a n p _ e k (
        ih (record (restored c a l.generation p) { next_generation = n })
          (Addressed-add (Addressed-later v (omega arith)) c r new free low high (omega arith))
          (λ d s h. elim (lookup-insert_cases c d r s p.by_client h) [
            | inl (o, w) ↦ ap (λ (x : LeaseRecord). x.active) (sym w)
            | inr (o, w) ↦ i d s w
          ])
          (Apart-insert c r rest p.by_client k ap')))

restore_all-Loaded :
    (ls : List (Bytes × PersistedLease)) (p : Pool)
    → IsAddressed p
    → Inactive p.by_client
    → Apart ls p.by_client
    → Loaded ls p (restore_all ls p)
unfolding restore_all
restore_all-Loaded [] p v i t = (v, i, λ c l h. cc h, λ c h. refl, refl)
restore_all-Loaded ((c, l) ∷ rest) p v i (new, k, t) =
    if_cases (Loaded ((c, l) ∷ rest) p) (l.generation == 0) _ _ (λ _. tt)
      (λ _.
        step-Loaded c l rest p (restore_all-Loaded rest) v i new k t
          (restore_lease c l.address l.generation p)
          (restore_lease-Restored c l.address l.generation p))

abbrev pub new_pool : ℕ → ℕ → Option PoolState → Pool
new_pool network prefix_len disk = record {
  network = network;
  prefix_len = prefix_len;
  gateway = network + 1;
  persistent = true;
  by_client = [];
  by_address = [];
  groups = [];
  next_generation = 0;
  disk = disk;
}

load_state-Loaded :
    (state : PoolState) (p : Pool)
    → IsAddressed p
    → Inactive p.by_client
    → Apart state.leases p.by_client
    → Loaded state.leases p (load_state (ok (some state)) p)
unfolding load_state
load_state-Loaded state p v i t =
    if_cases (Loaded state.leases p) (not (state.version == state_version)) (err invalid) _
      (λ _. tt)
      (λ _.
        if_cases (Loaded state.leases p) (not (fits_pool state.pool p)) (err invalid)
          (restore_all state.leases p) (λ _. tt) (λ _. restore_all-Loaded state.leases p v i t))

agrees :
    (c : Bytes) (q : Pool) (ls : List (Bytes × PersistedLease))
    → ((l : PersistedLease) → lookup c ls ≡ some l → stored_form (lookup c q.by_client) ≡ some l)
    → (lookup c ls ≡ none → lookup c q.by_client ≡ none)
    → lookup c ls ≡ stored_form (lookup c q.by_client)
agrees c q ls f g = elim (Option-cases (lookup c ls)) [
  | inl n ↦ n ∙ ap stored_form (sym (g n))
  | inr (l, e) ↦ e ∙ sym (f l e)
]

-- A new pool that loads a file with one lease for a client, when it accepts the file, is valid, holds the
-- address and the generation of each client of the file and no other client, and has no active lease.
pub load_state_restores :
    (state : PoolState) (network prefix_len : ℕ) (q : Pool)
    → Apart state.leases []
    → load_state (ok (some state)) (new_pool network prefix_len (some state)) ≡ ok q
    → IsValid q
      × ((c : Bytes) → lookup c state.leases ≡ stored_form (lookup c q.by_client))
      × ((c : Bytes) (r : LeaseRecord) → lookup c q.by_client ≡ some r → r.active ≡ false)
load_state_restores state network prefix_len q t h =
    let p = new_pool network prefix_len (some state) in
    let (v, i, f, g, d) =
      subst (Loaded state.leases p) h
        (load_state-Loaded state p (Addressed-empty _ _ _) (λ c r e. cc e) t) in
    let same : (c : Bytes) → lookup c state.leases ≡ stored_form (lookup c q.by_client) =
      λ c. agrees c q state.leases (f c) (g c) in
    ((v, λ _ c. ap (λ o. lookup c (disk_leases o)) d ∙ same c), same, i)
