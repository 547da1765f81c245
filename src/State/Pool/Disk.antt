-- ===== src/State/Pool/Disk.antt =====
-- What the file of the pool holds, and what a write of it leaves.
use porta.Prelude.{ℕ, ◌≡◌, refl, ◌∙◌, Bool, true, Option, none, some, List, [], ◌∷◌, map}
use porta.Prelude.Except.{ok, err}
use porta.Prelude.Map.{lookup, insert, lookup-insert, list_beq_iff, list_eq, nat_eq}
use porta.Wire.Bytes.{Bytes}
use porta.State.Pool.{
  Pool, PoolState, LeaseRecord, PersistedLease, Outcome, stored, not_stored, unsynced, durability,
  io, persisted, snapshot, Done, persist_state_locked,
}
use porta.Prelude.{arith}
use porta.State.Pool.{write_file}
use porta.Prelude.{if_cases}

abbrev pub disk_leases : Option PoolState → List (Bytes × PersistedLease)
disk_leases none = []
disk_leases (some s) = s.leases

abbrev pub stored_form : Option LeaseRecord → Option PersistedLease
stored_form none = none
stored_form (some r) = some (record { address = some r.address; generation = r.generation })

-- The file of a persistent pool holds each client's address and generation, and no other client.
abbrev pub Agrees : Bool → List (Bytes × LeaseRecord) → Option PoolState → Type 0
Agrees persistent clients disk =
    persistent ≡ true → (c : Bytes) → lookup c (disk_leases disk) ≡ stored_form (lookup c clients)

pub lookup-persisted :
    (c : Bytes) (m : List (Bytes × LeaseRecord))
    → lookup c (map persisted m) ≡ stored_form (lookup c m)
lookup-persisted c [] = refl
lookup-persisted c ((d, r) ∷ m) = ground (arith, lookup-persisted c m)

pub Agrees-same :
    (b : Bool) (clients clients' : List (Bytes × LeaseRecord)) (disk : Option PoolState)
    → Agrees b clients disk
    → ((c : Bytes) → stored_form (lookup c clients) ≡ stored_form (lookup c clients'))
    → Agrees b clients' disk
Agrees-same b clients clients' disk v h t c = v t c ∙ h c

-- A record that keeps its address and generation keeps its form in the file.
pub stored_form-insert :
    (c d : Bytes) (r r' : LeaseRecord) (m : List (Bytes × LeaseRecord))
    → lookup c m ≡ some r
    → r'.address ≡ r.address
    → r'.generation ≡ r.generation
    → stored_form (lookup d m) ≡ stored_form (lookup d (insert c r' m))
stored_form-insert c d r r' m known a g =
    ground (arith, lookup-insert c d r' m, list_beq_iff c d, known, a, g)

-- The ways a write ends: `kept` and `late` leave a file that agrees, `failed` changes nothing.
pub data Written (p : Pool) : Done → Type 0 where
  kept :
      (d : Option PoolState)
      → Agrees p.persistent p.by_client d
      → Written p (ok tt, record p { disk = d })
  late :
      (d : Option PoolState) (code : ℕ)
      → p.persistent ≡ true
      → Agrees p.persistent p.by_client d
      → Written p (err (durability code), record p { disk = d })
  failed : (code : ℕ) → Written p (err (io code), p)

pub persist_state_locked-Written : (o : Outcome) (p : Pool) → Written p (persist_state_locked o p)
unfolding persist_state_locked
persist_state_locked-Written o p =
    if_cases (Written p) p.persistent (write_file o p) (ok tt, p) (written o)
      (λ f. kept p.disk (λ t. cc))
  where
    agrees : Agrees p.persistent p.by_client (some (snapshot p))
    agrees t c = lookup-persisted c p.by_client

    written : (x : Outcome) → p.persistent ≡ true → Written p (write_file x p)
    written stored t = kept (some (snapshot p)) agrees
    written (not_stored code) t = failed code
    written (unsynced code) t = late (some (snapshot p)) code t agrees
