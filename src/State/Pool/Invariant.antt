-- ===== src/State/Pool/Invariant.antt =====
-- Every operation of the pool keeps its maps and its file in agreement.
use porta.Prelude.{zero, ℕ, ◌≡◌, refl}
use porta.Prelude.Map.{lookup, insert, list_eq, nat_eq}
use porta.Wire.Bytes.{Bytes}
use porta.State.Pool.{
  Pool, LeaseRecord, Outcome, release, Done, after_renewal, after_allocation, renew, allocate,
  allocate_at, find_free, abandon_committed_lease, activate_group, ActiveLeaseGroup, Lease,
  broadcast, deactivate,
}
use porta.State.Pool.Addressed.{Addressed, Addressed-rewrite, Addressed-add, Addressed-same}
use porta.State.Pool.Disk.{
  Agrees, Agrees-same, Written, kept, late, failed, stored_form, stored_form-insert,
  persist_state_locked-Written,
}
use porta.Prelude.{zero, if_cases, some, none}
use porta.Prelude.{zero, arith}
use porta.State.Pool.{is_empty}
use porta.Prelude.{zero, Option}
use porta.Prelude.{zero, false, ◌≤◌}
use porta.Prelude.Map.{lookup-insert_back}
use porta.Prelude.{zero, List, ◌<◌}
use porta.Prelude.Map.{lookup-remove_back}
use porta.Prelude.{zero, ap, ◌+◌}
use porta.Prelude.{zero, suc, sym}
use porta.Prelude.{not, ◌-◌}
use porta.State.Pool.{release_known, release_record, renew_or_allocate}
use porta.Prelude.{◌==◌}
use porta.Prelude.{ltb}
use porta.Prelude.{subst}

-- Records and owners agree, no generation is later than `last`, and the generation of the pool is `now`.
abbrev pub Holds : ℕ → ℕ → Pool → Type 0
Holds last now p =
    Addressed p.gateway (broadcast p) last p.by_client p.by_address
    × Agrees p.persistent p.by_client p.disk
    × (p.next_generation ≡ now)

abbrev pub IsValid : Pool → Type 0
IsValid p =
    Addressed p.gateway (broadcast p) p.next_generation p.by_client p.by_address
    × Agrees p.persistent p.by_client p.disk

pub activate_group-Holds :
    {last now : ℕ}
    → (c g : Bytes) (n : ℕ) (p : Pool) → Holds last now p
    → Holds last now (activate_group c g n p)
unfolding activate_group
activate_group-Holds c g n p v = if_cases (Holds _ _) (is_empty g) _ _ (λ t. v) (λ t. v)

-- A record that keeps its address and generation.
pub update-Holds :
    {last now : ℕ}
    → (c : Bytes) (r r' : LeaseRecord) (p : Pool) → lookup c p.by_client ≡ some r
    → r'.address ≡ r.address
    → r'.generation ≡ r.generation
    → Holds last now p
    → Holds last now (record p { by_client = insert c r' p.by_client })
update-Holds c r r' p known a g (v, w, e) = (
  Addressed-rewrite v c r r' known a (omega (arith, v.dated c r known, g)),
  Agrees-same p.persistent p.by_client (insert c r' p.by_client) p.disk w
      (λ d. stored_form-insert c d r r' p.by_client known a g),
  e,
)

deactivate-Holds :
    {last now : ℕ}
    → (c : Bytes) (known : Option LeaseRecord) (p : Pool) → lookup c p.by_client ≡ known
    → Holds last now p
    → Holds last now (deactivate known c p)
deactivate-Holds c none p h v = v
deactivate-Holds c (some r) p h v = update-Holds c r (record r { active = false }) p h refl refl v

pub abandon_committed_lease-Holds :
    {last now : ℕ}
    → (c : Bytes) (p : Pool) → Holds last now p
    → Holds last now (abandon_committed_lease c p)
unfolding abandon_committed_lease
abandon_committed_lease-Holds c p v = deactivate-Holds c (lookup c p.by_client) p refl v

-- Maps that answer alike.
same-Holds :
    {last now : ℕ}
    → (p : Pool) (clients : List (Bytes × LeaseRecord)) (owners : List (ℕ × Bytes))
    → ((c : Bytes) → lookup c clients ≡ lookup c p.by_client)
    → ((a : ℕ) → lookup a owners ≡ lookup a p.by_address)
    → Holds last now p
    → Holds last now (record p { by_client = clients; by_address = owners })
same-Holds p clients owners f g (v, w, e) = (
  Addressed-same v clients owners f g,
  Agrees-same p.persistent p.by_client clients p.disk w (λ c. ap stored_form (sym (f c))),
  e,
)

after_renewal-Holds :
    {last now : ℕ}
    → (c g : Bytes) (previous r : LeaseRecord) (group : Option ActiveLeaseGroup) (p : Pool)
      (x : Done)
    → Holds last now p
    → lookup c p.by_client ≡ some previous
    → r.address ≡ previous.address
    → r.generation ≤ last
    → Written (record p { by_client = insert c r p.by_client }) x
    → Holds last now (after_renewal c g previous r group x).1
after_renewal-Holds c g previous r group p x (v, w, e) h a n (kept d y) =
    activate_group-Holds c g r.generation _ (Addressed-rewrite v c previous r h a n, y, e)
after_renewal-Holds c g previous r group p x (v, w, e) h a n (late d code t y) =
    abandon_committed_lease-Holds c _ (Addressed-rewrite v c previous r h a n, y, e)
after_renewal-Holds c g previous r none p x (v, w, e) h a n (failed code) =
    same-Holds p _ p.by_address (λ d. lookup-insert_back c d previous r p.by_client h) (λ _. refl)
      (v, w, e)
after_renewal-Holds c g previous r (some o) p x (v, w, e) h a n (failed code) =
    same-Holds p _ p.by_address (λ d. lookup-insert_back c d previous r p.by_client h) (λ _. refl)
      (v, w, e)

after_allocation-Holds :
    {last now : ℕ}
    → (c g : Bytes) (r : LeaseRecord) (p : Pool) (x : Done) → Holds last now p
    → lookup c p.by_client ≡ none
    → lookup r.address p.by_address ≡ none
    → p.gateway < r.address
    → r.address < broadcast p
    → r.generation ≤ last
    → Written
        (record p {
          by_client = insert c r p.by_client;
          by_address = insert r.address c p.by_address;
        })
        x
    → Holds last now (after_allocation c g r x).1
after_allocation-Holds c g r p x (v, w, e) new free low high n (kept d y) =
    activate_group-Holds c g r.generation _ (Addressed-add v c r new free low high n, y, e)
after_allocation-Holds c g r p x (v, w, e) new free low high n (late d code t y) =
    abandon_committed_lease-Holds c _ (Addressed-add v c r new free low high n, y, e)
after_allocation-Holds c g r p x (v, w, e) new free low high n (failed code) =
    same-Holds p _ _ (λ d. lookup-remove_back c d r p.by_client new)
      (λ a. lookup-remove_back r.address a c p.by_address free) (v, w, e)

renew-Holds :
    {last now : ℕ}
    → (o : Outcome) (c g : Bytes) (previous : LeaseRecord) (p : Pool)
    → lookup c p.by_client ≡ some previous
    → Holds last now p
    → now ≤ last
    → Holds last now (renew o c g previous p).1
unfolding renew
renew-Holds o c g previous p h v k =
    after_renewal-Holds c g previous _ (lookup c p.groups) p _ v h refl (omega (arith, v.2, k))
      (persist_state_locked-Written o _)

-- The address that the search finds is free and in its range.
pub find_free_lem :
    (fuel start a : ℕ) (p : Pool)
    → find_free fuel start p ≡ some a
    → (lookup a p.by_address ≡ none) × (start ≤ a) × (a < start + fuel)
unfolding find_free
find_free_lem zero start a p h = cc
find_free_lem (suc fuel) start a p h = ground (arith, find_free_lem fuel (suc start) a p)

allocate_at-Holds :
    {last now : ℕ}
    → (o : Outcome) (c g : Bytes) (fuel : ℕ) (p : Pool) → lookup c p.by_client ≡ none
    → fuel ≡ broadcast p - suc p.gateway
    → (found : Option ℕ) → find_free fuel (suc p.gateway) p ≡ found
    → Holds last now p
    → now ≤ last
    → Holds last now (allocate_at o c g found p).1
allocate_at-Holds o c g fuel p new e none h v k = v
allocate_at-Holds o c g fuel p new e (some a) h v k =
    let (free, low, high) = find_free_lem fuel (suc p.gateway) a p h in
    after_allocation-Holds c g _ p _ v new free low (omega (arith, high, low, e))
      (omega (arith, v.2, k)) (persist_state_locked-Written o _)

allocate-Holds :
    {last now : ℕ}
    → (o : Outcome) (c g : Bytes) (p : Pool) → lookup c p.by_client ≡ none
    → Holds last now p
    → now ≤ last
    → Holds last now (allocate o c g p).1
unfolding allocate
allocate-Holds o c g p new v k =
    allocate_at-Holds o c g (broadcast p - suc p.gateway) p new refl _ refl v k

pub renew_or_allocate-Holds :
    {last now : ℕ}
    → (o : Outcome) (c g : Bytes) (known : Option LeaseRecord) (p : Pool)
    → lookup c p.by_client ≡ known
    → Holds last now p
    → now ≤ last
    → Holds last now (renew_or_allocate o c g known p).1
renew_or_allocate-Holds o c g none p h v k = allocate-Holds o c g p h v k
renew_or_allocate-Holds o c g (some r) p h v k = renew-Holds o c g r p h v k

pub Holds-IsValid : (now : ℕ) (p : Pool) → Holds now now p → IsValid p
Holds-IsValid now p (v, w, e) =
    (subst (λ n. Addressed p.gateway (broadcast p) n p.by_client p.by_address) (sym e) v, w)

release_record-Holds :
    {last now : ℕ}
    → (l : Lease) (r : LeaseRecord) (group : Option ActiveLeaseGroup) (p : Pool)
    → lookup l.client_id p.by_client ≡ some r
    → Holds last now p
    → Holds last now (release_record l r group p)
release_record-Holds l r none p h v = update-Holds l.client_id r _ p h refl refl v
release_record-Holds l r (some g) p h v =
    if_cases (Holds _ _) (g.generation == l.generation) _ _
      (λ t.
        if_cases (Holds _ _) (ltb 1 g.references) _ _ (λ _. v)
          (λ _. update-Holds l.client_id r _ p h refl refl v))
      (λ f. update-Holds l.client_id r _ p h refl refl v)

release_known-Holds :
    {last now : ℕ}
    → (l : Lease) (known : Option LeaseRecord) (p : Pool) → lookup l.client_id p.by_client ≡ known
    → Holds last now p
    → Holds last now (release_known l known p)
release_known-Holds l none p h v = v
release_known-Holds l (some r) p h v =
    if_cases (Holds _ _) (not (r.generation == l.generation)) _ _ (λ _. v)
      (λ _. release_record-Holds l r (lookup l.client_id p.groups) p h v)

pub release-Holds :
    {last now : ℕ} → (l : Lease) (p : Pool) → Holds last now p → Holds last now (release l p)
unfolding release
release-Holds l p v = release_known-Holds l (lookup l.client_id p.by_client) p refl v
