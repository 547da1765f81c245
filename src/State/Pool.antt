-- ===== src/State/Pool.antt =====
-- `Pool` of rust/porta-server/src/state/pool.rs: the IPv4 leases of the clients and their file. The
-- mutex makes each method one step. Client and group IDs are their bytes, addresses numbers.
pub mod Addressed
pub mod Disk
pub mod Invariant
pub mod Calls
pub mod Commit
pub mod Kept
pub mod Leases
pub mod Refusals
pub mod Restore
mod Tests
use porta.Prelude.{
  ℕ, zero, suc, ◌+◌, ◌-◌, ◌*◌, ◌/◌, ◌%◌, ◌^◌, max, bit_or, Bool, true, false, not, ◌&&◌, ◌||◌,
  Option, none, some, List, [], ◌∷◌, map, length, ◌==◌, ltb, leb, if◌then◌else◌,
}
use porta.Prelude.Except.{Except, ok, err, ◌>>=◌}
use porta.Prelude.Map.{Eq, nat_eq, list_eq, list_beq, lookup, insert, remove}
use porta.Wire.Bytes.{Bytes}

pub data PoolError : Type 0 where
  exhausted invalid json : PoolError
  io durability : ℕ → PoolError

pub record Lease : Type 0 where
  pub address : ℕ
  pub prefix_bits : ℕ
  pub gateway : ℕ
  pub generation : ℕ
  pub client_id : Bytes

pub record LeaseRecord : Type 0 where
  pub address : ℕ
  pub generation : ℕ
  pub active : Bool

pub record ActiveLeaseGroup : Type 0 where
  pub id : Bytes
  pub generation : ℕ
  pub references : ℕ

-- An address that is not the text of an IPv4 address is `none`.
pub record PersistedLease : Type 0 where
  pub address : Option ℕ
  pub generation : ℕ

-- The decoded file. A pool that is not the text of a prefix is `some none`.
pub record PoolState : Type 0 where
  pub version : ℕ
  pub leases : List (Bytes × PersistedLease)
  pub pool : Option (Option (ℕ × ℕ))

-- Generations are `u64`. `disk` is what a restart reads; without a state path it stays `none`, as it is
-- before the first write of the file.
pub record Pool : Type 0 where
  pub network : ℕ
  pub prefix_len : ℕ
  pub gateway : ℕ
  pub persistent : Bool
  pub by_client : List (Bytes × LeaseRecord)
  pub by_address : List (ℕ × Bytes)
  pub groups : List (Bytes × ActiveLeaseGroup)
  pub next_generation : ℕ
  pub disk : Option PoolState

abbrev pub state_version : ℕ
state_version = 2

-- `from_prefix_with_path` for a pool without a file: it starts empty at the address after the network's.
pub from_prefix : ℕ → ℕ → Except PoolError Pool
from_prefix network prefix_len =
    if not (leb 16 prefix_len && leb prefix_len 30)
    then err invalid
    else ok (record {
      network = network;
      prefix_len = prefix_len;
      gateway = network + 1;
      persistent = false;
      by_client = [];
      by_address = [];
      groups = [];
      next_generation = 0;
      disk = none;
    })

-- The host bits of the network are zero.
abbrev pub broadcast : Pool → ℕ
broadcast p = bit_or p.network (2 ^ (32 - p.prefix_len) - 1)

-- `is_ascii_alphanumeric`.
abbrev pub is_alphanumeric : ℕ → Bool
is_alphanumeric b = leb b'0' b && leb b b'9' || leb b'A' b && leb b b'Z' || leb b'a' b && leb b b'z'

abbrev pub all_name_bytes : Bytes → Bool
all_name_bytes [] = true
all_name_bytes (b ∷ rest) =
    (is_alphanumeric b || b == b'.' || b == b'_' || b == b'-') && all_name_bytes rest

pub valid_client_id : Bytes → Bool
valid_client_id [] = false
valid_client_id (first ∷ rest) =
    leb (suc (length rest)) 64 && is_alphanumeric first && all_name_bytes rest

-- How `write_state_atomically` ends: with the new file in place, with the old one, or with the new one
-- but a failed sync of its directory.
pub data Outcome : Type 0 where
  stored : Outcome
  not_stored unsynced : ℕ → Outcome

abbrev pub persisted : Bytes × LeaseRecord → Bytes × PersistedLease
persisted (client_id, r) =
    (client_id, record { address = some r.address; generation = r.generation })

abbrev pub snapshot : Pool → PoolState
snapshot p = record {
  version = state_version;
  leases = map persisted p.by_client;
  pool = some (some (p.network, p.prefix_len));
}

abbrev pub Done : Type 0
Done = Except PoolError (Unit {0}) × Pool

abbrev pub write_file : Outcome → Pool → Done
write_file stored p = (ok tt, record p { disk = some (snapshot p) })
write_file (not_stored code) p = (err (io code), p)
write_file (unsynced code) p = (err (durability code), record p { disk = some (snapshot p) })

pub persist_state_locked : Outcome → Pool → Done
persist_state_locked outcome p = if p.persistent then write_file outcome p else (ok tt, p)

-- `get_mut(client_id).active = false`; the record is there.
abbrev pub deactivate : Option LeaseRecord → Bytes → Pool → Pool
deactivate none client_id p = p
deactivate (some r) client_id p = record p {
  by_client = insert client_id (record r { active = false }) p.by_client;
}

pub abandon_committed_lease : Bytes → Pool → Pool
abandon_committed_lease client_id p =
    let q = deactivate (lookup client_id p.by_client) client_id p in
    record q { groups = remove client_id q.groups }

abbrev pub is_empty : Bytes → Bool
is_empty [] = true
is_empty (_ ∷ _) = false

pub activate_group : Bytes → Bytes → ℕ → Pool → Pool
activate_group client_id group_id generation p =
    if is_empty group_id then record p { groups = remove client_id p.groups } else record p {
      groups =
          insert client_id (record { id = group_id; generation = generation; references = 1 })
            p.groups;
    }

-- `fn lease`.
abbrev pub lease : Pool → Bytes → LeaseRecord → Lease
lease p client_id r = record {
  address = r.address;
  prefix_bits = p.prefix_len;
  gateway = p.gateway;
  generation = r.generation;
  client_id = client_id;
}

abbrev pub Acquired : Type 0
Acquired = Except PoolError Lease × Pool

-- The group of the client, if it is this one and still holds the client's active lease.
abbrev pub joined :
    Bytes → Option ActiveLeaseGroup → Option LeaseRecord → Option (ActiveLeaseGroup × LeaseRecord)
joined group_id none r = none
joined group_id (some g) none = none
joined group_id (some g) (some r) =
    if not (is_empty group_id)
      && (list_beq g.id group_id && (r.generation == g.generation && r.active))
    then some (g, r)
    else none

-- After the write of a client's new record over `previous`.
abbrev pub after_renewal :
    Bytes → Bytes → LeaseRecord → LeaseRecord → Option ActiveLeaseGroup → Done → Acquired
after_renewal client_id group_id previous replacement previous_group (ok _, p) =
    (ok (lease p client_id replacement), activate_group client_id group_id replacement.generation p)
after_renewal client_id group_id previous replacement previous_group (err (durability code), p) =
    (err (durability code), abandon_committed_lease client_id p)
after_renewal client_id group_id previous replacement none (err e, p) = (
  err e,
  record p {
    by_client = insert client_id previous p.by_client;
    groups = remove client_id p.groups;
  },
)
after_renewal client_id group_id previous replacement (some group) (err e, p) = (
  err e,
  record p {
    by_client = insert client_id previous p.by_client;
    groups = insert client_id group p.groups;
  },
)

pub renew : Outcome → Bytes → Bytes → LeaseRecord → Pool → Acquired
renew outcome client_id group_id previous p =
    let replacement = record previous { generation = p.next_generation; active = true } in
    after_renewal client_id group_id previous replacement (lookup client_id p.groups) (
      persist_state_locked outcome
        (record p { by_client = insert client_id replacement p.by_client }))

-- `while let Some(address) = candidate`. The fuel is the distance to the broadcast address.
pub find_free : ℕ → ℕ → Pool → Option ℕ
find_free zero candidate p = none
find_free (suc fuel) candidate p =
    let later = find_free fuel (suc candidate) p in
    elim (lookup candidate p.by_address) [ none ↦ some candidate | some _ ↦ later ]

-- After the write of a new client's record.
abbrev pub after_allocation : Bytes → Bytes → LeaseRecord → Done → Acquired
after_allocation client_id group_id r (ok _, p) =
    (ok (lease p client_id r), activate_group client_id group_id r.generation p)
after_allocation client_id group_id r (err (durability code), p) =
    (err (durability code), abandon_committed_lease client_id p)
after_allocation client_id group_id r (err e, p) = (
  err e,
  record p { by_client = remove client_id p.by_client; by_address = remove r.address p.by_address },
)

abbrev pub allocate_at : Outcome → Bytes → Bytes → Option ℕ → Pool → Acquired
allocate_at outcome client_id group_id none p = (err exhausted, p)
allocate_at outcome client_id group_id (some address) p =
    let r : LeaseRecord = record {
      address = address;
      generation = p.next_generation;
      active = true;
    } in
    after_allocation client_id group_id r (
      persist_state_locked outcome (record p {
        by_client = insert client_id r p.by_client;
        by_address = insert address client_id p.by_address;
      }))

-- The candidates go from the address after the gateway up to the broadcast address.
pub allocate : Outcome → Bytes → Bytes → Pool → Acquired
unfolding find_free
allocate outcome client_id group_id p =
    allocate_at outcome client_id group_id
      (find_free (broadcast p - suc p.gateway) (suc p.gateway) p) p

abbrev pub renew_or_allocate : Outcome → Bytes → Bytes → Option LeaseRecord → Pool → Acquired
renew_or_allocate outcome client_id group_id none p = allocate outcome client_id group_id p
renew_or_allocate outcome client_id group_id (some previous) p =
    renew outcome client_id group_id previous p

-- The generation is a `u64` and the count of references a 64-bit `usize`: `+= 1` wraps in a release build.
abbrev pub join_or_acquire :
    Outcome → Bytes → Bytes → Option (ActiveLeaseGroup × LeaseRecord) → Pool → Acquired
join_or_acquire outcome client_id group_id (some (g, r)) p = (
  ok (lease p client_id r),
  record p {
    groups = insert client_id (record g { references = (g.references + 1) % 2 ^ 64 }) p.groups;
  },
)
join_or_acquire outcome client_id group_id none p =
    renew_or_allocate outcome client_id group_id (lookup client_id p.by_client)
      (record p { next_generation = (p.next_generation + 1) % 2 ^ 64 })

-- `acquire_inner_with_sync`; `acquire` passes the empty group.
pub acquire_inner : Outcome → Bytes → Bytes → Pool → Acquired
acquire_inner outcome client_id group_id p =
    if not (valid_client_id client_id)
    then (err invalid, p)
    else join_or_acquire outcome client_id group_id
        (joined group_id (lookup client_id p.groups) (lookup client_id p.by_client)) p

pub acquire_group : Outcome → Bytes → Bytes → Pool → Acquired
acquire_group outcome client_id group_id p =
    if is_empty group_id then (err invalid, p) else acquire_inner outcome client_id group_id p

abbrev pub put_away : Lease → LeaseRecord → Pool → Pool
put_away l r p = record p {
  by_client = insert l.client_id (record r { active = false }) p.by_client;
}

abbrev pub release_record : Lease → LeaseRecord → Option ActiveLeaseGroup → Pool → Pool
release_record l r none p = put_away l r p
release_record l r (some g) p =
    if g.generation == l.generation
    then (if ltb 1 g.references
        then record p {
          groups = insert l.client_id (record g { references = g.references - 1 }) p.groups;
        }
        else put_away l r (record p { groups = remove l.client_id p.groups }))
    else put_away l r p

abbrev pub release_known : Lease → Option LeaseRecord → Pool → Pool
release_known l none p = p
release_known l (some r) p =
    if not (r.generation == l.generation)
    then p
    else release_record l r (lookup l.client_id p.groups) p

pub release : Lease → Pool → Pool
release l p = release_known l (lookup l.client_id p.by_client) p

-- `register_lease` runs its callback exactly if this is true.
pub is_current : Lease → Pool → Bool
is_current l p = elim (lookup l.client_id p.by_client) [
  | none ↦ false
  | some r ↦ r.active && r.generation == l.generation
]
