-- ===== src/State/Pool/Restore.antt =====
-- The loading of the pool's file: `load_state` and `restore_lease` of pool.rs.
pub mod Agreement
mod Tests
use porta.Prelude.{
  ℕ, ◌+◌, ◌-◌, ◌/◌, ◌^◌, max, Bool, true, false, not, ◌&&◌, ◌||◌, Option, none, some, List, [], ◌∷◌,
  ◌==◌, leb, if◌then◌else◌,
}
use porta.Prelude.Except.{Except, ok, err, ◌>>=◌, ◌>>◌, reject_if}
use porta.Prelude.Map.{lookup, insert, nat_eq, list_eq}
use porta.Wire.Bytes.{Bytes}
use porta.State.Pool.{
  Pool, PoolState, PersistedLease, LeaseRecord, PoolError, invalid, valid_client_id, broadcast,
  state_version,
}

-- `prefix.contains`: the address has the bits of the network.
abbrev pub in_prefix : ℕ → Pool → Bool
in_prefix address p = address / 2 ^ (32 - p.prefix_len) == p.network / 2 ^ (32 - p.prefix_len)

abbrev pub is_owned : Option Bytes → Bool
is_owned none = false
is_owned (some _) = true

abbrev pub restored : Bytes → ℕ → ℕ → Pool → Pool
restored client_id address generation p = record p {
  by_client =
      insert client_id (record { address = address; generation = generation; active = false })
        p.by_client;
  by_address = insert address client_id p.by_address;
}

abbrev pub restore_at : Bytes → ℕ → Option ℕ → Pool → Except PoolError Pool
restore_at client_id generation none p = err invalid
restore_at client_id generation (some address) p =
    if not (in_prefix address p) || leb address p.gateway || leb (broadcast p) address
    then err invalid
    else if is_owned (lookup address p.by_address)
    then err invalid
    else ok (restored client_id address generation p)

pub restore_lease : Bytes → Option ℕ → ℕ → Pool → Except PoolError Pool
restore_lease client_id value generation p =
    if not (valid_client_id client_id) then err invalid else restore_at client_id generation value p

abbrev pub dated : ℕ → Pool → Except PoolError Pool
dated generation p = ok (record p { next_generation = max p.next_generation generation })

-- The loop over the leases, which the source keeps in a `BTreeMap`.
pub restore_all : List (Bytes × PersistedLease) → Pool → Except PoolError Pool
restore_all [] p = ok p
restore_all ((client_id, l) ∷ rest) p = if l.generation == 0 then err invalid else do
  q ← restore_lease client_id l.address l.generation p
  r ← dated l.generation q
  restore_all rest r

abbrev pub fits_pool : Option (Option (ℕ × ℕ)) → Pool → Bool
fits_pool none p = true
fits_pool (some none) p = false
fits_pool (some (some (network, prefix_len))) p = network == p.network && prefix_len == p.prefix_len

-- What is read and decoded: an error, no file, or its state.
pub load_state : Except PoolError (Option PoolState) → Pool → Except PoolError Pool
unfolding restore_all
load_state (err e) p = err e
load_state (ok none) p = ok p
load_state (ok (some state)) p =
    if not (state.version == state_version)
    then err invalid
    else if not (fits_pool state.pool p)
    then err invalid
    else restore_all state.leases p
