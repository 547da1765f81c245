-- ===== src/State/Pool/Restore/Tests.antt =====
-- A pool of 10.0.0.0/29, as numbers, that loads a file with one lease.
use porta.Prelude.{◌≡◌, refl, false, some, [], ◌∷◌}
use porta.Prelude.Except.{ok}
use porta.Prelude.Map.{lookup, nat_eq, list_eq}
use porta.Wire.Bytes.{Bytes}
use porta.State.Pool.{Pool, PoolState, LeaseRecord, valid_client_id}
use porta.State.Pool.Disk.{stored_form}
use porta.State.Pool.Invariant.{IsValid}
use porta.State.Pool.Restore.{load_state, restore_all, restore_lease}
use porta.State.Pool.Restore.Agreement.{load_state_restores, new_pool}

abbrev bob : Bytes
bob = b'b' ∷ []

abbrev bob_file : PoolState
bob_file = record {
  version = 2;
  leases = (bob, record { address = some 0x0a000002; generation = 1 }) ∷ [];
  pool = some (some (0x0a000000, 29));
}

abbrev restarted : Pool
restarted = record (new_pool 0x0a000000 29 (some bob_file)) {
  by_client = (bob, record { address = 0x0a000002; generation = 1; active = false }) ∷ [];
  by_address = (0x0a000002, bob) ∷ [];
  next_generation = 1;
}

restarts : load_state (ok (some bob_file)) (new_pool 0x0a000000 29 (some bob_file)) ≡ ok restarted
unfolding load_state restore_all restore_lease valid_client_id
restarts = refl

load_state_restores_example :
    IsValid restarted
    × ((c : Bytes) → lookup c bob_file.leases ≡ stored_form (lookup c restarted.by_client))
    × ((c : Bytes) (r : LeaseRecord) → lookup c restarted.by_client ≡ some r → r.active ≡ false)
load_state_restores_example =
    load_state_restores bob_file 0x0a000000 29 restarted (refl, refl, tt) restarts
