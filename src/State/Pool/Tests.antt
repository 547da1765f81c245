-- ===== src/State/Pool/Tests.antt =====
-- A pool of a /29 network: the addresses 10.0.0.2 to 10.0.0.6, as numbers.
use porta.Prelude.{◌≡◌, refl, ◌<◌, true, none, some, [], ◌∷◌, arith}
use porta.Prelude.Except.{ok}
use porta.Prelude.Map.{lookup, nat_eq, list_eq}
use porta.Wire.Bytes.{Bytes}
use porta.State.Pool.{
  Pool, Lease, LeaseRecord, stored, not_stored, unsynced, acquire_inner, release, is_current,
  broadcast, renew, allocate, valid_client_id, find_free, persist_state_locked, activate_group,
}
use porta.State.Pool.Addressed.{Addressed-empty}
use porta.State.Pool.Invariant.{IsValid}
use porta.State.Pool.Calls.{acquire, acquire_grouped, give_back, run, pool_run-IsValid}
use porta.State.Pool.Leases.{acquire_inner_grants, release_stale}
use porta.State.Pool.Refusals.{Refused, acquire_inner-Refused}

abbrev new_pool : Pool
new_pool = record {
  network = 0x0a000000;
  prefix_len = 29;
  gateway = 0x0a000001;
  persistent = true;
  by_client = [];
  by_address = [];
  groups = [];
  next_generation = 0;
  disk = none;
}

new_pool-IsValid : IsValid new_pool
new_pool-IsValid = (Addressed-empty _ _ _, λ _ _. refl)

abbrev alice : Bytes
alice = b'a' ∷ []

abbrev alice_lease : Lease
alice_lease = record {
  address = 0x0a000002;
  prefix_bits = 29;
  gateway = 0x0a000001;
  generation = 1;
  client_id = alice;
}

abbrev alice_pool : Pool
alice_pool = record new_pool {
  by_client = (alice, record { address = 0x0a000002; generation = 1; active = true }) ∷ [];
  by_address = (0x0a000002, alice) ∷ [];
  next_generation = 1;
  disk = some (record {
    version = 2;
    leases = (alice, record { address = some 0x0a000002; generation = 1 }) ∷ [];
    pool = some (some (0x0a000000, 29));
  });
}

acquires : acquire_inner stored alice [] new_pool ≡ (ok alice_lease, alice_pool)
unfolding acquire_inner allocate valid_client_id find_free persist_state_locked activate_group
acquires = refl

abbrev second_pool : Pool
second_pool = record alice_pool {
  by_client = (alice, record { address = 0x0a000002; generation = 2; active = true }) ∷ [];
  next_generation = 2;
  disk = some (record {
    version = 2;
    leases = (alice, record { address = some 0x0a000002; generation = 2 }) ∷ [];
    pool = some (some (0x0a000000, 29));
  });
}

acquires_again :
    acquire_inner stored alice [] alice_pool
    ≡ (ok (record alice_lease { generation = 2 }), second_pool)
unfolding acquire_inner renew valid_client_id persist_state_locked activate_group
acquires_again = refl

pool_run-IsValid_example : IsValid (
    run
      (acquire stored alice
        ∷ acquire (not_stored 5) alice
        ∷ give_back alice_lease
        ∷ acquire_grouped (unsynced 5) alice alice
        ∷ [])
      new_pool)
pool_run-IsValid_example =
    pool_run-IsValid
      (acquire stored alice
        ∷ acquire (not_stored 5) alice
        ∷ give_back alice_lease
        ∷ acquire_grouped (unsynced 5) alice alice
        ∷ [])
      new_pool (omega arith) new_pool-IsValid

acquire_inner_grants_example :
    (alice ≡ alice)
    × (is_current alice_lease alice_pool ≡ true)
    × (alice_pool.gateway < 0x0a000002)
    × (0x0a000002 < broadcast alice_pool)
    × ((s : LeaseRecord) → lookup alice new_pool.by_client ≡ some s → 0x0a000002 ≡ s.address)
acquire_inner_grants_example =
    acquire_inner_grants stored alice [] new_pool alice_pool alice_lease new_pool-IsValid acquires

release_stale_example : release alice_lease second_pool ≡ second_pool
release_stale_example =
    release_stale stored alice [] alice_pool second_pool (record alice_lease { generation = 2 })
      alice_lease refl acquires_again refl (omega arith) (omega arith)

acquire_inner-Refused_example :
    Refused alice alice_pool (acquire_inner (not_stored 5) alice [] alice_pool)
acquire_inner-Refused_example = acquire_inner-Refused (not_stored 5) alice [] alice_pool
