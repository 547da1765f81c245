-- ===== src/Ops/Admission.antt =====
-- `ConnectionAdmission` of rust/porta-server/src/ops/admission.rs: the counters of connections, which
-- threads change by atomic operations. An address is its octets. The 64 shards of a map, each under its own
-- lock, are one map: an address is always in the same shard. The calls of the metrics are left out.
pub mod Weights
pub mod Effects
pub mod Operations
pub mod Bounds
mod Tests
use porta.Prelude.{
  ℕ, zero, suc, ◌+◌, ◌-◌, Bool, true, false, not, ◌&&◌, Option, none, some, List, [], ◌∷◌, ◌++◌,
  length, take, drop, replicate, set, get_elem?, ◌≡◌, ◌==◌, ltb, leb, if◌then◌else◌,
}
use porta.Prelude.Map.{lookup, insert, remove, list_eq, list_beq, nat_eq}
use porta.Wire.Bytes.{Bytes}

pub data Rejection : Type 0 where
  global source unverified : Rejection

pub data Transport : Type 0 where
  tcp quic : Transport

-- Where a thread stands in `admit`, in `mark_verified` or in the drop of its permit, between two atomic
-- operations; a `permit` is one that a thread holds.
pub data Phase : Type 0 where
  fresh counted : Transport → Bytes → Bool → Phase
  over_global : Transport → Phase
  over_unverified : Phase
  lowering : Transport → Rejection → Phase
  permit dropping : Transport → Option Bytes → Bool → Phase
  marking : Bytes → Phase
  dropping_source : Transport → Option Bytes → Phase
  rejected : Rejection → Phase
  gone : Phase

pub record Admission : Type 0 where
  pub max_global : ℕ
  pub max_per_source : ℕ
  pub max_unverified : ℕ
  pub active_tcp : ℕ
  pub active_quic : ℕ
  pub unverified_quic : ℕ
  pub tcp_sources : List (Bytes × ℕ)
  pub quic_sources : List (Bytes × ℕ)
  pub threads : List Phase

-- `ConnectionAdmission::with_limits`.
abbrev pub with_limits : ℕ → ℕ → ℕ → Admission
with_limits max_global max_per_source max_unverified = record {
  max_global = max_global;
  max_per_source = max_per_source;
  max_unverified = max_unverified;
  active_tcp = 0;
  active_quic = 0;
  unverified_quic = 0;
  tcp_sources = [];
  quic_sources = [];
  threads = [];
}

abbrev pub active : Transport → Admission → ℕ
active tcp s = s.active_tcp
active quic s = s.active_quic

abbrev pub with_active : Transport → ℕ → Admission → Admission
with_active tcp n s = record s { active_tcp = n }
with_active quic n s = record s { active_quic = n }

abbrev pub sources : Transport → Admission → List (Bytes × ℕ)
sources tcp s = s.tcp_sources
sources quic s = s.quic_sources

abbrev pub with_sources : Transport → List (Bytes × ℕ) → Admission → Admission
with_sources tcp m s = record s { tcp_sources = m }
with_sources quic m s = record s { quic_sources = m }

-- An IPv4 address mapped into IPv6 is taken for the IPv4 address.
abbrev pub normalize_address : Bytes → Bytes
normalize_address address =
    if list_beq (take 12 address) (replicate 10 0 ++ (255 ∷ 255 ∷ []))
    then drop 12 address
    else address

-- `shard.entry(source).or_default()`, which is above zero where it is not raised.
abbrev pub count_of : Bytes → List (Bytes × ℕ) → ℕ
count_of address m = elim (lookup address m) [ none ↦ 0 | some n ↦ n ]

pub release_source : Bytes → List (Bytes × ℕ) → List (Bytes × ℕ)
release_source address m = elim (lookup address m) [
  | none ↦ m
  | some n ↦ if n - 1 == 0 then remove address m else insert address (n - 1) m
]

-- A place for the address, or `refused`, unless there is no limit for one address.
abbrev pub claim : Transport → Bytes → Phase → Phase → Admission → Phase × Admission
claim t address granted refused s =
    let n = count_of address (sources t s) in
    if s.max_per_source == 0
    then (granted, s)
    else if leb s.max_per_source n
    then (refused, s)
    else (granted, with_sources t (insert address (suc n) (sources t s)) s)

abbrev pub verify_source : Transport → Bytes → Admission → Phase × Admission
verify_source t address s =
    let a = normalize_address address in claim t a (permit t (some a) true) (lowering t source) s

abbrev pub count_unverified : Admission → Phase × Admission
count_unverified s =
    let raised = record s { unverified_quic = suc s.unverified_quic } in
    if leb s.max_unverified s.unverified_quic
    then (over_unverified, raised)
    else (permit quic none false, raised)

abbrev pub lower : Transport → Admission → Admission
lower t s = with_active t (active t s - 1) s

abbrev pub lower_unverified : Admission → Admission
lower_unverified s = record s { unverified_quic = s.unverified_quic - 1 }

abbrev pub release : Transport → Option Bytes → Admission → Admission
release t none s = s
release t (some address) s = with_sources t (release_source address (sources t s)) s

-- The next atomic operation of a thread; one that holds a permit, or is at its end, stays.
pub advance : Phase → Admission → Phase × Admission
unfolding release_source
advance (fresh t address verified) s =
    let raised = with_active t (suc (active t s)) s in
    if leb s.max_global (active t s)
    then (over_global t, raised)
    else (counted t address verified, raised)
advance (over_global t) s = (rejected global, lower t s)
advance (counted t address true) s = verify_source t address s
advance (counted tcp address false) s = (permit tcp none false, s)
advance (counted quic address false) s = count_unverified s
advance over_unverified s = (lowering quic unverified, lower_unverified s)
advance (lowering t r) s = (rejected r, lower t s)
advance (marking address) s = (permit quic (some address) true, lower_unverified s)
advance (dropping tcp held verified) s = (dropping_source tcp held, s)
advance (dropping quic held true) s = (dropping_source quic held, s)
advance (dropping quic held false) s = (dropping_source quic held, lower_unverified s)
advance (dropping_source t held) s = (gone, release t held s)
advance (permit t held verified) s = (permit t held verified, s)
advance (rejected r) s = (rejected r, s)
advance gone s = (gone, s)

-- The first operation of the drop of a permit, and of `mark_verified` on one.
pub drop_permit : Phase → Admission → Phase × Admission
drop_permit (permit t held verified) s = (dropping t held verified, lower t s)
drop_permit phase s = (phase, s)

pub mark_verified : Bytes → Phase → Admission → Phase × Admission
mark_verified remote (permit quic held false) s =
    let a = normalize_address remote in claim quic a (marking a) (permit quic held false) s
mark_verified remote phase s = (phase, s)

abbrev pub settle : ℕ → Phase × Admission → Admission
settle i (phase, s) = record s { threads = set s.threads i phase }

-- A connection arrives, or a thread takes a step, drops its permit or finds its client verified.
pub data Step (s : Admission) : Admission → Type 0 where
  arrive :
      (t : Transport) (address : Bytes) (verified : Bool)
      → Step s (record s { threads = s.threads ++ fresh t address verified ∷ [] })
  advances : (i : ℕ) (p : Phase) → get_elem? s.threads i ≡ some p → Step s (settle i (advance p s))
  drops : (i : ℕ) (p : Phase) → get_elem? s.threads i ≡ some p → Step s (settle i (drop_permit p s))
  verifies :
      (i : ℕ) (p : Phase) (remote : Bytes)
      → get_elem? s.threads i ≡ some p
      → Step s (settle i (mark_verified remote p s))

pub data Steps (s : Admission) : Admission → Type 0 where
  start : Steps s s
  then_step : (u v : Admission) → Steps s u → Step u v → Steps s v
