-- ===== src/State/Pool/Calls.antt =====
-- Sequences of calls of a pool, and what holds after every one.
use porta.Wire.Bytes.{Bytes}
use porta.State.Pool.{Pool, Outcome, Lease, acquire_inner, acquire_group, release}
use porta.State.Pool.Invariant.{IsValid}
use porta.State.Pool.Kept.{Keeps, acquire_inner-Keeps, acquire_group-Keeps, release-Keeps}
use porta.Prelude.{List, []}
use porta.State.Pool.{List, []}
use porta.Prelude.{◌∷◌}
use porta.Prelude.{◌+◌}
use porta.Prelude.{length}
use porta.Prelude.{◌<◌}
use porta.Prelude.{◌^◌}
use porta.Prelude.{arith}

-- The calls that change a pool; the write of a call ends as its outcome says.
pub data Call : Type 0 where
  acquire : Outcome → Bytes → Call
  acquire_grouped : Outcome → Bytes → Bytes → Call
  give_back : Lease → Call

pub step : Call → Pool → Pool
step (acquire o c) p = (acquire_inner o c [] p).1
step (acquire_grouped o c g) p = (acquire_group o c g p).1
step (give_back l) p = release l p

pub run : List Call → Pool → Pool
run [] p = p
run (c ∷ cs) p = run cs (step c p)

pub step-Keeps : (c : Call) (p : Pool) → IsValid p → Keeps p (step c p)
unfolding step
step-Keeps (acquire o c) p v = acquire_inner-Keeps o c [] p v
step-Keeps (acquire_grouped o c g) p v = acquire_group-Keeps o c g p v
step-Keeps (give_back l) p v = release-Keeps l p v

-- While the 64-bit count of generations, which each call raises by one at most, does not wrap: whatever the
-- calls and however their writes end, the clients' records and the owners of the addresses stay in
-- agreement, and the file holds every client's address and generation.
pub pool_run-IsValid :
    (cs : List Call) (p : Pool)
    → p.next_generation + length cs < 2 ^ 64
    → IsValid p
    → IsValid (run cs p)
unfolding run
pool_run-IsValid [] p h v = v
pool_run-IsValid (c ∷ cs) p h v =
    let (w, k) = (step-Keeps c p v).1 (omega (arith, h)) in
    pool_run-IsValid cs (step c p) (omega (arith, h, k)) w
