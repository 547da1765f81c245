-- ===== src/Ops/Admission/Bounds.antt =====
-- The bounds of the connections that are admitted, whatever the threads do.
use porta.Prelude.{
  not, ℕ, zero, suc, ◌+◌, ◌≤◌, ◌<◌, ◌≡◌, refl, ap, ◌∙◌, inl, inr, ◌⊎◌, some, List, [], ◌∷◌, ◌++◌,
  arith, get_elem?, set,
}
use porta.Ops.Admission.{
  rejected, over_unverified, gone, Transport, tcp, quic, Phase, fresh, Admission, with_limits,
  active, advance, drop_permit, mark_verified, settle, Step, arrive, advances, drops, verifies,
  Steps, start, then_step,
}
use porta.Ops.Admission.Weights.{one, same, holds, within, waits, waits_within}
use porta.Ops.Admission.Effects.{Effect, per_transport}
use porta.Ops.Admission.Operations.{advance-Effect, drop_permit-Effect, mark_verified-Effect}
use porta.Ops.Admission.Weights.{one, same, holds, within, waits, waits_within}
use porta.Ops.Admission.Effects.{Effect, per_transport}
use porta.Ops.Admission.Operations.{advance-Effect, drop_permit-Effect, mark_verified-Effect}
use porta.Ops.Admission.{counted}
use porta.Ops.Admission.{over_global}
use porta.Ops.Admission.{lowering}
use porta.Ops.Admission.{permit}
use porta.Ops.Admission.{dropping}
use porta.Ops.Admission.{marking}
use porta.Ops.Admission.{dropping_source}
use porta.Ops.Admission.{rejected}

-- What the threads hold together.
abbrev pub sum : (Phase → ℕ) → List Phase → ℕ
sum f [] = 0
sum f (p ∷ ps) = f p + sum f ps

sum-set :
    (f : Phase → ℕ) (ps : List Phase) (i : ℕ) (p q : Phase)
    → get_elem? ps i ≡ some p
    → (sum f (set ps i q) + f p ≡ sum f ps + f q) × (f p ≤ sum f ps)
sum-set f [] i p q h = cc
sum-set f (x ∷ ps) zero p q h =
    let here : x ≡ p = cc h in (omega (arith, ap f here), omega (arith, ap f here))
sum-set f (x ∷ ps) (suc i) p q h =
    let (a, b) = sum-set f ps i p q h in (omega (arith, a), omega (arith, b))

sum-snoc : (f : Phase → ℕ) (ps : List Phase) (p : Phase) → sum f (ps ++ p ∷ []) ≡ sum f ps + f p
sum-snoc f [] p = omega arith
sum-snoc f (x ∷ ps) p = omega (arith, sum-snoc f ps p)

within-holds : (t : Transport) (p : Phase) → within t p ≤ holds t p
within-holds t (fresh u a v) = omega arith
within-holds t (counted u a v) = omega arith
within-holds t (over_global u) = omega arith
within-holds t over_unverified = omega arith
within-holds t (lowering u r) = omega arith
within-holds t (permit u h v) = omega arith
within-holds t (dropping u h v) = omega arith
within-holds t (marking a) = omega arith
within-holds t (dropping_source u h) = omega arith
within-holds t (rejected r) = omega arith
within-holds t gone = omega arith

waits_within-waits : (p : Phase) → waits_within p ≤ waits p
waits_within-waits (fresh u a v) = omega arith
waits_within-waits (counted u a v) = omega arith
waits_within-waits (over_global u) = omega arith
waits_within-waits over_unverified = omega arith
waits_within-waits (lowering u r) = omega arith
waits_within-waits (permit tcp h v) = omega arith
waits_within-waits (permit quic h v) = omega arith
waits_within-waits (dropping tcp h v) = omega arith
waits_within-waits (dropping quic h v) = omega arith
waits_within-waits (marking a) = omega arith
waits_within-waits (dropping_source u h) = omega arith
waits_within-waits (rejected r) = omega arith
waits_within-waits gone = omega arith

sum-le : (f g : Phase → ℕ) (ps : List Phase) → ((p : Phase) → f p ≤ g p) → sum f ps ≤ sum g ps
sum-le f g [] h = omega arith
sum-le f g (p ∷ ps) h = omega (arith, h p, sum-le f g ps h)

-- The counters are what the threads have added to them, and the connections within the limits are.
pub record IsAdmission (max_global max_unverified : ℕ) (s : Admission) : Type 0 where
  pub fixed : (s.max_global ≡ max_global) × (s.max_unverified ≡ max_unverified)
  pub counted : (t : Transport) → active t s ≡ sum (holds t) s.threads
  pub limited : (t : Transport) → sum (within t) s.threads ≤ s.max_global
  pub waiting : s.unverified_quic ≡ sum waits s.threads
  pub waiting_limited : sum waits_within s.threads ≤ s.max_unverified

-- A sum that may rise by one does so only below a counter that is below the limit.
limit_lem :
    (f g : Phase → ℕ) (ps : List Phase) (i : ℕ) (p q : Phase) (counter limit : ℕ)
    → get_elem? ps i ≡ some p
    → ((p : Phase) → f p ≤ g p)
    → counter ≡ sum g ps
    → sum f ps ≤ limit
    → (f q ≤ f p) ⊎ ((counter < limit) × (f q ≤ suc (f p)))
    → sum f (set ps i q) ≤ limit
limit_lem f g ps i p q counter limit at le c l (inl h) =
    omega (arith, (sum-set f ps i p q at).0, l, h)
limit_lem f g ps i p q counter limit at le c l (inr (below, h)) =
    omega (arith, (sum-set f ps i p q at).0, sum-le f g ps le, c, below, h)

settle-IsAdmission :
    (g w : ℕ) (s : Admission) (i : ℕ) (p : Phase) (r : Phase × Admission)
    → get_elem? s.threads i ≡ some p
    → Effect p s r
    → IsAdmission g w s
    → IsAdmission g w (settle i r)
settle-IsAdmission g w s i p r at e v =
    let threads : set r.1.threads i r.0 ≡ set s.threads i r.0 =
      ap (λ (ps : List Phase). set ps i r.0) e.same_threads in
    let change : (f : Phase → ℕ)
        → (sum f (set r.1.threads i r.0) + f p ≡ sum f s.threads + f r.0)
          × (f p ≤ sum f s.threads) =
      λ f.
        let (a, b) = sum-set f s.threads i p r.0 at in
        (ap (λ (ps : List Phase). sum f ps + f p) threads ∙ a, b) in
    let tally : (t : Transport) → active t r.1 ≡ sum (holds t) (set r.1.threads i r.0) = λ t.
      let (a, b) = change (holds t) in
      omega (arith, e.held t (omega (arith, b, v.counted t)), a, v.counted t) in
    let most : (t : Transport) → sum (within t) (set r.1.threads i r.0) ≤ r.1.max_global = λ t.
      let kept =
        limit_lem (within t) (holds t) s.threads i p r.0 (active t s) s.max_global at
          (within-holds t) (v.counted t) (v.limited t) (e.passed t) in
      omega (arith, kept, ap (sum (within t)) threads, e.same_global) in
    let kept =
      limit_lem waits_within waits s.threads i p r.0 s.unverified_quic s.max_unverified at
        waits_within-waits v.waiting v.waiting_limited e.admitted in
    let (a, b) = change waits in
    record {
      fixed = (e.same_global ∙ v.fixed.0, e.same_unverified ∙ v.fixed.1);
      counted =
          per_transport (λ t. active t (settle i r) ≡ sum (holds t) (set r.1.threads i r.0))
            (tally tcp) (tally quic);
      limited = most;
      waiting = omega (arith, e.waiting (omega (arith, b, v.waiting)), a, v.waiting);
      waiting_limited = omega (arith, kept, ap (sum waits_within) threads, e.same_unverified);
    }

step-IsAdmission : (g w : ℕ) (s u : Admission) → Step s u → IsAdmission g w s → IsAdmission g w u
step-IsAdmission g w s u (arrive t address verified) v =
    let added : (f : Phase → ℕ)
        → sum f (s.threads ++ fresh t address verified ∷ [])
          ≡ sum f s.threads + f (fresh t address verified) =
      λ f. sum-snoc f s.threads (fresh t address verified) in
    record {
      fixed = v.fixed;
      counted =
          per_transport
            (λ k.
              active k (record s { threads = s.threads ++ fresh t address verified ∷ [] })
              ≡ sum (holds k) (s.threads ++ fresh t address verified ∷ []))
            (omega (arith, v.counted tcp, added (holds tcp)))
            (omega (arith, v.counted quic, added (holds quic)));
      limited = λ k. omega (arith, v.limited k, added (within k));
      waiting = omega (arith, v.waiting, added waits);
      waiting_limited = omega (arith, v.waiting_limited, added waits_within);
    }
step-IsAdmission g w s u (advances i p at) v =
    settle-IsAdmission g w s i p (advance p s) at (advance-Effect p s) v
step-IsAdmission g w s u (drops i p at) v =
    settle-IsAdmission g w s i p (drop_permit p s) at (drop_permit-Effect p s) v
step-IsAdmission g w s u (verifies i p remote at) v =
    settle-IsAdmission g w s i p (mark_verified remote p s) at (mark_verified-Effect remote p s) v

Steps-IsAdmission : (g w : ℕ) (s u : Admission) → Steps s u → IsAdmission g w s → IsAdmission g w u
Steps-IsAdmission g w s u start v = v
Steps-IsAdmission g w s u (then_step m n steps step) v =
    step-IsAdmission g w m u step (Steps-IsAdmission g w s m steps v)

-- The permits of a transport, and those of QUIC connections that are not verified.
abbrev pub permits : Transport → Phase → ℕ
permits t p = elim p [ permit u held verified ↦ one (same t u) | _ ↦ 0 ]

abbrev pub unverified_permits : Phase → ℕ
unverified_permits p = elim p [
  | permit u held verified ↦ elim u [ tcp ↦ 0 | quic ↦ one (not verified) ]
  | _ ↦ 0
]

permits-within : (t : Transport) (p : Phase) → permits t p ≤ within t p
permits-within t (fresh u a v) = omega arith
permits-within t (counted u a v) = omega arith
permits-within t (over_global u) = omega arith
permits-within t over_unverified = omega arith
permits-within t (lowering u r) = omega arith
permits-within t (permit u h v) = omega arith
permits-within t (dropping u h v) = omega arith
permits-within t (marking a) = omega arith
permits-within t (dropping_source u h) = omega arith
permits-within t (rejected r) = omega arith
permits-within t gone = omega arith

permits-waits : (p : Phase) → unverified_permits p ≤ waits_within p
permits-waits (fresh u a v) = omega arith
permits-waits (counted u a v) = omega arith
permits-waits (over_global u) = omega arith
permits-waits over_unverified = omega arith
permits-waits (lowering u r) = omega arith
permits-waits (permit tcp h v) = omega arith
permits-waits (permit quic h v) = omega arith
permits-waits (dropping tcp h v) = omega arith
permits-waits (dropping quic h v) = omega arith
permits-waits (marking a) = omega arith
permits-waits (dropping_source u h) = omega arith
permits-waits (rejected r) = omega arith
permits-waits gone = omega arith

-- From a new admission, whatever atomic operations its threads take in whatever order, each counter is what
-- the threads have added to it, the permits of a transport are at most the global limit, and the permits of
-- QUIC connections that are not verified are at most theirs.
pub admission_bounds :
    (max_global max_per_source max_unverified : ℕ) (s : Admission)
    → Steps (with_limits max_global max_per_source max_unverified) s
    → IsAdmission max_global max_unverified s
      × ((t : Transport) → sum (permits t) s.threads ≤ max_global)
      × (sum unverified_permits s.threads ≤ max_unverified)
admission_bounds max_global max_per_source max_unverified s steps =
    let v =
      Steps-IsAdmission max_global max_unverified
        (with_limits max_global max_per_source max_unverified) s steps
        (record {
          fixed = (refl, refl);
          counted =
              per_transport
                (λ t. active t (with_limits max_global max_per_source max_unverified) ≡ 0) refl
                refl;
          limited = λ t. omega arith;
          waiting = refl;
          waiting_limited = omega arith;
        }) in
    (
      v,
      λ t. omega (
        arith,
        sum-le (permits t) (within t) s.threads (permits-within t),
        v.limited t,
        v.fixed.0,
      ),
      omega (
        arith,
        sum-le unverified_permits waits_within s.threads permits-waits,
        v.waiting_limited,
        v.fixed.1,
      ),
    )
