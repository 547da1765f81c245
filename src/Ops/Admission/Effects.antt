-- ===== src/Ops/Admission/Effects.antt =====
-- What one atomic operation does to what its thread holds.
use porta.Prelude.{suc, ◌+◌, ◌≤◌, ◌<◌, ◌≡◌, refl, inl, ◌⊎◌, arith}
use porta.Prelude.Map.{list_eq, nat_eq}
use porta.Ops.Admission.{Transport, tcp, quic, Phase, Admission, active}
use porta.Ops.Admission.Weights.{holds, within, waits, waits_within}

-- What one atomic operation does, for the thread that takes it.
pub record Effect (p : Phase) (s : Admission) (r : Phase × Admission) : Type 0 where
  pub same_threads : r.1.threads ≡ s.threads
  pub same_global : r.1.max_global ≡ s.max_global
  pub same_unverified : r.1.max_unverified ≡ s.max_unverified
  pub held :
      (t : Transport) → holds t p ≤ active t s → active t r.1 + holds t p ≡ active t s + holds t r.0
  pub passed :
      (t : Transport)
      → (within t r.0 ≤ within t p)
        ⊎ ((active t s < s.max_global) × (within t r.0 ≤ suc (within t p)))
  pub waiting :
      waits p ≤ s.unverified_quic → r.1.unverified_quic + waits p ≡ s.unverified_quic + waits r.0
  pub admitted :
      (waits_within r.0 ≤ waits_within p)
      ⊎ ((s.unverified_quic < s.max_unverified) × (waits_within r.0 ≤ suc (waits_within p)))

pub per_transport : (P : Transport → Type 0) → P tcp → P quic → (t : Transport) → P t
per_transport P a b tcp = a
per_transport P a b quic = b

-- An effect from its parts for each transport; the limits and the threads are as before.
pub effect :
    (p : Phase) (s : Admission) (r : Phase × Admission)
    → (r.1.threads ≡ s.threads)
      × (r.1.max_global ≡ s.max_global)
      × (r.1.max_unverified ≡ s.max_unverified)
    → (holds tcp p ≤ s.active_tcp → r.1.active_tcp + holds tcp p ≡ s.active_tcp + holds tcp r.0)
      × (holds quic p ≤ s.active_quic
          → r.1.active_quic + holds quic p ≡ s.active_quic + holds quic r.0)
    → ((within tcp r.0 ≤ within tcp p)
        ⊎ ((s.active_tcp < s.max_global) × (within tcp r.0 ≤ suc (within tcp p))))
      × ((within quic r.0 ≤ within quic p)
          ⊎ ((s.active_quic < s.max_global) × (within quic r.0 ≤ suc (within quic p))))
    → (waits p ≤ s.unverified_quic → r.1.unverified_quic + waits p ≡ s.unverified_quic + waits r.0)
    → ((waits_within r.0 ≤ waits_within p)
        ⊎ ((s.unverified_quic < s.max_unverified) × (waits_within r.0 ≤ suc (waits_within p))))
    → Effect p s r
effect p s r (a, b, c) (ht, hq) (pt, pq) w ad = record {
  same_threads = a;
  same_global = b;
  same_unverified = c;
  held =
      per_transport
        (λ t. holds t p ≤ active t s → active t r.1 + holds t p ≡ active t s + holds t r.0) ht hq;
  passed =
      per_transport
        (λ t.
          (within t r.0 ≤ within t p)
          ⊎ ((active t s < s.max_global) × (within t r.0 ≤ suc (within t p))))
        pt pq;
  waiting = w;
  admitted = ad;
}

-- An operation that changes no counter, to a phase that holds the same.
pub moves :
    (p q : Phase) (s u : Admission)
    → (u.threads ≡ s.threads)
      × (u.max_global ≡ s.max_global)
      × (u.max_unverified ≡ s.max_unverified)
    → (u.active_tcp ≡ s.active_tcp)
      × (u.active_quic ≡ s.active_quic)
      × (u.unverified_quic ≡ s.unverified_quic)
    → (holds tcp q ≡ holds tcp p) × (holds quic q ≡ holds quic p) × (waits q ≡ waits p)
    → (within tcp q ≤ within tcp p)
      × (within quic q ≤ within quic p)
      × (waits_within q ≤ waits_within p)
    → Effect p s (q, u)
moves p q s u fixed (x, y, z) (ht, hq, w) (pt, pq, ad) =
    effect p s (q, u) fixed (λ _. omega (arith, x, ht), λ _. omega (arith, y, hq)) (inl pt, inl pq)
      (λ _. omega (arith, z, w)) (inl ad)

pub stays : (p : Phase) (s : Admission) → Effect p s (p, s)
stays p s =
    moves p p s s (refl, refl, refl) (refl, refl, refl) (refl, refl, refl)
      (omega arith, omega arith, omega arith)
