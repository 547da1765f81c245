-- ===== src/Data/Router/Lanes/Least.antt =====
-- The loop of router.rs that finds the data lane with the fewest bytes in its queue.
use porta.Prelude.{
  ℕ, zero, suc, ◌+◌, ◌-◌, ◌%◌, ◌^◌, ◌≤◌, ◌<◌, ◌≡◌, refl, ap, subst, ◌∙◌, inl, inr, ◌⊎◌, Option,
  none, some, arith, ◌==◌, ltb, leb, Bool-cases, Option-cases,
}
use native.Mathlib.Nat.{mod-lt, mod-eq_of_lt, mod-eq-sub-mod}
use porta.Prelude.Map.{nat_eq}
use porta.Data.Router.{Session, SessionGroup}
use porta.Data.Router.Lanes.{Store, live, least_lane}

abbrev pub max_bytes : ℕ
max_bytes = 2 ^ 64 - 1

abbrev pub lane_at : ℕ → ℕ → ℕ → ℕ
lane_at n start offset = 1 + (start + offset) % n

-- From any start, the offsets reach every data lane.
pub lane_at_onto :
    (n start lane : ℕ)
    → start < n
    → 1 ≤ lane
    → lane ≤ n
    → (offset : ℕ) × (offset < n) × (lane_at n start offset ≡ lane)
lane_at_onto n start lane s a b = elim (Bool-cases (leb (suc start) lane)) [
  | inl t ↦
      let here : start + (lane - 1 - start) ≡ lane - 1 = ground arith in
      (
        lane - 1 - start,
        ground arith,
        ap (λ k. 1 + k % n) here
            ∙ (ap (λ k. 1 + k) (mod-eq_of_lt {n = lane - 1} {m = n} (omega arith)) ∙ omega arith),
      )
  | inr f ↦
      let here : start + (lane - 1 + n - start) ≡ lane - 1 + n = ground arith in
      let back : lane - 1 + n - n ≡ lane - 1 = omega arith in
      (
        lane - 1 + n - start,
        ground arith,
        ap (λ k. 1 + k % n) here
            ∙ (ap (λ k. 1 + k) (mod-eq-sub-mod {n = lane - 1 + n} {m = n} (omega arith))
                ∙ (ap (λ k. 1 + k % n) back
                    ∙ (ap (λ k. 1 + k) (mod-eq_of_lt {n = lane - 1} {m = n} (omega arith))
                        ∙ omega arith))),
      )
]

-- What the loop over the data lanes knows after some offsets.
pub record IsLeast (store : Store) (group : SessionGroup) (n start offset : ℕ) (selected : Option ℕ)
    (bytes : ℕ) : Type 0 where
  pub unset : selected ≡ none → bytes ≡ max_bytes
  pub chosen :
      (lane : ℕ)
      → selected ≡ some lane
      → (1 ≤ lane)
        × (lane ≤ n)
        × (found : ℕ × Session) × (live store group lane ≡ some found)
        × (found.1.queue.queued_bytes ≡ bytes)
  pub least :
      (o : ℕ) (found : ℕ × Session)
      → o < offset
      → live store group (lane_at n start o) ≡ some found
      → bytes ≤ found.1.queue.queued_bytes
  pub empty : selected ≡ none → (o : ℕ) → o < offset → live store group (lane_at n start o) ≡ none

abbrev pub IsSmall : Store → SessionGroup → Type 0
IsSmall store group =
    (lane : ℕ) (found : ℕ × Session)
    → live store group lane ≡ some found
    → found.1.queue.queued_bytes < max_bytes

below_suc : (o offset : ℕ) → o < suc offset → (o < offset) ⊎ (o ≡ offset)
below_suc o offset h = elim (Bool-cases (o == offset)) [
  | inl t ↦ inr (ground (arith, t))
  | inr f ↦ inl (ground (arith, f, h))
]

pub least_lane-IsLeast :
    (store : Store) (group : SessionGroup) (n start offset left : ℕ) (selected : Option ℕ)
    (bytes : ℕ)
    → 0 < n
    → IsSmall store group
    → IsLeast store group n start offset selected bytes
    → (least : ℕ) × IsLeast store group n start
        (offset + left)
        (least_lane store group n start offset left selected bytes)
        least
unfolding least_lane
least_lane-IsLeast store group n start offset zero selected bytes p small v =
    (bytes, subst (λ k. IsLeast store group n start k selected bytes) (omega arith) v)
least_lane-IsLeast store group n start offset (suc left) selected bytes p small v =
    let lane = lane_at n start offset in
    let more : suc offset + left ≡ offset + suc left = omega arith in
    elim (Option-cases (live store group lane)) [
      | inl e ↦
          let next : IsLeast store group n start (suc offset) selected bytes = record {
            unset = v.unset;
            chosen = v.chosen;
            least = λ o found h k. elim (below_suc o offset h) [
              | inl b ↦ v.least o found b k
              | inr b ↦ absurd (cc (k, ap (λ i. live store group (lane_at n start i)) b, e))
            ];
            empty = λ s o h. elim (below_suc o offset h) [
              | inl b ↦ v.empty s o b
              | inr b ↦ ap (λ i. live store group (lane_at n start i)) b ∙ e
            ];
          } in
          rw (least_lane, e)
            (subst
              (λ k.
                (least : ℕ) × IsLeast store group n start k
                  (least_lane store group n start (suc offset) left selected bytes) least)
              more
              (least_lane-IsLeast store group n start (suc offset) left selected bytes p small
                next))
      | inr (f, e) ↦
          let queued = f.1.queue.queued_bytes in
          elim (Bool-cases (ltb queued bytes)) [
            | inl t ↦
                let lower : queued < bytes = ground (arith, t) in
                let next : IsLeast store group n start (suc offset) (some lane) queued = record {
                  unset = λ h. cc;
                  chosen = λ l h.
                      let same : lane ≡ l = cc h in
                      subst
                        (λ k.
                          (1 ≤ k)
                          × (k ≤ n)
                          × (found : ℕ × Session) × (live store group k ≡ some found)
                          × (found.1.queue.queued_bytes ≡ queued))
                        same
                        (omega arith, omega (arith, mod-lt (start + offset) {m = n} p), f, e, refl);
                  least = λ o found h k. elim (below_suc o offset h) [
                    | inl b ↦ omega (arith, v.least o found b k, lower)
                    | inr b ↦
                        let same : found ≡ f =
                          cc (k, ap (λ i. live store group (lane_at n start i)) b, e) in
                        omega (arith, ap (λ (x : ℕ × Session). x.1.queue.queued_bytes) same)
                  ];
                  empty = λ h. cc;
                } in
                rw (least_lane, e, t)
                  (subst
                    (λ k.
                      (least : ℕ) × IsLeast store group n start k
                        (least_lane store group n start (suc offset) left (some lane) queued) least)
                    more
                    (least_lane-IsLeast store group n start (suc offset) left (some lane) queued p
                      small next))
            | inr t ↦
                let higher : bytes ≤ queued = ground (arith, t) in
                let next : IsLeast store group n start (suc offset) selected bytes = record {
                  unset = v.unset;
                  chosen = v.chosen;
                  least = λ o found h k. elim (below_suc o offset h) [
                    | inl b ↦ v.least o found b k
                    | inr b ↦
                        let same : found ≡ f =
                          cc (k, ap (λ i. live store group (lane_at n start i)) b, e) in
                        omega (arith, ap (λ (x : ℕ × Session). x.1.queue.queued_bytes) same, higher)
                  ];
                  empty = λ h o b. absurd (omega (arith, v.unset h, higher, small lane f e));
                } in
                rw (least_lane, e, t)
                  (subst
                    (λ k.
                      (least : ℕ) × IsLeast store group n start k
                        (least_lane store group n start (suc offset) left selected bytes) least)
                    more
                    (least_lane-IsLeast store group n start (suc offset) left selected bytes p small
                      next))
          ]
    ]
