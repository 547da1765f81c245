-- ===== src/Ops/Admission/Operations.antt =====
-- The effect of each atomic operation of the admission.
use porta.Prelude.{
  ℕ, suc, ◌≤◌, ◌≡◌, refl, inl, inr, Bool, true, false, Option, none, some, List, arith, ◌==◌, leb,
  leb→lt, if_cases,
}
use porta.Prelude.Map.{insert, list_eq, nat_eq}
use porta.Wire.Bytes.{Bytes}
use porta.Ops.Admission.{
  Transport, tcp, quic, Phase, fresh, counted, over_global, over_unverified, lowering, permit,
  dropping, marking, dropping_source, rejected, gone, source, global, unverified, Admission,
  with_active, sources, with_sources, normalize_address, count_of, release_source, claim,
  count_unverified, lower, lower_unverified, release, advance, drop_permit, mark_verified,
}
use porta.Ops.Admission.Weights.{one, same, holds, within, waits, waits_within}
use porta.Ops.Admission.Effects.{Effect, effect, moves, stays}

raise-Effect :
    (t : Transport) (address : Bytes) (verified : Bool) (s : Admission)
    → Effect (fresh t address verified) s (advance (fresh t address verified) s)
unfolding advance
raise-Effect tcp address verified s =
    if_cases {A = Phase × Admission} (Effect (fresh tcp address verified) s)
      (leb s.max_global s.active_tcp) _ _
      (λ h.
        effect (fresh tcp address verified) s
          (over_global tcp, with_active tcp (suc s.active_tcp) s) (refl, refl, refl)
          (λ _. omega arith, λ _. refl) (inl (omega arith), inl (omega arith)) (λ _. refl)
          (inl (omega arith)))
      (λ h.
        effect (fresh tcp address verified) s
          (counted tcp address verified, with_active tcp (suc s.active_tcp) s) (refl, refl, refl)
          (λ _. omega arith, λ _. refl)
          (inr (leb→lt s.max_global s.active_tcp h, omega arith), inl (omega arith)) (λ _. refl)
          (inl (omega arith)))
raise-Effect quic address verified s =
    if_cases {A = Phase × Admission} (Effect (fresh quic address verified) s)
      (leb s.max_global s.active_quic) _ _
      (λ h.
        effect (fresh quic address verified) s
          (over_global quic, with_active quic (suc s.active_quic) s) (refl, refl, refl)
          (λ _. refl, λ _. omega arith) (inl (omega arith), inl (omega arith)) (λ _. refl)
          (inl (omega arith)))
      (λ h.
        effect (fresh quic address verified) s
          (counted quic address verified, with_active quic (suc s.active_quic) s) (refl, refl, refl)
          (λ _. refl, λ _. omega arith)
          (inl (omega arith), inr (leb→lt s.max_global s.active_quic h, omega arith)) (λ _. refl)
          (inl (omega arith)))

lower-Effect :
    (t : Transport) (p q : Phase) (s : Admission)
    → ((u : Transport) → holds u p ≡ one (same u t))
    → ((u : Transport) → (holds u q ≡ 0) × (within u q ≡ 0))
    → waits q ≡ waits p
    → waits_within q ≤ waits_within p
    → Effect p s (q, lower t s)
lower-Effect tcp p q s h z w ad =
    effect p s (q, lower tcp s) (refl, refl, refl)
      (λ k. omega (arith, h tcp, (z tcp).0, k), λ k. omega (arith, h quic, (z quic).0))
      (inl (omega (arith, (z tcp).1)), inl (omega (arith, (z quic).1))) (λ _. omega (arith, w))
      (inl ad)
lower-Effect quic p q s h z w ad =
    effect p s (q, lower quic s) (refl, refl, refl)
      (λ k. omega (arith, h tcp, (z tcp).0), λ k. omega (arith, h quic, (z quic).0, k))
      (inl (omega (arith, (z tcp).1)), inl (omega (arith, (z quic).1))) (λ _. omega (arith, w))
      (inl ad)

-- An operation that lowers the counter of unverified connections.
wait-Effect :
    (p q : Phase) (s : Admission)
    → (holds tcp q ≡ holds tcp p) × (holds quic q ≡ holds quic p) × (waits p ≡ suc (waits q))
    → (within tcp q ≤ within tcp p)
      × (within quic q ≤ within quic p)
      × (waits_within q ≤ waits_within p)
    → Effect p s (q, lower_unverified s)
wait-Effect p q s (ht, hq, w) (pt, pq, ad) =
    effect p s (q, lower_unverified s) (refl, refl, refl)
      (λ _. omega (arith, ht), λ _. omega (arith, hq)) (inl pt, inl pq) (λ k. omega (arith, w, k))
      (inl ad)

with_sources-moves :
    (t : Transport) (p q : Phase) (m : List (Bytes × ℕ)) (s : Admission)
    → (holds tcp q ≡ holds tcp p) × (holds quic q ≡ holds quic p) × (waits q ≡ waits p)
    → (within tcp q ≤ within tcp p)
      × (within quic q ≤ within quic p)
      × (waits_within q ≤ waits_within p)
    → Effect p s (q, with_sources t m s)
with_sources-moves tcp p q m s h w =
    moves p q s (with_sources tcp m s) (refl, refl, refl) (refl, refl, refl) h w
with_sources-moves quic p q m s h w =
    moves p q s (with_sources quic m s) (refl, refl, refl) (refl, refl, refl) h w

claim-Effect :
    (t : Transport) (address : Bytes) (p granted refused : Phase) (s : Admission)
    → (holds tcp granted ≡ holds tcp p)
      × (holds quic granted ≡ holds quic p)
      × (waits granted ≡ waits p)
    → (within tcp granted ≤ within tcp p)
      × (within quic granted ≤ within quic p)
      × (waits_within granted ≤ waits_within p)
    → (holds tcp refused ≡ holds tcp p)
      × (holds quic refused ≡ holds quic p)
      × (waits refused ≡ waits p)
    → (within tcp refused ≤ within tcp p)
      × (within quic refused ≤ within quic p)
      × (waits_within refused ≤ waits_within p)
    → Effect p s (claim t address granted refused s)
claim-Effect t address p granted refused s a b c d =
    if_cases {A = Phase × Admission} (Effect p s) (s.max_per_source == 0) _ _
      (λ _. moves p granted s s (refl, refl, refl) (refl, refl, refl) a b)
      (λ _.
        if_cases {A = Phase × Admission} (Effect p s)
          (leb s.max_per_source (count_of address (sources t s))) _ _
          (λ _. moves p refused s s (refl, refl, refl) (refl, refl, refl) c d)
          (λ _.
            with_sources-moves t p granted
              (insert address (suc (count_of address (sources t s))) (sources t s)) s a b))

unverified-Effect :
    (address : Bytes) (s : Admission) → Effect (counted quic address false) s (count_unverified s)
unverified-Effect address s =
    if_cases {A = Phase × Admission} (Effect (counted quic address false) s)
      (leb s.max_unverified s.unverified_quic) _ _
      (λ h.
        effect (counted quic address false) s
          (over_unverified, record s { unverified_quic = suc s.unverified_quic }) (refl, refl, refl)
          (λ _. refl, λ _. refl) (inl (omega arith), inl (omega arith)) (λ _. omega arith)
          (inl (omega arith)))
      (λ h.
        effect (counted quic address false) s
          (permit quic none false, record s { unverified_quic = suc s.unverified_quic })
          (refl, refl, refl) (λ _. refl, λ _. refl) (inl (omega arith), inl (omega arith))
          (λ _. omega arith) (inr (leb→lt s.max_unverified s.unverified_quic h, omega arith)))

release-Effect :
    (t : Transport) (held : Option Bytes) (s : Admission)
    → Effect (dropping_source t held) s (gone, release t held s)
release-Effect t none s =
    moves (dropping_source t none) gone s s (refl, refl, refl) (refl, refl, refl) (refl, refl, refl)
      (omega arith, omega arith, omega arith)
release-Effect t (some address) s =
    with_sources-moves t (dropping_source t (some address)) gone
      (release_source address (sources t s)) s (refl, refl, refl)
      (omega arith, omega arith, omega arith)

pub advance-Effect : (p : Phase) (s : Admission) → Effect p s (advance p s)
unfolding advance
advance-Effect (fresh t address verified) s = raise-Effect t address verified s
advance-Effect (over_global t) s =
    lower-Effect t (over_global t) (rejected global) s (λ u. refl) (λ u. (refl, refl)) refl
      (omega arith)
advance-Effect (counted tcp address true) s =
    let a = normalize_address address in
    claim-Effect tcp a (counted tcp address true) (permit tcp (some a) true) (lowering tcp source) s
      (refl, refl, refl) (omega arith, omega arith, omega arith) (refl, refl, refl)
      (omega arith, omega arith, omega arith)
advance-Effect (counted quic address true) s =
    let a = normalize_address address in
    claim-Effect quic a (counted quic address true) (permit quic (some a) true)
      (lowering quic source) s (refl, refl, refl) (omega arith, omega arith, omega arith)
      (refl, refl, refl) (omega arith, omega arith, omega arith)
advance-Effect (counted tcp address false) s =
    moves (counted tcp address false) (permit tcp none false) s s (refl, refl, refl)
      (refl, refl, refl) (refl, refl, refl) (omega arith, omega arith, omega arith)
advance-Effect (counted quic address false) s = unverified-Effect address s
advance-Effect over_unverified s =
    wait-Effect over_unverified (lowering quic unverified) s (refl, refl, refl)
      (omega arith, omega arith, omega arith)
advance-Effect (lowering t r) s =
    lower-Effect t (lowering t r) (rejected r) s (λ u. refl) (λ u. (refl, refl)) refl (omega arith)
advance-Effect (marking address) s =
    wait-Effect (marking address) (permit quic (some address) true) s (refl, refl, refl)
      (omega arith, omega arith, omega arith)
advance-Effect (dropping tcp held verified) s =
    moves (dropping tcp held verified) (dropping_source tcp held) s s (refl, refl, refl)
      (refl, refl, refl) (refl, refl, refl) (omega arith, omega arith, omega arith)
advance-Effect (dropping quic held true) s =
    moves (dropping quic held true) (dropping_source quic held) s s (refl, refl, refl)
      (refl, refl, refl) (refl, refl, refl) (omega arith, omega arith, omega arith)
advance-Effect (dropping quic held false) s =
    wait-Effect (dropping quic held false) (dropping_source quic held) s (refl, refl, refl)
      (omega arith, omega arith, omega arith)
advance-Effect (dropping_source t held) s = release-Effect t held s
advance-Effect (permit t held verified) s = stays (permit t held verified) s
advance-Effect (rejected r) s = stays (rejected r) s
advance-Effect gone s = stays gone s

pub drop_permit-Effect : (p : Phase) (s : Admission) → Effect p s (drop_permit p s)
unfolding drop_permit
drop_permit-Effect (permit tcp held verified) s =
    lower-Effect tcp (permit tcp held verified) (dropping tcp held verified) s (λ u. refl)
      (λ u. (refl, refl)) refl (omega arith)
drop_permit-Effect (permit quic held verified) s =
    lower-Effect quic (permit quic held verified) (dropping quic held verified) s (λ u. refl)
      (λ u. (refl, refl)) refl (omega arith)
drop_permit-Effect (fresh t a v) s = stays (fresh t a v) s
drop_permit-Effect (counted t a v) s = stays (counted t a v) s
drop_permit-Effect (over_global t) s = stays (over_global t) s
drop_permit-Effect over_unverified s = stays over_unverified s
drop_permit-Effect (lowering t r) s = stays (lowering t r) s
drop_permit-Effect (dropping t h v) s = stays (dropping t h v) s
drop_permit-Effect (marking a) s = stays (marking a) s
drop_permit-Effect (dropping_source t h) s = stays (dropping_source t h) s
drop_permit-Effect (rejected r) s = stays (rejected r) s
drop_permit-Effect gone s = stays gone s

pub mark_verified-Effect :
    (remote : Bytes) (p : Phase) (s : Admission) → Effect p s (mark_verified remote p s)
unfolding mark_verified
mark_verified-Effect remote (permit quic held false) s =
    let a = normalize_address remote in
    claim-Effect quic a (permit quic held false) (marking a) (permit quic held false) s
      (refl, refl, refl) (omega arith, omega arith, omega arith) (refl, refl, refl)
      (omega arith, omega arith, omega arith)
mark_verified-Effect remote (permit quic held true) s = stays (permit quic held true) s
mark_verified-Effect remote (permit tcp held v) s = stays (permit tcp held v) s
mark_verified-Effect remote (fresh t a v) s = stays (fresh t a v) s
mark_verified-Effect remote (counted t a v) s = stays (counted t a v) s
mark_verified-Effect remote (over_global t) s = stays (over_global t) s
mark_verified-Effect remote over_unverified s = stays over_unverified s
mark_verified-Effect remote (lowering t r) s = stays (lowering t r) s
mark_verified-Effect remote (dropping t h v) s = stays (dropping t h v) s
mark_verified-Effect remote (marking a) s = stays (marking a) s
mark_verified-Effect remote (dropping_source t h) s = stays (dropping_source t h) s
mark_verified-Effect remote (rejected r) s = stays (rejected r) s
mark_verified-Effect remote gone s = stays gone s
