-- ===== src/Data/Router/Lanes/Choice.antt =====
-- What the choice of a lane finds.
use porta.Prelude.{
  ℕ, zero, suc, ◌+◌, ◌-◌, ◌%◌, ◌≤◌, ◌<◌, ◌≡◌, refl, sym, ap, ◌∙◌, inl, inr, true, Option, none,
  some, arith, ◌==◌, leb, if_cases, Bool-cases, Option-cases,
}
use native.Mathlib.Nat.{mod-lt}
use porta.Prelude.Map.{lookup, nat_eq}
use porta.Wire.Bytes.{Bytes}
use porta.Data.Classify.{FlowKey}
use porta.Data.Router.{Session, SessionGroup}
use porta.Data.Router.Flows.{FlowTable, assignment, touch, assign, remove_flow}
use porta.Data.Router.Lanes.Least.{lane_at_onto, max_bytes, IsLeast, IsSmall, least_lane-IsLeast}
use porta.Data.Router.Lanes.{
  Store, live, first_live, least_lane, select_new_lane, select_data_lane, preferred_lane,
  has_no_lanes, select_lane,
}
use porta.Prelude.{leb→le}

pub live_lem :
    (store : Store) (group : SessionGroup) (lane : ℕ) (found : ℕ × Session)
    → live store group lane ≡ some found
    → (lookup lane group.lanes ≡ some found.0) × (lookup found.0 store ≡ some found.1)
unfolding live
live_lem store group lane found h = elim (Option-cases (lookup lane group.lanes)) [
  | inl e ↦ absurd (ground (arith, e, h))
  | inr (id, e) ↦ elim (Option-cases (lookup id store)) [
    | inl n ↦ absurd (ground (arith, e, n, h))
    | inr (s, n) ↦
        let same : found ≡ (id, s) = ground (arith, e, n, h) in
        (
          e ∙ ap (λ (f : ℕ × Session). some f.0) (sym same),
          ap (λ (f : ℕ × Session). lookup f.0 store) same
              ∙ (n ∙ ap (λ (f : ℕ × Session). some f.1) (sym same)),
        )
  ]
]

-- The search for a live lane finds one, or none of the lanes is live.
first_live_lem :
    (store : Store) (group : SessionGroup) (lane left : ℕ)
    → ((found : ℕ × Session)
        → first_live store group lane left ≡ some found
        → (l : ℕ) × (live store group l ≡ some found))
      × (first_live store group lane left ≡ none
          → (l : ℕ) → lane ≤ l
          → l < lane + left
          → live store group l ≡ none)
unfolding first_live
first_live_lem store group lane zero = (λ found h. cc, λ h l a b. absurd (omega arith))
first_live_lem store group lane (suc left) = elim (Option-cases (live store group lane)) [
  | inr (f, e) ↦ rw (first_live, e) (λ found h. (lane, e ∙ h), λ h. cc)
  | inl e ↦
      let (sound, complete) = first_live_lem store group (suc lane) left in
      rw (first_live, e)
        (
          sound,
          λ h l a b. elim (Bool-cases (l == lane)) [
            | inl t ↦ let same : l ≡ lane = ground (arith, t) in ap (live store group) same ∙ e
            | inr f ↦ complete h l (ground (arith, f, a)) (omega (arith, b))
          ],
        )
]

-- The flow has no live lane.
abbrev pub NotKept : Store → SessionGroup → FlowKey → Type 0
NotKept store group flow =
    (index lane : ℕ)
    → assignment flow group.flows ≡ some (index, lane)
    → live store group lane ≡ none

-- How a data packet's lane is chosen: the only lane there is; that of its flow, if it is live; or else
-- the live data lane with the fewest queued bytes, which the flow keeps; or lane 0 if no data lane is live.
pub data Chooses (store : Store) (group : SessionGroup) (flow : FlowKey) (r : ℕ × FlowTable)
    : Type 0 where
  single : group.lane_count ≤ 1 → r ≡ (0, group.flows) → Chooses store group flow r
  kept :
      (index lane : ℕ) (found : ℕ × Session)
      → 2 ≤ group.lane_count
      → assignment flow group.flows ≡ some (index, lane)
      → live store group lane ≡ some found
      → r ≡ (lane, touch index group.flows)
      → Chooses store group flow r
  moved :
      (lane : ℕ) (found : ℕ × Session)
      → 2 ≤ group.lane_count
      → NotKept store group flow
      → 1 ≤ lane
      → lane < group.lane_count
      → live store group lane ≡ some found
      → ((l : ℕ) (other : ℕ × Session)
          → 1 ≤ l
          → l < group.lane_count
          → live store group l ≡ some other
          → found.1.queue.queued_bytes ≤ other.1.queue.queued_bytes)
      → r ≡ (lane, assign flow lane group.flows)
      → Chooses store group flow r
  none_live :
      2 ≤ group.lane_count
      → NotKept store group flow
      → ((l : ℕ) → 1 ≤ l → l < group.lane_count → live store group l ≡ none)
      → r ≡ (0, remove_flow flow group.flows)
      → Chooses store group flow r

same_lane :
    (store : Store) (group : SessionGroup) (flow : FlowKey) (index lane i l : ℕ)
    → assignment flow group.flows ≡ some (index, lane)
    → live store group lane ≡ none
    → assignment flow group.flows ≡ some (i, l)
    → live store group l ≡ none
same_lane store group flow index lane i l e h k =
    let same : lane ≡ l = cc (e, k) in ap (live store group) (sym same) ∙ h

select_new_lane-Chooses :
    (store : Store) (group : SessionGroup) (flow : FlowKey) (hash : ℕ)
    → 2 ≤ group.lane_count
    → IsSmall store group
    → NotKept store group flow
    → Chooses store group flow (select_new_lane store group flow hash)
unfolding select_new_lane
select_new_lane-Chooses store group flow hash two small new =
    let n = group.lane_count - 1 in
    let start = hash % n in
    let positive : 0 < n = omega arith in
    let before = mod-lt hash {m = n} positive in
    let begin : IsLeast store group n start 0 none max_bytes = record {
      unset = λ _. refl;
      chosen = λ lane h. cc;
      least = λ o found h k. absurd (omega arith);
      empty = λ _ o h. absurd (omega arith);
    } in
    let (bytes, v) =
      least_lane-IsLeast store group n start 0 n none max_bytes positive small begin in
    elim (Option-cases (least_lane store group n start 0 n none max_bytes)) [
      | inl e ↦
          none_live two new
            (λ l a b.
              let (o, h, at) = lane_at_onto n start l before a (omega arith) in
              ap (live store group) (sym at) ∙ v.empty e o (omega (arith, h)))
            (ap
              (λ (s : Option ℕ). elim s as (λ x. ℕ × FlowTable) [
                | none ↦ (0, remove_flow flow group.flows)
                | some lane ↦ (lane, assign flow lane group.flows)
              ])
              e)
      | inr (lane, e) ↦
          let (a, b, found, alive, queued) = v.chosen lane e in
          moved lane found two new a (omega (arith, b)) alive
            (λ l other p q k.
              let (o, h, at) = lane_at_onto n start l before p (omega arith) in
              omega
                (arith, queued, v.least o other (omega (arith, h)) (ap (live store group) at ∙ k)))
            (ap
              (λ (s : Option ℕ). elim s as (λ x. ℕ × FlowTable) [
                | none ↦ (0, remove_flow flow group.flows)
                | some lane ↦ (lane, assign flow lane group.flows)
              ])
              e)
    ]

-- If no queue of a live lane holds 2 ^ 64 - 1 bytes, a data packet's lane is its flow's while that is
-- live, or else the live data lane with the fewest queued bytes, or lane 0 if none is live.
pub select_data_lane-Chooses :
    (store : Store) (group : SessionGroup) (flow : FlowKey) (hash : ℕ)
    → IsSmall store group
    → Chooses store group flow (select_data_lane store group flow hash)
unfolding select_data_lane
select_data_lane-Chooses store group flow hash small =
    if_cases {A = ℕ × FlowTable} (Chooses store group flow) (leb group.lane_count 1) _ _
      (λ h. single (leb→le group.lane_count 1 h) refl)
      (λ h.
        let two : 2 ≤ group.lane_count = ground (arith, h) in
        let new = select_new_lane-Chooses store group flow hash two small in
        elim (Option-cases (assignment flow group.flows)) [
          | inl e ↦ rw e (new (λ i l k. cc (e, k)))
          | inr ((index, lane), e) ↦ elim (Option-cases (live store group lane)) [
            | inl l ↦ rw (e, l) (new (λ i k h. same_lane store group flow index lane i k e l h))
            | inr (found, l) ↦ rw (e, l) (kept index lane found two e l refl)
          ]
        ])

no_lanes-live :
    (store : Store) (group : SessionGroup) (lane : ℕ)
    → has_no_lanes group.lanes ≡ true
    → live store group lane ≡ none
unfolding live
no_lanes-live store group lane h = ground arith

-- What a choice of a session says of the group and the store.
abbrev IsSelection : Store → SessionGroup → Option (ℕ × Session) × FlowTable → Type 0
IsSelection store group r =
    ((found : ℕ × Session)
      → r.0 ≡ some found
      → (lane : ℕ) × (lookup lane group.lanes ≡ some found.0)
        × (lookup found.0 store ≡ some found.1))
    × (r.0 ≡ none → (lane : ℕ) → lane < group.lane_count → live store group lane ≡ none)

-- The session that a packet is given is live and in a lane of the group; a packet is given none only if no
-- lane below the count of lanes is live.
pub select_lane-live :
    (store : Store) (group : SessionGroup) (packet : Bytes)
    → ((found : ℕ × Session)
        → (select_lane store group packet).0 ≡ some found
        → (lane : ℕ) × (lookup lane group.lanes ≡ some found.0)
          × (lookup found.0 store ≡ some found.1))
      × ((select_lane store group packet).0 ≡ none
          → (lane : ℕ) → lane < group.lane_count
          → live store group lane ≡ none)
unfolding select_lane
select_lane-live store group packet =
    let preferred = preferred_lane store group packet in
    let first = first_live_lem store group 0 group.lane_count in
    if_cases {A = Option (ℕ × Session) × FlowTable} (IsSelection store group)
      (has_no_lanes group.lanes) _ _
      (λ h. (λ found e. cc, λ e lane b. no_lanes-live store group lane h))
      (λ h. elim (Option-cases (live store group preferred.0)) [
        | inr (f, e) ↦ rw e (
          λ found s.
              let (in_lanes, in_store) = live_lem store group preferred.0 found (e ∙ s) in
              (preferred.0, in_lanes, in_store),
          λ s. cc,
        )
        | inl e ↦ rw e (
          λ found s.
              let (lane, l) = first.0 found s in
              let (in_lanes, in_store) = live_lem store group lane found l in
              (lane, in_lanes, in_store),
          λ s lane b. first.1 s lane (omega arith) (omega (arith, b)),
        )
      ])
