-- ===== src/Wire/Mtu/Feedback/Bounds.antt =====
-- What a call of the feedback policy of mtu.rs keeps of its table.
use porta.Prelude.{
  ℕ, suc, ◌+◌, ◌<◌, ◌≤◌, ◌≡◌, refl, true, false, Option, none, some, List, [], ◌∷◌, arith, length,
  length-append, All, All-append, All-set, All-select, All-erase_at, All-get_elem?, length-set,
  length-select, length-erase_at, if_cases, set, get_elem?, select, ltb,
}
use porta.Wire.Bytes.{Bytes}
use porta.Wire.Ip.Classify.{FlowKey, classify_ipv4}
use porta.Wire.Mtu.Feedback.{
  locate, FlowFeedback, FeedbackPolicy, FeedbackDecision, max_feedback_flows, min_feedback_requests,
  new_flow, oldest_from, oldest, make_space, find_flow, refreshed, asked, decide, decide_at,
  on_oversized, is_recent, is_live, no_feedback, same_flow,
}
use porta.Prelude.{◌==◌}
use porta.Prelude.{leb, position}
use porta.Prelude.{and-true}

-- An entry counts three requests at most, and none before its first feedback.
abbrev pub Fair : FlowFeedback → Type 0
Fair s =
    (s.feedback_requests ≤ min_feedback_requests)
    × (s.first_feedback ≡ none → s.feedback_requests ≡ 0)

abbrev pub Bounded : List FlowFeedback → Type 0
Bounded flows = (length flows ≤ max_feedback_flows) × All Fair flows

oldest_from-lt :
    (best least next : ℕ) (xs : List FlowFeedback)
    → best < next
    → oldest_from best least next xs < next + length xs
oldest_from-lt best least next [] h = omega arith
oldest_from-lt best least next (x ∷ xs) h =
    if_cases (λ k. k < next + suc (length xs)) (ltb x.last_seen least) _ _
      (λ _. omega (arith, oldest_from-lt next x.last_seen (suc next) xs (omega arith)))
      (λ _. omega (arith, oldest_from-lt best least (suc next) xs (omega arith)))

oldest-lt : (xs : List FlowFeedback) → 0 < length xs → oldest xs < length xs
oldest-lt [] h = absurd (omega arith)
oldest-lt (x ∷ xs) h = omega (arith, oldest_from-lt 0 x.last_seen 1 xs (omega arith))

make_space-Bounded :
    (flows : List FlowFeedback)
    → Bounded flows
    → (length (make_space flows) < max_feedback_flows) × All Fair (make_space flows)
unfolding make_space
make_space-Bounded flows (n, a) =
    if_cases (λ xs. (length xs < max_feedback_flows) × All Fair xs)
      (length flows == max_feedback_flows) _ _
      (λ t. (
        ground (arith, length-erase_at flows (oldest flows), oldest-lt flows, t),
        All-erase_at Fair flows (oldest flows) a,
      ))
      (λ f. (ground (arith, n, f), a))

find_flow-Bounded :
    (flow : FlowKey) (mtu now : ℕ) (flows : List FlowFeedback) (found : Option ℕ)
    → Bounded flows
    → Bounded (find_flow flow mtu now flows found).1
find_flow-Bounded flow mtu now flows none v =
    let (n, a) = make_space-Bounded flows v in
    let state : FlowFeedback = new_flow flow mtu now in
    (
      omega (arith, n, length-append (make_space flows) (state ∷ [])),
      All-append Fair (make_space flows) (state ∷ []) a ((omega arith, λ _. refl), tt),
    )
find_flow-Bounded flow mtu now flows (some index) v = v

set-Bounded :
    (flows : List FlowFeedback) (index : ℕ) (state : FlowFeedback)
    → Bounded flows
    → Fair state
    → Bounded (set flows index state)
set-Bounded flows index state (n, a) f =
    (omega (arith, n, length-set flows index state), All-set Fair flows index state a f)

asked-Fair : (now : ℕ) (state : FlowFeedback) → Fair (asked now state)
asked-Fair now state = (omega arith, λ e. ground arith)

refreshed-Fair : (mtu now : ℕ) (state : FlowFeedback) → Fair state → Fair (refreshed mtu now state)
refreshed-Fair mtu now state f =
    if_cases Fair (ltb mtu state.mtu) _ _ (λ _. (omega arith, λ _. refl)) (λ _. f)

-- The three ways that a decision ends, each under its test.
pub decide_cases :
    (P : FeedbackDecision × FeedbackPolicy → Type 0) (size ceiling now rtt index : ℕ)
    (state : FlowFeedback) (p : FeedbackPolicy)
    → (leb size ceiling ≡ true
        → P (
          record { send_icmp = false; use_capsule = true },
          record p { flows = set p.flows index state },
        ))
    → P (no_feedback, record p { flows = set p.flows index state })
    → (is_recent p.last_feedback now ≡ false
        → P (
          record { send_icmp = true; use_capsule = false },
          record { flows = set p.flows index (asked now state); last_feedback = some now },
        ))
    → P (decide size ceiling now rtt index state p)
unfolding decide
decide_cases P size ceiling now rtt index state p capsule quiet icmp =
    if_cases P _ _ _ (λ t. capsule (and-true (leb size ceiling) _ t).0)
      (λ _. if_cases P _ _ _ (λ _. quiet) icmp)

decide-Bounded :
    (size ceiling now rtt index : ℕ) (state : FlowFeedback) (p : FeedbackPolicy)
    → Bounded p.flows
    → Fair state
    → Bounded (decide size ceiling now rtt index state p).1.flows
decide-Bounded size ceiling now rtt index state p v f =
    decide_cases (λ x. Bounded x.1.flows) size ceiling now rtt index state p
      (λ _. set-Bounded p.flows index state v f) (set-Bounded p.flows index state v f)
      (λ _. set-Bounded p.flows index (asked now state) v (asked-Fair now state))

decide_at-Bounded :
    (size mtu ceiling now rtt index : ℕ) (found : Option FlowFeedback) (p : FeedbackPolicy)
    → get_elem? p.flows index ≡ found
    → Bounded p.flows
    → Bounded (decide_at size mtu ceiling now rtt index found p).1.flows
decide_at-Bounded size mtu ceiling now rtt index none p e v = v
decide_at-Bounded size mtu ceiling now rtt index (some state) p e v =
    decide-Bounded size ceiling now rtt index (refreshed mtu now state) p v
      (refreshed-Fair mtu now state (All-get_elem? Fair p.flows index state v.1 e))

-- A packet that fits, or an effective MTU that is unusable, changes nothing; else the decision is that
-- of `decide_at`.
pub oversized_cases :
    (P : FeedbackDecision × FeedbackPolicy → Type 0) (packet : Bytes) (mtu ceiling now rtt : ℕ)
    (p : FeedbackPolicy)
    → P (no_feedback, p)
    → (let found = locate packet mtu now p.flows in
        mtu < length packet
        → P (
            decide_at
              (length packet)
              mtu
              ceiling
              now
              rtt
              found.0
              (get_elem? found.1 found.0)
              (record p { flows = found.1 })))
    → P (on_oversized packet mtu ceiling now rtt p)
unfolding on_oversized
oversized_cases P packet mtu ceiling now rtt p quiet decided =
    if_cases P _ _ _ (λ _. quiet) (λ f. decided (ground (arith, f)))

locate-Bounded :
    (packet : Bytes) (mtu now : ℕ) (flows : List FlowFeedback)
    → Bounded flows
    → Bounded (locate packet mtu now flows).1
locate-Bounded packet mtu now flows (n, a) =
    let flow = (classify_ipv4 packet).flow in
    let live = select (is_live now) flows in
    find_flow-Bounded flow mtu now live (position (λ s. same_flow s.flow flow) live)
      (omega (arith, n, length-select (is_live now) flows), All-select Fair (is_live now) flows a)

pub on_oversized-Bounded :
    (packet : Bytes) (mtu ceiling now rtt : ℕ) (p : FeedbackPolicy)
    → Bounded p.flows
    → Bounded (on_oversized packet mtu ceiling now rtt p).1.flows
on_oversized-Bounded packet mtu ceiling now rtt p v =
    let found = locate packet mtu now p.flows in
    oversized_cases (λ x. Bounded x.1.flows) packet mtu ceiling now rtt p v
      (λ _.
        decide_at-Bounded (length packet) mtu ceiling now rtt found.0 (get_elem? found.1 found.0)
          (record p { flows = found.1 }) refl (locate-Bounded packet mtu now p.flows v))
