-- ===== src/Wire/Mtu/Feedback.antt =====
-- `FeedbackPolicy` of mtu.rs: when oversized packets get ICMP feedback and when the capsule stream.
pub mod Bounds
pub mod Spacing
use porta.Prelude.{
  ℕ, zero, suc, ◌+◌, ◌-◌, ◌*◌, min, max, Bool, true, false, not, ◌&&◌, ◌||◌, Option, none, some,
  List, [], ◌∷◌, ◌++◌, length, position, select, erase_at, get_elem?, set, ◌==◌, ltb, leb,
  if◌then◌else◌,
}
use porta.Prelude.Map.{list_beq, nat_eq}
use porta.Wire.Bytes.{Bytes}
use porta.Wire.Ip.Classify.{FlowKey, classify_ipv4}
use porta.Wire.Mtu.{min_ipv4_mtu}

abbrev pub max_feedback_flows : ℕ
max_feedback_flows = 128

-- Times are nanoseconds.
abbrev pub flow_idle_timeout : ℕ
flow_idle_timeout = 60000000000

abbrev pub icmp_interval : ℕ
icmp_interval = 100000000

abbrev pub min_feedback_requests : ℕ
min_feedback_requests = 3

pub record FeedbackDecision : Type 0 where
  pub send_icmp : Bool
  pub use_capsule : Bool

-- `FeedbackDecision::default()`.
abbrev pub no_feedback : FeedbackDecision
no_feedback = record { send_icmp = false; use_capsule = false }

pub record FlowFeedback : Type 0 where
  pub flow : FlowKey
  pub mtu : ℕ
  pub last_seen : ℕ
  pub first_feedback : Option ℕ
  pub feedback_requests : ℕ

pub record FeedbackPolicy : Type 0 where
  pub flows : List FlowFeedback
  pub last_feedback : Option ℕ

-- `FlowFeedback::new`.
abbrev pub new_flow : FlowKey → ℕ → ℕ → FlowFeedback
new_flow flow mtu now = record {
  flow = flow;
  mtu = mtu;
  last_seen = now;
  first_feedback = none;
  feedback_requests = 0;
}

abbrev pub same_bool : Bool → Bool → Bool
same_bool true b = b
same_bool false b = not b

abbrev pub same_flow : FlowKey → FlowKey → Bool
same_flow a b =
    list_beq a.source b.source
    && list_beq a.destination b.destination
    && (a.source_port == b.source_port && a.destination_port == b.destination_port)
    && (a.fragment_id == b.fragment_id
        && a.protocol == b.protocol
        && same_bool a.fragmented b.fragmented)

-- `min_by_key` gives the first of the least; `best` is its index so far, `next` that of the next entry.
abbrev pub oldest_from : ℕ → ℕ → ℕ → List FlowFeedback → ℕ
oldest_from best least next [] = best
oldest_from best least next (state ∷ rest) =
    if ltb state.last_seen least
    then oldest_from next state.last_seen (suc next) rest
    else oldest_from best least (suc next) rest

abbrev pub oldest : List FlowFeedback → ℕ
oldest [] = 0
oldest (state ∷ rest) = oldest_from 0 state.last_seen 1 rest

pub make_space : List FlowFeedback → List FlowFeedback
make_space flows =
    if length flows == max_feedback_flows then erase_at flows (oldest flows) else flows

abbrev pub is_live : ℕ → FlowFeedback → Bool
is_live now state = ltb (now - state.last_seen) flow_idle_timeout

-- The index of the flow's entry, and the entries with it.
abbrev pub find_flow : FlowKey → ℕ → ℕ → List FlowFeedback → Option ℕ → ℕ × List FlowFeedback
find_flow flow mtu now flows (some index) = (index, flows)
find_flow flow mtu now flows none =
    let kept = make_space flows in (length kept, kept ++ new_flow flow mtu now ∷ [])

-- A time since which at least `age` has passed, if there is one.
abbrev pub is_past : Option ℕ → ℕ → ℕ → Bool
is_past none age now = false
is_past (some time) age now = leb age (now - time)

abbrev pub is_recent : Option ℕ → ℕ → Bool
is_recent none now = false
is_recent (some last) now = ltb (now - last) icmp_interval

abbrev pub grace : ℕ → ℕ
grace rtt = min (max (rtt * 4) 2000000000) 10000000000

abbrev pub get_or_insert : Option ℕ → ℕ → Option ℕ
get_or_insert none now = some now
get_or_insert (some first) now = some first

-- The entry of a flow whose effective MTU fell starts again.
abbrev pub refreshed : ℕ → ℕ → FlowFeedback → FlowFeedback
refreshed mtu now state =
    if ltb mtu state.mtu then new_flow state.flow mtu now else record state { last_seen = now }

abbrev pub asked : ℕ → FlowFeedback → FlowFeedback
asked now state = record state {
  first_feedback = get_or_insert state.first_feedback now;
  feedback_requests = min (state.feedback_requests + 1) min_feedback_requests;
}

pub decide : ℕ → ℕ → ℕ → ℕ → ℕ → FlowFeedback → FeedbackPolicy → FeedbackDecision × FeedbackPolicy
decide size ceiling now rtt index state p =
    if leb size ceiling
      && (leb min_feedback_requests state.feedback_requests
          && is_past state.first_feedback (grace rtt) now)
    then (
      record { send_icmp = false; use_capsule = true },
      record p { flows = set p.flows index state },
    )
    else if is_recent p.last_feedback now
    then (no_feedback, record p { flows = set p.flows index state })
    else (
      record { send_icmp = true; use_capsule = false },
      record { flows = set p.flows index (asked now state); last_feedback = some now },
    )

-- The entry at an index that `find_flow` gives is there.
abbrev pub decide_at :
    ℕ → ℕ → ℕ → ℕ → ℕ → ℕ → Option FlowFeedback → FeedbackPolicy → FeedbackDecision × FeedbackPolicy
decide_at size mtu ceiling now rtt index none p = (no_feedback, p)
decide_at size mtu ceiling now rtt index (some state) p =
    decide size ceiling now rtt index (refreshed mtu now state) p

-- The index of the packet's flow among the live entries, and these entries with it.
abbrev pub locate : Bytes → ℕ → ℕ → List FlowFeedback → ℕ × List FlowFeedback
locate packet mtu now flows =
    let flow = (classify_ipv4 packet).flow in
    let live = select (is_live now) flows in
    find_flow flow mtu now live (position (λ s. same_flow s.flow flow) live)

pub on_oversized : Bytes → ℕ → ℕ → ℕ → ℕ → FeedbackPolicy → FeedbackDecision × FeedbackPolicy
unfolding make_space decide
on_oversized packet mtu ceiling now rtt p =
    if leb (length packet) mtu || ltb mtu min_ipv4_mtu
    then (no_feedback, p)
    else let found = locate packet mtu now p.flows in
      decide_at (length packet) mtu ceiling now rtt found.0 (get_elem? found.1 found.0)
        (record p { flows = found.1 })
