-- ===== src/Data/Router/Flows/Recency.antt =====
-- The flow table as what it stands for: the lanes of the flows used last, the oldest first.
use porta.Prelude.{
  ℕ, ◌%◌, ◌^◌, ◌≡◌, Option, none, some, List, [], ◌∷◌, ◌++◌, length, drop, leb, if◌then◌else◌,
}
use porta.Prelude.Map.{lookup, remove}
use porta.Data.Classify.{FlowKey}
use porta.Data.Router.Flows.{
  FlowTable, flow_eq, max_tracked_flows, assignment, assign, remove_flow, touch,
}
use porta.Data.Router.Flows.Table.{view, IsTable}

abbrev pub Recency : Type 0
Recency = List (FlowKey × ℕ)

-- A known flow moves to the end with its new lane; a new one takes the place of the oldest if the list
-- is full. A lane is kept as a byte.
unfoldable pub renewed : FlowKey → ℕ → Recency → Recency
renewed flow lane m = elim (lookup flow m) [
  | some old ↦ remove flow m ++ (flow, lane % 2 ^ 8) ∷ []
  | none ↦ (if leb max_tracked_flows (length m) then drop 1 m else m) ++ (flow, lane % 2 ^ 8) ∷ []
]

unfoldable pub used : FlowKey → Recency → Recency
used flow m = elim (lookup flow m) [ some lane ↦ remove flow m ++ (flow, lane) ∷ [] | none ↦ m ]

-- What `select_data_lane` does with the table.
pub data FlowCall : Type 0 where
  call_assign : FlowKey → ℕ → FlowCall
  call_remove call_use : FlowKey → FlowCall

unfoldable pub use_flow : FlowKey → FlowTable → FlowTable
use_flow flow t = elim (assignment flow t) [ none ↦ t | some found ↦ touch found.0 t ]

unfoldable pub apply : FlowCall → FlowTable → FlowTable
apply (call_assign flow lane) t = assign flow lane t
apply (call_remove flow) t = remove_flow flow t
apply (call_use flow) t = use_flow flow t

unfoldable pub apply_recency : FlowCall → Recency → Recency
apply_recency (call_assign flow lane) m = renewed flow lane m
apply_recency (call_remove flow) m = remove flow m
apply_recency (call_use flow) m = used flow m

pub flow_of : FlowCall → FlowKey
flow_of (call_assign flow lane) = flow
flow_of (call_remove flow) = flow
flow_of (call_use flow) = flow

unfoldable pub lane_of : FlowKey → FlowTable → Option ℕ
lane_of flow t = elim (assignment flow t) [ none ↦ none | some found ↦ some found.1 ]

-- The lane that each call finds for its flow, and the state after the calls.
unfoldable pub run : List FlowCall → FlowTable → List (Option ℕ) × FlowTable
run [] t = ([], t)
run (call ∷ calls) t =
    let rest = run calls (apply call t) in (lane_of (flow_of call) t ∷ rest.0, rest.1)

unfoldable pub run_recency : List FlowCall → Recency → List (Option ℕ) × Recency
run_recency [] m = ([], m)
run_recency (call ∷ calls) m =
    let rest = run_recency calls (apply_recency call m) in
    (lookup (flow_of call) m ∷ rest.0, rest.1)

-- A table shows a list when some indices make it a table with that list in view.
abbrev pub Shows : FlowTable → Recency → Type 0
Shows t m = (chain : List ℕ) × IsTable t chain × (view t.entries chain ≡ m)
