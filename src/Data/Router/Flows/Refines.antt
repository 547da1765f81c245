-- ===== src/Data/Router/Flows/Refines.antt =====
-- The flow table stands for its list of the flows used last, whatever calls are made.
use porta.Prelude.{
  ℕ, suc, ◌%◌, ◌^◌, ◌≤◌, ◌<◌, ◌≡◌, refl, sym, ap, subst, ◌∙◌, inl, inr, Option, none, some, List,
  [], ◌∷◌, ◌++◌, arith, length, drop, leb, Option-cases, leb→le, leb→lt,
}
use porta.Prelude.Map.{lookup, remove}
use porta.Prelude.Assoc.{remove_absent, lookup-remove_absent, Unique, Unique-middle}
use porta.Data.Classify.{FlowKey}
use porta.Data.Router.Flows.{
  FlowTable, default_table, flow_eq, entry_at, with_lane, max_tracked_flows, assignment, assign,
  assign_new, remove_flow, evict_oldest, touch,
}
use porta.Data.Router.Flows.Moves.{unlink-Kept}
use porta.Data.Router.Flows.Table.{
  view, IsTable, middle_lem, view-append, view-same, lookup-view, Unique-view, indexed-split,
}
use porta.Data.Router.Flows.Release.{release, release_of, release-IsTable, touch-IsTable}
use porta.Data.Router.Flows.Place.{assign_new-IsTable, with_lane-IsTable}
use porta.Prelude.{Bool-cases}
use porta.Data.Router.Flows.Recency.{
  Recency, renewed, used, FlowCall, call_assign, call_remove, call_use, use_flow, apply,
  apply_recency, flow_of, lane_of, run, run_recency, Shows,
}

-- A flow that the table knows, with what is before and after it.
record IsKnown (t : FlowTable) (m : Recency) (flow : FlowKey) (i : ℕ) : Type 0 where
  before : List ℕ
  after : List ℕ
  table : IsTable t (before ++ i ∷ after)
  named : (entry_at t.entries i).flow ≡ flow
  removed : remove flow m ≡ view t.entries (before ++ after)
  seen : lookup flow m ≡ some (entry_at t.entries i).lane
  shown : view t.entries (before ++ i ∷ after) ≡ m

lookup-shown :
    (t : FlowTable) (m : Recency) (flow : FlowKey)
    → Shows t m
    → lookup flow m ≡ elim (lookup flow t.assignments) as (λ x. Option ℕ) [
      | none ↦ none
      | some i ↦ some (entry_at t.entries i).lane
    ]
lookup-shown t m flow (chain, v, e) =
    ap (lookup flow) (sym e)
    ∙ (lookup-view t.entries chain flow
        ∙ ap
            (λ (o : Option ℕ). elim o as (λ x. Option ℕ) [
              | none ↦ none
              | some i ↦ some (entry_at t.entries i).lane
            ])
            (sym (v.found flow)))

known_lem :
    (t : FlowTable) (m : Recency) (flow : FlowKey) (i : ℕ)
    → Shows t m
    → lookup flow t.assignments ≡ some i
    → IsKnown t m flow i
known_lem t m flow i (chain, v, e) h =
    let (xs, ys, s, k) = indexed-split t.entries chain flow i (sym (v.found flow) ∙ h) in
    let table : IsTable t (xs ++ i ∷ ys) = subst (IsTable t) s v in
    let shown : view t.entries (xs ++ i ∷ ys) ≡ m = ap (view t.entries) (sym s) ∙ e in
    let split = view-append t.entries xs (i ∷ ys) in
    let unique = subst Unique split (Unique-view t.entries (xs ++ i ∷ ys) table.apart) in
    let own = (entry_at t.entries i).flow in
    let lane = (entry_at t.entries i).lane in
    let (n, o, gone, u) = Unique-middle (view t.entries xs) own lane (view t.entries ys) unique in
    record {
      before = xs;
      after = ys;
      table = table;
      named = k;
      removed =
          ap (λ (f : FlowKey). remove f m) (sym k)
          ∙ (ap (remove own) (sym shown ∙ split) ∙ (gone ∙ sym (view-append t.entries xs ys)));
      seen =
          lookup-shown t m flow (chain, v, e)
          ∙ ap
              (λ (o : Option ℕ). elim o as (λ x. Option ℕ) [
                | none ↦ none
                | some i ↦ some (entry_at t.entries i).lane
              ])
              h;
      shown = shown;
    }

unknown_lem :
    (t : FlowTable) (m : Recency) (flow : FlowKey)
    → Shows t m
    → lookup flow t.assignments ≡ none
    → lookup flow m ≡ none
unknown_lem t m flow s h =
    lookup-shown t m flow s
    ∙ ap
        (λ (o : Option ℕ). elim o as (λ x. Option ℕ) [
          | none ↦ none
          | some i ↦ some (entry_at t.entries i).lane
        ])
        h

remove-Shows :
    (flow : FlowKey) (t : FlowTable) (m : Recency)
    → Shows t m
    → Shows (remove_flow flow t) (remove flow m)
unfolding remove_flow
remove-Shows flow t m s = elim (Option-cases (lookup flow t.assignments)) [
  | inl e ↦ rw (e, remove_flow, remove_absent flow m (unknown_lem t m flow s e)) s
  | inr (i, e) ↦
      let k = known_lem t m flow i s e in
      let (table, same) = release-IsTable t k.before i k.after k.table in
      rw (e, remove_flow)
        (subst (λ (f : FlowKey). Shows (release_of f i t) (remove flow m)) k.named
          (k.before ++ k.after, table, same ∙ sym k.removed))
]

use-Shows :
    (flow : FlowKey) (t : FlowTable) (m : Recency)
    → Shows t m
    → Shows (use_flow flow t) (used flow m)
unfolding use_flow used assignment
use-Shows flow t m s = elim (Option-cases (lookup flow t.assignments)) [
  | inl e ↦ rw (use_flow, assignment, e, used, unknown_lem t m flow s e) s
  | inr (i, e) ↦
      let k = known_lem t m flow i s e in
      let (table, kept) = touch-IsTable t k.before i k.after k.table in
      let back = sym k.removed in
      let shown : view (touch i t).entries ((k.before ++ k.after) ++ i ∷ [])
          ≡ remove flow m ++ (flow, (entry_at t.entries i).lane) ∷ [] =
        view-same t.entries (touch i t).entries ((k.before ++ k.after) ++ i ∷ []) kept.flows
          kept.lanes
        ∙ (view-append t.entries (k.before ++ k.after) (i ∷ []) ∙ λ j.
            back j ++ (k.named j, (entry_at t.entries i).lane) ∷ []) in
      rw (use_flow, assignment, e, used, k.seen) ((k.before ++ k.after) ++ i ∷ [], table, shown)
]

-- A full table gives up its oldest flow.
evict-Shows :
    (flow : FlowKey) (t : FlowTable) (m : Recency)
    → Shows t m
    → lookup flow t.assignments ≡ none
    → max_tracked_flows ≤ length t.assignments
    → (chain : List ℕ) × IsTable (evict_oldest t) chain
      × (view (evict_oldest t).entries chain ≡ drop 1 m)
      × (lookup flow (evict_oldest t).assignments ≡ none)
      × (length chain < max_tracked_flows)
unfolding evict_oldest
evict-Shows flow t m ([], v, e) h full = absurd (omega (arith, v.counted))
evict-Shows flow t m (i ∷ ys, v, e) h full =
    let (table, same) = release-IsTable t [] i ys v in
    let own = (entry_at t.entries i).flow in
    let gone : lookup flow (release i t).assignments ≡ none =
      ap (lookup flow)
        (unlink-Kept i (record t { assignments = remove own t.assignments })).assigned
      ∙ lookup-remove_absent own flow t.assignments h in
    subst
      (λ (k : ℕ).
        (chain : List ℕ) × IsTable (release k t) chain
        × (view (release k t).entries chain ≡ drop 1 m)
        × (lookup flow (release k t).assignments ≡ none)
        × (length chain < max_tracked_flows))
      (sym v.linked.1) (ys, table, same ∙ ap (drop 1) e, gone, omega (arith, v.sized, v.bounded))

assign_new-Shows :
    (flow : FlowKey) (lane : ℕ) (t : FlowTable) (chain : List ℕ) (m : Recency)
    → IsTable t chain
    → view t.entries chain ≡ m
    → lookup flow t.assignments ≡ none
    → length chain < max_tracked_flows
    → Shows (assign_new flow lane t) (m ++ (flow, lane % 2 ^ 8) ∷ [])
assign_new-Shows flow lane t chain m v e absent h =
    let (index, table, shown) = assign_new-IsTable flow lane t chain v absent h in
    (chain ++ index ∷ [], table, shown ∙ ap (λ (z : Recency). z ++ (flow, lane % 2 ^ 8) ∷ []) e)

length-view : (t : FlowTable) (chain : List ℕ) → length (view t.entries chain) ≡ length chain
length-view t [] = refl
length-view t (i ∷ is) = ap suc (length-view t is)

assign-Shows :
    (flow : FlowKey) (lane : ℕ) (t : FlowTable) (m : Recency)
    → Shows t m
    → Shows (assign flow lane t) (renewed flow lane m)
unfolding assign renewed
assign-Shows flow lane t m s = elim (Option-cases (lookup flow t.assignments)) [
  | inl e ↦
      let (chain, v, shown) = s in
      let size : length m ≡ length t.assignments =
        omega (arith, ap length shown, length-view t chain, v.counted) in
      elim (Bool-cases (leb max_tracked_flows (length t.assignments))) [
        | inl full ↦
            let (kept, table, view_kept, gone, room) = evict-Shows flow t m s e (leb→le _ _ full) in
            rw
              (
                assign,
                e,
                full,
                renewed,
                unknown_lem t m flow s e,
                ap (leb max_tracked_flows) size ∙ full,
              )
              (assign_new-Shows flow lane (evict_oldest t) kept (drop 1 m) table view_kept gone
                room)
        | inr room ↦
            rw
              (
                assign,
                e,
                room,
                renewed,
                unknown_lem t m flow s e,
                ap (leb max_tracked_flows) size ∙ room,
              )
              (assign_new-Shows flow lane t chain m v shown e
                (omega (arith, v.counted, leb→lt _ _ room)))
      ]
  | inr (i, e) ↦
      let k = known_lem t m flow i s e in
      let back = sym k.removed in
      let mid = middle_lem t k.before i k.after k.table in
      let (table, shown) =
        with_lane-IsTable t (k.before ++ k.after) i lane mid.lone mid.below
          (k.before ++ i ∷ k.after) k.table in
      let u = record t { entries = with_lane i lane t.entries } in
      let (moved, kept) = touch-IsTable u k.before i k.after table in
      rw (assign, e, renewed, k.seen)
        (
          (k.before ++ k.after) ++ i ∷ [],
          moved,
          view-same u.entries (touch i u).entries ((k.before ++ k.after) ++ i ∷ []) kept.flows
                kept.lanes
              ∙ (shown ∙ λ j. back j ++ (k.named j, lane % 2 ^ 8) ∷ []),
        )
]

apply-Shows :
    (call : FlowCall) (t : FlowTable) (m : Recency)
    → Shows t m
    → Shows (apply call t) (apply_recency call m)
unfolding apply apply_recency
apply-Shows (call_assign flow lane) t m s = assign-Shows flow lane t m s
apply-Shows (call_remove flow) t m s = remove-Shows flow t m s
apply-Shows (call_use flow) t m s = use-Shows flow t m s

lane_of-Shows :
    (flow : FlowKey) (t : FlowTable) (m : Recency) → Shows t m → lane_of flow t ≡ lookup flow m
unfolding lane_of assignment
lane_of-Shows flow t m s = elim (Option-cases (lookup flow t.assignments)) [
  | inl e ↦ rw (lane_of, assignment, e) (sym (unknown_lem t m flow s e))
  | inr (i, e) ↦ rw (lane_of, assignment, e) (sym (known_lem t m flow i s e).seen)
]

calls-Shows :
    (calls : List FlowCall) (t : FlowTable) (m : Recency)
    → Shows t m
    → ((run calls t).0 ≡ (run_recency calls m).0) × Shows (run calls t).1 (run_recency calls m).1
unfolding run run_recency
calls-Shows [] t m s = (refl, s)
calls-Shows (call ∷ calls) t m s =
    let (answers, shown) =
      calls-Shows calls (apply call t) (apply_recency call m) (apply-Shows call t m s) in
    let answer = lane_of-Shows (flow_of call) t m s in (λ i. answer i ∷ answers i, shown)

default-Shows : Shows default_table []
default-Shows = (
  [],
  record {
    linked = (tt, refl, refl);
    tally = λ i. ground arith;
    bounded = omega arith;
    sized = omega arith;
    found = λ f. refl;
    apart = tt;
    keys = tt;
    counted = refl;
  },
  refl,
)

-- Whatever calls are made of a new flow table, it answers each with the lane that a list of the flows used
-- last gives, which a new flow makes forget its oldest flow once it holds 4096; it then stands for that
-- list, and has at most 4096 entries.
pub flows_refine :
    (calls : List FlowCall)
    → ((run calls default_table).0 ≡ (run_recency calls []).0)
      × Shows (run calls default_table).1 (run_recency calls []).1
      × (length (run calls default_table).1.entries ≤ max_tracked_flows)
flows_refine calls =
    let (answers, shown) = calls-Shows calls default_table [] default-Shows in
    (answers, shown, shown.1.bounded)
