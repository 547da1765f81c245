-- ===== src/Data/Router/Flows/Place.antt =====
-- What a new entry and a new lane do to the flow table.
use porta.Prelude.{
  ℕ, suc, ◌+◌, ◌%◌, ◌^◌, ◌≤◌, ◌<◌, ◌≡◌, refl, sym, ap, subst, ◌∙◌, Option, none, some, List, [],
  ◌∷◌, ◌++◌, arith, length, length-append, length-set, set, ltb, ◌==◌,
}
use porta.Prelude.Map.{lookup, insert}
use porta.Prelude.Assoc.{Unique, Unique-snoc, insert_absent, lookup-snoc}
use porta.Data.Classify.{FlowKey}
use porta.Data.Router.Flows.{
  FlowEntry, FlowTable, flow_eq, entry_at, with_lane, no_flow_index, max_tracked_flows, link_newest,
  place, assign_new,
}
use porta.Data.Router.Flows.Linked.{one_if, count, count-append, Seg, entry_at-set_same}
use porta.Data.Router.Flows.Moves.{link_newest-Chain, link_newest-Kept, entry_at-set}
use porta.Data.Router.Flows.Halves.{Chain}
use porta.Data.Router.Flows.Table.{
  indexed, view, IsTable, indexed-append, view-append, indexed-same, view-same, one_if-le,
}
use porta.Prelude.{if◌then◌else◌, le→ltb}
use porta.Data.Router.Flows.Agree.{
  Agree, Seg-Agree, indexed-Agree, view-Agree, set-Agree, entry_at-append, entry_at-append_last,
}

-- What `place` leaves: the entry at an index that is not in use, and the rest as it was.
pub record IsPlaced (t : FlowTable) (chain : List ℕ) (entry : FlowEntry) (r : ℕ × FlowTable)
    : Type 0 where
  pub linked : Chain r.1 chain
  pub here : entry_at r.1.entries r.0 ≡ entry
  pub below : r.0 < length r.1.entries
  pub lone : count r.0 chain ≡ 0
  pub tally :
      (i : ℕ)
      → count i chain + one_if (i == r.0) + count i r.1.free ≡ one_if (ltb i (length r.1.entries))
  pub bounded : length r.1.entries ≤ max_tracked_flows
  pub sized : suc (length chain + length r.1.free) ≡ length r.1.entries
  pub same_flows : indexed r.1.entries chain ≡ indexed t.entries chain
  pub same_view : view r.1.entries chain ≡ view t.entries chain
  pub assigned : r.1.assignments ≡ t.assignments

in_range : (j n : ℕ) → 1 ≤ one_if (ltb j n) → j < n
in_range j n h = ground arith

tally_next :
    (i n m a b : ℕ)
    → m ≡ suc n
    → a + b ≡ one_if (ltb i n)
    → a + one_if (i == n) + b ≡ one_if (ltb i m)
tally_next i n m a b e h = ground arith

pub place-IsPlaced :
    (t : FlowTable) (chain : List ℕ) (entry : FlowEntry) (free : List ℕ)
    → t.free ≡ free
    → length chain < max_tracked_flows
    → IsTable t chain
    → IsPlaced t chain entry (place entry free t)
unfolding place
place-IsPlaced t chain entry [] f h v =
    let n = length t.entries in
    let size = length-append t.entries (entry ∷ []) in
    let agree : Agree t.entries (t.entries ++ entry ∷ []) chain =
      λ j c. entry_at-append t.entries entry j (in_range j n (omega (arith, v.tally j, c))) in
    record {
      linked = (
        Seg-Agree t.entries (t.entries ++ entry ∷ []) no_flow_index chain no_flow_index
            (omega (arith, size)) agree v.linked.0,
        v.linked.1,
        v.linked.2,
      );
      here = entry_at-append_last t.entries entry;
      below = omega (arith, size);
      lone = omega (arith, v.tally n, ap one_if (le→ltb n n (omega arith)));
      tally = λ i.
          tally_next i n (length (t.entries ++ entry ∷ [])) (count i chain) (count i t.free)
            (omega (arith, size)) (v.tally i)
          ∙ refl;
      bounded = omega (arith, size, v.sized, ap length f, h);
      sized = omega (arith, size, v.sized);
      same_flows = indexed-Agree t.entries (t.entries ++ entry ∷ []) chain agree;
      same_view = view-Agree t.entries (t.entries ++ entry ∷ []) chain agree;
      assigned = refl;
    }
place-IsPlaced t chain entry (index ∷ free) f h v =
    let size = length-set t.entries index entry in
    let here : one_if (index == index) ≡ 1 = ground arith in
    let lone : count index chain ≡ 0 =
      omega (
        arith,
        v.tally index,
        ap (count index) f,
        here,
        one_if-le (ltb index (length t.entries)),
      ) in
    let below : index < length t.entries =
      in_range index (length t.entries)
        (omega (arith, v.tally index, ap (count index) f, here, lone)) in
    let agree = set-Agree t.entries index entry chain lone in
    record {
      linked = (
        Seg-Agree t.entries (set t.entries index entry) no_flow_index chain no_flow_index
            (omega (arith, size)) agree v.linked.0,
        v.linked.1,
        v.linked.2,
      );
      here = entry_at-set_same t.entries index entry below;
      below = omega (arith, size, below);
      lone = lone;
      tally = λ i. omega (arith, v.tally i, ap (λ (n : ℕ). one_if (ltb i n)) size, ap (count i) f);
      bounded = omega (arith, size, v.bounded);
      sized = omega (arith, size, v.sized, ap length f);
      same_flows = indexed-Agree t.entries (set t.entries index entry) chain agree;
      same_view = view-Agree t.entries (set t.entries index entry) chain agree;
      assigned = refl;
    }

-- A new flow is placed at the end, with its lane.
pub assign_new-IsTable :
    (flow : FlowKey) (lane : ℕ) (t : FlowTable) (chain : List ℕ)
    → IsTable t chain
    → lookup flow t.assignments ≡ none
    → length chain < max_tracked_flows
    → (index : ℕ) × IsTable (assign_new flow lane t) (chain ++ index ∷ [])
      × (view (assign_new flow lane t).entries (chain ++ index ∷ [])
          ≡ view t.entries chain ++ (flow, lane % 2 ^ 8) ∷ [])
unfolding assign_new
assign_new-IsTable flow lane t chain v absent h =
    let entry : FlowEntry = record {
      flow = flow;
      previous = no_flow_index;
      next = no_flow_index;
      lane = lane % 2 ^ 8;
    } in
    let r = place entry t.free t in
    let d = place-IsPlaced t chain entry t.free refl h v in
    let index = r.0 in
    let p = record r.1 { assignments = insert flow index r.1.assignments } in
    let u = link_newest index p in
    let k = link_newest-Kept index p in
    let fresh : lookup flow r.1.assignments ≡ none = ap (lookup flow) d.assigned ∙ absent in
    let inserted : insert flow index r.1.assignments ≡ t.assignments ++ (flow, index) ∷ [] =
      insert_absent flow index r.1.assignments fresh
      ∙ ap (λ (m : List (FlowKey × ℕ)). m ++ (flow, index) ∷ []) d.assigned in
    let assigned : u.assignments ≡ t.assignments ++ (flow, index) ∷ [] = k.assigned ∙ inserted in
    let named : indexed u.entries (chain ++ index ∷ [])
        ≡ indexed t.entries chain ++ (flow, index) ∷ [] =
      indexed-same r.1.entries u.entries (chain ++ index ∷ []) k.flows
      ∙ (indexed-append r.1.entries chain (index ∷ []) ∙ λ i.
          d.same_flows i ++ ((d.here i).flow, index) ∷ []) in
    let unseen : lookup flow (indexed t.entries chain) ≡ none = sym (v.found flow) ∙ absent in
    let chained =
      link_newest-Chain p chain index (omega (arith, d.bounded))
        (λ j. omega (arith, d.tally j, one_if-le (ltb j (length r.1.entries)))) d.lone d.below
        d.linked in
    (
      index,
      record {
        linked = chained;
        tally = λ i. omega (
          arith,
          d.tally i,
          count-append i chain (index ∷ []),
          ap (count i) k.freed,
          ap (λ (n : ℕ). one_if (ltb i n)) k.sized,
        );
        bounded = omega (arith, k.sized, d.bounded);
        sized =
            omega (arith, k.sized, d.sized, ap length k.freed, length-append chain (index ∷ []));
        found = λ f.
            ap (lookup f) assigned
            ∙ (lookup-snoc flow f index t.assignments absent
                ∙ (ap (λ (o : Option ℕ). if flow_eq.beq flow f then some index else o) (v.found f)
                    ∙ sym (
                        ap (lookup f) named
                        ∙ lookup-snoc flow f index (indexed t.entries chain) unseen)));
        apart =
            subst Unique (sym named)
              (Unique-snoc flow index (indexed t.entries chain) v.apart unseen);
        keys = subst Unique (sym assigned) (Unique-snoc flow index t.assignments v.keys absent);
        counted = omega (
          arith,
          ap length assigned,
          length-append t.assignments ((flow, index) ∷ []),
          v.counted,
          length-append chain (index ∷ []),
        );
      },
      view-same r.1.entries u.entries (chain ++ index ∷ []) k.flows k.lanes
          ∙ (view-append r.1.entries chain (index ∷ []) ∙ λ i.
              d.same_view i ++ ((d.here i).flow, (d.here i).lane) ∷ []),
    )

Seg-same :
    (es fs : List FlowEntry) (p : ℕ) (xs : List ℕ) (n : ℕ)
    → length fs ≡ length es
    → ((j : ℕ) → (entry_at fs j).previous ≡ (entry_at es j).previous)
    → ((j : ℕ) → (entry_at fs j).next ≡ (entry_at es j).next)
    → Seg es p xs n
    → Seg fs p xs n
Seg-same es fs p [] n l b f s = tt
Seg-same es fs p (x ∷ xs) n l b f (k, q, r, s) =
    (omega (arith, l, k), b x ∙ q, f x ∙ r, Seg-same es fs x xs n l b f s)

-- A lane that is written leaves the table as it is but for that lane.
pub with_lane-IsTable :
    (t : FlowTable) (xs : List ℕ) (i lane : ℕ)
    → count i xs ≡ 0
    → i < length t.entries
    → (chain : List ℕ) → IsTable t chain
    → let u = record t { entries = with_lane i lane t.entries } in
      IsTable u chain
      × (view u.entries (xs ++ i ∷ [])
          ≡ view t.entries xs ++ ((entry_at t.entries i).flow, lane % 2 ^ 8) ∷ [])
with_lane-IsTable t xs i lane c b chain v =
    let entry : FlowEntry = record (entry_at t.entries i) { lane = lane % 2 ^ 8 } in
    let es = set t.entries i entry in
    let size = length-set t.entries i entry in
    let flows = entry_at-set (λ e. e.flow) t.entries i entry refl in
    let names = indexed-same t.entries es chain flows in
    let here = entry_at-set_same t.entries i entry b in
    (
      record {
        linked = (
          Seg-same t.entries es no_flow_index chain no_flow_index size
              (entry_at-set (λ e. e.previous) t.entries i entry refl)
              (entry_at-set (λ e. e.next) t.entries i entry refl) v.linked.0,
          v.linked.1,
          v.linked.2,
        );
        tally = λ j. v.tally j ∙ sym (ap (λ (n : ℕ). one_if (ltb j n)) size);
        bounded = omega (arith, size, v.bounded);
        sized = omega (arith, size, v.sized);
        found = λ f. v.found f ∙ sym (ap (lookup f) names);
        apart = subst Unique (sym names) v.apart;
        keys = v.keys;
        counted = v.counted;
      },
      view-append es xs (i ∷ []) ∙ (λ j.
          view-Agree t.entries es xs (set-Agree t.entries i entry xs c) j
          ++ ((here j).flow, (here j).lane) ∷ []),
    )
