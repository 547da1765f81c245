-- ===== src/Data/Router/Flows/Table.antt =====
-- The invariant of the flow table, and what the removal and the renewal of a flow do to it.
use porta.Prelude.{
  ℕ, suc, ◌+◌, ◌≤◌, ◌<◌, ◌≡◌, refl, sym, ap, subst, ◌∙◌, Bool, true, false, inl, inr, Option, none,
  some, List, [], ◌∷◌, ◌++◌, arith, length, length-append, ltb, ◌==◌, Bool-cases,
}
use porta.Prelude.Map.{lookup}
use porta.Prelude.Assoc.{Unique}
use porta.Data.Classify.{FlowKey}
use porta.Data.Router.Flows.{
  FlowEntry, FlowTable, flow_eq, entry_at, no_flow_index, max_tracked_flows,
}
use porta.Data.Router.Flows.Linked.{one_if, count, count-append, Seg-split}
use porta.Data.Router.Flows.Moves.{}
use porta.Data.Router.Flows.Halves.{Chain}

-- The flows of some indices, with the indices and with the lanes.
abbrev pub indexed : List FlowEntry → List ℕ → List (FlowKey × ℕ)
indexed es [] = []
indexed es (i ∷ is) = ((entry_at es i).flow, i) ∷ indexed es is

abbrev pub view : List FlowEntry → List ℕ → List (FlowKey × ℕ)
view es [] = []
view es (i ∷ is) = ((entry_at es i).flow, (entry_at es i).lane) ∷ view es is

-- The indices in use, oldest first, are linked in both directions; each index of the array is in use or
-- free, once; the map gives each flow in use its index; there are at most 4096 of them.
pub record IsTable (t : FlowTable) (chain : List ℕ) : Type 0 where
  pub linked : Chain t chain
  pub tally : (i : ℕ) → count i chain + count i t.free ≡ one_if (ltb i (length t.entries))
  pub bounded : length t.entries ≤ max_tracked_flows
  pub sized : length chain + length t.free ≡ length t.entries
  pub found : (flow : FlowKey) → lookup flow t.assignments ≡ lookup flow (indexed t.entries chain)
  pub apart : Unique (indexed t.entries chain)
  pub keys : Unique t.assignments
  pub counted : length t.assignments ≡ length chain

pub indexed-append :
    (es : List FlowEntry) (xs ys : List ℕ) → indexed es (xs ++ ys) ≡ indexed es xs ++ indexed es ys
indexed-append es [] ys = refl
indexed-append es (x ∷ xs) ys = ap (◌∷◌ ((entry_at es x).flow, x)) (indexed-append es xs ys)

pub view-append :
    (es : List FlowEntry) (xs ys : List ℕ) → view es (xs ++ ys) ≡ view es xs ++ view es ys
view-append es [] ys = refl
view-append es (x ∷ xs) ys =
    ap (◌∷◌ ((entry_at es x).flow, (entry_at es x).lane)) (view-append es xs ys)

pub indexed-same :
    (es fs : List FlowEntry) (chain : List ℕ)
    → ((j : ℕ) → (entry_at fs j).flow ≡ (entry_at es j).flow)
    → indexed fs chain ≡ indexed es chain
indexed-same es fs [] f = refl
indexed-same es fs (x ∷ xs) f = λ i. (f x i, x) ∷ indexed-same es fs xs f i

pub view-same :
    (es fs : List FlowEntry) (chain : List ℕ)
    → ((j : ℕ) → (entry_at fs j).flow ≡ (entry_at es j).flow)
    → ((j : ℕ) → (entry_at fs j).lane ≡ (entry_at es j).lane)
    → view fs chain ≡ view es chain
view-same es fs [] f l = refl
view-same es fs (x ∷ xs) f l = λ i. (f x i, l x i) ∷ view-same es fs xs f l i

pub lookup-view :
    (es : List FlowEntry) (chain : List ℕ) (flow : FlowKey)
    → lookup flow (view es chain) ≡ elim (lookup flow (indexed es chain)) as (λ x. Option ℕ) [
      | none ↦ none
      | some i ↦ some (entry_at es i).lane
    ]
lookup-view es [] flow = refl
lookup-view es (x ∷ xs) flow = ground (arith, lookup-view es xs flow)

pub Unique-view :
    (es : List FlowEntry) (chain : List ℕ) → Unique (indexed es chain) → Unique (view es chain)
Unique-view es [] u = tt
Unique-view es (x ∷ xs) (n, u) =
    (ground (arith, n, lookup-view es xs (entry_at es x).flow), Unique-view es xs u)

-- A flow that is found stands somewhere in the list.
pub indexed-split :
    (es : List FlowEntry) (chain : List ℕ) (flow : FlowKey) (i : ℕ)
    → lookup flow (indexed es chain) ≡ some i
    → (xs ys : List ℕ) × (chain ≡ xs ++ i ∷ ys) × ((entry_at es i).flow ≡ flow)
indexed-split es [] flow i h = cc
indexed-split es (x ∷ xs) flow i h = elim (Bool-cases (flow_eq.beq (entry_at es x).flow flow)) [
  | inl t ↦
      let here : x ≡ i = ground (arith, t, h) in
      let key = (flow_eq.beq_iff (entry_at es x).flow flow).0 t in
      ([], xs, ap (λ (k : ℕ). k ∷ xs) here, ap (λ (k : ℕ). (entry_at es k).flow) (sym here) ∙ key)
  | inr f ↦
      let (a, b, s, k) = indexed-split es xs flow i (ground (arith, f, h)) in
      (x ∷ a, b, ap (◌∷◌ x) s, k)
]

-- What an index in the middle of the list is to the rest.
pub record IsMiddle (t : FlowTable) (xs : List ℕ) (i : ℕ) (ys : List ℕ) : Type 0 where
  pub small : length t.entries < no_flow_index
  pub once : (j : ℕ) → count j (xs ++ i ∷ ys) ≤ 1
  pub lone : count i (xs ++ ys) ≡ 0
  pub below : i < length t.entries
  pub counts : (j : ℕ) → count j (xs ++ i ∷ ys) ≡ one_if (j == i) + count j (xs ++ ys)
  pub lengths : length (xs ++ i ∷ ys) ≡ suc (length (xs ++ ys))

pub one_if-le : (b : Bool) → one_if b ≤ 1
one_if-le true = omega arith
one_if-le false = omega arith

pub middle_lem :
    (t : FlowTable) (xs : List ℕ) (i : ℕ) (ys : List ℕ)
    → IsTable t (xs ++ i ∷ ys)
    → IsMiddle t xs i ys
middle_lem t xs i ys v =
    let once : (j : ℕ) → count j (xs ++ i ∷ ys) ≤ 1 =
      λ j. omega (arith, v.tally j, one_if-le (ltb j (length t.entries))) in
    let counts : (j : ℕ) → count j (xs ++ i ∷ ys) ≡ one_if (j == i) + count j (xs ++ ys) =
      λ j. omega (arith, count-append j xs (i ∷ ys), count-append j xs ys) in
    let here : one_if (i == i) ≡ 1 = ground arith in
    record {
      small = omega (arith, v.bounded);
      once = once;
      lone = omega (arith, once i, counts i, here);
      below = (Seg-split t.entries no_flow_index xs (i ∷ ys) no_flow_index v.linked.0).1.0;
      counts = counts;
      lengths = omega (arith, length-append xs (i ∷ ys), length-append xs ys);
    }

pub indexed-middle :
    (t : FlowTable) (xs : List ℕ) (i : ℕ) (ys : List ℕ)
    → IsTable t (xs ++ i ∷ ys)
    → Unique (indexed t.entries xs ++ ((entry_at t.entries i).flow, i) ∷ indexed t.entries ys)
indexed-middle t xs i ys v = subst Unique (indexed-append t.entries xs (i ∷ ys)) v.apart
