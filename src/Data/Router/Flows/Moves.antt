-- ===== src/Data/Router/Flows/Moves.antt =====
-- What unlinking an index and linking it at the end do to the linked list of the flow table.
use porta.Prelude.{
  ℕ, zero, suc, ◌+◌, ◌≤◌, ◌<◌, ◌≡◌, refl, sym, ap, subst, ◌∙◌, List, [], ◌∷◌, ◌++◌, arith, length,
  set, length-set, ◌==◌, if_cases,
}
use porta.Data.Router.Flows.{
  FlowEntry, FlowTable, entry_at, no_flow_index, set_follower, set_leader, unlink, link_newest,
}
use porta.Data.Router.Flows.Linked.{
  one_if, count, count-append, count-last_or, head_or, last_or, Seg, Seg-set, Seg-below,
  entry_at-set_same,
}
use porta.Prelude.{Bool-cases}
use porta.Prelude.{inr}
use porta.Prelude.{inl}
use porta.Data.Router.Flows.Halves.{
  Front, Chain, Chain-split, Chain-join, IsSmall, set_follower-Front, set_follower-Seg,
  set_follower-Back, set_leader-Back, set_leader-Front,
}

-- What the two change of no entry: its flow, its lane; and what they leave of the table.
pub record Kept (t u : FlowTable) : Type 0 where
  pub sized : length u.entries ≡ length t.entries
  pub flows : (j : ℕ) → (entry_at u.entries j).flow ≡ (entry_at t.entries j).flow
  pub lanes : (j : ℕ) → (entry_at u.entries j).lane ≡ (entry_at t.entries j).lane
  pub freed : u.free ≡ t.free
  pub assigned : u.assignments ≡ t.assignments

pub Kept-trans : (t u v : FlowTable) → Kept t u → Kept u v → Kept t v
Kept-trans t u v a b = record {
  sized = b.sized ∙ a.sized;
  flows = λ j. b.flows j ∙ a.flows j;
  lanes = λ j. b.lanes j ∙ a.lanes j;
  freed = b.freed ∙ a.freed;
  assigned = b.assigned ∙ a.assigned;
}

pub entry_at-set {ℓ} :
    {X : Type ℓ} (f : FlowEntry → X) (es : List FlowEntry) (i : ℕ) (v : FlowEntry)
    → f v ≡ f (entry_at es i)
    → (j : ℕ) → f (entry_at (set es i v) j) ≡ f (entry_at es j)
entry_at-set f [] i v h j = refl
entry_at-set f (e ∷ es) zero v h zero = h
entry_at-set f (e ∷ es) zero v h (suc j) = refl
entry_at-set f (e ∷ es) (suc i) v h zero = refl
entry_at-set f (e ∷ es) (suc i) v h (suc j) = entry_at-set f es i v h j

set-Kept :
    (t : FlowTable) (i : ℕ) (v : FlowEntry)
    → v.flow ≡ (entry_at t.entries i).flow
    → v.lane ≡ (entry_at t.entries i).lane
    → Kept t (record t { entries = set t.entries i v })
set-Kept t i v f l = record {
  sized = length-set t.entries i v;
  flows = entry_at-set (λ e. e.flow) t.entries i v f;
  lanes = entry_at-set (λ e. e.lane) t.entries i v l;
  freed = refl;
  assigned = refl;
}

set_follower-Kept : (previous next : ℕ) (t : FlowTable) → Kept t (set_follower previous next t)
unfolding set_follower
set_follower-Kept previous next t =
    if_cases {A = FlowTable} (Kept t) (previous == no_flow_index) _ _
      (λ _. record {
        sized = refl;
        flows = λ j. refl;
        lanes = λ j. refl;
        freed = refl;
        assigned = refl;
      })
      (λ _. set-Kept t previous (record (entry_at t.entries previous) { next = next }) refl refl)

set_leader-Kept : (next previous : ℕ) (t : FlowTable) → Kept t (set_leader next previous t)
unfolding set_leader
set_leader-Kept next previous t =
    if_cases {A = FlowTable} (Kept t) (next == no_flow_index) _ _
      (λ _. record {
        sized = refl;
        flows = λ j. refl;
        lanes = λ j. refl;
        freed = refl;
        assigned = refl;
      })
      (λ _. set-Kept t next (record (entry_at t.entries next) { previous = previous }) refl refl)

pub unlink-Kept : (index : ℕ) (t : FlowTable) → Kept t (unlink index t)
unfolding unlink
unlink-Kept index t =
    let entry = entry_at t.entries index in
    let u = set_follower entry.previous entry.next t in
    Kept-trans t u (set_leader entry.next entry.previous u)
      (set_follower-Kept entry.previous entry.next t) (set_leader-Kept entry.next entry.previous u)

pub link_newest-Kept : (index : ℕ) (t : FlowTable) → Kept t (link_newest index t)
unfolding link_newest
link_newest-Kept index t =
    let v : FlowEntry = record (entry_at t.entries index) {
      previous = t.newest;
      next = no_flow_index;
    } in
    let placed = record t { entries = set t.entries index v } in
    let k =
      Kept-trans t placed (set_follower t.newest index placed) (set-Kept t index v refl refl)
        (set_follower-Kept t.newest index placed) in
    record {
      sized = k.sized;
      flows = k.flows;
      lanes = k.lanes;
      freed = k.freed;
      assigned = k.assigned;
    }

last_apart_after :
    (es : List FlowEntry) (p n : ℕ) (xs ys : List ℕ)
    → ((i : ℕ) → count i xs + count i ys ≤ 1)
    → length es ≤ no_flow_index
    → Seg es p ys n
    → count (last_or no_flow_index xs) ys ≡ 0
last_apart_after es p n [] ys c h s = Seg-below es p ys n no_flow_index s h
last_apart_after es p n (x ∷ xs) ys c h s = omega (arith, c (last_or x xs), count-last_or x xs)

head_apart_before :
    (es : List FlowEntry) (p n : ℕ) (xs ys : List ℕ)
    → ((i : ℕ) → count i xs + count i ys ≤ 1)
    → length es ≤ no_flow_index
    → Seg es p xs n
    → count (head_or ys no_flow_index) xs ≡ 0
head_apart_before es p n xs [] c h s = Seg-below es p xs n no_flow_index s h
head_apart_before es p n xs (y ∷ ys) c h s =
    let once : count y xs + count y (y ∷ ys) ≤ 1 = c y in
    let here : one_if (y == y) ≡ 1 = ground arith in omega (arith, once, here)

-- Unlinking an index takes it out of the list.
pub unlink-Chain :
    (t : FlowTable) (xs : List ℕ) (i : ℕ) (ys : List ℕ)
    → IsSmall t
    → ((j : ℕ) → count j (xs ++ i ∷ ys) ≤ 1)
    → Chain t (xs ++ i ∷ ys)
    → Chain (unlink i t) (xs ++ ys)
unfolding unlink
unlink-Chain t xs i ys small c chain =
    let once : (j : ℕ) → count j xs + count j ys ≤ 1 =
      λ j. omega (arith, c j, count-append j xs (i ∷ ys)) in
    let (f, ((k, previous, next, s), newest)) = Chain-split t xs (i ∷ ys) chain in
    let last = last_or no_flow_index xs in
    let head = head_or ys no_flow_index in
    let t1 = set_follower last head t in
    let f1 = set_follower-Front t xs i head small (λ j. omega (arith, once j)) f in
    let apart = last_apart_after t.entries i no_flow_index xs ys once (omega arith) s in
    let b1 = set_follower-Back t last head i ys apart (s, newest) in
    let small1 : IsSmall t1 = omega (arith, small, (set_follower-Kept last head t).sized) in
    let b2 = set_leader-Back t1 i last ys small1 (λ j. omega (arith, once j)) b1 in
    let before =
      head_apart_before t1.entries no_flow_index head xs ys once (omega (arith, small1)) f1.0 in
    let f2 = set_leader-Front t1 head last head xs before f1 in
    let same : unlink i t ≡ set_leader head last t1 =
      λ j. set_leader (next j) (previous j) (set_follower (previous j) (next j) t) in
    subst (λ (u : FlowTable). Chain u (xs ++ ys)) (sym same)
      (Chain-join (set_leader head last t1) xs ys f2 b2)

last_not_absent :
    (i : ℕ) (zs : List ℕ)
    → count i zs ≡ 0
    → i < no_flow_index
    → count (last_or no_flow_index zs) (i ∷ []) ≡ 0
last_not_absent i [] c h = ground arith
last_not_absent i (z ∷ zs) c h = elim (Bool-cases (last_or z zs == i)) [
  | inr f ↦ ground (arith, f)
  | inl t ↦
      let same : last_or z zs ≡ i = ground (arith, t) in
      let there : 1 ≤ count i (z ∷ zs) =
        subst (λ k. 1 ≤ count k (z ∷ zs)) same (count-last_or z zs) in
      absurd (omega (arith, there, c))
]

-- Linking an index that is not in the list puts it at the end.
pub link_newest-Chain :
    (t : FlowTable) (zs : List ℕ) (i : ℕ)
    → IsSmall t
    → ((j : ℕ) → count j zs ≤ 1)
    → count i zs ≡ 0
    → i < length t.entries
    → Chain t zs
    → Chain (link_newest i t) (zs ++ i ∷ [])
unfolding link_newest
link_newest-Chain t zs i small c apart below (s, o, n) =
    let v : FlowEntry = record (entry_at t.entries i) {
      previous = t.newest;
      next = no_flow_index;
    } in
    let placed = record t { entries = set t.entries i v } in
    let here = entry_at-set_same t.entries i v below in
    let size = length-set t.entries i v in
    let last = last_or no_flow_index zs in
    let front : Front placed zs no_flow_index =
      (Seg-set t.entries i v no_flow_index zs no_flow_index apart s, o) in
    let f1 = set_follower-Front placed zs no_flow_index i (omega (arith, size, small)) c front in
    let back : Seg placed.entries last (i ∷ []) no_flow_index = (
      omega (arith, size, below),
      ap (λ (e : FlowEntry). e.previous) here ∙ n,
      ap (λ (e : FlowEntry). e.next) here,
      tt,
    ) in
    let alone : count last (i ∷ []) ≡ 0 =
      last_not_absent i zs apart (omega (arith, small, below)) in
    let b1 = set_follower-Seg placed last i last (i ∷ []) no_flow_index alone back in
    let u : FlowTable = record (set_follower last i placed) { newest = i } in
    let same : link_newest i t ≡ u = λ j. record (set_follower (n j) i placed) { newest = i } in
    subst (λ (u : FlowTable). Chain u (zs ++ i ∷ [])) (sym same)
      (Chain-join u zs (i ∷ []) f1 (b1, refl))
