-- ===== src/Data/Router/Flows/Halves.antt =====
-- The two halves of the linked list of the flow table, before an index and after one.
use porta.Prelude.{
  ℕ, ◌≤◌, ◌<◌, ◌≡◌, refl, sym, subst, ◌∙◌, false, List, [], ◌∷◌, ◌++◌, arith, length, ◌==◌,
  if_false, if_cases,
}
use porta.Data.Router.Flows.{
  FlowTable, entry_at, with_next, with_previous, no_flow_index, set_follower, set_leader,
}
use porta.Data.Router.Flows.Linked.{
  one_if, count, head_or, last_or, head_or-append, last_or-append, last_or-lt, Seg, Seg-split,
  Seg-join, Seg-set, Seg-with_next, Seg-with_previous,
}

-- The two halves of the list, before an index and after one.
abbrev pub Front : FlowTable → List ℕ → ℕ → Type 0
Front t xs n = Seg t.entries no_flow_index xs n × (t.oldest ≡ head_or xs n)

abbrev pub Back : FlowTable → ℕ → List ℕ → Type 0
Back t p ys = Seg t.entries p ys no_flow_index × (t.newest ≡ last_or p ys)

abbrev pub Chain : FlowTable → List ℕ → Type 0
Chain t xs =
    Seg t.entries no_flow_index xs no_flow_index
    × (t.oldest ≡ head_or xs no_flow_index)
    × (t.newest ≡ last_or no_flow_index xs)

pub Chain-split :
    (t : FlowTable) (xs ys : List ℕ)
    → Chain t (xs ++ ys)
    → Front t xs (head_or ys no_flow_index) × Back t (last_or no_flow_index xs) ys
Chain-split t xs ys (s, o, n) =
    let (l, r) = Seg-split t.entries no_flow_index xs ys no_flow_index s in
    ((l, o ∙ head_or-append xs ys no_flow_index), (r, n ∙ last_or-append no_flow_index xs ys))

pub Chain-join :
    (t : FlowTable) (xs ys : List ℕ)
    → Front t xs (head_or ys no_flow_index)
    → Back t (last_or no_flow_index xs) ys
    → Chain t (xs ++ ys)
Chain-join t xs ys (l, o) (r, n) = (
  Seg-join t.entries no_flow_index xs ys no_flow_index l r,
  o ∙ sym (head_or-append xs ys no_flow_index),
  n ∙ sym (last_or-append no_flow_index xs ys),
)

-- The bound of the indices makes them differ from the mark of none.
abbrev pub IsSmall : FlowTable → Type 0
IsSmall t = length t.entries < no_flow_index

pub set_follower-Front :
    (t : FlowTable) (xs : List ℕ) (n m : ℕ)
    → IsSmall t
    → ((i : ℕ) → count i xs ≤ 1)
    → Front t xs n
    → Front (set_follower (last_or no_flow_index xs) m t) xs m
unfolding set_follower
set_follower-Front t [] n m h c (s, o) = (tt, refl)
set_follower-Front t (x ∷ xs) n m h c (s, o) =
    let below = last_or-lt t.entries no_flow_index x xs n s in
    let there : (last_or x xs == no_flow_index) ≡ false = ground arith in
    subst (λ (u : FlowTable). Front u (x ∷ xs) m)
      (sym (
        if_false (last_or x xs == no_flow_index) _
          (record t { entries = with_next (last_or x xs) m t.entries }) there))
      (Seg-with_next t.entries no_flow_index x xs n m c s, o)

pub set_follower-Seg :
    (t : FlowTable) (previous m p : ℕ) (ys : List ℕ) (n : ℕ)
    → count previous ys ≡ 0
    → Seg t.entries p ys n
    → Seg (set_follower previous m t).entries p ys n
unfolding set_follower
set_follower-Seg t previous m p ys n c s =
    if_cases {A = FlowTable} (λ u. Seg u.entries p ys n) (previous == no_flow_index) _ _ (λ _. s)
      (λ _.
        Seg-set t.entries previous (record (entry_at t.entries previous) { next = m }) p ys n c s)

pub newest-set_follower :
    (previous m : ℕ) (t : FlowTable) → (set_follower previous m t).newest ≡ t.newest
unfolding set_follower
newest-set_follower previous m t = ground arith

pub set_follower-Back :
    (t : FlowTable) (previous m p : ℕ) (ys : List ℕ)
    → count previous ys ≡ 0
    → Back t p ys
    → Back (set_follower previous m t) p ys
set_follower-Back t previous m p ys c (s, n) =
    (set_follower-Seg t previous m p ys no_flow_index c s, newest-set_follower previous m t ∙ n)

pub set_leader-Back :
    (t : FlowTable) (p q : ℕ) (ys : List ℕ)
    → IsSmall t
    → ((i : ℕ) → count i ys ≤ 1)
    → Back t p ys
    → Back (set_leader (head_or ys no_flow_index) q t) q ys
unfolding set_leader
set_leader-Back t p q [] h c (s, n) = (tt, refl)
set_leader-Back t p q (y ∷ ys) h c (s, n) =
    let below = s.0 in
    let there : (y == no_flow_index) ≡ false = ground arith in
    let once : count y (y ∷ ys) ≤ 1 = c y in
    let here : one_if (y == y) ≡ 1 = ground arith in
    subst (λ (u : FlowTable). Back u q (y ∷ ys))
      (sym (
        if_false (y == no_flow_index) _ (record t { entries = with_previous y q t.entries }) there))
      (Seg-with_previous t.entries p q y ys no_flow_index (omega (arith, once, here)) s, n)

pub set_leader-Front :
    (t : FlowTable) (next q n : ℕ) (xs : List ℕ)
    → count next xs ≡ 0
    → Front t xs n
    → Front (set_leader next q t) xs n
unfolding set_leader
set_leader-Front t next q n xs c (s, o) =
    if_cases {A = FlowTable} (λ u. Front u xs n) (next == no_flow_index) _ _ (λ _. (s, o))
      (λ _. (
        Seg-set t.entries next (record (entry_at t.entries next) { previous = q }) no_flow_index xs
            n c s,
        o,
      ))
