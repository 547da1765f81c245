-- ===== src/Data/Router/Flows/Release.antt =====
-- What the removal and the renewal of a flow do to the flow table.
use porta.Prelude.{
  ℕ, ◌≤◌, ◌≡◌, refl, sym, ap, subst, ◌∙◌, some, List, [], ◌∷◌, ◌++◌, append-nil, arith, length,
  length-append, ltb, ◌==◌, if_true, if_cases,
}
use porta.Prelude.Map.{lookup, remove}
use porta.Prelude.Assoc.{
  Unique, Unique-snoc, Unique-middle, Unique-remove, length-remove, lookup-middle,
  lookup-append-none,
}
use porta.Data.Classify.{FlowKey}
use porta.Data.Router.Flows.{
  FlowTable, flow_eq, entry_at, no_flow_index, unlink, link_newest, touch,
}
use porta.Data.Router.Flows.Linked.{
  one_if, count, count-append, count-last_or, last_or, last_or-append,
}
use porta.Data.Router.Flows.Moves.{
  Kept, unlink-Chain, link_newest-Chain, unlink-Kept, link_newest-Kept, Kept-trans,
}
use porta.Data.Router.Flows.Table.{
  indexed, view, IsTable, indexed-append, indexed-same, view-same, middle_lem, indexed-middle,
}
use porta.Prelude.{==→eq}
use porta.Prelude.Assoc.{lookup-moved, lookup-remove_middle}

-- A flow leaves the map, and its index is unlinked and free.
abbrev pub release_of : FlowKey → ℕ → FlowTable → FlowTable
release_of flow i t =
    let freed = unlink i (record t { assignments = remove flow t.assignments }) in
    record freed { free = i ∷ freed.free }

abbrev pub release : ℕ → FlowTable → FlowTable
release i t = release_of (entry_at t.entries i).flow i t

pub release-IsTable :
    (t : FlowTable) (xs : List ℕ) (i : ℕ) (ys : List ℕ)
    → IsTable t (xs ++ i ∷ ys)
    → IsTable (release i t) (xs ++ ys)
      × (view (release i t).entries (xs ++ ys) ≡ view t.entries (xs ++ ys))
release-IsTable t xs i ys v =
    let flow = (entry_at t.entries i).flow in
    let t' = record t { assignments = remove flow t.assignments } in
    let m = middle_lem t xs i ys v in
    let k = unlink-Kept i t' in
    let size : length (unlink i t').entries ≡ length t.entries = k.sized in
    let free : (unlink i t').free ≡ t.free = k.freed in
    let sides =
      Unique-middle (indexed t.entries xs) flow i (indexed t.entries ys)
        (indexed-middle t xs i ys v) in
    let (before, after, gone, unique) = sides in
    let rest : indexed (unlink i t').entries (xs ++ ys)
        ≡ indexed t.entries xs ++ indexed t.entries ys =
      indexed-same t.entries (unlink i t').entries (xs ++ ys) k.flows
      ∙ indexed-append t.entries xs ys in
    let whole = indexed-append t.entries xs (i ∷ ys) in
    let known : lookup flow t.assignments ≡ some i =
      v.found flow
      ∙ (ap (lookup flow) whole
          ∙ (lookup-middle (indexed t.entries xs) flow flow i (indexed t.entries ys) before
              ∙ if_true (flow_eq.beq flow flow) _ _ ((flow_eq.beq_iff flow flow).1 refl))) in
    (
      record {
        linked = unlink-Chain t' xs i ys m.small m.once v.linked;
        tally = λ j. omega (
          arith,
          ap (count j) free,
          ap (λ (n : ℕ). one_if (ltb j n)) size,
          v.tally j,
          m.counts j,
        );
        bounded = omega (arith, size, v.bounded);
        sized = omega (arith, ap length free, size, v.sized, m.lengths);
        found = λ f.
            ap (lookup f) k.assigned
            ∙ (lookup-remove_middle t.assignments (indexed t.entries xs) flow i
                  (indexed t.entries ys) f (indexed-middle t xs i ys v)
                  (v.found f ∙ ap (lookup f) whole)
                ∙ sym (ap (lookup f) rest));
        apart = subst Unique (sym rest) unique;
        keys = subst Unique (sym k.assigned) (Unique-remove flow t.assignments v.keys);
        counted = omega (
          arith,
          ap length k.assigned,
          length-remove flow i t.assignments v.keys known,
          v.counted,
          m.lengths,
        );
      },
      view-same t.entries (unlink i t').entries (xs ++ ys) k.flows k.lanes,
    )

last_of_middle :
    (p : ℕ) (xs : List ℕ) (i : ℕ) (ys : List ℕ)
    → ((j : ℕ) → count j (xs ++ i ∷ ys) ≤ 1)
    → i ≡ last_or p (xs ++ i ∷ ys)
    → ys ≡ []
last_of_middle p xs i [] c h = refl
last_of_middle p xs i (y ∷ ys) c h =
    let last : i ≡ last_or y ys = h ∙ last_or-append p xs (i ∷ y ∷ ys) in
    let there : 1 ≤ count i (y ∷ ys) =
      subst (λ k. 1 ≤ count k (y ∷ ys)) (sym last) (count-last_or y ys) in
    let here : one_if (i == i) ≡ 1 = ground arith in
    absurd (omega (arith, c i, count-append i xs (i ∷ y ∷ ys), there, here))

moved_lem :
    (t : FlowTable) (xs : List ℕ) (i : ℕ) (ys : List ℕ)
    → IsTable t (xs ++ i ∷ ys)
    → let u = link_newest i (unlink i t) in IsTable u ((xs ++ ys) ++ i ∷ []) × Kept t u
moved_lem t xs i ys v =
    let flow = (entry_at t.entries i).flow in
    let m = middle_lem t xs i ys v in
    let t1 = unlink i t in
    let u = link_newest i t1 in
    let k1 = unlink-Kept i t in
    let k = Kept-trans t t1 u k1 (link_newest-Kept i t1) in
    let whole = indexed-append t.entries xs (i ∷ ys) in
    let after : indexed u.entries ((xs ++ ys) ++ i ∷ [])
        ≡ (indexed t.entries xs ++ indexed t.entries ys) ++ (flow, i) ∷ [] =
      indexed-same t.entries u.entries ((xs ++ ys) ++ i ∷ []) k.flows
      ∙ (indexed-append t.entries (xs ++ ys) (i ∷ [])
          ∙ ap (λ (z : List (FlowKey × ℕ)). z ++ (flow, i) ∷ [])
              (indexed-append t.entries xs ys)) in
    let unique = indexed-middle t xs i ys v in
    let (before, later, gone, rest) =
      Unique-middle (indexed t.entries xs) flow i (indexed t.entries ys) unique in
    (
      record {
        linked =
            link_newest-Chain t1 (xs ++ ys) i (omega (arith, k1.sized, m.small))
              (λ j. omega (arith, m.once j, m.counts j)) m.lone (omega (arith, k1.sized, m.below))
              (unlink-Chain t xs i ys m.small m.once v.linked);
        tally = λ j. omega (
          arith,
          ap (count j) k.freed,
          ap (λ (n : ℕ). one_if (ltb j n)) k.sized,
          v.tally j,
          m.counts j,
          count-append j (xs ++ ys) (i ∷ []),
        );
        bounded = omega (arith, k.sized, v.bounded);
        sized = omega (
          arith,
          ap length k.freed,
          k.sized,
          v.sized,
          m.lengths,
          length-append (xs ++ ys) (i ∷ []),
        );
        found = λ f.
            ap (lookup f) k.assigned
            ∙ (v.found f
                ∙ (ap (lookup f) whole
                    ∙ (sym (
                          lookup-moved (indexed t.entries xs) flow i (indexed t.entries ys) f
                            unique)
                        ∙ sym (ap (lookup f) after))));
        apart = subst Unique (sym after) (
            Unique-snoc flow i (indexed t.entries xs ++ indexed t.entries ys) rest (
              lookup-append-none flow (indexed t.entries xs) (indexed t.entries ys) before
              ∙ later));
        keys = subst Unique (sym k.assigned) v.keys;
        counted =
            omega (
              arith,
              ap length k.assigned,
              v.counted,
              m.lengths,
              length-append (xs ++ ys) (i ∷ []),
            );
      },
      k,
    )

-- An index that is touched moves to the end.
pub touch-IsTable :
    (t : FlowTable) (xs : List ℕ) (i : ℕ) (ys : List ℕ)
    → IsTable t (xs ++ i ∷ ys)
    → IsTable (touch i t) ((xs ++ ys) ++ i ∷ []) × Kept t (touch i t)
unfolding touch
touch-IsTable t xs i ys v =
    if_cases {A = FlowTable} (λ u. IsTable u ((xs ++ ys) ++ i ∷ []) × Kept t u) (i == t.newest) t
      (link_newest i (unlink i t))
      (λ h.
        let last : ys ≡ [] =
          last_of_middle no_flow_index xs i ys (middle_lem t xs i ys v).once
            (==→eq i t.newest h ∙ v.linked.2) in
        let same : xs ++ i ∷ ys ≡ (xs ++ ys) ++ i ∷ [] =
          ap (λ (z : List ℕ). xs ++ i ∷ z) last
          ∙ sym (
              ap (λ (z : List ℕ). (xs ++ z) ++ i ∷ []) last
              ∙ ap (λ (z : List ℕ). z ++ i ∷ []) (append-nil xs)) in
        (
          subst (IsTable t) same v,
          record {
            sized = refl;
            flows = λ j. refl;
            lanes = λ j. refl;
            freed = refl;
            assigned = refl;
          },
        ))
      (λ _. moved_lem t xs i ys v)
