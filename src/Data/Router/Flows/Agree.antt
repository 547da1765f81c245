-- ===== src/Data/Router/Flows/Agree.antt =====
-- Arrays of the flow table that agree at the indices of a list.
use porta.Prelude.{
  ℕ, zero, suc, ◌≤◌, ◌<◌, ◌≡◌, refl, ap, ◌∙◌, inl, inr, List, [], ◌∷◌, ◌++◌, arith, length, set,
  ◌==◌, Bool-cases,
}
use porta.Data.Router.Flows.{FlowEntry, flow_eq, entry_at}
use porta.Data.Router.Flows.Linked.{one_if, count, Seg, entry_at-set_other}
use porta.Data.Router.Flows.Table.{indexed, view}

-- Arrays that agree at the indices of a list agree on what is said of it.
abbrev pub Agree : List FlowEntry → List FlowEntry → List ℕ → Type 0
Agree es fs chain = (j : ℕ) → 1 ≤ count j chain → entry_at fs j ≡ entry_at es j

pub Agree-head :
    (es fs : List FlowEntry) (x : ℕ) (xs : List ℕ)
    → Agree es fs (x ∷ xs)
    → entry_at fs x ≡ entry_at es x
Agree-head es fs x xs a = let here : one_if (x == x) ≡ 1 = ground arith in a x (omega (arith, here))

pub Agree-tail :
    (es fs : List FlowEntry) (x : ℕ) (xs : List ℕ) → Agree es fs (x ∷ xs) → Agree es fs xs
Agree-tail es fs x xs a j h = a j (omega (arith, h))

pub Seg-Agree :
    (es fs : List FlowEntry) (p : ℕ) (xs : List ℕ) (n : ℕ)
    → length es ≤ length fs
    → Agree es fs xs
    → Seg es p xs n
    → Seg fs p xs n
Seg-Agree es fs p [] n l a s = tt
Seg-Agree es fs p (x ∷ xs) n l a (k, b, f, s) =
    let same = Agree-head es fs x xs a in
    (
      omega (arith, k, l),
      ap (λ (e : FlowEntry). e.previous) same ∙ b,
      ap (λ (e : FlowEntry). e.next) same ∙ f,
      Seg-Agree es fs x xs n l (Agree-tail es fs x xs a) s,
    )

pub indexed-Agree :
    (es fs : List FlowEntry) (xs : List ℕ) → Agree es fs xs → indexed fs xs ≡ indexed es xs
indexed-Agree es fs [] a = refl
indexed-Agree es fs (x ∷ xs) a =
    let same = Agree-head es fs x xs a in
    let rest = indexed-Agree es fs xs (Agree-tail es fs x xs a) in λ i. ((same i).flow, x) ∷ rest i

pub view-Agree : (es fs : List FlowEntry) (xs : List ℕ) → Agree es fs xs → view fs xs ≡ view es xs
view-Agree es fs [] a = refl
view-Agree es fs (x ∷ xs) a =
    let same = Agree-head es fs x xs a in
    let rest = view-Agree es fs xs (Agree-tail es fs x xs a) in
    λ i. ((same i).flow, (same i).lane) ∷ rest i

pub set-Agree :
    (es : List FlowEntry) (i : ℕ) (v : FlowEntry) (xs : List ℕ)
    → count i xs ≡ 0
    → Agree es (set es i v) xs
set-Agree es i v xs c j h = elim (Bool-cases (j == i)) [
  | inr f ↦ entry_at-set_other es i j v f
  | inl t ↦
      let same : j ≡ i = ground (arith, t) in
      absurd (omega (arith, ap (λ k. count k xs) same, c, h))
]

pub entry_at-append :
    (es : List FlowEntry) (v : FlowEntry) (j : ℕ)
    → j < length es
    → entry_at (es ++ v ∷ []) j ≡ entry_at es j
entry_at-append [] v j h = absurd (omega arith)
entry_at-append (e ∷ es) v zero h = refl
entry_at-append (e ∷ es) v (suc j) h = entry_at-append es v j (omega arith)

pub entry_at-append_last :
    (es : List FlowEntry) (v : FlowEntry) → entry_at (es ++ v ∷ []) (length es) ≡ v
entry_at-append_last [] v = refl
entry_at-append_last (e ∷ es) v = entry_at-append_last es v
