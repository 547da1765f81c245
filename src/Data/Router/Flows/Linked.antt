-- ===== src/Data/Router/Flows/Linked.antt =====
-- The linked list of the flow table: what stands between two indices, and its two halves.
use porta.Prelude.{
  ℕ, zero, suc, ◌+◌, ◌≤◌, ◌<◌, ◌≡◌, refl, sym, ap, subst, ◌∙◌, Bool, true, false, inl, inr, List,
  [], ◌∷◌, ◌++◌, arith, length, set, length-set, ◌==◌, Bool-cases,
}
use porta.Data.Router.Flows.{FlowEntry, entry_at, with_next, with_previous}

abbrev pub one_if : Bool → ℕ
one_if true = 1
one_if false = 0

abbrev pub count : ℕ → List ℕ → ℕ
count i [] = 0
count i (j ∷ js) = one_if (i == j) + count i js

pub count-append : (i : ℕ) (xs ys : List ℕ) → count i (xs ++ ys) ≡ count i xs + count i ys
count-append i [] ys = omega arith
count-append i (x ∷ xs) ys = omega (arith, count-append i xs ys)

abbrev pub head_or : List ℕ → ℕ → ℕ
head_or [] n = n
head_or (i ∷ is) n = i

abbrev pub last_or : ℕ → List ℕ → ℕ
last_or p [] = p
last_or p (i ∷ is) = last_or i is

pub head_or-append : (xs ys : List ℕ) (n : ℕ) → head_or (xs ++ ys) n ≡ head_or xs (head_or ys n)
head_or-append [] ys n = refl
head_or-append (x ∷ xs) ys n = refl

pub last_or-append : (p : ℕ) (xs ys : List ℕ) → last_or p (xs ++ ys) ≡ last_or (last_or p xs) ys
last_or-append p [] ys = refl
last_or-append p (x ∷ xs) ys = last_or-append x xs ys

-- The indices of a list whose first entry has `p` before it and whose last one has `n` after it.
abbrev pub Seg : List FlowEntry → ℕ → List ℕ → ℕ → Type 0
Seg es p [] n = Unit {0}
Seg es p (i ∷ is) n =
    (i < length es)
    × ((entry_at es i).previous ≡ p)
    × ((entry_at es i).next ≡ head_or is n)
    × Seg es i is n

pub Seg-split :
    (es : List FlowEntry) (p : ℕ) (xs ys : List ℕ) (n : ℕ)
    → Seg es p (xs ++ ys) n
    → Seg es p xs (head_or ys n) × Seg es (last_or p xs) ys n
Seg-split es p [] ys n s = (tt, s)
Seg-split es p (x ∷ xs) ys n (i, b, a, s) =
    let (l, r) = Seg-split es x xs ys n s in ((i, b, a ∙ head_or-append xs ys n, l), r)

pub Seg-join :
    (es : List FlowEntry) (p : ℕ) (xs ys : List ℕ) (n : ℕ)
    → Seg es p xs (head_or ys n)
    → Seg es (last_or p xs) ys n
    → Seg es p (xs ++ ys) n
Seg-join es p [] ys n l r = r
Seg-join es p (x ∷ xs) ys n (i, b, a, l) r =
    (i, b, a ∙ sym (head_or-append xs ys n), Seg-join es x xs ys n l r)

pub entry_at-set_other :
    (es : List FlowEntry) (i j : ℕ) (v : FlowEntry)
    → (j == i) ≡ false
    → entry_at (set es i v) j ≡ entry_at es j
entry_at-set_other [] i j v h = refl
entry_at-set_other (e ∷ es) zero zero v h = cc
entry_at-set_other (e ∷ es) zero (suc j) v h = refl
entry_at-set_other (e ∷ es) (suc i) zero v h = refl
entry_at-set_other (e ∷ es) (suc i) (suc j) v h = entry_at-set_other es i j v (ground arith)

pub entry_at-set_same :
    (es : List FlowEntry) (i : ℕ) (v : FlowEntry) → i < length es → entry_at (set es i v) i ≡ v
entry_at-set_same [] i v h = absurd (omega arith)
entry_at-set_same (e ∷ es) zero v h = refl
entry_at-set_same (e ∷ es) (suc i) v h = entry_at-set_same es i v (omega arith)

-- A write to an index that is not in a list leaves the list.
pub Seg-set :
    (es : List FlowEntry) (i : ℕ) (v : FlowEntry) (p : ℕ) (xs : List ℕ) (n : ℕ)
    → count i xs ≡ 0
    → Seg es p xs n
    → Seg (set es i v) p xs n
Seg-set es i v p [] n c s = tt
Seg-set es i v p (x ∷ xs) n c (k, b, a, s) =
    let other : (x == i) ≡ false = ground arith in
    let same = entry_at-set_other es i x v other in
    (
      omega (arith, length-set es i v),
      ap (λ (e : FlowEntry). e.previous) same ∙ b,
      ap (λ (e : FlowEntry). e.next) same ∙ a,
      Seg-set es i v x xs n (ground arith) s,
    )

pub count-last_or : (x : ℕ) (xs : List ℕ) → 1 ≤ count (last_or x xs) (x ∷ xs)
count-last_or x [] = ground arith
count-last_or x (y ∷ ys) = omega (arith, count-last_or y ys)

-- The last of a list without repetition is not its first, if there are two.
last_apart :
    (x y : ℕ) (ys : List ℕ) → ((i : ℕ) → count i (x ∷ y ∷ ys) ≤ 1) → (x == last_or y ys) ≡ false
last_apart x y ys c = elim (Bool-cases (x == last_or y ys)) [
  | inr f ↦ f
  | inl t ↦
      let same : x ≡ last_or y ys = ground (arith, t) in
      let there : 1 ≤ count x (y ∷ ys) =
        subst (λ k. 1 ≤ count k (y ∷ ys)) (sym same) (count-last_or y ys) in
      let once : count x (x ∷ y ∷ ys) ≤ 1 = c x in
      let here : one_if (x == x) ≡ 1 = ground arith in absurd (omega (arith, there, once, here))
]

pub Seg-with_next :
    (es : List FlowEntry) (p x : ℕ) (xs : List ℕ) (n m : ℕ)
    → ((i : ℕ) → count i (x ∷ xs) ≤ 1)
    → Seg es p (x ∷ xs) n
    → Seg (with_next (last_or x xs) m es) p (x ∷ xs) m
Seg-with_next es p x [] n m c (k, b, a, s) =
    let v : FlowEntry = record (entry_at es x) { next = m } in
    let same = entry_at-set_same es x v k in
    (
      omega (arith, length-set es x v),
      ap (λ (e : FlowEntry). e.previous) same ∙ b,
      ap (λ (e : FlowEntry). e.next) same,
      tt,
    )
Seg-with_next es p x (y ∷ ys) n m c (k, b, a, s) =
    let last = last_or y ys in
    let v : FlowEntry = record (entry_at es last) { next = m } in
    let same = entry_at-set_other es last x v (last_apart x y ys c) in
    (
      omega (arith, length-set es last v),
      ap (λ (e : FlowEntry). e.previous) same ∙ b,
      ap (λ (e : FlowEntry). e.next) same ∙ a,
      Seg-with_next es x y ys n m (λ i. omega (arith, c i)) s,
    )

pub Seg-with_previous :
    (es : List FlowEntry) (p q y : ℕ) (ys : List ℕ) (n : ℕ)
    → count y ys ≡ 0
    → Seg es p (y ∷ ys) n
    → Seg (with_previous y q es) q (y ∷ ys) n
Seg-with_previous es p q y ys n c (k, b, a, s) =
    let v : FlowEntry = record (entry_at es y) { previous = q } in
    let same = entry_at-set_same es y v k in
    (
      omega (arith, length-set es y v),
      ap (λ (e : FlowEntry). e.previous) same,
      ap (λ (e : FlowEntry). e.next) same ∙ a,
      Seg-set es y v y ys n c s,
    )

pub Seg-below :
    (es : List FlowEntry) (p : ℕ) (xs : List ℕ) (n i : ℕ)
    → Seg es p xs n
    → length es ≤ i
    → count i xs ≡ 0
Seg-below es p [] n i s h = refl
Seg-below es p (x ∷ xs) n i (k, b, a, s) h = ground (arith, Seg-below es x xs n i s h)

pub last_or-lt :
    (es : List FlowEntry) (p x : ℕ) (xs : List ℕ) (n : ℕ)
    → Seg es p (x ∷ xs) n
    → last_or x xs < length es
last_or-lt es p x [] n (k, b, a, s) = k
last_or-lt es p x (y ∷ ys) n (k, b, a, s) = last_or-lt es x y ys n s
