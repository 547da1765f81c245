-- ===== src/State/Sessions/Counts.antt =====
-- How many sessions are counted, after any registrations and drops of guards.
use porta.Prelude.{
  ℕ, zero, suc, ◌+◌, ◌≤◌, ◌≡◌, refl, sym, ap, subst, ◌∙◌, inl, inr, Bool, true, false, Option, none,
  some, List, [], ◌∷◌, ◌++◌, length, length-append, arith, get_elem?, erase_at, ◌==◌, if◌then◌else◌,
  Bool-cases, if_true, if_false,
}
use porta.Prelude.Map.{lookup, insert, remove, lookup-insert, lookup-remove}
use porta.Prelude.Assoc.{remove_absent, Unique}
use porta.State.Sessions.{SessionKey, key_eq, ids_of, has, remove_id, is_empty, selected}

abbrev pub weight : (SessionKey → Bool) → SessionKey → List ℕ → ℕ
weight p key ids = if p key then length ids else 0

abbrev pub size : (SessionKey → Bool) → List (SessionKey × List ℕ) → ℕ
size p m = length (selected p m)

size-cons :
    (p : SessionKey → Bool) (key : SessionKey) (ids : List ℕ) (m : List (SessionKey × List ℕ))
    → size p ((key, ids) ∷ m) ≡ weight p key ids + size p m
size-cons p key ids m = elim (Bool-cases (p key)) [
  | inl t ↦ rw t (length-append ids (selected p m))
  | inr f ↦ rw f (omega arith)
]

ids_of-here :
    (key k : SessionKey) (v : List ℕ) (m : List (SessionKey × List ℕ))
    → key_eq.beq k key ≡ true
    → ids_of key ((k, v) ∷ m) ≡ v
ids_of-here key k v m t =
    ap (λ (o : Option (List ℕ)). elim o as (λ x. List ℕ) [ none ↦ [] | some ids ↦ ids ])
      (if_true (key_eq.beq k key) (some v) (lookup key m) t)

ids_of-there :
    (key k : SessionKey) (v : List ℕ) (m : List (SessionKey × List ℕ))
    → key_eq.beq k key ≡ false
    → ids_of key ((k, v) ∷ m) ≡ ids_of key m
ids_of-there key k v m f =
    ap (λ (o : Option (List ℕ)). elim o as (λ x. List ℕ) [ none ↦ [] | some ids ↦ ids ])
      (if_false (key_eq.beq k key) (some v) (lookup key m) f)

pub size-insert :
    (p : SessionKey → Bool) (key : SessionKey) (ids : List ℕ) (m : List (SessionKey × List ℕ))
    → size p (insert key ids m) + weight p key (ids_of key m) ≡ size p m + weight p key ids
size-insert p key ids [] =
    let none_yet : weight p key [] ≡ 0 = ground arith in
    omega (arith, size-cons p key ids [], none_yet)
size-insert p key ids ((k, v) ∷ m) = elim (Bool-cases (key_eq.beq k key)) [
  | inl t ↦
      let same = (key_eq.beq_iff k key).0 t in
      omega (
        arith,
        ap (size p) (if_true (key_eq.beq k key) ((key, ids) ∷ m) ((k, v) ∷ insert key ids m) t),
        ap (weight p key) (ids_of-here key k v m t),
        ap (λ j. weight p j v) same,
        size-cons p key ids m,
        size-cons p k v m,
      )
  | inr f ↦ omega (
    arith,
    ap (size p) (if_false (key_eq.beq k key) ((key, ids) ∷ m) ((k, v) ∷ insert key ids m) f),
    ap (weight p key) (ids_of-there key k v m f),
    size-insert p key ids m,
    size-cons p k v (insert key ids m),
    size-cons p k v m,
  )
]

pub size-remove :
    (p : SessionKey → Bool) (key : SessionKey) (m : List (SessionKey × List ℕ))
    → Unique m
    → size p (remove key m) + weight p key (ids_of key m) ≡ size p m
size-remove p key [] u =
    let none_yet : weight p key [] ≡ 0 = ground arith in omega (arith, none_yet)
size-remove p key ((k, v) ∷ m) (n, u) = elim (Bool-cases (key_eq.beq k key)) [
  | inl t ↦
      let same = (key_eq.beq_iff k key).0 t in
      let absent : lookup key m ≡ none = ap (λ j. lookup j m) (sym same) ∙ n in
      omega (
        arith,
        ap (size p) (if_true (key_eq.beq k key) (remove key m) ((k, v) ∷ remove key m) t),
        ap (size p) (remove_absent key m absent),
        ap (weight p key) (ids_of-here key k v m t),
        ap (λ j. weight p j v) same,
        size-cons p k v m,
      )
  | inr f ↦ omega (
    arith,
    ap (size p) (if_false (key_eq.beq k key) (remove key m) ((k, v) ∷ remove key m) f),
    ap (weight p key) (ids_of-there key k v m f),
    size-remove p key m u,
    size-cons p k v (remove key m),
    size-cons p k v m,
  )
]

pub Unique-insert :
    (key : SessionKey) (ids : List ℕ) (m : List (SessionKey × List ℕ))
    → Unique m
    → Unique (insert key ids m)
Unique-insert key ids [] u = (refl, tt)
Unique-insert key ids ((k, v) ∷ m) (n, u) = elim (Bool-cases (key_eq.beq k key)) [
  | inl t ↦
      let same = (key_eq.beq_iff k key).0 t in
      subst Unique (sym (if_true (key_eq.beq k key) ((key, ids) ∷ m) ((k, v) ∷ insert key ids m) t))
        (ap (λ j. lookup j m) (sym same) ∙ n, u)
  | inr f ↦
      let apart : key_eq.beq key k ≡ false =
        ground (arith, f, key_eq.beq_iff k key, key_eq.beq_iff key k) in
      subst Unique
        (sym (if_false (key_eq.beq k key) ((key, ids) ∷ m) ((k, v) ∷ insert key ids m) f))
        (
          lookup-insert key k ids m
              ∙ (if_false (key_eq.beq key k) (some ids) (lookup k m) apart ∙ n),
          Unique-insert key ids m u,
        )
]

-- How often an identifier stands under a key, in the map and among the guards.
abbrev pub one_if : Bool → ℕ
one_if true = 1
one_if false = 0

abbrev pub times : ℕ → List ℕ → ℕ
times id [] = 0
times id (i ∷ ids) = one_if (id == i) + times id ids

abbrev pub guards : ℕ → SessionKey → List (ℕ × SessionKey) → ℕ
guards id key [] = 0
guards id key ((i, k) ∷ live) =
    (if key_eq.beq k key then one_if (id == i) else 0) + guards id key live

abbrev pub matching : (SessionKey → Bool) → List (ℕ × SessionKey) → ℕ
matching p [] = 0
matching p ((i, k) ∷ live) = one_if (p k) + matching p live

pub ids_of-insert :
    (key k : SessionKey) (ids : List ℕ) (m : List (SessionKey × List ℕ))
    → ids_of k (insert key ids m) ≡ (if key_eq.beq key k then ids else ids_of k m)
ids_of-insert key k ids m = elim (Bool-cases (key_eq.beq key k)) [
  | inl t ↦
      ap (λ (o : Option (List ℕ)). elim o as (λ x. List ℕ) [ none ↦ [] | some v ↦ v ])
        (lookup-insert key k ids m ∙ if_true (key_eq.beq key k) (some ids) (lookup k m) t)
      ∙ sym (if_true (key_eq.beq key k) ids (ids_of k m) t)
  | inr f ↦
      ap (λ (o : Option (List ℕ)). elim o as (λ x. List ℕ) [ none ↦ [] | some v ↦ v ])
        (lookup-insert key k ids m ∙ if_false (key_eq.beq key k) (some ids) (lookup k m) f)
      ∙ sym (if_false (key_eq.beq key k) ids (ids_of k m) f)
]

pub ids_of-remove :
    (key k : SessionKey) (m : List (SessionKey × List ℕ))
    → ids_of k (remove key m) ≡ (if key_eq.beq key k then [] else ids_of k m)
ids_of-remove key k m = elim (Bool-cases (key_eq.beq key k)) [
  | inl t ↦
      ap (λ (o : Option (List ℕ)). elim o as (λ x. List ℕ) [ none ↦ [] | some v ↦ v ])
        (lookup-remove key k m ∙ if_true (key_eq.beq key k) none (lookup k m) t)
      ∙ sym (if_true (key_eq.beq key k) [] (ids_of k m) t)
  | inr f ↦
      ap (λ (o : Option (List ℕ)). elim o as (λ x. List ℕ) [ none ↦ [] | some v ↦ v ])
        (lookup-remove key k m ∙ if_false (key_eq.beq key k) none (lookup k m) f)
      ∙ sym (if_false (key_eq.beq key k) [] (ids_of k m) f)
]

pub has-times : (id : ℕ) (ids : List ℕ) → times id ids ≡ 0 → has id ids ≡ false
has-times id [] h = refl
has-times id (i ∷ ids) h = ground (arith, has-times id ids)

pub times-append : (id : ℕ) (xs ys : List ℕ) → times id (xs ++ ys) ≡ times id xs + times id ys
times-append id [] ys = omega arith
times-append id (x ∷ xs) ys = omega (arith, times-append id xs ys)

pub remove_id_lem :
    (id : ℕ) (ids : List ℕ)
    → 1 ≤ times id ids
    → (suc (length (remove_id id ids)) ≡ length ids)
      × ((j : ℕ) → times j (remove_id id ids) + one_if (j == id) ≡ times j ids)
remove_id_lem id [] h = absurd (omega arith)
remove_id_lem id (i ∷ ids) h = elim (Bool-cases (id == i)) [
  | inl t ↦
      let same : id ≡ i = ground (arith, t) in
      let gone : remove_id id (i ∷ ids) ≡ ids = if_true (id == i) ids (i ∷ remove_id id ids) t in
      (
        omega (arith, ap length gone),
        λ j. omega (arith, ap (times j) gone, ap (λ k. one_if (j == k)) same),
      )
  | inr f ↦
      let more : 1 ≤ times id ids = omega (arith, h, ap one_if f) in
      let (a, b) = remove_id_lem id ids more in
      let kept : remove_id id (i ∷ ids) ≡ i ∷ remove_id id ids =
        if_false (id == i) ids (i ∷ remove_id id ids) f in
      (omega (arith, ap length kept, a), λ j. omega (arith, ap (times j) kept, b j))
]

-- What the removal of a guard from the list of guards does to the counts.
pub erase-guards :
    (live : List (ℕ × SessionKey)) (i id : ℕ) (key : SessionKey)
    → get_elem? live i ≡ some (id, key)
    → ((j : ℕ) (k : SessionKey)
        → guards j k (erase_at live i) + (if key_eq.beq key k then one_if (j == id) else 0)
          ≡ guards j k live)
      × ((p : SessionKey → Bool) → matching p (erase_at live i) + one_if (p key) ≡ matching p live)
erase-guards [] i id key h = cc
erase-guards ((x, y) ∷ live) zero id key h =
    let same : (x, y) ≡ (id, key) = cc h in
    let first : x ≡ id = ap (λ (g : ℕ × SessionKey). g.0) same in
    let second : y ≡ key = ap (λ (g : ℕ × SessionKey). g.1) same in
    (
      λ j k. omega (
        arith,
        ap (λ (g : ℕ × SessionKey). if key_eq.beq g.1 k then one_if (j == g.0) else 0) same,
      ),
      λ p. omega (arith, ap (λ (z : SessionKey). one_if (p z)) second),
    )
erase-guards ((x, y) ∷ live) (suc i) id key h =
    let (a, b) = erase-guards live i id key h in
    (λ j k. omega (arith, a j k), λ p. omega (arith, b p))

pub weight-rise :
    (p : SessionKey → Bool) (key : SessionKey) (short long : List ℕ)
    → length long ≡ suc (length short)
    → weight p key long ≡ weight p key short + one_if (p key)
weight-rise p key short long h = elim (Bool-cases (p key)) [
  | inl t ↦ rw t (omega (arith, h))
  | inr f ↦ rw f (omega arith)
]

pub is_empty-nil : (ids : List ℕ) → is_empty ids ≡ true → ids ≡ []
is_empty-nil [] h = refl
is_empty-nil (i ∷ ids) h = cc

pub weight-nil : (p : SessionKey → Bool) (key : SessionKey) → weight p key [] ≡ 0
weight-nil p key = ground arith
