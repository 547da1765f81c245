-- ===== src/Prelude/Map.antt =====
-- Maps as association lists, over keys with a Boolean equality. `insert` keeps one entry for a key
-- and its place; the order of entries models no order of the source's hash maps.
use porta.Prelude.{
  ℕ, ◌≡◌, ◌≢◌, refl, ◌↔◌, inl, inr, Bool, true, false, ◌&&◌, Option, none, some, List, [], ◌∷◌,
  arith, ◌==◌, if◌then◌else◌, Bool-cases,
}
use porta.Prelude.{◌⊎◌}

pub record Eq {ℓ} (A : Type ℓ) : Type ℓ where
  pub beq : A → A → Bool
  pub beq_iff : (a b : A) → (beq a b ≡ true) ↔ (a ≡ b)

pub nat_beq : (a b : ℕ) → ((a == b) ≡ true) ↔ (a ≡ b)
nat_beq a b = ground arith

instance abbrev pub nat_eq : Eq ℕ
nat_eq = record { beq = ◌==◌; beq_iff = nat_beq }

abbrev pub list_beq {ℓ} : {A : Type ℓ} ⦃e : Eq A⦄ → List A → List A → Bool
list_beq [] [] = true
list_beq [] (y ∷ ys) = false
list_beq (x ∷ xs) [] = false
list_beq ⦃e⦄ (x ∷ xs) (y ∷ ys) = e.beq x y && list_beq ⦃e = e⦄ xs ys

pub list_beq_iff {ℓ} :
    {A : Type ℓ} ⦃e : Eq A⦄ (xs ys : List A) → (list_beq ⦃e = e⦄ xs ys ≡ true) ↔ (xs ≡ ys)
list_beq_iff [] [] = (λ _. refl, λ _. refl)
list_beq_iff [] (y ∷ ys) = (λ h. cc, λ h. cc)
list_beq_iff (x ∷ xs) [] = (λ h. cc, λ h. cc)
list_beq_iff ⦃e⦄ (x ∷ xs) (y ∷ ys) = ground (arith, e.beq_iff x y, list_beq_iff ⦃e = e⦄ xs ys)

instance abbrev pub list_eq {ℓ} : {A : Type ℓ} ⦃e : Eq A⦄ → Eq (List A)
list_eq ⦃e⦄ = record { beq = list_beq ⦃e = e⦄; beq_iff = list_beq_iff ⦃e = e⦄ }

module _ {ℓ κ} {K : Type ℓ} {V : Type κ} ⦃e : Eq K⦄ where
  abbrev pub lookup : K → List (K × V) → Option V
  lookup k [] = none
  lookup k ((j, v) ∷ m) = if e.beq j k then some v else lookup k m

  abbrev pub insert : K → V → List (K × V) → List (K × V)
  insert k v [] = (k, v) ∷ []
  insert k v ((j, w) ∷ m) = if e.beq j k then (k, v) ∷ m else (j, w) ∷ insert k v m

  abbrev pub remove : K → List (K × V) → List (K × V)
  remove k [] = []
  remove k ((j, w) ∷ m) = if e.beq j k then remove k m else (j, w) ∷ remove k m

  pub lookup-insert :
      (k j : K) (v : V) (m : List (K × V))
      → lookup j (insert k v m) ≡ (if e.beq k j then some v else lookup j m)
  lookup-insert k j v [] = refl
  lookup-insert k j v ((i, w) ∷ m) =
      ground (arith, e.beq_iff k j, e.beq_iff i k, e.beq_iff i j, lookup-insert k j v m)

  pub lookup-insert_same : (k : K) (v : V) (m : List (K × V)) → lookup k (insert k v m) ≡ some v
  lookup-insert_same k v m = ground (arith, lookup-insert k k v m, e.beq_iff k k)

  pub lookup-insert_other :
      (k j : K) (v : V) (m : List (K × V)) → k ≢ j → lookup j (insert k v m) ≡ lookup j m
  lookup-insert_other k j v m h = ground (arith, lookup-insert k j v m, e.beq_iff k j)

  pub lookup-insert_cases :
      (k j : K) (v w : V) (m : List (K × V))
      → lookup j (insert k v m) ≡ some w
      → ((k ≡ j) × (v ≡ w)) ⊎ ((k ≢ j) × (lookup j m ≡ some w))
  lookup-insert_cases k j v w m h = elim (Bool-cases (e.beq k j)) [
    | inl t ↦ inl ((e.beq_iff k j).0 t, ground (arith, lookup-insert k j v m))
    | inr f ↦ inr (λ q. cc ((e.beq_iff k j).1 q, f), ground (arith, lookup-insert k j v m))
  ]

  pub lookup-remove :
      (k j : K) (m : List (K × V))
      → lookup j (remove k m) ≡ (if e.beq k j then none else lookup j m)
  lookup-remove k j [] = ground arith
  lookup-remove k j ((i, w) ∷ m) =
      ground (arith, e.beq_iff k j, e.beq_iff i k, e.beq_iff i j, lookup-remove k j m)

-- What an insertion can be undone by.
module _ {ℓ κ} {K : Type ℓ} {V : Type κ} ⦃e : Eq K⦄ where
  pub lookup-insert_back :
      (k j : K) (v w : V) (m : List (K × V))
      → lookup k m ≡ some v
      → lookup j (insert k v (insert k w m)) ≡ lookup j m
  lookup-insert_back k j v w m h =
      ground (arith, lookup-insert k j v (insert k w m), lookup-insert k j w m, e.beq_iff k j, h)

  pub lookup-remove_back :
      (k j : K) (w : V) (m : List (K × V))
      → lookup k m ≡ none
      → lookup j (remove k (insert k w m)) ≡ lookup j m
  lookup-remove_back k j w m h =
      ground (arith, lookup-remove k j (insert k w m), lookup-insert k j w m, e.beq_iff k j, h)

  pub lookup-insert_known :
      (k j : K) (v : V) (m : List (K × V))
      → lookup k m ≡ some v
      → lookup j (insert k v m) ≡ lookup j m
  lookup-insert_known k j v m h = ground (arith, lookup-insert k j v m, e.beq_iff k j, h)

  pub lookup-remove-none :
      (k j : K) (m : List (K × V)) → lookup k m ≡ none → lookup j (remove k m) ≡ lookup j m
  lookup-remove-none k j m h = ground (arith, lookup-remove k j m, e.beq_iff k j, h)

module _ {ℓ} {K : Type ℓ} ⦃e : Eq K⦄ where
  pub beq_refl : (k : K) → e.beq k k ≡ true
  beq_refl k = (e.beq_iff k k).1 refl

  pub beq_ne : (k j : K) → k ≢ j → e.beq k j ≡ false
  beq_ne k j h = elim (Bool-cases (e.beq k j)) [
    | inl t ↦ absurd (h ((e.beq_iff k j).0 t))
    | inr f ↦ f
  ]
