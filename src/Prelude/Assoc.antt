-- ===== src/Prelude/Assoc.antt =====
-- Association lists whose keys are all different.
use porta.Prelude.Lists.{length, length-append}
use porta.Prelude.Tests.{if◌then◌else◌, Bool-cases}
use porta.Prelude.Map.{Eq, lookup, insert, remove, lookup-remove, beq_refl}
use Prim.Native.Nat.{suc}
use mathlib.Core.Path.{◌≡◌, refl, ap, sym, ◌∙◌, subst}
use mathlib.Core.Logic.{inl, inr}
use mathlib.Core.List.{List, [], ◌∷◌, ◌++◌}
use mathlib.Core.Option.{none, some}
use mathlib.Core.Bool.{Bool, false}
use native.Mathlib.Omega.{arith}

module _ {ℓ κ} {K : Type ℓ} {V : Type κ} ⦃e : Eq K⦄ where
  abbrev pub Unique : List (K × V) → Type (ℓ ⊔ κ)
  Unique [] = Unit
  Unique ((k, v) ∷ m) = (lookup k m ≡ none) × Unique m

  pub lookup-append-none :
      (k : K) (a b : List (K × V)) → lookup k a ≡ none → lookup k (a ++ b) ≡ lookup k b
  lookup-append-none k [] b h = refl
  lookup-append-none k ((j, w) ∷ a) b h = ground (arith, lookup-append-none k a b)

  pub lookup-append-some :
      (k : K) (v : V) (a b : List (K × V)) → lookup k a ≡ some v → lookup k (a ++ b) ≡ some v
  lookup-append-some k v [] b h = cc
  lookup-append-some k v ((j, w) ∷ a) b h = ground (arith, lookup-append-some k v a b)

  -- A key that is in neither part is not in the whole, and conversely.
  pub lookup-append_absent :
      (k : K) (a b : List (K × V))
      → lookup k (a ++ b) ≡ none
      → (lookup k a ≡ none) × (lookup k b ≡ none)
  lookup-append_absent k [] b h = (refl, h)
  lookup-append_absent k ((j, w) ∷ a) b h = ground (arith, lookup-append_absent k a b)

  pub remove_absent : (k : K) (m : List (K × V)) → lookup k m ≡ none → remove k m ≡ m
  remove_absent k [] h = refl
  remove_absent k ((j, w) ∷ m) h = ground (arith, remove_absent k m)

  pub insert_absent :
      (k : K) (v : V) (m : List (K × V)) → lookup k m ≡ none → insert k v m ≡ m ++ (k, v) ∷ []
  insert_absent k v [] h = refl
  insert_absent k v ((j, w) ∷ m) h = ground (arith, insert_absent k v m)

  pub Unique-snoc :
      (k : K) (v : V) (m : List (K × V)) → Unique m → lookup k m ≡ none → Unique (m ++ (k, v) ∷ [])
  Unique-snoc k v [] u h = (refl, tt)
  Unique-snoc k v ((j, w) ∷ m) (n, u) h =
      let apart : e.beq k j ≡ false = ground (arith, e.beq_iff j k, e.beq_iff k j, h) in
      (
        lookup-append-none j m ((k, v) ∷ []) n
            ∙ ap (λ (b : Bool). if b then some v else none) apart,
        Unique-snoc k v m u (ground (arith, h)),
      )

  -- A key in the middle is in neither part, and its removal joins the parts.
  pub Unique-middle :
      (a : List (K × V)) (k : K) (v : V) (b : List (K × V))
      → Unique (a ++ (k, v) ∷ b)
      → (lookup k a ≡ none)
        × (lookup k b ≡ none)
        × (remove k (a ++ (k, v) ∷ b) ≡ a ++ b)
        × Unique (a ++ b)
  Unique-middle [] k v b (n, u) = (refl, n, ground (arith, beq_refl k, remove_absent k b n), u)
  Unique-middle ((j, w) ∷ a) k v b (n, u) =
      let (x, y, z, t) = Unique-middle a k v b u in
      let (na, nb) = lookup-append_absent j a ((k, v) ∷ b) n in
      let apart : e.beq j k ≡ false = ground (arith, e.beq_iff j k, e.beq_iff k j, nb) in
      let tail : lookup j b ≡ none = ground (arith, nb) in
      (
        ground (arith, apart, x),
        y,
        ground (arith, apart, z),
        (lookup-append-none j a b na ∙ tail, t),
      )

  pub lookup-split :
      (k : K) (v : V) (m : List (K × V))
      → lookup k m ≡ some v
      → (a b : List (K × V)) × (m ≡ a ++ (k, v) ∷ b)
  lookup-split k v [] h = cc
  lookup-split k v ((j, w) ∷ m) h = elim (Bool-cases (e.beq j k)) [
    | inl t ↦
        let key = (e.beq_iff j k).0 t in
        let value : w ≡ v = ground (arith, t, h) in ([], m, λ i. (key i, value i) ∷ m)
    | inr f ↦
        let (a, b, s) = lookup-split k v m (ground (arith, f, h)) in
        ((j, w) ∷ a, b, ap (◌∷◌ (j, w)) s)
  ]

  pub Unique-remove : (k : K) (m : List (K × V)) → Unique m → Unique (remove k m)
  Unique-remove k [] u = tt
  Unique-remove k ((j, w) ∷ m) (n, u) = elim (Bool-cases (e.beq j k)) [
    | inl t ↦ ground (arith, t, Unique-remove k m u)
    | inr f ↦ ground (arith, f, lookup-remove k j m, n, Unique-remove k m u)
  ]

  pub length-remove :
      (k : K) (v : V) (m : List (K × V))
      → Unique m
      → lookup k m ≡ some v
      → suc (length (remove k m)) ≡ length m
  length-remove k v m u h =
      let (a, b, s) = lookup-split k v m h in
      let (x, y, z, t) = Unique-middle a k v b (subst Unique s u) in
      omega (
        arith,
        ap length (ap (remove k) s ∙ z),
        length-append a b,
        ap length s,
        length-append a ((k, v) ∷ b),
      )

  pub lookup-snoc :
      (k j : K) (v : V) (m : List (K × V))
      → lookup k m ≡ none
      → lookup j (m ++ (k, v) ∷ []) ≡ (if e.beq k j then some v else lookup j m)
  lookup-snoc k j v [] h = refl
  lookup-snoc k j v ((i, w) ∷ m) h =
      ground (arith, h, lookup-snoc k j v m, e.beq_iff i k, e.beq_iff i j, e.beq_iff k j)

  pub lookup-middle :
      (a : List (K × V)) (k j : K) (v : V) (b : List (K × V))
      → lookup k a ≡ none
      → lookup j (a ++ (k, v) ∷ b) ≡ (if e.beq k j then some v else lookup j (a ++ b))
  lookup-middle [] k j v b h = refl
  lookup-middle ((i, w) ∷ a) k j v b h =
      ground (arith, h, lookup-middle a k j v b, e.beq_iff i k, e.beq_iff i j, e.beq_iff k j)

  -- A map that looks like a list with `k` in the middle looks like the joined parts without it.
  pub lookup-remove_middle :
      (m a : List (K × V)) (k : K) (v : V) (b : List (K × V)) (j : K)
      → Unique (a ++ (k, v) ∷ b)
      → lookup j m ≡ lookup j (a ++ (k, v) ∷ b)
      → lookup j (remove k m) ≡ lookup j (a ++ b)
  lookup-remove_middle m a k v b j u h =
      let (before, after, gone, unique) = Unique-middle a k v b u in
      let middle = lookup-middle a k j v b before in
      let removed = lookup-remove k j m in
      elim (Bool-cases (e.beq k j)) [
        | inr f ↦ ground (arith, f, removed, middle, h)
        | inl t ↦
            let same = (e.beq_iff k j).0 t in
            removed
            ∙ (ap (λ (b : Bool). if b then none else lookup j m) t
                ∙ sym (
                    ap (λ (x : K). lookup x (a ++ b)) (sym same)
                    ∙ (lookup-append-none k a b before ∙ after)))
      ]

  -- A key moved from the middle to the end is found as before.
  pub lookup-moved :
      (a : List (K × V)) (k : K) (v : V) (b : List (K × V)) (j : K)
      → Unique (a ++ (k, v) ∷ b)
      → lookup j ((a ++ b) ++ (k, v) ∷ []) ≡ lookup j (a ++ (k, v) ∷ b)
  lookup-moved a k v b j u =
      let (before, after, gone, unique) = Unique-middle a k v b u in
      lookup-snoc k j v (a ++ b) (lookup-append-none k a b before ∙ after)
      ∙ sym (lookup-middle a k j v b before)

  pub lookup-remove_absent :
      (k j : K) (m : List (K × V)) → lookup j m ≡ none → lookup j (remove k m) ≡ none
  lookup-remove_absent k j m h = ground (arith, lookup-remove k j m, h)
