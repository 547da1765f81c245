-- ===== src/State/Pool/Addressed.antt =====
-- The two maps of the pool: each client's record and each address's owner agree.
use porta.Prelude.Map.{nat_eq, list_eq, list_beq_iff, lookup, insert, lookup-insert}
use porta.Prelude.{
  ℕ, ◌≤◌, ◌<◌, ◌≡◌, sym, ap, ◌∙◌, inl, inr, none, some, List, [], arith, Bool-cases,
}
use porta.Wire.Bytes.{Bytes}
use porta.State.Pool.{LeaseRecord}
use porta.Prelude.{subst}
use porta.Prelude.Map.{list_beq}
use porta.Prelude.Map.{lookup-insert_same}
use porta.Prelude.Map.{lookup-insert_cases}
use porta.Prelude.Map.{lookup-insert_other}

-- Every record's address belongs to its client and lies strictly between `low` and `high`, its
-- generation is at most `last`, and every owned address is that of its owner's record.
pub record Addressed (low high last : ℕ) (clients : List (Bytes × LeaseRecord))
    (owners : List (ℕ × Bytes)) : Type 0 where
  pub owned :
      (c : Bytes) (r : LeaseRecord) → lookup c clients ≡ some r → lookup r.address owners ≡ some c
  pub held :
      (a : ℕ) (c : Bytes)
      → lookup a owners ≡ some c
      → (r : LeaseRecord) × (lookup c clients ≡ some r) × (r.address ≡ a)
  pub ranged :
      (c : Bytes) (r : LeaseRecord)
      → lookup c clients ≡ some r
      → (low < r.address) × (r.address < high)
  pub dated : (c : Bytes) (r : LeaseRecord) → lookup c clients ≡ some r → r.generation ≤ last

pub Addressed-empty : (low high last : ℕ) → Addressed low high last [] []
Addressed-empty low high last = record {
  owned = λ c r h. cc;
  held = λ a c h. cc;
  ranged = λ c r h. cc;
  dated = λ c r h. cc;
}

module _ {low high last : ℕ} {clients : List (Bytes × LeaseRecord)} {owners : List (ℕ × Bytes)}
    (v : Addressed low high last clients owners) where
  -- No two clients have one address.
  pub address_injective :
      (c d : Bytes) (r s : LeaseRecord)
      → lookup c clients ≡ some r
      → lookup d clients ≡ some s
      → r.address ≡ s.address
      → c ≡ d
  address_injective c d r s hc hd e = cc (v.owned c r hc, v.owned d s hd, e)

  pub Addressed-later : {m : ℕ} → last ≤ m → Addressed low high m clients owners
  Addressed-later h = record {
    owned = v.owned;
    held = v.held;
    ranged = v.ranged;
    dated = λ c r e. omega (arith, v.dated c r e);
  }

  -- Maps that answer alike.
  pub Addressed-same :
      (clients' : List (Bytes × LeaseRecord)) (owners' : List (ℕ × Bytes))
      → ((c : Bytes) → lookup c clients' ≡ lookup c clients)
      → ((a : ℕ) → lookup a owners' ≡ lookup a owners)
      → Addressed low high last clients' owners'
  Addressed-same clients' owners' f g = record {
    owned = λ c r h. g r.address ∙ v.owned c r (sym (f c) ∙ h);
    held = λ a c h. let (r, e, k) = v.held a c (sym (g a) ∙ h) in (r, f c ∙ e, k);
    ranged = λ c r h. v.ranged c r (sym (f c) ∙ h);
    dated = λ c r h. v.dated c r (sym (f c) ∙ h);
  }

  -- A new record for a known client, at its address.
  pub Addressed-rewrite :
      (c : Bytes) (r r' : LeaseRecord)
      → lookup c clients ≡ some r
      → r'.address ≡ r.address
      → r'.generation ≤ last
      → Addressed low high last (insert c r' clients) owners
  Addressed-rewrite c r r' known same fits = record {
    owned = λ d s h.
        ground
          (arith, lookup-insert c d r' clients, list_beq_iff c d, v.owned c r known, v.owned d s);
    held = held';
    ranged = λ d s h.
        ground
          (arith, lookup-insert c d r' clients, list_beq_iff c d, v.ranged c r known, v.ranged d s);
    dated = λ d s h. ground (arith, lookup-insert c d r' clients, list_beq_iff c d, v.dated d s);
  }
    where
      held' :
          (a : ℕ) (d : Bytes)
          → lookup a owners ≡ some d
          → (s : LeaseRecord) × (lookup d (insert c r' clients) ≡ some s) × (s.address ≡ a)
      held' a d h =
          let (s, e, k) = v.held a d h in
          elim (Bool-cases (list_beq c d)) [
            | inl t ↦ (
              r',
              ground (arith, lookup-insert c d r' clients),
              cc ((list_beq_iff c d).0 t, known, e, k, same),
            )
            | inr f ↦ (s, ground (arith, lookup-insert c d r' clients, e), k)
          ]

  -- A first record for a client, at an address that nobody owns.
  pub Addressed-add :
      (c : Bytes) (r : LeaseRecord)
      → lookup c clients ≡ none
      → lookup r.address owners ≡ none
      → low < r.address
      → r.address < high
      → r.generation ≤ last
      → Addressed low high last (insert c r clients) (insert r.address c owners)
  Addressed-add c r new free above below fits = record {
    owned = λ d s h. elim (lookup-insert_cases c d r s clients h) [
      | inl (q, w) ↦ owned_new d s q w
      | inr (n, e) ↦
          lookup-insert_other r.address s.address c owners (λ q. cc (v.owned d s e, free, q))
          ∙ v.owned d s e
    ];
    held = λ a d h. elim (lookup-insert_cases r.address a c d owners h) [
      | inl (q, w) ↦
          (r, ap (λ x. lookup x (insert c r clients)) (sym w) ∙ lookup-insert_same c r clients, q)
      | inr (n, e) ↦
          let (s, k, m) = v.held a d e in
          (s, lookup-insert_other c d r clients (λ q. cc (k, new, q)) ∙ k, m)
    ];
    ranged = λ d s h. elim (lookup-insert_cases c d r s clients h) [
      | inl (q, w) ↦ subst (λ x. (low < x.address) × (x.address < high)) w (above, below)
      | inr (n, e) ↦ v.ranged d s e
    ];
    dated = λ d s h. elim (lookup-insert_cases c d r s clients h) [
      | inl (q, w) ↦ subst (λ x. x.generation ≤ last) w fits
      | inr (n, e) ↦ v.dated d s e
    ];
  }
    where
      owned_new :
          (d : Bytes) (s : LeaseRecord)
          → c ≡ d
          → r ≡ s
          → lookup s.address (insert r.address c owners) ≡ some d
      owned_new d s q w =
          subst (λ x. lookup x.address (insert r.address c owners) ≡ some d) w
            (lookup-insert_same r.address c owners ∙ ap some q)
