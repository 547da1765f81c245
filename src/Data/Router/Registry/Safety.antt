-- ===== src/Data/Router/Registry/Safety.antt =====
-- Whose sessions the router holds under an address, whatever calls are made.
use porta.Prelude.{
  ℕ, ◌<◌, ◌≡◌, refl, sym, ap, ◌∙◌, inl, inr, Option, none, some, List, [], ◌∷◌, arith, if_cases,
  Option-cases,
}
use porta.Prelude.Map.{lookup, insert, list_eq, nat_eq, lookup-insert_cases}
use porta.Wire.Bytes.{Bytes}
use porta.Data.Queue.{DropReason}
use porta.Data.Router.{Session, SessionGroup, Router, record_drop, close_session, close_at}
use porta.Data.Router.Registry.{close_all, close_group, close_previous}

-- Each session in a lane of a group has the group's address, and identities are given out in order.
pub record IsRouter (n : ℕ) (r : Router) : Type 0 where
  pub owned :
      (address : Bytes) (group : SessionGroup) (lane id : ℕ) (s : Session)
      → lookup address r.sessions ≡ some group
      → lookup lane group.lanes ≡ some id
      → lookup id r.store ≡ some s
      → s.address ≡ address
  pub stored : (id : ℕ) (s : Session) → lookup id r.store ≡ some s → id < n
  pub laned :
      (address : Bytes) (group : SessionGroup) (lane id : ℕ)
      → lookup address r.sessions ≡ some group
      → lookup lane group.lanes ≡ some id
      → id < n

-- What takes sessions and lanes away, or changes a session but for its address.
pub record Shrinks (r u : Router) : Type 0 where
  pub tame :
      (id : ℕ) (s : Session)
      → lookup id u.store ≡ some s
      → (old : Session) × (lookup id r.store ≡ some old) × (s.address ≡ old.address)
  pub sub :
      (address : Bytes) (group : SessionGroup) (lane id : ℕ)
      → lookup address u.sessions ≡ some group
      → lookup lane group.lanes ≡ some id
      → (old : SessionGroup) × (lookup address r.sessions ≡ some old)
        × (lookup lane old.lanes ≡ some id)

pub Shrinks-refl : (r : Router) → Shrinks r r
Shrinks-refl r = record { tame = λ id s h. (s, h, refl); sub = λ a g l i h k. (g, h, k) }

pub Shrinks-trans : (r u v : Router) → Shrinks r u → Shrinks u v → Shrinks r v
Shrinks-trans r u v a b = record {
  tame =
      λ id s h. let (t, k, e) = b.tame id s h in let (old, l, f) = a.tame id t k in (old, l, e ∙ f);
  sub = λ ad g lane id h k. let (t, l, e) = b.sub ad g lane id h k in a.sub ad t lane id l e;
}

pub Shrinks-IsRouter : (n : ℕ) (r u : Router) → Shrinks r u → IsRouter n r → IsRouter n u
Shrinks-IsRouter n r u d v = record {
  owned = λ ad g lane id s h k l.
      let (old, o, e) = d.tame id s l in
      let (group, p, q) = d.sub ad g lane id h k in e ∙ v.owned ad group lane id old p q o;
  stored = λ id s h. let (old, o, e) = d.tame id s h in v.stored id old o;
  laned = λ ad g lane id h k.
      let (group, p, q) = d.sub ad g lane id h k in v.laned ad group lane id p q;
}

-- A session that is written with its address kept.
pub insert-Shrinks :
    (id : ℕ) (old s : Session) (r : Router)
    → lookup id r.store ≡ some old
    → s.address ≡ old.address
    → Shrinks r (record r { store = insert id s r.store })
insert-Shrinks id old s r h e = record {
  tame = λ i t k. elim (lookup-insert_cases id i s t r.store k) [
    | inl (same, value) ↦ (
      old,
      ap (λ j. lookup j r.store) (sym same) ∙ h,
      ap (λ (x : Session). x.address) (sym value) ∙ e,
    )
    | inr (other, found) ↦ (t, found, refl)
  ];
  sub = λ a g l i h k. (g, h, k);
}

-- A group that is written with no lane more than it had.
pub group-Shrinks :
    (address : Bytes) (old group : SessionGroup) (r : Router)
    → lookup address r.sessions ≡ some old
    → ((lane id : ℕ) → lookup lane group.lanes ≡ some id → lookup lane old.lanes ≡ some id)
    → Shrinks r (record r { sessions = insert address group r.sessions })
group-Shrinks address old group r h e = record {
  tame = λ id s h. (s, h, refl);
  sub = λ a g lane i k l. elim (lookup-insert_cases address a group g r.sessions k) [
    | inl (same, value) ↦ (
      old,
      ap (λ b. lookup b r.sessions) (sym same) ∙ h,
      e lane i (ap (λ (x : SessionGroup). lookup lane x.lanes) value ∙ l),
    )
    | inr (other, found) ↦ (g, found, l)
  ];
}

pub record_drop-Shrinks : (reason : DropReason) (r : Router) → Shrinks r (record_drop reason r)
unfolding record_drop
record_drop-Shrinks reason r =
    if_cases {A = Router} (Shrinks r) r.has_metrics _ _
      (λ _. record { tame = λ id s h. (s, h, refl); sub = λ a g l i h k. (g, h, k) })
      (λ _. Shrinks-refl r)

pub close_at-Shrinks : (id : ℕ) (r : Router) → Shrinks r (close_at id r)
unfolding close_at close_session
close_at-Shrinks id r = elim (Option-cases (lookup id r.store)) [
  | inl e ↦ rw (close_at, e) (Shrinks-refl r)
  | inr (s, e) ↦ rw (close_at, e) (insert-Shrinks id s (close_session s) r e (ground arith))
]

close_all-Shrinks : (lanes : List (ℕ × ℕ)) (r : Router) → Shrinks r (close_all lanes r)
unfolding close_all
close_all-Shrinks [] r = Shrinks-refl r
close_all-Shrinks ((lane, id) ∷ lanes) r =
    Shrinks-trans r (close_at id r) (close_all lanes (close_at id r)) (close_at-Shrinks id r)
      (close_all-Shrinks lanes (close_at id r))

pub close_group-Shrinks :
    (group : Option SessionGroup) (r : Router) → Shrinks r (close_group group r)
unfolding close_group
close_group-Shrinks none r = Shrinks-refl r
close_group-Shrinks (some group) r = close_all-Shrinks group.lanes r

pub close_previous-Shrinks :
    (previous : Option ℕ) (r : Router) → Shrinks r (close_previous previous r)
close_previous-Shrinks none r = Shrinks-refl r
close_previous-Shrinks (some id) r = close_at-Shrinks id r
