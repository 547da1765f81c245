-- ===== src/Data/Router/Registry/Calls.antt =====
-- The calls of the router, in any order.
use porta.Prelude.{
  ℕ, suc, ◌≡◌, refl, sym, ap, ◌∙◌, inl, inr, ◌⊎◌, Bool, true, false, not, ◌||◌, ◌&&◌, Option, none,
  some, List, [], ◌∷◌, arith, ◌==◌, ltb, leb, if◌then◌else◌, if_cases,
}
use porta.Prelude.Except.{Except}
use porta.Prelude.Map.{lookup, insert, list_eq, list_beq, nat_eq, lookup-insert_cases}
use porta.Wire.Bytes.{Bytes}
use porta.Data.Queue.{masque_config, default_config}
use porta.Data.Router.{
  RouterEvent, lane_collapsed, RouterError, Session, SessionGroup, Router, close_at,
}
use porta.Data.Router.Registry.{
  collapsed_lane_group, new_session, close_group, close_previous, single_group, register, group_for,
  with_lane, join_group, register_group, is_nil, remove_session, drop_session, deliver,
}
use porta.Data.Router.Registry.Shrinking.{
  remove_session-Shrinks, drop_session-Shrinks, deliver-Shrinks,
}
use porta.Data.Router.Registry.Safety.{
  IsRouter, Shrinks-trans, Shrinks-IsRouter, close_at-Shrinks, close_group-Shrinks,
  close_previous-Shrinks,
}

-- A session under a new identity, in a lane of a group that has its address.
added-IsRouter :
    (n : ℕ) (r : Router) (address : Bytes) (group : SessionGroup) (s : Session)
    (log : List RouterEvent)
    → IsRouter n r
    → s.address ≡ address
    → ((l i : ℕ)
        → lookup l group.lanes ≡ some i
        → (i ≡ n)
          ⊎ ((old : SessionGroup) × (lookup address r.sessions ≡ some old)
              × (lookup l old.lanes ≡ some i)))
    → IsRouter (suc n) (record r {
      sessions = insert address group r.sessions;
      store = insert n s r.store;
      log = log;
    })
added-IsRouter n r address group s log v e h = record {
  owned = λ a g l i t k m o. elim (lookup-insert_cases address a group g r.sessions k) [
    | inl (here, value) ↦ elim (h l i (ap (λ (x : SessionGroup). lookup l x.lanes) value ∙ m)) [
      | inl fresh ↦ elim (lookup-insert_cases n i s t r.store o) [
        | inl (same, written) ↦ ap (λ (x : Session). x.address) (sym written) ∙ (e ∙ here)
        | inr (other, found) ↦ absurd (other (sym fresh))
      ]
      | inr (old, p, q) ↦ elim (lookup-insert_cases n i s t r.store o) [
        | inl (same, written) ↦ absurd (omega (arith, same, v.laned address old l i p q))
        | inr (other, found) ↦ v.owned address old l i t p q found ∙ here
      ]
    ]
    | inr (there, kept) ↦ elim (lookup-insert_cases n i s t r.store o) [
      | inl (same, written) ↦ absurd (omega (arith, same, v.laned a g l i kept m))
      | inr (other, found) ↦ v.owned a g l i t kept m found
    ]
  ];
  stored = λ i t k. elim (lookup-insert_cases n i s t r.store k) [
    | inl (same, value) ↦ omega (arith, same)
    | inr (other, found) ↦ omega (arith, v.stored i t found)
  ];
  laned = λ a g l i k m. elim (lookup-insert_cases address a group g r.sessions k) [
    | inl (here, value) ↦ elim (h l i (ap (λ (x : SessionGroup). lookup l x.lanes) value ∙ m)) [
      | inl fresh ↦ omega (arith, fresh)
      | inr (old, p, q) ↦ omega (arith, v.laned address old l i p q)
    ]
    | inr (there, kept) ↦ omega (arith, v.laned a g l i kept m)
  ];
}

register-IsRouter :
    (n : ℕ) (cancelled : Bool) (address : Bytes) (r : Router)
    → IsRouter n r
    → IsRouter (suc n) (register n cancelled address r)
unfolding register
register-IsRouter n cancelled address r v =
    let session = new_session cancelled address false masque_config r in
    let added = record r {
      sessions = insert address (single_group n) r.sessions;
      store = insert n session r.store;
    } in
    Shrinks-IsRouter (suc n) added (close_group (lookup address r.sessions) added)
      (close_group-Shrinks (lookup address r.sessions) added)
      (added-IsRouter n r address (single_group n) session r.log v refl
        (λ l i h. inl (ground (arith, h))))

-- The group that a lane joins has no lane but those of the group under the address.
group_for-lanes :
    (group_id : Bytes) (lane_count : ℕ) (known : Option SessionGroup) (l i : ℕ)
    → lookup l (group_for group_id lane_count known).0.lanes ≡ some i
    → (old : SessionGroup) × (known ≡ some old) × (lookup l old.lanes ≡ some i)
group_for-lanes group_id lane_count none l i = λ h. cc
group_for-lanes group_id lane_count (some group) l i =
    if_cases {A = SessionGroup × Option SessionGroup}
      (λ g.
        lookup l g.0.lanes ≡ some i
        → (old : SessionGroup) × (some group ≡ some old) × (lookup l old.lanes ≡ some i))
      (not (list_beq group.id group_id)) _ _ (λ _ h. cc) (λ _ h. (group, refl, h))

join_group-IsRouter :
    (n : ℕ) (session : Session) (address : Bytes) (lane : ℕ) (connection : Bytes)
    (found : SessionGroup × Option SessionGroup) (r : Router)
    → IsRouter n r
    → session.address ≡ address
    → ((l i : ℕ)
        → lookup l found.0.lanes ≡ some i
        → (old : SessionGroup) × (lookup address r.sessions ≡ some old)
          × (lookup l old.lanes ≡ some i))
    → IsRouter (suc n) (join_group n session address lane connection found r).1
unfolding join_group
join_group-IsRouter n session address lane connection (group, replaced) r v e h =
    let joined = with_lane lane n connection group in
    let collapsed = collapsed_lane_group joined in
    let warned = record joined { collapse_warned = collapsed || joined.collapse_warned } in
    let log =
      if (collapsed && not joined.collapse_warned) && r.has_metrics
      then lane_collapsed ∷ r.log
      else r.log in
    let added = record r {
      sessions = insert address warned r.sessions;
      store = insert n session r.store;
      log = log;
    } in
    let closed = close_group replaced added in
    Shrinks-IsRouter (suc n) added (close_previous (lookup lane group.lanes) closed)
      (Shrinks-trans added closed (close_previous (lookup lane group.lanes) closed)
        (close_group-Shrinks replaced added)
        (close_previous-Shrinks (lookup lane group.lanes) closed))
      (added-IsRouter n r address warned session log v e (λ l i k.
        elim (lookup-insert_cases lane l n i group.lanes k) [
          | inl (same, value) ↦ inl (sym value)
          | inr (other, found) ↦ inr (h l i found)
        ]))

register_group-IsRouter :
    (n : ℕ) (cancelled : Bool) (address group_id : Bytes) (lane lane_count : ℕ) (connection : Bytes)
    (r : Router)
    → IsRouter n r
    → IsRouter (suc n) (register_group n cancelled address group_id lane lane_count connection r).1
unfolding register_group
register_group-IsRouter n cancelled address group_id lane lane_count connection r v =
    let session = new_session cancelled address true default_config r in
    let found = group_for group_id lane_count (lookup address r.sessions) in
    let same : IsRouter (suc n) r = record {
      owned = v.owned;
      stored = λ id s h. omega (arith, v.stored id s h);
      laned = λ a g l i h k. omega (arith, v.laned a g l i h k);
    } in
    if_cases {A = Except RouterError Bool × Router} (λ x. IsRouter (suc n) x.1) (is_nil group_id) _
      _ (λ _. same)
      (λ _.
        if_cases {A = Except RouterError Bool × Router} (λ x. IsRouter (suc n) x.1)
          ((ltb lane_count 2 || ltb 4 lane_count) || leb lane_count lane) _ _ (λ _. same)
          (λ _.
            if_cases {A = Except RouterError Bool × Router} (λ x. IsRouter (suc n) x.1)
              (not (found.0.lane_count == lane_count)) _ _ (λ _. same)
              (λ _.
                join_group-IsRouter n session address lane connection found r v refl
                  (group_for-lanes group_id lane_count (lookup address r.sessions)))))

pub data RouterCall : Type 0 where
  call_register : Bool → Bytes → RouterCall
  call_register_group : Bool → Bytes → Bytes → ℕ → ℕ → Bytes → RouterCall
  call_close call_drop : ℕ → RouterCall
  call_remove : Bytes → Bytes → ℕ → ℕ → RouterCall
  call_deliver : Bytes → ℕ → RouterCall

-- The router with the next identity.
unfoldable pub apply : RouterCall → ℕ × Router → ℕ × Router
apply (call_register cancelled address) (n, r) = (suc n, register n cancelled address r)
apply (call_register_group cancelled address group_id lane lane_count connection) (n, r) =
    (suc n, (register_group n cancelled address group_id lane lane_count connection r).1)
apply (call_close id) (n, r) = (n, close_at id r)
apply (call_drop id) (n, r) = (n, drop_session id r)
apply (call_remove address group_id lane id) (n, r) = (n, remove_session address group_id lane id r)
apply (call_deliver packet now) (n, r) = (n, deliver packet now r)

unfoldable pub run : List RouterCall → ℕ × Router → ℕ × Router
run [] s = s
run (call ∷ calls) s = run calls (apply call s)

-- `Router::new`.
abbrev pub new_router : Bool → Router
new_router has_metrics = record { has_metrics = has_metrics; sessions = []; store = []; log = [] }

apply-IsRouter :
    (call : RouterCall) (n : ℕ) (r : Router)
    → IsRouter n r
    → IsRouter (apply call (n, r)).0 (apply call (n, r)).1
unfolding apply
apply-IsRouter (call_register cancelled address) n r v = register-IsRouter n cancelled address r v
apply-IsRouter (call_register_group cancelled address group_id lane lane_count connection) n r v =
    register_group-IsRouter n cancelled address group_id lane lane_count connection r v
apply-IsRouter (call_close id) n r v =
    Shrinks-IsRouter n r (close_at id r) (close_at-Shrinks id r) v
apply-IsRouter (call_drop id) n r v =
    Shrinks-IsRouter n r (drop_session id r) (drop_session-Shrinks id r) v
apply-IsRouter (call_remove address group_id lane id) n r v =
    Shrinks-IsRouter n r (remove_session address group_id lane id r)
      (remove_session-Shrinks address group_id lane id r) v
apply-IsRouter (call_deliver packet now) n r v =
    Shrinks-IsRouter n r (deliver packet now r) (deliver-Shrinks packet now r) v

pub run-IsRouter :
    (calls : List RouterCall) (n : ℕ) (r : Router)
    → IsRouter n r
    → IsRouter (run calls (n, r)).0 (run calls (n, r)).1
unfolding run
run-IsRouter [] n r v = v
run-IsRouter (call ∷ calls) n r v =
    run-IsRouter calls (apply call (n, r)).0 (apply call (n, r)).1 (apply-IsRouter call n r v)

pub new-IsRouter : (has_metrics : Bool) → IsRouter 0 (new_router has_metrics)
new-IsRouter has_metrics = record {
  owned = λ a g l i s h k o. cc;
  stored = λ i s h. cc;
  laned = λ a g l i h k. cc;
}
