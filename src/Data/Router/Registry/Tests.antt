-- ===== src/Data/Router/Registry/Tests.antt =====
-- A router with two clients, and a packet to one of them.
use porta.Prelude.{
  ◌≡◌, ◌≢◌, refl, ap, true, false, some, List, [], ◌∷◌, ◌++◌, replicate, arith, get_or,
}
use porta.Prelude.Map.{lookup, nat_eq}
use porta.Wire.Bytes.{Bytes}
use porta.Data.Queue.{default_config, new}
use porta.Data.Router.{Session}
use porta.Data.Router.Registry.{
  deliver, register, register_group, join_group, close_group, close_all, collapsed_lane_group,
}
use porta.Data.Router.Registry.Safety.{IsRouter}
use porta.Data.Router.Registry.Calls.{
  RouterCall, call_register, call_register_group, apply, run, new_router,
}
use porta.Data.Router.Registry.Isolation.{run_isolates}

abbrev first : Bytes
first = 10 ∷ 0 ∷ 0 ∷ 2 ∷ []

abbrev second : Bytes
second = 10 ∷ 0 ∷ 0 ∷ 3 ∷ []

abbrev to_first : Bytes
to_first = 0x45 ∷ 0 ∷ 0 ∷ 20 ∷ replicate 8 0 ++ (1 ∷ 1 ∷ 1 ∷ 1 ∷ first)

abbrev calls : List RouterCall
calls = call_register false first ∷ call_register_group false second (1 ∷ []) 0 2 (9 ∷ []) ∷ []

abbrev second_session : Session
second_session = record {
  address = second;
  cancelled = false;
  queue = new default_config true true;
  closed = false;
}

first-second : second ≢ first
first-second h = absurd (omega (arith, ap (λ (b : Bytes). get_or b 3 0) h))

run_isolates_example :
    IsRouter (run calls (0, new_router true)).0 (run calls (0, new_router true)).1
    × (lookup 1 (deliver to_first 5 (run calls (0, new_router true)).1).store ≡ some second_session)
unfolding run apply register register_group join_group close_group close_all collapsed_lane_group
run_isolates_example = run_isolates true calls to_first 5 1 second_session refl first-second
