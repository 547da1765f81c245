-- ===== src/State/Sessions/Tests.antt =====
-- Two sessions of an account, of which one ends.
use porta.Prelude.{◌≡◌, none, List, [], ◌∷◌, arith}
use porta.State.Sessions.{SessionKey, no_sessions, is_selected, active_count, cancel}
use porta.State.Sessions.Counts.{matching}
use porta.State.Sessions.Live.{SessionCall, call_register, call_drop, run, active_count-run}

abbrev phone : SessionKey
phone = record { account_id = 97 ∷ []; device_id = 1 ∷ [] }

abbrev laptop : SessionKey
laptop = record { account_id = 97 ∷ []; device_id = 2 ∷ [] }

abbrev calls : List SessionCall
calls = call_register phone ∷ call_register laptop ∷ call_drop 1 ∷ []

active_count-run_example :
    (active_count (97 ∷ []) none (run calls (no_sessions, [])).0
      ≡ matching (is_selected (97 ∷ []) none) (run calls (no_sessions, [])).1)
    × ((cancel (97 ∷ []) none (run calls (no_sessions, [])).0).0
        ≡ matching (is_selected (97 ∷ []) none) (run calls (no_sessions, [])).1)
active_count-run_example = active_count-run calls (97 ∷ []) none (omega arith)
