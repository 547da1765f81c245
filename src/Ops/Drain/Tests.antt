-- ===== src/Ops/Drain/Tests.antt =====
-- A run of shutdown.rs: a request begins, the server stops, a waiter sleeps, the request ends.
use porta.Prelude.{◌+◌, ◌<◌, ◌≡◌, refl, true, false, arith}
use porta.Ops.Drain.{
  Drain, new, Steps, here, then_step, check, add, grant, stop, enroll, find_busy, sleep, drop_guard,
}
use porta.Ops.Drain.Safety.{waits, drain_sound}
use porta.Ops.Drain.{asleep}
use porta.Prelude.{inl}

abbrev stopped_busy : Drain
stopped_busy = record new { accepting = false; active = 1; holding = 1; stored = 1 }

abbrev stopped_idle : Drain
stopped_idle = record stopped_busy { active = 0; holding = 0; notifying = 1; waiter = asleep }

to_stopped : Steps new stopped_busy
to_stopped =
    then_step
      (then_step (then_step (then_step here check) (add (omega arith))) (grant (omega arith))) stop

all-Steps : Steps new stopped_idle
all-Steps =
    then_step
      (then_step
        (then_step (then_step to_stopped (enroll refl)) (find_busy false refl (inl (λ e. cc e))))
        (sleep refl))
      (drop_guard (omega arith))

drain_sound_example :
    (stopped_idle.active ≡ stopped_idle.counted + (stopped_idle.refused + stopped_idle.holding))
    × (waits stopped_idle.waiter ≡ true → stopped_idle.active ≡ 0 → 0 < stopped_idle.notifying)
drain_sound_example = drain_sound stopped_idle all-Steps
