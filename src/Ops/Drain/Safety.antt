-- ===== src/Ops/Drain/Safety.antt =====
-- What every interleaving of the steps of shutdown.rs keeps.
use porta.Prelude.{◌+◌, ◌<◌, ◌≡◌, refl, Bool, true, false, arith}
use porta.Ops.Drain.{
  time_out, Drain, Waiter, busy, asleep, new, Step, Steps, here, then_step, check, add, grant,
  refuse, leave_refused, drop_guard, notify, stop, cancel, look, enroll, find_idle, find_busy,
  sleep, go_on, outside, enrolled, finished,
}
use porta.Prelude.{ap}
use porta.Ops.Drain.{told}
use porta.Prelude.{inl}
use porta.Prelude.{inr}

-- A waiter that nothing but a call of `notify_waiters` can get back to the test of `active`.
abbrev pub waits : Waiter → Bool
waits (busy false) = true
waits asleep = true
waits _ = false

pub record Sound (s : Drain) : Type 0 where
  pub balanced : s.active ≡ s.counted + (s.refused + s.holding)
  pub woken : waits s.waiter ≡ true → s.active ≡ 0 → 0 < s.notifying

new-Sound : Sound new
new-Sound = record { balanced = refl; woken = λ h e. cc h }

told_lem : (w : Waiter) → waits (told w) ≡ false
told_lem outside = refl
told_lem (enrolled _) = refl
told_lem (busy _) = refl
told_lem asleep = refl
told_lem finished = refl

step-Sound : {s t : Drain} → Step s t → Sound s → Sound t
step-Sound check v = record { balanced = v.balanced; woken = v.woken }
step-Sound (add h) v = record {
  balanced = omega (arith, v.balanced);
  woken = λ w e. absurd (omega arith);
}
step-Sound (grant h) v = record { balanced = omega (arith, v.balanced); woken = v.woken }
step-Sound (refuse h a) v = record { balanced = omega (arith, v.balanced); woken = v.woken }
step-Sound (leave_refused h) v = record {
  balanced = omega (arith, v.balanced);
  woken = λ w e. ground (arith, v.balanced);
}
step-Sound (drop_guard h) v = record {
  balanced = omega (arith, v.balanced);
  woken = λ w e. ground (arith, v.balanced);
}
step-Sound {s = s} (notify h) v = record {
  balanced = v.balanced;
  woken = λ w e. cc (told_lem s.waiter, w);
}
step-Sound stop v = record { balanced = v.balanced; woken = v.woken }
step-Sound (cancel h) v = record { balanced = v.balanced; woken = v.woken }
step-Sound (look seen h) v = record {
  balanced = v.balanced;
  woken = λ w e. ground (arith, v.woken w e);
}
step-Sound (enroll h) v = record { balanced = v.balanced; woken = λ w e. cc w }
step-Sound (find_idle b h) v = record { balanced = v.balanced; woken = λ w e. cc w }
step-Sound (find_busy b h (inl a)) v = record { balanced = v.balanced; woken = λ w e. absurd (a e) }
step-Sound (find_busy b h (inr (inl n))) v = record { balanced = v.balanced; woken = λ w e. n }
step-Sound (find_busy b h (inr (inr t))) v = record {
  balanced = v.balanced;
  woken = λ w e. cc (ap (λ x. waits (busy x)) t, w);
}
step-Sound {s = s} (sleep h) v = record {
  balanced = v.balanced;
  woken = λ w e. v.woken (ap waits h) e;
}
step-Sound (go_on h) v = record { balanced = v.balanced; woken = λ w e. cc w }
step-Sound time_out v = record { balanced = v.balanced; woken = λ w e. cc w }

pub Steps-Sound : {s t : Drain} → Steps s t → Sound s → Sound t
Steps-Sound here v = v
Steps-Sound (then_step h k) v = step-Sound k (Steps-Sound h v)

-- Whatever the threads do, `active` counts the guards and the callers that are still to be told, and a
-- waiter that only a notification gets on is never left asleep: while no request is active, some thread
-- is about to notify.
pub drain_sound :
    (s : Drain)
    → Steps new s
    → (s.active ≡ s.counted + (s.refused + s.holding))
      × (waits s.waiter ≡ true → s.active ≡ 0 → 0 < s.notifying)
drain_sound s h = let v = Steps-Sound h new-Sound in (v.balanced, v.woken)
