-- ===== src/Ops/Drain.antt =====
-- `Drain` of rust/porta-server/src/ops/shutdown.rs, as the atomic steps of its threads. Threads have no
-- names: the state counts how many are behind each step. The loads and stores of the source are only
-- `Acquire` and `Release`, not sequentially consistent: a load may give an older value of its atomic than
-- the last, while a `fetch_add` or `fetch_sub` acts on the last. The state has the last values, and each
-- load has a step for every value that it may give.
pub mod Safety
mod Tests
use porta.Prelude.{ℕ, ◌+◌, ◌-◌, ◌<◌, ◌≡◌, ◌≢◌, Bool, true, false, ◌==◌, if◌then◌else◌}
use porta.Prelude.{◌⊎◌}

-- One caller of `wait`. `enrolled`: it made its `notified` future; `busy`: it then saw requests. The
-- Boolean is whether `notify_waiters` was called since it enrolled.
pub data Waiter : Type 0 where
  outside : Waiter
  enrolled busy : Bool → Waiter
  asleep finished : Waiter

-- `active`, which no number of threads makes wrap, is that of the source. Of the callers of
-- `begin_request`, `checked` saw `accepting`, `counted` added to `active`, and `refused` then saw it
-- cleared; `holding` have a guard; `notifying` are about to call `notify_waiters`. Of the callers of
-- `stop`, `stored` cleared `accepting`, and `cancelling` then cancelled.
pub record Drain : Type 0 where
  pub accepting : Bool
  pub active : ℕ
  pub cancelled : Bool
  pub checked : ℕ
  pub counted : ℕ
  pub refused : ℕ
  pub holding : ℕ
  pub notifying : ℕ
  pub stored : ℕ
  pub cancelling : ℕ
  pub waiter : Waiter

-- `Drain::new`.
abbrev pub new : Drain
new = record {
  accepting = true;
  active = 0;
  cancelled = false;
  checked = 0;
  counted = 0;
  refused = 0;
  holding = 0;
  notifying = 0;
  stored = 0;
  cancelling = 0;
  waiter = outside;
}

-- `if active.fetch_sub(1) == 1 { idle.notify_waiters() }`, up to the call.
abbrev pub subtract : Drain → Drain
subtract s = record s {
  active = s.active - 1;
  notifying = if s.active == 1 then s.notifying + 1 else s.notifying;
}

-- `notify_waiters` reaches the `notified` futures that exist, as tokio documents, awaited or not.
abbrev pub told : Waiter → Waiter
told (enrolled _) = enrolled true
told (busy _) = busy true
told asleep = outside
told outside = outside
told finished = finished

-- `accepting` was `true` at first, so that `check` and `grant` may still see that after `stop` has cleared it:
-- neither is ordered with `stop` before it sees `false`. `look` and `find_idle` may see an older value of
-- `active`, 0 as any other. So may `find_busy`, with one exception: `Notify` orders a call of
-- `notify_waiters` before each `notified` future that is made after it. If `active` is 0, and the thread
-- that brought it there has called `notify_waiters` before the waiter enrolled, the waiter sees 0.
pub data Step (s : Drain) : Drain → Type 0 where
  check : Step s (record s { checked = s.checked + 1 })
  add :
      0 < s.checked
      → Step s
          (record s { checked = s.checked - 1; counted = s.counted + 1; active = s.active + 1 })
  grant : 0 < s.counted → Step s (record s { counted = s.counted - 1; holding = s.holding + 1 })
  refuse :
      0 < s.counted
      → s.accepting ≡ false
      → Step s (record s { counted = s.counted - 1; refused = s.refused + 1 })
  leave_refused : 0 < s.refused → Step s (subtract (record s { refused = s.refused - 1 }))
  drop_guard : 0 < s.holding → Step s (subtract (record s { holding = s.holding - 1 }))
  notify :
      0 < s.notifying → Step s (record s { notifying = s.notifying - 1; waiter = told s.waiter })
  stop : Step s (record s { accepting = false; stored = s.stored + 1 })
  cancel :
      0 < s.stored
      → Step s (record s { cancelled = true; stored = s.stored - 1; cancelling = s.cancelling + 1 })
  look :
      (seen : ℕ)
      → 0 < s.cancelling
      → Step s (record s {
        cancelling = s.cancelling - 1;
        notifying = if seen == 0 then s.notifying + 1 else s.notifying;
      })
  enroll : s.waiter ≡ outside → Step s (record s { waiter = enrolled false })
  find_idle : (b : Bool) → s.waiter ≡ enrolled b → Step s (record s { waiter = finished })
  find_busy :
      (b : Bool)
      → s.waiter ≡ enrolled b
      → (s.active ≢ 0) ⊎ ((0 < s.notifying) ⊎ (b ≡ true))
      → Step s (record s { waiter = busy b })
  sleep : s.waiter ≡ busy false → Step s (record s { waiter = asleep })
  go_on : s.waiter ≡ busy true → Step s (record s { waiter = outside })
  time_out : Step s (record s { waiter = outside })

pub data Steps (s : Drain) : Drain → Type 0 where
  here : Steps s s
  then_step : {t u : Drain} → Steps s t → Step t u → Steps s u
