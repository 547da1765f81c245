-- ===== src/Wire/Mtu/Feedback/Spacing.antt =====
-- When the feedback policy of mtu.rs sends ICMP, over any run of calls.
use porta.Prelude.{
  ℕ, ◌+◌, ◌<◌, ◌≤◌, ◌≡◌, refl, true, false, Option, none, some, List, [], ◌∷◌, arith, length,
  if_cases, if◌then◌else◌, subst, leb→le,
}
use porta.Wire.Bytes.{Bytes}
use porta.Wire.Mtu.Feedback.{
  FlowFeedback, FeedbackPolicy, FeedbackDecision, icmp_interval, decide_at, on_oversized, is_recent,
}
use porta.Wire.Mtu.Feedback.Bounds.{Bounded, decide_cases, oversized_cases, on_oversized-Bounded}

-- What a decision means for the packet and for the time of the last ICMP answer.
abbrev pub Decided : ℕ → ℕ → ℕ → ℕ → Option ℕ → FeedbackDecision × FeedbackPolicy → Type 0
Decided size mtu ceiling now before x =
    (x.0.send_icmp ≡ true
      → (x.0.use_capsule ≡ false) × (x.1.last_feedback ≡ some now) × (is_recent before now ≡ false))
    × (x.0.send_icmp ≡ false → x.1.last_feedback ≡ before)
    × (x.0.use_capsule ≡ true → (mtu < size) × (size ≤ ceiling))

decide_at-Decided :
    (size mtu ceiling now rtt index : ℕ) (found : Option FlowFeedback) (p : FeedbackPolicy)
    → mtu < size
    → Decided size mtu ceiling now p.last_feedback
        (decide_at size mtu ceiling now rtt index found p)
decide_at-Decided size mtu ceiling now rtt index none p h = (λ e. cc e, λ _. refl, λ e. cc e)
decide_at-Decided size mtu ceiling now rtt index (some state) p h =
    decide_cases (Decided size mtu ceiling now p.last_feedback) size ceiling now rtt index _ p
      (λ t. (λ e. cc e, λ _. refl, λ _. (h, leb→le size ceiling t)))
      (λ e. cc e, λ _. refl, λ e. cc e) (λ f. (λ _. (refl, refl, f), λ e. cc e, λ e. cc e))

-- An ICMP answer is never sent beside the capsule stream, is sent only when none was in the last 100
-- milliseconds, and is recorded; otherwise the record stays. The capsule stream is chosen only for a packet
-- above the effective MTU and within the ceiling.
pub on_oversized-Decided :
    (packet : Bytes) (mtu ceiling now rtt : ℕ) (p : FeedbackPolicy)
    → Decided
        (length packet)
        mtu
        ceiling
        now
        p.last_feedback
        (on_oversized packet mtu ceiling now rtt p)
on_oversized-Decided packet mtu ceiling now rtt p =
    oversized_cases (Decided (length packet) mtu ceiling now p.last_feedback) packet mtu ceiling now
      rtt p (λ e. cc e, λ _. refl, λ e. cc e)
      (λ h. decide_at-Decided (length packet) mtu ceiling now rtt _ _ _ h)

-- A call of `on_oversized`.
pub record Request : Type 0 where
  pub packet : Bytes
  pub effective_mtu : ℕ
  pub capsule_ceiling : ℕ
  pub now : ℕ
  pub rtt : ℕ

abbrev pub answer : Request → FeedbackPolicy → FeedbackDecision × FeedbackPolicy
answer r p = on_oversized r.packet r.effective_mtu r.capsule_ceiling r.now r.rtt p

-- The policy after some calls, and the times at which they sent ICMP.
pub run : List Request → FeedbackPolicy → FeedbackPolicy
run [] p = p
run (r ∷ rs) p = run rs (answer r p).1

pub icmp_times : List Request → FeedbackPolicy → List ℕ
icmp_times [] p = []
icmp_times (r ∷ rs) p =
    let rest = icmp_times rs (answer r p).1 in
    if (answer r p).0.send_icmp then r.now ∷ rest else rest

-- Each time is at least the interval after the one before it.
abbrev pub Spaced : Option ℕ → List ℕ → Type 0
Spaced last [] = Unit {0}
Spaced none (t ∷ ts) = Spaced (some t) ts
Spaced (some last) (t ∷ ts) = (last + icmp_interval ≤ t) × Spaced (some t) ts

Spaced-cons :
    (last : Option ℕ) (now : ℕ) (ts : List ℕ)
    → is_recent last now ≡ false
    → Spaced (some now) ts
    → Spaced last (now ∷ ts)
Spaced-cons none now ts h s = s
Spaced-cons (some l) now ts h s = (ground arith, s)

-- Whatever packets come at whatever times, the policy keeps at most 128 flows, none with more than three
-- requests counted, nor with any before its first feedback, and it sends ICMP at times that are at least
-- 100 milliseconds apart.
pub feedback_bounds :
    (rs : List Request) (p : FeedbackPolicy)
    → Bounded p.flows
    → Bounded (run rs p).flows × Spaced p.last_feedback (icmp_times rs p)
unfolding run icmp_times
feedback_bounds [] p v = (v, tt)
feedback_bounds (r ∷ rs) p v =
    let d = on_oversized-Decided r.packet r.effective_mtu r.capsule_ceiling r.now r.rtt p in
    let (b, s) =
      feedback_bounds rs (answer r p).1
        (on_oversized-Bounded r.packet r.effective_mtu r.capsule_ceiling r.now r.rtt p v) in
    (
      b,
      if_cases (Spaced p.last_feedback) (answer r p).0.send_icmp _ _
          (λ t.
            Spaced-cons p.last_feedback r.now _ (d.0 t).2
              (subst (λ o. Spaced o (icmp_times rs (answer r p).1)) (d.0 t).1 s))
          (λ f. subst (λ o. Spaced o (icmp_times rs (answer r p).1)) (d.1 f) s),
    )
