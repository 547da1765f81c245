-- ===== src/Wire/Stream/WriteAll.antt =====
-- The loop that hands data to a writer: `write_all` of rust/porta-wire/src/frame.rs, and
-- `Write::write_all`, which differ in the errors that they report.
use porta.Prelude.Except.{Except, ok, err}
use porta.Prelude.{
  ℕ, zero, suc, ◌<◌, ◌≡◌, refl, sym, ap, ◌∙◌, List, [], ◌∷◌, ◌++◌, append-nil, append_assoc, arith,
  take, drop, take-append-drop,
}
use porta.Wire.Bytes.{Bytes}
use porta.Wire.Stream.{Room, Writer, accept, stalled, broken}

pub record WriteErrors (E : Type 0) : Type 0 where
  pub nothing_taken : E
  pub other : ℕ → E

-- A writer that takes something of all that it is offered, though not always all, and may be
-- interrupted.
abbrev pub IsHealthy : List Room → Type 0
IsHealthy [] = Unit
IsHealthy (accept n ∷ plan) = (0 < n) × IsHealthy plan
IsHealthy (stalled ∷ plan) = IsHealthy plan
IsHealthy (broken code ∷ plan) = ⊥

regrouped :
    (taken : Bytes) (b : ℕ) (d : Bytes) (n : ℕ)
    → (taken ++ b ∷ take n d) ++ drop n d ≡ taken ++ b ∷ d
regrouped taken b d n =
    append_assoc taken (b ∷ take n d) (drop n d)
    ∙ ap (λ (t : Bytes). taken ++ b ∷ t) (take-append-drop n d)

module _ {E : Type 0} where
  -- `while !data.is_empty()`: a writer that takes nothing ends the loop.
  unfoldable pub write_all :
      WriteErrors E → Bytes → Bytes → List Room → Except E (Unit {0}) × Writer
  write_all e [] taken plan = (ok tt, record { taken = taken; plan = plan })
  write_all e (b ∷ d) taken [] = (ok tt, record { taken = taken ++ b ∷ d; plan = [] })
  write_all e (b ∷ d) taken (accept zero ∷ plan) =
      (err e.nothing_taken, record { taken = taken; plan = plan })
  write_all e (b ∷ d) taken (accept (suc n) ∷ plan) =
      write_all e (drop n d) (taken ++ b ∷ take n d) plan
  write_all e (b ∷ d) taken (stalled ∷ plan) = write_all e (b ∷ d) taken plan
  write_all e (b ∷ d) taken (broken code ∷ plan) =
      (err (e.other code), record { taken = taken; plan = plan })

  -- A write that succeeds has handed over all the bytes, in whatever portions.
  pub write_all-ok :
      (e : WriteErrors E) (d taken : Bytes) (plan : List Room)
      → (write_all e d taken plan).0 ≡ ok tt
      → (write_all e d taken plan).1.taken ≡ taken ++ d
  unfolding write_all
  write_all-ok e [] taken plan h = sym (append-nil taken)
  write_all-ok e (b ∷ d) taken [] h = refl
  write_all-ok e (b ∷ d) taken (accept zero ∷ plan) h = cc
  write_all-ok e (b ∷ d) taken (accept (suc n) ∷ plan) h =
      write_all-ok e (drop n d) (taken ++ b ∷ take n d) plan h ∙ regrouped taken b d n
  write_all-ok e (b ∷ d) taken (stalled ∷ plan) h = write_all-ok e (b ∷ d) taken plan h
  write_all-ok e (b ∷ d) taken (broken code ∷ plan) h = cc

  pub write_all-IsHealthy :
      (e : WriteErrors E) (d taken : Bytes) (plan : List Room)
      → IsHealthy plan
      → (rest : List Room) × (write_all e d taken plan
          ≡ (ok tt, record { taken = taken ++ d; plan = rest }))
        × IsHealthy rest
  unfolding write_all
  write_all-IsHealthy e [] taken plan h = (plan, rw append-nil, h)
  write_all-IsHealthy e (b ∷ d) taken [] h = ([], refl, tt)
  write_all-IsHealthy e (b ∷ d) taken (accept zero ∷ plan) h = absurd (omega arith)
  write_all-IsHealthy e (b ∷ d) taken (accept (suc n) ∷ plan) h =
      let r = write_all-IsHealthy e (drop n d) (taken ++ b ∷ take n d) plan h.1 in
      (r.0, rw (← regrouped taken b d n) r.1, r.2)
  write_all-IsHealthy e (b ∷ d) taken (stalled ∷ plan) h =
      write_all-IsHealthy e (b ∷ d) taken plan h
  write_all-IsHealthy e (b ∷ d) taken (broken code ∷ plan) h = absurd h
