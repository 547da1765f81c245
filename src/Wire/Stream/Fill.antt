-- ===== src/Wire/Stream/Fill.antt =====
-- The loop that fills a buffer from a reader: `read_header` and `read_payload` of
-- rust/porta-wire/src/frame.rs, and `Read::read_exact`, which differ in the errors that they report.
use porta.Prelude.{
  ℕ, zero, suc, ◌+◌, ◌-◌, ◌≤◌, ◌<◌, ◌≡◌, refl, sym, ap, subst, ◌∙◌, true, inl, inr, [], ◌∷◌, ◌++◌,
  append-nil, append_assoc, arith, length, take, drop, take-append, length-drop, length-append,
  tests, ◌==◌, length_zero, ltb, le→ltb, Bool-cases, if◌then◌else◌,
}
use porta.Prelude.Except.{Except, ok, err}
use porta.Wire.Bytes.{Bytes}
use porta.Wire.Stream.{Reader, chunk, interrupted, failure, Delivers, ended, delivered, retried}

-- The errors for the end of the stream, before the first byte and later, and for any other failure.
pub record ReadErrors (E : Type 0) : Type 0 where
  pub at_start : E
  pub later : E
  pub other : ℕ → E

-- Two ways to divide a list up, by the shorter of the first parts.
split_shorter :
    (p r c t : Bytes)
    → p ++ r ≡ c ++ t
    → length c ≤ length p
    → (p ≡ c ++ drop (length c) p) × (drop (length c) p ++ r ≡ t)
split_shorter p r [] t e h = (refl, e)
split_shorter [] r (x ∷ c) t e h = absurd (omega arith)
split_shorter (y ∷ p) r (x ∷ c) t e h =
    let (a, b) = split_shorter p r c t (cc) (omega arith) in (cc, b)

module _ {E : Type 0} where
  -- `offset` bytes are in the buffer (`filled`), and the next argument is how many are still to come.
  -- A chunk longer than the rest of the buffer stays in the reader without the bytes that were taken.
  unfoldable pub fill : ReadErrors E → Bytes → ℕ → Reader → Except E Bytes × Reader
  fill e filled zero s = (ok filled, s)
  fill e filled (suc n) [] = (err (if length filled == 0 then e.at_start else e.later), [])
  fill e filled (suc n) (chunk [] ∷ s) =
      (err (if length filled == 0 then e.at_start else e.later), s)
  fill e filled (suc n) (chunk (b ∷ c) ∷ s) =
      let rest = fill e (filled ++ b ∷ c) (n - length c) s in
      if ltb n (length c) then (ok (filled ++ take (suc n) (b ∷ c)), chunk (drop n c) ∷ s) else rest
  fill e filled (suc n) (interrupted ∷ s) = fill e filled (suc n) s
  fill e filled (suc n) (failure code ∷ s) = (err (e.other code), s)

  -- `fill` gets the next `n` bytes of what the reader delivers, and leaves it delivering the rest.
  pub fill-Delivers :
      (e : ReadErrors E) (filled p r bs : Bytes) {s : Reader} (n : ℕ)
      → Delivers bs s
      → bs ≡ p ++ r
      → n ≡ length p
      → (s' : Reader) × (fill e filled n s ≡ (ok (filled ++ p), s')) × Delivers r s'
  unfolding fill
  fill-Delivers e filled p r bs {s} zero d q m =
      let z = length_zero p (sym m) in
      (s, rw (z, append-nil), subst (λ t. Delivers t s) (q ∙ ap (λ (t : Bytes). t ++ r) z) d)
  fill-Delivers e filled [] r bs (suc n) d q m = absurd (omega arith)
  fill-Delivers e filled (x ∷ p) r bs (suc n) ended q m = cc
  fill-Delivers e filled (x ∷ p) r bs (suc n) (retried d) q m =
      fill-Delivers e filled (x ∷ p) r bs (suc n) d q m
  fill-Delivers e filled (x ∷ p) r bs (suc n) (delivered [] _ t pos split d) q m =
      absurd (omega arith)
  fill-Delivers e filled (x ∷ p) r bs (suc n) (delivered (b ∷ c) _ t {s = s} pos split d) q m =
      elim (Bool-cases (ltb n (length c))) [
        | inl more ↦ rw more (kept more)
        | inr less ↦
            let (at_p, after) = split_shorter (x ∷ p) r (b ∷ c) t (sym q ∙ split) (omega tests) in
            let p' = drop (suc (length c)) (x ∷ p) in
            let ih =
              fill-Delivers e (filled ++ b ∷ c) p' r t {s = s} (n - length c) d (sym after)
                (omega (arith, tests, length-drop (suc (length c)) (x ∷ p))) in
            (
              ih.0,
              rw less (
                  ih.1
                  ∙ ap (λ (u : Bytes). (ok u, ih.0))
                      (append_assoc filled (b ∷ c) p' ∙ ap (◌++◌ filled) (sym at_p))),
              ih.2,
            )
      ]
    where
      kept :
          ltb n (length c) ≡ true
          → (s' : Reader) × (◌≡◌ {A = Except E Bytes × Reader}
              (ok (filled ++ take (suc n) (b ∷ c)), chunk (drop n c) ∷ s)
              (ok (filled ++ x ∷ p), s'))
            × Delivers r s'
      kept more =
          let (at_c, after) =
            split_shorter (b ∷ c) t (x ∷ p) r (sym split ∙ q) (omega (tests, m)) in
          let long : drop (length (x ∷ p)) (b ∷ c) ≡ drop n c = rw (← m) in
          let here : take (suc n) (b ∷ c) ≡ x ∷ p =
            ap (take (suc n)) at_c ∙ take-append (x ∷ p) _ (suc n) m in
          (
            chunk (drop n c) ∷ s,
            ap (λ (u : Bytes). (ok (filled ++ u), chunk (drop n c) ∷ s)) here,
            delivered (drop n c) r t (omega (tests, length-drop n c))
                (sym after ∙ ap (λ (u : Bytes). u ++ t) long) d,
          )

  -- Less than `n` bytes before the end of the stream.
  pub fill_cut :
      (e : ReadErrors E) (filled bs : Bytes) {s : Reader} (n : ℕ)
      → Delivers bs s
      → length bs < n
      → fill e filled n s ≡ (err (if length (filled ++ bs) == 0 then e.at_start else e.later), [])
  unfolding fill
  fill_cut e filled bs zero d h = absurd (omega arith)
  fill_cut e filled bs (suc n) ended h = rw append-nil
  fill_cut e filled bs (suc n) (retried d) h = fill_cut e filled bs (suc n) d h
  fill_cut e filled bs (suc n) (delivered [] _ t pos split d) h = absurd (omega arith)
  fill_cut e filled bs (suc n) (delivered (b ∷ c) _ t {s = s} pos split d) h =
      let len : length bs ≡ suc (length c) + length t = ap length split ∙ length-append (b ∷ c) t in
      let ih = fill_cut e (filled ++ b ∷ c) t {s = s} (n - length c) d (omega arith) in
      rw (le→ltb n (length c) (omega arith), ih, append_assoc filled (b ∷ c) t, split)
