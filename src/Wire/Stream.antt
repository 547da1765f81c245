-- ===== src/Wire/Stream.antt =====
-- The `std::io` streams that the framing code reads and writes, by what they do. A reader is the
-- sequence of what its `read` finds, a writer the sequence of what its `write` does, and the list of
-- the bytes that it took. Every behaviour of a `Read` or a `Write` is such a sequence.
pub mod Fill
pub mod WriteAll
use porta.Prelude.{
  ℕ, suc, ◌+◌, ◌-◌, ◌≤◌, ◌<◌, ◌≡◌, refl, ◌∙◌, Bool, true, false, List, [], ◌∷◌, ◌++◌, arith, length,
  take, drop, ◌==◌, ltb, if◌then◌else◌,
}
use porta.Wire.Bytes.{Bytes}

-- `chunk`: these bytes are there; a longer buffer gets all of them, a shorter one as many as it
-- holds. `chunk []` and the end of the sequence are `Ok(0)`.
pub data Arrival : Type 0 where
  chunk : Bytes → Arrival
  interrupted : Arrival
  failure : ℕ → Arrival

abbrev pub Reader : Type 0
Reader = List Arrival

-- `accept n`: `write` takes `n` bytes at most.
pub data Room : Type 0 where
  accept : ℕ → Room
  stalled : Room
  broken : ℕ → Room

-- At the end of the plan the writer takes all that it is given, as a `Vec` does.
pub record Writer : Type 0 where
  pub taken : Bytes
  pub plan : List Room

-- A reader that delivers these bytes, in chunks of any sizes, perhaps after interruptions, and ends.
pub data Delivers : Bytes → Reader → Type 0 where
  ended : Delivers [] []
  delivered :
      (c bs r : Bytes) {s : Reader}
      → 0 < length c
      → bs ≡ c ++ r
      → Delivers r s
      → Delivers bs (chunk c ∷ s)
  retried : {bs : Bytes} {s : Reader} → Delivers bs s → Delivers bs (interrupted ∷ s)
