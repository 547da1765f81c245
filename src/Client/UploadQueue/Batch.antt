-- ===== src/Client/UploadQueue/Batch.antt =====
-- What a batch of the upload queue holds.
use porta.Prelude.{
  ℕ, zero, suc, ◌+◌, ◌≤◌, ◌<◌, ◌≡◌, ◌⊎◌, inl, inr, refl, ap, Bool, true, false, not, ◌&&◌, List, [],
  ◌∷◌, ◌++◌, map, arith, length, ltb, if_cases,
}
use porta.Wire.Bytes.{Bytes}
use porta.Client.UploadQueue.{QueuedPacket, take_front}

abbrev pub total : List QueuedPacket → ℕ
total [] = 0
total (item ∷ rest) = length item.packet + total rest

pub total-append : (xs ys : List QueuedPacket) → total (xs ++ ys) ≡ total xs + total ys
total-append [] ys = omega arith
total-append (x ∷ xs) ys = omega (arith, total-append xs ys)

abbrev pub packets : List QueuedPacket → List Bytes
packets = map (λ item. item.packet)

-- A batch is the front of the items, in their order. It is within the limit of packets, and within
-- the limit of bytes unless it is one packet; it ends where one more would be too many or, if it has one
-- already, too much.
pub record IsBatch (left max_bytes : ℕ) (first : Bool) (bytes : ℕ) (items : List QueuedPacket)
    (r : List Bytes × ℕ × List QueuedPacket) : Type 0 where
  pub taken : List QueuedPacket
  pub split : items ≡ taken ++ r.2
  pub carried : r.0 ≡ packets taken
  pub summed : r.1 ≡ bytes + total taken
  pub few : length taken ≤ left
  pub within : (length taken ≡ 0) ⊎ ((r.1 ≤ max_bytes) ⊎ ((first ≡ true) × (length taken ≡ 1)))
  pub complete :
      (r.2 ≡ [])
      ⊎ ((length taken ≡ left)
          ⊎ ((next : QueuedPacket) × (rest : List QueuedPacket) × (r.2 ≡ next ∷ rest)
              × (max_bytes < r.1 + length next.packet)
              × (first ≡ true → 0 < length taken)))

within_next :
    (first : Bool) (size bytes max_bytes : ℕ) (taken : List QueuedPacket) (sum : ℕ)
    → sum ≡ bytes + size + total taken
    → (not first && ltb max_bytes (bytes + size)) ≡ false
    → (length taken ≡ 0) ⊎ ((sum ≤ max_bytes) ⊎ ((false ≡ true) × (length taken ≡ 1)))
    → (suc (length taken) ≡ 0) ⊎ ((sum ≤ max_bytes) ⊎ ((first ≡ true) × (suc (length taken) ≡ 1)))
within_next true size bytes max_bytes [] sum e h w = inr (inr (refl, refl))
within_next false size bytes max_bytes [] sum e h w = inr (inl (ground arith))
within_next first size bytes max_bytes (x ∷ taken) sum e h (inl z) = absurd (omega arith)
within_next first size bytes max_bytes (x ∷ taken) sum e h (inr (inl z)) = inr (inl z)
within_next first size bytes max_bytes (x ∷ taken) sum e h (inr (inr z)) = absurd (cc z.0)

pub take_front-IsBatch :
    (left max_bytes : ℕ) (first : Bool) (bytes : ℕ) (items : List QueuedPacket)
    → IsBatch left max_bytes first bytes items (take_front left max_bytes first bytes items)
unfolding take_front
take_front-IsBatch zero max_bytes first bytes items = record {
  taken = [];
  split = refl;
  carried = refl;
  summed = omega arith;
  few = omega arith;
  within = inl refl;
  complete = inr (inl refl);
}
take_front-IsBatch (suc left) max_bytes first bytes [] = record {
  taken = [];
  split = refl;
  carried = refl;
  summed = omega arith;
  few = omega arith;
  within = inl refl;
  complete = inl refl;
}
take_front-IsBatch (suc left) max_bytes first bytes (next ∷ rest) =
    let more = take_front left max_bytes false (bytes + length next.packet) rest in
    let v = take_front-IsBatch left max_bytes false (bytes + length next.packet) rest in
    if_cases (IsBatch (suc left) max_bytes first bytes (next ∷ rest))
      (not first && ltb max_bytes (bytes + length next.packet)) ([], bytes, next ∷ rest)
      (next.packet ∷ more.0, more.1, more.2)
      (λ h. record {
        taken = [];
        split = refl;
        carried = refl;
        summed = omega arith;
        few = omega arith;
        within = inl refl;
        complete = inr (inr (next, rest, refl, ground arith, λ t. absurd (ground (arith, h, t))));
      })
      (λ h. record {
        taken = next ∷ v.taken;
        split = ap (◌∷◌ next) v.split;
        carried = ap (◌∷◌ next.packet) v.carried;
        summed = omega (arith, v.summed);
        few = omega (arith, v.few);
        within =
            within_next first (length next.packet) bytes max_bytes v.taken more.1 v.summed h
              v.within;
        complete = elim v.complete [
          | inl e ↦ inl e
          | inr (inl e) ↦ inr (inl (ap suc e))
          | inr (inr (n, m, e, big, some_taken)) ↦ inr (inr (n, m, e, big, λ t. omega arith))
        ];
      })
