-- ===== src/State/Pool/Commit.antt =====
-- What a lease leaves whose file is in place but whose directory could not be synced.
use porta.Prelude.{ℕ, ◌≡◌, ◌≢◌, ◌<◌, ◌∙◌, sym, refl, none, some, Option, true, false, subst, List}
use porta.Prelude.Map.{
  lookup, insert, remove, list_eq, nat_eq, lookup-insert_same, lookup-insert_other,
}
use porta.Wire.Bytes.{Bytes}
use porta.State.Pool.{Pool, PoolState, LeaseRecord, broadcast, deactivate, abandon_committed_lease}
use porta.State.Pool.Disk.{Agrees, Agrees-same, stored_form-insert}

-- What `acquire_inner` leaves of the pool `p` when the new file is in place but its directory is not
-- synced: the client's record is committed with generation `n` but inactive, at the address the client had,
-- or else at a free one; the client has no group; nothing else of the pool changes; the file agrees.
pub record Committed (n : ℕ) (c : Bytes) (p q : Pool) : Type 0 where
  pub kept_record : LeaseRecord
  pub known : lookup c q.by_client ≡ some kept_record
  pub inactive : kept_record.active ≡ false
  pub dated : kept_record.generation ≡ n
  pub renewed :
      (s : LeaseRecord)
      → lookup c p.by_client ≡ some s
      → (kept_record.address ≡ s.address) × (q.by_address ≡ p.by_address)
  pub reserved :
      lookup c p.by_client ≡ none
      → (lookup kept_record.address p.by_address ≡ none)
        × (p.gateway < kept_record.address)
        × (kept_record.address < broadcast p)
        × (q.by_address ≡ insert kept_record.address c p.by_address)
  pub others : (d : Bytes) → c ≢ d → lookup d q.by_client ≡ lookup d p.by_client
  pub groups : (d : Bytes) → lookup d q.groups ≡ lookup d (remove c p.groups)
  pub persistent : q.persistent ≡ true
  pub on_disk : Agrees q.persistent q.by_client q.disk

-- The written record, which is made inactive.
pub abandon-Committed :
    (n : ℕ) (c : Bytes) (r : LeaseRecord) (p : Pool) (owners : List (ℕ × Bytes))
    (d : Option PoolState)
    → r.generation ≡ n
    → ((s : LeaseRecord)
        → lookup c p.by_client ≡ some s
        → (r.address ≡ s.address) × (owners ≡ p.by_address))
    → (lookup c p.by_client ≡ none
        → (lookup r.address p.by_address ≡ none)
          × (p.gateway < r.address)
          × (r.address < broadcast p)
          × (owners ≡ insert r.address c p.by_address))
    → p.persistent ≡ true
    → Agrees p.persistent (insert c r p.by_client) d
    → Committed n c p (
        abandon_committed_lease c
          (record p { by_client = insert c r p.by_client; by_address = owners; disk = d }))
unfolding abandon_committed_lease
abandon-Committed n c r p owners d dated renewed reserved persistent agrees =
    let w : Pool = record p { by_client = insert c r p.by_client; by_address = owners; disk = d } in
    let retired : LeaseRecord = record r { active = false } in
    let known = lookup-insert_same c r p.by_client in
    subst
      (λ k.
        Committed n c p (record (deactivate k c w) { groups = remove c (deactivate k c w).groups }))
      (sym known)
      (record {
        kept_record = retired;
        known = lookup-insert_same c retired w.by_client;
        inactive = refl;
        dated = dated;
        renewed = renewed;
        reserved = reserved;
        others = λ k other.
            lookup-insert_other c k retired w.by_client other
            ∙ lookup-insert_other c k r p.by_client other;
        groups = λ k. refl;
        persistent = persistent;
        on_disk =
            Agrees-same p.persistent w.by_client (insert c retired w.by_client) d agrees
              (λ k. stored_form-insert c k r retired w.by_client known refl refl);
      })
