-- ===== src/Data/Router/Flows.antt =====
-- `FlowTable` of rust/porta-server/src/data/router.rs: the lanes of the flows used last, at most 4096,
-- in a list linked by indices into an array. The end of `free` where `push` and `pop` work is its head.
pub mod Linked
pub mod Halves
pub mod Moves
pub mod Table
pub mod Release
pub mod Agree
pub mod Place
pub mod Recency
pub mod Refines
use porta.Prelude.{
  ℕ, zero, suc, ◌%◌, ◌^◌, ◌≡◌, ◌↔◌, refl, Bool, true, false, ◌&&◌, Option, none, some, List, [],
  ◌∷◌, ◌++◌, length, get_or, set, replicate, arith, ◌==◌, leb, if◌then◌else◌,
}
use porta.Prelude.Map.{Eq, lookup, insert, remove, list_beq, list_beq_iff, nat_eq}
use porta.Data.Classify.{FlowKey}

abbrev pub same_bool : Bool → Bool → Bool
same_bool true b = b
same_bool false true = false
same_bool false false = true

abbrev pub same_flow : FlowKey → FlowKey → Bool
same_flow a b =
    list_beq a.source b.source
    && (list_beq a.destination b.destination
        && ((a.source_port == b.source_port)
            && ((a.destination_port == b.destination_port)
                && ((a.fragment_id == b.fragment_id)
                    && ((a.protocol == b.protocol) && same_bool a.fragmented b.fragmented)))))

pub same_flow_iff : (a b : FlowKey) → (same_flow a b ≡ true) ↔ (a ≡ b)
same_flow_iff a b =
    ground (arith, list_beq_iff a.source b.source, list_beq_iff a.destination b.destination)

instance abbrev pub flow_eq : Eq FlowKey
flow_eq = record { beq = same_flow; beq_iff = same_flow_iff }

abbrev pub max_tracked_flows : ℕ
max_tracked_flows = 4096

abbrev pub no_flow_index : ℕ
no_flow_index = 65535

pub record FlowEntry : Type 0 where
  pub flow : FlowKey
  pub previous : ℕ
  pub next : ℕ
  pub lane : ℕ

pub record FlowTable : Type 0 where
  pub assignments : List (FlowKey × ℕ)
  pub entries : List FlowEntry
  pub free : List ℕ
  pub oldest : ℕ
  pub newest : ℕ

-- `FlowTable::default()`.
abbrev pub default_table : FlowTable
default_table = record {
  assignments = [];
  entries = [];
  free = [];
  oldest = no_flow_index;
  newest = no_flow_index;
}

-- What stands for an entry out of bounds, where the source panics.
abbrev pub no_entry : FlowEntry
no_entry = record {
  flow = record {
    source = [];
    destination = [];
    source_port = 0;
    destination_port = 0;
    fragment_id = 0;
    protocol = 0;
    fragmented = false;
  };
  previous = 0;
  next = 0;
  lane = 0;
}

abbrev pub entry_at : List FlowEntry → ℕ → FlowEntry
entry_at entries index = get_or entries index no_entry

abbrev pub with_next : ℕ → ℕ → List FlowEntry → List FlowEntry
with_next index next entries = set entries index (record (entry_at entries index) { next = next })

abbrev pub with_previous : ℕ → ℕ → List FlowEntry → List FlowEntry
with_previous index previous entries =
    set entries index (record (entry_at entries index) { previous = previous })

abbrev pub with_lane : ℕ → ℕ → List FlowEntry → List FlowEntry
with_lane index lane entries =
    set entries index (record (entry_at entries index) { lane = lane % 2 ^ 8 })

pub assignment : FlowKey → FlowTable → Option (ℕ × ℕ)
assignment flow t = elim (lookup flow t.assignments) [
  | none ↦ none
  | some index ↦ some (index, (entry_at t.entries index).lane)
]

-- What follows `previous` is `next`, in the first half of `unlink` and in `link_newest`.
pub set_follower : ℕ → ℕ → FlowTable → FlowTable
set_follower previous next t =
    if previous == no_flow_index
    then record t { oldest = next }
    else record t { entries = with_next previous next t.entries }

-- What precedes `next` is `previous`, in the second half of `unlink`.
pub set_leader : ℕ → ℕ → FlowTable → FlowTable
set_leader next previous t =
    if next == no_flow_index
    then record t { newest = previous }
    else record t { entries = with_previous next previous t.entries }

pub unlink : ℕ → FlowTable → FlowTable
unfolding set_follower set_leader
unlink index t =
    let entry = entry_at t.entries index in
    set_leader entry.next entry.previous (set_follower entry.previous entry.next t)

pub link_newest : ℕ → FlowTable → FlowTable
unfolding set_follower
link_newest index t =
    let entry = entry_at t.entries index in
    let placed = record t {
      entries = set t.entries index (record entry { previous = t.newest; next = no_flow_index });
    } in
    record (set_follower t.newest index placed) { newest = index }

pub touch : ℕ → FlowTable → FlowTable
touch index t = if index == t.newest then t else link_newest index (unlink index t)

pub evict_oldest : FlowTable → FlowTable
evict_oldest t =
    let index = t.oldest in
    let freed =
      unlink index
        (record t { assignments = remove (entry_at t.entries index).flow t.assignments }) in
    record freed { free = index ∷ freed.free }

-- `remove`, named for its argument since `remove` is a map's.
pub remove_flow : FlowKey → FlowTable → FlowTable
remove_flow flow t = elim (lookup flow t.assignments) [
  | none ↦ t
  | some index ↦
      let freed = unlink index (record t { assignments = remove flow t.assignments }) in
      record freed { free = index ∷ freed.free }
]

-- The index of a new entry, from `free` if it has one, and the table that has the entry.
pub place : FlowEntry → List ℕ → FlowTable → ℕ × FlowTable
place entry [] t = (length t.entries, record t { entries = t.entries ++ entry ∷ [] })
place entry (index ∷ free) t =
    (index, record t { entries = set t.entries index entry; free = free })

pub assign_new : FlowKey → ℕ → FlowTable → FlowTable
assign_new flow lane t =
    let entry : FlowEntry = record {
      flow = flow;
      previous = no_flow_index;
      next = no_flow_index;
      lane = lane % 2 ^ 8;
    } in
    let (index, placed) = place entry t.free t in
    link_newest index (record placed { assignments = insert flow index placed.assignments })

pub assign : FlowKey → ℕ → FlowTable → FlowTable
assign flow lane t = elim (lookup flow t.assignments) [
  | some index ↦ touch index (record t { entries = with_lane index lane t.entries })
  | none ↦
      if leb max_tracked_flows (length t.assignments)
      then assign_new flow lane (evict_oldest t)
      else assign_new flow lane t
]
