-- ===== src/Cache/Mshr.antt =====
-- include/comparch/cache/mshr.hpp and src/cache/mshr.cpp: the table of the misses in flight. Each loop
-- over the table is a recursion on it, and a pointer into it is the entry it points to.
pub mod Holders
pub mod Others
pub mod Stalls
mod Tests
use multicore_oo_o_sim.Base.{
  ℕ, zero, suc, ◌+◌, Bool, true, false, not, ◌&&◌, ◌||◌, Option, none, some, List, [], ◌∷◌, ◌++◌,
  ◌==◌, if◌then◌else◌, leb, replicate,
}

pub data Op : Type 0 where
  op_read op_write op_prefetch : Op

pub record AccessResult : Type 0 where
  pub hit : Bool
  pub latency : ℕ

pub record MshrEntry : Type 0 where
  pub id : ℕ
  pub block_addr : ℕ
  pub op : Op
  pub pc : ℕ
  pub valid : Bool
  pub ready : Bool
  pub due_cycle : ℕ
  pub result : AccessResult
  pub merged_ids : List ℕ

abbrev pub blank_entry : MshrEntry
blank_entry = record {
  id = 0;
  block_addr = 0;
  op = op_read;
  pc = 0;
  valid = false;
  ready = false;
  due_cycle = 0;
  result = record { hit = false; latency = 0 };
  merged_ids = [];
}

abbrev pub Mshr : Type 0
Mshr = List MshrEntry

abbrev pub make : ℕ → Mshr
make num_entries = replicate num_entries blank_entry

-- `std::find` on the merged identifiers.
unfoldable pub contains : ℕ → List ℕ → Bool
contains id [] = false
contains id (x ∷ xs) = (x == id) || contains id xs

-- `std::find` and `erase`: the first occurrence goes.
unfoldable pub remove_first : ℕ → List ℕ → List ℕ
remove_first id [] = []
remove_first id (x ∷ xs) = if x == id then xs else x ∷ remove_first id xs

unfoldable pub entry_holds : MshrEntry → ℕ → Bool
entry_holds e id = e.valid && ((e.id == id) || contains id e.merged_ids)

abbrev pub behind : MshrEntry → Option (MshrEntry × Mshr) → Option (MshrEntry × Mshr)
behind e none = none
behind e (some (slot, t)) = some (slot, e ∷ t)

abbrev pub merged : ℕ → MshrEntry → MshrEntry
merged id e = record e { merged_ids = e.merged_ids ++ id ∷ [] }

-- Step 1: the first valid entry for the block takes the identifier.
unfoldable pub merge : (id block_addr : ℕ) → Mshr → Option (MshrEntry × Mshr)
merge id block_addr [] = none
merge id block_addr (e ∷ es) =
    let rest = merge id block_addr es in
    if e.valid && (e.block_addr == block_addr)
    then some (merged id e, merged id e ∷ es)
    else behind e rest

-- Step 2: the first free slot.
unfoldable pub fill : MshrEntry → Mshr → Option (MshrEntry × Mshr)
fill fresh [] = none
fill fresh (e ∷ es) =
    let rest = fill fresh es in if not e.valid then some (fresh, fresh ∷ es) else behind e rest

abbrev pub fresh_entry : (id block_addr : ℕ) → Op → (pc due_cycle : ℕ) → AccessResult → MshrEntry
fresh_entry id block_addr op pc due_cycle result = record {
  id = id;
  block_addr = block_addr;
  op = op;
  pc = pc;
  valid = true;
  ready = false;
  due_cycle = due_cycle;
  result = result;
  merged_ids = [];
}

-- Step 2 when step 1 found no slot.
abbrev pub or_fill : MshrEntry → Mshr → Option (MshrEntry × Mshr) → Option (MshrEntry × Mshr)
or_fill fresh t (some r) = some r
or_fill fresh t none = fill fresh t

-- The slot and the table, or `none` when the caller must stall.
unfoldable pub allocate :
    (id block_addr : ℕ) → Op → (pc due_cycle : ℕ) → AccessResult → Mshr → Option (MshrEntry × Mshr)
allocate id block_addr op pc due_cycle result t =
    or_fill (fresh_entry id block_addr op pc due_cycle result) t (merge id block_addr t)

unfoldable pub find : ℕ → Mshr → Option MshrEntry
find id [] = none
find id (e ∷ es) = if entry_holds e id then some e else find id es

unfoldable pub tick : ℕ → Mshr → Mshr
tick now [] = []
tick now (e ∷ es) =
    (if e.valid && (not e.ready && leb e.due_cycle now) then record e { ready = true } else e)
    ∷ tick now es

-- The primary leaves: the first of those merged takes its place, or the slot is freed.
unfoldable pub promote : List ℕ → MshrEntry → MshrEntry
promote [] e = record e { valid = false; ready = false; merged_ids = [] }
promote (m ∷ ms) e = record e { id = m; merged_ids = ms }

unfoldable pub drop_holder : ℕ → MshrEntry → MshrEntry
drop_holder id e =
    if e.id == id
    then promote e.merged_ids e
    else (record e { merged_ids = remove_first id e.merged_ids })

unfoldable pub release : ℕ → Mshr → Mshr
release id [] = []
release id (e ∷ es) = if entry_holds e id then drop_holder id e ∷ es else e ∷ release id es

unfoldable pub full : Mshr → Bool
full [] = true
full (e ∷ es) = if not e.valid then false else full es

unfoldable pub occupancy : Mshr → ℕ
occupancy [] = 0
occupancy (e ∷ es) = if e.valid then suc (occupancy es) else occupancy es
