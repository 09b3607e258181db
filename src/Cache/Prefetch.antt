-- ===== src/Cache/Prefetch.antt =====
-- src/cache/prefetcher_plus_one.cpp, src/cache/prefetcher_markov.cpp and src/cache/prefetcher_hybrid.cpp:
-- what a prefetcher asks for after a miss, as the byte address, and what it learns.
pub mod Bounds
pub mod MostUsed
mod Tests
use multicore_oo_o_sim.Base.{
  ℕ, zero, suc, ◌+◌, ◌*◌, ◌^◌, Bool, true, false, Option, none, some, List, [], ◌∷◌, ◌==◌, ◌&&◌,
  ◌||◌, not, ltb, if◌then◌else◌, length, inc64, u64, ◌%◌,
}

-- `markov_t`.
pub record Successor : Type 0 where
  pub destination_b_addr : ℕ
  pub num_access : ℕ

pub record MarkovRow : Type 0 where
  pub source_b_addr : ℕ
  pub entries : List Successor

pub record Markov : Type 0 where
  pub table : List MarkovRow
  pub prev_block : ℕ
  pub first_block : Bool
  pub max_rows : ℕ

abbrev pub make_markov : ℕ → Markov
make_markov max_rows = record {
  table = [];
  prev_block = 0;
  first_block = true;
  max_rows = max_rows;
}

-- More accesses, or as many and a greater address.
abbrev pub better : Successor → Successor → Bool
better x y =
    ltb y.num_access x.num_access
    || ((x.num_access == y.num_access) && ltb y.destination_b_addr x.destination_b_addr)

-- The scan of the sort for the best entry: its distance from the entry it began at, which is 0 for itself.
unfoldable pub best_at : (i best_i : ℕ) → Successor → List Successor → ℕ
best_at i best_i best [] = best_i
best_at i best_i best (x ∷ xs) =
    let passed = best_at (i + 1) best_i best xs in
    let found = best_at (i + 1) i x xs in if better x best then found else passed

unfoldable pub take_at : ℕ → List Successor → Option (Successor × List Successor)
take_at i [] = none
take_at zero (x ∷ xs) = some (x, xs)
take_at (suc i) (x ∷ xs) = elim (take_at i xs) [ none ↦ none | some (y, ys) ↦ some (y, x ∷ ys) ]

-- The best entry comes to stand before `block`, and the loop goes on after `block`.
unfoldable pub row_sort_loop : (fuel : ℕ) → List Successor → List Successor
row_sort_loop zero row = row
row_sort_loop (suc fuel) [] = []
row_sort_loop (suc fuel) (block ∷ rest) = elim (best_at 1 0 block rest) [
  | zero ↦ block ∷ row_sort_loop fuel rest
  | suc i ↦ elim (take_at i rest) [
    | none ↦ block ∷ row_sort_loop fuel rest
    | some (best, others) ↦ best ∷ block ∷ row_sort_loop fuel others
  ]
]

abbrev pub markov_row_sort : List Successor → List Successor
markov_row_sort row = row_sort_loop (length row) row

-- `get_MFU_block_addr`: the scan after the first entry.
unfoldable pub mfu_from : (best_count mfu_block_addr : ℕ) → List Successor → ℕ
mfu_from best_count mfu_block_addr [] = mfu_block_addr
mfu_from best_count mfu_block_addr (x ∷ xs) =
    let more = mfu_from x.num_access x.destination_b_addr xs in
    let tied = mfu_from best_count x.destination_b_addr xs in
    let less = mfu_from best_count mfu_block_addr xs in
    if ltb best_count x.num_access
    then more
    else (if (x.num_access == best_count) && ltb mfu_block_addr x.destination_b_addr
        then tied
        else less)

-- On an empty row, for which it is not called, there is no address.
abbrev pub get_mfu_block_addr : List Successor → Option ℕ
get_mfu_block_addr [] = none
get_mfu_block_addr (x ∷ xs) = some (mfu_from x.num_access x.destination_b_addr xs)

-- The row with one more access of the destination, if it is there.
unfoldable pub count_access : ℕ → List Successor → Option (List Successor)
count_access missed [] = none
count_access missed (x ∷ xs) =
    let rest = count_access missed xs in
    if x.destination_b_addr == missed
    then some ((record x { num_access = inc64 x.num_access }) ∷ xs)
    else elim rest [ none ↦ none | some ys ↦ some (x ∷ ys) ]

-- The scan for the least frequently used entry: its place in the row.
unfoldable pub lfu_at : (i victim lowest_count lfu_block_addr : ℕ) → List Successor → ℕ
lfu_at i victim lowest_count lfu_block_addr [] = victim
lfu_at i victim lowest_count lfu_block_addr (x ∷ xs) =
    let less = lfu_at (i + 1) i x.num_access x.destination_b_addr xs in
    let tied = lfu_at (i + 1) i lowest_count x.destination_b_addr xs in
    let more = lfu_at (i + 1) victim lowest_count lfu_block_addr xs in
    if ltb x.num_access lowest_count
    then less
    else (if (x.num_access == lowest_count) && ltb x.destination_b_addr lfu_block_addr
        then tied
        else more)

unfoldable pub drop_at : ℕ → List Successor → List Successor
drop_at i [] = []
drop_at zero (x ∷ xs) = xs
drop_at (suc i) (x ∷ xs) = x ∷ drop_at i xs

abbrev pub evict_lfu : List Successor → List Successor
evict_lfu [] = []
evict_lfu (x ∷ xs) = drop_at (lfu_at 0 0 x.num_access x.destination_b_addr (x ∷ xs)) (x ∷ xs)

unfoldable pub add_new_entry : ℕ → List Successor → List Successor
add_new_entry missed row = markov_row_sort (
    (record { destination_b_addr = missed; num_access = 1 })
    ∷ (if length row == 4 then evict_lfu row else row))

-- `is_dest_in_MRK_row`, and `add_new_entry` where it is not.
unfoldable pub learn_row : ℕ → List Successor → List Successor
learn_row missed row = elim (count_access missed row) [
  | some row ↦ markov_row_sort row
  | none ↦ add_new_entry missed row
]

unfoldable pub pop_row : List MarkovRow → List MarkovRow
pop_row [] = []
pop_row (r ∷ []) = []
pop_row (r ∷ s ∷ rs) = r ∷ pop_row (s ∷ rs)

unfoldable pub add_new_row : ℕ → Markov → Markov
add_new_row missed m = if m.max_rows == 0 then m else (record m {
  table =
      (record { source_b_addr = m.prev_block; entries = add_new_entry missed [] })
      ∷ (if length m.table == m.max_rows then pop_row m.table else m.table);
})

unfoldable pub find_row : ℕ → List MarkovRow → Option MarkovRow
find_row source [] = none
find_row source (r ∷ rs) = if r.source_b_addr == source then some r else find_row source rs

unfoldable pub remove_row : ℕ → List MarkovRow → List MarkovRow
remove_row source [] = []
remove_row source (r ∷ rs) = if r.source_b_addr == source then rs else r ∷ remove_row source rs

unfoldable pub learn : ℕ → Markov → Markov
learn missed m = elim (find_row m.prev_block m.table) [
  | some r ↦ record m {
    table = (record r { entries = learn_row missed r.entries }) ∷ remove_row m.prev_block m.table;
  }
  | none ↦ add_new_row missed m
]

pub data Prefetcher : Type 0 where
  no_prefetcher plus_one : Prefetcher
  markov hybrid : Markov → Prefetcher

abbrev pub seen : ℕ → Markov → Markov
seen missed m = record m { first_block = false; prev_block = missed }

module _ (b : ℕ) (in_peer in_self : ℕ → Bool) where
  -- A block is asked for where neither cache has it.
  abbrev pub wanted : ℕ → Option ℕ
  wanted block =
      let byte : ℕ = block * 2 ^ b % u64 in if in_peer byte || in_self byte then none else some byte

  abbrev pub plus_one_request : ℕ → Option ℕ
  plus_one_request missed = wanted (inc64 missed)

  abbrev pub mfu_request : ℕ → Option ℕ → Option ℕ
  mfu_request missed none = none
  mfu_request missed (some block) = if block == missed then none else wanted block

  abbrev pub markov_request : ℕ → Option MarkovRow → Option ℕ
  markov_request missed none = none
  markov_request missed (some r) = mfu_request missed (get_mfu_block_addr r.entries)

  abbrev pub hybrid_request : ℕ → Option MarkovRow → Option ℕ
  hybrid_request missed none = plus_one_request missed
  hybrid_request missed (some r) = mfu_request missed (get_mfu_block_addr r.entries)

  -- The three `on_miss` methods: the prefetch that they issue, and the prefetcher after it.
  unfoldable pub prefetch_on_miss : ℕ → Prefetcher → Option ℕ × Prefetcher
  prefetch_on_miss missed no_prefetcher = (none, no_prefetcher)
  prefetch_on_miss missed plus_one = (plus_one_request missed, plus_one)
  prefetch_on_miss missed (markov m) =
      if (m.max_rows == 0) || m.first_block
      then (none, markov (seen missed m))
      else (markov_request missed (find_row missed m.table), markov (seen missed (learn missed m)))
  prefetch_on_miss missed (hybrid m) =
      if m.max_rows == 0 then (plus_one_request missed, hybrid (seen missed m)) else (
        hybrid_request missed (find_row missed m.table),
        hybrid (seen missed (if m.first_block then m else learn missed m)),
      )
