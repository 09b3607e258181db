-- ===== src/Cache/Prefetch/Tests.antt =====
-- The Markov table on concrete inputs.
use multicore_oo_o_sim.Base.{ℕ, ◌≡◌, refl, Bool, true, false, some, [], ◌∷◌}
use multicore_oo_o_sim.Cache.Prefetch.{
  Successor, best_at, take_at, row_sort_loop, markov_row_sort, mfu_from, get_mfu_block_addr,
  Prefetcher, markov, prefetch_on_miss,
}
use multicore_oo_o_sim.Cache.Prefetch.Bounds.{prefetcher_fits}
use multicore_oo_o_sim.Cache.Prefetch.MostUsed.{is_most_used, mfu_from-is_most_used}
use multicore_oo_o_sim.Cache.Prefetch.Bounds.Table.{fits-prefetch_on_miss}

abbrev next : ℕ → ℕ → Successor
next a n = record { destination_b_addr = a; num_access = n }

-- The best entry is put first, but the entry it is put before is not looked at again.
sorted_once :
    markov_row_sort (next 1 1 ∷ next 2 3 ∷ next 3 2 ∷ []) ≡ next 2 3 ∷ next 1 1 ∷ next 3 2 ∷ []
unfolding row_sort_loop best_at take_at
sorted_once = refl

most_used : get_mfu_block_addr (next 7 2 ∷ next 9 5 ∷ next 11 5 ∷ []) ≡ some 11
unfolding mfu_from
most_used = refl

-- The row of the block 5 is full.
abbrev learnt : Prefetcher
learnt = markov (record {
  table =
      record { source_b_addr = 5; entries = next 2 4 ∷ next 8 3 ∷ next 6 1 ∷ next 7 1 ∷ [] } ∷ [];
  prev_block = 5;
  first_block = false;
  max_rows = 2;
})

abbrev no_block : ℕ → Bool
no_block addr = false

fits-prefetch_on_miss_example :
    prefetcher_fits (prefetch_on_miss 6 no_block no_block 9 learnt).1 ≡ true
fits-prefetch_on_miss_example = fits-prefetch_on_miss 6 no_block no_block 9 learnt refl

mfu_from-is_most_used_example :
    is_most_used
      (mfu_from 2 7 (next 9 5 ∷ next 11 5 ∷ []))
      (next 7 2 ∷ next 9 5 ∷ next 11 5 ∷ [])
      (next 7 2 ∷ next 9 5 ∷ next 11 5 ∷ [])
    ≡ true
mfu_from-is_most_used_example = mfu_from-is_most_used (next 7 2) (next 9 5 ∷ next 11 5 ∷ [])
