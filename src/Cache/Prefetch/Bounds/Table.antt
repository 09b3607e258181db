-- ===== src/Cache/Prefetch/Bounds/Table.antt =====
-- src/cache/prefetcher_markov.cpp and src/cache/prefetcher_hybrid.cpp: the Markov table over the misses.
use multicore_oo_o_sim.Base.{
  ℕ, suc, ◌-◌, ◌≡◌, refl, arith, Bool, true, Option, none, some, List, [], ◌∷◌, ◌==◌, ◌&&◌, leb,
  Bool-cases, inl, inr, length,
}
use multicore_oo_o_sim.Cache.Prefetch.{
  MarkovRow, Markov, learn_row, pop_row, add_new_row, find_row, remove_row, learn, Prefetcher,
  no_prefetcher, plus_one, markov, hybrid, prefetch_on_miss,
}
use multicore_oo_o_sim.Cache.Prefetch.Bounds.{
  rows_fit, fits, prefetcher_fits, length-add_new_entry, length-learn_row,
}

rows_fit-pop_row : (rs : List MarkovRow) → rows_fit rs ≡ true → rows_fit (pop_row rs) ≡ true
unfolding pop_row
rows_fit-pop_row [] h = h
rows_fit-pop_row (r ∷ []) h = refl
rows_fit-pop_row (r ∷ s ∷ rs) h = ground (arith, rows_fit-pop_row (s ∷ rs))

length-pop_row : (rs : List MarkovRow) → length (pop_row rs) ≡ length rs - 1
unfolding pop_row
length-pop_row [] = refl
length-pop_row (r ∷ []) = refl
length-pop_row (r ∷ s ∷ rs) = let t : _ = length-pop_row (s ∷ rs) in omega (arith, t)

fits-add_new_row : (missed : ℕ) (m : Markov) → fits m ≡ true → fits (add_new_row missed m) ≡ true
unfolding add_new_row
fits-add_new_row missed m h =
    ground (arith, rows_fit-pop_row m.table, length-pop_row m.table, length-add_new_entry missed [])

-- What the search finds: a row that fits, and one less beside it.
found_fits : List MarkovRow → List MarkovRow → Option MarkovRow → Bool
found_fits rs others none = true
found_fits rs others (some r) =
    leb (length r.entries) 4 && (rows_fit others && (suc (length others) == length rs))

fits-found :
    (source : ℕ) (rs : List MarkovRow)
    → rows_fit rs ≡ true
    → found_fits rs (remove_row source rs) (find_row source rs) ≡ true
unfolding find_row remove_row found_fits
fits-found source [] h = refl
fits-found source (r ∷ rs) h = elim (Bool-cases (r.source_b_addr == source)) [
  | inl p ↦ rw p (ground arith)
  | inr p ↦ rw p (behind_r (find_row source rs) (fits-found source rs (ground arith)))
]
  where
    behind_r :
        (o : Option MarkovRow)
        → found_fits rs (remove_row source rs) o ≡ true
        → found_fits (r ∷ rs) (r ∷ remove_row source rs) o ≡ true
    behind_r none p = refl
    behind_r (some s) p = ground arith

fits-learn : (missed : ℕ) (m : Markov) → fits m ≡ true → fits (learn missed m) ≡ true
unfolding learn found_fits
fits-learn missed m h =
    at_row (find_row m.prev_block m.table) (fits-found m.prev_block m.table (ground arith))
  where
    at_row :
        (o : Option MarkovRow)
        → found_fits m.table (remove_row m.prev_block m.table) o ≡ true
        → fits (elim o [
          | some r ↦ record m {
            table =
                (record r { entries = learn_row missed r.entries })
                ∷ remove_row m.prev_block m.table;
          }
          | none ↦ add_new_row missed m
        ])
          ≡ true
    at_row none p = fits-add_new_row missed m h
    at_row (some r) p = ground (arith, length-learn_row missed r.entries)

-- Whatever misses a prefetcher is told of, its table has at most as many rows as it was made for, and
-- none of them more than four successors, if that was so before.
pub fits-prefetch_on_miss :
    (b : ℕ) (in_peer in_self : ℕ → Bool) (missed : ℕ) (p : Prefetcher)
    → prefetcher_fits p ≡ true
    → prefetcher_fits (prefetch_on_miss b in_peer in_self missed p).1 ≡ true
unfolding prefetch_on_miss
fits-prefetch_on_miss b in_peer in_self missed no_prefetcher h = refl
fits-prefetch_on_miss b in_peer in_self missed plus_one h = refl
fits-prefetch_on_miss b in_peer in_self missed (markov m) h = ground (arith, fits-learn missed m)
fits-prefetch_on_miss b in_peer in_self missed (hybrid m) h = ground (arith, fits-learn missed m)
