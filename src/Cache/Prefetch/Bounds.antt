-- ===== src/Cache/Prefetch/Bounds.antt =====
-- src/cache/prefetcher_markov.cpp: the sizes of the Markov table and of its rows.
pub mod Table
use multicore_oo_o_sim.Base.{
  ℕ, zero, suc, ◌+◌, ◌-◌, ◌<◌, ◌≤◌, ◌≡◌, refl, ap, sym, subst, ◌∙◌, arith, Bool, true, false,
  Option, none, some, List, [], ◌∷◌, ◌==◌, ◌&&◌, ◌||◌, not, ltb, leb, if◌then◌else◌, if-cases,
  length, inc64,
}
use multicore_oo_o_sim.Cache.Prefetch.{
  Successor, MarkovRow, Markov, make_markov, best_at, take_at, row_sort_loop, markov_row_sort,
  count_access, lfu_at, drop_at, evict_lfu, add_new_entry, learn_row, pop_row, add_new_row,
  find_row, remove_row, learn, Prefetcher, no_prefetcher, plus_one, markov, hybrid, seen,
  prefetch_on_miss,
}

-- No row is longer than four entries.
abbrev pub rows_fit : List MarkovRow → Bool
rows_fit [] = true
rows_fit (r ∷ rs) = leb (length r.entries) 4 && rows_fit rs

abbrev pub fits : Markov → Bool
fits m = leb (length m.table) m.max_rows && rows_fit m.table

abbrev pub prefetcher_fits : Prefetcher → Bool
prefetcher_fits no_prefetcher = true
prefetcher_fits plus_one = true
prefetcher_fits (markov m) = fits m
prefetcher_fits (hybrid m) = fits m

-- The size of what is left beside the entry taken out.
taken_length : Option (Successor × List Successor) → ℕ
taken_length none = 0
taken_length (some (y, ys)) = suc (length ys)

length-take_at : (i : ℕ) (xs : List Successor) → taken_length (take_at i xs) ≤ length xs
unfolding take_at taken_length
length-take_at i [] = omega arith
length-take_at zero (x ∷ xs) = omega arith
length-take_at (suc i) (x ∷ xs) = put_back (take_at i xs) (length-take_at i xs)
  where
    put_back :
        (o : Option (Successor × List Successor))
        → taken_length o ≤ length xs
        → taken_length (elim o [ none ↦ none | some (y, ys) ↦ some (y, x ∷ ys) ]) ≤ suc (length xs)
    put_back none h = omega arith
    put_back (some (y, ys)) h = omega (arith, h)

length-row_sort_loop :
    (fuel : ℕ) (row : List Successor) → length (row_sort_loop fuel row) ≤ length row
unfolding row_sort_loop taken_length
length-row_sort_loop zero row = omega arith
length-row_sort_loop (suc fuel) [] = omega arith
length-row_sort_loop (suc fuel) (block ∷ rest) =
    at_best (λ row. length-row_sort_loop fuel row) (best_at 1 0 block rest)
  where
    at_taken :
        ((row : List Successor) → length (row_sort_loop fuel row) ≤ length row)
        → (o : Option (Successor × List Successor)) → taken_length o ≤ length rest
        → length {A = Successor} (elim o [
          | none ↦ block ∷ row_sort_loop fuel rest
          | some (best, others) ↦ best ∷ block ∷ row_sort_loop fuel others
        ])
          ≤ suc (length rest)
    at_taken again none h = let r : _ = again rest in omega (arith, r)
    at_taken again (some (best, others)) h = let r : _ = again others in omega (arith, r, h)

    at_best :
        ((row : List Successor) → length (row_sort_loop fuel row) ≤ length row)
        → (j : ℕ)
        → length {A = Successor} (elim j [
          | zero ↦ block ∷ row_sort_loop fuel rest
          | suc i ↦ elim (take_at i rest) [
            | none ↦ block ∷ row_sort_loop fuel rest
            | some (best, others) ↦ best ∷ block ∷ row_sort_loop fuel others
          ]
        ])
          ≤ suc (length rest)
    at_best again zero = let r : _ = again rest in omega (arith, r)
    at_best again (suc i) = at_taken again (take_at i rest) (length-take_at i rest)

sort_nothing : (k : ℕ) → row_sort_loop k [] ≡ []
unfolding row_sort_loop
sort_nothing zero = refl
sort_nothing (suc k) = refl

-- A round for each entry is enough: more rounds change nothing.
enough_rounds :
    (n m : ℕ) (row : List Successor)
    → length row ≤ n
    → n ≤ m
    → row_sort_loop m row ≡ row_sort_loop n row
unfolding row_sort_loop taken_length
enough_rounds zero m [] h r = sort_nothing m
enough_rounds zero m (x ∷ xs) h r = absurd (omega (arith, h))
enough_rounds (suc n) zero row h r = absurd (omega (arith, r))
enough_rounds (suc n) (suc m) [] h r = refl
enough_rounds (suc n) (suc m) (block ∷ rest) h r =
    let small : length rest ≤ n = omega (arith, h) in
    at_best (λ row l. enough_rounds n m row l (omega (arith, r))) small (best_at 1 0 block rest)
  where
    at_taken :
        ((row : List Successor) → length row ≤ n → row_sort_loop m row ≡ row_sort_loop n row)
        → length rest ≤ n
        → (o : Option (Successor × List Successor)) → taken_length o ≤ length rest
        → ◌≡◌ {A = List Successor}
            (elim o [
              | none ↦ block ∷ row_sort_loop m rest
              | some (best, others) ↦ best ∷ block ∷ row_sort_loop m others
            ])
            (elim o [
              | none ↦ block ∷ row_sort_loop n rest
              | some (best, others) ↦ best ∷ block ∷ row_sort_loop n others
            ])
    at_taken again small none t = ap (λ l. block ∷ l) (again rest small)
    at_taken again small (some (best, others)) t =
        ap (λ l. best ∷ block ∷ l) (again others (omega (arith, t, small)))

    at_best :
        ((row : List Successor) → length row ≤ n → row_sort_loop m row ≡ row_sort_loop n row)
        → length rest ≤ n
        → (j : ℕ)
        → ◌≡◌ {A = List Successor}
            (elim j [
              | zero ↦ block ∷ row_sort_loop m rest
              | suc i ↦ elim (take_at i rest) [
                | none ↦ block ∷ row_sort_loop m rest
                | some (best, others) ↦ best ∷ block ∷ row_sort_loop m others
              ]
            ])
            (elim j [
              | zero ↦ block ∷ row_sort_loop n rest
              | suc i ↦ elim (take_at i rest) [
                | none ↦ block ∷ row_sort_loop n rest
                | some (best, others) ↦ best ∷ block ∷ row_sort_loop n others
              ]
            ])
    at_best again small zero = ap (λ l. block ∷ l) (again rest small)
    at_best again small (suc i) = at_taken again small (take_at i rest) (length-take_at i rest)

length-drop_at :
    (i : ℕ) (xs : List Successor) → i < length xs → length (drop_at i xs) ≡ length xs - 1
unfolding drop_at
length-drop_at i [] h = refl
length-drop_at zero (x ∷ xs) h = omega arith
length-drop_at (suc i) (x ∷ xs) h =
    let r : _ = length-drop_at i xs (omega arith) in omega (arith, r)

lfu_at_within :
    (i victim n a : ℕ) (xs : List Successor) (size : ℕ)
    → victim < size
    → i + length xs ≤ size
    → lfu_at i victim n a xs < size
unfolding lfu_at
lfu_at_within i victim n a [] size v h = v
lfu_at_within i victim n a (x ∷ xs) size v h =
    if-cases (λ (j : ℕ). j < size) (ltb x.num_access n) _ _
      (λ p.
        lfu_at_within (i + 1) i x.num_access x.destination_b_addr xs size (omega arith)
          (omega arith))
      (λ p.
        if-cases (λ (j : ℕ). j < size) ((x.num_access == n) && ltb x.destination_b_addr a) _ _
          (λ q. lfu_at_within (i + 1) i n x.destination_b_addr xs size (omega arith) (omega arith))
          (λ q. lfu_at_within (i + 1) victim n a xs size v (omega arith)))

length-evict_lfu : (row : List Successor) → length (evict_lfu row) ≡ length row - 1
length-evict_lfu [] = refl
length-evict_lfu (x ∷ xs) =
    length-drop_at (lfu_at 0 0 x.num_access x.destination_b_addr (x ∷ xs)) (x ∷ xs) (
      lfu_at_within 0 0 x.num_access x.destination_b_addr (x ∷ xs) (suc (length xs)) (omega arith)
        (omega arith))

pub length-add_new_entry :
    (missed : ℕ) (row : List Successor) → length row ≤ 4 → length (add_new_entry missed row) ≤ 4
unfolding add_new_entry
length-add_new_entry missed row h =
    let x : Successor = record { destination_b_addr = missed; num_access = 1 } in
    if-cases (λ (l : List Successor). length (markov_row_sort (x ∷ l)) ≤ 4) (length row == 4) _ _
      (λ p.
        let s : _ = length-row_sort_loop (suc (length (evict_lfu row))) (x ∷ evict_lfu row) in
        ground (arith, length-evict_lfu row))
      (λ p. let s : _ = length-row_sort_loop (suc (length row)) (x ∷ row) in ground arith)

counted_length : List Successor → Option (List Successor) → Bool
counted_length row none = true
counted_length row (some ys) = length ys == length row

length-count_access :
    (missed : ℕ) (row : List Successor) → counted_length row (count_access missed row) ≡ true
unfolding count_access counted_length
length-count_access missed [] = refl
length-count_access missed (x ∷ xs) =
    if-cases (λ (o : Option (List Successor)). counted_length (x ∷ xs) o ≡ true)
      (x.destination_b_addr == missed) _ _ (λ p. ground arith)
      (λ p. behind_x (count_access missed xs) (length-count_access missed xs))
  where
    behind_x :
        (o : Option (List Successor))
        → counted_length xs o ≡ true
        → counted_length (x ∷ xs) (elim o [ none ↦ none | some ys ↦ some (x ∷ ys) ]) ≡ true
    behind_x none h = refl
    behind_x (some ys) h = ground arith

pub length-learn_row :
    (missed : ℕ) (row : List Successor) → length row ≤ 4 → length (learn_row missed row) ≤ 4
unfolding learn_row counted_length
length-learn_row missed row h = at_count (count_access missed row) (length-count_access missed row)
  where
    at_count :
        (o : Option (List Successor))
        → counted_length row o ≡ true
        → length {A = Successor}
            (elim o [ some row ↦ markov_row_sort row | none ↦ add_new_entry missed row ])
          ≤ 4
    at_count none p = length-add_new_entry missed row h
    at_count (some ys) p = let s : _ = length-row_sort_loop (length ys) ys in ground arith
