-- ===== src/Cache/Prefetch/MostUsed.antt =====
-- src/cache/prefetcher_markov.cpp: the successor that is used most.
use multicore_oo_o_sim.Base.{
  ℕ, ◌≡◌, refl, ap, ◌∙◌, arith, Bool, true, false, List, [], ◌∷◌, ◌==◌, ◌&&◌, ◌||◌, not, ltb,
  if◌then◌else◌, if-cases,
}
use multicore_oo_o_sim.Cache.Prefetch.{Successor, better, mfu_from}

-- No entry of the row is better.
abbrev pub unbeaten : Successor → List Successor → Bool
unbeaten y [] = true
unbeaten y (z ∷ zs) = not (better z y) && unbeaten y zs

-- The address is that of one of the entries, and no entry of the row is better than that one.
abbrev pub is_most_used : ℕ → (entries row : List Successor) → Bool
is_most_used a [] row = false
is_most_used a (y ∷ ys) row =
    ((y.destination_b_addr == a) && unbeaten y row) || is_most_used a ys row

-- The entry whose address the scan ends with.
mfu_entry : Successor → List Successor → Successor
mfu_entry best [] = best
mfu_entry best (x ∷ xs) =
    let found = mfu_entry x xs in
    let passed = mfu_entry best xs in if better x best then found else passed

mfu_from-mfu_entry :
    (best : Successor) (xs : List Successor)
    → mfu_from best.num_access best.destination_b_addr xs ≡ (mfu_entry best xs).destination_b_addr
unfolding mfu_from mfu_entry
mfu_from-mfu_entry best [] = refl
mfu_from-mfu_entry best (x ∷ xs) =
    let found : _ = mfu_from-mfu_entry x xs in
    let passed : _ = mfu_from-mfu_entry best xs in
    if-cases
      (λ (a : ℕ).
        a ≡ (if better x best then mfu_entry x xs else mfu_entry best xs).destination_b_addr)
      (ltb best.num_access x.num_access) _ _
      (λ p. let won : better x best ≡ true = ground arith in rw won found)
      (λ p.
        if-cases
          (λ (a : ℕ).
            a ≡ (if better x best then mfu_entry x xs else mfu_entry best xs).destination_b_addr)
          ((x.num_access == best.num_access) && ltb best.destination_b_addr x.destination_b_addr) _
          _
          (λ q.
            let won : better x best ≡ true = ground arith in
            let same : best.num_access ≡ x.num_access = ground arith in
            rw won (ap (λ n. mfu_from n x.destination_b_addr xs) same ∙ found))
          (λ q. let lost : better x best ≡ false = ground arith in rw lost passed))

better_trans : (a b c : Successor) → better a b ≡ true → better a c ≡ false → better b c ≡ false
better_trans a b c h k = ground arith

worse_trans : (a b c : Successor) → better a b ≡ false → better b c ≡ false → better a c ≡ false
worse_trans a b c h k = ground arith

over_lost :
    (a b rest : Bool)
    → not b && rest ≡ true
    → (b ≡ false → a ≡ false)
    → not a && (not b && rest) ≡ true
over_lost a true rest r t = absurd cc
over_lost a false rest r t = rw (t refl) r

under_lost :
    (a b rest : Bool)
    → not a && rest ≡ true
    → (a ≡ false → b ≡ false)
    → not a && (not b && rest) ≡ true
under_lost true b rest r t = absurd cc
under_lost false b rest r t = rw (t refl) r

unbeaten_best :
    (best : Successor) (xs : List Successor) → unbeaten (mfu_entry best xs) (best ∷ xs) ≡ true
unfolding mfu_entry
unbeaten_best best [] = ground arith
unbeaten_best best (x ∷ xs) =
    if-cases (λ (e : Successor). unbeaten e (best ∷ x ∷ xs) ≡ true) (better x best) _ _
      (λ p.
        let r : unbeaten (mfu_entry x xs) (x ∷ xs) ≡ true = unbeaten_best x xs in
        let t : better x (mfu_entry x xs) ≡ false → better best (mfu_entry x xs) ≡ false =
          better_trans x best (mfu_entry x xs) p in
        over_best best x (mfu_entry x xs) xs r t)
      (λ p.
        let r : unbeaten (mfu_entry best xs) (best ∷ xs) ≡ true = unbeaten_best best xs in
        let t : better best (mfu_entry best xs) ≡ false → better x (mfu_entry best xs) ≡ false =
          worse_trans x best (mfu_entry best xs) p in
        under_best best x (mfu_entry best xs) xs r t)
  where
    over_best :
        (y x e : Successor) (zs : List Successor)
        → unbeaten e (x ∷ zs) ≡ true
        → (better x e ≡ false → better y e ≡ false)
        → unbeaten e (y ∷ x ∷ zs) ≡ true
    over_best y x e zs r t = over_lost (better y e) (better x e) (unbeaten e zs) r t

    under_best :
        (y x e : Successor) (zs : List Successor)
        → unbeaten e (y ∷ zs) ≡ true
        → (better y e ≡ false → better x e ≡ false)
        → unbeaten e (y ∷ x ∷ zs) ≡ true
    under_best y x e zs r t = under_lost (better y e) (better x e) (unbeaten e zs) r t

or_right : (a b : Bool) → b ≡ true → a || b ≡ true
or_right a b h = ground arith

or_middle : (a b c : Bool) → a || c ≡ true → a || (b || c) ≡ true
or_middle a b c h = ground arith

most_used_among :
    (best : Successor) (xs row : List Successor)
    → unbeaten (mfu_entry best xs) row ≡ true
    → is_most_used (mfu_entry best xs).destination_b_addr (best ∷ xs) row ≡ true
unfolding mfu_entry
most_used_among best [] row h = ground arith
most_used_among best (x ∷ xs) row h =
    if-cases
      (λ (e : Successor).
        unbeaten e row ≡ true → is_most_used e.destination_b_addr (best ∷ x ∷ xs) row ≡ true)
      (better x best) _ _
      (λ p u.
        later best (mfu_entry x xs).destination_b_addr (x ∷ xs) row (most_used_among x xs row u))
      (λ p u.
        skipped best x (mfu_entry best xs).destination_b_addr xs row
          (most_used_among best xs row u))
      h
  where
    later :
        (y : Successor) (a : ℕ) (zs row : List Successor)
        → is_most_used a zs row ≡ true
        → is_most_used a (y ∷ zs) row ≡ true
    later y a zs row m =
        or_right ((y.destination_b_addr == a) && unbeaten y row) (is_most_used a zs row) m

    skipped :
        (y x : Successor) (a : ℕ) (zs row : List Successor)
        → is_most_used a (y ∷ zs) row ≡ true
        → is_most_used a (y ∷ x ∷ zs) row ≡ true
    skipped y x a zs row m =
        or_middle ((y.destination_b_addr == a) && unbeaten y row)
          ((x.destination_b_addr == a) && unbeaten x row) (is_most_used a zs row) m

-- The address that is asked for is that of an entry of the row which no other beats: none has more
-- accesses, and none with as many a greater address.
pub mfu_from-is_most_used :
    (x : Successor) (xs : List Successor)
    → is_most_used (mfu_from x.num_access x.destination_b_addr xs) (x ∷ xs) (x ∷ xs) ≡ true
mfu_from-is_most_used x xs =
    ap (λ a. is_most_used a (x ∷ xs) (x ∷ xs)) (mfu_from-mfu_entry x xs)
    ∙ most_used_among x xs (x ∷ xs) (unbeaten_best x xs)
