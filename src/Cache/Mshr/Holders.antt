-- ===== src/Cache/Mshr/Holders.antt =====
-- src/cache/mshr.cpp: how often an identifier is held.
use multicore_oo_o_sim.Base.{
  ℕ, ◌+◌, ◌-◌, ◌<◌, ◌≡◌, refl, true, false, not, ◌&&◌, Option, none, some, List, [], ◌∷◌, ◌++◌,
  ◌==◌, if◌then◌else◌, arith, if-cases,
}
use multicore_oo_o_sim.Cache.Mshr.Others.{table_after}
use multicore_oo_o_sim.Cache.Mshr.Stalls.{is_none}
use multicore_oo_o_sim.Cache.Mshr.{
  Op, AccessResult, MshrEntry, Mshr, contains, remove_first, entry_holds, behind, merged, merge,
  fill, or_fill, fresh_entry, allocate, find, promote, drop_holder, release,
}

-- How often an identifier stands in a list of those merged, and in the table.
abbrev pub count : ℕ → List ℕ → ℕ
count id [] = 0
count id (x ∷ xs) = (if x == id then 1 else 0) + count id xs

abbrev pub holds_count : ℕ → MshrEntry → ℕ
holds_count id e = if e.valid then (if e.id == id then 1 else 0) + count id e.merged_ids else 0

abbrev pub holders : ℕ → Mshr → ℕ
holders id [] = 0
holders id (e ∷ es) = holds_count id e + holders id es

count-remove_first : (id : ℕ) (l : List ℕ) → count id (remove_first id l) ≡ count id l - 1
unfolding remove_first
count-remove_first id [] = refl
count-remove_first id (x ∷ xs) = ground (arith, count-remove_first id xs)

count-contains : (id : ℕ) (l : List ℕ) → contains id l ≡ false → count id l ≡ 0
unfolding contains
count-contains id [] h = refl
count-contains id (x ∷ xs) h = ground (arith, count-contains id xs)

count-append : (id : ℕ) (l : List ℕ) → count id (l ++ id ∷ []) ≡ count id l + 1
count-append id [] = ground arith
count-append id (x ∷ xs) = ground (arith, count-append id xs)

count-contains_pos : (id : ℕ) (l : List ℕ) → contains id l ≡ true → 0 < count id l
unfolding contains
count-contains_pos id [] h = cc
count-contains_pos id (x ∷ xs) h = ground (arith, count-contains_pos id xs)

promote_count :
    (id : ℕ) (l : List ℕ) (e : MshrEntry)
    → e.valid ≡ true
    → holds_count id (promote l e) ≡ count id l
unfolding promote
promote_count id [] e h = refl
promote_count id (m ∷ ms) e h = ground arith

drop_holder_count :
    (id : ℕ) (e : MshrEntry)
    → entry_holds e id ≡ true
    → holds_count id (drop_holder id e) + 1 ≡ holds_count id e
unfolding entry_holds drop_holder
drop_holder_count id e h =
    if-cases (λ (x : MshrEntry). holds_count id x + 1 ≡ holds_count id e) (e.id == id) _ _
      (λ p. ground (arith, promote_count id e.merged_ids e))
      (λ p. ground (arith, count-remove_first id e.merged_ids, count-contains_pos id e.merged_ids))

missed_count : (id : ℕ) (e : MshrEntry) → entry_holds e id ≡ false → holds_count id e ≡ 0
unfolding entry_holds
missed_count id e h = ground (arith, count-contains id e.merged_ids)

-- A release takes away one hold of its identifier, where there is one, and only one.
pub holders-release : (id : ℕ) (t : Mshr) → holders id (release id t) ≡ holders id t - 1
unfolding release
holders-release id [] = refl
holders-release id (e ∷ es) =
    if-cases (λ (x : Mshr). holders id x ≡ holders id (e ∷ es) - 1) (entry_holds e id) _ _
      (λ p. omega (arith, drop_holder_count id e p))
      (λ p. omega (arith, missed_count id e p, holders-release id es))

-- What an allocation adds to the holds, by its outcome.
abbrev pub granted : Option (MshrEntry × Mshr) → ℕ
granted none = 0
granted (some r) = 1

granted-behind :
    (id : ℕ) (e : MshrEntry) (r : Option (MshrEntry × Mshr)) (es : Mshr)
    → holders id (table_after r es) ≡ holders id es + granted r
    → holders id (table_after (behind e r) (e ∷ es)) ≡ holders id (e ∷ es) + granted (behind e r)
granted-behind id e none es p = omega arith
granted-behind id e (some (s, t)) es p = omega (arith, p)

merged_count :
    (id : ℕ) (e : MshrEntry) → e.valid ≡ true → holds_count id (merged id e) ≡ holds_count id e + 1
merged_count id e h = ground (arith, count-append id e.merged_ids)

holders-merge :
    (id b : ℕ) (t : Mshr)
    → holders id (table_after (merge id b t) t) ≡ holders id t + granted (merge id b t)
unfolding merge
holders-merge id b [] = refl
holders-merge id b (e ∷ es) =
    if-cases
      (λ (x : Option (MshrEntry × Mshr)).
        holders id (table_after x (e ∷ es)) ≡ holders id (e ∷ es) + granted x)
      (e.valid && (e.block_addr == b)) _ _
      (λ p. let valid : e.valid ≡ true = ground arith in omega (arith, merged_count id e valid))
      (λ p. granted-behind id e (merge id b es) es (holders-merge id b es))

holders-fill :
    (id : ℕ) (fresh : MshrEntry) (t : Mshr)
    → holds_count id fresh ≡ 1
    → holders id (table_after (fill fresh t) t) ≡ holders id t + granted (fill fresh t)
unfolding fill
holders-fill id fresh [] h = refl
holders-fill id fresh (e ∷ es) h =
    if-cases
      (λ (x : Option (MshrEntry × Mshr)).
        holders id (table_after x (e ∷ es)) ≡ holders id (e ∷ es) + granted x)
      (not e.valid) _ _
      (λ p. let free : holds_count id e ≡ 0 = ground arith in omega (arith, free, h))
      (λ p. granted-behind id e (fill fresh es) es (holders-fill id fresh es h))

holders-or_fill :
    (id : ℕ) (fresh : MshrEntry) (t : Mshr) (r : Option (MshrEntry × Mshr))
    → holds_count id fresh ≡ 1
    → holders id (table_after r t) ≡ holders id t + granted r
    → holders id (table_after (or_fill fresh t r) t) ≡ holders id t + granted (or_fill fresh t r)
holders-or_fill id fresh t (some r) h p = p
holders-or_fill id fresh t none h p = holders-fill id fresh t h

-- An allocation that gives a slot adds one hold of its identifier, and one that stalls adds none.
pub holders-allocate :
    (id b : ℕ) (op : Op) (pc due : ℕ) (result : AccessResult) (t : Mshr)
    → holders id (table_after (allocate id b op pc due result t) t)
      ≡ holders id t + granted (allocate id b op pc due result t)
unfolding allocate
holders-allocate id b op pc due result t =
    holders-or_fill id (fresh_entry id b op pc due result) t (merge id b t) (ground arith)
      (holders-merge id b t)

held_count : (id : ℕ) (e : MshrEntry) → entry_holds e id ≡ true → 0 < holds_count id e
unfolding entry_holds
held_count id e h = ground (arith, count-contains_pos id e.merged_ids)

-- A search finds a slot exactly for the identifiers that are held.
pub find_finds_held : (id : ℕ) (t : Mshr) → is_none (find id t) ≡ (holders id t == 0)
unfolding find
find_finds_held id [] = refl
find_finds_held id (e ∷ es) =
    if-cases (λ (x : Option MshrEntry). is_none x ≡ (holders id (e ∷ es) == 0)) (entry_holds e id) _
      _ (λ p. let some_hold : 0 < holds_count id e = held_count id e p in ground arith)
      (λ p.
        let no_hold : holds_count id e ≡ 0 = missed_count id e p in
        ground (arith, find_finds_held id es))
