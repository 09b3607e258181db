-- ===== src/Cache/Mshr/Others.antt =====
-- src/cache/mshr.cpp: what one identifier's allocation and release leave to the others.
use multicore_oo_o_sim.Base.{
  ℕ, ◌≡◌, ◌≢◌, refl, sym, ap, ◌∙◌, Bool, true, false, not, ◌&&◌, Option, none, some, List, [], ◌∷◌,
  ◌++◌, ◌==◌, arith, Bool-cases, inl, inr, if-cases,
}
use mathlib.Core.Option
use multicore_oo_o_sim.Cache.Mshr.{
  Op, AccessResult, MshrEntry, Mshr, contains, remove_first, entry_holds, behind, merged, merge,
  fill, or_fill, fresh_entry, allocate, find, promote, drop_holder, release,
}

-- What a holder sees of its slot.
pub record Miss : Type 0 where
  pub block_addr : ℕ
  pub op : Op
  pub pc : ℕ
  pub ready : Bool
  pub due_cycle : ℕ
  pub result : AccessResult

abbrev pub miss : MshrEntry → Miss
miss e = record {
  block_addr = e.block_addr;
  op = e.op;
  pc = e.pc;
  ready = e.ready;
  due_cycle = e.due_cycle;
  result = e.result;
}

abbrev pub miss_of : ℕ → Mshr → Option Miss
miss_of id t = Option.map miss (find id t)

contains-remove_first :
    (id y : ℕ) (l : List ℕ) → y ≢ id → contains y (remove_first id l) ≡ contains y l
unfolding contains remove_first
contains-remove_first id y [] n = refl
contains-remove_first id y (x ∷ xs) n = ground (arith, contains-remove_first id y xs)

contains-append : (id y : ℕ) (l : List ℕ) → y ≢ id → contains y (l ++ id ∷ []) ≡ contains y l
unfolding contains
contains-append id y [] n = ground arith
contains-append id y (x ∷ xs) n = ground (arith, contains-append id y xs)

abbrev pub table_after : Option (MshrEntry × Mshr) → Mshr → Mshr
table_after none t = t
table_after (some (slot, t')) t = t'

promote_keeps :
    (y : ℕ) (l : List ℕ) (e : MshrEntry)
    → (e.id == y) ≡ false
    → (entry_holds (promote l e) y ≡ e.valid && contains y l)
      × (entry_holds (promote l e) y ≡ true → miss (promote l e) ≡ miss e)
unfolding entry_holds promote contains
promote_keeps y [] e n = (ground arith, λ h. cc)
promote_keeps y (m ∷ ms) e n = (ground arith, λ h. refl)

drop_holder_keeps :
    (id y : ℕ) (e : MshrEntry)
    → y ≢ id
    → (entry_holds (drop_holder id e) y ≡ entry_holds e y)
      × (entry_holds (drop_holder id e) y ≡ true → miss (drop_holder id e) ≡ miss e)
unfolding entry_holds drop_holder
drop_holder_keeps id y e n =
    if-cases
      (λ (x : MshrEntry).
        (entry_holds x y ≡ entry_holds e y) × (entry_holds x y ≡ true → miss x ≡ miss e))
      (e.id == id) _ _
      (λ p.
        let other : (e.id == y) ≡ false = ground arith in
        (
          (promote_keeps y e.merged_ids e other).0 ∙ ground arith,
          (promote_keeps y e.merged_ids e other).1,
        ))
      (λ p. (ground (arith, contains-remove_first id y e.merged_ids), λ h. refl))

-- A slot that serves the same holder with the same miss.
miss_of-replace :
    (y : ℕ) (e e' : MshrEntry) (es : Mshr)
    → entry_holds e' y ≡ entry_holds e y
    → (entry_holds e' y ≡ true → miss e' ≡ miss e)
    → miss_of y (e' ∷ es) ≡ miss_of y (e ∷ es)
unfolding find
miss_of-replace y e e' es p q = elim (Bool-cases (entry_holds e' y)) [
  | inl h ↦
      let h' : entry_holds e y ≡ true = sym p ∙ h in
      let same : miss e' ≡ miss e = q h in rw h (rw h' (ap some same))
  | inr h ↦ let h' : entry_holds e y ≡ false = sym p ∙ h in rw h (rw h' refl)
]

miss_of-behind :
    (y : ℕ) (e : MshrEntry) (es es' : Mshr)
    → miss_of y es' ≡ miss_of y es
    → miss_of y (e ∷ es') ≡ miss_of y (e ∷ es)
unfolding find
miss_of-behind y e es es' p = elim (Bool-cases (entry_holds e y)) [
  | inl h ↦ rw h refl
  | inr h ↦ rw h p
]

-- A release takes nothing from any other identifier: it finds the miss that it found before.
pub release-others : (id y : ℕ) (t : Mshr) → y ≢ id → miss_of y (release id t) ≡ miss_of y t
unfolding release
release-others id y [] n = refl
release-others id y (e ∷ es) n =
    if-cases (λ (x : Mshr). miss_of y x ≡ miss_of y (e ∷ es)) (entry_holds e id) _ _
      (λ p.
        miss_of-replace y e (drop_holder id e) es (drop_holder_keeps id y e n).0
          (drop_holder_keeps id y e n).1)
      (λ p. miss_of-behind y e es (release id es) (release-others id y es n))

table_after-behind :
    (y : ℕ) (e : MshrEntry) (r : Option (MshrEntry × Mshr)) (es : Mshr)
    → miss_of y (table_after r es) ≡ miss_of y es
    → miss_of y (table_after (behind e r) (e ∷ es)) ≡ miss_of y (e ∷ es)
table_after-behind y e none es p = refl
table_after-behind y e (some (s, t)) es p = miss_of-behind y e es t p

merged_holds : (id y : ℕ) (e : MshrEntry) → y ≢ id → entry_holds (merged id e) y ≡ entry_holds e y
unfolding entry_holds
merged_holds id y e n = ground (arith, contains-append id y e.merged_ids)

free_holds : (y : ℕ) (e : MshrEntry) → not e.valid ≡ true → entry_holds e y ≡ false
unfolding entry_holds
free_holds y e p = ground arith

merge-others :
    (id b y : ℕ) (t : Mshr) → y ≢ id → miss_of y (table_after (merge id b t) t) ≡ miss_of y t
unfolding merge
merge-others id b y [] n = refl
merge-others id b y (e ∷ es) n =
    if-cases
      (λ (x : Option (MshrEntry × Mshr)). miss_of y (table_after x (e ∷ es)) ≡ miss_of y (e ∷ es))
      (e.valid && (e.block_addr == b)) _ _
      (λ p. miss_of-replace y e (merged id e) es (merged_holds id y e n) (λ h. refl))
      (λ p. table_after-behind y e (merge id b es) es (merge-others id b y es n))

fill-others :
    (fresh : MshrEntry) (y : ℕ) (t : Mshr)
    → entry_holds fresh y ≡ false
    → miss_of y (table_after (fill fresh t) t) ≡ miss_of y t
unfolding fill
fill-others fresh y [] n = refl
fill-others fresh y (e ∷ es) n =
    if-cases
      (λ (x : Option (MshrEntry × Mshr)). miss_of y (table_after x (e ∷ es)) ≡ miss_of y (e ∷ es))
      (not e.valid) _ _ (λ p. miss_of-replace y e fresh es (n ∙ sym (free_holds y e p)) (λ h. cc))
      (λ p. table_after-behind y e (fill fresh es) es (fill-others fresh y es n))

fresh_holds :
    (id b : ℕ) (op : Op) (pc due : ℕ) (result : AccessResult) (y : ℕ)
    → y ≢ id
    → entry_holds (fresh_entry id b op pc due result) y ≡ false
unfolding entry_holds contains
fresh_holds id b op pc due result y n = ground arith

or_fill-others :
    (fresh : MshrEntry) (y : ℕ) (t : Mshr) (r : Option (MshrEntry × Mshr))
    → entry_holds fresh y ≡ false
    → miss_of y (table_after r t) ≡ miss_of y t
    → miss_of y (table_after (or_fill fresh t r) t) ≡ miss_of y t
or_fill-others fresh y t (some r) n p = p
or_fill-others fresh y t none n p = fill-others fresh y t n

-- An allocation, whether it merges, fills a slot or stalls, takes nothing from any other identifier.
pub allocate-others :
    (id b : ℕ) (op : Op) (pc due : ℕ) (result : AccessResult) (y : ℕ) (t : Mshr)
    → y ≢ id
    → miss_of y (table_after (allocate id b op pc due result t) t) ≡ miss_of y t
unfolding allocate
allocate-others id b op pc due result y t n =
    or_fill-others (fresh_entry id b op pc due result) y t (merge id b t)
      (fresh_holds id b op pc due result y n) (merge-others id b y t n)
