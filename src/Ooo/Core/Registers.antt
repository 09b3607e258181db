-- ===== src/Ooo/Core/Registers.antt =====
-- src/ooo/rat.cpp: what each operation of the alias table leaves in a register.
use multicore_oo_o_sim.Base.{
  ℕ, zero, suc, ◌≡◌, ◌≢◌, ◌⊎◌, inl, inr, refl, ap, true, false, Option, none, some, List, [], ◌∷◌,
  map, arith, ◌==◌, get_or, set, get_or-set_ne, if-cases, subst, sym, ◌∙◌,
}
use multicore_oo_o_sim.Ooo.Rat.{
  Rat, RatEntry, no_entry, register, write_use, mark_complete, readied, seeded,
}
use multicore_oo_o_sim.Ooo.Core.Wakeup.{is_reg}

get_or-set_or_none :
    (xs : List RatEntry) (i : ℕ) (v : RatEntry)
    → (get_or (set xs i v) i no_entry ≡ v) ⊎ (get_or (set xs i v) i no_entry ≡ no_entry)
get_or-set_or_none [] i v = inr refl
get_or-set_or_none (x ∷ xs) zero v = inl refl
get_or-set_or_none (x ∷ xs) (suc i) v = get_or-set_or_none xs i v

pub write_use_other :
    (d : Option ℕ) (t r : ℕ) (rat : Rat)
    → is_reg r d ≡ false
    → register (write_use d t rat) r ≡ register rat r
unfolding write_use
write_use_other none t r rat h = refl
write_use_other (some q) t r rat h = get_or-set_ne rat.entries q r _ no_entry (λ e. ground arith)

-- An index past the table has no register, which reads as ready.
pub write_use_self :
    (d : Option ℕ) (t r : ℕ) (rat : Rat)
    → is_reg r d ≡ true
    → ((register (write_use d t rat) r).ready ≡ true) ⊎ ((register (write_use d t rat) r).tag ≡ t)
unfolding write_use
write_use_self none t r rat h = cc
write_use_self (some q) t r rat h =
    let e : q ≡ r = ground arith in
    subst
      (λ r.
        ((register (write_use (some q) t rat) r).ready ≡ true)
        ⊎ ((register (write_use (some q) t rat) r).tag ≡ t))
      e
      (elim (get_or-set_or_none rat.entries q (record { tag = t; ready = false })) [
        | inl p ↦ inr (ap (λ x. x.tag) p)
        | inr p ↦ inl (ap (λ x. x.ready) p)
      ])

pub mark_complete_other :
    (d : Option ℕ) (t r : ℕ) (rat : Rat)
    → is_reg r d ≡ false
    → register (mark_complete d t rat) r ≡ register rat r
unfolding mark_complete
mark_complete_other none t r rat h = refl
mark_complete_other (some q) t r rat h =
    if-cases (λ x. register x r ≡ register rat r) ((register rat q).tag == t) _ _
      (λ e. get_or-set_ne rat.entries q r _ no_entry (λ e. ground arith)) (λ e. refl)

-- Out of date tags are let be.
pub mark_complete_stale :
    (d : Option ℕ) (t r : ℕ) (rat : Rat)
    → (register rat r).tag ≢ t
    → register (mark_complete d t rat) r ≡ register rat r
unfolding mark_complete
mark_complete_stale none t r rat h = refl
mark_complete_stale (some q) t r rat h =
    if-cases (λ x. register x r ≡ register rat r) ((register rat q).tag == t) _ _
      (λ e.
        get_or-set_ne rat.entries q r _ no_entry
          (λ p. h (ap (λ i. (register rat i).tag) (sym p) ∙ ground arith)))
      (λ e. refl)

pub mark_complete_self :
    (d : Option ℕ) (t r : ℕ) (rat : Rat)
    → is_reg r d ≡ true
    → (register rat r).tag ≡ t
    → (register (mark_complete d t rat) r).ready ≡ true
unfolding mark_complete
mark_complete_self none t r rat h p = cc
mark_complete_self (some q) t r rat h p =
    let e : q ≡ r = ground arith in
    let held : (register rat q).tag ≡ t = ap (λ i. (register rat i).tag) e ∙ p in
    if-cases (λ x. (register x r).ready ≡ true) ((register rat q).tag == t) _ _
      (λ hit.
        subst
          (λ i.
            (register
              (record rat {
                entries = set rat.entries q (record (register rat q) { ready = true });
              })
              i).ready
            ≡ true)
          e
          (elim (get_or-set_or_none rat.entries q (record (register rat q) { ready = true })) [
            | inl s ↦ ap (λ x. x.ready) s
            | inr s ↦ ap (λ x. x.ready) s
          ]))
      (λ miss. absurd (ground arith))

pub flush_to_ready-ready :
    (xs : List RatEntry) (r : ℕ) → (get_or (map readied xs) r no_entry).ready ≡ true
flush_to_ready-ready [] r = refl
flush_to_ready-ready (x ∷ xs) zero = refl
flush_to_ready-ready (x ∷ xs) (suc r) = flush_to_ready-ready xs r

pub seeded-ready : (i n r : ℕ) → (get_or (seeded i n) r no_entry).ready ≡ true
unfolding seeded
seeded-ready i zero r = refl
seeded-ready i (suc n) zero = refl
seeded-ready i (suc n) (suc r) = seeded-ready (suc i) n r

pub write_use-next_tag :
    (d : Option ℕ) (t : ℕ) (rat : Rat) → (write_use d t rat).next_tag ≡ rat.next_tag
unfolding write_use
write_use-next_tag none t rat = refl
write_use-next_tag (some q) t rat = refl

pub mark_complete-next_tag :
    (d : Option ℕ) (t : ℕ) (rat : Rat) → (mark_complete d t rat).next_tag ≡ rat.next_tag
unfolding mark_complete
mark_complete-next_tag none t rat = refl
mark_complete-next_tag (some q) t rat =
    if-cases (λ (x : Rat). x.next_tag ≡ rat.next_tag) ((register rat q).tag == t) _ _ (λ e. refl)
      (λ e. refl)
