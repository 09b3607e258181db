-- ===== src/Cache/Level/Issue/Slots.antt =====
-- src/cache/cache.cpp: how many slots of the table of misses a request takes.
use multicore_oo_o_sim.Base.{
  ℕ, ◌+◌, ◌≡◌, refl, ap, ◌∙◌, arith, Bool, true, false, Option, none, some, [], ◌∷◌, ◌==◌, ◌&&◌,
  ◌||◌, not, if◌then◌else◌, if-cases, Bool-cases, inl, inr,
}
use multicore_oo_o_sim.Cache.Mshr
use multicore_oo_o_sim.Cache.Mshr.{
  Op, AccessResult, MshrEntry, behind, merge, merged, fill, fresh_entry, or_fill, occupancy,
}
use multicore_oo_o_sim.Cache.Mshr.Stalls.{is_none, in_flight, is_none-merge}
use multicore_oo_o_sim.Cache.Mshr.Others.{table_after}
use multicore_oo_o_sim.Cache.Level.{MemReq, Downstream, Cache, get_block_addr, is_write}
use multicore_oo_o_sim.Cache.Level.Access.{access}
use multicore_oo_o_sim.Cache.Level.Access.Books.{book, book-access}
use multicore_oo_o_sim.Cache.Level.Issue.{due_cycle, accessed, issue_fresh, issue_onto, issue}

occupancy-behind :
    (e : MshrEntry) (r : Option (MshrEntry × Mshr.Mshr)) (es : Mshr.Mshr) (n : ℕ)
    → occupancy (table_after r es) ≡ occupancy es + n
    → occupancy (table_after (behind e r) (e ∷ es)) ≡ occupancy (e ∷ es) + n
unfolding occupancy
occupancy-behind e none es n h = ground (arith, h)
occupancy-behind e (some (s, t)) es n h = ground (arith, h)

occupancy-merge :
    (id b : ℕ) (t : Mshr.Mshr) → occupancy (table_after (merge id b t) t) ≡ occupancy t + 0
unfolding merge occupancy
occupancy-merge id b [] = omega arith
occupancy-merge id b (e ∷ es) =
    if-cases
      (λ (r : Option (MshrEntry × Mshr.Mshr)).
        occupancy (table_after r (e ∷ es)) ≡ occupancy (e ∷ es) + 0)
      (e.valid && (e.block_addr == b)) _ _ (λ p. omega arith)
      (λ p. occupancy-behind e (merge id b es) es 0 (occupancy-merge id b es))

occupancy-fill :
    (fresh : MshrEntry) (t : Mshr.Mshr)
    → fresh.valid ≡ true
    → occupancy (table_after (fill fresh t) t) ≡ occupancy t + (if Mshr.full t then 0 else 1)
unfolding fill Mshr.full occupancy
occupancy-fill fresh [] v = omega arith
occupancy-fill fresh (e ∷ es) v =
    if-cases
      (λ (r : Option (MshrEntry × Mshr.Mshr)).
        occupancy (table_after r (e ∷ es))
        ≡ occupancy (e ∷ es) + (if (if not e.valid then false else Mshr.full es) then 0 else 1))
      (not e.valid) _ _ (λ p. ground arith)
      (λ p. occupancy-behind e (fill fresh es) es _ (occupancy-fill fresh es v) ∙ ground arith)

-- One slot more is taken, unless one is in flight for the block or there is none.
abbrev pub slots_taken : ℕ → Mshr.Mshr → ℕ
slots_taken b t = if in_flight b t || Mshr.full t then 0 else 1

occupancy-or_fill :
    (fresh : MshrEntry) (b : ℕ) (t : Mshr.Mshr) (r : Option (MshrEntry × Mshr.Mshr))
    → fresh.valid ≡ true
    → is_none r ≡ not (in_flight b t)
    → occupancy (table_after r t) ≡ occupancy t + 0
    → occupancy (table_after (or_fill fresh t r) t) ≡ occupancy t + slots_taken b t
occupancy-or_fill fresh b t (some r) v p h = ground arith
occupancy-or_fill fresh b t none v p h = occupancy-fill fresh t v ∙ ground arith

occupancy-allocate :
    (id b : ℕ) (op : Op) (pc due : ℕ) (result : AccessResult) (t : Mshr.Mshr)
    → occupancy (table_after (Mshr.allocate id b op pc due result t) t)
      ≡ occupancy t + slots_taken b t
unfolding Mshr.allocate
occupancy-allocate id b op pc due result t =
    occupancy-or_fill (fresh_entry id b op pc due result) b t (merge id b t) refl
      (is_none-merge id b t) (occupancy-merge id b t)

module _ {D : Type 0} (down : Downstream D) where
  occupancy-accessed :
      (req : MemReq) (c : Cache D) (r : AccessResult × Cache D)
      → book r.1 ≡ book c
      → occupancy (accessed down req r).1.mshr
        ≡ occupancy c.mshr + slots_taken (get_block_addr c.cfg req.addr) c.mshr
  occupancy-accessed req c (result, d) same =
      occupancy-allocate d.next_id (get_block_addr d.cfg req.addr) req.op req.pc
        (due_cycle result d.now) result d.mshr
      ∙ ap (λ b. occupancy b.1.0 + slots_taken (get_block_addr b.0 req.addr) b.1.0) same

  occupancy-issue_fresh :
      (peer : ℕ → Bool) (req : MemReq) (c : Cache D)
      → occupancy (issue_fresh down peer req c).1.mshr
        ≡ occupancy c.mshr + slots_taken (get_block_addr c.cfg req.addr) c.mshr
  occupancy-issue_fresh peer req c = elim (Bool-cases (Mshr.full c.mshr)) [
    | inl p ↦ rw p (ground arith)
    | inr p ↦ rw p (
        ground
          (arith, occupancy-accessed req c (access down peer req c) (book-access down peer req c)))
  ]

  occupancy-issue_onto :
      (peer : ℕ → Bool) (req : MemReq) (o : Option MshrEntry) (c : Cache D)
      → occupancy (issue_onto down peer req o c).1.mshr
        ≡ occupancy c.mshr + slots_taken (get_block_addr c.cfg req.addr) c.mshr
  occupancy-issue_onto peer req none c = occupancy-issue_fresh peer req c
  occupancy-issue_onto peer req (some e) c = elim (Bool-cases (is_write req.op)) [
    | inl w ↦ rw w (occupancy-issue_fresh peer req c)
    | inr w ↦ rw w (
        occupancy-allocate c.next_id (get_block_addr c.cfg req.addr) req.op req.pc e.due_cycle
          e.result c.mshr)
  ]

  -- A request, a write like any other, takes a fresh slot exactly when no slot is taken for its block
  -- and one is free.
  pub occupancy-issue :
      (peer : ℕ → Bool) (req : MemReq) (c : Cache D)
      → occupancy (issue down peer req c).1.mshr
        ≡ occupancy c.mshr + slots_taken (get_block_addr c.cfg req.addr) c.mshr
  unfolding issue
  occupancy-issue peer req c = occupancy-issue_onto peer req _ c
