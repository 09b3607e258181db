-- ===== src/Cache/Level/Issue/Merging.antt =====
-- src/cache/cache.cpp: when `issue` makes its caller stall, and what it enters in the table of misses.
use multicore_oo_o_sim.Base.{
  ℕ, ◌+◌, ◌≡◌, ◌≢◌, refl, ap, subst, ◌∙◌, arith, Bool, true, false, Option, none, some, [], ◌∷◌,
  ◌&&◌, ◌||◌, not, Bool-cases, inl, inr,
}
use multicore_oo_o_sim.Cache.Mshr
use multicore_oo_o_sim.Cache.Mshr.{
  Op, AccessResult, MshrEntry, behind, merge, merged, fresh_entry, or_fill, occupancy,
}
use multicore_oo_o_sim.Cache.Mshr.Stalls.{is_none, in_flight, allocate_stalls}
use multicore_oo_o_sim.Cache.Mshr.Others.{table_after, miss_of, allocate-others}
use multicore_oo_o_sim.Cache.Mshr.Holders.{holders, granted, holders-allocate, find_finds_held}
use multicore_oo_o_sim.Cache.Level.{MemReq, Downstream, Cache, get_block_addr, is_write, peek}
use multicore_oo_o_sim.Cache.Level.Access.{access}
use multicore_oo_o_sim.Cache.Level.Access.Books.{book, book-access}
use multicore_oo_o_sim.Cache.Level.Issue.{
  targets, due_cycle, enter, accessed, issue_fresh, issue_onto, issue,
}

is_none-targets : (b : ℕ) (t : Mshr.Mshr) → is_none (targets b t) ≡ not (in_flight b t)
unfolding targets
is_none-targets b [] = refl
is_none-targets b (e ∷ es) = ground (arith, is_none-targets b es)

-- The request is in the table `t` under the identifier `n`, and nothing is lost that was in it.
pub record Enters {D : Type 0} (t : Mshr.Mshr) (n : ℕ) (r : Option ℕ × Cache D) : Type 0 where
  pub given : r.0 ≡ some n
  pub found : is_none (peek n r.1) ≡ false
  pub others : (y : ℕ) → y ≢ n → miss_of y r.1.mshr ≡ miss_of y t

allocated :
    (id b : ℕ) (op : Op) (pc due : ℕ) (result : AccessResult) (t : Mshr.Mshr)
    → not (in_flight b t) && Mshr.full t ≡ false
    → is_none (Mshr.find id (table_after (Mshr.allocate id b op pc due result t) t)) ≡ false
allocated id b op pc due result t h =
    let r : Option (MshrEntry × Mshr.Mshr) = Mshr.allocate id b op pc due result t in
    let one : granted r ≡ 1 = granted_one r (allocate_stalls id b op pc due result t ∙ h) in
    let held : holders id (table_after r t) ≡ holders id t + granted r =
      holders-allocate id b op pc due result t in
    find_finds_held id (table_after r t) ∙ ground arith
  where
    granted_one : (r : Option (MshrEntry × Mshr.Mshr)) → is_none r ≡ false → granted r ≡ 1
    granted_one none h = cc
    granted_one (some s) h = refl

module _ {D : Type 0} where
  enter-Enters :
      (req : MemReq) (due : ℕ) (result : AccessResult) (c : Cache D)
      → not (in_flight (get_block_addr c.cfg req.addr) c.mshr) && Mshr.full c.mshr ≡ false
      → Enters c.mshr c.next_id (enter req due result c)
  enter-Enters req due result c h = record {
    given = refl;
    found = allocated c.next_id _ req.op req.pc due result c.mshr h;
    others = λ y n. allocate-others c.next_id _ req.op req.pc due result y c.mshr n;
  }

module _ {D : Type 0} (down : Downstream D) where
  accessed-Enters :
      (req : MemReq) (c : Cache D) (r : AccessResult × Cache D)
      → book r.1 ≡ book c
      → Mshr.full c.mshr ≡ false
      → Enters c.mshr c.next_id (accessed down req r)
  accessed-Enters req c (result, d) same h =
      let t : d.mshr ≡ c.mshr = ap (λ b. b.1.0) same in
      let n : d.next_id ≡ c.next_id = ap (λ b. b.1.1.1) same in
      let room : Mshr.full d.mshr ≡ false = ap Mshr.full t ∙ h in
      let e : Enters d.mshr d.next_id (enter req (due_cycle result d.now) result d) =
        enter-Enters req (due_cycle result d.now) result d (ground arith) in
      subst (λ m. Enters m c.next_id (enter req (due_cycle result d.now) result d)) t
        (subst (λ m. Enters d.mshr m (enter req (due_cycle result d.now) result d)) n e)

  -- The call is refused, and nothing has changed, or it is entered.
  abbrev pub Answered : Bool → Cache D → Option ℕ × Cache D → Type 0
  Answered true c r = r ≡ (none, c)
  Answered false c r = Enters c.mshr c.next_id r

  entered :
      (refused : Bool) (c : Cache D) (r : Option ℕ × Cache D)
      → refused ≡ false
      → Enters c.mshr c.next_id r
      → Answered refused c r
  entered true c r h e = absurd cc
  entered false c r h e = e

  issue_fresh-Answered :
      (peer : ℕ → Bool) (req : MemReq) (c : Cache D)
      → Answered (Mshr.full c.mshr) c (issue_fresh down peer req c)
  issue_fresh-Answered peer req c = elim (Bool-cases (Mshr.full c.mshr)) [
    | inl p ↦ rw p refl
    | inr p ↦ rw p (accessed-Enters req c (access down peer req c) (book-access down peer req c) p)
  ]

  issue_onto-Answered :
      (peer : ℕ → Bool) (req : MemReq) (o : Option MshrEntry) (c : Cache D)
      → is_none o ≡ not (in_flight (get_block_addr c.cfg req.addr) c.mshr)
      → Answered
          (Mshr.full c.mshr
            && (is_write req.op || not (in_flight (get_block_addr c.cfg req.addr) c.mshr)))
          c
          (issue_onto down peer req o c)
  issue_onto-Answered peer req none c h =
      subst (λ b. Answered b c (issue_fresh down peer req c)) (ground arith)
        (issue_fresh-Answered peer req c)
  issue_onto-Answered peer req (some e) c h = elim (Bool-cases (is_write req.op)) [
    | inl w ↦ rw w (
        subst (λ b. Answered b c (issue_fresh down peer req c)) (ground arith)
          (issue_fresh-Answered peer req c))
    | inr w ↦
        let met : Bool = in_flight (get_block_addr c.cfg req.addr) c.mshr in
        let taken : met ≡ true = ground arith in
        rw w (
          entered (Mshr.full c.mshr && (false || not met)) c _ (ground arith)
            (enter-Enters req e.due_cycle e.result c (ground arith)))
  ]

  -- A request is refused exactly when every slot is taken and it is a write or finds no slot for its
  -- block, and a refusal changes nothing. Any other is given the next identifier, and under it a
  -- slot, and no request that was in flight before loses anything.
  pub issue_answers :
      (peer : ℕ → Bool) (req : MemReq) (c : Cache D)
      → Answered
          (Mshr.full c.mshr
            && (is_write req.op || not (in_flight (get_block_addr c.cfg req.addr) c.mshr)))
          c
          (issue down peer req c)
  unfolding issue
  issue_answers peer req c =
      issue_onto-Answered peer req _ c (is_none-targets (get_block_addr c.cfg req.addr) c.mshr)
