-- ===== src/Ooo/Core/Progress.antt =====
-- src/ooo/core.cpp: the back end under the steps of its stages, and the oldest entry of its queue.
use multicore_oo_o_sim.Base.{
  ℕ, zero, suc, ◌+◌, ◌<◌, ◌≡◌, refl, ap, ◌∙◌, subst, true, false, ◌&&◌, List, [], ◌∷◌, arith, ◌==◌,
  if◌then◌else◌, length, leb, u64,
}
use mathlib.Core.List.{Memᴰ}
use multicore_oo_o_sim.Ooo.Inst.{Inst}
use multicore_oo_o_sim.Ooo.Rat
use multicore_oo_o_sim.Ooo.Rob
use multicore_oo_o_sim.Ooo.SchedQ.{SchedEntry, has_tag}
use multicore_oo_o_sim.Ooo.Core.{Core, stage_dispatch, writeback, flush, fire_at, boot}
use multicore_oo_o_sim.Ooo.Core.Wakeup.{ascending, writes, source_ok, sources_ok, has_tag-bounds}
use multicore_oo_o_sim.Ooo.Core.Registers.{seeded-ready}
use multicore_oo_o_sim.Ooo.Core.Dispatch.{
  Wakeable, stage_dispatch-Wakeable, writeback-Wakeable, flush-Wakeable,
}

-- What the stages do to the back end. The fetch stage fills the dispatch queue, the schedule stage
-- fires an entry, a unit completes an entry that is in the queue, the retire stage takes entries off
-- the reorder buffer, and flushes at a mispredicted branch.
pub data CoreStep : Core → Core → Type 0 where
  fetched : {c : Core} (l : List Inst) → CoreStep c (record c { dispq = l })
  dispatched : {c : Core} → c.rat.next_tag + length c.dispq < u64 → CoreStep c (stage_dispatch c)
  fired :
      {c : Core} (k : ℕ)
      → CoreStep c (record c { sq = record c.sq { entries = fire_at k c.sq.entries } })
  completed : {c : Core} (s : SchedEntry) → Memᴰ s c.sq.entries → CoreStep c (writeback s c)
  retired :
      {c : Core}
      → Rob.empty c.rob ≡ false
      → (Rob.head_entry c.rob).ready ≡ true
      → CoreStep c (record c { rob = Rob.retire_head c.rob })
  flushed : {c : Core} → CoreStep c (flush c)

pub data CoreReach (start : Core) : Core → Type 0 where
  begun : CoreReach start start
  step : {c d : Core} → CoreReach start c → CoreStep c d → CoreReach start d

has_tag-fire_at : (u k : ℕ) (q : List SchedEntry) → has_tag u (fire_at k q) ≡ has_tag u q
unfolding has_tag fire_at
has_tag-fire_at u zero [] = refl
has_tag-fire_at u (suc k) [] = refl
has_tag-fire_at u zero (x ∷ xs) = refl
has_tag-fire_at u (suc k) (x ∷ xs) =
    ap (λ b. if x.dest_tag == u then true else b) (has_tag-fire_at u k xs)

writes-fire_at : (u r k : ℕ) (q : List SchedEntry) → writes u r (fire_at k q) ≡ writes u r q
unfolding fire_at
writes-fire_at u r zero [] = refl
writes-fire_at u r (suc k) [] = refl
writes-fire_at u r zero (x ∷ xs) = refl
writes-fire_at u r (suc k) (x ∷ xs) = ground (arith, writes-fire_at u r k xs)

ascending-fire_at :
    (lo k hi : ℕ) (q : List SchedEntry) → ascending lo (fire_at k q) hi ≡ ascending lo q hi
unfolding fire_at
ascending-fire_at lo zero hi [] = refl
ascending-fire_at lo (suc k) hi [] = refl
ascending-fire_at lo zero hi (x ∷ xs) = refl
ascending-fire_at lo (suc k) hi (x ∷ xs) =
    ap (leb lo x.dest_tag &&◌) (ascending-fire_at (x.dest_tag + 1) k hi xs)

sources_ok-fired_queue :
    (q es : List SchedEntry) (k : ℕ) → sources_ok q es ≡ true → sources_ok (fire_at k q) es ≡ true
sources_ok-fired_queue q [] k h = refl
sources_ok-fired_queue q (x ∷ xs) k h = ground (
  arith,
  has_tag-fire_at x.src1.tag k q,
  has_tag-fire_at x.src2.tag k q,
  sources_ok-fired_queue q xs k,
)

sources_ok-fired_entry :
    (q es : List SchedEntry) (k : ℕ) → sources_ok q (fire_at k es) ≡ sources_ok q es
unfolding fire_at
sources_ok-fired_entry q [] zero = refl
sources_ok-fired_entry q [] (suc k) = refl
sources_ok-fired_entry q (x ∷ xs) zero = refl
sources_ok-fired_entry q (x ∷ xs) (suc k) =
    ap (λ b. source_ok q x.dest_tag x.src1 && (source_ok q x.dest_tag x.src2 && b))
      (sources_ok-fired_entry q xs k)

fire_at-Wakeable :
    (k : ℕ) (c : Core)
    → Wakeable c
    → Wakeable (record c { sq = record c.sq { entries = fire_at k c.sq.entries } })
fire_at-Wakeable k c v = record {
  counted = ground (arith, ascending-fire_at 0 k c.rat.next_tag c.sq.entries, v.counted);
  sources =
      sources_ok-fired_entry (fire_at k c.sq.entries) c.sq.entries k
      ∙ sources_ok-fired_queue c.sq.entries c.sq.entries k v.sources;
  registers = λ r.
      ground (arith, writes-fire_at (Rat.register c.rat r).tag r k c.sq.entries, v.registers r);
}

pub CoreStep-Wakeable : (c d : Core) → CoreStep c d → Wakeable c → Wakeable d
CoreStep-Wakeable c _ (fetched l) v = record {
  counted = v.counted;
  sources = v.sources;
  registers = v.registers;
}
CoreStep-Wakeable c _ (dispatched h) v = stage_dispatch-Wakeable c v h
CoreStep-Wakeable c _ (fired k) v = fire_at-Wakeable k c v
CoreStep-Wakeable c _ (completed s m) v = writeback-Wakeable c s v m
CoreStep-Wakeable c _ (retired h₁ h₂) v = record {
  counted = v.counted;
  sources = v.sources;
  registers = v.registers;
}
CoreStep-Wakeable c _ flushed v = flush-Wakeable c v

boot-Wakeable : (r s f : ℕ) → Wakeable (boot r s f)
unfolding Rat.make
boot-Wakeable r s f = record {
  counted = refl;
  sources = refl;
  registers = λ i. ground (arith, seeded-ready 0 256 i);
}

CoreReach-Wakeable : (start c : Core) → Wakeable start → CoreReach start c → Wakeable c
CoreReach-Wakeable start _ v begun = v
CoreReach-Wakeable start _ v (step {c} {d} r s) =
    CoreStep-Wakeable c d s (CoreReach-Wakeable start c v r)

oldest-ready :
    (e : SchedEntry) (es : List SchedEntry) (hi : ℕ)
    → ascending 0 (e ∷ es) hi ≡ true
    → sources_ok (e ∷ es) (e ∷ es) ≡ true
    → (e.src1.ready ≡ true) × (e.src2.ready ≡ true)
unfolding has_tag
oldest-ready e es hi a h = ground (
  arith,
  has_tag-bounds e.src1.tag (e.dest_tag + 1) es hi,
  has_tag-bounds e.src2.tag (e.dest_tag + 1) es hi,
)

-- In every state that the stages reach from the constructor, where tags last and a unit completes only
-- an entry that is in the queue, the oldest entry of a scheduling queue that is not empty has both of
-- its operands ready.
pub oldest_can_fire :
    (rob_entries schedq_entries fetch_width : ℕ) (c : Core) (e : SchedEntry) (es : List SchedEntry)
    → CoreReach (boot rob_entries schedq_entries fetch_width) c
    → c.sq.entries ≡ e ∷ es
    → (e.src1.ready ≡ true) × (e.src2.ready ≡ true)
oldest_can_fire r s f c e es reach p =
    let v : Wakeable c = CoreReach-Wakeable (boot r s f) c (boot-Wakeable r s f) reach in
    oldest-ready e es c.rat.next_tag (subst (λ q. ascending 0 q c.rat.next_tag ≡ true) p v.counted)
      (subst (λ q. sources_ok q q ≡ true) p v.sources)
