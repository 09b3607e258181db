-- ===== src/Ooo/Core/Dispatch.antt =====
-- src/ooo/core.cpp: the invariant that what waits is to be woken, under each operation of the back end.
use multicore_oo_o_sim.Base.{
  ℕ, ◌+◌, ◌<◌, ◌≡◌, ◌≢◌, refl, sym, ap, subst, ◌∙◌, true, Option, none, some, List, [], ◌∷◌, ◌++◌,
  map, arith, ◌==◌, length, inc64, if-cases, inl, inr, Bool-cases, u64, leb,
}
use mathlib.Core.List.{Memᴰ}
use native.Mathlib.Nat.{mod-eq_of_lt}
use multicore_oo_o_sim.Ooo.Inst.{Inst}
use multicore_oo_o_sim.Ooo.Rat
use multicore_oo_o_sim.Ooo.Rat.{
  RatEntry, register, read, write_use, mark_complete, flush_to_ready, allocate_tag,
}
use multicore_oo_o_sim.Ooo.Rob
use multicore_oo_o_sim.Ooo.SchedQ.{SchedEntry, erase_first, wake}
use multicore_oo_o_sim.Ooo.Core.{
  Core, operand, dispatch_one, dispatch_loop, stage_dispatch, writeback, flush,
}
use multicore_oo_o_sim.Ooo.Core.Wakeup.{
  is_reg, writes, ascending, source_ok, sources_ok, register_ok, has_tag-bounds, writes-has_tag,
  ascending-append, ascending-erase, ascending-wake, writes-wake, writes-erase, writes-append,
  writes-Mem,
}
use multicore_oo_o_sim.Ooo.Core.Sources.{sources_ok-writeback, sources_ok-append}
use multicore_oo_o_sim.Ooo.Core.Registers.{
  write_use_other, write_use_self, mark_complete_other, mark_complete_stale, mark_complete_self,
  write_use-next_tag, mark_complete-next_tag, flush_to_ready-ready,
}

-- Tags are given out in the order of the queue; an operand that is not ready waits for an older
-- entry; a register that is not ready is the destination of an entry.
pub record Wakeable (c : Core) : Type 0 where
  pub counted : ascending 0 c.sq.entries c.rat.next_tag ≡ true
  pub sources : sources_ok c.sq.entries c.sq.entries ≡ true
  pub registers : (r : ℕ) → register_ok c.sq.entries r (register c.rat r) ≡ true

read-source_ok :
    (q : List SchedEntry) (o : Option ℕ) (rat : Rat.Rat) (hi : ℕ)
    → ascending 0 q hi ≡ true
    → ((r : ℕ) → register_ok q r (register rat r) ≡ true)
    → source_ok q hi (operand (read o rat)) ≡ true
unfolding read
read-source_ok q none rat hi a h = refl
read-source_ok q (some r) rat hi a h =
    let e : RatEntry = register rat r in
    ground (arith, h r, writes-has_tag e.tag r q, has_tag-bounds e.tag 0 q hi)

register_ok-writeback :
    (q : List SchedEntry) (rat : Rat.Rat) (s : SchedEntry) (r : ℕ)
    → ascending 0 q rat.next_tag ≡ true
    → Memᴰ s q
    → register_ok q r (register rat r) ≡ true
    → register_ok
        (erase_first s.dest_tag (map (wake s.dest_tag) q))
        r
        (register (mark_complete s.inst.dest s.dest_tag rat) r)
      ≡ true
register_ok-writeback q rat s r a m h =
    let t : ℕ = s.dest_tag in
    let e : RatEntry = register rat r in
    elim (Bool-cases (e.tag == t)) [
      | inr stale ↦
          let n : e.tag ≢ t = λ p. ground arith in
          subst (λ x. register_ok (erase_first t (map (wake t) q)) r x ≡ true)
            (sym (mark_complete_stale s.inst.dest t r rat n))
            (ground (arith, writes-erase e.tag r t (map (wake t) q), writes-wake e.tag r t q))
      | inl current ↦
          let p : e.tag ≡ t = ground arith in
          elim (Bool-cases (is_reg r s.inst.dest)) [
            | inl own ↦
                let done : (register (mark_complete s.inst.dest t rat) r).ready ≡ true =
                  mark_complete_self s.inst.dest t r rat own p in
                ground arith
            | inr other ↦
                let w : writes t r q ≡ writes e.tag r q = ap (λ u. writes u r q) (sym p) in
                let ready : e.ready ≡ true = ground (arith, writes-Mem s r 0 q rat.next_tag a m) in
                subst (λ x. register_ok (erase_first t (map (wake t) q)) r x ≡ true)
                  (sym (mark_complete_other s.inst.dest t r rat other)) (ground arith)
          ]
    ]

register_ok-dispatch :
    (q : List SchedEntry) (rat : Rat.Rat) (e : SchedEntry) (r : ℕ)
    → register_ok q r (register rat r) ≡ true
    → register_ok (q ++ e ∷ []) r (register (write_use e.inst.dest e.dest_tag rat) r) ≡ true
register_ok-dispatch q rat e r h = elim (Bool-cases (is_reg r e.inst.dest)) [
  | inl own ↦
      let x : RatEntry = register (write_use e.inst.dest e.dest_tag rat) r in
      elim (write_use_self e.inst.dest e.dest_tag r rat own) [
        | inl ready ↦ ground arith
        | inr tagged ↦ ground (arith, writes-append x.tag r q e)
      ]
  | inr other ↦
      subst (λ x. register_ok (q ++ e ∷ []) r x ≡ true)
        (sym (write_use_other e.inst.dest e.dest_tag r rat other))
        (ground (arith, writes-append (register rat r).tag r q e))
]

-- Completing an entry of the queue, which wakes what waits for it and takes it out, keeps the promise.
pub writeback-Wakeable :
    (c : Core) (s : SchedEntry) → Wakeable c → Memᴰ s c.sq.entries → Wakeable (writeback s c)
unfolding writeback
writeback-Wakeable c s v m = record {
  counted =
      ap (ascending 0 (erase_first s.dest_tag (map (wake s.dest_tag) c.sq.entries)))
        (mark_complete-next_tag s.inst.dest s.dest_tag c.rat)
      ∙ ascending-erase 0 (map (wake s.dest_tag) c.sq.entries) c.rat.next_tag s.dest_tag
          (ascending-wake 0 c.sq.entries c.rat.next_tag s.dest_tag ∙ v.counted);
  sources = sources_ok-writeback c.sq.entries s.dest_tag v.sources;
  registers = λ r. register_ok-writeback c.sq.entries c.rat s r v.counted m (v.registers r);
}

pub flush-Wakeable : (c : Core) → Wakeable c → Wakeable (flush c)
unfolding flush flush_to_ready
flush-Wakeable c v = record {
  counted = v.counted;
  sources = v.sources;
  registers = λ r. ground (arith, flush_to_ready-ready c.rat.entries r);
}

dispatch_one-next_tag :
    (inst : Inst) (c : Core)
    → c.rat.next_tag + 1 < u64
    → (dispatch_one inst c).rat.next_tag ≡ c.rat.next_tag + 1
unfolding dispatch_one allocate_tag
dispatch_one-next_tag inst c h =
    write_use-next_tag inst.dest c.rat.next_tag (record c.rat { next_tag = inc64 c.rat.next_tag })
    ∙ mod-eq_of_lt h

dispatch_one-Wakeable :
    (inst : Inst) (c : Core)
    → Wakeable c
    → c.rat.next_tag + 1 < u64
    → Wakeable (dispatch_one inst c)
unfolding dispatch_one allocate_tag
dispatch_one-Wakeable inst c v h = record {
  counted =
      ap (ascending 0 (dispatch_one inst c).sq.entries) (dispatch_one-next_tag inst c h)
      ∙ ascending-append 0 c.sq.entries c.rat.next_tag _ refl v.counted;
  sources =
      sources_ok-append c.sq.entries c.sq.entries _
        (read-source_ok c.sq.entries inst.src1 stepped c.rat.next_tag v.counted v.registers)
        (read-source_ok c.sq.entries inst.src2 stepped c.rat.next_tag v.counted v.registers)
        v.sources;
  registers = λ r. register_ok-dispatch c.sq.entries stepped _ r (v.registers r);
}
  where
    stepped : Rat.Rat
    stepped = record c.rat { next_tag = inc64 c.rat.next_tag }

dispatch_loop-Wakeable :
    (l : List Inst) (n : ℕ) (c : Core)
    → Wakeable c
    → c.rat.next_tag + length l < u64
    → Wakeable (dispatch_loop l n c)
unfolding dispatch_loop
dispatch_loop-Wakeable [] n c v h = record {
  counted = v.counted;
  sources = v.sources;
  registers = v.registers;
}
dispatch_loop-Wakeable (inst ∷ rest) n c v h =
    let room : c.rat.next_tag + 1 < u64 = omega arith in
    let stop : Wakeable (record c { dispq = inst ∷ rest }) = record {
      counted = v.counted;
      sources = v.sources;
      registers = v.registers;
    } in
    if-cases Wakeable (leb c.fetch_width n) _ _ (λ e. stop)
      (λ e.
        if-cases Wakeable (leb c.schedq_capacity (length c.sq.entries)) _ _ (λ e. stop)
          (λ e.
            if-cases Wakeable (Rob.full c.rob) _ _
              (λ e. record { counted = v.counted; sources = v.sources; registers = v.registers })
              (λ e.
                dispatch_loop-Wakeable rest (n + 1) (dispatch_one inst c)
                  (dispatch_one-Wakeable inst c v room)
                  (omega (arith, dispatch_one-next_tag inst c room)))))

-- The dispatch stage keeps the promise, when the tags do not run out.
pub stage_dispatch-Wakeable :
    (c : Core) → Wakeable c → c.rat.next_tag + length c.dispq < u64 → Wakeable (stage_dispatch c)
stage_dispatch-Wakeable c v h = dispatch_loop-Wakeable c.dispq 0 c v h
