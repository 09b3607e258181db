-- ===== src/Ooo/Core/Tests.antt =====
-- The back end on concrete inputs.
use multicore_oo_o_sim.Base.{ℕ, ◌≡◌, refl, Bool, true, false, some, [], ◌∷◌, arith}
use mathlib.Core.List.{Memᴰ}
use multicore_oo_o_sim.Ooo.Inst.{Inst, blank_inst}
use multicore_oo_o_sim.Ooo.Rat
use multicore_oo_o_sim.Ooo.Rob
use multicore_oo_o_sim.Ooo.SchedQ.{SchedEntry, erase_first, wake_operand}
use multicore_oo_o_sim.Ooo.Core.{Core, boot, stage_dispatch, dispatch_loop, dispatch_one, writeback}
use multicore_oo_o_sim.Ooo.Core.Progress.{
  CoreReach, begun, step, fetched, dispatched, completed, oldest_can_fire,
}

-- Two instructions: the second reads what the first writes.
abbrev producer : Inst
producer = record blank_inst { dest = some 3 }

abbrev consumer : Inst
consumer = record blank_inst { src1 = some 3; dest = some 3 }

abbrev filled : Core
filled = record (boot 4 4 2) { dispq = producer ∷ consumer ∷ [] }

abbrev entry : Inst → ℕ → ℕ → Bool → ℕ → SchedEntry
entry inst tag src ready rob_idx = record {
  inst = inst;
  src1 = record { tag = src; ready = ready };
  src2 = record { tag = 0; ready = true };
  dest_tag = tag;
  rob_idx = rob_idx;
  busy = false;
}

-- The operand waits for tag 257.
filled_dispatched :
    (stage_dispatch filled).sq.entries
    ≡ entry producer 257 0 true 0 ∷ entry consumer 258 257 false 1 ∷ []
unfolding dispatch_loop dispatch_one Rat.make Rat.seeded Rat.read Rat.write_use Rat.allocate_tag
    Rob.make Rob.allocate
filled_dispatched = refl

abbrev half_done : Core
half_done = writeback (entry producer 257 0 true 0) (stage_dispatch filled)

half_done_queue : half_done.sq.entries ≡ entry consumer 258 257 true 1 ∷ []
unfolding dispatch_loop dispatch_one Rat.make Rat.seeded Rat.read Rat.write_use Rat.allocate_tag
    Rob.make Rob.allocate writeback erase_first wake_operand
half_done_queue = refl

half_done-CoreReach : CoreReach (boot 4 4 2) half_done
unfolding dispatch_loop dispatch_one Rat.make Rat.seeded Rat.read Rat.write_use Rat.allocate_tag
    Rob.make Rob.allocate
half_done-CoreReach =
    step (step (step begun (fetched (producer ∷ consumer ∷ []))) (dispatched (omega arith)))
      (completed (entry producer 257 0 true 0) (Memᴰ.head refl))

oldest_can_fire_example :
    ((entry consumer 258 257 true 1).src1.ready ≡ true)
    × ((entry consumer 258 257 true 1).src2.ready ≡ true)
oldest_can_fire_example =
    oldest_can_fire 4 4 2 half_done (entry consumer 258 257 true 1) [] half_done-CoreReach
      half_done_queue
