-- ===== src/Ooo/Core.antt =====
-- src/ooo/core.cpp: the dispatch stage, the completion of an instruction, and the flush of the alias
-- table at a mispredicted branch. Of the core's fields, those that these read or change.
pub mod Wakeup
pub mod Sources
pub mod Registers
pub mod Dispatch
pub mod Progress
mod Tests
use multicore_oo_o_sim.Base.{
  ℕ, zero, suc, ◌+◌, Bool, true, false, List, [], ◌∷◌, ◌==◌, if◌then◌else◌, leb, length, inc64,
}
use multicore_oo_o_sim.Ooo.Inst.{Inst}
use multicore_oo_o_sim.Ooo.Rat
use multicore_oo_o_sim.Ooo.SchedQ
use multicore_oo_o_sim.Ooo.Rat.{
  RatEntry, read, write_use, mark_complete, flush_to_ready, allocate_tag,
}
use multicore_oo_o_sim.Ooo.Rob
use multicore_oo_o_sim.Ooo.Rob.{RobEntry, allocate, set_ready}
use multicore_oo_o_sim.Ooo.SchedQ.{SchedEntry, SrcOperand, push_back, wake_dependents, erase_by_tag}

pub record Core : Type 0 where
  pub dispq : List Inst
  pub sq : SchedQ.SchedQ
  pub rob : Rob.Rob
  pub rat : Rat.Rat
  pub schedq_capacity : ℕ
  pub fetch_width : ℕ
  pub rob_no_dispatch_cycles : ℕ

abbrev pub operand : RatEntry → SrcOperand
operand r = record { tag = r.tag; ready = r.ready }

-- The body of the dispatch loop, for the instruction at the front of the queue.
unfoldable pub dispatch_one : Inst → Core → Core
dispatch_one inst c =
    let (tag, rat) = allocate_tag c.rat in
    let re : RobEntry = record {
      ready = false;
      dest_reg = inst.dest;
      dest_tag = tag;
      inst = inst;
    } in
    let (rob_idx, rob) = allocate re c.rob in
    let se : SchedEntry = record {
      inst = inst;
      src1 = operand (read inst.src1 rat);
      src2 = operand (read inst.src2 rat);
      dest_tag = tag;
      rob_idx = rob_idx;
      busy = false;
    } in
    record c { rat = write_use inst.dest tag rat; rob = rob; sq = push_back se c.sq }

-- The loop, over the instructions left in the queue: `dispatched` of them have gone.
unfoldable pub dispatch_loop : List Inst → ℕ → Core → Core
dispatch_loop [] dispatched c = record c { dispq = [] }
dispatch_loop (inst ∷ rest) dispatched c =
    let later = dispatch_loop rest (dispatched + 1) (dispatch_one inst c) in
    if leb c.fetch_width dispatched
    then record c { dispq = inst ∷ rest }
    else (if leb c.schedq_capacity (length c.sq.entries)
        then record c { dispq = inst ∷ rest }
        else (if Rob.full c.rob
            then record c {
              dispq = inst ∷ rest;
              rob_no_dispatch_cycles = inc64 c.rob_no_dispatch_cycles;
            }
            else later))

abbrev pub stage_dispatch : Core → Core
stage_dispatch c = dispatch_loop c.dispq 0 c

unfoldable pub writeback : SchedEntry → Core → Core
writeback s c = record c {
  rat = mark_complete s.inst.dest s.dest_tag c.rat;
  rob = set_ready s.rob_idx c.rob;
  sq = (erase_by_tag s.dest_tag (wake_dependents s.dest_tag c.sq)).1;
}

-- What the retire stage does to the alias table when a mispredicted branch leaves.
unfoldable pub flush : Core → Core
flush c = record c { rat = flush_to_ready c.rat }

-- `oldest->busy = true` in the schedule stage, for the entry at a position of the queue.
unfoldable pub fire_at : ℕ → List SchedEntry → List SchedEntry
fire_at k [] = []
fire_at zero (e ∷ es) = record e { busy = true } ∷ es
fire_at (suc k) (e ∷ es) = e ∷ fire_at k es

-- The constructor of the core.
abbrev pub boot : (rob_entries schedq_entries fetch_width : ℕ) → Core
boot rob_entries schedq_entries fetch_width = record {
  dispq = [];
  sq = SchedQ.make schedq_entries;
  rob = Rob.make rob_entries;
  rat = Rat.make;
  schedq_capacity = schedq_entries;
  fetch_width = fetch_width;
  rob_no_dispatch_cycles = 0;
}
