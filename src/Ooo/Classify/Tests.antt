-- ===== src/Ooo/Classify/Tests.antt =====
-- The classifier on concrete records.
use multicore_oo_o_sim.Base.{◌≡◌, refl, true, false, none, some, [], ◌∷◌}
use multicore_oo_o_sim.Trace.Format.{Record}
use multicore_oo_o_sim.Ooo.Inst.{load}
use multicore_oo_o_sim.Ooo.Classify.{second_from, first_nonzero_addr, classify}
use multicore_oo_o_sim.Ooo.Classify.Operands.{HasOperands, classify-HasOperands}

abbrev load_record : Record
load_record = record {
  ip = 4096;
  is_branch = false;
  branch_taken = false;
  is_mul = true;
  destination_registers = 0 ∷ 200 ∷ [];
  source_registers = 0 ∷ 7 ∷ 0 ∷ 9 ∷ [];
  destination_memory = 0 ∷ 0 ∷ [];
  source_memory = 0 ∷ 64 ∷ 0 ∷ 0 ∷ [];
  sync_token = none;
}

load_opcode : (classify load_record 5).opcode ≡ load
unfolding classify first_nonzero_addr
load_opcode = refl

load_second : (classify load_record 5).src2 ≡ some 9
unfolding classify second_from
load_second = refl

classify-HasOperands_example : HasOperands load_record (classify load_record 5)
classify-HasOperands_example = classify-HasOperands load_record 5 refl
