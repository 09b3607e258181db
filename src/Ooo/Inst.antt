-- ===== src/Ooo/Inst.antt =====
-- include/comparch/ooo/inst.hpp: an instruction as it flows through the pipeline. A register is `none`
-- for `kNoReg`; the payload of a synchronisation token is left out, since the structures only carry it.
use multicore_oo_o_sim.Base.{ℕ, Bool, Option, none, false}

pub data Opcode : Type 0 where
  alu mul load store branch : Opcode

pub record Inst : Type 0 where
  pub pc : ℕ
  pub opcode : Opcode
  pub dest : Option ℕ
  pub src1 : Option ℕ
  pub src2 : Option ℕ
  pub mem_addr : ℕ
  pub branch_taken : Bool
  pub predicted_taken : Bool
  pub mispredict : Bool
  pub dyn_count : ℕ
  pub has_sync_token : Bool

abbrev pub blank_inst : Inst
blank_inst = record {
  pc = 0;
  opcode = alu;
  dest = none;
  src1 = none;
  src2 = none;
  mem_addr = 0;
  branch_taken = false;
  predicted_taken = false;
  mispredict = false;
  dyn_count = 0;
  has_sync_token = false;
}
