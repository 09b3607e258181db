-- ===== src/Ooo/Classify.antt =====
-- src/ooo/inst.cpp: the instruction that a record of the trace stands for.
pub mod Operands
mod Tests
use multicore_oo_o_sim.Base.{
  ℕ, ◌+◌, ◌≡◌, refl, ◌∙◌, ap, arith, Bool, true, false, Option, none, some, List, [], ◌∷◌, ◌==◌,
  ◌&&◌, ◌||◌, not, if◌then◌else◌, if-cases, Bool-cases, inl, inr,
}
use multicore_oo_o_sim.Trace.Format.{Record, SyncToken}
use multicore_oo_o_sim.Ooo.Inst.{Inst, Opcode, alu, mul, load, store, branch, blank_inst}

unfoldable pub first_nonzero_reg : List ℕ → Option ℕ
first_nonzero_reg [] = none
first_nonzero_reg (r ∷ rs) = if not (r == 0) then some r else first_nonzero_reg rs

unfoldable pub second_from : (found_first : Bool) → List ℕ → Option ℕ
second_from found_first [] = none
second_from found_first (r ∷ rs) =
    let skipped = second_from found_first rs in
    let found = second_from true rs in
    if r == 0 then skipped else (if not found_first then found else some r)

abbrev pub second_nonzero_reg : List ℕ → Option ℕ
second_nonzero_reg regs = second_from false regs

unfoldable pub first_nonzero_addr : List ℕ → ℕ
first_nonzero_addr [] = 0
first_nonzero_addr (a ∷ rest) = if not (a == 0) then a else first_nonzero_addr rest

-- The chain of tests: branch, store, load, multiplication, and the rest.
abbrev pub with_opcode : Record → Inst → Inst
with_opcode rec inst =
    let store_addr = first_nonzero_addr rec.destination_memory in
    let load_addr = first_nonzero_addr rec.source_memory in
    if rec.is_branch
    then (record inst { opcode = branch; branch_taken = rec.branch_taken })
    else (if not (store_addr == 0)
        then (record inst { opcode = store; mem_addr = store_addr })
        else (if not (load_addr == 0)
            then (record inst { opcode = load; mem_addr = load_addr })
            else (if rec.is_mul
                then (record inst { opcode = mul })
                else (record inst { opcode = alu }))))

abbrev pub with_operands : Record → Inst → Inst
with_operands rec inst = record inst {
  dest = first_nonzero_reg rec.destination_registers;
  src1 = first_nonzero_reg rec.source_registers;
  src2 = second_nonzero_reg rec.source_registers;
}

abbrev pub classified : Option SyncToken → Record → Inst → Inst
classified (some token) rec inst = record inst { opcode = alu; has_sync_token = true }
classified none rec inst = with_operands rec (with_opcode rec inst)

unfoldable pub classify : Record → ℕ → Inst
classify rec dyn_count =
    classified rec.sync_token rec (record blank_inst { pc = rec.ip; dyn_count = dyn_count })
